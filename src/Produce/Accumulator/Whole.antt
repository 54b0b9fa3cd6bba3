-- ===== src/Produce/Accumulator/Whole.antt =====
-- The actor as a whole: every batch of every partition stays within its bounds.
use kaas_lib.Prelude.{
  ℕ, Bool, true, false, ◌&&◌, ◌||◌, not, Bool-cases, inl, inr, Option, none, some, List, [], ◌∷◌,
  is_empty, concat_map,
}
use kaas_lib.Prelude.Int.{ℤ}
use kaas_lib.Prelude.Text.{TopicPartition}
use kaas_lib.Conn.Errors.{Error, Codec, retriable}
use kaas_lib.Produce.Idempotence.{ProducerIdentity, Sequences, reset}
use kaas_lib.Produce.Accumulator.Types.{Queued, PartitionState, Config, Ready, Completed}
use kaas_lib.Produce.Accumulator.Buffer.{close, fail_state}
use kaas_lib.Produce.Accumulator.Actor.{
  Partitions, Actor, or_new_state, append, close_all, close_expired, Command, append_to, flush,
  handle, land, land_all, settle, Claim, claimed, refused, take_claim, ensure_identity,
  has_identity, has_work, expire_overdue, Surroundings, dispatch_one, push_group, dispatch_all,
  dispatch_ready, is_idle, settle_flushes, forget_idle,
}
use kaas_lib.Produce.Accumulator.Upkeep.{
  identity-discrete, adopt_identity, waiting, unenrolled, fail_pending, fail_missing, after_enrol,
  ensure_enrolled,
}
use kaas_lib.Produce.Accumulator.Bounds.{
  IsSane, StateInv, close-StateInv, close_lingered-StateInv, append_record-StateInv,
}
use kaas_lib.Produce.Accumulator.Expiry.{expire-StateInv}
use kaas_lib.Produce.Accumulator.History.{dispatch_one-StateInv}
use mathlib.Core.Logic.{ite}
use kaas_lib.Produce.Accumulator.Work.{
  Work, command, tick, close_due, completed, claim_identity, adopt, enrol, dispatch, answer_flushes,
  drain, forget, cycle, Wake, World, run_loop, perform, perform_all, spawned, Every, Found,
  map_states-Every, map_answering-Every, insert-Every, lookup-Found, retain_busy-Every,
}

-- Every buffered batch of every partition is within its bounds.
abbrev pub Bounded : Config → Partitions → Type 0
Bounded c ps = Every (StateInv c) ps

module _ (c : Config) (sane : IsSane c) where
  or_new_state-StateInv :
      (o : Option PartitionState) → Found (StateInv c) o → StateInv c (or_new_state o)
  or_new_state-StateInv none h = record { accepting = tt; sendable = tt }
  or_new_state-StateInv (some s) h = h

  append-Bounded :
      (key : TopicPartition) (q : Queued) (now : ℕ) (a : Actor)
      → Bounded c a.partitions
      → Bounded c (append c key q now a).partitions
  unfolding append
  append-Bounded key q now a h =
      insert-Every (StateInv c) key _ a.partitions
        (append_record-StateInv c sane q now _
          (or_new_state-StateInv _ (lookup-Found (StateInv c) key a.partitions h)))
        h

  handle-Bounded :
      (now : ℕ) (cmd : Command) (a : Actor)
      → Bounded c a.partitions
      → Bounded c (handle c now cmd a).partitions
  unfolding handle
  handle-Bounded now (append_to key q) a h = append-Bounded key q now a h
  handle-Bounded now (flush waiter) a h =
      unfold close_all in map_states-Every (StateInv c) close (close-StateInv c sane) a.partitions h

  land-Bounded :
      (o : Option PartitionState) (key : TopicPartition) (ps : Partitions)
      → Found (StateInv c) o
      → Bounded c ps
      → Bounded c (land o key ps)
  land-Bounded none key ps f h = h
  land-Bounded (some s) key ps f h =
      insert-Every (StateInv c) key _ ps (record { accepting = f.accepting; sendable = f.sendable })
        h

  land_all-Bounded :
      (ks : List TopicPartition) (ps : Partitions) → Bounded c ps → Bounded c (land_all ks ps)
  unfolding land_all
  land_all-Bounded [] ps h = h
  land_all-Bounded (k ∷ ks) ps h =
      land_all-Bounded ks _ (land-Bounded _ k ps (lookup-Found (StateInv c) k ps h) h)

  settle-Bounded :
      (done : Completed) (a : Actor) → Bounded c a.partitions → Bounded c (settle done a).partitions
  unfolding settle
  settle-Bounded done a h = elim (Bool-cases done.reset_identity) [
    | inl lost ↦ rw lost (land_all-Bounded done.partitions a.partitions h)
    | inr kept ↦ rw kept (land_all-Bounded done.partitions a.partitions h)
  ]

  fail_state-StateInv :
      (e : Error) (s : PartitionState) → StateInv c s → StateInv c (fail_state e s).0
  unfolding fail_state
  fail_state-StateInv e s h = record { accepting = tt; sendable = tt }

  take_claim-Bounded :
      (codec : Codec) (claim : Claim) (a : Actor)
      → Bounded c a.partitions
      → Bounded c (take_claim codec claim a).0.partitions
  take_claim-Bounded codec (claimed identity) a h = h
  take_claim-Bounded codec (refused e) a h = elim (Bool-cases (retriable codec e)) [
    | inl again ↦ rw again h
    | inr over ↦
        rw over
          (map_answering-Every (StateInv c) (fail_state e) (fail_state-StateInv e) a.partitions h)
  ]

  ensure_identity-Bounded :
      (codec : Codec) (claim : Claim) (a : Actor)
      → Bounded c a.partitions
      → Bounded c (ensure_identity c codec claim a).0.partitions
  unfolding ensure_identity
  ensure_identity-Bounded codec claim a h =
      elim (Bool-cases
        (not c.idempotent || (has_identity a.identity || not (has_work a.partitions)))) [
          | inl settled ↦ rw settled h
          | inr needed ↦ rw needed (take_claim-Bounded codec claim a h)
        ]

  adopt_identity-Bounded :
      (current : Option ProducerIdentity) (a : Actor)
      → Bounded c a.partitions
      → Bounded c (adopt_identity current a).partitions
  unfolding adopt_identity
  adopt_identity-Bounded current a h =
      elim (identity-discrete current a.identity)
        as (λ d.
          Bounded c
            (ite d a (record a { sequences = reset a.sequences; identity = current })).partitions) [
              | yes e ↦ h
              | no d ↦ h
            ]

  fail_pending-Bounded :
      (e : Error) (o : Option PartitionState) (key : TopicPartition) (ps : Partitions)
      → Found (StateInv c) o
      → Bounded c ps
      → Bounded c (fail_pending e o key ps).0
  fail_pending-Bounded e none key ps f h = h
  fail_pending-Bounded e (some s) key ps f h =
      insert-Every (StateInv c) key _ ps (record { accepting = f.accepting; sendable = tt }) h

  fail_missing-Bounded :
      (e : Error) (ks : List TopicPartition) (ps : Partitions)
      → Bounded c ps
      → Bounded c (fail_missing e ks ps).0
  unfolding fail_missing
  fail_missing-Bounded e [] ps h = h
  fail_missing-Bounded e (k ∷ ks) ps h =
      fail_missing-Bounded e ks _
        (fail_pending-Bounded e _ k ps (lookup-Found (StateInv c) k ps h) h)

  after_enrol-Bounded :
      (answer : Option Error) (missing : List TopicPartition) (a : Actor)
      → Bounded c a.partitions
      → Bounded c (after_enrol answer missing a).0.partitions
  after_enrol-Bounded none missing a h = h
  after_enrol-Bounded (some e) missing a h = fail_missing-Bounded e missing a.partitions h

  ensure_enrolled-Bounded :
      (transaction_open : Bool) (enrolled : TopicPartition → Bool) (answer : Option Error)
      (a : Actor)
      → Bounded c a.partitions
      → Bounded c (ensure_enrolled transaction_open enrolled answer a).0.partitions
  unfolding ensure_enrolled
  ensure_enrolled-Bounded false enrolled answer a h = h
  ensure_enrolled-Bounded true enrolled answer a h =
      elim (Bool-cases (is_empty (unenrolled enrolled (waiting a.partitions)))) [
        | inl covered ↦ rw covered h
        | inr missing ↦
            rw missing (after_enrol-Bounded answer (unenrolled enrolled (waiting a.partitions)) a h)
      ]

  dispatch_all-Bounded :
      (env : Surroundings) (identity : Option ProducerIdentity) (ps : Partitions) (s : Sequences)
      (groups : List (Option ℤ × List Ready))
      → Bounded c ps
      → Bounded c (dispatch_all env identity ps s groups).0
  unfolding dispatch_all
  dispatch_all-Bounded env identity [] s groups h = tt
  dispatch_all-Bounded env identity ((k, st) ∷ ps) s groups h =
      let turn = dispatch_one env identity k st s in
      (
        dispatch_one-StateInv c sane identity k env st s h.0,
        dispatch_all-Bounded env identity ps turn.sequences
            (push_group (env.leader k) turn.sent groups) h.1,
      )

  dispatch_ready-Bounded :
      (env : Surroundings) (a : Actor)
      → Bounded c a.partitions
      → Bounded c (dispatch_ready c env a).0.partitions
  unfolding dispatch_ready
  dispatch_ready-Bounded env a h =
      elim (Bool-cases (c.idempotent && not (has_identity a.identity))) [
        | inl blocked ↦ rw blocked h
        | inr free ↦ rw free (dispatch_all-Bounded env a.identity a.partitions a.sequences [] h)
      ]

  settle_flushes-Bounded :
      (a : Actor) → Bounded c a.partitions → Bounded c (settle_flushes a).0.partitions
  unfolding settle_flushes
  settle_flushes-Bounded a h =
      elim (Bool-cases (is_empty a.flush_waiters || not (is_idle a.partitions))) [
        | inl waits ↦ rw waits h
        | inr done ↦ rw done h
      ]

  perform-Bounded :
      (w : Work) (a : Actor) → Bounded c a.partitions → Bounded c (perform c w a).partitions
  unfolding perform
  perform-Bounded (command now cmd) a h = handle-Bounded now cmd a h
  perform-Bounded (tick now) a h =
      unfold expire_overdue in
      map_answering-Every (StateInv c) _ (expire-StateInv c sane now c.delivery_timeout)
        a.partitions h
  perform-Bounded (close_due now) a h =
      unfold close_expired in
      map_states-Every (StateInv c) _ (close_lingered-StateInv c sane now) a.partitions h
  perform-Bounded (completed done) a h = settle-Bounded done a h
  perform-Bounded (claim_identity codec claim) a h = ensure_identity-Bounded codec claim a h
  perform-Bounded (adopt current) a h = adopt_identity-Bounded current a h
  perform-Bounded (enrol open_now enrolled answer) a h =
      ensure_enrolled-Bounded open_now enrolled answer a h
  perform-Bounded (dispatch env) a h = dispatch_ready-Bounded env a h
  perform-Bounded drain a h =
      unfold close_all in map_states-Every (StateInv c) close (close-StateInv c sane) a.partitions h
  perform-Bounded answer_flushes a h = settle_flushes-Bounded a h
  perform-Bounded forget a h = unfold forget_idle in retain_busy-Every (StateInv c) a.partitions h

  perform_all-Bounded :
      (ws : List Work) (a : Actor)
      → Bounded c a.partitions
      → Bounded c (perform_all c ws a).partitions
  unfolding perform_all
  perform_all-Bounded [] a h = h
  perform_all-Bounded (w ∷ ws) a h = perform_all-Bounded ws (perform c w a) (perform-Bounded w a h)

  -- With the size bounds below the largest `usize`, after any turns of the actor's loop, whatever the
  -- commands, the clock and the other components were, every batch that the actor buffers for any
  -- partition has a record, its bytes are what its records cost, and it is within both size bounds
  -- unless it has one record only; an open batch has not reached the target.
  pub run_loop-Bounded : (turns : List (Wake × World)) → Bounded c (run_loop c turns).partitions
  unfolding run_loop
  run_loop-Bounded turns = perform_all-Bounded (concat_map cycle turns) spawned tt
