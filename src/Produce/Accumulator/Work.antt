-- ===== src/Produce/Accumulator/Work.antt =====
-- kafka-produce/src/accumulator.rs: the work of `Actor::run`, one step at a time, and properties of
-- every partition.
use kaas_lib.Prelude.{
  ℕ, Bool, Bool-cases, inl, inr, Option, none, some, List, [], ◌∷◌, All, concat_map,
}
use kaas_lib.Prelude.Map.{lookup, insert}
use kaas_lib.Prelude.Text.{TopicPartition, TopicPartition-discrete}
use kaas_lib.Conn.Errors.{Error, Codec}
use kaas_lib.Produce.Idempotence.{ProducerIdentity, no_sequences}
use kaas_lib.Produce.Accumulator.Types.{PartitionState, Config, Completed, Outcome, idle}
use kaas_lib.Produce.Accumulator.Actor.{
  Partitions, Actor, map_states, map_answering, close_all, close_expired, Command, handle, settle,
  Claim, ensure_identity, expire_overdue, Surroundings, dispatch_ready, settle_flushes, retain_busy,
  forget_idle,
}
use kaas_lib.Produce.Accumulator.Upkeep.{adopt_identity, ensure_enrolled}
use mathlib.Core.Logic.{ite}

-- What the actor does: a command, a tick's upkeep, a settled send task, a turn of dispatch.
pub data Work : Type 0 where
  command : ℕ → Command → Work
  tick close_due : ℕ → Work
  completed : Completed → Work
  claim_identity : Codec → Claim → Work
  adopt : Option ProducerIdentity → Work
  enrol : Bool → (TopicPartition → Bool) → Option Error → Work
  dispatch : Surroundings → Work
  drain answer_flushes forget : Work

module _ (c : Config) where
  unfoldable pub perform : Work → Actor → Actor
  perform (command now cmd) a = handle c now cmd a
  perform (tick now) a = (expire_overdue c now a).0
  perform (close_due now) a = close_expired c now a
  perform (completed done) a = settle done a
  perform (claim_identity codec claim) a = (ensure_identity c codec claim a).0
  perform (adopt current) a = adopt_identity current a
  perform (enrol transaction_open enrolled answer) a =
      (ensure_enrolled transaction_open enrolled answer a).0
  perform (dispatch env) a = (dispatch_ready c env a).0
  perform drain a = close_all a
  perform answer_flushes a = (settle_flushes a).0
  perform forget a = forget_idle a

  unfoldable pub perform_all : List Work → Actor → Actor
  perform_all [] a = a
  perform_all (w ∷ ws) a = perform_all ws (perform w a)

-- Why a turn of the loop starts: a command, the last handle gone, a settled send task, the timer.
pub data Wake : Type 0 where
  received : Command → Wake
  handles_gone timer : Wake
  finished : Completed → Wake

-- What the clock and the other components say during one turn. `transactions` is the identity of a
-- transactional producer, and none for any other producer.
pub record World : Type 0 where
  pub now : ℕ
  pub codec : Codec
  pub claim : Claim
  pub transactions : Option (Option ProducerIdentity)
  pub enrol_answer : Option Error
  pub surroundings : Surroundings

abbrev pub wake_work : Wake → ℕ → Work
wake_work (received cmd) now = command now cmd
wake_work handles_gone now = drain
wake_work (finished done) now = completed done
wake_work timer now = close_due now

abbrev pub identity_work : Option (Option ProducerIdentity) → Codec → Claim → Work
identity_work (some current) codec claim = adopt current
identity_work none codec claim = claim_identity codec claim

-- One turn of the loop of `Actor::run`, in the order of its calls.
unfoldable pub cycle : Wake × World → List Work
cycle (wake, w) =
    wake_work wake w.now
    ∷ tick w.now
    ∷ identity_work w.transactions w.codec w.claim
    ∷ enrol w.surroundings.transactional w.surroundings.enrolled w.enrol_answer
    ∷ dispatch w.surroundings
    ∷ answer_flushes
    ∷ forget
    ∷ []

-- An actor that was just spawned.
abbrev pub spawned : Actor
spawned = record {
  partitions = [];
  flush_waiters = [];
  identity = none;
  identity_attempts = 0;
  sequences = no_sequences;
}

-- The actor after some turns of the loop.
unfoldable pub run_loop : Config → List (Wake × World) → Actor
unfolding perform_all cycle
run_loop c turns = perform_all c (concat_map cycle turns) spawned

-- A property of each partition's state.
abbrev pub Every : (PartitionState → Type 0) → Partitions → Type 0
Every P ps = All (λ entry. P entry.1) ps

abbrev dec : Discrete TopicPartition
dec = TopicPartition-discrete

module _ (P : PartitionState → Type 0) where
  pub map_states-Every :
      (f : PartitionState → PartitionState)
      → ((s : PartitionState) → P s → P (f s))
      → (ps : Partitions) → Every P ps
      → Every P (map_states f ps)
  unfolding map_states
  map_states-Every f keeps [] h = tt
  map_states-Every f keeps ((k, s) ∷ ps) h = (keeps s h.0, map_states-Every f keeps ps h.1)

  pub map_answering-Every :
      (f : PartitionState → PartitionState × List (ℕ × Outcome))
      → ((s : PartitionState) → P s → P (f s).0)
      → (ps : Partitions) → Every P ps
      → Every P (map_answering f ps).0
  unfolding map_answering
  map_answering-Every f keeps [] h = tt
  map_answering-Every f keeps ((k, s) ∷ ps) h = (keeps s h.0, map_answering-Every f keeps ps h.1)

  pub insert-Every :
      (k : TopicPartition) (s : PartitionState) (ps : Partitions)
      → P s
      → Every P ps
      → Every P (insert dec k s ps)
  unfolding insert
  insert-Every k s [] p h = (p, tt)
  insert-Every k s ((j, t) ∷ ps) p h =
      elim (dec j k) as (λ d. Every P (ite d ((k, s) ∷ ps) ((j, t) ∷ insert dec k s ps))) [
        | yes e ↦ (p, h.1)
        | no d ↦ (h.0, insert-Every k s ps p h.1)
      ]

  -- What `lookup` finds has the property too.
  abbrev pub Found : Option PartitionState → Type 0
  Found none = Unit {0}
  Found (some s) = P s

  pub lookup-Found : (k : TopicPartition) (ps : Partitions) → Every P ps → Found (lookup dec k ps)
  unfolding lookup
  lookup-Found k [] h = tt
  lookup-Found k ((j, t) ∷ ps) h =
      elim (dec j k) as (λ d. Found (ite d (some t) (lookup dec k ps))) [
        | yes e ↦ h.0
        | no d ↦ lookup-Found k ps h.1
      ]

  pub retain_busy-Every : (ps : Partitions) → Every P ps → Every P (retain_busy ps)
  unfolding retain_busy
  retain_busy-Every [] h = tt
  retain_busy-Every ((k, s) ∷ ps) h = elim (Bool-cases (idle s)) [
    | inl quiet ↦ rw quiet (retain_busy-Every ps h.1)
    | inr busy ↦ rw busy (h.0, retain_busy-Every ps h.1)
  ]
