-- ===== src/Produce/Accumulator/Upkeep.antt =====
-- kafka-produce/src/accumulator.rs: what the actor does for a transactional producer, and when it
-- wakes on its own.
use kaas_lib.Prelude.{
  ℕ, ◌+◌, min, Bool, ◌&&◌, not, if◌then◌else◌, Option, none, some, List, [], ◌∷◌, ◌++◌, is_empty,
}
use kaas_lib.Prelude.Int.{ℤ-discrete}
use kaas_lib.Prelude.Map.{lookup, insert}
use kaas_lib.Prelude.Text.{TopicPartition, TopicPartition-discrete}
use kaas_lib.Conn.Errors.{Error}
use kaas_lib.Produce.Idempotence.{ProducerIdentity, reset}
use kaas_lib.Produce.Accumulator.Types.{Queued, Batch, PartitionState, Config, Outcome}
use kaas_lib.Produce.Accumulator.Buffer.{fail_all, all_records}
use kaas_lib.Produce.Accumulator.Actor.{Partitions, Actor, has_work, has_identity}
use mathlib.Core.Logic.{ite}

unfoldable pub identity-discrete : Discrete (Option ProducerIdentity)
unfolding ℤ-discrete
identity-discrete = hlevel ℤ-discrete

-- `ensure_identity` of a transactional producer: a changed identity restarts the numbering.
unfoldable pub adopt_identity : Option ProducerIdentity → Actor → Actor
adopt_identity current a =
    ite (identity-discrete current a.identity) a
      (record a { sequences = reset a.sequences; identity = current })

-- The partitions with a batch that could go now.
unfoldable pub waiting : Partitions → List TopicPartition
waiting [] = []
waiting ((k, s) ∷ ps) =
    let rest = waiting ps in if not s.in_flight && not (is_empty s.pending) then k ∷ rest else rest

-- Those of them that the coordinator has not been told about.
unfoldable pub unenrolled : (TopicPartition → Bool) → List TopicPartition → List TopicPartition
unenrolled enrolled [] = []
unenrolled enrolled (k ∷ ks) =
    let rest = unenrolled enrolled ks in if enrolled k then rest else k ∷ rest

-- The closed batches of one partition fail: `std::mem::take(&mut state.pending)`.
abbrev pub fail_pending :
    Error → Option PartitionState → TopicPartition → Partitions → Partitions × List (ℕ × Outcome)
fail_pending e none k ps = (ps, [])
fail_pending e (some s) k ps = (
  insert TopicPartition-discrete k (record s { pending = [] }) ps,
  fail_all e (all_records s.pending),
)

unfoldable pub fail_missing :
    Error → List TopicPartition → Partitions → Partitions × List (ℕ × Outcome)
fail_missing e [] ps = (ps, [])
fail_missing e (k ∷ ks) ps =
    let (ps', answers) = fail_pending e (lookup TopicPartition-discrete k ps) k ps in
    let (ps'', rest) = fail_missing e ks ps' in (ps'', answers ++ rest)

-- The match on how the enrolment ended; `none` is success.
abbrev pub after_enrol : Option Error → List TopicPartition → Actor → Actor × List (ℕ × Outcome)
after_enrol none missing a = (a, [])
after_enrol (some e) missing a =
    let (ps, answers) = fail_missing e missing a.partitions in
    (record a { partitions = ps }, answers)

-- `ensure_enrolled`, with what the transaction says and how the coordinator would answer.
unfoldable pub ensure_enrolled :
    Bool → (TopicPartition → Bool) → Option Error → Actor → Actor × List (ℕ × Outcome)
unfolding waiting unenrolled fail_missing
ensure_enrolled transaction_open enrolled enrol a =
    if not transaction_open
    then (a, [])
    else let missing = unenrolled enrolled (waiting a.partitions) in
      if is_empty missing then (a, []) else after_enrol enrol missing a

-- The earlier of two moments that may not be.
abbrev pub earlier : Option ℕ → Option ℕ → Option ℕ
earlier none b = b
earlier (some a) none = some a
earlier (some a) (some b) = some (min a b)

-- `[open, identity_retry.map(|delay| now + delay)]`, the earlier.
unfoldable pub earliest_wake : Option ℕ → Option ℕ → ℕ → Option ℕ
earliest_wake opens none now = opens
earliest_wake opens (some delay) now = earlier opens (some (now + delay))

unfoldable pub earliest_deadline : List Queued → Option ℕ
earliest_deadline [] = none
earliest_deadline (q ∷ qs) = earlier (some q.deadline) (earliest_deadline qs)

abbrev pub linger_end : ℕ → Option Batch → Option ℕ
linger_end linger none = none
linger_end linger (some b) = some (b.opened_at + linger)

abbrev pub open_deadline : Option Batch → Option ℕ
open_deadline none = none
open_deadline (some b) = earliest_deadline b.records

unfoldable pub pending_deadline : List Batch → Option ℕ
pending_deadline [] = none
pending_deadline (b ∷ bs) = earlier (earliest_deadline b.records) (pending_deadline bs)

unfoldable pub first_linger_end : ℕ → Partitions → Option ℕ
first_linger_end linger [] = none
first_linger_end linger ((k, s) ∷ ps) =
    earlier (linger_end linger s.open_batch) (first_linger_end linger ps)

unfoldable pub first_expiry : Partitions → Option ℕ
unfolding pending_deadline earliest_deadline
first_expiry [] = none
first_expiry ((k, s) ∷ ps) =
    earlier (earlier (open_deadline s.open_batch) (pending_deadline s.pending)) (first_expiry ps)

-- The earliest moment at which the actor must wake on its own. `retry_delay` is the policy's delay
-- before the next claim of an identity.
unfoldable pub next_deadline : Config → ℕ → ℕ → Actor → Option ℕ
unfolding first_linger_end first_expiry earliest_wake
next_deadline c retry_delay now a =
    let blocked = c.idempotent && (not (has_identity a.identity) && has_work a.partitions) in
    earlier
      (earliest_wake (first_linger_end c.linger a.partitions)
        (if blocked then some retry_delay else none) now)
      (first_expiry a.partitions)
