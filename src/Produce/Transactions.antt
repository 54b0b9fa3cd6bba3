-- ===== src/Produce/Transactions.antt =====
-- kafka-produce/src/transactions.rs: the transactional state of a producer.
-- An operation that asks a coordinator holds the lock only before and after the request: it is a
-- check of the state, and a completion that the answer is given to, with any other steps in between.
-- The answer that the reask loop ends with is an argument. A poisoned lock is not modelled. The texts
-- of the messages and the codec's reading of a code are parameters.
pub mod Operations
pub mod Laws
pub mod Enrolment
mod Tests
use kaas_lib.Prelude.{
  Option, none, some, List, [], ◌∷◌, ◌++◌, Bool, true, false, not, ◌||◌, if◌then◌else◌, is_empty,
  filter, String,
}
use kaas_lib.Prelude.Int.{ℤ, pos, eq_ℤ, leb_ℤ}
use kaas_lib.Prelude.Map.{lookup, insert, contains, set_insert}
use kaas_lib.Prelude.Text.{String-discrete, TopicPartition, TopicPartition-discrete}
use kaas_lib.Conn.ErrorCode.{
  ErrorCode, not_coordinator, coordinator_not_available, coordinator_load_in_progress,
  concurrent_transactions, producer_fenced, invalid_producer_epoch,
}
use kaas_lib.Conn.Errors.{Error, invalid_request, from_code, code_of}
use kaas_lib.Conn.Sanitize.{Text}
use kaas_lib.Meta.Retry.Reask.{Result, ok, err, Verdict, settled, reask_as}
use kaas_lib.Produce.Idempotence.{ProducerIdentity}

-- The codes that say to ask the coordinator again.
unfoldable pub coordinator_not_ready : ErrorCode → Bool
coordinator_not_ready not_coordinator = true
coordinator_not_ready coordinator_not_available = true
coordinator_not_ready coordinator_load_in_progress = true
coordinator_not_ready concurrent_transactions = true
coordinator_not_ready _ = false

pub record State : Type 0 where
  pub identity : Option ProducerIdentity
  pub is_open : Bool
  pub enrolled : List TopicPartition
  pub fenced : Bool

-- `State::default()`
abbrev pub fresh_state : State
fresh_state = record { identity = none; is_open = false; enrolled = []; fenced = false }

-- What the operations take from elsewhere: the codec's reading of a code, and the texts.
pub record Texts : Type 0 where
  pub read_code : ℤ → Option ErrorCode
  pub to_string : ErrorCode → Text
  pub taken_over : Text
  pub no_identity : Text
  pub init_first : Text
  pub already_open : Text
  pub not_open : Text
  pub could_not_add : String → ℤ → Text
  pub could_not_commit : String → ℤ → Text

-- Whether an error says that another producer has taken over.
abbrev pub is_fencing : Option ErrorCode → Bool
is_fencing (some producer_fenced) = true
is_fencing (some invalid_producer_epoch) = true
is_fencing _ = false

-- Notes a fencing error: the state is fenced, and nothing is open any more.
unfoldable pub note : Error → State → State
note e s = if is_fencing (code_of e) then record s { fenced = true; is_open = false } else s

module _ (t : Texts) where
  open t use {read_code, to_string, taken_over, no_identity, init_first, already_open, not_open}

  unfoldable pub fenced_error : Error
  fenced_error = from_code to_string producer_fenced (some taken_over)

  -- `check_live` before the rest of an operation.
  abbrev pub check_live : {A : Type 0} → State → Result Error A → Result Error A
  check_live s rest = if s.fenced then err fenced_error else rest

  abbrev pub claimed : Text → Option ProducerIdentity → Result Error ProducerIdentity
  claimed text none = err (invalid_request text)
  claimed text (some identity) = ok identity

  -- The check of `send_offsets` and of `end`: the identity of an open transaction.
  unfoldable pub check_open : State → Result Error ProducerIdentity
  check_open s =
      check_live s
        (if s.is_open then claimed no_identity s.identity else err (invalid_request not_open))

  -- What one round of `call_coordinator` concludes, and whether it drops the cached coordinator.
  module _ {R : Type 0} (code : R → ℤ) where
    abbrev pub verdict_of : Option ErrorCode → R → Verdict Error R × Bool
    verdict_of none r = (settled r, false)
    verdict_of (some concurrent_transactions) r = (reask_as (ok r), false)
    verdict_of (some c) r =
        if coordinator_not_ready c then (reask_as (ok r), true) else (settled r, false)

    unfoldable pub attempt : Result Error R → Result Error (Verdict Error R) × Bool
    attempt (err e) = (err e, false)
    attempt (ok r) = let (v, drop) = verdict_of (read_code (code r)) r in (ok v, drop)

    abbrev pub judge_code : Option ErrorCode → R → State → Result Error R × State
    judge_code none r s = (ok r, s)
    judge_code (some c) r s = let e = from_code to_string c none in (err e, note e s)

    -- What `call_coordinator` makes of the answer that the reask loop ended with.
    unfoldable pub call : Result Error R → State → Result Error R × State
    call (err e) s = (err e, s)
    call (ok r) s = judge_code (read_code (code r)) r s

-- `by_topic.entry(topic).or_default().push(value)`
abbrev pub pushed : {V : Type 0} → Option (List V) → V → List V
pushed none v = v ∷ []
pushed (some vs) v = vs ++ (v ∷ [])

unfoldable pub by_topic :
    {V : Type 0} → List (String × List V) → List (String × V) → List (String × List V)
by_topic groups [] = groups
by_topic groups ((topic, v) ∷ rest) =
    by_topic (insert String-discrete topic (pushed (lookup String-discrete topic groups) v) groups)
      rest
