-- ===== src/Consume/Session.antt =====
-- kafka-consume/src/session.rs: KIP-227 incremental fetch sessions.
-- A map is an association list in no particular order, so an iteration over it is in any order.
pub mod Broker
pub mod Changes
pub mod Sync
pub mod History
mod Tests
use kaas_lib.Prelude.{Option, none, some, List, [], ◌∷◌, Bool, true, false, if◌then◌else◌}
use kaas_lib.Prelude.Int.{ℤ, pos, eq_ℤ}
use kaas_lib.Prelude.Words.{i32_saturating_add}
use kaas_lib.Prelude.Map.{keys, lookup, set_insert}
use kaas_lib.Prelude.Text.{TopicPartition, TopicPartition-discrete}
use kaas_lib.Conn.ErrorCode.{ErrorCode, fetch_session_id_not_found, invalid_fetch_session_epoch}

-- The epoch that opens a new session, and the session id meaning "no session yet".
abbrev pub initial_epoch : ℤ
initial_epoch = pos 0

abbrev pub no_session : ℤ
no_session = pos 0

-- What one partition's fetch state looks like to the broker.
pub record PartitionState : Type 0 where
  pub offset : ℤ
  pub max_bytes : ℤ

abbrev pub Assignment : Type 0
Assignment = List (TopicPartition × PartitionState)

-- One broker's session: what the broker has been told, and what it should forget.
pub record FetchSession : Type 0 where
  pub id : ℤ
  pub epoch : ℤ
  pub known : Assignment
  pub forgotten : List TopicPartition

-- What one request carries.
pub record Delta : Type 0 where
  pub session_id : ℤ
  pub session_epoch : ℤ
  pub include : Assignment
  pub forget : List TopicPartition
  pub full : Bool

-- `FetchSession::default()`
unfoldable pub new : FetchSession
new = record { id = no_session; epoch = initial_epoch; known = []; forgotten = [] }

-- `self.known.get(key) == Some(state)`
abbrev pub is_known : Option PartitionState → PartitionState → Bool
is_known (some s) t = if eq_ℤ s.offset t.offset then eq_ℤ s.max_bytes t.max_bytes else false
is_known none t = false

-- The wanted partitions whose state the broker does not already know.
unfoldable pub changed : Assignment → Assignment → Assignment
changed known [] = []
changed known ((key, state) ∷ wanted) =
    let rest = changed known wanted in
    if is_known (lookup TopicPartition-discrete key known) state then rest else (key, state) ∷ rest

-- `if !wanted.contains_key(key) { self.forgotten.insert(key) }`
abbrev pub remember :
    Option PartitionState → TopicPartition → List TopicPartition → List TopicPartition
remember (some _) key forgotten = forgotten
remember none key forgotten = set_insert TopicPartition-discrete key forgotten

-- The loop over `known.keys()`: what is no longer wanted joins `forgotten`.
unfoldable pub forget_gone :
    Assignment → List TopicPartition → List TopicPartition → List TopicPartition
forget_gone wanted forgotten [] = forgotten
forget_gone wanted forgotten (key ∷ ks) =
    forget_gone wanted (remember (lookup TopicPartition-discrete key wanted) key forgotten) ks

-- What the next request carries, and the session that records that it was sent.
unfoldable pub next : FetchSession → Assignment → FetchSession × Delta
next s wanted =
    let full = eq_ℤ s.id no_session in
    (
      record s { known = wanted; forgotten = [] },
      record {
        session_id = s.id;
        session_epoch = if full then initial_epoch else s.epoch;
        include = if full then wanted else changed s.known wanted;
        forget = forget_gone wanted s.forgotten (keys s.known);
        full = full;
      },
    )

-- Adopt the session that the broker answered with.
unfoldable pub accept : FetchSession → ℤ → ℤ → FetchSession
accept s session_id responded_epoch = record s {
  id = session_id;
  epoch = i32_saturating_add responded_epoch (pos 1);
}

-- Throw the session away and go back to a full fetch.
unfoldable pub reset : FetchSession → FetchSession
unfolding new
reset s = new

-- Whether an error means that the broker dropped the session.
unfoldable pub session_lost : ErrorCode → Bool
session_lost fetch_session_id_not_found = true
session_lost invalid_fetch_session_epoch = true
session_lost _ = false
