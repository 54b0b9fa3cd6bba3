-- ===== src/Consume/Consumer.antt =====
-- kafka-consume/src/consumer.rs: the consumer of assigned partitions, `Consumer`.
-- A map is an association list in no particular order. What the cluster answers (topics, leaders,
-- committed offsets, bounds of logs, and the fetches of `BrokerFetcher`) is an argument; the fetchers
-- themselves, and so which brokers are asked, are left out.
pub mod Reassign
pub mod Deliver
pub mod Fetches
mod Tests
use kaas_lib.Prelude.{
  ℕ, Bool, true, false, not, ◌&&◌, if◌then◌else◌, is_empty, filter, map, concat_map, Option, none,
  some, List, [], ◌∷◌, ◌++◌, String, is_yes,
}
use kaas_lib.Prelude.Int.{ℤ, pos, negsuc, leb_ℤ, ltb_ℤ, ◌-ℤ◌}
use kaas_lib.Prelude.Words.{i64_saturating_add}
use kaas_lib.Prelude.Map.{keys, lookup, insert, contains}
use kaas_lib.Prelude.Sort.{sort}
use kaas_lib.Prelude.Text.{TopicPartition, TopicPartition-discrete, leb_TopicPartition}
use kaas_lib.Conn.Errors.{Error, invalid_request}
use kaas_lib.Conn.Sanitize.{Text}
use kaas_lib.Meta.Retry.Reask.{Result, ok, err}
use kaas_lib.Read.Record.{Bytes, Record, RecordOutcome, decoded, malformed, max_ℤ}
use kaas_lib.Read.Batch.{
  AbortedTransaction, DecodeOptions, DecodedPartition, Decoder, decode_partition,
}
use kaas_lib.Read.Scan.Absorb.{or_nothing}

pub record Assigned : Type 0 where
  pub position : ℤ
  pub paused : Bool
  pub high_watermark : ℤ

abbrev pub Assignment : Type 0
Assignment = List (TopicPartition × Assigned)

pub record Consumer : Type 0 where
  pub assignment : Assignment
  pub buffered : List Record

-- `Consumer::new`
unfoldable pub new : Consumer
new = record { assignment = []; buffered = [] }

abbrev pub starting_at : ℤ → Assigned
starting_at position = record { position = position; paused = false; high_watermark = negsuc 0 }

-- `starts.get(key).copied().unwrap_or(0)`
abbrev pub or_zero : Option ℤ → ℤ
or_zero none = pos 0
or_zero (some start) = start

abbrev pub start_of : List (TopicPartition × ℤ) → TopicPartition → ℤ
start_of starts key = or_zero (lookup TopicPartition-discrete key starts)

-- `wanted.into_iter().map(..).collect()`: a later entry of a key replaces an earlier one.
unfoldable pub collect_starts :
    List (TopicPartition × ℤ) → List TopicPartition → Assignment → Assignment
collect_starts starts [] assignment = assignment
collect_starts starts (key ∷ wanted) assignment =
    collect_starts starts wanted
      (insert TopicPartition-discrete key (starting_at (start_of starts key)) assignment)

-- `assign`, once the topics are known and the starts resolved: it replaces.
unfoldable pub assign : List (TopicPartition × ℤ) → List TopicPartition → Consumer → Consumer
assign starts wanted c = record { assignment = collect_starts starts wanted []; buffered = [] }

abbrev pub key_of : Record → TopicPartition
key_of r = record { topic = r.topic; partition = r.partition }

abbrev pub is_same : TopicPartition → TopicPartition → Bool
is_same a b = is_yes (TopicPartition-discrete a b)

-- `seek`: an error if the partition is not assigned.
abbrev pub moved_to : ℤ → TopicPartition → Option Assigned → Consumer → Option Consumer
moved_to offset key none c = none
moved_to offset key (some assigned) c = some (record {
  assignment =
      insert TopicPartition-discrete key (record assigned { position = offset }) c.assignment;
  buffered = filter (λ r. not (is_same (key_of r) key)) c.buffered;
})

abbrev pub or_unassigned : Text → Consumer → Option Consumer → Result Error Unit × Consumer
or_unassigned not_assigned c none = (err (invalid_request not_assigned), c)
or_unassigned not_assigned c (some c') = (ok tt, c')

unfoldable pub seek : Text → TopicPartition → ℤ → Consumer → Result Error Unit × Consumer
seek not_assigned key offset c =
    or_unassigned not_assigned c
      (moved_to offset key (lookup TopicPartition-discrete key c.assignment) c)

-- `get_mut(key)` with a change, where the key is there.
abbrev pub change :
    (Assigned → Assigned) → TopicPartition → Option Assigned → Assignment → Assignment
change f key none assignment = assignment
change f key (some assigned) assignment = insert TopicPartition-discrete key (f assigned) assignment

unfoldable pub pause : TopicPartition → Consumer → Consumer
pause key c = record c {
  assignment =
      change (λ a. record a { paused = true }) key (lookup TopicPartition-discrete key c.assignment)
        c.assignment;
}

unfoldable pub resume : TopicPartition → Consumer → Consumer
resume key c = record c {
  assignment =
      change (λ a. record a { paused = false }) key
        (lookup TopicPartition-discrete key c.assignment) c.assignment;
}

abbrev pub paused_of : Option Assigned → Bool
paused_of none = false
paused_of (some a) = a.paused

unfoldable pub is_paused : TopicPartition → Consumer → Bool
is_paused key c = paused_of (lookup TopicPartition-discrete key c.assignment)

abbrev pub position_of : Option Assigned → Option ℤ
position_of none = none
position_of (some a) = some a.position

unfoldable pub position : TopicPartition → Consumer → Option ℤ
position key c = position_of (lookup TopicPartition-discrete key c.assignment)

abbrev pub lag_of : Option Assigned → Option ℤ
lag_of none = none
lag_of (some a) =
    if leb_ℤ (pos 0) a.high_watermark
    then some (max_ℤ (a.high_watermark -ℤ a.position) (pos 0))
    else none

unfoldable pub lag : TopicPartition → Consumer → Option ℤ
lag key c = lag_of (lookup TopicPartition-discrete key c.assignment)

-- `RevokedPartition`, with -1 for a partition that is not assigned.
pub record RevokedPartition : Type 0 where
  pub revoked : TopicPartition
  pub position : ℤ

abbrev pub position_or : Option Assigned → ℤ
position_or none = negsuc 0
position_or (some a) = a.position

unfoldable pub revoked_positions : Consumer → List TopicPartition → List RevokedPartition
revoked_positions c [] = []
revoked_positions c (key ∷ revoked) =
    record {
      revoked = key;
      position = position_or (lookup TopicPartition-discrete key c.assignment);
    }
    ∷ revoked_positions c revoked

-- `assignment`: the assigned partitions, in order.
unfoldable pub assigned_keys : Consumer → List TopicPartition
assigned_keys c = sort leb_TopicPartition (keys c.assignment)

-- One outcome: a record before the position is skipped, an undecodable batch stepped past.
abbrev pub take_outcome : ℤ → RecordOutcome → ℤ × List Record
take_outcome position (decoded r) =
    if ltb_ℤ r.offset position
    then (position, [])
    else (i64_saturating_add r.offset (pos 1), r ∷ [])
take_outcome position (malformed offset _ _ _) =
    (max_ℤ position (i64_saturating_add offset (pos 1)), [])

-- `for outcome in decoded.outcomes`: the new position, and the records to buffer.
unfoldable pub take_outcomes : ℤ → List RecordOutcome → ℤ × List Record
take_outcomes position [] = (position, [])
take_outcomes position (outcome ∷ outcomes) =
    let (position', taken) = take_outcome position outcome in
    let (last, rest) = take_outcomes position' outcomes in (last, taken ++ rest)

-- One partition of a fetch of `BrokerFetcher`.
pub record Fetched : Type 0 where
  pub key : TopicPartition
  pub error : Option Error
  pub high_watermark : ℤ
  pub records : Bytes
  pub aborted : List AbortedTransaction

module _ (d : Decoder) (options : DecodeOptions) where
  abbrev pub outcomes_of : Fetched → List RecordOutcome
  outcomes_of f =
      (or_nothing
        (decode_partition d options f.key.topic f.key.partition f.records f.aborted)).outcomes

  abbrev pub absorb_records : Fetched → Assigned → Consumer → Consumer
  absorb_records f a c =
      let (position', taken) =
        if is_empty f.records then (a.position, []) else take_outcomes a.position (outcomes_of f) in
      record {
        assignment =
            insert TopicPartition-discrete f.key
              (record a { position = position'; high_watermark = f.high_watermark }) c.assignment;
        buffered = c.buffered ++ taken;
      }

  abbrev pub absorb_assigned : Fetched → Option Error → Option Assigned → Consumer → Consumer
  absorb_assigned f error none c = c
  absorb_assigned f (some e) (some a) c = c
  absorb_assigned f none (some a) c = absorb_records f a c

  -- One partition of an answer.
  unfoldable pub absorb : Fetched → Consumer → Consumer
  absorb f c = absorb_assigned f f.error (lookup TopicPartition-discrete f.key c.assignment) c

  -- `for partition in fetched`
  unfoldable pub absorb_all : List Fetched → Consumer → Consumer
  absorb_all [] c = c
  absorb_all (f ∷ fetched) c = absorb_all fetched (absorb f c)

  -- The fetches of the leaders, one after another: an error ends the round where it is.
  unfoldable pub fetch_once :
      List (Result Error (List Fetched)) → Consumer → Result Error Unit × Consumer
  fetch_once [] c = (ok tt, c)
  fetch_once (err e ∷ answers) c = (err e, c)
  fetch_once (ok fetched ∷ answers) c = fetch_once answers (absorb_all fetched c)

  abbrev pub take_buffered : Consumer → List Record × Consumer
  take_buffered c = (c.buffered, record c { buffered = [] })

  abbrev pub after_fetch : Result Error Unit × Consumer → Result Error (List Record) × Consumer
  after_fetch (err e, c) = (err e, c)
  after_fetch (ok _, c) = let (records, c') = take_buffered c in (ok records, c')

  -- What is buffered, or else what one round of fetches gives.
  unfoldable pub poll :
      List (Result Error (List Fetched)) → Consumer → Result Error (List Record) × Consumer
  poll answers c =
      if is_empty c.buffered
      then after_fetch (fetch_once answers c)
      else let (records, c') = take_buffered c in (ok records, c')
