-- ===== src/Read/Scan.antt =====
-- kafka-read/src/scan.rs: a forward scan over the partitions of a topic, merged by timestamp.
-- Counters are numbers without a bound. The cluster's answers to fetches and to lookups of offsets are
-- parameters. The scan's spec is a record, so its `with_` methods are record updates.
pub mod Plan
pub mod Absorb
pub mod Step
pub mod Progress
pub mod Buffer
pub mod Emit
pub mod Events
pub mod Merge
pub mod Stall
mod Tests
use kaas_lib.Prelude.{
  ℕ, zero, ◌+◌, ◌*◌, ◌/◌, Bool, true, false, not, ◌&&◌, ◌||◌, if◌then◌else◌, ltb, leb, is_empty,
  any, all, filter, Option, none, some, List, [], ◌∷◌, length, String,
}
use kaas_lib.Prelude.Int.{ℤ, pos, leb_ℤ, ltb_ℤ}
use kaas_lib.Prelude.Words.{i64_min}
use kaas_lib.Prelude.Text.{String-discrete}
use kaas_lib.Prelude.{is_yes}
use kaas_lib.Read.Record.{
  Bytes, Record, RecordOutcome, decoded, malformed, DecodeError, is_tombstone,
}
use kaas_lib.Read.Decompress.{starts_with}
use kaas_lib.Read.Batch.{Visibility, everything, DecodeOptions}

-- Where a scan starts.
pub data StartPosition : Type 0 where
  earliest latest : StartPosition
  at_offset at_timestamp : ℤ → StartPosition

pub data RecordFilter : Type 0 where
  key_contains value_contains : Bytes → RecordFilter
  has_header : String → RecordFilter
  tombstones_only : RecordFilter
  custom : (Record → Bool) → RecordFilter

-- `contains`: the needle is empty, or a window of the haystack.
unfoldable pub contains_bytes : Bytes → Bytes → Bool
contains_bytes [] needle = is_empty needle
contains_bytes (b ∷ haystack) needle =
    let later = contains_bytes haystack needle in starts_with (b ∷ haystack) needle || later

abbrev pub some_contains : Option Bytes → Bytes → Bool
some_contains none needle = false
some_contains (some bytes) needle = contains_bytes bytes needle

unfoldable pub matches : RecordFilter → Record → Bool
matches (key_contains needle) r = some_contains r.key needle
matches (value_contains needle) r = some_contains r.value needle
matches (has_header name) r = any (λ header. is_yes (String-discrete header.0 name)) r.headers
matches tombstones_only r = is_tombstone r
matches (custom predicate) r = predicate r

pub record ScanSpec : Type 0 where
  pub topic : String
  pub partitions : Option (List ℤ)
  pub from : StartPosition
  pub limit : Option ℕ
  pub follow : Bool
  pub record_filter : Option RecordFilter
  pub visibility : Visibility
  pub partition_max_bytes : ℤ
  pub fetch_max_bytes : ℤ
  pub max_wait_ms : ℤ
  pub max_buffered_records : ℕ
  pub max_decompressed_bytes : ℕ

-- `ScanSpec::new`
abbrev pub new_spec : String → ScanSpec
new_spec topic = record {
  topic = topic;
  partitions = none;
  from = earliest;
  limit = none;
  follow = false;
  record_filter = none;
  visibility = everything;
  partition_max_bytes = pos (1024 * 1024);
  fetch_max_bytes = pos (8 * 1024 * 1024);
  max_wait_ms = pos 500;
  max_buffered_records = 10000;
  max_decompressed_bytes = 64 * 1024 * 1024;
}

abbrev pub decode_options : ScanSpec → DecodeOptions
decode_options spec = record {
  max_decompressed_bytes = spec.max_decompressed_bytes;
  visibility = spec.visibility;
}

pub record ScanProgress : Type 0 where
  pub records_emitted : ℕ
  pub records_scanned : ℕ
  pub malformed_batches : ℕ
  pub offsets_consumed : ℕ
  pub offsets_total : ℤ
  pub partitions_active : ℕ
  pub partitions_planned : ℕ
  pub reorder_window : ℕ

-- A start that is not the one asked for: what was asked for, and the bound that is used.
pub data StartSubstitution : Type 0 where
  offset_below_log_start offset_beyond_log_end timestamp_unresolved : ℤ → ℤ → StartSubstitution

pub data ScanEvent : Type 0 where
  partition_started : ℤ → ℤ → Option StartSubstitution → ScanEvent
  record_read : Record → ScanEvent
  malformed_read : String → ℤ → ℤ → Option ℤ → Bytes → DecodeError → ScanEvent
  progressed : ScanProgress → ScanEvent
  partition_complete : ℤ → ℤ → ScanEvent
  finished_scan : ScanProgress → ScanEvent

unfoldable pub should_fetch : Bool → Bool → Bool → Bool
should_fetch behind follow idle = behind || (follow && idle)

pub record PartitionCursor : Type 0 where
  pub partition : ℤ
  pub leader : ℤ
  pub next_offset : ℤ
  pub end_offset : ℤ
  pub start_offset : ℤ
  pub substituted : Option StartSubstitution
  pub buffered : List RecordOutcome
  pub finished : Bool

unfoldable pub exhausted : PartitionCursor → Bool
exhausted c = c.finished || leb_ℤ c.end_offset c.next_offset

-- An undecodable batch sorts first.
abbrev pub timestamp_of : RecordOutcome → ℤ
timestamp_of (decoded r) = r.timestamp
timestamp_of (malformed _ _ _ _) = i64_min

abbrev pub head_of : List RecordOutcome → Option ℤ
head_of [] = none
head_of (outcome ∷ _) = some (timestamp_of outcome)

abbrev pub head_timestamp : PartitionCursor → Option ℤ
head_timestamp c = head_of c.buffered

unfoldable pub reorder_window : ℕ → ℕ → ℕ
reorder_window budget merging = if leb merging 1 then 0 else budget / merging

pub record ScanState : Type 0 where
  pub spec : ScanSpec
  pub cursors : List PartitionCursor
  pub progress : ScanProgress
  pub pending : List ScanEvent
  pub buffered_total : ℕ
  pub done : Bool
  pub progress_every : ℕ
  pub next_progress_at : ℕ

-- Whether a partition has nothing left to read or to emit.
abbrev pub is_drained : PartitionCursor → Bool
is_drained c = exhausted c && is_empty c.buffered

unfoldable pub limit_reached : ScanState → Bool
limit_reached s = elim s.spec.limit [
  | none ↦ false
  | some limit ↦ leb limit s.progress.records_emitted
]

unfoldable pub all_exhausted : ScanState → Bool
all_exhausted s = not s.spec.follow && all is_drained s.cursors
