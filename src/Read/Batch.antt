-- ===== src/Read/Batch.antt =====
-- kafka-read/src/batch.rs: decoding what one fetch gave for a partition, batch by batch.
-- The batch decoder of the codec is a parameter: it is given the decompression hook. The walk takes
-- one turn for each byte and one more as its fuel.
pub mod Walk
pub mod Hiding
pub mod Reference
pub mod Keyed
mod Tests
use kaas_lib.Prelude.{
  ℕ, zero, suc, ◌+◌, ◌*◌, ◌/◌, ◌-◌, Bool, true, false, not, ◌&&◌, if◌then◌else◌, ltb, leb, is_empty,
  Option, none, some, List, [], ◌∷◌, ◌++◌, map, length, String,
}
use kaas_lib.Prelude.Int.{ℤ, ℤ-discrete, pos, negsuc, leb_ℤ, ltb_ℤ, pos_part}
use kaas_lib.Prelude.Words.{i64_saturating_add, i64_saturating_sub}
use kaas_lib.Prelude.Map.{contains, set_insert, set_remove}
use kaas_lib.Prelude.Sort.{sort}
use kaas_lib.Conn.Sanitize.{Text}
use kaas_lib.Meta.Retry.Reask.{Result, ok, err}
use kaas_lib.Read.Record.{
  Bytes, Record, TimestampType, RecordOutcome, decoded, malformed, not_v2, implausible, undecodable,
}
use kaas_lib.Read.Header.{
  BatchHeader, HeaderProblem, Compression, uncompressed, peek_header, read_i64, base_offset_at,
  min_len, drop, truncated,
}
use kaas_lib.Read.Header
use kaas_lib.Read.Decompress.{Codecs, bounded}

abbrev pub min_record_bytes : ℕ
min_record_bytes = 6

pub record AbortedTransaction : Type 0 where
  pub producer_id : ℤ
  pub first_offset : ℤ

pub data Visibility : Type 0 where
  everything committed_only : Visibility

pub record DecodeOptions : Type 0 where
  pub max_decompressed_bytes : ℕ
  pub visibility : Visibility

-- `DecodeOptions::default()`
abbrev pub default_options : DecodeOptions
default_options = record { max_decompressed_bytes = 64 * 1024 * 1024; visibility = everything }

pub record DecodedPartition : Type 0 where
  pub outcomes : List RecordOutcome
  pub control_batches_skipped : ℕ
  pub aborted_records_skipped : ℕ
  pub truncated_tail : Bool

-- `DecodedPartition::default()`
abbrev pub nothing_decoded : DecodedPartition
nothing_decoded = record {
  outcomes = [];
  control_batches_skipped = 0;
  aborted_records_skipped = 0;
  truncated_tail = false;
}

-- The codec's record.
pub record KpRecord : Type 0 where
  pub control : Bool
  pub offset : ℤ
  pub timestamp : ℤ
  pub timestamp_type : TimestampType
  pub key : Option Bytes
  pub value : Option Bytes
  pub headers : List (String × Option Bytes)
  pub producer_id : ℤ
  pub transactional : Bool
  pub partition_leader_epoch : ℤ

-- `Some(n).filter(|n| *n >= 0)`
abbrev pub nonnegative : ℤ → Option ℤ
nonnegative n = if leb_ℤ (pos 0) n then some n else none

unfoldable pub convert : String → ℤ → KpRecord → Record
convert topic partition r = record {
  topic = topic;
  partition = partition;
  offset = r.offset;
  timestamp = r.timestamp;
  timestamp_type = r.timestamp_type;
  key = r.key;
  value = r.value;
  headers = r.headers;
  producer_id = nonnegative r.producer_id;
  transactional = r.transactional;
  leader_epoch = nonnegative r.partition_leader_epoch;
}

-- The most records that a batch can hold, before it is decompressed.
abbrev pub payload : Compression → ℕ → ℕ → ℕ
payload uncompressed total_len limit = total_len - min_len
payload _ total_len limit = limit

unfoldable pub max_plausible_records : BatchHeader → DecodeOptions → ℕ
max_plausible_records h options =
    payload h.compression h.total_len options.max_decompressed_bytes / min_record_bytes

-- The offsets of a hidden batch, `usize::try_from(..).unwrap_or(0)`.
unfoldable pub hidden : BatchHeader → ℕ
hidden h = pos_part (i64_saturating_add (i64_saturating_sub h.last_offset h.base_offset) (pos 1))

-- The aborted spans that a batch at an offset has reached leave the queue, and their producers hide.
unfoldable pub enter : ℤ → List AbortedTransaction → List ℤ → List AbortedTransaction × List ℤ
enter base [] producers = ([], producers)
enter base (span ∷ spans) producers =
    let entered = enter base spans (set_insert ℤ-discrete span.producer_id producers) in
    if leb_ℤ span.first_offset base then entered else (span ∷ spans, producers)

-- `sort_by_key(|span| span.first_offset)`
abbrev pub by_first_offset : AbortedTransaction → AbortedTransaction → Bool
by_first_offset a b = leb_ℤ a.first_offset b.first_offset

abbrev pub spans_of : Visibility → List AbortedTransaction → List AbortedTransaction
spans_of everything aborted = []
spans_of committed_only aborted = sort by_first_offset aborted

-- The codec, its batch decoder with the hook, and the text of the hook's refusal.
pub record Decoder : Type 0 where
  pub codecs : Codecs
  pub decode : (Bytes → Compression → Result Text Bytes) → Bytes → Result Text (List KpRecord)
  pub too_many : ℕ → ℕ → Text

module _ (d : Decoder) (options : DecodeOptions) where
  -- The decompression hook: the tight bound on the claimed count.
  abbrev pub if_holds : ℕ → Result Text Bytes → Result Text Bytes
  if_holds claimed (err e) = err e
  if_holds claimed (ok out) =
      if ltb (length out / min_record_bytes) claimed
      then err (d.too_many claimed (length out))
      else ok out

  abbrev pub hook : ℕ → Bytes → Compression → Result Text Bytes
  hook claimed buf compression =
      if_holds claimed (bounded d.codecs buf compression options.max_decompressed_bytes)

  module _ (topic : String) (partition : ℤ) where
    -- The records of a batch, control records counted instead.
    unfoldable pub take_records : List KpRecord → DecodedPartition → DecodedPartition
    take_records [] out = out
    take_records (r ∷ records) out = take_records records (
        if r.control
        then record out { control_batches_skipped = out.control_batches_skipped + 1 }
        else record out { outcomes = out.outcomes ++ (decoded (convert topic partition r) ∷ []) })

    abbrev pub take_decoded :
        BatchHeader → Bytes → Result Text (List KpRecord) → DecodedPartition → DecodedPartition
    take_decoded h raw (ok records) out = take_records records out
    take_decoded h raw (err e) out = record out {
      outcomes =
          out.outcomes ++ (malformed h.base_offset (some h.last_offset) raw (undecodable e) ∷ []);
    }

    -- What a batch that is neither a marker nor hidden adds.
    unfoldable pub visit : BatchHeader → Bytes → DecodedPartition → DecodedPartition
    visit h batch out =
        let ceiling = max_plausible_records h options in
        if ltb ceiling h.record_count
        then record out {
          outcomes =
              out.outcomes
              ++ (malformed h.base_offset (some h.last_offset) batch
                    (implausible h.record_count h.total_len ceiling)
                  ∷ []);
        }
        else take_decoded h batch (d.decode (hook h.record_count) batch) out

    -- One turn with a readable header: a marker ends its producer's span, a hidden batch is counted.
    unfoldable pub turn :
        BatchHeader → Bytes → List ℤ → DecodedPartition → List ℤ × DecodedPartition
    turn h batch producers out =
        if h.control
        then (
          set_remove ℤ-discrete h.producer_id producers,
          record out { control_batches_skipped = out.control_batches_skipped + 1 },
        )
        else if h.transactional && contains ℤ-discrete h.producer_id producers
        then (
          producers,
          record out { aborted_records_skipped = out.aborted_records_skipped + hidden h },
        )
        else (producers, visit h batch out)

    abbrev pub offset_or : Option ℤ → ℤ
    offset_or none = negsuc 0
    offset_or (some offset) = offset

    -- Where no header can be read the walk ends.
    abbrev pub end_walk : HeaderProblem → Bytes → DecodedPartition → DecodedPartition
    end_walk truncated records out = record out { truncated_tail = true }
    end_walk Header.malformed records out = record out {
      outcomes =
          out.outcomes
          ++ (malformed (offset_or (read_i64 records base_offset_at)) none records not_v2 ∷ []);
    }

    -- The walk. `none` means that the fuel ran out.
    unfoldable pub walk :
        ℕ → Bytes → List AbortedTransaction → List ℤ → DecodedPartition → Option DecodedPartition
    walk zero records spans producers out = none
    walk (suc fuel) [] spans producers out = some out
    walk (suc fuel) (b ∷ bytes) spans producers out = elim (peek_header (b ∷ bytes)) [
      | err problem ↦ some (end_walk problem (b ∷ bytes) out)
      | ok h ↦
          let (spans', entered) = enter h.base_offset spans producers in
          let (producers', out') = turn h (Header.take h.total_len (b ∷ bytes)) entered out in
          walk fuel (drop h.total_len (b ∷ bytes)) spans' producers' out'
    ]

    unfoldable pub decode_partition : Bytes → List AbortedTransaction → Option DecodedPartition
    decode_partition records aborted =
        walk (length records + 1) records (spans_of options.visibility aborted) [] nothing_decoded
