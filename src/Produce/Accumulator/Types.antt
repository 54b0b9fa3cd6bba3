-- ===== src/Produce/Accumulator/Types.antt =====
-- kafka-produce/src/accumulator.rs and record.rs: the accumulator's data, and what a record costs.
-- A moment is a number of nanoseconds. The channel on which a caller waits is the caller's number,
-- and what is sent on it is the answer; a permit is released with it.
use kaas_lib.Prelude.{
  ℕ, ◌+◌, Bool, true, false, ◌&&◌, not, min, Option, none, some, List, [], ◌∷◌, length, is_empty,
  String,
}
use kaas_lib.Prelude.Int.{ℤ}
use kaas_lib.Prelude.Words.{u32_max, usize_saturating_add}
use kaas_lib.Prelude.Text.{TopicPartition}
use kaas_lib.Conn.Errors.{Error}
use kaas_lib.Produce.Idempotence.{BatchIdentity}

abbrev pub Bytes : Type 0
Bytes = List ℕ

-- A header's name is its bytes.
pub record ProducerRecord : Type 0 where
  pub topic : String
  pub partition : Option ℤ
  pub key : Option Bytes
  pub value : Option Bytes
  pub headers : List (Bytes × Option Bytes)
  pub timestamp : Option ℤ

-- Where a record landed.
pub record RecordMetadata : Type 0 where
  pub topic : String
  pub partition : ℤ
  pub offset : ℤ
  pub timestamp : Option ℤ

-- What a caller is told of its record.
pub data Outcome : Type 0 where
  delivered : RecordMetadata → Outcome
  failed : Error → Outcome

abbrev pub record_overhead : ℕ
record_overhead = 32

abbrev pub header_overhead : ℕ
header_overhead = 8

-- `map_or(0, Bytes::len)`
abbrev pub len_or_zero : Option Bytes → ℕ
len_or_zero (some b) = length b
len_or_zero none = 0

abbrev pub header_size : Bytes × Option Bytes → ℕ
header_size (name, value) =
    usize_saturating_add (usize_saturating_add (length name) (len_or_zero value)) header_overhead

-- `sum()` over the headers. The headers are in memory, so their sizes do not overflow a `usize`.
abbrev pub headers_size : List (Bytes × Option Bytes) → ℕ
headers_size [] = 0
headers_size (h ∷ hs) = header_size h + headers_size hs

-- What one record costs the buffer.
unfoldable pub accounted_size : ProducerRecord → ℕ
accounted_size r =
    usize_saturating_add
      (usize_saturating_add (usize_saturating_add record_overhead (len_or_zero r.key))
        (len_or_zero r.value))
      (headers_size r.headers)

-- Semaphore permits are counted in u32, and clamped.
unfoldable pub permits_for : ℕ → ℕ
permits_for size = min u32_max size

-- A record waiting for the wire.
pub record Queued : Type 0 where
  pub item : ProducerRecord
  pub deadline : ℕ
  pub caller : ℕ

abbrev pub size_of : Queued → ℕ
size_of q = accounted_size q.item

-- One partition's batch, open or closed.
pub record Batch : Type 0 where
  pub records : List Queued
  pub bytes : ℕ
  pub opened_at : ℕ

-- `Batch::new`
abbrev pub new_batch : ℕ → Batch
new_batch now = record { records = []; bytes = 0; opened_at = now }

-- What the actor knows about one partition; `pending` holds the oldest batch first.
pub record PartitionState : Type 0 where
  pub open_batch : Option Batch
  pub pending : List Batch
  pub in_flight : Bool

-- `PartitionState::default()`
abbrev pub new_state : PartitionState
new_state = record { open_batch = none; pending = []; in_flight = false }

abbrev pub is_none : Option Batch → Bool
is_none none = true
is_none (some _) = false

-- Nothing open, nothing waiting, nothing on the wire.
unfoldable pub idle : PartitionState → Bool
idle s = is_none s.open_batch && (is_empty s.pending && not s.in_flight)

-- A batch handed to a send task.
pub record Ready : Type 0 where
  pub key : TopicPartition
  pub records : List Queued
  pub identity : Option BatchIdentity

-- What a send task finished with.
pub record Completed : Type 0 where
  pub partitions : List TopicPartition
  pub released : List (TopicPartition × ℤ)
  pub reset_identity : Bool

-- The part of `ProducerConfig` that the accumulator reads.
pub record Config : Type 0 where
  pub batch_size : ℕ
  pub max_request_size : ℕ
  pub buffer_memory : ℕ
  pub linger : ℕ
  pub delivery_timeout : ℕ
  pub idempotent : Bool
