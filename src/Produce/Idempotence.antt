-- ===== src/Produce/Idempotence.antt =====
-- kafka-produce/src/idempotence.rs: the producer's identity and a sequence number per partition.
pub mod Contiguous
mod Tests
use kaas_lib.Prelude.{
  ℕ, ◌^◌, ◌-◌, Bool, true, false, if◌then◌else◌, leb, Option, none, some, List, [], ◌∷◌,
}
use kaas_lib.Prelude.Int.{ℤ, pos}
use kaas_lib.Prelude.Words.{i32_wrapping_add, i32_max}
use kaas_lib.Prelude.Map.{lookup, insert}
use kaas_lib.Prelude.Text.{TopicPartition, TopicPartition-discrete}
use kaas_lib.Conn.ErrorCode.{
  ErrorCode, unknown_producer_id, out_of_order_sequence_number, invalid_producer_epoch,
}

-- Sequence numbers start here for every partition, and after every reset.
abbrev pub first_sequence : ℤ
first_sequence = pos 0

-- The identity that a broker issued to this producer.
pub record ProducerIdentity : Type 0 where
  pub producer_id : ℤ
  pub producer_epoch : ℤ

-- What one batch stamps onto its records.
pub record BatchIdentity : Type 0 where
  pub producer_id : ℤ
  pub producer_epoch : ℤ
  pub base_sequence : ℤ
  pub transactional : Bool

-- Whether a broker error means that the producer's state is gone.
unfoldable pub invalidates_producer_state : ErrorCode → Bool
invalidates_producer_state unknown_producer_id = true
invalidates_producer_state out_of_order_sequence_number = true
invalidates_producer_state invalid_producer_epoch = true
invalidates_producer_state _ = false

-- The next sequence number of each partition.
pub record Sequences : Type 0 where
  pub next : List (TopicPartition × ℤ)

-- `Sequences::default()`
abbrev pub no_sequences : Sequences
no_sequences = record { next = [] }

abbrev pub or_first : Option ℤ → ℤ
or_first (some base) = base
or_first none = first_sequence

-- `entry(key).or_insert(FIRST_SEQUENCE)`
unfoldable pub next_of : Sequences → TopicPartition → ℤ
next_of s key = or_first (lookup TopicPartition-discrete key s.next)

-- `i32::try_from(count).unwrap_or(i32::MAX)`
abbrev pub count_i32 : ℕ → ℤ
count_i32 count = if leb count (2 ^ 31 - 1) then pos count else i32_max

-- Reserve `count` numbers for a partition, and answer the base.
unfoldable pub reserve : Sequences → TopicPartition → ℕ → Sequences × ℤ
reserve s key count =
    let base = next_of s key in
    (
      record {
        next = insert TopicPartition-discrete key (i32_wrapping_add base (count_i32 count)) s.next;
      },
      base,
    )

-- Give a reservation back, because the batch was never appended.
unfoldable pub release : Sequences → TopicPartition → ℤ → Sequences
release s key base = record { next = insert TopicPartition-discrete key base s.next }

-- Forget everything: every partition restarts from zero.
unfoldable pub reset : Sequences → Sequences
reset s = no_sequences
