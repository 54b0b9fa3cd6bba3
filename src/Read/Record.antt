-- ===== src/Read/Record.antt =====
-- kafka-read/src/record.rs: a decoded record, and the outcome of decoding one unit of the log.
-- Bytes are a list of numbers. The reason of a failure is what its text is made from.
use kaas_lib.Prelude.{
  ℕ, ◌+◌, Option, none, some, List, Bool, true, false, if◌then◌else◌, length, String,
}
use kaas_lib.Prelude.Int.{ℤ, leb_ℤ}
use kaas_lib.Conn.Sanitize.{Text}

abbrev pub Bytes : Type 0
Bytes = List ℕ

pub data TimestampType : Type 0 where
  creation log_append : TimestampType

pub record Record : Type 0 where
  pub topic : String
  pub partition : ℤ
  pub offset : ℤ
  pub timestamp : ℤ
  pub timestamp_type : TimestampType
  pub key : Option Bytes
  pub value : Option Bytes
  pub headers : List (String × Option Bytes)
  pub producer_id : Option ℤ
  pub transactional : Bool
  pub leader_epoch : Option ℤ

-- Whether the value is null.
abbrev pub is_tombstone : Record → Bool
is_tombstone r = elim r.value [ none ↦ true | some _ ↦ false ]

abbrev pub len_or_none : Option Bytes → ℕ
len_or_none none = 0
len_or_none (some bytes) = length bytes

-- The size of the key and the value.
abbrev pub payload_len : Record → ℕ
payload_len r = len_or_none r.key + len_or_none r.value

-- `DecodeError`: a batch that is no v2 batch, one whose count cannot be true (the claim, its size and
-- the most it can hold), and one that the decoder refused.
pub data DecodeError : Type 0 where
  not_v2 : DecodeError
  implausible : ℕ → ℕ → ℕ → DecodeError
  undecodable : Text → DecodeError

pub data RecordOutcome : Type 0 where
  decoded : Record → RecordOutcome
  malformed : ℤ → Option ℤ → Bytes → DecodeError → RecordOutcome

-- The offset that an outcome is about.
abbrev pub offset_of : RecordOutcome → ℤ
offset_of (decoded r) = r.offset
offset_of (malformed offset _ _ _) = offset

abbrev pub is_malformed : RecordOutcome → Bool
is_malformed (decoded _) = false
is_malformed (malformed _ _ _ _) = true

-- `i64::max`
abbrev pub max_ℤ : ℤ → ℤ → ℤ
max_ℤ a b = if leb_ℤ a b then b else a

-- The last offset that an outcome covers.
abbrev pub last_offset : RecordOutcome → ℤ
last_offset (decoded r) = r.offset
last_offset (malformed offset none _ _) = max_ℤ offset offset
last_offset (malformed offset (some last) _ _) = max_ℤ last offset
