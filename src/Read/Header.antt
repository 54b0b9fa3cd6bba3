-- ===== src/Read/Header.antt =====
-- kafka-read/src/batch.rs: the header of a record batch, read without decoding the batch.
-- A `usize` has 64 bits, so adding 12 to an `i32` cannot overflow it.
pub mod Laws
use Prim.Native.Nat.{bit_and}
use kaas_lib.Prelude.{
  ℕ, zero, suc, ◌+◌, ◌-◌, ◌*◌, ◌^◌, Bool, true, false, not, if◌then◌else◌, ltb, ◌==◌, Option, none,
  some, List, [], ◌∷◌, length,
}
use kaas_lib.Prelude.Int.{ℤ, pos, negsuc, ltb_ℤ, pos_part}
use kaas_lib.Prelude.Words.{i64_saturating_add}
use kaas_lib.Meta.Retry.Reask.{Result, ok, err}
use kaas_lib.Read.Record.{Bytes}

-- Where the fields of a header stand.
abbrev pub base_offset_at : ℕ
base_offset_at = 0

abbrev pub batch_length_at : ℕ
batch_length_at = 8

abbrev pub magic_at : ℕ
magic_at = 16

abbrev pub attributes_at : ℕ
attributes_at = 21

abbrev pub last_offset_delta_at : ℕ
last_offset_delta_at = 23

abbrev pub producer_id_at : ℕ
producer_id_at = 43

abbrev pub record_count_at : ℕ
record_count_at = 57

abbrev pub prefix_len : ℕ
prefix_len = 12

abbrev pub min_len : ℕ
min_len = 61

-- The flags of the attributes.
abbrev pub control_flag : ℕ
control_flag = 32

abbrev pub transactional_flag : ℕ
transactional_flag = 16

abbrev pub compression_mask : ℕ
compression_mask = 7

-- `Compression` of the codec.
pub data Compression : Type 0 where
  uncompressed gzip snappy lz4 zstd : Compression

pub record BatchHeader : Type 0 where
  pub base_offset : ℤ
  pub last_offset : ℤ
  pub total_len : ℕ
  pub control : Bool
  pub transactional : Bool
  pub producer_id : ℤ
  pub compression : Compression
  pub record_count : ℕ

pub data HeaderProblem : Type 0 where
  truncated malformed : HeaderProblem

abbrev pub drop {ℓ} : {A : Type ℓ} → ℕ → List A → List A
drop zero xs = xs
drop (suc n) [] = []
drop (suc n) (x ∷ xs) = drop n xs

abbrev pub take {ℓ} : {A : Type ℓ} → ℕ → List A → List A
take zero xs = []
take (suc n) [] = []
take (suc n) (x ∷ xs) = x ∷ take n xs

-- The big-endian number of so many bytes at the front.
abbrev pub be_number : ℕ → ℕ → Bytes → Option ℕ
be_number zero acc bytes = some acc
be_number (suc n) acc [] = none
be_number (suc n) acc (b ∷ bytes) = be_number n (acc * 256 + b) bytes

-- The two's complement number of a bit pattern of a width.
abbrev pub signed : ℕ → ℕ → ℤ
signed width bits = if ltb bits (2 ^ (width - 1)) then pos bits else negsuc (2 ^ width - bits - 1)

abbrev pub signed_if : ℕ → Option ℕ → Option ℤ
signed_if width none = none
signed_if width (some bits) = some (signed width bits)

-- `read_i16`, as its bit pattern, `read_i32` and `read_i64`.
unfoldable pub read_i16 : Bytes → ℕ → Option ℕ
read_i16 buf at = be_number 2 0 (drop at buf)

unfoldable pub read_i32 : Bytes → ℕ → Option ℤ
read_i32 buf at = signed_if 32 (be_number 4 0 (drop at buf))

unfoldable pub read_i64 : Bytes → ℕ → Option ℤ
read_i64 buf at = signed_if 64 (be_number 8 0 (drop at buf))

abbrev pub byte_at : Bytes → ℕ → Option ℕ
byte_at buf at = be_number 1 0 (drop at buf)

abbrev pub flag : ℕ → ℕ → Bool
flag bits mask = not (bit_and bits mask == 0)

abbrev pub compression_of : ℕ → Compression
compression_of n =
    if n == 1
    then gzip
    else if n == 2
    then snappy
    else if n == 3
    then lz4
    else if n == 4
    then zstd
    else uncompressed

-- `ok_or(problem)?`
unfoldable pub need :
    {A B : Type 0}
    → Option A
    → HeaderProblem
    → (A → Result HeaderProblem B)
    → Result HeaderProblem B
need none problem rest = err problem
need (some a) problem rest = rest a

-- `usize::try_from(n)` of an integer.
abbrev pub to_usize : ℤ → Option ℕ
to_usize (pos n) = some n
to_usize (negsuc n) = none

unfoldable pub peek_fields : Bytes → ℕ → Result HeaderProblem BatchHeader
peek_fields buf total_len = need (byte_at buf magic_at) truncated (λ magic.
    if not (magic == 2)
    then err malformed
    else need (read_i16 buf attributes_at) truncated (λ attributes.
      need (read_i64 buf base_offset_at) truncated (λ base_offset.
        need (read_i32 buf last_offset_delta_at) truncated (λ last_offset_delta.
          need (read_i64 buf producer_id_at) truncated (λ producer_id.
            need (read_i32 buf record_count_at) truncated (λ record_count.
              need (to_usize record_count) malformed (λ count. ok (record {
                base_offset = base_offset;
                last_offset = i64_saturating_add base_offset last_offset_delta;
                total_len = total_len;
                control = flag attributes control_flag;
                transactional = flag attributes transactional_flag;
                producer_id = producer_id;
                compression = compression_of (bit_and attributes compression_mask);
                record_count = count;
              }))))))))

-- The header at the front, or why there is none.
unfoldable pub peek_header : Bytes → Result HeaderProblem BatchHeader
peek_header buf =
    if ltb (length buf) min_len
    then err truncated
    else need (read_i32 buf batch_length_at) truncated (λ batch_length.
      if ltb_ℤ batch_length (pos 0)
      then err malformed
      else need (to_usize batch_length) malformed (λ n.
        if ltb (length buf) (prefix_len + n)
        then err truncated
        else peek_fields buf (prefix_len + n)))
