-- ===== src/Read/Decompress.antt =====
-- kafka-read/src/decompress.rs: decompression that refuses to pass a limit. The codecs are parameters.
use kaas_lib.Prelude.{
  ℕ, zero, suc, ap, ◌+◌, ◌-◌, ◌*◌, ◌/◌, ◌^◌, ◌≤◌, ◌≡◌, refl, Bool, true, false, if◌then◌else◌, ltb,
  ◌==◌, min, [], ◌∷◌, length, if_cases, arith, ◌≢◌,
}
use kaas_lib.Conn.Sanitize.{Text}
use kaas_lib.Meta.Retry.Reask.{Result, ok, err}
use kaas_lib.Read.Record.{Bytes}
use kaas_lib.Read.Header.{Compression, uncompressed, gzip, snappy, lz4, zstd}

abbrev pub snappy_max_ratio : ℕ
snappy_max_ratio = 68

-- `XERIAL_MAGIC`
abbrev pub xerial_magic : Bytes
xerial_magic = 130 ∷ 83 ∷ 78 ∷ 65 ∷ 80 ∷ 80 ∷ 89 ∷ 0 ∷ 0 ∷ 0 ∷ 0 ∷ 1 ∷ 0 ∷ 0 ∷ 0 ∷ 1 ∷ []

-- What the codecs answer: the bytes that a decoder gives through `take(n).read_to_end`, the framed
-- snappy decoder, the length that an unframed snappy block declares, and the buffer that such a block was
-- decompressed into.
-- `refused` is the text of a refusal.
pub record Codecs : Type 0 where
  pub take_to_end : Compression → ℕ → Bytes → Result Text Bytes
  pub framed : Bytes → Result Text Bytes
  pub decompress_len : Bytes → Result Text ℕ
  pub decompress : Bytes → Bytes → Result Text Bytes
  pub refused : Text

-- `vec![0u8; n]`
abbrev pub zeros : ℕ → Bytes
zeros zero = []
zeros (suc n) = 0 ∷ zeros n

abbrev pub starts_with : Bytes → Bytes → Bool
starts_with bytes [] = true
starts_with [] (m ∷ magic) = false
starts_with (b ∷ bytes) (m ∷ magic) = if b == m then starts_with bytes magic else false

-- `u64::try_from(limit).saturating_add(1)`
abbrev pub one_more : ℕ → ℕ
one_more limit = min (2 ^ 64 - 1) (limit + 1)

module _ (c : Codecs) where
  abbrev pub unless_longer : ℕ → Result Text Bytes → Result Text Bytes
  unless_longer limit (err e) = err e
  unless_longer limit (ok out) = if ltb limit (length out) then err c.refused else ok out

  unfoldable pub read_bounded : Compression → ℕ → Bytes → Result Text Bytes
  read_bounded compression limit input =
      unless_longer limit (c.take_to_end compression (one_more limit) input)

  abbrev pub if_declared : ℕ → Bytes → Result Text ℕ → Result Text Bytes
  if_declared limit compressed (err e) = err e
  if_declared limit compressed (ok declared) =
      if ltb limit declared then err c.refused else c.decompress compressed (zeros declared)

  unfoldable pub snappy_bounded : Bytes → ℕ → Result Text Bytes
  snappy_bounded compressed limit =
      if starts_with compressed xerial_magic
      then if ltb (limit / snappy_max_ratio) (length compressed)
        then err c.refused
        else c.framed compressed
      else if_declared limit compressed (c.decompress_len compressed)

  unfoldable pub bounded : Bytes → Compression → ℕ → Result Text Bytes
  bounded compressed uncompressed limit = ok compressed
  bounded compressed gzip limit = read_bounded gzip limit compressed
  bounded compressed lz4 limit = read_bounded lz4 limit compressed
  bounded compressed zstd limit = read_bounded zstd limit compressed
  bounded compressed snappy limit = snappy_bounded compressed limit

-- What snappy promises: by its format no three bytes of a framed input give more than the 64 bytes of
-- one copy, and an unframed block is decompressed into a buffer that stays as long as it is.
pub record SnappyKeeps (c : Codecs) : Type 0 where
  pub framed_ratio :
      (input out : Bytes) → c.framed input ≡ ok out → 3 * length out ≤ 64 * length input
  pub buffer_len :
      (input buffer out : Bytes) → c.decompress input buffer ≡ ok out → length out ≡ length buffer

length-zeros : (n : ℕ) → length (zeros n) ≡ n
length-zeros zero = refl
length-zeros (suc n) = ap suc (length-zeros n)

-- A success with at most so many bytes.
abbrev pub Within : ℕ → Result Text Bytes → Type 0
Within limit (err e) = Unit
Within limit (ok out) = length out ≤ limit

module _ (c : Codecs) (keeps : SnappyKeeps c) (limit : ℕ) where
  unless_longer-Within : (r : Result Text Bytes) → Within limit (unless_longer c limit r)
  unless_longer-Within (err e) = tt
  unless_longer-Within (ok out) =
      if_cases (Within limit) (ltb limit (length out)) (λ _. tt) (λ short. ground arith)

  framed-Within :
      (input : Bytes) (r : Result Text Bytes)
      → c.framed input ≡ r
      → length input ≤ limit / snappy_max_ratio
      → Within limit r
  framed-Within input (err text) e h = tt
  framed-Within input (ok out) e h = let ratio = keeps.framed_ratio input out e in omega arith

  unframed-Within :
      (n : ℕ) (input : Bytes) (r : Result Text Bytes)
      → c.decompress input (zeros n) ≡ r
      → n ≤ limit
      → Within limit r
  unframed-Within n input (err text) e h = tt
  unframed-Within n input (ok out) e h =
      let exact = keeps.buffer_len input (zeros n) out e in omega (arith, length-zeros n)

  if_declared-Within :
      (input : Bytes) (r : Result Text ℕ) → Within limit (if_declared c limit input r)
  if_declared-Within input (err e) = tt
  if_declared-Within input (ok n) =
      if_cases (Within limit) (ltb limit n) (λ _. tt)
        (λ short. unframed-Within n input (c.decompress input (zeros n)) refl (ground arith))

  snappy-Within : (input : Bytes) → Within limit (snappy_bounded c input limit)
  unfolding snappy_bounded
  snappy-Within input =
      if_cases (Within limit) (starts_with input xerial_magic)
        (λ _.
          if_cases (Within limit) (ltb (limit / snappy_max_ratio) (length input)) (λ _. tt)
            (λ short. framed-Within input (c.framed input) refl (ground arith)))
        (λ _. if_declared-Within input (c.decompress_len input))

  -- Whatever a compressed batch holds, decompressing it with a limit gives at most that many bytes or
  -- fails, if no three bytes of a framed snappy input give more than 64, and the buffer for an unframed
  -- one keeps its length. Of the other codecs nothing is assumed.
  pub bounded-Within :
      (input : Bytes) (compression : Compression)
      → compression ≢ uncompressed
      → Within limit (bounded c input compression limit)
  unfolding bounded read_bounded
  bounded-Within input uncompressed h = absurd (h refl)
  bounded-Within input gzip h = unless_longer-Within (c.take_to_end gzip (one_more limit) input)
  bounded-Within input lz4 h = unless_longer-Within (c.take_to_end lz4 (one_more limit) input)
  bounded-Within input zstd h = unless_longer-Within (c.take_to_end zstd (one_more limit) input)
  bounded-Within input snappy h = snappy-Within input
