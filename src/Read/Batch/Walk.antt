-- ===== src/Read/Batch/Walk.antt =====
-- The walk and its fuel.
use kaas_lib.Prelude.{
  ℕ, zero, suc, ◌+◌, ◌-◌, ◌≤◌, ◌<◌, ◌≡◌, refl, some, List, [], ◌∷◌, length, arith, String,
}
use kaas_lib.Prelude.Int.{ℤ}
use kaas_lib.Meta.Retry.Reask.{Result, ok, err}
use kaas_lib.Read.Record.{Bytes}
use kaas_lib.Read.Header.{BatchHeader, HeaderProblem, peek_header, prefix_len, take, drop}
use kaas_lib.Read.Header.Laws.{OkIs, peek_header-Fits}
use kaas_lib.Read.Batch.{
  AbortedTransaction, DecodeOptions, DecodedPartition, Decoder, spans_of, nothing_decoded, enter,
  turn, end_walk, walk, decode_partition,
}

pub length-drop {ℓ} : {A : Type ℓ} (n : ℕ) (xs : List A) → length (drop n xs) ≡ length xs - n
length-drop zero xs = omega arith
length-drop (suc n) [] = omega arith
length-drop (suc n) (x ∷ xs) = ground (arith, length-drop n xs)

-- What the peek at the front gave, with what is known of a header.
pub data Peeked (buf : Bytes) : Type 0 where
  no_header : (problem : HeaderProblem) → peek_header buf ≡ err problem → Peeked buf
  header :
      (h : BatchHeader)
      → peek_header buf ≡ ok h
      → prefix_len ≤ h.total_len
      → h.total_len ≤ length buf
      → Peeked buf

look_at :
    (buf : Bytes) (r : Result HeaderProblem BatchHeader)
    → peek_header buf ≡ r
    → OkIs (λ h. (prefix_len ≤ h.total_len) × (h.total_len ≤ length buf)) r
    → Peeked buf
unfolding OkIs
look_at buf (err problem) e fits = no_header problem e
look_at buf (ok h) e fits = header h e fits.0 fits.1

pub peeked : (buf : Bytes) → Peeked buf
peeked buf = look_at buf (peek_header buf) refl (peek_header-Fits buf)

module _ (d : Decoder) (options : DecodeOptions) (topic : String) (partition : ℤ) where
  walk-ends :
      (fuel : ℕ) (records : Bytes) (spans : List AbortedTransaction) (producers : List ℤ)
      (out : DecodedPartition)
      → length records < fuel
      → (out' : DecodedPartition) × (walk d options topic partition fuel records spans producers out
          ≡ some out')
  unfolding walk
  walk-ends zero records spans producers out h = absurd (ground arith)
  walk-ends (suc fuel) [] spans producers out h = (out, refl)
  walk-ends (suc fuel) (b ∷ bytes) spans producers out h = elim (peeked (b ∷ bytes)) [
    | no_header problem e ↦
        rw (walk, e) (end_walk d options topic partition problem (b ∷ bytes) out, refl)
    | header hd e low high ↦
        let (spans', entered) = enter hd.base_offset spans producers in
        let (producers', out') =
          turn d options topic partition hd (take hd.total_len (b ∷ bytes)) entered out in
        let shorter = length-drop hd.total_len (b ∷ bytes) in
        rw (walk, e)
          (walk-ends fuel (drop hd.total_len (b ∷ bytes)) spans' producers' out' (omega arith))
  ]

  -- Decoding what a fetch gave for a partition always ends with a result, whatever the bytes, the
  -- aborted transactions and the codecs answer.
  pub decode_partition-ends :
      (records : Bytes) (aborted : List AbortedTransaction)
      → (out : DecodedPartition) × (decode_partition d options topic partition records aborted
          ≡ some out)
  unfolding decode_partition
  decode_partition-ends records aborted =
      walk-ends (length records + 1) records (spans_of options.visibility aborted) []
        nothing_decoded (omega arith)
