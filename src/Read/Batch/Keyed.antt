-- ===== src/Read/Batch/Keyed.antt =====
-- The topic and the partition of decoded records.
use kaas_lib.Prelude.{
  ℕ, zero, suc, ◌+◌, ◌≡◌, refl, ◌&&◌, if◌then◌else◌, if_cases, ltb, All, All-push, Option, none,
  some, List, [], ◌∷◌, ◌++◌, length, String,
}
use kaas_lib.Prelude.Int.{ℤ, ℤ-discrete}
use kaas_lib.Prelude.Map.{contains}
use kaas_lib.Conn.Sanitize.{Text}
use kaas_lib.Meta.Retry.Reask.{Result, ok, err}
use kaas_lib.Read.Record.{Bytes, RecordOutcome, decoded, malformed}
use kaas_lib.Read.Header.{BatchHeader, HeaderProblem, peek_header, take, drop, truncated}
use kaas_lib.Read.Header
use kaas_lib.Read.Batch.{
  AbortedTransaction, DecodeOptions, DecodedPartition, nothing_decoded, KpRecord, convert,
  max_plausible_records, spans_of, enter, Decoder, hook, take_records, take_decoded, visit, turn,
  end_walk, walk, decode_partition,
}
use kaas_lib.Read.Batch.Walk.{peeked, no_header, header}

module _ (topic : String) (partition : ℤ) where
  abbrev pub IsKeyed : RecordOutcome → Type 0
  IsKeyed (decoded r) = (r.topic ≡ topic) × (r.partition ≡ partition)
  IsKeyed (malformed _ _ _ _) = Unit

  abbrev pub AllKeyed : DecodedPartition → Type 0
  AllKeyed out = All IsKeyed out.outcomes

  module _ (d : Decoder) (options : DecodeOptions) where
    take_records-AllKeyed :
        (records : List KpRecord) (out : DecodedPartition)
        → AllKeyed out
        → AllKeyed (take_records d options topic partition records out)
    unfolding take_records convert
    take_records-AllKeyed [] out h = h
    take_records-AllKeyed (r ∷ records) out h =
        take_records-AllKeyed records
          (if r.control
            then record out { control_batches_skipped = out.control_batches_skipped + 1 }
            else record out {
              outcomes = out.outcomes ++ (decoded (convert topic partition r) ∷ []);
            })
          (if_cases {A = DecodedPartition} AllKeyed r.control (λ _. h)
            (λ _. All-push IsKeyed out.outcomes h (refl, refl)))

    take_decoded-AllKeyed :
        (h : BatchHeader) (raw : Bytes) (r : Result Text (List KpRecord)) (out : DecodedPartition)
        → AllKeyed out
        → AllKeyed (take_decoded d options topic partition h raw r out)
    take_decoded-AllKeyed h raw (ok records) out g = take_records-AllKeyed records out g
    take_decoded-AllKeyed h raw (err e) out g = All-push IsKeyed out.outcomes g tt

    visit-AllKeyed :
        (h : BatchHeader) (batch : Bytes) (out : DecodedPartition)
        → AllKeyed out
        → AllKeyed (visit d options topic partition h batch out)
    unfolding visit
    visit-AllKeyed h batch out g =
        if_cases {A = DecodedPartition} AllKeyed
          (ltb (max_plausible_records h options) h.record_count)
          (λ _. All-push IsKeyed out.outcomes g tt)
          (λ _.
            take_decoded-AllKeyed h batch (d.decode (hook d options h.record_count) batch) out g)

    turn-AllKeyed :
        (h : BatchHeader) (batch : Bytes) (producers : List ℤ) (out : DecodedPartition)
        → AllKeyed out
        → AllKeyed (turn d options topic partition h batch producers out).1
    unfolding turn
    turn-AllKeyed h batch producers out g =
        if_cases {A = List ℤ × DecodedPartition} (λ r. AllKeyed r.1) h.control (λ _. g)
          (λ _.
            if_cases {A = List ℤ × DecodedPartition} (λ r. AllKeyed r.1)
              (h.transactional && contains ℤ-discrete h.producer_id producers) (λ _. g)
              (λ _. visit-AllKeyed h batch out g))

    end_walk-AllKeyed :
        (problem : HeaderProblem) (records : Bytes) (out : DecodedPartition)
        → AllKeyed out
        → AllKeyed (end_walk d options topic partition problem records out)
    end_walk-AllKeyed truncated records out g = g
    end_walk-AllKeyed Header.malformed records out g = All-push IsKeyed out.outcomes g tt

    -- The outcomes of an answer, if there is one.
    abbrev pub AnswerKeyed : Option DecodedPartition → Type 0
    AnswerKeyed none = Unit
    AnswerKeyed (some out) = AllKeyed out

    walk-AllKeyed :
        (fuel : ℕ) (records : Bytes) (spans : List AbortedTransaction) (producers : List ℤ)
        (out : DecodedPartition)
        → AllKeyed out
        → AnswerKeyed (walk d options topic partition fuel records spans producers out)
    unfolding walk
    walk-AllKeyed zero records spans producers out g = tt
    walk-AllKeyed (suc fuel) [] spans producers out g = g
    walk-AllKeyed (suc fuel) (b ∷ bytes) spans producers out g = elim (peeked (b ∷ bytes)) [
      | no_header problem e ↦ rw (walk, e) (end_walk-AllKeyed problem (b ∷ bytes) out g)
      | header h e low high ↦
          let (spans', entered) = enter h.base_offset spans producers in
          let batch = take h.total_len (b ∷ bytes) in
          let (producers', out') = turn d options topic partition h batch entered out in
          rw (walk, e)
            (walk-AllKeyed fuel (drop h.total_len (b ∷ bytes)) spans' producers' out'
              (turn-AllKeyed h batch entered out g))
    ]

    pub decode_partition-AllKeyed :
        (records : Bytes) (aborted : List AbortedTransaction)
        → AnswerKeyed (decode_partition d options topic partition records aborted)
    unfolding decode_partition
    decode_partition-AllKeyed records aborted =
        walk-AllKeyed (length records + 1) records (spans_of options.visibility aborted) []
          nothing_decoded tt
