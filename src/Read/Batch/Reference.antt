-- ===== src/Read/Batch/Reference.antt =====
-- The walk against one that keeps no queue and no set: it asks of every batch whether its producer hides.
use kaas_lib.Prelude.{
  ℕ, zero, suc, ◌+◌, ◌≡◌, refl, ◌∙◌, ap, Bool, true, false, ◌&&◌, if◌then◌else◌, Option, none, some,
  List, [], ◌∷◌, length, String,
}
use kaas_lib.Prelude.Int.{ℤ, ℤ-discrete}
use kaas_lib.Prelude.Map.{contains, set_remove}
use kaas_lib.Meta.Retry.Reask.{ok, err}
use kaas_lib.Read.Record.{Bytes}
use kaas_lib.Read.Header.{BatchHeader, peek_header, take, drop}
use kaas_lib.Read.Batch.{
  AbortedTransaction, DecodeOptions, DecodedPartition, Decoder, nothing_decoded, spans_of, enter,
  hidden, visit, turn, end_walk, walk, decode_partition,
}
use kaas_lib.Read.Batch.Walk.{peeked, no_header, header}
use kaas_lib.Read.Batch.Hiding.{
  Tracks, hides_at, hides_lem, after_marker, Tracks-next, shown_aborted, spans_of-Tracks,
}

pair_up :
    {A B : Type 0} (c b : Bool) (x y : A) (u v w : B)
    → ◌≡◌ {A = A × B}
        (if c then (x, u) else if b then (y, v) else (y, w))
        (if c then x else y, if c then u else if b then v else w)
pair_up true b x y u v w = refl
pair_up false true x y u v w = refl
pair_up false false x y u v w = refl

module _ (d : Decoder) (options : DecodeOptions) (topic : String) (partition : ℤ)
    (aborted : List AbortedTransaction) where
  -- A turn that is told whether the producer hides.
  abbrev pub plain_turn : BatchHeader → Bytes → Bool → DecodedPartition → DecodedPartition
  plain_turn h batch hides out =
      if h.control
      then record out { control_batches_skipped = out.control_batches_skipped + 1 }
      else if h.transactional && hides
      then record out { aborted_records_skipped = out.aborted_records_skipped + hidden h }
      else visit d options topic partition h batch out

  -- The walk over the headers before, the latest first.
  unfoldable pub plain_walk :
      ℕ → Bytes → List BatchHeader → DecodedPartition → Option DecodedPartition
  plain_walk zero records earlier out = none
  plain_walk (suc fuel) [] earlier out = some out
  plain_walk (suc fuel) (b ∷ bytes) earlier out = elim (peek_header (b ∷ bytes)) [
    | err problem ↦ some (end_walk d options topic partition problem (b ∷ bytes) out)
    | ok h ↦ plain_walk fuel (drop h.total_len (b ∷ bytes)) (h ∷ earlier) (
        plain_turn h (take h.total_len (b ∷ bytes))
          (hides_at aborted h.producer_id h.base_offset earlier) out)
  ]

  turn_lem :
      (h : BatchHeader) (batch : Bytes) (earlier : List BatchHeader) (producers : List ℤ)
      (out : DecodedPartition)
      → turn d options topic partition h batch producers out ≡ (
        after_marker aborted earlier h producers,
        plain_turn h batch (contains ℤ-discrete h.producer_id producers) out,
      )
  unfolding turn
  turn_lem h batch earlier producers out =
      pair_up h.control (h.transactional && contains ℤ-discrete h.producer_id producers)
        (set_remove ℤ-discrete h.producer_id producers) producers
        (record out { control_batches_skipped = out.control_batches_skipped + 1 })
        (record out { aborted_records_skipped = out.aborted_records_skipped + hidden h })
        (visit d options topic partition h batch out)

  walk_lem :
      (fuel : ℕ) (records : Bytes) (earlier : List BatchHeader) (spans : List AbortedTransaction)
      (producers : List ℤ) (out : DecodedPartition)
      → Tracks aborted earlier spans producers
      → walk d options topic partition fuel records spans producers out
        ≡ plain_walk fuel records earlier out
  unfolding walk plain_walk
  walk_lem zero records earlier spans producers out t = refl
  walk_lem (suc fuel) [] earlier spans producers out t = refl
  walk_lem (suc fuel) (b ∷ bytes) earlier spans producers out t = elim (peeked (b ∷ bytes)) [
    | no_header problem e ↦ rw (walk, plain_walk, e) refl
    | header h e low high ↦
        let batch = take h.total_len (b ∷ bytes) in
        let rest = drop h.total_len (b ∷ bytes) in
        let spans' = (enter h.base_offset spans producers).0 in
        let entered = (enter h.base_offset spans producers).1 in
        let go : List ℤ × DecodedPartition → Option DecodedPartition =
          λ r. walk d options topic partition fuel rest spans' r.0 r.1 in
        rw (walk, plain_walk, e)
          (ap go (turn_lem h batch earlier entered out)
            ∙ walk_lem fuel rest (h ∷ earlier) spans' (after_marker aborted earlier h entered)
                (plain_turn h batch (contains ℤ-discrete h.producer_id entered) out)
                (Tracks-next aborted earlier h spans producers t)
            ∙ ap (λ hides. plain_walk fuel rest (h ∷ earlier) (plain_turn h batch hides out))
                (hides_lem aborted earlier h.base_offset h.producer_id spans producers t))
  ]

-- Decoding with its sorted queue of aborted spans and its set of hiding producers gives what the
-- plain walk gives, which hides a transactional batch exactly if an aborted transaction of its producer
-- was reached, by it or by an earlier batch, with no marker of that producer from the batch that first
-- reached it on. When everything is to be visible the plain walk knows of no aborted transaction.
pub decode_partition_lem :
    (d : Decoder) (options : DecodeOptions) (topic : String) (partition : ℤ) (records : Bytes)
    (aborted : List AbortedTransaction)
    → decode_partition d options topic partition records aborted
      ≡ plain_walk d options topic partition
          (shown_aborted options.visibility aborted)
          (length records + 1)
          records
          []
          nothing_decoded
unfolding decode_partition
decode_partition_lem d options topic partition records aborted =
    walk_lem d options topic partition (shown_aborted options.visibility aborted)
      (length records + 1) records [] (spans_of options.visibility aborted) [] nothing_decoded
      (spans_of-Tracks options.visibility aborted)
