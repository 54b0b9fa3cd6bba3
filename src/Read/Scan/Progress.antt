-- ===== src/Read/Scan/Progress.antt =====
-- How an answer moves a partition of a scan on.
use kaas_lib.Read.Batch.{Visibility}
use kaas_lib.Prelude.{
  sym, ◌≡◌, refl, subst, inl, inr, ◌⊎◌, true, false, not, ◌||◌, if_cases, ltb, is_empty, arith,
}
use kaas_lib.Prelude.Int.{ℤ, ◌≤ℤ◌, ◌<ℤ◌, ltb_ℤ, leb_ℤ, +ℤ_parts}
use kaas_lib.Prelude.Words.{i64_saturating_add, i64_max}
use kaas_lib.Conn.Errors.{Error, unsupported}
use kaas_lib.Meta.Retry.Reask.{Result, ok, err}
use kaas_lib.Read.Record.{max_ℤ}
use kaas_lib.Read.Batch.{DecodedPartition, decode_partition}
use kaas_lib.Read.Scan.{ScanSpec, PartitionCursor, decode_options}
use kaas_lib.Read.Scan.Absorb.{
  FetchedPartition, or_nothing, one, last_of, adjust, Absorbed, absorb, absorb_nothing, absorb_some,
  Source, absorb_into,
}
use kaas_lib.Read.Scan.Buffer.{Holds}

plus_one : (n : ℤ) → n <ℤ i64_max → n <ℤ i64_saturating_add n one
unfolding i64_saturating_add
plus_one n h = let p = +ℤ_parts n one in ground arith

max-above : (a b n : ℤ) → n <ℤ b → n <ℤ max_ℤ a b
max-above a b n h = if_cases (λ m. n <ℤ m) (leb_ℤ a b) (λ _. h) (λ above. ground arith)

-- A cursor that has moved on from an offset, or has nothing more to read.
abbrev pub MovedOn : ℤ → Absorbed → Type 0
MovedOn from a = (from <ℤ a.cursor.next_offset) ⊎ (a.cursor.finished ≡ true)

module _ (too_large : Error) (d : DecodedPartition) (c : PartitionCursor)
    (h : c.next_offset <ℤ i64_max) where
  absorb_nothing-MovedOn : Holds (MovedOn c.next_offset) (absorb_nothing too_large false d c)
  unfolding absorb_nothing
  absorb_nothing-MovedOn =
      let skipped = ltb 0 d.control_batches_skipped || ltb 0 d.aborted_records_skipped in
      if_cases (Holds (MovedOn c.next_offset)) skipped
        {x = ok (record {
          cursor = record c { next_offset = i64_saturating_add c.next_offset one };
          bad = 0;
          kept = 0;
          read = false;
        })}
        (λ _. inl (plus_one c.next_offset h))
        (λ _.
          if_cases (Holds (MovedOn c.next_offset)) (not d.truncated_tail)
            {x = ok
              (record { cursor = record c { finished = true }; bad = 0; kept = 0; read = false })}
            (λ _. inr refl) (λ _. tt))

  absorb_some-MovedOn : MovedOn c.next_offset (absorb_some d c)
  unfolding absorb_some
  absorb_some-MovedOn =
      let p = plus_one c.next_offset h in
      let past = i64_saturating_add (last_of c.next_offset d.outcomes) one in
      inl (max-above past (i64_saturating_add c.next_offset one) c.next_offset p)

  absorb-MovedOn : Holds (MovedOn c.next_offset) (absorb too_large false d c)
  absorb-MovedOn =
      if_cases (Holds (MovedOn c.next_offset)) (is_empty d.outcomes) (λ _. absorb_nothing-MovedOn)
        (λ _. absorb_some-MovedOn)

Holds-map :
    {A : Type 0} (P Q : A → Type 0)
    → ((a : A) → P a → Q a)
    → (r : Result Error A) → Holds P r
    → Holds Q r
Holds-map P Q f (err e) h = tt
Holds-map P Q f (ok a) h = f a h

MovedOn-earlier :
    (from later : ℤ) → from ≤ℤ later → (a : Absorbed) → MovedOn later a → MovedOn from a
MovedOn-earlier from later h a (inl past) = inl (omega arith)
MovedOn-earlier from later h a (inr over) = inr over

adjust_next :
    (v : Visibility) (f : FetchedPartition) (c : PartitionCursor)
    → c.next_offset <ℤ i64_max
    → f.log_start_offset <ℤ i64_max
    → (c.next_offset ≤ℤ (adjust v f c).next_offset) × ((adjust v f c).next_offset <ℤ i64_max)
unfolding adjust
adjust_next v f c h g =
    if_cases (λ n. (c.next_offset ≤ℤ n) × (n <ℤ i64_max)) (ltb_ℤ c.next_offset f.log_start_offset)
      (λ behind. (ground arith, g)) (λ _. (omega arith, h))

-- In a scan that does not follow, what an answer holds for a partition either moves its offset strictly
-- on, or finishes it, or is an error: no offset is asked for twice. The offset asked for and the start of
-- the log are below the largest offset there is.
pub absorb_into-MovedOn :
    (src : Source) (spec : ScanSpec) (f : FetchedPartition) (c : PartitionCursor)
    → spec.follow ≡ false
    → c.next_offset <ℤ i64_max
    → f.log_start_offset <ℤ i64_max
    → Holds (MovedOn c.next_offset) (absorb_into src spec f c)
absorb_into-MovedOn src spec f c browse h g =
    let error = unsupported (src.too_large spec.topic f.partition spec.partition_max_bytes) in
    let d = or_nothing (
      decode_partition src.decoder (decode_options spec) spec.topic f.partition f.records
        f.aborted) in
    let c' = adjust spec.visibility f c in
    let (on, below) = adjust_next spec.visibility f c h g in
    subst (λ follow. Holds (MovedOn c.next_offset) (absorb error follow d c')) (sym browse)
      (Holds-map (MovedOn c'.next_offset) (MovedOn c.next_offset)
        (MovedOn-earlier c.next_offset c'.next_offset on) (absorb error false d c')
        (absorb-MovedOn error d c' below))
