-- ===== src/Produce/Accumulator/Answers.antt =====
-- Which records expiry and failure answer, and which stay.
use kaas_lib.Prelude.{
  ℕ, ◌+◌, ◌≡◌, refl, sym, ap, ◌∙◌, Bool, true, Bool-cases, inl, inr, if◌then◌else◌, Option, none,
  some, List, [], ◌∷◌, ◌++◌, map, length, length-append, filter, all, is_empty, arith,
}
use kaas_lib.Conn.Errors.{Error}
use kaas_lib.Produce.Accumulator.Types.{Queued, Batch, PartitionState, Outcome, failed}
use kaas_lib.Produce.Accumulator.Buffer.{
  is_live, is_overdue, expired, drop_expired, keep_open, expire_open, expire_pending, expire,
  fail_all, fail_state, open_records, all_records,
}
use kaas_lib.Produce.Accumulator.Order.{buffered}
use mathlib.Core.List.{map-append}

pub filter-append :
    (p : Queued → Bool) (xs ys : List Queued) → filter p (xs ++ ys) ≡ filter p xs ++ filter p ys
filter-append p [] ys = refl
filter-append p (x ∷ xs) ys = ground (arith, filter-append p xs ys)

filter_of_all : (p : Queued → Bool) (xs : List Queued) → all p xs ≡ true → filter p xs ≡ xs
filter_of_all p [] h = refl
filter_of_all p (x ∷ xs) h = ground (arith, filter_of_all p xs)

overdue_of_all_live :
    (now : ℕ) (xs : List Queued) → all (is_live now) xs ≡ true → filter (is_overdue now) xs ≡ []
overdue_of_all_live now [] h = refl
overdue_of_all_live now (x ∷ xs) h = ground (arith, overdue_of_all_live now xs)

-- The batch keeps what is live and answers what is overdue.
pub drop_expired_lem :
    (now budget : ℕ) (b : Batch)
    → ((drop_expired now budget b).0.records ≡ filter (is_live now) b.records)
      × ((drop_expired now budget b).1
          ≡ map (expired now budget) (filter (is_overdue now) b.records))
unfolding drop_expired
drop_expired_lem now budget b = elim (Bool-cases (all (is_live now) b.records)) [
  | inl live ↦ rw live (
    sym (filter_of_all (is_live now) b.records live),
    ap (map (expired now budget)) (sym (overdue_of_all_live now b.records live)),
  )
  | inr dead ↦ rw dead (refl, refl)
]

open_records-keep_open : (b : Batch) → open_records (keep_open b) ≡ b.records
open_records-keep_open b = by_records b.records refl
  where
    by_records : (xs : List Queued) → b.records ≡ xs → open_records (keep_open b) ≡ b.records
    by_records [] e = rw e
    by_records (x ∷ xs) e = rw e

module _ (now budget : ℕ) where
  -- The overdue records of a list, each with its answer.
  abbrev pub answers_of : List Queued → List (ℕ × Outcome)
  answers_of xs = map (expired now budget) (filter (is_overdue now) xs)

  answers_of-append : (xs ys : List Queued) → answers_of (xs ++ ys) ≡ answers_of xs ++ answers_of ys
  answers_of-append xs ys = rw (filter-append (is_overdue now) xs ys, map-append)

  expire_open_lem :
      (o : Option Batch)
      → (open_records (expire_open now budget o).0 ≡ filter (is_live now) (open_records o))
        × ((expire_open now budget o).1 ≡ answers_of (open_records o))
  unfolding expire_open
  expire_open_lem none = (refl, refl)
  expire_open_lem (some b) =
      let (kept, answered) = drop_expired_lem now budget b in
      (open_records-keep_open (drop_expired now budget b).0 ∙ kept, answered)

  all_records-kept :
      (b : Batch) (bs : List Batch)
      → all_records (if is_empty b.records then bs else b ∷ bs) ≡ b.records ++ all_records bs
  all_records-kept b bs = by_records b.records refl
    where
      by_records :
          (xs : List Queued)
          → b.records ≡ xs
          → all_records (if is_empty b.records then bs else b ∷ bs) ≡ b.records ++ all_records bs
      by_records [] e = rw e
      by_records (x ∷ xs) e = rw e

  expire_pending_lem :
      (bs : List Batch)
      → (all_records (expire_pending now budget bs).0 ≡ filter (is_live now) (all_records bs))
        × ((expire_pending now budget bs).1 ≡ answers_of (all_records bs))
  unfolding expire_pending
  expire_pending_lem [] = (refl, refl)
  expire_pending_lem (b ∷ bs) =
      let (kept, answered) = drop_expired_lem now budget b in
      let (kept_rest, answered_rest) = expire_pending_lem bs in
      (
        all_records-kept (drop_expired now budget b).0 (expire_pending now budget bs).0
            ∙ rw (kept, kept_rest, filter-append),
        rw (answered, answered_rest) (sym (answers_of-append b.records (all_records bs))),
      )

  -- Expiry keeps exactly the buffered records whose deadline lies ahead, in their order, and answers
  -- exactly the others, each once and with a timeout: those of the open batch first.
  pub buffered-expire :
      (s : PartitionState)
      → (buffered (expire now budget s).0 ≡ filter (is_live now) (buffered s))
        × ((expire now budget s).1
            ≡ map (expired now budget) (filter (is_overdue now) (open_records s.open_batch))
              ++ map (expired now budget) (filter (is_overdue now) (all_records s.pending)))
  unfolding buffered expire
  buffered-expire s =
      let (kept, answered) = expire_open_lem s.open_batch in
      let (kept_rest, answered_rest) = expire_pending_lem s.pending in
      (
        rw (kept, kept_rest) (sym (filter-append (is_live now) (all_records s.pending) _)),
        rw (answered, answered_rest),
      )

-- A terminal failure answers every buffered record with the error and leaves none buffered; the
-- batch on the wire is left alone.
pub buffered-fail_state :
    (e : Error) (s : PartitionState)
    → (buffered (fail_state e s).0 ≡ [])
      × ((fail_state e s).1 ≡ fail_all e (open_records s.open_batch ++ all_records s.pending))
      × ((fail_state e s).0.in_flight ≡ s.in_flight)
unfolding buffered fail_state
buffered-fail_state e s = (refl, refl, refl)

length_split :
    (now : ℕ) (xs : List Queued)
    → length (filter (is_live now) xs) + length (filter (is_overdue now) xs) ≡ length xs
length_split now [] = refl
length_split now (x ∷ xs) = ground (arith, length_split now xs)

module _ {A B : Type 0} where
  length-map : (f : A → B) (xs : List A) → length (map f xs) ≡ length xs
  length-map f [] = refl
  length-map f (x ∷ xs) = omega (arith, length-map f xs)

pub length-buffered :
    (s : PartitionState)
    → length (buffered s) ≡ length (all_records s.pending) + length (open_records s.open_batch)
unfolding buffered
length-buffered s = length-append (all_records s.pending) (open_records s.open_batch)

length-filter-buffered :
    (p : Queued → Bool) (s : PartitionState)
    → length (filter p (buffered s))
      ≡ length (filter p (all_records s.pending)) + length (filter p (open_records s.open_batch))
unfolding buffered
length-filter-buffered p s =
    rw (filter-append p (all_records s.pending) (open_records s.open_batch))
      (length-append (filter p (all_records s.pending)) (filter p (open_records s.open_batch)))

-- The records that expiry takes out of the buffer are as many as the answers that it gives.
pub length-expire :
    (now budget : ℕ) (s : PartitionState)
    → length (buffered (expire now budget s).0) + length (expire now budget s).1
      ≡ length (buffered s)
length-expire now budget s =
    let (kept, answered) = buffered-expire now budget s in
    let overdue = map (expired now budget) in
    rw (kept, answered)
      (omega (
        arith,
        length-append (overdue (filter (is_overdue now) (open_records s.open_batch)))
            (overdue (filter (is_overdue now) (all_records s.pending))),
        length-map (expired now budget) (filter (is_overdue now) (open_records s.open_batch)),
        length-map (expired now budget) (filter (is_overdue now) (all_records s.pending)),
        length_split now (open_records s.open_batch),
        length_split now (all_records s.pending),
        length-filter-buffered (is_live now) s,
        length-buffered s,
      ))

pub length-fail_all : (e : Error) (xs : List Queued) → length (fail_all e xs) ≡ length xs
length-fail_all e xs = length-map (λ q. (q.caller, failed e)) xs

-- So are those that a failure takes out.
pub length-fail_state :
    (e : Error) (s : PartitionState) → length (fail_state e s).1 ≡ length (buffered s)
unfolding fail_state
length-fail_state e s = omega (
  arith,
  length-fail_all e (open_records s.open_batch ++ all_records s.pending),
  length-append (open_records s.open_batch) (all_records s.pending),
  length-buffered s,
)
