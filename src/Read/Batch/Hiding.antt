-- ===== src/Read/Batch/Hiding.antt =====
-- Which producers hide: the queue of spans that the walk keeps, against what it is kept for.
use kaas_lib.Prelude.{
  ◌≡◌, refl, ◌∙◌, ap, inl, inr, Bool, true, false, not, ◌&&◌, ◌||◌, if◌then◌else◌, if_cases,
  Bool-cases, List, [], ◌∷◌, All, any, any-ext, arith,
}
use mathlib.Core.Logic.{ite}
use kaas_lib.Prelude.Int.{ℤ, ℤ-discrete, leb_ℤ}
use kaas_lib.Prelude.Map.{
  contains, set_insert, contains-set_insert, set_remove, contains-set_remove,
}
use kaas_lib.Prelude.Sort.{any-sort, IsSorted, sort-IsSorted, TotalOrder}
use kaas_lib.Read.Header.{BatchHeader}
use kaas_lib.Read.Batch.{
  AbortedTransaction, Visibility, everything, committed_only, by_first_offset, spans_of, enter,
}

abbrev pub is_from : ℤ → ℤ → Bool
is_from p q = ite (ℤ-discrete p q) true false

-- Whether a batch at or past an offset came before.
abbrev pub reached : ℤ → List BatchHeader → Bool
reached f earlier = any (λ h. leb_ℤ f h.base_offset) earlier

-- Whether a batch at an offset is the first one at or past the first offset of an aborted transaction
-- of a producer. The headers before it are given, the latest first.
abbrev pub opens : List AbortedTransaction → ℤ → ℤ → List BatchHeader → Bool
opens aborted p base earlier =
    any
      (λ s.
        (is_from s.producer_id p && leb_ℤ s.first_offset base)
        && not (reached s.first_offset earlier))
      aborted

-- Whether a producer hides after some batches: since an aborted transaction of it was reached, no
-- marker of it has come.
abbrev pub hiding : List AbortedTransaction → ℤ → List BatchHeader → Bool
hiding aborted p [] = false
hiding aborted p (h ∷ earlier) =
    if h.control && is_from h.producer_id p
    then false
    else hiding aborted p earlier || opens aborted p h.base_offset earlier

-- Whether it hides when a batch at an offset is looked at.
abbrev pub hides_at : List AbortedTransaction → ℤ → ℤ → List BatchHeader → Bool
hides_at aborted p base earlier = hiding aborted p earlier || opens aborted p base earlier

by_first_offset-TotalOrder : TotalOrder by_first_offset
by_first_offset-TotalOrder = record {
  total = λ x y h. ground arith;
  trans = λ x y z h g. ground arith;
}

-- The queue of spans and the set of producers after some batches.
pub record Tracks (aborted : List AbortedTransaction) (earlier : List BatchHeader)
    (spans : List AbortedTransaction) (producers : List ℤ) : Type 0 where
  pub sorted : IsSorted by_first_offset spans
  pub left :
      (q : AbortedTransaction → Bool)
      → any q spans ≡ any (λ s. q s && not (reached s.first_offset earlier)) aborted
  pub producing : (p : ℤ) → contains ℤ-discrete p producers ≡ hiding aborted p earlier

none-past :
    (base : ℤ) (q : AbortedTransaction → Bool) (s : AbortedTransaction)
    (spans : List AbortedTransaction)
    → leb_ℤ s.first_offset base ≡ false
    → All (λ t. by_first_offset s t ≡ true) spans
    → any (λ t. q t && not (leb_ℤ t.first_offset base)) spans ≡ any q spans
none-past base q s [] h g = refl
none-past base q s (t ∷ spans) h g =
    let past : leb_ℤ t.first_offset base ≡ false = ground arith in
    ground (arith, none-past base q s spans h g.1)

none-here :
    (base : ℤ) (q : AbortedTransaction → Bool) (s : AbortedTransaction)
    (spans : List AbortedTransaction)
    → leb_ℤ s.first_offset base ≡ false
    → All (λ t. by_first_offset s t ≡ true) spans
    → any (λ t. q t && leb_ℤ t.first_offset base) spans ≡ false
none-here base q s [] h g = refl
none-here base q s (t ∷ spans) h g =
    let past : leb_ℤ t.first_offset base ≡ false = ground arith in
    ground (arith, none-here base q s spans h g.1)

module _ (base : ℤ) where
  enter-IsSorted :
      (spans : List AbortedTransaction) (producers : List ℤ)
      → IsSorted by_first_offset spans
      → IsSorted by_first_offset (enter base spans producers).0
  unfolding enter
  enter-IsSorted [] producers h = tt
  enter-IsSorted (s ∷ spans) producers h =
      if_cases {A = List AbortedTransaction × List ℤ} (λ r. IsSorted by_first_offset r.0)
        (leb_ℤ s.first_offset base)
        (λ _. enter-IsSorted spans (set_insert ℤ-discrete s.producer_id producers) h.1) (λ _. h)

  -- The queue keeps the spans past the batch.
  enter_left :
      (q : AbortedTransaction → Bool) (spans : List AbortedTransaction) (producers : List ℤ)
      → IsSorted by_first_offset spans
      → any q (enter base spans producers).0
        ≡ any (λ s. q s && not (leb_ℤ s.first_offset base)) spans
  unfolding enter
  enter_left q [] producers h = refl
  enter_left q (s ∷ spans) producers h = elim (Bool-cases (leb_ℤ s.first_offset base)) [
    | inl here ↦
        ground (arith, enter_left q spans (set_insert ℤ-discrete s.producer_id producers) h.1)
    | inr past ↦ ground (arith, none-past base q s spans past h.0)
  ]

  -- The set gains the producers of the spans that the batch reached.
  enter_producers :
      (p : ℤ) (spans : List AbortedTransaction) (producers : List ℤ)
      → IsSorted by_first_offset spans
      → contains ℤ-discrete p (enter base spans producers).1
        ≡ contains ℤ-discrete p producers
          || any (λ s. is_from s.producer_id p && leb_ℤ s.first_offset base) spans
  unfolding enter
  enter_producers p [] producers h = ground arith
  enter_producers p (s ∷ spans) producers h = elim (Bool-cases (leb_ℤ s.first_offset base)) [
    | inl here ↦ ground (
      arith,
      enter_producers p spans (set_insert ℤ-discrete s.producer_id producers) h.1,
      contains-set_insert ℤ-discrete s.producer_id p producers,
    )
    | inr past ↦ ground (arith, none-here base (λ t. is_from t.producer_id p) s spans past h.0)
  ]

module _ (aborted : List AbortedTransaction) (earlier : List BatchHeader) where
  -- One more header: the spans it reaches leave the queue.
  left_next :
      (h : BatchHeader) (spans : List AbortedTransaction) (producers : List ℤ)
      (t : Tracks aborted earlier spans producers) (q : AbortedTransaction → Bool)
      → any q (enter h.base_offset spans producers).0
        ≡ any (λ s. q s && not (reached s.first_offset (h ∷ earlier))) aborted
  left_next h spans producers t q =
      enter_left h.base_offset q spans producers t.sorted
      ∙ t.left (λ s. q s && not (leb_ℤ s.first_offset h.base_offset))
      ∙ any-ext
          (λ s.
            (q s && not (leb_ℤ s.first_offset h.base_offset))
            && not (reached s.first_offset earlier))
          (λ s. q s && not (reached s.first_offset (h ∷ earlier))) (λ s. ground arith) aborted

  -- While a batch is looked at, the set holds the producers that hide there.
  pub hides_lem :
      (base p : ℤ) (spans : List AbortedTransaction) (producers : List ℤ)
      → Tracks aborted earlier spans producers
      → contains ℤ-discrete p (enter base spans producers).1 ≡ hides_at aborted p base earlier
  hides_lem base p spans producers t =
      enter_producers base p spans producers t.sorted
      ∙ ap (λ b. b || any (λ s. is_from s.producer_id p && leb_ℤ s.first_offset base) spans)
          (t.producing p)
      ∙ ap (λ b. hiding aborted p earlier || b)
          (t.left (λ s. is_from s.producer_id p && leb_ℤ s.first_offset base))

  -- A marker takes its producer out of the set.
  abbrev pub after_marker : BatchHeader → List ℤ → List ℤ
  after_marker h producers =
      if h.control then set_remove ℤ-discrete h.producer_id producers else producers

  producing_next :
      (h : BatchHeader) (p : ℤ) (producers : List ℤ)
      → contains ℤ-discrete p producers ≡ hides_at aborted p h.base_offset earlier
      → contains ℤ-discrete p (after_marker h producers) ≡ hiding aborted p (h ∷ earlier)
  producing_next h p producers e =
      let removed = contains-set_remove ℤ-discrete h.producer_id p producers in ground arith

  pub Tracks-next :
      (h : BatchHeader) (spans : List AbortedTransaction) (producers : List ℤ)
      → Tracks aborted earlier spans producers
      → Tracks aborted
          (h ∷ earlier)
          (enter h.base_offset spans producers).0
          (after_marker h (enter h.base_offset spans producers).1)
  Tracks-next h spans producers t = record {
    sorted = enter-IsSorted h.base_offset spans producers t.sorted;
    left = left_next h spans producers t;
    producing = λ p.
        producing_next h p (enter h.base_offset spans producers).1
          (hides_lem h.base_offset p spans producers t);
  }

-- The transactions that hide at all.
abbrev pub shown_aborted : Visibility → List AbortedTransaction → List AbortedTransaction
shown_aborted everything aborted = []
shown_aborted committed_only aborted = aborted

pub spans_of-Tracks :
    (v : Visibility) (aborted : List AbortedTransaction)
    → Tracks (shown_aborted v aborted) [] (spans_of v aborted) []
unfolding contains
spans_of-Tracks everything aborted = record { sorted = tt; left = λ q. refl; producing = λ p. refl }
spans_of-Tracks committed_only aborted = record {
  sorted = sort-IsSorted by_first_offset by_first_offset-TotalOrder aborted;
  left = λ q.
      any-sort by_first_offset q aborted ∙ any-ext q (λ s. q s && true) (λ s. ground arith) aborted;
  producing = λ p. refl;
}
