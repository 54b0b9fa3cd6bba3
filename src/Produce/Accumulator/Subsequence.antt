-- ===== src/Produce/Accumulator/Subsequence.antt =====
-- Lists of records with some taken out, in order.
use kaas_lib.Prelude.{Bool, Bool-cases, inl, inr, List, [], ◌∷◌, ◌++◌, filter}
use kaas_lib.Produce.Accumulator.Types.{Queued}

-- The first list is what is left of the second when some of its entries are taken out.
pub data Subsequence : List Queued → List Queued → Type 0 where
  done : Subsequence [] []
  keep : {xs ys : List Queued} (x : Queued) → Subsequence xs ys → Subsequence (x ∷ xs) (x ∷ ys)
  skip : {xs ys : List Queued} (x : Queued) → Subsequence xs ys → Subsequence xs (x ∷ ys)

pub Subsequence-refl : (xs : List Queued) → Subsequence xs xs
Subsequence-refl [] = done
Subsequence-refl (x ∷ xs) = keep x (Subsequence-refl xs)

pub Subsequence-nil : (ys : List Queued) → Subsequence [] ys
Subsequence-nil [] = done
Subsequence-nil (y ∷ ys) = skip y (Subsequence-nil ys)

pub Subsequence-append :
    {ks ls : List Queued} {ms ns : List Queued}
    → Subsequence ks ls
    → Subsequence ms ns
    → Subsequence (ks ++ ms) (ls ++ ns)
Subsequence-append done q = q
Subsequence-append (keep x p) q = keep x (Subsequence-append p q)
Subsequence-append (skip x p) q = skip x (Subsequence-append p q)

pub Subsequence-trans :
    {xs ys zs : List Queued} → Subsequence xs ys → Subsequence ys zs → Subsequence xs zs
Subsequence-trans p done = p
Subsequence-trans (keep x p) (keep _ q) = keep x (Subsequence-trans p q)
Subsequence-trans (skip x p) (keep _ q) = skip x (Subsequence-trans p q)
Subsequence-trans p (skip y q) = skip y (Subsequence-trans p q)

pub filter-Subsequence : (p : Queued → Bool) (xs : List Queued) → Subsequence (filter p xs) xs
filter-Subsequence p [] = done
filter-Subsequence p (x ∷ xs) = elim (Bool-cases (p x)) [
  | inl stays ↦ rw stays (keep x (filter-Subsequence p xs))
  | inr goes ↦ rw goes (skip x (filter-Subsequence p xs))
]
