-- ===== src/Read/Scan/Merge.antt =====
-- The choice of the merge by timestamp.
use kaas_lib.Prelude.{
  ℕ, zero, suc, ◌≡◌, refl, sym, subst, if_cases, All, Option, none, some, List, [], ◌∷◌, arith,
}
use kaas_lib.Prelude.Int.{ℤ, ◌≤ℤ◌, ◌<ℤ◌, ltb_ℤ}
use kaas_lib.Read.Scan.{PartitionCursor, head_timestamp}
use kaas_lib.Read.Scan.Step.{earlier_of, choose}

-- Whether a head is at or after a timestamp, and strictly after it; no head is both.
abbrev pub From : ℤ → Option ℤ → Type 0
From ts none = Unit
From ts (some t) = ts ≤ℤ t

abbrev pub After : ℤ → Option ℤ → Type 0
After ts none = Unit
After ts (some t) = ts <ℤ t

-- The choice is the first of the cursors whose head has the least timestamp, and there is none only if
-- no cursor has a head.
abbrev pub IsFirstLeast : List PartitionCursor → Option (ℕ × ℤ) → Type 0
IsFirstLeast cursors none = All (λ c. head_timestamp c ≡ none) cursors
IsFirstLeast [] (some (index, ts)) = ⊥
IsFirstLeast (c ∷ cursors) (some (zero, ts)) =
    (head_timestamp c ≡ some ts) × All (λ k. From ts (head_timestamp k)) cursors
IsFirstLeast (c ∷ cursors) (some (suc index, ts)) =
    After ts (head_timestamp c) × IsFirstLeast cursors (some (index, ts))

After-From : (ts best : ℤ) (o : Option ℤ) → ts ≤ℤ best → After best o → From ts o
After-From ts best none h g = tt
After-From ts best (some t) h g = omega arith

From-From : (ts best : ℤ) (o : Option ℤ) → ts ≤ℤ best → From best o → From ts o
From-From ts best none h g = tt
From-From ts best (some t) h g = omega arith

All-From :
    (ts best : ℤ) (cursors : List PartitionCursor)
    → ts ≤ℤ best
    → All (λ k. From best (head_timestamp k)) cursors
    → All (λ k. From ts (head_timestamp k)) cursors
All-From ts best [] h g = tt
All-From ts best (c ∷ cursors) h g =
    (From-From ts best (head_timestamp c) h g.0, All-From ts best cursors h g.1)

heads-From :
    (ts : ℤ) (cursors : List PartitionCursor)
    → All (λ c. head_timestamp c ≡ none) cursors
    → All (λ k. From ts (head_timestamp k)) cursors
heads-From ts [] h = tt
heads-From ts (c ∷ cursors) h = (subst (From ts) (sym h.0) tt, heads-From ts cursors h.1)

heads_later :
    (ts best : ℤ) (index : ℕ) (cursors : List PartitionCursor)
    → ts ≤ℤ best
    → IsFirstLeast cursors (some (index, best))
    → All (λ k. From ts (head_timestamp k)) cursors
heads_later ts best index [] h g = absurd g
heads_later ts best zero (c ∷ cursors) h g =
    (subst (From ts) (sym g.0) h, All-From ts best cursors h g.1)
heads_later ts best (suc index) (c ∷ cursors) h g =
    (After-From ts best (head_timestamp c) h g.0, heads_later ts best index cursors h g.1)

earlier_of-IsFirstLeast :
    (c : PartitionCursor) (cursors : List PartitionCursor) (o : Option ℤ) (r : Option (ℕ × ℤ))
    → head_timestamp c ≡ o
    → IsFirstLeast cursors r
    → IsFirstLeast (c ∷ cursors) (earlier_of o r)
earlier_of-IsFirstLeast c cursors none none e h = (e, h)
earlier_of-IsFirstLeast c cursors none (some (index, ts)) e h = (subst (After ts) (sym e) tt, h)
earlier_of-IsFirstLeast c cursors (some ts) none e h = (e, heads-From ts cursors h)
earlier_of-IsFirstLeast c cursors (some ts) (some (index, best)) e h =
    if_cases {A = Option (ℕ × ℤ)} (IsFirstLeast (c ∷ cursors)) (ltb_ℤ best ts)
      (λ later. (subst (After best) (sym e) (ground arith), h))
      (λ first. (e, heads_later ts best index cursors (ground arith) h))

-- The partition that a scan takes its next record from is the first one whose head has the least
-- timestamp; there is no choice only if no partition has anything buffered.
pub choose-IsFirstLeast : (cursors : List PartitionCursor) → IsFirstLeast cursors (choose cursors)
unfolding choose
choose-IsFirstLeast [] = tt
choose-IsFirstLeast (c ∷ cursors) =
    earlier_of-IsFirstLeast c cursors (head_timestamp c) (choose cursors) refl
      (choose-IsFirstLeast cursors)
