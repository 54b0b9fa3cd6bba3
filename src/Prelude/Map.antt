-- ===== src/Prelude/Map.antt =====
-- `HashMap` as an association list in no particular order, over keys with a decision of equality.
use mathlib.Core.Bool.{Bool, true, false, ◌&&◌}
use mathlib.Core.Path.{◌≡◌, refl}
use mathlib.Core.Logic.{ite, if_pos, if_neg, inl, inr}
use kaas_lib.Prelude.Lists.{filter}
use kaas_lib.Prelude.Tests.{if◌then◌else◌, Bool-cases}
use mathlib.Core.Option.{Option, none, some}
use mathlib.Core.List.{List, [], ◌∷◌}
use native.Mathlib.Omega.{arith}

module _ {ℓ} {J W : Type ℓ} where
  -- `keys`
  abbrev pub keys : List (J × W) → List J
  keys [] = []
  keys (entry ∷ m) = entry.0 ∷ keys m

module _ {ℓ} {K V : Type ℓ} (dec : Discrete K) where
  -- `get`
  unfoldable pub lookup : K → List (K × V) → Option V
  lookup k [] = none
  lookup k ((j, w) ∷ m) = ite (dec j k) (some w) (lookup k m)

  -- `insert`: overwrites the first entry of the key.
  unfoldable pub insert : K → V → List (K × V) → List (K × V)
  insert k v [] = (k, v) ∷ []
  insert k v ((j, w) ∷ m) = ite (dec j k) ((k, v) ∷ m) ((j, w) ∷ insert k v m)

  -- `remove`: drops every entry of the key.
  unfoldable pub remove : K → List (K × V) → List (K × V)
  remove k [] = []
  remove k ((j, w) ∷ m) = ite (dec j k) (remove k m) ((j, w) ∷ remove k m)

  pub lookup-insert :
      (k q : K) (v : V) (m : List (K × V))
      → lookup q (insert k v m) ≡ ite (dec k q) (some v) (lookup q m)
  unfolding lookup insert
  lookup-insert k q v [] = refl
  lookup-insert k q v ((j, w) ∷ m) = ground (arith, lookup-insert k q v m)

  pub lookup-remove :
      (k q : K) (m : List (K × V)) → lookup q (remove k m) ≡ ite (dec k q) none (lookup q m)
  unfolding lookup remove
  lookup-remove k q [] = ground arith
  lookup-remove k q ((j, w) ∷ m) = ground (arith, lookup-remove k q m)

  -- Every entry is what `lookup` finds at its key, as in a `HashMap`.
  abbrev pub IsFunctional : List (K × V) → List (K × V) → Type ℓ
  IsFunctional m [] = Unit
  IsFunctional m ((j, w) ∷ es) = (lookup j m ≡ some w) × IsFunctional m es

-- `HashSet` as a list in no particular order.
module _ {K : Type 0} (dec : Discrete K) where
  unfoldable pub contains : K → List K → Bool
  contains k [] = false
  contains k (j ∷ s) = ite (dec j k) true (contains k s)

  unfoldable pub set_insert : K → List K → List K
  set_insert k s = if contains k s then s else k ∷ s

  pub contains-set_insert :
      (k q : K) (s : List K) → contains q (set_insert k s) ≡ ite (dec k q) true (contains q s)
  unfolding set_insert
  contains-set_insert k q s = elim (Bool-cases (contains k s)) [
    | inl old ↦ rw old (elim (dec k q) [
      | yes p ↦ rw (if_pos (dec k q) p) (rw (← p) old)
      | no p ↦ rw (if_neg (dec k q) p)
    ])
    | inr new ↦ rw new (unfold contains in refl)
  ]

  pub contains-filter :
      (k : K) (p : K → Bool) (s : List K) → contains k (filter p s) ≡ contains k s && p k
  unfolding contains
  contains-filter k p [] = refl
  contains-filter k p (x ∷ s) = ground (arith, contains-filter k p s)

  unfoldable pub set_remove : K → List K → List K
  set_remove k [] = []
  set_remove k (j ∷ s) = let rest = set_remove k s in ite (dec j k) rest (j ∷ rest)

  pub contains-set_remove :
      (k q : K) (s : List K) → contains q (set_remove k s) ≡ ite (dec k q) false (contains q s)
  unfolding contains set_remove
  contains-set_remove k q [] = ground arith
  contains-set_remove k q (j ∷ s) = ground (arith, contains-set_remove k q s)
