-- ===== src/Prelude/Sort.antt =====
-- `sort` and `sort_by`: insertion into an ordered list, with the Boolean order of the source.
use Prim.Native.Nat.{suc}
use mathlib.Core.Path.{◌≡◌, refl, ap, ◌∙◌}
use mathlib.Core.Logic.{ite}
use mathlib.Core.Bool.{Bool, true, false}
use mathlib.Core.List.{List, [], ◌∷◌}
use native.Mathlib.Omega.{arith}
use kaas_lib.Prelude.Tests.{if◌then◌else◌, if_cases}
use kaas_lib.Prelude.Lists.{length, All, any}
use kaas_lib.Prelude.Map.{contains}

module _ {A : Type 0} (before : A → A → Bool) where
  -- Puts an element in front of the first one that does not come before it.
  unfoldable pub place : A → List A → List A
  place x [] = x ∷ []
  place x (y ∷ ys) = let rest = place x ys in if before x y then x ∷ y ∷ ys else y ∷ rest

  unfoldable pub sort : List A → List A
  sort [] = []
  sort (x ∷ xs) = place x (sort xs)

  pub length-place : (x : A) (ys : List A) → length (place x ys) ≡ suc (length ys)
  unfolding place
  length-place x [] = refl
  length-place x (y ∷ ys) = ground (arith, length-place x ys)

  pub length-sort : (xs : List A) → length (sort xs) ≡ length xs
  unfolding sort
  length-sort [] = refl
  length-sort (x ∷ xs) = omega (arith, length-place x (sort xs), length-sort xs)

module _ {A : Type 0} (dec : Discrete A) (before : A → A → Bool) (q : A) where
  pub contains-place :
      (x : A) (ys : List A)
      → contains dec q (place before x ys) ≡ ite (dec x q) true (contains dec q ys)
  unfolding place contains
  contains-place x [] = refl
  contains-place x (y ∷ ys) = ground (arith, contains-place x ys)

  -- Sorting keeps the elements.
  pub contains-sort : (xs : List A) → contains dec q (sort before xs) ≡ contains dec q xs
  unfolding sort contains
  contains-sort [] = refl
  contains-sort (x ∷ xs) =
      contains-place x (sort before xs) ∙ ap (ite (dec x q) true) (contains-sort xs)

module _ {A : Type 0} (before : A → A → Bool) where
  any-place :
      (p : A → Bool) (x : A) (ys : List A)
      → any p (place before x ys) ≡ (if p x then true else any p ys)
  unfolding place
  any-place p x [] = refl
  any-place p x (y ∷ ys) = ground (arith, any-place p x ys)

  pub any-sort : (p : A → Bool) (xs : List A) → any p (sort before xs) ≡ any p xs
  unfolding sort
  any-sort p [] = refl
  any-sort p (x ∷ xs) = ground (arith, any-place p x (sort before xs), any-sort p xs)

  All-place_back :
      (P : A → Type 0) (x : A) (ys : List A) → All P (place before x ys) → P x × All P ys
  unfolding place
  All-place_back P x [] h = h
  All-place_back P x (y ∷ ys) h =
      if_cases (λ zs. All P zs → P x × All P (y ∷ ys)) (before x y) (λ _ g. g)
        (λ _ g. let rest = All-place_back P x ys g.1 in (rest.0, (g.0, rest.1))) h

  -- What holds of all elements of a sorted list held of all before.
  pub All-sort : (P : A → Type 0) (xs : List A) → All P (sort before xs) → All P xs
  unfolding sort
  All-sort P [] h = h
  All-sort P (x ∷ xs) h =
      let back = All-place_back P x (sort before xs) h in (back.0, All-sort P xs back.1)

  -- Every element comes before all the later ones.
  abbrev pub IsSorted : List A → Type 0
  IsSorted [] = Unit
  IsSorted (x ∷ xs) = All (λ y. before x y ≡ true) xs × IsSorted xs

  -- A total order, as a test.
  pub record TotalOrder : Type 0 where
    pub total : (x y : A) → before x y ≡ false → before y x ≡ true
    pub trans : (x y z : A) → before x y ≡ true → before y z ≡ true → before x z ≡ true

  module _ (order : TotalOrder) where
    All-before :
        (x y : A) (ys : List A)
        → before x y ≡ true
        → All (λ z. before y z ≡ true) ys
        → All (λ z. before x z ≡ true) ys
    All-before x y [] h g = tt
    All-before x y (z ∷ ys) h g = (order.trans x y z h g.0, All-before x y ys h g.1)

    All-place : (P : A → Type 0) (x : A) (ys : List A) → P x → All P ys → All P (place before x ys)
    unfolding place
    All-place P x [] h g = (h, tt)
    All-place P x (y ∷ ys) h g =
        if_cases (All P) (before x y) (λ _. (h, g)) (λ _. (g.0, All-place P x ys h g.1))

    place-IsSorted : (x : A) (ys : List A) → IsSorted ys → IsSorted (place before x ys)
    unfolding place
    place-IsSorted x [] h = (tt, tt)
    place-IsSorted x (y ∷ ys) h =
        if_cases IsSorted (before x y) (λ b. ((b, All-before x y ys b h.0), h))
          (λ b. (
            All-place (λ z. before y z ≡ true) x ys (order.total x y b) h.0,
            place-IsSorted x ys h.1,
          ))

    pub sort-IsSorted : (xs : List A) → IsSorted (sort before xs)
    unfolding sort
    sort-IsSorted [] = tt
    sort-IsSorted (x ∷ xs) = place-IsSorted x (sort before xs) (sort-IsSorted xs)
