-- ===== src/Produce/Partition/Laws.antt =====
-- Where a record goes.
use kaas_lib.Prelude.{
  ℕ, ◌%◌, ◌≡◌, refl, ap, true, false, Bool-cases, Option-cases, inl, inr, Option, none, some, List,
  [], ◌∷◌, sym, ◌∙◌, String, arith,
}
use kaas_lib.Prelude.Int.{ℤ, pos, negsuc, ◌≤ℤ◌, ◌<ℤ◌, leb_ℤ}
use kaas_lib.Prelude.Words.{IsI32}
use kaas_lib.Prelude.Map.{lookup, lookup-insert, lookup-remove}
use kaas_lib.Prelude.Text.{String-discrete}
use kaas_lib.Produce.Partition.{
  partition_for_key, count_u32, i32_or_zero, Partitioner, clamp_choice, chosen_or, sticky_for,
  assign, rotate,
}
use mathlib.Core.Logic.{ite, if_pos, if_neg}

-- A partition that a topic with `n` partitions has.
abbrev pub InTopic : ℤ → ℤ → Type 0
InTopic p n = (pos 0 ≤ℤ p) × (p <ℤ n)

remainder-InTopic :
    (x : ℕ) (n : ℤ) → IsI32 n → pos 0 <ℤ n → InTopic (i32_or_zero (x % count_u32 n)) n
remainder-InTopic x (pos n) i h = grind arith
remainder-InTopic x (negsuc n) i h = absurd (omega arith)

-- Where the number of the topic's partitions is a positive i32, a keyed record goes to one of them.
pub partition_for_key-InTopic :
    (key : List ℕ) (n : ℤ) → IsI32 n → pos 0 <ℤ n → InTopic (partition_for_key key n) n
unfolding partition_for_key
partition_for_key-InTopic key n i h = remainder-InTopic _ n i h

-- No remembered choice is negative.
abbrev pub IsNonneg : Partitioner → Type 0
IsNonneg p = (t : String) (v : ℤ) → lookup String-discrete t p.sticky ≡ some v → pos 0 ≤ℤ v

clamp_choice-InTopic : (v n : ℤ) → pos 0 ≤ℤ v → pos 0 <ℤ n → InTopic (clamp_choice v n) n
clamp_choice-InTopic v (pos n) q lt = ground arith
clamp_choice-InTopic v (negsuc n) q lt = absurd (omega arith)

clamp_choice_same : (v n : ℤ) → InTopic v n → clamp_choice v n ≡ v
clamp_choice_same v n h = ground arith

-- The calls that a producer makes of its partitioner.
pub data Call : Type 0 where
  assign_call : String → Option (List ℕ) → ℤ → Call
  rotate_call : String → Call

module _ (draw : ℤ → ℤ) where
  abbrev pub call : Partitioner → Call → Partitioner
  call p (assign_call t key n) = (assign draw p t key n).0
  call p (rotate_call t) = rotate p t

  unfoldable pub run : Partitioner → List Call → Partitioner
  run p [] = p
  run p (c ∷ cs) = run (call p c) cs

-- A draw is one of the topic's partitions, as `random_range` documents.
module _ (draw : ℤ → ℤ) (draw-InTopic : (n : ℤ) → pos 0 <ℤ n → InTopic (draw n) n) where
  chosen_nonneg :
      (p : Partitioner) (t : String) (n : ℤ)
      → IsNonneg p
      → pos 0 <ℤ n
      → pos 0 ≤ℤ chosen_or (lookup String-discrete t p.sticky) (draw n)
  chosen_nonneg p t n h lt = elim (Option-cases (lookup String-discrete t p.sticky)) [
    | inl new ↦ rw (new, chosen_or) (draw-InTopic n lt).0
    | inr (v, old) ↦ rw (old, chosen_or) (h t v old)
  ]

  sticky_for-InTopic :
      (p : Partitioner) (t : String) (n : ℤ)
      → IsNonneg p
      → pos 0 <ℤ n
      → InTopic (sticky_for draw p t n).1 n
  unfolding sticky_for
  sticky_for-InTopic p t n h lt =
      clamp_choice-InTopic (chosen_or (lookup String-discrete t p.sticky) (draw n)) n
        (chosen_nonneg p t n h lt) lt

  lookup-sticky_for :
      (p : Partitioner) (t : String) (n : ℤ) (u : String)
      → lookup String-discrete u (sticky_for draw p t n).0.sticky
        ≡ ite
            (String-discrete t u)
            (some (sticky_for draw p t n).1)
            (lookup String-discrete u p.sticky)
  unfolding sticky_for
  lookup-sticky_for p t n u = lookup-insert String-discrete t u _ p.sticky

  sticky_for-IsNonneg :
      (p : Partitioner) (t : String) (n : ℤ)
      → IsNonneg p
      → pos 0 <ℤ n
      → IsNonneg (sticky_for draw p t n).0
  sticky_for-IsNonneg p t n h lt u v e = elim (String-discrete t u) [
    | yes q ↦
        let both : some (sticky_for draw p t n).1 ≡ some v =
          sym (if_pos (String-discrete t u) q _ _) ∙ sym (lookup-sticky_for p t n u) ∙ e in
        let same : (sticky_for draw p t n).1 ≡ v = cc both in
        rw same at (sticky_for-InTopic p t n h lt).0
    | no d ↦ h u v (sym (if_neg (String-discrete t u) d _ _) ∙ sym (lookup-sticky_for p t n u) ∙ e)
  ]

  assign_refused :
      (p : Partitioner) (t : String) (key : Option (List ℕ)) (n : ℤ)
      → leb_ℤ n (pos 0) ≡ true
      → assign draw p t key n ≡ (p, none)
  unfolding assign
  assign_refused p t key n e = rw e

  assign_keyed :
      (p : Partitioner) (t : String) (bytes : List ℕ) (n : ℤ)
      → leb_ℤ n (pos 0) ≡ false
      → assign draw p t (some bytes) n ≡ (p, some (partition_for_key bytes n))
  unfolding assign
  assign_keyed p t bytes n e = rw e

  assign_sticky :
      (p : Partitioner) (t : String) (n : ℤ)
      → leb_ℤ n (pos 0) ≡ false
      → assign draw p t none n ≡ ((sticky_for draw p t n).0, some (sticky_for draw p t n).1)
  unfolding assign
  assign_sticky p t n e = rw e

  assign-IsNonneg :
      (p : Partitioner) (t : String) (key : Option (List ℕ)) (n : ℤ)
      → IsNonneg p
      → IsNonneg (assign draw p t key n).0
  assign-IsNonneg p t key n h = elim (Bool-cases (leb_ℤ n (pos 0))) [
    | inl none_left ↦ rw (assign_refused p t key n none_left) h
    | inr left ↦ by_key key left
  ]
    where
      by_key :
          (key : Option (List ℕ)) → leb_ℤ n (pos 0) ≡ false → IsNonneg (assign draw p t key n).0
      by_key (some bytes) left = rw (assign_keyed p t bytes n left) h
      by_key none left = rw (assign_sticky p t n left) (sticky_for-IsNonneg p t n h (ground arith))

  rotate-IsNonneg : (p : Partitioner) (t : String) → IsNonneg p → IsNonneg (rotate p t)
  rotate-IsNonneg p t h u v e = elim (String-discrete t u) [
    | yes q ↦ absurd (gone q)
    | no d ↦ h u v (
        sym (if_neg (String-discrete t u) d _ _)
        ∙ sym (lookup-remove String-discrete t u p.sticky)
        ∙ (unfold rotate in e))
  ]
    where
      gone : t ≡ u → ⊥
      gone q =
          let both : none ≡ some v =
            sym (if_pos (String-discrete t u) q _ _)
            ∙ sym (lookup-remove String-discrete t u p.sticky)
            ∙ (unfold rotate in e) in
          cc both

  empty-IsNonneg : IsNonneg (record { sticky = [] })
  unfolding lookup
  empty-IsNonneg t v e = absurd (cc)

  run-IsNonneg : (p : Partitioner) (cs : List Call) → IsNonneg p → IsNonneg (run draw p cs)
  unfolding run
  run-IsNonneg p [] h = h
  run-IsNonneg p (assign_call t key n ∷ cs) h =
      run-IsNonneg (assign draw p t key n).0 cs (assign-IsNonneg p t key n h)
  run-IsNonneg p (rotate_call t ∷ cs) h = run-IsNonneg (rotate p t) cs (rotate-IsNonneg p t h)

  -- Where a draw is one of the topic's partitions and `n` is an i32: after any calls of a new
  -- partitioner, a record of a topic with `n` partitions gets one of those partitions, keyed or not;
  -- and if `n` is not positive, none.
  pub assign-run :
      (cs : List Call) (t : String) (key : Option (List ℕ)) (n : ℤ)
      → IsI32 n
      → let out = (assign draw (run draw (record { sticky = [] }) cs) t key n).1 in
        (n ≤ℤ pos 0 → out ≡ none) × (pos 0 <ℤ n → (q : ℤ) × (out ≡ some q) × InTopic q n)
  assign-run cs t key n i =
      let p = run draw (record { sticky = [] }) cs in
      let h : IsNonneg p = run-IsNonneg _ cs empty-IsNonneg in
      (λ few. ap (λ r. r.1) (assign_refused p t key n (ground arith)), λ lt. by_key p h key lt)
    where
      by_key :
          (p : Partitioner)
          → IsNonneg p
          → (key : Option (List ℕ)) → pos 0 <ℤ n
          → (q : ℤ) × ((assign draw p t key n).1 ≡ some q) × InTopic q n
      by_key p h (some bytes) lt = (
        partition_for_key bytes n,
        ap (λ r. r.1) (assign_keyed p t bytes n (ground arith)),
        partition_for_key-InTopic bytes n i lt,
      )
      by_key p h none lt = (
        (sticky_for draw p t n).1,
        ap (λ r. r.1) (assign_sticky p t n (ground arith)),
        sticky_for-InTopic p t n h lt,
      )

  remembered :
      (p : Partitioner) (t : String) (n c : ℤ)
      → lookup String-discrete t p.sticky ≡ some c
      → (sticky_for draw p t n).1 ≡ clamp_choice c n
  unfolding sticky_for
  remembered p t n c e = rw e

  -- Where a draw is one of the topic's partitions, no remembered choice is negative, and the topic
  -- has a partition: of two unkeyed records of one topic in a row, with the same number of
  -- partitions, the second goes where the first went.
  pub sticky_for_again :
      (p : Partitioner) (t : String) (n : ℤ)
      → IsNonneg p
      → pos 0 <ℤ n
      → (sticky_for draw (sticky_for draw p t n).0 t n).1 ≡ (sticky_for draw p t n).1
  sticky_for_again p t n h lt =
      let c = (sticky_for draw p t n).1 in
      let found : lookup String-discrete t (sticky_for draw p t n).0.sticky ≡ some c =
        lookup-sticky_for p t n t ∙ if_pos (String-discrete t t) refl _ _ in
      remembered (sticky_for draw p t n).0 t n c found
      ∙ clamp_choice_same c n (sticky_for-InTopic p t n h lt)
