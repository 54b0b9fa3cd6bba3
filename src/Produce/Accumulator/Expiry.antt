-- ===== src/Produce/Accumulator/Expiry.antt =====
-- Expiry keeps every batch within its bounds.
use kaas_lib.Prelude.{
  ℕ, ◌≤◌, ◌<◌, ◌≡◌, Bool, false, Bool-cases, inl, inr, Option, none, some, List, [], ◌∷◌, length,
  sum_by, filter, all, is_empty, All, arith,
}
use kaas_lib.Prelude.Words.{usize_max}
use kaas_lib.Produce.Accumulator.Types.{Queued, Batch, PartitionState, Config, size_of}
use kaas_lib.Produce.Accumulator.Buffer.{is_live, drop_expired, expire_open, expire_pending, expire}
use kaas_lib.Produce.Accumulator.Bounds.{
  IsSane, IsSendable, IsAccepting, StateInv, accounted_size-le-max,
}

filter-le :
    (p : Queued → Bool) (xs : List Queued)
    → (length (filter p xs) ≤ length xs) × (sum_by size_of (filter p xs) ≤ sum_by size_of xs)
filter-le p [] = omega arith
filter-le p (x ∷ xs) = ground (arith, filter-le p xs)

sum_of_few : (xs : List Queued) → length xs ≤ 1 → sum_by size_of xs ≤ usize_max
sum_of_few [] h = omega arith
sum_of_few (x ∷ []) h = omega (arith, accounted_size-le-max x)
sum_of_few (x ∷ y ∷ xs) h = absurd (omega arith)

module _ (c : Config) (sane : IsSane c) (now budget : ℕ) where
  -- The batch after expiry, unless nothing of it is left.
  drop_expired-IsSendable :
      (b : Batch)
      → IsSendable c b
      → is_empty (drop_expired now budget b).0.records ≡ false
      → IsSendable c (drop_expired now budget b).0
  unfolding drop_expired
  drop_expired-IsSendable b h = elim (Bool-cases (all (is_live now) b.records)) [
    | inl live ↦ rw live (λ _. h)
    | inr dead ↦ rw dead (λ left. filtered left)
  ]
    where
      xs : List Queued
      xs = filter (is_live now) b.records

      sum_small : sum_by size_of xs ≤ usize_max
      sum_small =
          ground
            (arith, sum_of_few xs, filter-le (is_live now) b.records, h.fits, sane.batch_size_small)

      filtered :
          is_empty xs ≡ false → IsSendable c (record b { records = xs; bytes = sum_by size_of xs })
      filtered left = record {
        has_record = left;
        counted = omega (arith, sum_small);
        fits = λ two. ground (arith, filter-le (is_live now) b.records, h.fits);
      }

  drop_expired-bytes :
      (b : Batch)
      → IsSendable c b
      → b.bytes < c.batch_size
      → (drop_expired now budget b).0.bytes < c.batch_size
  unfolding drop_expired
  drop_expired-bytes b h lt =
      ground (arith, h.counted, filter-le (is_live now) b.records, sane.batch_size_small)

  expire_open-IsAccepting :
      (o : Option Batch) → IsAccepting c o → IsAccepting c (expire_open now budget o).0
  unfolding expire_open
  expire_open-IsAccepting none a = tt
  expire_open-IsAccepting (some b) a =
      elim (Bool-cases (is_empty (drop_expired now budget b).0.records)) [
        | inl gone ↦ rw gone tt
        | inr left ↦ rw left (drop_expired-IsSendable b a.0 left, drop_expired-bytes b a.0 a.1)
      ]

  expire_pending-All :
      (bs : List Batch)
      → All (IsSendable c) bs
      → All (IsSendable c) (expire_pending now budget bs).0
  unfolding expire_pending
  expire_pending-All [] h = tt
  expire_pending-All (b ∷ bs) h =
      elim (Bool-cases (is_empty (drop_expired now budget b).0.records)) [
        | inl gone ↦ rw gone (expire_pending-All bs h.1)
        | inr left ↦ rw left (drop_expired-IsSendable b h.0 left, expire_pending-All bs h.1)
      ]

  -- With the size bounds below the largest `usize`, dropping the overdue records keeps the invariant,
  -- in particular no batch that is left is empty, and each one's bytes are what its records cost.
  pub expire-StateInv : (s : PartitionState) → StateInv c s → StateInv c (expire now budget s).0
  unfolding expire
  expire-StateInv s h = record {
    accepting = expire_open-IsAccepting s.open_batch h.accepting;
    sendable = expire_pending-All s.pending h.sendable;
  }
