-- ===== src/Produce/Accumulator/Bounds.antt =====
-- Every batch of more than one record fits the two size bounds, and no batch is empty.
use kaas_lib.Prelude.{
  ℕ, ◌+◌, ◌≤◌, ◌<◌, min, ◌≡◌, refl, false, Bool-cases, inl, inr, leb, Option, none, some, List, [],
  ◌∷◌, ◌++◌, length, length-append, sum_by, sum_by-append, is_empty, All, All-push, arith,
}
use kaas_lib.Prelude.Words.{usize_max}
use kaas_lib.Produce.Accumulator.Types.{
  Queued, Batch, PartitionState, Config, size_of, accounted_size, new_batch,
}
use kaas_lib.Produce.Accumulator.Buffer.{
  close, close_open, close_lingered, lingered, would_overflow, or_new, push, join_open,
  append_record,
}

-- The bounds are far below the largest `usize`.
pub record IsSane (c : Config) : Type 0 where
  pub batch_size_small : c.batch_size < usize_max
  pub max_request_size_small : c.max_request_size < usize_max

-- A batch that may go on the wire: it has a record, its bytes are what its records cost, and if it
-- has more than one record they cost no more than either bound.
pub record IsSendable (c : Config) (b : Batch) : Type 0 where
  pub has_record : is_empty b.records ≡ false
  pub counted : b.bytes ≡ min usize_max (sum_by size_of b.records)
  pub fits :
      2 ≤ length b.records
      → (sum_by size_of b.records ≤ c.batch_size) × (sum_by size_of b.records ≤ c.max_request_size)

-- A batch that still accepts records has not reached the target.
abbrev pub IsAccepting : Config → Option Batch → Type 0
IsAccepting c none = Unit {0}
IsAccepting c (some b) = IsSendable c b × (b.bytes < c.batch_size)

pub record StateInv (c : Config) (s : PartitionState) : Type 0 where
  pub accepting : IsAccepting c s.open_batch
  pub sendable : All (IsSendable c) s.pending

pub accounted_size-le-max : (q : Queued) → size_of q ≤ usize_max
unfolding accounted_size
accounted_size-le-max q = omega arith

length-push : (q : Queued) (b : Batch) → length (push q b).records ≡ length b.records + 1
length-push q b = omega (arith, length-append b.records (q ∷ []))

sum-push :
    (q : Queued) (b : Batch)
    → sum_by size_of (push q b).records ≡ sum_by size_of b.records + size_of q
sum-push q b = omega (arith, sum_by-append size_of b.records (q ∷ []))

is_empty-push : (q : Queued) (b : Batch) → is_empty (push q b).records ≡ false
is_empty-push q b = nonempty b.records
  where
    nonempty : (xs : List Queued) → is_empty (xs ++ (q ∷ [])) ≡ false
    nonempty [] = refl
    nonempty (x ∷ xs) = refl

module _ (c : Config) (sane : IsSane c) where
  -- A record joins a batch that has none, or one that would not overflow.
  push_new : (q : Queued) (now : ℕ) → IsSendable c (push q (new_batch now))
  push_new q now = record {
    has_record = refl;
    counted = omega (arith, accounted_size-le-max q);
    fits = λ two. absurd (omega arith);
  }

  push_fitting :
      (q : Queued) (b : Batch)
      → IsSendable c b
      → would_overflow c (size_of q) (some b) ≡ false
      → IsSendable c (push q b)
  push_fitting q b h fit = record {
    has_record = is_empty-push q b;
    counted = omega (arith, sum-push q b, h.counted);
    fits = λ two. ground (
      arith,
      sum-push q b,
      h.counted,
      h.has_record,
      sane.batch_size_small,
      sane.max_request_size_small,
    );
  }

  -- What `join_open` needs of the open batch: the record fits it.
  abbrev Takes : Queued → Option Batch → Type 0
  Takes q none = Unit {0}
  Takes q (some b) = IsSendable c b × (would_overflow c (size_of q) (some b) ≡ false)

  push-or_new :
      (q : Queued) (now : ℕ) (o : Option Batch) → Takes q o → IsSendable c (push q (or_new o now))
  push-or_new q now none h = push_new q now
  push-or_new q now (some b) h = push_fitting q b h.0 h.1

  join_open-StateInv :
      (q : Queued) (now : ℕ) (s : PartitionState)
      → Takes q s.open_batch
      → All (IsSendable c) s.pending
      → StateInv c (join_open c q now s)
  unfolding join_open
  join_open-StateInv q now s t h =
      let joined = push-or_new q now s.open_batch t in
      elim (Bool-cases (leb c.batch_size (push q (or_new s.open_batch now)).bytes)) [
        | inl reached ↦
            rw reached
              (record { accepting = tt; sendable = All-push (IsSendable c) s.pending h joined })
        | inr room ↦ rw room (record { accepting = (joined, ground arith); sendable = h })
      ]

  pub close-StateInv : (s : PartitionState) → StateInv c s → StateInv c (close s)
  unfolding close
  close-StateInv s h = record { accepting = tt; sendable = closing s.open_batch h.accepting }
    where
      closing : (o : Option Batch) → IsAccepting c o → All (IsSendable c) (close_open o s.pending)
      closing none a = h.sendable
      closing (some b) a = All-push (IsSendable c) s.pending h.sendable a.0

  pub close_lingered-StateInv :
      (now : ℕ) (s : PartitionState) → StateInv c s → StateInv c (close_lingered c.linger now s)
  unfolding close_lingered
  close_lingered-StateInv now s h = elim (Bool-cases (lingered s.open_batch c.linger now)) [
    | inl late ↦ rw late (close-StateInv s h)
    | inr early ↦ rw early h
  ]

  Takes-open :
      (q : Queued) (o : Option Batch)
      → IsAccepting c o
      → would_overflow c (size_of q) o ≡ false
      → Takes q o
  Takes-open q none a fit = tt
  Takes-open q (some b) a fit = (a.0, fit)

  -- With the size bounds below the largest `usize`, an append keeps the invariant: every closed batch
  -- has a record, is counted right and is within both bounds or has one record only, and so is the
  -- open batch, which also has not reached the target.
  pub append_record-StateInv :
      (q : Queued) (now : ℕ) (s : PartitionState)
      → StateInv c s
      → StateInv c (append_record c q now s)
  unfolding append_record
  append_record-StateInv q now s h = elim (Bool-cases (would_overflow c (size_of q) s.open_batch)) [
    | inl over ↦
        rw over
          (join_open-StateInv q now (close s) (unfold close in tt) (close-StateInv s h).sendable)
    | inr fits ↦
        rw fits (join_open-StateInv q now s (Takes-open q s.open_batch h.accepting fits) h.sendable)
  ]
