-- ===== src/Produce/Accumulator/Order.antt =====
-- The records of a partition leave the buffer in the order in which they joined it.
use kaas_lib.Prelude.{
  ℕ, ◌≡◌, refl, ◌∙◌, Bool-cases, inl, inr, leb, Option, none, some, List, [], ◌∷◌, ◌++◌, append-nil,
  append_assoc,
}
use kaas_lib.Produce.Accumulator.Types.{Queued, Batch, PartitionState, Config, size_of}
use kaas_lib.Produce.Accumulator.Buffer.{
  close, close_open, close_lingered, lingered, would_overflow, or_new, push, join_open,
  append_record, open_records, all_records,
}

-- The buffered records of a partition, oldest first.
unfoldable pub buffered : PartitionState → List Queued
buffered s = all_records s.pending ++ open_records s.open_batch

all_records-append :
    (bs : List Batch) (b : Batch) → all_records (bs ++ (b ∷ [])) ≡ all_records bs ++ b.records
all_records-append [] b = append-nil b.records
all_records-append (a ∷ bs) b = rw (all_records-append bs b, append_assoc)

-- Closing the open batch leaves the order alone.
pub buffered-close : (s : PartitionState) → buffered (close s) ≡ buffered s
unfolding buffered close
buffered-close s = closing s.open_batch
  where
    closing :
        (o : Option Batch)
        → all_records (close_open o s.pending) ++ [] ≡ all_records s.pending ++ open_records o
    closing none = refl
    closing (some b) = rw (append-nil, all_records-append s.pending b)

pub buffered-close_lingered :
    (linger now : ℕ) (s : PartitionState) → buffered (close_lingered linger now s) ≡ buffered s
unfolding close_lingered
buffered-close_lingered linger now s = elim (Bool-cases (lingered s.open_batch linger now)) [
  | inl late ↦ rw late (buffered-close s)
  | inr early ↦ rw early
]

open_records-or_new : (o : Option Batch) (now : ℕ) → (or_new o now).records ≡ open_records o
open_records-or_new none now = refl
open_records-or_new (some b) now = refl

buffered-join_open :
    (c : Config) (q : Queued) (now : ℕ) (s : PartitionState)
    → buffered (join_open c q now s) ≡ buffered s ++ (q ∷ [])
unfolding buffered join_open
buffered-join_open c q now s =
    elim (Bool-cases (leb c.batch_size (push q (or_new s.open_batch now)).bytes)) [
      | inl reached ↦
          rw reached (rw (append-nil, all_records-append, open_records-or_new, append_assoc))
      | inr room ↦ rw room (rw (open_records-or_new, append_assoc))
    ]

-- A record that is appended becomes the last of its partition's buffered records, and the others
-- keep their order, whether or not a batch closes on the way.
pub buffered-append_record :
    (c : Config) (q : Queued) (now : ℕ) (s : PartitionState)
    → buffered (append_record c q now s) ≡ buffered s ++ (q ∷ [])
unfolding append_record
buffered-append_record c q now s = elim (Bool-cases (would_overflow c (size_of q) s.open_batch)) [
  | inl over ↦ rw over (buffered-join_open c q now (close s) ∙ rw buffered-close)
  | inr fits ↦ rw fits (buffered-join_open c q now s)
]
