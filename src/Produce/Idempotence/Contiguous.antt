-- ===== src/Produce/Idempotence/Contiguous.antt =====
-- The sequence numbers of the accepted batches of a partition have no gap.
use kaas_lib.Prelude.{
  ℕ, Bool, true, false, Option, none, some, List, [], ◌∷◌, ◌≡◌, refl, ◌∙◌, arith,
}
use kaas_lib.Prelude.Int.{ℤ}
use kaas_lib.Prelude.Words.{i32_wrapping_add}
use kaas_lib.Prelude.Map.{lookup, insert, remove, lookup-insert, lookup-remove}
use kaas_lib.Prelude.Text.{TopicPartition, TopicPartition-discrete}
use kaas_lib.Produce.Idempotence.{
  first_sequence, Sequences, no_sequences, next_of, count_i32, reserve, release,
}
use mathlib.Core.Logic.{ite, if_pos, if_neg}

abbrev dec : Discrete TopicPartition
dec = TopicPartition-discrete

pub next_of-reserve :
    (s : Sequences) (j k : TopicPartition) (n : ℕ)
    → next_of (reserve s j n).0 k
      ≡ ite (dec j k) (i32_wrapping_add (next_of s j) (count_i32 n)) (next_of s k)
unfolding reserve next_of
next_of-reserve s j k n =
    ground (arith, lookup-insert dec j k (i32_wrapping_add (next_of s j) (count_i32 n)) s.next)

pub next_of-release :
    (s : Sequences) (j k : TopicPartition) (b : ℤ)
    → next_of (release s j b) k ≡ ite (dec j k) b (next_of s k)
unfolding release next_of
next_of-release s j k b = ground (arith, lookup-insert dec j k b s.next)

-- A batch that a partition's log took: its partition, base sequence and record count.
pub record Accepted : Type 0 where
  pub key : TopicPartition
  pub base : ℤ
  pub count : ℕ

-- What happens to the numbers: a batch is dispatched, and its answer comes back.
pub data Event : Type 0 where
  dispatched : TopicPartition → ℕ → Event
  accepted rejected : TopicPartition → Event

-- The counters, the batch on the wire of each partition, and the accepted batches, newest first.
pub record Wire : Type 0 where
  pub sequences : Sequences
  pub on_wire : List (TopicPartition × (ℤ × ℕ))
  pub log : List Accepted

-- A batch of a partition goes out only if none of that partition is on the wire. A rejected batch
-- gives its numbers back.
abbrev send : Option (ℤ × ℕ) → TopicPartition → ℕ → Wire → Wire
send (some _) key n w = w
send none key n w =
    let (s, base) = reserve w.sequences key n in
    record w { sequences = s; on_wire = insert dec key (base, n) w.on_wire }

abbrev answer : Bool → Option (ℤ × ℕ) → TopicPartition → Wire → Wire
answer ok none key w = w
answer true (some (base, n)) key w = record w {
  on_wire = remove dec key w.on_wire;
  log = record { key = key; base = base; count = n } ∷ w.log;
}
answer false (some (base, n)) key w = record w {
  sequences = release w.sequences key base;
  on_wire = remove dec key w.on_wire;
}

unfoldable pub step : Wire → Event → Wire
step w (dispatched key n) = send (lookup dec key w.on_wire) key n w
step w (accepted key) = answer true (lookup dec key w.on_wire) key w
step w (rejected key) = answer false (lookup dec key w.on_wire) key w

unfoldable pub run : Wire → List Event → Wire
run w [] = w
run w (e ∷ es) = run (step w e) es

-- The number that the broker expects of a partition's next batch, given what its log took.
unfoldable pub expected : TopicPartition → List Accepted → ℤ
expected k [] = first_sequence
expected k (a ∷ log) =
    let rest = expected k log in
    ite (dec a.key k) (i32_wrapping_add a.base (count_i32 a.count)) rest

-- Every accepted batch of a partition starts where the one before it ended.
abbrev pub IsContiguous : List Accepted → Type 0
IsContiguous [] = Unit {0}
IsContiguous (a ∷ log) = (a.base ≡ expected a.key log) × IsContiguous log

-- What a counter says, with the batch on the wire, where the broker expects `ex` next.
abbrev pub AgreesAt : ℤ → ℤ → Option (ℤ × ℕ) → Type 0
AgreesAt nx ex none = nx ≡ ex
AgreesAt nx ex (some (base, n)) = (base ≡ ex) × (nx ≡ i32_wrapping_add base (count_i32 n))

abbrev pub Agrees : Wire → TopicPartition → Type 0
Agrees w k = AgreesAt (next_of w.sequences k) (expected k w.log) (lookup dec k w.on_wire)

pub record Inv (w : Wire) : Type 0 where
  pub counters : (k : TopicPartition) → Agrees w k
  pub contiguous : IsContiguous w.log

agrees_by :
    (nx nx' ex ex' : ℤ) (o o' : Option (ℤ × ℕ))
    → nx ≡ nx'
    → ex ≡ ex'
    → o ≡ o'
    → AgreesAt nx' ex' o'
    → AgreesAt nx ex o
agrees_by nx nx' ex ex' o o' p q r h = rw (p, q, r) h

base-reserve : (s : Sequences) (j : TopicPartition) (n : ℕ) → (reserve s j n).1 ≡ next_of s j
unfolding reserve
base-reserve s j n = refl

send-Agrees :
    (w : Wire) (j k : TopicPartition) (n : ℕ)
    → lookup dec j w.on_wire ≡ none
    → Agrees w j
    → Agrees w k
    → Agrees (send none j n w) k
send-Agrees w j k n free hj hk = elim (dec j k) [
  | yes e ↦
      agrees_by _ (i32_wrapping_add (next_of w.sequences j) (count_i32 n)) _ (expected j w.log) _
        (some (next_of w.sequences j, n))
        (next_of-reserve w.sequences j k n ∙ if_pos (dec j k) e _ _) (rw e)
        (lookup-insert dec j k _ w.on_wire ∙ if_pos (dec j k) e _ _ ∙ rw base-reserve)
        (rw free at hj, refl)
  | no d ↦
      agrees_by _ (next_of w.sequences k) _ (expected k w.log) _ (lookup dec k w.on_wire)
        (next_of-reserve w.sequences j k n ∙ if_neg (dec j k) d _ _) refl
        (lookup-insert dec j k _ w.on_wire ∙ if_neg (dec j k) d _ _) hk
]

accepted-Agrees :
    (w : Wire) (j k : TopicPartition) (base : ℤ) (n : ℕ)
    → lookup dec j w.on_wire ≡ some (base, n)
    → Agrees w j
    → Agrees w k
    → Agrees (answer true (some (base, n)) j w) k
unfolding expected
accepted-Agrees w j k base n there hj hk = elim (dec j k) [
  | yes e ↦
      agrees_by _ (next_of w.sequences j) _ (i32_wrapping_add base (count_i32 n)) _ none (rw e)
        (if_pos (dec j k) e _ _) (lookup-remove dec j k w.on_wire ∙ if_pos (dec j k) e _ _)
        (rw there at hj).1
  | no d ↦
      agrees_by _ (next_of w.sequences k) _ (expected k w.log) _ (lookup dec k w.on_wire) refl
        (if_neg (dec j k) d _ _) (lookup-remove dec j k w.on_wire ∙ if_neg (dec j k) d _ _) hk
]

rejected-Agrees :
    (w : Wire) (j k : TopicPartition) (base : ℤ) (n : ℕ)
    → lookup dec j w.on_wire ≡ some (base, n)
    → Agrees w j
    → Agrees w k
    → Agrees (answer false (some (base, n)) j w) k
rejected-Agrees w j k base n there hj hk = elim (dec j k) [
  | yes e ↦
      agrees_by _ base _ (expected j w.log) _ none
        (next_of-release w.sequences j k base ∙ if_pos (dec j k) e _ _) (rw e)
        (lookup-remove dec j k w.on_wire ∙ if_pos (dec j k) e _ _) (rw there at hj).0
  | no d ↦
      agrees_by _ (next_of w.sequences k) _ (expected k w.log) _ (lookup dec k w.on_wire)
        (next_of-release w.sequences j k base ∙ if_neg (dec j k) d _ _) refl
        (lookup-remove dec j k w.on_wire ∙ if_neg (dec j k) d _ _) hk
]

send-Inv :
    (w : Wire) (j : TopicPartition) (n : ℕ) (o : Option (ℤ × ℕ))
    → lookup dec j w.on_wire ≡ o
    → Inv w
    → Inv (send o j n w)
send-Inv w j n (some _) p h = h
send-Inv w j n none p h = record {
  counters = λ k. send-Agrees w j k n p (h.counters j) (h.counters k);
  contiguous = h.contiguous;
}

answer-Inv :
    (taken : Bool) (w : Wire) (j : TopicPartition) (o : Option (ℤ × ℕ))
    → lookup dec j w.on_wire ≡ o
    → Inv w
    → Inv (answer taken o j w)
answer-Inv taken w j none p h = h
answer-Inv true w j (some (base, n)) p h = record {
  counters = λ k. accepted-Agrees w j k base n p (h.counters j) (h.counters k);
  contiguous = ((rw p at (h.counters j)).0, h.contiguous);
}
answer-Inv false w j (some (base, n)) p h = record {
  counters = λ k. rejected-Agrees w j k base n p (h.counters j) (h.counters k);
  contiguous = h.contiguous;
}

pub step-Inv : (w : Wire) (e : Event) → Inv w → Inv (step w e)
unfolding step
step-Inv w (dispatched j n) h = send-Inv w j n _ refl h
step-Inv w (accepted j) h = answer-Inv true w j _ refl h
step-Inv w (rejected j) h = answer-Inv false w j _ refl h

pub run-Inv : (w : Wire) (es : List Event) → Inv w → Inv (run w es)
unfolding run
run-Inv w [] h = h
run-Inv w (e ∷ es) h = run-Inv (step w e) es (step-Inv w e h)

-- A producer whose identity has just been claimed.
abbrev pub fresh : Wire
fresh = record { sequences = no_sequences; on_wire = []; log = [] }

fresh-Inv : Inv fresh
unfolding next_of lookup expected
fresh-Inv = record { counters = λ k. refl; contiguous = tt }

-- Whatever batches are dispatched, accepted and rejected, with at most one batch of a partition on
-- the wire, the accepted batches of each partition are numbered without a gap from zero, in
-- arithmetic that wraps, and a partition with nothing on the wire goes on where they ended.
pub run-IsContiguous :
    (es : List Event)
    → IsContiguous (run fresh es).log
      × ((k : TopicPartition)
          → lookup dec k (run fresh es).on_wire ≡ none
          → next_of (run fresh es).sequences k ≡ expected k (run fresh es).log)
run-IsContiguous es =
    let h = run-Inv fresh es fresh-Inv in (h.contiguous, λ k free. rw free at (h.counters k))
