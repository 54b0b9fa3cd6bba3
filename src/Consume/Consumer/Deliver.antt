-- ===== src/Consume/Consumer/Deliver.antt =====
-- What a consumer buffers of a partition, over any number of fetches.
use kaas_lib.Prelude.{
  ◌≡◌, refl, ◌∙◌, sym, ap, subst, true, false, if◌then◌else◌, if_cases, filter, All, Option, none,
  some, List, [], ◌∷◌, ◌++◌, append_assoc, append-nil, arith, is_yes, String,
}
use kaas_lib.Prelude.Int.{ℤ, pos, ◌≤ℤ◌, leb_ℤ, ltb_ℤ}
use kaas_lib.Prelude.Words.{i64_saturating_add}
use kaas_lib.Prelude.Map.{lookup}
use kaas_lib.Prelude.Text.{TopicPartition, TopicPartition-discrete}
use kaas_lib.Read.Record.{Record, RecordOutcome, decoded, malformed, max_ℤ}
use kaas_lib.Read.Batch.{DecodeOptions, DecodedPartition, Decoder}
use kaas_lib.Read.Batch.Keyed.{IsKeyed, AnswerKeyed}
use kaas_lib.Read.Scan.Absorb.{or_nothing}
use kaas_lib.Read.Scan.Buffer.{All-append}
use kaas_lib.Consume.Consumer.{Assigned, Consumer, key_of, is_same, take_outcome, take_outcomes}

-- Records from one position to another: each is at or past the position that the one before it left,
-- which is one past that record's offset.
abbrev pub Ascends : ℤ → List Record → ℤ → Type 0
Ascends from [] to = from ≤ℤ to
Ascends from (r ∷ records) to =
    (from ≤ℤ r.offset) × Ascends (i64_saturating_add r.offset (pos 1)) records to

Ascends-sooner :
    (from later to : ℤ) (records : List Record)
    → from ≤ℤ later
    → Ascends later records to
    → Ascends from records to
Ascends-sooner from later to [] h g = omega arith
Ascends-sooner from later to (r ∷ records) h g = (omega (arith, g.0), g.1)

Ascends-append :
    (from mid to : ℤ) (xs ys : List Record)
    → Ascends from xs mid
    → Ascends mid ys to
    → Ascends from (xs ++ ys) to
Ascends-append from mid to [] ys h g = Ascends-sooner from mid to ys h g
Ascends-append from mid to (r ∷ xs) ys h g =
    (h.0, Ascends-append (i64_saturating_add r.offset (pos 1)) mid to xs ys h.1 g)

max-left : (a b : ℤ) → a ≤ℤ max_ℤ a b
max-left a b = if_cases (λ m. a ≤ℤ m) (leb_ℤ a b) (λ below. ground arith) (λ _. omega arith)

take_outcome-Ascends :
    (p : ℤ) (outcome : RecordOutcome)
    → let (p', taken) = take_outcome p outcome in Ascends p taken p'
take_outcome-Ascends p (malformed offset last raw reason) =
    max-left p (i64_saturating_add offset (pos 1))
take_outcome-Ascends p (decoded r) =
    if_cases {A = ℤ × List Record} (λ a. Ascends p a.1 a.0) (ltb_ℤ r.offset p) (λ _. omega arith)
      (λ past. (ground arith, omega arith))

pub take_outcomes-Ascends :
    (p : ℤ) (outcomes : List RecordOutcome)
    → let (p', taken) = take_outcomes p outcomes in Ascends p taken p'
unfolding take_outcomes
take_outcomes-Ascends p [] = omega arith
take_outcomes-Ascends p (outcome ∷ outcomes) =
    let (p', taken) = take_outcome p outcome in
    let (last, rest) = take_outcomes p' outcomes in
    Ascends-append p p' last taken rest (take_outcome-Ascends p outcome)
      (take_outcomes-Ascends p' outcomes)

-- The records of one partition among some.
abbrev pub of_key : TopicPartition → List Record → List Record
of_key k = filter (λ r. is_same (key_of r) k)

of_key-append :
    (k : TopicPartition) (xs ys : List Record) → of_key k (xs ++ ys) ≡ of_key k xs ++ of_key k ys
of_key-append k [] ys = refl
of_key-append k (x ∷ xs) ys = ground (arith, of_key-append k xs ys)

abbrev pub HasKey : TopicPartition → Record → Type 0
HasKey k r = key_of r ≡ k

yes_lem : {A : Type 0} (d : Dec A) → A → is_yes d ≡ true
yes_lem (yes _) a = refl
yes_lem (no n) a = absurd (n a)

no_lem : {A : Type 0} (d : Dec A) → ¬ A → is_yes d ≡ false
no_lem (yes a) n = absurd (n a)
no_lem (no _) n = refl

pub same_key :
    (k : TopicPartition) (records : List Record)
    → All (HasKey k) records
    → of_key k records ≡ records
same_key k [] h = refl
same_key k (r ∷ records) h =
    ap (λ b. if b then r ∷ of_key k records else of_key k records)
      (yes_lem (TopicPartition-discrete (key_of r) k) h.0)
    ∙ ap (λ rest. r ∷ rest) (same_key k records h.1)

pub other_key :
    (k j : TopicPartition) (records : List Record)
    → All (HasKey j) records
    → ¬ (j ≡ k)
    → of_key k records ≡ []
other_key k j [] h n = refl
other_key k j (r ∷ records) h n =
    ap (λ b. if b then r ∷ of_key k records else of_key k records)
      (no_lem (TopicPartition-discrete (key_of r) k) (λ e. n (sym h.0 ∙ e)))
    ∙ other_key k j records h.1 n

-- What is buffered of a partition while its entry goes from one to another.
abbrev pub Progress : Option Assigned → Option Assigned → List Record → Type 0
Progress none after records = (after ≡ none) × (records ≡ [])
Progress (some a) after records =
    (a' : Assigned) × (after ≡ some a') × Ascends a.position records a'.position

pub Progress-same : (o : Option Assigned) → Progress o o []
Progress-same none = (refl, refl)
Progress-same (some a) = (a, refl, omega arith)

Progress-append :
    (before mid after : Option Assigned) (xs ys : List Record)
    → Progress before mid xs
    → Progress mid after ys
    → Progress before after (xs ++ ys)
Progress-append none mid after xs ys h g =
    let g' : Progress none after ys = subst (λ o. Progress o after ys) h.0 g in
    (g'.0, ap (λ l. l ++ ys) h.1 ∙ g'.1)
Progress-append (some a) mid after xs ys (b, e, up) g =
    let (c, e', up') = subst (λ o. Progress o after ys) e g in
    (c, e', Ascends-append a.position b.position c.position xs ys up up')

-- What a step adds to the buffer, and what of it belongs to the partition.
abbrev pub Delivers : TopicPartition → Consumer → Consumer → Type 0
Delivers k c c' =
    (records : List Record) × (c'.buffered ≡ c.buffered ++ records)
    × Progress (lookup TopicPartition-discrete k c.assignment)
        (lookup TopicPartition-discrete k c'.assignment) (of_key k records)

pub Delivers-same : (k : TopicPartition) (c : Consumer) → Delivers k c c
Delivers-same k c =
    ([], sym (append-nil c.buffered), Progress-same (lookup TopicPartition-discrete k c.assignment))

pub Delivers-then :
    (k : TopicPartition) (a b c : Consumer) → Delivers k a b → Delivers k b c → Delivers k a c
Delivers-then k a b c (xs, e, h) (ys, e', g) = (
  xs ++ ys,
  e' ∙ ap (λ l. l ++ ys) e ∙ append_assoc a.buffered xs ys,
  subst
      (Progress (lookup TopicPartition-discrete k a.assignment)
        (lookup TopicPartition-discrete k c.assignment))
      (sym (of_key-append k xs ys))
      (Progress-append (lookup TopicPartition-discrete k a.assignment)
        (lookup TopicPartition-discrete k b.assignment)
        (lookup TopicPartition-discrete k c.assignment) (of_key k xs) (of_key k ys) h g),
)

take_outcome-HasKey :
    (k : TopicPartition) (p : ℤ) (outcome : RecordOutcome)
    → IsKeyed k.topic k.partition outcome
    → All (HasKey k) (take_outcome p outcome).1
take_outcome-HasKey k p (malformed offset last raw reason) h = tt
take_outcome-HasKey k p (decoded r) h =
    if_cases {A = ℤ × List Record} (λ a. All (HasKey k) a.1) (ltb_ℤ r.offset p) (λ _. tt)
      (λ _. ((λ i. record { topic = h.0 i; partition = h.1 i }), tt))

pub take_outcomes-HasKey :
    (k : TopicPartition) (p : ℤ) (outcomes : List RecordOutcome)
    → All (IsKeyed k.topic k.partition) outcomes
    → All (HasKey k) (take_outcomes p outcomes).1
unfolding take_outcomes
take_outcomes-HasKey k p [] h = tt
take_outcomes-HasKey k p (outcome ∷ outcomes) h =
    let (p', taken) = take_outcome p outcome in
    All-append (HasKey k) taken (take_outcomes p' outcomes).1 (take_outcome-HasKey k p outcome h.0)
      (take_outcomes-HasKey k p' outcomes h.1)

pub or_nothing-IsKeyed :
    (topic : String) (partition : ℤ) (d : Decoder) (options : DecodeOptions)
    (o : Option DecodedPartition)
    → AnswerKeyed topic partition d options o
    → All (IsKeyed topic partition) (or_nothing o).outcomes
or_nothing-IsKeyed topic partition d options none h = tt
or_nothing-IsKeyed topic partition d options (some out) h = h
