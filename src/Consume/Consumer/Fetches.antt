-- ===== src/Consume/Consumer/Fetches.antt =====
-- What any number of answers to fetches make of a consumer.
use kaas_lib.Prelude.{
  ◌≡◌, refl, subst, if◌then◌else◌, if_cases, is_empty, All, Option, none, some, List, [], ◌∷◌,
  arith,
}
use mathlib.Core.Logic.{if_pos, if_neg}
use kaas_lib.Prelude.Int.{ℤ}
use kaas_lib.Prelude.Map.{lookup, insert, lookup-insert}
use kaas_lib.Prelude.Text.{TopicPartition, TopicPartition-discrete}
use kaas_lib.Conn.Errors.{Error}
use kaas_lib.Read.Record.{Record}
use kaas_lib.Read.Batch.{DecodeOptions, Decoder, decode_partition}
use kaas_lib.Read.Batch.Keyed.{decode_partition-AllKeyed}
use kaas_lib.Consume.Consumer.{
  Assigned, Consumer, take_outcomes, Fetched, outcomes_of, absorb_assigned, absorb, absorb_all,
}
use kaas_lib.Consume.Consumer.Deliver.{
  Ascends, take_outcomes-Ascends, HasKey, of_key, same_key, other_key, Progress, Progress-same,
  Delivers, Delivers-same, Delivers-then, take_outcomes-HasKey, or_nothing-IsKeyed,
}

module _ (d : Decoder) (options : DecodeOptions) where
  -- The position and the records that an answer gives.
  abbrev gives : Fetched → Assigned → ℤ × List Record
  gives f a =
      if is_empty f.records
      then (a.position, [])
      else take_outcomes a.position (outcomes_of d options f)

  gives-Ascends : (f : Fetched) (a : Assigned) → Ascends a.position (gives f a).1 (gives f a).0
  gives-Ascends f a =
      if_cases {A = ℤ × List Record} (λ g. Ascends a.position g.1 g.0) (is_empty f.records)
        (λ _. omega arith) (λ _. take_outcomes-Ascends a.position (outcomes_of d options f))

  gives-HasKey : (f : Fetched) (a : Assigned) → All (HasKey f.key) (gives f a).1
  gives-HasKey f a =
      if_cases {A = ℤ × List Record} (λ g. All (HasKey f.key) g.1) (is_empty f.records) (λ _. tt)
        (λ _. take_outcomes-HasKey f.key a.position (outcomes_of d options f) (
          or_nothing-IsKeyed f.key.topic f.key.partition d options
            (decode_partition d options f.key.topic f.key.partition f.records f.aborted)
            (decode_partition-AllKeyed f.key.topic f.key.partition d options f.records f.aborted)))

  -- The entry that an answer leaves.
  abbrev entry : Fetched → Assigned → Assigned
  entry f a = record a { position = (gives f a).0; high_watermark = f.high_watermark }

  absorb_records-Progress :
      (k : TopicPartition) (f : Fetched) (a : Assigned) (c : Consumer)
      → lookup TopicPartition-discrete f.key c.assignment ≡ some a
      → Dec (f.key ≡ k)
      → Progress
          (lookup TopicPartition-discrete k c.assignment)
          (lookup TopicPartition-discrete k
            (insert TopicPartition-discrete f.key (entry f a) c.assignment))
          (of_key k (gives f a).1)
  absorb_records-Progress k f a c e (yes same) =
      let new = lookup-insert TopicPartition-discrete f.key k (entry f a) c.assignment in
      let hit =
        if_pos (TopicPartition-discrete f.key k) same (some (entry f a))
          (lookup TopicPartition-discrete k c.assignment) in
      let own : of_key k (gives f a).1 ≡ (gives f a).1 =
        subst (λ j. of_key j (gives f a).1 ≡ (gives f a).1) same
          (same_key f.key (gives f a).1 (gives-HasKey f a)) in
      let old : lookup TopicPartition-discrete k c.assignment ≡ some a =
        subst (λ j. lookup TopicPartition-discrete j c.assignment ≡ some a) same e in
      rw (old, new, hit, own) (entry f a, refl, gives-Ascends f a)
  absorb_records-Progress k f a c e (no differ) =
      let new = lookup-insert TopicPartition-discrete f.key k (entry f a) c.assignment in
      let miss =
        if_neg (TopicPartition-discrete f.key k) differ (some (entry f a))
          (lookup TopicPartition-discrete k c.assignment) in
      let none_own = other_key k f.key (gives f a).1 (gives-HasKey f a) differ in
      rw (new, miss, none_own) (Progress-same (lookup TopicPartition-discrete k c.assignment))

  absorb_assigned-Delivers :
      (k : TopicPartition) (f : Fetched) (error : Option Error) (o : Option Assigned) (c : Consumer)
      → lookup TopicPartition-discrete f.key c.assignment ≡ o
      → Delivers k c (absorb_assigned d options f error o c)
  absorb_assigned-Delivers k f error none c e = Delivers-same k c
  absorb_assigned-Delivers k f (some failed) (some a) c e = Delivers-same k c
  absorb_assigned-Delivers k f none (some a) c e =
      ((gives f a).1, refl, absorb_records-Progress k f a c e (TopicPartition-discrete f.key k))

  absorb-Delivers :
      (k : TopicPartition) (f : Fetched) (c : Consumer) → Delivers k c (absorb d options f c)
  unfolding absorb
  absorb-Delivers k f c =
      absorb_assigned-Delivers k f f.error (lookup TopicPartition-discrete f.key c.assignment) c
        refl

  -- Whatever answers come, in any number and of any partitions: what is buffered grows only at its end;
  -- of an assigned partition, the records added start at its old position, each lies at or past the one
  -- after the record before it, and its new position is at or past the one after the last of them; of a
  -- partition that is not assigned nothing is added, and it stays unassigned.
  pub absorb_all-Delivers :
      (k : TopicPartition) (fetched : List Fetched) (c : Consumer)
      → Delivers k c (absorb_all d options fetched c)
  unfolding absorb_all
  absorb_all-Delivers k [] c = Delivers-same k c
  absorb_all-Delivers k (f ∷ fetched) c =
      Delivers-then k c (absorb d options f c) (absorb_all d options fetched (absorb d options f c))
        (absorb-Delivers k f c) (absorb_all-Delivers k fetched (absorb d options f c))
