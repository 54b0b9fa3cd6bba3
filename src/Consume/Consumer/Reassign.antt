-- ===== src/Consume/Consumer/Reassign.antt =====
-- `reassign` and `committed_or_earliest`: a new set of partitions, of which the known ones go on.
use kaas_lib.Prelude.{
  ◌≡◌, refl, sym, ap, inl, inr, Bool, true, false, not, ◌⊎◌, subst, if◌then◌else◌, Bool-cases,
  is_empty, filter, Option, none, some, List, [], ◌∷◌, arith,
}
use kaas_lib.Prelude.Int.{ℤ}
use kaas_lib.Prelude.Map.{lookup, insert, lookup-insert, contains, contains-filter}
use kaas_lib.Prelude.Text.{TopicPartition, TopicPartition-discrete}
use kaas_lib.Conn.Errors.{Error}
use kaas_lib.Meta.Retry.Reask.{Result, ok, err}
use kaas_lib.Consume.Consumer.{Assigned, Assignment, Consumer, starting_at, start_of, key_of}

abbrev dec : Discrete TopicPartition
dec = TopicPartition-discrete

abbrev pub Starts : Type 0
Starts = List (TopicPartition × ℤ)

-- `out.insert(key, committed.offset)` for every committed offset.
unfoldable pub insert_all : Starts → Starts → Starts
insert_all [] out = out
insert_all ((key, offset) ∷ committed) out = insert_all committed (insert dec key offset out)

-- The earliest offset of a partition without a committed one, as long as the lookups answer.
abbrev pub with_earliest :
    TopicPartition → Result Error ℤ → (Starts → Result Error Starts) → Starts → Result Error Starts
with_earliest key (err e) rest out = err e
with_earliest key (ok earliest) rest out = rest (insert dec key earliest out)

abbrev pub fill_if :
    Option ℤ
    → TopicPartition
    → Result Error ℤ
    → (Starts → Result Error Starts)
    → Starts
    → Result Error Starts
fill_if (some _) key earliest rest out = rest out
fill_if none key earliest rest out = with_earliest key earliest rest out

unfoldable pub fill_earliest :
    (TopicPartition → Result Error ℤ) → List TopicPartition → Starts → Result Error Starts
fill_earliest earliest [] out = ok out
fill_earliest earliest (key ∷ partitions) out =
    fill_if (lookup dec key out) key (earliest key) (fill_earliest earliest partitions) out

-- The committed offsets of the group, if there is one, and the earliest offsets of the rest.
unfoldable pub committed_or_earliest :
    Option (Result Error Starts)
    → (TopicPartition → Result Error ℤ)
    → List TopicPartition
    → Result Error Starts
committed_or_earliest none earliest partitions = fill_earliest earliest partitions []
committed_or_earliest (some (err e)) earliest partitions = err e
committed_or_earliest (some (ok committed)) earliest partitions =
    fill_earliest earliest partitions (insert_all committed [])

-- `assignment.retain(|key, _| wanted.contains(key))`
unfoldable pub retain : List TopicPartition → Assignment → Assignment
retain wanted [] = []
retain wanted ((key, a) ∷ assignment) =
    let rest = retain wanted assignment in if contains dec key wanted then (key, a) ∷ rest else rest

abbrev pub is_known : Option Assigned → Bool
is_known none = false
is_known (some _) = true

unfoldable pub insert_fresh : Starts → List TopicPartition → Assignment → Assignment
insert_fresh starts [] assignment = assignment
insert_fresh starts (key ∷ fresh) assignment =
    insert_fresh starts fresh (insert dec key (starting_at (start_of starts key)) assignment)

abbrev pub fresh_of : List TopicPartition → Assignment → List TopicPartition
fresh_of partitions retained = filter (λ key. not (is_known (lookup dec key retained))) partitions

-- The new partitions join, and the buffer keeps what is still wanted. Without their starts only the
-- assignment has shrunk.
abbrev pub join :
    List TopicPartition
    → List TopicPartition
    → Result Error Starts
    → Consumer
    → Result Error Unit × Consumer
join partitions fresh (err e) c = (err e, c)
join partitions fresh (ok starts) c = (
  ok tt,
  record {
    assignment = insert_fresh starts fresh c.assignment;
    buffered = filter (λ r. contains dec (key_of r) partitions) c.buffered;
  },
)

-- The starts are looked up only if a partition is new.
unfoldable pub reassign :
    (List TopicPartition → Result Error Starts)
    → List TopicPartition
    → Consumer
    → Result Error Unit × Consumer
reassign lookup_starts partitions c =
    let retained = retain partitions c.assignment in
    let fresh = fresh_of partitions retained in
    join partitions fresh (if is_empty fresh then ok [] else lookup_starts fresh)
      (record c { assignment = retained })

module _ (k : TopicPartition) where
  pub lookup-retain :
      (wanted : List TopicPartition) (m : Assignment)
      → lookup dec k (retain wanted m) ≡ (if contains dec k wanted then lookup dec k m else none)
  unfolding retain lookup
  lookup-retain wanted [] = ground arith
  lookup-retain wanted ((j, a) ∷ m) = elim (dec j k) [
    | yes e ↦
        let same : contains dec j wanted ≡ contains dec k wanted =
          ap (λ q. contains dec q wanted) e in
        ground (arith, lookup-retain wanted m, same)
    | no n ↦ ground (arith, lookup-retain wanted m)
  ]

  lookup-insert_fresh :
      (starts : Starts) (fresh : List TopicPartition) (m : Assignment)
      → lookup dec k (insert_fresh starts fresh m)
        ≡ (if contains dec k fresh then some (starting_at (start_of starts k)) else lookup dec k m)
  unfolding insert_fresh contains
  lookup-insert_fresh starts [] m = refl
  lookup-insert_fresh starts (j ∷ fresh) m =
      let new = starting_at (start_of starts j) in
      let later = lookup-insert_fresh starts fresh (insert dec j new m) in
      let here = lookup-insert dec j k new m in
      elim (dec j k) [
        | yes e ↦
            let same : starting_at (start_of starts j) ≡ starting_at (start_of starts k) =
              ap (λ q. starting_at (start_of starts q)) e in
            ground (arith, later, here, same)
        | no n ↦ ground (arith, later, here)
      ]

  -- The entry of a partition afterwards.
  abbrev pub entry_after : Starts → List TopicPartition → Option Assigned → Option Assigned
  entry_after starts partitions (some a) = if contains dec k partitions then some a else none
  entry_after starts partitions none =
      if contains dec k partitions then some (starting_at (start_of starts k)) else none

  joined_lem :
      (starts : Starts) (partitions : List TopicPartition) (m : Assignment)
      → lookup dec k
          (insert_fresh starts (fresh_of partitions (retain partitions m)) (retain partitions m))
        ≡ entry_after starts partitions (lookup dec k m)
  joined_lem starts partitions m =
      let retained = retain partitions m in
      ground (
        arith,
        lookup-insert_fresh starts (fresh_of partitions retained) retained,
        lookup-retain partitions m,
        contains-filter dec k (λ key. not (is_known (lookup dec key retained))) partitions,
      )

-- The partitions whose starts are looked up.
abbrev pub asked_for : List TopicPartition → Consumer → List TopicPartition
asked_for partitions c = fresh_of partitions (retain partitions c.assignment)

-- What a reassignment leaves.
abbrev pub IsReassigned :
    (List TopicPartition → Result Error Starts)
    → List TopicPartition
    → Consumer
    → Result Error Unit × Consumer
    → Type 0
IsReassigned lookup_starts partitions c (err e, c') =
    (lookup_starts (asked_for partitions c) ≡ err e)
    × (c'.buffered ≡ c.buffered)
    × ((k : TopicPartition)
        → lookup dec k c'.assignment
          ≡ (if contains dec k partitions then lookup dec k c.assignment else none))
IsReassigned lookup_starts partitions c (ok _, c') =
    (starts : Starts) × ((asked_for partitions c ≡ [])
      ⊎ (lookup_starts (asked_for partitions c) ≡ ok starts))
    × (c'.buffered ≡ filter (λ r. contains dec (key_of r) partitions) c.buffered)
    × ((k : TopicPartition)
        → lookup dec k c'.assignment ≡ entry_after k starts partitions (lookup dec k c.assignment))

module _ (lookup_starts : List TopicPartition → Result Error Starts)
    (partitions : List TopicPartition) (c : Consumer) where
  join-IsReassigned :
      (r : Result Error Starts)
      → (asked_for partitions c ≡ []) × ((starts : Starts) × (r ≡ ok starts))
        ⊎ (lookup_starts (asked_for partitions c) ≡ r)
      → IsReassigned lookup_starts partitions c (
          join partitions
            (asked_for partitions c)
            r
            (record c { assignment = retain partitions c.assignment }))
  join-IsReassigned (err e) (inl (none_fresh, (starts, impossible))) = absurd (cc)
  join-IsReassigned (err e) (inr asked) =
      (asked, refl, λ k. lookup-retain k partitions c.assignment)
  join-IsReassigned (ok starts) (inl (none_fresh, given)) =
      (starts, inl none_fresh, refl, λ k. joined_lem k starts partitions c.assignment)
  join-IsReassigned (ok starts) (inr asked) =
      (starts, inr asked, refl, λ k. joined_lem k starts partitions c.assignment)

  empty_lem : (keys : List TopicPartition) → is_empty keys ≡ true → keys ≡ []
  empty_lem [] h = refl
  empty_lem (k ∷ keys) h = absurd (cc)

  -- After a reassignment that succeeds the assigned partitions are the given ones: one that was
  -- assigned before keeps its position, its pause and its high watermark, a new one starts where the
  -- lookup says, and of the buffer exactly the records of given partitions are left. If the lookup of
  -- the starts fails, the partitions that are not given are gone, no new one has come, and the buffer
  -- is as it was.
  pub reassign-IsReassigned :
      IsReassigned lookup_starts partitions c (reassign lookup_starts partitions c)
  unfolding reassign
  reassign-IsReassigned =
      let fresh = asked_for partitions c in
      elim (Bool-cases (is_empty fresh)) [
        | inl nothing ↦
            subst
              (λ r. IsReassigned lookup_starts partitions c (
                join partitions fresh r (record c { assignment = retain partitions c.assignment })))
              (sym (ap (λ b. if b then ok [] else lookup_starts fresh) nothing))
              (join-IsReassigned (ok []) (inl (empty_lem fresh nothing, ([], refl))))
        | inr some_fresh ↦
            subst
              (λ r. IsReassigned lookup_starts partitions c (
                join partitions fresh r (record c { assignment = retain partitions c.assignment })))
              (sym (ap (λ b. if b then ok [] else lookup_starts fresh) some_fresh))
              (join-IsReassigned (lookup_starts fresh) (inr refl))
      ]
