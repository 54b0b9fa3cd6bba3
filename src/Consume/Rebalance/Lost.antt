-- ===== src/Consume/Rebalance/Lost.antt =====
-- What leaves an assignment, and whether the listener was told of it.
use kaas_lib.Prelude.{
  ◌≡◌, refl, ap, ◌∙◌, Bool, true, false, not, ◌&&◌, ◌||◌, if◌then◌else◌, if_cases, is_empty, Option,
  none, some, List, [], ◌∷◌, ◌++◌, arith,
}
use kaas_lib.Prelude.Int.{ℤ}
use kaas_lib.Prelude.Map.{lookup, contains, keys}
use kaas_lib.Prelude.Sort.{contains-sort}
use kaas_lib.Prelude.Text.{TopicPartition, TopicPartition-discrete, leb_TopicPartition}
use kaas_lib.Conn.Errors.{Error}
use kaas_lib.Meta.Retry.Reask.{Result, ok, err}
use kaas_lib.Consume.Group.Reconcile.{owns}
use kaas_lib.Read.Record.{Record}
use kaas_lib.Read.Batch.{DecodeOptions, Decoder}
use kaas_lib.Consume.Consumer.{
  Assigned, Assignment, Consumer, Fetched, fetch_once, absorb_all, assigned_keys,
}
use kaas_lib.Consume.Consumer
use kaas_lib.Consume.Consumer.Deliver.{Progress}
use kaas_lib.Consume.Consumer.Fetches.{absorb_all-Delivers}
use kaas_lib.Consume.Consumer.Reassign.{
  Starts, is_known, retain, lookup-retain, IsReassigned, entry_after,
}
use kaas_lib.Consume.Task.{Event}
use kaas_lib.Consume.Rebalance.Told.{told, told-append}

abbrev dec : Discrete TopicPartition
dec = TopicPartition-discrete

-- Whether a partition is assigned.
abbrev pub fetches : TopicPartition → Consumer → Bool
fetches k c = is_known (lookup dec k c.assignment)

owns-keys : (k : TopicPartition) (m : Assignment) → owns k (keys m) ≡ is_known (lookup dec k m)
unfolding contains lookup
owns-keys k [] = refl
owns-keys k ((j, a) ∷ m) = ground (arith, owns-keys k m)

pub owns-assigned_keys :
    (k : TopicPartition) (c : Consumer) → owns k (assigned_keys c) ≡ fetches k c
unfolding assigned_keys
owns-assigned_keys k c =
    contains-sort dec leb_TopicPartition k (keys c.assignment) ∙ owns-keys k c.assignment

-- What a reassignment makes of a partition: exactly the wanted ones are assigned, or only the wanted
-- ones of those that were.
pub fetches-entry_after :
    (k : TopicPartition) (starts : List (TopicPartition × ℤ)) (partitions : List TopicPartition)
    (o : Option Assigned)
    → is_known (entry_after k starts partitions o) ≡ owns k partitions
fetches-entry_after k starts partitions (some a) = ground arith
fetches-entry_after k starts partitions none = ground arith

pub known-if : (b : Bool) (o : Option Assigned) → is_known (if b then o else none) ≡ b && is_known o
known-if true o = refl
known-if false o = refl

-- What a reassignment to some partitions leaves: no other one, and those of them that were there.
abbrev pub Keeps : List TopicPartition → Consumer → Consumer → Type 0
Keeps partitions c c' =
    (k : TopicPartition)
    → ((not (fetches k c) || not (owns k partitions) || fetches k c') ≡ true)
      × ((not (fetches k c') || owns k partitions) ≡ true)

pub reassigned-Keeps :
    (starts : List TopicPartition → Result Error Starts) (partitions : List TopicPartition)
    (c : Consumer) (r : Result Error Unit × Consumer)
    → IsReassigned starts partitions c r
    → Keeps partitions c r.1
reassigned-Keeps starts partitions c (err e, c') h k =
    let now : fetches k c' ≡ owns k partitions && fetches k c =
      ap is_known (h.2 k) ∙ known-if (owns k partitions) (lookup dec k c.assignment) in
    (ground (arith, now), ground (arith, now))
reassigned-Keeps starts partitions c (ok _, c') (given, looked_up, kept, h) k =
    let now : fetches k c' ≡ owns k partitions =
      ap is_known (h k) ∙ fetches-entry_after k given partitions (lookup dec k c.assignment) in
    (ground (arith, now), ground (arith, now))

pub retained-Keeps :
    (partitions : List TopicPartition) (c : Consumer)
    → Keeps partitions c (record c { assignment = retain partitions c.assignment })
retained-Keeps partitions c k =
    let now =
      ap is_known (lookup-retain k partitions c.assignment)
      ∙ known-if (owns k partitions) (lookup dec k c.assignment) in
    (ground (arith, now), ground (arith, now))

module _ {S : Type 0} (listens : S → Bool) (inside : S → Consumer) where
  -- A partition that is no longer assigned was told to the listener on the way.
  abbrev pub LostTold : S → List Event → S → Type 0
  LostTold s es t =
      (listens t ≡ listens s)
      × ((k : TopicPartition)
          → (not (listens s) || not (fetches k (inside s)) || fetches k (inside t) || told k es)
            ≡ true)

  pub LostTold-trans :
      (s t u : S) (es fs : List Event) → LostTold s es t → LostTold t fs u → LostTold s (es ++ fs) u
  LostTold-trans s t u es fs (l, p) (m, q) =
      (m ∙ l, λ k. ground (arith, p k, q k, told-append k es fs, l))

  pub LostTold-any : (s : S) (es : List Event) → LostTold s es s
  LostTold-any s es = (refl, λ k. ground arith)

-- Fetching leaves the set of assigned partitions as it is.
known-Progress :
    (before after : Option Assigned) (records : List Record)
    → Progress before after records
    → is_known after ≡ is_known before
known-Progress none after records h = ap is_known h.0
known-Progress (some a) after records (b, e, up) = ap is_known e

module _ (d : Decoder) (options : DecodeOptions) (k : TopicPartition) where
  fetches-absorb_all :
      (fetched : List Fetched) (c : Consumer)
      → fetches k (absorb_all d options fetched c) ≡ fetches k c
  fetches-absorb_all fetched c =
      let (records, grown, progress) = absorb_all-Delivers d options k fetched c in
      known-Progress (lookup TopicPartition-discrete k c.assignment) _ _ progress

  pub fetches-fetch_once :
      (answers : List (Result Error (List Fetched))) (c : Consumer)
      → fetches k (fetch_once d options answers c).1 ≡ fetches k c
  unfolding fetch_once
  fetches-fetch_once [] c = refl
  fetches-fetch_once (err e ∷ answers) c = refl
  fetches-fetch_once (ok fetched ∷ answers) c =
      fetches-fetch_once answers (absorb_all d options fetched c) ∙ fetches-absorb_all fetched c

  fetches-after_fetch :
      (r : Result Error Unit × Consumer)
      → fetches k (Consumer.after_fetch d options r).1 ≡ fetches k r.1
  fetches-after_fetch (err e, c) = refl
  fetches-after_fetch (ok _, c) = refl

  pub fetches-poll :
      (answers : List (Result Error (List Fetched))) (c : Consumer)
      → fetches k (Consumer.poll d options answers c).1 ≡ fetches k c
  unfolding Consumer.poll
  fetches-poll answers c =
      if_cases {A = Result Error (List Record) × Consumer} (λ r. fetches k r.1 ≡ fetches k c)
        (is_empty c.buffered)
        (λ _. fetches-after_fetch (fetch_once d options answers c) ∙ fetches-fetch_once answers c)
        (λ _. refl)
