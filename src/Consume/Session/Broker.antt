-- ===== src/Consume/Session/Broker.antt =====
-- A broker's side of an incremental fetch (KIP-227), and when its view agrees with an assignment.
use kaas_lib.Prelude.{none, some, List, [], ◌∷◌, ◌≡◌, true, if◌then◌else◌}
use kaas_lib.Prelude.Map.{
  lookup, insert, remove, lookup-insert, lookup-remove, IsFunctional, contains,
}
use kaas_lib.Prelude.Text.{TopicPartition, TopicPartition-discrete}
use kaas_lib.Consume.Session.{PartitionState, Assignment, Delta}
use mathlib.Core.Logic.{if_pos, if_neg}

abbrev pub dec : Discrete TopicPartition
dec = TopicPartition-discrete

-- What a broker does with the partitions of a request: it adds or updates those included...
unfoldable pub upsert_all : Assignment → Assignment → Assignment
upsert_all [] view = view
upsert_all ((key, state) ∷ es) view = upsert_all es (insert dec key state view)

-- ...and drops those to be forgotten.
unfoldable pub remove_all : List TopicPartition → Assignment → Assignment
remove_all [] view = view
remove_all (key ∷ ks) view = remove_all ks (remove dec key view)

-- The broker's view after a request: a full fetch starts from nothing (KIP-227).
unfoldable pub apply_delta : Delta → Assignment → Assignment
unfolding upsert_all remove_all
apply_delta d view = remove_all d.forget (upsert_all d.include (if d.full then [] else view))

-- The keys of a list are absent from an assignment.
abbrev pub AllGone : Assignment → List TopicPartition → Type 0
AllGone wanted [] = Unit {0}
AllGone wanted (j ∷ ks) = (lookup dec j wanted ≡ none) × AllGone wanted ks

module _ (wanted : Assignment) (k : TopicPartition) where
  pub agrees_after :
      (j : TopicPartition) (w : PartitionState) (view : Assignment)
      → lookup dec j wanted ≡ some w
      → lookup dec k view ≡ lookup dec k wanted
      → lookup dec k (insert dec j w view) ≡ lookup dec k wanted
  agrees_after j w view h p = elim (dec j k) [
    | yes e ↦ rw (lookup-insert dec j k w view) (rw (if_pos (dec j k) e) (rw (← h, e)))
    | no n ↦ rw (lookup-insert dec j k w view) (rw (if_neg (dec j k) n) p)
  ]

  -- An update that agrees with the wanted assignment keeps agreement at a partition.
  pub upsert_all-agrees :
      (es view : Assignment)
      → IsFunctional dec wanted es
      → lookup dec k view ≡ lookup dec k wanted
      → lookup dec k (upsert_all es view) ≡ lookup dec k wanted
  unfolding upsert_all
  upsert_all-agrees [] view h p = p
  upsert_all-agrees ((j, w) ∷ es) view h p =
      upsert_all-agrees es (insert dec j w view) h.1 (agrees_after j w view h.0 p)

  pub upsert_all-hits :
      (es view : Assignment) (v : PartitionState)
      → IsFunctional dec wanted es
      → lookup dec k es ≡ some v
      → lookup dec k (upsert_all es view) ≡ lookup dec k wanted
  unfolding upsert_all lookup
  upsert_all-hits [] view v h p = absurd (cc)
  upsert_all-hits ((j, w) ∷ es) view v h p = elim (dec j k) [
    | yes e ↦
        upsert_all-agrees es (insert dec j w view) h.1
          (rw (lookup-insert dec j k w view) (rw (if_pos (dec j k) e) (rw (← h.0, e))))
    | no n ↦ upsert_all-hits es (insert dec j w view) v h.1 (rw (if_neg (dec j k) n) at p)
  ]

  pub gone_after :
      (j : TopicPartition) (view : Assignment)
      → lookup dec j wanted ≡ none
      → lookup dec k view ≡ lookup dec k wanted
      → lookup dec k (remove dec j view) ≡ lookup dec k wanted
  gone_after j view h p = elim (dec j k) [
    | yes e ↦ rw (lookup-remove dec j k view) (rw (if_pos (dec j k) e) (rw (← h, e)))
    | no n ↦ rw (lookup-remove dec j k view) (rw (if_neg (dec j k) n) p)
  ]

  pub remove_all-agrees :
      (ks : List TopicPartition) (view : Assignment)
      → AllGone wanted ks
      → lookup dec k view ≡ lookup dec k wanted
      → lookup dec k (remove_all ks view) ≡ lookup dec k wanted
  unfolding remove_all
  remove_all-agrees [] view h p = p
  remove_all-agrees (j ∷ ks) view h p =
      remove_all-agrees ks (remove dec j view) h.1 (gone_after j view h.0 p)

  pub remove_all-hits :
      (ks : List TopicPartition) (view : Assignment)
      → AllGone wanted ks
      → contains dec k ks ≡ true
      → lookup dec k (remove_all ks view) ≡ lookup dec k wanted
  unfolding remove_all contains
  remove_all-hits [] view h p = absurd (cc)
  remove_all-hits (j ∷ ks) view h p = elim (dec j k) [
    | yes e ↦
        remove_all-agrees ks (remove dec j view) h.1
          (rw (lookup-remove dec j k view) (rw (if_pos (dec j k) e) (rw (← h.0, e))))
    | no n ↦ remove_all-hits ks (remove dec j view) h.1 (rw (if_neg (dec j k) n) at p)
  ]
