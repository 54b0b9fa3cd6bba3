-- ===== src/Consume/Assign/Tests.antt =====
-- Assignments of small groups.
use kaas_lib.Prelude.{◌/◌, ◌≡◌, concat_map, All, List, [], ◌∷◌, String}
use kaas_lib.Prelude.Int.{ℤ, pos}
use kaas_lib.Prelude.Sort.{sort}
use kaas_lib.Prelude.Text.{TopicPartition}
use kaas_lib.Consume.Assign.{MemberSubscription, by_member_id, from_on, topic_shares}
use kaas_lib.Consume.Assign.Range.{IsEven, names_of, topic_shares_lem}
use kaas_lib.Consume.Assign.Cooperative.{all_partitions}
use kaas_lib.Consume.Assign.Balance.{MayHave, cooperative_sets, cooperative_sets-MayHave}

abbrev orders : ℤ → TopicPartition
orders partition = record { topic = "orders"; partition = partition }

abbrev member : String → List TopicPartition → ℤ → MemberSubscription
member id owned generation = record {
  member_id = id;
  topics = "orders" ∷ [];
  owned = owned;
  generation = generation;
}

topic_shares_lem_example :
    (names_of (topic_shares 5 (member "a" [] (pos 1) ∷ member "b" [] (pos 1) ∷ []))
      ≡ "a" ∷ "b" ∷ [])
    × (concat_map
          (λ share. share.1)
          (topic_shares 5 (member "a" [] (pos 1) ∷ member "b" [] (pos 1) ∷ []))
        ≡ from_on 0 5)
    × All (IsEven (5 / 2)) (topic_shares 5 (member "a" [] (pos 1) ∷ member "b" [] (pos 1) ∷ []))
topic_shares_lem_example = topic_shares_lem 5 (member "a" [] (pos 1)) (member "b" [] (pos 1) ∷ [])

-- One member claims everything, and another one has a newer claim on one partition.
abbrev group : List MemberSubscription
group =
    member "a" (orders (pos 0) ∷ orders (pos 1) ∷ orders (pos 2) ∷ orders (pos 3) ∷ []) (pos 1)
    ∷ member "b" (orders (pos 1) ∷ []) (pos 2)
    ∷ []

cooperative_sets-MayHave_example :
    let every = all_partitions (sort by_member_id group) (("orders", 4) ∷ []) in
    All (λ h. All (MayHave every group h.0) h.1) (cooperative_sets group (("orders", 4) ∷ []))
cooperative_sets-MayHave_example = cooperative_sets-MayHave group (("orders", 4) ∷ [])
