-- ===== src/Consume/Assign.antt =====
-- kafka-consume/src/classic.rs: the assignors that the leader of a classic group computes with.
-- A `BTreeMap` or `BTreeSet` is a list in ascending order of its keys where its order is read, and an
-- association list where it is only looked up in. Member ids are distinct. There are fewer than 2 ^ 31
-- members and partitions, so the conversions to i32 keep their numbers and no sum of them saturates.
pub mod Range
pub mod Cooperative
pub mod Owners
pub mod Balance
mod Tests
use kaas_lib.Prelude.{
  ℕ, zero, suc, ◌+◌, ◌*◌, ◌/◌, ◌%◌, Bool, true, false, not, ◌&&◌, ◌||◌, if◌then◌else◌, ltb, leb,
  is_empty, any, filter, map, concat_map, length, Option, none, some, List, [], ◌∷◌, ◌++◌, String,
  is_yes,
}
use kaas_lib.Prelude.Int.{ℤ, pos}
use kaas_lib.Prelude.Map.{lookup, insert}
use kaas_lib.Prelude.Sort.{sort}
use kaas_lib.Prelude.Text.{String-discrete, leb_String, TopicPartition}

pub data Assignor : Type 0 where
  range round_robin cooperative_sticky : Assignor

-- The protocol's name on the wire.
unfoldable pub name : Assignor → String
name range = "range"
name round_robin = "roundrobin"
name cooperative_sticky = "cooperative-sticky"

-- Whether the assignor revokes everything before the member joins again.
unfoldable pub is_eager : Assignor → Bool
is_eager cooperative_sticky = false
is_eager _ = true

pub record MemberSubscription : Type 0 where
  pub member_id : String
  pub topics : List String
  pub owned : List TopicPartition
  pub generation : ℤ

abbrev pub is_text : String → String → Bool
is_text a b = is_yes (String-discrete a b)

unfoldable pub subscribes_to : String → MemberSubscription → Bool
subscribes_to topic m = any (λ t. is_text t topic) m.topics

-- `sort_by(|a, b| a.member_id.cmp(&b.member_id))`
abbrev pub by_member_id : MemberSubscription → MemberSubscription → Bool
by_member_id a b = leb_String a.member_id b.member_id

-- Partitions by topic, by member.
abbrev pub Plan : Type 0
Plan = List (String × List (String × List ℕ))

abbrev pub no_partitions : MemberSubscription → String × List (String × List ℕ)
no_partitions m = (m.member_id, [])

abbrev pub topics_or : Option (List (String × List ℕ)) → List (String × List ℕ)
topics_or none = []
topics_or (some topics) = topics

abbrev pub partitions_or : Option (List ℕ) → List ℕ
partitions_or none = []
partitions_or (some partitions) = partitions

-- `out.entry(member).or_default().insert(topic, assigned)`
abbrev pub give : String → String → List ℕ → Plan → Plan
give member topic assigned plan =
    insert String-discrete member
      (insert String-discrete topic assigned (topics_or (lookup String-discrete member plan))) plan

-- So many numbers from one on.
unfoldable pub from_on : ℕ → ℕ → List ℕ
from_on next zero = []
from_on next (suc n) = next ∷ from_on (next + 1) n

-- The share of each subscribed member: the first members get one more.
abbrev pub take_of : ℕ → ℕ → ℕ → ℕ
take_of per_member with_extra index = per_member + (if ltb index with_extra then 1 else 0)

unfoldable pub shares : ℕ → ℕ → ℕ → ℕ → List MemberSubscription → List (String × List ℕ)
shares per_member with_extra index next [] = []
shares per_member with_extra index next (m ∷ subscribed) =
    let take = take_of per_member with_extra index in
    (m.member_id, from_on next take)
    ∷ shares per_member with_extra (index + 1) (next + take) subscribed

-- One topic. An empty share is not entered.
abbrev pub enter_shares : String → List (String × List ℕ) → Plan → Plan
enter_shares topic [] plan = plan
enter_shares topic ((member, assigned) ∷ rest) plan =
    enter_shares topic rest (if is_empty assigned then plan else give member topic assigned plan)

abbrev pub subscribed_to : String → List MemberSubscription → List MemberSubscription
subscribed_to topic members = sort by_member_id (filter (subscribes_to topic) members)

abbrev pub topic_shares : ℕ → List MemberSubscription → List (String × List ℕ)
topic_shares count [] = []
topic_shares count (m ∷ subscribed) =
    let n = length (m ∷ subscribed) in shares (count / n) (count % n) 0 0 (m ∷ subscribed)

unfoldable pub range_topics : List MemberSubscription → List (String × ℕ) → Plan → Plan
range_topics members [] plan = plan
range_topics members ((topic, count) ∷ topics) plan =
    range_topics members topics
      (enter_shares topic (topic_shares count (subscribed_to topic members)) plan)

unfoldable pub assign_range : List MemberSubscription → List (String × ℕ) → Plan
assign_range members partitions_per_topic =
    range_topics members partitions_per_topic (map no_partitions members)

-- `sorted.get(cursor % sorted.len())`
abbrev pub nth : ℕ → List MemberSubscription → Option MemberSubscription
nth index [] = none
nth zero (m ∷ members) = some m
nth (suc index) (m ∷ members) = nth index members

abbrev pub turned : ℕ → List MemberSubscription → Option MemberSubscription
turned cursor [] = none
turned cursor (m ∷ members) = nth (cursor % length (m ∷ members)) (m ∷ members)

-- The member that a partition of a topic is dealt to, looking at so many, and the cursor after it.
unfoldable pub deal : ℕ → ℕ → String → List MemberSubscription → Option String × ℕ
deal zero cursor topic sorted = (none, cursor)
deal (suc looks) cursor topic sorted =
    let later = deal looks (cursor + 1) topic sorted in
    elim (turned cursor sorted) [
      | none ↦ (none, cursor)
      | some m ↦ if subscribes_to topic m then (some m.member_id, cursor + 1) else later
    ]

-- `entry(member).or_default().entry(topic).or_default().push(partition)`
abbrev pub push : Option String → String → ℕ → Plan → Plan
push none topic partition plan = plan
push (some member) topic partition plan =
    give member topic
      (partitions_or (lookup String-discrete topic (topics_or (lookup String-discrete member plan)))
        ++ (partition ∷ []))
      plan

unfoldable pub deal_topic : List MemberSubscription → String → List ℕ → ℕ → Plan → ℕ × Plan
deal_topic sorted topic [] cursor plan = (cursor, plan)
deal_topic sorted topic (p ∷ partitions) cursor plan =
    let (member, cursor') = deal (length sorted) cursor topic sorted in
    deal_topic sorted topic partitions cursor' (push member topic p plan)

unfoldable pub deal_topics : List MemberSubscription → List (String × ℕ) → ℕ → Plan → Plan
deal_topics sorted [] cursor plan = plan
deal_topics sorted ((topic, count) ∷ topics) cursor plan =
    let (cursor', plan') = deal_topic sorted topic (from_on 0 count) cursor plan in
    deal_topics sorted topics cursor' plan'

unfoldable pub assign_round_robin : List MemberSubscription → List (String × ℕ) → Plan
assign_round_robin members partitions_per_topic =
    deal_topics (sort by_member_id members) partitions_per_topic 0 (map no_partitions members)
