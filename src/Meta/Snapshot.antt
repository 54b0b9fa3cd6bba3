-- ===== src/Meta/Snapshot.antt =====
-- kafka-meta/src/snapshot.rs: an immutable view of the cluster, with its indexes.
-- A topic id is its bytes, and a text field that is only carried along is a `String`. The two clocks
-- of a snapshot are left out.
pub mod Index
pub mod Merge
use kaas_lib.Prelude.{
  ℕ, zero, suc, ◌+◌, Bool, true, false, if◌then◌else◌, ltb, Option, none, some, List, [], ◌∷◌, ◌++◌,
  length, String,
}
use kaas_lib.Prelude.Int.{ℤ, eq_ℤ, ℤ-discrete}
use kaas_lib.Prelude.Map.{lookup, insert}
use kaas_lib.Prelude.Text.{String-discrete}
use kaas_lib.Conn.ErrorCode.{ErrorCode}
use mathlib.Core.Option

pub record BrokerInfo : Type 0 where
  pub node_id : ℤ
  pub host : String
  pub port : ℤ
  pub rack : Option String

pub record PartitionInfo : Type 0 where
  pub partition : ℤ
  pub leader : Option ℤ
  pub leader_epoch : ℤ
  pub replicas : List ℤ
  pub isr : List ℤ
  pub offline_replicas : List ℤ
  pub error : Option ErrorCode

-- Whether the partition has fewer in-sync replicas than replicas.
abbrev pub under_replicated : PartitionInfo → Bool
under_replicated p = ltb (length p.isr) (length p.replicas)

pub record TopicInfo : Type 0 where
  pub name : String
  pub topic_id : List ℕ
  pub internal : Bool
  pub partitions : List PartitionInfo
  pub error : Option ErrorCode

pub record MetadataSnapshot : Type 0 where
  pub brokers : List BrokerInfo
  pub brokers_by_id : List (ℤ × ℕ)
  pub topics : List TopicInfo
  pub topics_by_name : List (String × ℕ)
  pub controller_id : Option ℤ
  pub cluster_id : Option String

-- `slice::get`, and a write through `get_mut`.
abbrev pub element : {A : Type 0} → List A → ℕ → Option A
element [] i = none
element (x ∷ xs) zero = some x
element (x ∷ xs) (suc i) = element xs i

abbrev pub write : {A : Type 0} → List A → ℕ → A → List A
write [] i v = []
write (x ∷ xs) zero v = v ∷ xs
write (x ∷ xs) (suc i) v = x ∷ write xs i v

-- Collecting `enumerate()` into a map: a later entry of a key replaces an earlier one.
unfoldable pub index_topics : ℕ → List (String × ℕ) → List TopicInfo → List (String × ℕ)
index_topics i index [] = index
index_topics i index (t ∷ ts) = index_topics (suc i) (insert String-discrete t.name i index) ts

unfoldable pub index_brokers : ℕ → List (ℤ × ℕ) → List BrokerInfo → List (ℤ × ℕ)
index_brokers i index [] = index
index_brokers i index (b ∷ bs) = index_brokers (suc i) (insert ℤ-discrete b.node_id i index) bs

-- `MetadataSnapshot::new`
unfoldable pub assemble :
    List BrokerInfo → List TopicInfo → Option ℤ → Option String → MetadataSnapshot
unfolding index_topics index_brokers
assemble brokers topics controller_id cluster_id = record {
  brokers = brokers;
  brokers_by_id = index_brokers 0 [] brokers;
  topics = topics;
  topics_by_name = index_topics 0 [] topics;
  controller_id = controller_id;
  cluster_id = cluster_id;
}

abbrev pub at_index : {A : Type 0} → List A → Option ℕ → Option A
at_index xs none = none
at_index xs (some i) = element xs i

-- One broker by id, and one topic by name.
unfoldable pub broker_by_id : MetadataSnapshot → ℤ → Option BrokerInfo
broker_by_id s node_id = at_index s.brokers (lookup ℤ-discrete node_id s.brokers_by_id)

unfoldable pub topic_by_name : MetadataSnapshot → String → Option TopicInfo
topic_by_name s name = at_index s.topics (lookup String-discrete name s.topics_by_name)

-- The first partition with the index.
unfoldable pub find_partition : ℤ → List PartitionInfo → Option PartitionInfo
find_partition index [] = none
find_partition index (p ∷ ps) =
    let rest = find_partition index ps in if eq_ℤ p.partition index then some p else rest

-- The leader of one partition.
unfoldable pub leader_for : MetadataSnapshot → String → ℤ → Option ℤ
unfolding topic_by_name find_partition
leader_for s name partition =
    Option.bind (topic_by_name s name)
      (λ t. Option.bind (find_partition partition t.partitions) (λ p. p.leader))

-- The match on the topic's index in the old snapshot.
abbrev pub place : Option ℕ → TopicInfo → List TopicInfo → List TopicInfo
place (some i) t topics = write topics i t
place none t topics = topics ++ (t ∷ [])

unfoldable pub merge_topics : List (String × ℕ) → List TopicInfo → List TopicInfo → List TopicInfo
merge_topics index topics [] = topics
merge_topics index topics (t ∷ updated) =
    merge_topics index (place (lookup String-discrete t.name index) t topics) updated

-- Newer topic entries are merged in, and everything else is kept.
unfoldable pub with_topics_merged : MetadataSnapshot → List TopicInfo → MetadataSnapshot
unfolding assemble merge_topics
with_topics_merged s updated =
    assemble s.brokers (merge_topics s.topics_by_name s.topics updated) s.controller_id s.cluster_id
