-- ===== src/Meta/Routing.antt =====
-- kafka-meta/src/routing.rs: where each request has to be sent.
use kaas_lib.Prelude.{ℕ}
use kaas_lib.Conn.ApiKey.{
  ApiKey, create_topics, delete_topics, create_partitions, alter_partition_reassignments,
  list_partition_reassignments, elect_leaders, update_features, offset_commit, offset_fetch,
  offset_delete, join_group, heartbeat, leave_group, sync_group, describe_groups, delete_groups,
  consumer_group_describe, consumer_group_heartbeat, share_group_describe, share_group_heartbeat,
  describe_share_group_offsets, alter_share_group_offsets, delete_share_group_offsets,
  txn_offset_commit, init_producer_id, add_partitions_to_txn, add_offsets_to_txn, end_txn,
  describe_transactions, describe_log_dirs, alter_replica_log_dirs, describe_producers, produce,
  fetch, list_offsets, offset_for_leader_epoch,
}

-- Which coordinator a request belongs to.
pub data CoordinatorKind : Type 0 where
  group transaction : CoordinatorKind

-- The `key_type` byte of `FindCoordinator`.
unfoldable pub key_type : CoordinatorKind → ℕ
key_type group = 0
key_type transaction = 1

-- How a specific broker is chosen.
pub data BrokerSelector : Type 0 where
  caller partition_leader : BrokerSelector

-- Where a request has to be sent. `any_broker` is `Routing::Any`.
pub data Routing : Type 0 where
  any_broker controller : Routing
  coordinator : CoordinatorKind → Routing
  specific : BrokerSelector → Routing

-- The routing class of an api key.
unfoldable pub routing : ApiKey → Routing
routing create_topics = controller
routing delete_topics = controller
routing create_partitions = controller
routing alter_partition_reassignments = controller
routing list_partition_reassignments = controller
routing elect_leaders = controller
routing update_features = controller
routing offset_commit = coordinator group
routing offset_fetch = coordinator group
routing offset_delete = coordinator group
routing join_group = coordinator group
routing heartbeat = coordinator group
routing leave_group = coordinator group
routing sync_group = coordinator group
routing describe_groups = coordinator group
routing delete_groups = coordinator group
routing consumer_group_describe = coordinator group
routing consumer_group_heartbeat = coordinator group
routing share_group_describe = coordinator group
routing share_group_heartbeat = coordinator group
routing describe_share_group_offsets = coordinator group
routing alter_share_group_offsets = coordinator group
routing delete_share_group_offsets = coordinator group
routing txn_offset_commit = coordinator group
routing init_producer_id = coordinator transaction
routing add_partitions_to_txn = coordinator transaction
routing add_offsets_to_txn = coordinator transaction
routing end_txn = coordinator transaction
routing describe_transactions = coordinator transaction
routing describe_log_dirs = specific caller
routing alter_replica_log_dirs = specific caller
routing describe_producers = specific caller
routing produce = specific partition_leader
routing fetch = specific partition_leader
routing list_offsets = specific partition_leader
routing offset_for_leader_epoch = specific partition_leader
routing _ = any_broker
