-- ===== src/Conn/ApiKey.antt =====
-- kafka-conn/src/api_key.rs: the protocol's api keys, and which of them may change a cluster.
pub mod Code
pub mod Name
pub mod KeySet
pub mod Laws
mod Tests
use kaas_lib.Prelude.{Bool, true, false}
use kaas_lib.Prelude.Int.{ℤ}

-- `unknown` carries the wire value of a key with no name.
pub data ApiKey : Type 0 where
  produce fetch list_offsets metadata offset_commit offset_fetch find_coordinator join_group
        heartbeat leave_group sync_group describe_groups list_groups sasl_handshake api_versions
        create_topics delete_topics delete_records init_producer_id offset_for_leader_epoch
        add_partitions_to_txn add_offsets_to_txn end_txn write_txn_markers txn_offset_commit
        describe_acls create_acls delete_acls describe_configs alter_configs alter_replica_log_dirs
        describe_log_dirs sasl_authenticate create_partitions create_delegation_token
        renew_delegation_token expire_delegation_token describe_delegation_token delete_groups
        elect_leaders incremental_alter_configs alter_partition_reassignments
        list_partition_reassignments offset_delete describe_client_quotas alter_client_quotas
        describe_user_scram_credentials alter_user_scram_credentials vote begin_quorum_epoch
        end_quorum_epoch describe_quorum alter_partition update_features envelope fetch_snapshot
        describe_cluster describe_producers broker_registration broker_heartbeat unregister_broker
        describe_transactions list_transactions allocate_producer_ids consumer_group_heartbeat
        consumer_group_describe controller_registration get_telemetry_subscriptions push_telemetry
        assign_replicas_to_dirs list_config_resources describe_topic_partitions
        share_group_heartbeat share_group_describe share_fetch share_acknowledge add_raft_voter
        remove_raft_voter update_raft_voter initialize_share_group_state read_share_group_state
        write_share_group_state delete_share_group_state read_share_group_state_summary
        describe_share_group_offsets alter_share_group_offsets delete_share_group_offsets :
      ApiKey
  unknown : ℤ → ApiKey

-- Whether sending the key can change cluster state: denied by default, with read-only keys listed.
unfoldable pub is_mutating : ApiKey → Bool
is_mutating fetch = false
is_mutating list_offsets = false
is_mutating metadata = false
is_mutating offset_fetch = false
is_mutating find_coordinator = false
is_mutating describe_groups = false
is_mutating list_groups = false
is_mutating sasl_handshake = false
is_mutating api_versions = false
is_mutating offset_for_leader_epoch = false
is_mutating describe_acls = false
is_mutating describe_configs = false
is_mutating describe_log_dirs = false
is_mutating sasl_authenticate = false
is_mutating describe_delegation_token = false
is_mutating list_partition_reassignments = false
is_mutating describe_client_quotas = false
is_mutating describe_user_scram_credentials = false
is_mutating describe_quorum = false
is_mutating describe_cluster = false
is_mutating describe_producers = false
is_mutating describe_transactions = false
is_mutating list_transactions = false
is_mutating consumer_group_describe = false
is_mutating list_config_resources = false
is_mutating describe_topic_partitions = false
is_mutating share_group_describe = false
is_mutating describe_share_group_offsets = false
is_mutating _ = true
