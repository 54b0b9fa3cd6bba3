-- ===== src/Conn/ApiKey/Code.antt =====
-- The wire values of the api keys, in both directions, and the table of every named key.
use kaas_lib.Prelude.{List, [], ◌∷◌, ℕ, ◌==◌, if◌then◌else◌}
use kaas_lib.Prelude.Int.{ℤ, pos, negsuc}
use kaas_lib.Conn.ApiKey.{
  ApiKey, unknown, produce, fetch, list_offsets, metadata, offset_commit, offset_fetch,
  find_coordinator, join_group, heartbeat, leave_group, sync_group, describe_groups, list_groups,
  sasl_handshake, api_versions, create_topics, delete_topics, delete_records, init_producer_id,
  offset_for_leader_epoch, add_partitions_to_txn, add_offsets_to_txn, end_txn, write_txn_markers,
  txn_offset_commit, describe_acls, create_acls, delete_acls, describe_configs, alter_configs,
  alter_replica_log_dirs, describe_log_dirs, sasl_authenticate, create_partitions,
  create_delegation_token, renew_delegation_token, expire_delegation_token,
  describe_delegation_token, delete_groups, elect_leaders, incremental_alter_configs,
  alter_partition_reassignments, list_partition_reassignments, offset_delete,
  describe_client_quotas, alter_client_quotas, describe_user_scram_credentials,
  alter_user_scram_credentials, vote, begin_quorum_epoch, end_quorum_epoch, describe_quorum,
  alter_partition, update_features, envelope, fetch_snapshot, describe_cluster, describe_producers,
  broker_registration, broker_heartbeat, unregister_broker, describe_transactions,
  list_transactions, allocate_producer_ids, consumer_group_heartbeat, consumer_group_describe,
  controller_registration, get_telemetry_subscriptions, push_telemetry, assign_replicas_to_dirs,
  list_config_resources, describe_topic_partitions, share_group_heartbeat, share_group_describe,
  share_fetch, share_acknowledge, add_raft_voter, remove_raft_voter, update_raft_voter,
  initialize_share_group_state, read_share_group_state, write_share_group_state,
  delete_share_group_state, read_share_group_state_summary, describe_share_group_offsets,
  alter_share_group_offsets, delete_share_group_offsets,
}

-- The wire code.
unfoldable pub code : ApiKey → ℤ
code produce = pos 0
code fetch = pos 1
code list_offsets = pos 2
code metadata = pos 3
code offset_commit = pos 8
code offset_fetch = pos 9
code find_coordinator = pos 10
code join_group = pos 11
code heartbeat = pos 12
code leave_group = pos 13
code sync_group = pos 14
code describe_groups = pos 15
code list_groups = pos 16
code sasl_handshake = pos 17
code api_versions = pos 18
code create_topics = pos 19
code delete_topics = pos 20
code delete_records = pos 21
code init_producer_id = pos 22
code offset_for_leader_epoch = pos 23
code add_partitions_to_txn = pos 24
code add_offsets_to_txn = pos 25
code end_txn = pos 26
code write_txn_markers = pos 27
code txn_offset_commit = pos 28
code describe_acls = pos 29
code create_acls = pos 30
code delete_acls = pos 31
code describe_configs = pos 32
code alter_configs = pos 33
code alter_replica_log_dirs = pos 34
code describe_log_dirs = pos 35
code sasl_authenticate = pos 36
code create_partitions = pos 37
code create_delegation_token = pos 38
code renew_delegation_token = pos 39
code expire_delegation_token = pos 40
code describe_delegation_token = pos 41
code delete_groups = pos 42
code elect_leaders = pos 43
code incremental_alter_configs = pos 44
code alter_partition_reassignments = pos 45
code list_partition_reassignments = pos 46
code offset_delete = pos 47
code describe_client_quotas = pos 48
code alter_client_quotas = pos 49
code describe_user_scram_credentials = pos 50
code alter_user_scram_credentials = pos 51
code vote = pos 52
code begin_quorum_epoch = pos 53
code end_quorum_epoch = pos 54
code describe_quorum = pos 55
code alter_partition = pos 56
code update_features = pos 57
code envelope = pos 58
code fetch_snapshot = pos 59
code describe_cluster = pos 60
code describe_producers = pos 61
code broker_registration = pos 62
code broker_heartbeat = pos 63
code unregister_broker = pos 64
code describe_transactions = pos 65
code list_transactions = pos 66
code allocate_producer_ids = pos 67
code consumer_group_heartbeat = pos 68
code consumer_group_describe = pos 69
code controller_registration = pos 70
code get_telemetry_subscriptions = pos 71
code push_telemetry = pos 72
code assign_replicas_to_dirs = pos 73
code list_config_resources = pos 74
code describe_topic_partitions = pos 75
code share_group_heartbeat = pos 76
code share_group_describe = pos 77
code share_fetch = pos 78
code share_acknowledge = pos 79
code add_raft_voter = pos 80
code remove_raft_voter = pos 81
code update_raft_voter = pos 82
code initialize_share_group_state = pos 83
code read_share_group_state = pos 84
code write_share_group_state = pos 85
code delete_share_group_state = pos 86
code read_share_group_state_summary = pos 87
code describe_share_group_offsets = pos 90
code alter_share_group_offsets = pos 91
code delete_share_group_offsets = pos 92
code (unknown n) = n

-- The arms of `from_code` on a code that is not negative.
from_code_nonneg : ℕ → ApiKey
from_code_nonneg n =
    if n == 0
    then produce
    else if n == 1
    then fetch
    else if n == 2
    then list_offsets
    else if n == 3
    then metadata
    else if n == 8
    then offset_commit
    else if n == 9
    then offset_fetch
    else if n == 10
    then find_coordinator
    else if n == 11
    then join_group
    else if n == 12
    then heartbeat
    else if n == 13
    then leave_group
    else if n == 14
    then sync_group
    else if n == 15
    then describe_groups
    else if n == 16
    then list_groups
    else if n == 17
    then sasl_handshake
    else if n == 18
    then api_versions
    else if n == 19
    then create_topics
    else if n == 20
    then delete_topics
    else if n == 21
    then delete_records
    else if n == 22
    then init_producer_id
    else if n == 23
    then offset_for_leader_epoch
    else if n == 24
    then add_partitions_to_txn
    else if n == 25
    then add_offsets_to_txn
    else if n == 26
    then end_txn
    else if n == 27
    then write_txn_markers
    else if n == 28
    then txn_offset_commit
    else if n == 29
    then describe_acls
    else if n == 30
    then create_acls
    else if n == 31
    then delete_acls
    else if n == 32
    then describe_configs
    else if n == 33
    then alter_configs
    else if n == 34
    then alter_replica_log_dirs
    else if n == 35
    then describe_log_dirs
    else if n == 36
    then sasl_authenticate
    else if n == 37
    then create_partitions
    else if n == 38
    then create_delegation_token
    else if n == 39
    then renew_delegation_token
    else if n == 40
    then expire_delegation_token
    else if n == 41
    then describe_delegation_token
    else if n == 42
    then delete_groups
    else if n == 43
    then elect_leaders
    else if n == 44
    then incremental_alter_configs
    else if n == 45
    then alter_partition_reassignments
    else if n == 46
    then list_partition_reassignments
    else if n == 47
    then offset_delete
    else if n == 48
    then describe_client_quotas
    else if n == 49
    then alter_client_quotas
    else if n == 50
    then describe_user_scram_credentials
    else if n == 51
    then alter_user_scram_credentials
    else if n == 52
    then vote
    else if n == 53
    then begin_quorum_epoch
    else if n == 54
    then end_quorum_epoch
    else if n == 55
    then describe_quorum
    else if n == 56
    then alter_partition
    else if n == 57
    then update_features
    else if n == 58
    then envelope
    else if n == 59
    then fetch_snapshot
    else if n == 60
    then describe_cluster
    else if n == 61
    then describe_producers
    else if n == 62
    then broker_registration
    else if n == 63
    then broker_heartbeat
    else if n == 64
    then unregister_broker
    else if n == 65
    then describe_transactions
    else if n == 66
    then list_transactions
    else if n == 67
    then allocate_producer_ids
    else if n == 68
    then consumer_group_heartbeat
    else if n == 69
    then consumer_group_describe
    else if n == 70
    then controller_registration
    else if n == 71
    then get_telemetry_subscriptions
    else if n == 72
    then push_telemetry
    else if n == 73
    then assign_replicas_to_dirs
    else if n == 74
    then list_config_resources
    else if n == 75
    then describe_topic_partitions
    else if n == 76
    then share_group_heartbeat
    else if n == 77
    then share_group_describe
    else if n == 78
    then share_fetch
    else if n == 79
    then share_acknowledge
    else if n == 80
    then add_raft_voter
    else if n == 81
    then remove_raft_voter
    else if n == 82
    then update_raft_voter
    else if n == 83
    then initialize_share_group_state
    else if n == 84
    then read_share_group_state
    else if n == 85
    then write_share_group_state
    else if n == 86
    then delete_share_group_state
    else if n == 87
    then read_share_group_state_summary
    else if n == 90
    then describe_share_group_offsets
    else if n == 91
    then alter_share_group_offsets
    else if n == 92
    then delete_share_group_offsets
    else unknown (pos n)

-- The key for a wire code, or `unknown`.
unfoldable pub from_code : ℤ → ApiKey
unfolding from_code_nonneg
from_code (pos n) = from_code_nonneg n
from_code (negsuc n) = unknown (negsuc n)

-- Every named key, in wire-code order.
unfoldable pub known : List ApiKey
known =
    produce ∷ fetch ∷ list_offsets ∷ metadata ∷ offset_commit ∷ offset_fetch ∷ find_coordinator
    ∷ join_group ∷ heartbeat ∷ leave_group ∷ sync_group ∷ describe_groups ∷ list_groups
    ∷ sasl_handshake ∷ api_versions ∷ create_topics ∷ delete_topics ∷ delete_records
    ∷ init_producer_id ∷ offset_for_leader_epoch ∷ add_partitions_to_txn ∷ add_offsets_to_txn
    ∷ end_txn ∷ write_txn_markers ∷ txn_offset_commit ∷ describe_acls ∷ create_acls ∷ delete_acls
    ∷ describe_configs ∷ alter_configs ∷ alter_replica_log_dirs ∷ describe_log_dirs
    ∷ sasl_authenticate ∷ create_partitions ∷ create_delegation_token ∷ renew_delegation_token
    ∷ expire_delegation_token ∷ describe_delegation_token ∷ delete_groups ∷ elect_leaders
    ∷ incremental_alter_configs ∷ alter_partition_reassignments ∷ list_partition_reassignments
    ∷ offset_delete ∷ describe_client_quotas ∷ alter_client_quotas ∷ describe_user_scram_credentials
    ∷ alter_user_scram_credentials ∷ vote ∷ begin_quorum_epoch ∷ end_quorum_epoch ∷ describe_quorum
    ∷ alter_partition ∷ update_features ∷ envelope ∷ fetch_snapshot ∷ describe_cluster
    ∷ describe_producers ∷ broker_registration ∷ broker_heartbeat ∷ unregister_broker
    ∷ describe_transactions ∷ list_transactions ∷ allocate_producer_ids ∷ consumer_group_heartbeat
    ∷ consumer_group_describe ∷ controller_registration ∷ get_telemetry_subscriptions
    ∷ push_telemetry ∷ assign_replicas_to_dirs ∷ list_config_resources ∷ describe_topic_partitions
    ∷ share_group_heartbeat ∷ share_group_describe ∷ share_fetch ∷ share_acknowledge
    ∷ add_raft_voter ∷ remove_raft_voter ∷ update_raft_voter ∷ initialize_share_group_state
    ∷ read_share_group_state ∷ write_share_group_state ∷ delete_share_group_state
    ∷ read_share_group_state_summary ∷ describe_share_group_offsets ∷ alter_share_group_offsets
    ∷ delete_share_group_offsets ∷ []
