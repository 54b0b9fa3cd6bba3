-- ===== src/Conn/ApiKey/Name.antt =====
-- The names of the api keys, for logs.
use kaas_lib.Prelude.{String}
use kaas_lib.Conn.ApiKey.{
  ApiKey, unknown, produce, fetch, list_offsets, metadata, offset_commit, offset_fetch,
  find_coordinator, join_group, heartbeat, leave_group, sync_group, describe_groups, list_groups,
  sasl_handshake, api_versions, create_topics, delete_topics, delete_records, init_producer_id,
  offset_for_leader_epoch, add_partitions_to_txn, add_offsets_to_txn, end_txn, write_txn_markers,
  txn_offset_commit, describe_acls, create_acls, delete_acls, describe_configs, alter_configs,
  alter_replica_log_dirs, describe_log_dirs, sasl_authenticate, create_partitions,
  create_delegation_token, renew_delegation_token, expire_delegation_token,
  describe_delegation_token, delete_groups, elect_leaders, incremental_alter_configs,
  alter_partition_reassignments, list_partition_reassignments, offset_delete,
  describe_client_quotas, alter_client_quotas, describe_user_scram_credentials,
  alter_user_scram_credentials, vote, begin_quorum_epoch, end_quorum_epoch, describe_quorum,
  alter_partition, update_features, envelope, fetch_snapshot, describe_cluster, describe_producers,
  broker_registration, broker_heartbeat, unregister_broker, describe_transactions,
  list_transactions, allocate_producer_ids, consumer_group_heartbeat, consumer_group_describe,
  controller_registration, get_telemetry_subscriptions, push_telemetry, assign_replicas_to_dirs,
  list_config_resources, describe_topic_partitions, share_group_heartbeat, share_group_describe,
  share_fetch, share_acknowledge, add_raft_voter, remove_raft_voter, update_raft_voter,
  initialize_share_group_state, read_share_group_state, write_share_group_state,
  delete_share_group_state, read_share_group_state_summary, describe_share_group_offsets,
  alter_share_group_offsets, delete_share_group_offsets,
}

-- The key's name.
unfoldable pub name : ApiKey → String
name produce = "Produce"
name fetch = "Fetch"
name list_offsets = "ListOffsets"
name metadata = "Metadata"
name offset_commit = "OffsetCommit"
name offset_fetch = "OffsetFetch"
name find_coordinator = "FindCoordinator"
name join_group = "JoinGroup"
name heartbeat = "Heartbeat"
name leave_group = "LeaveGroup"
name sync_group = "SyncGroup"
name describe_groups = "DescribeGroups"
name list_groups = "ListGroups"
name sasl_handshake = "SaslHandshake"
name api_versions = "ApiVersions"
name create_topics = "CreateTopics"
name delete_topics = "DeleteTopics"
name delete_records = "DeleteRecords"
name init_producer_id = "InitProducerId"
name offset_for_leader_epoch = "OffsetForLeaderEpoch"
name add_partitions_to_txn = "AddPartitionsToTxn"
name add_offsets_to_txn = "AddOffsetsToTxn"
name end_txn = "EndTxn"
name write_txn_markers = "WriteTxnMarkers"
name txn_offset_commit = "TxnOffsetCommit"
name describe_acls = "DescribeAcls"
name create_acls = "CreateAcls"
name delete_acls = "DeleteAcls"
name describe_configs = "DescribeConfigs"
name alter_configs = "AlterConfigs"
name alter_replica_log_dirs = "AlterReplicaLogDirs"
name describe_log_dirs = "DescribeLogDirs"
name sasl_authenticate = "SaslAuthenticate"
name create_partitions = "CreatePartitions"
name create_delegation_token = "CreateDelegationToken"
name renew_delegation_token = "RenewDelegationToken"
name expire_delegation_token = "ExpireDelegationToken"
name describe_delegation_token = "DescribeDelegationToken"
name delete_groups = "DeleteGroups"
name elect_leaders = "ElectLeaders"
name incremental_alter_configs = "IncrementalAlterConfigs"
name alter_partition_reassignments = "AlterPartitionReassignments"
name list_partition_reassignments = "ListPartitionReassignments"
name offset_delete = "OffsetDelete"
name describe_client_quotas = "DescribeClientQuotas"
name alter_client_quotas = "AlterClientQuotas"
name describe_user_scram_credentials = "DescribeUserScramCredentials"
name alter_user_scram_credentials = "AlterUserScramCredentials"
name vote = "Vote"
name begin_quorum_epoch = "BeginQuorumEpoch"
name end_quorum_epoch = "EndQuorumEpoch"
name describe_quorum = "DescribeQuorum"
name alter_partition = "AlterPartition"
name update_features = "UpdateFeatures"
name envelope = "Envelope"
name fetch_snapshot = "FetchSnapshot"
name describe_cluster = "DescribeCluster"
name describe_producers = "DescribeProducers"
name broker_registration = "BrokerRegistration"
name broker_heartbeat = "BrokerHeartbeat"
name unregister_broker = "UnregisterBroker"
name describe_transactions = "DescribeTransactions"
name list_transactions = "ListTransactions"
name allocate_producer_ids = "AllocateProducerIds"
name consumer_group_heartbeat = "ConsumerGroupHeartbeat"
name consumer_group_describe = "ConsumerGroupDescribe"
name controller_registration = "ControllerRegistration"
name get_telemetry_subscriptions = "GetTelemetrySubscriptions"
name push_telemetry = "PushTelemetry"
name assign_replicas_to_dirs = "AssignReplicasToDirs"
name list_config_resources = "ListConfigResources"
name describe_topic_partitions = "DescribeTopicPartitions"
name share_group_heartbeat = "ShareGroupHeartbeat"
name share_group_describe = "ShareGroupDescribe"
name share_fetch = "ShareFetch"
name share_acknowledge = "ShareAcknowledge"
name add_raft_voter = "AddRaftVoter"
name remove_raft_voter = "RemoveRaftVoter"
name update_raft_voter = "UpdateRaftVoter"
name initialize_share_group_state = "InitializeShareGroupState"
name read_share_group_state = "ReadShareGroupState"
name write_share_group_state = "WriteShareGroupState"
name delete_share_group_state = "DeleteShareGroupState"
name read_share_group_state_summary = "ReadShareGroupStateSummary"
name describe_share_group_offsets = "DescribeShareGroupOffsets"
name alter_share_group_offsets = "AlterShareGroupOffsets"
name delete_share_group_offsets = "DeleteShareGroupOffsets"
name (unknown n) = "Unknown"
