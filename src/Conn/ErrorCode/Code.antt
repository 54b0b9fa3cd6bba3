-- ===== src/Conn/ErrorCode/Code.antt =====
-- The wire values of the error codes, and the table of every named code.
use kaas_lib.Prelude.{List, [], ◌∷◌}
use kaas_lib.Prelude.Int.{ℤ, pos, negsuc}
use kaas_lib.Conn.ErrorCode.{
  ErrorCode, unknown, unknown_server_error, offset_out_of_range, corrupt_message,
  unknown_topic_or_partition, invalid_fetch_size, leader_not_available, not_leader_or_follower,
  request_timed_out, broker_not_available, replica_not_available, message_too_large,
  stale_controller_epoch, offset_metadata_too_large, network_exception,
  coordinator_load_in_progress, coordinator_not_available, not_coordinator, invalid_topic_exception,
  record_list_too_large, not_enough_replicas, not_enough_replicas_after_append,
  invalid_required_acks, illegal_generation, inconsistent_group_protocol, invalid_group_id,
  unknown_member_id, invalid_session_timeout, rebalance_in_progress, invalid_commit_offset_size,
  topic_authorization_failed, group_authorization_failed, cluster_authorization_failed,
  invalid_timestamp, unsupported_sasl_mechanism, illegal_sasl_state, unsupported_version,
  topic_already_exists, invalid_partitions, invalid_replication_factor, invalid_replica_assignment,
  invalid_config, not_controller, invalid_request, unsupported_for_message_format, policy_violation,
  out_of_order_sequence_number, duplicate_sequence_number, invalid_producer_epoch,
  invalid_txn_state, invalid_producer_id_mapping, invalid_transaction_timeout,
  concurrent_transactions, transaction_coordinator_fenced, transactional_id_authorization_failed,
  security_disabled, operation_not_attempted, kafka_storage_error, log_dir_not_found,
  sasl_authentication_failed, unknown_producer_id, reassignment_in_progress,
  delegation_token_auth_disabled, delegation_token_not_found, delegation_token_owner_mismatch,
  delegation_token_request_not_allowed, delegation_token_authorization_failed,
  delegation_token_expired, invalid_principal_type, non_empty_group, group_id_not_found,
  fetch_session_id_not_found, invalid_fetch_session_epoch, listener_not_found,
  topic_deletion_disabled, fenced_leader_epoch, unknown_leader_epoch, unsupported_compression_type,
  stale_broker_epoch, offset_not_available, member_id_required, preferred_leader_not_available,
  group_max_size_reached, fenced_instance_id, eligible_leaders_not_available, election_not_needed,
  no_reassignment_in_progress, group_subscribed_to_topic, invalid_record, unstable_offset_commit,
  throttling_quota_exceeded, producer_fenced, resource_not_found, duplicate_resource,
  unacceptable_credential, inconsistent_voter_set, invalid_update_version, feature_update_failed,
  principal_deserialization_failure, snapshot_not_found, position_out_of_range, unknown_topic_id,
  duplicate_broker_registration, broker_id_not_registered, inconsistent_topic_id,
  inconsistent_cluster_id, transactional_id_not_found, fetch_session_topic_id_error,
  ineligible_replica, new_leader_elected, offset_moved_to_tiered_storage, fenced_member_epoch,
  unreleased_instance_id, unsupported_assignor, stale_member_epoch, mismatched_endpoint_type,
  unsupported_endpoint_type, unknown_controller_id, unknown_subscription_id, telemetry_too_large,
  invalid_registration, transaction_abortable, invalid_record_state, share_session_not_found,
  invalid_share_session_epoch, fenced_state_epoch, invalid_voter_key, duplicate_voter,
  voter_not_found, invalid_regular_expression, rebootstrap_required, streams_invalid_topology,
  streams_invalid_topology_epoch, streams_topology_fenced, share_session_limit_reached,
}

-- The wire code.
unfoldable pub code : ErrorCode → ℤ
code unknown_server_error = negsuc 0
code offset_out_of_range = pos 1
code corrupt_message = pos 2
code unknown_topic_or_partition = pos 3
code invalid_fetch_size = pos 4
code leader_not_available = pos 5
code not_leader_or_follower = pos 6
code request_timed_out = pos 7
code broker_not_available = pos 8
code replica_not_available = pos 9
code message_too_large = pos 10
code stale_controller_epoch = pos 11
code offset_metadata_too_large = pos 12
code network_exception = pos 13
code coordinator_load_in_progress = pos 14
code coordinator_not_available = pos 15
code not_coordinator = pos 16
code invalid_topic_exception = pos 17
code record_list_too_large = pos 18
code not_enough_replicas = pos 19
code not_enough_replicas_after_append = pos 20
code invalid_required_acks = pos 21
code illegal_generation = pos 22
code inconsistent_group_protocol = pos 23
code invalid_group_id = pos 24
code unknown_member_id = pos 25
code invalid_session_timeout = pos 26
code rebalance_in_progress = pos 27
code invalid_commit_offset_size = pos 28
code topic_authorization_failed = pos 29
code group_authorization_failed = pos 30
code cluster_authorization_failed = pos 31
code invalid_timestamp = pos 32
code unsupported_sasl_mechanism = pos 33
code illegal_sasl_state = pos 34
code unsupported_version = pos 35
code topic_already_exists = pos 36
code invalid_partitions = pos 37
code invalid_replication_factor = pos 38
code invalid_replica_assignment = pos 39
code invalid_config = pos 40
code not_controller = pos 41
code invalid_request = pos 42
code unsupported_for_message_format = pos 43
code policy_violation = pos 44
code out_of_order_sequence_number = pos 45
code duplicate_sequence_number = pos 46
code invalid_producer_epoch = pos 47
code invalid_txn_state = pos 48
code invalid_producer_id_mapping = pos 49
code invalid_transaction_timeout = pos 50
code concurrent_transactions = pos 51
code transaction_coordinator_fenced = pos 52
code transactional_id_authorization_failed = pos 53
code security_disabled = pos 54
code operation_not_attempted = pos 55
code kafka_storage_error = pos 56
code log_dir_not_found = pos 57
code sasl_authentication_failed = pos 58
code unknown_producer_id = pos 59
code reassignment_in_progress = pos 60
code delegation_token_auth_disabled = pos 61
code delegation_token_not_found = pos 62
code delegation_token_owner_mismatch = pos 63
code delegation_token_request_not_allowed = pos 64
code delegation_token_authorization_failed = pos 65
code delegation_token_expired = pos 66
code invalid_principal_type = pos 67
code non_empty_group = pos 68
code group_id_not_found = pos 69
code fetch_session_id_not_found = pos 70
code invalid_fetch_session_epoch = pos 71
code listener_not_found = pos 72
code topic_deletion_disabled = pos 73
code fenced_leader_epoch = pos 74
code unknown_leader_epoch = pos 75
code unsupported_compression_type = pos 76
code stale_broker_epoch = pos 77
code offset_not_available = pos 78
code member_id_required = pos 79
code preferred_leader_not_available = pos 80
code group_max_size_reached = pos 81
code fenced_instance_id = pos 82
code eligible_leaders_not_available = pos 83
code election_not_needed = pos 84
code no_reassignment_in_progress = pos 85
code group_subscribed_to_topic = pos 86
code invalid_record = pos 87
code unstable_offset_commit = pos 88
code throttling_quota_exceeded = pos 89
code producer_fenced = pos 90
code resource_not_found = pos 91
code duplicate_resource = pos 92
code unacceptable_credential = pos 93
code inconsistent_voter_set = pos 94
code invalid_update_version = pos 95
code feature_update_failed = pos 96
code principal_deserialization_failure = pos 97
code snapshot_not_found = pos 98
code position_out_of_range = pos 99
code unknown_topic_id = pos 100
code duplicate_broker_registration = pos 101
code broker_id_not_registered = pos 102
code inconsistent_topic_id = pos 103
code inconsistent_cluster_id = pos 104
code transactional_id_not_found = pos 105
code fetch_session_topic_id_error = pos 106
code ineligible_replica = pos 107
code new_leader_elected = pos 108
code offset_moved_to_tiered_storage = pos 109
code fenced_member_epoch = pos 110
code unreleased_instance_id = pos 111
code unsupported_assignor = pos 112
code stale_member_epoch = pos 113
code mismatched_endpoint_type = pos 114
code unsupported_endpoint_type = pos 115
code unknown_controller_id = pos 116
code unknown_subscription_id = pos 117
code telemetry_too_large = pos 118
code invalid_registration = pos 119
code transaction_abortable = pos 120
code invalid_record_state = pos 121
code share_session_not_found = pos 122
code invalid_share_session_epoch = pos 123
code fenced_state_epoch = pos 124
code invalid_voter_key = pos 125
code duplicate_voter = pos 126
code voter_not_found = pos 127
code invalid_regular_expression = pos 128
code rebootstrap_required = pos 129
code streams_invalid_topology = pos 130
code streams_invalid_topology_epoch = pos 131
code streams_topology_fenced = pos 132
code share_session_limit_reached = pos 133
code (unknown n) = n

-- Every code this build names.
unfoldable pub known_error_codes : List ErrorCode
known_error_codes =
    unknown_server_error ∷ offset_out_of_range ∷ corrupt_message ∷ unknown_topic_or_partition
    ∷ invalid_fetch_size ∷ leader_not_available ∷ not_leader_or_follower ∷ request_timed_out
    ∷ broker_not_available ∷ replica_not_available ∷ message_too_large ∷ stale_controller_epoch
    ∷ offset_metadata_too_large ∷ network_exception ∷ coordinator_load_in_progress
    ∷ coordinator_not_available ∷ not_coordinator ∷ invalid_topic_exception ∷ record_list_too_large
    ∷ not_enough_replicas ∷ not_enough_replicas_after_append ∷ invalid_required_acks
    ∷ illegal_generation ∷ inconsistent_group_protocol ∷ invalid_group_id ∷ unknown_member_id
    ∷ invalid_session_timeout ∷ rebalance_in_progress ∷ invalid_commit_offset_size
    ∷ topic_authorization_failed ∷ group_authorization_failed ∷ cluster_authorization_failed
    ∷ invalid_timestamp ∷ unsupported_sasl_mechanism ∷ illegal_sasl_state ∷ unsupported_version
    ∷ topic_already_exists ∷ invalid_partitions ∷ invalid_replication_factor
    ∷ invalid_replica_assignment ∷ invalid_config ∷ not_controller ∷ invalid_request
    ∷ unsupported_for_message_format ∷ policy_violation ∷ out_of_order_sequence_number
    ∷ duplicate_sequence_number ∷ invalid_producer_epoch ∷ invalid_txn_state
    ∷ invalid_producer_id_mapping ∷ invalid_transaction_timeout ∷ concurrent_transactions
    ∷ transaction_coordinator_fenced ∷ transactional_id_authorization_failed ∷ security_disabled
    ∷ operation_not_attempted ∷ kafka_storage_error ∷ log_dir_not_found ∷ sasl_authentication_failed
    ∷ unknown_producer_id ∷ reassignment_in_progress ∷ delegation_token_auth_disabled
    ∷ delegation_token_not_found ∷ delegation_token_owner_mismatch
    ∷ delegation_token_request_not_allowed ∷ delegation_token_authorization_failed
    ∷ delegation_token_expired ∷ invalid_principal_type ∷ non_empty_group ∷ group_id_not_found
    ∷ fetch_session_id_not_found ∷ invalid_fetch_session_epoch ∷ listener_not_found
    ∷ topic_deletion_disabled ∷ fenced_leader_epoch ∷ unknown_leader_epoch
    ∷ unsupported_compression_type ∷ stale_broker_epoch ∷ offset_not_available ∷ member_id_required
    ∷ preferred_leader_not_available ∷ group_max_size_reached ∷ fenced_instance_id
    ∷ eligible_leaders_not_available ∷ election_not_needed ∷ no_reassignment_in_progress
    ∷ group_subscribed_to_topic ∷ invalid_record ∷ unstable_offset_commit
    ∷ throttling_quota_exceeded ∷ producer_fenced ∷ resource_not_found ∷ duplicate_resource
    ∷ unacceptable_credential ∷ inconsistent_voter_set ∷ invalid_update_version
    ∷ feature_update_failed ∷ principal_deserialization_failure ∷ snapshot_not_found
    ∷ position_out_of_range ∷ unknown_topic_id ∷ duplicate_broker_registration
    ∷ broker_id_not_registered ∷ inconsistent_topic_id ∷ inconsistent_cluster_id
    ∷ transactional_id_not_found ∷ fetch_session_topic_id_error ∷ ineligible_replica
    ∷ new_leader_elected ∷ offset_moved_to_tiered_storage ∷ fenced_member_epoch
    ∷ unreleased_instance_id ∷ unsupported_assignor ∷ stale_member_epoch ∷ mismatched_endpoint_type
    ∷ unsupported_endpoint_type ∷ unknown_controller_id ∷ unknown_subscription_id
    ∷ telemetry_too_large ∷ invalid_registration ∷ transaction_abortable ∷ invalid_record_state
    ∷ share_session_not_found ∷ invalid_share_session_epoch ∷ fenced_state_epoch ∷ invalid_voter_key
    ∷ duplicate_voter ∷ voter_not_found ∷ invalid_regular_expression ∷ rebootstrap_required
    ∷ streams_invalid_topology ∷ streams_invalid_topology_epoch ∷ streams_topology_fenced
    ∷ share_session_limit_reached ∷ []
