-- ===== src/Conn/ErrorCode/Name.antt =====
-- The protocol's names of the error codes.
use kaas_lib.Prelude.{Option, none, some, String}
use kaas_lib.Conn.ErrorCode.{
  ErrorCode, unknown, unknown_server_error, offset_out_of_range, corrupt_message,
  unknown_topic_or_partition, invalid_fetch_size, leader_not_available, not_leader_or_follower,
  request_timed_out, broker_not_available, replica_not_available, message_too_large,
  stale_controller_epoch, offset_metadata_too_large, network_exception,
  coordinator_load_in_progress, coordinator_not_available, not_coordinator, invalid_topic_exception,
  record_list_too_large, not_enough_replicas, not_enough_replicas_after_append,
  invalid_required_acks, illegal_generation, inconsistent_group_protocol, invalid_group_id,
  unknown_member_id, invalid_session_timeout, rebalance_in_progress, invalid_commit_offset_size,
  topic_authorization_failed, group_authorization_failed, cluster_authorization_failed,
  invalid_timestamp, unsupported_sasl_mechanism, illegal_sasl_state, unsupported_version,
  topic_already_exists, invalid_partitions, invalid_replication_factor, invalid_replica_assignment,
  invalid_config, not_controller, invalid_request, unsupported_for_message_format, policy_violation,
  out_of_order_sequence_number, duplicate_sequence_number, invalid_producer_epoch,
  invalid_txn_state, invalid_producer_id_mapping, invalid_transaction_timeout,
  concurrent_transactions, transaction_coordinator_fenced, transactional_id_authorization_failed,
  security_disabled, operation_not_attempted, kafka_storage_error, log_dir_not_found,
  sasl_authentication_failed, unknown_producer_id, reassignment_in_progress,
  delegation_token_auth_disabled, delegation_token_not_found, delegation_token_owner_mismatch,
  delegation_token_request_not_allowed, delegation_token_authorization_failed,
  delegation_token_expired, invalid_principal_type, non_empty_group, group_id_not_found,
  fetch_session_id_not_found, invalid_fetch_session_epoch, listener_not_found,
  topic_deletion_disabled, fenced_leader_epoch, unknown_leader_epoch, unsupported_compression_type,
  stale_broker_epoch, offset_not_available, member_id_required, preferred_leader_not_available,
  group_max_size_reached, fenced_instance_id, eligible_leaders_not_available, election_not_needed,
  no_reassignment_in_progress, group_subscribed_to_topic, invalid_record, unstable_offset_commit,
  throttling_quota_exceeded, producer_fenced, resource_not_found, duplicate_resource,
  unacceptable_credential, inconsistent_voter_set, invalid_update_version, feature_update_failed,
  principal_deserialization_failure, snapshot_not_found, position_out_of_range, unknown_topic_id,
  duplicate_broker_registration, broker_id_not_registered, inconsistent_topic_id,
  inconsistent_cluster_id, transactional_id_not_found, fetch_session_topic_id_error,
  ineligible_replica, new_leader_elected, offset_moved_to_tiered_storage, fenced_member_epoch,
  unreleased_instance_id, unsupported_assignor, stale_member_epoch, mismatched_endpoint_type,
  unsupported_endpoint_type, unknown_controller_id, unknown_subscription_id, telemetry_too_large,
  invalid_registration, transaction_abortable, invalid_record_state, share_session_not_found,
  invalid_share_session_epoch, fenced_state_epoch, invalid_voter_key, duplicate_voter,
  voter_not_found, invalid_regular_expression, rebootstrap_required, streams_invalid_topology,
  streams_invalid_topology_epoch, streams_topology_fenced, share_session_limit_reached,
}

-- The protocol's name of the code.
unfoldable pub name : ErrorCode → Option String
name unknown_server_error = some "UNKNOWN_SERVER_ERROR"
name offset_out_of_range = some "OFFSET_OUT_OF_RANGE"
name corrupt_message = some "CORRUPT_MESSAGE"
name unknown_topic_or_partition = some "UNKNOWN_TOPIC_OR_PARTITION"
name invalid_fetch_size = some "INVALID_FETCH_SIZE"
name leader_not_available = some "LEADER_NOT_AVAILABLE"
name not_leader_or_follower = some "NOT_LEADER_OR_FOLLOWER"
name request_timed_out = some "REQUEST_TIMED_OUT"
name broker_not_available = some "BROKER_NOT_AVAILABLE"
name replica_not_available = some "REPLICA_NOT_AVAILABLE"
name message_too_large = some "MESSAGE_TOO_LARGE"
name stale_controller_epoch = some "STALE_CONTROLLER_EPOCH"
name offset_metadata_too_large = some "OFFSET_METADATA_TOO_LARGE"
name network_exception = some "NETWORK_EXCEPTION"
name coordinator_load_in_progress = some "COORDINATOR_LOAD_IN_PROGRESS"
name coordinator_not_available = some "COORDINATOR_NOT_AVAILABLE"
name not_coordinator = some "NOT_COORDINATOR"
name invalid_topic_exception = some "INVALID_TOPIC_EXCEPTION"
name record_list_too_large = some "RECORD_LIST_TOO_LARGE"
name not_enough_replicas = some "NOT_ENOUGH_REPLICAS"
name not_enough_replicas_after_append = some "NOT_ENOUGH_REPLICAS_AFTER_APPEND"
name invalid_required_acks = some "INVALID_REQUIRED_ACKS"
name illegal_generation = some "ILLEGAL_GENERATION"
name inconsistent_group_protocol = some "INCONSISTENT_GROUP_PROTOCOL"
name invalid_group_id = some "INVALID_GROUP_ID"
name unknown_member_id = some "UNKNOWN_MEMBER_ID"
name invalid_session_timeout = some "INVALID_SESSION_TIMEOUT"
name rebalance_in_progress = some "REBALANCE_IN_PROGRESS"
name invalid_commit_offset_size = some "INVALID_COMMIT_OFFSET_SIZE"
name topic_authorization_failed = some "TOPIC_AUTHORIZATION_FAILED"
name group_authorization_failed = some "GROUP_AUTHORIZATION_FAILED"
name cluster_authorization_failed = some "CLUSTER_AUTHORIZATION_FAILED"
name invalid_timestamp = some "INVALID_TIMESTAMP"
name unsupported_sasl_mechanism = some "UNSUPPORTED_SASL_MECHANISM"
name illegal_sasl_state = some "ILLEGAL_SASL_STATE"
name unsupported_version = some "UNSUPPORTED_VERSION"
name topic_already_exists = some "TOPIC_ALREADY_EXISTS"
name invalid_partitions = some "INVALID_PARTITIONS"
name invalid_replication_factor = some "INVALID_REPLICATION_FACTOR"
name invalid_replica_assignment = some "INVALID_REPLICA_ASSIGNMENT"
name invalid_config = some "INVALID_CONFIG"
name not_controller = some "NOT_CONTROLLER"
name invalid_request = some "INVALID_REQUEST"
name unsupported_for_message_format = some "UNSUPPORTED_FOR_MESSAGE_FORMAT"
name policy_violation = some "POLICY_VIOLATION"
name out_of_order_sequence_number = some "OUT_OF_ORDER_SEQUENCE_NUMBER"
name duplicate_sequence_number = some "DUPLICATE_SEQUENCE_NUMBER"
name invalid_producer_epoch = some "INVALID_PRODUCER_EPOCH"
name invalid_txn_state = some "INVALID_TXN_STATE"
name invalid_producer_id_mapping = some "INVALID_PRODUCER_ID_MAPPING"
name invalid_transaction_timeout = some "INVALID_TRANSACTION_TIMEOUT"
name concurrent_transactions = some "CONCURRENT_TRANSACTIONS"
name transaction_coordinator_fenced = some "TRANSACTION_COORDINATOR_FENCED"
name transactional_id_authorization_failed = some "TRANSACTIONAL_ID_AUTHORIZATION_FAILED"
name security_disabled = some "SECURITY_DISABLED"
name operation_not_attempted = some "OPERATION_NOT_ATTEMPTED"
name kafka_storage_error = some "KAFKA_STORAGE_ERROR"
name log_dir_not_found = some "LOG_DIR_NOT_FOUND"
name sasl_authentication_failed = some "SASL_AUTHENTICATION_FAILED"
name unknown_producer_id = some "UNKNOWN_PRODUCER_ID"
name reassignment_in_progress = some "REASSIGNMENT_IN_PROGRESS"
name delegation_token_auth_disabled = some "DELEGATION_TOKEN_AUTH_DISABLED"
name delegation_token_not_found = some "DELEGATION_TOKEN_NOT_FOUND"
name delegation_token_owner_mismatch = some "DELEGATION_TOKEN_OWNER_MISMATCH"
name delegation_token_request_not_allowed = some "DELEGATION_TOKEN_REQUEST_NOT_ALLOWED"
name delegation_token_authorization_failed = some "DELEGATION_TOKEN_AUTHORIZATION_FAILED"
name delegation_token_expired = some "DELEGATION_TOKEN_EXPIRED"
name invalid_principal_type = some "INVALID_PRINCIPAL_TYPE"
name non_empty_group = some "NON_EMPTY_GROUP"
name group_id_not_found = some "GROUP_ID_NOT_FOUND"
name fetch_session_id_not_found = some "FETCH_SESSION_ID_NOT_FOUND"
name invalid_fetch_session_epoch = some "INVALID_FETCH_SESSION_EPOCH"
name listener_not_found = some "LISTENER_NOT_FOUND"
name topic_deletion_disabled = some "TOPIC_DELETION_DISABLED"
name fenced_leader_epoch = some "FENCED_LEADER_EPOCH"
name unknown_leader_epoch = some "UNKNOWN_LEADER_EPOCH"
name unsupported_compression_type = some "UNSUPPORTED_COMPRESSION_TYPE"
name stale_broker_epoch = some "STALE_BROKER_EPOCH"
name offset_not_available = some "OFFSET_NOT_AVAILABLE"
name member_id_required = some "MEMBER_ID_REQUIRED"
name preferred_leader_not_available = some "PREFERRED_LEADER_NOT_AVAILABLE"
name group_max_size_reached = some "GROUP_MAX_SIZE_REACHED"
name fenced_instance_id = some "FENCED_INSTANCE_ID"
name eligible_leaders_not_available = some "ELIGIBLE_LEADERS_NOT_AVAILABLE"
name election_not_needed = some "ELECTION_NOT_NEEDED"
name no_reassignment_in_progress = some "NO_REASSIGNMENT_IN_PROGRESS"
name group_subscribed_to_topic = some "GROUP_SUBSCRIBED_TO_TOPIC"
name invalid_record = some "INVALID_RECORD"
name unstable_offset_commit = some "UNSTABLE_OFFSET_COMMIT"
name throttling_quota_exceeded = some "THROTTLING_QUOTA_EXCEEDED"
name producer_fenced = some "PRODUCER_FENCED"
name resource_not_found = some "RESOURCE_NOT_FOUND"
name duplicate_resource = some "DUPLICATE_RESOURCE"
name unacceptable_credential = some "UNACCEPTABLE_CREDENTIAL"
name inconsistent_voter_set = some "INCONSISTENT_VOTER_SET"
name invalid_update_version = some "INVALID_UPDATE_VERSION"
name feature_update_failed = some "FEATURE_UPDATE_FAILED"
name principal_deserialization_failure = some "PRINCIPAL_DESERIALIZATION_FAILURE"
name snapshot_not_found = some "SNAPSHOT_NOT_FOUND"
name position_out_of_range = some "POSITION_OUT_OF_RANGE"
name unknown_topic_id = some "UNKNOWN_TOPIC_ID"
name duplicate_broker_registration = some "DUPLICATE_BROKER_REGISTRATION"
name broker_id_not_registered = some "BROKER_ID_NOT_REGISTERED"
name inconsistent_topic_id = some "INCONSISTENT_TOPIC_ID"
name inconsistent_cluster_id = some "INCONSISTENT_CLUSTER_ID"
name transactional_id_not_found = some "TRANSACTIONAL_ID_NOT_FOUND"
name fetch_session_topic_id_error = some "FETCH_SESSION_TOPIC_ID_ERROR"
name ineligible_replica = some "INELIGIBLE_REPLICA"
name new_leader_elected = some "NEW_LEADER_ELECTED"
name offset_moved_to_tiered_storage = some "OFFSET_MOVED_TO_TIERED_STORAGE"
name fenced_member_epoch = some "FENCED_MEMBER_EPOCH"
name unreleased_instance_id = some "UNRELEASED_INSTANCE_ID"
name unsupported_assignor = some "UNSUPPORTED_ASSIGNOR"
name stale_member_epoch = some "STALE_MEMBER_EPOCH"
name mismatched_endpoint_type = some "MISMATCHED_ENDPOINT_TYPE"
name unsupported_endpoint_type = some "UNSUPPORTED_ENDPOINT_TYPE"
name unknown_controller_id = some "UNKNOWN_CONTROLLER_ID"
name unknown_subscription_id = some "UNKNOWN_SUBSCRIPTION_ID"
name telemetry_too_large = some "TELEMETRY_TOO_LARGE"
name invalid_registration = some "INVALID_REGISTRATION"
name transaction_abortable = some "TRANSACTION_ABORTABLE"
name invalid_record_state = some "INVALID_RECORD_STATE"
name share_session_not_found = some "SHARE_SESSION_NOT_FOUND"
name invalid_share_session_epoch = some "INVALID_SHARE_SESSION_EPOCH"
name fenced_state_epoch = some "FENCED_STATE_EPOCH"
name invalid_voter_key = some "INVALID_VOTER_KEY"
name duplicate_voter = some "DUPLICATE_VOTER"
name voter_not_found = some "VOTER_NOT_FOUND"
name invalid_regular_expression = some "INVALID_REGULAR_EXPRESSION"
name rebootstrap_required = some "REBOOTSTRAP_REQUIRED"
name streams_invalid_topology = some "STREAMS_INVALID_TOPOLOGY"
name streams_invalid_topology_epoch = some "STREAMS_INVALID_TOPOLOGY_EPOCH"
name streams_topology_fenced = some "STREAMS_TOPOLOGY_FENCED"
name share_session_limit_reached = some "SHARE_SESSION_LIMIT_REACHED"
name (unknown n) = none
