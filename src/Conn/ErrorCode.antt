-- ===== src/Conn/ErrorCode.antt =====
-- kafka-conn/src/error_code.rs: the broker's error codes and the axes that classify them.
pub mod Code
pub mod Name
pub mod Laws
mod Tests
use kaas_lib.Prelude.{Bool, true, false}
use kaas_lib.Prelude.Int.{ℤ}

-- `unknown` carries the wire value of a code with no name.
pub data ErrorCode : Type 0 where
  unknown_server_error offset_out_of_range corrupt_message unknown_topic_or_partition
        invalid_fetch_size leader_not_available not_leader_or_follower request_timed_out
        broker_not_available replica_not_available message_too_large stale_controller_epoch
        offset_metadata_too_large network_exception coordinator_load_in_progress
        coordinator_not_available not_coordinator invalid_topic_exception record_list_too_large
        not_enough_replicas not_enough_replicas_after_append invalid_required_acks
        illegal_generation inconsistent_group_protocol invalid_group_id unknown_member_id
        invalid_session_timeout rebalance_in_progress invalid_commit_offset_size
        topic_authorization_failed group_authorization_failed cluster_authorization_failed
        invalid_timestamp unsupported_sasl_mechanism illegal_sasl_state unsupported_version
        topic_already_exists invalid_partitions invalid_replication_factor
        invalid_replica_assignment invalid_config not_controller invalid_request
        unsupported_for_message_format policy_violation out_of_order_sequence_number
        duplicate_sequence_number invalid_producer_epoch invalid_txn_state
        invalid_producer_id_mapping invalid_transaction_timeout concurrent_transactions
        transaction_coordinator_fenced transactional_id_authorization_failed security_disabled
        operation_not_attempted kafka_storage_error log_dir_not_found sasl_authentication_failed
        unknown_producer_id reassignment_in_progress delegation_token_auth_disabled
        delegation_token_not_found delegation_token_owner_mismatch
        delegation_token_request_not_allowed delegation_token_authorization_failed
        delegation_token_expired invalid_principal_type non_empty_group group_id_not_found
        fetch_session_id_not_found invalid_fetch_session_epoch listener_not_found
        topic_deletion_disabled fenced_leader_epoch unknown_leader_epoch
        unsupported_compression_type stale_broker_epoch offset_not_available member_id_required
        preferred_leader_not_available group_max_size_reached fenced_instance_id
        eligible_leaders_not_available election_not_needed no_reassignment_in_progress
        group_subscribed_to_topic invalid_record unstable_offset_commit throttling_quota_exceeded
        producer_fenced resource_not_found duplicate_resource unacceptable_credential
        inconsistent_voter_set invalid_update_version feature_update_failed
        principal_deserialization_failure snapshot_not_found position_out_of_range unknown_topic_id
        duplicate_broker_registration broker_id_not_registered inconsistent_topic_id
        inconsistent_cluster_id transactional_id_not_found fetch_session_topic_id_error
        ineligible_replica new_leader_elected offset_moved_to_tiered_storage fenced_member_epoch
        unreleased_instance_id unsupported_assignor stale_member_epoch mismatched_endpoint_type
        unsupported_endpoint_type unknown_controller_id unknown_subscription_id telemetry_too_large
        invalid_registration transaction_abortable invalid_record_state share_session_not_found
        invalid_share_session_epoch fenced_state_epoch invalid_voter_key duplicate_voter
        voter_not_found invalid_regular_expression rebootstrap_required streams_invalid_topology
        streams_invalid_topology_epoch streams_topology_fenced share_session_limit_reached :
      ErrorCode
  unknown : ℤ → ErrorCode

-- Whether the code should invalidate the metadata snapshot.
unfoldable pub needs_metadata_refresh : ErrorCode → Bool
needs_metadata_refresh unknown_topic_or_partition = true
needs_metadata_refresh leader_not_available = true
needs_metadata_refresh not_leader_or_follower = true
needs_metadata_refresh broker_not_available = true
needs_metadata_refresh replica_not_available = true
needs_metadata_refresh network_exception = true
needs_metadata_refresh not_controller = true
needs_metadata_refresh kafka_storage_error = true
needs_metadata_refresh listener_not_found = true
needs_metadata_refresh fenced_leader_epoch = true
needs_metadata_refresh unknown_leader_epoch = true
needs_metadata_refresh offset_not_available = true
needs_metadata_refresh preferred_leader_not_available = true
needs_metadata_refresh unknown_topic_id = true
needs_metadata_refresh inconsistent_topic_id = true
needs_metadata_refresh fetch_session_topic_id_error = true
needs_metadata_refresh new_leader_elected = true
needs_metadata_refresh rebootstrap_required = true
needs_metadata_refresh _ = false

-- Whether the code should invalidate a cached coordinator.
unfoldable pub needs_coordinator_refresh : ErrorCode → Bool
needs_coordinator_refresh coordinator_load_in_progress = true
needs_coordinator_refresh coordinator_not_available = true
needs_coordinator_refresh not_coordinator = true
needs_coordinator_refresh _ = false

-- Whether the credentials were rejected.
unfoldable pub is_authentication : ErrorCode → Bool
is_authentication unsupported_sasl_mechanism = true
is_authentication illegal_sasl_state = true
is_authentication sasl_authentication_failed = true
is_authentication _ = false

-- Whether the principal lacked permission.
unfoldable pub is_authorization : ErrorCode → Bool
is_authorization topic_authorization_failed = true
is_authorization group_authorization_failed = true
is_authorization cluster_authorization_failed = true
is_authorization transactional_id_authorization_failed = true
is_authorization delegation_token_authorization_failed = true
is_authorization _ = false

-- The codes that `retriable_for_named_resource` excludes: the named resource does not exist.
unfoldable pub names_missing_resource : ErrorCode → Bool
names_missing_resource unknown_topic_or_partition = true
names_missing_resource unknown_topic_id = true
names_missing_resource group_id_not_found = true
names_missing_resource transactional_id_not_found = true
names_missing_resource unknown_member_id = true
names_missing_resource resource_not_found = true
names_missing_resource log_dir_not_found = true
names_missing_resource _ = false
