-- ===== src/Gateway/Errors.antt =====
-- The exceptions that the gateway's code raises, as values: `ValueError` of the repository and of the
-- record validator, `KeyError` of a dict, `RepositoryError` and `GatewayError` with their codes.
pub data ValueCode : Type 0 where
  operation_expiry_must_follow_creation operation_lease_outside_deadline : ValueCode
  operation_start_outside_deadline operation_completion_before_creation : ValueCode
  operation_completion_before_start created_operation_has_transition_data : ValueCode
  leased_operation_shape_invalid running_operation_shape_invalid : ValueCode
  succeeded_operation_shape_invalid operation_result_command_mismatch : ValueCode
  terminal_operation_shape_invalid failed_operation_was_never_started : ValueCode
  operation_expired_before_deadline operation_is_not_leased : ValueCode
  duplicate_workstation workstation_owner_mismatch duplicate_project : ValueCode
  project_owner_mismatch duplicate_drawing drawing_owner_mismatch : ValueCode
  workstation_not_found invalid_terminal_state result_task_mismatch : ValueCode
  invalid_catalog_payload string_pattern_mismatch : ValueCode

-- The codes of `RepositoryError` that the service tells apart, and all the others.
pub data RepositoryCode : Type 0 where
  active_operation_limit catalog_conflict invalid_record : RepositoryCode
  invalid_terminal_payload invalid_terminal_state other : RepositoryCode

pub data GatewayCode : Type 0 where
  invalid_operation_ttl translation_batch_too_large translation_approval_invalid : GatewayCode
  invalid_lease not_found invalid_result invalid_state catalog_sync_failed : GatewayCode
  active_operation_limit repository_unavailable idempotency_conflict : GatewayCode
  workstation_offline lease_expired operation_expired forbidden clock_invalid : GatewayCode

pub data Error : Type 0 where
  value_error : ValueCode → Error
  key_error : Error
  repository_error : RepositoryCode → Error
  gateway_error : GatewayCode → Error
