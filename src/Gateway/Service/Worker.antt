-- ===== src/Gateway/Service/Worker.antt =====
-- service.py, `GatewayService`: the methods of a worker: the lease, the start, and the end of an
-- operation with a result, with a result and catalog rows, or with an error.
use cadplot_mcp.Prelude.{
  ℕ, String, Bool, true, false, not, ◌&&◌, Option, none, some, List, ◌+◌, ◌==◌, leb, str_eq,
  if◌then◌else◌,
}
use cadplot_mcp.Prelude.Results.{ok, err, Exec, pure, raise, raise_if, ◌>>=◌, ◌>>◌}
use cadplot_mcp.Gateway.Errors.{
  ValueCode, RepositoryCode, GatewayCode, Error, value_error, repository_error, gateway_error,
}
use cadplot_mcp.Gateway.Models.{
  SubjectId, OperationId, Instant, SafeCode, WorkerContext, OperationState, TaskResult,
  ProjectRecord, DrawingRecord, OperationRecord, OperationView, view_of, WorkerLease,
}
use cadplot_mcp.Gateway.Models.Bounds.{result_in_bounds}
use cadplot_mcp.Gateway.Operation.{is_leased, is_running, is_succeeded}
use cadplot_mcp.Gateway.Ports.{TransitionOutcome}
use cadplot_mcp.Gateway.Repository.Application.{same_result}
use cadplot_mcp.Gateway.Service.{
  GatewayService, seconds, now_of, transition_view, sanitize_worker_error,
  require_worker_workstation, require_worker_operation,
}
use cadplot_mcp.Gateway.Service.Enqueue.{is_translation}
use cadplot_mcp.Gateway.Service.Bindings.{
  invalid_result, validate_result_binding, validate_preapplication_result_binding,
  validate_worker_application,
}

-- `WorkerLease.from_record`
abbrev pub lease_of : {S : Type 0} → OperationRecord → Exec Error S WorkerLease
lease_of r = elim r.lease_expires_at [
  | none ↦ raise (value_error ValueCode.operation_is_not_leased)
  | some deadline ↦
      if not (is_leased r.state)
      then raise (value_error ValueCode.operation_is_not_leased)
      else pure (record {
        operation_id = r.operation_id;
        workstation_id = r.workstation_id;
        idempotency_key = r.idempotency_key;
        task = r.task;
        lease_expires_at = deadline;
      })
]

abbrev pub leased_view : {S : Type 0} → Option OperationRecord → Exec Error S (Option WorkerLease)
leased_view none = pure none
leased_view (some r) = lease_of r >>= λ l. pure (some l)

-- `RESULT_ADAPTER.validate_python(result)`, whose errors are an invalid result.
abbrev pub require_valid : {S : Type 0} → TaskResult → Exec Error S (Unit {0})
require_valid result = raise_if (not (result_in_bounds result)) invalid_result

-- `isinstance(validated_result, (ListProjectsResult, ScanDrawingsResult))`
abbrev pub is_catalog_result : TaskResult → Bool
is_catalog_result (TaskResult.list_projects ids) = true
is_catalog_result (TaskResult.scan_drawings r) = true
is_catalog_result _ = false

-- The target of a failure and the error that is stored with it.
abbrev pub failure_state : Bool → OperationState
failure_state true = OperationState.attention_required
failure_state false = OperationState.failed

abbrev pub failure_code : OperationRecord → String → Bool → SafeCode
failure_code operation code true =
    if is_translation operation.task then "translation_attention_required" else "worker_failure"
failure_code operation code false = sanitize_worker_error code

-- `operation.state is target`
abbrev pub has_failed : Bool → OperationState → Bool
has_failed true OperationState.attention_required = true
has_failed false OperationState.failed = true
has_failed _ _ = false

abbrev pub same_code : Option SafeCode → SafeCode → Bool
same_code none b = false
same_code (some a) b = str_eq a b

-- The two `except` clauses of `worker_apply_success`, which keep what was written.
abbrev pub application_error : Error → Error
application_error (repository_error RepositoryCode.catalog_conflict) = invalid_result
application_error (repository_error RepositoryCode.invalid_record) = invalid_result
application_error (repository_error RepositoryCode.invalid_terminal_payload) = invalid_result
application_error (repository_error RepositoryCode.invalid_terminal_state) =
    gateway_error GatewayCode.invalid_state
application_error (repository_error _) = gateway_error GatewayCode.catalog_sync_failed
application_error (value_error _) = invalid_result
application_error e = e

abbrev pub catch_application : {S A : Type 0} → Exec Error S A → Exec Error S A
catch_application call s =
    let (r, t) = call s in elim r [ ok a ↦ (ok a, t) | err e ↦ (err (application_error e), t) ]

module _ {S : Type 0} (g : GatewayService S) where
  -- The lease is in seconds; a negative number is refused as 0 is.
  unfoldable pub worker_lease :
      Option Instant → WorkerContext → SubjectId → ℕ → Exec Error S (Option WorkerLease)
  worker_lease reading worker owner lease_seconds = do
    raise_if (not (leb 5 lease_seconds && leb lease_seconds 300))
        (gateway_error GatewayCode.invalid_lease)
    w ← require_worker_workstation g worker true
    raise_if (not (w.owner_subject_id == owner)) (gateway_error GatewayCode.not_found)
    now ← now_of reading
    found ←
        g.operations.lease_next_operation worker.tenant_id worker.workstation_id owner now
          (now + seconds lease_seconds)
    leased_view found

  unfoldable pub worker_start :
      Option Instant → WorkerContext → OperationId → Exec Error S OperationView
  worker_start reading worker id = do
    require_worker_workstation g worker false
    now ← now_of reading
    outcome ← g.operations.start_operation id worker.tenant_id worker.workstation_id now
    transition_view outcome

  unfoldable pub worker_result_needs_application :
      WorkerContext → OperationId → TaskResult → Exec Error S Bool
  worker_result_needs_application worker id result = do
    require_worker_workstation g worker false
    operation ← require_worker_operation g worker id
    require_valid result
    if is_succeeded operation.state
        then (raise_if (not (same_result operation.result result))
              (gateway_error GatewayCode.invalid_state)
            >> pure false)
        else (raise_if (not (is_running operation.state)) (gateway_error GatewayCode.invalid_state)
            >> (validate_preapplication_result_binding g operation result >> pure true))

  unfoldable pub worker_failure_needs_application :
      WorkerContext → OperationId → String → Bool → Exec Error S Bool
  worker_failure_needs_application worker id code attention_required = do
    require_worker_workstation g worker false
    operation ← require_worker_operation g worker id
    if has_failed attention_required operation.state
        then (raise_if
              (not
                (same_code operation.error_code (failure_code operation code attention_required)))
              (gateway_error GatewayCode.invalid_state)
            >> pure false)
        else (raise_if (not (is_running operation.state)) (gateway_error GatewayCode.invalid_state)
            >> pure true)

  abbrev pub finish_view :
      Option Instant
      → WorkerContext
      → OperationId
      → OperationState
      → Option TaskResult
      → Option SafeCode
      → Exec Error S OperationView
  finish_view reading worker id state result code = do
    now ← now_of reading
    outcome ←
        g.operations.finish_operation id worker.tenant_id worker.workstation_id now state result
          code
    transition_view outcome

  unfoldable pub worker_complete :
      Option Instant → WorkerContext → OperationId → TaskResult → Exec Error S OperationView
  worker_complete reading worker id result = do
    require_worker_workstation g worker false
    operation ← require_worker_operation g worker id
    require_valid result
    raise_if (is_catalog_result result) invalid_result
    validate_result_binding g operation result
    if is_succeeded operation.state
        then (raise_if (not (same_result operation.result result))
              (gateway_error GatewayCode.invalid_state)
            >> pure (view_of operation))
        else finish_view reading worker id OperationState.succeeded (some result) none

  -- The clock is read inside the `try`.
  abbrev pub apply_now :
      Option Instant
      → WorkerContext
      → OperationId
      → TaskResult
      → List ProjectRecord
      → List DrawingRecord
      → Exec Error S TransitionOutcome
  apply_now reading worker id result projects drawings = do
    now ← now_of reading
    g.operations.apply_worker_success id worker.tenant_id worker.workstation_id now result projects
        drawings

  unfoldable pub worker_apply_success :
      Option Instant
      → WorkerContext
      → OperationId
      → TaskResult
      → List ProjectRecord
      → List DrawingRecord
      → Exec Error S OperationView
  worker_apply_success reading worker id result projects drawings = do
    w ← require_worker_workstation g worker false
    operation ← require_worker_operation g worker id
    raise_if (not (w.owner_subject_id == operation.owner_subject_id))
        (gateway_error GatewayCode.not_found)
    require_valid result
    validate_worker_application g operation result projects drawings
    outcome ← catch_application (apply_now reading worker id result projects drawings)
    transition_view outcome

  unfoldable pub worker_fail :
      Option Instant → WorkerContext → OperationId → String → Bool → Exec Error S OperationView
  worker_fail reading worker id code attention_required = do
    require_worker_workstation g worker false
    operation ← require_worker_operation g worker id
    if has_failed attention_required operation.state
        then (raise_if
              (not
                (same_code operation.error_code (failure_code operation code attention_required)))
              (gateway_error GatewayCode.invalid_state)
            >> pure (view_of operation))
        else finish_view reading worker id (failure_state attention_required) none
            (some (failure_code operation code attention_required))
