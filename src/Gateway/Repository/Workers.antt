-- ===== src/Gateway/Repository/Workers.antt =====
-- repositories.py, `InMemoryGatewayRepository`: starting and finishing an operation.
use cadplot_mcp.Prelude.{Bool, true, false, not, ◌&&◌, Option, none, some, if◌then◌else◌}
use cadplot_mcp.Prelude.Classes.{nat_eq}
use cadplot_mcp.Prelude.Results.{pure, lift, gets, raise_if, modify, ◌>>=◌, ◌>>◌}
use cadplot_mcp.Prelude.Dicts.{lookup}
use cadplot_mcp.Gateway.Errors.{ValueCode, value_error}
use cadplot_mcp.Gateway.Models.{
  TenantId, WorkstationId, OperationId, Instant, SafeCode, OperationState, TaskResult,
  OperationRecord,
}
use cadplot_mcp.Gateway.Operation.{
  is_leased, is_running, lease_due, is_due, updated, attention_required, refresh_due,
}
use cadplot_mcp.Gateway.Ports.{TransitionStatus, TransitionOutcome}
use cadplot_mcp.Gateway.Repository.{request_key_eq, Method, set_operation}
use cadplot_mcp.Gateway.Repository.Operations.{on_device}

-- `_worker_owns`
abbrev pub worker_owns : Option OperationRecord → TenantId → WorkstationId → Bool
worker_owns none tenant workstation = false
worker_owns (some r) tenant workstation = on_device tenant workstation r

abbrev pub not_found : TransitionOutcome
not_found = record { status = TransitionStatus.not_found; operation = none }

abbrev pub outcome : TransitionStatus → OperationRecord → TransitionOutcome
outcome status r = record { status = status; operation = some r }

-- The record that was found, if the worker owns it.
abbrev pub owned_record : Option OperationRecord → TenantId → WorkstationId → Option OperationRecord
owned_record found tenant workstation = if worker_owns found tenant workstation then found else none

abbrev pub start_owned : OperationId → Instant → Option OperationRecord → Method TransitionOutcome
start_owned id now none = pure not_found
start_owned id now (some r) =
    if is_leased r.state && lease_due r.lease_expires_at now
    then (do
      attention ← lift (attention_required r now)
      modify (set_operation id attention)
      pure (outcome TransitionStatus.lease_expired attention))
    else if not (is_leased r.state)
    then pure (outcome TransitionStatus.invalid_state r)
    else (do
      running ← lift (
          updated (record r {
            state = OperationState.running;
            lease_expires_at = none;
            started_at = some now;
          }))
      modify (set_operation id running)
      pure (outcome TransitionStatus.updated running))

unfoldable pub start_operation :
    OperationId → TenantId → WorkstationId → Instant → Method TransitionOutcome
start_operation id tenant workstation now = do
  found ← gets (λ s. lookup id s.operations)
  start_owned id now (owned_record found tenant workstation)

-- `state in {SUCCEEDED, FAILED, ATTENTION_REQUIRED}`
abbrev pub is_target : OperationState → Bool
is_target OperationState.succeeded = true
is_target OperationState.failed = true
is_target OperationState.attention_required = true
is_target _ = false

abbrev pub is_expired : OperationState → Bool
is_expired OperationState.expired = true
is_expired _ = false

-- The record that `finish_operation` writes.
abbrev pub completed_record :
    OperationRecord
    → OperationState
    → Instant
    → Option TaskResult
    → Option SafeCode
    → OperationRecord
completed_record r state now result error_code = record r {
  state = state;
  completed_at = some now;
  result = result;
  error_code = error_code;
}

-- The call of `_refresh_due` in `finish_operation` and `apply_worker_success`. It returns another
-- object just where the record is due.
abbrev pub proceed :
    OperationId
    → OperationRecord
    → Bool
    → OperationRecord
    → (OperationRecord → Method TransitionOutcome)
    → Method TransitionOutcome
proceed id r false refreshed rest = rest r
proceed id r true refreshed rest =
    modify (set_operation id refreshed)
    >> (if is_expired refreshed.state
        then pure (outcome TransitionStatus.operation_expired refreshed)
        else rest refreshed)

abbrev pub after_refresh :
    OperationId
    → Instant
    → OperationRecord
    → (OperationRecord → Method TransitionOutcome)
    → Method TransitionOutcome
after_refresh id now r rest = do
  refreshed ← lift (refresh_due r now)
  proceed id r (is_due r now) refreshed rest

abbrev pub complete :
    OperationId
    → Instant
    → OperationState
    → Option TaskResult
    → Option SafeCode
    → OperationRecord
    → Method TransitionOutcome
complete id now state result error_code r = do
  completed ← lift (updated (completed_record r state now result error_code))
  modify (set_operation id completed)
  pure (outcome TransitionStatus.updated completed)

abbrev pub finish_running :
    OperationId
    → Instant
    → OperationState
    → Option TaskResult
    → Option SafeCode
    → OperationRecord
    → Method TransitionOutcome
finish_running id now state result error_code r =
    if not (is_running r.state)
    then pure (outcome TransitionStatus.invalid_state r)
    else complete id now state result error_code r

abbrev pub finish_owned :
    OperationId
    → Instant
    → OperationState
    → Option TaskResult
    → Option SafeCode
    → Option OperationRecord
    → Method TransitionOutcome
finish_owned id now state result error_code none = pure not_found
finish_owned id now state result error_code (some r) =
    after_refresh id now r (finish_running id now state result error_code)

unfoldable pub finish_operation :
    OperationId
    → TenantId
    → WorkstationId
    → Instant
    → OperationState
    → Option TaskResult
    → Option SafeCode
    → Method TransitionOutcome
finish_operation id tenant workstation now state result error_code = do
  raise_if (not (is_target state)) (value_error ValueCode.invalid_terminal_state)
  found ← gets (λ s. lookup id s.operations)
  finish_owned id now state result error_code (owned_record found tenant workstation)
