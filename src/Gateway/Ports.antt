-- ===== src/Gateway/Ports.antt =====
-- The two protocols of services/gateway/cadplot_gateway/repositories.py between the service and a
-- store, as records of operations over the store's state, and the outcomes that they return.
use cadplot_mcp.Prelude.{Option, List}
use cadplot_mcp.Prelude.Results.{Exec}
use cadplot_mcp.Gateway.Errors.{Error}
use cadplot_mcp.Gateway.Models.{
  TenantId, SubjectId, WorkstationId, ProjectId, DrawingId, OperationId, Instant, SafeCode,
  OperationState, TaskResult, WorkstationRecord, ProjectRecord, DrawingRecord, OperationRecord,
}

pub data CreateStatus : Type 0 where
  created existing conflict : CreateStatus

pub data TransitionStatus : Type 0 where
  updated not_found invalid_state lease_expired operation_expired : TransitionStatus

pub record CreateOutcome : Type 0 where
  pub status : CreateStatus
  pub operation : OperationRecord

pub record TransitionOutcome : Type 0 where
  pub status : TransitionStatus
  pub operation : Option OperationRecord

pub record CatalogRepository (S : Type 0) : Type 0 where
  pub upsert_workstation : WorkstationRecord → Exec Error S WorkstationRecord
  pub upsert_project : ProjectRecord → Exec Error S ProjectRecord
  pub upsert_drawing : DrawingRecord → Exec Error S DrawingRecord
  pub list_workstations : TenantId → SubjectId → Exec Error S (List WorkstationRecord)
  pub get_workstation : WorkstationId → Exec Error S (Option WorkstationRecord)
  pub list_projects :
      TenantId → SubjectId → Option WorkstationId → Exec Error S (List ProjectRecord)
  pub get_project : ProjectId → Exec Error S (Option ProjectRecord)
  pub get_drawing : DrawingId → Exec Error S (Option DrawingRecord)

pub record OperationRepository (S : Type 0) : Type 0 where
  pub create_or_get_operation : OperationRecord → Exec Error S CreateOutcome
  pub get_operation : OperationId → Exec Error S (Option OperationRecord)
  pub refresh_operation : OperationId → Instant → Exec Error S (Option OperationRecord)
  pub lease_next_operation :
      TenantId
      → WorkstationId
      → SubjectId
      → Instant
      → Instant
      → Exec Error S (Option OperationRecord)
  pub start_operation :
      OperationId → TenantId → WorkstationId → Instant → Exec Error S TransitionOutcome
  pub finish_operation :
      OperationId
      → TenantId
      → WorkstationId
      → Instant
      → OperationState
      → Option TaskResult
      → Option SafeCode
      → Exec Error S TransitionOutcome
  pub apply_worker_success :
      OperationId
      → TenantId
      → WorkstationId
      → Instant
      → TaskResult
      → List ProjectRecord
      → List DrawingRecord
      → Exec Error S TransitionOutcome
