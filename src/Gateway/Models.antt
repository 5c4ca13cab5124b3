-- ===== src/Gateway/Models.antt =====
-- services/gateway/cadplot_gateway/models.py: identifiers, tasks, results and the records. An
-- identifier is a fixed-format string that the code only compares and orders, so it is a number; a
-- timestamp is its instant in UTC, counted in microseconds; a code is a native string.
pub mod Equality
pub mod Bounds
use cadplot_mcp.Prelude.{ℕ, String, Bool, Option, List}
use cadplot_mcp.Protocol.Translation.{TranslationRequest, TranslationResponse}

abbrev pub TenantId : Type 0
TenantId = ℕ

abbrev pub SubjectId : Type 0
SubjectId = ℕ

abbrev pub ClientId : Type 0
ClientId = ℕ

abbrev pub WorkstationId : Type 0
WorkstationId = ℕ

abbrev pub ProjectId : Type 0
ProjectId = ℕ

abbrev pub DrawingId : Type 0
DrawingId = ℕ

abbrev pub OperationId : Type 0
OperationId = ℕ

abbrev pub IdempotencyKey : Type 0
IdempotencyKey = ℕ

abbrev pub Sha256Hex : Type 0
Sha256Hex = ℕ

abbrev pub PlanId : Type 0
PlanId = ℕ

abbrev pub Instant : Type 0
Instant = ℕ

abbrev pub SafeCode : Type 0
SafeCode = String

abbrev pub SafeDisplayName : Type 0
SafeDisplayName = String

pub data Scope : Type 0 where
  translate read stage publish cancel : Scope

-- A frozen set of scopes is its membership test.
pub record PrincipalContext : Type 0 where
  pub tenant_id : TenantId
  pub subject_id : SubjectId
  pub client_id : ClientId
  pub scopes : Scope → Bool

pub record WorkerContext : Type 0 where
  pub tenant_id : TenantId
  pub workstation_id : WorkstationId

pub data TaskCommand : Type 0 where
  translation validate_environment list_projects : TaskCommand
  scan_drawings inspect_drawing create_publish_plan : TaskCommand

pub data OperationState : Type 0 where
  created leased running succeeded failed expired attention_required : OperationState

-- The request's drawing; the scan's project, recursion and limit.
pub data ReadTask : Type 0 where
  validate_environment : WorkstationId → ReadTask
  list_projects : WorkstationId → ReadTask
  scan_drawings : ProjectId → Bool → ℕ → ReadTask
  inspect_drawing : DrawingId → ReadTask
  create_publish_plan : DrawingId → ReadTask
  translation : DrawingId → TranslationRequest → ReadTask

pub record ScanDrawingsResult : Type 0 where
  pub project_id : ProjectId
  pub drawing_ids : List DrawingId
  pub truncated : Bool

pub record InspectDrawingResult : Type 0 where
  pub drawing_id : DrawingId
  pub layout_count : ℕ
  pub sheet_count : ℕ
  pub warning_codes : List SafeCode

pub record CreatePublishPlanResult : Type 0 where
  pub drawing_id : DrawingId
  pub plan_id : PlanId
  pub ready : Bool
  pub sheet_count : ℕ
  pub warning_codes : List SafeCode

pub data TaskResult : Type 0 where
  validate_environment : Bool → List SafeCode → TaskResult
  list_projects : List ProjectId → TaskResult
  scan_drawings : ScanDrawingsResult → TaskResult
  inspect_drawing : InspectDrawingResult → TaskResult
  create_publish_plan : CreatePublishPlanResult → TaskResult
  translation : DrawingId → TranslationResponse → TaskResult

-- `task.command` and `result.command`.
unfoldable pub task_command : ReadTask → TaskCommand
task_command (ReadTask.validate_environment w) = TaskCommand.validate_environment
task_command (ReadTask.list_projects w) = TaskCommand.list_projects
task_command (ReadTask.scan_drawings p r l) = TaskCommand.scan_drawings
task_command (ReadTask.inspect_drawing d) = TaskCommand.inspect_drawing
task_command (ReadTask.create_publish_plan d) = TaskCommand.create_publish_plan
task_command (ReadTask.translation d r) = TaskCommand.translation

unfoldable pub result_command : TaskResult → TaskCommand
result_command (TaskResult.validate_environment r c) = TaskCommand.validate_environment
result_command (TaskResult.list_projects p) = TaskCommand.list_projects
result_command (TaskResult.scan_drawings r) = TaskCommand.scan_drawings
result_command (TaskResult.inspect_drawing r) = TaskCommand.inspect_drawing
result_command (TaskResult.create_publish_plan r) = TaskCommand.create_publish_plan
result_command (TaskResult.translation d r) = TaskCommand.translation

pub record WorkstationRecord : Type 0 where
  pub workstation_id : WorkstationId
  pub tenant_id : TenantId
  pub owner_subject_id : SubjectId
  pub display_name : SafeDisplayName
  pub enabled : Bool
  pub online : Bool

pub record ProjectRecord : Type 0 where
  pub project_id : ProjectId
  pub tenant_id : TenantId
  pub owner_subject_id : SubjectId
  pub workstation_id : WorkstationId
  pub display_name : SafeDisplayName
  pub enabled : Bool

pub record DrawingRecord : Type 0 where
  pub drawing_id : DrawingId
  pub tenant_id : TenantId
  pub owner_subject_id : SubjectId
  pub workstation_id : WorkstationId
  pub project_id : ProjectId
  pub display_name : SafeDisplayName
  pub enabled : Bool

pub record OperationRecord : Type 0 where
  pub operation_id : OperationId
  pub tenant_id : TenantId
  pub owner_subject_id : SubjectId
  pub client_id : ClientId
  pub workstation_id : WorkstationId
  pub idempotency_key : IdempotencyKey
  pub request_fingerprint : Sha256Hex
  pub task : ReadTask
  pub state : OperationState
  pub created_at : Instant
  pub expires_at : Instant
  pub lease_expires_at : Option Instant
  pub started_at : Option Instant
  pub completed_at : Option Instant
  pub result : Option TaskResult
  pub error_code : Option SafeCode

-- What a user sees of an operation.
pub record OperationView : Type 0 where
  pub operation_id : OperationId
  pub workstation_id : WorkstationId
  pub task : ReadTask
  pub state : OperationState
  pub created_at : Instant
  pub expires_at : Instant
  pub lease_expires_at : Option Instant
  pub started_at : Option Instant
  pub completed_at : Option Instant
  pub result : Option TaskResult
  pub error_code : Option SafeCode

-- `OperationView.from_record`
abbrev pub view_of : OperationRecord → OperationView
view_of r = record {
  operation_id = r.operation_id;
  workstation_id = r.workstation_id;
  task = r.task;
  state = r.state;
  created_at = r.created_at;
  expires_at = r.expires_at;
  lease_expires_at = r.lease_expires_at;
  started_at = r.started_at;
  completed_at = r.completed_at;
  result = r.result;
  error_code = r.error_code;
}

pub record WorkerLease : Type 0 where
  pub operation_id : OperationId
  pub workstation_id : WorkstationId
  pub idempotency_key : IdempotencyKey
  pub task : ReadTask
  pub lease_expires_at : Instant

pub record WorkstationSummary : Type 0 where
  pub workstation_id : WorkstationId
  pub display_name : SafeDisplayName
  pub online : Bool

pub record ProjectSummary : Type 0 where
  pub project_id : ProjectId
  pub workstation_id : WorkstationId
  pub display_name : SafeDisplayName

-- The requests carry a key besides their target.
pub record ScanDrawingsRequest : Type 0 where
  pub idempotency_key : IdempotencyKey
  pub project_id : ProjectId
  pub recursive : Bool
  pub limit : ℕ

pub record TranslationEnqueueRequest : Type 0 where
  pub idempotency_key : IdempotencyKey
  pub drawing_id : DrawingId
  pub request : TranslationRequest
