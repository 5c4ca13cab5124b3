-- ===== src/Gateway/Service/Enqueue.antt =====
-- service.py, `GatewayService`: the methods of a user: the listings, the requests that enqueue an
-- operation, and the reading of one.
use cadplot_mcp.Prelude.{
  Bool, true, false, not, ◌&&◌, ◌||◌, Option, none, some, List, map, ◌+◌, ◌*◌, ◌==◌, leb, ltb,
}
use cadplot_mcp.Prelude.Results.{err, Exec, pure, raise, raise_if, ◌>>=◌, ◌>>◌}
use cadplot_mcp.Protocol.Translation.{
  ApplyTranslation, TranslationRequest, PlanResult, TranslationResponse,
}
use cadplot_mcp.Gateway.Errors.{RepositoryCode, GatewayCode, Error, gateway_error, repository_error}
use cadplot_mcp.Gateway.Models.{
  WorkstationId, DrawingId, OperationId, IdempotencyKey, Instant, Scope, PrincipalContext,
  OperationState, ReadTask, TaskResult, WorkstationRecord, ProjectRecord, DrawingRecord,
  OperationRecord, OperationView, view_of, WorkstationSummary, ProjectSummary, ScanDrawingsRequest,
  TranslationEnqueueRequest,
}
use cadplot_mcp.Gateway.Operation.{is_succeeded}
use cadplot_mcp.Gateway.Ports.{CreateStatus, CreateOutcome}
use cadplot_mcp.Gateway.Service.{
  GatewayService, now_of, require_scope, require_operation_owner, require_workstation,
  require_project, require_drawing,
}

abbrev workstation_summary : WorkstationRecord → WorkstationSummary
workstation_summary r = record {
  workstation_id = r.workstation_id;
  display_name = r.display_name;
  online = r.online;
}

abbrev project_summary : ProjectRecord → ProjectSummary
project_summary r = record {
  project_id = r.project_id;
  workstation_id = r.workstation_id;
  display_name = r.display_name;
}

-- The codes that `_enqueue` raises for a `RepositoryError`.
abbrev enqueue_code : RepositoryCode → GatewayCode
enqueue_code RepositoryCode.active_operation_limit = GatewayCode.active_operation_limit
enqueue_code _ = GatewayCode.repository_unavailable

-- The `try` of `_enqueue`, which keeps what was written.
abbrev catch_enqueue : {S A : Type 0} → Exec Error S A → Exec Error S A
catch_enqueue call s =
    let (r, t) = call s in
    elim r [
      | err (repository_error code) ↦ (err (gateway_error (enqueue_code code)), t)
      | other ↦ (other, t)
    ]

abbrev created_view : {S : Type 0} → CreateOutcome → Exec Error S OperationView
created_view o = elim o.status [
  | CreateStatus.conflict ↦ raise (gateway_error GatewayCode.idempotency_conflict)
  | _ ↦ pure (view_of o.operation)
]

-- The plan is the approved one, of the same inventory and review, and changes something.
abbrev pub approves : ApplyTranslation → PlanResult → Bool
approves approval plan =
    plan.ready
    && (not (plan.changed_records == 0)
        && (plan.plan_id == approval.approved_plan_id
            && (plan.inventory_id == approval.inventory_id
                && plan.review_id == approval.review_id)))

-- The result is a plan for this drawing that the approval names.
abbrev pub plans : DrawingId → ApplyTranslation → Option TaskResult → Bool
plans drawing approval (some (TaskResult.translation d (TranslationResponse.plan plan))) =
    d == drawing && approves approval plan
plans drawing approval _ = false

-- Both tests of an approval's plan, which raise the same error; the clock is read where the first
-- of them reads it.
abbrev pub check_approval :
    {S : Type 0}
    → Option Instant
    → WorkstationId
    → DrawingId
    → ApplyTranslation
    → OperationRecord
    → Exec Error S (Unit {0})
check_approval reading workstation drawing approval r = do
  raise_if (not (is_succeeded r.state)) (gateway_error GatewayCode.translation_approval_invalid)
  now ← now_of reading
  raise_if
      (leb r.expires_at now
        || (not (r.workstation_id == workstation) || not (plans drawing approval r.result)))
      (gateway_error GatewayCode.translation_approval_invalid)

-- `isinstance(record.task, TranslationTask)`
abbrev pub is_translation : ReadTask → Bool
is_translation (ReadTask.translation d r) = true
is_translation _ = false

module _ {S : Type 0} (g : GatewayService S) where
  unfoldable pub list_workstations : PrincipalContext → Exec Error S (List WorkstationSummary)
  list_workstations principal = do
    require_scope principal Scope.read
    records ← g.catalog.list_workstations principal.tenant_id principal.subject_id
    pure (map workstation_summary records)

  abbrev select_workstation :
      PrincipalContext → Option WorkstationId → Exec Error S (Option WorkstationId)
  select_workstation principal none = pure none
  select_workstation principal (some id) = do
    w ← require_workstation g principal id false
    pure (some w.workstation_id)

  unfoldable pub list_projects :
      PrincipalContext → Option WorkstationId → Exec Error S (List ProjectSummary)
  list_projects principal workstation = do
    require_scope principal Scope.read
    selected ← select_workstation principal workstation
    records ← g.catalog.list_projects principal.tenant_id principal.subject_id selected
    pure (map project_summary records)

  -- The record that `_enqueue` makes, with a fresh identifier.
  abbrev pub new_operation :
      PrincipalContext
      → WorkstationId
      → IdempotencyKey
      → ReadTask
      → OperationId
      → Instant
      → OperationRecord
  new_operation principal workstation key task fresh now = record {
    operation_id = fresh;
    tenant_id = principal.tenant_id;
    owner_subject_id = principal.subject_id;
    client_id = principal.client_id;
    workstation_id = workstation;
    idempotency_key = key;
    request_fingerprint = g.digests.fingerprint workstation task;
    task = task;
    state = OperationState.created;
    created_at = now;
    expires_at = now + g.operation_ttl;
    lease_expires_at = none;
    started_at = none;
    completed_at = none;
    result = none;
    error_code = none;
  }

  unfoldable pub enqueue :
      Option Instant
      → OperationId
      → PrincipalContext
      → WorkstationRecord
      → IdempotencyKey
      → ReadTask
      → Exec Error S OperationView
  enqueue reading fresh principal workstation key task = do
    now ← now_of reading
    outcome ← catch_enqueue (
        g.operations.create_or_get_operation
          (new_operation principal workstation.workstation_id key task fresh now))
    created_view outcome

  unfoldable pub enqueue_validate_environment :
      Option Instant
      → OperationId
      → PrincipalContext
      → WorkstationId
      → IdempotencyKey
      → Exec Error S OperationView
  enqueue_validate_environment reading fresh principal id key = do
    require_scope principal Scope.read
    w ← require_workstation g principal id true
    enqueue reading fresh principal w key (ReadTask.validate_environment w.workstation_id)

  unfoldable pub enqueue_list_projects :
      Option Instant
      → OperationId
      → PrincipalContext
      → WorkstationId
      → IdempotencyKey
      → Exec Error S OperationView
  enqueue_list_projects reading fresh principal id key = do
    require_scope principal Scope.read
    w ← require_workstation g principal id true
    enqueue reading fresh principal w key (ReadTask.list_projects w.workstation_id)

  unfoldable pub enqueue_scan_drawings :
      Option Instant
      → OperationId
      → PrincipalContext
      → ScanDrawingsRequest
      → Exec Error S OperationView
  enqueue_scan_drawings reading fresh principal q = do
    require_scope principal Scope.read
    both ← require_project g principal q.project_id true
    enqueue reading fresh principal both.1 q.idempotency_key
        (ReadTask.scan_drawings both.0.project_id q.recursive q.limit)

  unfoldable pub enqueue_inspect_drawing :
      Option Instant
      → OperationId
      → PrincipalContext
      → DrawingId
      → IdempotencyKey
      → Exec Error S OperationView
  enqueue_inspect_drawing reading fresh principal id key = do
    require_scope principal Scope.read
    both ← require_drawing g principal id true
    enqueue reading fresh principal both.1 key (ReadTask.inspect_drawing both.0.drawing_id)

  unfoldable pub enqueue_create_publish_plan :
      Option Instant
      → OperationId
      → PrincipalContext
      → DrawingId
      → IdempotencyKey
      → Exec Error S OperationView
  enqueue_create_publish_plan reading fresh principal id key = do
    require_scope principal Scope.read
    both ← require_drawing g principal id true
    enqueue reading fresh principal both.1 key (ReadTask.create_publish_plan both.0.drawing_id)

  -- The key of an `apply` is made of what it approves, once the approval is checked.
  abbrev pub translation_key :
      Option Instant
      → PrincipalContext
      → WorkstationRecord
      → DrawingRecord
      → IdempotencyKey
      → TranslationRequest
      → Exec Error S IdempotencyKey
  translation_key reading principal w d key (TranslationRequest.apply approval) = do
    found ← g.operations.get_operation approval.plan_operation_id
    planned ← require_operation_owner principal found
    check_approval reading w.workstation_id d.drawing_id approval planned
    pure (g.digests.approval_key d.drawing_id approval.approved_plan_id)
  translation_key reading principal w d key _ = pure key

  -- The clock is read for the approval and again for the new operation.
  unfoldable pub enqueue_translation :
      Option Instant
      → Option Instant
      → OperationId
      → PrincipalContext
      → TranslationEnqueueRequest
      → Exec Error S OperationView
  enqueue_translation first second fresh principal q = do
    require_scope principal Scope.translate
    require_scope principal Scope.read
    raise_if (ltb (200 * 1024) (g.digests.request_size q))
        (gateway_error GatewayCode.translation_batch_too_large)
    both ← require_drawing g principal q.drawing_id true
    key ← translation_key first principal both.1 both.0 q.idempotency_key q.request
    enqueue second fresh principal both.1 key (ReadTask.translation both.0.drawing_id q.request)

  unfoldable pub get_operation :
      Option Instant → PrincipalContext → OperationId → Exec Error S OperationView
  get_operation reading principal id = do
    require_scope principal Scope.read
    found ← g.operations.get_operation id
    r ← require_operation_owner principal found
    raise_if (is_translation r.task && not (principal.scopes Scope.translate))
        (gateway_error GatewayCode.forbidden)
    now ← now_of reading
    refreshed ← g.operations.refresh_operation id now
    q ← require_operation_owner principal refreshed
    pure (view_of q)
