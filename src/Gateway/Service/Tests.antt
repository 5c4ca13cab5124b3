-- ===== src/Gateway/Service/Tests.antt =====
-- Each theorem on a user's methods at a small store.
use cadplot_mcp.Prelude.{◌≡◌, refl, true, not, ◌&&◌, none, some, [], ◌∷◌, arith, if◌then◌else◌}
use cadplot_mcp.Prelude.Classes.{nat_eq}
use cadplot_mcp.Prelude.Results.{ok, err}
use cadplot_mcp.Prelude.Dicts.{lookup, insert}
use cadplot_mcp.Protocol.Translation.{TranslationRequest, PlanResult, TranslationResponse}
use cadplot_mcp.Gateway.Errors.{GatewayCode, gateway_error}
use cadplot_mcp.Gateway.Models.{
  Scope, OperationState, ReadTask, TaskResult, OperationRecord, view_of,
}
use cadplot_mcp.Gateway.Operation.Shape.{refreshed}
use cadplot_mcp.Gateway.Repository.{
  Repository, empty, request_key, request_key_eq, set_operation, get_workstation, get_project,
  get_drawing,
}
use cadplot_mcp.Gateway.Repository.Operations as Store
use cadplot_mcp.Gateway.Repository.History.{Call, step, here, next, Later}
use cadplot_mcp.Gateway.Repository.Invariant.{IsValid}
use cadplot_mcp.Gateway.Repository.Samples.{
  device, project, drawing, waiting, store_of, store_of-IsValid, waiting-IsShaped,
}
use cadplot_mcp.Gateway.Service.{require_workstation, require_project, require_drawing}
use cadplot_mcp.Gateway.Service.Enqueue.{
  list_workstations, list_projects, enqueue, enqueue_validate_environment, enqueue_list_projects,
  enqueue_scan_drawings, enqueue_inspect_drawing, enqueue_create_publish_plan, enqueue_translation,
  get_operation, is_translation, new_operation,
}
use cadplot_mcp.Gateway.Service.Access.{
  asked, forbidden, forbidden_translation, get_operation_outcome,
}
use cadplot_mcp.Gateway.Service.Approval.{Approved, enqueue_translation-Approved}
use cadplot_mcp.Gateway.Service.Once.{enqueued_again}
use cadplot_mcp.Gateway.Service.Samples.{digests, service, user, guest, scan, approval, changes}

forbidden_example :
    (list_workstations service guest empty ≡ (err (gateway_error GatewayCode.forbidden), empty))
    × (list_projects service guest none empty ≡ (err (gateway_error GatewayCode.forbidden), empty))
    × (enqueue_validate_environment service (some 5) 2 guest 1 3 empty
        ≡ (err (gateway_error GatewayCode.forbidden), empty))
    × (enqueue_list_projects service (some 5) 2 guest 1 3 empty
        ≡ (err (gateway_error GatewayCode.forbidden), empty))
    × (enqueue_scan_drawings service (some 5) 2 guest scan empty
        ≡ (err (gateway_error GatewayCode.forbidden), empty))
    × (enqueue_inspect_drawing service (some 5) 2 guest 6 3 empty
        ≡ (err (gateway_error GatewayCode.forbidden), empty))
    × (enqueue_create_publish_plan service (some 5) 2 guest 6 3 empty
        ≡ (err (gateway_error GatewayCode.forbidden), empty))
    × (get_operation service (some 5) guest 2 empty
        ≡ (err (gateway_error GatewayCode.forbidden), empty))
forbidden_example = forbidden service guest empty (some 5) (some 6) 2 1 6 3 none scan refl

forbidden_translation_example :
    enqueue_translation service (some 5) (some 6) 2 guest changes empty
    ≡ (err (gateway_error GatewayCode.forbidden), empty)
forbidden_translation_example =
    forbidden_translation service guest empty (some 5) (some 6) 2 changes refl

waiting_found : lookup 1 (store_of waiting).operations ≡ some waiting
unfolding lookup
waiting_found = refl

get_operation_outcome_example :
    get_operation service (some 200) user 1 (store_of waiting)
    ≡ elim (lookup 1 (store_of waiting).operations) [
      | none ↦ (err (gateway_error GatewayCode.not_found), store_of waiting)
      | some r ↦
          if not (asked user r)
          then (err (gateway_error GatewayCode.not_found), store_of waiting)
          else if is_translation r.task && not (user.scopes Scope.translate)
          then (err (gateway_error GatewayCode.forbidden), store_of waiting)
          else (
            ok (view_of (refreshed r 200)),
            set_operation 1 (refreshed r 200) (store_of waiting),
          )
    ]
get_operation_outcome_example =
    get_operation_outcome 900_000_000 digests (store_of waiting) user 1 200
      (store_of-IsValid waiting waiting-IsShaped) refl

-- A plan that has succeeded, for the drawing of a project on the device.
abbrev plan : PlanResult
plan = record {
  inventory_id = 11;
  review_id = 12;
  plan_id = 13;
  ready = true;
  changed_records = 4;
  reviewed_spans = 4;
  offset = 0;
  next_offset = none;
  changes = [];
  blocker_count = 0;
  blocker_codes = [];
}

abbrev planned : OperationRecord
planned = record waiting {
  task = ReadTask.translation 6 (
      TranslationRequest.plan
        (record { inventory_id = 11; review_id = 12; offset = 0; limit = 10 }));
  state = OperationState.succeeded;
  started_at = some 200;
  completed_at = some 250;
  result = some (TaskResult.translation 6 (TranslationResponse.plan plan));
}

abbrev site : Repository
site = record (store_of planned) { projects = (5, project) ∷ []; drawings = (6, drawing) ∷ [] }

abbrev changing : OperationRecord
changing = new_operation service user 1 7 (ReadTask.translation 6 changes.request) 2 310

abbrev site_changing : Repository
site_changing = record site {
  operations = (1, planned) ∷ (2, changing) ∷ [];
  idempotency = (request_key planned, 1) ∷ (request_key changing, 2) ∷ [];
}

accepted :
    enqueue_translation service (some 300) (some 310) 2 user changes site
    ≡ (ok (view_of changing), site_changing)
unfolding enqueue_translation require_drawing require_project require_workstation get_drawing
    get_project get_workstation enqueue Store.get_operation Store.create_or_get_operation lookup
    insert
accepted = refl

enqueue_translation-Approved_example :
    Approved 900_000_000 digests
      (some 300)
      (some 310)
      2
      user
      site
      site_changing
      changes
      approval
      (view_of changing)
enqueue_translation-Approved_example =
    enqueue_translation-Approved 900_000_000 digests (some 300) (some 310) 2 user site site_changing
      changes approval (view_of changing) refl accepted

empty-IsValid : IsValid empty
unfolding lookup
empty-IsValid = record {
  distinct = tt;
  shaped = tt;
  exclusive = λ i j r q e f rivals. cc;
  indexed = λ k id e. absurd cc;
}

abbrev enqueued : Repository
enqueued = (enqueue service (some 100) 1 user device 1 (ReadTask.list_projects 1) empty).1

no_operation : lookup 1 empty.operations ≡ none
unfolding lookup
no_operation = refl

no_request :
    lookup
      (request_key (new_operation service user 1 1 (ReadTask.list_projects 1) 1 100))
      empty.idempotency
    ≡ none
unfolding lookup
no_request = refl

enqueued_again_example :
    (q : OperationRecord) × (lookup 1 (step enqueued (Call.lease 1 1 1 200 300)).operations
      ≡ some q)
    × Later (new_operation service user 1 1 (ReadTask.list_projects 1) 1 100) q
    × (enqueue service
          (some 400)
          2
          user
          device
          1
          (ReadTask.list_projects 1)
          (step enqueued (Call.lease 1 1 1 200 300))
        ≡ (ok (view_of q), step enqueued (Call.lease 1 1 1 200 300)))
enqueued_again_example =
    enqueued_again 900_000_000 (omega arith) digests user device 1 (ReadTask.list_projects 1) 1 100
      empty empty-IsValid no_operation no_request (next here (Call.lease 1 1 1 200 300) tt refl)
      (ReadTask.list_projects 1) 2 400
