-- ===== src/Gateway/Service/WorkerTests.antt =====
-- Each theorem on a worker's methods at a small store.
use cadplot_mcp.Prelude.{
  All, String, ℕ, ◌≡◌, ◌≤◌, refl, sym, subst, true, false, Option, none, some, [], ◌∷◌, arith, any,
  keep,
}
use cadplot_mcp.Prelude.Classes.{nat_eq, is_distinct, list_beq, contains}
use cadplot_mcp.Prelude.Results.{ok, err}
use cadplot_mcp.Prelude.Dicts.{lookup, insert}
use cadplot_mcp.Gateway.Errors.{GatewayCode, gateway_error}
use cadplot_mcp.Gateway.Models.{
  OperationState, ReadTask, TaskResult, OperationRecord, view_of, WorkerLease, task_command,
  result_command,
}
use cadplot_mcp.Gateway.Models.Bounds.{is_safe_code, result_in_bounds}
use cadplot_mcp.Gateway.Operation.{validate_record, updated, refresh_due}
use cadplot_mcp.Gateway.Operation.Shape.{IsShaped}
use cadplot_mcp.Gateway.Repository.{Repository, request_key_eq, set_operation, get_workstation}
use cadplot_mcp.Gateway.Repository.Operations as Store
use cadplot_mcp.Gateway.Repository.Workers as Ends
use cadplot_mcp.Gateway.Repository.Workers.{completed_record}
use cadplot_mcp.Gateway.Repository.Application.{bad_payload}
use cadplot_mcp.Gateway.Repository.Samples.{
  device, project, waiting, running, answer, store_of, store_of-IsValid, waiting-IsShaped,
}
use cadplot_mcp.Gateway.Service.{
  require_worker_workstation, require_worker_operation, sanitize_worker_error,
}
use cadplot_mcp.Gateway.Service.Bindings.{validate_result_binding, validate_worker_application}
use cadplot_mcp.Gateway.Service.Worker.{
  worker_lease, worker_complete, worker_fail, worker_failure_needs_application,
  worker_apply_success,
}
use cadplot_mcp.Gateway.Service.Retries.{worker_complete_again}
use cadplot_mcp.Gateway.Service.Failures.{IsReported, worker_fail_stores, worker_fail_again}
use cadplot_mcp.Gateway.Service.Leases.{Offered, Ready, worker_lease_offers}
use cadplot_mcp.Gateway.Service.Applications.{ProjectOf, DrawingOf, application_checked}
use cadplot_mcp.Gateway.Service.Reports.{worker_apply_success-Bounded}
use cadplot_mcp.Gateway.Service.Samples.{digests, service, worker}

-- A running validation of the environment, and its end.
abbrev checking : OperationRecord
checking = record running { task = ReadTask.validate_environment 1 }

checking-IsShaped : IsShaped checking
unfolding validate_record
checking-IsShaped = refl

abbrev ready : TaskResult
ready = TaskResult.validate_environment true []

abbrev checked : OperationRecord
checked = completed_record checking OperationState.succeeded 250 (some ready) none

completes :
    worker_complete service (some 250) worker 1 ready (store_of checking)
    ≡ (ok (view_of checked), set_operation 1 checked (store_of checking))
unfolding worker_complete require_worker_workstation require_worker_operation get_workstation
    Store.get_operation Ends.finish_operation lookup insert result_in_bounds validate_result_binding
    refresh_due updated
completes = refl

worker_complete_again_example :
    worker_complete service (some 900) worker 1 ready (set_operation 1 checked (store_of checking))
    ≡ (ok (view_of checked), set_operation 1 checked (store_of checking))
worker_complete_again_example =
    worker_complete_again 900_000_000 digests (store_of checking)
      (set_operation 1 checked (store_of checking)) (store_of-IsValid checking checking-IsShaped)
      worker 1 ready (some 250) (some 900) (view_of checked) completes

abbrev broken : OperationRecord
broken = completed_record checking OperationState.failed 250 none (some "worker_failure")

fails :
    worker_fail service (some 250) worker 1 "boom" false (store_of checking)
    ≡ (ok (view_of broken), set_operation 1 broken (store_of checking))
unfolding worker_fail require_worker_workstation require_worker_operation get_workstation
    Store.get_operation Ends.finish_operation lookup insert refresh_due updated
    sanitize_worker_error is_safe_code
fails = refl

worker_fail_again_example :
    (worker_fail service
        (some 900)
        worker
        1
        "boom"
        false
        (set_operation 1 broken (store_of checking))
      ≡ (ok (view_of broken), set_operation 1 broken (store_of checking)))
    × (worker_failure_needs_application service worker 1 "boom" false
          (set_operation 1 broken (store_of checking))
        ≡ (ok false, set_operation 1 broken (store_of checking)))
worker_fail_again_example =
    worker_fail_again 900_000_000 digests (store_of checking)
      (set_operation 1 broken (store_of checking)) (store_of-IsValid checking checking-IsShaped)
      worker 1 "boom" false (some 250) (some 900) (view_of broken) fails

worker_fail_stores_example :
    (q : OperationRecord) × (c : String) × (lookup 1
        (set_operation 1 broken (store_of checking)).operations
      ≡ some q)
    × (q.error_code ≡ some c)
    × (view_of broken ≡ view_of q)
    × IsReported "boom" false c
worker_fail_stores_example =
    worker_fail_stores 900_000_000 digests (store_of checking)
      (set_operation 1 broken (store_of checking)) (store_of-IsValid checking checking-IsShaped)
      worker 1 "boom" false (some 250) (view_of broken) fails

device-Ready : Ready 900_000_000 digests worker 1 30 200 (store_of waiting) device
unfolding lookup
device-Ready = record {
  found = refl;
  enabled = refl;
  online = refl;
  tenant = refl;
  owner_is = refl;
}

only_waiting :
    (id : ℕ) (r : OperationRecord)
    → lookup id (store_of waiting).operations ≡ some r
    → r.created_at ≤ 200
unfolding lookup
only_waiting id r e =
    let same : r ≡ waiting = ground arith in
    subst (λ x. x.created_at ≤ 200) (sym same) (omega arith)

worker_lease_offers_example :
    (o : Option WorkerLease) × (t : Repository) × (worker_lease service
        (some 200)
        worker
        1
        30
        (store_of waiting)
      ≡ (ok o, t))
    × Offered 900_000_000 digests worker 1 30 200 (store_of waiting) o
worker_lease_offers_example =
    worker_lease_offers 900_000_000 digests worker 1 30 200 (store_of waiting)
      (store_of-IsValid waiting waiting-IsShaped) device device-Ready (omega arith) (omega arith)
      only_waiting

rows_pass :
    validate_worker_application service running answer (project ∷ []) [] (store_of running)
    ≡ (ok tt, store_of running)
unfolding validate_worker_application any keep is_distinct list_beq contains
rows_pass = refl

application_checked_example :
    All (ProjectOf running) (project ∷ [])
    × All (DrawingOf running) []
    × (result_command answer ≡ task_command running.task)
    × (bad_payload running answer (project ∷ []) [] ≡ false)
application_checked_example =
    application_checked service running (project ∷ []) [] answer (store_of running)
      (store_of running) tt rows_pass

unknown_workstation :
    worker_apply_success service
      (some 250)
      (record { tenant_id = 1; workstation_id = 9 })
      1
      answer
      []
      []
      (store_of running)
    ≡ (err (gateway_error GatewayCode.not_found), store_of running)
unfolding worker_apply_success require_worker_workstation get_workstation lookup
unknown_workstation = refl

worker_apply_success-Bounded_example :
    (code : GatewayCode) × (gateway_error GatewayCode.not_found ≡ gateway_error code)
worker_apply_success-Bounded_example =
    worker_apply_success-Bounded 900_000_000 digests (some 250)
      (record { tenant_id = 1; workstation_id = 9 }) 1 answer [] [] (store_of running)
      (store_of running) (gateway_error GatewayCode.not_found) unknown_workstation
