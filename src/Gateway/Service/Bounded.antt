-- ===== src/Gateway/Service/Bounded.antt =====
-- What the service's checks of a worker's success raise, over the in-memory repository.
use cadplot_mcp.Prelude.{
  ℕ, refl, ◌==◌, Bool, false, not, ◌||◌, Option, none, some, List, [], ◌∷◌, arith, any, Bool-cases,
  inl, inr, is_empty,
}
use cadplot_mcp.Prelude.Classes.{nat_eq}
use cadplot_mcp.Prelude.Results.{
  Exec, pure, raise_if, ◌>>◌, RaisesOnly, RaisesOnly-bind, RaisesOnly-raise_if, RaisesOnly-pure,
  RaisesOnly-raise,
}
use cadplot_mcp.Prelude.Dicts.{lookup}
use cadplot_mcp.Gateway.Errors.{GatewayCode, Error, gateway_error}
use cadplot_mcp.Gateway.Models.{
  OperationId, ProjectId, DrawingId, WorkerContext, TaskResult, WorkstationRecord, ProjectRecord,
  DrawingRecord, OperationRecord, task_command, result_command,
}
use cadplot_mcp.Gateway.Operation.{same_command}
use cadplot_mcp.Gateway.Repository.{Repository, get_workstation, get_project, get_drawing}
use cadplot_mcp.Gateway.Repository.Operations.{get_operation}
use cadplot_mcp.Gateway.Repository.Application.{scans_project}
use cadplot_mcp.Gateway.Service.{
  Digests, GatewayService, check_worker_workstation, check_worker_operation,
  require_worker_workstation, require_worker_operation,
}
use cadplot_mcp.Gateway.Service.Bindings.{
  invalid_result, require_listed, require_scanned, require_bound, require_rows, project_unbound,
  drawing_unbound, validate_result_binding, validate_worker_application, project_foreign_to,
  drawing_foreign_to,
}
use cadplot_mcp.Gateway.Service.InMemory.{in_memory}
use cadplot_mcp.Gateway.Service.Errors.{IsGateway}

abbrev pub Bounded : {A : Type 0} → Exec Error Repository A → Type 0
Bounded m = RaisesOnly IsGateway m

pub guard : (b : Bool) (code : GatewayCode) → Bounded (raise_if b (gateway_error code))
guard b code = RaisesOnly-raise_if IsGateway b (gateway_error code) (code, refl)

pub guard_result : (b : Bool) → Bounded (raise_if b invalid_result)
guard_result b = guard b GatewayCode.invalid_result

module _ (ttl : ℕ) (digests : Digests) where
  abbrev service : GatewayService Repository
  service = in_memory ttl digests

  pub worker_workstation-Bounded :
      (worker : WorkerContext) → Bounded (require_worker_workstation service worker false)
  unfolding require_worker_workstation get_workstation
  worker_workstation-Bounded worker s = of (lookup worker.workstation_id s.workstations) s
    where
      of : (o : Option WorkstationRecord) → Bounded (check_worker_workstation worker false o)
      of none =
          RaisesOnly-raise IsGateway (gateway_error GatewayCode.not_found)
            (GatewayCode.not_found, refl)
      of (some w) =
          RaisesOnly-bind IsGateway
            (raise_if (not w.enabled || not (w.tenant_id == worker.tenant_id))
              (gateway_error GatewayCode.not_found))
            (λ _. raise_if false (gateway_error GatewayCode.workstation_offline) >> pure w)
            (guard _ GatewayCode.not_found) (λ _ s e t h. absurd cc)

  pub worker_operation-Bounded :
      (worker : WorkerContext) (id : OperationId)
      → Bounded (require_worker_operation service worker id)
  unfolding require_worker_operation get_operation
  worker_operation-Bounded worker id s = of (lookup id s.operations) s
    where
      of : (o : Option OperationRecord) → Bounded (check_worker_operation worker o)
      of none s e t h =
          RaisesOnly-raise IsGateway (gateway_error GatewayCode.not_found)
            (GatewayCode.not_found, refl) s e t h
      of (some r) s e t h =
          elim (Bool-cases (
            not (r.tenant_id == worker.tenant_id)
            || not (r.workstation_id == worker.workstation_id))) [
              | inl foreign ↦ (GatewayCode.not_found, ground (arith, h, foreign))
              | inr mine ↦ absurd (ground (arith, h, mine))
            ]

  listed-Bounded :
      (r : OperationRecord) (ids : List ProjectId) → Bounded (require_listed service r ids)
  unfolding require_listed get_project
  listed-Bounded r [] s = RaisesOnly-pure IsGateway tt s
  listed-Bounded r (id ∷ ids) s =
      RaisesOnly-bind IsGateway (raise_if (project_unbound r (lookup id s.projects)) invalid_result)
        (λ _. require_listed service r ids) (guard_result _) (λ _. listed-Bounded r ids) s

  scanned-Bounded :
      (r : OperationRecord) (project : ProjectId) (ids : List DrawingId)
      → Bounded (require_scanned service r project ids)
  unfolding require_scanned get_drawing
  scanned-Bounded r project [] s = RaisesOnly-pure IsGateway tt s
  scanned-Bounded r project (id ∷ ids) s =
      RaisesOnly-bind IsGateway
        (raise_if (drawing_unbound r project (lookup id s.drawings)) invalid_result)
        (λ _. require_scanned service r project ids) (guard_result _)
        (λ _. scanned-Bounded r project ids) s

  bound-Bounded :
      (r : OperationRecord) (result : TaskResult) → Bounded (require_bound service r result)
  bound-Bounded r (TaskResult.validate_environment ready codes) = RaisesOnly-pure IsGateway tt
  bound-Bounded r (TaskResult.list_projects ids) = listed-Bounded r ids
  bound-Bounded r (TaskResult.scan_drawings x) =
      RaisesOnly-bind IsGateway (raise_if (not (scans_project x.project_id r.task)) invalid_result)
        (λ _. require_scanned service r x.project_id x.drawing_ids) (guard_result _)
        (λ _. scanned-Bounded r x.project_id x.drawing_ids)
  bound-Bounded r (TaskResult.inspect_drawing x) = guard_result _
  bound-Bounded r (TaskResult.create_publish_plan x) = guard_result _
  bound-Bounded r (TaskResult.translation d x) = guard_result _

  binding-Bounded :
      (r : OperationRecord) (result : TaskResult)
      → Bounded (validate_result_binding service r result)
  unfolding validate_result_binding
  binding-Bounded r result =
      RaisesOnly-bind IsGateway
        (raise_if (not (same_command (result_command result) (task_command r.task))) invalid_result)
        (λ _. require_bound service r result) (guard_result _) (λ _. bound-Bounded r result)

  module _ (projects : List ProjectRecord) (drawings : List DrawingRecord) where
    bare-Bounded :
        (r : OperationRecord) (result : TaskResult)
        → Bounded (
            raise_if (not (is_empty projects) || not (is_empty drawings)) invalid_result
            >> validate_result_binding service r result)
    bare-Bounded r result =
        RaisesOnly-bind IsGateway
          (raise_if (not (is_empty projects) || not (is_empty drawings)) invalid_result)
          (λ _. validate_result_binding service r result) (guard_result _)
          (λ _. binding-Bounded r result)

    rows-Bounded :
        (r : OperationRecord) (result : TaskResult)
        → Bounded (require_rows service r result projects drawings)
    rows-Bounded r (TaskResult.list_projects ids) = guard_result _
    rows-Bounded r (TaskResult.scan_drawings x) = guard_result _
    rows-Bounded r (TaskResult.validate_environment ready codes) =
        bare-Bounded r (TaskResult.validate_environment ready codes)
    rows-Bounded r (TaskResult.inspect_drawing x) = bare-Bounded r (TaskResult.inspect_drawing x)
    rows-Bounded r (TaskResult.create_publish_plan x) =
        bare-Bounded r (TaskResult.create_publish_plan x)
    rows-Bounded r (TaskResult.translation d x) = bare-Bounded r (TaskResult.translation d x)

    pub application-Bounded :
        (r : OperationRecord) (result : TaskResult)
        → Bounded (validate_worker_application service r result projects drawings)
    unfolding validate_worker_application
    application-Bounded r result =
        RaisesOnly-bind IsGateway
          (raise_if (any (project_foreign_to r) projects || any (drawing_foreign_to r) drawings)
            invalid_result)
          (λ _. require_rows service r result projects drawings) (guard_result _)
          (λ _. rows-Bounded r result)
