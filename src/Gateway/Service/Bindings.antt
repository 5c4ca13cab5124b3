-- ===== src/Gateway/Service/Bindings.antt =====
-- service.py, `GatewayService`: whether a worker's result, and the catalog rows that come with it,
-- answer the operation's task.
use cadplot_mcp.Prelude.{
  Bool, true, false, not, ◌&&◌, ◌||◌, Option, none, some, List, [], ◌∷◌, map, ◌==◌, any, keep,
  is_empty,
}
use cadplot_mcp.Prelude.Classes.{nat_eq, is_distinct, list_beq}
use cadplot_mcp.Prelude.Results.{Result, ok, err, Exec, pure, raise_if, ◌>>=◌, ◌>>◌}
use cadplot_mcp.Protocol.Translation.{Mismatch, TranslationResponse, require_matching_result}
use cadplot_mcp.Gateway.Errors.{GatewayCode, Error, gateway_error}
use cadplot_mcp.Gateway.Models.{
  ProjectId, DrawingId, ReadTask, TaskResult, ScanDrawingsResult, ProjectRecord, DrawingRecord,
  OperationRecord, task_command, result_command,
}
use cadplot_mcp.Gateway.Operation.{same_command}
use cadplot_mcp.Gateway.Repository.Application.{lists_own_projects, scans_project}
use cadplot_mcp.Gateway.Service.{GatewayService}

abbrev pub invalid_result : Error
invalid_result = gateway_error GatewayCode.invalid_result

-- The tests of a listed project and of a scanned drawing, as the catalog has them.
abbrev pub project_unbound : OperationRecord → Option ProjectRecord → Bool
project_unbound operation none = true
project_unbound operation (some p) =
    not p.enabled
    || (not (p.tenant_id == operation.tenant_id)
        || (not (p.owner_subject_id == operation.owner_subject_id)
            || not (p.workstation_id == operation.workstation_id)))

abbrev pub drawing_unbound : OperationRecord → ProjectId → Option DrawingRecord → Bool
drawing_unbound operation project none = true
drawing_unbound operation project (some d) =
    (not d.enabled || not (d.tenant_id == operation.tenant_id))
    || (not (d.owner_subject_id == operation.owner_subject_id)
        || (not (d.workstation_id == operation.workstation_id) || not (d.project_id == project)))

-- The task is about this drawing: an inspection, a plan, a translation.
abbrev pub inspects : DrawingId → ReadTask → Bool
inspects drawing (ReadTask.inspect_drawing d) = drawing == d
inspects drawing _ = false

abbrev pub plans_publishing : DrawingId → ReadTask → Bool
plans_publishing drawing (ReadTask.create_publish_plan d) = drawing == d
plans_publishing drawing _ = false

-- The call of `require_matching_result`, whose `ValueError` is an invalid result.
abbrev pub matching : Result Mismatch (Unit {0}) → Bool
matching (ok _) = true
matching (err _) = false

abbrev pub translates : DrawingId → TranslationResponse → ReadTask → Bool
translates drawing response (ReadTask.translation d request) =
    drawing == d && matching (require_matching_result request response)
translates drawing response _ = false

-- The rows of one operation: its tenant, owner and workstation.
abbrev pub project_foreign_to : OperationRecord → ProjectRecord → Bool
project_foreign_to operation p =
    not (p.tenant_id == operation.tenant_id)
    || (not (p.owner_subject_id == operation.owner_subject_id)
        || not (p.workstation_id == operation.workstation_id))

abbrev pub drawing_foreign_to : OperationRecord → DrawingRecord → Bool
drawing_foreign_to operation d =
    not (d.tenant_id == operation.tenant_id)
    || (not (d.owner_subject_id == operation.owner_subject_id)
        || not (d.workstation_id == operation.workstation_id))

-- `isinstance(task, ListProjectsTask) and task.workstation_id == operation.workstation_id`
abbrev pub asks_projects : OperationRecord → ReadTask → Bool
asks_projects operation (ReadTask.list_projects w) = w == operation.workstation_id
asks_projects operation _ = false

-- `isinstance(task, ScanDrawingsTask) and result.project_id == task.project_id`
abbrev pub asks_drawings : ProjectId → ReadTask → Bool
asks_drawings project (ReadTask.scan_drawings p r l) = project == p
asks_drawings project _ = false

-- The rows that come with a list of projects: the enabled ones are the listed ones.
unfoldable pub misreports_projects :
    OperationRecord → List ProjectId → List ProjectRecord → List DrawingRecord → Bool
unfolding is_distinct list_beq keep
misreports_projects operation listed projects drawings =
    not (asks_projects operation operation.task)
    || (not (is_empty drawings)
        || (not (is_distinct (map (λ (p : ProjectRecord). p.project_id) projects))
            || not (
                list_beq
                  (map (λ (p : ProjectRecord). p.project_id)
                    (keep (λ (p : ProjectRecord). p.enabled) projects))
                  listed)))

-- The rows that come with a scan of a project: all of them are the scanned ones.
unfoldable pub misreports_drawings :
    OperationRecord → ScanDrawingsResult → List ProjectRecord → List DrawingRecord → Bool
unfolding is_distinct list_beq any
misreports_drawings operation scanned projects drawings =
    not (asks_drawings scanned.project_id operation.task)
    || (not (is_empty projects)
        || (not (is_distinct (map (λ (d : DrawingRecord). d.drawing_id) drawings))
            || (not (
                  list_beq (map (λ (d : DrawingRecord). d.drawing_id) drawings) scanned.drawing_ids)
                || any (λ (d : DrawingRecord). not (d.project_id == scanned.project_id)) drawings)))

module _ {S : Type 0} (g : GatewayService S) where
  -- The two loops of `_validate_result_binding`, which read the catalog.
  unfoldable pub require_listed : OperationRecord → List ProjectId → Exec Error S (Unit {0})
  require_listed operation [] = pure tt
  require_listed operation (id ∷ ids) = do
    found ← g.catalog.get_project id
    raise_if (project_unbound operation found) invalid_result
    require_listed operation ids

  unfoldable pub require_scanned :
      OperationRecord → ProjectId → List DrawingId → Exec Error S (Unit {0})
  require_scanned operation project [] = pure tt
  require_scanned operation project (id ∷ ids) = do
    found ← g.catalog.get_drawing id
    raise_if (drawing_unbound operation project found) invalid_result
    require_scanned operation project ids

  abbrev pub require_bound : OperationRecord → TaskResult → Exec Error S (Unit {0})
  require_bound operation (TaskResult.validate_environment ready codes) = pure tt
  require_bound operation (TaskResult.list_projects ids) = require_listed operation ids
  require_bound operation (TaskResult.scan_drawings r) =
      raise_if (not (scans_project r.project_id operation.task)) invalid_result
      >> require_scanned operation r.project_id r.drawing_ids
  require_bound operation (TaskResult.inspect_drawing r) =
      raise_if (not (inspects r.drawing_id operation.task)) invalid_result
  require_bound operation (TaskResult.create_publish_plan r) =
      raise_if (not (plans_publishing r.drawing_id operation.task)) invalid_result
  require_bound operation (TaskResult.translation drawing response) =
      raise_if (not (translates drawing response operation.task)) invalid_result

  -- `_validate_result_binding`
  unfoldable pub validate_result_binding : OperationRecord → TaskResult → Exec Error S (Unit {0})
  unfolding require_matching_result task_command result_command
  validate_result_binding operation result = do
    raise_if (not (same_command (result_command result) (task_command operation.task)))
        invalid_result
    require_bound operation result

  abbrev pub require_task : OperationRecord → TaskResult → Exec Error S (Unit {0})
  require_task operation (TaskResult.list_projects ids) =
      raise_if (not (lists_own_projects operation operation.task)) invalid_result
  require_task operation (TaskResult.scan_drawings r) =
      raise_if (not (scans_project r.project_id operation.task)) invalid_result
  require_task operation result = validate_result_binding operation result

  -- `_validate_preapplication_result_binding`
  unfoldable pub validate_preapplication_result_binding :
      OperationRecord → TaskResult → Exec Error S (Unit {0})
  unfolding task_command result_command
  validate_preapplication_result_binding operation result = do
    raise_if (not (same_command (result_command result) (task_command operation.task)))
        invalid_result
    require_task operation result

  abbrev pub require_rows :
      OperationRecord
      → TaskResult
      → List ProjectRecord
      → List DrawingRecord
      → Exec Error S (Unit {0})
  require_rows operation (TaskResult.list_projects ids) projects drawings =
      raise_if (misreports_projects operation ids projects drawings) invalid_result
  require_rows operation (TaskResult.scan_drawings r) projects drawings =
      raise_if (misreports_drawings operation r projects drawings) invalid_result
  require_rows operation result projects drawings =
      raise_if (not (is_empty projects) || not (is_empty drawings)) invalid_result
      >> validate_result_binding operation result

  -- `_validate_worker_application`
  unfoldable pub validate_worker_application :
      OperationRecord
      → TaskResult
      → List ProjectRecord
      → List DrawingRecord
      → Exec Error S (Unit {0})
  unfolding any misreports_projects misreports_drawings
  validate_worker_application operation result projects drawings = do
    raise_if
        (any (project_foreign_to operation) projects || any (drawing_foreign_to operation) drawings)
        invalid_result
    require_rows operation result projects drawings
