-- ===== src/Gateway/Repository/Application.antt =====
-- repositories.py, `apply_worker_success`: a worker's success with the catalog rows it reports.
use cadplot_mcp.Prelude.{
  Bool, true, false, not, ◌||◌, Option, none, some, List, [], ◌∷◌, map, ◌==◌, any, keep, is_empty,
  if◌then◌else◌,
}
use cadplot_mcp.Prelude.Classes.{nat_eq, is_distinct, list_beq}
use cadplot_mcp.Prelude.Results.{Result, ok, refuse, pure, lift, gets, modify, ◌>>=◌, ◌>>◌}
use cadplot_mcp.Prelude.Dicts.{Dict, lookup, insert}
use cadplot_mcp.Gateway.Errors.{ValueCode, Error, value_error}
use cadplot_mcp.Gateway.Models.{
  TenantId, WorkstationId, ProjectId, DrawingId, OperationId, Instant, OperationState, ReadTask,
  TaskResult, ScanDrawingsResult, ProjectRecord, DrawingRecord, OperationRecord, task_command,
  result_command,
}
use cadplot_mcp.Gateway.Models.Equality.{result_eq}
use cadplot_mcp.Gateway.Operation.{is_running, is_succeeded, same_command}
use cadplot_mcp.Gateway.Ports.{TransitionStatus, TransitionOutcome}
use cadplot_mcp.Gateway.Repository.{
  Repository, Method, workstation_foreign, project_moved, project_foreign, drawing_moved,
}
use cadplot_mcp.Gateway.Repository.Workers.{
  owned_record, not_found, outcome, after_refresh, complete,
}

abbrev pub project_ids : List ProjectRecord → List ProjectId
project_ids = map λ p. p.project_id

abbrev pub drawing_ids : List DrawingRecord → List DrawingId
drawing_ids = map λ d. d.drawing_id

-- The task lists the projects of the operation's own workstation.
abbrev pub lists_own_projects : OperationRecord → ReadTask → Bool
lists_own_projects operation (ReadTask.list_projects w) = w == operation.workstation_id
lists_own_projects operation _ = false

-- The task scans this project.
abbrev pub scans_project : ProjectId → ReadTask → Bool
scans_project project (ReadTask.scan_drawings p r l) = p == project
scans_project project _ = false

abbrev pub bad_list_payload :
    OperationRecord → List ProjectId → List ProjectRecord → List DrawingRecord → Bool
bad_list_payload operation ids projects drawings =
    not (lists_own_projects operation operation.task)
    || (not (is_empty drawings)
        || (not (is_distinct (project_ids projects))
            || not (list_beq (project_ids (keep (λ p. p.enabled) projects)) ids)))

abbrev pub bad_scan_payload :
    OperationRecord → ScanDrawingsResult → List ProjectRecord → List DrawingRecord → Bool
bad_scan_payload operation result projects drawings =
    not (scans_project result.project_id operation.task)
    || (not (is_empty projects)
        || (not (is_distinct (drawing_ids drawings))
            || (not (list_beq (drawing_ids drawings) result.drawing_ids)
                || any (λ d. not (d.project_id == result.project_id)) drawings)))

unfoldable pub bad_payload :
    OperationRecord → TaskResult → List ProjectRecord → List DrawingRecord → Bool
unfolding is_distinct list_beq keep any
bad_payload operation (TaskResult.list_projects ids) projects drawings =
    bad_list_payload operation ids projects drawings
bad_payload operation (TaskResult.scan_drawings result) projects drawings =
    bad_scan_payload operation result projects drawings
bad_payload operation _ projects drawings = not (is_empty projects) || not (is_empty drawings)

-- The test of the first loop of `_validate_worker_catalog_application`.
unfoldable pub project_mismatch : Repository → OperationRecord → ProjectRecord → Bool
project_mismatch s operation p =
    (not (p.tenant_id == operation.tenant_id)
      || (not (p.owner_subject_id == operation.owner_subject_id)
          || not (p.workstation_id == operation.workstation_id)))
    || (workstation_foreign (lookup p.workstation_id s.workstations) p
        || project_moved (lookup p.project_id s.projects) p)

-- `project is None or not project.enabled`
abbrev pub disabled : Option ProjectRecord → Bool
disabled none = true
disabled (some p) = not p.enabled

-- The test of the second loop, over the view of the projects.
unfoldable pub drawing_mismatch :
    Repository → Dict ProjectId ProjectRecord → OperationRecord → DrawingRecord → Bool
drawing_mismatch s view operation d =
    (disabled (lookup d.project_id view)
      || (not (d.tenant_id == operation.tenant_id)
          || (not (d.owner_subject_id == operation.owner_subject_id)
              || not (d.workstation_id == operation.workstation_id))))
    || (project_foreign (lookup d.project_id view) d
        || drawing_moved (lookup d.drawing_id s.drawings) d)

-- `for project in projects: self._projects[project.project_id] = project`, and the merged view.
unfoldable pub put_projects :
    List ProjectRecord → Dict ProjectId ProjectRecord → Dict ProjectId ProjectRecord
put_projects [] d = d
put_projects (p ∷ rest) d = put_projects rest (insert p.project_id p d)

unfoldable pub put_drawings :
    List DrawingRecord → Dict DrawingId DrawingRecord → Dict DrawingId DrawingRecord
put_drawings [] d = d
put_drawings (r ∷ rest) d = put_drawings rest (insert r.drawing_id r d)

-- `_validate_worker_catalog_application`
unfoldable pub validate_application :
    Repository
    → OperationRecord
    → TaskResult
    → List ProjectRecord
    → List DrawingRecord
    → Result Error (Unit {0})
unfolding result_command task_command
validate_application s operation result projects drawings =
    refuse (not (same_command (result_command result) (task_command operation.task)))
      (value_error ValueCode.result_task_mismatch)
      (refuse (bad_payload operation result projects drawings)
        (value_error ValueCode.invalid_catalog_payload)
        (refuse (any (project_mismatch s operation) projects)
          (value_error ValueCode.project_owner_mismatch)
          (refuse (any (drawing_mismatch s (put_projects projects s.projects) operation) drawings)
            (value_error ValueCode.drawing_owner_mismatch) (ok tt))))

-- `record.result == result`
abbrev pub same_result : Option TaskResult → TaskResult → Bool
same_result none b = false
same_result (some a) b = result_eq a b

abbrev pub write_catalog : List ProjectRecord → List DrawingRecord → Repository → Repository
write_catalog projects drawings s = record s {
  projects = put_projects projects s.projects;
  drawings = put_drawings drawings s.drawings;
}

abbrev pub apply_running :
    OperationId
    → Instant
    → TaskResult
    → List ProjectRecord
    → List DrawingRecord
    → OperationRecord
    → Method TransitionOutcome
apply_running id now result projects drawings r = do
  s ← gets (λ s. s)
  lift (validate_application s r result projects drawings)
  modify (write_catalog projects drawings)
  complete id now OperationState.succeeded (some result) none r

-- What follows the refresh, by the record's state.
abbrev pub apply_refreshed :
    OperationId
    → Instant
    → TaskResult
    → List ProjectRecord
    → List DrawingRecord
    → OperationRecord
    → Method TransitionOutcome
apply_refreshed id now result projects drawings r =
    if is_succeeded r.state
    then pure (
        outcome
          (if same_result r.result result
            then TransitionStatus.updated
            else TransitionStatus.invalid_state)
          r)
    else if not (is_running r.state)
    then pure (outcome TransitionStatus.invalid_state r)
    else apply_running id now result projects drawings r

abbrev pub apply_owned :
    OperationId
    → Instant
    → TaskResult
    → List ProjectRecord
    → List DrawingRecord
    → Option OperationRecord
    → Method TransitionOutcome
apply_owned id now result projects drawings none = pure not_found
apply_owned id now result projects drawings (some r) =
    after_refresh id now r (apply_refreshed id now result projects drawings)

unfoldable pub apply_worker_success :
    OperationId
    → TenantId
    → WorkstationId
    → Instant
    → TaskResult
    → List ProjectRecord
    → List DrawingRecord
    → Method TransitionOutcome
apply_worker_success id tenant workstation now result projects drawings = do
  found ← gets (λ s. lookup id s.operations)
  apply_owned id now result projects drawings (owned_record found tenant workstation)
