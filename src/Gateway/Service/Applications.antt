-- ===== src/Gateway/Service/Applications.antt =====
-- `_validate_worker_application`, beside the repository's own checks of a worker's rows.
use cadplot_mcp.Prelude.{◌≡◌, sym, true, false, not, ◌||◌, List, [], ◌∷◌, All, arith, any, is_empty}
use cadplot_mcp.Prelude.Classes.{nat_eq}
use cadplot_mcp.Prelude.Results.{ok, raise_if, ◌>>◌, bind-ok, raise_if-ok}
use cadplot_mcp.Gateway.Models.{
  ProjectId, ReadTask, ScanDrawingsResult, TaskCommand, TaskResult, ProjectRecord, DrawingRecord,
  OperationRecord, task_command, result_command,
}
use cadplot_mcp.Gateway.Operation.{same_command}
use cadplot_mcp.Gateway.Repository.Application.{bad_payload, scans_project}
use cadplot_mcp.Gateway.Service.{GatewayService}
use cadplot_mcp.Gateway.Service.Bindings.{
  invalid_result, validate_result_binding, validate_worker_application, require_rows, require_bound,
  project_foreign_to, drawing_foreign_to, misreports_projects, misreports_drawings, asks_drawings,
}

-- The row belongs to the operation's tenant, owner and workstation.
abbrev pub ProjectOf : OperationRecord → ProjectRecord → Type 0
ProjectOf operation p =
    (p.tenant_id ≡ operation.tenant_id)
    × (p.owner_subject_id ≡ operation.owner_subject_id)
    × (p.workstation_id ≡ operation.workstation_id)

abbrev pub DrawingOf : OperationRecord → DrawingRecord → Type 0
DrawingOf operation d =
    (d.tenant_id ≡ operation.tenant_id)
    × (d.owner_subject_id ≡ operation.owner_subject_id)
    × (d.workstation_id ≡ operation.workstation_id)

projects_own :
    (operation : OperationRecord) (projects : List ProjectRecord)
    → any (project_foreign_to operation) projects ≡ false
    → All (ProjectOf operation) projects
unfolding any
projects_own operation [] h = tt
projects_own operation (p ∷ projects) h =
    (ground arith, projects_own operation projects (ground arith))

drawings_own :
    (operation : OperationRecord) (drawings : List DrawingRecord)
    → any (drawing_foreign_to operation) drawings ≡ false
    → All (DrawingOf operation) drawings
unfolding any
drawings_own operation [] h = tt
drawings_own operation (d ∷ drawings) h =
    (ground arith, drawings_own operation drawings (ground arith))

asks_drawings_eq :
    (project : ProjectId) (task : ReadTask)
    → asks_drawings project task ≡ scans_project project task
asks_drawings_eq project task = ground arith

same_command_eq : (a b : TaskCommand) → same_command a b ≡ true → a ≡ b
same_command_eq a b h = ground arith

module _ {S : Type 0} (g : GatewayService S) (operation : OperationRecord)
    (projects : List ProjectRecord) (drawings : List DrawingRecord) where
  abbrev Fits : TaskResult → Type 0
  Fits result =
      (result_command result ≡ task_command operation.task)
      × (bad_payload operation result projects drawings ≡ false)

  -- A result that may come with no rows.
  bare_checked :
      (result : TaskResult) (s t : S) (x : Unit {0})
      → (raise_if (not (is_empty projects) || not (is_empty drawings)) invalid_result
            >> validate_result_binding g operation result)
          s
        ≡ (ok x, t)
      → (result_command result ≡ task_command operation.task)
        × (not (is_empty projects) || not (is_empty drawings) ≡ false)
  unfolding validate_result_binding
  bare_checked result s t x h =
      let (y, u, e, k) =
        bind-ok (raise_if (not (is_empty projects) || not (is_empty drawings)) invalid_result)
          (λ _. validate_result_binding g operation result) s x t h in
      let (bare, same) =
        raise_if-ok (not (is_empty projects) || not (is_empty drawings)) invalid_result s y u e in
      let (z, w, e2, k2) =
        bind-ok
          (raise_if (not (same_command (result_command result) (task_command operation.task)))
            invalid_result)
          (λ _. require_bound g operation result) u x t k in
      let (command, same2) =
        raise_if-ok (not (same_command (result_command result) (task_command operation.task)))
          invalid_result u z w e2 in
      (
        same_command_eq (result_command result) (task_command operation.task)
            (ground (arith, command)),
        bare,
      )

  -- The service and the repository compare the two projects of a scan in opposite orders.
  drawings_accepted :
      (r : ScanDrawingsResult)
      → misreports_drawings operation r projects drawings ≡ false
      → bad_payload operation (TaskResult.scan_drawings r) projects drawings ≡ false
  unfolding bad_payload misreports_drawings
  drawings_accepted r h = rw (sym (asks_drawings_eq r.project_id operation.task)) h

  rows_checked :
      (result : TaskResult) (s t : S) (x : Unit {0})
      → require_rows g operation result projects drawings s ≡ (ok x, t)
      → Fits result
  unfolding bad_payload result_command task_command misreports_projects misreports_drawings
  rows_checked (TaskResult.list_projects ids) s t x h =
      let (own, same) =
        raise_if-ok (misreports_projects operation ids projects drawings) invalid_result s x t h in
      (ground (arith, own), own)
  rows_checked (TaskResult.scan_drawings r) s t x h =
      let (own, same) =
        raise_if-ok (misreports_drawings operation r projects drawings) invalid_result s x t h in
      (ground (arith, own), drawings_accepted r own)
  rows_checked (TaskResult.validate_environment ready codes) s t x h =
      bare_checked (TaskResult.validate_environment ready codes) s t x h
  rows_checked (TaskResult.inspect_drawing r) s t x h =
      bare_checked (TaskResult.inspect_drawing r) s t x h
  rows_checked (TaskResult.create_publish_plan r) s t x h =
      bare_checked (TaskResult.create_publish_plan r) s t x h
  rows_checked (TaskResult.translation d r) s t x h =
      bare_checked (TaskResult.translation d r) s t x h

  -- What `_validate_worker_application` lets pass, over any store, has rows of the operation's tenant,
  -- owner and workstation only, answers the task's command, and has a payload that the repository
  -- accepts: its own checks of these two, which stand apart, never fail after the service's.
  pub application_checked :
      (result : TaskResult) (s t : S) (x : Unit {0})
      → validate_worker_application g operation result projects drawings s ≡ (ok x, t)
      → All (ProjectOf operation) projects
        × All (DrawingOf operation) drawings
        × (result_command result ≡ task_command operation.task)
        × (bad_payload operation result projects drawings ≡ false)
  unfolding validate_worker_application
  application_checked result s t x h =
      let (y, u, e, k) =
        bind-ok
          (raise_if
            (any (project_foreign_to operation) projects
              || any (drawing_foreign_to operation) drawings)
            invalid_result)
          (λ _. require_rows g operation result projects drawings) s x t h in
      let (own, same) =
        raise_if-ok
          (any (project_foreign_to operation) projects
            || any (drawing_foreign_to operation) drawings)
          invalid_result s y u e in
      let (command, payload) = rows_checked result u t x k in
      (
        projects_own operation projects (ground (arith, own)),
        drawings_own operation drawings (ground (arith, own)),
        command,
        payload,
      )
