-- ===== src/Gateway/Repository/Reported.antt =====
-- The catalog rows that `apply_worker_success` writes, and the ownership invariant.
use cadplot_mcp.Prelude.{
  ◌≡◌, ◌==◌, false, inl, inr, not, Option, none, some, List, [], ◌∷◌, arith, All, All-map, any,
  any-false, Bool-cases,
}
use cadplot_mcp.Prelude.Classes.{nat_eq}
use cadplot_mcp.Prelude.Results.{ok, Result-cases}
use cadplot_mcp.Prelude.Dicts.{Dict, lookup, lookup-insert}
use cadplot_mcp.Gateway.Models.{
  TenantId, WorkstationId, ProjectId, OperationId, Instant, SafeCode, OperationState, TaskResult,
  ProjectRecord, DrawingRecord, OperationRecord,
}
use cadplot_mcp.Gateway.Operation.{is_running, is_succeeded, is_due, refresh_due}
use cadplot_mcp.Gateway.Operation.Shape.{updated-cases}
use cadplot_mcp.Gateway.Repository.Workers.{is_expired, complete, completed_record, owned_record}
use cadplot_mcp.Gateway.Repository.{
  Repository, set_project, set_drawing, set_operation, workstation_foreign, project_moved,
  project_foreign, drawing_moved,
}
use cadplot_mcp.Gateway.Repository.Application.{
  put_projects, put_drawings, project_mismatch, drawing_mismatch, bad_payload, validate_application,
  write_catalog, apply_running, apply_refreshed, apply_owned, apply_worker_success,
}
use cadplot_mcp.Gateway.Repository.Catalog.{IsOwned}
use cadplot_mcp.Gateway.Repository.Ownership.{
  Kept, Kept-refl, Kept-trans, Stays-refl, put_project-Kept, put_drawing-Kept,
}

module _ (operation : OperationRecord) where
  -- A reported project of the operation's owner and device, that the catalog takes.
  record FitProject (s : Repository) (p : ProjectRecord) : Type 0 where
    tenant : p.tenant_id ≡ operation.tenant_id
    owner : p.owner_subject_id ≡ operation.owner_subject_id
    workstation : p.workstation_id ≡ operation.workstation_id
    home : workstation_foreign (lookup p.workstation_id s.workstations) p ≡ false
    same : project_moved (lookup p.project_id s.projects) p ≡ false

  record FitDrawing (project : ProjectId) (s : Repository) (d : DrawingRecord) : Type 0 where
    tenant : d.tenant_id ≡ operation.tenant_id
    owner : d.owner_subject_id ≡ operation.owner_subject_id
    workstation : d.workstation_id ≡ operation.workstation_id
    of_project : d.project_id ≡ project
    home : project_foreign (lookup d.project_id s.projects) d ≡ false
    same : drawing_moved (lookup d.drawing_id s.drawings) d ≡ false

  FitProject-set :
      (s : Repository) (p q : ProjectRecord)
      → FitProject s p
      → FitProject s q
      → FitProject (set_project p s) q
  FitProject-set s p q h k = record {
    tenant = k.tenant;
    owner = k.owner;
    workstation = k.workstation;
    home = k.home;
    same = ground (
      arith,
      h.tenant,
      h.owner,
      h.workstation,
      k.tenant,
      k.owner,
      k.workstation,
      k.same,
      lookup-insert p.project_id q.project_id p s.projects,
    );
  }

  FitDrawing-set :
      (project : ProjectId) (s : Repository) (d e : DrawingRecord)
      → FitDrawing project s d
      → FitDrawing project s e
      → FitDrawing project (set_drawing d s) e
  FitDrawing-set project s d e h k = record {
    tenant = k.tenant;
    owner = k.owner;
    workstation = k.workstation;
    of_project = k.of_project;
    home = k.home;
    same = ground (
      arith,
      h.tenant,
      h.owner,
      h.workstation,
      h.of_project,
      k.tenant,
      k.owner,
      k.workstation,
      k.of_project,
      k.same,
      lookup-insert d.drawing_id e.drawing_id d s.drawings,
    );
  }

  put_projects-Kept :
      (s : Repository) (ps : List ProjectRecord)
      → IsOwned s
      → All (FitProject s) ps
      → Kept s (record s { projects = put_projects ps s.projects })
  unfolding put_projects
  put_projects-Kept s [] v h = Kept-refl s v
  put_projects-Kept s (p ∷ ps) v h =
      let first : Kept s (set_project p s) = put_project-Kept s v p h.0.home h.0.same in
      Kept-trans first (
        put_projects-Kept (set_project p s) ps first.owned
          (All-map ps (λ q k. FitProject-set s p q h.0 k) h.1))

  put_drawings-Kept :
      (project : ProjectId) (s : Repository) (ds : List DrawingRecord)
      → IsOwned s
      → All (FitDrawing project s) ds
      → Kept s (record s { drawings = put_drawings ds s.drawings })
  unfolding put_drawings
  put_drawings-Kept project s [] v h = Kept-refl s v
  put_drawings-Kept project s (d ∷ ds) v h =
      let first : Kept s (set_drawing d s) = put_drawing-Kept s v d h.0.home h.0.same in
      Kept-trans first (
        put_drawings-Kept project (set_drawing d s) ds first.owned
          (All-map ds (λ q k. FitDrawing-set project s d q h.0 k) h.1))

  FitProject-accepted :
      (s : Repository) (p : ProjectRecord) → project_mismatch s operation p ≡ false → FitProject s p
  unfolding project_mismatch
  FitProject-accepted s p h = record {
    tenant = ground arith;
    owner = ground arith;
    workstation = ground arith;
    home = ground arith;
    same = ground arith;
  }

  -- A payload that passes reports drawings of one project.
  one_project :
      (result : TaskResult) (projects : List ProjectRecord) (drawings : List DrawingRecord)
      → bad_payload operation result projects drawings ≡ false
      → (project : ProjectId) × All (λ (d : DrawingRecord). d.project_id ≡ project) drawings
  unfolding bad_payload
  one_project (TaskResult.scan_drawings result) projects drawings h = (
    result.project_id,
    All-map drawings (λ d k. ground arith)
        (any-false (λ d. not (d.project_id == result.project_id)) drawings (ground arith)),
  )
  one_project (TaskResult.list_projects ids) projects [] h = (0, tt)
  one_project (TaskResult.list_projects ids) projects (d ∷ ds) h = ground arith
  one_project _ projects [] h = (0, tt)
  one_project _ projects (d ∷ ds) h = ground arith

  module _ (s : Repository) (v : IsOwned s) (result : TaskResult) (projects : List ProjectRecord)
      (drawings : List DrawingRecord) where
    accepted :
        validate_application s operation result projects drawings ≡ ok tt
        → (bad_payload operation result projects drawings ≡ false)
          × (any (project_mismatch s operation) projects ≡ false)
          × (any (drawing_mismatch s (put_projects projects s.projects) operation) drawings ≡ false)
    unfolding validate_application
    accepted h = ground arith

    abbrev projects_store : Repository
    projects_store = record s { projects = put_projects projects s.projects }

    FitDrawing-accepted :
        (project : ProjectId) (ds : List DrawingRecord)
        → All (λ (d : DrawingRecord). d.project_id ≡ project) ds
        → All (λ d. drawing_mismatch s (put_projects projects s.projects) operation d ≡ false) ds
        → All (FitDrawing project projects_store) ds
    unfolding drawing_mismatch
    FitDrawing-accepted project [] h k = tt
    FitDrawing-accepted project (d ∷ ds) h k = (
      record {
        tenant = ground (arith, k.0);
        owner = ground (arith, k.0);
        workstation = ground (arith, k.0);
        of_project = h.0;
        home = ground (arith, k.0);
        same = ground (arith, k.0);
      },
      FitDrawing-accepted project ds h.1 k.1,
    )

    -- An accepted payload keeps the ownership invariant, and moves no record.
    pub write_catalog-Kept :
        validate_application s operation result projects drawings ≡ ok tt
        → Kept s (write_catalog projects drawings s)
    write_catalog-Kept h =
        let (payload, fit_projects, fit_drawings) = accepted h in
        let (project, of_project) = one_project result projects drawings payload in
        let first : Kept s projects_store = put_projects-Kept s projects v (
          All-map projects (λ p k. FitProject-accepted s p k)
            (any-false (project_mismatch s operation) projects fit_projects)) in
        Kept-trans first (
          put_drawings-Kept project projects_store drawings first.owned (
            FitDrawing-accepted project drawings of_project (
              any-false (drawing_mismatch s (put_projects projects s.projects) operation) drawings
                fit_drawings)))

-- A write of an operation leaves the catalog alone.
pub operations-Kept :
    (s : Repository) (d : Dict OperationId OperationRecord)
    → IsOwned s
    → Kept s (record s { operations = d })
operations-Kept s d v = record {
  owned = record { projects = v.projects; drawings = v.drawings };
  stays = record {
    workstations = (Stays-refl s).workstations;
    projects = (Stays-refl s).projects;
    drawings = (Stays-refl s).drawings;
  };
}

module _ (s : Repository) (v : IsOwned s) (id : OperationId) (now : Instant) (result : TaskResult)
    (projects : List ProjectRecord) (drawings : List DrawingRecord) where
  complete-Kept :
      (t : Repository) (r : OperationRecord) (state : OperationState) (a : Option TaskResult)
      (error_code : Option SafeCode)
      → Kept s t
      → Kept s (complete id now state a error_code r t).1
  complete-Kept t r state a error_code k =
      elim (updated-cases (completed_record r state now a error_code)) [
        | inl (written, shaped) ↦ rw written (Kept-trans k (operations-Kept t _ k.owned))
        | inr (e, refused) ↦ rw refused k
      ]

  apply_running-Kept :
      (t : Repository) (r : OperationRecord)
      → Kept s t
      → Kept s (apply_running id now result projects drawings r t).1
  apply_running-Kept t r k =
      elim (Result-cases (validate_application t r result projects drawings)) [
        | inr (e, refused) ↦ rw refused k
        | inl (u, accept) ↦ rw accept (
            complete-Kept (write_catalog projects drawings t) r OperationState.succeeded
              (some result) none
              (Kept-trans k (write_catalog-Kept r t k.owned result projects drawings accept)))
      ]

  apply_refreshed-Kept :
      (t : Repository) (r : OperationRecord)
      → Kept s t
      → Kept s (apply_refreshed id now result projects drawings r t).1
  apply_refreshed-Kept t r k = elim (Bool-cases (is_succeeded r.state)) [
    | inl done ↦ rw done k
    | inr pending ↦ elim (Bool-cases (is_running r.state)) [
      | inr idle ↦ rw (pending, idle) k
      | inl running ↦ rw (pending, running) (apply_running-Kept t r k)
    ]
  ]

  apply_owned-Kept :
      (o : Option OperationRecord) → Kept s (apply_owned id now result projects drawings o s).1
  apply_owned-Kept none = Kept-refl s v
  apply_owned-Kept (some r) = elim (Result-cases (refresh_due r now)) [
    | inr (e, refused) ↦ rw refused (Kept-refl s v)
    | inl (q, refreshed) ↦ rw refreshed (elim (Bool-cases (is_due r now)) [
      | inr early ↦ rw early (apply_refreshed-Kept s r (Kept-refl s v))
      | inl due ↦ rw due (elim (Bool-cases (is_expired q.state)) [
        | inl gone ↦ rw gone (operations-Kept s _ v)
        | inr stays ↦
            rw stays (apply_refreshed-Kept (set_operation id q s) q (operations-Kept s _ v))
      ])
    ])
  ]

  -- Whatever the payload and the outcome, the call keeps the ownership invariant of a catalog that
  -- has it, and moves no record.
  pub apply_worker_success-Kept :
      (tenant : TenantId) (workstation : WorkstationId)
      → Kept s (apply_worker_success id tenant workstation now result projects drawings s).1
  unfolding apply_worker_success
  apply_worker_success-Kept tenant workstation =
      apply_owned-Kept (owned_record (lookup id s.operations) tenant workstation)
