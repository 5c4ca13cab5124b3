-- ===== src/Gateway/Repository/Catalog.antt =====
-- The catalog's invariant, on the owners of workstations, projects and drawings.
use cadplot_mcp.Prelude.{◌≡◌, subst, ◌==◌, false, inl, inr, some, arith, Bool-cases, Option-cases}
use cadplot_mcp.Prelude.Classes.{nat_eq}
use cadplot_mcp.Prelude.Dicts.{lookup, insert, lookup-insert}
use cadplot_mcp.Gateway.Models.{
  WorkstationId, ProjectId, DrawingId, WorkstationRecord, ProjectRecord, DrawingRecord,
}
use cadplot_mcp.Gateway.Repository.{
  Repository, set_project, set_drawing, workstation_moved, workstation_foreign, project_moved,
  project_foreign,
}

pub record ProjectFits (p : ProjectRecord) (w : WorkstationRecord) : Type 0 where
  pub tenant : w.tenant_id ≡ p.tenant_id
  pub owner : w.owner_subject_id ≡ p.owner_subject_id

pub record DrawingFits (d : DrawingRecord) (p : ProjectRecord) : Type 0 where
  pub tenant : p.tenant_id ≡ d.tenant_id
  pub owner : p.owner_subject_id ≡ d.owner_subject_id
  pub workstation : p.workstation_id ≡ d.workstation_id

pub record IsOwned (s : Repository) : Type 0 where
  pub projects :
      (id : ProjectId) (p : ProjectRecord)
      → lookup id s.projects ≡ some p
      → (w : WorkstationRecord) × (lookup p.workstation_id s.workstations ≡ some w)
        × ProjectFits p w
  pub drawings :
      (id : DrawingId) (d : DrawingRecord)
      → lookup id s.drawings ≡ some d
      → (p : ProjectRecord) × (lookup d.project_id s.projects ≡ some p) × DrawingFits d p

module _ (s : Repository) (v : IsOwned s) where
  -- A workstation that is new or keeps its tenant and owner.
  pub put_workstation-IsOwned :
      (id : WorkstationId) (w : WorkstationRecord)
      → workstation_moved (lookup id s.workstations) w ≡ false
      → IsOwned (record s { workstations = insert id w s.workstations })
  put_workstation-IsOwned id w h = record {
    projects = λ j p e.
        let (x, found, fits) = v.projects j p e in
        elim (Bool-cases (id == p.workstation_id)) [
          | inl hit ↦ (
            w,
            ground (arith, lookup-insert id p.workstation_id w s.workstations),
            ground (arith, found),
          )
          | inr miss ↦ (x, ground (arith, lookup-insert id p.workstation_id w s.workstations), fits)
        ];
    drawings = v.drawings;
  }

  -- A project of its workstation's owner that is new or keeps its place.
  pub put_project-IsOwned :
      (r : ProjectRecord)
      → workstation_foreign (lookup r.workstation_id s.workstations) r ≡ false
      → project_moved (lookup r.project_id s.projects) r ≡ false
      → IsOwned (set_project r s)
  put_project-IsOwned r h k = record {
    projects = λ j p e. elim (Bool-cases (r.project_id == j)) [
      | inl hit ↦ elim (Option-cases (lookup r.workstation_id s.workstations)) [
        | inl missing ↦ ground arith
        | inr (w, found) ↦
            let same : r ≡ p = ground (arith, lookup-insert r.project_id j r s.projects) in
            (
              w,
              subst (λ x. lookup x.workstation_id s.workstations ≡ some w) same found,
              subst (λ x. ProjectFits x w) same (ground arith),
            )
      ]
      | inr miss ↦ v.projects j p (ground (arith, lookup-insert r.project_id j r s.projects))
    ];
    drawings = λ j d e.
        let (p, found, fits) = v.drawings j d e in
        elim (Bool-cases (r.project_id == d.project_id)) [
          | inl hit ↦ (
            r,
            ground (arith, lookup-insert r.project_id d.project_id r s.projects),
            ground (arith, found),
          )
          | inr miss ↦
              (p, ground (arith, lookup-insert r.project_id d.project_id r s.projects), fits)
        ];
  }

  pub put_drawing-IsOwned :
      (r : DrawingRecord)
      → project_foreign (lookup r.project_id s.projects) r ≡ false
      → IsOwned (set_drawing r s)
  put_drawing-IsOwned r h = record {
    projects = v.projects;
    drawings = λ j d e. elim (Bool-cases (r.drawing_id == j)) [
      | inl hit ↦ elim (Option-cases (lookup r.project_id s.projects)) [
        | inl missing ↦ ground arith
        | inr (p, found) ↦
            let same : r ≡ d = ground (arith, lookup-insert r.drawing_id j r s.drawings) in
            (
              p,
              subst (λ x. lookup x.project_id s.projects ≡ some p) same found,
              subst (λ x. DrawingFits x p) same (ground arith),
            )
      ]
      | inr miss ↦ v.drawings j d (ground (arith, lookup-insert r.drawing_id j r s.drawings))
    ];
  }
