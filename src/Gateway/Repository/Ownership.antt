-- ===== src/Gateway/Repository/Ownership.antt =====
-- The catalog's methods and the ownership invariant.
use cadplot_mcp.Prelude.{
  ◌≡◌, refl, ◌∙◌, ◌==◌, Bool, false, inl, inr, some, arith, Bool-cases, Option-cases, is_some,
}
use cadplot_mcp.Prelude.Classes.{nat_eq}
use cadplot_mcp.Prelude.Dicts.{lookup, insert, lookup-insert}
use cadplot_mcp.Gateway.Models.{
  WorkstationId, ProjectId, DrawingId, WorkstationRecord, ProjectRecord, DrawingRecord,
}
use cadplot_mcp.Gateway.Repository.{
  Repository, set_project, set_drawing, workstation_moved, workstation_foreign, project_moved,
  project_foreign, drawing_moved, add_workstation, upsert_workstation, add_project, upsert_project,
  add_drawing, upsert_drawing, set_workstation_online,
}
use cadplot_mcp.Gateway.Repository.Catalog.{
  IsOwned, put_workstation-IsOwned, put_project-IsOwned, put_drawing-IsOwned,
}

-- The tenant, and the owner, of a workstation, a project and a drawing stay, and so do the places of
-- a project and a drawing.
pub record Stays (s t : Repository) : Type 0 where
  pub workstations :
      (id : WorkstationId) (w : WorkstationRecord)
      → lookup id s.workstations ≡ some w
      → (x : WorkstationRecord) × (lookup id t.workstations ≡ some x)
        × (x.tenant_id ≡ w.tenant_id)
        × (x.owner_subject_id ≡ w.owner_subject_id)
  pub projects :
      (id : ProjectId) (p : ProjectRecord)
      → lookup id s.projects ≡ some p
      → (q : ProjectRecord) × (lookup id t.projects ≡ some q)
        × (q.tenant_id ≡ p.tenant_id)
        × (q.owner_subject_id ≡ p.owner_subject_id)
        × (q.workstation_id ≡ p.workstation_id)
  pub drawings :
      (id : DrawingId) (d : DrawingRecord)
      → lookup id s.drawings ≡ some d
      → (e : DrawingRecord) × (lookup id t.drawings ≡ some e)
        × (e.tenant_id ≡ d.tenant_id)
        × (e.owner_subject_id ≡ d.owner_subject_id)
        × (e.workstation_id ≡ d.workstation_id)
        × (e.project_id ≡ d.project_id)

pub Stays-refl : (s : Repository) → Stays s s
Stays-refl s = record {
  workstations = λ id w p. (w, p, refl, refl);
  projects = λ id p e. (p, e, refl, refl, refl);
  drawings = λ id d e. (d, e, refl, refl, refl, refl);
}

-- A later catalog keeps the invariant, and its records kept their places.
pub record Kept (s t : Repository) : Type 0 where
  pub owned : IsOwned t
  pub stays : Stays s t

pub Kept-refl : (s : Repository) → IsOwned s → Kept s s
Kept-refl s v = record { owned = v; stays = Stays-refl s }

module _ (s : Repository) (v : IsOwned s) where
  put_workstation-Kept :
      (id : WorkstationId) (w : WorkstationRecord)
      → workstation_moved (lookup id s.workstations) w ≡ false
      → Kept s (record s { workstations = insert id w s.workstations })
  put_workstation-Kept id w h = record {
    owned = put_workstation-IsOwned s v id w h;
    stays = record {
      workstations = λ j x e. elim (Bool-cases (id == j)) [
        | inl hit ↦
            (w, ground (arith, lookup-insert id j w s.workstations), ground arith, ground arith)
        | inr miss ↦ (x, ground (arith, lookup-insert id j w s.workstations), refl, refl)
      ];
      projects = (Stays-refl s).projects;
      drawings = (Stays-refl s).drawings;
    };
  }

  pub put_project-Kept :
      (r : ProjectRecord)
      → workstation_foreign (lookup r.workstation_id s.workstations) r ≡ false
      → project_moved (lookup r.project_id s.projects) r ≡ false
      → Kept s (set_project r s)
  put_project-Kept r h k = record {
    owned = put_project-IsOwned s v r h k;
    stays = record {
      workstations = (Stays-refl s).workstations;
      projects = λ j x e. elim (Bool-cases (r.project_id == j)) [
        | inl hit ↦ (
          r,
          ground (arith, lookup-insert r.project_id j r s.projects),
          ground arith,
          ground arith,
          ground arith,
        )
        | inr miss ↦
            (x, ground (arith, lookup-insert r.project_id j r s.projects), refl, refl, refl)
      ];
      drawings = (Stays-refl s).drawings;
    };
  }

  pub put_drawing-Kept :
      (r : DrawingRecord)
      → project_foreign (lookup r.project_id s.projects) r ≡ false
      → drawing_moved (lookup r.drawing_id s.drawings) r ≡ false
      → Kept s (set_drawing r s)
  put_drawing-Kept r h k = record {
    owned = put_drawing-IsOwned s v r h;
    stays = record {
      workstations = (Stays-refl s).workstations;
      projects = (Stays-refl s).projects;
      drawings = λ j x e. elim (Bool-cases (r.drawing_id == j)) [
        | inl hit ↦ (
          r,
          ground (arith, lookup-insert r.drawing_id j r s.drawings),
          ground arith,
          ground arith,
          ground arith,
          ground arith,
        )
        | inr miss ↦
            (x, ground (arith, lookup-insert r.drawing_id j r s.drawings), refl, refl, refl, refl)
      ];
    };
  }

  pub add_workstation-Kept : (w : WorkstationRecord) → Kept s (add_workstation w s).1
  unfolding add_workstation
  add_workstation-Kept w = elim (Option-cases (lookup w.workstation_id s.workstations)) [
    | inl fresh ↦ rw (fresh, is_some) (put_workstation-Kept w.workstation_id w (rw fresh refl))
    | inr (x, known) ↦ rw (known, is_some) (Kept-refl s v)
  ]

  pub upsert_workstation-Kept : (w : WorkstationRecord) → Kept s (upsert_workstation w s).1
  unfolding upsert_workstation
  upsert_workstation-Kept w =
      elim (Bool-cases (workstation_moved (lookup w.workstation_id s.workstations) w)) [
        | inl moved ↦ rw moved (Kept-refl s v)
        | inr same ↦ rw same (put_workstation-Kept w.workstation_id w same)
      ]

  pub set_workstation_online-Kept :
      (id : WorkstationId) (online : Bool) → Kept s (set_workstation_online id online s).1
  unfolding set_workstation_online
  set_workstation_online-Kept id online = elim (Option-cases (lookup id s.workstations)) [
    | inl missing ↦ rw missing (Kept-refl s v)
    | inr (w, found) ↦
        rw found (put_workstation-Kept id (record w { online = online }) (ground arith))
  ]

  pub add_project-Kept : (r : ProjectRecord) → Kept s (add_project r s).1
  unfolding add_project
  add_project-Kept r = elim (Option-cases (lookup r.project_id s.projects)) [
    | inr (x, known) ↦ rw known (Kept-refl s v)
    | inl fresh ↦
        rw fresh
          (elim (Bool-cases (workstation_foreign (lookup r.workstation_id s.workstations) r)) [
            | inl foreign ↦ rw foreign (Kept-refl s v)
            | inr home ↦ rw home (put_project-Kept r home (rw fresh refl))
          ])
  ]

  -- Whatever the project, `upsert_project` keeps the ownership invariant of a catalog that has it,
  -- on every branch, and no stored record changes its tenant, owner or place.
  pub upsert_project-Kept : (r : ProjectRecord) → Kept s (upsert_project r s).1
  unfolding upsert_project
  upsert_project-Kept r =
      elim (Bool-cases (workstation_foreign (lookup r.workstation_id s.workstations) r)) [
        | inl foreign ↦ rw foreign (Kept-refl s v)
        | inr home ↦ rw home (elim (Bool-cases (project_moved (lookup r.project_id s.projects) r)) [
          | inl moved ↦ rw moved (Kept-refl s v)
          | inr same ↦ rw same (put_project-Kept r home same)
        ])
      ]

  pub add_drawing-Kept : (r : DrawingRecord) → Kept s (add_drawing r s).1
  unfolding add_drawing
  add_drawing-Kept r = elim (Option-cases (lookup r.drawing_id s.drawings)) [
    | inr (x, known) ↦ rw known (Kept-refl s v)
    | inl fresh ↦ rw fresh (elim (Bool-cases (project_foreign (lookup r.project_id s.projects) r)) [
      | inl foreign ↦ rw foreign (Kept-refl s v)
      | inr home ↦ rw home (put_drawing-Kept r home (rw fresh refl))
    ])
  ]

  -- Whatever the drawing, `upsert_drawing` keeps the ownership invariant of a catalog that has it,
  -- on every branch, and no stored record changes its tenant, owner or place.
  pub upsert_drawing-Kept : (r : DrawingRecord) → Kept s (upsert_drawing r s).1
  unfolding upsert_drawing
  upsert_drawing-Kept r = elim (Bool-cases (project_foreign (lookup r.project_id s.projects) r)) [
    | inl foreign ↦ rw foreign (Kept-refl s v)
    | inr home ↦ rw home (elim (Bool-cases (drawing_moved (lookup r.drawing_id s.drawings) r)) [
      | inl moved ↦ rw moved (Kept-refl s v)
      | inr same ↦ rw same (put_drawing-Kept r home same)
    ])
  ]

pub Kept-trans : {s t u : Repository} → Kept s t → Kept t u → Kept s u
Kept-trans h k = record {
  owned = k.owned;
  stays = record {
    workstations = λ id w p.
        let (x, found, a, b) = h.stays.workstations id w p in
        let (y, later, c, d) = k.stays.workstations id x found in (y, later, c ∙ a, d ∙ b);
    projects = λ id w p.
        let (x, found, a, b, c) = h.stays.projects id w p in
        let (y, later, d, e, f) = k.stays.projects id x found in (y, later, d ∙ a, e ∙ b, f ∙ c);
    drawings = λ id w p.
        let (x, found, a, b, c, g) = h.stays.drawings id w p in
        let (y, later, d, e, f, i) = k.stays.drawings id x found in
        (y, later, d ∙ a, e ∙ b, f ∙ c, i ∙ g);
  };
}
