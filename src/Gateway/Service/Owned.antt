-- ===== src/Gateway/Service/Owned.antt =====
-- A user's own workstation, project or drawing: what the checks of the service have read.
use cadplot_mcp.Prelude.{
  ℕ, ◌≡◌, sym, subst, ◌∙◌, ◌==◌, Bool, true, false, not, ◌&&◌, ◌||◌, some, arith, Option-cases, inl,
  inr,
}
use cadplot_mcp.Prelude.Classes.{nat_eq}
use cadplot_mcp.Prelude.Results.{ok, Exec, pure, raise_if, ◌>>=◌, ◌>>◌, bind-ok, raise_if-ok}
use cadplot_mcp.Prelude.Dicts.{lookup}
use cadplot_mcp.Gateway.Errors.{GatewayCode, Error, gateway_error}
use cadplot_mcp.Gateway.Models.{
  WorkstationId, ProjectId, DrawingId, PrincipalContext, WorkstationRecord, ProjectRecord,
  DrawingRecord,
}
use cadplot_mcp.Gateway.Repository.{Repository, get_workstation, get_project, get_drawing}
use cadplot_mcp.Gateway.Service.{
  Digests, GatewayService, require_workstation, require_project, require_drawing,
}
use cadplot_mcp.Gateway.Service.InMemory.{in_memory}

module _ (s : Repository) (principal : PrincipalContext) where
  -- The user's workstation under this identifier; it is online where that is asked.
  pub record OwnWorkstation (online : Bool) (id : WorkstationId) (w : WorkstationRecord)
      : Type 0 where
    pub found : lookup id s.workstations ≡ some w
    pub enabled : w.enabled ≡ true
    pub tenant : w.tenant_id ≡ principal.tenant_id
    pub owner : w.owner_subject_id ≡ principal.subject_id
    pub up : online && not w.online ≡ false

  pub record OwnProject (online : Bool) (id : ProjectId) (p : ProjectRecord) (w : WorkstationRecord)
      : Type 0 where
    pub found : lookup id s.projects ≡ some p
    pub enabled : p.enabled ≡ true
    pub tenant : p.tenant_id ≡ principal.tenant_id
    pub owner : p.owner_subject_id ≡ principal.subject_id
    pub workstation : OwnWorkstation online p.workstation_id w

  pub record OwnDrawing (online : Bool) (id : DrawingId) (d : DrawingRecord) (w : WorkstationRecord)
      : Type 0 where
    pub project : ProjectRecord
    pub found : lookup id s.drawings ≡ some d
    pub enabled : d.enabled ≡ true
    pub tenant : d.tenant_id ≡ principal.tenant_id
    pub owner : d.owner_subject_id ≡ principal.subject_id
    pub of_project : OwnProject online d.project_id project w
    pub workstation : d.workstation_id ≡ project.workstation_id

module _ (ttl : ℕ) (digests : Digests) where
  abbrev service : GatewayService Repository
  service = in_memory ttl digests

  module _ (principal : PrincipalContext) (online : Bool) (s : Repository) where
    pub workstation-ok :
        (id : WorkstationId) (w : WorkstationRecord) (t : Repository)
        → require_workstation service principal id online s ≡ (ok w, t)
        → (s ≡ t) × OwnWorkstation s principal online id w
    unfolding require_workstation get_workstation
    workstation-ok id w t h = elim (Option-cases (lookup id s.workstations)) [
      | inl missing ↦ absurd (ground (arith, missing))
      | inr (x, found) ↦ (
        ground (arith, found),
        record {
          found = ground (arith, found);
          enabled = ground (arith, found);
          tenant = ground (arith, found);
          owner = ground (arith, found);
          up = ground (arith, found);
        },
      )
    ]

    -- The test of the two records that a drawing leads through.
    abbrev stranger : Bool → ℕ → ℕ → Bool
    stranger enabled tenant owner =
        not enabled || (not (tenant == principal.tenant_id) || not (owner == principal.subject_id))

    abbrev project_last : ProjectRecord → Exec Error Repository (ProjectRecord × WorkstationRecord)
    project_last p =
        require_workstation service principal p.workstation_id online >>= λ w. pure (p, w)

    pub project-ok :
        (id : ProjectId) (both : ProjectRecord × WorkstationRecord) (t : Repository)
        → require_project service principal id online s ≡ (ok both, t)
        → (s ≡ t) × OwnProject s principal online id both.0 both.1
    unfolding require_project get_project
    project-ok id both t h = elim (Option-cases (lookup id s.projects)) [
      | inl missing ↦ absurd (ground (arith, missing))
      | inr (p, found) ↦
          let (x, u, e, k) =
            bind-ok
              (raise_if (stranger p.enabled p.tenant_id p.owner_subject_id)
                (gateway_error GatewayCode.not_found))
              (λ _. project_last p) s both t (rw found at h) in
          let (own, same) =
            raise_if-ok (stranger p.enabled p.tenant_id p.owner_subject_id)
              (gateway_error GatewayCode.not_found) s x u e in
          let (w, y, e2, k2) =
            bind-ok (require_workstation service principal p.workstation_id online)
              (λ w. pure (p, w)) u both t k in
          let (same2, workstation) = workstation-ok p.workstation_id w y (
            subst (λ r. require_workstation service principal p.workstation_id online r ≡ (ok w, y))
              (sym same) e2) in
          let pair : both ≡ (p, w) = ground (arith, k2) in
          let last : y ≡ t = ground (arith, k2) in
          (
            same2 ∙ last,
            subst
                (λ (b : ProjectRecord × WorkstationRecord).
                  OwnProject s principal online id b.0 b.1)
                (sym pair)
                (record {
                  found = found;
                  enabled = ground (arith, own);
                  tenant = ground (arith, own);
                  owner = ground (arith, own);
                  workstation = workstation;
                }),
          )
    ]

    abbrev drawing_end :
        DrawingRecord
        → ProjectRecord × WorkstationRecord
        → Exec Error Repository (DrawingRecord × WorkstationRecord)
    drawing_end d both =
        raise_if (not (d.workstation_id == both.0.workstation_id))
          (gateway_error GatewayCode.not_found)
        >> pure (d, both.1)

    abbrev drawing_last : DrawingRecord → Exec Error Repository (DrawingRecord × WorkstationRecord)
    drawing_last d = require_project service principal d.project_id online >>= drawing_end d

    pub drawing-ok :
        (id : DrawingId) (both : DrawingRecord × WorkstationRecord) (t : Repository)
        → require_drawing service principal id online s ≡ (ok both, t)
        → (s ≡ t) × OwnDrawing s principal online id both.0 both.1
    unfolding require_drawing get_drawing
    drawing-ok id both t h = elim (Option-cases (lookup id s.drawings)) [
      | inl missing ↦ absurd (ground (arith, missing))
      | inr (d, found) ↦
          let (x, u, e, k) =
            bind-ok
              (raise_if (stranger d.enabled d.tenant_id d.owner_subject_id)
                (gateway_error GatewayCode.not_found))
              (λ _. drawing_last d) s both t (rw found at h) in
          let (own, same) =
            raise_if-ok (stranger d.enabled d.tenant_id d.owner_subject_id)
              (gateway_error GatewayCode.not_found) s x u e in
          let (pw, y, e2, k2) =
            bind-ok (require_project service principal d.project_id online) (drawing_end d) u both t
              k in
          let (same2, project) = project-ok d.project_id pw y (
            subst (λ r. require_project service principal d.project_id online r ≡ (ok pw, y))
              (sym same) e2) in
          let (z, t', e3, k3) =
            bind-ok
              (raise_if (not (d.workstation_id == pw.0.workstation_id))
                (gateway_error GatewayCode.not_found))
              (λ _. pure (d, pw.1)) y both t k2 in
          let (placed, same3) =
            raise_if-ok (not (d.workstation_id == pw.0.workstation_id))
              (gateway_error GatewayCode.not_found) y z t' e3 in
          let pair : both ≡ (d, pw.1) = ground (arith, k3) in
          let last : t' ≡ t = ground (arith, k3) in
          (
            same2 ∙ same3 ∙ last,
            subst
                (λ (b : DrawingRecord × WorkstationRecord).
                  OwnDrawing s principal online id b.0 b.1)
                (sym pair)
                (record {
                  project = pw.0;
                  found = found;
                  enabled = ground (arith, own);
                  tenant = ground (arith, own);
                  owner = ground (arith, own);
                  of_project = project;
                  workstation = ground (arith, placed);
                }),
          )
    ]
