-- ===== src/Gateway/Repository/Registering.antt =====
-- Sequences of the calls that write the catalog of `InMemoryGatewayRepository`, its workstations,
-- projects and drawings, with any arguments and outcomes.
use cadplot_mcp.Prelude.{◌≡◌, subst, Bool, List}
use cadplot_mcp.Gateway.Models.{
  TenantId, WorkstationId, OperationId, Instant, TaskResult, WorkstationRecord, ProjectRecord,
  DrawingRecord,
}
use cadplot_mcp.Gateway.Repository.{
  Repository, add_workstation, upsert_workstation, set_workstation_online, add_project,
  upsert_project, add_drawing, upsert_drawing,
}
use cadplot_mcp.Gateway.Repository.Application.{apply_worker_success}
use cadplot_mcp.Gateway.Repository.Ownership.{
  Kept, Kept-refl, Kept-trans, add_workstation-Kept, upsert_workstation-Kept,
  set_workstation_online-Kept, add_project-Kept, upsert_project-Kept, add_drawing-Kept,
  upsert_drawing-Kept,
}
use cadplot_mcp.Gateway.Repository.Catalog.{IsOwned}
use cadplot_mcp.Gateway.Repository.Reported.{apply_worker_success-Kept}

-- The calls that change the catalog, with their arguments.
pub data CatalogCall : Type 0 where
  adds_workstation upserts_workstation : WorkstationRecord → CatalogCall
  sets_online : WorkstationId → Bool → CatalogCall
  adds_project upserts_project : ProjectRecord → CatalogCall
  adds_drawing upserts_drawing : DrawingRecord → CatalogCall
  applies :
      OperationId
      → TenantId
      → WorkstationId
      → Instant
      → TaskResult
      → List ProjectRecord
      → List DrawingRecord
      → CatalogCall

-- The store after a call, whether it returned or raised.
unfoldable pub register : Repository → CatalogCall → Repository
register s (adds_workstation w) = (add_workstation w s).1
register s (upserts_workstation w) = (upsert_workstation w s).1
register s (sets_online id online) = (set_workstation_online id online s).1
register s (adds_project r) = (add_project r s).1
register s (upserts_project r) = (upsert_project r s).1
register s (adds_drawing r) = (add_drawing r s).1
register s (upserts_drawing r) = (upsert_drawing r s).1
register s (applies id t w now result ps ds) = (apply_worker_success id t w now result ps ds s).1

-- A store that such calls lead to, in any order.
pub data Registers (s : Repository) : Repository → Type 0 where
  here : Registers s s
  next : {t u : Repository} → Registers s t → (c : CatalogCall) → register t c ≡ u → Registers s u

register-Kept : (s : Repository) (c : CatalogCall) → IsOwned s → Kept s (register s c)
unfolding register
register-Kept s (adds_workstation w) v = add_workstation-Kept s v w
register-Kept s (upserts_workstation w) v = upsert_workstation-Kept s v w
register-Kept s (sets_online id online) v = set_workstation_online-Kept s v id online
register-Kept s (adds_project r) v = add_project-Kept s v r
register-Kept s (upserts_project r) v = upsert_project-Kept s v r
register-Kept s (adds_drawing r) v = add_drawing-Kept s v r
register-Kept s (upserts_drawing r) v = upsert_drawing-Kept s v r
register-Kept s (applies id t w now result ps ds) v =
    apply_worker_success-Kept s v id now result ps ds t w

-- From a catalog with the ownership invariant, after any sequence of its calls and of applications
-- of worker results, each with any arguments and returning or raising, the invariant holds, every
-- stored record is still there, and none has changed its tenant, owner or place.
pub Registers-Kept : {s t : Repository} → IsOwned s → Registers s t → Kept s t
Registers-Kept {s} v here = Kept-refl s v
Registers-Kept {s} v (next {t = t} before c e) =
    let k = Registers-Kept v before in subst (Kept s) e (Kept-trans k (register-Kept t c k.owned))
