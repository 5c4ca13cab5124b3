-- ===== src/Gateway/Service/Passed.antt =====
-- What the checks of the service have read where they let a call pass, over the in-memory repository.
use cadplot_mcp.Prelude.{ℕ, ◌≡◌, ◌==◌, true, false, some, arith, Option-cases, inl, inr}
use cadplot_mcp.Prelude.Classes.{nat_eq}
use cadplot_mcp.Prelude.Results.{ok}
use cadplot_mcp.Prelude.Dicts.{lookup}
use cadplot_mcp.Gateway.Models.{OperationId, WorkerContext, WorkstationRecord, OperationRecord}
use cadplot_mcp.Gateway.Repository.{Repository, get_workstation}
use cadplot_mcp.Gateway.Repository.Operations.{get_operation, on_device}
use cadplot_mcp.Gateway.Service.{Digests, require_worker_workstation, require_worker_operation}
use cadplot_mcp.Gateway.Service.InMemory.{in_memory}

-- A worker of the workstation's tenant, on a workstation that is enabled.
pub record Employed (s : Repository) (worker : WorkerContext) (w : WorkstationRecord) : Type 0 where
  pub found : lookup worker.workstation_id s.workstations ≡ some w
  pub enabled : w.enabled ≡ true
  pub tenant : (w.tenant_id == worker.tenant_id) ≡ true

-- The operation under this identifier is one of the worker's.
pub record Mine (s : Repository) (worker : WorkerContext) (id : OperationId) (r : OperationRecord)
    : Type 0 where
  pub found : lookup id s.operations ≡ some r
  pub mine : on_device worker.tenant_id worker.workstation_id r ≡ true

module _ (ttl : ℕ) (digests : Digests) where
  pub worker_workstation-ok :
      (worker : WorkerContext) (s : Repository) (w : WorkstationRecord) (t : Repository)
      → require_worker_workstation (in_memory ttl digests) worker false s ≡ (ok w, t)
      → (s ≡ t) × Employed s worker w
  unfolding require_worker_workstation get_workstation
  worker_workstation-ok worker s w t h =
      elim (Option-cases (lookup worker.workstation_id s.workstations)) [
        | inl missing ↦ absurd (ground (arith, missing))
        | inr (x, found) ↦ (
          ground (arith, found),
          record {
            found = ground (arith, found);
            enabled = ground (arith, found);
            tenant = ground (arith, found);
          },
        )
      ]

  pub worker_workstation-step :
      (worker : WorkerContext) (s : Repository) (w : WorkstationRecord)
      → Employed s worker w
      → require_worker_workstation (in_memory ttl digests) worker false s ≡ (ok w, s)
  unfolding require_worker_workstation get_workstation
  worker_workstation-step worker s w h = ground (arith, h.found, h.enabled, h.tenant)

  pub worker_operation-ok :
      (worker : WorkerContext) (id : OperationId) (s : Repository) (r : OperationRecord)
      (t : Repository)
      → require_worker_operation (in_memory ttl digests) worker id s ≡ (ok r, t)
      → (s ≡ t) × Mine s worker id r
  unfolding require_worker_operation get_operation
  worker_operation-ok worker id s r t h = elim (Option-cases (lookup id s.operations)) [
    | inl missing ↦ absurd (ground (arith, missing))
    | inr (x, found) ↦ (
      ground (arith, found),
      record { found = ground (arith, found); mine = ground (arith, found) },
    )
  ]

  pub worker_operation-step :
      (worker : WorkerContext) (id : OperationId) (s : Repository) (r : OperationRecord)
      → Mine s worker id r
      → require_worker_operation (in_memory ttl digests) worker id s ≡ (ok r, s)
  unfolding require_worker_operation get_operation
  worker_operation-step worker id s r h = ground (arith, h.found, h.mine)
