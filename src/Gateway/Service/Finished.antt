-- ===== src/Gateway/Service/Finished.antt =====
-- The end of an operation by its worker, where it returned: what the store has then.
use cadplot_mcp.Prelude.{ℕ, ◌≡◌, true, Option, none, some, arith, inl, inr}
use cadplot_mcp.Prelude.Classes.{nat_eq}
use cadplot_mcp.Prelude.Results.{ok, bind-ok}
use cadplot_mcp.Prelude.Dicts.{lookup, lookup-insert_self}
use cadplot_mcp.Gateway.Models.{
  TenantId, WorkstationId, OperationId, Instant, SafeCode, OperationState, TaskResult,
  WorkerContext, OperationRecord, OperationView, view_of,
}
use cadplot_mcp.Gateway.Operation.Shape.{refresh_due-shaped, updated-cases}
use cadplot_mcp.Gateway.Repository.Outcomes.{refreshed_halted}
use cadplot_mcp.Gateway.Ports.{TransitionStatus, TransitionOutcome}
use cadplot_mcp.Gateway.Repository.{Repository, set_operation}
use cadplot_mcp.Gateway.Repository.Workers as Ends
use cadplot_mcp.Gateway.Repository.Operations.{on_device}
use cadplot_mcp.Gateway.Repository.Workers.{is_target, outcome, completed_record}
use cadplot_mcp.Gateway.Repository.Invariant.{IsValid}
use cadplot_mcp.Gateway.Repository.Transitions.{found-IsShaped}
use cadplot_mcp.Gateway.Service.{Digests, GatewayService, transition_view}
use cadplot_mcp.Gateway.Service.Passed.{Mine}
use cadplot_mcp.Gateway.Service.Worker.{finish_view}
use cadplot_mcp.Gateway.Service.InMemory.{in_memory}

module _ (s : Repository) (v : IsValid s) (id : OperationId) (tenant : TenantId)
    (workstation : WorkstationId) (now : Instant) (r : OperationRecord)
    (found : lookup id s.operations ≡ some r) (mine : on_device tenant workstation r ≡ true) where
  -- Where `finish_operation` reports an update, the store has the completed record.
  finish_updated :
      (state : OperationState) (result : Option TaskResult) (code : Option SafeCode)
      (o : TransitionOutcome) (t : Repository)
      → Ends.finish_operation id tenant workstation now state result code s ≡ (ok o, t)
      → o.status ≡ TransitionStatus.updated
      → (o ≡ outcome TransitionStatus.updated (completed_record r state now result code))
        × (t ≡ set_operation id (completed_record r state now result code) s)
  unfolding Ends.finish_operation
  finish_updated state result code o t h u =
      elim (updated-cases (completed_record r state now result code)) [
        | inl (accepted, shaped) ↦ ground (
          arith,
          found,
          mine,
          refresh_due-shaped r now (found-IsShaped s v id r found),
          refreshed_halted r now,
          accepted,
        )
        | inr (e, refused) ↦ ground (
          arith,
          found,
          mine,
          refresh_due-shaped r now (found-IsShaped s v id r found),
          refreshed_halted r now,
          refused,
        )
      ]

-- A worker's record, rewritten under its identifier, is still the worker's.
pub Mine-written :
    (s : Repository) (worker : WorkerContext) (id : OperationId) (r q : OperationRecord)
    → Mine s worker id r
    → q.tenant_id ≡ r.tenant_id
    → q.workstation_id ≡ r.workstation_id
    → Mine (set_operation id q s) worker id q
Mine-written s worker id r q m tenant workstation = record {
  found = lookup-insert_self id q s.operations;
  mine = ground (arith, m.mine, tenant, workstation);
}

module _ (ttl : ℕ) (digests : Digests) where
  abbrev service : GatewayService Repository
  service = in_memory ttl digests

  pub finish_view-ok :
      (s t : Repository) (v : IsValid s) (worker : WorkerContext) (id : OperationId)
      (r : OperationRecord) (state : OperationState) (result : Option TaskResult)
      (code : Option SafeCode) (reading : Option Instant) (view : OperationView)
      → Mine s worker id r
      → finish_view service reading worker id state result code s ≡ (ok view, t)
      → (now : Instant) × (view ≡ view_of (completed_record r state now result code))
        × (t ≡ set_operation id (completed_record r state now result code) s)
  finish_view-ok s t v worker id r state result code none view m h = absurd (ground arith)
  finish_view-ok s t v worker id r state result code (some now) view m h =
      let (o, u, finished, shown) =
        bind-ok
          (service.operations.finish_operation id worker.tenant_id worker.workstation_id now state
            result code)
          transition_view s view t h in
      let updated : o.status ≡ TransitionStatus.updated = ground (arith, shown) in
      let (e, written) =
        finish_updated s v id worker.tenant_id worker.workstation_id now r m.found m.mine state
          result code o u finished updated in
      (now, ground (arith, e, shown), ground (arith, e, shown, written))
