-- ===== src/Gateway/Service/Reports.antt =====
-- `worker_apply_success` over the in-memory repository: what it raises.
use cadplot_mcp.Prelude.{
  ℕ, ◌≡◌, refl, ◌==◌, false, not, Option, none, some, List, arith, Option-cases, inl, inr, ◌⊎◌,
}
use cadplot_mcp.Prelude.Classes.{nat_eq}
use cadplot_mcp.Prelude.Results.{
  Result, ok, err, Exec, raise, raise_if, ◌>>=◌, ◌>>◌, RaisesOnly-bind, RaisesOnly-pure,
  RaisesOnly-raise,
}
use cadplot_mcp.Gateway.Errors.{GatewayCode, Error, gateway_error}
use cadplot_mcp.Gateway.Models.{
  OperationId, Instant, WorkerContext, TaskResult, WorkstationRecord, ProjectRecord, DrawingRecord,
  OperationRecord, OperationView, view_of,
}
use cadplot_mcp.Gateway.Repository.{Repository}
use cadplot_mcp.Gateway.Service.{
  Digests, GatewayService, transition_view, require_worker_workstation, require_worker_operation,
}
use cadplot_mcp.Gateway.Ports.{TransitionStatus, TransitionOutcome}
use cadplot_mcp.Gateway.Service.Bindings.{validate_worker_application}
use cadplot_mcp.Gateway.Service.Worker.{
  require_valid, catch_application, apply_now, worker_apply_success,
}
use cadplot_mcp.Gateway.Service.InMemory.{in_memory}
use cadplot_mcp.Gateway.Service.Errors.{IsValue, IsGateway, apply_worker_success-IsValue}
use cadplot_mcp.Gateway.Service.Bounded.{
  Bounded, guard, guard_result, worker_workstation-Bounded, worker_operation-Bounded,
  application-Bounded,
}

module _ (ttl : ℕ) (digests : Digests) where
  abbrev service : GatewayService Repository
  service = in_memory ttl digests

  module _ (reading : Option Instant) (worker : WorkerContext) (id : OperationId)
      (result : TaskResult) (projects : List ProjectRecord) (drawings : List DrawingRecord) where
    -- What the `try` lets through.
    caught-Bounded :
        Bounded (catch_application (apply_now service reading worker id result projects drawings))
    caught-Bounded s e t h =
        of (apply_now service reading worker id result projects drawings s) refl
      where
        now_cases :
            (x : Error) (u : Repository)
            → apply_now service reading worker id result projects drawings s ≡ (err x, u)
            → IsValue x ⊎ (x ≡ gateway_error GatewayCode.clock_invalid)
        now_cases x u k = elim (Option-cases reading) [
          | inl naive ↦ inr (ground (arith, naive, k))
          | inr (now, read) ↦ inl (
              apply_worker_success-IsValue id now result projects drawings worker.tenant_id
                worker.workstation_id s x u (rw read at k))
        ]

        of :
            (p : Result Error TransitionOutcome × Repository)
            → apply_now service reading worker id result projects drawings s ≡ p
            → IsGateway e
        of (ok a, u) k = absurd (ground (arith, h, k))
        of (err x, u) k = elim (now_cases x u k) [
          | inl (code, value) ↦ (GatewayCode.invalid_result, ground (arith, h, k, value))
          | inr naive ↦ (GatewayCode.clock_invalid, ground (arith, h, k, naive))
        ]

    view-Bounded : (o : TransitionOutcome) → Bounded (transition_view o)
    view-Bounded o = of o.status o.operation
      where
        refused : (code : GatewayCode) → Bounded (raise {A = OperationView} (gateway_error code))
        refused code = RaisesOnly-raise IsGateway (gateway_error code) (code, refl)

        of :
            (status : TransitionStatus) (operation : Option OperationRecord)
            → Bounded (transition_view (record { status = status; operation = operation }))
        of TransitionStatus.not_found operation = refused GatewayCode.not_found
        of TransitionStatus.lease_expired operation = refused GatewayCode.lease_expired
        of TransitionStatus.operation_expired operation = refused GatewayCode.operation_expired
        of TransitionStatus.invalid_state operation = refused GatewayCode.invalid_state
        of TransitionStatus.updated none = refused GatewayCode.invalid_state
        of TransitionStatus.updated (some r) = RaisesOnly-pure IsGateway (view_of r)

    abbrev report_end : WorkstationRecord → OperationRecord → Exec Error Repository OperationView
    report_end w r =
        raise_if (not (w.owner_subject_id == r.owner_subject_id))
          (gateway_error GatewayCode.not_found)
        >> (require_valid result
            >> (validate_worker_application service r result projects drawings
                >> (catch_application (apply_now service reading worker id result projects drawings)
                    >>= transition_view)))

    report_end-Bounded : (w : WorkstationRecord) (r : OperationRecord) → Bounded (report_end w r)
    report_end-Bounded w r =
        RaisesOnly-bind IsGateway
          (raise_if (not (w.owner_subject_id == r.owner_subject_id))
            (gateway_error GatewayCode.not_found))
          (λ _.
            require_valid result
            >> (validate_worker_application service r result projects drawings
                >> (catch_application (apply_now service reading worker id result projects drawings)
                    >>= transition_view)))
          (guard _ GatewayCode.not_found)
          (λ _.
            RaisesOnly-bind IsGateway (require_valid result)
              (λ _.
                validate_worker_application service r result projects drawings
                >> (catch_application (apply_now service reading worker id result projects drawings)
                    >>= transition_view))
              (guard_result _)
              (λ _.
                RaisesOnly-bind IsGateway
                  (validate_worker_application service r result projects drawings)
                  (λ _.
                    catch_application (apply_now service reading worker id result projects drawings)
                    >>= transition_view)
                  (application-Bounded ttl digests projects drawings r result)
                  (λ _.
                    RaisesOnly-bind IsGateway
                      (catch_application
                        (apply_now service reading worker id result projects drawings))
                      transition_view caught-Bounded view-Bounded)))

    -- Whatever the report, the store and the clock: if `worker_apply_success` raises, it raises a
    -- `GatewayError`, never an error of the store, of the validator or of Python.
    pub worker_apply_success-Bounded :
        (s t : Repository) (e : Error)
        → worker_apply_success service reading worker id result projects drawings s ≡ (err e, t)
        → (code : GatewayCode) × (e ≡ gateway_error code)
    unfolding worker_apply_success
    worker_apply_success-Bounded s t e h =
        RaisesOnly-bind IsGateway (require_worker_workstation service worker false)
          (λ w. require_worker_operation service worker id >>= report_end w)
          (worker_workstation-Bounded ttl digests worker)
          (λ w.
            RaisesOnly-bind IsGateway (require_worker_operation service worker id) (report_end w)
              (worker_operation-Bounded ttl digests worker id) (report_end-Bounded w))
          s e t h
