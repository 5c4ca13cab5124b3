-- ===== src/Gateway/Service/Retries.antt =====
-- `worker_complete` over the in-memory repository, called a second time.
use cadplot_mcp.Prelude.{
  ℕ, ◌≡◌, refl, sym, ap, subst, ◌∙◌, true, false, not, Option, none, some, arith, if◌then◌else◌,
  inl, inr, Bool-cases,
}
use cadplot_mcp.Prelude.Classes.{nat_eq}
use cadplot_mcp.Prelude.Results.{
  ok, Exec, pure, raise_if, ◌>>=◌, ◌>>◌, bind-ok, bind-step, raise_if-ok,
}
use cadplot_mcp.Gateway.Errors.{GatewayCode, Error, gateway_error}
use cadplot_mcp.Gateway.Models.{
  OperationId, Instant, OperationState, TaskResult, WorkerContext, WorkstationRecord,
  OperationRecord, OperationView, view_of,
}
use cadplot_mcp.Gateway.Models.Equality.{result_eq_iff}
use cadplot_mcp.Gateway.Operation.{is_succeeded}
use cadplot_mcp.Gateway.Repository.{Repository, set_operation}
use cadplot_mcp.Gateway.Repository.Workers.{completed_record}
use cadplot_mcp.Gateway.Models.Bounds.{result_in_bounds}
use cadplot_mcp.Gateway.Repository.Application.{same_result}
use cadplot_mcp.Gateway.Repository.Invariant.{IsValid}
use cadplot_mcp.Gateway.Service.{
  Digests, GatewayService, require_worker_workstation, require_worker_operation,
}
use cadplot_mcp.Gateway.Service.Passed.{
  Employed, Mine, worker_workstation-ok, worker_workstation-step, worker_operation-ok,
  worker_operation-step,
}
use cadplot_mcp.Gateway.Service.Finished.{finish_view-ok, Mine-written}
use cadplot_mcp.Gateway.Service.Bindings.{invalid_result, validate_result_binding}
use cadplot_mcp.Gateway.Service.Worker.{
  is_catalog_result, require_valid, finish_view, worker_complete,
}
use cadplot_mcp.Gateway.Service.InMemory.{in_memory}

module _ (ttl : ℕ) (digests : Digests) where
  abbrev service : GatewayService Repository
  service = in_memory ttl digests

  -- The check of a result without catalog rows reads the task alone.
  binding_again :
      (r q : OperationRecord) (s t u : Repository) (x : Unit {0}) (result : TaskResult)
      → is_catalog_result result ≡ false
      → q.task ≡ r.task
      → validate_result_binding service r result s ≡ (ok x, t)
      → (s ≡ t) × (validate_result_binding service q result u ≡ (ok tt, u))
  unfolding validate_result_binding
  binding_again r q s t u x (TaskResult.validate_environment ready codes) c same h =
      ground (arith, same)
  binding_again r q s t u x (TaskResult.list_projects ids) c same h = absurd cc
  binding_again r q s t u x (TaskResult.scan_drawings y) c same h = absurd cc
  binding_again r q s t u x (TaskResult.inspect_drawing y) c same h = ground (arith, same)
  binding_again r q s t u x (TaskResult.create_publish_plan y) c same h = ground (arith, same)
  binding_again r q s t u x (TaskResult.translation d y) c same h = ground (arith, same)

  -- `worker_complete` in its parts, from the last to the first: a retry or the end of what runs, the
  -- three checks of the result, and the reading of the operation.
  module _ (reading : Option Instant) (worker : WorkerContext) (id : OperationId)
      (result : TaskResult) where
    abbrev complete_last : OperationRecord → Exec Error Repository OperationView
    complete_last r =
        if is_succeeded r.state
        then raise_if (not (same_result r.result result)) (gateway_error GatewayCode.invalid_state)
          >> pure (view_of r)
        else finish_view service reading worker id OperationState.succeeded (some result) none

    abbrev complete_bound : OperationRecord → Exec Error Repository OperationView
    complete_bound r = validate_result_binding service r result >> complete_last r

    abbrev complete_kind : OperationRecord → Exec Error Repository OperationView
    complete_kind r = raise_if (is_catalog_result result) invalid_result >> complete_bound r

    abbrev complete_valid : OperationRecord → Exec Error Repository OperationView
    complete_valid r = require_valid result >> complete_kind r

    abbrev complete_found : Exec Error Repository OperationView
    complete_found = require_worker_operation service worker id >>= complete_valid

    -- Where a worker's operation has succeeded with this result, completing it returns it as it is.
    complete_stored :
        (s : Repository) (w : WorkstationRecord) (r : OperationRecord)
        → Employed s worker w
        → Mine s worker id r
        → result_in_bounds result ≡ true
        → is_catalog_result result ≡ false
        → validate_result_binding service r result s ≡ (ok tt, s)
        → is_succeeded r.state ≡ true
        → same_result r.result result ≡ true
        → worker_complete service reading worker id result s ≡ (ok (view_of r), s)
    unfolding worker_complete
    complete_stored s w r e m valid other bound done same =
        bind-step (require_worker_workstation service worker false) (λ _. complete_found) s w s
          (worker_workstation-step ttl digests worker s w e)
        ∙ bind-step (require_worker_operation service worker id) complete_valid s r s
            (worker_operation-step ttl digests worker id s r m)
        ∙ bind-step (require_valid result) (λ _. complete_kind r) s tt s
            (ap (λ b. raise_if (not b) invalid_result s) valid)
        ∙ bind-step (raise_if (is_catalog_result result) invalid_result) (λ _. complete_bound r) s
            tt s (ap (λ b. raise_if b invalid_result s) other)
        ∙ bind-step (validate_result_binding service r result) (λ _. complete_last r) s tt s bound
        ∙ rw (done, same) refl

    -- What a completion that returned had read and checked.
    record Completed (s t : Repository) (view : OperationView) : Type 0 where
      w : WorkstationRecord
      r : OperationRecord
      employed : Employed s worker w
      mine : Mine s worker id r
      valid : result_in_bounds result ≡ true
      other : is_catalog_result result ≡ false
      bound : validate_result_binding service r result s ≡ (ok tt, s)
      last : complete_last r s ≡ (ok view, t)

    completed :
        (s t : Repository) (view : OperationView)
        → worker_complete service reading worker id result s ≡ (ok view, t)
        → Completed s t view
    unfolding worker_complete
    completed s t view h =
        let (w, s1, e1, h1) =
          bind-ok (require_worker_workstation service worker false) (λ _. complete_found) s view t
            h in
        let (p1, employed) = worker_workstation-ok ttl digests worker s w s1 e1 in
        let (r, s2, e2, h2) =
          bind-ok (require_worker_operation service worker id) complete_valid s1 view t h1 in
        let (p2, mine) = worker_operation-ok ttl digests worker id s1 r s2 e2 in
        let (x3, s3, e3, h3) = bind-ok (require_valid result) (λ _. complete_kind r) s2 view t h2 in
        let (b3, p3) = raise_if-ok (not (result_in_bounds result)) invalid_result s2 x3 s3 e3 in
        let (x4, s4, e4, h4) =
          bind-ok (raise_if (is_catalog_result result) invalid_result) (λ _. complete_bound r) s3
            view t h3 in
        let (b4, p4) = raise_if-ok (is_catalog_result result) invalid_result s3 x4 s4 e4 in
        let (x5, s5, e5, h5) =
          bind-ok (validate_result_binding service r result) (λ _. complete_last r) s4 view t h4 in
        let (p5, bound) = binding_again r r s4 s5 s x5 result b4 refl e5 in
        record {
          w = w;
          r = r;
          employed = employed;
          mine = subst (λ u. Mine u worker id r) (sym p1) mine;
          valid = ground (arith, b3);
          other = b4;
          bound = bound;
          last = subst (λ u. complete_last r u ≡ (ok view, t)) (sym (p1 ∙ p2 ∙ p3 ∙ p4 ∙ p5)) h5;
        }

  -- The worker that repeats a `worker_complete` that was accepted in a valid store gets the same
  -- view again, whatever its clock reads, and the store stays as it is.
  pub worker_complete_again :
      (s t : Repository) (v : IsValid s) (worker : WorkerContext) (id : OperationId)
      (result : TaskResult) (first second : Option Instant) (view : OperationView)
      → worker_complete service first worker id result s ≡ (ok view, t)
      → worker_complete service second worker id result t ≡ (ok view, t)
  worker_complete_again s t v worker id result first second view h =
      let c = completed first worker id result s t view h in
      elim (Bool-cases (is_succeeded c.r.state)) [
        | inl done ↦
            let last = rw done at c.last in
            let same : same_result c.r.result result ≡ true = ground (arith, last) in
            let shown : view ≡ view_of c.r = ground (arith, last, same) in
            let kept : s ≡ t = ground (arith, last, same) in
            subst (λ u. worker_complete service second worker id result u ≡ (ok view, u)) kept
              (complete_stored second worker id result s c.w c.r c.employed c.mine c.valid c.other
                  c.bound done same
                ∙ ap (λ x. (ok x, s)) (sym shown))
        | inr pending ↦
            let (now, shown, written) =
              finish_view-ok ttl digests s t v worker id c.r OperationState.succeeded (some result)
                none first view c.mine (rw pending at c.last) in
            let q = completed_record c.r OperationState.succeeded now (some result) none in
            let (p, bound) =
              binding_again c.r q s s (set_operation id q s) tt result c.other refl c.bound in
            subst (λ u. worker_complete service second worker id result u ≡ (ok view, u))
              (sym written)
              (complete_stored second worker id result (set_operation id q s) c.w q
                  (record {
                    found = c.employed.found;
                    enabled = c.employed.enabled;
                    tenant = c.employed.tenant;
                  })
                  (Mine-written s worker id c.r q c.mine refl refl) c.valid c.other bound refl
                  ((result_eq_iff result result).1 refl)
                ∙ ap (λ x. (ok x, set_operation id q s)) (sym shown))
      ]
