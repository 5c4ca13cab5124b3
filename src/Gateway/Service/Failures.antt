-- ===== src/Gateway/Service/Failures.antt =====
-- `worker_fail`, and the codes that are stored with a failure.
use cadplot_mcp.Prelude.{
  ℕ, String, ◌≡◌, refl, sym, ap, subst, ◌∙◌, Bool, true, false, not, Option, none, some, arith,
  List, [], ◌∷◌, All, any, if◌then◌else◌, inl, inr, Bool-cases, str_eq, eq_iff,
}
use cadplot_mcp.Prelude.Classes.{nat_eq}
use cadplot_mcp.Prelude.Dicts.{lookup}
use cadplot_mcp.Gateway.Operation.Shape.{attention_safe}
use cadplot_mcp.Gateway.Service.Enqueue.{is_translation}
use cadplot_mcp.Prelude.Results.{ok, Exec, pure, raise_if, ◌>>=◌, ◌>>◌, bind-ok, bind-step}
use cadplot_mcp.Gateway.Errors.{GatewayCode, Error, gateway_error}
use cadplot_mcp.Gateway.Models.{
  OperationId, Instant, WorkerContext, WorkstationRecord, OperationRecord, OperationView, view_of,
}
use cadplot_mcp.Gateway.Operation.{is_running}
use cadplot_mcp.Gateway.Repository.{Repository, set_operation}
use cadplot_mcp.Gateway.Repository.Workers.{completed_record}
use cadplot_mcp.Gateway.Models.Bounds.{is_safe_code}
use cadplot_mcp.Gateway.Repository.Invariant.{IsValid}
use cadplot_mcp.Gateway.Service.{
  Digests, GatewayService, sanitize_worker_error, safe_worker_error_codes,
  require_worker_workstation, require_worker_operation,
}
use cadplot_mcp.Gateway.Service.Passed.{
  Employed, Mine, worker_workstation-ok, worker_workstation-step, worker_operation-ok,
  worker_operation-step,
}
use cadplot_mcp.Gateway.Service.Finished.{finish_view-ok, Mine-written}
use cadplot_mcp.Gateway.Service.Worker.{
  failure_state, failure_code, has_failed, same_code, finish_view, worker_fail,
  worker_failure_needs_application,
}
use cadplot_mcp.Gateway.Service.InMemory.{in_memory}

-- A string that equals one of a list has what they all have.
All-any_eq :
    (P : String → Type 0) (value : String) (xs : List String)
    → any (str_eq value) xs ≡ true
    → All P xs
    → P value
unfolding any
All-any_eq P value [] h k = absurd cc
All-any_eq P value (x ∷ xs) h k = elim (Bool-cases (str_eq value x)) [
  | inl same ↦ subst P (sym ((eq_iff value x).0 same)) k.0
  | inr other ↦ All-any_eq P value xs (ground (arith, other)) k.1
]

codes_safe : All (λ c. is_safe_code c ≡ true) safe_worker_error_codes
unfolding is_safe_code
codes_safe =
    (refl, (refl, (refl, (refl, (refl, (refl, (refl, (refl, (refl, (refl, (refl, tt)))))))))))

failure_safe : is_safe_code "worker_failure" ≡ true
unfolding is_safe_code
failure_safe = refl

attention_known : any (str_eq "translation_attention_required") safe_worker_error_codes ≡ true
unfolding any
attention_known = refl

failure_known : any (str_eq "worker_failure") safe_worker_error_codes ≡ true
unfolding any
failure_known = refl

same_code_eq : (a : Option String) (c : String) → same_code a c ≡ true → a ≡ some c
same_code_eq none c h = absurd cc
same_code_eq (some a) c h = ap some ((eq_iff a c).0 h)

-- One of the service's codes, in the form of a safe code, and the reported one where that is such a
-- code and is not replaced.
abbrev pub IsReported : String → Bool → String → Type 0
IsReported code attention c =
    (any (str_eq c) safe_worker_error_codes ≡ true)
    × (is_safe_code c ≡ true)
    × (attention ≡ false → any (str_eq code) safe_worker_error_codes ≡ true → c ≡ code)

listed_safe : (c : String) → any (str_eq c) safe_worker_error_codes ≡ true → is_safe_code c ≡ true
listed_safe c known =
    All-any_eq (λ d. is_safe_code d ≡ true) c safe_worker_error_codes known codes_safe

failure_code-IsReported :
    (r : OperationRecord) (code : String) (attention : Bool)
    → IsReported code attention (failure_code r code attention)
unfolding sanitize_worker_error
failure_code-IsReported r code true = elim (Bool-cases (is_translation r.task)) [
  | inl translates ↦ rw translates (attention_known, attention_safe, λ e. absurd cc)
  | inr other ↦ rw other (failure_known, failure_safe, λ e. absurd cc)
]
failure_code-IsReported r code false =
    elim (Bool-cases (any (str_eq code) safe_worker_error_codes)) [
      | inl known ↦ rw known (known, listed_safe code known, λ e h. refl)
      | inr unknown ↦ rw unknown (failure_known, failure_safe, λ e h. absurd cc)
    ]

module _ (ttl : ℕ) (digests : Digests) where
  abbrev service : GatewayService Repository
  service = in_memory ttl digests

  -- `worker_fail` in its parts, from the last to the first, and likewise the question whether it is
  -- still needed.
  module _ (reading : Option Instant) (worker : WorkerContext) (id : OperationId) (code : String)
      (attention : Bool) where
    abbrev fail_last : OperationRecord → Exec Error Repository OperationView
    fail_last r =
        if has_failed attention r.state
        then raise_if (not (same_code r.error_code (failure_code r code attention)))
            (gateway_error GatewayCode.invalid_state)
          >> pure (view_of r)
        else finish_view service reading worker id (failure_state attention) none
            (some (failure_code r code attention))

    abbrev fail_found : Exec Error Repository OperationView
    fail_found = require_worker_operation service worker id >>= fail_last

    abbrev needs_last : OperationRecord → Exec Error Repository Bool
    needs_last r =
        if has_failed attention r.state
        then raise_if (not (same_code r.error_code (failure_code r code attention)))
            (gateway_error GatewayCode.invalid_state)
          >> pure false
        else raise_if (not (is_running r.state)) (gateway_error GatewayCode.invalid_state)
          >> pure true

    abbrev needs_found : Exec Error Repository Bool
    needs_found = require_worker_operation service worker id >>= needs_last

    -- Where a worker's operation has failed with this code, failing it again returns it as it is, and
    -- nothing is left to be done.
    fail_stored :
        (s : Repository) (w : WorkstationRecord) (r : OperationRecord)
        → Employed s worker w
        → Mine s worker id r
        → has_failed attention r.state ≡ true
        → same_code r.error_code (failure_code r code attention) ≡ true
        → (worker_fail service reading worker id code attention s ≡ (ok (view_of r), s))
          × (worker_failure_needs_application service worker id code attention s ≡ (ok false, s))
    unfolding worker_fail worker_failure_needs_application
    fail_stored s w r e m done same = (
      bind-step (require_worker_workstation service worker false) (λ _. fail_found) s w s
            (worker_workstation-step ttl digests worker s w e)
          ∙ bind-step (require_worker_operation service worker id) fail_last s r s
              (worker_operation-step ttl digests worker id s r m)
          ∙ rw (done, same) refl,
      bind-step (require_worker_workstation service worker false) (λ _. needs_found) s w s
            (worker_workstation-step ttl digests worker s w e)
          ∙ bind-step (require_worker_operation service worker id) needs_last s r s
              (worker_operation-step ttl digests worker id s r m)
          ∙ rw (done, same) refl,
    )

    -- What a failure that returned had read.
    record Failed (s t : Repository) (view : OperationView) : Type 0 where
      w : WorkstationRecord
      r : OperationRecord
      employed : Employed s worker w
      mine : Mine s worker id r
      last : fail_last r s ≡ (ok view, t)

    failed :
        (s t : Repository) (view : OperationView)
        → worker_fail service reading worker id code attention s ≡ (ok view, t)
        → Failed s t view
    unfolding worker_fail
    failed s t view h =
        let (w, s1, e1, h1) =
          bind-ok (require_worker_workstation service worker false) (λ _. fail_found) s view t h in
        let (p1, employed) = worker_workstation-ok ttl digests worker s w s1 e1 in
        let (r, s2, e2, h2) =
          bind-ok (require_worker_operation service worker id) fail_last s1 view t h1 in
        let (p2, mine) = worker_operation-ok ttl digests worker id s1 r s2 e2 in
        record {
          w = w;
          r = r;
          employed = employed;
          mine = subst (λ u. Mine u worker id r) (sym p1) mine;
          last = subst (λ u. fail_last r u ≡ (ok view, t)) (sym (p1 ∙ p2)) h2;
        }

  has_failed-failure_state :
      (attention : Bool) → has_failed attention (failure_state attention) ≡ true
  has_failed-failure_state true = refl
  has_failed-failure_state false = refl

  -- The worker that repeats a `worker_fail` that was accepted in a valid store gets the same view
  -- again, whatever its clock reads, is told beforehand that nothing is left to be done, and the
  -- store stays as it is.
  pub worker_fail_again :
      (s t : Repository) (v : IsValid s) (worker : WorkerContext) (id : OperationId) (code : String)
      (attention : Bool) (first second : Option Instant) (view : OperationView)
      → worker_fail service first worker id code attention s ≡ (ok view, t)
      → (worker_fail service second worker id code attention t ≡ (ok view, t))
        × (worker_failure_needs_application service worker id code attention t ≡ (ok false, t))
  worker_fail_again s t v worker id code attention first second view h =
      let f = failed first worker id code attention s t view h in
      elim (Bool-cases (has_failed attention f.r.state)) [
        | inl done ↦
            let last = rw done at f.last in
            let same : same_code f.r.error_code (failure_code f.r code attention) ≡ true =
              ground (arith, last) in
            let shown : view ≡ view_of f.r = ground (arith, last, same) in
            let kept : s ≡ t = ground (arith, last, same) in
            let (again, needless) =
              fail_stored second worker id code attention s f.w f.r f.employed f.mine done same in
            subst
              (λ u.
                (worker_fail service second worker id code attention u ≡ (ok view, u))
                × (worker_failure_needs_application service worker id code attention u
                    ≡ (ok false, u)))
              kept (again ∙ ap (λ x. (ok x, s)) (sym shown), needless)
        | inr pending ↦
            let (now, shown, written) =
              finish_view-ok ttl digests s t v worker id f.r (failure_state attention) none
                (some (failure_code f.r code attention)) first view f.mine (rw pending at f.last) in
            let q =
              completed_record f.r (failure_state attention) now none
                (some (failure_code f.r code attention)) in
            let (again, needless) =
              fail_stored second worker id code attention (set_operation id q s) f.w q
                (record {
                  found = f.employed.found;
                  enabled = f.employed.enabled;
                  tenant = f.employed.tenant;
                })
                (Mine-written s worker id f.r q f.mine refl refl)
                (has_failed-failure_state attention)
                ((eq_iff (failure_code f.r code attention) (failure_code f.r code attention)).1
                  refl) in
            subst
              (λ u.
                (worker_fail service second worker id code attention u ≡ (ok view, u))
                × (worker_failure_needs_application service worker id code attention u
                    ≡ (ok false, u)))
              (sym written) (again ∙ ap (λ x. (ok x, set_operation id q s)) (sym shown), needless)
      ]

  -- After a `worker_fail` that was accepted in a valid store, the operation is stored with an error
  -- that is one of the service's codes and has the form of a safe code, whatever the worker sent and
  -- whether or not attention is required; a code of the service that the worker sent is stored as it
  -- is, unless attention is required. The view that is returned shows the stored operation.
  pub worker_fail_stores :
      (s t : Repository) (v : IsValid s) (worker : WorkerContext) (id : OperationId) (code : String)
      (attention : Bool) (reading : Option Instant) (view : OperationView)
      → worker_fail service reading worker id code attention s ≡ (ok view, t)
      → (q : OperationRecord) × (c : String) × (lookup id t.operations ≡ some q)
        × (q.error_code ≡ some c)
        × (view ≡ view_of q)
        × IsReported code attention c
  worker_fail_stores s t v worker id code attention reading view h =
      let f = failed reading worker id code attention s t view h in
      let c = failure_code f.r code attention in
      elim (Bool-cases (has_failed attention f.r.state)) [
        | inl done ↦
            let last = rw done at f.last in
            let same : same_code f.r.error_code c ≡ true = ground (arith, last) in
            let shown : view ≡ view_of f.r = ground (arith, last, same) in
            let kept : s ≡ t = ground (arith, last, same) in
            (
              f.r,
              c,
              subst (λ u. lookup id u.operations ≡ some f.r) kept f.mine.found,
              same_code_eq f.r.error_code c same,
              shown,
              failure_code-IsReported f.r code attention,
            )
        | inr pending ↦
            let (now, shown, written) =
              finish_view-ok ttl digests s t v worker id f.r (failure_state attention) none (some c)
                reading view f.mine (rw pending at f.last) in
            let q = completed_record f.r (failure_state attention) now none (some c) in
            (
              q,
              c,
              subst (λ u. lookup id u.operations ≡ some q) (sym written)
                  (Mine-written s worker id f.r q f.mine refl refl).found,
              refl,
              shown,
              failure_code-IsReported f.r code attention,
            )
      ]
