-- ===== src/Gateway/Service/Approval.antt =====
-- `enqueue_translation` for an `apply`: the plan that approves it.
use cadplot_mcp.Prelude.{
  ℕ, ◌≡◌, ◌<◌, sym, subst, ◌∙◌, true, not, Option, some, arith, Option-cases, inl, inr, ltb, ◌*◌,
}
use cadplot_mcp.Prelude.Classes.{nat_eq}
use cadplot_mcp.Prelude.Results.{ok, Exec, pure, raise_if, ◌>>=◌, ◌>>◌, bind-ok, raise_if-ok}
use cadplot_mcp.Prelude.Dicts.{lookup}
use cadplot_mcp.Protocol.Translation.{ApplyTranslation, TranslationRequest}
use cadplot_mcp.Gateway.Errors.{GatewayCode, Error, gateway_error}
use cadplot_mcp.Gateway.Models.{
  OperationId, Instant, IdempotencyKey, Scope, PrincipalContext, ReadTask, WorkstationRecord,
  DrawingRecord, OperationRecord, OperationView, TranslationEnqueueRequest,
}
use cadplot_mcp.Gateway.Operation.{is_succeeded}
use cadplot_mcp.Gateway.Repository.{Repository}
use cadplot_mcp.Gateway.Repository.Operations as Store
use cadplot_mcp.Gateway.Service.{
  Digests, GatewayService, require_drawing, require_scope, require_operation_owner,
}
use cadplot_mcp.Gateway.Service.InMemory.{in_memory}
use cadplot_mcp.Gateway.Service.Enqueue.{
  enqueue, enqueue_translation, translation_key, check_approval, plans,
}
use cadplot_mcp.Gateway.Service.Owned.{OwnDrawing, drawing-ok}
use cadplot_mcp.Gateway.Service.Access.{asked}

module _ (ttl : ℕ) (digests : Digests) (first second : Option Instant) (fresh : OperationId)
    (principal : PrincipalContext) where
  abbrev service : GatewayService Repository
  service = in_memory ttl digests

  -- The user's own operation that planned what is approved: it has succeeded, has not expired by the
  -- clock's first reading, is of the same workstation and drawing, and its plan is ready, changes
  -- something, and has the approved identifiers.
  pub record Planned (s : Repository) (d : DrawingRecord) (w : WorkstationRecord)
      (approval : ApplyTranslation) (r : OperationRecord) : Type 0 where
    pub now : Instant
    pub found : lookup approval.plan_operation_id s.operations ≡ some r
    pub own : asked principal r ≡ true
    pub succeeded : is_succeeded r.state ≡ true
    pub read : first ≡ some now
    pub open_until : now < r.expires_at
    pub workstation : r.workstation_id ≡ w.workstation_id
    pub plan : plans d.drawing_id approval r.result ≡ true

  check_approval-ok :
      (s t : Repository) (d : DrawingRecord) (w : WorkstationRecord) (approval : ApplyTranslation)
      (r : OperationRecord) (x : Unit {0})
      → lookup approval.plan_operation_id s.operations ≡ some r
      → asked principal r ≡ true
      → check_approval first w.workstation_id d.drawing_id approval r s ≡ (ok x, t)
      → (s ≡ t) × Planned s d w approval r
  check_approval-ok s t d w approval r x found own h = elim (Option-cases first) [
    | inl naive ↦ absurd (ground (arith, naive))
    | inr (now, read) ↦ (
      ground (arith, read),
      record {
        now = now;
        found = found;
        own = own;
        succeeded = ground (arith, read);
        read = read;
        open_until = ground (arith, read);
        workstation = ground (arith, read);
        plan = ground (arith, read);
      },
    )
  ]

  abbrev key_last :
      DrawingRecord
      → WorkstationRecord
      → ApplyTranslation
      → OperationRecord
      → Exec Error Repository IdempotencyKey
  key_last d w approval r =
      check_approval first w.workstation_id d.drawing_id approval r
      >> pure (digests.approval_key d.drawing_id approval.approved_plan_id)

  translation_key-ok :
      (s t : Repository) (d : DrawingRecord) (w : WorkstationRecord) (key given : IdempotencyKey)
      (approval : ApplyTranslation)
      → translation_key service first principal w d given (TranslationRequest.apply approval) s
        ≡ (ok key, t)
      → (s ≡ t)
        × (key ≡ digests.approval_key d.drawing_id approval.approved_plan_id)
        × (r : OperationRecord) × Planned s d w approval r
  unfolding Store.get_operation
  translation_key-ok s t d w key given approval h =
      elim (Option-cases (lookup approval.plan_operation_id s.operations)) [
        | inl missing ↦ absurd (ground (arith, missing))
        | inr (r, found) ↦
            let (r', u, e, k) =
              bind-ok (require_operation_owner principal (some r)) (key_last d w approval) s key t
                (rw found at h) in
            let own : asked principal r ≡ true = ground (arith, e) in
            let same : r' ≡ r = ground (arith, e, own) in
            let kept : s ≡ u = ground (arith, e, own) in
            let (x, y, e2, k2) =
              bind-ok (check_approval first w.workstation_id d.drawing_id approval r)
                (λ _. pure (digests.approval_key d.drawing_id approval.approved_plan_id)) s key t
                (subst (λ z. key_last d w approval r z ≡ (ok key, t)) (sym kept)
                  (subst (λ z. key_last d w approval z u ≡ (ok key, t)) same k)) in
            let (kept2, planned) = check_approval-ok s y d w approval r x found own e2 in
            let kept3 : y ≡ t = ground (arith, k2) in
            (kept2 ∙ kept3, ground (arith, k2), r, planned)
      ]

  abbrev translation_end :
      TranslationEnqueueRequest
      → DrawingRecord × WorkstationRecord
      → IdempotencyKey
      → Exec Error Repository OperationView
  translation_end q both key =
      enqueue service second fresh principal both.1 key
        (ReadTask.translation both.0.drawing_id q.request)

  abbrev translation_keyed :
      TranslationEnqueueRequest
      → DrawingRecord × WorkstationRecord
      → Exec Error Repository OperationView
  translation_keyed q both =
      translation_key service first principal both.1 both.0 q.idempotency_key q.request
      >>= translation_end q both

  abbrev translation_sized : TranslationEnqueueRequest → Exec Error Repository OperationView
  translation_sized q = require_drawing service principal q.drawing_id true >>= translation_keyed q

  abbrev translation_read : TranslationEnqueueRequest → Exec Error Repository OperationView
  translation_read q =
      raise_if (ltb (200 * 1024) (digests.request_size q))
        (gateway_error GatewayCode.translation_batch_too_large)
      >> translation_sized q

  -- What an accepted `apply` rests on: both scopes, an own drawing on an own workstation that is
  -- online, the plan, and an operation that is enqueued under a key made of the drawing and the plan
  -- alone.
  pub record Approved (s t : Repository) (q : TranslationEnqueueRequest)
      (approval : ApplyTranslation) (view : OperationView) : Type 0 where
    pub drawing : DrawingRecord
    pub workstation : WorkstationRecord
    pub planned : OperationRecord
    pub translates : principal.scopes Scope.translate ≡ true
    pub reads : principal.scopes Scope.read ≡ true
    pub own_drawing : OwnDrawing s principal true q.drawing_id drawing workstation
    pub plan : Planned s drawing workstation approval planned
    pub enqueued :
        enqueue service second fresh principal workstation
          (digests.approval_key drawing.drawing_id approval.approved_plan_id)
          (ReadTask.translation drawing.drawing_id q.request)
          s
        ≡ (ok view, t)

  translation_sized-Approved :
      (s t : Repository) (q : TranslationEnqueueRequest) (approval : ApplyTranslation)
      (view : OperationView)
      → q.request ≡ TranslationRequest.apply approval
      → principal.scopes Scope.translate ≡ true
      → principal.scopes Scope.read ≡ true
      → translation_sized q s ≡ (ok view, t)
      → Approved s t q approval view
  translation_sized-Approved s t q approval view asks translates reads h =
      let (both, s1, e1, h1) =
        bind-ok (require_drawing service principal q.drawing_id true) (translation_keyed q) s view t
          h in
      let (p1, own) = drawing-ok ttl digests principal true s q.drawing_id both s1 e1 in
      let (key, s2, e2, h2) =
        bind-ok (translation_key service first principal both.1 both.0 q.idempotency_key q.request)
          (translation_end q both) s view t
          (subst (λ u. translation_keyed q both u ≡ (ok view, t)) (sym p1) h1) in
      let (p2, made, r, planned) =
        translation_key-ok s s2 both.0 both.1 key q.idempotency_key approval (
          subst
            (λ z.
              translation_key service first principal both.1 both.0 q.idempotency_key z s
              ≡ (ok key, s2))
            asks e2) in
      record {
        drawing = both.0;
        workstation = both.1;
        planned = r;
        translates = translates;
        reads = reads;
        own_drawing = own;
        plan = planned;
        enqueued =
            subst
              (λ u.
                translation_end q both
                  (digests.approval_key both.0.drawing_id approval.approved_plan_id) u
                ≡ (ok view, t))
              (sym p2) (subst (λ z. translation_end q both z s2 ≡ (ok view, t)) made h2);
      }

  -- Where `enqueue_translation` returns for an `apply`, everything that approves it was there.
  pub enqueue_translation-Approved :
      (s t : Repository) (q : TranslationEnqueueRequest) (approval : ApplyTranslation)
      (view : OperationView)
      → q.request ≡ TranslationRequest.apply approval
      → enqueue_translation service first second fresh principal q s ≡ (ok view, t)
      → Approved s t q approval view
  unfolding enqueue_translation
  enqueue_translation-Approved s t q approval view asks h =
      let (x1, s1, e1, h1) =
        bind-ok (require_scope principal Scope.translate)
          (λ _. require_scope principal Scope.read >> translation_read q) s view t h in
      let (translates, p1) =
        raise_if-ok (not (principal.scopes Scope.translate)) (gateway_error GatewayCode.forbidden) s
          x1 s1 e1 in
      let (x2, s2, e2, h2) =
        bind-ok (require_scope principal Scope.read) (λ _. translation_read q) s1 view t h1 in
      let (reads, p2) =
        raise_if-ok (not (principal.scopes Scope.read)) (gateway_error GatewayCode.forbidden) s1 x2
          s2 e2 in
      let (x3, s3, e3, h3) =
        bind-ok
          (raise_if (ltb (200 * 1024) (digests.request_size q))
            (gateway_error GatewayCode.translation_batch_too_large))
          (λ _. translation_sized q) s2 view t h2 in
      let (small, p3) =
        raise_if-ok (ltb (200 * 1024) (digests.request_size q))
          (gateway_error GatewayCode.translation_batch_too_large) s2 x3 s3 e3 in
      let at_start : translation_sized q s ≡ (ok view, t) =
        subst (λ u. translation_sized q u ≡ (ok view, t)) (sym (p1 ∙ p2 ∙ p3)) h3 in
      translation_sized-Approved s t q approval view asks (ground (arith, translates))
        (ground (arith, reads)) at_start
