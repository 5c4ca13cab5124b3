-- ===== src/Gateway/Service/Access.antt =====
-- What a user may reach: the scopes, over any store, and the reading of operations.
use cadplot_mcp.Prelude.{
  ℕ, ◌≡◌, refl, ◌==◌, Bool, true, false, not, ◌&&◌, Option, none, some, arith, if◌then◌else◌,
  Option-cases, inl, inr, Bool-cases,
}
use cadplot_mcp.Prelude.Classes.{nat_eq}
use cadplot_mcp.Prelude.Results.{ok, err}
use cadplot_mcp.Prelude.Dicts.{lookup}
use cadplot_mcp.Gateway.Errors.{GatewayCode, gateway_error}
use cadplot_mcp.Gateway.Models.{
  WorkstationId, DrawingId, OperationId, IdempotencyKey, Instant, Scope, PrincipalContext,
  OperationRecord, ScanDrawingsRequest, TranslationEnqueueRequest, view_of,
}
use cadplot_mcp.Gateway.Operation.Shape.{refreshed, refresh_due-shaped}
use cadplot_mcp.Gateway.Operation.Lifecycle.{SameRequest, StepTo-SameRequest, refreshed-StepTo}
use cadplot_mcp.Gateway.Repository.{Repository, set_operation}
use cadplot_mcp.Gateway.Repository.Operations as Store
use cadplot_mcp.Gateway.Repository.Invariant.{IsValid}
use cadplot_mcp.Gateway.Repository.Transitions.{found-IsShaped}
use cadplot_mcp.Gateway.Service.{Digests, GatewayService}
use cadplot_mcp.Gateway.Service.Enqueue.{
  list_workstations, list_projects, enqueue_validate_environment, enqueue_list_projects,
  enqueue_scan_drawings, enqueue_inspect_drawing, enqueue_create_publish_plan, enqueue_translation,
  get_operation, is_translation,
}
use cadplot_mcp.Gateway.Service.InMemory.{in_memory}

module _ {S : Type 0} (g : GatewayService S) (principal : PrincipalContext) (s : S)
    (first second : Option Instant) (fresh : OperationId) where
  -- Without the scope `read` every method of a user, other than the one for translations, is refused
  -- before it reads or writes anything, whatever the store.
  pub forbidden :
      (workstation : WorkstationId) (drawing : DrawingId) (key : IdempotencyKey)
      (selected : Option WorkstationId) (scan : ScanDrawingsRequest)
      → principal.scopes Scope.read ≡ false
      → (list_workstations g principal s ≡ (err (gateway_error GatewayCode.forbidden), s))
        × (list_projects g principal selected s ≡ (err (gateway_error GatewayCode.forbidden), s))
        × (enqueue_validate_environment g first fresh principal workstation key s
            ≡ (err (gateway_error GatewayCode.forbidden), s))
        × (enqueue_list_projects g first fresh principal workstation key s
            ≡ (err (gateway_error GatewayCode.forbidden), s))
        × (enqueue_scan_drawings g first fresh principal scan s
            ≡ (err (gateway_error GatewayCode.forbidden), s))
        × (enqueue_inspect_drawing g first fresh principal drawing key s
            ≡ (err (gateway_error GatewayCode.forbidden), s))
        × (enqueue_create_publish_plan g first fresh principal drawing key s
            ≡ (err (gateway_error GatewayCode.forbidden), s))
        × (get_operation g first principal fresh s ≡ (err (gateway_error GatewayCode.forbidden), s))
  unfolding list_workstations list_projects enqueue_validate_environment enqueue_list_projects
      enqueue_scan_drawings enqueue_inspect_drawing enqueue_create_publish_plan get_operation
  forbidden workstation drawing key selected scan none_read = (
    rw none_read refl,
    rw none_read refl,
    rw none_read refl,
    rw none_read refl,
    rw none_read refl,
    rw none_read refl,
    rw none_read refl,
    rw none_read refl,
  )

  -- Without both the scopes `read` and `translate` a translation is refused before it reads or writes
  -- anything, whatever the store.
  pub forbidden_translation :
      (translation : TranslationEnqueueRequest)
      → principal.scopes Scope.read && principal.scopes Scope.translate ≡ false
      → enqueue_translation g first second fresh principal translation s
        ≡ (err (gateway_error GatewayCode.forbidden), s)
  unfolding enqueue_translation
  forbidden_translation translation missing = elim (Bool-cases (principal.scopes Scope.translate)) [
    | inr no_translate ↦ rw no_translate refl
    | inl translates ↦ elim (Bool-cases (principal.scopes Scope.read)) [
      | inr no_read ↦ rw (translates, no_read) refl
      | inl reads ↦ absurd (cc (missing, translates, reads))
    ]
  ]

-- The user that asked for the operation, with the same client.
abbrev pub asked : PrincipalContext → OperationRecord → Bool
asked principal r =
    r.tenant_id == principal.tenant_id
    && (r.owner_subject_id == principal.subject_id && r.client_id == principal.client_id)

-- The exact outcome of `get_operation` in a valid store, with the scope `read` and a clock with a
-- time zone. An operation of another tenant, user or client looks like a missing one; a translation
-- needs its scope; and the own operation is shown as it is once refreshed, which is also what the
-- store holds from then on.
pub get_operation_outcome :
    (ttl : ℕ) (digests : Digests) (s : Repository) (principal : PrincipalContext) (id : OperationId)
    (now : Instant)
    → IsValid s
    → principal.scopes Scope.read ≡ true
    → get_operation (in_memory ttl digests) (some now) principal id s
      ≡ elim (lookup id s.operations) [
        | none ↦ (err (gateway_error GatewayCode.not_found), s)
        | some r ↦
            if not (asked principal r)
            then (err (gateway_error GatewayCode.not_found), s)
            else if is_translation r.task && not (principal.scopes Scope.translate)
            then (err (gateway_error GatewayCode.forbidden), s)
            else (ok (view_of (refreshed r now)), set_operation id (refreshed r now) s)
      ]
unfolding get_operation Store.get_operation Store.refresh_operation
get_operation_outcome ttl digests s principal id now v reads =
    elim (Option-cases (lookup id s.operations)) [
      | inl missing ↦ ground (arith, missing, reads)
      | inr (r, found) ↦
          let same : SameRequest r (refreshed r now) =
            StepTo-SameRequest (refreshed-StepTo r now) in
          ground
            (arith, found, reads, refresh_due-shaped r now (found-IsShaped s v id r found), same)
    ]
