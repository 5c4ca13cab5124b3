-- ===== src/Gateway/Service.antt =====
-- services/gateway/cadplot_gateway/service.py, `GatewayService`: its fields and the checks that its
-- methods share. The listings and the enqueuing methods are in `Enqueue`, the checks of
-- results in `Bindings`, the worker's methods in `Worker`. A method takes what it reads of its clock.
pub mod Enqueue
pub mod Bindings
pub mod Worker
pub mod InMemory
pub mod Access
pub mod Passed
pub mod Owned
pub mod Approval
pub mod Once
pub mod Leases
pub mod Applications
pub mod Errors
pub mod Bounded
pub mod Reports
pub mod Samples
mod Tests
mod WorkerTests
pub mod Finished
pub mod Retries
pub mod Failures
use cadplot_mcp.Prelude.{
  ℕ, String, Bool, true, false, not, ◌&&◌, ◌||◌, Option, none, some, List, [], ◌∷◌, map, ◌*◌, ◌==◌,
  leb, any, str_eq, if◌then◌else◌,
}
use cadplot_mcp.Prelude.Results.{Result, ok, Exec, pure, raise, raise_if, refuse, ◌>>=◌, ◌>>◌}
use cadplot_mcp.Protocol.Translation.{HashId}
use cadplot_mcp.Gateway.Errors.{GatewayCode, Error, gateway_error}
use cadplot_mcp.Gateway.Models.{
  WorkstationId, ProjectId, DrawingId, OperationId, IdempotencyKey, Sha256Hex, Instant, SafeCode,
  Scope, PrincipalContext, WorkerContext, ReadTask, WorkstationRecord, ProjectRecord, DrawingRecord,
  OperationRecord, OperationView, view_of, WorkstationSummary, ProjectSummary,
  TranslationEnqueueRequest,
}
use cadplot_mcp.Gateway.Ports.{
  TransitionStatus, TransitionOutcome, CatalogRepository, OperationRepository,
}

-- What the code computes with `hashlib`, `uuid` and `json`: the digest of a request's canonical JSON,
-- the key made of an approval's digest, and the bytes of a request's JSON.
pub record Digests : Type 0 where
  pub fingerprint : WorkstationId → ReadTask → Sha256Hex
  pub approval_key : DrawingId → HashId → IdempotencyKey
  pub request_size : TranslationEnqueueRequest → ℕ

-- The time to live is in microseconds, as every instant.
pub record GatewayService (S : Type 0) : Type 0 where
  pub catalog : CatalogRepository S
  pub operations : OperationRepository S
  pub operation_ttl : ℕ
  pub digests : Digests

-- `timedelta(seconds=…)`
abbrev pub seconds : ℕ → ℕ
seconds n = n * 1_000_000

-- `__init__`, with the time to live in seconds; a negative number is refused as 0 is.
unfoldable pub gateway_service :
    {S : Type 0}
    → CatalogRepository S
    → OperationRepository S
    → Digests
    → ℕ
    → Result Error (GatewayService S)
gateway_service catalog operations digests ttl =
    refuse (not (leb 30 ttl && leb ttl 86_400)) (gateway_error GatewayCode.invalid_operation_ttl) (
      ok (record {
        catalog = catalog;
        operations = operations;
        operation_ttl = seconds ttl;
        digests = digests;
      }))

-- The codes that a worker may report.
abbrev pub safe_worker_error_codes : List String
safe_worker_error_codes =
    "autocad_unavailable" ∷ "drawing_changed" ∷ "drawing_not_found" ∷ "inspection_failed"
    ∷ "operation_timeout" ∷ "plan_blocked" ∷ "unsupported_runtime" ∷ "worker_disconnected"
    ∷ "worker_failure" ∷ "translation_disabled" ∷ "translation_attention_required" ∷ []

-- `_sanitize_worker_error`
unfoldable pub sanitize_worker_error : String → SafeCode
unfolding any
sanitize_worker_error value =
    if any (str_eq value) safe_worker_error_codes then value else "worker_failure"

module _ {S : Type 0} where
  -- `_now`: a reading without a time zone is none.
  abbrev pub now_of : Option Instant → Exec Error S Instant
  now_of none = raise (gateway_error GatewayCode.clock_invalid)
  now_of (some t) = pure t

  -- `_require_scope`
  abbrev pub require_scope : PrincipalContext → Scope → Exec Error S (Unit {0})
  require_scope principal scope =
      raise_if (not (principal.scopes scope)) (gateway_error GatewayCode.forbidden)

  -- `_transition_view`
  abbrev pub transition_view : TransitionOutcome → Exec Error S OperationView
  transition_view o = elim o.status [
    | TransitionStatus.not_found ↦ raise (gateway_error GatewayCode.not_found)
    | TransitionStatus.lease_expired ↦ raise (gateway_error GatewayCode.lease_expired)
    | TransitionStatus.operation_expired ↦ raise (gateway_error GatewayCode.operation_expired)
    | TransitionStatus.invalid_state ↦ raise (gateway_error GatewayCode.invalid_state)
    | TransitionStatus.updated ↦ elim o.operation [
      | none ↦ raise (gateway_error GatewayCode.invalid_state)
      | some r ↦ pure (view_of r)
    ]
  ]

  -- `_require_operation_owner`, with the record that it let pass.
  abbrev pub require_operation_owner :
      PrincipalContext → Option OperationRecord → Exec Error S OperationRecord
  require_operation_owner principal none = raise (gateway_error GatewayCode.not_found)
  require_operation_owner principal (some r) =
      if not (r.tenant_id == principal.tenant_id)
        || (not (r.owner_subject_id == principal.subject_id)
            || not (r.client_id == principal.client_id))
      then raise (gateway_error GatewayCode.not_found)
      else pure r

  -- The rest of `_require_workstation`, once the record is read.
  abbrev pub check_workstation :
      PrincipalContext → Bool → Option WorkstationRecord → Exec Error S WorkstationRecord
  check_workstation principal online_required none = raise (gateway_error GatewayCode.not_found)
  check_workstation principal online_required (some w) = do
    raise_if
        (not w.enabled
          || (not (w.tenant_id == principal.tenant_id)
              || not (w.owner_subject_id == principal.subject_id)))
        (gateway_error GatewayCode.not_found)
    raise_if (online_required && not w.online) (gateway_error GatewayCode.workstation_offline)
    pure w

  abbrev pub check_worker_workstation :
      WorkerContext → Bool → Option WorkstationRecord → Exec Error S WorkstationRecord
  check_worker_workstation worker online_required none = raise (gateway_error GatewayCode.not_found)
  check_worker_workstation worker online_required (some w) = do
    raise_if (not w.enabled || not (w.tenant_id == worker.tenant_id))
        (gateway_error GatewayCode.not_found)
    raise_if (online_required && not w.online) (gateway_error GatewayCode.workstation_offline)
    pure w

  abbrev pub check_worker_operation :
      WorkerContext → Option OperationRecord → Exec Error S OperationRecord
  check_worker_operation worker none = raise (gateway_error GatewayCode.not_found)
  check_worker_operation worker (some r) =
      if not (r.tenant_id == worker.tenant_id) || not (r.workstation_id == worker.workstation_id)
      then raise (gateway_error GatewayCode.not_found)
      else pure r

module _ {S : Type 0} (g : GatewayService S) where
  unfoldable pub require_workstation :
      PrincipalContext → WorkstationId → Bool → Exec Error S WorkstationRecord
  require_workstation principal id online_required = do
    found ← g.catalog.get_workstation id
    check_workstation principal online_required found

  abbrev pub check_project :
      PrincipalContext
      → Bool
      → Option ProjectRecord
      → Exec Error S (ProjectRecord × WorkstationRecord)
  check_project principal online_required none = raise (gateway_error GatewayCode.not_found)
  check_project principal online_required (some p) = do
    raise_if
        (not p.enabled
          || (not (p.tenant_id == principal.tenant_id)
              || not (p.owner_subject_id == principal.subject_id)))
        (gateway_error GatewayCode.not_found)
    workstation ← require_workstation principal p.workstation_id online_required
    pure (p, workstation)

  unfoldable pub require_project :
      PrincipalContext → ProjectId → Bool → Exec Error S (ProjectRecord × WorkstationRecord)
  require_project principal id online_required = do
    found ← g.catalog.get_project id
    check_project principal online_required found

  abbrev pub check_drawing :
      PrincipalContext
      → Bool
      → Option DrawingRecord
      → Exec Error S (DrawingRecord × WorkstationRecord)
  check_drawing principal online_required none = raise (gateway_error GatewayCode.not_found)
  check_drawing principal online_required (some d) = do
    raise_if
        (not d.enabled
          || (not (d.tenant_id == principal.tenant_id)
              || not (d.owner_subject_id == principal.subject_id)))
        (gateway_error GatewayCode.not_found)
    both ← require_project principal d.project_id online_required
    raise_if (not (d.workstation_id == both.0.workstation_id)) (gateway_error GatewayCode.not_found)
    pure (d, both.1)

  unfoldable pub require_drawing :
      PrincipalContext → DrawingId → Bool → Exec Error S (DrawingRecord × WorkstationRecord)
  require_drawing principal id online_required = do
    found ← g.catalog.get_drawing id
    check_drawing principal online_required found

  unfoldable pub require_worker_workstation : WorkerContext → Bool → Exec Error S WorkstationRecord
  require_worker_workstation worker online_required = do
    found ← g.catalog.get_workstation worker.workstation_id
    check_worker_workstation worker online_required found

  unfoldable pub require_worker_operation :
      WorkerContext → OperationId → Exec Error S OperationRecord
  require_worker_operation worker id = do
    found ← g.operations.get_operation id
    check_worker_operation worker found
