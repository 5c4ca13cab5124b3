-- ===== src/Gateway/Service/Once.antt =====
-- `_enqueue` over the in-memory repository, for a request that is sent again.
use cadplot_mcp.Prelude.{
  ℕ, ◌≡◌, ◌<◌, refl, ap, subst, ◌==◌, none, some, arith, if◌then◌else◌, Bool-cases, inl, inr,
}
use cadplot_mcp.Prelude.Classes.{nat_eq}
use cadplot_mcp.Prelude.Results.{Result, ok, err}
use cadplot_mcp.Prelude.Dicts.{lookup}
use cadplot_mcp.Gateway.Errors.{GatewayCode, Error, gateway_error}
use cadplot_mcp.Gateway.Models.{
  OperationId, Instant, IdempotencyKey, PrincipalContext, ReadTask, WorkstationRecord,
  OperationRecord, OperationView, view_of,
}
use cadplot_mcp.Gateway.Operation.{validate_record}
use cadplot_mcp.Gateway.Operation.Shape.{IsShaped}
use cadplot_mcp.Gateway.Repository.{Repository, request_key, request_key_eq}
use cadplot_mcp.Gateway.Repository.Operations.{create_or_get_operation}
use cadplot_mcp.Gateway.Repository.Invariant.{IsValid}
use cadplot_mcp.Gateway.Repository.Requests.{IsNew}
use cadplot_mcp.Gateway.Repository.History.{Reaches, Later}
use cadplot_mcp.Gateway.Repository.Once.{created_once, create-fresh}
use cadplot_mcp.Gateway.Service.{Digests, GatewayService}
use cadplot_mcp.Gateway.Service.InMemory.{in_memory}
use cadplot_mcp.Gateway.Service.Enqueue.{new_operation, enqueue}

module _ (ttl : ℕ) (positive : 0 < ttl) (digests : Digests) (principal : PrincipalContext)
    (workstation : WorkstationRecord) (key : IdempotencyKey) (task : ReadTask) (fresh : OperationId)
    (now : Instant) where
  abbrev service : GatewayService Repository
  service = in_memory ttl digests

  abbrev first_record : OperationRecord
  first_record = new_operation service principal workstation.workstation_id key task fresh now

  first-IsShaped : IsShaped first_record
  unfolding validate_record
  first-IsShaped = ground arith

  module _ (s : Repository) (v : IsValid s) (unused : lookup fresh s.operations ≡ none)
      (unknown : lookup (request_key first_record) s.idempotency ≡ none) where
    first-IsNew : IsNew s first_record
    first-IsNew = record { unused = unused; shaped = first-IsShaped; created = refl }

    enqueue_first :
        enqueue service (some now) fresh principal workstation key task s
        ≡ (ok (view_of first_record), (create_or_get_operation first_record s).1)
    unfolding enqueue
    enqueue_first = ground (arith, create-fresh s v first_record first-IsNew unknown)

    -- After a first request under a fresh identifier is enqueued in a valid store, and any calls
    -- follow whose created operations are new, the same client's request under the same key for the
    -- same workstation, at whatever time, creates and changes nothing. With a task of the same
    -- fingerprint it is shown the first request's operation as it is by then, and with another it
    -- is refused as a conflict. The time to live is positive.
    pub enqueued_again :
        {t : Repository}
        → Reaches (enqueue service (some now) fresh principal workstation key task s).1 t
        → (again : ReadTask) (other : OperationId) (later : Instant)
        → (q : OperationRecord) × (lookup fresh t.operations ≡ some q)
          × Later first_record q
          × (enqueue service (some later) other principal workstation key again t ≡ (
              if digests.fingerprint workstation.workstation_id task
                == digests.fingerprint workstation.workstation_id again
              then (ok (view_of q), t)
              else (err (gateway_error GatewayCode.idempotency_conflict), t)))
    unfolding enqueue
    enqueued_again {t} reaches again other later =
        let (q, found, l, e) =
          created_once s v first_record first-IsNew unknown
            (subst (λ u. Reaches u t)
              (ap (λ (x : Result Error OperationView × Repository). x.1) enqueue_first) reaches)
            (new_operation service principal workstation.workstation_id key again other later)
            refl in
        (
          q,
          found,
          l,
          elim (Bool-cases (
              digests.fingerprint workstation.workstation_id task
              == digests.fingerprint workstation.workstation_id again)) [
                | inl same ↦ ground (arith, e, same)
                | inr differs ↦ ground (arith, e, differs)
              ],
        )
