-- ===== src/Gateway/Repository/Once.antt =====
-- A request that is sent again, on a later store.
use cadplot_mcp.Prelude.{◌≡◌, ◌==◌, none, some, arith, if◌then◌else◌}
use cadplot_mcp.Prelude.Classes.{nat_eq}
use cadplot_mcp.Prelude.Results.{ok}
use cadplot_mcp.Prelude.Dicts.{lookup, lookup-insert_self}
use cadplot_mcp.Gateway.Models.{OperationRecord}
use cadplot_mcp.Gateway.Ports.{CreateStatus}
use cadplot_mcp.Gateway.Repository.{Repository, request_key, request_key_eq}
use cadplot_mcp.Gateway.Repository.Operations.{create_or_get_operation}
use cadplot_mcp.Gateway.Repository.Invariant.{IsValid}
use cadplot_mcp.Gateway.Repository.Requests.{IsNew, created_store, create-known, create-Sound}
use cadplot_mcp.Gateway.Repository.History.{
  Reaches, Later, Reaches-IsValid, Reaches-Later, Reaches-remembers,
}

module _ (s : Repository) (v : IsValid s) (o : OperationRecord) (new : IsNew s o)
    (fresh : lookup (request_key o) s.idempotency ≡ none) where
  pub create-fresh :
      create_or_get_operation o s
      ≡ (ok (record { status = CreateStatus.created; operation = o }), created_store s v o)
  unfolding create_or_get_operation
  create-fresh = rw fresh

  -- A first request with a new operation on a valid store creates it. After any calls whose created
  -- operations are new, a request under the same key, from the same client, creates nothing and
  -- changes nothing: it returns that operation as it is by then, as existing if the fingerprint is
  -- the first one's and as a conflict otherwise.
  pub created_once :
      {t : Repository}
      → Reaches (create_or_get_operation o s).1 t
      → (again : OperationRecord) → request_key again ≡ request_key o
      → (q : OperationRecord) × (lookup o.operation_id t.operations ≡ some q)
        × Later o q
        × (create_or_get_operation again t ≡ (
          ok (record {
            status =
                if o.request_fingerprint == again.request_fingerprint
                then CreateStatus.existing
                else CreateStatus.conflict;
            operation = q;
          }),
          t,
        ))
  created_once {t} later again key =
      let first : IsValid (create_or_get_operation o s).1 = (create-Sound s v o new).valid in
      let known : lookup (request_key o) (create_or_get_operation o s).1.idempotency
          ≡ some o.operation_id =
        rw create-fresh (lookup-insert_self (request_key o) o.operation_id s.idempotency) in
      let stored : lookup o.operation_id (create_or_get_operation o s).1.operations ≡ some o =
        rw create-fresh (lookup-insert_self o.operation_id o s.operations) in
      let (q, found, l) = Reaches-Later first o.operation_id o later stored in
      let (r, found', key', e) =
        create-known t (Reaches-IsValid first later) again o.operation_id
          (rw key (Reaches-remembers first o o.operation_id later known)) in
      let same : r ≡ q = ground (arith, found, found') in
      (q, found, l, ground (arith, e, same, l.same.request_fingerprint))
