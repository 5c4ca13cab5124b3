-- ===== src/Gateway/Repository/Requests.antt =====
-- `create_or_get_operation`: new and known requests.
use cadplot_mcp.Prelude.{
  ◌≡◌, refl, sym, subst, ◌==◌, inl, inr, none, some, arith, Bool-cases, Option-cases, if◌then◌else◌,
}
use cadplot_mcp.Prelude.Classes.{nat_eq}
use cadplot_mcp.Prelude.Results.{ok}
use cadplot_mcp.Prelude.Dicts.{
  lookup, insert, lookup-insert, lookup-insert_self, insert-Distinct, All-insert,
}
use cadplot_mcp.Gateway.Models.{OperationId, OperationRecord, OperationState}
use cadplot_mcp.Gateway.Operation.Shape.{IsShaped}
use cadplot_mcp.Gateway.Operation.Lifecycle.{stay}
use cadplot_mcp.Gateway.Ports.{CreateStatus}
use cadplot_mcp.Gateway.Repository.{
  Repository, RequestKey, request_key, request_key_eq, key_beq, key_beq_iff,
}
use cadplot_mcp.Gateway.Repository.Operations.{create_or_get_operation}
use cadplot_mcp.Gateway.Repository.Survey.{ShapedAt}
use cadplot_mcp.Gateway.Repository.Invariant.{IsValid, Rivals, Evolves, Sound, Sound-refl}

-- An operation as `_enqueue` makes it: under a new identifier, created, and accepted by the validator.
pub record IsNew (s : Repository) (o : OperationRecord) : Type 0 where
  pub unused : lookup o.operation_id s.operations ≡ none
  pub shaped : IsShaped o
  pub created : o.state ≡ OperationState.created

module _ (s : Repository) (v : IsValid s) (o : OperationRecord) where
  -- In a valid store a request whose key is known never raises and never writes: it returns the
  -- operation of the first request, as existing if the fingerprints agree and as a conflict if not.
  pub create-known :
      (id : OperationId)
      → lookup (request_key o) s.idempotency ≡ some id
      → (r : OperationRecord) × (lookup id s.operations ≡ some r)
        × (request_key r ≡ request_key o)
        × (create_or_get_operation o s ≡ (
          ok (record {
            status =
                if r.request_fingerprint == o.request_fingerprint
                then CreateStatus.existing
                else CreateStatus.conflict;
            operation = r;
          }),
          s,
        ))
  unfolding create_or_get_operation
  create-known id p =
      let (r, found, key) = v.indexed (request_key o) id p in
      (r, found, key, ground (arith, found, p))

  abbrev pub created_store : Repository
  created_store = record s {
    operations = insert o.operation_id o s.operations;
    idempotency = insert (request_key o) o.operation_id s.idempotency;
  }

  created-Evolves : IsNew s o → Evolves s.operations created_store.operations
  created-Evolves new = record {
    at = λ id r p.
        (r, ground (arith, lookup-insert o.operation_id id o s.operations, new.unused), stay refl);
  }

  created-exclusive :
      IsNew s o
      → (i j : OperationId) (r q : OperationRecord) → lookup i created_store.operations ≡ some r
      → lookup j created_store.operations ≡ some q
      → Rivals r q
      → i ≡ j
  created-exclusive new i j r q p p' rivals = ground (
    arith,
    lookup-insert o.operation_id i o s.operations,
    lookup-insert o.operation_id j o s.operations,
    new.created,
    rivals.first,
    rivals.second,
    v.exclusive i j r q,
  )

  created-indexed :
      IsNew s o
      → (k : RequestKey) (id : OperationId) → lookup k created_store.idempotency ≡ some id
      → (r : OperationRecord) × (lookup id created_store.operations ≡ some r) × (request_key r ≡ k)
  created-indexed new k id p = elim (Bool-cases (key_beq (request_key o) k)) [
    | inl hit ↦
        let same : o.operation_id ≡ id =
          ground (arith, lookup-insert (request_key o) k o.operation_id s.idempotency) in
        (
          o,
          subst (λ i. lookup i created_store.operations ≡ some o) same
              (lookup-insert_self o.operation_id o s.operations),
          (key_beq_iff (request_key o) k).0 hit,
        )
    | inr miss ↦
        let (r, found, key) =
          v.indexed k id
            (ground (arith, lookup-insert (request_key o) k o.operation_id s.idempotency)) in
        let (q, later, st) = (created-Evolves new).at id r found in
        (r, ground (arith, lookup-insert o.operation_id id o s.operations, new.unused, found), key)
  ]

  -- Creating keeps the invariant and leaves every other operation as it is.
  pub create-Sound : IsNew s o → Sound s (create_or_get_operation o s).1
  unfolding create_or_get_operation
  create-Sound new = elim (Option-cases (lookup (request_key o) s.idempotency)) [
    | inl fresh ↦ rw fresh (record {
      valid = record {
        distinct = insert-Distinct o.operation_id o s.operations v.distinct;
        shaped = All-insert ShapedAt o.operation_id o s.operations v.shaped (refl, new.shaped);
        exclusive = created-exclusive new;
        indexed = created-indexed new;
      };
      evolves = created-Evolves new;
      remembers = λ k id p. ground (
        arith,
        lookup-insert (request_key o) k o.operation_id s.idempotency,
        key_beq_iff (request_key o) k,
        fresh,
      );
    })
    | inr (id, known) ↦
        let (r, found, key, e) = create-known id known in
        subst (λ x. Sound s x.1) (sym e) (Sound-refl v)
  ]
