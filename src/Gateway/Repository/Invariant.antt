-- ===== src/Gateway/Repository/Invariant.antt =====
-- The invariant of the stored operations, and the relations between an earlier and a later store.
use cadplot_mcp.Prelude.{◌≡◌, refl, sym, subst, ◌∙◌, ◌==◌, true, inl, inr, some, arith, Bool-cases}
use cadplot_mcp.Prelude.Classes.{nat_eq}
use cadplot_mcp.Prelude.Dicts.{
  Dict, lookup, insert, Distinct, lookup-insert, insert-Distinct, All-lookup, All-insert,
}
use cadplot_mcp.Gateway.Models.{OperationId, OperationRecord}
use cadplot_mcp.Gateway.Operation.Shape.{IsShaped}
use cadplot_mcp.Gateway.Operation.Lifecycle.{
  StepTo, stay, SameRequest, SameRequest-refl, StepTo-SameRequest,
}
use cadplot_mcp.Gateway.Repository.{
  Repository, RequestKey, request_key, request_key_eq, set_operation,
}
use cadplot_mcp.Gateway.Repository.Operations.{is_active}
use cadplot_mcp.Gateway.Repository.Survey.{ShapedAt, AllShaped}

-- Two operations that keep the same device busy.
pub record Rivals (r q : OperationRecord) : Type 0 where
  pub first : is_active r ≡ true
  pub second : is_active q ≡ true
  pub tenant : r.tenant_id ≡ q.tenant_id
  pub workstation : r.workstation_id ≡ q.workstation_id

-- Identifiers stand once, records pass the validator, a device is kept busy by one operation at
-- most, and the index of requests leads to operations of those requests.
pub record IsValid (s : Repository) : Type 0 where
  pub distinct : Distinct s.operations
  pub shaped : AllShaped s.operations
  pub exclusive :
      (i j : OperationId) (r q : OperationRecord)
      → lookup i s.operations ≡ some r
      → lookup j s.operations ≡ some q
      → Rivals r q
      → i ≡ j
  pub indexed :
      (k : RequestKey) (id : OperationId)
      → lookup k s.idempotency ≡ some id
      → (r : OperationRecord) × (lookup id s.operations ≡ some r) × (request_key r ≡ k)

-- Every operation is still there, one step further at most.
pub record Evolves (d e : Dict OperationId OperationRecord) : Type 0 where
  pub at :
      (id : OperationId) (r : OperationRecord)
      → lookup id d ≡ some r
      → (q : OperationRecord) × (lookup id e ≡ some q) × StepTo r q

-- What is active now was active before, on the same device.
pub record Recedes (d e : Dict OperationId OperationRecord) : Type 0 where
  pub at :
      (id : OperationId) (q : OperationRecord)
      → lookup id e ≡ some q
      → is_active q ≡ true
      → (r : OperationRecord) × (lookup id d ≡ some r) × (is_active r ≡ true) × SameRequest r q

pub Evolves-refl : (d : Dict OperationId OperationRecord) → Evolves d d
Evolves-refl d = record { at = λ id r p. (r, p, stay refl) }

module _ (id : OperationId) (r q : OperationRecord) (d : Dict OperationId OperationRecord)
    (found : lookup id d ≡ some r) where
  pub insert-Evolves : StepTo r q → Evolves d (insert id q d)
  insert-Evolves st = record {
    at = λ j x p. elim (Bool-cases (id == j)) [
      | inl hit ↦ (q, rw lookup-insert (ground arith), subst (λ y. StepTo y q) (ground arith) st)
      | inr miss ↦ (x, rw lookup-insert (ground arith), stay refl)
    ];
  }

  pub insert-Recedes :
      SameRequest r q → (is_active q ≡ true → is_active r ≡ true) → Recedes d (insert id q d)
  insert-Recedes same calm = record {
    at = λ j x p a. elim (Bool-cases (id == j)) [
      | inl hit ↦
          let e : x ≡ q = ground (arith, lookup-insert id j q d) in
          (r, ground arith, calm (rw e at a), subst (SameRequest r) (sym e) same)
      | inr miss ↦ (x, ground (arith, lookup-insert id j q d), a, SameRequest-refl x)
    ];
  }

  pub insert-ShapedAt : AllShaped d → SameRequest r q → IsShaped q → ShapedAt id q
  insert-ShapedAt a same shaped = (same.operation_id ∙ (All-lookup ShapedAt id d a found).0, shaped)

module _ {s : Repository} (t : Repository) (v : IsValid s) where
  pub Evolves-indexed :
      t.idempotency ≡ s.idempotency
      → Evolves s.operations t.operations
      → (k : RequestKey) (id : OperationId) → lookup k t.idempotency ≡ some id
      → (r : OperationRecord) × (lookup id t.operations ≡ some r) × (request_key r ≡ k)
  Evolves-indexed same ev k id p =
      let (r, found, key) = v.indexed k id (subst (λ d. lookup k d ≡ some id) same p) in
      let (q, later, st) = ev.at id r found in
      let same_request : SameRequest r q = StepTo-SameRequest st in (q, later, ground arith)

  Recedes-exclusive :
      Recedes s.operations t.operations
      → (i j : OperationId) (r q : OperationRecord) → lookup i t.operations ≡ some r
      → lookup j t.operations ≡ some q
      → Rivals r q
      → i ≡ j
  Recedes-exclusive re i j r q p p' rivals =
      let (r', found, a, same) = re.at i r p rivals.first in
      let (q', found', a', same') = re.at j q p' rivals.second in
      v.exclusive i j r' q' found found'
        (record { first = a; second = a'; tenant = ground arith; workstation = ground arith })

  -- The invariant is carried over.
  pub IsValid-carried :
      t.idempotency ≡ s.idempotency
      → Distinct t.operations
      → AllShaped t.operations
      → Evolves s.operations t.operations
      → Recedes s.operations t.operations
      → IsValid t
  IsValid-carried same d a ev re = record {
    distinct = d;
    shaped = a;
    exclusive = Recedes-exclusive re;
    indexed = Evolves-indexed same ev;
  }

module _ (s : Repository) (id : OperationId) (r q : OperationRecord) (v : IsValid s)
    (found : lookup id s.operations ≡ some r) where
  -- One record takes a step that starts no activity.
  pub set_operation-IsValid :
      StepTo r q
      → IsShaped q
      → (is_active q ≡ true → is_active r ≡ true)
      → IsValid (set_operation id q s)
  set_operation-IsValid st shaped calm =
      IsValid-carried (set_operation id q s) v refl (insert-Distinct id q s.operations v.distinct)
        (All-insert ShapedAt id q s.operations v.shaped
          (insert-ShapedAt id r q s.operations found v.shaped (StepTo-SameRequest st) shaped))
        (insert-Evolves id r q s.operations found st)
        (insert-Recedes id r q s.operations found (StepTo-SameRequest st) calm)

-- A later store is valid, each operation took at most one step, and each request that was known still
-- leads to the same operation.
pub record Sound (s t : Repository) : Type 0 where
  pub valid : IsValid t
  pub evolves : Evolves s.operations t.operations
  pub remembers :
      (k : RequestKey) (id : OperationId)
      → lookup k s.idempotency ≡ some id
      → lookup k t.idempotency ≡ some id

pub Sound-refl : {s : Repository} → IsValid s → Sound s s
Sound-refl {s} v = record {
  valid = v;
  evolves = Evolves-refl s.operations;
  remembers = λ k id p. p;
}
