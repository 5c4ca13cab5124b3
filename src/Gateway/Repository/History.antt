-- ===== src/Gateway/Repository/History.antt =====
-- Sequences of calls on one repository, with any arguments and outcomes.
use cadplot_mcp.Prelude.{◌≡◌, sym, ap, subst, ◌∙◌, Option, some, List, arith}
use cadplot_mcp.Prelude.Classes.{nat_eq}
use cadplot_mcp.Prelude.Dicts.{lookup}
use cadplot_mcp.Gateway.Models.{
  TenantId, SubjectId, WorkstationId, OperationId, Instant, SafeCode, OperationState, TaskResult,
  ProjectRecord, DrawingRecord, OperationRecord,
}
use cadplot_mcp.Gateway.Operation.Lifecycle.{
  Advance, Advance-can_advance, IsFinal, SameRequest, SameRequest-refl, StepTo, stay, move,
  StepTo-final,
}
use cadplot_mcp.Gateway.Repository.{Repository, request_key, request_key_eq}
use cadplot_mcp.Gateway.Repository.Operations.{
  create_or_get_operation, refresh_operation, lease_next_operation,
}
use cadplot_mcp.Gateway.Repository.Workers.{start_operation, finish_operation}
use cadplot_mcp.Gateway.Repository.Application.{apply_worker_success}
use cadplot_mcp.Gateway.Repository.Invariant.{IsValid, Sound}
use cadplot_mcp.Gateway.Repository.Transitions.{
  refresh_operation-Sound, start_operation-Sound, finish_operation-Sound,
}
use cadplot_mcp.Gateway.Repository.Granting.{lease_next_operation-Sound}
use cadplot_mcp.Gateway.Repository.Requests.{IsNew, create-Sound}
use cadplot_mcp.Gateway.Repository.Applying.{apply_worker_success-Sound}

-- The calls that change operations, with their arguments.
pub data Call : Type 0 where
  create : OperationRecord → Call
  refresh : OperationId → Instant → Call
  lease : TenantId → WorkstationId → SubjectId → Instant → Instant → Call
  start : OperationId → TenantId → WorkstationId → Instant → Call
  finish :
      OperationId
      → TenantId
      → WorkstationId
      → Instant
      → OperationState
      → Option TaskResult
      → Option SafeCode
      → Call
  apply :
      OperationId
      → TenantId
      → WorkstationId
      → Instant
      → TaskResult
      → List ProjectRecord
      → List DrawingRecord
      → Call

-- The store after a call, whether it returned or raised.
unfoldable pub step : Repository → Call → Repository
step s (create o) = (create_or_get_operation o s).1
step s (refresh id now) = (refresh_operation id now s).1
step s (lease t w owner now deadline) = (lease_next_operation t w owner now deadline s).1
step s (start id t w now) = (start_operation id t w now s).1
step s (finish id t w now state result code) = (finish_operation id t w now state result code s).1
step s (apply id t w now result ps ds) = (apply_worker_success id t w now result ps ds s).1

-- A created operation is new; the other calls come with any arguments.
abbrev pub Admissible : Repository → Call → Type 0
Admissible s (create o) = IsNew s o
Admissible s _ = Unit

-- A store that calls lead to, in any order and from any number of workers.
pub data Reaches (s : Repository) : Repository → Type 0 where
  here : Reaches s s
  next : {t u : Repository} → Reaches s t → (c : Call) → Admissible t c → step t c ≡ u → Reaches s u

pub step-Sound : (s : Repository) (c : Call) → IsValid s → Admissible s c → Sound s (step s c)
unfolding step
step-Sound s (create o) v new = create-Sound s v o new
step-Sound s (refresh id now) v a = refresh_operation-Sound s v id now
step-Sound s (lease t w owner now deadline) v a =
    lease_next_operation-Sound t w owner now s v deadline
step-Sound s (start id t w now) v a = start_operation-Sound s v id now t w
step-Sound s (finish id t w now state result code) v a =
    finish_operation-Sound s v id now t w state result code
step-Sound s (apply id t w now result ps ds) v a =
    apply_worker_success-Sound result ps ds s v id now t w

-- Any number of steps along the diagram.
pub data Walk : OperationState → OperationState → Type 0 where
  rest : {a : OperationState} → Walk a a
  along : {a b c : OperationState} → Walk a b → Advance b c → Walk a c

pub record Later (r q : OperationRecord) : Type 0 where
  pub same : SameRequest r q
  pub walk : Walk r.state q.state

StepTo-Later : {r q p : OperationRecord} → Later r q → StepTo q p → Later r p
StepTo-Later {r} l (stay e) = subst (Later r) (sym e) l
StepTo-Later l (move same a) = record {
  same = ground (arith, l.same, same);
  walk = along l.walk (Advance-can_advance _ _ a);
}

module _ {s : Repository} (v : IsValid s) where
  -- From a valid store, after any calls whose created operations are new, whatever the outcomes,
  -- the invariant holds: a device is kept busy by one operation at most, every record passes its
  -- validator, identifiers stand once, and every known request leads to its operation.
  pub Reaches-IsValid : {t : Repository} → Reaches s t → IsValid t
  Reaches-IsValid here = v
  Reaches-IsValid (next {t = t} before c a e) =
      subst IsValid e (step-Sound t c (Reaches-IsValid before) a).valid

  -- From a valid store, after any calls whose created operations are new, an operation is still
  -- there, it is the same request, and its state has moved along the diagram only.
  pub Reaches-Later :
      {t : Repository} (id : OperationId) (r : OperationRecord)
      → Reaches s t
      → lookup id s.operations ≡ some r
      → (q : OperationRecord) × (lookup id t.operations ≡ some q) × Later r q
  Reaches-Later id r here p = (r, p, record { same = SameRequest-refl r; walk = rest })
  Reaches-Later id r (next {t = t} before c a e) p =
      let (q, found, l) = Reaches-Later id r before p in
      let (x, later, st) = (step-Sound t c (Reaches-IsValid before) a).evolves.at id q found in
      (x, subst (λ u. lookup id u.operations ≡ some x) e later, StepTo-Later l st)

  -- From a valid store, after any calls whose created operations are new, an operation that has
  -- ended is unchanged, its result or its error included.
  pub Reaches-final :
      {t : Repository} (id : OperationId) (r : OperationRecord)
      → Reaches s t
      → lookup id s.operations ≡ some r
      → IsFinal r.state
      → lookup id t.operations ≡ some r
  Reaches-final id r here p f = p
  Reaches-final id r (next {t = t} before c a e) p f =
      let (x, later, st) =
        (step-Sound t c (Reaches-IsValid before) a).evolves.at id r
          (Reaches-final id r before p f) in
      subst (λ u. lookup id u.operations ≡ some r) e (later ∙ ap some (StepTo-final f st))

  pub Reaches-remembers :
      {t : Repository} (o : OperationRecord) (id : OperationId)
      → Reaches s t
      → lookup (request_key o) s.idempotency ≡ some id
      → lookup (request_key o) t.idempotency ≡ some id
  Reaches-remembers o id here p = p
  Reaches-remembers o id (next {t = t} before c a e) p =
      subst (λ u. lookup (request_key o) u.idempotency ≡ some id) e
        ((step-Sound t c (Reaches-IsValid before) a).remembers (request_key o) id
          (Reaches-remembers o id before p))
