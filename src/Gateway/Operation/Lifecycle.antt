-- ===== src/Gateway/Operation/Lifecycle.antt =====
-- The life of an operation: the diagram of its states, and one step of a record along it.
use cadplot_mcp.Prelude.{ℕ, ◌<◌, ◌≡◌, inl, inr, Bool, true, false, arith, Bool-cases}
use cadplot_mcp.Gateway.Models.{
  OperationState, OperationRecord, Instant, created, leased, running, succeeded, failed, expired,
  attention_required,
}
use cadplot_mcp.Gateway.Operation.{is_due}
use cadplot_mcp.Gateway.Operation.Shape.{refreshed}

pub data Advance : OperationState → OperationState → Type 0 where
  grants : Advance created leased
  starts : Advance leased running
  succeeds : Advance running succeeded
  fails : Advance running failed
  escalates : Advance running attention_required
  lapses : Advance leased attention_required
  expires_unclaimed : Advance created expired
  expires_running : Advance running expired

-- The diagram as a test.
abbrev pub can_advance : OperationState → OperationState → Bool
can_advance created leased = true
can_advance created expired = true
can_advance leased running = true
can_advance leased attention_required = true
can_advance running succeeded = true
can_advance running failed = true
can_advance running attention_required = true
can_advance running expired = true
can_advance _ _ = false

pub Advance-can_advance : (a b : OperationState) → can_advance a b ≡ true → Advance a b
Advance-can_advance created leased h = grants
Advance-can_advance created expired h = expires_unclaimed
Advance-can_advance leased running h = starts
Advance-can_advance leased attention_required h = lapses
Advance-can_advance running succeeded h = succeeds
Advance-can_advance running failed h = fails
Advance-can_advance running attention_required h = escalates
Advance-can_advance running expired h = expires_running
Advance-can_advance _ _ h = cc

-- How far a state is along the diagram.
abbrev pub rank : OperationState → ℕ
rank created = 0
rank leased = 1
rank running = 2
rank _ = 3

pub rank-Advance : {a b : OperationState} → Advance a b → rank a < rank b
rank-Advance grants = omega arith
rank-Advance starts = omega arith
rank-Advance succeeds = omega arith
rank-Advance fails = omega arith
rank-Advance escalates = omega arith
rank-Advance lapses = omega arith
rank-Advance expires_unclaimed = omega arith
rank-Advance expires_running = omega arith

-- Nothing leaves these states.
abbrev pub IsFinal : OperationState → Type 0
IsFinal s = rank s ≡ 3

-- What no transition changes: who asked for what, and when.
pub record SameRequest (r q : OperationRecord) : Type 0 where
  pub operation_id : q.operation_id ≡ r.operation_id
  pub tenant_id : q.tenant_id ≡ r.tenant_id
  pub owner_subject_id : q.owner_subject_id ≡ r.owner_subject_id
  pub client_id : q.client_id ≡ r.client_id
  pub workstation_id : q.workstation_id ≡ r.workstation_id
  pub idempotency_key : q.idempotency_key ≡ r.idempotency_key
  pub request_fingerprint : q.request_fingerprint ≡ r.request_fingerprint
  pub task : q.task ≡ r.task
  pub created_at : q.created_at ≡ r.created_at
  pub expires_at : q.expires_at ≡ r.expires_at

-- The record stays, or it takes one step of the diagram and remains the same request.
pub data StepTo (r q : OperationRecord) : Type 0 where
  stay : q ≡ r → StepTo r q
  move : SameRequest r q → can_advance r.state q.state ≡ true → StepTo r q

pub SameRequest-refl : (r : OperationRecord) → SameRequest r r
SameRequest-refl r = ground arith

pub StepTo-SameRequest : {r q : OperationRecord} → StepTo r q → SameRequest r q
StepTo-SameRequest (stay e) = ground arith
StepTo-SameRequest (move h a) = h

-- A record in a final state stays.
pub StepTo-final : {r q : OperationRecord} → IsFinal r.state → StepTo r q → q ≡ r
StepTo-final f (stay e) = e
StepTo-final f (move h a) = ground arith

pub refreshed-StepTo : (r : OperationRecord) (now : Instant) → StepTo r (refreshed r now)
unfolding refreshed
refreshed-StepTo r now = elim (Bool-cases (is_due r now)) [
  | inl due ↦ move (ground arith) (ground arith)
  | inr early ↦ stay (ground arith)
]
