-- ===== src/Gateway/Repository/Operations.antt =====
-- repositories.py, `InMemoryGatewayRepository`: creating, reading, refreshing and leasing operations.
use cadplot_mcp.Prelude.{
  Bool, true, false, ◌&&◌, ◌||◌, Option, none, some, List, [], ◌∷◌, ◌++◌, min, ltb, leb, ◌==◌,
  if◌then◌else◌,
}
use cadplot_mcp.Prelude.Classes.{nat_eq}
use cadplot_mcp.Prelude.Results.{pure, raise, lift, gets, modify, ◌>>=◌, ◌>>◌}
use cadplot_mcp.Prelude.Dicts.{lookup, insert}
use cadplot_mcp.Gateway.Errors.{key_error}
use cadplot_mcp.Gateway.Models.{
  TenantId, SubjectId, WorkstationId, OperationId, Instant, OperationState, OperationRecord,
}
use cadplot_mcp.Gateway.Operation.{is_created, is_leased, is_running, updated, expire, refresh_due}
use cadplot_mcp.Gateway.Ports.{CreateStatus, CreateOutcome}
use cadplot_mcp.Gateway.Repository.{request_key, request_key_eq, Method, set_operation}

-- `self._operations[existing_id]`, and the comparison of the fingerprints.
abbrev pub known_request : OperationRecord → Option OperationRecord → Method CreateOutcome
known_request operation none = raise key_error
known_request operation (some existing) = pure (record {
  status =
      if existing.request_fingerprint == operation.request_fingerprint
      then CreateStatus.existing
      else CreateStatus.conflict;
  operation = existing;
})

abbrev pub create_or_known : OperationRecord → Option OperationId → Method CreateOutcome
create_or_known operation (some id) = do
  existing ← gets (λ s. lookup id s.operations)
  known_request operation existing
create_or_known operation none = do
  modify (set_operation operation.operation_id operation)
  modify λ s. record s {
    idempotency = insert (request_key operation) operation.operation_id s.idempotency;
  }
  pure (record { status = CreateStatus.created; operation = operation })

unfoldable pub create_or_get_operation : OperationRecord → Method CreateOutcome
create_or_get_operation operation = do
  existing_id ← gets (λ s. lookup (request_key operation) s.idempotency)
  create_or_known operation existing_id

unfoldable pub get_operation : OperationId → Method (Option OperationRecord)
get_operation id = gets λ s. lookup id s.operations

abbrev pub refresh_found :
    OperationId → Instant → Option OperationRecord → Method (Option OperationRecord)
refresh_found id now none = pure none
refresh_found id now (some r) = do
  refreshed ← lift (refresh_due r now)
  modify (set_operation id refreshed)
  pure (some refreshed)

unfoldable pub refresh_operation : OperationId → Instant → Method (Option OperationRecord)
refresh_operation id now = do found ← gets (λ s. lookup id s.operations); refresh_found id now found

-- The record belongs to this tenant's workstation.
abbrev pub on_device : TenantId → WorkstationId → OperationRecord → Bool
on_device tenant workstation r = r.tenant_id == tenant && r.workstation_id == workstation

-- `state in {LEASED, RUNNING}`
abbrev pub is_active : OperationRecord → Bool
is_active r = is_leased r.state || is_running r.state

abbrev pub is_eligible : SubjectId → OperationRecord → Bool
is_eligible owner r = r.owner_subject_id == owner && is_created r.state

-- The two variables of the loop.
pub record Survey : Type 0 where
  pub eligible : List OperationRecord
  pub active : Bool

abbrev pub note_record : SubjectId → OperationRecord → Survey → Survey
note_record owner r v =
    if is_active r
    then record v { active = true }
    else if is_eligible owner r
    then record v { eligible = v.eligible ++ r ∷ [] }
    else v

-- The loop over a snapshot of the operations, which writes each refreshed record back.
unfoldable pub survey :
    TenantId
    → WorkstationId
    → SubjectId
    → Instant
    → List (OperationId × OperationRecord)
    → Survey
    → Method Survey
survey tenant workstation owner now [] v = pure v
survey tenant workstation owner now ((id, r) ∷ rest) v = elim (on_device tenant workstation r) [
  | false ↦ survey tenant workstation owner now rest v
  | true ↦ do
    refreshed ← lift (refresh_due r now)
    modify (set_operation id refreshed)
    survey tenant workstation owner now rest (note_record owner refreshed v)
]

-- The order of `(created_at, operation_id)`.
abbrev pub precedes : OperationRecord → OperationRecord → Bool
precedes a b =
    ltb a.created_at b.created_at
    || (a.created_at == b.created_at && ltb a.operation_id b.operation_id)

-- `min` keeps the first of the least.
unfoldable pub earliest : OperationRecord → List OperationRecord → OperationRecord
earliest best [] = best
earliest best (r ∷ rest) = earliest (if precedes r best then r else best) rest

abbrev pub grant : OperationRecord → Instant → Instant → Method (Option OperationRecord)
grant selected now lease_expires_at =
    let effective = min lease_expires_at selected.expires_at in
    if leb effective now
    then (do
      expired ← lift (expire selected now)
      modify (set_operation selected.operation_id expired)
      pure none)
    else (do
      leased ← lift (
          updated
            (record selected { state = OperationState.leased; lease_expires_at = some effective }))
      modify (set_operation selected.operation_id leased)
      pure (some leased))

abbrev pub grant_earliest :
    List OperationRecord → Instant → Instant → Method (Option OperationRecord)
grant_earliest [] now lease_expires_at = pure none
grant_earliest (r ∷ rest) now lease_expires_at = grant (earliest r rest) now lease_expires_at

unfoldable pub lease_next_operation :
    TenantId → WorkstationId → SubjectId → Instant → Instant → Method (Option OperationRecord)
lease_next_operation tenant workstation owner now lease_expires_at = do
  snapshot ← gets (λ s. s.operations)
  v ← survey tenant workstation owner now snapshot (record { eligible = []; active = false })
  if v.active then pure none else grant_earliest v.eligible now lease_expires_at
