-- ===== src/Gateway/Repository.antt =====
-- services/gateway/cadplot_gateway/repositories.py, `InMemoryGatewayRepository`: the state and the
-- catalog's methods. Each method holds the lock to its end, so it is one step of the state. The
-- operations' methods are in `Operations` and `Workers`, the catalog applied by a worker in
-- `Application`.
pub mod Operations
pub mod Workers
pub mod Survey
pub mod Notes
pub mod Invariant
pub mod Transitions
pub mod Leasing
pub mod Granting
pub mod Fairness
pub mod Requests
pub mod Applying
pub mod Catalog
pub mod Ownership
pub mod Reported
pub mod Registering
pub mod History
pub mod Once
pub mod Outcomes
pub mod Application
pub mod Listing
pub mod Samples
mod Tests
use cadplot_mcp.Prelude.{
  ℕ, Bool, true, false, not, ◌&&◌, ◌||◌, Option, none, some, List, [], ◌∷◌, ◌≡◌, arith, ltb, leb,
  ◌==◌, is_some, keep, if◌then◌else◌,
}
use cadplot_mcp.Prelude.Classes.{Eq, nat_eq}
use cadplot_mcp.Prelude.Results.{Exec, pure, raise, gets, raise_if, modify, ◌>>=◌, ◌>>◌}
use cadplot_mcp.Prelude.Dicts.{Dict, values, lookup, insert}
use cadplot_mcp.Gateway.Errors.{ValueCode, Error, value_error}
use cadplot_mcp.Gateway.Models.{
  TenantId, SubjectId, ClientId, WorkstationId, ProjectId, DrawingId, OperationId, IdempotencyKey,
  WorkstationRecord, ProjectRecord, DrawingRecord, OperationRecord,
}

-- The tuple under which a request is remembered.
pub record RequestKey : Type 0 where
  pub tenant_id : TenantId
  pub owner_subject_id : SubjectId
  pub client_id : ClientId
  pub idempotency_key : IdempotencyKey

abbrev pub request_key : OperationRecord → RequestKey
request_key r = record {
  tenant_id = r.tenant_id;
  owner_subject_id = r.owner_subject_id;
  client_id = r.client_id;
  idempotency_key = r.idempotency_key;
}

abbrev pub key_beq : RequestKey → RequestKey → Bool
key_beq a b =
    (a.tenant_id == b.tenant_id && a.owner_subject_id == b.owner_subject_id)
    && (a.client_id == b.client_id && a.idempotency_key == b.idempotency_key)

pub key_beq_iff : (a b : RequestKey) → (key_beq a b ≡ true → a ≡ b) × (a ≡ b → key_beq a b ≡ true)
key_beq_iff a b = ground arith

instance abbrev pub request_key_eq : Eq RequestKey
request_key_eq = record { beq = key_beq; beq_iff = key_beq_iff }

pub record Repository : Type 0 where
  pub workstations : Dict WorkstationId WorkstationRecord
  pub projects : Dict ProjectId ProjectRecord
  pub drawings : Dict DrawingId DrawingRecord
  pub operations : Dict OperationId OperationRecord
  pub idempotency : Dict RequestKey OperationId

abbrev pub empty : Repository
empty = record {
  workstations = [];
  projects = [];
  drawings = [];
  operations = [];
  idempotency = [];
}

abbrev pub Method : Type 0 → Type 0
Method A = Exec Error Repository A

abbrev pub set_workstation : WorkstationRecord → Repository → Repository
set_workstation r s = record s { workstations = insert r.workstation_id r s.workstations }

abbrev pub set_project : ProjectRecord → Repository → Repository
set_project r s = record s { projects = insert r.project_id r s.projects }

abbrev pub set_drawing : DrawingRecord → Repository → Repository
set_drawing r s = record s { drawings = insert r.drawing_id r s.drawings }

abbrev pub set_operation : OperationId → OperationRecord → Repository → Repository
set_operation id r s = record s { operations = insert id r s.operations }

unfoldable pub add_workstation : WorkstationRecord → Method (Unit {0})
add_workstation r = do
  existing ← gets (λ s. lookup r.workstation_id s.workstations)
  raise_if (is_some existing) (value_error ValueCode.duplicate_workstation)
  modify (set_workstation r)

-- The existing workstation has another tenant or owner.
abbrev pub workstation_moved : Option WorkstationRecord → WorkstationRecord → Bool
workstation_moved none r = false
workstation_moved (some w) r =
    not (w.tenant_id == r.tenant_id) || not (w.owner_subject_id == r.owner_subject_id)

unfoldable pub upsert_workstation : WorkstationRecord → Method WorkstationRecord
upsert_workstation r = do
  existing ← gets (λ s. lookup r.workstation_id s.workstations)
  raise_if (workstation_moved existing r) (value_error ValueCode.workstation_owner_mismatch)
  modify (set_workstation r)
  pure r

-- The project's workstation is missing, or has another tenant or owner.
abbrev pub workstation_foreign : Option WorkstationRecord → ProjectRecord → Bool
workstation_foreign none r = true
workstation_foreign (some w) r =
    not (w.tenant_id == r.tenant_id) || not (w.owner_subject_id == r.owner_subject_id)

-- The existing project has another tenant, owner or workstation.
abbrev pub project_moved : Option ProjectRecord → ProjectRecord → Bool
project_moved none r = false
project_moved (some p) r =
    not (p.tenant_id == r.tenant_id)
    || (not (p.owner_subject_id == r.owner_subject_id)
        || not (p.workstation_id == r.workstation_id))

unfoldable pub add_project : ProjectRecord → Method (Unit {0})
add_project r = do
  existing ← gets (λ s. lookup r.project_id s.projects)
  raise_if (is_some existing) (value_error ValueCode.duplicate_project)
  workstation ← gets (λ s. lookup r.workstation_id s.workstations)
  raise_if (workstation_foreign workstation r) (value_error ValueCode.project_owner_mismatch)
  modify (set_project r)

unfoldable pub upsert_project : ProjectRecord → Method ProjectRecord
upsert_project r = do
  workstation ← gets (λ s. lookup r.workstation_id s.workstations)
  existing ← gets (λ s. lookup r.project_id s.projects)
  raise_if (workstation_foreign workstation r || project_moved existing r)
      (value_error ValueCode.project_owner_mismatch)
  modify (set_project r)
  pure r

-- The drawing's project is missing, or has another tenant, owner or workstation.
abbrev pub project_foreign : Option ProjectRecord → DrawingRecord → Bool
project_foreign none r = true
project_foreign (some p) r =
    not (p.tenant_id == r.tenant_id)
    || (not (p.owner_subject_id == r.owner_subject_id)
        || not (p.workstation_id == r.workstation_id))

-- The existing drawing has another tenant, owner, workstation or project.
abbrev pub drawing_moved : Option DrawingRecord → DrawingRecord → Bool
drawing_moved none r = false
drawing_moved (some d) r =
    not (d.tenant_id == r.tenant_id)
    || (not (d.owner_subject_id == r.owner_subject_id)
        || (not (d.workstation_id == r.workstation_id) || not (d.project_id == r.project_id)))

unfoldable pub add_drawing : DrawingRecord → Method (Unit {0})
add_drawing r = do
  existing ← gets (λ s. lookup r.drawing_id s.drawings)
  raise_if (is_some existing) (value_error ValueCode.duplicate_drawing)
  project ← gets (λ s. lookup r.project_id s.projects)
  raise_if (project_foreign project r) (value_error ValueCode.drawing_owner_mismatch)
  modify (set_drawing r)

unfoldable pub upsert_drawing : DrawingRecord → Method DrawingRecord
upsert_drawing r = do
  project ← gets (λ s. lookup r.project_id s.projects)
  existing ← gets (λ s. lookup r.drawing_id s.drawings)
  raise_if (project_foreign project r || drawing_moved existing r)
      (value_error ValueCode.drawing_owner_mismatch)
  modify (set_drawing r)
  pure r

abbrev write_online : WorkstationId → Bool → Option WorkstationRecord → Method (Unit {0})
write_online id online none = raise (value_error ValueCode.workstation_not_found)
write_online id online (some w) =
    modify λ s. record s { workstations = insert id (record w { online = online }) s.workstations }

unfoldable pub set_workstation_online : WorkstationId → Bool → Method (Unit {0})
set_workstation_online id online = do
  found ← gets (λ s. lookup id s.workstations)
  write_online id online found

-- One step of `sorted`, which is stable, by a number as the key.
unfoldable pub sort_insert : {A : Type 0} → (A → ℕ) → A → List A → List A
sort_insert key x [] = x ∷ []
sort_insert key x (y ∷ ys) = if leb (key x) (key y) then x ∷ y ∷ ys else y ∷ sort_insert key x ys

unfoldable pub sorted : {A : Type 0} → (A → ℕ) → List A → List A
unfolding sort_insert
sorted key [] = []
sorted key (x ∷ xs) = sort_insert key x (sorted key xs)

abbrev pub lists_workstation : TenantId → SubjectId → WorkstationRecord → Bool
lists_workstation tenant owner r =
    r.enabled && (r.tenant_id == tenant && r.owner_subject_id == owner)

unfoldable pub list_workstations : TenantId → SubjectId → Method (List WorkstationRecord)
unfolding keep sorted
list_workstations tenant owner = gets λ s.
    sorted (λ r. r.workstation_id) (keep (lists_workstation tenant owner) (values s.workstations))

unfoldable pub get_workstation : WorkstationId → Method (Option WorkstationRecord)
get_workstation id = gets λ s. lookup id s.workstations

-- `workstation_id is None or record.workstation_id == workstation_id`
abbrev pub on_workstation : Option WorkstationId → ProjectRecord → Bool
on_workstation none r = true
on_workstation (some w) r = r.workstation_id == w

abbrev pub lists_project : TenantId → SubjectId → Option WorkstationId → ProjectRecord → Bool
lists_project tenant owner workstation r =
    r.enabled
    && (r.tenant_id == tenant && (r.owner_subject_id == owner && on_workstation workstation r))

unfoldable pub list_projects :
    TenantId → SubjectId → Option WorkstationId → Method (List ProjectRecord)
unfolding keep sorted
list_projects tenant owner workstation = gets λ s.
    sorted (λ r. r.project_id) (keep (lists_project tenant owner workstation) (values s.projects))

unfoldable pub get_project : ProjectId → Method (Option ProjectRecord)
get_project id = gets λ s. lookup id s.projects

unfoldable pub get_drawing : DrawingId → Method (Option DrawingRecord)
get_drawing id = gets λ s. lookup id s.drawings
