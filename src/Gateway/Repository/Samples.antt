-- ===== src/Gateway/Repository/Samples.antt =====
-- Small stores for the tests: one device of one owner, with an operation in one of its states.
use cadplot_mcp.Prelude.{true, none, some, [], ◌∷◌, refl, arith}
use cadplot_mcp.Prelude.Classes.{nat_eq}
use cadplot_mcp.Prelude.Dicts.{lookup}
use cadplot_mcp.Gateway.Models.{
  OperationState, ReadTask, TaskResult, WorkstationRecord, ProjectRecord, DrawingRecord,
  OperationRecord,
}
use cadplot_mcp.Gateway.Operation.{validate_record}
use cadplot_mcp.Gateway.Operation.Shape.{IsShaped}
use cadplot_mcp.Gateway.Repository.{Repository, empty, request_key, request_key_eq}
use cadplot_mcp.Gateway.Repository.Invariant.{IsValid}
use cadplot_mcp.Gateway.Repository.Catalog.{IsOwned}

abbrev pub device : WorkstationRecord
device = record {
  workstation_id = 1;
  tenant_id = 1;
  owner_subject_id = 1;
  display_name = "Office";
  enabled = true;
  online = true;
}

abbrev pub project : ProjectRecord
project = record {
  project_id = 5;
  tenant_id = 1;
  owner_subject_id = 1;
  workstation_id = 1;
  display_name = "Bridge";
  enabled = true;
}

abbrev pub drawing : DrawingRecord
drawing = record {
  drawing_id = 6;
  tenant_id = 1;
  owner_subject_id = 1;
  workstation_id = 1;
  project_id = 5;
  display_name = "Plan";
  enabled = true;
}

abbrev pub waiting : OperationRecord
waiting = record {
  operation_id = 1;
  tenant_id = 1;
  owner_subject_id = 1;
  client_id = 1;
  workstation_id = 1;
  idempotency_key = 1;
  request_fingerprint = 1;
  task = ReadTask.list_projects 1;
  state = OperationState.created;
  created_at = 100;
  expires_at = 1000;
  lease_expires_at = none;
  started_at = none;
  completed_at = none;
  result = none;
  error_code = none;
}

abbrev pub leased : OperationRecord
leased = record waiting { state = OperationState.leased; lease_expires_at = some 300 }

abbrev pub running : OperationRecord
running = record waiting { state = OperationState.running; started_at = some 200 }

abbrev pub answer : TaskResult
answer = TaskResult.list_projects (5 ∷ [])

abbrev pub succeeded : OperationRecord
succeeded = record waiting {
  state = OperationState.succeeded;
  started_at = some 200;
  completed_at = some 250;
  result = some answer;
}

-- The device, with this operation.
abbrev pub store_of : OperationRecord → Repository
store_of r = record empty {
  workstations = (1, device) ∷ [];
  operations = (r.operation_id, r) ∷ [];
  idempotency = (request_key r, r.operation_id) ∷ [];
}

pub store_of-IsValid : (r : OperationRecord) → IsShaped r → IsValid (store_of r)
unfolding lookup
store_of-IsValid r h = record {
  distinct = ground arith;
  shaped = ground arith;
  exclusive = λ i j q p e f rivals. ground arith;
  indexed = λ k id e. (r, ground arith, ground arith);
}

pub waiting-IsShaped : IsShaped waiting
unfolding validate_record
waiting-IsShaped = refl

pub leased-IsShaped : IsShaped leased
unfolding validate_record
leased-IsShaped = refl

pub running-IsShaped : IsShaped running
unfolding validate_record
running-IsShaped = refl

pub succeeded-IsShaped : IsShaped succeeded
unfolding validate_record
succeeded-IsShaped = refl

pub store_of-IsOwned : (r : OperationRecord) → IsOwned (store_of r)
unfolding lookup
store_of-IsOwned r = record { projects = λ id p e. cc; drawings = λ id d e. cc }
