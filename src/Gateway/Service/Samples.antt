-- ===== src/Gateway/Service/Samples.antt =====
-- A service, its users and its workers, for the tests.
use cadplot_mcp.Prelude.{true, false}
use cadplot_mcp.Prelude.Classes.{nat_eq}
use cadplot_mcp.Protocol.Translation.{ApplyTranslation, TranslationRequest}
use cadplot_mcp.Gateway.Models.{
  PrincipalContext, WorkerContext, ScanDrawingsRequest, TranslationEnqueueRequest,
}
use cadplot_mcp.Gateway.Repository.{Repository, request_key_eq}
use cadplot_mcp.Gateway.Service.{Digests, GatewayService}
use cadplot_mcp.Gateway.Service.InMemory.{in_memory}

abbrev pub digests : Digests
digests = record { fingerprint = λ w task. 1; approval_key = λ d plan. 7; request_size = λ q. 100 }

abbrev pub service : GatewayService Repository
service = in_memory 900_000_000 digests

abbrev pub user : PrincipalContext
user = record { tenant_id = 1; subject_id = 1; client_id = 1; scopes = λ scope. true }

abbrev pub guest : PrincipalContext
guest = record { tenant_id = 1; subject_id = 1; client_id = 1; scopes = λ scope. false }

abbrev pub worker : WorkerContext
worker = record { tenant_id = 1; workstation_id = 1 }

abbrev pub scan : ScanDrawingsRequest
scan = record { idempotency_key = 3; project_id = 5; recursive = true; limit = 10 }

abbrev pub approval : ApplyTranslation
approval = record {
  inventory_id = 11;
  review_id = 12;
  approved_plan_id = 13;
  plan_operation_id = 1;
}

abbrev pub changes : TranslationEnqueueRequest
changes = record {
  idempotency_key = 3;
  drawing_id = 6;
  request = TranslationRequest.apply approval;
}
