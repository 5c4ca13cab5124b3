-- ===== src/Gateway/Service/InMemory.antt =====
-- The service over the in-memory repository, as its tests and its local deployment run it: the two
-- protocols of repositories.py filled by the methods of `InMemoryGatewayRepository`.
use cadplot_mcp.Prelude.{ℕ}
use cadplot_mcp.Gateway.Ports.{CatalogRepository, OperationRepository}
use cadplot_mcp.Gateway.Repository.{
  Repository, upsert_workstation, upsert_project, upsert_drawing, list_workstations,
  get_workstation, list_projects, get_project, get_drawing,
}
use cadplot_mcp.Gateway.Repository.Operations.{
  create_or_get_operation, get_operation, refresh_operation, lease_next_operation,
}
use cadplot_mcp.Gateway.Repository.Workers.{start_operation, finish_operation}
use cadplot_mcp.Gateway.Repository.Application.{apply_worker_success}
use cadplot_mcp.Gateway.Service.{Digests, GatewayService}

abbrev pub in_memory_catalog : CatalogRepository Repository
in_memory_catalog = record {
  upsert_workstation = upsert_workstation;
  upsert_project = upsert_project;
  upsert_drawing = upsert_drawing;
  list_workstations = list_workstations;
  get_workstation = get_workstation;
  list_projects = list_projects;
  get_project = get_project;
  get_drawing = get_drawing;
}

abbrev pub in_memory_operations : OperationRepository Repository
in_memory_operations = record {
  create_or_get_operation = create_or_get_operation;
  get_operation = get_operation;
  refresh_operation = refresh_operation;
  lease_next_operation = lease_next_operation;
  start_operation = start_operation;
  finish_operation = finish_operation;
  apply_worker_success = apply_worker_success;
}

-- The time to live is in microseconds.
abbrev pub in_memory : ℕ → Digests → GatewayService Repository
in_memory ttl digests = record {
  catalog = in_memory_catalog;
  operations = in_memory_operations;
  operation_ttl = ttl;
  digests = digests;
}
