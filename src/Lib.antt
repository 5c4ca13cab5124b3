-- ===== src/Lib.antt =====
-- cadplot-mcp lets a remote client ask for work on AutoCAD drawings that a workstation carries out. The
-- hosted gateway is where the two meet: users enqueue operations, workers lease, start and finish
-- them. On the workstation a local program plans the sheets of drawings and publishes them in batches.
-- This library models the gateway's core, and the planning and the batches of the local program, and
-- proves what makes them correct.
--
-- Parts and files (paths from the repository's root):
-- - packages/protocol/src/cadplot_protocol/translation_protocol.py: the messages of the drawing
--   translation and `require_matching_result`, in Protocol/Translation; Answers says which
--   responses answer a request.
-- - services/gateway/cadplot_gateway/models.py: identifiers, tasks, results, records and views in
--   Gateway/Models, with the bounds of results in Models/Bounds and `==` in Models/Equality; the
--   validator `validate_state_shape` in Gateway/Operation.
-- - services/gateway/cadplot_gateway/repositories.py: the protocols `CatalogRepository` and
--   `OperationRepository` in Gateway/Ports; `InMemoryGatewayRepository` in Gateway/Repository
--   (catalog), Repository/Operations (`create_or_get_operation` to `lease_next_operation`),
--   Repository/Workers (`start_operation`, `finish_operation`) and Repository/Application
--   (`apply_worker_success`); `_refresh_due`, `_expire`,
--   `_attention_required` and `_updated` in Gateway/Operation. The other modules below Repository
--   prove: Survey, Notes and Leasing describe the loop of `lease_next_operation`, Granting and
--   Fairness what it grants, Invariant and Transitions the invariant of the operations, Requests
--   and Once the idempotency of requests, Applying a worker's success, Catalog, Ownership and
--   Reported the ownership of the catalog, Registering sequences of the calls that write it,
--   Listing its listings, Outcomes the exact results of a worker's calls, History sequences of calls.
-- - services/gateway/cadplot_gateway/service.py: `GatewayService` over any two repositories in
--   Gateway/Service (fields and checks), Service/Enqueue (a user's methods), Service/Bindings (the
--   checks of results) and Service/Worker (a worker's methods); InMemory is the service over the
--   in-memory repository, for which most theorems on it hold. Passed, Owned and Finished say what
--   the checks have read where they let a call pass; Access, Approval and Once are on a user's
--   methods, Leases, Retries, Failures, Applications, Errors, Bounded and Reports on a worker's.
-- - src/cadplot_mcp/planner.py: `create_publish_plan` in Publishing/Planner/Plan, with the body of its
--   loop in Planner/Sheets and Planner/Templates, the checks of a profile in Planner/Checks, the
--   geometry in Planner/Geometry and the names of layouts in Planner/Names; `validate_publish_plan` in
--   Planner/Validate. Accepted, RoundTrip, Verdicts and Ready are theorems on them.
-- - src/cadplot_mcp/models.py, config.py, paper.py: the records that planning reads in
--   Publishing/Inspection, `match_paper_profile` in Publishing/Paper.
-- - src/cadplot_mcp/batch.py: `build_batch_page` in Publishing/Batch/Page, `stage_approved_batch` in
--   Batch/Staging, `queue_approved_batch` in Batch/Queue, `build_publish_batch_status` in Batch/Report
--   with Batch/Status, Batch/Telemetry and Batch/Texts; the checks of approvals in Batch/Approvals.
--   Items, Inventory, Staging/Keeps, Queue/Prefix, Approvals/Valid, Texts/Bounded, Status/Clean,
--   Report/Counts and Report/Accounts are theorems on them.
-- - src/cadplot_mcp/batch_demo.py: the loop over all pages, `_plan_all`, in
--   Publishing/Rehearsal/Paging, and the loop that resubmits what a full queue deferred in
--   Rehearsal/Queueing; Complete, Windows and Drained prove that they end.
-- - Publishing/Value: the values of JSON. Publishing/TextOrder: the order of strings.
--   Publishing/Runtime: what the local program takes from Python.
-- - Gateway/Errors: the exceptions as values. Prelude: shared names, lists, dicts, equality, and
--   methods that change a state and may raise.
--
-- The model:
-- - A method is a function of the state into a result and the state after it. What was written
--   before a raise stays written. The lock of the repository is held for a whole method, so every
--   method is one step and an interleaving is a sequence of calls.
-- - An identifier, a key and a digest are numbers, as the code only compares and orders them; the
--   order of identifiers is taken to be that of the strings. A timestamp is its instant in UTC in
--   microseconds; a reading of the clock without a time zone is `none`. The clock and the fresh
--   identifiers of `uuid4` are arguments, with no relation between successive readings.
-- - The SHA-256 fingerprint of a request, the key made of an approval and the size of a request's
--   JSON are functions of the record `Digests`; nothing is assumed of them.
-- - Integers that the code bounds are natural numbers; a negative lease or time to live is refused
--   as 0 is. The loops of the gateway are structural recursions, so no fuel is needed.
-- - `isinstance` tests hold by the types. Pattern checks of identifiers and names are not modelled.
--   `_updated` checks the pattern of the error code, which is a string of any form until then, and
--   runs the validator; an error code is taken without white space around it, which the models strip.
--   A result is an instance whose bounds were checked when it was made, so they are modelled where the
--   service checks them and not again in `_updated`.
-- - In the local program a dict of unknown shape is an association list of JSON values, and `get`,
--   `isinstance`, `is True` and `==` are functions on them; a dict of fixed shape is a record. A builder
--   that a batch calls is an argument that changes a state of any kind and returns or raises. The floats
--   and their operations, the digest of a canonical JSON text, `casefold`, `repr`, paths and the classes
--   of characters are fields of the record `Runtime`; two theorems assume anything of them,
--   the round trip of a plan the form of a digest and the bounds of a status item that the texts of the
--   code are printable. The patterns of `parse_paper_size` are an argument of planning, and
--   resolving a path does not raise.
-- - The two loops of the rehearsal take fuel. One round for each drawing and one more, and one for each
--   approval, are proved to be enough.
--
-- Not modelled: the PostgreSQL repository, the ingress and the control plane of workers, the HTTP
-- and MCP wiring, the local program's translation, audits, configuration files and command line, its
-- AutoCAD backends, and the synthetic files of the rehearsal.
pub mod Prelude
pub mod Protocol
pub mod Gateway
pub mod Publishing
