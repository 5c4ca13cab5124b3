-- ===== src/Publishing/Tests/Batches.antt =====
-- Batches of drawings (src/cadplot_mcp/batch.py) and the rehearsal's loops over them.
use mathlib.Core.List.Perm
use cadplot_mcp.Prelude.{
  ℕ, ◌≡◌, ◌+◌, ◌++◌, refl, Bool, true, false, none, some, List, [], ◌∷◌, map, String, All, length,
  arith, str_eq, if◌then◌else◌,
}
use cadplot_mcp.Prelude.Classes.{string_eq, is_distinct}
use cadplot_mcp.Prelude.Dicts.{Dict, lookup}
use cadplot_mcp.Prelude.Results.{ok, err, Exec}
use cadplot_mcp.Publishing.Value.{
  pos, Value, items, fields, boolean, int, text, list, dict, is_true, is_identifier, is_digest,
}
use cadplot_mcp.Publishing.Runtime.{Exception}
use cadplot_mcp.Publishing.Batch.Page.{
  BatchPage, InventoryRow, plan_items, build_drawing_inventory_id,
}
use cadplot_mcp.Publishing.Batch.Inventory.{HasDistinctPaths, build_drawing_inventory_id-perm}
use cadplot_mcp.Publishing.Batch.Texts.Bounded.{all_chars, fixed_texts}
use cadplot_mcp.Publishing.Batch.Status.Clean.{IsClean, normalize_live_status-IsClean}
use cadplot_mcp.Publishing.Batch.Approvals.{
  QueueApproval, queue_approval_fields, validate_queue_approvals, validate_status_plan_ids,
  is_blank, path_key,
}
use cadplot_mcp.Publishing.Batch.Approvals.Valid.{IsBatch, row}
use cadplot_mcp.Publishing.Batch.Staging.{stage_approved_batch}
use cadplot_mcp.Publishing.Batch.Staging.Keeps.{stage_approved_batch-Keeps}
use cadplot_mcp.Publishing.Batch.Queue.{QueueReport, queue_approved_batch}
use cadplot_mcp.Publishing.Batch.Queue.Prefix.{Splits, queue_approved_batch-Splits}
use cadplot_mcp.Publishing.Batch.Status.{StatusItem, pending_job, unhashable, normalize_live_status}
use cadplot_mcp.Publishing.Batch.Report.{
  StatusReport, summarize, with_id, build_publish_batch_status,
}
use cadplot_mcp.Publishing.Batch.Report.Counts.{is_normal}
use cadplot_mcp.Publishing.Batch.Report.Accounts.{QueueIsConsistent, build_status-accounts}
use cadplot_mcp.Publishing.Batch.Telemetry.{Telemetry, authentication_scheme}
use cadplot_mcp.Publishing.Rehearsal.Paging.{check_pages, plan_all}
use cadplot_mcp.Publishing.Rehearsal.Complete.{items_of, plan_all-covers}
use cadplot_mcp.Publishing.Rehearsal.Queueing.{Window, queue_pending, queue_with_backpressure}
use cadplot_mcp.Publishing.Rehearsal.Drained.{queue_pending-drains}
use cadplot_mcp.Publishing.Samples.{small, planner, id_a, id_b, two_approvals}

abbrev three_drawings : List String
three_drawings = "a.dwg" ∷ "bad.dwg" ∷ "c.dwg" ∷ []

id_a-is_identifier : is_identifier id_a ≡ true
unfolding is_identifier
id_a-is_identifier = refl

plan_all-covers_example :
    (pages : List (BatchPage ℕ)) × (plan_all small planner three_drawings id_a 2 4 0
      ≡ check_pages small planner three_drawings id_a 2
          (some (pages, (plan_items small planner three_drawings 0).0))
          (plan_items small planner three_drawings 0).1)
    × (items_of pages ≡ (plan_items small planner three_drawings 0).0)
plan_all-covers_example =
    plan_all-covers small planner three_drawings id_a 2 (omega arith) (omega arith)
      id_a-is_identifier 4 0 (omega arith)

-- A stage builder that records whether the plans that it is called with are ready.
abbrev stager : Dict String (Value ℕ) → String → Exec Exception (List Bool) (Dict String (Value ℕ))
stager plan plan_id log = (ok [], is_true (lookup "ready" plan) ∷ log)

abbrev quiet_planner : String → Exec Exception (List Bool) (Dict String (Value ℕ))
quiet_planner path log = (ok (("plan_id", text id_a) ∷ ("ready", boolean true) ∷ []), log)

abbrev approvals : Value ℕ
approvals = list (
    dict (("path", text "/a.dwg") ∷ ("plan_id", text id_a) ∷ [])
    ∷ dict (("path", text "/b.dwg") ∷ ("plan_id", text id_b) ∷ [])
    ∷ [])

-- The first approval is staged, the second is refused, as its plan has another identifier.
staged_once : (stage_approved_batch small quiet_planner stager approvals []).1 ≡ true ∷ []
unfolding stage_approved_batch items fields
staged_once = refl

stage_approved_batch-Keeps_example :
    All (λ b. b ≡ true) (stage_approved_batch small quiet_planner stager approvals []).1
stage_approved_batch-Keeps_example =
    stage_approved_batch-Keeps small quiet_planner stager (λ log. All (λ b. b ≡ true) log) approvals
      [] (λ path u p. p) (λ a plan u s approved fresh ready same p. (ready, p)) tt

empty_window : Window
empty_window = record { accepted_in_window = 0; queue_pipe_attempts = 0; accepted_plan_ids = [] }

two_approvals-IsBatch : IsBatch small two_approvals
unfolding is_blank is_identifier is_digest is_distinct path_key
two_approvals-IsBatch =
    (omega arith, ((refl, refl, refl), ((refl, refl, refl), tt)), refl, refl, refl)

two_approvals-valid :
    validate_queue_approvals small (list (map (row small) two_approvals)) ≡ ok two_approvals
unfolding validate_queue_approvals items fields queue_approval_fields
two_approvals-valid = refl

-- A queue of one place: the second approval is deferred.
queue_approved_batch-Splits_example :
    (report : QueueReport ℕ) × (t : Window) × (queue_approved_batch small
        (queue_with_backpressure small 1)
        (list (map (row small) two_approvals))
        empty_window
      ≡ (ok report, t))
    × (report.requested ≡ length two_approvals)
    × Splits small (queue_with_backpressure small 1) two_approvals empty_window report.items t
queue_approved_batch-Splits_example =
    queue_approved_batch-Splits small (queue_with_backpressure small 1)
      (list (map (row small) two_approvals)) two_approvals empty_window two_approvals-valid

queue_pending-drains_example :
    (reports : List (QueueReport ℕ)) × (t : Window) × (queue_pending small 1 2
        (map (row small) two_approvals)
        []
        empty_window
      ≡ (ok (some ([] ++ reports)), t))
    × (t.accepted_plan_ids
        ≡ empty_window.accepted_plan_ids ++ map (λ (a : QueueApproval). a.plan_id) two_approvals)
queue_pending-drains_example =
    queue_pending-drains small 1 2 two_approvals [] empty_window (omega arith) two_approvals-IsBatch
      (omega arith)

-- One job is pending, the other is not known.
abbrev job_status : String → Exec Exception ℕ (Value ℕ)
job_status plan_id n =
    if str_eq plan_id id_a
    then (
      ok (
          dict (
            ("found", boolean true)
            ∷ (
              "plugin",
              dict (
                  ("ok", boolean true)
                  ∷ ("plan_id", text id_a)
                  ∷ ("jobState", text "Pending")
                  ∷ []),
            )
            ∷ [])),
      n + 1,
    )
    else (ok (dict (("found", boolean false) ∷ ("error", text "job_not_found") ∷ [])), n + 1)

abbrev plugin_status : Exec Exception ℕ (Value ℕ)
plugin_status n = (
  ok (
      dict (
        ("ok", boolean true)
        ∷ ("publishEnabled", boolean true)
        ∷ ("queueCapacity", int (pos 20))
        ∷ ("queueAuthentication", text authentication_scheme)
        ∷ ("queuePending", int (pos 1))
        ∷ ("queueRunning", int (pos 0))
        ∷ ("queueAvailable", int (pos 19))
        ∷ [])),
  n,
)

abbrev job_items : List StatusItem
job_items =
    record {
      plan_id = id_a;
      found = true;
      job_state = some pending_job;
      job_error = none;
      error = none;
    }
    ∷ record {
      plan_id = id_b;
      found = false;
      job_state = none;
      job_error = none;
      error = some "job_not_found";
    }
    ∷ []

abbrev telemetry : Telemetry
telemetry = record {
  capacity = 20;
  pending = 1;
  running = 0;
  available = 19;
  recovered_on_startup = 0;
  interrupted_on_startup = 0;
  cancelled_on_startup = 0;
}

abbrev job_ids : Value ℕ
job_ids = list (text id_a ∷ text id_b ∷ [])

abbrev report : StatusReport
report = with_id small (summarize small job_items (some telemetry) none)

report-built : build_publish_batch_status small job_status plugin_status job_ids 0 ≡ (ok report, 2)
unfolding build_publish_batch_status with_id summarize items fields
report-built = refl

build_status-accounts_example :
    (validate_status_plan_ids small job_ids ≡ ok (map (λ (i : StatusItem). i.plan_id) report.items))
    × All (λ i. is_normal i ≡ true) report.items
    × (report.cancelled_count + report.failed_count + report.pending_count + report.running_count
          + report.succeeded_count + report.not_found + report.errors
        ≡ length report.items)
    × QueueIsConsistent report.queue
build_status-accounts_example =
    build_status-accounts small job_status plugin_status job_ids 0 report 2 report-built

-- A plugin that sends a list for the state makes the code raise, where any other value would give
-- an item with an error.
list_for_state :
    normalize_live_status small id_a (
      dict (
        ("found", boolean true)
        ∷ (
          "plugin",
          dict (("ok", boolean true) ∷ ("plan_id", text id_a) ∷ ("jobState", list []) ∷ []),
        )
        ∷ []))
    ≡ err (unhashable "unhashable type: 'list'")
unfolding normalize_live_status items fields
list_for_state = refl

abbrev row_a : InventoryRow ℕ
row_a = record { path = "a.dwg"; size_bytes = int (pos 1); modified_utc = text "monday" }

abbrev row_b : InventoryRow ℕ
row_b = record { path = "b.dwg"; size_bytes = int (pos 2); modified_utc = text "sunday" }

rows-HasDistinctPaths : HasDistinctPaths small (row_a ∷ row_b ∷ [])
unfolding is_distinct
rows-HasDistinctPaths = refl

build_drawing_inventory_id-perm_example :
    build_drawing_inventory_id small (row_a ∷ row_b ∷ [])
    ≡ build_drawing_inventory_id small (row_b ∷ row_a ∷ [])
build_drawing_inventory_id-perm_example =
    build_drawing_inventory_id-perm small (row_a ∷ row_b ∷ []) (row_b ∷ row_a ∷ [])
      (Perm.swap row_b row_a []) rows-HasDistinctPaths

small_printable : all_chars small.is_printable fixed_texts ≡ true
unfolding all_chars
small_printable = refl

-- A job that is not there, and what the service says of it.
abbrev absent_job : Value ℕ
absent_job = dict (("found", boolean false) ∷ ("error", text "  job not found ") ∷ [])

abbrev absent_item : StatusItem
absent_item = record {
  plan_id = id_a;
  found = false;
  job_state = none;
  job_error = none;
  error = some "job not found";
}

absent_job_normalized : normalize_live_status small id_a absent_job ≡ ok absent_item
unfolding normalize_live_status fields
absent_job_normalized = refl

normalize_live_status-IsClean_example : IsClean small small_printable absent_item
normalize_live_status-IsClean_example =
    normalize_live_status-IsClean small small_printable id_a absent_job absent_item
      absent_job_normalized
