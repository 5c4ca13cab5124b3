-- ===== src/Publishing/Batch/Report.antt =====
-- `build_publish_batch_status` of src/cadplot_mcp/batch.py: the status of each job, the queue's
-- telemetry or its error, and the counts.
pub mod Counts
pub mod Accounts
use Prim.Native.String.{◌++◌ as append}
use cadplot_mcp.Prelude.{
  ℕ, Bool, true, false, ◌&&◌, not, Option, none, some, List, [], ◌∷◌, map, String, str_eq, is_some,
  if◌then◌else◌,
}
use cadplot_mcp.Prelude.Results.{Result, ok, err, Exec, pure, lift, ◌>>=◌}
use cadplot_mcp.Publishing.Value.{pos, Value, null, boolean, int, text, list, dict, prefixed}
use cadplot_mcp.Publishing.Runtime.{Runtime, Exception}
use cadplot_mcp.Publishing.Batch.Page.{count_where}
use cadplot_mcp.Publishing.Batch.Texts.{bounded_text}
use cadplot_mcp.Publishing.Batch.Approvals.{validate_status_plan_ids}
use cadplot_mcp.Publishing.Batch.Status.{
  JobState, cancelled_job, failed_job, pending_job, running_job, succeeded_job, state_name,
  StatusItem, not_found_error, normalize_live_status,
}
use cadplot_mcp.Publishing.Batch.Telemetry.{
  Telemetry, authentication_scheme, normalize_queue_telemetry,
}

pub record StatusReport : Type 0 where
  pub status_batch_id : String
  pub cancelled_count : ℕ
  pub failed_count : ℕ
  pub pending_count : ℕ
  pub running_count : ℕ
  pub succeeded_count : ℕ
  pub not_found : ℕ
  pub errors : ℕ
  pub queue : Option Telemetry
  pub queue_error : Option String
  pub items : List StatusItem

-- `item.get("job_state") == state`
unfoldable pub in_state : JobState → StatusItem → Bool
unfolding state_name
in_state state item = elim item.job_state [
  | none ↦ false
  | some s ↦ str_eq (state_name s) (state_name state)
]

-- `item.get("error") == "job_not_found"`
unfoldable pub is_not_found : StatusItem → Bool
is_not_found item = elim item.error [ none ↦ false | some e ↦ str_eq e not_found_error ]

unfoldable pub is_error : StatusItem → Bool
unfolding is_not_found
is_error item = not (is_some item.job_state) && not (is_not_found item)

abbrev text_or_null : {Real : Type 0} → Option String → Value Real
text_or_null none = null
text_or_null (some s) = text s

module _ (R : Runtime) where
  open R use {Real, hexdigest}

  unfoldable pub status_item_value : StatusItem → Value Real
  unfolding state_name
  status_item_value i =
      if i.found
      then dict (
          ("plan_id", text i.plan_id)
          ∷ ("found", boolean true)
          ∷ ("job_state", elim i.job_state [ none ↦ null | some s ↦ text (state_name s) ])
          ∷ ("job_error", text_or_null i.job_error)
          ∷ ("error", null)
          ∷ [])
      else dict (
          ("plan_id", text i.plan_id)
          ∷ ("found", boolean false)
          ∷ ("job_state", null)
          ∷ ("error", text_or_null i.error)
          ∷ [])

  unfoldable pub telemetry_value : Option Telemetry → Value Real
  telemetry_value none = null
  telemetry_value (some t) = dict (
      ("capacity", int (pos t.capacity))
      ∷ ("pending", int (pos t.pending))
      ∷ ("running", int (pos t.running))
      ∷ ("available", int (pos t.available))
      ∷ ("recovered_on_startup", int (pos t.recovered_on_startup))
      ∷ ("interrupted_on_startup", int (pos t.interrupted_on_startup))
      ∷ ("cancelled_on_startup", int (pos t.cancelled_on_startup))
      ∷ ("authentication", text authentication_scheme)
      ∷ [])

  -- `payload`, before it is hashed
  unfoldable pub status_value : StatusReport → Value Real
  unfolding status_item_value telemetry_value
  status_value r = dict (
      ("schema_version", int (pos 1))
      ∷ (
        "summary",
        dict (
            ("cancelled", int (pos r.cancelled_count))
            ∷ ("failed", int (pos r.failed_count))
            ∷ ("pending", int (pos r.pending_count))
            ∷ ("running", int (pos r.running_count))
            ∷ ("succeeded", int (pos r.succeeded_count))
            ∷ ("not_found", int (pos r.not_found))
            ∷ ("errors", int (pos r.errors))
            ∷ []),
      )
      ∷ ("queue", telemetry_value r.queue)
      ∷ ("queue_error", text_or_null r.queue_error)
      ∷ ("items", list (map status_item_value r.items))
      ∷ [])

  unfoldable pub summarize : List StatusItem → Option Telemetry → Option String → StatusReport
  unfolding count_where in_state is_not_found is_error
  summarize items queue queue_error = record {
    status_batch_id = "";
    cancelled_count = count_where (in_state cancelled_job) items;
    failed_count = count_where (in_state failed_job) items;
    pending_count = count_where (in_state pending_job) items;
    running_count = count_where (in_state running_job) items;
    succeeded_count = count_where (in_state succeeded_job) items;
    not_found = count_where is_not_found items;
    errors = count_where is_error items;
    queue = queue;
    queue_error = queue_error;
    items = items;
  }

  unfoldable pub with_id : StatusReport → StatusReport
  unfolding status_value prefixed
  with_id r = record r { status_batch_id = prefixed (hexdigest (status_value r)) }

module _ (R : Runtime) {S : Type 0} (status_builder : String → Exec Exception S (Value R.Real))
    (plugin_status_builder : Exec Exception S (Value R.Real)) where
  open R use {Real}

  abbrev status_exception : Exception → String
  status_exception e = append "status_exception:" e.name

  -- The response of a job, where an exception becomes one.
  unfoldable pub live_response : String → Exec Exception S (Value Real)
  live_response plan_id s =
      let (r, t) = status_builder plan_id s in
      (
        ok (elim r [
          | ok response ↦ response
          | err e ↦ dict (("found", boolean false) ∷ ("error", text (status_exception e)) ∷ [])
        ]),
        t,
      )

  unfoldable pub read_statuses : List String → Exec Exception S (List StatusItem)
  unfolding live_response normalize_live_status
  read_statuses [] = pure []
  read_statuses (plan_id ∷ plan_ids) = do
    response ← live_response plan_id
    item ← lift (normalize_live_status R plan_id response)
    rest ← read_statuses plan_ids
    pure (item ∷ rest)

  -- `queue` and `queue_error`
  unfoldable pub read_queue : Exec Exception S (Option Telemetry × Option String)
  unfolding normalize_queue_telemetry bounded_text
  read_queue s =
      let (r, t) = (plugin_status_builder >>= λ v. lift (normalize_queue_telemetry R v)) s in
      (
        ok (elim r [
          | ok telemetry ↦ (some telemetry, none)
          | err e ↦ (
            none,
            some (if e.is_value_error then bounded_text R e.message else status_exception e),
          )
        ]),
        t,
      )

  unfoldable pub status_of_jobs : List String → Exec Exception S StatusReport
  unfolding read_statuses read_queue summarize with_id
  status_of_jobs plan_ids = do
    items ← read_statuses plan_ids
    queue ← read_queue
    pure (with_id R (summarize R items queue.0 queue.1))

  unfoldable pub build_publish_batch_status : Value Real → Exec Exception S StatusReport
  unfolding validate_status_plan_ids status_of_jobs
  build_publish_batch_status plan_ids =
      lift (validate_status_plan_ids R plan_ids) >>= status_of_jobs
