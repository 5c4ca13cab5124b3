-- ===== src/Publishing/Batch/Status.antt =====
-- `build_publish_batch_status` of src/cadplot_mcp/batch.py: the live states of jobs, and one sample
-- of the queue's telemetry.
pub mod Clean
use cadplot_mcp.Prelude.{◌&&◌, Bool, true, false, Option, none, some, String, str_eq, if◌then◌else◌}
use cadplot_mcp.Prelude.Dicts.{Dict, lookup}
use cadplot_mcp.Prelude.Classes.{string_eq}
use cadplot_mcp.Prelude.Results.{Result, ok, err}
use cadplot_mcp.Publishing.Value.{
  Value, null, array, object, text, is_true, is_none, is_text, as_dict, as_text, get,
}
use cadplot_mcp.Publishing.Runtime.{Runtime, Exception}
use cadplot_mcp.Publishing.Batch.Texts.{is_job_error, bounded_status_error}

-- `PUBLISH_JOB_STATES`, sorted
pub data JobState : Type 0 where
  cancelled_job failed_job pending_job running_job succeeded_job : JobState

unfoldable pub state_name : JobState → String
state_name cancelled_job = "Cancelled"
state_name failed_job = "Failed"
state_name pending_job = "Pending"
state_name running_job = "Running"
state_name succeeded_job = "Succeeded"

unfoldable pub state_of : Option String → Option JobState
state_of none = none
state_of (some s) =
    if str_eq s "Cancelled"
    then some cancelled_job
    else if str_eq s "Failed"
    then some failed_job
    else if str_eq s "Pending"
    then some pending_job
    else if str_eq s "Running"
    then some running_job
    else if str_eq s "Succeeded"
    then some succeeded_job
    else none

-- A normalized item; `found` is there with the state, and the error without it.
pub record StatusItem : Type 0 where
  pub plan_id : String
  pub found : Bool
  pub job_state : Option JobState
  pub job_error : Option String
  pub error : Option String

abbrev pub unhashable : String → Exception
unhashable name = record { name = "TypeError"; message = name; is_value_error = false }

abbrev pub not_found_error : String
not_found_error = "job_not_found"

module _ (R : Runtime) where
  open R use {Real}

  unfoldable pub refused_item : String → String → StatusItem
  refused_item plan_id error = record {
    plan_id = plan_id;
    found = false;
    job_state = none;
    job_error = none;
    error = some error;
  }

  -- `state in PUBLISH_JOB_STATES`, which raises for a list or a dict
  unfoldable pub known_state : Value Real → Result Exception (Option JobState)
  unfolding state_of
  known_state (array vs) = err (unhashable "unhashable type: 'list'")
  known_state (object fs) = err (unhashable "unhashable type: 'dict'")
  known_state (text s) = ok (state_of (some s))
  known_state other = ok none

  -- `job_error_valid`
  unfoldable pub is_valid_job_error : Value Real → Option (Value Real) → Bool
  unfolding is_text is_none as_text is_job_error
  is_valid_job_error state job_error =
      if is_text "Failed" (some state)
      then elim (as_text job_error) [ none ↦ false | some s ↦ is_job_error s ]
      else is_none job_error

  -- The item of a job in a known state, if its error has the right form.
  unfoldable pub job_item : String → Dict String (Value Real) → JobState → Option StatusItem
  unfolding as_text get lookup is_valid_job_error
  job_item plan_id plugin state =
      if is_valid_job_error (get "jobState" plugin) (lookup "jobError" plugin)
      then some (record {
        plan_id = plan_id;
        found = true;
        job_state = some state;
        job_error = as_text (lookup "jobError" plugin);
        error = none;
      })
      else none

  -- The item of a job that the plugin vouches for, if it does.
  unfoldable pub live_item :
      String → Dict String (Value Real) → Result Exception (Option StatusItem)
  unfolding is_true is_text get lookup known_state job_item
  live_item plan_id plugin =
      if is_true (lookup "ok" plugin) && is_text plan_id (lookup "plan_id" plugin)
      then elim (known_state (get "jobState" plugin)) [
        | err e ↦ err e
        | ok none ↦ ok none
        | ok (some state) ↦ ok (job_item plan_id plugin state)
      ]
      else ok none

  -- `error`: the response's, or that of its plugin
  unfoldable pub status_error : Dict String (Value Real) → Value Real
  unfolding is_none as_dict get lookup
  status_error response =
      if is_none (lookup "error" response)
      then elim (as_dict (lookup "plugin" response)) [
        | none ↦ null
        | some plugin ↦ get "error" plugin
      ]
      else get "error" response

  unfoldable pub normalize_response :
      String → Dict String (Value Real) → Result Exception StatusItem
  unfolding is_true as_dict lookup live_item refused_item bounded_status_error status_error
  normalize_response plan_id response =
      let refusal =
        refused_item plan_id
          (bounded_status_error R (status_error response) "invalid_status_response") in
      if is_true (lookup "found" response)
      then elim (as_dict (lookup "plugin" response)) [
        | none ↦ ok refusal
        | some plugin ↦ elim (live_item plan_id plugin) [
          | err e ↦ err e
          | ok none ↦ ok refusal
          | ok (some item) ↦ ok item
        ]
      ]
      else ok refusal

  unfoldable pub normalize_live_status : String → Value Real → Result Exception StatusItem
  unfolding as_dict normalize_response refused_item
  normalize_live_status plan_id response = elim (as_dict (some response)) [
    | none ↦ ok (refused_item plan_id "invalid_status_response")
    | some d ↦ normalize_response plan_id d
  ]
