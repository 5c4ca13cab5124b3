-- ===== src/Publishing/Rehearsal/Queueing.antt =====
-- The queueing part of `run_synthetic_batch_demo` in src/cadplot_mcp/batch_demo.py: a queue of a given
-- capacity behind `queue_approved_batch`, and the loop that resubmits what was deferred.
use cadplot_mcp.Prelude.{
  ℕ, zero, suc, ◌+◌, ◌-◌, true, false, Option, none, some, List, [], ◌∷◌, ◌++◌, String, leb,
  if◌then◌else◌,
}
use cadplot_mcp.Prelude.Classes.{string_eq}
use cadplot_mcp.Prelude.Dicts.{Dict, lookup}
use cadplot_mcp.Prelude.Results.{Result, ok, err, Exec, pure, lift, modify, ◌>>=◌, ◌>>◌}
use cadplot_mcp.Publishing.Value.{pos, Value, boolean, int, text, list, dict}
use cadplot_mcp.Publishing.Runtime.{Runtime, Exception}
use cadplot_mcp.Publishing.Batch.Approvals.{QueueApproval}
use cadplot_mcp.Publishing.Batch.Queue.{QueueReport, is_deferred, queue_approved_batch}
use cadplot_mcp.Publishing.Batch.Telemetry.{authentication_scheme}

-- `accepted_in_window`, `queue_pipe_attempts` and `accepted_plan_ids`
pub record Window : Type 0 where
  pub accepted_in_window : ℕ
  pub queue_pipe_attempts : ℕ
  pub accepted_plan_ids : List String

abbrev pub key_error : String → Exception
key_error k = record { name = "KeyError"; message = k; is_value_error = false }

module _ (R : Runtime) (queue_capacity : ℕ) where
  open R use {Real, parent_name}

  unfoldable pub full_response : Value Real
  full_response = dict (
      ("queued", boolean false)
      ∷ ("synthetic", boolean true)
      ∷ (
        "plugin",
        dict (
            ("ok", boolean false)
            ∷ ("error", text "queue_full")
            ∷ ("queueCapacity", int (pos queue_capacity))
            ∷ ("queueAuthentication", text authentication_scheme)
            ∷ ("queuePending", int (pos queue_capacity))
            ∷ ("queueRunning", int (pos 0))
            ∷ ("queueAvailable", int (pos 0))
            ∷ []),
      )
      ∷ [])

  unfoldable pub accepted_response : QueueApproval → ℕ → Value Real
  accepted_response a accepted = dict (
      ("queued", boolean true)
      ∷ ("synthetic", boolean true)
      ∷ ("job_id", text (parent_name a.manifest_path))
      ∷ (
        "plugin",
        dict (
            ("ok", boolean true)
            ∷ ("queueCapacity", int (pos queue_capacity))
            ∷ ("queueAuthentication", text authentication_scheme)
            ∷ ("queuePending", int (pos accepted))
            ∷ ("queueRunning", int (pos 0))
            ∷ ("queueAvailable", int (pos (queue_capacity - accepted)))
            ∷ []),
      )
      ∷ [])

  unfoldable pub queue_with_backpressure : QueueApproval → Exec Exception Window (Value Real)
  unfolding full_response accepted_response
  queue_with_backpressure a w =
      if leb queue_capacity w.accepted_in_window
      then (ok full_response, record w { queue_pipe_attempts = w.queue_pipe_attempts + 1 })
      else (
        ok (accepted_response a (w.accepted_in_window + 1)),
        record {
          accepted_in_window = w.accepted_in_window + 1;
          queue_pipe_attempts = w.queue_pipe_attempts + 1;
          accepted_plan_ids = w.accepted_plan_ids ++ a.plan_id ∷ [];
        },
      )

  -- `item[key]`
  unfoldable pub item_at : String → Dict String (Value Real) → Result Exception (Value Real)
  unfolding lookup
  item_at k d = elim (lookup k d) [ none ↦ err (key_error k) | some v ↦ ok v ]

  -- The approval that a deferred item is resubmitted as.
  unfoldable pub resubmission : Dict String (Value Real) → Result Exception (Value Real)
  unfolding item_at
  resubmission item = elim (item_at "manifest_path" item) [
    | err e ↦ err e
    | ok path ↦ elim (item_at "plan_id" item) [
      | err e ↦ err e
      | ok plan_id ↦ elim (item_at "manifest_sha256" item) [
        | err e ↦ err e
        | ok digest ↦ ok (
            dict
              (("manifest_path", path) ∷ ("plan_id", plan_id) ∷ ("manifest_sha256", digest) ∷ []))
      ]
    ]
  ]

  -- The comprehension over the items that are deferred.
  unfoldable pub resubmissions :
      List (Dict String (Value Real)) → Result Exception (List (Value Real))
  unfolding is_deferred resubmission
  resubmissions [] = ok []
  resubmissions (item ∷ items) =
      let rest = resubmissions items in
      if is_deferred item
      then elim (resubmission item) [
        | err e ↦ err e
        | ok row ↦ elim rest [ err e ↦ err e | ok rows ↦ ok (row ∷ rows) ]
      ]
      else rest

  abbrev pub Continue : Type 0
  Continue =
      List (Value Real)
      → List (QueueReport Real)
      → Exec Exception Window (Option (List (QueueReport Real)))

  -- The body of the loop behind the call.
  unfoldable pub after_queue :
      Continue
      → List (QueueReport Real)
      → QueueReport Real
      → Exec Exception Window (Option (List (QueueReport Real)))
  after_queue continue queue_batches queued = lift (resubmissions queued.items) >>= λ pending.
      continue pending (queue_batches ++ queued ∷ [])

  -- `accepted_in_window = 0`
  unfoldable pub open_window : Window → Window
  open_window w = record w { accepted_in_window = 0 }

  -- `while pending`; `none` means that the fuel ran out.
  unfoldable pub queue_pending : ℕ → Continue
  queue_pending fuel [] queue_batches = pure (some queue_batches)
  queue_pending zero (row ∷ rows) queue_batches = pure none
  queue_pending (suc fuel) (row ∷ rows) queue_batches =
      modify open_window
      >> queue_approved_batch R queue_with_backpressure (list (row ∷ rows))
      >>= after_queue (queue_pending fuel) queue_batches
