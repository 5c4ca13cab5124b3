-- ===== src/Publishing/Batch/Queue.antt =====
-- `queue_approved_batch` of src/cadplot_mcp/batch.py: approvals are queued in order until the queue
-- is full, and the rest is deferred.
pub mod Prefix
use cadplot_mcp.Prelude.{
  ℕ, ◌+◌, ◌||◌, Bool, true, false, not, Option, none, some, List, [], ◌∷◌, map, String, ◌==◌,
  str_eq, if◌then◌else◌, length,
}
use cadplot_mcp.Prelude.Dicts.{Dict, lookup}
use cadplot_mcp.Prelude.Classes.{string_eq}
use cadplot_mcp.Prelude.Results.{Result, ok, err, Exec, pure, lift, ◌>>=◌}
use cadplot_mcp.Publishing.Value.{
  ℤ, difference, Value, null, boolean, text, list, dict, is_true, is_none, is_text, as_dict, merge,
  prefixed,
}
use cadplot_mcp.Publishing.Runtime.{Runtime, Exception}
use cadplot_mcp.Publishing.Batch.Page.{count_where}
use cadplot_mcp.Publishing.Batch.Approvals.{
  QueueApproval, validate_queue_approvals, queue_approval_fields,
}

pub record QueueReport (Real : Type 0) : Type 0 where
  pub queue_batch_id : String
  pub complete : Bool
  pub requested : ℕ
  pub queued : ℕ
  pub deferred : ℕ
  pub failed : ℤ
  pub items : List (Dict String (Value Real))

module _ {Real : Type 0} where
  unfoldable pub not_queued : String → Dict String (Value Real)
  not_queued message = ("queued", boolean false) ∷ ("error", text message) ∷ []

  -- What a call of the builder gives, as a dict in every case.
  unfoldable pub queue_result : Result Exception (Value Real) → Dict String (Value Real)
  unfolding not_queued as_dict
  queue_result (err e) = not_queued e.message
  queue_result (ok response) = elim (as_dict (some response)) [
    | none ↦ not_queued "invalid_queue_response"
    | some d ↦ d
  ]

  -- `error`: the response's, or that of its plugin
  unfoldable pub queue_error : Dict String (Value Real) → Option (Value Real)
  unfolding is_none as_dict lookup
  queue_error result =
      if is_none (lookup "error" result)
      then elim (as_dict (lookup "plugin" result)) [
        | none ↦ none
        | some plugin ↦ lookup "error" plugin
      ]
      else lookup "error" result

  unfoldable pub is_full : Dict String (Value Real) → Bool
  unfolding queue_error is_text
  is_full result = is_text "queue_full" (queue_error result)

  unfoldable pub deferral : Dict String (Value Real)
  deferral =
      ("queued", boolean false) ∷ ("deferred", boolean true) ∷ ("error", text "queue_full") ∷ []

  -- The item of an approval that the builder was asked for.
  unfoldable pub queue_item :
      Dict String (Value Real) → Dict String (Value Real) → Dict String (Value Real)
  unfolding is_full deferral merge
  queue_item approval result =
      merge approval (if is_full result then merge result deferral else result)

  unfoldable pub is_queued : Dict String (Value Real) → Bool
  unfolding is_true lookup
  is_queued item = is_true (lookup "queued" item)

  unfoldable pub is_deferred : Dict String (Value Real) → Bool
  unfolding is_true lookup
  is_deferred item = is_true (lookup "deferred" item)

module _ (R : Runtime) {S : Type 0}
    (queue_builder : QueueApproval → Exec Exception S (Value R.Real)) where
  open R use {Real, hexdigest}

  -- The loop, with `queue_saturated`.
  unfoldable pub queue_items : Bool → List QueueApproval → S → List (Dict String (Value Real)) × S
  unfolding queue_result queue_item is_full merge deferral queue_approval_fields
  queue_items saturated [] s = ([], s)
  queue_items true (a ∷ approvals) s =
      let (rest, u) = queue_items true approvals s in
      (merge (queue_approval_fields R a) deferral ∷ rest, u)
  queue_items false (a ∷ approvals) s =
      let (r, t) = queue_builder a s in
      let (rest, u) = queue_items (is_full (queue_result r)) approvals t in
      (queue_item (queue_approval_fields R a) (queue_result r) ∷ rest, u)

  unfoldable pub queue_report :
      List QueueApproval → List (Dict String (Value Real)) → QueueReport Real
  unfolding count_where is_queued is_deferred queue_approval_fields prefixed difference
  queue_report normalized items =
      let done = count_where is_queued items in
      let later = count_where is_deferred items in
      record {
        queue_batch_id =
            prefixed (hexdigest (list (map (λ a. dict (queue_approval_fields R a)) normalized)));
        complete = done == length items;
        requested = length items;
        queued = done;
        deferred = later;
        failed = difference (length items) (done + later);
        items = items;
      }

  unfoldable pub queue_approved : List QueueApproval → Exec Exception S (QueueReport Real)
  unfolding queue_items queue_report
  queue_approved normalized s =
      let (items, t) = queue_items false normalized s in (ok (queue_report normalized items), t)

  unfoldable pub queue_approved_batch : Value Real → Exec Exception S (QueueReport Real)
  unfolding validate_queue_approvals queue_approved
  queue_approved_batch approvals = lift (validate_queue_approvals R approvals) >>= queue_approved
