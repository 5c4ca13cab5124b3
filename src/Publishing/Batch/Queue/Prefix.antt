-- ===== src/Publishing/Batch/Queue/Prefix.antt =====
-- Which approvals `queue_approved_batch` of src/cadplot_mcp/batch.py asks the queue for.
use cadplot_mcp.Prelude.{
  suc, ◌≡◌, ◌⊎◌, inl, inr, refl, ap, ◌∙◌, Bool, true, false, List, [], ◌∷◌, ◌++◌, map, String,
  length, Bool-cases,
}
use cadplot_mcp.Prelude.Dicts.{Dict}
use cadplot_mcp.Prelude.Results.{ok, Exec, lift, bind-step}
use cadplot_mcp.Publishing.Value.{Value, merge}
use cadplot_mcp.Publishing.Runtime.{Runtime, Exception}
use cadplot_mcp.Publishing.Batch.Approvals.{
  QueueApproval, validate_queue_approvals, queue_approval_fields,
}
use cadplot_mcp.Publishing.Batch.Queue.{
  QueueReport, queue_result, is_full, queue_item, deferral, queue_items, queue_report,
  queue_approved, queue_approved_batch,
}

module _ (R : Runtime) {S : Type 0}
    (queue_builder : QueueApproval → Exec Exception S (Value R.Real)) where
  open R use {Real}

  -- Asking the queue for each approval, whatever it answers.
  abbrev pub ask_all : List QueueApproval → S → List (Dict String (Value Real)) × S
  ask_all [] s = ([], s)
  ask_all (a ∷ todo) s =
      let (r, t) = queue_builder a s in let (rest, u) = ask_all todo t in (queue_result r ∷ rest, u)

  -- The items of approvals with their answers.
  abbrev pub answered :
      List QueueApproval → List (Dict String (Value Real)) → List (Dict String (Value Real))
  answered [] results = []
  answered (a ∷ todo) [] = []
  answered (a ∷ todo) (r ∷ results) =
      queue_item (queue_approval_fields R a) r ∷ answered todo results

  abbrev pub put_off : List QueueApproval → List (Dict String (Value Real))
  put_off todo = map (λ a. merge (queue_approval_fields R a) deferral) todo

  -- Either nothing is left and no answer but the last can be that the queue is full, or the last one
  -- is the first such answer.
  abbrev pub Stops : List QueueApproval → List (Dict String (Value Real)) → Type 0
  Stops later [] = later ≡ []
  Stops later (r ∷ []) = (is_full r ≡ true) ⊎ (later ≡ [])
  Stops later (r ∷ q ∷ results) = (is_full r ≡ false) × Stops later (q ∷ results)

  -- The loop over `todo` asks for the first part and puts the second off.
  abbrev pub Splits : List QueueApproval → S → List (Dict String (Value Real)) → S → Type 0
  Splits todo s items t =
      (asked : List QueueApproval) × (later : List QueueApproval) × (asked ++ later ≡ todo)
      × (items ≡ answered asked (ask_all asked s).0 ++ put_off later)
      × (t ≡ (ask_all asked s).1)
      × Stops later (ask_all asked s).0

  saturated-put_off :
      (todo : List QueueApproval) (s : S)
      → (queue_items R queue_builder true todo s).0 ≡ put_off todo
  unfolding queue_items
  saturated-put_off [] s = refl
  saturated-put_off (a ∷ todo) s =
      ap (λ r. merge (queue_approval_fields R a) deferral ∷ r) (saturated-put_off todo s)

  saturated-state :
      (todo : List QueueApproval) (s : S) → (queue_items R queue_builder true todo s).1 ≡ s
  unfolding queue_items
  saturated-state [] s = refl
  saturated-state (a ∷ todo) s = saturated-state todo s

  length-queue_items :
      (saturated : Bool) (todo : List QueueApproval) (s : S)
      → length (queue_items R queue_builder saturated todo s).0 ≡ length todo
  unfolding queue_items
  length-queue_items saturated [] s = refl
  length-queue_items true (a ∷ todo) s = ap suc (length-queue_items true todo s)
  length-queue_items false (a ∷ todo) s =
      ap suc (
        length-queue_items (is_full (queue_result (queue_builder a s).0)) todo
          (queue_builder a s).1)

  Stops-cons :
      (later : List QueueApproval) (r : Dict String (Value Real))
      (results : List (Dict String (Value Real)))
      → is_full r ≡ false
      → Stops later results
      → Stops later (r ∷ results)
  Stops-cons later r [] more stops = inr stops
  Stops-cons later r (q ∷ results) more stops = (more, stops)

  queue_items-Splits :
      (todo : List QueueApproval) (s : S)
      → Splits todo s
          (queue_items R queue_builder false todo s).0
          (queue_items R queue_builder false todo s).1
  unfolding queue_items
  queue_items-Splits [] s = ([], [], refl, refl, refl, refl)
  queue_items-Splits (a ∷ todo) s =
      let result = queue_result (queue_builder a s).0 in
      let t = (queue_builder a s).1 in
      let head = queue_item (queue_approval_fields R a) result in
      elim (Bool-cases (is_full result)) [
        | inl full ↦ (
          a ∷ [],
          todo,
          refl,
          ap (λ b. head ∷ (queue_items R queue_builder b todo t).0) full
              ∙ ap (λ r. head ∷ r) (saturated-put_off todo t),
          ap (λ b. (queue_items R queue_builder b todo t).1) full ∙ saturated-state todo t,
          inl full,
        )
        | inr more ↦
            let (asked, later, parts, items, state, stops) = queue_items-Splits todo t in
            (
              a ∷ asked,
              later,
              ap (λ r. a ∷ r) parts,
              ap (λ b. head ∷ (queue_items R queue_builder b todo t).0) more
                  ∙ ap (λ r. head ∷ r) items,
              ap (λ b. (queue_items R queue_builder b todo t).1) more ∙ state,
              Stops-cons later result (ask_all asked t).0 more stops,
            )
      ]

  -- A validated batch is queued in order: the queue is asked for a first part of the approvals and
  -- for no other, every answer but the last of them is not that the queue is full, the items are
  -- these approvals with their answers and then the others, each deferred, and the state is the one
  -- after the asked calls. Unless the last answer was that the queue is full, nothing is deferred.
  pub queue_approved_batch-Splits :
      (approvals : Value Real) (normalized : List QueueApproval) (s : S)
      → validate_queue_approvals R approvals ≡ ok normalized
      → (report : QueueReport Real) × (t : S) × (queue_approved_batch R queue_builder approvals s
          ≡ (ok report, t))
        × (report.requested ≡ length normalized)
        × Splits normalized s report.items t
  unfolding queue_approved_batch queue_approved queue_report
  queue_approved_batch-Splits approvals normalized s valid = (
    queue_report R queue_builder normalized (queue_items R queue_builder false normalized s).0,
    (queue_items R queue_builder false normalized s).1,
    bind-step (lift (validate_queue_approvals R approvals)) (queue_approved R queue_builder) s
        normalized s (cc),
    length-queue_items false normalized s,
    queue_items-Splits normalized s,
  )
