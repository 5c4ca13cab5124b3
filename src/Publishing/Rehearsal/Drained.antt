-- ===== src/Publishing/Rehearsal/Drained.antt =====
-- Resubmitting what a saturated queue deferred, in src/cadplot_mcp/batch_demo.py.
use mathlib.Core.List.{append_assoc, append-nil, map-append}
use cadplot_mcp.Prelude.{
  ℕ, zero, suc, ◌≡◌, ◌≤◌, refl, sym, ap, ◌∙◌, false, Option, some, List, [], ◌∷◌, ◌++◌, map, String,
  length, take, drop, take-append-drop, length-drop, arith,
}
use cadplot_mcp.Prelude.Classes.{string_eq}
use cadplot_mcp.Prelude.Results.{ok, Exec, lift, bind-step}
use cadplot_mcp.Publishing.Value.{Value, list}
use cadplot_mcp.Publishing.Runtime.{Runtime, Exception}
use cadplot_mcp.Publishing.Batch.Approvals.{QueueApproval, validate_queue_approvals}
use cadplot_mcp.Publishing.Batch.Approvals.Valid.{IsBatch, IsBatch-drop, row, validate-IsBatch}
use cadplot_mcp.Publishing.Batch.Queue.{
  QueueReport, queue_report, queue_approved, queue_approved_batch,
}
use cadplot_mcp.Publishing.Rehearsal.Queueing.{
  Window, queue_with_backpressure, resubmissions, after_queue, open_window, queue_pending,
}
use cadplot_mcp.Publishing.Rehearsal.Windows.{round, round-Fills}

module _ (R : Runtime) (c : ℕ) where
  open R use {Real}

  abbrev plan_ids : List QueueApproval → List String
  plan_ids todo = map (λ (a : QueueApproval). a.plan_id) todo

  approved-report :
      (todo : List QueueApproval) (w : Window)
      → validate_queue_approvals R (list (map (row R) todo)) ≡ ok todo
      → queue_approved_batch R (queue_with_backpressure R c) (list (map (row R) todo)) w ≡ (
        ok (queue_report R (queue_with_backpressure R c) todo (round R c false todo w).0),
        (round R c false todo w).1,
      )
  unfolding queue_approved_batch queue_approved
  approved-report todo w valid =
      bind-step (lift (validate_queue_approvals R (list (map (row R) todo))))
        (queue_approved R (queue_with_backpressure R c)) w todo w (cc)

  window-opened : (w : Window) → (open_window R c w).accepted_in_window ≡ 0
  unfolding open_window
  window-opened w = refl

  window-ids : (w : Window) → (open_window R c w).accepted_plan_ids ≡ w.accepted_plan_ids
  unfolding open_window
  window-ids w = refl

  after_queue-report :
      (continue : List (Value Real)
        → List (QueueReport Real)
        → Exec Exception Window (Option (List (QueueReport Real))))
      (batches : List (QueueReport Real)) (todo : List QueueApproval) (w : Window)
      → w.accepted_in_window ≡ 0
      → (let report =
            queue_report R (queue_with_backpressure R c) todo (round R c false todo w).0 in
          after_queue R c continue batches report (round R c false todo w).1
          ≡ continue
              (map (row R) (drop c todo))
              (batches ++ report ∷ [])
              (round R c false todo w).1)
  unfolding after_queue queue_report
  after_queue-report continue batches todo w fresh =
      let filled = round-Fills R c todo w c (omega arith) in
      let report = queue_report R (queue_with_backpressure R c) todo (round R c false todo w).0 in
      bind-step (lift (resubmissions R c (round R c false todo w).0))
        (λ pending. continue pending (batches ++ report ∷ [])) (round R c false todo w).1
        (map (row R) (drop c todo)) (round R c false todo w).1 (cc)

  -- One pass of the loop over approvals that make a valid batch.
  queue_pending-step :
      (fuel : ℕ) (a : QueueApproval) (todo : List QueueApproval) (batches : List (QueueReport Real))
      (w : Window)
      → IsBatch R (a ∷ todo)
      → (report : QueueReport Real) × (queue_pending R c
            (suc fuel)
            (map (row R) (a ∷ todo))
            batches
            w
          ≡ queue_pending R c fuel
              (map (row R) (drop c (a ∷ todo)))
              (batches ++ report ∷ [])
              (round R c false (a ∷ todo) (open_window R c w)).1)
  unfolding queue_pending
  queue_pending-step fuel a todo batches w valid =
      let opened = open_window R c w in
      let t = (round R c false (a ∷ todo) opened).1 in
      let report =
        queue_report R (queue_with_backpressure R c) (a ∷ todo)
          (round R c false (a ∷ todo) opened).0 in
      (
        report,
        bind-step
              (queue_approved_batch R (queue_with_backpressure R c) (list (map (row R) (a ∷ todo))))
              (after_queue R c (queue_pending R c fuel) batches) opened report t
              (approved-report (a ∷ todo) opened (validate-IsBatch R a todo valid))
            ∙ after_queue-report (queue_pending R c fuel) batches (a ∷ todo) opened
                (window-opened w),
      )

  -- The window's part and the rest are the batch.
  window-drained :
      (todo : List QueueApproval) (w : Window)
      → w.accepted_in_window ≡ 0
      → (round R c false todo w).1.accepted_plan_ids ++ plan_ids (drop c todo)
        ≡ w.accepted_plan_ids ++ plan_ids todo
  window-drained todo w fresh =
      let filled = round-Fills R c todo w c (omega arith) in
      ap (λ r. r ++ plan_ids (drop c todo)) filled.1
      ∙ append_assoc w.accepted_plan_ids (plan_ids (take c todo)) (plan_ids (drop c todo))
      ∙ ap (λ r. w.accepted_plan_ids ++ r)
          (sym (map-append (λ (a : QueueApproval). a.plan_id) (take c todo) (drop c todo))
            ∙ ap plan_ids (take-append-drop c todo))

  -- While approvals wait, each window takes as many as it has places, so with a capacity of at least
  -- one the loop ends on a valid batch: fuel for one pass for each approval is enough. The queue has
  -- then accepted every approval exactly once and in the order of the batch.
  pub queue_pending-drains :
      (fuel : ℕ) (todo : List QueueApproval) (batches : List (QueueReport Real)) (w : Window)
      → 1 ≤ c
      → IsBatch R todo
      → length todo ≤ fuel
      → (reports : List (QueueReport Real)) × (t : Window) × (queue_pending R c fuel
            (map (row R) todo)
            batches
            w
          ≡ (ok (some (batches ++ reports)), t))
        × (t.accepted_plan_ids ≡ w.accepted_plan_ids ++ map (λ (a : QueueApproval). a.plan_id) todo)
  unfolding queue_pending open_window
  queue_pending-drains zero [] batches w room valid enough =
      ([], w, ap (λ r. (ok (some r), w)) (sym (append-nil _)), sym (append-nil _))
  queue_pending-drains (suc fuel) [] batches w room valid enough =
      ([], w, ap (λ r. (ok (some r), w)) (sym (append-nil _)), sym (append-nil _))
  queue_pending-drains zero (a ∷ todo) batches w room valid enough = absurd (omega arith)
  queue_pending-drains (suc fuel) (a ∷ todo) batches w room valid enough =
      let (report, step) = queue_pending-step fuel a todo batches w valid in
      let u = (round R c false (a ∷ todo) (open_window R c w)).1 in
      let (reports, t, rest, ids) =
        queue_pending-drains fuel (drop c (a ∷ todo)) (batches ++ report ∷ []) u room
          (IsBatch-drop R c (a ∷ todo) valid) (omega (arith, length-drop c (a ∷ todo))) in
      (
        report ∷ reports,
        t,
        step ∙ rest ∙ simp (append_assoc),
        ids ∙ window-drained (a ∷ todo) (open_window R c w) (window-opened w),
      )
