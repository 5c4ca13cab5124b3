-- ===== src/Publishing/Rehearsal/Windows.antt =====
-- One window of the queue in src/cadplot_mcp/batch_demo.py: what it takes and what comes back.
use mathlib.Core.List.{append_assoc, append-nil}
use cadplot_mcp.Prelude.{
  ℕ, zero, suc, ◌+◌, ◌≡◌, refl, sym, ap, ◌∙◌, Bool, true, false, List, [], ◌∷◌, ◌++◌, map, String,
  take, drop, leb, arith,
}
use cadplot_mcp.Prelude.Classes.{string_eq}
use cadplot_mcp.Prelude.Dicts.{Dict}
use cadplot_mcp.Prelude.Results.{ok}
use cadplot_mcp.Publishing.Value.{Value, merge, entries, fields}
use cadplot_mcp.Publishing.Runtime.{Runtime}
use cadplot_mcp.Publishing.Batch.Approvals.{QueueApproval, queue_approval_fields}
use cadplot_mcp.Publishing.Batch.Approvals.Valid.{row}
use cadplot_mcp.Publishing.Batch.Queue.{
  deferral, is_full, queue_result, queue_item, is_deferred, queue_items,
}
use cadplot_mcp.Publishing.Rehearsal.Queueing.{
  Window, full_response, accepted_response, queue_with_backpressure, resubmission, resubmissions,
}

module _ (R : Runtime) (c : ℕ) where
  open R use {Real}

  abbrev pub round : Bool → List QueueApproval → Window → List (Dict String (Value Real)) × Window
  round = queue_items R (queue_with_backpressure R c)

  deferred_item :
      (a : QueueApproval) → is_deferred (merge (queue_approval_fields R a) deferral) ≡ true
  unfolding is_deferred merge queue_approval_fields deferral
  deferred_item a = refl

  resubmitted :
      (a : QueueApproval)
      → resubmission R c (merge (queue_approval_fields R a) deferral) ≡ ok (row R a)
  unfolding resubmission merge queue_approval_fields deferral
  resubmitted a = refl

  -- What the queue answers.
  full-is_full : is_full (queue_result (ok (full_response R c))) ≡ true
  unfolding is_full queue_result full_response fields entries
  full-is_full = refl

  accepted-is_full :
      (a : QueueApproval) (n : ℕ) → is_full (queue_result (ok (accepted_response R c a n))) ≡ false
  unfolding is_full queue_result accepted_response fields entries
  accepted-is_full a n = refl

  full-deferred :
      (a : QueueApproval)
      → is_deferred (queue_item (queue_approval_fields R a) (queue_result (ok (full_response R c))))
        ≡ true
  unfolding queue_item is_deferred queue_result full_response fields entries merge
      queue_approval_fields deferral
  full-deferred a = refl

  full-resubmitted :
      (a : QueueApproval)
      → resubmission R c
          (queue_item (queue_approval_fields R a) (queue_result (ok (full_response R c))))
        ≡ ok (row R a)
  unfolding resubmission queue_item is_deferred queue_result full_response fields entries merge
      queue_approval_fields deferral
  full-resubmitted a = refl

  accepted-deferred :
      (a : QueueApproval) (n : ℕ)
      → is_deferred
          (queue_item (queue_approval_fields R a) (queue_result (ok (accepted_response R c a n))))
        ≡ false
  unfolding queue_item is_deferred queue_result accepted_response fields entries merge
      queue_approval_fields deferral
  accepted-deferred a n = refl

  -- Once the queue is full, all that remains comes back.
  round-saturated :
      (todo : List QueueApproval) (w : Window)
      → (resubmissions R c (round true todo w).0 ≡ ok (map (row R) todo))
        × ((round true todo w).1 ≡ w)
  unfolding resubmissions queue_items
  round-saturated [] w = (refl, refl)
  round-saturated (a ∷ todo) w =
      ground (arith, deferred_item a, resubmitted a, round-saturated todo w)

  -- What a window with `n` places left does to the approvals that wait.
  abbrev pub Fills : ℕ → List QueueApproval → Window → Type 0
  Fills n todo w =
      (resubmissions R c (round false todo w).0 ≡ ok (map (row R) (drop n todo)))
      × ((round false todo w).1.accepted_plan_ids
          ≡ w.accepted_plan_ids ++ map (λ (a : QueueApproval). a.plan_id) (take n todo))

  abbrev refused_window : Window → Window
  refused_window w = record w { queue_pipe_attempts = w.queue_pipe_attempts + 1 }

  abbrev accepted_window : QueueApproval → Window → Window
  accepted_window a w = record {
    accepted_in_window = w.accepted_in_window + 1;
    queue_pipe_attempts = w.queue_pipe_attempts + 1;
    accepted_plan_ids = w.accepted_plan_ids ++ a.plan_id ∷ [];
  }

  round-full :
      (a : QueueApproval) (todo : List QueueApproval) (w : Window)
      → leb c w.accepted_in_window ≡ true
      → round false (a ∷ todo) w ≡ (
        queue_item (queue_approval_fields R a) (queue_result (ok (full_response R c)))
            ∷ (round true todo (refused_window w)).0,
        (round true todo (refused_window w)).1,
      )
  unfolding queue_items queue_with_backpressure
  round-full a todo w h = ground (arith, full-is_full)

  round-accepted :
      (a : QueueApproval) (todo : List QueueApproval) (w : Window)
      → leb c w.accepted_in_window ≡ false
      → round false (a ∷ todo) w ≡ (
        queue_item
              (queue_approval_fields R a)
              (queue_result (ok (accepted_response R c a (w.accepted_in_window + 1))))
            ∷ (round false todo (accepted_window a w)).0,
        (round false todo (accepted_window a w)).1,
      )
  unfolding queue_items queue_with_backpressure
  round-accepted a todo w h = ground (arith, accepted-is_full a (w.accepted_in_window + 1))

  resubmissions-cons :
      (item : Dict String (Value Real)) (items : List (Dict String (Value Real)))
      (a : QueueApproval) (todo : List QueueApproval)
      → is_deferred item ≡ true
      → resubmission R c item ≡ ok (row R a)
      → resubmissions R c items ≡ ok (map (row R) todo)
      → resubmissions R c (item ∷ items) ≡ ok (row R a ∷ map (row R) todo)
  unfolding resubmissions
  resubmissions-cons item items a todo late sent rest = ground arith

  resubmissions-skip :
      (item : Dict String (Value Real)) (items : List (Dict String (Value Real)))
      → is_deferred item ≡ false
      → resubmissions R c (item ∷ items) ≡ resubmissions R c items
  unfolding resubmissions
  resubmissions-skip item items early = ground arith

  pub round-Fills :
      (todo : List QueueApproval) (w : Window) (n : ℕ)
      → n + w.accepted_in_window ≡ c
      → Fills n todo w
  unfolding resubmissions queue_items
  round-Fills [] w zero room = (refl, sym (append-nil _))
  round-Fills [] w (suc n) room = (refl, sym (append-nil _))
  round-Fills (a ∷ todo) w zero room =
      let step = round-full a todo w (ground arith) in
      let rest = round-saturated todo (refused_window w) in
      (
        ap (λ p. resubmissions R c p.0) step
            ∙ resubmissions-cons
                (queue_item (queue_approval_fields R a) (queue_result (ok (full_response R c))))
                (round true todo (refused_window w)).0 a todo (full-deferred a) (full-resubmitted a)
                rest.0,
        ap (λ p. p.1.accepted_plan_ids) step
            ∙ ap (λ (v : Window). v.accepted_plan_ids) rest.1
            ∙ sym (append-nil _),
      )
  round-Fills (a ∷ todo) w (suc n) room =
      let step = round-accepted a todo w (ground arith) in
      let rest = round-Fills todo (accepted_window a w) n (omega arith) in
      (
        ap (λ p. resubmissions R c p.0) step
            ∙ resubmissions-skip
                (queue_item (queue_approval_fields R a)
                  (queue_result (ok (accepted_response R c a (w.accepted_in_window + 1)))))
                (round false todo (accepted_window a w)).0
                (accepted-deferred a (w.accepted_in_window + 1))
            ∙ rest.0,
        ap (λ p. p.1.accepted_plan_ids) step
            ∙ rest.1
            ∙ append_assoc w.accepted_plan_ids (a.plan_id ∷ []) _,
      )
