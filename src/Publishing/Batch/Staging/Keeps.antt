-- ===== src/Publishing/Batch/Staging/Keeps.antt =====
-- What `stage_approved_batch` of src/cadplot_mcp/batch.py calls its stage builder for.
use mathlib.Core.List.{append_assoc}
use cadplot_mcp.Prelude.{
  ◌≡◌, sym, ap, ◌∙◌, inl, inr, true, Option, some, List, [], ◌∷◌, ◌++◌, String, Bool-cases, eq_iff,
  none,
}
use cadplot_mcp.Prelude.Classes.{string_eq}
use cadplot_mcp.Prelude.Dicts.{Dict, lookup}
use cadplot_mcp.Prelude.Results.{ok, Exec, lift, pure, bind-Keeps}
use cadplot_mcp.Publishing.Value.{
  Value, null, boolean, int, float, array, object, text, is_true, is_text,
}
use cadplot_mcp.Publishing.Runtime.{Runtime, Exception}
use cadplot_mcp.Publishing.Batch.Approvals.{Approval, validate_approvals}
use cadplot_mcp.Publishing.Batch.Staging.{
  staged, stage_plan, stage_item, stage_items, stage_approved, stage_approved_batch,
}

is_text-eq :
    {Real : Type 0} (s : String) (v : Option (Value Real)) → is_text s v ≡ true → v ≡ some (text s)
unfolding is_text
is_text-eq s (some (text t)) h = ap (λ x. some (text x)) ((eq_iff t s).0 h)
is_text-eq s none h = absurd cc
is_text-eq s (some null) h = absurd cc
is_text-eq s (some (boolean b)) h = absurd cc
is_text-eq s (some (int n)) h = absurd cc
is_text-eq s (some (float x)) h = absurd cc
is_text-eq s (some (array vs)) h = absurd cc
is_text-eq s (some (object fs)) h = absurd cc

module _ (R : Runtime) {S : Type 0}
    (plan_builder : String → Exec Exception S (Dict String (Value R.Real)))
    (stage_builder : Dict String (Value R.Real)
      → String
      → Exec Exception S (Dict String (Value R.Real)))
    (P : S → Type 0) where
  open R use {Real}

  -- The batch was validated, and this is one of its approvals.
  abbrev pub IsApproved : Value Real → Approval → Type 0
  IsApproved approvals a =
      (before : List Approval) × (after : List Approval) × (validate_approvals R approvals
        ≡ ok (before ++ a ∷ after))

  -- What the property asks of the stage builder at one call.
  abbrev pub StageKeeps : Value Real → Type 0
  StageKeeps approvals =
      (a : Approval) (plan : Dict String (Value Real)) (u s : S)
      → IsApproved approvals a
      → plan_builder a.path u ≡ (ok plan, s)
      → is_true (lookup "ready" plan) ≡ true
      → lookup "plan_id" plan ≡ some (text a.plan_id)
      → P s
      → P (stage_builder plan a.plan_id s).1

  stage_plan-Keeps :
      (a : Approval) (plan : Dict String (Value Real)) (s : S)
      → (is_true (lookup "ready" plan) ≡ true
          → lookup "plan_id" plan ≡ some (text a.plan_id)
          → P (stage_builder plan a.plan_id s).1)
      → P s
      → P (stage_plan R plan_builder stage_builder a plan s).1
  unfolding stage_plan
  stage_plan-Keeps a plan s call p = elim (Bool-cases (is_true (lookup "ready" plan))) [
    | inr blocked ↦ rw blocked p
    | inl ready ↦ elim (Bool-cases (is_text a.plan_id (lookup "plan_id" plan))) [
      | inr other ↦ rw (ready, other) p
      | inl same ↦
          rw (ready, same)
            (bind-Keeps P (stage_builder plan a.plan_id) (λ job. pure (staged a.path a.plan_id job))
              s (call ready (is_text-eq _ _ same)) (λ job u e x. x))
    ]
  ]

  module _ (approvals : Value Real)
      (plan_keeps : (path : String) (s : S) → P s → P (plan_builder path s).1)
      (stage_keeps : StageKeeps approvals) where
    stage_item-Keeps :
        (a : Approval) (s : S)
        → IsApproved approvals a
        → P s
        → P (stage_item R plan_builder stage_builder a s).1
    unfolding stage_item
    stage_item-Keeps a s approved p =
        bind-Keeps P (plan_builder a.path) (stage_plan R plan_builder stage_builder a) s
          (plan_keeps a.path s p)
          (λ plan t e q.
            stage_plan-Keeps a plan t (λ ready same. stage_keeps a plan s t approved e ready same q)
              q)

    stage_items-Keeps :
        (before rest : List Approval) (s : S)
        → validate_approvals R approvals ≡ ok (before ++ rest)
        → P s
        → P (stage_items R plan_builder stage_builder rest s).1
    unfolding stage_items
    stage_items-Keeps before [] s valid p = p
    stage_items-Keeps before (a ∷ rest) s valid p =
        stage_items-Keeps (before ++ a ∷ []) rest (stage_item R plan_builder stage_builder a s).1
          (valid ∙ ap ok (sym (append_assoc before (a ∷ []) rest)))
          (stage_item-Keeps a s (before, rest, valid) p)

  -- A batch is staged only from fresh, ready and approved plans: what planning keeps, and what a
  -- call of the stage builder keeps that is made for an approval of the validated batch, in the
  -- state and with the plan that planning its path has just given, where that plan is ready and has
  -- the approved identifier, the whole batch keeps, whether it returns or raises.
  pub stage_approved_batch-Keeps :
      (approvals : Value Real) (s : S)
      → ((path : String) (u : S) → P u → P (plan_builder path u).1)
      → StageKeeps approvals
      → P s
      → P (stage_approved_batch R plan_builder stage_builder approvals s).1
  unfolding stage_approved_batch stage_approved
  stage_approved_batch-Keeps approvals s plan_keeps stage_keeps p =
      bind-Keeps P (lift (validate_approvals R approvals))
        (stage_approved R plan_builder stage_builder) s p
        (λ normalized u e q.
          stage_items-Keeps approvals plan_keeps stage_keeps [] normalized u (cc) q)
