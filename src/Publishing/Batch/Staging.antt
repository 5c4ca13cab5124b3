-- ===== src/Publishing/Batch/Staging.antt =====
-- `stage_approved_batch` of src/cadplot_mcp/batch.py: each approval is planned again and staged if
-- the plan is still the approved one.
pub mod Keeps
use cadplot_mcp.Prelude.{
  ℕ, ◌-◌, ◌||◌, Bool, true, false, not, List, [], ◌∷◌, map, String, ◌==◌, str_eq, if◌then◌else◌,
  length,
}
use cadplot_mcp.Prelude.Dicts.{Dict, lookup}
use cadplot_mcp.Prelude.Classes.{string_eq}
use cadplot_mcp.Prelude.Results.{Result, ok, err, Exec, pure, lift, ◌>>=◌}
use cadplot_mcp.Publishing.Value.{Value, list, is_true, is_text, get, prefixed}
use cadplot_mcp.Publishing.Runtime.{Runtime, Exception}
use cadplot_mcp.Publishing.Batch.Page.{count_where}
use cadplot_mcp.Publishing.Batch.Approvals.{Approval, validate_approvals, approval_value}

-- What an approval came to, with its path and its approved plan.
pub data StageItem (Real : Type 0) : Type 0 where
  blocked : String → String → Dict String (Value Real) → StageItem Real
  approval_mismatch : String → String → Value Real → StageItem Real
  error : String → String → String → StageItem Real
  staged : String → String → Dict String (Value Real) → StageItem Real

unfoldable pub is_staged : {Real : Type 0} → StageItem Real → Bool
is_staged (staged path plan_id job) = true
is_staged other = false

unfoldable pub is_blocked : {Real : Type 0} → StageItem Real → Bool
is_blocked (blocked path plan_id plan) = true
is_blocked (approval_mismatch path plan_id current) = true
is_blocked other = false

pub record StageReport (Real : Type 0) : Type 0 where
  pub approval_batch_id : String
  pub complete : Bool
  pub requested : ℕ
  pub staged_count : ℕ
  pub blocked_count : ℕ
  pub errors : ℕ
  pub items : List (StageItem Real)

module _ (R : Runtime) {S : Type 0}
    (plan_builder : String → Exec Exception S (Dict String (Value R.Real)))
    (stage_builder : Dict String (Value R.Real)
      → String
      → Exec Exception S (Dict String (Value R.Real))) where
  open R use {Real, hexdigest}

  -- What follows once the drawing is planned again.
  unfoldable pub stage_plan :
      Approval → Dict String (Value Real) → Exec Exception S (StageItem Real)
  unfolding is_true is_text get lookup
  stage_plan a plan =
      if not (is_true (lookup "ready" plan))
      then pure (blocked a.path a.plan_id plan)
      else if not (is_text a.plan_id (lookup "plan_id" plan))
      then pure (approval_mismatch a.path a.plan_id (get "plan_id" plan))
      else stage_builder plan a.plan_id >>= λ job. pure (staged a.path a.plan_id job)

  -- The body of the loop: an exception becomes the approval's item.
  unfoldable pub stage_item : Approval → S → StageItem Real × S
  unfolding stage_plan
  stage_item a s =
      let (r, t) = (plan_builder a.path >>= stage_plan a) s in
      (elim r [ ok item ↦ item | err e ↦ error a.path a.plan_id e.message ], t)

  unfoldable pub stage_items : List Approval → S → List (StageItem Real) × S
  unfolding stage_item
  stage_items [] s = ([], s)
  stage_items (a ∷ approvals) s =
      let (item, t) = stage_item a s in let (rest, u) = stage_items approvals t in (item ∷ rest, u)

  unfoldable pub stage_report : List Approval → List (StageItem Real) → StageReport Real
  unfolding count_where is_staged is_blocked approval_value prefixed
  stage_report normalized items =
      let done = count_where is_staged items in
      let held = count_where is_blocked items in
      record {
        approval_batch_id = prefixed (hexdigest (list (map (approval_value R) normalized)));
        complete = done == length items;
        requested = length items;
        staged_count = done;
        blocked_count = held;
        errors = length items - done - held;
        items = items;
      }

  unfoldable pub stage_approved : List Approval → Exec Exception S (StageReport Real)
  unfolding stage_items stage_report
  stage_approved normalized s =
      let (items, t) = stage_items normalized s in (ok (stage_report normalized items), t)

  unfoldable pub stage_approved_batch : Value Real → Exec Exception S (StageReport Real)
  unfolding validate_approvals stage_approved
  stage_approved_batch approvals = lift (validate_approvals R approvals) >>= stage_approved
