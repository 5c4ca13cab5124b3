-- ===== src/Publishing/Batch/Report/Counts.antt =====
-- The counts of a status report of src/cadplot_mcp/batch.py: each item stands in one of them.
use cadplot_mcp.Prelude.{
  ℕ, ◌+◌, ◌≡◌, refl, Bool, true, ◌&&◌, not, Option, none, some, List, [], ◌∷◌, String, is_some,
  if◌then◌else◌, All, length, arith, is_some,
}
use cadplot_mcp.Prelude.Classes.{string_eq}
use cadplot_mcp.Publishing.Batch.Page.{count_where}
use cadplot_mcp.Publishing.Batch.Status.{
  JobState, cancelled_job, failed_job, pending_job, running_job, succeeded_job, state_name,
  StatusItem,
}
use cadplot_mcp.Publishing.Batch.Report.{in_state, is_not_found, is_error}

-- A job's item has its state or an error, and never both.
abbrev pub is_normal : StatusItem → Bool
is_normal item =
    if is_some item.job_state
    then item.found && not (is_some item.error)
    else not item.found && is_some item.error

abbrev bit : Bool → ℕ
bit b = if b then 1 else 0

-- In how many of the seven counts an item stands.
places : StatusItem → ℕ
unfolding in_state is_not_found is_error state_name
places i =
    bit (in_state cancelled_job i)
    + bit (in_state failed_job i)
    + bit (in_state pending_job i)
    + bit (in_state running_job i)
    + bit (in_state succeeded_job i)
    + bit (is_not_found i)
    + bit (is_error i)

module _ (f : Bool) (plan_id : String) (e : Option String) where
  abbrev with_state : Option JobState → Option String → StatusItem
  with_state s error = record {
    plan_id = plan_id;
    found = f;
    job_state = s;
    job_error = e;
    error = error;
  }

  places-with_state :
      (s : Option JobState) (error : Option String)
      → is_normal (with_state s error) ≡ true
      → places (with_state s error) ≡ 1
  unfolding places
  places-with_state none error n = ground arith
  places-with_state (some s) (some error) n = ground arith
  places-with_state (some cancelled_job) none n = refl
  places-with_state (some failed_job) none n = refl
  places-with_state (some pending_job) none n = refl
  places-with_state (some running_job) none n = refl
  places-with_state (some succeeded_job) none n = refl

places-normal : (i : StatusItem) → is_normal i ≡ true → places i ≡ 1
places-normal i n = places-with_state i.found i.plan_id i.job_error i.job_state i.error n

abbrev pub counted : List StatusItem → ℕ
counted items =
    count_where (in_state cancelled_job) items
    + count_where (in_state failed_job) items
    + count_where (in_state pending_job) items
    + count_where (in_state running_job) items
    + count_where (in_state succeeded_job) items
    + count_where is_not_found items
    + count_where is_error items

count-cons :
    (p : StatusItem → Bool) (i : StatusItem) (is : List StatusItem)
    → count_where p (i ∷ is) ≡ bit (p i) + count_where p is
unfolding count_where
count-cons p i is = ground arith

pub counted-length :
    (items : List StatusItem) → All (λ i. is_normal i ≡ true) items → counted items ≡ length items
unfolding count_where places
counted-length [] n = refl
counted-length (i ∷ is) n = omega (
  arith,
  counted-length is n.1,
  places-normal i n.0,
  count-cons (in_state cancelled_job) i is,
  count-cons (in_state failed_job) i is,
  count-cons (in_state pending_job) i is,
  count-cons (in_state running_job) i is,
  count-cons (in_state succeeded_job) i is,
  count-cons is_not_found i is,
  count-cons is_error i is,
)
