-- ===== src/Publishing/Batch/Status/Clean.antt =====
-- A status item of src/cadplot_mcp/batch.py: what `_normalize_live_status` leaves of the answer of a
-- worker.
use Prim.Native.Char.{Char}
use cadplot_mcp.Prelude.{
  subst, ◌≡◌, ◌⊎◌, ◌≢◌, inl, inr, refl, Bool, true, false, ◌&&◌, Option, none, some, String,
  Bool-cases, Option-cases, str_eq, if◌then◌else◌, eq_iff,
}
use cadplot_mcp.Prelude.Classes.{string_eq}
use cadplot_mcp.Prelude.Dicts.{Dict, lookup}
use cadplot_mcp.Prelude.Results.{ok, Result-cases}
use cadplot_mcp.Publishing.Value.{Value, is_true, is_none, is_text, as_dict, as_text, get}
use cadplot_mcp.Publishing.Runtime.{Runtime}
use cadplot_mcp.Publishing.Batch.Texts.{bounded_status_error, is_job_error, is_truthy, text_of}
use cadplot_mcp.Publishing.Batch.Status.{
  JobState, StatusItem, failed_job, refused_item, state_of, known_state, is_valid_job_error,
  job_item, live_item, status_error, normalize_response, normalize_live_status,
}
use cadplot_mcp.Publishing.Batch.Texts.Bounded.{
  all_chars, IsBounded, fixed_texts, bounded_text-IsBounded, invalid_response-IsBounded,
}

-- The error, if there is one, is bounded.
abbrev pub ErrorIsBounded : (Char → Bool) → Option String → Type 0
ErrorIsBounded p none = Unit
ErrorIsBounded p (some s) = IsBounded p s

-- The job's error, if there is one, has the code's pattern.
abbrev pub IsJobError : Option String → Type 0
IsJobError none = Unit
IsJobError (some s) = is_job_error s ≡ true

module _ (R : Runtime) (printable : all_chars R.is_printable fixed_texts ≡ true) where
  open R use {Real, is_printable, is_space}

  -- Without a state an error, with one no error.
  pub IsClean : StatusItem → Type 0
  IsClean item =
      ((item.job_state ≡ none)
        × (item.job_error ≡ none)
        × ErrorIsBounded is_printable item.error
        × (item.error ≢ none))
      ⊎ ((item.job_state ≢ none)
          × (item.error ≡ none)
          × IsJobError item.job_error
          × ((item.job_state ≡ some failed_job) ⊎ (item.job_error ≡ none)))

  refused_item-IsClean :
      (plan_id s : String) → IsBounded is_printable s → IsClean (refused_item R plan_id s)
  unfolding refused_item IsClean
  refused_item-IsClean plan_id s b = inl (refl, refl, b, λ e. cc)

  as_text-is_none : (o : Option (Value Real)) → is_none o ≡ true → as_text o ≡ none
  unfolding is_none as_text
  as_text-is_none none h = refl
  as_text-is_none (some Value.null) h = refl
  as_text-is_none (some (Value.boolean b)) h = refl
  as_text-is_none (some (Value.int n)) h = refl
  as_text-is_none (some (Value.float x)) h = refl
  as_text-is_none (some (Value.text t)) h = absurd cc
  as_text-is_none (some (Value.array vs)) h = refl
  as_text-is_none (some (Value.object fs)) h = refl

  failed-IsJobError :
      (o : Option String) → elim o [ none ↦ false | some t ↦ is_job_error t ] ≡ true → IsJobError o
  failed-IsJobError none h = tt
  failed-IsJobError (some t) h = h

  failed_state : (s : String) → str_eq s "Failed" ≡ true → state_of (some s) ≡ some failed_job
  unfolding state_of
  failed_state s h = rw ((eq_iff s "Failed").0 h) refl

  valid-IsJobError :
      (state : Value Real) (j : JobState) (job_error : Option (Value Real))
      → known_state R state ≡ ok (some j)
      → is_valid_job_error R state job_error ≡ true
      → IsJobError (as_text job_error) × ((some j ≡ some failed_job) ⊎ (as_text job_error ≡ none))
  unfolding known_state is_valid_job_error is_text
  valid-IsJobError (Value.text s) j job_error k h = elim (Bool-cases (str_eq s "Failed")) [
    | inl failed ↦
        (failed-IsJobError (as_text job_error) (rw failed at h), inl (cc (failed_state s failed)))
    | inr other ↦
        let nothing = as_text-is_none job_error (rw other at h) in (rw nothing tt, inr nothing)
  ]
  valid-IsJobError Value.null j job_error k h = absurd cc
  valid-IsJobError (Value.boolean b) j job_error k h = absurd cc
  valid-IsJobError (Value.int n) j job_error k h = absurd cc
  valid-IsJobError (Value.float x) j job_error k h = absurd cc
  valid-IsJobError (Value.array vs) j job_error k h = absurd cc
  valid-IsJobError (Value.object fs) j job_error k h = absurd cc

  abbrev built : String → Dict String (Value Real) → JobState → StatusItem
  built plan_id plugin state = record {
    plan_id = plan_id;
    found = true;
    job_state = some state;
    job_error = as_text (lookup "jobError" plugin);
    error = none;
  }

  job_item-IsClean :
      (plan_id : String) (plugin : Dict String (Value Real)) (state : JobState) (item : StatusItem)
      → known_state R (get "jobState" plugin) ≡ ok (some state)
      → job_item R plan_id plugin state ≡ some item
      → IsClean item
  unfolding job_item IsClean
  job_item-IsClean plan_id plugin state item k h =
      elim (Bool-cases (is_valid_job_error R (get "jobState" plugin) (lookup "jobError" plugin))) [
        | inr other ↦ absurd (let none_left = rw other at h in cc)
        | inl fine ↦
            let (job_error, failed) =
              valid-IsJobError (get "jobState" plugin) state (lookup "jobError" plugin) k fine in
            subst IsClean
              (let k = rw fine at h in let e : built plan_id plugin state ≡ item = cc in e)
              (inr ((λ gone. cc), refl, job_error, failed))
      ]

  live_item-IsClean :
      (plan_id : String) (plugin : Dict String (Value Real)) (item : StatusItem)
      → live_item R plan_id plugin ≡ ok (some item)
      → IsClean item
  unfolding live_item
  live_item-IsClean plan_id plugin item h =
      elim (Bool-cases
        (is_true (lookup "ok" plugin) && is_text plan_id (lookup "plan_id" plugin))) [
          | inr other ↦ absurd (let k = rw other at h in cc)
          | inl fine ↦ elim (Result-cases (known_state R (get "jobState" plugin))) [
            | inr (e, unhashable) ↦ absurd (let k = rw (fine, unhashable) at h in cc)
            | inl (none, unknown) ↦ absurd (let k = rw (fine, unknown) at h in cc)
            | inl (some state, known) ↦
                job_item-IsClean plan_id plugin state item known
                  (let k = rw (fine, known) at h in cc)
          ]
        ]

  normalize_response-IsClean :
      (plan_id : String) (response : Dict String (Value Real)) (item : StatusItem)
      → normalize_response R plan_id response ≡ ok item
      → IsClean item
  unfolding normalize_response bounded_status_error
  normalize_response-IsClean plan_id response item h =
      let refusal = refused_item-IsClean plan_id _ (
        bounded_text-IsBounded R printable (
          if is_truthy R (status_error R response)
          then text_of R (status_error R response)
          else "invalid_status_response")) in
      elim (Bool-cases (is_true (lookup "found" response))) [
        | inr other ↦ subst IsClean (let k = rw other at h in cc) refusal
        | inl found ↦ elim (Option-cases (as_dict (lookup "plugin" response))) [
          | inl absent ↦ subst IsClean (let k = rw (found, absent) at h in cc) refusal
          | inr (plugin, there) ↦ elim (Result-cases (live_item R plan_id plugin)) [
            | inr (e, raised) ↦ absurd (let k = rw (found, there, raised) at h in cc)
            | inl (none, unknown) ↦
                subst IsClean (let k = rw (found, there, unknown) at h in cc) refusal
            | inl (some live, known) ↦
                subst IsClean (let k = rw (found, there, known) at h in cc)
                  (live_item-IsClean plan_id plugin live known)
          ]
        ]
      ]

  -- Whatever a worker answers for a job, if the answer is turned into an item and does not raise,
  -- the item has either a state and no error, and then a job's error only if the job failed, of 1 to
  -- 128 characters of the code's pattern; or no state and an error of 1 to 256 printable characters,
  -- where the code's own texts are printable.
  pub normalize_live_status-IsClean :
      (plan_id : String) (response : Value Real) (item : StatusItem)
      → normalize_live_status R plan_id response ≡ ok item
      → IsClean item
  unfolding normalize_live_status
  normalize_live_status-IsClean plan_id response item h =
      elim (Option-cases (as_dict (some response))) [
        | inl other ↦ subst IsClean (let k = rw (other, normalize_live_status) at h in cc) (
            refused_item-IsClean plan_id "invalid_status_response"
              (invalid_response-IsBounded R printable))
        | inr (d, there) ↦
            normalize_response-IsClean plan_id d item (rw (there, normalize_live_status) at h)
      ]
