-- ===== src/Gateway/Repository/Outcomes.antt =====
-- What a worker's calls return, on each branch.
use cadplot_mcp.Prelude.{
  ◌≤◌, ◌<◌, ◌≡◌, ◌≢◌, ◌⊎◌, inl, inr, Option-cases, refl, Bool, true, false, not, ◌&&◌, Option, none,
  some, List, arith, ltb, if◌then◌else◌,
}
use cadplot_mcp.Prelude.Classes.{nat_eq}
use cadplot_mcp.Prelude.Results.{ok, err}
use cadplot_mcp.Prelude.Dicts.{lookup}
use cadplot_mcp.Gateway.Errors.{ValueCode, value_error}
use cadplot_mcp.Gateway.Models.Bounds.{is_safe_code}
use cadplot_mcp.Gateway.Models.{
  TenantId, WorkstationId, OperationId, Instant, SafeCode, OperationState, TaskResult,
  ProjectRecord, DrawingRecord, OperationRecord, task_command, result_command,
}
use cadplot_mcp.Gateway.Operation.{
  is_running, is_leased, is_succeeded, is_due, lease_due, same_command, updated, attention_required,
  validate_record, refresh_due,
}
use cadplot_mcp.Gateway.Operation.Shape.{IsShaped, refreshed, refresh_due-shaped, updated-shaped}
use cadplot_mcp.Gateway.Ports.{TransitionStatus}
use cadplot_mcp.Gateway.Repository.{Repository, set_operation}
use cadplot_mcp.Gateway.Repository.Operations.{on_device}
use cadplot_mcp.Gateway.Repository.Workers.{
  is_target, is_expired, worker_owns, outcome, not_found, start_operation, finish_operation,
  completed_record,
}
use cadplot_mcp.Gateway.Repository.Application.{
  apply_worker_success, validate_application, write_catalog, same_result,
}
use cadplot_mcp.Gateway.Repository.Invariant.{IsValid}
use cadplot_mcp.Gateway.Repository.Transitions.{found-IsShaped}

abbrev pub running_record : OperationRecord → Instant → OperationRecord
running_record r now = record r {
  state = OperationState.running;
  lease_expires_at = none;
  started_at = some now;
}

-- The operation did not start in the future.
abbrev pub StartedBy : OperationRecord → Instant → Type 0
StartedBy r now = elim r.started_at [ none ↦ Unit {0} | some begun ↦ begun ≤ now ]

-- A success has an answer to the task and no error; a failure has an error and no answer.
unfoldable pub payload_fits :
    OperationRecord → OperationState → Option TaskResult → Option SafeCode → Bool
unfolding result_command task_command
payload_fits r OperationState.succeeded (some a) none =
    same_command (result_command a) (task_command r.task)
payload_fits r OperationState.failed none (some code) = true
payload_fits r OperationState.attention_required none (some code) = true
payload_fits r _ _ _ = false

-- The error code, if there is one, has the form of a safe code.
abbrev pub is_safe_or_none : Option SafeCode → Bool
is_safe_or_none none = true
is_safe_or_none (some code) = is_safe_code code

payload_fits-target :
    (r : OperationRecord) (state : OperationState) (result : Option TaskResult)
    (code : Option SafeCode)
    → payload_fits r state result code ≡ true
    → is_target state ≡ true
unfolding payload_fits
payload_fits-target r state result code fits = ground arith

pub refreshed_halted :
    (r : OperationRecord) (now : Instant)
    → is_due r now ≡ true
    → is_running (refreshed r now).state ≡ false
unfolding refreshed
refreshed_halted r now due = ground arith

refreshed_open :
    (r : OperationRecord) (now : Instant)
    → is_due r now ≡ true
    → is_succeeded (refreshed r now).state ≡ false
unfolding refreshed
refreshed_open r now due = ground arith

module _ (r : OperationRecord) (now begun : Instant) where
  behind_early :
      IsShaped r
      → is_running r.state ≡ true
      → r.started_at ≡ some begun
      → now < begun
      → is_due r now ≡ false
  unfolding validate_record
  behind_early shaped running started behind = ground arith

  behind-refused :
      (answer : TaskResult)
      → IsShaped r
      → is_running r.state ≡ true
      → r.started_at ≡ some begun
      → now < begun
      → updated (completed_record r OperationState.succeeded now (some answer) none)
        ≡ err (
            value_error (
              if ltb now r.created_at
              then ValueCode.operation_completion_before_creation
              else ValueCode.operation_completion_before_start))
  unfolding updated validate_record
  behind-refused answer shaped running started behind = ground arith

-- An accepted payload comes with an answer to the task.
accepted-fits :
    (s : Repository) (r : OperationRecord) (answer : TaskResult) (projects : List ProjectRecord)
    (drawings : List DrawingRecord)
    → validate_application s r answer projects drawings ≡ ok tt
    → payload_fits r OperationState.succeeded (some answer) none ≡ true
unfolding payload_fits validate_application
accepted-fits s r answer projects drawings h = ground arith

-- A code of another form is refused first, whatever the rest of the record.
unsafe-refused :
    (r : OperationRecord) (now : Instant) (state : OperationState) (result : Option TaskResult)
    (code : Option SafeCode)
    → is_safe_or_none code ≡ false
    → updated (completed_record r state now result code)
      ≡ err (value_error ValueCode.string_pattern_mismatch)
unfolding updated validate_record
unsafe-refused r now state result none unsafe = absurd cc
unsafe-refused r now state result (some code) unsafe = ground arith

-- A running record that ends with a fitting payload and a safe code passes the validator.
completed-IsShaped :
    (r : OperationRecord) (now : Instant) (state : OperationState) (result : Option TaskResult)
    (code : Option SafeCode)
    → IsShaped r
    → payload_fits r state result code ≡ true
    → is_safe_or_none code ≡ true
    → StartedBy r now
    → is_running r.state ≡ true
    → IsShaped (completed_record r state now result code)
unfolding payload_fits validate_record
completed-IsShaped r now state result code shaped fits safe began running = ground arith

module _ (s : Repository) (id : OperationId) (tenant : TenantId) (workstation : WorkstationId) where
  -- If there is such an operation, it is one of another tenant or of another workstation.
  abbrev pub IsForeign : Type 0
  IsForeign =
      (r : OperationRecord)
      → lookup id s.operations ≡ some r
      → (r.tenant_id ≢ tenant) ⊎ (r.workstation_id ≢ workstation)

  foreign_unowned : IsForeign → worker_owns (lookup id s.operations) tenant workstation ≡ false
  foreign_unowned foreign = elim (Option-cases (lookup id s.operations)) [
    | inl missing ↦ rw missing refl
    | inr (r, found) ↦ elim (foreign r found) [
      | inl other ↦ ground (arith, found, other)
      | inr elsewhere ↦ ground (arith, found, elsewhere)
    ]
  ]

module _ (s : Repository) (id : OperationId) (tenant : TenantId) (workstation : WorkstationId)
    (now : Instant) where
  -- A worker of another tenant or of another workstation than the operation's learns nothing and
  -- changes nothing: its calls, with a terminal target state, return the same as for an operation
  -- that is not there.
  pub foreign_worker :
      IsForeign s id tenant workstation
      → (state : OperationState) (result : Option TaskResult) (code : Option SafeCode)
        (answer : TaskResult) (projects : List ProjectRecord) (drawings : List DrawingRecord)
      → is_target state ≡ true
      → (start_operation id tenant workstation now s ≡ (ok not_found, s))
        × (finish_operation id tenant workstation now state result code s ≡ (ok not_found, s))
        × (apply_worker_success id tenant workstation now answer projects drawings s
            ≡ (ok not_found, s))
  unfolding start_operation finish_operation apply_worker_success
  foreign_worker foreign state result code answer projects drawings target =
      let unowned = foreign_unowned s id tenant workstation foreign in
      (rw unowned refl, rw (target, unowned) refl, rw unowned refl)

  module _ (v : IsValid s) (r : OperationRecord) (found : lookup id s.operations ≡ some r)
      (mine : on_device tenant workstation r ≡ true) where
    -- The exact outcome of `start_operation` for the worker of a stored operation of a valid store
    -- that was not created in the future: a lease that has run out needs attention, what is not
    -- leased is refused unchanged, and a lease that holds runs from now on.
    pub start_outcome :
        r.created_at ≤ now
        → start_operation id tenant workstation now s ≡ (
            if is_leased r.state && lease_due r.lease_expires_at now
            then (
              ok (outcome TransitionStatus.lease_expired (refreshed r now)),
              set_operation id (refreshed r now) s,
            )
            else if is_leased r.state
            then (
              ok (outcome TransitionStatus.updated (running_record r now)),
              set_operation id (running_record r now) s,
            )
            else (ok (outcome TransitionStatus.invalid_state r), s))
    unfolding start_operation refresh_due updated attention_required
    start_outcome made = ground (
      arith,
      found,
      mine,
      found-IsShaped s v id r found,
      refresh_due-shaped r now (found-IsShaped s v id r found),
    )

    -- The exact outcome of `finish_operation` for the worker of a stored operation of a valid
    -- store, with a payload that fits the target state and a clock not behind the start: a due
    -- operation is refreshed and not finished, what does not run is refused unchanged, and what
    -- runs ends with the payload, unless its error code has not the form of a safe code: then the
    -- call raises and nothing is written.
    pub finish_outcome :
        (state : OperationState) (result : Option TaskResult) (code : Option SafeCode)
        → payload_fits r state result code ≡ true
        → StartedBy r now
        → finish_operation id tenant workstation now state result code s ≡ (
            if is_due r now
            then (
              ok (
                  outcome
                    (if is_expired (refreshed r now).state
                      then TransitionStatus.operation_expired
                      else TransitionStatus.invalid_state)
                    (refreshed r now)),
              set_operation id (refreshed r now) s,
            )
            else if is_running r.state && not (is_safe_or_none code)
            then (err (value_error ValueCode.string_pattern_mismatch), s)
            else if is_running r.state
            then (
              ok (outcome TransitionStatus.updated (completed_record r state now result code)),
              set_operation id (completed_record r state now result code) s,
            )
            else (ok (outcome TransitionStatus.invalid_state r), s))
    unfolding finish_operation
    finish_outcome state result code fits began = ground (
      arith,
      found,
      mine,
      payload_fits-target r state result code fits,
      refresh_due-shaped r now (found-IsShaped s v id r found),
      updated-shaped (completed_record r state now result code),
      unsafe-refused r now state result code,
      completed-IsShaped r now state result code (found-IsShaped s v id r found) fits,
      began,
      refreshed_halted r now,
    )

    module _ (answer : TaskResult) (projects : List ProjectRecord)
        (drawings : List DrawingRecord) where
      -- The exact outcome of `apply_worker_success` for the worker of a stored operation of a valid
      -- store, with a clock not behind the start. A due operation is refreshed and no row is
      -- written; a repetition of the stored answer succeeds and writes nothing, another answer is
      -- refused; what does not run is refused; and for what runs, either the payload is refused and
      -- nothing is written, or the rows and the success are written together.
      pub apply_outcome :
          StartedBy r now
          → apply_worker_success id tenant workstation now answer projects drawings s ≡ (
              if is_due r now
              then (
                ok (
                    outcome
                      (if is_expired (refreshed r now).state
                        then TransitionStatus.operation_expired
                        else TransitionStatus.invalid_state)
                      (refreshed r now)),
                set_operation id (refreshed r now) s,
              )
              else if is_succeeded r.state
              then (
                ok (
                    outcome
                      (if same_result r.result answer
                        then TransitionStatus.updated
                        else TransitionStatus.invalid_state)
                      r),
                s,
              )
              else if is_running r.state
              then elim (validate_application s r answer projects drawings) [
                | err e ↦ (err e, s)
                | ok _ ↦ (
                  ok (
                      outcome TransitionStatus.updated
                        (completed_record r OperationState.succeeded now (some answer) none)),
                  set_operation id
                      (completed_record r OperationState.succeeded now (some answer) none)
                      (write_catalog projects drawings s),
                )
              ]
              else (ok (outcome TransitionStatus.invalid_state r), s))
      unfolding apply_worker_success
      apply_outcome began = ground (
        arith,
        found,
        mine,
        refresh_due-shaped r now (found-IsShaped s v id r found),
        accepted-fits s r answer projects drawings,
        updated-shaped (completed_record r OperationState.succeeded now (some answer) none),
        completed-IsShaped r now OperationState.succeeded (some answer) none
            (found-IsShaped s v id r found),
        refreshed_halted r now,
        refreshed_open r now,
      )

      -- In a valid store, with a clock behind the start of a running operation, an accepted payload
      -- is written although the call raises: the rows come before the validator that refuses the
      -- completed record.
      pub apply_torn :
          (begun : Instant)
          → is_running r.state ≡ true
          → r.started_at ≡ some begun
          → now < begun
          → validate_application s r answer projects drawings ≡ ok tt
          → (code : ValueCode) × (apply_worker_success id tenant workstation now answer projects
                drawings s
              ≡ (err (value_error code), write_catalog projects drawings s))
      unfolding apply_worker_success
      apply_torn begun running started behind accepted = (
        if ltb now r.created_at
            then ValueCode.operation_completion_before_creation
            else ValueCode.operation_completion_before_start,
        ground (
          arith,
          found,
          mine,
          refresh_due-shaped r now (found-IsShaped s v id r found),
          behind_early r now begun (found-IsShaped s v id r found) running started behind,
          behind-refused r now begun answer (found-IsShaped s v id r found) running started behind,
        ),
      )
