-- ===== src/Gateway/Operation.antt =====
-- One operation record: the validator of models.py, and the transitions of repositories.py that
-- write a record. The proofs are in the modules below.
pub mod Shape
pub mod Lifecycle
use cadplot_mcp.Prelude.{
  ℕ, Bool, true, false, not, ◌&&◌, ◌||◌, Option, none, some, ltb, leb, ◌==◌, is_some, if◌then◌else◌,
}
use cadplot_mcp.Prelude.Results.{Result, ok, err, refuse}
use cadplot_mcp.Protocol.Translation.{TranslationRequest}
use cadplot_mcp.Gateway.Errors.{ValueCode, Error, value_error}
use cadplot_mcp.Gateway.Models.Bounds.{is_safe_code}
use cadplot_mcp.Gateway.Models.{
  Instant, SafeCode, TaskCommand, OperationState, ReadTask, TaskResult, OperationRecord,
  task_command, result_command,
}

abbrev pub is_created : OperationState → Bool
is_created OperationState.created = true
is_created _ = false

abbrev pub is_leased : OperationState → Bool
is_leased OperationState.leased = true
is_leased _ = false

abbrev pub is_running : OperationState → Bool
is_running OperationState.running = true
is_running _ = false

abbrev pub is_succeeded : OperationState → Bool
is_succeeded OperationState.succeeded = true
is_succeeded _ = false

abbrev command_index : TaskCommand → ℕ
command_index TaskCommand.translation = 0
command_index TaskCommand.validate_environment = 1
command_index TaskCommand.list_projects = 2
command_index TaskCommand.scan_drawings = 3
command_index TaskCommand.inspect_drawing = 4
command_index TaskCommand.create_publish_plan = 5

-- `a is b` on commands.
abbrev pub same_command : TaskCommand → TaskCommand → Bool
same_command a b = command_index a == command_index b

abbrev pub lease_outside : OperationRecord → Bool
lease_outside r = elim r.lease_expires_at [
  | none ↦ false
  | some l ↦ not (ltb r.created_at l && leb l r.expires_at)
]

abbrev pub start_outside : OperationRecord → Bool
start_outside r = elim r.started_at [
  | none ↦ false
  | some s ↦ not (leb r.created_at s && ltb s r.expires_at)
]

-- `a is not None and a < b`
abbrev pub some_below : Option Instant → Instant → Bool
some_below none b = false
some_below (some a) b = ltb a b

-- `a is not None and b is not None and a < b`
abbrev pub some_before : Option Instant → Option Instant → Bool
some_before a none = false
some_before a (some b) = some_below a b

-- The operation's result answers another command than its task.
abbrev pub answers_other : OperationRecord → Bool
answers_other r = elim r.result [
  | none ↦ false
  | some a ↦ not (same_command (result_command a) (task_command r.task))
]

abbrev pub terminal_shape :
    OperationRecord → Result ValueCode (Unit {0}) → Result ValueCode (Unit {0})
terminal_shape r =
    refuse
      (not (is_some r.completed_at)
        || (not (is_some r.error_code) || (is_some r.result || is_some r.lease_expires_at)))
      ValueCode.terminal_operation_shape_invalid

-- The second half of `validate_state_shape`, by state.
abbrev pub validate_phase : OperationState → OperationRecord → Result ValueCode (Unit {0})
validate_phase OperationState.created r =
    refuse
      (is_some r.lease_expires_at
        || (is_some r.started_at
            || (is_some r.completed_at || (is_some r.result || is_some r.error_code))))
      ValueCode.created_operation_has_transition_data (ok tt)
validate_phase OperationState.leased r =
    refuse
      (not (is_some r.lease_expires_at)
        || (is_some r.started_at
            || (is_some r.completed_at || (is_some r.result || is_some r.error_code))))
      ValueCode.leased_operation_shape_invalid (ok tt)
validate_phase OperationState.running r =
    refuse
      (not (is_some r.started_at)
        || (is_some r.lease_expires_at
            || (is_some r.completed_at || (is_some r.result || is_some r.error_code))))
      ValueCode.running_operation_shape_invalid (ok tt)
validate_phase OperationState.succeeded r =
    refuse
      (not (is_some r.started_at)
        || (not (is_some r.completed_at)
            || (not (is_some r.result) || (is_some r.error_code || is_some r.lease_expires_at))))
      ValueCode.succeeded_operation_shape_invalid
      (refuse (answers_other r) ValueCode.operation_result_command_mismatch (ok tt))
validate_phase OperationState.failed r =
    terminal_shape r
      (refuse (not (is_some r.started_at)) ValueCode.failed_operation_was_never_started (ok tt))
validate_phase OperationState.expired r = terminal_shape r (
    refuse (some_below r.completed_at r.expires_at) ValueCode.operation_expired_before_deadline
      (ok tt))
validate_phase OperationState.attention_required r = terminal_shape r (ok tt)

unfoldable pub validate_state_shape : OperationRecord → Result ValueCode (Unit {0})
unfolding result_command task_command
validate_state_shape r =
    refuse (leb r.expires_at r.created_at) ValueCode.operation_expiry_must_follow_creation (
      refuse (lease_outside r) ValueCode.operation_lease_outside_deadline (
        refuse (start_outside r) ValueCode.operation_start_outside_deadline (
          refuse (some_below r.completed_at r.created_at)
            ValueCode.operation_completion_before_creation
            (refuse (some_before r.completed_at r.started_at)
              ValueCode.operation_completion_before_start (validate_phase r.state r)))))

-- The pattern of the field `error_code`, where it is set.
abbrev pub has_safe_code : OperationRecord → Bool
has_safe_code r = elim r.error_code [ none ↦ true | some code ↦ is_safe_code code ]

-- `model_validate`: the pattern of the error code comes before the validator.
unfoldable pub validate_record : OperationRecord → Result ValueCode (Unit {0})
unfolding validate_state_shape
validate_record r =
    refuse (not (has_safe_code r)) ValueCode.string_pattern_mismatch (validate_state_shape r)

-- `_updated`: the record with its updates, if it passes.
unfoldable pub updated : OperationRecord → Result Error OperationRecord
unfolding validate_record
updated r = elim (validate_record r) [ ok _ ↦ ok r | err e ↦ err (value_error e) ]

abbrev pub expired_record : OperationRecord → Instant → OperationRecord
expired_record r now = record r {
  state = OperationState.expired;
  lease_expires_at = none;
  completed_at = some now;
  error_code = some "operation_expired";
}

unfoldable pub expire : OperationRecord → Instant → Result Error OperationRecord
unfolding updated
expire r now = updated (expired_record r now)

abbrev pub attention_record : OperationRecord → Instant → SafeCode → OperationRecord
attention_record r now code = record r {
  state = OperationState.attention_required;
  lease_expires_at = none;
  completed_at = some now;
  error_code = some code;
}

unfoldable pub attention_required : OperationRecord → Instant → Result Error OperationRecord
unfolding updated
attention_required r now = updated (attention_record r now "lease_expired")

-- The task is a translation whose request is `apply`.
abbrev pub applies_translation : ReadTask → Bool
applies_translation (ReadTask.translation d (TranslationRequest.apply a)) = true
applies_translation _ = false

-- The lease is set and has run out.
abbrev pub lease_due : Option Instant → Instant → Bool
lease_due none now = false
lease_due (some l) now = leb l now

-- Some branch of `_refresh_due` writes a new record.
abbrev pub is_due : OperationRecord → Instant → Bool
is_due r now =
    (is_created r.state && leb r.expires_at now)
    || ((is_leased r.state && lease_due r.lease_expires_at now)
        || (is_running r.state && leb r.expires_at now))

unfoldable pub refresh_due : OperationRecord → Instant → Result Error OperationRecord
unfolding expire attention_required
refresh_due r now =
    if is_created r.state && leb r.expires_at now
    then expire r now
    else if is_leased r.state && lease_due r.lease_expires_at now
    then attention_required r now
    else if is_running r.state && leb r.expires_at now
    then (if applies_translation r.task
        then updated (record r {
          state = OperationState.attention_required;
          completed_at = some now;
          error_code = some "translation_attention_required";
        })
        else expire r now)
    else ok r
