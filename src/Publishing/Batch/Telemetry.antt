-- ===== src/Publishing/Batch/Telemetry.antt =====
-- The queue's telemetry: `_normalize_queue_telemetry` of src/cadplot_mcp/batch.py.
use cadplot_mcp.Prelude.{
  ℕ, ◌+◌, ◌||◌, Bool, not, Option, none, some, List, [], ◌∷◌, String, ◌==◌, if◌then◌else◌, ltb,
}
use cadplot_mcp.Prelude.Dicts.{Dict, lookup}
use cadplot_mcp.Prelude.Classes.{string_eq}
use cadplot_mcp.Prelude.Results.{Result, ok, err, refuse}
use cadplot_mcp.Publishing.Value.{pos, Value, null, int, is_true, is_text, as_dict, get}
use cadplot_mcp.Publishing.Runtime.{Runtime, Exception, value_error}
use cadplot_mcp.Publishing.Batch.Texts.{bounded_status_error}

pub record Telemetry : Type 0 where
  pub capacity : ℕ
  pub pending : ℕ
  pub running : ℕ
  pub available : ℕ
  pub recovered_on_startup : ℕ
  pub interrupted_on_startup : ℕ
  pub cancelled_on_startup : ℕ

abbrev pub authentication_scheme : String
authentication_scheme = "windows-dpapi-current-user+hmac-sha256-v1"

abbrev pub invalid_telemetry : Exception
invalid_telemetry = value_error "invalid_queue_telemetry"

module _ {Real : Type 0} where
  -- `isinstance(value, int) and not isinstance(value, bool) and value >= 0`
  unfoldable pub as_count : Value Real → Option ℕ
  as_count (int (pos n)) = some n
  as_count other = none

  -- `response.get(key, 0)`
  unfoldable pub get_or_zero : String → Dict String (Value Real) → Value Real
  unfolding lookup
  get_or_zero k d = elim (lookup k d) [ none ↦ int (pos 0) | some v ↦ v ]

  -- All of the values as counts, or nothing.
  unfoldable pub counts : List (Value Real) → Option (List ℕ)
  unfolding as_count
  counts [] = some []
  counts (v ∷ vs) = elim (as_count v) [
    | none ↦ none
    | some n ↦ elim (counts vs) [ none ↦ none | some ns ↦ some (n ∷ ns) ]
  ]

  unfoldable pub telemetry_values : Dict String (Value Real) → List (Value Real)
  unfolding get get_or_zero lookup
  telemetry_values d =
      get "queueCapacity" d
      ∷ get "queuePending" d
      ∷ get "queueRunning" d
      ∷ get "queueAvailable" d
      ∷ get_or_zero "queueRecoveredOnStartup" d
      ∷ get_or_zero "queueInterruptedOnStartup" d
      ∷ get_or_zero "queueCancelledOnStartup" d
      ∷ []

-- `values`, once all of them are counts
unfoldable pub telemetry_of : List ℕ → Option Telemetry
telemetry_of (c ∷ p ∷ r ∷ a ∷ v ∷ i ∷ x ∷ []) = some (record {
  capacity = c;
  pending = p;
  running = r;
  available = a;
  recovered_on_startup = v;
  interrupted_on_startup = i;
  cancelled_on_startup = x;
})
telemetry_of other = none

unfoldable pub is_inconsistent : Telemetry → Bool
is_inconsistent t =
    ltb t.capacity 1
    || ltb 1000 t.capacity
    || ltb t.capacity t.pending
    || ltb t.capacity t.available
    || ltb 1 t.running
    || ltb t.capacity t.recovered_on_startup
    || not (t.pending + t.available == t.capacity)

unfoldable pub read_counts : Option (List ℕ) → Option Telemetry
unfolding telemetry_of
read_counts none = none
read_counts (some ns) = telemetry_of ns

module _ (R : Runtime) where
  open R use {Real}

  unfoldable pub refuse_response : Value Real → Exception
  unfolding bounded_status_error
  refuse_response error = value_error (bounded_status_error R error "invalid_plugin_status")

  unfoldable pub check_telemetry : Dict String (Value Real) → Telemetry → Result Exception Telemetry
  unfolding is_true is_text lookup is_inconsistent
  check_telemetry d t =
      refuse
        (not (is_true (lookup "publishEnabled" d))
          || not (is_text authentication_scheme (lookup "queueAuthentication" d))
          || is_inconsistent t)
        invalid_telemetry (ok t)

  unfoldable pub normalize_queue_telemetry : Value Real → Result Exception Telemetry
  unfolding as_dict is_true lookup get counts telemetry_values read_counts check_telemetry
      refuse_response
  normalize_queue_telemetry response = elim (as_dict (some response)) [
    | none ↦ err (refuse_response null)
    | some d ↦
        if not (is_true (lookup "ok" d))
        then err (refuse_response (get "error" d))
        else elim (read_counts (counts (telemetry_values d))) [
          | none ↦ err invalid_telemetry
          | some t ↦ check_telemetry d t
        ]
  ]
