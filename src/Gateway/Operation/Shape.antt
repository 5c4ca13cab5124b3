-- ===== src/Gateway/Operation/Shape.antt =====
-- A record that the validator accepts, and `_refresh_due` on one.
use cadplot_mcp.Prelude.{◌≡◌, refl, ◌⊎◌, inl, inr, ◌&&◌, true, false, arith, if◌then◌else◌}
use cadplot_mcp.Prelude.Results.{Result, ok, err}
use cadplot_mcp.Gateway.Errors.{ValueCode, Error, value_error}
use cadplot_mcp.Gateway.Models.Bounds.{is_safe_code}
use cadplot_mcp.Gateway.Models.{OperationRecord, Instant}
use cadplot_mcp.Gateway.Operation.{
  validate_record, updated, refresh_due, expired_record, attention_record, applies_translation,
  is_leased, is_running, is_due,
}

pub lease_expired_safe : is_safe_code "lease_expired" ≡ true
unfolding is_safe_code
lease_expired_safe = refl

pub operation_expired_safe : is_safe_code "operation_expired" ≡ true
unfolding is_safe_code
operation_expired_safe = refl

pub attention_safe : is_safe_code "translation_attention_required" ≡ true
unfolding is_safe_code
attention_safe = refl

abbrev pub IsShaped : OperationRecord → Type 0
IsShaped r = validate_record r ≡ ok tt

-- What a due record becomes.
abbrev pub due_record : OperationRecord → Instant → OperationRecord
due_record r now =
    if is_leased r.state
    then attention_record r now "lease_expired"
    else if is_running r.state && applies_translation r.task
    then attention_record r now "translation_attention_required"
    else expired_record r now

unfoldable pub refreshed : OperationRecord → Instant → OperationRecord
refreshed r now = if is_due r now then due_record r now else r

module _ (r : OperationRecord) (now : Instant) (h : IsShaped r) where
  -- On a record that the validator accepts `_refresh_due` never raises, whatever the clock: its own
  -- updates pass the validator. It returns the record that `refreshed` describes.
  pub refresh_due-shaped : refresh_due r now ≡ ok (refreshed r now)
  unfolding refresh_due refreshed
  refresh_due-shaped = ground (arith, lease_expired_safe, operation_expired_safe, attention_safe)

  pub refreshed-IsShaped : IsShaped (refreshed r now)
  unfolding refreshed validate_record
  refreshed-IsShaped = ground (arith, lease_expired_safe, operation_expired_safe, attention_safe)

pub updated-shaped : (r : OperationRecord) → IsShaped r → updated r ≡ ok r
unfolding updated
updated-shaped r h = ground arith

pub updated-cases :
    (r : OperationRecord) → ((updated r ≡ ok r) × IsShaped r) ⊎ ((e : Error) × (updated r ≡ err e))
unfolding updated
updated-cases r = elim (checked (validate_record r) refl) [
  | inl h ↦ inl (ground arith, h)
  | inr (e, h) ↦ inr (value_error e, ground arith)
]
  where
    checked :
        (c : Result ValueCode (Unit {0}))
        → validate_record r ≡ c
        → (validate_record r ≡ ok tt) ⊎ ((e : ValueCode) × (validate_record r ≡ err e))
    checked (ok tt) h = inl h
    checked (err e) h = inr (e, h)

pub refreshed_early :
    (r : OperationRecord) (now : Instant) → is_due r now ≡ false → refreshed r now ≡ r
unfolding refreshed
refreshed_early r now early = ground arith
