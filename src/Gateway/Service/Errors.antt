-- ===== src/Gateway/Service/Errors.antt =====
-- The errors that a worker's success can end with.
use cadplot_mcp.Prelude.{
  ◌≡◌, refl, ap, subst, Option, none, some, List, arith, Bool-cases, inl, inr,
}
use cadplot_mcp.Prelude.Classes.{nat_eq}
use cadplot_mcp.Prelude.Results.{Result, err, lift, RaisesOnly, Result-cases}
use cadplot_mcp.Prelude.Dicts.{lookup}
use cadplot_mcp.Gateway.Errors.{
  ValueCode, GatewayCode, Error, value_error, key_error, repository_error, gateway_error,
}
use cadplot_mcp.Gateway.Models.{
  OperationId, Instant, OperationState, TenantId, WorkstationId, TaskResult, ProjectRecord,
  DrawingRecord, OperationRecord,
}
use cadplot_mcp.Gateway.Operation.{
  is_running, is_succeeded, updated, refresh_due, is_due, expire, attention_required,
  validate_record,
}
use cadplot_mcp.Gateway.Repository.{Repository, set_operation}
use cadplot_mcp.Gateway.Repository.Workers.{complete, completed_record, is_expired, owned_record}
use cadplot_mcp.Gateway.Repository.Application.{
  validate_application, write_catalog, apply_running, apply_refreshed, apply_owned,
  apply_worker_success,
}

-- A `ValueError`, and a `GatewayError`, whose code is all that a caller sees.
abbrev pub IsValue : Error → Type 0
IsValue e = (code : ValueCode) × (e ≡ value_error code)

abbrev pub IsGateway : Error → Type 0
IsGateway e = (code : GatewayCode) × (e ≡ gateway_error code)

RaisesOnly-lift :
    {S A : Type 0} (P : Error → Type 0) (r : Result Error A)
    → ((e : Error) → r ≡ err e → P e)
    → RaisesOnly {S = S} P (lift r)
RaisesOnly-lift P r h s e t z = h e (ap (λ p. p.0) z)

-- A result that is no `ok` of a check is its `ValueError`.
updated-IsValue : (r : OperationRecord) (e : Error) → updated r ≡ err e → IsValue e
unfolding updated
updated-IsValue r e h = elim (Result-cases (validate_record r)) [
  | inl (x, fine) ↦ absurd (ground (arith, fine))
  | inr (code, bad) ↦ (code, ground (arith, bad))
]

refresh_due-IsValue :
    (r : OperationRecord) (now : Instant) (e : Error) → refresh_due r now ≡ err e → IsValue e
unfolding refresh_due expire attention_required
refresh_due-IsValue r now (value_error code) h = (code, refl)
refresh_due-IsValue r now key_error h = absurd (ground arith)
refresh_due-IsValue r now (repository_error code) h = absurd (ground arith)
refresh_due-IsValue r now (gateway_error code) h = absurd (ground arith)

validate_application-IsValue :
    (s : Repository) (r : OperationRecord) (answer : TaskResult) (projects : List ProjectRecord)
    (drawings : List DrawingRecord) (e : Error)
    → validate_application s r answer projects drawings ≡ err e
    → IsValue e
unfolding validate_application
validate_application-IsValue s r answer projects drawings (value_error code) h = (code, refl)
validate_application-IsValue s r answer projects drawings key_error h = absurd (ground arith)
validate_application-IsValue s r answer projects drawings (repository_error code) h =
    absurd (ground arith)
validate_application-IsValue s r answer projects drawings (gateway_error code) h =
    absurd (ground arith)

module _ (id : OperationId) (now : Instant) (answer : TaskResult) (projects : List ProjectRecord)
    (drawings : List DrawingRecord) where
  abbrev finished : OperationRecord → OperationRecord
  finished r = completed_record r OperationState.succeeded now (some answer) none

  complete-IsValue :
      (r : OperationRecord)
      → RaisesOnly IsValue (complete id now OperationState.succeeded (some answer) none r)
  complete-IsValue r s e t h = elim (Result-cases (updated (finished r))) [
    | inl (x, fine) ↦ absurd (ground (arith, fine))
    | inr (x, bad) ↦
        let same : x ≡ e = ground (arith, bad) in
        subst IsValue same (updated-IsValue (finished r) x bad)
  ]

  apply_running-IsValue :
      (r : OperationRecord) → RaisesOnly IsValue (apply_running id now answer projects drawings r)
  apply_running-IsValue r s e t h =
      elim (Result-cases (validate_application s r answer projects drawings)) [
        | inl (x, fine) ↦ complete-IsValue r (write_catalog projects drawings s) e t (rw fine at h)
        | inr (x, bad) ↦
            let same : x ≡ e = ground (arith, bad) in
            subst IsValue same (validate_application-IsValue s r answer projects drawings x bad)
      ]

  apply_refreshed-IsValue :
      (r : OperationRecord) → RaisesOnly IsValue (apply_refreshed id now answer projects drawings r)
  apply_refreshed-IsValue r s e t h = elim (Bool-cases (is_succeeded r.state)) [
    | inl done ↦ absurd (cc (rw done at h))
    | inr pending ↦ elim (Bool-cases (is_running r.state)) [
      | inl running ↦ apply_running-IsValue r s e t (rw (pending, running) at h)
      | inr idle ↦ absurd (cc (rw (pending, idle) at h))
    ]
  ]

  apply_owned-IsValue :
      (o : Option OperationRecord)
      → RaisesOnly IsValue (apply_owned id now answer projects drawings o)
  apply_owned-IsValue none s e t h = absurd cc
  apply_owned-IsValue (some r) s e t h = elim (Result-cases (refresh_due r now)) [
    | inr (x, bad) ↦
        let same : x ≡ e = ground (arith, bad) in
        subst IsValue same (refresh_due-IsValue r now x bad)
    | inl (q, fine) ↦ elim (Bool-cases (is_due r now)) [
      | inr early ↦ apply_refreshed-IsValue r s e t (rw (fine, early) at h)
      | inl due ↦ elim (Bool-cases (is_expired q.state)) [
        | inl gone ↦ absurd (cc (rw (fine, due, gone) at h))
        | inr stays ↦
            apply_refreshed-IsValue q (set_operation id q s) e t (rw (fine, due, stays) at h)
      ]
    ]
  ]

  pub apply_worker_success-IsValue :
      (tenant : TenantId) (workstation : WorkstationId)
      → RaisesOnly IsValue (apply_worker_success id tenant workstation now answer projects drawings)
  unfolding apply_worker_success
  apply_worker_success-IsValue tenant workstation s e t h =
      apply_owned-IsValue (owned_record (lookup id s.operations) tenant workstation) s e t h
