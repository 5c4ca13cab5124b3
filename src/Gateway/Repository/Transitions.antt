-- ===== src/Gateway/Repository/Transitions.antt =====
-- Refreshing, starting and finishing an operation, and the invariant.
use cadplot_mcp.Prelude.{
  ◌≡◌, refl, true, false, inl, inr, ◌&&◌, ◌⊎◌, Option, none, some, arith, Bool-cases, Option-cases,
}
use cadplot_mcp.Prelude.Classes.{nat_eq}
use cadplot_mcp.Prelude.Results.{ok, lift, modify, pure, ◌>>=◌, ◌>>◌}
use cadplot_mcp.Prelude.Dicts.{lookup, All-lookup}
use cadplot_mcp.Gateway.Models.{
  TenantId, WorkstationId, OperationId, Instant, SafeCode, OperationState, TaskResult,
  OperationRecord,
}
use cadplot_mcp.Gateway.Operation.{
  updated, is_running, is_leased, is_succeeded, is_due, lease_due, attention_required, refresh_due,
}
use cadplot_mcp.Gateway.Operation.Shape.{
  IsShaped, refreshed, refresh_due-shaped, refreshed-IsShaped, updated-cases,
}
use cadplot_mcp.Gateway.Operation.Lifecycle.{StepTo, move, refreshed-StepTo}
use cadplot_mcp.Gateway.Ports.{TransitionStatus, TransitionOutcome}
use cadplot_mcp.Gateway.Repository.{Repository, Method, set_operation}
use cadplot_mcp.Gateway.Repository.Operations.{
  is_active, refresh_found, refresh_operation, on_device,
}
use cadplot_mcp.Gateway.Repository.Workers.{
  is_target, owned_record, outcome, is_expired, start_owned, start_operation, complete,
  finish_running, after_refresh, finish_operation, completed_record,
}
use cadplot_mcp.Gateway.Repository.Survey.{ShapedAt}
use cadplot_mcp.Gateway.Repository.Invariant.{
  IsValid, Sound, Sound-refl, set_operation-IsValid, insert-Evolves,
}

module _ (s : Repository) (v : IsValid s) (id : OperationId) (r : OperationRecord)
    (found : lookup id s.operations ≡ some r) where
  pub found-IsShaped : IsShaped r
  found-IsShaped = (All-lookup ShapedAt id s.operations v.shaped found).1

  pub write-Sound :
      (q : OperationRecord)
      → StepTo r q
      → IsShaped q
      → (is_active q ≡ true → is_active r ≡ true)
      → Sound s (set_operation id q s)
  write-Sound q st shaped calm = record {
    valid = set_operation-IsValid s id r q v found st shaped calm;
    evolves = insert-Evolves id r q s.operations found st;
    remembers = λ k i p. p;
  }

  refreshed-calm : (now : Instant) → is_active (refreshed r now) ≡ true → is_active r ≡ true
  unfolding refreshed
  refreshed-calm now a = ground arith

  pub refreshed-Sound : (now : Instant) → Sound s (set_operation id (refreshed r now) s)
  refreshed-Sound now =
      write-Sound (refreshed r now) (refreshed-StepTo r now)
        (refreshed-IsShaped r now found-IsShaped) (refreshed-calm now)

  -- A write of a record that the validator may refuse.
  pub updated-Sound :
      (q : OperationRecord) (status : TransitionStatus)
      → StepTo r q
      → (is_active q ≡ true → is_active r ≡ true)
      → Sound s
          ((do
            written ← lift {S = Repository} (updated q)
            modify (set_operation id written)
            pure (outcome status written))
            s).1
  updated-Sound q status st calm = elim (updated-cases q) [
    | inl (accepted, shaped) ↦ rw accepted (write-Sound q st shaped calm)
    | inr (e, refused) ↦ rw refused (Sound-refl v)
  ]

  refresh_found-Sound : (now : Instant) → Sound s (refresh_found id now (some r) s).1
  refresh_found-Sound now = rw (refresh_due-shaped r now found-IsShaped) (refreshed-Sound now)

  attention_required-refreshed :
      (now : Instant)
      → (is_leased r.state && lease_due r.lease_expires_at now) ≡ true
      → attention_required r now ≡ ok (refreshed r now)
  unfolding refreshed refresh_due
  attention_required-refreshed now due = ground (arith, refresh_due-shaped r now found-IsShaped)

  start_owned-Sound : (now : Instant) → Sound s (start_owned id now (some r) s).1
  start_owned-Sound now =
      elim (Bool-cases (is_leased r.state && lease_due r.lease_expires_at now)) [
        | inl due ↦ rw (due, attention_required-refreshed now due) (refreshed-Sound now)
        | inr early ↦ elim (Bool-cases (is_leased r.state)) [
          | inr idle ↦ rw (early, idle) (Sound-refl v)
          | inl held ↦
              rw (early, held)
                (updated-Sound _ TransitionStatus.updated (move (ground arith) (ground arith))
                  (λ _. ground arith))
        ]
      ]

  pub complete-Sound :
      (now : Instant) (state : OperationState) (result : Option TaskResult)
      (error_code : Option SafeCode)
      → is_running r.state ≡ true
      → is_target state ≡ true
      → Sound s (complete id now state result error_code r s).1
  complete-Sound now state result error_code running target =
      updated-Sound (completed_record r state now result error_code) TransitionStatus.updated
        (move (ground arith) (ground arith)) (λ _. ground arith)

  pub finish_running-Sound :
      (now : Instant) (state : OperationState) (result : Option TaskResult)
      (error_code : Option SafeCode)
      → is_target state ≡ true
      → Sound s (finish_running id now state result error_code r s).1
  finish_running-Sound now state result error_code target = elim (Bool-cases (is_running r.state)) [
    | inr idle ↦ rw idle (Sound-refl v)
    | inl running ↦ rw running (complete-Sound now state result error_code running target)
  ]

  halted :
      (now : Instant)
      → is_due r now ≡ true
      → (is_running (refreshed r now).state ≡ false)
        × (is_succeeded (refreshed r now).state ≡ false)
  unfolding refreshed
  halted now due = ground arith

  -- A refresh that is due ends the method in the refreshed store, if the rest does nothing to a
  -- record that does not run.
  pub after_refresh-Sound :
      (now : Instant) (rest : OperationRecord → Method TransitionOutcome)
      → Sound s (rest r s).1
      → ((q : OperationRecord) (t : Repository)
          → is_running q.state ≡ false
          → is_succeeded q.state ≡ false
          → (rest q t).1 ≡ t)
      → Sound s (after_refresh id now r rest s).1
  after_refresh-Sound now rest early idle = elim (Bool-cases (is_due r now)) [
    | inr not_due ↦ rw (refresh_due-shaped r now found-IsShaped, not_due) early
    | inl due ↦
        rw (refresh_due-shaped r now found-IsShaped, due)
          (elim (Bool-cases (is_expired (refreshed r now).state)) [
            | inl gone ↦ rw gone (refreshed-Sound now)
            | inr stays ↦
                rw
                  (
                    stays,
                    idle (refreshed r now) (set_operation id (refreshed r now) s) (halted now due).0
                        (halted now due).1,
                  )
                  (refreshed-Sound now)
          ])
  ]

-- The record that a worker's call finds, if any, belongs to its device.
pub owned-cases :
    (found : Option OperationRecord) (tenant : TenantId) (workstation : WorkstationId)
    → (owned_record found tenant workstation ≡ none)
      ⊎ ((r : OperationRecord) × (found ≡ some r)
          × (owned_record found tenant workstation ≡ some r)
          × (on_device tenant workstation r ≡ true))
owned-cases none tenant workstation = inl refl
owned-cases (some r) tenant workstation = elim (Bool-cases (on_device tenant workstation r)) [
  | inr other ↦ inl (rw other)
  | inl mine ↦ inr (r, refl, rw mine, mine)
]

module _ (s : Repository) (v : IsValid s) (id : OperationId) (now : Instant) where
  -- Whatever its outcome, a refresh keeps the invariant and moves an operation by one step at most.
  pub refresh_operation-Sound : Sound s (refresh_operation id now s).1
  unfolding refresh_operation
  refresh_operation-Sound = elim (Option-cases (lookup id s.operations)) [
    | inl missing ↦ rw missing (Sound-refl v)
    | inr (r, found) ↦ rw found (refresh_found-Sound s v id r found now)
  ]

  module _ (tenant : TenantId) (workstation : WorkstationId) where
    pub start_operation-Sound : Sound s (start_operation id tenant workstation now s).1
    unfolding start_operation
    start_operation-Sound = elim (owned-cases (lookup id s.operations) tenant workstation) [
      | inl foreign ↦ rw foreign (Sound-refl v)
      | inr (r, found, owned, _) ↦ rw owned (start_owned-Sound s v id r found now)
    ]

    pub finish_operation-Sound :
        (state : OperationState) (result : Option TaskResult) (error_code : Option SafeCode)
        → Sound s (finish_operation id tenant workstation now state result error_code s).1
    unfolding finish_operation
    finish_operation-Sound state result error_code = elim (Bool-cases (is_target state)) [
      | inr bad ↦ rw bad (Sound-refl v)
      | inl target ↦ rw target (elim (owned-cases (lookup id s.operations) tenant workstation) [
        | inl foreign ↦ rw foreign (Sound-refl v)
        | inr (r, found, owned, _) ↦ rw owned (
            after_refresh-Sound s v id r found now (finish_running id now state result error_code)
              (finish_running-Sound s v id r found now state result error_code target)
              (λ q t idle _. rw idle))
      ])
    ]
