-- ===== src/Gateway/Repository/Fairness.antt =====
-- `lease_next_operation` described by the stored operations, without its loop.
use cadplot_mcp.Prelude.{
  ◌≤◌, ◌<◌, ◌≡◌, refl, sym, ap, subst, ◌∙◌, true, false, inl, inr, none, some, List, [], ◌∷◌, arith,
  All, All-map, Bool-cases, if◌then◌else◌,
}
use cadplot_mcp.Prelude.Classes.{nat_eq}
use cadplot_mcp.Prelude.Results.{ok, err, pure}
use cadplot_mcp.Prelude.Dicts.{Dict, lookup, All-lookup_self}
use cadplot_mcp.Gateway.Errors.{ValueCode, value_error}
use cadplot_mcp.Gateway.Models.{
  TenantId, SubjectId, WorkstationId, OperationId, Instant, OperationRecord,
}
use cadplot_mcp.Gateway.Operation.Shape.{refreshed, refreshed_early}
use cadplot_mcp.Gateway.Repository.{Repository, set_operation}
use cadplot_mcp.Gateway.Repository.Operations.{
  Survey, on_device, is_active, is_eligible, earliest, precedes, grant, grant_earliest,
  lease_next_operation,
}
use cadplot_mcp.Gateway.Repository.Survey.{note, noted}
use cadplot_mcp.Gateway.Repository.Notes.{noted_idle, noted_complete, earliest_All, earliest-Least}
use cadplot_mcp.Gateway.Repository.Invariant.{IsValid}
use cadplot_mcp.Gateway.Repository.Leasing.{start, settled_store, Waits, all_noted, noted-Waits}
use cadplot_mcp.Gateway.Repository.Granting.{
  leased_record, lease_next_lem, grant-late, grant-open, late_code,
}

module _ (tenant : TenantId) (workstation : WorkstationId) (owner : SubjectId) (now : Instant)
    (s : Repository) where
  -- Once refreshed, no operation of the device is active.
  abbrev pub NoneActive : Type 0
  NoneActive =
      (id : OperationId) (r : OperationRecord)
      → lookup id s.operations ≡ some r
      → on_device tenant workstation r ≡ true
      → is_active (refreshed r now) ≡ false

  abbrev pub WaitsIn : OperationRecord → Type 0
  WaitsIn = Waits tenant workstation now owner s.operations

  -- Nobody that waits was created earlier, or at the same time under a smaller identifier.
  abbrev pub IsFirst : OperationRecord → Type 0
  IsFirst r = (x : OperationRecord) → WaitsIn x → precedes x r ≡ false

  note_calm :
      (r : OperationRecord) (v : Survey)
      → (on_device tenant workstation r ≡ true → is_active (refreshed r now) ≡ false)
      → v.active ≡ false
      → (note tenant workstation now owner r v).active ≡ false
  unfolding note
  note_calm r v h k = ground arith

  noted_calm :
      (d : Dict OperationId OperationRecord) (v : Survey)
      → All
          (λ (entry : OperationId × OperationRecord).
            on_device tenant workstation entry.1 ≡ true → is_active (refreshed entry.1 now) ≡ false)
          d
      → v.active ≡ false
      → (noted tenant workstation now owner d v).active ≡ false
  unfolding noted
  noted_calm [] v h k = k
  noted_calm ((id, r) ∷ d) v h k =
      noted_calm d (note tenant workstation now owner r v) h.1 (note_calm r v h.0 k)

  module _ (v : IsValid s) where
    NoneActive-noted : NoneActive → (all_noted tenant workstation now owner s).active ≡ false
    NoneActive-noted none_active =
        noted_calm s.operations start
          (All-map s.operations (λ entry p. none_active entry.0 entry.1 p)
            (All-lookup_self s.operations v.distinct))
          refl

    -- The loop notes every waiting operation.
    noted_waiting :
        (P : OperationRecord → Type 0) (r : OperationRecord)
        → All P (all_noted tenant workstation now owner s).eligible
        → WaitsIn r
        → P r
    noted_waiting P r h w =
        let same : refreshed r now ≡ r = refreshed_early r now w.early in
        subst P same (
          noted_complete tenant workstation now owner P s.operations start r.operation_id h w.found
            w.device (subst (λ x. is_eligible owner x ≡ true) (sym same) w.eligible))

    earliest-IsFirst :
        (r : OperationRecord) (rest : List OperationRecord)
        → (all_noted tenant workstation now owner s).eligible ≡ r ∷ rest
        → WaitsIn (earliest r rest) × IsFirst (earliest r rest)
    earliest-IsFirst r rest e =
        let waits : All WaitsIn (r ∷ rest) =
          rw e at (noted-Waits tenant workstation now owner s v) in
        (
          earliest_All WaitsIn r rest waits.0 waits.1,
          λ x w.
              noted_waiting (λ y. precedes y (earliest r rest) ≡ false) x
                (subst (All (λ y. precedes y (earliest r rest) ≡ false)) (sym e)
                  (earliest-Least r rest))
                w,
        )

    -- The outcome where the device is idle and something waits, for the first that waits.
    idle_outcome :
        NoneActive
        → (x : OperationRecord) → WaitsIn x
        → (lease_expires_at : Instant)
        → (r : OperationRecord) × WaitsIn r
          × IsFirst r
          × (lease_next_operation tenant workstation owner now lease_expires_at s
              ≡ grant r now lease_expires_at (settled_store tenant workstation now s))
    idle_outcome none_active x w lease_expires_at = of_list _ refl
      where
        of_list :
            (xs : List OperationRecord)
            → (all_noted tenant workstation now owner s).eligible ≡ xs
            → (r : OperationRecord) × WaitsIn r
              × IsFirst r
              × (lease_next_operation tenant workstation owner now lease_expires_at s
                  ≡ grant r now lease_expires_at (settled_store tenant workstation now s))
        of_list [] e = absurd (noted_waiting (λ _. ⊥) x (subst (All (λ _. ⊥)) (sym e) tt) w)
        of_list (r ∷ rest) e =
            let (waits, first) = earliest-IsFirst r rest e in
            (
              earliest r rest,
              waits,
              first,
              lease_next_lem tenant workstation owner now s v lease_expires_at
                  ∙ ap
                      (λ b.
                        (if b
                            then pure none
                            else grant_earliest (all_noted tenant workstation now owner s).eligible
                                now lease_expires_at)
                          (settled_store tenant workstation now s))
                      (NoneActive-noted none_active)
                  ∙ ap
                      (λ xs.
                        grant_earliest xs now lease_expires_at
                          (settled_store tenant workstation now s))
                      e,
            )

    module _ (lease_expires_at : Instant) where
      -- In a valid store, while an operation of the device is still active after the refresh, no
      -- lease is given: the method only refreshes the device's operations.
      pub lease_next_busy :
          (id : OperationId) (r : OperationRecord)
          → lookup id s.operations ≡ some r
          → on_device tenant workstation r ≡ true
          → is_active (refreshed r now) ≡ true
          → lease_next_operation tenant workstation owner now lease_expires_at s
            ≡ (ok none, settled_store tenant workstation now s)
      lease_next_busy id r found mine active =
          elim (Bool-cases (all_noted tenant workstation now owner s).active) [
            | inl busy ↦
                rw (lease_next_lem tenant workstation owner now s v lease_expires_at, busy) refl
            | inr idle ↦ absurd (
                cc (
                  active,
                  noted_idle tenant workstation now owner s.operations start id idle found mine,
                ))
          ]

      -- In a valid store, on an idle device where operations wait and none of them was created in
      -- the future, an open deadline gives the lease: to a waiting operation that no other
      -- precedes, until the deadline or the operation's own expiry, and the store holds the leased
      -- record.
      pub lease_next_grants :
          NoneActive
          → (x : OperationRecord) → WaitsIn x
          → ((y : OperationRecord) → WaitsIn y → y.created_at ≤ now)
          → now < lease_expires_at
          → (r : OperationRecord) × WaitsIn r
            × IsFirst r
            × (lease_next_operation tenant workstation owner now lease_expires_at s ≡ (
              ok (some (leased_record r lease_expires_at)),
              set_operation r.operation_id
                  (leased_record r lease_expires_at)
                  (settled_store tenant workstation now s),
            ))
      lease_next_grants none_active x w past open_lease =
          let (r, waits, first, e) = idle_outcome none_active x w lease_expires_at in
          (
            r,
            waits,
            first,
            e
                ∙ grant-open tenant workstation owner now s v lease_expires_at r _ waits
                    (past r waits) open_lease,
          )

      -- In a valid store, with a deadline that has passed, an idle device where something waits
      -- gets neither a lease nor an expired operation: the validator refuses the expired record and
      -- the method raises.
      pub lease_next_late :
          NoneActive
          → (x : OperationRecord) → WaitsIn x
          → lease_expires_at ≤ now
          → (code : ValueCode) × (lease_next_operation tenant workstation owner now lease_expires_at
                s
              ≡ (err (value_error code), settled_store tenant workstation now s))
      lease_next_late none_active x w late =
          let (r, waits, first, e) = idle_outcome none_active x w lease_expires_at in
          (
            late_code tenant workstation owner now s v lease_expires_at r,
            e
                ∙ grant-late tenant workstation owner now s v lease_expires_at r _ waits
                    (ground arith),
          )
