-- ===== src/Gateway/Repository/Leasing.antt =====
-- `lease_next_operation`: the store after its loop, and the operations that wait there.
use cadplot_mcp.Prelude.{
  ◌≡◌, refl, sym, subst, ◌∙◌, true, false, inl, inr, some, [], ◌∷◌, arith, All, Bool-cases,
  Option-cases,
}
use cadplot_mcp.Prelude.Classes.{nat_eq}
use cadplot_mcp.Prelude.Dicts.{Dict, lookup, Distinct, All-lookup_self}
use cadplot_mcp.Gateway.Models.{
  TenantId, SubjectId, WorkstationId, OperationId, Instant, OperationRecord,
}
use cadplot_mcp.Gateway.Operation.{is_due}
use cadplot_mcp.Gateway.Operation.Shape.{IsShaped, refreshed, refreshed-IsShaped}
use cadplot_mcp.Gateway.Operation.Lifecycle.{
  StepTo, stay, SameRequest, refreshed-StepTo, StepTo-SameRequest,
}
use cadplot_mcp.Gateway.Repository.{Repository}
use cadplot_mcp.Gateway.Repository.Operations.{Survey, on_device, is_active, is_eligible}
use cadplot_mcp.Gateway.Repository.Survey.{
  AllShaped, settled, settled_all, noted, lookup-settled_all,
}
use cadplot_mcp.Gateway.Repository.Notes.{noted_sound}
use cadplot_mcp.Gateway.Repository.Invariant.{IsValid, Evolves, Recedes, IsValid-carried, Sound}

abbrev pub start : Survey
start = record { eligible = []; active = false }

module _ (tenant : TenantId) (workstation : WorkstationId) (now : Instant) where
  pub settled-StepTo : (r : OperationRecord) → StepTo r (settled tenant workstation now r)
  unfolding settled
  settled-StepTo r = elim (Bool-cases (on_device tenant workstation r)) [
    | inl mine ↦ rw mine (refreshed-StepTo r now)
    | inr other ↦ rw other (stay refl)
  ]

  settled-IsShaped :
      (r : OperationRecord) → IsShaped r → IsShaped (settled tenant workstation now r)
  unfolding settled
  settled-IsShaped r h = elim (Bool-cases (on_device tenant workstation r)) [
    | inl mine ↦ rw mine (refreshed-IsShaped r now h)
    | inr other ↦ rw other h
  ]

  pub settled-calm :
      (r : OperationRecord)
      → is_active (settled tenant workstation now r) ≡ true
      → is_active r ≡ true
  unfolding settled refreshed
  settled-calm r a = ground arith

  settled_all-Distinct :
      (d : Dict OperationId OperationRecord)
      → Distinct d
      → Distinct (settled_all tenant workstation now d)
  unfolding settled_all
  settled_all-Distinct [] h = tt
  settled_all-Distinct ((id, r) ∷ d) h =
      (rw (lookup-settled_all tenant workstation now id d, h.0) refl, settled_all-Distinct d h.1)

  settled_all-AllShaped :
      (d : Dict OperationId OperationRecord)
      → AllShaped d
      → AllShaped (settled_all tenant workstation now d)
  unfolding settled_all
  settled_all-AllShaped [] h = tt
  settled_all-AllShaped ((id, r) ∷ d) h = (
    ((StepTo-SameRequest (settled-StepTo r)).operation_id ∙ h.0.0, settled-IsShaped r h.0.1),
    settled_all-AllShaped d h.1,
  )

  pub settled-found :
      (d : Dict OperationId OperationRecord) (id : OperationId) {q : OperationRecord}
      → lookup id (settled_all tenant workstation now d) ≡ some q
      → (r : OperationRecord) × (lookup id d ≡ some r) × (settled tenant workstation now r ≡ q)
  settled-found d id p = elim (Option-cases (lookup id d)) [
    | inl missing ↦ absurd (cc (lookup-settled_all tenant workstation now id d))
    | inr (r, found) ↦ (r, found, ground (arith, lookup-settled_all tenant workstation now id d))
  ]

  -- The store after the loop.
  abbrev pub settled_store : Repository → Repository
  settled_store s = record s { operations = settled_all tenant workstation now s.operations }

  settled_store-Evolves : (s : Repository) → Evolves s.operations (settled_store s).operations
  settled_store-Evolves s = record {
    at = λ id r p. (
      settled tenant workstation now r,
      rw (lookup-settled_all tenant workstation now id s.operations, p) refl,
      settled-StepTo r,
    );
  }

  settled_store-Recedes : (s : Repository) → Recedes s.operations (settled_store s).operations
  settled_store-Recedes s = record {
    at = λ id q p a.
        let (r, found, e) = settled-found s.operations id p in
        (
          r,
          found,
          settled-calm r (rw e a),
          subst (SameRequest r) e (StepTo-SameRequest (settled-StepTo r)),
        );
  }

  pub settled_store-Sound : (s : Repository) → IsValid s → Sound s (settled_store s)
  settled_store-Sound s v = record {
    valid =
        IsValid-carried (settled_store s) v refl (settled_all-Distinct s.operations v.distinct)
          (settled_all-AllShaped s.operations v.shaped) (settled_store-Evolves s)
          (settled_store-Recedes s);
    evolves = settled_store-Evolves s;
    remembers = λ k id p. p;
  }

  module _ (owner : SubjectId) where
    -- An operation that waits: created, of this owner and device, and not due.
    pub record Waits (d : Dict OperationId OperationRecord) (r : OperationRecord) : Type 0 where
      pub found : lookup r.operation_id d ≡ some r
      pub device : on_device tenant workstation r ≡ true
      pub eligible : is_eligible owner r ≡ true
      pub early : is_due r now ≡ false

    eligible-early :
        (r : OperationRecord)
        → is_eligible owner (refreshed r now) ≡ true
        → (refreshed r now ≡ r) × (is_due r now ≡ false)
    unfolding refreshed
    eligible-early r h = ground arith

    abbrev pub all_noted : Repository → Survey
    all_noted s = noted tenant workstation now owner s.operations start

    -- The loop notes waiting operations only.
    pub noted-Waits : (s : Repository) → IsValid s → All (Waits s.operations) (all_noted s).eligible
    noted-Waits s v =
        noted_sound tenant workstation now owner (Waits s.operations) s.operations start
          (each s.operations v.shaped (All-lookup_self s.operations v.distinct)) tt
      where
        each :
            (d : Dict OperationId OperationRecord)
            → AllShaped d
            → All
                (λ (entry : OperationId × OperationRecord).
                  lookup entry.0 s.operations ≡ some entry.1)
                d
            → All
                (λ (entry : OperationId × OperationRecord).
                  on_device tenant workstation entry.1 ≡ true
                  → is_eligible owner (refreshed entry.1 now) ≡ true
                  → Waits s.operations (refreshed entry.1 now))
                d
        each [] a b = tt
        each ((id, r) ∷ d) a b = (
          (λ mine waits.
              let (same, early) = eligible-early r waits in
              subst (Waits s.operations) (sym same) (record {
                found = subst (λ k. lookup k s.operations ≡ some r) (sym a.0.0) b.0;
                device = mine;
                eligible = subst (λ x. is_eligible owner x ≡ true) same waits;
                early = early;
              })),
          each d a.1 b.1,
        )
