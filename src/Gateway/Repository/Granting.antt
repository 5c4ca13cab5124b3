-- ===== src/Gateway/Repository/Granting.antt =====
-- `lease_next_operation`: the grant of a lease to a waiting operation.
use cadplot_mcp.Prelude.{
  ◌≤◌, ◌<◌, ◌≡◌, refl, sym, subst, ◌==◌, true, false, inl, inr, none, some, List, [], ◌∷◌, arith,
  All, Bool-cases, leb, ltb, min, if◌then◌else◌,
}
use cadplot_mcp.Prelude.Classes.{nat_eq}
use cadplot_mcp.Prelude.Results.{ok, err, pure}
use cadplot_mcp.Prelude.Dicts.{lookup, lookup-insert, insert-Distinct, All-lookup, All-insert}
use cadplot_mcp.Gateway.Errors.{ValueCode, value_error}
use cadplot_mcp.Gateway.Models.{
  TenantId, SubjectId, WorkstationId, OperationId, Instant, OperationState, OperationRecord,
}
use cadplot_mcp.Gateway.Operation.{expire, validate_record}
use cadplot_mcp.Gateway.Operation.Shape.{
  IsShaped, refreshed, updated-cases, updated-shaped, operation_expired_safe,
}
use cadplot_mcp.Gateway.Operation.Lifecycle.{StepTo, move}
use cadplot_mcp.Gateway.Repository.{Repository, set_operation}
use cadplot_mcp.Gateway.Repository.Operations.{
  on_device, is_active, earliest, grant, grant_earliest, lease_next_operation,
}
use cadplot_mcp.Gateway.Repository.Survey.{
  ShapedAt, settled, settled_all, survey_lem, lookup-settled_all,
}
use cadplot_mcp.Gateway.Repository.Notes.{noted_idle, earliest_All}
use cadplot_mcp.Gateway.Repository.Invariant.{IsValid, Rivals, Evolves, Evolves-indexed, Sound}
use cadplot_mcp.Gateway.Repository.Leasing.{
  start, settled-found, settled_store, settled_store-Sound, Waits, all_noted, noted-Waits,
  settled-StepTo,
}

abbrev pub leased_record : OperationRecord → Instant → OperationRecord
leased_record r lease_expires_at = record r {
  state = OperationState.leased;
  lease_expires_at = some (min lease_expires_at r.expires_at);
}

module _ (tenant : TenantId) (workstation : WorkstationId) (owner : SubjectId) (now : Instant) where
  abbrev Waiting : Repository → OperationRecord → Type 0
  Waiting s r = Waits tenant workstation now owner s.operations r

  -- No operation of the device is active once it is refreshed.
  abbrev pub IsIdle : Repository → Type 0
  IsIdle s = (all_noted tenant workstation now owner s).active ≡ false

  module _ (s : Repository) (v : IsValid s) (lease_expires_at : Instant) where
    abbrev granted_store : OperationRecord → Repository
    granted_store r =
        set_operation r.operation_id (leased_record r lease_expires_at)
          (settled_store tenant workstation now s)

    granted-lookup :
        (r : OperationRecord) (id : OperationId)
        → lookup id (granted_store r).operations ≡ (
            if r.operation_id == id
            then some (leased_record r lease_expires_at)
            else lookup id (settled_all tenant workstation now s.operations))
    granted-lookup r id = lookup-insert r.operation_id id _ _

    granted-same :
        (r : OperationRecord) (id : OperationId) (x : OperationRecord)
        → Waiting s r
        → (r.operation_id == id) ≡ true
        → lookup id s.operations ≡ some x
        → r ≡ x
    granted-same r id x w hit p = ground (arith, w.found)

    granted-Evolves :
        (r : OperationRecord) → Waiting s r → Evolves s.operations (granted_store r).operations
    granted-Evolves r w = record {
      at = λ id x p. elim (Bool-cases (r.operation_id == id)) [
        | inl hit ↦ (
          leased_record r lease_expires_at,
          rw (granted-lookup r id, hit) refl,
          subst (λ y. StepTo y (leased_record r lease_expires_at)) (granted-same r id x w hit p)
              (move (ground arith) (ground (arith, w.eligible))),
        )
        | inr miss ↦ (
          settled tenant workstation now x,
          rw
              (
                granted-lookup r id,
                miss,
                lookup-settled_all tenant workstation now id s.operations,
                p,
              )
              refl,
          settled-StepTo tenant workstation now x,
        )
      ];
    }

    -- In an idle device's store no settled operation of the device is active.
    idle_of :
        (r : OperationRecord) {q : OperationRecord}
        → (on_device tenant workstation r ≡ true → is_active (refreshed r now) ≡ false)
        → settled tenant workstation now r ≡ q
        → on_device tenant workstation q ≡ true
        → is_active q ≡ false
    unfolding settled refreshed
    idle_of r h e m = ground arith

    idle-settled :
        (id : OperationId) {q : OperationRecord}
        → IsIdle s
        → lookup id (settled_all tenant workstation now s.operations) ≡ some q
        → on_device tenant workstation q ≡ true
        → is_active q ≡ false
    idle-settled id {q} idle p m =
        let (r, found, e) = settled-found tenant workstation now s.operations id p in
        idle_of r (noted_idle tenant workstation now owner s.operations _ id idle found) e m

    flip : {x y : OperationRecord} → Rivals x y → Rivals y x
    flip h = record {
      first = h.second;
      second = h.first;
      tenant = sym h.tenant;
      workstation = sym h.workstation;
    }

    -- A rival of the granted operation is on the same device.
    granted-device :
        (r : OperationRecord) (i j : OperationId) (x y : OperationRecord)
        → Waiting s r
        → lookup i (granted_store r).operations ≡ some x
        → (r.operation_id == i) ≡ true
        → Rivals x y
        → on_device tenant workstation y ≡ true
    granted-device r i j x y w p hit rivals =
        ground (arith, granted-lookup r i, w.device, rivals.tenant, rivals.workstation)

    granted-exclusive :
        (r : OperationRecord)
        → Waiting s r
        → IsIdle s
        → (i j : OperationId) (x y : OperationRecord)
        → lookup i (granted_store r).operations ≡ some x
        → lookup j (granted_store r).operations ≡ some y
        → Rivals x y
        → i ≡ j
    granted-exclusive r w idle i j x y p q rivals = elim (Bool-cases (r.operation_id == i)) [
      | inl hit ↦ elim (Bool-cases (r.operation_id == j)) [
        | inl hit' ↦ ground arith
        | inr miss' ↦
            let q' : lookup j (settled_all tenant workstation now s.operations) ≡ some y =
              ground (arith, granted-lookup r j) in
            absurd
              (cc (rivals.second, idle-settled j idle q' (granted-device r i j x y w p hit rivals)))
      ]
      | inr miss ↦
          let p' : lookup i (settled_all tenant workstation now s.operations) ≡ some x =
            ground (arith, granted-lookup r i) in
          elim (Bool-cases (r.operation_id == j)) [
            | inl hit' ↦ absurd (
                cc (
                  rivals.first,
                  idle-settled i idle p' (granted-device r j i y x w q hit' (flip rivals)),
                ))
            | inr miss' ↦
                let q' : lookup j (settled_all tenant workstation now s.operations) ≡ some y =
                  ground (arith, granted-lookup r j) in
                (settled_store-Sound tenant workstation now s v).valid.exclusive i j x y p' q'
                  rivals
          ]
    ]

    pub lease_next_lem :
        lease_next_operation tenant workstation owner now lease_expires_at s
        ≡ (if (all_noted tenant workstation now owner s).active
              then pure none
              else grant_earliest
                  (all_noted tenant workstation now owner s).eligible
                  now
                  lease_expires_at)
            (settled_store tenant workstation now s)
    unfolding lease_next_operation
    lease_next_lem = ground (
      arith,
      survey_lem tenant workstation now owner [] s.operations start s refl v.distinct v.shaped,
    )

    Waiting-IsShaped : (r : OperationRecord) → Waiting s r → IsShaped r
    Waiting-IsShaped r w = (All-lookup ShapedAt r.operation_id s.operations v.shaped w.found).1

    granted-Sound :
        (r : OperationRecord)
        → Waiting s r
        → IsIdle s
        → IsShaped (leased_record r lease_expires_at)
        → Sound s (granted_store r)
    granted-Sound r w idle shaped =
        let settled_valid : IsValid (settled_store tenant workstation now s) =
          (settled_store-Sound tenant workstation now s v).valid in
        record {
          valid = record {
            distinct = insert-Distinct r.operation_id _ _ settled_valid.distinct;
            shaped =
                All-insert ShapedAt r.operation_id (leased_record r lease_expires_at)
                  (settled_all tenant workstation now s.operations) settled_valid.shaped
                  (refl, shaped);
            exclusive = granted-exclusive r w idle;
            indexed = Evolves-indexed (granted_store r) v refl (granted-Evolves r w);
          };
          evolves = granted-Evolves r w;
          remembers = λ k id p. p;
        }

    -- The validator tests the creation first.
    abbrev pub late_code : OperationRecord → ValueCode
    late_code r =
        if ltb now r.created_at
        then ValueCode.operation_completion_before_creation
        else ValueCode.operation_expired_before_deadline

    -- A deadline that has passed makes `grant` raise: the selected operation is not due, so the
    -- validator refuses the expired record.
    pub grant-late :
        (r : OperationRecord) (t : Repository)
        → Waiting s r
        → leb (min lease_expires_at r.expires_at) now ≡ true
        → grant r now lease_expires_at t ≡ (err (value_error (late_code r)), t)
    unfolding expire
    grant-late r t w late =
        ground (arith, Waiting-IsShaped r w, w.early, w.eligible, operation_expired_safe)

    pub leased-IsShaped :
        (r : OperationRecord)
        → Waiting s r
        → r.created_at ≤ now
        → now < lease_expires_at
        → IsShaped (leased_record r lease_expires_at)
    unfolding validate_record
    leased-IsShaped r w made open_lease = ground (arith, Waiting-IsShaped r w, w.early, w.eligible)

    pub grant-open :
        (r : OperationRecord) (t : Repository)
        → Waiting s r
        → r.created_at ≤ now
        → now < lease_expires_at
        → grant r now lease_expires_at t ≡ (
          ok (some (leased_record r lease_expires_at)),
          set_operation r.operation_id (leased_record r lease_expires_at) t,
        )
    grant-open r t w made open_lease = ground (
      arith,
      updated-shaped (leased_record r lease_expires_at) (leased-IsShaped r w made open_lease),
      w.early,
      w.eligible,
    )

    grant-Sound :
        (r : OperationRecord)
        → Waiting s r
        → IsIdle s
        → Sound s (grant r now lease_expires_at (settled_store tenant workstation now s)).1
    grant-Sound r w idle = elim (Bool-cases (leb (min lease_expires_at r.expires_at) now)) [
      | inl late ↦
          rw (grant-late r (settled_store tenant workstation now s) w late)
            (settled_store-Sound tenant workstation now s v)
      | inr early ↦ rw early (elim (updated-cases (leased_record r lease_expires_at)) [
        | inl (accepted, shaped) ↦ rw accepted (granted-Sound r w idle shaped)
        | inr (e, refused) ↦ rw refused (settled_store-Sound tenant workstation now s v)
      ])
    ]

    grant_earliest-Sound :
        (xs : List OperationRecord)
        → All (Waiting s) xs
        → IsIdle s
        → Sound s
            (grant_earliest xs now lease_expires_at (settled_store tenant workstation now s)).1
    grant_earliest-Sound [] w idle = settled_store-Sound tenant workstation now s v
    grant_earliest-Sound (r ∷ rest) w idle =
        grant-Sound (earliest r rest) (earliest_All (Waiting s) r rest w.0 w.1) idle

    -- In a valid store leasing keeps the invariant, on every branch and where it raises, and moves
    -- each operation by one step at most.
    pub lease_next_operation-Sound :
        Sound s (lease_next_operation tenant workstation owner now lease_expires_at s).1
    lease_next_operation-Sound =
        rw lease_next_lem (elim (Bool-cases (all_noted tenant workstation now owner s).active) [
          | inl busy ↦ rw busy (settled_store-Sound tenant workstation now s v)
          | inr idle ↦
              rw idle (grant_earliest-Sound _ (noted-Waits tenant workstation now owner s v) idle)
        ])
