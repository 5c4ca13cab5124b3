-- ===== src/Gateway/Repository/Notes.antt =====
-- What the loop of `lease_next_operation` notes: whether the device is busy, and the operations that
-- wait for it.
use cadplot_mcp.Prelude.{
  ◌≡◌, sym, ap, subst, ◌==◌, true, false, inl, inr, some, List, [], ◌∷◌, arith, All, All-append,
  All-append_left, All-append_right, Bool-cases, if◌then◌else◌,
}
use cadplot_mcp.Prelude.Classes.{nat_eq}
use cadplot_mcp.Prelude.Dicts.{Dict, lookup}
use cadplot_mcp.Gateway.Models.{
  TenantId, SubjectId, WorkstationId, OperationId, Instant, OperationRecord,
}
use cadplot_mcp.Gateway.Operation.Shape.{refreshed}
use cadplot_mcp.Gateway.Repository.Operations.{
  Survey, on_device, is_active, is_eligible, precedes, earliest,
}
use cadplot_mcp.Gateway.Repository.Survey.{note, noted}

module _ (tenant : TenantId) (workstation : WorkstationId) (now : Instant) (owner : SubjectId) where
  note_active :
      (r : OperationRecord) (v : Survey)
      → v.active ≡ true
      → (note tenant workstation now owner r v).active ≡ true
  unfolding note
  note_active r v h = ground arith

  -- The flag is never cleared.
  noted_active :
      (d : Dict OperationId OperationRecord) (v : Survey)
      → v.active ≡ true
      → (noted tenant workstation now owner d v).active ≡ true
  unfolding noted
  noted_active [] v h = h
  noted_active ((id, r) ∷ d) v h =
      noted_active d (note tenant workstation now owner r v) (note_active r v h)

  note_idle :
      (r : OperationRecord) (v : Survey)
      → (note tenant workstation now owner r v).active ≡ false
      → on_device tenant workstation r ≡ true
      → is_active (refreshed r now) ≡ false
  unfolding note
  note_idle r v h m = ground arith

  -- Where the flag stays down, no refreshed operation of the device is active.
  pub noted_idle :
      (d : Dict OperationId OperationRecord) (v : Survey) (id : OperationId) {r : OperationRecord}
      → (noted tenant workstation now owner d v).active ≡ false
      → lookup id d ≡ some r
      → on_device tenant workstation r ≡ true
      → is_active (refreshed r now) ≡ false
  unfolding noted lookup
  noted_idle [] v id h p m = cc
  noted_idle ((j, q) ∷ d) v id {r} h p m = elim (Bool-cases (j == id)) [
    | inr miss ↦ noted_idle d (note tenant workstation now owner q v) id h (ground arith) m
    | inl hit ↦ elim (Bool-cases (note tenant workstation now owner q v).active) [
      | inl busy ↦ absurd (cc (noted_active d (note tenant workstation now owner q v) busy))
      | inr idle ↦
          let same : q ≡ r = ground arith in
          subst (λ x. is_active (refreshed x now) ≡ false) same
            (note_idle q v idle (subst (λ x. on_device tenant workstation x ≡ true) (sym same) m))
    ]
  ]

  module _ (P : OperationRecord → Type 0) where
    abbrev Noted : OperationRecord → Type 0
    Noted r =
        on_device tenant workstation r ≡ true
        → is_eligible owner (refreshed r now) ≡ true
        → P (refreshed r now)

    note_sound :
        (r : OperationRecord) (v : Survey)
        → Noted r
        → All P v.eligible
        → All P (note tenant workstation now owner r v).eligible
    unfolding note
    note_sound r v h k = elim (Bool-cases (on_device tenant workstation r)) [
      | inr other ↦ rw other k
      | inl mine ↦ rw mine (elim (Bool-cases (is_active (refreshed r now))) [
        | inl busy ↦ rw busy k
        | inr idle ↦ rw idle (elim (Bool-cases (is_eligible owner (refreshed r now))) [
          | inl waits ↦ rw waits (All-append P v.eligible _ k (h mine waits, tt))
          | inr not_waiting ↦ rw not_waiting k
        ])
      ])
    ]

    -- Each noted operation was noted before, or is a refreshed one of the device that is eligible.
    pub noted_sound :
        (d : Dict OperationId OperationRecord) (v : Survey)
        → All (λ (entry : OperationId × OperationRecord). Noted entry.1) d
        → All P v.eligible
        → All P (noted tenant workstation now owner d v).eligible
    unfolding noted
    noted_sound [] v h k = k
    noted_sound ((id, r) ∷ d) v h k =
        noted_sound d (note tenant workstation now owner r v) h.1 (note_sound r v h.0 k)

    note_keeps :
        (r : OperationRecord) (v : Survey)
        → All P (note tenant workstation now owner r v).eligible
        → All P v.eligible
    unfolding note
    note_keeps r v h = elim (Bool-cases (on_device tenant workstation r)) [
      | inr other ↦ rw other at h
      | inl mine ↦ elim (Bool-cases (is_active (refreshed r now))) [
        | inl busy ↦ rw (mine, busy) at h
        | inr idle ↦ elim (Bool-cases (is_eligible owner (refreshed r now))) [
          | inl waits ↦
              All-append_left P v.eligible (refreshed r now ∷ []) (rw (mine, idle, waits) at h)
          | inr not_waiting ↦ rw (mine, idle, not_waiting) at h
        ]
      ]
    ]

    noted_keeps :
        (d : Dict OperationId OperationRecord) (v : Survey)
        → All P (noted tenant workstation now owner d v).eligible
        → All P v.eligible
    unfolding noted
    noted_keeps [] v h = h
    noted_keeps ((id, r) ∷ d) v h =
        note_keeps r v (noted_keeps d (note tenant workstation now owner r v) h)

    note_complete :
        (r : OperationRecord) (v : Survey)
        → All P (note tenant workstation now owner r v).eligible
        → Noted r
    unfolding note
    note_complete r v h mine waits =
        let idle : is_active (refreshed r now) ≡ false = ground arith in
        (All-append_right P v.eligible (refreshed r now ∷ []) (rw (mine, idle, waits) at h)).0

    -- What holds of all noted operations holds of each eligible one.
    pub noted_complete :
        (d : Dict OperationId OperationRecord) (v : Survey) (id : OperationId) {r : OperationRecord}
        → All P (noted tenant workstation now owner d v).eligible
        → lookup id d ≡ some r
        → Noted r
    unfolding noted lookup
    noted_complete [] v id h p = cc
    noted_complete ((j, q) ∷ d) v id {r} h p = elim (Bool-cases (j == id)) [
      | inr miss ↦ noted_complete d (note tenant workstation now owner q v) id h (ground arith)
      | inl hit ↦
          let same : q ≡ r = ground arith in
          subst Noted same
            (note_complete q v (noted_keeps d (note tenant workstation now owner q v) h))
    ]

-- `min` returns one of the list.
pub earliest_All :
    (P : OperationRecord → Type 0) (best : OperationRecord) (rest : List OperationRecord)
    → P best
    → All P rest
    → P (earliest best rest)
unfolding earliest
earliest_All P best [] h k = h
earliest_All P best (r ∷ rest) h k = elim (Bool-cases (precedes r best)) [
  | inl before ↦ rw before (earliest_All P r rest k.0 k.1)
  | inr after ↦ rw after (earliest_All P best rest h k.1)
]

precedes_trans :
    (a b c : OperationRecord) → precedes a b ≡ false → precedes b c ≡ false → precedes a c ≡ false
precedes_trans a b c h k = ground arith

precedes_irrefl : (a : OperationRecord) → precedes a a ≡ false
precedes_irrefl a = ground arith

precedes_asymm : (a b : OperationRecord) → precedes a b ≡ true → precedes b a ≡ false
precedes_asymm a b h = ground arith

-- None of the list precedes this record.
abbrev pub Least : OperationRecord → List OperationRecord → OperationRecord → Type 0
Least best rest x = (precedes best x ≡ false) × All (λ r. precedes r x ≡ false) rest

pub earliest-Least :
    (best : OperationRecord) (rest : List OperationRecord) → Least best rest (earliest best rest)
unfolding earliest
earliest-Least best [] = (precedes_irrefl best, tt)
earliest-Least best (r ∷ rest) = elim (Bool-cases (precedes r best)) [
  | inl before ↦
      subst (Least best (r ∷ rest)) (ap (λ b. earliest (if b then r else best) rest) (sym before)) (
        precedes_trans best r (earliest r rest) (precedes_asymm r best before)
            (earliest-Least r rest).0,
        earliest-Least r rest,
      )
  | inr after ↦
      subst (Least best (r ∷ rest)) (ap (λ b. earliest (if b then r else best) rest) (sym after)) (
        (earliest-Least best rest).0,
        (
          precedes_trans r best (earliest best rest) after (earliest-Least best rest).0,
          (earliest-Least best rest).1,
        ),
      )
]
