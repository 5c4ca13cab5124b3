-- ===== src/Gateway/Repository/Listing.antt =====
-- `list_workstations` and `list_projects`: the order and the content of a listing.
use cadplot_mcp.Prelude.{
  ℕ, ◌≤◌, ◌≡◌, refl, sym, subst, ◌↔◌, ◌⊎◌, inl, inr, Bool, true, false, Option, none, some, List,
  [], ◌∷◌, arith, leb, ◌==◌, All, keep, Bool-cases,
}
use cadplot_mcp.Prelude.Classes.{nat_eq}
use cadplot_mcp.Prelude.Results.{ok}
use cadplot_mcp.Prelude.Dicts.{Dict, values, lookup, Distinct}
use cadplot_mcp.Gateway.Models.{
  TenantId, SubjectId, WorkstationId, WorkstationRecord, ProjectRecord,
}
use cadplot_mcp.Gateway.Repository.{
  Repository, sort_insert, sorted, lists_workstation, list_workstations, lists_project,
  list_projects,
}

module _ {A : Type 0} where
  abbrev pub Has : A → List A → Type 0
  Has x [] = ⊥
  Has x (y ∷ ys) = (x ≡ y) ⊎ Has x ys

  abbrev pub IsSorted : (A → ℕ) → List A → Type 0
  IsSorted key [] = Unit
  IsSorted key (x ∷ xs) = All (λ y. key x ≤ key y) xs × IsSorted key xs

  All-sort_insert :
      (P : A → Type 0) (key : A → ℕ) (x : A) (xs : List A)
      → P x
      → All P xs
      → All P (sort_insert key x xs)
  unfolding sort_insert
  All-sort_insert P key x [] h k = (h, tt)
  All-sort_insert P key x (y ∷ ys) h k = elim (Bool-cases (leb (key x) (key y))) [
    | inl before ↦ rw before (h, k)
    | inr after ↦ rw after (k.0, All-sort_insert P key x ys h k.1)
  ]

  All-below :
      (key : A → ℕ) (m n : ℕ) (xs : List A)
      → m ≤ n
      → All (λ y. n ≤ key y) xs
      → All (λ y. m ≤ key y) xs
  All-below key m n [] h k = tt
  All-below key m n (y ∷ ys) h k = (omega (arith, h, k.0), All-below key m n ys h k.1)

  sort_insert-IsSorted :
      (key : A → ℕ) (x : A) (xs : List A) → IsSorted key xs → IsSorted key (sort_insert key x xs)
  unfolding sort_insert
  sort_insert-IsSorted key x [] h = (tt, tt)
  sort_insert-IsSorted key x (y ∷ ys) h = elim (Bool-cases (leb (key x) (key y))) [
    | inl before ↦
        let below : key x ≤ key y = ground (arith, before) in
        rw before ((below, All-below key (key x) (key y) ys below h.0), h)
    | inr after ↦ rw after (
      All-sort_insert (λ z. key y ≤ key z) key x ys (ground (arith, after)) h.0,
      sort_insert-IsSorted key x ys h.1,
    )
  ]

  pub sorted-IsSorted : (key : A → ℕ) (xs : List A) → IsSorted key (sorted key xs)
  unfolding sorted
  sorted-IsSorted key [] = tt
  sorted-IsSorted key (x ∷ xs) = sort_insert-IsSorted key x (sorted key xs) (sorted-IsSorted key xs)

  Has-sort_insert :
      (key : A → ℕ) (w x : A) (xs : List A) → Has w (sort_insert key x xs) ↔ ((w ≡ x) ⊎ Has w xs)
  unfolding sort_insert
  Has-sort_insert key w x [] = ((λ h. h), (λ h. h))
  Has-sort_insert key w x (y ∷ ys) = elim (Bool-cases (leb (key x) (key y))) [
    | inl before ↦ rw before ((λ h. h), (λ h. h))
    | inr after ↦ rw after (
      (λ h. elim h [
        | inl e ↦ inr (inl e)
        | inr k ↦ elim ((Has-sort_insert key w x ys).0 k) [ inl e ↦ inl e | inr m ↦ inr (inr m) ]
      ]),
      (λ h. elim h [
        | inl e ↦ inr ((Has-sort_insert key w x ys).1 (inl e))
        | inr k ↦ elim k [ inl e ↦ inl e | inr m ↦ inr ((Has-sort_insert key w x ys).1 (inr m)) ]
      ]),
    )
  ]

  pub Has-sorted : (key : A → ℕ) (w : A) (xs : List A) → Has w (sorted key xs) ↔ Has w xs
  unfolding sorted
  Has-sorted key w [] = ((λ h. h), (λ h. h))
  Has-sorted key w (x ∷ xs) = (
    (λ h. elim ((Has-sort_insert key w x (sorted key xs)).0 h) [
      | inl e ↦ inl e
      | inr k ↦ inr ((Has-sorted key w xs).0 k)
    ]),
    (λ h.
        (Has-sort_insert key w x (sorted key xs)).1
          (elim h [ inl e ↦ inl e | inr k ↦ inr ((Has-sorted key w xs).1 k) ])),
  )

  pub Has-keep :
      (p : A → Bool) (w : A) (xs : List A) → Has w (keep p xs) ↔ (Has w xs × (p w ≡ true))
  unfolding keep
  Has-keep p w [] = ((λ h. absurd h), (λ h. h.0))
  Has-keep p w (x ∷ xs) = of (Has-keep p w xs) (p x) refl
    where
      of :
          (Has w (keep p xs) ↔ (Has w xs × (p w ≡ true)))
          → (b : Bool) → p x ≡ b
          → Has w (elim b as (λ _. List A) [ true ↦ x ∷ keep p xs | false ↦ keep p xs ])
            ↔ (((w ≡ x) ⊎ Has w xs) × (p w ≡ true))
      of rest true e = (
        (λ h. elim h [
          | inl same ↦ (inl same, subst (λ z. p z ≡ true) (sym same) e)
          | inr k ↦ let (m, q) = rest.0 k in (inr m, q)
        ]),
        (λ h. elim h.0 [ inl same ↦ inl same | inr k ↦ inr (rest.1 (k, h.1)) ]),
      )
      of rest false e = (
        (λ h. let (m, q) = rest.0 h in (inr m, q)),
        (λ h. elim h.0 [
          | inl same ↦ absurd (cc (subst (λ z. p z ≡ true) same h.1, e))
          | inr k ↦ rest.1 (k, h.1)
        ]),
      )

  pub Has-values :
      (w : A) (d : Dict ℕ A) → Distinct d → Has w (values d) ↔ ((id : ℕ) × (lookup id d ≡ some w))
  unfolding lookup
  Has-values w [] v = ((λ h. absurd h), (λ h. absurd (cc (h.1))))
  Has-values w ((j, x) ∷ d) v = (
    (λ h. elim h [
      | inl e ↦ (j, ground (arith, e))
      | inr k ↦ let (id, found) = (Has-values w d v.1).0 k in (id, ground (arith, found, v.0))
    ]),
    (λ h. elim (Bool-cases (j == h.0)) [
      | inl hit ↦ inl (ground (arith, h.1, hit))
      | inr miss ↦ inr ((Has-values w d v.1).1 (h.0, ground (arith, h.1, miss)))
    ]),
  )

-- A listing: in the order of identifiers, of just the stored records that the caller may see.
pub record Lists {A : Type 0} (key : A → ℕ) (Shows : A → Type 0) (d : Dict ℕ A) (xs : List A)
    : Type 0 where
  pub ordered : IsSorted key xs
  pub exact : (w : A) → Has w xs ↔ (((id : ℕ) × (lookup id d ≡ some w)) × Shows w)

listing :
    {A : Type 0} (key : A → ℕ) (shows : A → Bool) (Shows : A → Type 0) (d : Dict ℕ A)
    → ((w : A) → (shows w ≡ true) ↔ Shows w)
    → Distinct d
    → Lists key Shows d (sorted key (keep shows (values d)))
listing key shows Shows d shown v = record {
  ordered = sorted-IsSorted key (keep shows (values d));
  exact = λ w. (
    (λ h.
        let (m, q) =
          (Has-keep shows w (values d)).0 ((Has-sorted key w (keep shows (values d))).0 h) in
        ((Has-values w d v).0 m, (shown w).0 q)),
    (λ h.
        (Has-sorted key w (keep shows (values d))).1
          ((Has-keep shows w (values d)).1 ((Has-values w d v).1 h.0, (shown w).1 h.1))),
  );
}

-- What a caller may see of the workstations, and of the projects with this selection.
abbrev pub ShowsWorkstation : TenantId → SubjectId → WorkstationRecord → Type 0
ShowsWorkstation tenant owner w =
    (w.enabled ≡ true) × (w.tenant_id ≡ tenant) × (w.owner_subject_id ≡ owner)

abbrev pub ShowsProject : TenantId → SubjectId → Option WorkstationId → ProjectRecord → Type 0
ShowsProject tenant owner selected p =
    (p.enabled ≡ true)
    × (p.tenant_id ≡ tenant)
    × (p.owner_subject_id ≡ owner)
    × ((selected ≡ none) ⊎ (selected ≡ some p.workstation_id))

lists_workstation_iff :
    (tenant : TenantId) (owner : SubjectId) (w : WorkstationRecord)
    → (lists_workstation tenant owner w ≡ true) ↔ ShowsWorkstation tenant owner w
lists_workstation_iff tenant owner w = ((λ h. ground arith), (λ h. ground arith))

lists_project_iff :
    (tenant : TenantId) (owner : SubjectId) (selected : Option WorkstationId) (p : ProjectRecord)
    → (lists_project tenant owner selected p ≡ true) ↔ ShowsProject tenant owner selected p
lists_project_iff tenant owner none p = ((λ h. ground arith), (λ h. ground arith))
lists_project_iff tenant owner (some w) p = ((λ h. ground arith), (λ h. ground arith))

-- The two listings return, in the order of identifiers, just the stored records that are enabled and
-- of this tenant and owner, and for projects of the selected workstation, if one is selected; they
-- change nothing. The identifiers of workstations and of projects stand once each.
pub listings_exact :
    (s : Repository) (tenant : TenantId) (owner : SubjectId) (selected : Option WorkstationId)
    → Distinct s.workstations
    → Distinct s.projects
    → ((ws : List WorkstationRecord) × (list_workstations tenant owner s ≡ (ok ws, s))
        × Lists (λ w. w.workstation_id) (ShowsWorkstation tenant owner) s.workstations ws)
      × ((ps : List ProjectRecord) × (list_projects tenant owner selected s ≡ (ok ps, s))
          × Lists (λ p. p.project_id) (ShowsProject tenant owner selected) s.projects ps)
unfolding list_workstations list_projects
listings_exact s tenant owner selected v w = (
  (
    sorted (λ x. x.workstation_id) (keep (lists_workstation tenant owner) (values s.workstations)),
    refl,
    listing (λ x. x.workstation_id) (lists_workstation tenant owner) (ShowsWorkstation tenant owner)
        s.workstations (lists_workstation_iff tenant owner) v,
  ),
  (
    sorted (λ x. x.project_id) (keep (lists_project tenant owner selected) (values s.projects)),
    refl,
    listing (λ x. x.project_id) (lists_project tenant owner selected)
        (ShowsProject tenant owner selected) s.projects (lists_project_iff tenant owner selected) w,
  ),
)
