-- ===== src/Prelude/Dicts.antt =====
-- Python's dict as an association list in insertion order, for keys with an equality test.
use mathlib.Core.Path.{◌≡◌, refl, sym, subst, subst₂}
use mathlib.Core.Logic.{◌≢◌, inl, inr}
use mathlib.Core.Option.{Option, none, some}
use mathlib.Core.List.{List, [], ◌∷◌, ◌++◌}
use native.Mathlib.Omega.{arith}
use cadplot_mcp.Prelude.Tests.{if◌then◌else◌, Bool-cases}
use cadplot_mcp.Prelude.Lists.{All}
use cadplot_mcp.Prelude.Classes.{Eq}

abbrev pub Dict : Type 0 → Type 0 → Type 0
Dict K V = List (K × V)

-- `d.values()`
abbrev pub values : {K V : Type 0} → Dict K V → List V
values [] = []
values ((k, v) ∷ d) = v ∷ values d

module _ {K V : Type 0} ⦃e : Eq K⦄ where
  -- `d.get(k)`
  unfoldable pub lookup : K → Dict K V → Option V
  lookup k [] = none
  lookup k ((j, v) ∷ d) = if e.beq j k then some v else lookup k d

  -- `d[k] = v`: a key that is there keeps its place.
  unfoldable pub insert : K → V → Dict K V → Dict K V
  insert k v [] = (k, v) ∷ []
  insert k v ((j, w) ∷ d) = if e.beq j k then (j, v) ∷ d else (j, w) ∷ insert k v d

  pub lookup-insert :
      (k j : K) (v : V) (d : Dict K V)
      → lookup j (insert k v d) ≡ (if e.beq k j then some v else lookup j d)
  unfolding lookup insert
  lookup-insert k j v [] = refl
  lookup-insert k j v ((i, w) ∷ d) =
      ground (arith, e.beq_iff k j, e.beq_iff i k, e.beq_iff i j, lookup-insert k j v d)

  -- No key stands twice.
  abbrev pub Distinct : Dict K V → Type 0
  Distinct [] = Unit
  Distinct ((k, v) ∷ d) = (lookup k d ≡ none) × Distinct d

  pub lookup-insert_self : (k : K) (v : V) (d : Dict K V) → lookup k (insert k v d) ≡ some v
  lookup-insert_self k v d = rw lookup-insert (ground (arith, e.beq_iff k k))

  pub lookup-insert_ne :
      (k j : K) (v : V) (d : Dict K V) → k ≢ j → lookup j (insert k v d) ≡ lookup j d
  lookup-insert_ne k j v d h = rw lookup-insert (ground (arith, e.beq_iff k j))

  pub insert-Distinct : (k : K) (v : V) (d : Dict K V) → Distinct d → Distinct (insert k v d)
  unfolding insert lookup
  insert-Distinct k v [] h = (refl, tt)
  insert-Distinct k v ((j, w) ∷ d) h =
      ground (arith, insert-Distinct k v d h.1, lookup-insert k j v d, e.beq_iff j k, e.beq_iff k j)

  lookup-append :
      (k : K) (a b : Dict K V)
      → lookup k (a ++ b) ≡ elim (lookup k a) [ none ↦ lookup k b | some v ↦ some v ]
  unfolding lookup
  lookup-append k [] b = refl
  lookup-append k ((j, w) ∷ a) b = ground (arith, lookup-append k a b)

  -- A key of the second part is no key of the first.
  pub Distinct-append_left :
      (a : Dict K V) (k : K) (v : V) (b : Dict K V) → Distinct (a ++ (k, v) ∷ b) → lookup k a ≡ none
  unfolding lookup
  Distinct-append_left [] k v b h = refl
  Distinct-append_left ((j, w) ∷ a) k v b h = ground (
    arith,
    e.beq_iff j k,
    e.beq_iff k j,
    Distinct-append_left a k v b h.1,
    lookup-append j a ((k, v) ∷ b),
  )

  -- A write at a key that is there changes that entry alone.
  pub insert-append_middle :
      (a : Dict K V) (k : K) (v w : V) (b : Dict K V)
      → lookup k a ≡ none
      → insert k w (a ++ (k, v) ∷ b) ≡ a ++ (k, w) ∷ b
  unfolding lookup insert
  insert-append_middle [] k v w b h = ground (arith, e.beq_iff k k)
  insert-append_middle ((j, u) ∷ a) k v w b h = ground (arith, insert-append_middle a k v w b)

  pub All-lookup :
      (P : K → V → Type 0) (k : K) {v : V} (d : Dict K V)
      → All (λ (entry : K × V). P entry.0 entry.1) d
      → lookup k d ≡ some v
      → P k v
  unfolding lookup
  All-lookup P k [] h p = cc
  All-lookup P k ((j, w) ∷ d) h p = elim (Bool-cases (e.beq j k)) [
    | inl hit ↦ subst₂ P ((e.beq_iff j k).0 hit) (ground arith) h.0
    | inr miss ↦ All-lookup P k d h.1 (ground arith)
  ]

  pub All-insert :
      (P : K → V → Type 0) (k : K) (v : V) (d : Dict K V)
      → All (λ (entry : K × V). P entry.0 entry.1) d
      → P k v
      → All (λ (entry : K × V). P entry.0 entry.1) (insert k v d)
  unfolding insert
  All-insert P k v [] h p = (p, tt)
  All-insert P k v ((j, w) ∷ d) h p = elim (Bool-cases (e.beq j k)) [
    | inl hit ↦ rw hit (subst (λ i. P i v) (sym ((e.beq_iff j k).0 hit)) p, h.1)
    | inr miss ↦ rw miss (h.0, All-insert P k v d h.1 p)
  ]

  pub Distinct-append_middle :
      (a : Dict K V) (k : K) (v w : V) (b : Dict K V)
      → Distinct (a ++ (k, v) ∷ b)
      → Distinct (a ++ (k, w) ∷ b)
  unfolding lookup
  Distinct-append_middle [] k v w b h = h
  Distinct-append_middle ((j, u) ∷ a) k v w b h = ground (
    arith,
    Distinct-append_middle a k v w b h.1,
    lookup-append j a ((k, v) ∷ b),
    lookup-append j a ((k, w) ∷ b),
  )

  All-older :
      (k : K) (w : V) (d rest : Dict K V)
      → lookup k rest ≡ none
      → All (λ (entry : K × V). lookup entry.0 d ≡ some entry.1) rest
      → All (λ (entry : K × V). lookup entry.0 ((k, w) ∷ d) ≡ some entry.1) rest
  unfolding lookup
  All-older k w d [] n h = tt
  All-older k w d ((j, v) ∷ rest) n h = ground (
    arith,
    e.beq_iff j k,
    e.beq_iff k j,
    All-older k w d rest (ground (arith, e.beq_iff j k)) h.1,
  )

  -- With distinct keys each entry is the one that its key finds.
  pub All-lookup_self :
      (d : Dict K V) → Distinct d → All (λ (entry : K × V). lookup entry.0 d ≡ some entry.1) d
  unfolding lookup
  All-lookup_self [] h = tt
  All-lookup_self ((k, v) ∷ d) h =
      (ground (arith, e.beq_iff k k), All-older k v d d h.0 (All-lookup_self d h.1))
