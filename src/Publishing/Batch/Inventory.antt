-- ===== src/Publishing/Batch/Inventory.antt =====
-- The identifier of an inventory, `build_drawing_inventory_id` of src/cadplot_mcp/batch.py: sorting
-- takes rows that differ in their paths to one list, whatever order they come in.
use mathlib.Core.Logic.{∥∥₁_elim}
use mathlib.Core.Bool.{Bool-set}
use mathlib.Core.List.{Perm}
use mathlib.Core.List.Permᴰ.{Permᴰ}
use cadplot_mcp.Prelude.{
  ◌∙◌, sym, ◌≡◌, inl, inr, refl, ap, true, List, [], ◌∷◌, String, arith, map, eq_iff, str_eq, not,
  ◌&&◌, ◌||◌,
}
use cadplot_mcp.Prelude.Classes.{string_eq, contains, is_distinct}
use cadplot_mcp.Publishing.Value.{list, prefixed}
use cadplot_mcp.Publishing.Runtime.{Runtime}
use cadplot_mcp.Publishing.TextOrder.{text_lt, text_lt_total, text_lt_asymmetric, text_lt_trans}
use cadplot_mcp.Publishing.Batch.Page.{
  InventoryRow, sort_row, sort_rows, row_value, build_drawing_inventory_id,
}

module _ (R : Runtime) where
  open R use {Real, casefold}

  abbrev key : InventoryRow Real → String
  key r = casefold r.path

  -- Two rows go in in either order, if the key of the first is below.
  sort_row-below :
      (r q : InventoryRow Real) (done : List (InventoryRow Real))
      → text_lt (key r) (key q) ≡ true
      → sort_row R r (sort_row R q done) ≡ sort_row R q (sort_row R r done)
  unfolding sort_row
  sort_row-below r q [] h = ground (arith, text_lt_asymmetric (key r) (key q))
  sort_row-below r q (x ∷ xs) h = ground (
    arith,
    text_lt_asymmetric (key r) (key q),
    text_lt_trans (key r) (key q) (key x),
    sort_row-below r q xs,
  )

  abbrev keys : List (InventoryRow Real) → List String
  keys rows = map key rows

  contains-keys-swap :
      (a b : InventoryRow Real) (l : List (InventoryRow Real)) (k : String)
      → contains k (keys (a ∷ b ∷ l)) ≡ contains k (keys (b ∷ a ∷ l))
  unfolding contains
  contains-keys-swap a b l k = ground arith

  contains-keys-Permᴰ :
      {rows others : List (InventoryRow Real)} (k : String)
      → Permᴰ rows others
      → contains k (keys rows) ≡ contains k (keys others)
  unfolding contains
  contains-keys-Permᴰ k Permᴰ.nil = refl
  contains-keys-Permᴰ k (Permᴰ.cons e p) = λ i. str_eq k (key (e i)) || contains-keys-Permᴰ k p i
  contains-keys-Permᴰ k (Permᴰ.swap {a = a} {b = b} {l = l} e₁ e₂) =
      contains-keys-swap a b l k ∙ (λ i. contains k (keys (e₂ i ∷ e₁ i ∷ l)))
  contains-keys-Permᴰ k (Permᴰ.trans p₁ p₂) = contains-keys-Permᴰ k p₁ ∙ contains-keys-Permᴰ k p₂

  is_distinct-keys-swap :
      (a b : InventoryRow Real) (l : List (InventoryRow Real))
      → is_distinct (keys (a ∷ b ∷ l)) ≡ is_distinct (keys (b ∷ a ∷ l))
  unfolding is_distinct
  is_distinct-keys-swap a b l = ground (arith, eq_iff (key a) (key b), eq_iff (key b) (key a))

  -- No two rows have the same path, up to case.
  abbrev pub HasDistinctPaths : List (InventoryRow Real) → Type 0
  HasDistinctPaths rows = is_distinct (keys rows) ≡ true

  is_distinct-keys-Permᴰ :
      {rows others : List (InventoryRow Real)}
      → Permᴰ rows others
      → is_distinct (keys rows) ≡ is_distinct (keys others)
  unfolding is_distinct
  is_distinct-keys-Permᴰ Permᴰ.nil = refl
  is_distinct-keys-Permᴰ (Permᴰ.cons {b = b} {l₁ = l} e p) =
      (λ i. not (contains (key (e i)) (keys l)) && is_distinct (keys l))
      ∙ (λ i. not (contains-keys-Permᴰ (key b) p i) && is_distinct-keys-Permᴰ p i)
  is_distinct-keys-Permᴰ (Permᴰ.swap {a = a} {b = b} {l = l} e₁ e₂) =
      is_distinct-keys-swap a b l ∙ (λ i. is_distinct (keys (e₂ i ∷ e₁ i ∷ l)))
  is_distinct-keys-Permᴰ (Permᴰ.trans p₁ p₂) = is_distinct-keys-Permᴰ p₁ ∙ is_distinct-keys-Permᴰ p₂

  sort_row-swap :
      (r q : InventoryRow Real) (done rest : List (InventoryRow Real))
      → HasDistinctPaths (r ∷ q ∷ rest)
      → sort_row R q (sort_row R r done) ≡ sort_row R r (sort_row R q done)
  unfolding is_distinct contains
  sort_row-swap r q done rest single = elim (text_lt_total (key r) (key q)) [
    | inl below ↦ sym (sort_row-below r q done below)
    | inr (inl above) ↦ sort_row-below q r done above
    | inr (inr same) ↦ absurd (ground (arith, (eq_iff (key r) (key q)).1 same))
  ]

  sort_rows-Permᴰ :
      {rows others : List (InventoryRow Real)} (done : List (InventoryRow Real))
      → Permᴰ rows others
      → HasDistinctPaths rows
      → sort_rows R done rows ≡ sort_rows R done others
  unfolding sort_rows is_distinct
  sort_rows-Permᴰ done Permᴰ.nil single = refl
  sort_rows-Permᴰ done (Permᴰ.cons {a = a} {b = b} {l₁ = l} e p) single =
      ap (λ x. sort_rows R (sort_row R x done) l) e
      ∙ sort_rows-Permᴰ (sort_row R b done) p (ground arith)
  sort_rows-Permᴰ done (Permᴰ.swap {a = a} {b = b} {l = l} e₁ e₂) single =
      ap (λ rest. sort_rows R rest l) (sort_row-swap a b done l single)
      ∙ (λ i. sort_rows R (sort_row R (e₁ i) (sort_row R (e₂ i) done)) l)
  sort_rows-Permᴰ done (Permᴰ.trans p₁ p₂) single =
      sort_rows-Permᴰ done p₁ single
      ∙ sort_rows-Permᴰ done p₂ (sym (is_distinct-keys-Permᴰ p₁) ∙ single)

  -- Two inventories that hold the same rows, in whatever order, have one identifier, where no two
  -- rows have the same path, up to case.
  pub build_drawing_inventory_id-perm :
      (rows others : List (InventoryRow Real))
      → Perm rows others
      → HasDistinctPaths rows
      → build_drawing_inventory_id R rows ≡ build_drawing_inventory_id R others
  unfolding build_drawing_inventory_id
  build_drawing_inventory_id-perm rows others p single =
      let same = eq_iff (build_drawing_inventory_id R rows) (build_drawing_inventory_id R others) in
      same.0 (
        ∥∥₁_elim p (Bool-set _ _) λ d. same.1 (
          ap (λ sorted. prefixed (R.hexdigest (list (map (row_value R) sorted))))
            (sort_rows-Permᴰ [] d single)))
