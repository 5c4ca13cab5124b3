-- ===== src/Publishing/Batch/Items.antt =====
-- What a page of src/cadplot_mcp/batch.py holds: the items of a run over the drawings, cut in parts.
use mathlib.Core.List.{append-nil}
use cadplot_mcp.Prelude.{
  ◌∙◌, sym, ◌+◌, ◌-◌, min, ◌<◌, drop-drop, drop-eq_nil, take-append-drop, ℕ, ◌≡◌, ◌⊎◌, inl, inr,
  refl, ap, subst, ◌≤◌, ◌&&◌, is_some, true, false, not, Option, none, some, List, [], ◌∷◌, ◌++◌,
  String, str_eq, eq_iff, length, take, drop, Bool-cases, arith, ltb,
}
use cadplot_mcp.Prelude.Dicts.{Dict}
use cadplot_mcp.Prelude.Results.{ok, Exec}
use cadplot_mcp.Publishing.Value.{pos, Value, is_identifier, prefixed}
use cadplot_mcp.Publishing.Runtime.{Runtime, Exception}
use cadplot_mcp.Publishing.Batch.Page.{
  page_value, plan_item, plan_items, page_of, build_batch_page, is_given, given,
  current_inventory_id, differs,
}

pub is_identifier-is_given : (s : String) → is_identifier s ≡ true → is_given (some s) ≡ true
unfolding is_given is_identifier
is_identifier-is_given s h = elim (Bool-cases (str_eq s "")) [
  | inl same ↦ absurd (
      let k : is_identifier "" ≡ true =
        subst (λ t. is_identifier t ≡ true) ((eq_iff s "").0 same) h in
      cc)
  | inr other ↦ ap not other
]

differs_known :
    (inventory_id : String) (expected : Option String) (n : ℕ)
    → (expected ≡ some inventory_id) ⊎ ((n ≡ 0) × (expected ≡ none))
    → (differs inventory_id expected ≡ false) × ((ltb 0 n && not (is_some expected)) ≡ false)
unfolding differs
differs_known inventory_id none n h = ground arith
differs_known inventory_id (some e) n h = ground (arith, eq_iff e inventory_id)

module _ {ℓ} {A : Type ℓ} (k : ℕ) (xs : List A) where
  -- The rest behind a page that is not the last.
  pub drop-more :
      (n : ℕ)
      → n + min k (length xs - n) < length xs
      → drop k (drop n xs) ≡ drop (n + min k (length xs - n)) xs
  drop-more n h =
      drop-drop n k xs
      ∙ (let e : n + k ≡ n + min k (length xs - n) = ground arith in ap (λ j. drop j xs) e)

  pub drop-last :
      (n : ℕ)
      → length xs ≤ n + min k (length xs - n)
      → n ≤ length xs
      → take k (drop n xs) ≡ drop n xs
  drop-last n h inside =
      let nothing : drop k (drop n xs) ≡ [] =
        drop-drop n k xs ∙ drop-eq_nil (n + k) xs (ground arith) in
      sym (append-nil _)
      ∙ ap (λ r. take k (drop n xs) ++ r) (sym nothing)
      ∙ take-append-drop k (drop n xs)

module _ (R : Runtime) {S : Type 0}
    (plan_builder : String → Exec Exception S (Dict String (Value R.Real))) where
  -- Running over two parts is running over the first and then, from where that ended, the second.
  pub plan_items-append :
      (xs ys : List String) (s : S)
      → ((plan_items R plan_builder (xs ++ ys) s).0
          ≡ (plan_items R plan_builder xs s).0
            ++ (plan_items R plan_builder ys (plan_items R plan_builder xs s).1).0)
        × ((plan_items R plan_builder (xs ++ ys) s).1
            ≡ (plan_items R plan_builder ys (plan_items R plan_builder xs s).1).1)
  unfolding plan_items
  plan_items-append [] ys s = (refl, refl)
  plan_items-append (x ∷ xs) ys s =
      let rest = plan_items-append xs ys (plan_item R plan_builder x s).1 in
      (ap (λ r. (plan_item R plan_builder x s).0 ∷ r) rest.0, rest.1)

  current-inventory :
      (inventory_id : String) (paths : List String)
      → is_identifier inventory_id ≡ true
      → current_inventory_id R plan_builder paths (some inventory_id) ≡ inventory_id
  unfolding current_inventory_id given
  current-inventory inventory_id paths h = rw (is_identifier-is_given inventory_id h) refl

  -- A page that passes the checks.
  pub build_batch_page-ok :
      (paths : List String) (n k : ℕ) (inventory_id : String) (expected : Option String) (s : S)
      → 1 ≤ k
      → k ≤ 50
      → is_identifier inventory_id ≡ true
      → (expected ≡ some inventory_id) ⊎ ((n ≡ 0) × (expected ≡ none))
      → (id : String) × (build_batch_page R plan_builder paths
            (pos n)
            (pos k)
            (some inventory_id)
            expected
            s
          ≡ (
            ok
                (record (page_of R plan_builder inventory_id n k
                  (length paths)
                  (plan_items R plan_builder (take k (drop n paths)) s).0) { batch_page_id = id }),
            (plan_items R plan_builder (take k (drop n paths)) s).1,
          ))
  unfolding build_batch_page
  build_batch_page-ok paths n k inventory_id expected s low high valid known = (
    prefixed (
        R.hexdigest (
          page_value R (
            page_of R plan_builder inventory_id n k (length paths)
              (plan_items R plan_builder (take k (drop n paths)) s).0))),
    ground (
      arith,
      current-inventory inventory_id paths valid,
      valid,
      differs_known inventory_id expected n known,
    ),
  )
