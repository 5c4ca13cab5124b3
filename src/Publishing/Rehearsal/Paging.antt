-- ===== src/Publishing/Rehearsal/Paging.antt =====
-- `_plan_all` of src/cadplot_mcp/batch_demo.py: the loop that follows `next_offset` through the
-- pages of a batch.
use cadplot_mcp.Prelude.{
  ◌≡◌, eq_iff, arith, ℕ, zero, suc, true, false, not, Option, none, some, List, [], ◌∷◌, ◌++◌, map,
  String, str_eq, any,
}
use cadplot_mcp.Prelude.Classes.{string_eq, is_distinct}
use cadplot_mcp.Prelude.Dicts.{Dict}
use cadplot_mcp.Prelude.Results.{ok, Exec, pure, raise, raise_if, ◌>>=◌, ◌>>◌}
use cadplot_mcp.Publishing.Value.{ℤ, pos, Value}
use cadplot_mcp.Publishing.Runtime.{Runtime, Exception, runtime_error}
use cadplot_mcp.Publishing.Batch.Page.{BatchItem, BatchPage, item_status, build_batch_page}

abbrev pub none_compared : Exception
none_compared = record {
  name = "TypeError";
  message = "'<' not supported between instances of 'NoneType' and 'int'";
  is_value_error = false;
}

module _ (R : Runtime) {S : Type 0}
    (plan_builder : String → Exec Exception S (Dict String (Value R.Real)))
    (drawing_paths : List String) (inventory_id : String) (batch_size : ℕ) where
  open R use {Real}

  -- The two lists that the loop fills.
  abbrev pub Pages : Type 0
  Pages = List (BatchPage Real) × List (BatchItem Real)

  -- The body of the loop once it has its page; `continue` is the loop from the next offset.
  unfoldable pub after_page :
      (ℕ → List (BatchPage Real) → List (BatchItem Real) → Exec Exception S (Option Pages))
      → List (BatchPage Real)
      → List (BatchItem Real)
      → BatchPage Real
      → Exec Exception S (Option Pages)
  after_page continue pages items page = do
    raise_if (not (str_eq page.inventory_id inventory_id))
        (runtime_error "Synthetic planning inventory identity changed between pages.")
    elim page.has_more [
      | false ↦ pure (some (pages ++ page ∷ [], items ++ page.items))
      | true ↦ elim page.next_offset [
        | none ↦ raise none_compared
        | some next ↦ continue next (pages ++ page ∷ []) (items ++ page.items)
      ]
    ]

  -- The `while True` loop; `none` means that the fuel ran out.
  unfoldable pub read_pages :
      ℕ
      → ℤ
      → Option String
      → List (BatchPage Real)
      → List (BatchItem Real)
      → Exec Exception S (Option Pages)
  read_pages zero offset expected pages items = pure none
  read_pages (suc fuel) offset expected pages items =
      build_batch_page R plan_builder drawing_paths offset (pos batch_size) (some inventory_id)
        expected
      >>= λ page.
          after_page (λ next. read_pages fuel (pos next) (some inventory_id)) pages items page

  pub after_page-last :
      (continue : ℕ
        → List (BatchPage Real)
        → List (BatchItem Real)
        → Exec Exception S (Option Pages))
      (p : BatchPage Real) (t : S) (pages : List (BatchPage Real)) (items : List (BatchItem Real))
      → p.inventory_id ≡ inventory_id
      → p.has_more ≡ false
      → after_page continue pages items p t ≡ (ok (some (pages ++ p ∷ [], items ++ p.items)), t)
  unfolding after_page
  after_page-last continue p t pages items same last =
      ground (arith, eq_iff p.inventory_id inventory_id)

  pub after_page-more :
      (continue : ℕ
        → List (BatchPage Real)
        → List (BatchItem Real)
        → Exec Exception S (Option Pages))
      (p : BatchPage Real) (next : ℕ) (t : S) (pages : List (BatchPage Real))
      (items : List (BatchItem Real))
      → p.inventory_id ≡ inventory_id
      → p.has_more ≡ true
      → p.next_offset ≡ some next
      → after_page continue pages items p t ≡ continue next (pages ++ p ∷ []) (items ++ p.items) t
  unfolding after_page
  after_page-more continue p next t pages items same more there =
      ground (arith, eq_iff p.inventory_id inventory_id)

  -- The checks behind the loop.
  unfoldable pub check_pages : Option Pages → Exec Exception S (Option Pages)
  unfolding item_status is_distinct any
  check_pages none = pure none
  check_pages (some (pages, items)) = do
    raise_if (not (is_distinct (map (λ (p : BatchPage Real). p.batch_page_id) pages)))
        (runtime_error "Synthetic planning repeated a batch page identity.")
    raise_if (any (λ i. not (str_eq (item_status R i) "ready")) items)
        (runtime_error "Synthetic planning unexpectedly produced a blocker or error.")
    pure (some (pages, items))

  unfoldable pub plan_all : ℕ → Exec Exception S (Option Pages)
  unfolding read_pages check_pages
  plan_all fuel = do read ← read_pages fuel (pos 0) none [] []; check_pages read
