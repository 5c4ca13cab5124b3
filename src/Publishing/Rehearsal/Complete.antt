-- ===== src/Publishing/Rehearsal/Complete.antt =====
-- The loop of `_plan_all` (src/cadplot_mcp/batch_demo.py) against one run over all the drawings.
use mathlib.Core.List.{append-nil, append_assoc}
use cadplot_mcp.Prelude.{
  ℕ, zero, suc, ◌+◌, ◌-◌, min, ◌≡◌, ◌⊎◌, inl, inr, refl, sym, ap, ◌∙◌, ◌≤◌, ◌<◌, true, false,
  Option, none, some, List, [], ◌∷◌, ◌++◌, String, length, take, drop, take-append-drop, Bool-cases,
  arith, ltb,
}
use cadplot_mcp.Prelude.Dicts.{Dict}
use cadplot_mcp.Prelude.Results.{ok, Exec, bind-step}
use cadplot_mcp.Publishing.Value.{pos, Value, is_identifier}
use cadplot_mcp.Publishing.Runtime.{Runtime, Exception}
use cadplot_mcp.Publishing.Batch.Page.{BatchItem, BatchPage, plan_items, page_of, build_batch_page}
use cadplot_mcp.Publishing.Batch.Items.{
  plan_items-append, build_batch_page-ok, drop-more, drop-last,
}
use cadplot_mcp.Publishing.Rehearsal.Paging.{
  after_page, after_page-last, after_page-more, read_pages, check_pages, plan_all,
}

-- The items of the pages, in order.
abbrev pub items_of : {Real : Type 0} → List (BatchPage Real) → List (BatchItem Real)
items_of [] = []
items_of (p ∷ ps) = p.items ++ items_of ps

module _ (R : Runtime) {S : Type 0}
    (plan_builder : String → Exec Exception S (Dict String (Value R.Real))) (paths : List String)
    (inventory_id : String) (k : ℕ) (low : 1 ≤ k) (high : k ≤ 50)
    (valid : is_identifier inventory_id ≡ true) where
  open R use {Real}

  abbrev run : List String → S → List (BatchItem Real) × S
  run = plan_items R plan_builder

  -- The loop from `n` on reads what one run over the remaining drawings gives.
  abbrev Reads : ℕ → ℕ → Option String → S → Type 0
  Reads fuel n expected s =
      (pages : List (BatchPage Real)) (items : List (BatchItem Real))
      → (new : List (BatchPage Real)) × (read_pages R plan_builder paths inventory_id k fuel (pos n)
            expected pages items s
          ≡ (ok (some (pages ++ new, items ++ (run (drop n paths) s).0)), (run (drop n paths) s).1))
        × (items_of new ≡ (run (drop n paths) s).0)

  abbrev page : String → ℕ → S → BatchPage Real
  page id n s =
      record (page_of R plan_builder inventory_id n k (length paths)
        (run (take k (drop n paths)) s).0) { batch_page_id = id }

  abbrev Continue : Type 0
  Continue =
      ℕ
      → List (BatchPage Real)
      → List (BatchItem Real)
      → Exec Exception S (Option (List (BatchPage Real) × List (BatchItem Real)))

  page-last :
      (id : String) (n : ℕ) (s : S)
      → ltb (n + min k (length paths - n)) (length paths) ≡ false
      → (page id n s).has_more ≡ false
  unfolding page_of
  page-last id n s last = last

  page-more :
      (id : String) (n : ℕ) (s : S)
      → ltb (n + min k (length paths - n)) (length paths) ≡ true
      → ((page id n s).has_more ≡ true)
        × ((page id n s).next_offset ≡ some (n + min k (length paths - n)))
  unfolding page_of
  page-more id n s more = (more, rw more refl)

  abbrev continue : ℕ → Continue
  continue fuel next =
      read_pages R plan_builder paths inventory_id k fuel (pos next) (some inventory_id)

  -- One round of the loop: its page, and then what the page asks for.
  read_pages-step :
      (fuel n : ℕ) (expected : Option String) (s : S) (pages : List (BatchPage Real))
      (items : List (BatchItem Real))
      → (expected ≡ some inventory_id) ⊎ ((n ≡ 0) × (expected ≡ none))
      → (id : String) × (read_pages R plan_builder paths inventory_id k
            (suc fuel)
            (pos n)
            expected
            pages
            items
            s
          ≡ after_page R plan_builder paths inventory_id k
              (continue fuel)
              pages
              items
              (page id n s)
              (run (take k (drop n paths)) s).1)
  unfolding read_pages
  read_pages-step fuel n expected s pages items known =
      let (id, step) =
        build_batch_page-ok R plan_builder paths n k inventory_id expected s low high valid known in
      (
        id,
        bind-step
            (build_batch_page R plan_builder paths (pos n) (pos k) (some inventory_id) expected)
            (after_page R plan_builder paths inventory_id k (continue fuel) pages items) s
            (page id n s) (run (take k (drop n paths)) s).1 step,
      )

  read_last :
      (fuel n : ℕ) (expected : Option String) (s : S)
      → (expected ≡ some inventory_id) ⊎ ((n ≡ 0) × (expected ≡ none))
      → n ≤ length paths
      → ltb (n + min k (length paths - n)) (length paths) ≡ false
      → Reads (suc fuel) n expected s
  unfolding page_of
  read_last fuel n expected s known inside last pages items =
      let (id, round) = read_pages-step fuel n expected s pages items known in
      let whole : take k (drop n paths) ≡ drop n paths =
        drop-last k paths n (ground arith) inside in
      (
        page id n s ∷ [],
        round
            ∙ after_page-last R plan_builder paths inventory_id k (continue fuel) (page id n s) _
                pages items refl (page-last id n s last)
            ∙ ap
                (λ ds. (ok (some (pages ++ page id n s ∷ [], items ++ (run ds s).0)), (run ds s).1))
                whole,
        append-nil _ ∙ ap (λ ds. (run ds s).0) whole,
      )

  -- The drawings from `n` on: those of the page, and those from the next offset on.
  run-joined :
      (n : ℕ) (s : S)
      → n + min k (length paths - n) < length paths
      → (let t = (run (take k (drop n paths)) s).1 in
          let later = run (drop (n + min k (length paths - n)) paths) t in
          ((run (take k (drop n paths)) s).0 ++ later.0 ≡ (run (drop n paths) s).0)
          × (later.1 ≡ (run (drop n paths) s).1))
  run-joined n s h =
      let cut : take k (drop n paths) ++ drop (n + min k (length paths - n)) paths ≡ drop n paths =
        ap (λ r. take k (drop n paths) ++ r) (sym (drop-more k paths n h))
        ∙ take-append-drop k (drop n paths) in
      let parts =
        plan_items-append R plan_builder (take k (drop n paths))
          (drop (n + min k (length paths - n)) paths) s in
      (sym parts.0 ∙ ap (λ ds. (run ds s).0) cut, sym parts.1 ∙ ap (λ ds. (run ds s).1) cut)

  read_more :
      (fuel n : ℕ) (expected : Option String) (s : S)
      → (expected ≡ some inventory_id) ⊎ ((n ≡ 0) × (expected ≡ none))
      → ltb (n + min k (length paths - n)) (length paths) ≡ true
      → Reads fuel
          (n + min k (length paths - n))
          (some inventory_id)
          (run (take k (drop n paths)) s).1
      → Reads (suc fuel) n expected s
  unfolding page_of
  read_more fuel n expected s known more later pages items =
      let (id, round) = read_pages-step fuel n expected s pages items known in
      let next = n + min k (length paths - n) in
      let (new, rest, covered) =
        later (pages ++ page id n s ∷ []) (items ++ (run (take k (drop n paths)) s).0) in
      let joined = run-joined n s (ground arith) in
      let facts = page-more id n s more in
      (
        page id n s ∷ new,
        round
            ∙ after_page-more R plan_builder paths inventory_id k (continue fuel) (page id n s) next
                _ pages items refl facts.0 facts.1
            ∙ rest
            ∙ simp (append_assoc, joined.0, joined.1),
        ap (λ r. (run (take k (drop n paths)) s).0 ++ r) covered ∙ joined.0,
      )

  read_pages-Reads :
      (fuel n : ℕ) (expected : Option String) (s : S)
      → (expected ≡ some inventory_id) ⊎ ((n ≡ 0) × (expected ≡ none))
      → n ≤ length paths
      → length paths < n + fuel
      → Reads fuel n expected s
  read_pages-Reads zero n expected s known inside enough = absurd (omega arith)
  read_pages-Reads (suc fuel) n expected s known inside enough =
      elim (Bool-cases (ltb (n + min k (length paths - n)) (length paths))) [
        | inr last ↦ read_last fuel n expected s known inside last
        | inl more ↦ read_more fuel n expected s known more (
            read_pages-Reads fuel (n + min k (length paths - n)) (some inventory_id)
              (run (take k (drop n paths)) s).1 (inl refl) (ground arith) (ground arith))
      ]

  -- For a page size from 1 to 50 and an inventory identifier of the right form, `_plan_all` ends:
  -- fuel for one round more than there are drawings is enough, whatever the planner does. It has
  -- then planned every drawing once, in order, with the state carried from one to the next, its
  -- pages hold the items of that one run, and only the two checks behind the loop are left.
  pub plan_all-covers :
      (fuel : ℕ) (s : S)
      → length paths < fuel
      → (pages : List (BatchPage Real)) × (plan_all R plan_builder paths inventory_id k fuel s
          ≡ check_pages R plan_builder paths inventory_id k
              (some (pages, (plan_items R plan_builder paths s).0))
              (plan_items R plan_builder paths s).1)
        × (items_of pages ≡ (plan_items R plan_builder paths s).0)
  unfolding plan_all
  plan_all-covers fuel s enough =
      let (pages, read, covered) =
        read_pages-Reads fuel 0 none s (inr (refl, refl)) (omega arith) (omega arith) [] [] in
      (
        pages,
        bind-step (read_pages R plan_builder paths inventory_id k fuel (pos 0) none [] [])
            (check_pages R plan_builder paths inventory_id k) s
            (some (pages, (plan_items R plan_builder paths s).0))
            (plan_items R plan_builder paths s).1 read,
        covered,
      )
