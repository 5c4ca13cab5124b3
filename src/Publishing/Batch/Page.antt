-- ===== src/Publishing/Batch/Page.antt =====
-- One page of batch planning: `build_drawing_inventory_id` and `build_batch_page` of
-- src/cadplot_mcp/batch.py.
use cadplot_mcp.Prelude.{
  ℕ, suc, ◌+◌, ◌-◌, min, Bool, true, false, ◌&&◌, ◌||◌, not, Option, none, some, List, [], ◌∷◌, map,
  String, ltb, str_eq, if◌then◌else◌, length, take, drop, is_some,
}
use cadplot_mcp.Prelude.Dicts.{Dict, lookup}
use cadplot_mcp.Prelude.Classes.{string_eq}
use cadplot_mcp.Prelude.Results.{ok, err, Exec, pure, raise_if, ◌>>=◌, ◌>>◌}
use cadplot_mcp.Publishing.Value.{
  ℤ, pos, negsuc, Value, null, boolean, int, text, list, dict, is_true, is_identifier, prefixed,
}
use cadplot_mcp.Publishing.TextOrder.{text_lt}
use cadplot_mcp.Publishing.Runtime.{Runtime, Exception, value_error}

-- What a drawing of the batch came to: a plan with its status, or the error of planning it.
pub data BatchItem (Real : Type 0) : Type 0 where
  planned : String → String → Dict String (Value Real) → BatchItem Real
  failed : String → String → BatchItem Real

pub record BatchPage (Real : Type 0) : Type 0 where
  pub batch_page_id : String
  pub inventory_id : String
  pub offset : ℕ
  pub limit : ℕ
  pub total_drawings : ℕ
  pub processed : ℕ
  pub next_offset : Option ℕ
  pub has_more : Bool
  pub ready : ℕ
  pub blocked : ℕ
  pub errors : ℕ
  pub items : List (BatchItem Real)

-- `sum(test(item) for item in items)`
unfoldable pub count_where {ℓ} : {A : Type ℓ} → (A → Bool) → List A → ℕ
count_where p [] = 0
count_where p (x ∷ xs) = if p x then suc (count_where p xs) else count_where p xs

-- The nonnegative part of an int.
abbrev pub nat_of : ℤ → ℕ
nat_of (pos n) = n
nat_of (negsuc n) = 0

abbrev pub is_negative : ℤ → Bool
is_negative (pos n) = false
is_negative (negsuc n) = true

-- One row of the discovered inventory.
pub record InventoryRow (Real : Type 0) : Type 0 where
  pub path : String
  pub size_bytes : Value Real
  pub modified_utc : Value Real

module _ (R : Runtime) where
  open R use {Real, hexdigest, casefold}

  unfoldable pub item_status : BatchItem Real → String
  item_status (planned drawing status plan) = status
  item_status (failed drawing message) = "error"

  unfoldable pub item_value : BatchItem Real → Value Real
  item_value (planned drawing status plan) =
      dict (("drawing", text drawing) ∷ ("status", text status) ∷ ("plan", dict plan) ∷ [])
  item_value (failed drawing message) =
      dict (("drawing", text drawing) ∷ ("status", text "error") ∷ ("error", text message) ∷ [])

  -- `key=lambda item: item["path"].casefold()`: a row goes behind those whose key is not above.
  unfoldable pub sort_row : InventoryRow Real → List (InventoryRow Real) → List (InventoryRow Real)
  unfolding text_lt
  sort_row r [] = r ∷ []
  sort_row r (q ∷ qs) =
      if text_lt (casefold r.path) (casefold q.path) then r ∷ q ∷ qs else q ∷ sort_row r qs

  unfoldable pub sort_rows :
      List (InventoryRow Real) → List (InventoryRow Real) → List (InventoryRow Real)
  unfolding sort_row
  sort_rows done [] = done
  sort_rows done (r ∷ rs) = sort_rows (sort_row r done) rs

  unfoldable pub row_value : InventoryRow Real → Value Real
  row_value r =
      dict (
        ("path", text r.path)
        ∷ ("size_bytes", r.size_bytes)
        ∷ ("modified_utc", r.modified_utc)
        ∷ [])

  unfoldable pub build_drawing_inventory_id : List (InventoryRow Real) → String
  unfolding sort_rows row_value prefixed
  build_drawing_inventory_id rows = prefixed (hexdigest (list (map row_value (sort_rows [] rows))))

  unfoldable pub bare_row : String → InventoryRow Real
  bare_row path = record { path = path; size_bytes = null; modified_utc = null }

  -- `payload`, before it is hashed
  unfoldable pub page_value : BatchPage Real → Value Real
  unfolding item_value
  page_value p = dict (
      ("schema_version", int (pos 1))
      ∷ ("inventory_id", text p.inventory_id)
      ∷ ("offset", int (pos p.offset))
      ∷ ("limit", int (pos p.limit))
      ∷ ("total_drawings", int (pos p.total_drawings))
      ∷ ("processed", int (pos p.processed))
      ∷ ("next_offset", elim p.next_offset [ none ↦ null | some n ↦ int (pos n) ])
      ∷ ("has_more", boolean p.has_more)
      ∷ (
        "summary",
        dict (
            ("ready", int (pos p.ready))
            ∷ ("blocked", int (pos p.blocked))
            ∷ ("errors", int (pos p.errors))
            ∷ []),
      )
      ∷ ("items", list (map item_value p.items))
      ∷ [])

-- `inventory_id or ...`: neither None nor the empty text counts as given.
unfoldable pub given : Option String → String
given none = ""
given (some s) = s

unfoldable pub is_given : Option String → Bool
unfolding given
is_given o = not (str_eq (given o) "")

-- `expected is not None and expected != current`
unfoldable pub differs : String → Option String → Bool
differs current none = false
differs current (some expected) = not (str_eq expected current)

module _ (R : Runtime) {S : Type 0}
    (plan_builder : String → Exec Exception S (Dict String (Value R.Real))) where
  open R use {Real, hexdigest}

  -- The body of the loop: an exception becomes the drawing's item.
  unfoldable pub plan_item : String → S → BatchItem Real × S
  unfolding is_true lookup
  plan_item path s =
      let (r, t) = plan_builder path s in
      (
        elim r [
          | ok plan ↦
              planned path (if is_true (lookup "ready" plan) then "ready" else "blocked") plan
          | err e ↦ failed path e.message
        ],
        t,
      )

  unfoldable pub plan_items : List String → S → List (BatchItem Real) × S
  unfolding plan_item
  plan_items [] s = ([], s)
  plan_items (path ∷ paths) s =
      let (item, t) = plan_item path s in let (rest, u) = plan_items paths t in (item ∷ rest, u)

  unfoldable pub current_inventory_id : List String → Option String → String
  unfolding build_drawing_inventory_id bare_row is_given
  current_inventory_id drawing_paths inventory_id =
      if is_given inventory_id
      then given inventory_id
      else build_drawing_inventory_id R (map (bare_row R) drawing_paths)

  -- The loop itself never raises.
  abbrev build_items : List String → Exec Exception S (List (BatchItem Real))
  unfolding plan_items
  build_items paths s = let (items, t) = plan_items paths s in (ok items, t)

  -- The page that the drawings from `offset` on make, once their items are there.
  unfoldable pub page_of : String → ℕ → ℕ → ℕ → List (BatchItem Real) → BatchPage Real
  unfolding count_where item_status
  page_of inventory_id offset limit total items =
      let ready = count_where (λ i. str_eq (item_status R i) "ready") items in
      let blocked = count_where (λ i. str_eq (item_status R i) "blocked") items in
      let next_offset = offset + min limit (total - offset) in
      record {
        batch_page_id = "";
        inventory_id = inventory_id;
        offset = offset;
        limit = limit;
        total_drawings = total;
        processed = length items;
        next_offset = if ltb next_offset total then some next_offset else none;
        has_more = ltb next_offset total;
        ready = ready;
        blocked = blocked;
        errors = length items - ready - blocked;
        items = items;
      }

  unfoldable pub build_batch_page :
      List String → ℤ → ℤ → Option String → Option String → Exec Exception S (BatchPage Real)
  unfolding current_inventory_id differs is_identifier plan_items page_of page_value prefixed
  build_batch_page drawing_paths offset limit inventory_id expected = do
    raise_if (is_negative offset) (value_error "offset must be zero or greater.")
    raise_if (is_negative limit || ltb (nat_of limit) 1 || ltb 50 (nat_of limit))
        (value_error "limit must be between 1 and 50.")
    let current = current_inventory_id drawing_paths inventory_id
    raise_if (not (is_identifier current))
        (value_error "inventory_id must be a SHA-256 identifier.")
    raise_if (ltb 0 (nat_of offset) && not (is_some expected))
        (value_error "expected_inventory_id is required after the first batch page.")
    raise_if (differs current expected)
        (value_error "Drawing inventory changed; restart batch planning at offset 0.")
    items ← build_items (take (nat_of limit) (drop (nat_of offset) drawing_paths))
    let page = page_of current (nat_of offset) (nat_of limit) (length drawing_paths) items
    pure (record page { batch_page_id = prefixed (hexdigest (page_value R page)) })
