-- ===== src/Publishing/Planner/Accepted.antt =====
-- Which plans `validate_publish_plan` of src/cadplot_mcp/planner.py accepts.
use cadplot_mcp.Prelude.{
  ◌≡◌, ◌≢◌, ◌≤◌, ◌↔◌, refl, true, false, Option, none, some, List, [], ◌∷◌, String, length, all,
  is_empty, arith, eq_iff,
}
use cadplot_mcp.Prelude.Classes.{string_eq}
use cadplot_mcp.Prelude.Dicts.{Dict, lookup}
use cadplot_mcp.Prelude.Results.{ok}
use cadplot_mcp.Publishing.Value.{
  Value, is_true, is_text, as_dict, as_list, as_text, is_identifier, prefixed,
}
use cadplot_mcp.Publishing.Runtime.{Runtime}
use cadplot_mcp.Publishing.Planner.Validate.{
  is_one, is_natural, is_sha256, is_matched_value, payload_of, check_identity, check_sheets,
  check_fingerprint, validate_publish_plan,
}

module _ (R : Runtime) where
  open R use {Real, hexdigest}

  -- A dry-run plan of schema 1 that is ready, bound to a fingerprint of the right form, with 1 to
  -- 5000 sheets that are all matched, under the identifier of its own payload.
  pub record IsAccepted (plan : Dict String (Value Real)) (fingerprint : Dict String (Value Real))
      (sheets : List (Value Real)) (plan_id : String) : Type 0 where
    pub schema : is_one R (lookup "schema_version" plan) ≡ true
    pub mode : is_text "dry-run" (lookup "mode" plan) ≡ true
    pub ready : is_true (lookup "ready" plan) ≡ true
    pub bound : as_dict (lookup "drawing_fingerprint" plan) ≡ some fingerprint
    pub sha256 : is_sha256 R (lookup "sha256" fingerprint) ≡ true
    pub size : is_natural R (lookup "size_bytes" fingerprint) ≡ true
    pub modified : is_natural R (lookup "modified_ns" fingerprint) ≡ true
    pub listed : as_list (lookup "sheets" plan) ≡ some sheets
    pub some_sheet : 1 ≤ length sheets
    pub bounded : length sheets ≤ 5000
    pub matched : all (is_matched_value R) sheets ≡ true
    pub named : as_text (lookup "plan_id" plan) ≡ some plan_id
    pub formed : is_identifier plan_id ≡ true
    pub own : plan_id ≡ prefixed (hexdigest (payload_of R plan sheets))

  accepted-validates :
      (plan fingerprint : Dict String (Value Real)) (sheets : List (Value Real)) (plan_id : String)
      → IsAccepted plan fingerprint sheets plan_id
      → validate_publish_plan R plan ≡ ok tt
  unfolding validate_publish_plan check_fingerprint check_sheets check_identity
  accepted-validates plan fingerprint [] plan_id a = absurd (omega (arith, a.some_sheet))
  accepted-validates plan fingerprint (sheet ∷ sheets) plan_id a = ground (
    arith,
    a.schema,
    a.mode,
    a.ready,
    a.bound,
    a.sha256,
    a.size,
    a.modified,
    a.listed,
    a.bounded,
    a.matched,
    a.named,
    a.formed,
    eq_iff plan_id (prefixed (hexdigest (payload_of R plan (sheet ∷ sheets)))),
    a.own,
  )

  module _ (plan : Dict String (Value Real)) (valid : validate_publish_plan R plan ≡ ok tt) where
    validates-bound : as_dict (lookup "drawing_fingerprint" plan) ≢ none
    unfolding validate_publish_plan
    validates-bound e = ground arith

    module _ (fingerprint : Dict String (Value Real))
        (bound : as_dict (lookup "drawing_fingerprint" plan) ≡ some fingerprint) where
      validates-sheets :
          (is_one R (lookup "schema_version" plan) ≡ true)
          × (is_text "dry-run" (lookup "mode" plan) ≡ true)
          × (is_true (lookup "ready" plan) ≡ true)
          × (is_sha256 R (lookup "sha256" fingerprint) ≡ true)
          × (is_natural R (lookup "size_bytes" fingerprint) ≡ true)
          × (is_natural R (lookup "modified_ns" fingerprint) ≡ true)
          × (check_sheets R plan ≡ ok tt)
      unfolding validate_publish_plan check_fingerprint
      validates-sheets = ground (arith, bound, valid)

  module _ (plan : Dict String (Value Real)) (valid : check_sheets R plan ≡ ok tt) where
    sheets-listed : as_list (lookup "sheets" plan) ≢ none
    unfolding check_sheets
    sheets-listed e = ground arith

    sheets-checked :
        (sheets : List (Value Real))
        → as_list (lookup "sheets" plan) ≡ some sheets
        → (is_empty sheets ≡ false)
          × (length sheets ≤ 5000)
          × (all (is_matched_value R) sheets ≡ true)
          × (check_identity R plan sheets ≡ ok tt)
    unfolding check_sheets
    sheets-checked sheets listed = ground (arith, valid)

  module _ (plan : Dict String (Value Real)) (sheets : List (Value Real))
      (valid : check_identity R plan sheets ≡ ok tt) where
    identity-named : as_text (lookup "plan_id" plan) ≢ none
    unfolding check_identity
    identity-named e = ground arith

    identity-checked :
        (plan_id : String)
        → as_text (lookup "plan_id" plan) ≡ some plan_id
        → (is_identifier plan_id ≡ true)
          × (plan_id ≡ prefixed (hexdigest (payload_of R plan sheets)))
    unfolding check_identity
    identity-checked plan_id named =
        ground (arith, valid, eq_iff plan_id (prefixed (hexdigest (payload_of R plan sheets))))

  length-pos : (sheets : List (Value Real)) → is_empty sheets ≡ false → 1 ≤ length sheets
  length-pos [] h = absurd cc
  length-pos (sheet ∷ sheets) h = omega arith

  -- A value that is there.
  the {ℓ} : {A : Type ℓ} (o : Option A) → o ≢ none → (a : A) × (o ≡ some a)
  the none h = absurd (h refl)
  the (some a) h = (a, refl)

  validates-IsAccepted :
      (plan : Dict String (Value Real))
      → validate_publish_plan R plan ≡ ok tt
      → (fingerprint : Dict String (Value Real)) × (sheets : List (Value Real)) × (plan_id : String)
        × IsAccepted plan fingerprint sheets plan_id
  validates-IsAccepted plan valid =
      let (fingerprint, bound) =
        the (as_dict (lookup "drawing_fingerprint" plan)) (validates-bound plan valid) in
      let head = validates-sheets plan valid fingerprint bound in
      let (sheets, listed) = the (as_list (lookup "sheets" plan)) (sheets-listed plan head.6) in
      let body = sheets-checked plan head.6 sheets listed in
      let (plan_id, named) =
        the (as_text (lookup "plan_id" plan)) (identity-named plan sheets body.3) in
      let own = identity-checked plan sheets body.3 plan_id named in
      (
        fingerprint,
        sheets,
        plan_id,
        record {
          schema = head.0;
          mode = head.1;
          ready = head.2;
          bound = bound;
          sha256 = head.3;
          size = head.4;
          modified = head.5;
          listed = listed;
          some_sheet = length-pos sheets body.0;
          bounded = body.1;
          matched = body.2;
          named = named;
          formed = own.0;
          own = own.1;
        },
      )

  -- A plan passes the check exactly when it is a dry-run plan of schema 1 that is ready, bound to a
  -- fingerprint of the right form, with 1 to 5000 sheets that are all matched, under the identifier
  -- of its own payload.
  pub validate_publish_plan_iff :
      (plan : Dict String (Value Real))
      → (validate_publish_plan R plan ≡ ok tt) ↔ (
          (fingerprint : Dict String (Value Real)) × (sheets : List (Value Real))
          × (plan_id : String) × IsAccepted plan fingerprint sheets plan_id)
  validate_publish_plan_iff plan =
      (validates-IsAccepted plan, λ found. accepted-validates plan found.0 found.1 found.2 found.3)
