-- ===== src/Publishing/Planner/Templates.antt =====
-- The template of a profile: `_profile_payload` of src/cadplot_mcp/planner.py, and the evidence that
-- `create_publish_plan` asks of a template drawing.
use cadplot_mcp.Prelude.{Bool, true, false, not, Option, none, some, [], ◌∷◌, String}
use cadplot_mcp.Prelude.Classes.{string_eq}
use cadplot_mcp.Prelude.Dicts.{Dict, lookup}
use cadplot_mcp.Prelude.Results.{Result, ok, err, then_do}
use cadplot_mcp.Publishing.Value.{Value, null, text, dict, is_none, is_text}
use cadplot_mcp.Publishing.Runtime.{Runtime, Exception}
use cadplot_mcp.Publishing.Inspection.{DrawingInspection, PaperProfile}
use cadplot_mcp.Publishing.Paper.{PaperSize}

-- The template drawings: for a profile, the inspection of its template and its fingerprint.
abbrev pub Evidence : Type 0 → Type 0
Evidence Real = Dict String (DrawingInspection Real × Dict String (Value Real))

module _ (R : Runtime) (parse_paper_size : String → Option (PaperSize R.Real)) where
  open R use {Real, lt, casefold, repr, format_3}

  abbrev text_or_null : Option String → Value Real
  text_or_null none = null
  text_or_null (some s) = text s

  -- `mapping[key]`
  unfoldable pub item_at : String → Dict String (Value Real) → Result Exception (Value Real)
  unfolding lookup
  item_at k d = elim (lookup k d) [
    | none ↦ err (record { name = "KeyError"; message = k; is_value_error = false })
    | some v ↦ ok v
  ]

  abbrev pub External : Type 0
  External = Option (DrawingInspection Real × Dict String (Value Real))

  unfoldable pub template_asset : PaperProfile Real → External → Result Exception (Value Real)
  unfolding item_at
  template_asset profile external = elim profile.template_drawing [
    | none ↦ ok null
    | some source ↦ elim external [
      | none ↦ ok null
      | some evidence ↦ then_do (item_at "sha256" evidence.1) λ sha256.
          then_do (item_at "size_bytes" evidence.1) λ size_bytes.
            then_do (item_at "modified_ns" evidence.1) λ modified_ns. ok (
              dict (
                ("id", text profile.id)
                ∷ ("source", text source)
                ∷ ("sha256", sha256)
                ∷ ("size_bytes", size_bytes)
                ∷ ("modified_ns", modified_ns)
                ∷ ("layout", text_or_null profile.template_layout)
                ∷ ("page_setup", text profile.page_setup)
                ∷ []))
    ]
  ]

  unfoldable pub profile_payload : PaperProfile Real → External → Result Exception (Value Real)
  unfolding template_asset
  profile_payload profile external = then_do (template_asset profile external) λ asset. ok (
      dict (
        ("id", text profile.id)
        ∷ ("page_setup", text profile.page_setup)
        ∷ ("plotter", text profile.plotter)
        ∷ ("plot_style", text profile.plot_style)
        ∷ ("canonical_media", text_or_null profile.canonical_media)
        ∷ ("template_layout", text_or_null profile.template_layout)
        ∷ ("template_asset", asset)
        ∷ []))

  -- `external_template[1].get("sha256") == profile.template_sha256`
  unfoldable pub has_sha256 : Dict String (Value Real) → Option String → Bool
  unfolding is_none is_text lookup
  has_sha256 fingerprint none = is_none (lookup "sha256" fingerprint)
  has_sha256 fingerprint (some wanted) = is_text wanted (lookup "sha256" fingerprint)

  -- The template's evidence that a profile asks for.
  unfoldable pub external_template : Evidence Real → PaperProfile Real → External
  unfolding lookup
  external_template evidence profile = elim profile.template_drawing [
    | none ↦ none
    | some source ↦ lookup profile.id evidence
  ]

  unfoldable pub is_asset_mismatch : PaperProfile Real → External → Bool
  unfolding has_sha256
  is_asset_mismatch profile external = elim profile.template_drawing [
    | none ↦ false
    | some source ↦ elim external [
      | none ↦ true
      | some evidence ↦ not (has_sha256 evidence.1 profile.template_sha256)
    ]
  ]
