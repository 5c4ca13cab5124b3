-- ===== src/Publishing/Planner/Sheets.antt =====
-- The sheet of a frame: `_profile_payload` and the loop's body in `create_publish_plan` of
-- src/cadplot_mcp/planner.py.
use Prim.Native.String.{◌++◌ as append}
use cadplot_mcp.Prelude.{
  ℕ, ◌&&◌, Bool, not, Option, none, some, [], ◌∷◌, map, String, is_empty, if◌then◌else◌,
}
use cadplot_mcp.Prelude.Classes.{string_eq, contains}
use cadplot_mcp.Prelude.Dicts.{Dict}
use cadplot_mcp.Prelude.Results.{Result, ok, then_do}
use cadplot_mcp.Publishing.Value.{Value, null, text}
use cadplot_mcp.Publishing.Runtime.{Runtime, Exception}
use cadplot_mcp.Publishing.Inspection.{
  LayoutSummary, FrameCandidate, DrawingInspection, PaperProfile, CadPlotConfig,
}
use cadplot_mcp.Publishing.Paper.{PaperSize, match_paper_profile}
use cadplot_mcp.Publishing.Planner.Templates.{
  Evidence, External, profile_payload, external_template, is_asset_mismatch,
}
use cadplot_mcp.Publishing.Planner.Names.{target_layout_name}
use cadplot_mcp.Publishing.Planner.Geometry.{derive_plot_geometry}
use cadplot_mcp.Publishing.Planner.Checks.{page_setup_error, template_layout_error}
use cadplot_mcp.Publishing.Batch.Texts.{or_text}

-- A sheet, and the warning that comes with it.
abbrev pub Sheet : Type 0 → Type 0
Sheet Real = Dict String (Value Real) × Option String

module _ (R : Runtime) (parse_paper_size : String → Option (PaperSize R.Real)) where
  open R use {Real, lt, casefold, repr, format_3}

  -- `Frame {frame.handle or '<no handle>'}...`
  abbrev about : FrameCandidate Real → String → String
  about frame rest = append "Frame " (append (or_text frame.handle "<no handle>") rest)

  -- What the checks of a frame say: a status, the plot geometry and a warning.
  pub record Verdict : Type 0 where
    pub status : String
    pub geometry : Value Real
    pub warning : Option String

  abbrev blocked : String → Value Real → String → Verdict
  blocked status geometry warning = record {
    status = status;
    geometry = geometry;
    warning = some warning;
  }

  unfoldable pub is_disallowed_layer : FrameCandidate Real → CadPlotConfig Real → Bool
  unfolding contains
  is_disallowed_layer frame config =
      not (is_empty config.frame_layers)
      && not (contains (casefold frame.layer) (map casefold config.frame_layers))

  unfoldable pub layout_exists : DrawingInspection Real → String → Bool
  unfolding contains
  layout_exists inspection target =
      contains (casefold target) (map (λ (l : LayoutSummary). casefold l.name) inspection.layouts)

  -- `resource_inspection`
  abbrev pub resources :
      DrawingInspection Real → External R parse_paper_size → DrawingInspection Real
  resources inspection none = inspection
  resources inspection (some evidence) = evidence.0

  -- The last checks, which need the geometry.
  unfoldable pub judge_geometry :
      DrawingInspection Real → FrameCandidate Real → String → Option (Value Real) → Verdict
  judge_geometry inspection frame target none =
      blocked "unsupported_scale" null (about frame " does not resolve to an allowed scale.")
  judge_geometry inspection frame target (some geometry) =
      if layout_exists inspection target
      then blocked "layout_conflict" geometry
          (about frame (append " target layout " (append (repr target) " already exists.")))
      else record { status = "matched"; geometry = geometry; warning = none }

  -- The checks of a frame with its profile, in the code's order.
  unfoldable pub judge :
      DrawingInspection Real
      → CadPlotConfig Real
      → FrameCandidate Real
      → PaperProfile Real
      → External R parse_paper_size
      → String
      → Result Exception Verdict
  judge inspection config frame profile external target =
      if is_disallowed_layer frame config
      then ok (
          blocked "disallowed_frame_layer" null
            (about frame (append " is on unapproved layer " (append (repr frame.layer) "."))))
      else if lt frame.confidence config.minimum_frame_confidence
      then ok (
          blocked "low_confidence" null (
            about frame (
              append " confidence " (
                append (format_3 frame.confidence) (
                  append " is below required "
                    (append (format_3 config.minimum_frame_confidence) "."))))))
      else elim (page_setup_error R profile (resources inspection external).page_setups config) [
        | some error ↦ ok (blocked "page_setup_mismatch" null (about frame (append ": " error)))
        | none ↦ elim (template_layout_error R profile (resources inspection external).layouts) [
          | some error ↦
              ok (blocked "template_layout_mismatch" null (about frame (append ": " error)))
          | none ↦
              then_do (derive_plot_geometry R parse_paper_size frame config)
                λ geometry. ok (judge_geometry inspection frame target geometry)
        ]
      ]

  unfoldable pub sheet_of : FrameCandidate Real → Value Real → String → Verdict → Sheet Real
  sheet_of frame payload target verdict = (
    ("frame_handle", text frame.handle)
        ∷ ("label", text frame.label)
        ∷ ("status", text verdict.status)
        ∷ ("profile", payload)
        ∷ ("target_layout", text target)
        ∷ ("plot_geometry", verdict.geometry)
        ∷ [],
    verdict.warning,
  )

  unfoldable pub unmatched_sheet : FrameCandidate Real → String → Sheet Real
  unmatched_sheet frame target = (
    ("frame_handle", text frame.handle)
        ∷ ("label", text frame.label)
        ∷ ("status", text "unmatched")
        ∷ ("profile", null)
        ∷ ("target_layout", text target)
        ∷ [],
    some (about frame (append " has no profile for label " (append (repr frame.label) "."))),
  )

  unfoldable pub asset_mismatch : FrameCandidate Real → PaperProfile Real → Verdict
  asset_mismatch frame profile = blocked "template_asset_mismatch" null (
      about frame (
        append ": external template evidence for profile "
          (append (repr profile.id) " is missing or does not match configured SHA-256.")))

  -- The sheet of a frame that has a profile.
  unfoldable pub profiled_sheet :
      DrawingInspection Real
      → CadPlotConfig Real
      → Evidence Real
      → FrameCandidate Real
      → String
      → PaperProfile Real
      → Result Exception (Sheet Real)
  profiled_sheet inspection config evidence frame target profile =
      let external = external_template R parse_paper_size evidence profile in
      then_do (profile_payload R parse_paper_size profile external) λ payload.
        if is_asset_mismatch R parse_paper_size profile external
        then ok (sheet_of frame payload target (asset_mismatch frame profile))
        else then_do (judge inspection config frame profile external target)
            λ verdict. ok (sheet_of frame payload target verdict)

  -- The body of the loop, for the frame with this number.
  unfoldable pub plan_frame :
      DrawingInspection Real
      → CadPlotConfig Real
      → Evidence Real
      → ℕ
      → FrameCandidate Real
      → Result Exception (Sheet Real)
  plan_frame inspection config evidence index frame =
      let target = target_layout_name index frame.handle config.layout_prefix in
      then_do (match_paper_profile R parse_paper_size config frame.label) λ found. elim found [
        | none ↦ ok (unmatched_sheet frame target)
        | some profile ↦ profiled_sheet inspection config evidence frame target profile
      ]
