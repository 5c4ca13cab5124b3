-- ===== src/Publishing/Tests/Plans.antt =====
-- Plans of one frame (src/cadplot_mcp/planner.py): created, refused and checked again.
use cadplot_mcp.Prelude.{ℕ, ◌≡◌, ◌≤◌, ◌↔◌, refl, true, some, List, [], ◌∷◌, String, length, arith}
use cadplot_mcp.Prelude.Classes.{string_eq}
use cadplot_mcp.Prelude.Dicts.{Dict, lookup}
use cadplot_mcp.Prelude.Results.{ok}
use cadplot_mcp.Publishing.Value.{pos, Value, null, int, float, dict, is_true, is_digest, text}
use cadplot_mcp.Publishing.Planner.Names.{target_layout_name}
use cadplot_mcp.Publishing.Inspection.{DrawingInspection}
use cadplot_mcp.Publishing.Paper.{match_paper_profile}
use cadplot_mcp.Publishing.Planner.Geometry.{derive_plot_geometry}
use cadplot_mcp.Publishing.Planner.Checks.{page_setup_error, template_layout_error}
use cadplot_mcp.Publishing.Planner.Templates.{external_template, is_asset_mismatch, profile_payload}
use cadplot_mcp.Publishing.Planner.Sheets.{
  profiled_sheet, plan_frame, judge, judge_geometry, is_disallowed_layer, layout_exists, sheet_of,
}
use cadplot_mcp.Publishing.Planner.Plan.{plan_frames, plan_of, create_publish_plan}
use cadplot_mcp.Publishing.Planner.Validate.{validate_publish_plan, is_sha256, is_natural}
use cadplot_mcp.Publishing.Planner.Accepted.{IsAccepted, validate_publish_plan_iff}
use cadplot_mcp.Publishing.Planner.RoundTrip.{validate-create}
use cadplot_mcp.Publishing.Planner.Ready.{AllPublishable, create-AllPublishable}
use cadplot_mcp.Publishing.Samples.{small, config, frame_on, drawing, a4, fingerprint}

long_names : target_layout_name 12 "2A/#7_" "CADPLOT" ≡ "CADPLOT_0012_2A_7"
unfolding target_layout_name
long_names = refl

abbrev good : DrawingInspection ℕ
good = drawing (frame_on "FRAMES" ∷ [])

abbrev profile : Value ℕ
profile = dict (
    ("id", text "a4")
    ∷ ("page_setup", text "A4-PDF")
    ∷ ("plotter", text "PDF")
    ∷ ("plot_style", text "mono")
    ∷ ("canonical_media", text "A4")
    ∷ ("template_layout", null)
    ∷ ("template_asset", null)
    ∷ [])

abbrev geometry : Value ℕ
geometry = dict (
    (
      "window",
      dict (
          ("min_x", float 0)
          ∷ ("min_y", float 0)
          ∷ ("max_x", float 29700)
          ∷ ("max_y", float 21000)
          ∷ []),
    )
    ∷ ("rotation_degrees", int (pos 90))
    ∷ ("scale_denominator", float 100)
    ∷ ("derived_scale_denominator", float 100)
    ∷ ("scale_tolerance_ratio", float 0)
    ∷ ("drawing_unit_mm", float 1)
    ∷ ("paper_width_mm", float 210)
    ∷ ("paper_height_mm", float 297)
    ∷ [])

abbrev sheet : String → Value ℕ → Dict String (Value ℕ)
sheet status found =
    ("frame_handle", text "2A")
    ∷ ("label", text "a4")
    ∷ ("status", text status)
    ∷ ("profile", profile)
    ∷ ("target_layout", text "CADPLOT_0001_2A")
    ∷ ("plot_geometry", found)
    ∷ []

abbrev ready_plan : Dict String (Value ℕ)
ready_plan = plan_of small a4 "plan.dwg" (dict fingerprint) (sheet "matched" geometry ∷ []) []

ready_plan-created : create_publish_plan small a4 good config (some fingerprint) [] ≡ ok ready_plan
unfolding create_publish_plan plan_frames plan_frame profiled_sheet plan_of match_paper_profile
    target_layout_name external_template is_asset_mismatch profile_payload sheet_of judge
    is_disallowed_layer page_setup_error template_layout_error derive_plot_geometry judge_geometry
    layout_exists
ready_plan-created = refl

ready_plan-ready : is_true (lookup "ready" ready_plan) ≡ true
unfolding plan_of is_true lookup
ready_plan-ready = refl

validate-create_example : validate_publish_plan small ready_plan ≡ ok tt
unfolding is_sha256 is_natural lookup is_digest
validate-create_example =
    validate-create small a4 good config fingerprint [] ready_plan ready_plan-created
      ready_plan-ready (omega arith) refl refl refl (λ v. refl)

create-AllPublishable_example :
    (1 ≤ length good.frames) × AllPublishable small a4 good config [] 1 good.frames
create-AllPublishable_example =
    create-AllPublishable small a4 good config [] (some fingerprint) ready_plan ready_plan-created
      ready_plan-ready

validate_publish_plan_iff_example : (validate_publish_plan small ready_plan ≡ ok tt) ↔ (
    (print : Dict String (Value ℕ)) × (sheets : List (Value ℕ)) × (plan_id : String) × IsAccepted
      small ready_plan print sheets plan_id)
validate_publish_plan_iff_example = validate_publish_plan_iff small ready_plan

-- A frame on another layer blocks the plan.
abbrev astray : DrawingInspection ℕ
astray = drawing (frame_on "NOTES" ∷ [])

blocked_plan-created :
    create_publish_plan small a4 astray config (some fingerprint) []
    ≡ ok (
        plan_of small a4 "plan.dwg"
          (dict fingerprint)
          (sheet "disallowed_frame_layer" null ∷ [])
          ("Frame 2A is on unapproved layer NOTES." ∷ []))
unfolding create_publish_plan plan_frames plan_frame profiled_sheet plan_of match_paper_profile
    target_layout_name external_template is_asset_mismatch profile_payload sheet_of judge
    is_disallowed_layer page_setup_error template_layout_error derive_plot_geometry judge_geometry
    layout_exists
blocked_plan-created = refl
