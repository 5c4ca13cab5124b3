-- ===== src/Publishing/Inspection.antt =====
-- What an inspection of a drawing reports (src/cadplot_mcp/models.py), and the configuration that
-- planning reads (`PaperProfile` and `CadPlotConfig` of src/cadplot_mcp/config.py).
use cadplot_mcp.Prelude.{ℕ, Bool, true, false, ◌&&◌, Option, none, some, List, String, ◌==◌}
use cadplot_mcp.Publishing.Runtime.{Runtime}

pub record LayoutSummary : Type 0 where
  pub name : String
  pub model_type : Bool
  pub plotter : Option String
  pub media_name : Option String
  pub plot_style : Option String
  pub plot_type : Option ℕ
  pub use_standard_scale : Option Bool
  pub standard_scale : Option ℕ
  pub floating_viewport_count : Option ℕ

pub record PageSetupSummary (Real : Type 0) : Type 0 where
  pub name : String
  pub model_type : Bool
  pub plotter : Option String
  pub media_name : Option String
  pub plot_style : Option String
  pub plot_type : Option ℕ
  pub use_standard_scale : Option Bool
  pub standard_scale : Option ℕ
  pub custom_scale_numerator : Option Real
  pub custom_scale_denominator : Option Real

pub record Point (Real : Type 0) : Type 0 where
  pub x : Real
  pub y : Real
  pub z : Real

pub record FrameCandidate (Real : Type 0) : Type 0 where
  pub handle : String
  pub layer : String
  pub min_point : Point Real
  pub max_point : Point Real
  pub label : String
  pub width_mm : Real
  pub height_mm : Real
  pub confidence : Real

pub record DrawingInspection (Real : Type 0) : Type 0 where
  pub path : String
  pub layouts : List LayoutSummary
  pub page_setups : List (PageSetupSummary Real)
  pub frames : List (FrameCandidate Real)
  pub warnings : List String

pub record PaperProfile (Real : Type 0) : Type 0 where
  pub id : String
  pub labels : List String
  pub page_setup : String
  pub plotter : String
  pub plot_style : String
  pub canonical_media : Option String
  pub template_layout : Option String
  pub template_drawing : Option String
  pub template_sha256 : Option String
  pub tolerance_mm : Real

pub record CadPlotConfig (Real : Type 0) : Type 0 where
  pub paper_profiles : List (PaperProfile Real)
  pub drawing_unit_mm : Real
  pub scale_denominators : List Real
  pub scale_tolerance_ratio : Real
  pub require_page_setup_match : Bool
  pub layout_prefix : String
  pub minimum_frame_confidence : Real
  pub frame_layers : List String

-- An optional number is the given one.
abbrev pub is_number : ℕ → Option ℕ → Bool
is_number n none = false
is_number n (some m) = m == n

module _ (R : Runtime) where
  open R use {Real, of_nat, lt, is_finite, is_close}

  -- A custom scale of one to one.
  unfoldable pub has_custom_one_to_one : Option Real → Option Real → Bool
  has_custom_one_to_one (some numerator) (some denominator) =
      is_finite numerator
      && is_finite denominator
      && lt (of_nat 0) numerator
      && lt (of_nat 0) denominator
      && is_close numerator denominator
  has_custom_one_to_one numerator denominator = false

  unfoldable pub has_verified_one_to_one_scale : PageSetupSummary Real → Bool
  unfolding has_custom_one_to_one
  has_verified_one_to_one_scale setup = elim setup.use_standard_scale [
    | none ↦ false
    | some true ↦ is_number 16 setup.standard_scale
    | some false ↦ has_custom_one_to_one setup.custom_scale_numerator setup.custom_scale_denominator
  ]
