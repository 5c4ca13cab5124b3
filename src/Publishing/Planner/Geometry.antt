-- ===== src/Publishing/Planner/Geometry.antt =====
-- The geometry of a plot: `_derive_plot_geometry` of src/cadplot_mcp/planner.py.
use cadplot_mcp.Prelude.{
  ℕ, Bool, false, not, Option, none, some, List, [], ◌∷◌, ltb, String, if◌then◌else◌,
}
use cadplot_mcp.Prelude.Results.{Result, ok, err, then_do}
use cadplot_mcp.Publishing.Value.{pos, Value, int, float, dict}
use cadplot_mcp.Publishing.Runtime.{Runtime, Exception, value_error}
use cadplot_mcp.Publishing.Inspection.{FrameCandidate, CadPlotConfig}
use cadplot_mcp.Publishing.Paper.{PaperSize}

abbrev pub zero_division : Exception
zero_division = record {
  name = "ZeroDivisionError";
  message = "float division by zero";
  is_value_error = false;
}

-- `(mismatch, average, rotation)`
pub record Candidate (Real : Type 0) : Type 0 where
  pub mismatch : Real
  pub average : Real
  pub rotation : ℕ

module _ (R : Runtime) (parse_paper_size : String → Option (PaperSize R.Real)) where
  open R use {Real, of_nat, add, sub, mul, div, magnitude, lt, le, eq, round_6}

  unfoldable pub divide : Real → Real → Result Exception Real
  divide a b = elim (div a b) [ none ↦ err zero_division | some q ↦ ok q ]

  -- `candidate < best` on tuples
  unfoldable pub is_better : Candidate Real → Candidate Real → Bool
  is_better a b =
      if not (eq a.mismatch b.mismatch)
      then lt a.mismatch b.mismatch
      else if not (eq a.average b.average)
      then lt a.average b.average
      else ltb a.rotation b.rotation

  -- The scales of the two sides on a paper of this width and height.
  unfoldable pub candidate :
      CadPlotConfig Real → Real → Real → ℕ → Real → Real → Result Exception (Candidate Real)
  unfolding divide
  candidate config width height rotation paper_width paper_height =
      then_do (divide (mul width config.drawing_unit_mm) paper_width) λ width_scale.
        then_do (divide (mul height config.drawing_unit_mm) paper_height) λ height_scale.
          then_do (divide (add width_scale height_scale) (of_nat 2)) λ average.
            then_do (divide (magnitude (sub width_scale height_scale)) average) λ mismatch.
              ok (record { mismatch = mismatch; average = average; rotation = rotation })

  -- The better of the two orientations.
  unfoldable pub best_candidate :
      CadPlotConfig Real → Real → Real → PaperSize Real → Result Exception (Candidate Real)
  unfolding candidate is_better
  best_candidate config width height paper =
      then_do (candidate config width height 0 paper.width_mm paper.height_mm) λ upright.
        then_do (candidate config width height 90 paper.height_mm paper.width_mm)
          λ turned. ok (if is_better turned upright then turned else upright)

  -- `min(denominators, key=lambda item: abs(item - derived))`
  unfoldable pub nearest : Real → Real → List Real → Real
  nearest derived best [] = best
  nearest derived best (x ∷ xs) =
      nearest derived
        (if lt (magnitude (sub x derived)) (magnitude (sub best derived)) then x else best) xs

  unfoldable pub nearest_denominator : Real → List Real → Result Exception Real
  unfolding nearest
  nearest_denominator derived [] = err (value_error "min() arg is an empty sequence")
  nearest_denominator derived (x ∷ xs) = ok (nearest derived x xs)

  unfoldable pub geometry_value :
      FrameCandidate Real → CadPlotConfig Real → PaperSize Real → Candidate Real → Real → Value Real
  geometry_value frame config paper best denominator = dict (
      (
        "window",
        dict (
            ("min_x", float frame.min_point.x)
            ∷ ("min_y", float frame.min_point.y)
            ∷ ("max_x", float frame.max_point.x)
            ∷ ("max_y", float frame.max_point.y)
            ∷ []),
      )
      ∷ ("rotation_degrees", int (pos best.rotation))
      ∷ ("scale_denominator", float denominator)
      ∷ ("derived_scale_denominator", float (round_6 best.average))
      ∷ ("scale_tolerance_ratio", float config.scale_tolerance_ratio)
      ∷ ("drawing_unit_mm", float config.drawing_unit_mm)
      ∷ ("paper_width_mm", float paper.width_mm)
      ∷ ("paper_height_mm", float paper.height_mm)
      ∷ [])

  -- The denominator that the derived scale is taken for, if it is near enough.
  unfoldable pub scale_plot :
      FrameCandidate Real
      → CadPlotConfig Real
      → PaperSize Real
      → Candidate Real
      → Result Exception (Option (Value Real))
  unfolding nearest_denominator divide geometry_value
  scale_plot frame config paper best =
      if lt config.scale_tolerance_ratio best.mismatch
      then ok none
      else then_do (nearest_denominator best.average config.scale_denominators) λ denominator.
        then_do (divide (magnitude (sub denominator best.average)) denominator) λ off. ok (
          if lt config.scale_tolerance_ratio off
          then none
          else some (geometry_value frame config paper best denominator))

  unfoldable pub derive_plot_geometry :
      FrameCandidate Real → CadPlotConfig Real → Result Exception (Option (Value Real))
  unfolding best_candidate scale_plot
  derive_plot_geometry frame config = elim (parse_paper_size frame.label) [
    | none ↦ ok none
    | some paper ↦
        let width = sub frame.max_point.x frame.min_point.x in
        let height = sub frame.max_point.y frame.min_point.y in
        if le (if lt height width then height else width) (of_nat 0)
        then ok none
        else then_do (best_candidate config width height paper)
            λ best. scale_plot frame config paper best
  ]
