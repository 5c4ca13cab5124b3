-- ===== src/Publishing/Planner/Verdicts.antt =====
-- The checks behind a verdict of src/cadplot_mcp/planner.py that lets a frame pass.
use cadplot_mcp.Prelude.{
  ◌≡◌, refl, sym, ap, subst, ◌∙◌, inl, inr, true, false, Option, none, some, String, Bool-cases,
  Option-cases, str_eq,
}
use cadplot_mcp.Prelude.Classes.{string_eq}
use cadplot_mcp.Prelude.Results.{Result, ok, then_do}
use cadplot_mcp.Publishing.Value.{Value}
use cadplot_mcp.Publishing.Runtime.{Runtime, Exception}
use cadplot_mcp.Publishing.Inspection.{
  FrameCandidate, DrawingInspection, PaperProfile, CadPlotConfig,
}
use cadplot_mcp.Publishing.Paper.{PaperSize}
use cadplot_mcp.Publishing.Planner.Geometry.{derive_plot_geometry}
use cadplot_mcp.Publishing.Planner.Checks.{page_setup_error, template_layout_error}
use cadplot_mcp.Publishing.Planner.Templates.{External}
use cadplot_mcp.Publishing.Planner.Sheets.{
  resources, is_disallowed_layer, layout_exists, Verdict, judge, judge_geometry,
}
use cadplot_mcp.Publishing.Planner.RoundTrip.{then_do-ok}

module _ (R : Runtime) (parse_paper_size : String → Option (PaperSize R.Real)) where
  -- The status that lets a sheet be published.
  abbrev pub Passes : Verdict R parse_paper_size → Type 0
  Passes verdict = str_eq verdict.status "matched" ≡ true

module _ (R : Runtime) (parse_paper_size : String → Option (PaperSize R.Real))
    (inspection : DrawingInspection R.Real) (config : CadPlotConfig R.Real) where
  open R use {Real, lt}

  judge_geometry-Passes :
      (frame : FrameCandidate Real) (target : String) (geometry : Option (Value Real))
      → Passes R parse_paper_size
          (judge_geometry R parse_paper_size inspection frame target geometry)
      → (g : Value Real) × (geometry ≡ some g)
        × (layout_exists R parse_paper_size inspection target ≡ false)
  unfolding judge_geometry
  judge_geometry-Passes frame target none h = absurd cc
  judge_geometry-Passes frame target (some g) h =
      elim (Bool-cases (layout_exists R parse_paper_size inspection target)) [
        | inl there ↦ absurd (let k = rw there at h in cc)
        | inr fresh ↦ (g, refl, fresh)
      ]

  module _ (frame : FrameCandidate Real) (profile : PaperProfile Real)
      (outer : External R parse_paper_size) (target : String) (verdict : Verdict R parse_paper_size)
      (h : judge R parse_paper_size inspection config frame profile outer target ≡ ok verdict)
      (p : Passes R parse_paper_size verdict) where
    other-status :
        (v : Verdict R parse_paper_size)
        → ◌≡◌ {A = Result Exception (Verdict R parse_paper_size)} (ok v) (ok verdict)
        → str_eq v.status "matched" ≡ false
        → ⊥
    other-status v e other =
        let same : verdict ≡ v = cc in
        let k : Passes R parse_paper_size v = subst (Passes R parse_paper_size) same p in cc

    pub judge-allowed :
        (is_disallowed_layer R parse_paper_size frame config ≡ false)
        × (lt frame.confidence config.minimum_frame_confidence ≡ false)
        × (page_setup_error R profile
              (resources R parse_paper_size inspection outer).page_setups
              config
            ≡ none)
        × (template_layout_error R profile (resources R parse_paper_size inspection outer).layouts
            ≡ none)
        × (then_do
              (derive_plot_geometry R parse_paper_size frame config)
              (λ geometry. ok (judge_geometry R parse_paper_size inspection frame target geometry))
            ≡ ok verdict)
    unfolding judge
    judge-allowed = elim (Bool-cases (is_disallowed_layer R parse_paper_size frame config)) [
      | inl bad ↦ absurd (other-status _ (rw bad at h) refl)
      | inr layer ↦ elim (Bool-cases (lt frame.confidence config.minimum_frame_confidence)) [
        | inl bad ↦ absurd (other-status _ (rw (layer, bad) at h) refl)
        | inr confident ↦
            elim (Option-cases (
              page_setup_error R profile (resources R parse_paper_size inspection outer).page_setups
                config)) [
                  | inr (e, bad) ↦ absurd (other-status _ (rw (layer, confident, bad) at h) refl)
                  | inl setup ↦
                      elim (Option-cases (
                        template_layout_error R profile
                          (resources R parse_paper_size inspection outer).layouts)) [
                            | inr (e, bad) ↦
                                absurd
                                  (other-status _ (rw (layer, confident, setup, bad) at h) refl)
                            | inl layout ↦ (
                              layer,
                              confident,
                              setup,
                              layout,
                              rw (layer, confident, setup, layout) at h,
                            )
                          ]
                ]
      ]
    ]

    pub judge-scaled :
        (g : Value Real) × (derive_plot_geometry R parse_paper_size frame config ≡ ok (some g))
        × (layout_exists R parse_paper_size inspection target ≡ false)
    judge-scaled =
        let (geometry, e, last) =
          then_do-ok (derive_plot_geometry R parse_paper_size frame config)
            (λ geometry. ok (judge_geometry R parse_paper_size inspection frame target geometry))
            verdict judge-allowed.4 in
        let same : judge_geometry R parse_paper_size inspection frame target geometry ≡ verdict =
          cc in
        let (g, there, fresh) =
          judge_geometry-Passes frame target geometry
            (subst (Passes R parse_paper_size) (sym same) p) in
        (g, e ∙ ap ok there, fresh)
