-- ===== src/Publishing/Planner/Ready.antt =====
-- What a ready plan of src/cadplot_mcp/planner.py says of the frames.
use cadplot_mcp.Prelude.{
  ℕ, suc, ◌≡◌, ◌≤◌, sym, ap, subst, ◌∙◌, inl, inr, true, false, Option, none, some, List, [], ◌∷◌,
  ◌++◌, String, length, all, arith, Bool-cases, Option-cases, if◌then◌else◌,
}
use cadplot_mcp.Prelude.Classes.{string_eq}
use cadplot_mcp.Prelude.Dicts.{Dict, lookup}
use cadplot_mcp.Prelude.Results.{Result, ok, then_do}
use cadplot_mcp.Publishing.Value.{Value, null, dict, is_true, is_text}
use cadplot_mcp.Publishing.Runtime.{Runtime, Exception}
use cadplot_mcp.Publishing.Inspection.{
  FrameCandidate, DrawingInspection, PaperProfile, CadPlotConfig,
}
use cadplot_mcp.Publishing.Paper.{PaperSize, match_paper_profile}
use cadplot_mcp.Publishing.Planner.Names.{target_layout_name}
use cadplot_mcp.Publishing.Planner.Geometry.{derive_plot_geometry}
use cadplot_mcp.Publishing.Planner.Checks.{page_setup_error, template_layout_error}
use cadplot_mcp.Publishing.Planner.Templates.{
  Evidence, external_template, is_asset_mismatch, profile_payload, External,
}
use cadplot_mcp.Publishing.Planner.Sheets.{
  Sheet, resources, is_disallowed_layer, layout_exists, Verdict, judge, sheet_of, unmatched_sheet,
  asset_mismatch, profiled_sheet, plan_frame,
}
use cadplot_mcp.Publishing.Planner.Verdicts.{Passes, judge-allowed, judge-scaled}
use cadplot_mcp.Publishing.Planner.Plan.{
  is_matched, plan_frames, is_ready, create_publish_plan, warning_list,
}
use cadplot_mcp.Publishing.Planner.RoundTrip.{
  then_do-ok, create-parts, plan_of-ready, ready-parts, length-plan_frames,
}

module _ (R : Runtime) (parse_paper_size : String → Option (PaperSize R.Real))
    (inspection : DrawingInspection R.Real) (config : CadPlotConfig R.Real)
    (evidence : Evidence R.Real) where
  open R use {Real, lt}

  abbrev external : PaperProfile Real → External R parse_paper_size
  external profile = external_template R parse_paper_size evidence profile

  -- The frame with this number can be plotted by this profile with this geometry.
  pub record IsPublishable (index : ℕ) (frame : FrameCandidate Real) (profile : PaperProfile Real)
      (geometry : Value Real) : Type 0 where
    pub profiled : match_paper_profile R parse_paper_size config frame.label ≡ ok (some profile)
    pub template : is_asset_mismatch R parse_paper_size profile (external profile) ≡ false
    pub layer : is_disallowed_layer R parse_paper_size frame config ≡ false
    pub confident : lt frame.confidence config.minimum_frame_confidence ≡ false
    pub setup :
        page_setup_error R profile
          (resources R parse_paper_size inspection (external profile)).page_setups
          config
        ≡ none
    pub layout :
        template_layout_error R profile
          (resources R parse_paper_size inspection (external profile)).layouts
        ≡ none
    pub scaled : derive_plot_geometry R parse_paper_size frame config ≡ ok (some geometry)
    pub fresh :
        layout_exists R parse_paper_size inspection
          (target_layout_name index frame.handle config.layout_prefix)
        ≡ false

  abbrev Publishable : ℕ → FrameCandidate Real → Type 0
  Publishable index frame =
      (profile : PaperProfile Real) × (geometry : Value Real) × IsPublishable index frame profile
        geometry

  -- All of the frames, numbered from `index` on.
  abbrev pub AllPublishable : ℕ → List (FrameCandidate Real) → Type 0
  AllPublishable index [] = Unit
  AllPublishable index (frame ∷ frames) =
      Publishable index frame × AllPublishable (suc index) frames

  sheet_of-Passes :
      (frame : FrameCandidate Real) (payload : Value Real) (target : String)
      (verdict : Verdict R parse_paper_size) (sheet : Sheet Real)
      → ◌≡◌ {A = Result Exception (Sheet Real)}
          (ok (sheet_of R parse_paper_size frame payload target verdict))
          (ok sheet)
      → is_matched R parse_paper_size sheet.0 ≡ true
      → Passes R parse_paper_size verdict
  unfolding sheet_of is_matched is_text lookup
  sheet_of-Passes frame payload target verdict sheet e m =
      let same : sheet ≡ sheet_of R parse_paper_size frame payload target verdict = cc in
      subst (λ (x : Sheet Real). is_matched R parse_paper_size x.0 ≡ true) same m

  mismatch-blocked :
      (frame : FrameCandidate Real) (profile : PaperProfile Real) (payload : Value Real)
      (target : String) (sheet : Sheet Real)
      → ◌≡◌ {A = Result Exception (Sheet Real)}
          (ok (
            sheet_of R parse_paper_size frame payload target
              (asset_mismatch R parse_paper_size frame profile)))
          (ok sheet)
      → is_matched R parse_paper_size sheet.0 ≡ true
      → ⊥
  unfolding asset_mismatch
  mismatch-blocked frame profile payload target sheet e m =
      let k =
        sheet_of-Passes frame payload target (asset_mismatch R parse_paper_size frame profile) sheet
          e m in
      cc

  unmatched-blocked :
      (frame : FrameCandidate Real) (target : String) (sheet : Sheet Real)
      → ◌≡◌ {A = Result Exception (Sheet Real)}
          (ok (unmatched_sheet R parse_paper_size frame target))
          (ok sheet)
      → is_matched R parse_paper_size sheet.0 ≡ true
      → ⊥
  unfolding unmatched_sheet is_matched is_text lookup
  unmatched-blocked frame target sheet e m =
      let same : sheet ≡ unmatched_sheet R parse_paper_size frame target = cc in
      let k = subst (λ (x : Sheet Real). is_matched R parse_paper_size x.0 ≡ true) same m in cc

  abbrev sheet_for :
      FrameCandidate Real → String → Option (PaperProfile Real) → Result Exception (Sheet Real)
  sheet_for frame target found = elim found [
    | none ↦ ok (unmatched_sheet R parse_paper_size frame target)
    | some profile ↦
        profiled_sheet R parse_paper_size inspection config evidence frame target profile
  ]

  -- The sheet of a frame with a profile is matched only by the last verdict.
  profiled_sheet-Passes :
      (frame : FrameCandidate Real) (target : String) (profile : PaperProfile Real)
      (sheet : Sheet Real)
      → profiled_sheet R parse_paper_size inspection config evidence frame target profile ≡ ok sheet
      → is_matched R parse_paper_size sheet.0 ≡ true
      → (is_asset_mismatch R parse_paper_size profile (external profile) ≡ false)
        × (verdict : Verdict R parse_paper_size) × (judge R parse_paper_size inspection config frame
              profile
              (external profile)
              target
            ≡ ok verdict)
        × Passes R parse_paper_size verdict
  unfolding profiled_sheet is_matched
  profiled_sheet-Passes frame target profile sheet h m =
      let (payload, e, more) =
        then_do-ok (profile_payload R parse_paper_size profile (external profile))
          (λ payload.
            if is_asset_mismatch R parse_paper_size profile (external profile)
            then ok (
                sheet_of R parse_paper_size frame payload target
                  (asset_mismatch R parse_paper_size frame profile))
            else then_do
                (judge R parse_paper_size inspection config frame profile (external profile) target)
                λ verdict. ok (sheet_of R parse_paper_size frame payload target verdict))
          sheet h in
      elim (Bool-cases (is_asset_mismatch R parse_paper_size profile (external profile))) [
        | inl bad ↦ absurd (mismatch-blocked frame profile payload target sheet (rw bad at more) m)
        | inr fine ↦
            let (verdict, judged, last) =
              then_do-ok
                (judge R parse_paper_size inspection config frame profile (external profile) target)
                (λ verdict. ok (sheet_of R parse_paper_size frame payload target verdict)) sheet
                (rw fine at more) in
            (fine, verdict, judged, sheet_of-Passes frame payload target verdict sheet last m)
      ]

  plan_frame-Publishable :
      (index : ℕ) (frame : FrameCandidate Real) (sheet : Sheet Real)
      → plan_frame R parse_paper_size inspection config evidence index frame ≡ ok sheet
      → is_matched R parse_paper_size sheet.0 ≡ true
      → Publishable index frame
  unfolding plan_frame
  plan_frame-Publishable index frame sheet h m =
      let target = target_layout_name index frame.handle config.layout_prefix in
      let (found, profiled, more) =
        then_do-ok (match_paper_profile R parse_paper_size config frame.label)
          (λ found. sheet_for frame target found) sheet h in
      elim (Option-cases found) [
        | inl nothing ↦ absurd (unmatched-blocked frame target sheet (rw nothing at more) m)
        | inr (profile, there) ↦
            let (fine, verdict, judged, passed) =
              profiled_sheet-Passes frame target profile sheet (rw there at more) m in
            let allowed =
              judge-allowed R parse_paper_size inspection config frame profile (external profile)
                target verdict judged passed in
            let (geometry, scaled, fresh) =
              judge-scaled R parse_paper_size inspection config frame profile (external profile)
                target verdict judged passed in
            (
              profile,
              geometry,
              record {
                profiled = profiled ∙ ap ok there;
                template = fine;
                layer = allowed.0;
                confident = allowed.1;
                setup = allowed.2;
                layout = allowed.3;
                scaled = scaled;
                fresh = fresh;
              },
            )
      ]

  plan_frames-publishable :
      (index : ℕ) (frames : List (FrameCandidate Real))
      (planned : List (Dict String (Value Real)) × List String)
      → plan_frames R parse_paper_size inspection config evidence index frames ≡ ok planned
      → all (is_matched R parse_paper_size) planned.0 ≡ true
      → AllPublishable index frames
  unfolding plan_frames all
  plan_frames-publishable index [] planned h m = tt
  plan_frames-publishable index (frame ∷ frames) planned h m =
      let (sheet, e, more) =
        then_do-ok (plan_frame R parse_paper_size inspection config evidence index frame)
          (λ sheet.
            then_do (plan_frames R parse_paper_size inspection config evidence (suc index) frames)
              λ rest. ok (sheet.0 ∷ rest.0, warning_list sheet.1 ++ rest.1))
          planned h in
      let (rest, e', last) =
        then_do-ok (plan_frames R parse_paper_size inspection config evidence (suc index) frames)
          (λ rest. ok (sheet.0 ∷ rest.0, warning_list sheet.1 ++ rest.1)) planned more in
      let same : planned.0 ≡ sheet.0 ∷ rest.0 = cc in
      let parts : all (is_matched R parse_paper_size) (sheet.0 ∷ rest.0) ≡ true =
        subst (λ ss. all (is_matched R parse_paper_size) ss ≡ true) same m in
      (
        plan_frame-Publishable index frame sheet e (ground arith),
        plan_frames-publishable (suc index) frames rest e' (ground arith),
      )

  -- A plan that is created ready has at least one frame, and each frame, with its number in the
  -- drawing, has one profile, the template that the profile asks for, an allowed layer, enough
  -- confidence, a matching page setup and template layout, a scale and a layout name that the
  -- drawing does not have yet.
  pub create-AllPublishable :
      (fingerprint : Option (Dict String (Value Real))) (plan : Dict String (Value Real))
      → create_publish_plan R parse_paper_size inspection config fingerprint evidence ≡ ok plan
      → is_true (lookup "ready" plan) ≡ true
      → (1 ≤ length inspection.frames) × AllPublishable 1 inspection.frames
  unfolding is_true
  create-AllPublishable fingerprint plan created ready =
      let (planned, e, same) =
        create-parts R parse_paper_size inspection config fingerprint evidence plan created in
      let drawn : Value Real = elim fingerprint [ none ↦ null | some d ↦ dict d ] in
      let tested : is_ready R parse_paper_size planned.0 ≡ true =
        sym (
          ap is_true (
            plan_of-ready R parse_paper_size inspection.path drawn planned.0
              (inspection.warnings ++ planned.1)))
        ∙ subst (λ p. is_true (lookup "ready" p) ≡ true) (sym same) ready in
      let parts = ready-parts R parse_paper_size planned.0 tested in
      let counted =
        length-plan_frames R parse_paper_size inspection config evidence 1 inspection.frames planned
          e in
      (
        omega (arith, parts.0, counted),
        plan_frames-publishable 1 inspection.frames planned e parts.1,
      )
