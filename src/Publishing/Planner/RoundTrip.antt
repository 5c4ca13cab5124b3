-- ===== src/Publishing/Planner/RoundTrip.antt =====
-- A plan that `create_publish_plan` makes, checked by `validate_publish_plan`
-- (src/cadplot_mcp/planner.py).
use cadplot_mcp.Prelude.{
  ℕ, suc, ◌≡◌, ◌≤◌, refl, sym, ap, subst, ◌∙◌, true, Option, none, some, List, [], ◌∷◌, ◌++◌, map,
  String, length, all, arith,
}
use cadplot_mcp.Prelude.Classes.{string_eq}
use cadplot_mcp.Prelude.Dicts.{Dict, lookup}
use cadplot_mcp.Prelude.Results.{Result, ok, err, then_do}
use cadplot_mcp.Publishing.Value.{
  Value, null, dict, is_true, is_text, as_dict, as_list, as_text, get, elements-items,
  entries-fields, is_digest, prefixed, prefixed-is_identifier,
}
use cadplot_mcp.Publishing.Runtime.{Runtime}
use cadplot_mcp.Publishing.Inspection.{FrameCandidate, DrawingInspection, CadPlotConfig}
use cadplot_mcp.Publishing.Paper.{PaperSize}
use cadplot_mcp.Publishing.Planner.Templates.{Evidence}
use cadplot_mcp.Publishing.Planner.Sheets.{plan_frame}
use cadplot_mcp.Publishing.Planner.Plan.{
  is_matched, plan_frames, plan_payload, is_ready, plan_of, create_publish_plan, warning_list,
}
use cadplot_mcp.Publishing.Planner.Validate.{
  is_one, is_natural, is_sha256, is_matched_value, payload_of, validate_publish_plan,
}
use cadplot_mcp.Publishing.Planner.Accepted.{IsAccepted, validate_publish_plan_iff}

-- The parts of a chain that returned.
pub then_do-ok :
    {E A B : Type 0} (m : Result E A) (f : A → Result E B) (b : B)
    → then_do m f ≡ ok b
    → (a : A) × (m ≡ ok a) × (f a ≡ ok b)
then_do-ok (ok a) f b h = (a, refl, h)
then_do-ok (err e) f b h = absurd cc

module _ (R : Runtime) (parse_paper_size : String → Option (PaperSize R.Real)) where
  open R use {Real, hexdigest}

  abbrev Sheets : Type 0
  Sheets = List (Dict String (Value Real))

  -- One sheet for each frame.
  pub length-plan_frames :
      (inspection : DrawingInspection Real) (config : CadPlotConfig Real) (evidence : Evidence Real)
      (index : ℕ) (frames : List (FrameCandidate Real)) (planned : Sheets × List String)
      → plan_frames R parse_paper_size inspection config evidence index frames ≡ ok planned
      → length planned.0 ≡ length frames
  unfolding plan_frames
  length-plan_frames inspection config evidence index [] planned h = ground arith
  length-plan_frames inspection config evidence index (frame ∷ frames) planned h =
      let (sheet, e, more) =
        then_do-ok (plan_frame R parse_paper_size inspection config evidence index frame)
          (λ sheet.
            then_do (plan_frames R parse_paper_size inspection config evidence (suc index) frames)
              λ rest. ok (sheet.0 ∷ rest.0, warning_list sheet.1 ++ rest.1))
          planned h in
      let (rest, e', last) =
        then_do-ok (plan_frames R parse_paper_size inspection config evidence (suc index) frames)
          (λ rest. ok (sheet.0 ∷ rest.0, warning_list sheet.1 ++ rest.1)) planned more in
      let same : sheet.0 ∷ rest.0 ≡ planned.0 = cc in
      ap length (sym same)
      ∙ ap suc (length-plan_frames inspection config evidence (suc index) frames rest e')

  -- The parts of a plan that was created.
  pub create-parts :
      (inspection : DrawingInspection Real) (config : CadPlotConfig Real)
      (fingerprint : Option (Dict String (Value Real))) (evidence : Evidence Real)
      (plan : Dict String (Value Real))
      → create_publish_plan R parse_paper_size inspection config fingerprint evidence ≡ ok plan
      → (planned : Sheets × List String) × (plan_frames R parse_paper_size inspection config
            evidence 1 inspection.frames
          ≡ ok planned)
        × (plan_of R parse_paper_size inspection.path
              (elim fingerprint [ none ↦ null | some d ↦ dict d ])
              planned.0
              (inspection.warnings ++ planned.1)
            ≡ plan)
  unfolding create_publish_plan
  create-parts inspection config fingerprint evidence plan h =
      let (planned, e, last) =
        then_do-ok (plan_frames R parse_paper_size inspection config evidence 1 inspection.frames)
          (λ planned. ok (
            plan_of R parse_paper_size inspection.path
              (elim fingerprint [ none ↦ null | some d ↦ dict d ]) planned.0
              (inspection.warnings ++ planned.1)))
          plan h in
      (planned, e, cc)

  all-matched :
      (sheets : Sheets)
      → all (is_matched R parse_paper_size) sheets ≡ true
      → all (is_matched_value R) (map dict sheets) ≡ true
  unfolding all is_matched is_matched_value
  all-matched [] h = refl
  all-matched (s ∷ sheets) h = ground (arith, entries-fields s, all-matched sheets)

  length-dicts : (sheets : Sheets) → length (map dict sheets) ≡ length sheets
  length-dicts [] = refl
  length-dicts (s ∷ sheets) = ap suc (length-dicts sheets)

  pub plan_of-ready :
      (drawing : String) (fingerprint : Value Real) (sheets : Sheets) (warnings : List String)
      → lookup "ready" (plan_of R parse_paper_size drawing fingerprint sheets warnings)
        ≡ some (Value.boolean (is_ready R parse_paper_size sheets))
  unfolding plan_of lookup
  plan_of-ready drawing fingerprint sheets warnings = refl

  pub ready-parts :
      (sheets : Sheets)
      → is_ready R parse_paper_size sheets ≡ true
      → (1 ≤ length sheets) × (all (is_matched R parse_paper_size) sheets ≡ true)
  unfolding is_ready
  ready-parts [] h = absurd cc
  ready-parts (s ∷ sheets) h = (omega arith, ground arith)

  plan_of-IsAccepted :
      (drawing : String) (fingerprint : Dict String (Value Real)) (sheets : Sheets)
      (warnings : List String)
      → is_ready R parse_paper_size sheets ≡ true
      → length sheets ≤ 5000
      → is_sha256 R (lookup "sha256" fingerprint) ≡ true
      → is_natural R (lookup "size_bytes" fingerprint) ≡ true
      → is_natural R (lookup "modified_ns" fingerprint) ≡ true
      → ((v : Value Real) → is_digest (hexdigest v) ≡ true)
      → IsAccepted R
          (plan_of R parse_paper_size drawing (dict fingerprint) sheets warnings)
          fingerprint
          (map dict sheets)
          (prefixed (
            hexdigest
              (dict (plan_payload R parse_paper_size drawing (dict fingerprint) sheets warnings))))
  unfolding plan_of plan_payload lookup is_true is_text is_one as_dict as_list as_text payload_of
      get
  plan_of-IsAccepted drawing fingerprint sheets warnings ready bounded sha size modified formed =
      record {
        schema = refl;
        mode = refl;
        ready = ready;
        bound = ap some (entries-fields fingerprint);
        sha256 = sha;
        size = size;
        modified = modified;
        listed = ap some (elements-items (map dict sheets));
        some_sheet = omega (arith, length-dicts sheets, (ready-parts sheets ready).0);
        bounded = omega (arith, length-dicts sheets);
        matched = all-matched sheets (ready-parts sheets ready).1;
        named = refl;
        formed = prefixed-is_identifier _ (formed _);
        own = refl;
      }

  -- A plan that is created ready, for at most 5000 frames and with a fingerprint whose digest, size
  -- and time have the right form, passes the check as it is, where the digests of SHA-256 are 64
  -- lower-case hexadecimal digits.
  pub validate-create :
      (inspection : DrawingInspection Real) (config : CadPlotConfig Real)
      (fingerprint : Dict String (Value Real)) (evidence : Evidence Real)
      (plan : Dict String (Value Real))
      → create_publish_plan R parse_paper_size inspection config (some fingerprint) evidence
        ≡ ok plan
      → is_true (lookup "ready" plan) ≡ true
      → length inspection.frames ≤ 5000
      → is_sha256 R (lookup "sha256" fingerprint) ≡ true
      → is_natural R (lookup "size_bytes" fingerprint) ≡ true
      → is_natural R (lookup "modified_ns" fingerprint) ≡ true
      → ((v : Value Real) → is_digest (hexdigest v) ≡ true)
      → validate_publish_plan R plan ≡ ok tt
  unfolding is_true
  validate-create inspection config fingerprint evidence plan created ready few sha size modified
        formed =
      let (planned, e, same) =
        create-parts inspection config (some fingerprint) evidence plan created in
      let counted = length-plan_frames inspection config evidence 1 inspection.frames planned e in
      let warnings = inspection.warnings ++ planned.1 in
      let tested : is_ready R parse_paper_size planned.0 ≡ true =
        sym (ap is_true (plan_of-ready inspection.path (dict fingerprint) planned.0 warnings))
        ∙ subst (λ p. is_true (lookup "ready" p) ≡ true) (sym same) ready in
      (validate_publish_plan_iff R plan).1 (
        fingerprint,
        map dict planned.0,
        prefixed (
            hexdigest (
              dict (
                plan_payload R parse_paper_size inspection.path (dict fingerprint) planned.0
                  warnings))),
        subst
            (λ p. IsAccepted R p fingerprint (map dict planned.0) (
              prefixed (
                hexdigest (
                  dict (
                    plan_payload R parse_paper_size inspection.path (dict fingerprint) planned.0
                      warnings)))))
            same
            (plan_of-IsAccepted inspection.path fingerprint planned.0 warnings tested (omega arith)
              sha size modified formed),
      )
