-- ===== src/Publishing/Planner/Plan.antt =====
-- The plan of a drawing: `create_publish_plan` of src/cadplot_mcp/planner.py.
use cadplot_mcp.Prelude.{
  ℕ, suc, ◌&&◌, ◌++◌, Bool, not, Option, none, some, List, [], ◌∷◌, map, String, is_empty, all,
}
use cadplot_mcp.Prelude.Classes.{string_eq}
use cadplot_mcp.Prelude.Dicts.{Dict, lookup}
use cadplot_mcp.Prelude.Results.{Result, ok, then_do}
use cadplot_mcp.Publishing.Value.{
  pos, Value, null, boolean, int, text, list, dict, is_text, prefixed,
}
use cadplot_mcp.Publishing.Runtime.{Runtime, Exception}
use cadplot_mcp.Publishing.Inspection.{FrameCandidate, DrawingInspection, CadPlotConfig}
use cadplot_mcp.Publishing.Paper.{PaperSize}
use cadplot_mcp.Publishing.Planner.Templates.{Evidence}
use cadplot_mcp.Publishing.Planner.Sheets.{plan_frame}

abbrev pub warning_list : Option String → List String
warning_list none = []
warning_list (some w) = w ∷ []

module _ (R : Runtime) (parse_paper_size : String → Option (PaperSize R.Real)) where
  open R use {Real, hexdigest}

  -- `sheet["status"] == "matched"`
  unfoldable pub is_matched : Dict String (Value Real) → Bool
  unfolding is_text lookup
  is_matched sheet = is_text "matched" (lookup "status" sheet)

  -- The loop over the frames, numbered from `index` on: the sheets and their warnings.
  unfoldable pub plan_frames :
      DrawingInspection Real
      → CadPlotConfig Real
      → Evidence Real
      → ℕ
      → List (FrameCandidate Real)
      → Result Exception (List (Dict String (Value Real)) × List String)
  plan_frames inspection config evidence index [] = ok ([], [])
  plan_frames inspection config evidence index (frame ∷ frames) =
      then_do (plan_frame R parse_paper_size inspection config evidence index frame) λ sheet.
        then_do (plan_frames inspection config evidence (suc index) frames)
          λ rest. ok (sheet.0 ∷ rest.0, warning_list sheet.1 ++ rest.1)

  unfoldable pub plan_payload :
      String → Value Real → List (Dict String (Value Real)) → List String → Dict String (Value Real)
  plan_payload drawing fingerprint sheets warnings =
      ("schema_version", int (pos 1))
      ∷ ("mode", text "dry-run")
      ∷ ("drawing", text drawing)
      ∷ ("drawing_fingerprint", fingerprint)
      ∷ ("sheets", list (map dict sheets))
      ∷ ("warnings", list (map text warnings))
      ∷ []

  -- `bool(sheets) and all(...)`
  unfoldable pub is_ready : List (Dict String (Value Real)) → Bool
  unfolding all is_matched
  is_ready sheets = not (is_empty sheets) && all is_matched sheets

  -- The plan that is returned: the payload behind its identifier.
  unfoldable pub plan_of :
      String → Value Real → List (Dict String (Value Real)) → List String → Dict String (Value Real)
  unfolding plan_payload is_ready prefixed
  plan_of drawing fingerprint sheets warnings =
      let payload = plan_payload drawing fingerprint sheets warnings in
      ("plan_id", text (prefixed (hexdigest (dict payload))))
      ∷ ("ready", boolean (is_ready sheets))
      ∷ payload

  unfoldable pub create_publish_plan :
      DrawingInspection Real
      → CadPlotConfig Real
      → Option (Dict String (Value Real))
      → Evidence Real
      → Result Exception (Dict String (Value Real))
  create_publish_plan inspection config fingerprint evidence =
      then_do (plan_frames inspection config evidence 1 inspection.frames) λ planned. ok (
        plan_of inspection.path (elim fingerprint [ none ↦ null | some d ↦ dict d ]) planned.0
          (inspection.warnings ++ planned.1))
