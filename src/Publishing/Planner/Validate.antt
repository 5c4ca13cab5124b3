-- ===== src/Publishing/Planner/Validate.antt =====
-- The check of a plan that comes back: `validate_publish_plan` of src/cadplot_mcp/planner.py.
use cadplot_mcp.Prelude.{
  Bool, true, false, not, Option, none, some, List, [], ◌∷◌, String, ltb, length, all, ◌==◌, str_eq,
  is_empty,
}
use cadplot_mcp.Prelude.Classes.{string_eq}
use cadplot_mcp.Prelude.Dicts.{Dict, lookup}
use cadplot_mcp.Prelude.Results.{Result, ok, err, refuse}
use cadplot_mcp.Publishing.Value.{
  pos, Value, boolean, int, float, text, object, list, dict, is_true, is_text, as_dict, as_list,
  as_text, get, entries, is_digest, is_identifier, prefixed,
}
use cadplot_mcp.Publishing.Runtime.{Runtime, Exception, value_error}

module _ (R : Runtime) where
  open R use {Real, of_nat, eq, hexdigest}

  -- `value == 1`: Python compares numbers of all its kinds.
  unfoldable pub is_one : Option (Value Real) → Bool
  is_one (some (int (pos n))) = n == 1
  is_one (some (boolean b)) = b
  is_one (some (float x)) = eq x (of_nat 1)
  is_one other = false

  -- `isinstance(value, int) and value >= 0`: a bool is an int.
  unfoldable pub is_natural : Option (Value Real) → Bool
  is_natural (some (int (pos n))) = true
  is_natural (some (boolean b)) = true
  is_natural other = false

  -- `isinstance(sha256, str) and re.fullmatch(r"[0-9a-f]{64}", sha256)`
  unfoldable pub is_sha256 : Option (Value Real) → Bool
  unfolding is_digest
  is_sha256 (some (text s)) = is_digest s
  is_sha256 other = false

  -- `isinstance(sheet, dict) and sheet.get("status") == "matched"`
  unfoldable pub is_matched_value : Value Real → Bool
  unfolding is_text lookup entries
  is_matched_value (object fs) = is_text "matched" (lookup "status" (entries fs))
  is_matched_value other = false

  -- The payload that the identifier is computed from again.
  unfoldable pub payload_of : Dict String (Value Real) → List (Value Real) → Value Real
  unfolding get lookup
  payload_of plan sheets = dict (
      ("schema_version", get "schema_version" plan)
      ∷ ("mode", get "mode" plan)
      ∷ ("drawing", get "drawing" plan)
      ∷ ("drawing_fingerprint", get "drawing_fingerprint" plan)
      ∷ ("sheets", list sheets)
      ∷ ("warnings", get "warnings" plan)
      ∷ [])

  abbrev Checked : Type 0
  Checked = Result Exception (Unit {0})

  unfoldable pub check_identity : Dict String (Value Real) → List (Value Real) → Checked
  unfolding as_text is_identifier payload_of prefixed lookup
  check_identity plan sheets = elim (as_text (lookup "plan_id" plan)) [
    | none ↦ err (value_error "Publish plan has an invalid plan_id.")
    | some plan_id ↦
        refuse (not (is_identifier plan_id)) (value_error "Publish plan has an invalid plan_id.") (
          refuse (not (str_eq plan_id (prefixed (hexdigest (payload_of plan sheets)))))
            (value_error "Publish plan hash mismatch; recreate the plan before continuing.")
            (ok tt))
  ]

  unfoldable pub check_sheets : Dict String (Value Real) → Checked
  unfolding as_list all is_matched_value check_identity lookup
  check_sheets plan = elim (as_list (lookup "sheets" plan)) [
    | none ↦ err (value_error "Publish plan must contain at least one sheet.")
    | some sheets ↦
        refuse (is_empty sheets) (value_error "Publish plan must contain at least one sheet.") (
          refuse (ltb 5000 (length sheets))
            (value_error "Publish plan exceeds the 5000-sheet safety limit.")
            (refuse (not (all is_matched_value sheets))
              (value_error "Every sheet must have an approved paper-profile match.")
              (check_identity plan sheets)))
  ]

  unfoldable pub check_fingerprint : Dict String (Value Real) → Checked → Checked
  unfolding is_sha256 is_natural lookup
  check_fingerprint fingerprint next =
      refuse (not (is_sha256 (lookup "sha256" fingerprint)))
        (value_error "Publish plan contains an invalid drawing fingerprint.")
        (refuse (not (is_natural (lookup "size_bytes" fingerprint)))
          (value_error "Publish plan contains an invalid drawing size.")
          (refuse (not (is_natural (lookup "modified_ns" fingerprint)))
            (value_error "Publish plan contains an invalid drawing timestamp.") next))

  unfoldable pub validate_publish_plan : Dict String (Value Real) → Checked
  unfolding is_one is_text is_true as_dict check_fingerprint check_sheets lookup
  validate_publish_plan plan =
      refuse (not (is_one (lookup "schema_version" plan)))
        (value_error "Unsupported publish-plan schema version.")
        (refuse (not (is_text "dry-run" (lookup "mode" plan)))
          (value_error "Only dry-run publish plans can be previewed.")
          (refuse (not (is_true (lookup "ready" plan)))
            (value_error "Publish plan is not ready; resolve every blocker first.")
            (elim (as_dict (lookup "drawing_fingerprint" plan)) [
              | none ↦ err (value_error "Publish plan is not bound to a drawing fingerprint.")
              | some fingerprint ↦ check_fingerprint fingerprint (check_sheets plan)
            ])))
