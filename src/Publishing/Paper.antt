-- ===== src/Publishing/Paper.antt =====
-- The paper that a frame's label asks for: `normalize_label` of src/cadplot_mcp/paper.py and
-- `match_paper_profile` of src/cadplot_mcp/config.py. The patterns of `parse_paper_size` are an
-- argument.
use Prim.Native.Char.{code}
use Prim.Native.String.{◌++◌ as append}
use cadplot_mcp.Prelude.{
  ◌||◌, ◌&&◌, Bool, false, Option, none, some, List, [], ◌∷◌, map, String, leb, length, keep, any,
  if◌then◌else◌, ltb,
}
use cadplot_mcp.Prelude.Classes.{string_eq, contains}
use cadplot_mcp.Prelude.Results.{Result, ok, err}
use cadplot_mcp.Publishing.Runtime.{Runtime, Exception, value_error}
use cadplot_mcp.Publishing.Inspection.{PaperProfile, CadPlotConfig}

-- `width_mm` and `height_mm` of a PaperSize
pub record PaperSize (Real : Type 0) : Type 0 where
  pub width_mm : Real
  pub height_mm : Real

-- `re.sub(r"[^a-z0-9]+", "", s)`
unfoldable pub keep_alphanumeric : String → String
keep_alphanumeric String.[] = ""
keep_alphanumeric (String.◌∷◌ c s) =
    let rest = keep_alphanumeric s in
    if (leb b'a' (code c) && leb (code c) b'z') || (leb b'0' (code c) && leb (code c) b'9')
    then String.◌∷◌ c rest
    else rest

-- The first of a list, if there is one.
abbrev pub first {ℓ} : {A : Type ℓ} → List A → Option A
first [] = none
first (x ∷ xs) = some x

module _ (R : Runtime) (parse_paper_size : String → Option (PaperSize R.Real)) where
  open R use {Real, sub, magnitude, lt, le, casefold}

  unfoldable pub normalize_label : String → String
  unfolding keep_alphanumeric
  normalize_label value = keep_alphanumeric (casefold value)

  -- `orientation_independent`: the smaller side and the larger one
  abbrev smaller : PaperSize Real → Real
  smaller size = if lt size.height_mm size.width_mm then size.height_mm else size.width_mm

  abbrev larger : PaperSize Real → Real
  larger size = if lt size.height_mm size.width_mm then size.width_mm else size.height_mm

  unfoldable pub has_label : String → PaperProfile Real → Bool
  unfolding contains normalize_label
  has_label label profile = contains (normalize_label label) (map normalize_label profile.labels)

  unfoldable pub fits : PaperSize Real → PaperProfile Real → String → Bool
  fits requested profile alias = elim (parse_paper_size alias) [
    | none ↦ false
    | some size ↦
        le (magnitude (sub (smaller size) (smaller requested))) profile.tolerance_mm
        && le (magnitude (sub (larger size) (larger requested))) profile.tolerance_mm
  ]

  unfoldable pub has_size : PaperSize Real → PaperProfile Real → Bool
  unfolding any fits
  has_size requested profile = any (fits requested profile) profile.labels

  unfoldable pub match_paper_profile :
      CadPlotConfig Real → String → Result Exception (Option (PaperProfile Real))
  unfolding keep has_label has_size
  match_paper_profile config label =
      let direct = keep (has_label label) config.paper_profiles in
      if ltb 1 (length direct)
      then err (value_error (append "Ambiguous paper profile for label: " label))
      else elim (first direct) [
        | some profile ↦ ok (some profile)
        | none ↦ elim (parse_paper_size label) [
          | none ↦ ok none
          | some requested ↦
              let sized = keep (has_size requested) config.paper_profiles in
              if ltb 1 (length sized)
              then err
                  (value_error (append "Ambiguous paper profile for dimensions in label: " label))
              else ok (first sized)
        ]
      ]
