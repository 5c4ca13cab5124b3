-- ===== src/Publishing/Planner/Checks.antt =====
-- The checks of a profile against a drawing: `_page_setup_error` and `_template_layout_error` of
-- src/cadplot_mcp/planner.py.
use Prim.Native.String.{◌++◌ as append}
use cadplot_mcp.Prelude.{
  Bool, true, false, not, Option, none, some, List, str_eq, String, keep, if◌then◌else◌,
}
use cadplot_mcp.Publishing.Runtime.{Runtime}
use cadplot_mcp.Publishing.Inspection.{
  LayoutSummary, PageSetupSummary, PaperProfile, CadPlotConfig, is_number,
  has_verified_one_to_one_scale,
}
use cadplot_mcp.Publishing.Paper.{first}

-- `value or ""`
abbrev or_empty : Option String → String
or_empty none = ""
or_empty (some s) = s

-- `wanted is not None and found != wanted`
unfoldable pub is_other_media : Option String → Option String → Bool
is_other_media none found = false
is_other_media (some wanted) none = true
is_other_media (some wanted) (some found) = not (str_eq found wanted)

module _ (R : Runtime) where
  open R use {Real, casefold, repr}

  abbrev same_fold : String → String → Bool
  same_fold a b = str_eq (casefold a) (casefold b)

  -- `f"page setup {name!r} ..."`
  abbrev about_setup : PaperProfile Real → String → String
  about_setup profile rest = append "page setup " (append (repr profile.page_setup) rest)

  abbrev about_layout : String → String → String
  about_layout name rest = append "template layout " (append (repr name) rest)

  -- `{value!r}` of an optional text
  abbrev repr_or_none : Option String → String
  repr_or_none none = "None"
  repr_or_none (some s) = repr s

  -- `... uses <what> {found!r}, expected <wanted>.`
  abbrev uses : PaperProfile Real → String → Option String → String → String
  uses profile what found wanted = about_setup profile (
      append " uses "
        (append what (append (repr_or_none found) (append ", expected " (append wanted ".")))))

  unfoldable pub scale_error : PaperProfile Real → PageSetupSummary Real → Option String
  unfolding has_verified_one_to_one_scale
  scale_error profile setup = elim setup.use_standard_scale [
    | none ↦ some (about_setup profile " plot scale could not be verified.")
    | some true ↦
        if has_verified_one_to_one_scale R setup
        then none
        else some (about_setup profile " does not use the required 1:1 layout plot scale.")
    | some false ↦
        if has_verified_one_to_one_scale R setup
        then none
        else some (about_setup profile " does not use the required 1:1 custom layout plot scale.")
  ]

  -- The checks of the setup that was found.
  unfoldable pub setup_error : PaperProfile Real → PageSetupSummary Real → Option String
  unfolding scale_error is_other_media
  setup_error profile setup =
      if setup.model_type
      then some (about_setup profile " is a model-space setup.")
      else if not (is_number 5 setup.plot_type)
      then some (about_setup profile " does not use the required Layout plot type.")
      else if not (same_fold (or_empty setup.plotter) profile.plotter)
      then some (uses profile "plotter " setup.plotter (repr profile.plotter))
      else if not (same_fold (or_empty setup.plot_style) profile.plot_style)
      then some (uses profile "plot style " setup.plot_style (repr profile.plot_style))
      else if is_other_media profile.canonical_media setup.media_name
      then some (
          uses profile "canonical media " setup.media_name
            (append "exact case-sensitive value " (repr_or_none profile.canonical_media)))
      else scale_error profile setup

  unfoldable pub page_setup_error :
      PaperProfile Real → List (PageSetupSummary Real) → CadPlotConfig Real → Option String
  unfolding keep setup_error
  page_setup_error profile page_setups config =
      if not config.require_page_setup_match
      then none
      else elim (first (
          keep (λ (setup : PageSetupSummary Real). same_fold setup.name profile.page_setup)
            page_setups)) [
              | none ↦ some (
                  append "required page setup "
                    (append (repr profile.page_setup) " was not found."))
              | some setup ↦ setup_error profile setup
            ]

  unfoldable pub template_layout_error : PaperProfile Real → List LayoutSummary → Option String
  unfolding keep
  template_layout_error profile layouts = elim profile.template_layout [
    | none ↦ none
    | some wanted ↦
        elim (first (keep (λ (layout : LayoutSummary). same_fold layout.name wanted) layouts)) [
          | none ↦
              some (append "required template layout " (append (repr wanted) " was not found."))
          | some layout ↦
              if layout.model_type
              then some (about_layout wanted " is model space.")
              else if not (is_number 1 layout.floating_viewport_count)
              then some
                  (about_layout wanted " must contain exactly one verified floating viewport.")
              else none
        ]
  ]
