-- ===== src/Publishing/Samples.antt =====
-- A small Python and small drawings for the tests of the publishing code.
use Prim.Native.Char.{code}
use Prim.Native.Nat.{◌/◌}
use cadplot_mcp.Prelude.{
  ℕ, ◌+◌, ◌-◌, ◌*◌, true, false, Option, none, some, List, [], ◌∷◌, String, leb, ltb, ◌==◌, str_eq,
  if◌then◌else◌,
}
use cadplot_mcp.Prelude.Dicts.{Dict}
use cadplot_mcp.Prelude.Results.{ok, err, Exec}
use cadplot_mcp.Publishing.Value.{pos, Value, boolean, int, text}
use cadplot_mcp.Publishing.Runtime.{Runtime, Exception, value_error}
use cadplot_mcp.Publishing.Inspection.{
  PageSetupSummary, Point, FrameCandidate, DrawingInspection, PaperProfile, CadPlotConfig,
}
use cadplot_mcp.Publishing.Paper.{PaperSize}
use cadplot_mcp.Publishing.Batch.Approvals.{QueueApproval}

abbrev pub digest_a : String
digest_a = "aaaaaaaaaaaaaaaaaaaaaaaaaaaaaaaaaaaaaaaaaaaaaaaaaaaaaaaaaaaaaaaa"

abbrev pub digest_b : String
digest_b = "bbbbbbbbbbbbbbbbbbbbbbbbbbbbbbbbbbbbbbbbbbbbbbbbbbbbbbbbbbbbbbbb"

abbrev pub id_a : String
id_a = "sha256:aaaaaaaaaaaaaaaaaaaaaaaaaaaaaaaaaaaaaaaaaaaaaaaaaaaaaaaaaaaaaaaa"

abbrev pub id_b : String
id_b = "sha256:bbbbbbbbbbbbbbbbbbbbbbbbbbbbbbbbbbbbbbbbbbbbbbbbbbbbbbbbbbbbbbbb"

-- Whole numbers for the floats, with distances for differences, and one digest for every value.
abbrev pub small : Runtime
small = record {
  Real = ℕ;
  of_nat = λ n. n;
  add = λ a b. a + b;
  sub = λ a b. (a - b) + (b - a);
  mul = λ a b. a * b;
  div = λ a b. if b == 0 then none else some (a / b);
  magnitude = λ a. a;
  lt = λ a b. ltb a b;
  le = λ a b. leb a b;
  eq = λ a b. a == b;
  is_finite = λ a. true;
  is_close = λ a b. a == b;
  round_6 = λ a. a;
  format_3 = λ a. "0.000";
  hexdigest = λ v. digest_a;
  str_of = λ v. "value";
  casefold = λ s. s;
  repr = λ s. s;
  resolve = λ s. s;
  parent_name = λ s. s;
  is_space = λ c. code c == 32;
  is_printable = λ c. leb 32 (code c);
}

abbrev pub no_template : PaperProfile ℕ
no_template = record {
  id = "a4";
  labels = "a4" ∷ [];
  page_setup = "A4-PDF";
  plotter = "PDF";
  plot_style = "mono";
  canonical_media = some "A4";
  template_layout = none;
  template_drawing = none;
  template_sha256 = none;
  tolerance_mm = 3;
}

abbrev pub config : CadPlotConfig ℕ
config = record {
  paper_profiles = no_template ∷ [];
  drawing_unit_mm = 1;
  scale_denominators = 50 ∷ 100 ∷ [];
  scale_tolerance_ratio = 0;
  require_page_setup_match = true;
  layout_prefix = "CADPLOT";
  minimum_frame_confidence = 1;
  frame_layers = "FRAMES" ∷ [];
}

abbrev pub setup : PageSetupSummary ℕ
setup = record {
  name = "A4-PDF";
  model_type = false;
  plotter = some "PDF";
  media_name = some "A4";
  plot_style = some "mono";
  plot_type = some 5;
  use_standard_scale = some true;
  standard_scale = some 16;
  custom_scale_numerator = none;
  custom_scale_denominator = none;
}

abbrev pub point : ℕ → ℕ → Point ℕ
point x y = record { x = x; y = y; z = 0 }

abbrev pub frame_on : String → FrameCandidate ℕ
frame_on layer = record {
  handle = "2A";
  layer = layer;
  min_point = point 0 0;
  max_point = point 29700 21000;
  label = "a4";
  width_mm = 297;
  height_mm = 210;
  confidence = 1;
}

abbrev pub drawing : List (FrameCandidate ℕ) → DrawingInspection ℕ
drawing frames = record {
  path = "plan.dwg";
  layouts = [];
  page_setups = setup ∷ [];
  frames = frames;
  warnings = [];
}

abbrev pub a4 : String → Option (PaperSize ℕ)
a4 label = if str_eq label "a4" then some (record { width_mm = 210; height_mm = 297 }) else none

abbrev pub fingerprint : Dict String (Value ℕ)
fingerprint =
    ("path", text "plan.dwg")
    ∷ ("size_bytes", int (pos 4096))
    ∷ ("modified_ns", int (pos 7))
    ∷ ("sha256", text digest_b)
    ∷ []

-- A planner that counts its calls and fails at one drawing.
abbrev pub planner : String → Exec Exception ℕ (Dict String (Value ℕ))
planner path n =
    if str_eq path "bad.dwg"
    then (err (value_error "unreadable"), n + 1)
    else (ok (("plan_id", text id_a) ∷ ("ready", boolean true) ∷ []), n + 1)

abbrev pub queue_approval : String → String → String → QueueApproval
queue_approval path plan_id digest = record {
  manifest_path = path;
  plan_id = plan_id;
  manifest_sha256 = digest;
}

abbrev pub two_approvals : List QueueApproval
two_approvals = queue_approval "/a" id_a digest_a ∷ queue_approval "/b" id_b digest_b ∷ []
