-- ===== src/Gateway/Models/Bounds.antt =====
-- The bounds that the fields of the results declare in models.py and translation_protocol.py: what
-- `RESULT_ADAPTER.validate_python` accepts of a value of the right shape.
use Prim.Native.Char.{code}
use Prim.Native.String.{count}
use cadplot_mcp.Prelude.{
  ℕ, String, Bool, true, false, ◌&&◌, ◌||◌, Option, none, some, List, leb, ◌==◌, length, all,
}
use cadplot_mcp.Protocol.Translation.{Span, Record, Change, TranslationResponse}
use cadplot_mcp.Gateway.Models.{SafeCode, TaskResult}

abbrev is_lower : ℕ → Bool
is_lower c = leb b'a' c && leb c b'z'

abbrev is_code_char : ℕ → Bool
is_code_char c = is_lower c || ((leb b'0' c && leb c b'9') || c == b'_')

is_code_tail : String → Bool
is_code_tail String.[] = true
is_code_tail (String.◌∷◌ c s) = is_code_char (code c) && is_code_tail s

-- `^[a-z][a-z0-9_]{0,63}$`
unfoldable pub is_safe_code : SafeCode → Bool
unfolding is_code_tail
is_safe_code String.[] = false
is_safe_code (String.◌∷◌ c s) = is_lower (code c) && (is_code_tail s && leb (count s) 63)

abbrev codes_in_bounds : ℕ → List SafeCode → Bool
codes_in_bounds most codes = leb (length codes) most && all is_safe_code codes

abbrev in_count : ℕ → Bool
in_count n = leb n 100_000

abbrev in_optional_count : Option ℕ → Bool
in_optional_count none = true
in_optional_count (some n) = in_count n

abbrev in_text : String → Bool
in_text s = leb (count s) 32_000

abbrev span_in_bounds : Span → Bool
span_in_bounds s = in_text s.text && in_text s.normalized_for_search

abbrev record_in_bounds : Record → Bool
record_in_bounds r =
    (leb (count r.block) 255 && (leb (count r.layer) 255 && in_text r.raw))
    && (leb (length r.spans) 32_000 && all span_in_bounds r.spans)

abbrev change_in_bounds : Change → Bool
change_in_bounds c = in_text c.before && in_text c.after

unfoldable pub response_in_bounds : TranslationResponse → Bool
unfolding is_safe_code all
response_in_bounds (TranslationResponse.scan r) =
    (in_count r.total_records && (leb r.total_review_spans 1_000_000 && in_count r.offset))
    && ((in_optional_count r.next_offset && in_count r.blocker_count)
        && ((leb (length r.records) 100 && all record_in_bounds r.records)
            && codes_in_bounds 100 r.blocker_codes))
response_in_bounds (TranslationResponse.review r) = in_count r.reviewed_spans
response_in_bounds (TranslationResponse.plan r) =
    (in_count r.changed_records && (in_count r.reviewed_spans && in_count r.offset))
    && ((in_optional_count r.next_offset && in_count r.blocker_count)
        && ((leb (length r.changes) 100 && all change_in_bounds r.changes)
            && codes_in_bounds 100 r.blocker_codes))
response_in_bounds (TranslationResponse.apply r) = in_count r.changed_records

unfoldable pub result_in_bounds : TaskResult → Bool
unfolding response_in_bounds
result_in_bounds (TaskResult.validate_environment ready codes) = codes_in_bounds 50 codes
result_in_bounds (TaskResult.list_projects ids) = leb (length ids) 100
result_in_bounds (TaskResult.scan_drawings r) = leb (length r.drawing_ids) 100
result_in_bounds (TaskResult.inspect_drawing r) =
    leb r.layout_count 10_000 && (leb r.sheet_count 10_000 && codes_in_bounds 100 r.warning_codes)
result_in_bounds (TaskResult.create_publish_plan r) =
    leb r.sheet_count 10_000 && codes_in_bounds 100 r.warning_codes
result_in_bounds (TaskResult.translation drawing response) = response_in_bounds response
