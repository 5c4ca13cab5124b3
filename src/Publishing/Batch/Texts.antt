-- ===== src/Publishing/Batch/Texts.antt =====
-- The bounded error texts of src/cadplot_mcp/batch.py: `_bounded_status_error`, and the pattern of a
-- job's error.
pub mod Bounded
use Prim.Native.Char.{Char, code}
use cadplot_mcp.Prelude.{
  ℕ, zero, suc, ◌||◌, ◌&&◌, Bool, true, false, not, String, ◌==◌, str_eq, if◌then◌else◌, leb,
}
use cadplot_mcp.Publishing.Value.{
  pos, negsuc, Value, Items, Fields, null, boolean, int, float, array, object, text, text_length,
}
use cadplot_mcp.Publishing.Runtime.{Runtime}

-- `character if character.isprintable() else " "` for each character
unfoldable pub blank_out : (Char → Bool) → String → String
blank_out printable String.[] = ""
blank_out printable (String.◌∷◌ c s) =
    String.◌∷◌ (if printable c then c else " ") (blank_out printable s)

-- `s.strip()`
unfoldable pub left_strip : (Char → Bool) → String → String
left_strip space String.[] = ""
left_strip space (String.◌∷◌ c s) = if space c then left_strip space s else String.◌∷◌ c s

unfoldable pub right_strip : (Char → Bool) → String → String
right_strip space String.[] = ""
right_strip space (String.◌∷◌ c s) =
    let rest = right_strip space s in if space c && str_eq rest "" then "" else String.◌∷◌ c rest

unfoldable pub take_text : ℕ → String → String
take_text zero s = ""
take_text (suc n) String.[] = ""
take_text (suc n) (String.◌∷◌ c s) = String.◌∷◌ c (take_text n s)

-- `s or default`
abbrev pub or_text : String → String → String
or_text s default = if str_eq s "" then default else s

-- `re.fullmatch(r"[A-Za-z0-9_:-]{1,128}", s)`
abbrev is_error_char : ℕ → Bool
is_error_char c =
    (leb b'A' c && leb c b'Z')
    || (leb b'a' c && leb c b'z')
    || (leb b'0' c && leb c b'9')
    || (c == b'_')
    || (c == b':')
    || (c == b'-')

unfoldable pub all_error_chars : String → Bool
all_error_chars String.[] = true
all_error_chars (String.◌∷◌ c s) = is_error_char (code c) && all_error_chars s

unfoldable pub is_job_error : String → Bool
unfolding all_error_chars text_length
is_job_error s = leb 1 (text_length s) && leb (text_length s) 128 && all_error_chars s

module _ (R : Runtime) where
  open R use {Real, eq, of_nat, str_of, is_space, is_printable}

  unfoldable pub bounded_text : String → String
  unfolding blank_out left_strip right_strip take_text
  bounded_text s = take_text 256 (
      or_text (right_strip is_space (left_strip is_space (blank_out is_printable s)))
        "status_error")

  -- `value or default` is the value
  unfoldable pub is_truthy : Value Real → Bool
  is_truthy null = false
  is_truthy (boolean b) = b
  is_truthy (int (pos n)) = not (n == 0)
  is_truthy (int (negsuc n)) = true
  is_truthy (float x) = not (eq x (of_nat 0))
  is_truthy (text s) = not (str_eq s "")
  is_truthy (array Items.nil) = false
  is_truthy (array (Items.cons v vs)) = true
  is_truthy (object Fields.end) = false
  is_truthy (object (Fields.field k v fs)) = true

  unfoldable pub text_of : Value Real → String
  text_of (text s) = s
  text_of other = str_of other

  -- `_bounded_status_error(error or default)`
  unfoldable pub bounded_status_error : Value Real → String → String
  unfolding bounded_text is_truthy text_of
  bounded_status_error error default =
      bounded_text (if is_truthy error then text_of error else default)
