-- ===== src/Publishing/Planner/Names.antt =====
-- The name of a sheet's layout: `_target_layout_name` of src/cadplot_mcp/planner.py.
use Prim.Native.Char.{Char, code}
use Prim.Native.String.{◌++◌ as append}
use cadplot_mcp.Prelude.{
  ℕ, zero, suc, ◌||◌, ◌&&◌, Bool, true, false, String, leb, ltb, ◌==◌, if◌then◌else◌,
}
use Prim.Native.Nat.{◌/◌, ◌%◌}
use cadplot_mcp.Publishing.Batch.Texts.{left_strip, right_strip, take_text, or_text}

-- `[A-Za-z0-9_-]`
abbrev is_safe : Char → Bool
is_safe c =
    (leb b'A' (code c) && leb (code c) b'Z')
    || (leb b'a' (code c) && leb (code c) b'z')
    || (leb b'0' (code c) && leb (code c) b'9')
    || (code c == b'_')
    || (code c == b'-')

-- `re.sub(r"[^A-Za-z0-9_-]+", "_", s)`: each run of other characters becomes one underscore; the
-- flag says that the previous character was one of them.
unfoldable pub replace_unsafe : Bool → String → String
replace_unsafe inside String.[] = ""
replace_unsafe inside (String.◌∷◌ c s) = elim (is_safe c) [
  | true ↦ String.◌∷◌ c (replace_unsafe false s)
  | false ↦ if inside then replace_unsafe true s else append "_" (replace_unsafe true s)
]

-- `str(n)`, for a digit and for any number below ten to the fuel
unfoldable pub digit : ℕ → String
digit n =
    if n == 0
    then "0"
    else if n == 1
    then "1"
    else if n == 2
    then "2"
    else if n == 3
    then "3"
    else if n == 4
    then "4"
    else if n == 5
    then "5"
    else if n == 6
    then "6"
    else if n == 7
    then "7"
    else if n == 8
    then "8"
    else "9"

unfoldable pub decimal : ℕ → ℕ → String
unfolding digit
decimal zero n = digit n
decimal (suc fuel) n =
    let front = decimal fuel (n / 10) in if ltb n 10 then digit n else append front (digit (n % 10))

-- `f"{n:04d}"`
unfoldable pub pad_4 : ℕ → String
unfolding decimal
pad_4 n =
    let s = decimal n n in
    if ltb n 10
    then append "000" s
    else if ltb n 100
    then append "00" s
    else if ltb n 1000
    then append "0" s
    else s

abbrev is_underscore : Char → Bool
is_underscore c = code c == b'_'

unfoldable pub safe_handle : String → String
unfolding replace_unsafe left_strip right_strip
safe_handle handle =
    right_strip is_underscore
      (left_strip is_underscore (replace_unsafe false (or_text handle "NOHANDLE")))

unfoldable pub target_layout_name : ℕ → String → String → String
unfolding safe_handle pad_4 take_text
target_layout_name index handle layout_prefix = take_text 255 (
    append layout_prefix
      (append "_" (append (pad_4 index) (append "_" (or_text (safe_handle handle) "NOHANDLE")))))
