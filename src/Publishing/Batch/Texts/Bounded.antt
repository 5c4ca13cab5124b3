-- ===== src/Publishing/Batch/Texts/Bounded.antt =====
-- The error texts of src/cadplot_mcp/batch.py: what `_bounded_status_error` leaves of what a worker
-- says.
use Prim.Native.Char.{Char}
use Prim.Native.String.{◌++◌ as append}
use Prim.Native.String.append.{nil as append-nil, cons as append-cons}
use cadplot_mcp.Prelude.{
  ℕ, zero, suc, ◌≤◌, ◌≡◌, ◌∙◌, inl, inr, refl, ap, sym, Bool, true, false, ◌&&◌, String, Bool-cases,
  arith, str_eq,
}
use cadplot_mcp.Prelude.Classes.{string_eq}
use cadplot_mcp.Publishing.Value.{text_length}
use cadplot_mcp.Publishing.Runtime.{Runtime}
use cadplot_mcp.Publishing.Batch.Texts.{
  blank_out, left_strip, right_strip, take_text, or_text, bounded_text,
}

unfoldable pub all_chars : (Char → Bool) → String → Bool
all_chars p String.[] = true
all_chars p (String.◌∷◌ c s) = p c && all_chars p s

-- A text of 1 to 256 characters that pass the test.
pub record IsBounded (p : Char → Bool) (s : String) : Type 0 where
  pub some_char : 1 ≤ text_length s
  pub bounded : text_length s ≤ 256
  pub allowed : all_chars p s ≡ true

module _ (p space : Char → Bool) where
  blank_out-allowed : (s : String) → p " " ≡ true → all_chars p (blank_out p s) ≡ true
  unfolding all_chars blank_out
  blank_out-allowed String.[] h = refl
  blank_out-allowed (String.◌∷◌ c s) h = ground (arith, blank_out-allowed s h)

  left_strip-allowed : (s : String) → all_chars p s ≡ true → all_chars p (left_strip space s) ≡ true
  unfolding all_chars left_strip
  left_strip-allowed String.[] h = refl
  left_strip-allowed (String.◌∷◌ c s) h = ground (arith, left_strip-allowed s)

  right_strip-allowed :
      (s : String) → all_chars p s ≡ true → all_chars p (right_strip space s) ≡ true
  unfolding all_chars right_strip
  right_strip-allowed String.[] h = refl
  right_strip-allowed (String.◌∷◌ c s) h =
      elim (Bool-cases (space c && str_eq (right_strip space s) "")) [
        | inl blank ↦ rw blank refl
        | inr kept ↦ rw kept (ground (arith, right_strip-allowed s))
      ]

  take_text-allowed :
      (n : ℕ) (s : String) → all_chars p s ≡ true → all_chars p (take_text n s) ≡ true
  unfolding all_chars take_text
  take_text-allowed zero s h = refl
  take_text-allowed (suc n) String.[] h = refl
  take_text-allowed (suc n) (String.◌∷◌ c s) h = ground (arith, take_text-allowed n s)

  text_length-take_text : (n : ℕ) (s : String) → text_length (take_text n s) ≤ n
  unfolding text_length take_text
  text_length-take_text zero s = omega arith
  text_length-take_text (suc n) String.[] = omega arith
  text_length-take_text (suc n) (String.◌∷◌ c s) = omega (arith, text_length-take_text n s)

  take_text-some_char : (s : String) → str_eq s "" ≡ false → 1 ≤ text_length (take_text 256 s)
  unfolding text_length take_text
  take_text-some_char String.[] h = absurd cc
  take_text-some_char (String.◌∷◌ c s) h = omega arith

  or_text-allowed :
      (s default : String)
      → all_chars p s ≡ true
      → all_chars p default ≡ true
      → all_chars p (or_text s default) ≡ true
  or_text-allowed s default h k = ground arith

  or_text-some : (s : String) → str_eq (or_text s "status_error") "" ≡ false
  or_text-some s = elim (Bool-cases (str_eq s "")) [
    | inl empty ↦ rw empty refl
    | inr other ↦ rw other other
  ]

-- The two fixed texts of the code, with a space between them.
abbrev pub fixed_texts : String
fixed_texts = "status_error invalid_status_response"

and_true : {a b : Bool} → (a && b) ≡ true → (a ≡ true) × (b ≡ true)
and_true {a} {b} h = ground arith

all_chars-append :
    (p : Char → Bool) (s t : String) → all_chars p (append s t) ≡ (all_chars p s && all_chars p t)
unfolding all_chars
all_chars-append p String.[] t = ap (all_chars p) (λ i. append-nil t i)
all_chars-append p (String.◌∷◌ c s) t =
    ap (all_chars p) (λ i. append-cons c s t i) ∙ ground (arith, all_chars-append p s t)

module _ (R : Runtime) (printable : all_chars R.is_printable fixed_texts ≡ true) where
  open R use {Real, is_printable, is_space}

  texts_printable :
      (all_chars is_printable "status_error" ≡ true)
      × (all_chars is_printable " invalid_status_response" ≡ true)
  texts_printable =
      and_true
        (sym (all_chars-append is_printable "status_error" " invalid_status_response") ∙ printable)

  space_printable : is_printable " " ≡ true
  unfolding all_chars
  space_printable = (and_true (texts_printable.1)).0

  default_printable : all_chars is_printable "status_error" ≡ true
  default_printable = texts_printable.0

  invalid_printable : all_chars is_printable "invalid_status_response" ≡ true
  unfolding all_chars
  invalid_printable = (and_true (texts_printable.1)).1

  pub bounded_text-IsBounded : (s : String) → IsBounded is_printable (bounded_text R s)
  unfolding bounded_text
  bounded_text-IsBounded s =
      let stripped = right_strip is_space (left_strip is_space (blank_out is_printable s)) in
      let allowed = right_strip-allowed is_printable is_space _ (
        left_strip-allowed is_printable is_space _
          (blank_out-allowed is_printable is_space s space_printable)) in
      record {
        some_char =
            take_text-some_char is_printable is_space _
              (or_text-some is_printable is_space stripped);
        bounded = text_length-take_text is_printable is_space 256 _;
        allowed = take_text-allowed is_printable is_space 256 _ (
            or_text-allowed is_printable is_space stripped "status_error" allowed
              default_printable);
      }

  pub invalid_response-IsBounded : IsBounded is_printable "invalid_status_response"
  unfolding text_length
  invalid_response-IsBounded = record {
    some_char = omega arith;
    bounded = omega arith;
    allowed = invalid_printable;
  }
