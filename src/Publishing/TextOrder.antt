-- ===== src/Publishing/TextOrder.antt =====
-- The order of Python's strings, by code points: `compare` of two texts is read character by
-- character, so that a smaller text is never a greater one.
use Prim.Native.Char.{Char, code}
use Prim.Native.Nat.{Ordering, compare as compare_ℕ}
use Prim.Native.String.compare
use Prim.Native.String.{String, compare, then}
use mathlib.Core.Path.{◌≡◌, refl, ap, ◌∙◌}
use text.Mathlib.Text.{is_lt}
use text.Mathlib.TextEquality.{Char-path}
use cadplot_mcp.Prelude.{
  ℕ, ◌<◌, Bool-cases, Bool, true, false, ◌&&◌, ◌||◌, ◌⊎◌, inl, inr, arith, ltb, ◌==◌,
}

-- `s < t`
unfoldable pub text_lt : String → String → Bool
text_lt s t = is_lt (compare s t)

then_lt :
    (m n : ℕ) (o : Ordering) → is_lt (then (compare_ℕ m n) o) ≡ (ltb m n || ((m == n) && is_lt o))
then_lt m n o = ground arith

text_lt-cons :
    (c d : Char) (s t : String)
    → text_lt (String.◌∷◌ c s) (String.◌∷◌ d t)
      ≡ (ltb (code c) (code d) || ((code c == code d) && text_lt s t))
unfolding text_lt
text_lt-cons c d s t =
    ap is_lt (λ i. compare.cons-cons c d s t i) ∙ then_lt (code c) (code d) (compare s t)

text_lt-nil-nil : text_lt String.[] String.[] ≡ false
unfolding text_lt
text_lt-nil-nil = ap is_lt (λ i. compare.nil-nil i)

text_lt-nil-cons : (d : Char) (t : String) → text_lt String.[] (String.◌∷◌ d t) ≡ true
unfolding text_lt
text_lt-nil-cons d t = ap is_lt (λ i. compare.nil-cons d t i)

text_lt-cons-nil : (c : Char) (s : String) → text_lt (String.◌∷◌ c s) String.[] ≡ false
unfolding text_lt
text_lt-cons-nil c s = ap is_lt (λ i. compare.cons-nil c s i)

ℕ-cases : (m n : ℕ) → (m < n) ⊎ ((n < m) ⊎ (m ≡ n))
ℕ-cases m n = elim (Bool-cases (ltb m n)) [
  | inl less ↦ inl (ground arith)
  | inr other ↦ elim (Bool-cases (ltb n m)) [
    | inl more ↦ inr (inl (ground arith))
    | inr neither ↦ inr (inr (ground arith))
  ]
]

-- Of two texts one is smaller, or they are the same.
pub text_lt_total : (s t : String) → (text_lt s t ≡ true) ⊎ ((text_lt t s ≡ true) ⊎ (s ≡ t))
text_lt_total String.[] String.[] = inr (inr refl)
text_lt_total String.[] (String.◌∷◌ d t) = inl (text_lt-nil-cons d t)
text_lt_total (String.◌∷◌ c s) String.[] = inr (inl (text_lt-nil-cons c s))
text_lt_total (String.◌∷◌ c s) (String.◌∷◌ d t) = elim (ℕ-cases (code c) (code d)) [
  | inl less ↦ inl (ground (arith, text_lt-cons c d s t))
  | inr (inl more) ↦ inr (inl (ground (arith, text_lt-cons d c t s)))
  | inr (inr same) ↦ elim (text_lt_total s t) [
    | inl below ↦ inl (ground (arith, text_lt-cons c d s t))
    | inr (inl above) ↦ inr (inl (ground (arith, text_lt-cons d c t s)))
    | inr (inr equal) ↦ inr (inr (λ i. String.◌∷◌ (Char-path c d same i) (equal i)))
  ]
]

pub text_lt_asymmetric : (s t : String) → text_lt s t ≡ true → text_lt t s ≡ false
text_lt_asymmetric String.[] String.[] h = text_lt-nil-nil
text_lt_asymmetric String.[] (String.◌∷◌ d t) h = text_lt-cons-nil d t
text_lt_asymmetric (String.◌∷◌ c s) String.[] h = absurd (cc (text_lt-cons-nil c s))
text_lt_asymmetric (String.◌∷◌ c s) (String.◌∷◌ d t) h =
    ground (arith, text_lt-cons c d s t, text_lt-cons d c t s, text_lt_asymmetric s t)

pub text_lt_trans : (s t u : String) → text_lt s t ≡ true → text_lt t u ≡ true → text_lt s u ≡ true
text_lt_trans String.[] String.[] u h k = k
text_lt_trans String.[] (String.◌∷◌ d t) String.[] h k = absurd (cc (text_lt-cons-nil d t))
text_lt_trans String.[] (String.◌∷◌ d t) (String.◌∷◌ e u) h k = text_lt-nil-cons e u
text_lt_trans (String.◌∷◌ c s) String.[] u h k = absurd (cc (text_lt-cons-nil c s))
text_lt_trans (String.◌∷◌ c s) (String.◌∷◌ d t) String.[] h k = absurd (cc (text_lt-cons-nil d t))
text_lt_trans (String.◌∷◌ c s) (String.◌∷◌ d t) (String.◌∷◌ e u) h k =
    ground
      (arith, text_lt-cons c d s t, text_lt-cons d e t u, text_lt-cons c e s u, text_lt_trans s t u)
