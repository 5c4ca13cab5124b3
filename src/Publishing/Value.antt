-- ===== src/Publishing/Value.antt =====
-- The values that JSON carries, as Python has them, and what the publishing code takes from the
-- language and from the standard library.
use Prim.Native.Char.{Char, code}
use Prim.Native.String.{String, ◌++◌ as append}
use Prim.Native.String.append.{nil as append-nil, cons as append-cons}
use cadplot_mcp.Prelude.{
  ℕ, suc, ◌-◌, ◌≡◌, refl, ap, ◌∙◌, Bool, true, false, ◌&&◌, ◌||◌, Option, none, some, List, [], ◌∷◌,
  arith, leb, ◌==◌, str_eq, if◌then◌else◌,
}
use cadplot_mcp.Prelude.Classes.{string_eq}
use cadplot_mcp.Prelude.Dicts.{Dict, lookup, insert}

-- Python's int: `negsuc n` is -(n + 1).
pub data ℤ : Type 0 where
  pos : ℕ → ℤ
  negsuc : ℕ → ℤ

-- The difference of two lengths, which may be negative.
unfoldable pub difference : ℕ → ℕ → ℤ
difference a b = if leb b a then pos (a - b) else negsuc (b - a - 1)

-- `Real` is the type of the floats.
mutual
  pub data Value (Real : Type 0) : Type 0 where
    null : Value Real
    boolean : Bool → Value Real
    int : ℤ → Value Real
    float : Real → Value Real
    text : String → Value Real
    array : Items Real → Value Real
    object : Fields Real → Value Real

  pub data Items (Real : Type 0) : Type 0 where
    nil : Items Real
    cons : Value Real → Items Real → Items Real

  pub data Fields (Real : Type 0) : Type 0 where
    end : Fields Real
    field : String → Value Real → Fields Real → Fields Real

module _ {Real : Type 0} where
  -- A list as a value, and back.
  unfoldable pub items : List (Value Real) → Items Real
  items [] = nil
  items (v ∷ vs) = cons v (items vs)

  unfoldable pub elements : Items Real → List (Value Real)
  elements nil = []
  elements (cons v vs) = v ∷ elements vs

  -- A dict as a value, and back.
  unfoldable pub fields : Dict String (Value Real) → Fields Real
  fields [] = end
  fields ((k, v) ∷ d) = field k v (fields d)

  unfoldable pub entries : Fields Real → Dict String (Value Real)
  entries end = []
  entries (field k v fs) = (k, v) ∷ entries fs

  abbrev pub list : List (Value Real) → Value Real
  list vs = array (items vs)

  abbrev pub dict : Dict String (Value Real) → Value Real
  dict d = object (fields d)

  pub elements-items : (vs : List (Value Real)) → elements (items vs) ≡ vs
  unfolding elements items
  elements-items [] = refl
  elements-items (v ∷ vs) = ap (λ (r : List (Value Real)). v ∷ r) (elements-items vs)

  pub entries-fields : (d : Dict String (Value Real)) → entries (fields d) ≡ d
  unfolding entries fields
  entries-fields [] = refl
  entries-fields ((k, v) ∷ d) = ap (λ (r : Dict String (Value Real)). (k, v) ∷ r) (entries-fields d)

  -- `value is True`
  unfoldable pub is_true : Option (Value Real) → Bool
  is_true (some (boolean b)) = b
  is_true other = false

  -- `value == "..."`; an absent key is None, which equals no text.
  unfoldable pub is_text : String → Option (Value Real) → Bool
  is_text s (some (text t)) = str_eq t s
  is_text s other = false

  -- `value is None`, where `get` gives None for an absent key
  unfoldable pub is_none : Option (Value Real) → Bool
  is_none none = true
  is_none (some null) = true
  is_none (some other) = false

  -- `isinstance(value, dict)`
  unfoldable pub as_dict : Option (Value Real) → Option (Dict String (Value Real))
  unfolding entries
  as_dict (some (object fs)) = some (entries fs)
  as_dict other = none

  -- `isinstance(value, list)`
  unfoldable pub as_list : Option (Value Real) → Option (List (Value Real))
  unfolding elements
  as_list (some (array vs)) = some (elements vs)
  as_list other = none

  -- `isinstance(value, str)`
  unfoldable pub as_text : Option (Value Real) → Option String
  as_text (some (text t)) = some t
  as_text other = none

  -- `d.get(key)` as a value: None for an absent key
  unfoldable pub get : String → Dict String (Value Real) → Value Real
  unfolding lookup
  get k d = elim (lookup k d) [ none ↦ null | some v ↦ v ]

  -- `{**first, **second}`
  unfoldable pub merge :
      Dict String (Value Real) → Dict String (Value Real) → Dict String (Value Real)
  unfolding insert
  merge d [] = d
  merge d ((k, v) ∷ e) = merge (insert k v d) e

-- `[0-9a-f]`
abbrev is_hex : Char → Bool
is_hex c = (leb b'0' (code c) && leb (code c) b'9') || (leb b'a' (code c) && leb (code c) b'f')

unfoldable pub all_hex : String → Bool
all_hex String.[] = true
all_hex (String.◌∷◌ c s) = is_hex c && all_hex s

unfoldable pub text_length : String → ℕ
text_length String.[] = 0
text_length (String.◌∷◌ c s) = suc (text_length s)

-- `re.fullmatch(r"[0-9a-f]{64}", s)`
unfoldable pub is_digest : String → Bool
unfolding all_hex text_length
is_digest s = text_length s == 64 && all_hex s

-- `"sha256:" + digest`
unfoldable pub prefixed : String → String
prefixed s = append "sha256:" s

-- `re.fullmatch(r"sha256:[0-9a-f]{64}", s)`
unfoldable pub after : String → String → Option String
after String.[] s = some s
after (String.◌∷◌ c p) String.[] = none
after (String.◌∷◌ c p) (String.◌∷◌ d s) = if code c == code d then after p s else none

unfoldable pub has_digest : Option String → Bool
unfolding is_digest
has_digest none = false
has_digest (some s) = is_digest s

unfoldable pub is_identifier : String → Bool
unfolding after has_digest
is_identifier s = has_digest (after "sha256:" s)

-- The digest behind the prefix is what it was.
after-append : (p s : String) → after p (append p s) ≡ some s
unfolding after
after-append String.[] s = ap some (λ i. append-nil s i)
after-append (String.◌∷◌ c p) s =
    let front : append (String.◌∷◌ c p) s ≡ String.◌∷◌ c (append p s) = λ i. append-cons c p s i in
    rw front (ground (arith, after-append p s))

pub prefixed-is_identifier : (s : String) → is_digest s ≡ true → is_identifier (prefixed s) ≡ true
unfolding is_identifier prefixed
prefixed-is_identifier s h = ap has_digest (after-append "sha256:" s) ∙ h
