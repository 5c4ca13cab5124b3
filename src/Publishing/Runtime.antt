-- ===== src/Publishing/Runtime.antt =====
-- What the publishing code takes from Python and its standard library, as one argument: floats,
-- SHA-256 of canonical JSON, text tables and paths. Exceptions are values.
use Prim.Native.Char.{Char}
use cadplot_mcp.Prelude.{ℕ, String, Bool, true, false, Option}
use cadplot_mcp.Publishing.Value.{Value}

pub record Runtime : Type 1 where
  pub Real : Type 0
  -- Arithmetic of floats; a division by zero raises.
  pub of_nat : ℕ → Real
  pub add : Real → Real → Real
  pub sub : Real → Real → Real
  pub mul : Real → Real → Real
  pub div : Real → Real → Option Real
  pub magnitude : Real → Real
  pub lt : Real → Real → Bool
  pub le : Real → Real → Bool
  pub eq : Real → Real → Bool
  pub is_finite : Real → Bool
  -- `math.isclose(a, b, rel_tol=1e-9, abs_tol=1e-12)`
  pub is_close : Real → Real → Bool
  -- `round(x, 6)` and `f"{x:.3f}"`
  pub round_6 : Real → Real
  pub format_3 : Real → String
  -- `hashlib.sha256(json.dumps(value, sort_keys=True, ...).encode()).hexdigest()`
  pub hexdigest : Value Real → String
  -- `str(value)` of a value that is no string
  pub str_of : Value Real → String
  pub casefold : String → String
  pub repr : String → String
  -- `str(Path(path).expanduser().resolve(strict=False))`
  pub resolve : String → String
  -- `Path(path).parent.name`
  pub parent_name : String → String
  pub is_space : Char → Bool
  pub is_printable : Char → Bool

-- An exception: the name of its class, `str(exc)`, and whether it is a ValueError.
pub record Exception : Type 0 where
  pub name : String
  pub message : String
  pub is_value_error : Bool

abbrev pub value_error : String → Exception
value_error s = record { name = "ValueError"; message = s; is_value_error = true }

abbrev pub runtime_error : String → Exception
runtime_error s = record { name = "RuntimeError"; message = s; is_value_error = false }
