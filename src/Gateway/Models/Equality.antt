-- ===== src/Gateway/Models/Equality.antt =====
-- Python's `==` on results: structural equality of the models.
use mathlib.Core.Bool.{decide}
use native.Mathlib.Decide.{ℕ_discrete}
use cadplot_mcp.Prelude.{
  String, Bool, true, ◌≡◌, refl, ◌↔◌, inl, inr, arith, str_eq, eq_iff, Bool-cases,
}
use cadplot_mcp.Gateway.Models.{TaskResult}

String-discrete : Discrete String
String-discrete s t = elim (Bool-cases (str_eq s t)) [
  | inl e ↦ yes ((eq_iff s t).0 e)
  | inr e ↦ no (λ p. ground (arith, eq_iff s t))
]

pub TaskResult-discrete : Discrete TaskResult
TaskResult-discrete = hlevel (ℕ_discrete, String-discrete)

unfoldable pub result_eq : TaskResult → TaskResult → Bool
result_eq a b = decide (TaskResult-discrete a b)

pub result_eq_iff : (a b : TaskResult) → (result_eq a b ≡ true) ↔ (a ≡ b)
unfolding result_eq decide
result_eq_iff a b = elim (TaskResult-discrete a b) as (λ d. (decide d ≡ true) ↔ (a ≡ b)) [
  | yes p ↦ ((λ _. p), (λ _. refl))
  | no f ↦ ((λ e. cc), (λ p. absurd (f p)))
]
