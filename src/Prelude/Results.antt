-- ===== src/Prelude/Results.antt =====
-- Exceptions as values, and methods that change an object and may raise. What was written before a
-- raise stays written, so the state comes back beside the error too.
use mathlib.Core.Path.{◌≡◌, refl, ap, subst, ◌∙◌}
use mathlib.Core.Logic.{◌⊎◌, inl, inr}
use mathlib.Core.Bool.{Bool, true, false}

pub data Result (E A : Type 0) : Type 0 where
  ok : A → Result E A
  err : E → Result E A

pub Result-cases :
    {E A : Type 0} (r : Result E A) → ((a : A) × (r ≡ ok a)) ⊎ ((e : E) × (r ≡ err e))
Result-cases (ok a) = inl (a, refl)
Result-cases (err e) = inr (e, refl)

-- `let x = m; f x` in code that changes nothing.
abbrev pub then_do : {E A B : Type 0} → Result E A → (A → Result E B) → Result E B
then_do (ok a) f = f a
then_do (err e) f = err e

abbrev pub Exec : Type 0 → Type 0 → Type 0 → Type 0
Exec E S A = S → Result E A × S

module _ {E A : Type 0} where
  -- `if b: raise e`, in code that changes nothing.
  abbrev pub refuse : Bool → E → Result E A → Result E A
  refuse true e r = err e
  refuse false e r = r

module _ {E S A : Type 0} where
  abbrev pub pure : A → Exec E S A
  pure a s = (ok a, s)

  abbrev pub raise : E → Exec E S A
  raise e s = (err e, s)

  abbrev pub lift : Result E A → Exec E S A
  lift r s = (r, s)

  abbrev pub gets : (S → A) → Exec E S A
  gets f s = (ok (f s), s)

module _ {E S : Type 0} where
  abbrev pub raise_if : Bool → E → Exec E S (Unit {0})
  raise_if true e s = (err e, s)
  raise_if false e s = (ok tt, s)

  abbrev pub modify : (S → S) → Exec E S (Unit {0})
  modify f s = (ok tt, f s)

infixl 5 ◌>>=◌ ◌>>◌
abbrev pub ◌>>=◌ : {E S A B : Type 0} → Exec E S A → (A → Exec E S B) → Exec E S B
◌>>=◌ m f s = let (r, s') = m s in elim r [ ok a ↦ f a s' | err e ↦ (err e, s') ]

abbrev pub ◌>>◌ : {E S A B : Type 0} → Exec E S A → Exec E S B → Exec E S B
m >> k = m >>= λ _. k

module _ {E S : Type 0} where
  -- A chain that returned: its first part did, and its rest did from there.
  pub bind-ok :
      {A B : Type 0} (m : Exec E S A) (f : A → Exec E S B) (s : S) (b : B) (t : S)
      → (m >>= f) s ≡ (ok b, t)
      → (a : A) × (u : S) × (m s ≡ (ok a, u)) × (f a u ≡ (ok b, t))
  bind-ok {A} {B} m f s b t h = of (m s) refl h
    where
      of :
          (p : Result E A × S)
          → m s ≡ p
          → (let (r, s') = p in
              elim r as (λ _. Result E B × S) [ ok a ↦ f a s' | err e ↦ (err e, s') ])
            ≡ (ok b, t)
          → (a : A) × (u : S) × (m s ≡ (ok a, u)) × (f a u ≡ (ok b, t))
      of (ok a, u) e k = (a, u, e, k)
      of (err x, u) e k = absurd cc

  -- A guard that let the code pass.
  pub raise_if-ok :
      (b : Bool) (e : E) (s : S) (x : Unit {0}) (t : S)
      → raise_if b e s ≡ (ok x, t)
      → (b ≡ false) × (s ≡ t)
  raise_if-ok true e s x t h = absurd cc
  raise_if-ok false e s x t h = (refl, cc)

  -- A chain whose first part returned goes on from there.
  pub bind-step :
      {A B : Type 0} (m : Exec E S A) (f : A → Exec E S B) (s : S) (a : A) (u : S)
      → m s ≡ (ok a, u)
      → (m >>= f) s ≡ f a u
  bind-step {A} {B} m f s a u e =
      ap
        (λ (p : Result E A × S).
          let (r, s') = p in
          elim r as (λ _. Result E B × S) [ ok a ↦ f a s' | err e ↦ (err e, s') ])
        e

  -- Whatever the state, what the method raises has this property.
  abbrev pub RaisesOnly : {A : Type 0} → (E → Type 0) → Exec E S A → Type 0
  RaisesOnly P m = (s : S) (e : E) (t : S) → m s ≡ (err e, t) → P e

  pub RaisesOnly-bind :
      {A B : Type 0} (P : E → Type 0) (m : Exec E S A) (f : A → Exec E S B)
      → RaisesOnly P m
      → ((a : A) → RaisesOnly P (f a))
      → RaisesOnly P (m >>= f)
  RaisesOnly-bind {A} {B} P m f h k s e t = of (m s) refl
    where
      of :
          (p : Result E A × S)
          → m s ≡ p
          → (let (r, s') = p in
              elim r as (λ _. Result E B × S) [ ok a ↦ f a s' | err e ↦ (err e, s') ])
            ≡ (err e, t)
          → P e
      of (ok a, u) q z = k a u e t z
      of (err x, u) q z = h s e t (q ∙ cc)

  pub RaisesOnly-raise_if : (P : E → Type 0) (b : Bool) (e : E) → P e → RaisesOnly P (raise_if b e)
  RaisesOnly-raise_if P true e h s x t z = let same : e ≡ x = cc in subst P same h
  RaisesOnly-raise_if P false e h s x t z = absurd cc

  pub RaisesOnly-pure : {A : Type 0} (P : E → Type 0) (a : A) → RaisesOnly P (pure a)
  RaisesOnly-pure P a s e t z = absurd cc

  pub RaisesOnly-raise :
      {A : Type 0} (P : E → Type 0) (e : E) → P e → RaisesOnly {A = A} P (raise e)
  RaisesOnly-raise P e h s x t z = let same : e ≡ x = cc in subst P same h

  -- What a chain keeps of its state: its first part keeps it, and what follows keeps it from there.
  pub bind-Keeps :
      {A B : Type 0} (P : S → Type 0) (m : Exec E S A) (f : A → Exec E S B) (s : S)
      → P (m s).1
      → ((a : A) (u : S) → m s ≡ (ok a, u) → P u → P (f a u).1)
      → P ((m >>= f) s).1
  bind-Keeps {A} {B} P m f s h k = of (m s) refl h
    where
      of :
          (p : Result E A × S)
          → m s ≡ p
          → P p.1
          → P
              (let (r, s') = p in
                elim r as (λ _. Result E B × S) [ ok a ↦ f a s' | err e ↦ (err e, s') ]).1
      of (ok a, u) q x = k a u q x
      of (err e, u) q x = x
