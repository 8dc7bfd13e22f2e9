-- ===== src/Prelude/Fallible.antt =====
-- Chains of steps that may raise, where no table changes.
use mem0_platform_sidecar.Prelude.Result.{Error, Result, ok, err}
use mathlib.Core.Path.{◌≡◌, refl, ap}
use mathlib.Core.Logic.{◌⊎◌, inl, inr}
use mathlib.Core.Bool.{Bool, true, false}

-- These stay shut in a proof, so that `bind-ok` reads a chain step by step.
infixl 5 ◌>>=◌ ◌>>◌
unfoldable pub ◌>>=◌ : {A B : Type 0} → Result A → (A → Result B) → Result B
ok a >>= f = f a
err e >>= f = err e

abbrev pub ◌>>◌ : {A B : Type 0} → Result A → Result B → Result B
m >> k = m >>= λ _. k

-- `if c: raise e`
unfoldable pub raise_if : Bool → Error → Result (Unit {0})
raise_if true e = err e
raise_if false e = ok tt

module _ {A B : Type 0} where
  -- A chain that returns has returned from its first step, and from the rest.
  pub bind-ok :
      (m : Result A) (f : A → Result B) (b : B)
      → (m >>= f) ≡ ok b
      → (a : A) × (m ≡ ok a) × (f a ≡ ok b)
  unfolding ◌>>=◌
  bind-ok (ok a) f b h = (a, refl, h)
  bind-ok (err e) f b h = cc

pub raise_if-ok :
    {B : Type 0} (c : Bool) (e : Error) (rest : Result B) (b : B)
    → (raise_if c e >> rest) ≡ ok b
    → (c ≡ false) × (rest ≡ ok b)
unfolding ◌>>=◌ raise_if
raise_if-ok true e rest b h = cc
raise_if-ok false e rest b h = (refl, h)

pub ok_inj : {A : Type 0} {a b : A} → ok a ≡ ok b → a ≡ b
ok_inj {a = a} h = ap (λ r. elim r [ ok x ↦ x | err e ↦ a ]) h

pub Result-cases :
    {A : Type 0} (r : Result A) → ((a : A) × (r ≡ ok a)) ⊎ ((e : Error) × (r ≡ err e))
Result-cases (ok a) = inl (a, refl)
Result-cases (err e) = inr (e, refl)
