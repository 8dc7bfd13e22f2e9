-- ===== src/Prelude/Text.antt =====
-- The order of texts by their code points, and the Boolean equality of optional texts.
use Prim.Native.Nat.{ℕ, ◌<◌, compare, Ordering}
use Prim.Native.Char.{code}
use Prim.Native.String.{String}
use mathlib.Core.Path.{◌≡◌, refl}
use mathlib.Core.Logic.{◌⊎◌, inl, inr, ◌↔◌}
use mathlib.Core.Bool.{Bool, true, false}
use mathlib.Core.Option.{Option, none, some}
use mathlib.Core.List.{List, [], ◌∷◌}
use native.Mathlib.Omega.{arith}
use text.Mathlib.Text.{◌==◌}
use text.Mathlib.TextEquality.{eq_iff}

abbrev pub codes : String → List ℕ
codes String.[] = []
codes (String.◌∷◌ c s) = code c ∷ codes s

-- The order on a first number, and `rest` where the two are equal.
abbrev pub then_leb : ℕ → ℕ → Bool → Bool
then_leb a b rest = elim (compare a b) [
  | Ordering.lt ↦ true
  | Ordering.eq ↦ rest
  | Ordering.gt ↦ false
]

pub codes_leb : List ℕ → List ℕ → Bool
codes_leb [] ys = true
codes_leb (x ∷ xs) [] = false
codes_leb (x ∷ xs) (y ∷ ys) = then_leb x y (codes_leb xs ys)

unfoldable pub str_leb : String → String → Bool
unfolding codes_leb
str_leb s t = codes_leb (codes s) (codes t)

pub then_leb_cases : (a b : ℕ) (r : Bool) → then_leb a b r ≡ true → (a < b) ⊎ ((a ≡ b) × (r ≡ true))
then_leb_cases a b r h = ground arith

pub then_leb_total :
    (a b : ℕ) (r s : Bool)
    → (r ≡ true) ⊎ (s ≡ true)
    → (then_leb a b r ≡ true) ⊎ (then_leb b a s ≡ true)
then_leb_total a b r s h = ground arith

pub then_leb_trans :
    (a b c : ℕ) (r s t : Bool)
    → (r ≡ true → s ≡ true → t ≡ true)
    → then_leb a b r ≡ true
    → then_leb b c s ≡ true
    → then_leb a c t ≡ true
then_leb_trans a b c r s t k h i = ground arith

codes_leb_total : (xs ys : List ℕ) → (codes_leb xs ys ≡ true) ⊎ (codes_leb ys xs ≡ true)
unfolding codes_leb
codes_leb_total [] ys = inl refl
codes_leb_total (x ∷ xs) [] = inr refl
codes_leb_total (x ∷ xs) (y ∷ ys) = then_leb_total x y _ _ (codes_leb_total xs ys)

codes_leb_trans :
    (xs ys zs : List ℕ) → codes_leb xs ys ≡ true → codes_leb ys zs ≡ true → codes_leb xs zs ≡ true
unfolding codes_leb
codes_leb_trans [] ys zs h i = refl
codes_leb_trans (x ∷ xs) [] zs h i = cc
codes_leb_trans (x ∷ xs) (y ∷ ys) [] h i = cc
codes_leb_trans (x ∷ xs) (y ∷ ys) (z ∷ zs) h i =
    then_leb_trans x y z _ _ _ (codes_leb_trans xs ys zs) h i

pub str_leb_total : (s t : String) → (str_leb s t ≡ true) ⊎ (str_leb t s ≡ true)
unfolding str_leb
str_leb_total s t = codes_leb_total (codes s) (codes t)

pub str_leb_trans : (s t u : String) → str_leb s t ≡ true → str_leb t u ≡ true → str_leb s u ≡ true
unfolding str_leb
str_leb_trans s t u = codes_leb_trans (codes s) (codes t) (codes u)

abbrev pub opt_eqb : Option String → Option String → Bool
opt_eqb none none = true
opt_eqb none (some t) = false
opt_eqb (some s) none = false
opt_eqb (some s) (some t) = s == t

pub opt_eqb_iff : (a b : Option String) → (opt_eqb a b ≡ true) ↔ (a ≡ b)
opt_eqb_iff none none = ground arith
opt_eqb_iff none (some t) = ground arith
opt_eqb_iff (some s) none = ground arith
opt_eqb_iff (some s) (some t) = ground (arith, eq_iff s t)
