-- ===== src/Prelude/Order.antt =====
-- A total order by a Boolean test, the least row of a table, and a table in order.
use Prim.Native.Nat.{ℕ, zero, suc}
use native.Mathlib.Omega.{arith}
use mathlib.Core.Path.{◌≡◌, refl, sym, ap, ◌∙◌}
use mathlib.Core.Logic.{◌⊎◌, inl, inr}
use mathlib.Core.Bool.{Bool, true, ◌||◌}
use mathlib.Core.Option.{Option, none, some}
use mathlib.Core.List.{List, [], ◌∷◌}
use mem0_platform_sidecar.Prelude.Tests.{if◌then◌else◌, Bool-cases, Option-cases, some_inj}
use mem0_platform_sidecar.Prelude.Lists.{
  All, In, All-In, All-of_In, In-drop, take, drop, any, length,
}

pub record IsOrder {A : Type 0} (before : A → A → Bool) : Type 0 where
  pub total : (a b : A) → (before a b ≡ true) ⊎ (before b a ≡ true)
  pub trans : (a b c : A) → before a b ≡ true → before b c ≡ true → before a c ≡ true

module _ {A : Type 0} (before : A → A → Bool) where
  abbrev lesser : A → Option A → A
  lesser a none = a
  lesser a (some b) = if before a b then a else b

  -- ORDER BY … LIMIT 1
  unfoldable pub least : List A → Option A
  least [] = none
  least (x ∷ xs) = some (lesser x (least xs))

  unfoldable pub insert : A → List A → List A
  insert a [] = a ∷ []
  insert a (x ∷ xs) = let rest = x ∷ insert a xs in if before a x then a ∷ x ∷ xs else rest

  -- ORDER BY
  unfoldable pub sort_by : List A → List A
  unfolding insert
  sort_by [] = []
  sort_by (x ∷ xs) = insert x (sort_by xs)

  before_self : IsOrder before → (x : A) → before x x ≡ true
  before_self o x = elim (o.total x x) [ inl h ↦ h | inr h ↦ h ]

  lesser_cases : (x : A) (o : Option A) {a : A} → lesser x o ≡ a → (a ≡ x) ⊎ (o ≡ some a)
  lesser_cases x none h = inl (sym h)
  lesser_cases x (some b) h = elim (Bool-cases (before x b)) [
    | inl t ↦ inl (sym (rw t at h))
    | inr f ↦ inr (ap some (rw f at h))
  ]

  pub least-In : (xs : List A) (a : A) → least xs ≡ some a → In a xs
  unfolding least
  least-In [] a h = cc
  least-In (x ∷ xs) a h = elim (lesser_cases x (least xs) (some_inj h)) [
    | inl e ↦ inl e
    | inr e ↦ inr (least-In xs a e)
  ]

  pub least-none : (xs : List A) → least xs ≡ none → xs ≡ []
  unfolding least
  least-none [] h = refl
  least-none (x ∷ xs) h = cc

  lesser-before_self : IsOrder before → (x : A) (o : Option A) → before (lesser x o) x ≡ true
  lesser-before_self o x none = before_self o x
  lesser-before_self o x (some b) = elim (Bool-cases (before x b)) [
    | inl t ↦ rw t (before_self o x)
    | inr f ↦ rw f (elim (o.total x b) [ inl t ↦ cc | inr t ↦ t ])
  ]

  lesser-before_other : IsOrder before → (x b : A) → before (lesser x (some b)) b ≡ true
  lesser-before_other o x b = elim (Bool-cases (before x b)) [
    | inl t ↦ rw t t
    | inr f ↦ rw f (before_self o b)
  ]

  -- The least row stands before every row of the table.
  pub least-before :
      IsOrder before → (xs : List A) (a b : A) → least xs ≡ some a → In b xs → before a b ≡ true
  unfolding least
  least-before o [] a b h m = elim m [ ]
  least-before o (x ∷ xs) a b h (inl e) =
      let i : before (lesser x (least xs)) x ≡ true = lesser-before_self o x (least xs) in
      rw e (rw (some_inj h) at i)
  least-before o (x ∷ xs) a b h (inr m) = elim (Option-cases (least xs)) [
    | inl e ↦ let m' : In b [] = rw (least-none xs e) at m in elim m' [ ]
    | inr (c, e) ↦
        let i : lesser x (some c) ≡ a = rw e at (some_inj h) in
        o.trans a c b (rw (← i) (lesser-before_other o x c)) (least-before o xs c b e m)
  ]

  pub In-insert : (x a : A) (xs : List A) → In a (insert x xs) → (a ≡ x) ⊎ In a xs
  unfolding insert
  In-insert x a [] m = m
  In-insert x a (y ∷ xs) m = elim (Bool-cases (before x y)) [
    | inl e ↦ let m' : In a (x ∷ y ∷ xs) = rw e at m in m'
    | inr e ↦ elim (let m' : In a (y ∷ insert x xs) = rw e at m in m') [
      | inl i ↦ inr (inl i)
      | inr n ↦ elim (In-insert x a xs n) [ inl i ↦ inl i | inr k ↦ inr (inr k) ]
    ]
  ]

  -- Ordering adds no row.
  pub In-sort_by : (a : A) (xs : List A) → In a (sort_by xs) → In a xs
  unfolding sort_by
  In-sort_by a [] m = m
  In-sort_by a (x ∷ xs) m = elim (In-insert x a (sort_by xs) m) [
    | inl e ↦ inl e
    | inr n ↦ inr (In-sort_by a xs n)
  ]

  pub insert-In : (x a : A) (xs : List A) → (a ≡ x) ⊎ In a xs → In a (insert x xs)
  unfolding insert
  insert-In x a [] m = m
  insert-In x a (y ∷ xs) m = elim (Bool-cases (before x y)) [
    | inl e ↦ rw e m
    | inr e ↦ rw e (elim m [
      | inl i ↦ inr (insert-In x a xs (inl i))
      | inr (inl i) ↦ inl i
      | inr (inr n) ↦ inr (insert-In x a xs (inr n))
    ])
  ]

  -- Ordering drops no row.
  pub sort_by-In : (a : A) (xs : List A) → In a xs → In a (sort_by xs)
  unfolding sort_by
  sort_by-In a [] m = m
  sort_by-In a (x ∷ xs) m =
      insert-In x a (sort_by xs) (elim m [ inl e ↦ inl e | inr n ↦ inr (sort_by-In a xs n) ])

  pub length-insert : (a : A) (xs : List A) → length (insert a xs) ≡ suc (length xs)
  unfolding insert
  length-insert a [] = refl
  length-insert a (x ∷ xs) = elim (Bool-cases (before a x)) [
    | inl e ↦ rw e
    | inr e ↦ rw e (ap suc (length-insert a xs))
  ]

  pub length-sort_by : (xs : List A) → length (sort_by xs) ≡ length xs
  unfolding sort_by
  length-sort_by [] = refl
  length-sort_by (x ∷ xs) = length-insert x (sort_by xs) ∙ ap suc (length-sort_by xs)

  any-insert : (p : A → Bool) (a : A) (xs : List A) → any p (insert a xs) ≡ (p a || any p xs)
  unfolding insert
  any-insert p a [] = refl
  any-insert p a (x ∷ xs) = elim (Bool-cases (before a x)) [
    | inl e ↦ rw e
    | inr e ↦ rw e (ground (arith, any-insert p a xs))
  ]

  pub any-sort_by : (p : A → Bool) (xs : List A) → any p (sort_by xs) ≡ any p xs
  unfolding sort_by
  any-sort_by p [] = refl
  any-sort_by p (x ∷ xs) = any-insert p x (sort_by xs) ∙ ap (λ b. p x || b) (any-sort_by p xs)

  -- Each row stands before all that follow it.
  abbrev pub IsSorted : List A → Type 0
  IsSorted [] = Unit
  IsSorted (x ∷ xs) = All (λ y. before x y ≡ true) xs × IsSorted xs

  insert-IsSorted : IsOrder before → (a : A) (xs : List A) → IsSorted xs → IsSorted (insert a xs)
  unfolding insert
  insert-IsSorted o a [] h = (tt, tt)
  insert-IsSorted o a (x ∷ xs) h = elim (Bool-cases (before a x)) [
    | inl e ↦
        let later : All (λ y. before a y ≡ true) xs =
          All-of_In (λ y. before a y ≡ true) xs
            (λ y m. o.trans a x y e (All-In (λ y. before x y ≡ true) y xs h.0 m)) in
        rw e ((e, later), h)
    | inr e ↦
        let first : before x a ≡ true = elim (o.total a x) [ inl t ↦ cc | inr t ↦ t ] in
        let later : All (λ y. before x y ≡ true) (insert a xs) =
          All-of_In (λ y. before x y ≡ true) (insert a xs)
            (λ y m. elim (In-insert a y xs m) [
              | inl i ↦ rw i first
              | inr n ↦ All-In (λ y. before x y ≡ true) y xs h.0 n
            ]) in
        rw e (later, insert-IsSorted o a xs h.1)
  ]

  -- Ordering orders.
  pub sort_by-IsSorted : IsOrder before → (xs : List A) → IsSorted (sort_by xs)
  unfolding sort_by
  sort_by-IsSorted o [] = tt
  sort_by-IsSorted o (x ∷ xs) = insert-IsSorted o x (sort_by xs) (sort_by-IsSorted o xs)

  pub IsSorted-drop : (n : ℕ) (xs : List A) → IsSorted xs → IsSorted (drop n xs)
  IsSorted-drop zero xs h = h
  IsSorted-drop (suc n) [] h = tt
  IsSorted-drop (suc n) (x ∷ xs) h = IsSorted-drop n xs h.1

  -- What is taken stands before what is left.
  pub IsSorted-split :
      (n : ℕ) (xs : List A) (a b : A)
      → IsSorted xs
      → In a (take n xs)
      → In b (drop n xs)
      → before a b ≡ true
  IsSorted-split zero xs a b h m k = elim m [ ]
  IsSorted-split (suc n) [] a b h m k = elim m [ ]
  IsSorted-split (suc n) (x ∷ xs) a b h (inl e) k =
      rw e (All-In (λ y. before x y ≡ true) b xs h.0 (In-drop n b xs k))
  IsSorted-split (suc n) (x ∷ xs) a b h (inr m) k = IsSorted-split n xs a b h.1 m k
