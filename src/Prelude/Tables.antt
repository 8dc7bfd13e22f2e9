-- ===== src/Prelude/Tables.antt =====
-- Tables as lists of rows: the reads and writes that a session makes of them.
use Prim.Native.String.{String}
use text.Mathlib.Text.{◌==◌}
use text.Mathlib.TextEquality.{eq_iff}
use Prim.Native.Nat.{ℕ, suc, ◌+◌}
use mathlib.Core.Path.{◌≡◌, refl, ap, sym}
use mathlib.Core.Logic.{◌↔◌, inl, inr}
use mathlib.Core.Bool.{Bool, true, false}
use mathlib.Core.Option.{Option, none, some}
use mathlib.Core.List.{List, [], ◌∷◌, ◌++◌}
use native.Mathlib.Omega.{arith}
use mem0_platform_sidecar.Prelude.Tests.{if◌then◌else◌, Bool-cases}
use mem0_platform_sidecar.Prelude.Lists.{length, All, In, All-In, All-of_In, All-append, any}

module _ {A : Type 0} where
  -- SELECT … WHERE, at most one row
  unfoldable pub find_row : (A → Bool) → List A → Option A
  find_row p [] = none
  find_row p (x ∷ xs) = if p x then some x else find_row p xs

  -- SELECT … WHERE
  unfoldable pub rows_where : (A → Bool) → List A → List A
  rows_where p [] = []
  rows_where p (x ∷ xs) = let rest = rows_where p xs in if p x then x ∷ rest else rest

  -- UPDATE … WHERE
  unfoldable pub update_rows : (A → Bool) → (A → A) → List A → List A
  update_rows p f [] = []
  update_rows p f (x ∷ xs) = (if p x then f x else x) ∷ update_rows p f xs

  -- SELECT count(*) … WHERE
  unfoldable pub count_rows : (A → Bool) → List A → ℕ
  count_rows p [] = 0
  count_rows p (x ∷ xs) = let rest = count_rows p xs in if p x then suc rest else rest

  pub length-rows_where : (p : A → Bool) (xs : List A) → length (rows_where p xs) ≡ count_rows p xs
  unfolding rows_where count_rows
  length-rows_where p [] = refl
  length-rows_where p (x ∷ xs) = elim (Bool-cases (p x)) [
    | inl e ↦ rw e (ap suc (length-rows_where p xs))
    | inr e ↦ rw e (length-rows_where p xs)
  ]

  pub count_rows-append :
      (p : A → Bool) (xs ys : List A) → count_rows p (xs ++ ys) ≡ count_rows p xs + count_rows p ys
  unfolding count_rows
  count_rows-append p [] ys = omega arith
  count_rows-append p (x ∷ xs) ys = elim (Bool-cases (p x)) [
    | inl e ↦ rw e (omega (arith, count_rows-append p xs ys))
    | inr e ↦ rw e (count_rows-append p xs ys)
  ]

  pub count_rows-none :
      (p : A → Bool) (xs : List A) → All (λ a. p a ≡ false) xs → count_rows p xs ≡ 0
  unfolding count_rows
  count_rows-none p [] h = refl
  count_rows-none p (x ∷ xs) h = rw h.0 (count_rows-none p xs h.1)

  -- A sum over the rows.
  unfoldable pub sum_rows : (A → ℕ) → List A → ℕ
  sum_rows g [] = 0
  sum_rows g (x ∷ xs) = g x + sum_rows g xs

  pub sum_rows-update :
      (g : A → ℕ) (p : A → Bool) (f : A → A) (xs : List A)
      → ((a : A) → g (f a) ≡ g a)
      → sum_rows g (update_rows p f xs) ≡ sum_rows g xs
  unfolding sum_rows update_rows
  sum_rows-update g p f [] h = refl
  sum_rows-update g p f (x ∷ xs) h = elim (Bool-cases (p x)) [
    | inl e ↦ rw e (omega (arith, h x, sum_rows-update g p f xs h))
    | inr e ↦ rw e (omega (arith, sum_rows-update g p f xs h))
  ]

  pub sum_rows_snoc :
      (g : A → ℕ) (xs : List A) (a : A) → sum_rows g (xs ++ a ∷ []) ≡ sum_rows g xs + g a
  unfolding sum_rows
  sum_rows_snoc g [] a = omega arith
  sum_rows_snoc g (x ∷ xs) a = omega (arith, sum_rows_snoc g xs a)

  pub find_row_snoc :
      (p : A → Bool) (xs : List A) (a : A)
      → find_row p xs ≡ none
      → p a ≡ true
      → find_row p (xs ++ a ∷ []) ≡ some a
  unfolding find_row
  find_row_snoc p [] a n h = rw h
  find_row_snoc p (x ∷ xs) a n h = elim (Bool-cases (p x)) [
    | inl e ↦ let n' : some x ≡ none = rw e at n in cc
    | inr e ↦ rw e (find_row_snoc p xs a (rw e at n) h)
  ]

  pub find_row-holds : (p : A → Bool) (xs : List A) (a : A) → find_row p xs ≡ some a → p a ≡ true
  unfolding find_row
  find_row-holds p [] a h = cc
  find_row-holds p (x ∷ xs) a h = ground (arith, find_row-holds p xs a)

  pub find_row-In : (p : A → Bool) (xs : List A) (a : A) → find_row p xs ≡ some a → In a xs
  unfolding find_row
  find_row-In p [] a h = cc
  find_row-In p (x ∷ xs) a h = elim (Bool-cases (p x)) [
    | inl e ↦ inl (ground arith)
    | inr e ↦ inr (find_row-In p xs a (rw e at h))
  ]

  -- What `find_row` returns after an update of the rows that `p` selects.
  pub find_row-update_rows :
      (p q : A → Bool) (f : A → A) (xs : List A)
      → ((a : A) → q (f a) ≡ q a)
      → find_row q (update_rows p f xs)
        ≡ (elim (find_row q xs) [ none ↦ none | some a ↦ some (if p a then f a else a) ])
  unfolding find_row update_rows
  find_row-update_rows p q f [] h = refl
  find_row-update_rows p q f (x ∷ xs) h = ground (arith, h x, find_row-update_rows p q f xs h)

  pub In-rows_where :
      (p : A → Bool) (a : A) (xs : List A) → In a (rows_where p xs) → In a xs × (p a ≡ true)
  unfolding rows_where
  In-rows_where p a [] m = elim m [ ]
  In-rows_where p a (x ∷ xs) m = elim (Bool-cases (p x)) [
    | inl e ↦ elim (let m' : In a (x ∷ rows_where p xs) = rw e at m in m') [
      | inl i ↦ (inl i, rw i e)
      | inr n ↦ let (i, t) = In-rows_where p a xs n in (inr i, t)
    ]
    | inr e ↦ let (i, t) = In-rows_where p a xs (rw e at m) in (inr i, t)
  ]

  pub rows_where-In :
      (p : A → Bool) (a : A) (xs : List A) → In a xs → p a ≡ true → In a (rows_where p xs)
  unfolding rows_where
  rows_where-In p a [] m t = m
  rows_where-In p a (x ∷ xs) (inl e) t = let t' : p x ≡ true = rw e at t in rw t' (inl e)
  rows_where-In p a (x ∷ xs) (inr m) t = elim (Bool-cases (p x)) [
    | inl e ↦ rw e (inr (rows_where-In p a xs m t))
    | inr e ↦ rw e (rows_where-In p a xs m t)
  ]

  pub rows_where-nil :
      (p : A → Bool) (xs : List A) → (rows_where p xs ≡ []) ↔ All (λ a. p a ≡ false) xs
  unfolding rows_where
  rows_where-nil p [] = (λ _. tt, λ _. refl)
  rows_where-nil p (x ∷ xs) = elim (Bool-cases (p x)) [
    | inl e ↦ rw e (λ h. absurd (cc), λ h. absurd (ground arith))
    | inr e ↦ let (f, g) = rows_where-nil p xs in rw e (λ h. (refl, f h), λ h. g h.1)
  ]

  -- A predicate that the update keeps holds of every row after it.
  pub All-update_rows :
      (P : A → Type 0) (p : A → Bool) (f : A → A) (xs : List A)
      → ((a : A) → In a xs → P a → p a ≡ true → P (f a))
      → All P xs
      → All P (update_rows p f xs)
  unfolding update_rows
  All-update_rows P p f [] k h = tt
  All-update_rows P p f (x ∷ xs) k h = (
    elim (Bool-cases (p x)) [ inl e ↦ rw e (k x (inl refl) h.0 e) | inr e ↦ rw e h.0 ],
    All-update_rows P p f xs (λ a m. k a (inr m)) h.1,
  )

  -- A row after an update is a row that was not selected, or the new form of one that was.
  pub In-update_rows :
      (p : A → Bool) (f : A → A) (a : A) (xs : List A)
      → In a (update_rows p f xs)
      → (b : A) × In b xs × (a ≡ (if p b then f b else b))
  unfolding update_rows
  In-update_rows p f a [] m = elim m [ ]
  In-update_rows p f a (x ∷ xs) (inl e) = (x, inl refl, e)
  In-update_rows p f a (x ∷ xs) (inr m) = let (b, i, e) = In-update_rows p f a xs m in (b, inr i, e)

  pub update_rows-In :
      (p : A → Bool) (f : A → A) (a : A) (xs : List A)
      → In a xs
      → In (if p a then f a else a) (update_rows p f xs)
  unfolding update_rows
  update_rows-In p f a [] m = elim m [ ]
  update_rows-In p f a (x ∷ xs) (inl e) = inl (rw e)
  update_rows-In p f a (x ∷ xs) (inr m) = inr (update_rows-In p f a xs m)

  pub length-update_rows :
      (p : A → Bool) (f : A → A) (xs : List A) → length (update_rows p f xs) ≡ length xs
  unfolding update_rows
  length-update_rows p f [] = refl
  length-update_rows p f (x ∷ xs) = ap suc (length-update_rows p f xs)

-- Tables whose rows have distinct keys.
module _ {A : Type 0} (key : A → String) where
  abbrev pub IsKeyed : List A → Type 0
  IsKeyed [] = Unit
  IsKeyed (x ∷ xs) = All (λ y. (key y == key x) ≡ false) xs × IsKeyed xs

  pub IsKeyed-update_rows :
      (p : A → Bool) (f : A → A) (xs : List A)
      → ((a : A) → key (f a) ≡ key a)
      → IsKeyed xs
      → IsKeyed (update_rows p f xs)
  unfolding update_rows
  IsKeyed-update_rows p f [] same h = tt
  IsKeyed-update_rows p f (x ∷ xs) same h =
      let kept = λ (a : A). key_if p f same a in
      (
        rw (kept x) (
            All-of_In (λ y. (key y == key x) ≡ false) (update_rows p f xs)
              λ a m.
                let (b, i, e) = In-update_rows p f a xs m in
                rw (e, kept b) (All-In (λ y. (key y == key x) ≡ false) b xs h.0 i)),
        IsKeyed-update_rows p f xs same h.1,
      )
    where
      key_if :
          (p : A → Bool) (f : A → A)
          → ((a : A) → key (f a) ≡ key a)
          → (a : A) → key (if p a then f a else a) ≡ key a
      key_if p f same a = elim (Bool-cases (p a)) [ inl e ↦ rw e (same a) | inr e ↦ rw e ]

  -- Two rows of one key are one row.
  pub row_of_key :
      (xs : List A) (a b : A) → IsKeyed xs → In a xs → In b xs → (key a == key b) ≡ true → a ≡ b
  row_of_key [] a b h m n e = elim m [ ]
  row_of_key (x ∷ xs) a b h (inl e) (inl f) t = cc
  row_of_key (x ∷ xs) a b h (inl e) (inr n) t =
      let d = All-In (λ y. (key y == key x) ≡ false) b xs h.0 n in
      absurd (ground (arith, eq_iff (key a) (key b), eq_iff (key b) (key x)))
  row_of_key (x ∷ xs) a b h (inr m) (inl f) t =
      let d = All-In (λ y. (key y == key x) ≡ false) a xs h.0 m in absurd (ground arith)
  row_of_key (x ∷ xs) a b h (inr m) (inr n) t = row_of_key xs a b h.1 m n t

  -- A lookup by the key of a row finds that row.
  pub find_row-key :
      (xs : List A) (a : A) → IsKeyed xs → In a xs → find_row (λ y. key y == key a) xs ≡ some a
  unfolding find_row
  find_row-key [] a h m = elim m [ ]
  find_row-key (x ∷ xs) a h (inl e) =
      let t : (key x == key a) ≡ true = ground (arith, eq_iff (key x) (key a)) in
      rw t (ap some (sym e))
  find_row-key (x ∷ xs) a h (inr m) =
      let d = All-In (λ y. (key y == key x) ≡ false) a xs h.0 m in
      let f : (key x == key a) ≡ false =
        ground (arith, eq_iff (key x) (key a), eq_iff (key a) (key x)) in
      rw f (find_row-key xs a h.1 m)

  -- An update by a key that no row has changes nothing.
  pub update_rows-absent :
      (k : String) (f : A → A) (xs : List A)
      → All (λ y. (key y == k) ≡ false) xs
      → update_rows (λ y. key y == k) f xs ≡ xs
  unfolding update_rows
  update_rows-absent k f [] h = refl
  update_rows-absent k f (x ∷ xs) h = rw h.0 (ap (λ l. x ∷ l) (update_rows-absent k f xs h.1))

  -- An update by the key of a row changes a sum over the table by that row alone.
  pub sum_rows-update_rows :
      (g : A → ℕ) (f : A → A) (xs : List A) (a : A)
      → IsKeyed xs
      → In a xs
      → sum_rows g (update_rows (λ y. key y == key a) f xs) + g a ≡ sum_rows g xs + g (f a)
  unfolding update_rows sum_rows
  sum_rows-update_rows g f [] a h m = elim m [ ]
  sum_rows-update_rows g f (x ∷ xs) a h (inl e) =
      let t : (key x == key a) ≡ true = ground (arith, eq_iff (key x) (key a)) in
      let s = update_rows-absent (key a) f xs (rw e h.0) in rw (t, s, e) (omega arith)
  sum_rows-update_rows g f (x ∷ xs) a h (inr m) =
      let d = All-In (λ y. (key y == key x) ≡ false) a xs h.0 m in
      let n : (key x == key a) ≡ false =
        ground (arith, eq_iff (key x) (key a), eq_iff (key a) (key x)) in
      rw n (omega (arith, sum_rows-update_rows g f xs a h.1 m))

  pub IsKeyed-snoc :
      (xs : List A) (a : A)
      → IsKeyed xs
      → All (λ y. (key a == key y) ≡ false) xs
      → IsKeyed (xs ++ a ∷ [])
  IsKeyed-snoc [] a h k = (tt, tt)
  IsKeyed-snoc (x ∷ xs) a h k = (
    All-append (λ y. (key y == key x) ≡ false) xs (a ∷ []) h.0 (k.0, tt),
    IsKeyed-snoc xs a h.1 k.1,
  )

  -- An id that no row has differs from the key of every row.
  pub absent_of_any :
      (id : String) (xs : List A)
      → any (λ y. key y == id) xs ≡ false
      → All (λ y. (id == key y) ≡ false) xs
  absent_of_any id [] h = tt
  absent_of_any id (x ∷ xs) h =
      (ground (arith, eq_iff id (key x), eq_iff (key x) id), absent_of_any id xs (ground arith))

  -- A test that one row passes, and no row of another key, counts one row.
  pub count_rows-key :
      (p : A → Bool) (xs : List A) (a : A)
      → IsKeyed xs
      → In a xs
      → p a ≡ true
      → ((b : A) → p b ≡ true → (key b == key a) ≡ true)
      → count_rows p xs ≡ 1
  unfolding count_rows
  count_rows-key p [] a h m t only = elim m [ ]
  count_rows-key p (x ∷ xs) a h (inl e) t only =
      let t' : p x ≡ true = rw e at t in
      let none_left : All (λ b. p b ≡ false) xs =
        All-of_In (λ b. p b ≡ false) xs
          λ b m.
            let d = All-In (λ y. (key y == key x) ≡ false) b xs h.0 m in
            elim (Bool-cases (p b)) [
              | inl u ↦ absurd (ground (arith, ap key e, only b u))
              | inr f ↦ f
            ] in
      rw t' (ap suc (count_rows-none p xs none_left))
  count_rows-key p (x ∷ xs) a h (inr m) t only =
      let d = All-In (λ y. (key y == key x) ≡ false) a xs h.0 m in
      let f : p x ≡ false = elim (Bool-cases (p x)) [
        | inl u ↦ absurd (ground (arith, only x u, eq_iff (key x) (key a), eq_iff (key a) (key x)))
        | inr f ↦ f
      ] in
      rw f (count_rows-key p xs a h.1 m t only)
