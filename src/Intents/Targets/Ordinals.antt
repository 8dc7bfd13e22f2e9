-- ===== src/Intents/Targets/Ordinals.antt =====
-- The numbering of an intent's targets, and the two ways of adding to it.
use mem0_platform_sidecar.Prelude.{
  ℕ, suc, ◌+◌, ◌≤◌, String, ◌≡◌, refl, sym, ap, ◌∙◌, Bool, true, false, Option, none, some, List,
  [], ◌∷◌, ◌++◌, arith, any, length, ltb, if◌then◌else◌, ◌==◌, eq_refl, Bool-cases, inl, inr,
}
use std.Path.{transport}
use mathlib.Core.List.{append-nil}
use mem0_platform_sidecar.Prelude.Tables.{
  rows_where, count_rows, length-rows_where, count_rows-append,
}
use mem0_platform_sidecar.Prelude.Order.{length-sort_by, any-sort_by}
use mem0_platform_sidecar.Prelude.Result.{value_error, Result, ok, err}
use mem0_platform_sidecar.Intents.Rows.{Target, Store, max_targets, of_intent}
use mem0_platform_sidecar.Intents.Targets.{
  distinct, target_before, targets, new_ids, new_target, new_targets, add_targets, greatest,
  next_ordinal, is_empty, maximum_ordinal, add_target_batch, too_many,
}

-- The ordinals of an intent's rows end where their number says.
abbrev pub IsNumbered : String → List Target → Type 0
IsNumbered intent_id rows =
    next_ordinal (maximum_ordinal intent_id rows) ≡ count_rows (of_intent intent_id) rows

new_ids-any :
    (xs ys : List Target) (ids : List String)
    → ((p : Target → Bool) → any p xs ≡ any p ys)
    → new_ids xs ids ≡ new_ids ys ids
unfolding new_ids
new_ids-any xs ys [] h = refl
new_ids-any xs ys (id ∷ ids) h = rw (h (λ target. target.memory_id == id), new_ids-any xs ys ids h)

length-targets :
    (intent_id : String) (s : Store)
    → length (targets intent_id false s) ≡ count_rows (of_intent intent_id) s.targets
unfolding targets
length-targets intent_id s =
    length-sort_by target_before (rows_where (of_intent intent_id) s.targets)
    ∙ length-rows_where (of_intent intent_id) s.targets

new_ids-targets :
    (intent_id : String) (s : Store) (ids : List String)
    → new_ids (targets intent_id false s) ids
      ≡ new_ids (rows_where (of_intent intent_id) s.targets) ids
unfolding targets
new_ids-targets intent_id s ids =
    new_ids-any _ (rows_where (of_intent intent_id) s.targets) ids
      (λ p. any-sort_by target_before p (rows_where (of_intent intent_id) s.targets))

count_rows-new_targets :
    (target_id : String → String) (now : ℕ) (intent_id : String) (n : ℕ) (ids : List String)
    → count_rows (of_intent intent_id) (new_targets target_id now intent_id n ids) ≡ length ids
unfolding count_rows new_targets
count_rows-new_targets target_id now intent_id n [] = refl
count_rows-new_targets target_id now intent_id n (id ∷ ids) =
    rw (eq_refl intent_id) (ap suc (count_rows-new_targets target_id now intent_id (suc n) ids))

next-greatest :
    (n : ℕ) (top : Option ℕ)
    → next_ordinal (some (greatest n top))
      ≡ (if ltb (n + 1) (next_ordinal top) then next_ordinal top else n + 1)
next-greatest n none = ground arith
next-greatest n (some m) = ground arith

below_raised : (n o m : ℕ) → (if ltb (o + 1) m then m else o + 1) ≤ n → m ≤ n
below_raised n o m h = ground arith

next_in :
    (intent_id : String) (x : Target) (xs : List Target)
    → of_intent intent_id x ≡ true
    → next_ordinal (maximum_ordinal intent_id (x ∷ xs)) ≡ (
        if ltb (x.ordinal + 1) (next_ordinal (maximum_ordinal intent_id xs))
        then next_ordinal (maximum_ordinal intent_id xs)
        else x.ordinal + 1)
unfolding maximum_ordinal
next_in intent_id x xs h = rw h (next-greatest x.ordinal (maximum_ordinal intent_id xs))

next_out :
    (intent_id : String) (x : Target) (xs : List Target)
    → of_intent intent_id x ≡ false
    → maximum_ordinal intent_id (x ∷ xs) ≡ maximum_ordinal intent_id xs
unfolding maximum_ordinal
next_out intent_id x xs h = rw h

abbrev end_of : ℕ → ℕ → List String → ℕ
end_of n m [] = m
end_of n m (id ∷ ids) = n + length (id ∷ ids)

ordinal_and_rest :
    (n m : ℕ) → (if ltb (n + 1) (suc n + suc m) then suc n + suc m else n + 1) ≡ n + suc (suc m)
ordinal_and_rest n m = ground arith

next-new_targets :
    (target_id : String → String) (now : ℕ) (intent_id : String) (n : ℕ) (ids : List String)
    → next_ordinal (maximum_ordinal intent_id (new_targets target_id now intent_id n ids))
      ≡ end_of n 0 ids
unfolding new_targets
next-new_targets target_id now intent_id n [] = unfold maximum_ordinal in refl
next-new_targets target_id now intent_id n (id ∷ []) =
    unfold maximum_ordinal in (rw (eq_refl intent_id) (omega arith))
next-new_targets target_id now intent_id n (id ∷ (id' ∷ ids)) =
    next_in intent_id (new_target target_id now intent_id n id)
      (new_targets target_id now intent_id (suc n) (id' ∷ ids)) (eq_refl intent_id)
    ∙ ap (λ m. if ltb (n + 1) m then m else n + 1)
        (next-new_targets target_id now intent_id (suc n) (id' ∷ ids))
    ∙ ordinal_and_rest n (length ids)

raise_end :
    (n o m : ℕ) (ids : List String)
    → (if ltb (o + 1) m then m else o + 1) ≤ n
    → (if ltb (o + 1) (end_of n m ids) then end_of n m ids else o + 1)
      ≡ end_of n (if ltb (o + 1) m then m else o + 1) ids
raise_end n o m [] h = refl
raise_end n o m (id ∷ ids) h = ground arith

-- Rows numbered from the end of the numbering go on with it.
next-append :
    (target_id : String → String) (now : ℕ) (intent_id : String) (n : ℕ) (xs : List Target)
    (ids : List String)
    → next_ordinal (maximum_ordinal intent_id xs) ≤ n
    → next_ordinal (maximum_ordinal intent_id (xs ++ new_targets target_id now intent_id n ids))
      ≡ end_of n (next_ordinal (maximum_ordinal intent_id xs)) ids
next-append target_id now intent_id n [] ids h =
    next-new_targets target_id now intent_id n ids ∙ unfold maximum_ordinal in refl
next-append target_id now intent_id n (x ∷ xs) ids h =
    let more = new_targets target_id now intent_id n ids in
    let m = next_ordinal (maximum_ordinal intent_id xs) in
    elim (Bool-cases (of_intent intent_id x)) [
      | inl e ↦
          let a = next_in intent_id x xs e in
          let b = next_in intent_id x (xs ++ more) e in
          let h' = transport (ap (λ k. k ≤ n) a) h in
          let ih = next-append target_id now intent_id n xs ids (below_raised n x.ordinal m h') in
          b
          ∙ ap (λ k. if ltb (x.ordinal + 1) k then k else x.ordinal + 1) ih
          ∙ raise_end n x.ordinal m ids h'
          ∙ ap (λ k. end_of n k ids) (sym a)
      | inr e ↦
          let a = next_out intent_id x xs e in
          let ih =
            next-append target_id now intent_id n xs ids
              (transport (ap (λ k. next_ordinal k ≤ n) a) h) in
          ap next_ordinal (next_out intent_id x (xs ++ more) e)
          ∙ ih
          ∙ ap (λ k. end_of n (next_ordinal k) ids) (sym a)
    ]

end_of_count : (n : ℕ) (ids : List String) → end_of n n ids ≡ n + length ids
end_of_count n [] = omega arith
end_of_count n (id ∷ ids) = refl

-- Adding targets keeps the numbering of the intent.
pub IsNumbered-add_targets :
    (target_id : String → String) (now : ℕ) (intent_id : String) (ids : List String) (s : Store)
    → IsNumbered intent_id s.targets
    → IsNumbered intent_id (add_targets target_id now intent_id ids s).1.targets
unfolding add_targets
IsNumbered-add_targets target_id now intent_id ids s h =
    let current = targets intent_id false s in
    let more = new_ids current (distinct ids) in
    let n = length current in
    elim (Bool-cases (ltb max_targets (n + length more))) [
      | inl e ↦ rw e h
      | inr e ↦
          let h' = h ∙ sym (length-targets intent_id s) in
          let appended = next-append target_id now intent_id n s.targets more (omega (arith, h')) in
          rw e (
            appended
            ∙ ap (λ m. end_of n m more) h'
            ∙ end_of_count n more
            ∙ ap (λ m. m + length more) (length-targets intent_id s)
            ∙ sym (
                count_rows-append (of_intent intent_id) s.targets
                  (new_targets target_id now intent_id n more)
                ∙ ap (λ m. count_rows (of_intent intent_id) s.targets + m)
                    (count_rows-new_targets target_id now intent_id n more)))
    ]

ltb-false : (m n : ℕ) → n ≤ m → ltb m n ≡ false
ltb-false m n h = ground arith

batch-same :
    (target_id : String → String) (now : ℕ) (intent_id : String) (s : Store) (n : ℕ)
    (ids : List String)
    → n ≤ max_targets
    → length ids ≤ 200
    → (let rows = rows_where (of_intent intent_id) s.targets in
        let more = new_ids rows ids in
        let added = new_targets target_id now intent_id n more in
        ◌≡◌ {A = Result (List Target) × Store}
          (if ltb 200 (length ids)
            then (err (value_error "mutation target batch exceeds 200 records"), s)
            else if is_empty ids
            then (ok [], s)
            else if ltb max_targets (n + length more)
            then (err (value_error too_many), s)
            else (ok added, record s { targets = s.targets ++ added }))
          (if ltb max_targets (n + length more)
            then (err (value_error too_many), s)
            else (ok added, record s { targets = s.targets ++ added })))
batch-same target_id now intent_id s n [] few small =
    unfold new_ids new_targets in
    (rw (ltb-false max_targets (n + 0) (omega (arith, few)), append-nil s.targets) refl)
batch-same target_id now intent_id s n (id ∷ ids) few small =
    rw (ltb-false 200 (length (id ∷ ids)) (omega (arith, small))) refl

-- On a numbered intent with at most 5000 targets, and for at most 200 distinct ids, adding a batch is
-- adding the targets: the same rows under the same ordinals, or the same error.
pub add_target_batch-eq-add_targets :
    (target_id : String → String) (now : ℕ) (intent_id : String) (ids : List String) (s : Store)
    → IsNumbered intent_id s.targets
    → count_rows (of_intent intent_id) s.targets ≤ max_targets
    → length (distinct ids) ≤ 200
    → add_target_batch target_id now intent_id ids s ≡ add_targets target_id now intent_id ids s
unfolding add_targets add_target_batch
add_target_batch-eq-add_targets target_id now intent_id ids s h few small =
    rw (h, new_ids-targets intent_id s (distinct ids), length-targets intent_id s)
      (batch-same target_id now intent_id s (count_rows (of_intent intent_id) s.targets)
        (distinct ids) few small)
