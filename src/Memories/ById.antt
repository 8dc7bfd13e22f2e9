-- ===== src/Memories/ById.antt =====
-- What `list_memories_by_ids` returns, however its ids are divided into statements.
use mem0_platform_sidecar.Prelude.{
  ℕ, zero, suc, ◌-◌, ◌*◌, ◌≤◌, String, ◌≡◌, refl, sym, ◌∙◌, ◌↔◌, inl, inr, Bool, true, not, ◌&&◌,
  ◌||◌, Option, List, [], ◌∷◌, arith, and_true, take, drop, length, In, In-append, In-append_left,
  In-append_right, ◌==◌, eq_iff, Bool-cases,
}
use mem0_platform_sidecar.Prelude.Tables.{rows_where, In-rows_where, rows_where-In}
use mem0_platform_sidecar.Intents.Targets.{distinct, without}
use mem0_platform_sidecar.Memories.Rows.{Memory}
use mem0_platform_sidecar.Memories.Reads.{
  is_among, in_reach, rows_by_chunks, chunks, list_memories_by_ids,
}

is_among-take-drop :
    (n : ℕ) (ids : List String) (id : String)
    → (is_among (take n ids) id || is_among (drop n ids) id) ≡ is_among ids id
is_among-take-drop zero ids id = refl
is_among-take-drop (suc n) [] id = refl
is_among-take-drop (suc n) (x ∷ ids) id = ground (arith, is_among-take-drop n ids id)

pub is_among-without :
    (x : String) (ids : List String) (id : String)
    → is_among (without x ids) id ≡ (is_among ids id && not (x == id))
unfolding without
is_among-without x [] id = refl
is_among-without x (y ∷ ids) id =
    ground (arith, is_among-without x ids id, eq_iff y x, eq_iff y id, eq_iff x id)

is_among-distinct : (ids : List String) (id : String) → is_among (distinct ids) id ≡ is_among ids id
unfolding distinct
is_among-distinct [] id = refl
is_among-distinct (x ∷ ids) id =
    ground (arith, is_among-without x (distinct ids) id, is_among-distinct ids id)

length-drop : (n : ℕ) (ids : List String) → length (drop n ids) ≡ length ids - n
length-drop zero ids = omega arith
length-drop (suc n) [] = omega arith
length-drop (suc n) (x ∷ ids) = omega (arith, length-drop n ids)

or_left : (a b c : Bool) → (a || b) ≡ c → a ≡ true → c ≡ true
or_left a b c e h = ground arith

or_right : (a b c : Bool) → (a || b) ≡ c → b ≡ true → c ≡ true
or_right a b c e h = ground arith

module _ (p : Memory → Bool) (rows : List Memory) (memory : Memory) where
  chunk-In :
      (rounds : ℕ) (ids : List String)
      → In memory (rows_by_chunks p rows rounds ids)
      → In memory rows × (is_among ids memory.mem0_memory_id ≡ true) × (p memory ≡ true)
  unfolding rows_by_chunks
  chunk-In zero ids m = elim m [ ]
  chunk-In (suc rounds) ids m =
      elim (In-append memory
        (rows_where (λ row. is_among (take 400 ids) row.mem0_memory_id && p row) rows) _ m) [
          | inl i ↦
              let (r, t) = In-rows_where _ memory rows i in
              let (u, q) = and_true _ _ t in
              (r, or_left _ _ _ (is_among-take-drop 400 ids memory.mem0_memory_id) u, q)
          | inr i ↦
              let (r, t, q) = chunk-In rounds (drop 400 ids) i in
              (r, or_right _ _ _ (is_among-take-drop 400 ids memory.mem0_memory_id) t, q)
        ]

  In-chunk :
      (rounds : ℕ) (ids : List String)
      → length ids ≤ 400 * rounds
      → In memory rows
      → is_among ids memory.mem0_memory_id ≡ true
      → p memory ≡ true
      → In memory (rows_by_chunks p rows rounds ids)
  unfolding rows_by_chunks
  In-chunk zero [] h m i t = cc
  In-chunk zero (x ∷ ids) h m i t = absurd (omega arith)
  In-chunk (suc rounds) ids h m i t =
      elim (Bool-cases (is_among (take 400 ids) memory.mem0_memory_id)) [
        | inl e ↦ In-append_left memory _ _ (rows_where-In _ memory rows m (ground (arith, e, t)))
        | inr e ↦
            let j : is_among (drop 400 ids) memory.mem0_memory_id ≡ true =
              ground (arith, is_among-take-drop 400 ids memory.mem0_memory_id) in
            In-append_right memory _ _ (In-chunk rounds (drop 400 ids) (fewer rounds ids h) m j t)
      ]
    where
      fewer :
          (rounds : ℕ) (ids : List String)
          → length ids ≤ 400 * suc rounds
          → length (drop 400 ids) ≤ 400 * rounds
      fewer rounds ids h = omega (arith, length-drop 400 ids)

-- A memory is listed exactly when it stands in the table in reach of the query and its id is one of
-- those asked for, however many ids there are.
pub list_memories_by_ids_lem :
    (project_id : String) (app_id : Option String) (ids : List String)
    (include_deleted include_shadowed : Bool) (rows : List Memory) (memory : Memory)
    → In memory (list_memories_by_ids project_id app_id ids include_deleted include_shadowed rows)
      ↔ (In memory rows
          × (is_among ids memory.mem0_memory_id ≡ true)
          × (in_reach project_id app_id include_deleted include_shadowed memory ≡ true))
unfolding list_memories_by_ids
list_memories_by_ids_lem project_id app_id ids include_deleted include_shadowed rows memory =
    let p = in_reach project_id app_id include_deleted include_shadowed in
    let same = is_among-distinct ids memory.mem0_memory_id in
    let rounds = chunks (length (distinct ids)) in
    (
      λ m. let (r, i, t) = chunk-In p rows memory rounds (distinct ids) m in (r, sym same ∙ i, t),
      λ h.
          In-chunk p rows memory rounds (distinct ids) (enough (length (distinct ids))) h.0
            (same ∙ h.1) h.2,
    )
  where
    enough : (n : ℕ) → n ≤ 400 * chunks n
    enough n = omega arith
