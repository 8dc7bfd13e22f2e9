-- ===== src/Service/Deletion/Records.antt =====
-- What `finalize_shadowed` records of the memories that it deletes.
use mem0_platform_sidecar.Prelude.{
  ℕ, String, ◌≡◌, refl, sym, ap, subst, ◌∙◌, ◌⊎◌, inl, inr, Bool, true, false, ◌||◌, some, List, [],
  ◌∷◌, ◌++◌, arith, any, is_some, ◌==◌, eq_iff, Bool-cases, Option-cases,
}
use mem0_platform_sidecar.Prelude.Tables.{find_row}
use mem0_platform_sidecar.Prelude.Result.{Error, integrity_error, key_error, Result, ok, err}
use mem0_platform_sidecar.Prelude.Fallible.{Result-cases}
use mem0_platform_sidecar.Json.{Fields, get}
use mem0_platform_sidecar.Consolidation.Rows.{Proposal, LineageRow}
use mem0_platform_sidecar.Consolidation.Lineage.{is_source, get_source, new_lineage, create_lineage}
use mem0_platform_sidecar.Memories.Reads.{get_memory}
use mem0_platform_sidecar.Service.Rows.{Tables, lock_project}
use mem0_platform_sidecar.Service.Upstream.{Answer, found, missing, fails, verify_upstream_deleted}
use mem0_platform_sidecar.Service.Finalize.{
  World, is_hidden_unchanged, deletable, delete_hidden, delete_source, verified, applied,
  record_deletion, finalize_source,
}
use mem0_platform_sidecar.Service.Approval.{err_not_ok}

abbrev pub Reply : Type 0
Reply = Result (Unit {0}) × Tables

-- There is lineage of that proposal and source.
abbrev pub is_recorded : String → List LineageRow → String → Bool
is_recorded proposal_id rows id = is_some (get_source proposal_id id rows)

is_recorded_snoc :
    (proposal_id : String) (rows : List LineageRow) (row : LineageRow) (id : String)
    → is_recorded proposal_id (rows ++ row ∷ []) id
      ≡ (is_recorded proposal_id rows id || is_source proposal_id id row)
unfolding get_source find_row
is_recorded_snoc proposal_id [] row id = elim (Bool-cases (is_source proposal_id id row)) [
  | inl e ↦ rw (get_source, e) refl
  | inr e ↦ rw (get_source, e) refl
]
is_recorded_snoc proposal_id (r ∷ rows) row id = elim (Bool-cases (is_source proposal_id id r)) [
  | inl e ↦ rw (get_source, e) refl
  | inr e ↦ rw (get_source, e) (is_recorded_snoc proposal_id rows row id)
]

-- The deletion of a memory changes no lineage, nor does what other workers do in the meantime.
abbrev pub KeepsLineage : World → Type 0
KeepsLineage world = (id : String) (s : Tables) → (world.delete_memory id s).1.lineage ≡ s.lineage

module _ (world : World) (now : ℕ) (p : Proposal) (hashes : Fields)
    (keeps : KeepsLineage world) where
  delete_source-lineage :
      (id : String) (s : Tables) → (delete_source world now p hashes id s).1.lineage ≡ s.lineage
  unfolding delete_source delete_hidden
  delete_source-lineage id s =
      elim (Option-cases (get_memory p.project_id id (some p.app_id) true s.memories)) [
        | inl e ↦ rw (delete_source, e) refl
        | inr (memory, e) ↦ elim (Bool-cases (is_some memory.deleted_at)) [
          | inl u ↦ rw (delete_source, e, u) refl
          | inr u ↦ elim (Result-cases (is_hidden_unchanged p hashes memory)) [
            | inr (x, v) ↦ rw (delete_source, e, u, delete_hidden, v) refl
            | inl (false, v) ↦ rw (delete_source, e, u, delete_hidden, v) refl
            | inl (true, v) ↦
                elim (Result-cases
                  (deletable (world.before memory.mem0_memory_id) p hashes memory.mem0_memory_id)) [
                    | inr (x, w) ↦ rw (delete_source, e, u, delete_hidden, v, w) refl
                    | inl (x, w) ↦
                        rw (delete_source, e, u, delete_hidden, v, w)
                          (keeps memory.mem0_memory_id s)
                  ]
          ]
        ]
      ]

  abbrev pub IsGone : String → Type 0
  IsGone id = (world.after id).get_memory id ≡ missing

  verified-ok :
      (id : String) (s t : Tables) (x : Unit {0})
      → verified world now p id s ≡ (ok x, t)
      → IsGone id × (s ≡ t)
  unfolding verify_upstream_deleted
  verified-ok id s t x h = go ((world.after id).get_memory id) refl
    where
      go : (a : Answer) → (world.after id).get_memory id ≡ a → IsGone id × (s ≡ t)
      go (found response) e =
          absurd (err_not_ok _ x _ t (rw (verified, verify_upstream_deleted, e) at h))
      go missing e = (
        e,
        ap (λ y. y.1)
            (let h' : ◌≡◌ {A = Reply} (ok tt, s) (ok x, t) =
                rw (verified, verify_upstream_deleted, e) at h in
              h'),
      )
      go (fails error) e =
          absurd (err_not_ok error x _ t (rw (verified, verify_upstream_deleted, e) at h))

  -- One round of the loop on the memory `id`, by the lineage before it and after it: the memory is
  -- recorded, what was recorded stays so, and what is new is this memory, which is gone.
  abbrev pub IsRound : String → List LineageRow → List LineageRow → Type 0
  IsRound id rows rows' =
      (is_recorded p.id rows' id ≡ true)
      × ((other : String)
          → is_recorded p.id rows other ≡ true
          → is_recorded p.id rows' other ≡ true)
      × ((other : String)
          → is_recorded p.id rows' other ≡ true
          → (is_recorded p.id rows other ≡ true) ⊎ IsGone other)

  record_deletion-ok :
      (id : String) (s t : Tables) (x : Unit {0})
      → IsGone id
      → is_recorded p.id s.lineage id ≡ false
      → record_deletion world now p hashes id s ≡ (ok x, t)
      → IsRound id s.lineage t.lineage
  unfolding record_deletion create_lineage
  record_deletion-ok id s t x gone unrecorded h =
      elim (Result-cases (lock_project p.project_id s)) [
        | inr (e, u) ↦ absurd (err_not_ok e x s t (rw (record_deletion, u) at h))
        | inl (y, u) ↦ elim (Option-cases (get id hashes)) [
          | inl f ↦ absurd (err_not_ok (key_error id) x s t (rw (record_deletion, u, f) at h))
          | inr (hash, f) ↦ elim (Option-cases (get_source p.id id s.lineage)) [
            | inr (row, v) ↦ absurd (let k : true ≡ false = rw v at unrecorded in cc)
            | inl v ↦
                elim (Bool-cases
                  (any (λ (row : LineageRow). row.id == world.lineage_id id) s.lineage)) [
                    | inl w ↦ absurd (
                        err_not_ok integrity_error x s t
                          (rw (record_deletion, u, f, create_lineage, v, w) at h))
                    | inr w ↦
                        let new = new_lineage (world.lineage_id id) now p (applied now p hash id) in
                        let created : create_lineage (world.lineage_id id) now p
                              (applied now p hash id) s.lineage
                            ≡ (ok new, s.lineage ++ new ∷ []) =
                          rw (create_lineage, v, w) refl in
                        let after =
                          (create_lineage (world.lineage_id id) now p (applied now p hash id)
                            s.lineage).1 in
                        let h' : ◌≡◌ {A = Reply} (ok tt, record s { lineage = after }) (ok x, t) =
                          rw (record_deletion, u, f, create_lineage, v, w) at h in
                        subst (IsRound id s.lineage)
                          (sym (ap (λ y. y.1) created) ∙ ap (λ y. y.1.lineage) h')
                          (added new refl refl)
                  ]
          ]
        ]
      ]
    where
      added :
          (new : LineageRow)
          → new.proposal_id ≡ p.id
          → new.source_memory_id ≡ id
          → IsRound id s.lineage (s.lineage ++ new ∷ [])
      added new a b = (
        ground (
          arith,
          is_recorded_snoc p.id s.lineage new id,
          eq_iff new.proposal_id p.id,
          eq_iff new.source_memory_id id,
        ),
        λ other r. ground (arith, is_recorded_snoc p.id s.lineage new other),
        λ other r. elim (Bool-cases (is_recorded p.id s.lineage other)) [
          | inl e ↦ inl e
          | inr e ↦
              let same : new.source_memory_id ≡ other = ground (
                arith,
                is_recorded_snoc p.id s.lineage new other,
                eq_iff new.source_memory_id other,
              ) in
              inr (subst IsGone (sym b ∙ same) gone)
        ],
      )

  pub finalize_source-ok :
      (id : String) (s t : Tables) (x : Unit {0})
      → finalize_source world now p hashes id s ≡ (ok x, t)
      → IsRound id s.lineage t.lineage
  unfolding finalize_source
  finalize_source-ok id s t x h = elim (Bool-cases (is_recorded p.id s.lineage id)) [
    | inl u ↦
        let h' : ◌≡◌ {A = Reply} (ok tt, s) (ok x, t) = rw (finalize_source, u) at h in
        subst (IsRound id s.lineage) (ap (λ y. y.1.lineage) h')
          (u, (λ other r. r), λ other r. inl r)
    | inr u ↦
        let deleted = delete_source world now p hashes id s in
        elim (Result-cases deleted.0) [
          | inr (e, v) ↦ absurd (raised deleted e v (rw (finalize_source, u, v) at h))
          | inl (y, v) ↦
              let checked = verified world now p id deleted.1 in
              elim (Result-cases checked.0) [
                | inr (e, w) ↦ absurd (raised checked e w (rw (finalize_source, u, v, w) at h))
                | inl (z, w) ↦
                    let (gone, same) =
                      verified-ok id deleted.1 checked.1 z (ap (λ r. (r, checked.1)) w) in
                    let before : s.lineage ≡ checked.1.lineage =
                      sym (delete_source-lineage id s) ∙ ap (λ y. y.lineage) same in
                    let unrecorded : is_recorded p.id checked.1.lineage id ≡ false =
                      subst (λ rows. is_recorded p.id rows id ≡ false) before u in
                    subst (λ rows. IsRound id rows t.lineage) (sym before)
                      (record_deletion-ok id checked.1 t x gone unrecorded
                        (rw (finalize_source, u, v, w) at h))
              ]
        ]
  ]
    where
      raised : (reply : Reply) (e : Error) → reply.0 ≡ err e → reply ≡ (ok x, t) → ⊥
      raised reply e v k =
          let wrong : ◌≡◌ {A = Result (Unit {0})} (err e) (ok x) = sym v ∙ ap (λ y. y.0) k in
          absurd (cc)
