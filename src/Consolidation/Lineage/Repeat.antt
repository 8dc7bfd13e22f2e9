-- ===== src/Consolidation/Lineage/Repeat.antt =====
-- What a repeated `create` of lineage does.
use mem0_platform_sidecar.Prelude.{
  ℕ, String, ◌≡◌, ◌⊎◌, refl, sym, ap, ◌∙◌, subst, true, false, none, some, List, [], ◌∷◌, ◌++◌, any,
  ◌==◌, eq_refl, Bool-cases, Option-cases, inl, inr,
}
use mem0_platform_sidecar.Prelude.Tables.{find_row_snoc}
use mem0_platform_sidecar.Prelude.Result.{integrity_error, Result, ok, err}
use mem0_platform_sidecar.Prelude.Fallible.{ok_inj}
use mem0_platform_sidecar.Consolidation.Rows.{Proposal, LineageRow}
use mem0_platform_sidecar.Consolidation.Lineage.{
  is_source, get_source, Applied, new_lineage, create_lineage,
}

get_source_new :
    (id : String) (now : ℕ) (proposal : Proposal) (applied : Applied) (rows : List LineageRow)
    → get_source proposal.id applied.source_memory_id rows ≡ none
    → get_source proposal.id applied.source_memory_id
        (rows ++ new_lineage id now proposal applied ∷ [])
      ≡ some (new_lineage id now proposal applied)
unfolding get_source
get_source_new id now proposal applied rows n =
    find_row_snoc (is_source proposal.id applied.source_memory_id) rows
      (new_lineage id now proposal applied) n
      (rw (eq_refl proposal.id, eq_refl applied.source_memory_id) refl)

create_lineage-old :
    (id : String) (now : ℕ) (proposal : Proposal) (applied : Applied) (rows : List LineageRow)
    (old : LineageRow)
    → get_source proposal.id applied.source_memory_id rows ≡ some old
    → create_lineage id now proposal applied rows ≡ (ok old, rows)
unfolding create_lineage
create_lineage-old id now proposal applied rows old e = rw (create_lineage, e) refl

create_lineage-new :
    (id : String) (now : ℕ) (proposal : Proposal) (applied : Applied) (rows : List LineageRow)
    → get_source proposal.id applied.source_memory_id rows ≡ none
    → any (λ (row : LineageRow). row.id == id) rows ≡ false
    → create_lineage id now proposal applied rows
      ≡ (ok (new_lineage id now proposal applied), rows ++ new_lineage id now proposal applied ∷ [])
unfolding create_lineage
create_lineage-new id now proposal applied rows n u = rw (create_lineage, n, u) refl

create_lineage-taken :
    (id : String) (now : ℕ) (proposal : Proposal) (applied : Applied) (rows : List LineageRow)
    → get_source proposal.id applied.source_memory_id rows ≡ none
    → any (λ (row : LineageRow). row.id == id) rows ≡ true
    → create_lineage id now proposal applied rows ≡ (err integrity_error, rows)
unfolding create_lineage
create_lineage-taken id now proposal applied rows n u = rw (create_lineage, n, u) refl

-- Lineage that `create` has returned is found by its proposal and its source, and creating lineage for
-- the same proposal and source, with any other arguments, returns it and changes nothing.
pub create_lineage_again :
    (id id' : String) (now later : ℕ) (proposal : Proposal) (applied applied' : Applied)
    (rows : List LineageRow) (row : LineageRow)
    → (create_lineage id now proposal applied rows).0 ≡ ok row
    → applied'.source_memory_id ≡ applied.source_memory_id
    → (get_source proposal.id applied.source_memory_id
          (create_lineage id now proposal applied rows).1
        ≡ some row)
      × (create_lineage id' later proposal applied' (create_lineage id now proposal applied rows).1
          ≡ (ok row, (create_lineage id now proposal applied rows).1))
create_lineage_again id id' now later proposal applied applied' rows row h same =
    let after = (create_lineage id now proposal applied rows).1 in
    let found = stands (Option-cases (get_source proposal.id applied.source_memory_id rows)) in
    (
      found,
      create_lineage-old id' later proposal applied' after row
          (subst (λ x. get_source proposal.id x after ≡ some row) (sym same) found),
    )
  where
    stands :
        (get_source proposal.id applied.source_memory_id rows ≡ none)
          ⊎ ((old : LineageRow) × (get_source proposal.id applied.source_memory_id rows ≡ some old))
        → get_source proposal.id applied.source_memory_id
            (create_lineage id now proposal applied rows).1
          ≡ some row
    stands (inl n) = elim (Bool-cases (any (λ (r : LineageRow). r.id == id) rows)) [
      | inl u ↦
          let h' : ◌≡◌ {A = Result LineageRow} (err integrity_error) (ok row) =
            rw (create_lineage-taken id now proposal applied rows n u) at h in
          cc
      | inr u ↦
          let c = create_lineage-new id now proposal applied rows n u in
          let h' : ◌≡◌ {A = Result LineageRow} (ok (new_lineage id now proposal applied)) (ok row) =
            rw c at h in
          rw c (get_source_new id now proposal applied rows n ∙ ap some (ok_inj h'))
    ]
    stands (inr (old, e)) =
        let c = create_lineage-old id now proposal applied rows old e in
        let h' : ◌≡◌ {A = Result LineageRow} (ok old) (ok row) = rw c at h in
        rw c (e ∙ ap some (ok_inj h'))
