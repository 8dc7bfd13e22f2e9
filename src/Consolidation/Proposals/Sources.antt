-- ===== src/Consolidation/Proposals/Sources.antt =====
-- What `create` writes of a proposal, read back and written again.
use mem0_platform_sidecar.Prelude.{
  ℕ, String, ◌≡◌, refl, sym, ap, ◌∙◌, subst, true, false, none, some, List, [], ◌∷◌, ◌++◌, any, All,
  ◌==◌, eq_refl, Bool-cases, Option-cases, inl, inr,
}
use mem0_platform_sidecar.Prelude.Tables.{find_row, find_row_snoc}
use mem0_platform_sidecar.Prelude.Result.{integrity_error, Result, ok, err, and_then}
use mem0_platform_sidecar.Prelude.Fallible.{ok_inj}
use mem0_platform_sidecar.Json.{array, dumps}
use mem0_platform_sidecar.Intents.Targets.{distinct}
use mem0_platform_sidecar.Consolidation.Rows.{Run, Proposal}
use mem0_platform_sidecar.Consolidation.Proposals.{
  Draft, items, new_proposal, has_key, proposal_has_id, create_proposal, full_texts, source_ids,
}

full_texts-items :
    (ids : List String) → All (λ id. (id == "") ≡ false) ids → full_texts (items ids) ≡ some ids
unfolding full_texts
full_texts-items [] a = refl
full_texts-items (id ∷ ids) a = rw (full_texts-items ids a.1, a.0) refl

create_proposal-new :
    (id : String) (now : ℕ) (run : Run) (draft : Draft) (rows : List Proposal)
    → find_row (has_key run.id draft.proposal_key) rows ≡ none
    → any (proposal_has_id id) rows ≡ false
    → create_proposal id now run draft rows
      ≡ (ok (new_proposal id now run draft), rows ++ new_proposal id now run draft ∷ [])
unfolding create_proposal
create_proposal-new id now run draft rows n u = rw (create_proposal, n, u) refl

create_proposal-old :
    (id : String) (now : ℕ) (run : Run) (draft : Draft) (rows : List Proposal) (old : Proposal)
    → find_row (has_key run.id draft.proposal_key) rows ≡ some old
    → create_proposal id now run draft rows ≡ (ok old, rows)
unfolding create_proposal
create_proposal-old id now run draft rows old e = rw (create_proposal, e) refl

create_proposal-taken :
    (id : String) (now : ℕ) (run : Run) (draft : Draft) (rows : List Proposal)
    → find_row (has_key run.id draft.proposal_key) rows ≡ none
    → any (proposal_has_id id) rows ≡ true
    → create_proposal id now run draft rows ≡ (err integrity_error, rows)
unfolding create_proposal
create_proposal-taken id now run draft rows n u = rw (create_proposal, n, u) refl

source_ids-distinct :
    (ids : List String) (first : String) (rest : List String)
    → ids ≡ first ∷ rest
    → All (λ source. (source == "") ≡ false) (first ∷ rest)
    → source_ids (dumps (array (items ids))) ≡ ok (distinct ids)
unfolding source_ids
source_ids-distinct ids first rest d a = rw d (rw (full_texts-items (first ∷ rest) a) refl)

-- A proposal created under a key that its run has not used, and under a fresh id, gives back its
-- source ids without repetition, if there is one and none is empty.
pub source_ids-create_proposal :
    (id : String) (now : ℕ) (run : Run) (draft : Draft) (rows : List Proposal) (first : String)
    (rest : List String)
    → draft.source_ids ≡ first ∷ rest
    → All (λ source. (source == "") ≡ false) (first ∷ rest)
    → find_row (has_key run.id draft.proposal_key) rows ≡ none
    → any (proposal_has_id id) rows ≡ false
    → and_then
        (create_proposal id now run draft rows).0
        (λ proposal. source_ids proposal.source_ids_json)
      ≡ ok (distinct draft.source_ids)
source_ids-create_proposal id now run draft rows first rest d a n u =
    rw (create_proposal-new id now run draft rows n u)
      (source_ids-distinct draft.source_ids first rest d a)

-- A created proposal stands under its key afterwards.
create_proposal-find_row :
    (id : String) (now : ℕ) (run : Run) (draft : Draft) (rows : List Proposal) (proposal : Proposal)
    → (create_proposal id now run draft rows).0 ≡ ok proposal
    → find_row (has_key run.id draft.proposal_key) (create_proposal id now run draft rows).1
      ≡ some proposal
create_proposal-find_row id now run draft rows proposal h =
    let new = new_proposal id now run draft in
    elim (Option-cases (find_row (has_key run.id draft.proposal_key) rows)) [
      | inl e ↦ elim (Bool-cases (any (proposal_has_id id) rows)) [
        | inl u ↦
            let h' : ◌≡◌ {A = Result Proposal} (err integrity_error) (ok proposal) =
              rw (create_proposal-taken id now run draft rows e u) at h in
            cc
        | inr u ↦
            let c = create_proposal-new id now run draft rows e u in
            let h' : ◌≡◌ {A = Result Proposal} (ok new) (ok proposal) = rw c at h in
            rw c (
              find_row_snoc (has_key run.id draft.proposal_key) rows new e
                (rw (eq_refl run.id, eq_refl draft.proposal_key) refl)
              ∙ ap some (ok_inj h'))
      ]
      | inr (old, e) ↦
          let c = create_proposal-old id now run draft rows old e in
          let h' : ◌≡◌ {A = Result Proposal} (ok old) (ok proposal) = rw c at h in
          rw c (e ∙ ap some (ok_inj h'))
    ]

-- Once a proposal has been created, creating one under the same key of the same run changes nothing
-- and returns the first one, whatever the other arguments are.
pub create_proposal_again :
    (id id' : String) (now later : ℕ) (run run' : Run) (draft draft' : Draft) (rows : List Proposal)
    (proposal : Proposal)
    → (create_proposal id now run draft rows).0 ≡ ok proposal
    → run'.id ≡ run.id
    → draft'.proposal_key ≡ draft.proposal_key
    → create_proposal id' later run' draft' (create_proposal id now run draft rows).1
      ≡ (ok proposal, (create_proposal id now run draft rows).1)
create_proposal_again id id' now later run run' draft draft' rows proposal h r k =
    let after = (create_proposal id now run draft rows).1 in
    let i = create_proposal-find_row id now run draft rows proposal h in
    let j = subst (λ x. find_row (has_key x draft.proposal_key) after ≡ some proposal) (sym r) i in
    create_proposal-old id' later run' draft' after proposal
      (subst (λ x. find_row (has_key run'.id x) after ≡ some proposal) (sym k) j)
