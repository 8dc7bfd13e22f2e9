-- ===== src/Service/Locked.antt =====
-- The proposal that a method works on, before and after a change of its row.
use mem0_platform_sidecar.Prelude.{
  String, ◌≡◌, sym, ap, ◌∙◌, inl, inr, true, some, List, arith, any, In, ◌==◌, eq_iff, Bool-cases,
  Option-cases,
}
use mem0_platform_sidecar.Prelude.Tables.{
  find_row, find_row-holds, find_row-In, update_rows, find_row-update_rows,
}
use mem0_platform_sidecar.Prelude.Result.{key_error, Result, ok, err}
use mem0_platform_sidecar.Prelude.Fallible.{ok_inj, Result-cases}
use mem0_platform_sidecar.Consolidation.Rows.{Proposal}
use mem0_platform_sidecar.Consolidation.Proposals.{get_proposal, proposal_has_id}
use mem0_platform_sidecar.Service.Rows.{Tables}
use mem0_platform_sidecar.Service.Shadow.{locked}

pub get_proposal-found :
    (id : String) (rows : List Proposal) (p : Proposal)
    → get_proposal id rows ≡ ok p
    → find_row (proposal_has_id id) rows ≡ some p
unfolding get_proposal
get_proposal-found id rows p h = elim (Option-cases (find_row (proposal_has_id id) rows)) [
  | inl e ↦
      let h' : ◌≡◌ {A = Result Proposal} (err (key_error id)) (ok p) = rw (get_proposal, e) at h in
      absurd (cc)
  | inr (q, e) ↦
      let h' : ◌≡◌ {A = Result Proposal} (ok q) (ok p) = rw (get_proposal, e) at h in
      e ∙ ap some (ok_inj h')
]

pub locked-get_proposal :
    (id : String) (s : Tables) (p : Proposal)
    → locked id s ≡ ok p
    → (get_proposal id s.proposals ≡ ok p)
      × (any (λ other. other == p.project_id) s.projects ≡ true)
unfolding locked
locked-get_proposal id s p h = elim (Result-cases (get_proposal id s.proposals)) [
  | inr (e, u) ↦
      let h' : ◌≡◌ {A = Result Proposal} (err e) (ok p) = rw (locked, u) at h in absurd (cc)
  | inl (q, u) ↦ elim (Bool-cases (any (λ other. other == q.project_id) s.projects)) [
    | inr f ↦
        let h' : ◌≡◌ {A = Result Proposal} (err (key_error q.project_id)) (ok p) =
          rw (locked, u, f) at h in
        absurd (cc)
    | inl t ↦
        let h' : ◌≡◌ {A = Result Proposal} (ok q) (ok p) = rw (locked, u, t) at h in
        (u ∙ h', rw (sym (ok_inj h')) t)
  ]
]

pub get_proposal-id :
    (id : String) (rows : List Proposal) (p : Proposal) → get_proposal id rows ≡ ok p → p.id ≡ id
get_proposal-id id rows p h =
    let t = find_row-holds (proposal_has_id id) rows p (get_proposal-found id rows p h) in
    ground (arith, eq_iff p.id id)

pub get_proposal-In :
    (id : String) (rows : List Proposal) (p : Proposal) → get_proposal id rows ≡ ok p → In p rows
get_proposal-In id rows p h =
    find_row-In (proposal_has_id id) rows p (get_proposal-found id rows p h)

pub locked_found :
    (id : String) (s : Tables) (p : Proposal)
    → get_proposal id s.proposals ≡ ok p
    → any (λ other. other == p.project_id) s.projects ≡ true
    → locked id s ≡ ok p
unfolding locked
locked_found id s p g known = rw (locked, g, known)

-- A method finds the row that it or another method has changed.
pub locked-change_proposal :
    (id : String) (f : Proposal → Proposal) (s t : Tables) (p : Proposal)
    → ((q : Proposal) → (f q).id ≡ q.id)
    → (f p).project_id ≡ p.project_id
    → t.projects ≡ s.projects
    → t.proposals ≡ update_rows (proposal_has_id p.id) f s.proposals
    → locked id s ≡ ok p
    → locked id t ≡ ok (f p)
unfolding get_proposal
locked-change_proposal id f s t p same same_project projects proposals h =
    let (g, known) = locked-get_proposal id s p h in
    let is_id = get_proposal-id id s.proposals p g in
    let found = get_proposal-found id s.proposals p g in
    let here : (p.id == p.id) ≡ true = ground (arith, eq_iff p.id p.id) in
    let after : find_row (proposal_has_id id) (update_rows (proposal_has_id p.id) f s.proposals)
        ≡ some (f p) =
      find_row-update_rows (proposal_has_id p.id) (proposal_has_id id) f s.proposals
        (λ q. rw (same q))
      ∙ rw (found, here) in
    locked_found id t (f p) (rw (get_proposal, proposals, after))
      (rw (projects, ap (λ x. any (λ other. other == x) s.projects) same_project) known)
