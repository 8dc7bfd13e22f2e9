-- ===== src/Service/Refinement/Approvals.antt =====
-- `shadow_approved` up to its first await, and `approve_proposal`, as steps of the machine.
use mem0_platform_sidecar.Prelude.{
  ℕ, String, ◌≡◌, refl, subst, ◌+◌, arith, true, false, none, some, List, In, ltb, ◌||◌, Bool-cases,
  Option-cases, inl, inr,
}
use mem0_platform_sidecar.Prelude.Tables.{IsKeyed}
use mem0_platform_sidecar.Prelude.Result.{Result, ok}
use mem0_platform_sidecar.Prelude.Fallible.{raise_if-ok, Result-cases, ◌>>=◌}
use mem0_platform_sidecar.Json.{Fields}
use mem0_platform_sidecar.Consolidation.Rows.{Proposal}
use mem0_platform_sidecar.Consolidation.Proposals.{source_ids, get_proposal}
use mem0_platform_sidecar.Memories.Rows.{active, Memory}
use mem0_platform_sidecar.Service.Rows.{
  Tables, Settings, seconds, change_proposal, mark_stale, lock_project,
}
use mem0_platform_sidecar.Service.Sources.{proposal_sources}
use mem0_platform_sidecar.Service.Upstream.{Server}
use mem0_platform_sidecar.Service.Approve.{
  Approval, approve_row, approval_allowed, outside, choose, seen_sources, with_sources,
  request_locked, request_approval, added_memory, approve_with, approve_replacement,
}
use mem0_platform_sidecar.Service.Shadow.{locked, begin_locked, begin}
use mem0_platform_sidecar.Service.Locked.{get_proposal-id, locked-get_proposal, get_proposal-In}
use mem0_platform_sidecar.Service.Moves.{
  phase, Action, approving, replacing, starting, approves, expires, id_of,
}
use mem0_platform_sidecar.Service.Refinement.{
  phase_of, Good, kept, expired, became_approved, expired-Follows, approved-Follows,
  begin_locked-Follows,
}

module _ (s : Tables) (keyed : IsKeyed id_of s.proposals) where
  -- The proposal that a method has locked is the one of its argument.
  pub at_id :
      (id : String) (p : Proposal) (a : Action) (t : Tables)
      → locked id s ≡ ok p
      → Good s keyed p.id a t
      → Good s keyed id a t
  at_id id p a t u h =
      subst (λ x. Good s keyed x a t)
        (get_proposal-id id s.proposals p (locked-get_proposal id s p u).0) h

  pub locked-In : (id : String) (p : Proposal) → locked id s ≡ ok p → In p s.proposals
  locked-In id p u = get_proposal-In id s.proposals p (locked-get_proposal id s p u).0

  pub begin-Follows :
      (settings : Settings) (attempt_id : String) (now : ℕ) (id : String)
      → Good s keyed id
          (starting attempt_id now (now + seconds settings.shadow_lease_seconds))
          (begin settings attempt_id now id s).1
  unfolding begin
  begin-Follows settings attempt_id now id = elim (Result-cases (locked id s)) [
    | inr (e, u) ↦ rw (begin, u) (kept s keyed id _)
    | inl (p, u) ↦
        rw (begin, u)
          (at_id id p _ (begin_locked settings attempt_id now p s).1 u
            (begin_locked-Follows s keyed p (locked-In id p u) settings attempt_id now))
  ]

  module _ (settings : Settings) (approval : Approval) (now : ℕ) where
    abbrev wanted : Action
    wanted = approving (phase approval.expected_status)

    module _ (p : Proposal) (m : In p s.proposals)
        (seen : phase p.status ≡ phase approval.expected_status) where
      choose-Follows :
          (ids : List String) (sources : List Memory)
          → Good s keyed p.id wanted (choose settings approval now p ids sources s).1
      unfolding choose
      choose-Follows ids sources = elim (Bool-cases (outside approval.canonical_id ids)) [
        | inl u ↦ rw (choose, u) (kept s keyed p.id wanted)
        | inr u ↦ elim (Option-cases approval.replacement_text) [
          | inl v ↦
              rw (choose, u, v)
                (became_approved s keyed p m wanted approval.expected_source_hashes
                  approval.canonical_id false none now (approves seen refl))
          | inr (x, v) ↦
              rw (choose, u, v)
                (elim (Bool-cases
                  (settings.is_empty_text x || ltb 20000 approval.replacement_length)) [
                    | inl w ↦ rw w (kept s keyed p.id wanted)
                    | inr w ↦ rw w (kept s keyed p.id wanted)
                  ])
        ]
      ]

      with_sources-Follows : Good s keyed p.id wanted (with_sources settings approval now p s).1
      unfolding with_sources
      with_sources-Follows = elim (Result-cases (seen_sources approval p s)) [
        | inr (e, u) ↦ rw (with_sources, u) (kept s keyed p.id wanted)
        | inl (none, u) ↦ rw (with_sources, u) (expired s keyed p m wanted now (expires seen refl))
        | inl (some sources, u) ↦ elim (Result-cases (source_ids p.source_ids_json)) [
          | inr (e, v) ↦ rw (with_sources, u, v) (kept s keyed p.id wanted)
          | inl (ids, v) ↦ rw (with_sources, u, v) (choose-Follows ids sources)
        ]
      ]

    status_seen :
        (p : Proposal) (x : Unit {0})
        → approval_allowed settings approval p s ≡ ok x
        → phase p.status ≡ phase approval.expected_status
    unfolding approval_allowed
    status_seen p x u =
        let (same, rest) = raise_if-ok _ _ _ x u in
        phase_of p.status approval.expected_status (ground (arith, same))

    request_locked-Follows :
        (p : Proposal)
        → In p s.proposals
        → Good s keyed p.id wanted (request_locked settings approval now p s).1
    unfolding request_locked
    request_locked-Follows p m = elim (Result-cases (approval_allowed settings approval p s)) [
      | inr (e, u) ↦ rw (request_locked, u) (kept s keyed p.id wanted)
      | inl (x, u) ↦ rw (request_locked, u) (with_sources-Follows p m (status_seen p x u))
    ]

    pub request_approval-Follows :
        (id : String)
        → Good s keyed id
            (approving (phase approval.expected_status))
            (request_approval settings approval now id s).1
    unfolding request_approval
    request_approval-Follows id = elim (Result-cases (locked id s)) [
      | inr (e, u) ↦ rw (request_approval, u) (kept s keyed id wanted)
      | inl (p, u) ↦
          rw (request_approval, u)
            (at_id id p wanted (request_locked settings approval now p s).1 u
              (request_locked-Follows p (locked-In id p u)))
    ]

  module _ (approval : Approval) (now : ℕ) (project_id id : String) (view : Tables) where
    approve_with-Follows :
        (new_memory : String × String)
        → Good s keyed id replacing (approve_with approval now project_id id new_memory view s).1
    unfolding approve_with
    approve_with-Follows new_memory = elim (Result-cases (lock_project project_id s)) [
      | inr (e, u) ↦ rw (approve_with, u) (kept s keyed id replacing)
      | inl (x, u) ↦ elim (Result-cases (get_proposal id view.proposals)) [
        | inr (e, v) ↦ rw (approve_with, u, v) (kept s keyed id replacing)
        | inl (p, v) ↦
            let is_id = get_proposal-id id view.proposals p v in
            let hashes = approval.expected_source_hashes in
            elim (Result-cases (proposal_sources p hashes active view)) [
              | inr (e, w) ↦ rw (approve_with, u, v, w) (kept s keyed id replacing)
              | inl (none, w) ↦
                  rw (approve_with, u, v, w)
                    (subst (λ y. Good s keyed y replacing (mark_stale p.id now s)) is_id
                      (expired-Follows p.id now s.proposals))
              | inl (some sources, w) ↦
                  rw (approve_with, u, v, w)
                    (subst
                      (λ y. Good s keyed y replacing (
                        change_proposal p.id
                          (approve_row hashes (some new_memory.0) true (some new_memory.1) now) s))
                      is_id
                      (approved-Follows p.id hashes (some new_memory.0) true (some new_memory.1) now
                        s.proposals))
            ]
      ]
    ]

    pub approve_replacement-Follows :
        (server : Server) (added : Result Fields)
        → Good s keyed id replacing
            (approve_replacement server added approval now project_id id view s).1
    unfolding approve_replacement
    approve_replacement-Follows server added = elim (Result-cases (added >>= added_memory server)) [
      | inr (e, u) ↦ rw (approve_replacement, u) (kept s keyed id replacing)
      | inl (x, u) ↦ rw (approve_replacement, u) (approve_with-Follows x)
    ]
