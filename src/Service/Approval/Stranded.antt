-- ===== src/Service/Approval/Stranded.antt =====
-- The approval of a proposal whose sources are hidden already.
use mem0_platform_sidecar.Prelude.{
  ℕ, String, ◌≡◌, refl, sym, ap, subst, inl, inr, true, Option, none, some, List, In, Bool-cases,
}
use mem0_platform_sidecar.Prelude.Result.{conflict_error, ok, err}
use mem0_platform_sidecar.Consolidation.Rows.{Proposal}
use mem0_platform_sidecar.Consolidation.Proposals.{source_ids, all_texts, with_status}
use mem0_platform_sidecar.Memories.Rows.{active, is_inactive, Memory}
use mem0_platform_sidecar.Memories.Reads.{is_among, in_reach, list_memories_by_ids}
use mem0_platform_sidecar.Service.Rows.{Tables, Settings, outcome, mark_stale}
use mem0_platform_sidecar.Service.Sources.{keys, same_set, checked, proposal_sources}
use mem0_platform_sidecar.Service.Approve.{
  Approval, decided, approval_allowed, seen_sources, with_sources, request_locked, request_approval,
}
use mem0_platform_sidecar.Service.Shadow.{locked}
use mem0_platform_sidecar.Service.Rollback.{rollback_locked, rollback_shadowed}
use mem0_platform_sidecar.Service.Locked.{locked-change_proposal}
use mem0_platform_sidecar.Service.Checked.{proposal_sources-In}
use mem0_platform_sidecar.Service.Hiding.RoundTrip.{expected-parts}
use mem0_platform_sidecar.Service.Approval.Ready.{seen_sources-texts}

seen_sources-ok :
    (approval : Approval) (p : Proposal) (s : Tables) (ids : List String)
    → source_ids p.source_ids_json ≡ ok ids
    → (r : Option (List Memory)) × (seen_sources approval p s ≡ ok r)
unfolding seen_sources proposal_sources
seen_sources-ok approval p s ids i = elim (Bool-cases (all_texts approval.expected_source_hashes)) [
  | inr e ↦ (none, rw (seen_sources, e) refl)
  | inl e ↦ elim (Bool-cases (same_set (keys approval.expected_source_hashes) ids)) [
    | inr u ↦ (none, rw (seen_sources, e, proposal_sources, i, u) refl)
    | inl u ↦ (
      checked approval.expected_source_hashes active p ids
          (list_memories_by_ids p.project_id (some p.app_id) ids true true s.memories),
      rw (seen_sources, e, proposal_sources, i, u) refl,
    )
  ]
]

hidden_not_seen :
    (approval : Approval) (p : Proposal) (s : Tables) (ids : List String) (memory : Memory)
    → source_ids p.source_ids_json ≡ ok ids
    → In memory s.memories
    → is_among ids memory.mem0_memory_id ≡ true
    → in_reach p.project_id (some p.app_id) true true memory ≡ true
    → is_inactive memory.consolidation_state ≡ true
    → seen_sources approval p s ≡ ok none
hidden_not_seen approval p s ids memory i m among reach hidden =
    go (seen_sources-ok approval p s ids i)
  where
    go :
        (r : Option (List Memory)) × (seen_sources approval p s ≡ ok r)
        → seen_sources approval p s ≡ ok none
    go (none, e) = e
    go (some sources, e) =
        let (texts, passed) = seen_sources-texts approval p s sources e in
        let good =
          proposal_sources-In p approval.expected_source_hashes active s ids sources memory passed i
            m among reach in
        let state = (expected-parts approval.expected_source_hashes memory good).1 in
        let wrong : is_inactive active ≡ true =
          subst (λ x. is_inactive x ≡ true) (sym state) hidden in
        absurd (cc)

-- An approval that passes the guards, such as one that names the status SHADOWED of a hidden proposal,
-- marks the proposal STALE if one of its sources in reach is hidden. No memory changes, so the source
-- stays hidden, and on the tables after it `rollback_shadowed` refuses the proposal. The proposal and
-- its project are there, and its source ids can be read.
pub request_approval_of_hidden :
    (settings : Settings) (approval : Approval) (now later : ℕ) (id : String) (s : Tables)
    (p : Proposal) (x : Unit {0}) (ids : List String) (memory : Memory)
    → locked id s ≡ ok p
    → approval_allowed settings approval p s ≡ ok x
    → source_ids p.source_ids_json ≡ ok ids
    → In memory s.memories
    → is_among ids memory.mem0_memory_id ≡ true
    → in_reach p.project_id (some p.app_id) true true memory ≡ true
    → is_inactive memory.consolidation_state ≡ true
    → ((request_approval settings approval now id s).0 ≡ ok (decided (outcome p.id "STALE")))
      × ((request_approval settings approval now id s).1.memories ≡ s.memories)
      × ((rollback_shadowed later id (request_approval settings approval now id s).1).0
          ≡ err (conflict_error "proposal is not shadowed"))
unfolding request_approval request_locked with_sources rollback_shadowed rollback_locked
request_approval_of_hidden settings approval now later id s p x ids memory l allowed i m among reach
      hidden =
    let unseen = hidden_not_seen approval p s ids memory i m among reach hidden in
    let reply : request_approval settings approval now id s
        ≡ (ok (decided (outcome p.id "STALE")), mark_stale p.id now s) =
      rw (request_approval, l, request_locked, allowed, with_sources, unseen) refl in
    let l' : locked id (mark_stale p.id now s) ≡ ok (with_status "STALE" now p) =
      locked-change_proposal id (with_status "STALE" now) s (mark_stale p.id now s) p (λ q. refl)
        refl refl refl l in
    let refused : (rollback_shadowed later id (mark_stale p.id now s)).0
        ≡ err (conflict_error "proposal is not shadowed") =
      rw (rollback_shadowed, l', rollback_locked) refl in
    (
      ap (λ y. y.0) reply,
      ap (λ y. y.1.memories) reply,
      subst
          (λ t. (rollback_shadowed later id t).0 ≡ err (conflict_error "proposal is not shadowed"))
          (sym (ap (λ y. y.1) reply)) refused,
    )
