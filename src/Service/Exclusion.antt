-- ===== src/Service/Exclusion.antt =====
-- Two workers that shadow one proposal.
pub mod Leases
use mem0_platform_sidecar.Prelude.{ℕ, ◌+◌, String, ◌≡◌, refl, sym, ap, Bool, true, false, ltb, ◌==◌}
use mem0_platform_sidecar.Prelude.Result.{Result, ok}
use mem0_platform_sidecar.Consolidation.Rows.{Proposal}
use mem0_platform_sidecar.Service.Rows.{Tables, Settings, Outcome, outcome, seconds}
use mem0_platform_sidecar.Service.Shadow.{
  Attempt, settled, started, take_attempt, begin_locked, locked, begin, owns, resume, end_with,
  give_up, Export, finish_owned, finish,
}
use mem0_platform_sidecar.Service.Locked.{
  locked-get_proposal, get_proposal-id, locked-change_proposal,
}
use mem0_platform_sidecar.Service.Started.{begin_locked-started, begin-started}

-- The row of a proposal that is being exported by that attempt.
module _ (settings : Settings) (attempt_id : String) (now : ℕ) (id : String) (attempt : Attempt)
    (s t : Tables) where
  abbrev pub expiry : ℕ
  expiry = now + seconds settings.shadow_lease_seconds

  pub begin-locked :
      begin settings attempt_id now id s ≡ (ok (started attempt), t)
      → (p : Proposal) × (p.id ≡ id) × (locked id t ≡ ok (take_attempt attempt_id expiry now p))
  begin-locked h =
      let (p, l, b) = begin-started settings attempt_id now id attempt s t h in
      let (u, v, known) = begin_locked-started settings attempt_id now p attempt s t b in
      let (policy, hashes, ids, sources, r, c, i, e, changed) = known in
      (
        p,
        get_proposal-id id s.proposals p (locked-get_proposal id s p l).0,
        locked-change_proposal id (take_attempt attempt_id expiry now) s t p (λ q. refl) refl
            (ap (λ x. x.projects) (sym changed)) (ap (λ x. x.proposals) (sym changed)) l,
      )

resume_not_owner :
    (attempt : Attempt) (act : Proposal → Tables → Result Outcome × Tables) (t : Tables)
    (p : Proposal)
    → locked attempt.proposal_id t ≡ ok p
    → (p.status == "SHADOWED") ≡ false
    → owns attempt.attempt_id p ≡ false
    → resume attempt act t ≡ (ok (outcome p.id p.status), t)
unfolding resume
resume_not_owner attempt act t p l n o = rw (resume, l, n, o)

-- On the tables that the start of an attempt leaves, a worker that comes back with another attempt at
-- the same proposal changes nothing, neither to give up nor to finish, and returns the status
-- EXPORTING.
pub attempt_fenced :
    (settings : Settings) (other_id : String) (now later : ℕ) (attempt other : Attempt)
    (export : Export) (still_match : Bool) (s t : Tables)
    → begin settings other_id now attempt.proposal_id s ≡ (ok (started other), t)
    → (other_id == attempt.attempt_id) ≡ false
    → (give_up later attempt t ≡ (ok (outcome attempt.proposal_id "EXPORTING"), t))
      × (finish later attempt export still_match t
          ≡ (ok (outcome attempt.proposal_id "EXPORTING"), t))
unfolding give_up finish owns
attempt_fenced settings other_id now later attempt other export still_match s t h different =
    let (p, is_id, l) = begin-locked settings other_id now attempt.proposal_id other s t h in
    let not_owner : owns attempt.attempt_id
          (take_attempt other_id (now + seconds settings.shadow_lease_seconds) now p)
        ≡ false =
      different in
    let row = take_attempt other_id (now + seconds settings.shadow_lease_seconds) now p in
    let gives_up : give_up later attempt t ≡ (ok (outcome p.id "EXPORTING"), t) =
      resume_not_owner attempt (end_with "STALE" later) t row l refl not_owner in
    let finishes : finish later attempt export still_match t ≡ (ok (outcome p.id "EXPORTING"), t) =
      resume_not_owner attempt (finish_owned later attempt export still_match) t row l refl
        not_owner in
    (rw is_id at gives_up, rw is_id at finishes)
