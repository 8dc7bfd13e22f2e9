-- ===== src/Service/Refinement/Ends.antt =====
-- `give_up`, `finish` and `rollback_shadowed` as steps of the machine.
use mem0_platform_sidecar.Prelude.{
  ℕ, String, ◌≡◌, refl, Bool, true, false, none, some, In, eqb, length, if◌then◌else◌, ◌==◌,
  Bool-cases, inl, inr, and_true, ◌∙◌,
}
use mem0_platform_sidecar.Prelude.Text.{opt_eqb_iff}
use mem0_platform_sidecar.Prelude.Tables.{IsKeyed}
use mem0_platform_sidecar.Prelude.Result.{Result}
use mem0_platform_sidecar.Prelude.Fallible.{Result-cases}
use mem0_platform_sidecar.Consolidation.Rows.{Proposal}
use mem0_platform_sidecar.Consolidation.Proposals.{source_ids, with_status}
use mem0_platform_sidecar.Memories.Rows.{active}
use mem0_platform_sidecar.Memories.Reads.{list_memories_by_ids}
use mem0_platform_sidecar.Service.Rows.{Tables, Outcome}
use mem0_platform_sidecar.Service.Sources.{proposal_sources}
use mem0_platform_sidecar.Service.Shadow.{
  Attempt, locked, owns, resume, end_attempt, end_with, give_up, Export, is_complete, set_export,
  target_ids, shadow_export, shadow_sources, end_exported, finish_owned, finish,
}
use mem0_platform_sidecar.Service.Rollback.{
  roll_back, roll_back_row, rollback_locked, rollback_shadowed,
}
use mem0_platform_sidecar.Service.Moves.{
  phase, exporting, ending, rolling_back, state_of, Step, abandons, fails, hides, shows, id_of,
  Follows,
}
use mem0_platform_sidecar.Service.Refinement.{phase_of, phases, Good, kept, changed_rows, changed}
use mem0_platform_sidecar.Service.Refinement.Approvals.{at_id, locked-In}

module _ (s : Tables) (keyed : IsKeyed id_of s.proposals) where
  module _ (p : Proposal) (m : In p s.proposals) (id : String) (u : phase p.status ≡ exporting)
      (own : p.shadow_attempt_id ≡ some id) where
    -- The row is changed to the end of its attempt.
    ended :
        (f : Proposal → Proposal)
        → ((q : Proposal) → (f q).id ≡ q.id)
        → Step (state_of p) (state_of (f p)) (ending id)
        → Follows p.id (ending id) s.proposals (changed_rows s keyed p f)
    ended f same step = changed s keyed p m (ending id) f same step

    end_with-Follows : (now : ℕ) → Good s keyed p.id (ending id) (end_with "STALE" now p s).1
    unfolding phase
    end_with-Follows now = ended (end_attempt "STALE" now) (λ q. refl) (abandons u own (inl refl))

    end_exported-Follows :
        (is_succeeded : Bool) (now : ℕ) (export_id : String)
        → Good s keyed p.id
            (ending id)
            (end_exported (if is_succeeded then "STALE" else "FAILED") now export_id p s).1
    unfolding phase
    end_exported-Follows true now export_id =
        ended (λ row. end_attempt "STALE" now (set_export export_id row)) (λ q. refl)
          (abandons u own (inl refl))
    end_exported-Follows false now export_id =
        ended (λ row. end_attempt "FAILED" now (set_export export_id row)) (λ q. refl)
          (fails u own refl)

    shadow_sources-Follows :
        (now : ℕ) (attempt : Attempt) (export_id : String)
        → Good s keyed p.id (ending id) (shadow_sources now attempt export_id p s).1
    unfolding shadow_sources phase
    shadow_sources-Follows now attempt export_id =
        let targets = target_ids p.canonical_memory_id attempt.ids in
        elim (Bool-cases (
          eqb
            (length
              (list_memories_by_ids p.project_id (some p.app_id) targets false true s.memories))
            (length targets))) [
              | inl e ↦
                  rw (shadow_sources, e)
                    (ended (shadow_export now attempt.grace_days export_id) (λ q. refl)
                      (hides u own refl))
              | inr e ↦
                  rw (shadow_sources, e)
                    (ended (λ row. with_status "STALE" now (set_export export_id row)) (λ q. refl)
                      (abandons u own (inr refl)))
            ]

    finish_owned-Follows :
        (now : ℕ) (attempt : Attempt) (export : Export) (still_match : Bool)
        → Good s keyed p.id (ending id) (finish_owned now attempt export still_match p s).1
    unfolding finish_owned
    finish_owned-Follows now attempt export still_match =
        let outdated = end_exported-Follows true now export.id in
        elim (Bool-cases (is_complete export (length attempt.ids))) [
          | inr e ↦ rw (finish_owned, e) (end_exported-Follows export.is_succeeded now export.id)
          | inl e ↦ elim (Bool-cases still_match) [
            | inr f ↦ rw (finish_owned, e, f) outdated
            | inl f ↦ elim (Result-cases (proposal_sources p attempt.hashes active s)) [
              | inr (x, g) ↦ rw (finish_owned, e, f, g) (kept s keyed p.id (ending id))
              | inl (none, g) ↦ rw (finish_owned, e, f, g) outdated
              | inl (some sources, g) ↦
                  rw (finish_owned, e, f, g) (shadow_sources-Follows now attempt export.id)
            ]
          ]
        ]

  -- What the owner of an attempt may do is a step of its end, and others do nothing.
  resume-Follows :
      (attempt : Attempt) (act : Proposal → Tables → Result Outcome × Tables)
      → ((p : Proposal)
          → In p s.proposals
          → phase p.status ≡ exporting
          → p.shadow_attempt_id ≡ some attempt.attempt_id
          → Good s keyed p.id (ending attempt.attempt_id) (act p s).1)
      → Good s keyed attempt.proposal_id (ending attempt.attempt_id) (resume attempt act s).1
  unfolding resume owns
  resume-Follows attempt act h = elim (Result-cases (locked attempt.proposal_id s)) [
    | inr (e, u) ↦ rw (resume, u) idle
    | inl (p, u) ↦
        let m = locked-In s keyed attempt.proposal_id p u in
        elim (Bool-cases (p.status == "SHADOWED")) [
          | inl v ↦ rw (resume, u, v) idle
          | inr v ↦ elim (Bool-cases (owns attempt.attempt_id p)) [
            | inr w ↦ rw (resume, u, v, w) idle
            | inl w ↦
                let (is_exporting, is_own) = and_true (p.status == "EXPORTING") _ w in
                rw (resume, u, v, w)
                  (at_id s keyed attempt.proposal_id p (ending attempt.attempt_id) (act p s).1 u (
                    h p m (phase_of p.status "EXPORTING" is_exporting ∙ phases.1)
                      ((opt_eqb_iff p.shadow_attempt_id (some attempt.attempt_id)).0 is_own)))
          ]
        ]
  ]
    where
      idle : Good s keyed attempt.proposal_id (ending attempt.attempt_id) s
      idle = kept s keyed attempt.proposal_id (ending attempt.attempt_id)

  pub give_up-Follows :
      (now : ℕ) (attempt : Attempt)
      → Good s keyed attempt.proposal_id (ending attempt.attempt_id) (give_up now attempt s).1
  unfolding give_up
  give_up-Follows now attempt =
      resume-Follows attempt (end_with "STALE" now)
        (λ p m u own. end_with-Follows p m attempt.attempt_id u own now)

  pub finish-Follows :
      (now : ℕ) (attempt : Attempt) (export : Export) (still_match : Bool)
      → Good s keyed attempt.proposal_id
          (ending attempt.attempt_id)
          (finish now attempt export still_match s).1
  unfolding finish
  finish-Follows now attempt export still_match =
      resume-Follows attempt (finish_owned now attempt export still_match) (λ p m u own.
        finish_owned-Follows p m attempt.attempt_id u own now attempt export still_match)

  rollback_locked-Follows :
      (now : ℕ) (p : Proposal)
      → In p s.proposals
      → Good s keyed p.id rolling_back (rollback_locked now p s).1
  unfolding rollback_locked roll_back phase
  rollback_locked-Follows now p m = elim (Bool-cases (p.status == "SHADOWED")) [
    | inr u ↦ rw (rollback_locked, u) (kept s keyed p.id rolling_back)
    | inl u ↦ elim (Result-cases (source_ids p.source_ids_json)) [
      | inr (e, v) ↦ rw (rollback_locked, u, v) (kept s keyed p.id rolling_back)
      | inl (ids, v) ↦
          rw (rollback_locked, u, v)
            (changed s keyed p m rolling_back (roll_back_row now) (λ q. refl)
              (shows (phase_of p.status "SHADOWED" u ∙ phases.2) refl))
    ]
  ]

  pub rollback_shadowed-Follows :
      (now : ℕ) (id : String) → Good s keyed id rolling_back (rollback_shadowed now id s).1
  unfolding rollback_shadowed
  rollback_shadowed-Follows now id = elim (Result-cases (locked id s)) [
    | inr (e, u) ↦ rw (rollback_shadowed, u) (kept s keyed id rolling_back)
    | inl (p, u) ↦
        rw (rollback_shadowed, u)
          (at_id s keyed id p rolling_back (rollback_locked now p s).1 u
            (rollback_locked-Follows now p (locked-In s keyed id p u)))
  ]
