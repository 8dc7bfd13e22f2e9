-- ===== src/Service/Refinement.antt =====
-- The methods of the service as commands, and what they make of the proposals.
pub mod Ends
pub mod Approvals
pub mod Histories
use mem0_platform_sidecar.Prelude.{
  ℕ, ◌+◌, String, ◌≡◌, refl, sym, ap, Bool, true, false, not, ◌||◌, Option, none, some, List, [],
  ◌∷◌, arith, In, ◌&&◌, ◌≤◌, ◌⊎◌, is_some, eqb, ltb, length, if◌then◌else◌, ◌==◌, eq_iff,
  Bool-cases, Option-cases, inl, inr, subst, ◌∙◌,
}
use mem0_platform_sidecar.Prelude.Tables.{IsKeyed, update_rows, IsKeyed-update_rows}
use mem0_platform_sidecar.Prelude.Result.{Result, ok, err}
use mem0_platform_sidecar.Prelude.Fallible.{Result-cases, ◌>>=◌}
use mem0_platform_sidecar.Json.{Fields}
use mem0_platform_sidecar.Policy.Parse.{Spec}
use mem0_platform_sidecar.Consolidation.Rows.{Proposal}
use mem0_platform_sidecar.Consolidation.Proposals.{
  source_ids, get_proposal, proposal_has_id, with_status,
}
use mem0_platform_sidecar.Memories.Rows.{active, Memory}
use mem0_platform_sidecar.Memories.Reads.{list_memories_by_ids}
use mem0_platform_sidecar.Service.Rows.{
  Tables, Settings, Outcome, seconds, change_proposal, mark_stale, lock_project,
}
use mem0_platform_sidecar.Service.Sources.{proposal_sources}
use mem0_platform_sidecar.Service.Upstream.{Server}
use mem0_platform_sidecar.Service.Approve.{
  Approval, Approving, is_semantic, approval_allowed, decide, fix_canonical_hash, approve_row,
  choose, seen_sources, with_sources, request_locked, request_approval, added_memory, approve_with,
  approve_replacement,
}
use mem0_platform_sidecar.Service.Shadow.{
  Attempt, Begun, is_live, is_taken, take_attempt, start, policy_and_hashes, start_allowed,
  begin_locked, locked, begin, owns, resume, end_with, give_up, Export, is_complete, target_ids,
  shadow_export, shadow_sources, finish_owned, finish, is_row_of,
}
use mem0_platform_sidecar.Service.Rollback.{
  roll_back, roll_back_row, rollback_locked, rollback_shadowed,
}
use mem0_platform_sidecar.Service.Locked.{locked-get_proposal, get_proposal-In}
use mem0_platform_sidecar.Service.Moves.{
  Phase, phase, approved, exporting, hidden, rolled_back, outdated, failed, State, state_of,
  in_phase, Action, starting, HasEnded, IsReady, Step, starts, lapses, id_of, Follows, Follows-refl,
  Follows-update_rows, Follows-update_all, replacing, replaces, misses,
}

-- What an approval leaves of a row: its id and its attempt.
abbrev attempt_of : Proposal → String × Option String × Option ℕ
attempt_of q = (q.id, q.shadow_attempt_id, q.shadow_attempt_expires_at)

attempt_of-fix_canonical_hash :
    (hash : Option String) (hashes : Fields) (q : Proposal)
    → attempt_of (fix_canonical_hash hash hashes q) ≡ attempt_of q
unfolding fix_canonical_hash
attempt_of-fix_canonical_hash hash hashes q = elim (Option-cases q.canonical_memory_id) [
  | inl e ↦ rw (fix_canonical_hash, e) refl
  | inr (c, e) ↦ rw (fix_canonical_hash, e) refl
]

attempt_of-decide :
    (canonical : Option String) (replaced : Bool) (q : Proposal)
    → attempt_of (decide canonical replaced q) ≡ attempt_of q
unfolding decide
attempt_of-decide canonical replaced q = elim (Bool-cases (is_semantic q.kind)) [
  | inl e ↦ rw (decide, e) refl
  | inr e ↦ rw (decide, e) refl
]

module _ (hashes : Fields) (canonical : Option String) (replaced : Bool) (hash : Option String)
    (now : ℕ) (q : Proposal) where
  attempt_of-approve_row :
      attempt_of (approve_row hashes canonical replaced hash now q) ≡ attempt_of q
  unfolding approve_row
  attempt_of-approve_row =
      attempt_of-fix_canonical_hash hash hashes _ ∙ attempt_of-decide canonical replaced _

  pub approve_row-id : (approve_row hashes canonical replaced hash now q).id ≡ q.id
  approve_row-id = ap (λ x. x.0) attempt_of-approve_row

  pub approve_row-status : (approve_row hashes canonical replaced hash now q).status ≡ "APPROVED"
  unfolding approve_row
  approve_row-status = refl

  approve_row-approved :
      state_of (approve_row hashes canonical replaced hash now q) ≡ in_phase approved (state_of q)
  unfolding approve_row phase
  approve_row-approved =
      ap (λ (x : String × Option String × Option ℕ). state_with approved x.1 x.2)
        attempt_of-approve_row
    where
      state_with : Phase → Option String → Option ℕ → State
      state_with to attempt expiry = record { phase = to; attempt = attempt; expiry = expiry }

pub phase_of : (status other : String) → (status == other) ≡ true → phase status ≡ phase other
phase_of status other e =
    let same : status ≡ other = ground (arith, eq_iff status other) in ap phase same

pub phases :
    (phase "APPROVED" ≡ approved)
    × (phase "EXPORTING" ≡ exporting)
    × (phase "SHADOWED" ≡ hidden)
    × (phase "ROLLED_BACK" ≡ rolled_back)
    × (phase "STALE" ≡ outdated)
    × (phase "FAILED" ≡ failed)
unfolding phase
phases = (refl, refl, refl, refl, refl, refl)

-- An approval that has added a memory approves the row, or expires it, whatever its phase.
pub approved-Follows :
    (id : String) (hashes : Fields) (canonical : Option String) (replaced : Bool)
    (hash : Option String) (now : ℕ) (rows : List Proposal)
    → Follows id replacing rows
        (update_rows (proposal_has_id id) (approve_row hashes canonical replaced hash now) rows)
approved-Follows id hashes canonical replaced hash now rows =
    Follows-update_all replacing id (approve_row hashes canonical replaced hash now) rows (λ q. (
      approve_row-id hashes canonical replaced hash now q,
      replaces (approve_row-approved hashes canonical replaced hash now q),
    ))

pub expired-Follows :
    (id : String) (now : ℕ) (rows : List Proposal)
    → Follows id replacing rows (update_rows (proposal_has_id id) (with_status "STALE" now) rows)
unfolding phase
expired-Follows id now rows =
    Follows-update_all replacing id (with_status "STALE" now) rows (λ q. (refl, misses refl))

-- The tables, of whose proposals the ids are distinct, before a method is called.
module _ (s : Tables) (keyed : IsKeyed id_of s.proposals) where
  abbrev pub Good : String → Action → Tables → Type 0
  Good id a t = Follows id a s.proposals t.proposals

  abbrev pub changed_rows : Proposal → (Proposal → Proposal) → List Proposal
  changed_rows p f = update_rows (proposal_has_id p.id) f s.proposals

  pub kept : (id : String) (a : Action) → Good id a s
  kept id a = Follows-refl id a s.proposals

  module _ (p : Proposal) (m : In p s.proposals) where
    pub changed :
        (a : Action) (f : Proposal → Proposal)
        → ((q : Proposal) → (f q).id ≡ q.id)
        → Step (state_of p) (state_of (f p)) a
        → Follows p.id a s.proposals (changed_rows p f)
    changed a f same step = Follows-update_rows a s.proposals p f keyed m same step

    pub expired :
        (a : Action) (now : ℕ)
        → Step (state_of p) (in_phase outdated (state_of p)) a
        → Good p.id a (mark_stale p.id now s)
    unfolding phase
    expired a now step = changed a (with_status "STALE" now) (λ q. refl) step

    pub became_approved :
        (a : Action) (hashes : Fields) (canonical : Option String) (replaced : Bool)
        (hash : Option String) (now : ℕ)
        → Step (state_of p) (in_phase approved (state_of p)) a
        → Good p.id a (change_proposal p.id (approve_row hashes canonical replaced hash now) s)
    became_approved a hashes canonical replaced hash now step =
        changed a (approve_row hashes canonical replaced hash now)
          (approve_row-id hashes canonical replaced hash now)
          (subst (λ x. Step (state_of p) x a)
            (sym (approve_row-approved hashes canonical replaced hash now p)) step)

    module _ (settings : Settings) (attempt_id : String) (now : ℕ) where
      abbrev pub start_of : Action
      start_of = starting attempt_id now (now + seconds settings.shadow_lease_seconds)

      start-Follows :
          (policy : Spec) (hashes : Fields)
          → IsReady now (state_of p)
          → Good p.id start_of (start settings attempt_id now p policy hashes s).1
      unfolding start phase
      start-Follows policy hashes ready = elim (Result-cases (proposal_sources p hashes active s)) [
        | inr (e, v) ↦ rw (start, v) (kept p.id start_of)
        | inl (none, v) ↦ rw (start, v) (expired start_of now (lapses ready refl))
        | inl (some sources, v) ↦ elim (Result-cases (source_ids p.source_ids_json)) [
          | inr (e, w) ↦ rw (start, v, w) (kept p.id start_of)
          | inl (ids, w) ↦
              rw (start, v, w)
                (changed start_of
                  (take_attempt attempt_id (now + seconds settings.shadow_lease_seconds) now)
                  (λ q. refl) (starts ready refl))
        ]
      ]

      allowed_start :
          (p.status == "APPROVED" || p.status == "EXPORTING") ≡ true
          → is_taken now p ≡ false
          → IsReady now (state_of p)
      allowed_start v w = elim (Bool-cases (p.status == "APPROVED")) [
        | inl a ↦ inl (phase_of p.status "APPROVED" a ∙ phases.0)
        | inr a ↦
            let e : (p.status == "EXPORTING") ≡ true = ground arith in
            inr (
              phase_of p.status "EXPORTING" e ∙ phases.1,
              ended p.shadow_attempt_id p.shadow_attempt_expires_at (rw e at w),
            )
      ]
        where
          ended :
              (attempt : Option String) (expiry : Option ℕ)
              → (is_some attempt && is_live now expiry) ≡ false
              → (attempt ≡ none) ⊎ HasEnded now expiry
          ended none expiry h = inl refl
          ended (some id) none h = inr tt
          ended (some id) (some expiry) h = inr (ground (arith, h))

      pub begin_locked-Follows : Good p.id start_of (begin_locked settings attempt_id now p s).1
      unfolding begin_locked start_allowed
      begin_locked-Follows = elim (Bool-cases (p.status == "SHADOWED")) [
        | inl u ↦ rw (begin_locked, u) (kept p.id start_of)
        | inr u ↦ elim (Bool-cases (p.status == "APPROVED" || p.status == "EXPORTING")) [
          | inr v ↦ rw (begin_locked, u, v) (kept p.id start_of)
          | inl v ↦ elim (Bool-cases (is_taken now p)) [
            | inl w ↦ rw (begin_locked, u, v, w) (kept p.id start_of)
            | inr w ↦
                rw (begin_locked, u, v, w)
                  (allowed settings.bridge_routing_ready _
                    (start_allowed settings attempt_id now p s)
                    (elim (Result-cases (policy_and_hashes settings p s)) [
                      | inr (e, x) ↦ rw (start_allowed, x) (kept p.id start_of)
                      | inl (read, x) ↦
                          rw (start_allowed, x) (start-Follows read.0 read.1 (allowed_start v w))
                    ]))
          ]
        ]
      ]
        where
          allowed :
              (ready : Bool) (r : Result Begun) (act : Result Begun × Tables)
              → Good p.id start_of act.1
              → Good p.id start_of (if not ready then (r, s) else act).1
          allowed true r act h = h
          allowed false r act h = kept p.id start_of
