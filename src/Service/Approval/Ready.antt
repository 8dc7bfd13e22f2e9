-- ===== src/Service/Approval/Ready.antt =====
-- An approved proposal can be shadowed.
use mem0_platform_sidecar.Prelude.{
  ℕ, ◌+◌, String, ◌≡◌, refl, ap, subst, ◌∙◌, inl, inr, Bool, true, false, not, Option, none, some,
  List, arith, if◌then◌else◌, ◌==◌, eq_iff, Bool-cases, Option-cases,
}
use mem0_platform_sidecar.Prelude.Result.{conflict_error, Result, ok, err}
use mem0_platform_sidecar.Prelude.Fallible.{◌>>=◌, ok_inj}
use mem0_platform_sidecar.Json.{Fields, Column}
use mem0_platform_sidecar.Policy.Parse.{Spec}
use mem0_platform_sidecar.Consolidation.Rows.{Proposal}
use mem0_platform_sidecar.Consolidation.Policies.{get_policy, spec_of}
use mem0_platform_sidecar.Consolidation.Proposals.{source_ids, expected_hashes, all_texts}
use mem0_platform_sidecar.Memories.Rows.{active, Memory}
use mem0_platform_sidecar.Memories.Reads.{list_memories_by_ids}
use mem0_platform_sidecar.Service.Rows.{Tables, Settings, Outcome, seconds, change_proposal}
use mem0_platform_sidecar.Service.Sources.{keys, same_set, checked, proposal_sources}
use mem0_platform_sidecar.Service.Approve.{
  Approval, decided, is_semantic, policy_of, approve_row, seen_sources, request_approval,
}
use mem0_platform_sidecar.Service.Shadow.{
  Attempt, Begun, started, take_attempt, start, policy_and_hashes, start_allowed, begin_locked,
  locked, begin,
}
use mem0_platform_sidecar.Service.Locked.{locked-change_proposal}
use mem0_platform_sidecar.Service.Started.{attempt_of}
use mem0_platform_sidecar.Service.Refinement.{approve_row-id}
use mem0_platform_sidecar.Service.Approval.{
  edited, approve_row-edited, request_approval-decided, approval_allowed-policy,
}

not_exact : (kind : String) → is_semantic kind ≡ true → (kind == "EXACT_DUPLICATE") ≡ false
not_exact kind e = elim (Bool-cases (kind == "EXACT_DUPLICATE")) [
  | inl g ↦
      let same : kind ≡ "EXACT_DUPLICATE" = ground (arith, eq_iff kind "EXACT_DUPLICATE") in
      let wrong : is_semantic "EXACT_DUPLICATE" ≡ true = subst (λ x. is_semantic x ≡ true) same e in
      absurd (cc)
  | inr g ↦ g
]

-- `after` differs from `p` in what an approval writes.
module _ (p : Proposal) (hashes : Fields) (canonical : Option String) (evidence : Column)
    (hash : Option String) (now : ℕ) where
  abbrev after : Proposal
  after = edited hashes canonical evidence hash now p

  checked-edited :
      (is_semantic p.kind ≡ false → canonical ≡ p.canonical_memory_id)
      → (ids : List String) (rows : List Memory)
      → checked hashes active after ids rows ≡ checked hashes active p ids rows
  unfolding checked
  checked-edited only ids rows = elim (Bool-cases (is_semantic p.kind)) [
    | inl e ↦ rw (not_exact p.kind e) refl
    | inr e ↦ rw (only e) refl
  ]

  proposal_sources-edited :
      (s t : Tables) (ids : List String) (sources : List Memory)
      → (is_semantic p.kind ≡ false → canonical ≡ p.canonical_memory_id)
      → t.memories ≡ s.memories
      → source_ids p.source_ids_json ≡ ok ids
      → proposal_sources p hashes active s ≡ ok (some sources)
      → proposal_sources after hashes active t ≡ ok (some sources)
  unfolding proposal_sources
  proposal_sources-edited s t ids sources only same i h =
      elim (Bool-cases (same_set (keys hashes) ids)) [
        | inr u ↦ rw (proposal_sources, i, u) (rw (proposal_sources, i, u) at h)
        | inl u ↦
            let c =
              checked-edited only ids
                (list_memories_by_ids p.project_id (some p.app_id) ids true true s.memories) in
            rw (proposal_sources, i, u, same, c) (rw (proposal_sources, i, u) at h)
      ]

  policy_and_hashes-edited :
      (settings : Settings) (s t : Tables) (policy : Spec)
      → t.policies ≡ s.policies
      → policy_of settings p s ≡ ok policy
      → all_texts hashes ≡ true
      → policy_and_hashes settings after t ≡ ok (policy, hashes)
  unfolding policy_and_hashes policy_of expected_hashes ◌>>=◌
  policy_and_hashes-edited settings s t policy same h texts =
      elim (Option-cases (get_policy p.project_id p.app_id s.policies)) [
        | inl u ↦
            let h' : ◌≡◌ {A = Result Spec} (err (conflict_error "consolidation policy is missing"))
                (ok policy) =
              rw (policy_of, u) at h in
            absurd (cc)
        | inr (row, u) ↦
            let h' : spec_of settings.texts row.policy_json ≡ ok policy = rw (policy_of, u) at h in
            rw (policy_and_hashes, same, u, h', ◌>>=◌, expected_hashes, texts) refl
      ]

  -- The answer of `begin`, and the tables after it.
  abbrev begun : Settings → String → ℕ → Tables → Spec → List String → Result Begun × Tables
  begun settings attempt_id later t policy ids = (
    ok (started (attempt_of attempt_id after ids hashes policy)),
    change_proposal p.id
        (take_attempt attempt_id (later + seconds settings.shadow_lease_seconds) later) t,
  )

  module _ (settings : Settings) (attempt_id : String) (later : ℕ) (t : Tables) (policy : Spec)
      (ids : List String) (sources : List Memory)
      (read : policy_and_hashes settings after t ≡ ok (policy, hashes))
      (found : proposal_sources after hashes active t ≡ ok (some sources))
      (i : source_ids p.source_ids_json ≡ ok ids) where
    start_allowed-edited :
        start_allowed settings attempt_id later after t
        ≡ begun settings attempt_id later t policy ids
    unfolding start_allowed start
    start_allowed-edited = rw (start_allowed, read, start, found, i) refl

    begin_locked-edited :
        settings.bridge_routing_ready ≡ true
        → begin_locked settings attempt_id later after t
          ≡ begun settings attempt_id later t policy ids
    unfolding begin_locked
    begin_locked-edited ready =
        otherwise (not settings.bridge_routing_ready) _ _ (ap not ready) ∙ start_allowed-edited
      where
        otherwise : (c : Bool) (x y : Result Begun × Tables) → c ≡ false → (if c then x else y) ≡ y
        otherwise true x y e = absurd (cc)
        otherwise false x y e = refl

pub seen_sources-texts :
    (approval : Approval) (p : Proposal) (s : Tables) (sources : List Memory)
    → seen_sources approval p s ≡ ok (some sources)
    → (all_texts approval.expected_source_hashes ≡ true)
      × (proposal_sources p approval.expected_source_hashes active s ≡ ok (some sources))
unfolding seen_sources
seen_sources-texts approval p s sources h =
    elim (Bool-cases (all_texts approval.expected_source_hashes)) [
      | inl e ↦ (e, rw (seen_sources, e) at h)
      | inr e ↦
          let h' : ◌≡◌ {A = Result (Option (List Memory))} (ok none) (ok (some sources)) =
            rw (seen_sources, e) at h in
          let k : ◌≡◌ {A = Option (List Memory)} none (some sources) = ok_inj h' in absurd (cc)
    ]

-- Where `approve_proposal` has answered APPROVED without a replacement text, `shadow_approved` starts an
-- attempt on the tables that it leaves, under the same settings and at any instant, and the attempt
-- expects the hashes that the operator gave.
pub begin-request_approval :
    (settings : Settings) (approval : Approval) (now later : ℕ) (attempt_id id : String)
    (s t : Tables) (o : Outcome)
    → request_approval settings approval now id s ≡ (ok (decided o), t)
    → (o.status == "APPROVED") ≡ true
    → (attempt : Attempt) × ((begin settings attempt_id later id t).0 ≡ ok (started attempt))
      × (attempt.hashes ≡ approval.expected_source_hashes)
      × (attempt.attempt_id ≡ attempt_id)
unfolding begin
begin-request_approval settings approval now later attempt_id id s t o h status =
    let (p, l, known) = request_approval-decided settings approval now id s t o h status in
    let (x, sources, ids, i, allowed, seen, changed) = known in
    let hashes = approval.expected_source_hashes in
    let (texts, checked) = seen_sources-texts approval p s sources seen in
    let (policy, read, ready) = approval_allowed-policy settings approval p s x allowed in
    let (canonical, evidence, hash, e, only) =
      approve_row-edited hashes approval.canonical_id false none now p in
    let q = after p hashes canonical evidence hash now in
    let f = approve_row hashes approval.canonical_id false none now in
    let u = change_proposal p.id f s in
    let l' : locked id u ≡ ok q =
      locked-change_proposal id f s u p (approve_row-id hashes approval.canonical_id false none now)
        (ap (λ r. r.project_id) e) refl refl l
      ∙ ap ok e in
    let found =
      proposal_sources-edited p hashes canonical evidence hash now s u ids sources only refl i
        checked in
    let both =
      policy_and_hashes-edited p hashes canonical evidence hash now settings s u policy refl read
        texts in
    let b =
      begin_locked-edited p hashes canonical evidence hash now settings attempt_id later u policy
        ids sources both found i ready in
    (
      attempt_of attempt_id q ids hashes policy,
      subst
          (λ x.
            (begin settings attempt_id later id x).0
            ≡ ok (started (attempt_of attempt_id q ids hashes policy)))
          changed (rw (begin, l') (ap (λ x. x.0) b)),
      refl,
      refl,
    )
