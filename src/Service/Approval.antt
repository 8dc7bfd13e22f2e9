-- ===== src/Service/Approval.antt =====
-- An approval, and the attempt to shadow that follows it.
pub mod Ready
pub mod Stranded
use mem0_platform_sidecar.Prelude.{
  ℕ, ◌+◌, String, ◌≡◌, refl, sym, ap, subst, ◌∙◌, inl, inr, Bool, true, false, not, ◌&&◌, ◌||◌,
  Option, none, some, List, arith, and_true, all, ltb, In, if◌then◌else◌, ◌==◌, eq_iff, Bool-cases,
  Option-cases,
}
use mem0_platform_sidecar.Prelude.Order.{least}
use mem0_platform_sidecar.Memories.Reads.{memory_id_before}
use mem0_platform_sidecar.Prelude.Result.{value_error, Error, conflict_error, Result, ok, err}
use mem0_platform_sidecar.Prelude.Fallible.{
  ◌>>=◌, ◌>>◌, raise_if, raise_if-ok, bind-ok, ok_inj, Result-cases,
}
use mem0_platform_sidecar.Json.{text, object, Fields, Column, dumps, loads_object}
use mem0_platform_sidecar.Policy.Parse.{Spec}
use mem0_platform_sidecar.Consolidation.Rows.{PolicyRow, Proposal}
use mem0_platform_sidecar.Consolidation.Policies.{get_policy, spec_of}
use mem0_platform_sidecar.Consolidation.Proposals.{
  source_ids, expected_hashes, all_texts, with_status,
}
use mem0_platform_sidecar.Memories.Rows.{active, Memory}
use mem0_platform_sidecar.Memories.Reads.{list_memories_by_ids}
use mem0_platform_sidecar.Service.Rows.{
  Tables, Settings, Outcome, outcome, seconds, change_proposal, mark_stale,
}
use mem0_platform_sidecar.Service.Sources.{
  keys, same_set, memory_ids, is_as_expected, has_canonical, checked, proposal_sources,
}
use mem0_platform_sidecar.Service.Approve.{
  Approval, Approving, decided, adding, is_semantic, semantic_allowed, safe_allowed, is_observe,
  policy_of, approval_allowed, set_field, decision, decide, canonical_hash, fix_canonical_hash,
  approve_row, addition, addition_of, outside, choose, seen_sources, with_sources, request_locked,
  request_approval,
}
use mem0_platform_sidecar.Service.Shadow.{
  Attempt, Begun, started, is_taken, take_attempt, start, policy_and_hashes, start_allowed,
  begin_locked, locked, begin,
}
use mem0_platform_sidecar.Service.Locked.{
  locked-get_proposal, get_proposal-id, locked-change_proposal,
}
use mem0_platform_sidecar.Service.Started.{attempt_of}

abbrev Reply : Type 0
Reply = Result Approving × Tables

-- What an approval writes to a row.
abbrev pub edited : Fields → Option String → Column → Option String → ℕ → Proposal → Proposal
edited hashes canonical evidence hash now p = record p {
  expected_hashes_json = dumps (object hashes);
  canonical_memory_id = canonical;
  evidence_json = evidence;
  canonical_content_hash = hash;
  status = "APPROVED";
  updated_at = now;
}

fix_canonical_hash-edited :
    (replacement_hash : Option String) (hashes : Fields) (q : Proposal)
    → (hash : Option String) × (fix_canonical_hash replacement_hash hashes q
        ≡ record q { canonical_content_hash = hash })
unfolding fix_canonical_hash
fix_canonical_hash-edited replacement_hash hashes q = elim (Option-cases q.canonical_memory_id) [
  | inl c ↦ (
    q.canonical_content_hash,
    rw (fix_canonical_hash, c) (ap (λ (y : Option String). record q { canonical_memory_id = y }) c),
  )
  | inr (x, c) ↦ (
    canonical_hash replacement_hash hashes x,
    rw (fix_canonical_hash, c)
        (ap
          (λ (y : Option String). record q {
            canonical_content_hash = canonical_hash replacement_hash hashes x;
            canonical_memory_id = y;
          })
          c),
  )
]

-- Only a semantic proposal gets another canonical memory.
decide-edited :
    (canonical_id : Option String) (replaced : Bool) (q : Proposal)
    → (canonical : Option String) × (evidence : Column) × (decide canonical_id replaced q
        ≡ record q { canonical_memory_id = canonical; evidence_json = evidence })
      × (is_semantic q.kind ≡ false → canonical ≡ q.canonical_memory_id)
unfolding decide
decide-edited canonical_id replaced q = (
  (decide canonical_id replaced q).canonical_memory_id,
  (decide canonical_id replaced q).evidence_json,
  elim (Bool-cases (is_semantic q.kind)) [
    | inl e ↦ rw (decide, e) refl
    | inr e ↦ rw (decide, e) refl
  ],
  λ e. rw (decide, e) refl,
)

pub approve_row-edited :
    (hashes : Fields) (canonical_id : Option String) (replaced : Bool)
    (replacement_hash : Option String) (now : ℕ) (p : Proposal)
    → (canonical : Option String) × (evidence : Column) × (hash : Option String) × (approve_row
          hashes canonical_id replaced replacement_hash now p
        ≡ edited hashes canonical evidence hash now p)
      × (is_semantic p.kind ≡ false → canonical ≡ p.canonical_memory_id)
unfolding approve_row
approve_row-edited hashes canonical_id replaced replacement_hash now p =
    let q = record p { expected_hashes_json = dumps (object hashes) } in
    let (canonical, evidence, d, only) = decide-edited canonical_id replaced q in
    let (hash, f) =
      fix_canonical_hash-edited replacement_hash hashes (decide canonical_id replaced q) in
    (
      canonical,
      evidence,
      hash,
      ap (with_status "APPROVED" now)
          (f ∙ ap (λ (x : Proposal). record x { canonical_content_hash = hash }) d),
      only,
    )

pub err_not_ok :
    {A : Type 0} (e : Error) (a : A) (s t : Tables)
    → ◌≡◌ {A = Result A × Tables} (err e, s) (ok a, t)
    → ⊥
err_not_ok {A = A} e a s t h = let h' : ◌≡◌ {A = Result A} (err e) (ok a) = ap (λ x. x.0) h in cc

pub decided_inj : {a b : Outcome} → decided a ≡ decided b → a ≡ b
decided_inj {a = a} h = ap (λ x. elim x [ decided y ↦ y | adding y ↦ a ]) h

addition_undecided :
    (p : Proposal) (sources : List Memory) (x : String) (o : Outcome)
    → addition p sources x ≡ ok (decided o)
    → ⊥
unfolding addition
addition_undecided p sources x o h = go (least memory_id_before sources) refl h
  where
    go :
        (first : Option Memory)
        → least memory_id_before sources ≡ first
        → addition p sources x ≡ ok (decided o)
        → ⊥
    go none e k =
        let k' : ◌≡◌ {A = Result Approving} (err (value_error "min() arg is an empty sequence"))
            (ok (decided o)) =
          rw (addition, e) at k in
        cc
    go (some source) e k =
        let k' : ◌≡◌ {A = Result Approving} (ok (adding (addition_of p source x)))
            (ok (decided o)) =
          rw (addition, e) at k in
        let wrong : adding (addition_of p source x) ≡ decided o = ok_inj k' in cc

module _ (settings : Settings) (approval : Approval) (now : ℕ) (p : Proposal) (s t : Tables)
    (o : Outcome) where
  abbrev approved_tables : Tables
  approved_tables =
      change_proposal p.id
        (approve_row approval.expected_source_hashes approval.canonical_id false none now) s

  choose-decided :
      (ids : List String) (sources : List Memory)
      → choose settings approval now p ids sources s ≡ (ok (decided o), t)
      → approved_tables ≡ t
  unfolding choose
  choose-decided ids sources h = elim (Bool-cases (outside approval.canonical_id ids)) [
    | inl u ↦ absurd (err_not_ok _ (decided o) s t (rw (choose, u) at h))
    | inr u ↦ elim (Option-cases approval.replacement_text) [
      | inl v ↦
          ap (λ x. x.1)
            (let h' : ◌≡◌ {A = Reply} (ok (decided (outcome p.id "APPROVED")), approved_tables)
                  (ok (decided o), t) =
                rw (choose, u, v) at h in
              h')
      | inr (x, v) ↦
          elim (Bool-cases (settings.is_empty_text x || ltb 20000 approval.replacement_length)) [
            | inl w ↦ absurd (err_not_ok _ (decided o) s t (rw (choose, u, v, w) at h))
            | inr w ↦ absurd (
                addition_undecided p sources x o (
                  ap (λ y. y.0)
                    (let h' : (addition p sources x, s) ≡ (ok (decided o), t) =
                        rw (choose, u, v, w) at h in
                      h')))
          ]
    ]
  ]

  -- The approval has passed its guards, and the sources their check.
  abbrev pub IsApproved : Type 0
  IsApproved =
      (x : Unit {0}) × (sources : List Memory) × (ids : List String) × (source_ids p.source_ids_json
        ≡ ok ids)
      × (approval_allowed settings approval p s ≡ ok x)
      × (seen_sources approval p s ≡ ok (some sources))
      × (approved_tables ≡ t)

  with_sources-decided :
      (x : Unit {0})
      → approval_allowed settings approval p s ≡ ok x
      → with_sources settings approval now p s ≡ (ok (decided o), t)
      → (o.status == "APPROVED") ≡ true
      → IsApproved
  unfolding with_sources
  with_sources-decided x a h status = elim (Result-cases (seen_sources approval p s)) [
    | inr (e, u) ↦ absurd (err_not_ok e (decided o) s t (rw (with_sources, u) at h))
    | inl (none, u) ↦
        let h' : ◌≡◌ {A = Reply} (ok (decided (outcome p.id "STALE")), mark_stale p.id now s)
            (ok (decided o), t) =
          rw (with_sources, u) at h in
        let k : outcome p.id "STALE" ≡ o = decided_inj (ok_inj (ap (λ y. y.0) h')) in
        let wrong : ("STALE" == "APPROVED") ≡ true =
          subst (λ y. (y.status == "APPROVED") ≡ true) (sym k) status in
        absurd (cc)
    | inl (some sources, u) ↦ elim (Result-cases (source_ids p.source_ids_json)) [
      | inr (e, v) ↦ absurd (err_not_ok e (decided o) s t (rw (with_sources, u, v) at h))
      | inl (ids, v) ↦
          (x, sources, ids, v, a, u, choose-decided ids sources (rw (with_sources, u, v) at h))
    ]
  ]

  request_locked-decided :
      request_locked settings approval now p s ≡ (ok (decided o), t)
      → (o.status == "APPROVED") ≡ true
      → IsApproved
  unfolding request_locked
  request_locked-decided h status = elim (Result-cases (approval_allowed settings approval p s)) [
    | inr (e, u) ↦ absurd (err_not_ok e (decided o) s t (rw (request_locked, u) at h))
    | inl (x, u) ↦ with_sources-decided x u (rw (request_locked, u) at h) status
  ]

pub request_approval-decided :
    (settings : Settings) (approval : Approval) (now : ℕ) (id : String) (s t : Tables) (o : Outcome)
    → request_approval settings approval now id s ≡ (ok (decided o), t)
    → (o.status == "APPROVED") ≡ true
    → (p : Proposal) × (locked id s ≡ ok p) × IsApproved settings approval now p s t o
unfolding request_approval
request_approval-decided settings approval now id s t o h status =
    elim (Result-cases (locked id s)) [
      | inr (e, u) ↦ absurd (err_not_ok e (decided o) s t (rw (request_approval, u) at h))
      | inl (p, u) ↦ (
        p,
        u,
        request_locked-decided settings approval now p s t o (rw (request_approval, u) at h) status,
      )
    ]

passed : (c : Bool) (e : Error) (x : Unit {0}) → raise_if c e ≡ ok x → c ≡ false
unfolding raise_if
passed true e x h = let h' : ◌≡◌ {A = Result (Unit {0})} (err e) (ok x) = h in absurd (cc)
passed false e x h = refl

-- What the guards have found of the policy.
pub approval_allowed-policy :
    (settings : Settings) (approval : Approval) (p : Proposal) (s : Tables) (x : Unit {0})
    → approval_allowed settings approval p s ≡ ok x
    → (policy : Spec) × (policy_of settings p s ≡ ok policy)
      × (settings.bridge_routing_ready ≡ true)
unfolding approval_allowed
approval_allowed-policy settings approval p s x h =
    let (a, rest) = raise_if-ok _ _ _ x h in
    let (policy, read, more) = bind-ok (policy_of settings p s) _ x rest in
    let (y, both, last) =
      bind-ok
        (raise_if (not policy.enabled || is_observe policy.mode)
            (conflict_error "policy does not allow approval")
          >> raise_if (not settings.bridge_routing_ready)
              (conflict_error "bridge routing is not verified"))
        _ x more in
    let (b, ready) = raise_if-ok (not policy.enabled || is_observe policy.mode) _ _ y both in
    let c = passed (not settings.bridge_routing_ready) _ y ready in
    (policy, read, ground (arith, c))
