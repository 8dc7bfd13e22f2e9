-- ===== src/Service/Started.antt =====
-- What is known when `begin` has started an attempt.
use mem0_platform_sidecar.Prelude.{
  ℕ, ◌+◌, String, ◌≡◌, ap, inl, inr, Bool, true, false, not, ◌||◌, none, some, List, if◌then◌else◌,
  ◌==◌, Bool-cases,
}
use mem0_platform_sidecar.Prelude.Result.{Error, Result, ok, err}
use mem0_platform_sidecar.Prelude.Fallible.{ok_inj, Result-cases}
use mem0_platform_sidecar.Json.{Fields}
use mem0_platform_sidecar.Policy.Parse.{Spec}
use mem0_platform_sidecar.Consolidation.Rows.{Proposal}
use mem0_platform_sidecar.Consolidation.Proposals.{source_ids}
use mem0_platform_sidecar.Memories.Rows.{active, Memory}
use mem0_platform_sidecar.Service.Rows.{
  Tables, Settings, Outcome, outcome, seconds, change_proposal, mark_stale,
}
use mem0_platform_sidecar.Service.Sources.{proposal_sources}
use mem0_platform_sidecar.Service.Shadow.{
  Attempt, Begun, settled, started, shadowed_result, is_taken, take_attempt, settle, start,
  policy_and_hashes, start_allowed, begin_locked, locked, begin,
}

abbrev pub attempt_of : String → Proposal → List String → Fields → Spec → Attempt
attempt_of attempt_id p ids hashes policy = record {
  proposal_id = p.id;
  attempt_id = attempt_id;
  ids = ids;
  hashes = hashes;
  grace_days = policy.shadow_grace_days;
}

abbrev Reply : Type 0
Reply = Result Begun × Tables

settled_not_started :
    (r : Result Outcome) (attempt : Attempt) (s t : Tables)
    → ◌≡◌ {A = Reply} (settle r, s) (ok (started attempt), t)
    → ⊥
settled_not_started (ok o) attempt s t h =
    let h' : ◌≡◌ {A = Result Begun} (ok (settled o)) (ok (started attempt)) = ap (λ x. x.0) h in
    let k : settled o ≡ started attempt = ok_inj h' in cc
settled_not_started (err e) attempt s t h =
    let h' : ◌≡◌ {A = Result Begun} (err e) (ok (started attempt)) = ap (λ x. x.0) h in cc

started_inj : {a b : Attempt} → started a ≡ started b → a ≡ b
started_inj {a = a} h = ap (λ x. elim x [ started y ↦ y | settled o ↦ a ]) h

err_not_started :
    (e : Error) (attempt : Attempt) (s t : Tables)
    → ◌≡◌ {A = Reply} (err e, s) (ok (started attempt), t)
    → ⊥
err_not_started e attempt s t h = settled_not_started (err e) attempt s t h

else_of : (c : Bool) (x y z : Reply) → c ≡ false → (if c then x else y) ≡ z → y ≡ z
else_of true x y z e h = cc
else_of false x y z e h = h

module _ (settings : Settings) (attempt_id : String) (now : ℕ) (p : Proposal) (attempt : Attempt)
    (s t : Tables) where
  -- The attempt is that of the proposal's sources and hashes, which have passed the check, and only
  -- the row of the proposal has changed.
  abbrev pub IsStarted : Type 0
  IsStarted =
      (policy : Spec) × (hashes : Fields) × (ids : List String) × (sources : List Memory)
      × (policy_and_hashes settings p s ≡ ok (policy, hashes))
      × (proposal_sources p hashes active s ≡ ok (some sources))
      × (source_ids p.source_ids_json ≡ ok ids)
      × (attempt_of attempt_id p ids hashes policy ≡ attempt)
      × (change_proposal p.id
            (take_attempt attempt_id (now + seconds settings.shadow_lease_seconds) now) s
          ≡ t)

  start-started :
      (policy : Spec) (hashes : Fields)
      → policy_and_hashes settings p s ≡ ok (policy, hashes)
      → start settings attempt_id now p policy hashes s ≡ (ok (started attempt), t)
      → IsStarted
  unfolding start
  start-started policy hashes read h = elim (Result-cases (proposal_sources p hashes active s)) [
    | inr (e, u) ↦ absurd (err_not_started e attempt s t (rw (start, u) at h))
    | inl (none, u) ↦ absurd (
        settled_not_started (ok (outcome p.id "STALE")) attempt (mark_stale p.id now s) t
          (rw (start, u) at h))
    | inl (some sources, u) ↦ elim (Result-cases (source_ids p.source_ids_json)) [
      | inr (e, v) ↦ absurd (err_not_started e attempt s t (rw (start, u, v) at h))
      | inl (ids, v) ↦
          let h' : ◌≡◌ {A = Reply}
              (
                ok (started (attempt_of attempt_id p ids hashes policy)),
                change_proposal p.id
                    (take_attempt attempt_id (now + seconds settings.shadow_lease_seconds) now) s,
              )
              (ok (started attempt), t) =
            rw (start, u, v) at h in
          (
            policy,
            hashes,
            ids,
            sources,
            read,
            u,
            v,
            started_inj (ok_inj (ap (λ x. x.0) h')),
            ap (λ x. x.1) h',
          )
    ]
  ]

  start_allowed-started :
      start_allowed settings attempt_id now p s ≡ (ok (started attempt), t) → IsStarted
  unfolding start_allowed
  start_allowed-started h = elim (Result-cases (policy_and_hashes settings p s)) [
    | inr (e, u) ↦ absurd (err_not_started e attempt s t (rw (start_allowed, u) at h))
    | inl (read, u) ↦ start-started read.0 read.1 u (rw (start_allowed, u) at h)
  ]

  pub begin_locked-started :
      begin_locked settings attempt_id now p s ≡ (ok (started attempt), t)
      → ((p.status == "APPROVED" || p.status == "EXPORTING") ≡ true)
        × (is_taken now p ≡ false)
        × IsStarted
  unfolding begin_locked
  begin_locked-started h = elim (Bool-cases (p.status == "SHADOWED")) [
    | inl u ↦
        absurd (settled_not_started (shadowed_result p) attempt s t (rw (begin_locked, u) at h))
    | inr u ↦ elim (Bool-cases (p.status == "APPROVED" || p.status == "EXPORTING")) [
      | inr v ↦ absurd (err_not_started _ attempt s t (rw (begin_locked, u, v) at h))
      | inl v ↦ elim (Bool-cases (is_taken now p)) [
        | inl w ↦ absurd (
            settled_not_started (ok (outcome p.id p.status)) attempt s t
              (rw (begin_locked, u, v, w) at h))
        | inr w ↦ elim (Bool-cases settings.bridge_routing_ready) [
          | inr x ↦ absurd (err_not_started _ attempt s t (rw (begin_locked, u, v, w, x) at h))
          | inl x ↦ (
            v,
            w,
            start_allowed-started (
                else_of (not settings.bridge_routing_ready) _ _ _ (ap not x)
                  (rw (begin_locked, u, v, w) at h)),
          )
        ]
      ]
    ]
  ]

pub begin-started :
    (settings : Settings) (attempt_id : String) (now : ℕ) (id : String) (attempt : Attempt)
    (s t : Tables)
    → begin settings attempt_id now id s ≡ (ok (started attempt), t)
    → (p : Proposal) × (locked id s ≡ ok p)
      × (begin_locked settings attempt_id now p s ≡ (ok (started attempt), t))
unfolding begin
begin-started settings attempt_id now id attempt s t h = elim (Result-cases (locked id s)) [
  | inr (e, u) ↦ absurd (err_not_started e attempt s t (rw (begin, u) at h))
  | inl (p, u) ↦ (p, u, rw (begin, u) at h)
]
