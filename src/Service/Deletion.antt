-- ===== src/Service/Deletion.antt =====
-- What `finalize_shadowed` deletes, and what it records.
pub mod Intact
pub mod Records
pub mod Applied
use mem0_platform_sidecar.Prelude.{
  ℕ, String, ◌≡◌, refl, sym, ap, subst, ◌∙◌, ◌⊎◌, ◌↔◌, inl, inr, Bool, true, false, not, ◌&&◌, ◌||◌,
  Option, none, some, List, [], ◌∷◌, ◌++◌, arith, All, In, is_some, if◌then◌else◌, ◌==◌, eq_iff,
  eqb, length, eq_refl, and_true, some_inj, Bool-cases, Option-cases,
}
use mem0_platform_sidecar.Prelude.Text.{opt_eqb}
use mem0_platform_sidecar.Service.Sources.{equals_text}
use mem0_platform_sidecar.Prelude.Result.{Error, conflict_error, Result, ok, err, Action}
use mem0_platform_sidecar.Prelude.Fallible.{ok_inj, Result-cases}
use mem0_platform_sidecar.Json.{Json, null, boolean, int, float, text, array, object, Fields, get}
use mem0_platform_sidecar.Consolidation.Rows.{Proposal, LineageRow}
use mem0_platform_sidecar.Consolidation.Proposals.{get_proposal, source_ids, expected_hashes}
use mem0_platform_sidecar.Consolidation.Lineage.{get_source, create_lineage}
use mem0_platform_sidecar.Memories.Rows.{Memory}
use mem0_platform_sidecar.Memories.Reads.{is_among}
use mem0_platform_sidecar.Service.Rows.{Tables, Settings, Outcome, outcome, lock_project}
use mem0_platform_sidecar.Service.Deletion.Intact.{HasIntact, IsIntact-matches, intact}
use mem0_platform_sidecar.Service.Upstream.{
  memory_text, fingerprint, extract_memory_ids, is_pinned_metadata, is_pinned_text, or_else,
  record_is_pinned, is_marked, Answer, found, missing, fails, Server, response_matches,
  upstream_sources_match, upstream_canonical_matches, verify_upstream_deleted,
}
use mem0_platform_sidecar.Service.Shadow.{target_ids}
use mem0_platform_sidecar.Service.Finalize.{
  World, is_hidden_unchanged, fail_with, deletable, delete_hidden, delete_source, verified, applied,
  record_deletion, finalize_source, continue_with, finalize_sources, mark_applied, apply_all,
  finalize_allowed, grace_is_over, is_given, finalize, finalize_shadowed,
}

-- The sources match exactly when the server has returned for each of them an object that is intact:
-- it has the id of the source, its text has the digest that is expected of the source, it bears the
-- marks of the project and the app, and neither its metadata nor its text says that it is pinned.
pub upstream_sources_match_lem :
    (server : Server) (ids : List String) (hashes : Fields) (project_id app_id : String)
    → (upstream_sources_match server ids hashes project_id app_id ≡ ok true)
      ↔ All (HasIntact server hashes project_id app_id) ids
unfolding upstream_sources_match
upstream_sources_match_lem server [] hashes project_id app_id = (λ h. tt, λ h. refl)
upstream_sources_match_lem server (id ∷ ids) hashes project_id app_id =
    let rest = upstream_sources_match_lem server ids hashes project_id app_id in
    let tests = response_matches server id (get id hashes) project_id app_id in
    elim (Answer-cases (server.get_memory id)) [
      | inl (response, e) ↦ elim (Bool-cases (tests response)) [
        | inl m ↦ (
          λ h. (
            intact server hashes project_id app_id id response e m,
            rest.0 (rw (upstream_sources_match, e, m) at h),
          ),
          λ h. rw (upstream_sources_match, e, m) (rest.1 h.1),
        )
        | inr m ↦ (
          λ h. absurd (false_not_true (rw (upstream_sources_match, e, m) at h)),
          λ h.
              let (other, f, i) = h.0 in
              let same : found response ≡ found (object other) = sym e ∙ f in
              absurd (
                differs tests response (object other) same m
                  (IsIntact-matches server hashes project_id app_id id other i)),
        )
      ]
      | inr unanswered ↦ elim unanswered [
        | inl e ↦ (
          λ h. absurd (false_not_true (rw (upstream_sources_match, e) at h)),
          λ h.
              let (other, f, i) = h.0 in
              let same : missing ≡ found (object other) = sym e ∙ f in absurd (cc),
        )
        | inr (x, e) ↦ (
          λ h.
              let h' : ◌≡◌ {A = Result Bool} (err x) (ok true) =
                rw (upstream_sources_match, e) at h in
              absurd (cc),
          λ h.
              let (other, f, i) = h.0 in
              let same : fails x ≡ found (object other) = sym e ∙ f in absurd (cc),
        )
      ]
    ]
  where
    Answer-cases :
        (a : Answer)
        → ((r : Json) × (a ≡ found r)) ⊎ ((a ≡ missing) ⊎ ((e : Error) × (a ≡ fails e)))
    Answer-cases (found r) = inl (r, refl)
    Answer-cases missing = inr (inl refl)
    Answer-cases (fails e) = inr (inr (e, refl))

    false_not_true : ◌≡◌ {A = Result Bool} (ok false) (ok true) → ⊥
    false_not_true h = let k : false ≡ true = ok_inj h in cc

    differs : (p : Json → Bool) (a b : Json) → found a ≡ found b → p a ≡ false → p b ≡ true → ⊥
    differs p a b same m n =
        let k : a ≡ b = ap (λ x. elim x [ found r ↦ r | missing ↦ a | fails e ↦ a ]) same in
        let n' : p a ≡ true = subst (λ x. p x ≡ true) (sym k) n in cc
