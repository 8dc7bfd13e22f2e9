-- ===== src/Scheduler/Scans.antt =====
-- What the tables hold once the scheduler has enqueued a scan.
use mem0_platform_sidecar.Prelude.{
  ℕ, ◌/◌, ◌<>◌, String, ◌≡◌, refl, Bool, true, false, not, ◌&&◌, none, List, [], ◌∷◌, ◌++◌, any,
  ltb, length, is_some, Bool-cases, Option-cases, inl, inr,
}
use mem0_platform_sidecar.Prelude.Result.{Error, integrity_error, Result, ok, err}
use mem0_platform_sidecar.Prelude.Fallible.{Result-cases}
use mem0_platform_sidecar.Policy.Parse.{Spec}
use mem0_platform_sidecar.Jobs.{new_job, is_duplicate, find_by_dedupe, enqueue}
use mem0_platform_sidecar.Consolidation.Rows.{PolicyRow, Run}
use mem0_platform_sidecar.Consolidation.Policies.{spec_of}
use mem0_platform_sidecar.Consolidation.Runs.{
  active, run_has_id, last, last_succeeded, new_run, create_run,
}
use mem0_platform_sidecar.Memories.Anchors.{list_dirty_anchors}
use mem0_platform_sidecar.Scheduler.{
  Tables, Outside, scan_request, reported, fail_blocked, report_blocked, start_scan,
  already_reported, bridge_blocked, lock_for_mutation, interval_due, enqueue_locked, enqueue_spec,
  enqueue_scope,
}

-- A scan of a policy's scope has been enqueued: from `s` to `t`, one run and one job were added.
pub record IsScan (outside : Outside) (now : ℕ) (policy : PolicyRow) (s t : Tables) : Type 0 where
  pub was_idle : active policy.project_id policy.app_id s.runs ≡ none
  pub dedupe_key : String
  pub after : t ≡ record s {
    runs = s.runs ++ new_run (outside.run_id policy.id) policy now ∷ [];
    jobs =
        s.jobs
        ++ new_job
            (outside.job_id policy.id)
            now
            (scan_request policy (outside.run_id policy.id) dedupe_key)
          ∷ [];
  }

false_is_not_true : {A : Type 0} → ok false ≡ ok true → A
false_is_not_true h = cc

err_is_not_true : {A : Type 0} (e : Error) → ◌≡◌ {A = Result Bool} (err e) (ok true) → A
err_is_not_true e h = cc

reported_ne_true :
    {A : Type 0} (s : Tables) (r : Result Run × List Run) → (reported s r).0 ≡ ok true → A
reported_ne_true s (err e, runs) h = err_is_not_true e h
reported_ne_true s (ok run, runs) h = false_is_not_true h

fail_blocked_ne_true :
    {A : Type 0} (now : ℕ) (s : Tables) (r : Result Run × List Run)
    → (fail_blocked now s r).0 ≡ ok true
    → A
fail_blocked_ne_true now s (err e, runs) h = err_is_not_true e h
fail_blocked_ne_true now s (ok run, runs) h = reported_ne_true s _ h

report_blocked_ne_true :
    {A : Type 0} (outside : Outside) (now : ℕ) (policy : PolicyRow) (spec : Spec) (s : Tables)
    → (report_blocked outside now policy spec s).0 ≡ ok true
    → A
unfolding report_blocked
report_blocked_ne_true outside now policy spec s h =
    elim (Bool-cases (
      already_reported (last policy.project_id policy.app_id s.runs) spec.scan_interval_seconds
        now)) [
          | inl e ↦ false_is_not_true (rw (report_blocked, e) at h)
          | inr e ↦ fail_blocked_ne_true now s _ (rw (report_blocked, e) at h)
        ]

start_scan-IsScan :
    (outside : Outside) (now : ℕ) (policy : PolicyRow) (key : String) (s : Tables)
    → active policy.project_id policy.app_id s.runs ≡ none
    → (start_scan outside now policy key s).0 ≡ ok true
    → IsScan outside now policy s (start_scan outside now policy key s).1
unfolding start_scan create_run enqueue
start_scan-IsScan outside now policy key s a h =
    let request = scan_request policy (outside.run_id policy.id) key in
    elim (Bool-cases (any (run_has_id (outside.run_id policy.id)) s.runs)) [
      | inl e ↦ err_is_not_true integrity_error (rw (start_scan, create_run, e) at h)
      | inr e ↦ elim (Bool-cases (is_duplicate (outside.job_id policy.id) request s.jobs)) [
        | inl d ↦ err_is_not_true integrity_error (rw (start_scan, create_run, e, enqueue, d) at h)
        | inr d ↦ record {
          was_idle = a;
          dedupe_key = key;
          after = rw (start_scan, create_run, e, enqueue, d) refl;
        }
      ]
    ]

enqueue_locked-IsScan :
    (outside : Outside) (now : ℕ) (policy : PolicyRow) (spec : Spec) (s : Tables)
    → (enqueue_locked outside now policy spec s).0 ≡ ok true
    → IsScan outside now policy s (enqueue_locked outside now policy spec s).1
unfolding enqueue_locked
enqueue_locked-IsScan outside now policy spec s h =
    let key =
      policy.app_id <> ":" <> outside.decimal (now / 1000000 / spec.scan_interval_seconds) in
    elim (Option-cases (active policy.project_id policy.app_id s.runs)) [
      | inr (run, e) ↦ false_is_not_true (rw (enqueue_locked, e) at h)
      | inl a ↦
          elim (Bool-cases
            (is_some (find_by_dedupe policy.project_id "consolidation.scan" key s.jobs))) [
              | inl e ↦ false_is_not_true (rw (enqueue_locked, a, e) at h)
              | inr fresh ↦ elim (Result-cases (bridge_blocked outside now policy spec)) [
                | inr (e, b) ↦ err_is_not_true e (rw (enqueue_locked, a, fresh, b) at h)
                | inl (true, b) ↦
                    report_blocked_ne_true outside now policy spec s
                      (rw (enqueue_locked, a, fresh, b) at h)
                | inl (false, b) ↦
                    rw (enqueue_locked, a, fresh, b)
                      (start_scan-IsScan outside now policy key s a
                        (rw (enqueue_locked, a, fresh, b) at h))
              ]
            ]
    ]

enqueue_spec-IsScan :
    (outside : Outside) (now : ℕ) (policy : PolicyRow) (spec : Spec) (s : Tables)
    → (enqueue_spec outside now policy spec s).0 ≡ ok true
    → IsScan outside now policy s (enqueue_spec outside now policy spec s).1
unfolding enqueue_spec
enqueue_spec-IsScan outside now policy spec s h =
    let listed =
      list_dirty_anchors policy.project_id policy.app_id none spec.min_new_memories s.anchors in
    elim (Option-cases (active policy.project_id policy.app_id s.runs)) [
      | inr (run, e) ↦ false_is_not_true (rw (enqueue_spec, e) at h)
      | inl a ↦ elim (Result-cases listed) [
        | inr (e, l) ↦ err_is_not_true e (rw (enqueue_spec, a, l) at h)
        | inl (dirty, l) ↦
            let few =
              ltb (length dirty) spec.min_new_memories
              && not (
                  interval_due (last_succeeded policy.project_id policy.app_id s.runs)
                    spec.scan_interval_seconds now) in
            elim (Bool-cases few) [
              | inl f ↦ false_is_not_true (rw (enqueue_spec, a, l, f) at h)
              | inr f ↦ elim (Result-cases (lock_for_mutation policy.project_id s.projects)) [
                | inr (e, k) ↦ err_is_not_true e (rw (enqueue_spec, a, l, f, k) at h)
                | inl (locked, k) ↦
                    rw (enqueue_spec, a, l, f, k)
                      (enqueue_locked-IsScan outside now policy spec s
                        (rw (enqueue_spec, a, l, f, k) at h))
              ]
            ]
      ]
    ]

-- When the scheduler reports a scan for a policy, the scope had no active run, and exactly two rows
-- were added: a pending run of the policy, and a job that names this run and waits to be claimed.
pub enqueue_scope-IsScan :
    (outside : Outside) (now : ℕ) (policy : PolicyRow) (s : Tables)
    → (enqueue_scope outside now policy s).0 ≡ ok true
    → IsScan outside now policy s (enqueue_scope outside now policy s).1
unfolding enqueue_scope
enqueue_scope-IsScan outside now policy s h =
    elim (Result-cases (spec_of outside.texts policy.policy_json)) [
      | inr (e, p) ↦ err_is_not_true e (rw (enqueue_scope, p) at h)
      | inl (spec, p) ↦
          rw (enqueue_scope, p)
            (enqueue_spec-IsScan outside now policy spec s (rw (enqueue_scope, p) at h))
    ]
