-- ===== src/Scheduler.antt =====
-- The consolidation scheduler: `ConsolidationScheduler.enqueue_due_scopes` of
-- src/mem0_sidecar/workers/consolidation.py.
pub mod Runs
pub mod Limits
pub mod Scans
mod Examples
use mem0_platform_sidecar.Prelude.{
  ℕ, ◌+◌, ◌*◌, ◌/◌, String, ◌<>◌, Bool, true, false, not, ◌&&◌, ◌||◌, Option, none, some, List, [],
  ◌∷◌, any, length, ltb, leb, is_some, if◌then◌else◌, ◌==◌,
}
use mem0_platform_sidecar.Prelude.Result.{key_error, Result, ok, err, Action, pure, ◌>>=◌}
use mem0_platform_sidecar.Json.{text, end, field, single}
use mem0_platform_sidecar.Policy.Values.{Texts, Mode, observe, manual, auto_safe}
use mem0_platform_sidecar.Policy.Parse.{Spec}
use mem0_platform_sidecar.Jobs.{Job, Request, find_by_dedupe, enqueue}
use mem0_platform_sidecar.Consolidation.Rows.{PolicyRow, Run}
use mem0_platform_sidecar.Consolidation.Policies.{list_enabled, spec_of}
use mem0_platform_sidecar.Consolidation.Runs.{
  active, last_succeeded, last, create_run, mark_run_failed,
}
use mem0_platform_sidecar.Memories.Rows.{Memory}
use mem0_platform_sidecar.Memories.Anchors.{list_dirty_anchors}

-- The tables that the scheduler reads and writes. Of a project it needs the id only.
pub record Tables : Type 0 where
  pub projects : List String
  pub anchors : List Memory
  pub policies : List PolicyRow
  pub runs : List Run
  pub jobs : List Job

-- What stands outside: Python's text of an integer, the fresh ids of the rows made for a policy, and
-- the answer of `ServiceCapabilityRepository.bridge_routing_ready` for a project.
pub record Outside : Type 0 where
  pub texts : Texts
  pub decimal : ℕ → String
  pub run_id : String → String
  pub job_id : String → String
  pub bridge_routing_ready : String → ℕ → Result Bool
  pub bridge_routing_required : Bool

abbrev pub seconds : ℕ → ℕ
seconds n = n * 1000000

-- `completed_at <= now - interval`, for a run that has completed
abbrev pub is_over : Option ℕ → ℕ → ℕ → Bool
is_over none interval now = false
is_over (some t) interval now = leb (t + seconds interval) now

abbrev pub interval_due : Option Run → ℕ → ℕ → Bool
interval_due none interval now = false
interval_due (some run) interval now = is_over run.completed_at interval now

abbrev pub is_recent : Option ℕ → ℕ → ℕ → Bool
is_recent none interval now = false
is_recent (some t) interval now = ltb now (t + seconds interval)

abbrev pub says_bridge_required : Option String → Bool
says_bridge_required none = false
says_bridge_required (some code) = code == "BRIDGE_ROUTING_REQUIRED"

-- The last run of the scope has reported the missing bridge within the interval.
abbrev pub already_reported : Option Run → ℕ → ℕ → Bool
already_reported none interval now = false
already_reported (some run) interval now =
    says_bridge_required run.error_code && is_recent run.completed_at interval now

abbrev pub negated : Result Bool → Result Bool
negated (ok b) = ok (not b)
negated (err e) = err e

abbrev pub is_auto_safe : Mode → Bool
is_auto_safe auto_safe = true
is_auto_safe _ = false

unfoldable pub bridge_blocked : Outside → ℕ → PolicyRow → Spec → Result Bool
bridge_blocked outside now policy spec =
    if is_auto_safe spec.mode && outside.bridge_routing_required
    then negated (outside.bridge_routing_ready policy.project_id now)
    else ok false

unfoldable pub lock_for_mutation : String → List String → Result (Unit {0})
lock_for_mutation project_id projects =
    if any (λ id. id == project_id) projects then ok tt else err (key_error project_id)

abbrev pub scan_request : PolicyRow → String → String → Request
scan_request policy run_id dedupe_key = record {
  project_id = policy.project_id;
  event_id = none;
  job_type = "consolidation.scan";
  payload = field "app_id" (text policy.app_id) (field "run_id" (text run_id) end);
  run_after = none;
  max_attempts = 3;
  dedupe_key = some dedupe_key;
}

abbrev pub reported : Tables → Result Run × List Run → Result Bool × Tables
reported s (err e, runs) = (err e, record s { runs = runs })
reported s (ok run, runs) = (ok false, record s { runs = runs })

abbrev pub fail_blocked : ℕ → Tables → Result Run × List Run → Result Bool × Tables
fail_blocked now s (err e, runs) = (err e, record s { runs = runs })
fail_blocked now s (ok run, runs) = reported s (
    mark_run_failed run.id "BRIDGE_ROUTING_REQUIRED"
      (single "error_type" (text "BridgeRoutingRequired")) now runs)

-- A run that fails at once, or nothing if one was reported already. The answer of this function and
-- of the next ones is whether a scan was enqueued.
unfoldable pub report_blocked : Outside → ℕ → PolicyRow → Spec → Action Tables Bool
report_blocked outside now policy spec s =
    if already_reported (last policy.project_id policy.app_id s.runs) spec.scan_interval_seconds now
    then (ok false, s)
    else fail_blocked now s (create_run (outside.run_id policy.id) policy now s.runs)

abbrev pub enqueued : Tables → Result Job × List Job → Result Bool × Tables
enqueued s (err e, jobs) = (err e, record s { jobs = jobs })
enqueued s (ok job, jobs) = (ok true, record s { jobs = jobs })

abbrev pub enqueue_run :
    Outside → ℕ → PolicyRow → String → Tables → Result Run × List Run → Result Bool × Tables
enqueue_run outside now policy dedupe_key s (err e, runs) = (err e, record s { runs = runs })
enqueue_run outside now policy dedupe_key s (ok run, runs) =
    enqueued (record s { runs = runs })
      (enqueue (outside.job_id policy.id) now (scan_request policy run.id dedupe_key) s.jobs)

unfoldable pub start_scan : Outside → ℕ → PolicyRow → String → Action Tables Bool
start_scan outside now policy dedupe_key s =
    enqueue_run outside now policy dedupe_key s
      (create_run (outside.run_id policy.id) policy now s.runs)

-- The end of the loop's body, from the lock on.
unfoldable pub enqueue_locked : Outside → ℕ → PolicyRow → Spec → Action Tables Bool
enqueue_locked outside now policy spec s =
    let window = now / 1000000 / spec.scan_interval_seconds in
    let dedupe_key = policy.app_id <> ":" <> outside.decimal window in
    if is_some (active policy.project_id policy.app_id s.runs)
    then (ok false, s)
    else if is_some (find_by_dedupe policy.project_id "consolidation.scan" dedupe_key s.jobs)
    then (ok false, s)
    else elim (bridge_blocked outside now policy spec) [
      | err e ↦ (err e, s)
      | ok true ↦ report_blocked outside now policy spec s
      | ok false ↦ start_scan outside now policy dedupe_key s
    ]

unfoldable pub enqueue_spec : Outside → ℕ → PolicyRow → Spec → Action Tables Bool
enqueue_spec outside now policy spec s =
    if is_some (active policy.project_id policy.app_id s.runs)
    then (ok false, s)
    else elim (list_dirty_anchors policy.project_id policy.app_id none spec.min_new_memories
        s.anchors) [
          | err e ↦ (err e, s)
          | ok dirty ↦
              if ltb (length dirty) spec.min_new_memories
                && not (
                    interval_due (last_succeeded policy.project_id policy.app_id s.runs)
                      spec.scan_interval_seconds now)
              then (ok false, s)
              else elim (lock_for_mutation policy.project_id s.projects) [
                | err e ↦ (err e, s)
                | ok locked ↦ enqueue_locked outside now policy spec s
              ]
        ]

-- The loop's body for one policy.
unfoldable pub enqueue_scope : Outside → ℕ → PolicyRow → Action Tables Bool
enqueue_scope outside now policy s = elim (spec_of outside.texts policy.policy_json) [
  | err e ↦ (err e, s)
  | ok spec ↦ enqueue_spec outside now policy spec s
]

abbrev pub counted : ℕ → Bool → ℕ
counted n true = n + 1
counted n false = n

-- The loop, with the number enqueued so far. What raises ends it: the caller does not commit.
unfoldable pub enqueue_scopes : Outside → ℕ → List PolicyRow → ℕ → Action Tables ℕ
enqueue_scopes outside now [] n = pure n
enqueue_scopes outside now (policy ∷ rest) n =
    enqueue_scope outside now policy >>= λ more. enqueue_scopes outside now rest (counted n more)

unfoldable pub enqueue_due_scopes : Outside → ℕ → Action Tables ℕ
enqueue_due_scopes outside now s = enqueue_scopes outside now (list_enabled s.policies) 0 s
