-- ===== src/Jobs/Runner.antt =====
-- src/mem0_sidecar/workers/runner.py: one round of the worker that runs the claimed jobs.
pub mod Rounds
use mem0_platform_sidecar.Prelude.{
  ℕ, ◌+◌, ◌*◌, ◌^◌, min, String, Bool, true, false, Option, none, some, List, [], ◌∷◌, ◌==◌,
  if◌then◌else◌, is_some, map,
}
use mem0_platform_sidecar.Prelude.Result.{Error, key_error, cancelled, Result, ok, err}
use mem0_platform_sidecar.Json.{Json, text, object, Fields, single}
use mem0_platform_sidecar.Jobs.{
  Job, Table, seconds, claim_next, payload, mark_succeeded, mark_failed,
}

-- How a handler ends: by a value, by an exception of the named class, or by its cancellation.
pub data Outcome : Type 0 where
  returned : Json → Outcome
  raised : String → Outcome
  was_cancelled : Outcome

-- A handler is not this module's code. While it runs, it and every other session may change the
-- table, so it comes with the table that it leaves.
abbrev pub Handler : Type 0
Handler = String → Fields → Table → Outcome × Table

abbrev pub Handlers : Type 0
Handlers = List (String × Handler)

unfoldable pub handler_of : String → Handlers → Option Handler
handler_of job_type [] = none
handler_of job_type ((t, h) ∷ rest) = if t == job_type then some h else handler_of job_type rest

abbrev pub job_types : Handlers → List String
job_types handlers = map (λ h. h.0) handlers

-- The clock at the claim, at the note of a failure, and at its write or that of a success.
pub record Times : Type 0 where
  pub claimed_at : ℕ
  pub failed_at : ℕ
  pub written_at : ℕ

abbrev pub delay_seconds : ℕ → ℕ
delay_seconds attempt_count = min 3600 (2 ^ attempt_count * 30)

unfoldable pub record_failure : String → ℕ → String → Times → Table → Result Job × Table
record_failure id attempt_count error_type t =
    mark_failed id (single "error_type" (text error_type))
      (some (t.failed_at + seconds (delay_seconds attempt_count))) t.written_at

-- The result `then_result` of a round whose last write has the result `r`.
abbrev pub after_write : Result Bool → Result Job × Table → Result Bool × Table
after_write then_result (ok job, jobs) = (then_result, jobs)
after_write then_result (err e, jobs) = (err e, jobs)

unfoldable pub finish : String → ℕ → Times → Outcome → Table → Result Bool × Table
finish id attempt_count t (returned (object result)) jobs =
    after_write (ok true) (mark_succeeded id result t.written_at jobs)
finish id attempt_count t (returned _) jobs =
    after_write (ok true) (record_failure id attempt_count "TypeError" t jobs)
finish id attempt_count t (raised error_type) jobs =
    after_write (ok true) (record_failure id attempt_count error_type t jobs)
finish id attempt_count t was_cancelled jobs =
    after_write (err cancelled) (record_failure id attempt_count "CancelledError" t jobs)

unfoldable pub run_job : Handlers → Times → Job → Table → Result Bool × Table
run_job handlers t job jobs = elim (handler_of job.job_type handlers) [
  | none ↦ (err (key_error job.job_type), jobs)
  | some handler ↦
      (let (outcome, after) = handler job.id (payload job) jobs in
        finish job.id job.attempt_count t outcome after)
]

-- Where no job is claimed the session is rolled back, and where the claim raises it is closed: both
-- drop what the claim wrote.
abbrev pub after_claim :
    Handlers → Times → Table → Result (Option Job) × Table → Result Bool × Table
after_claim handlers t before (err e, jobs) = (err e, before)
after_claim handlers t before (ok none, jobs) = (ok false, before)
after_claim handlers t before (ok (some job), jobs) = run_job handlers t job jobs

unfoldable pub run_once : Handlers → ℕ → Times → Table → Result Bool × Table
run_once handlers lease_seconds t jobs =
    after_claim handlers t jobs (claim_next (job_types handlers) lease_seconds t.claimed_at jobs)
