-- ===== src/Jobs/Runner/Rounds.antt =====
-- What a round of the worker does to the queue.
use mem0_platform_sidecar.Prelude.{
  none, zero, suc, ℕ, ◌+◌, ◌≤◌, ◌<◌, String, ◌≡◌, refl, ap, true, false, some, List, arith, All, In,
  eq_refl,
}
use mem0_platform_sidecar.Prelude.Result.{ok}
use mem0_platform_sidecar.Prelude.Tables.{find_row, update_rows, find_row-key, update_rows-In}
use native.Mathlib.Nat.{pow-suc, one-le-pow}
use mem0_platform_sidecar.Json.{text, object, Fields, single, dumps}
use mem0_platform_sidecar.Jobs.{
  succeeded, payload, succeed, mark_succeeded, Job, pending, running, failed, Table, seconds,
  has_id, claim_next, claimable, exhausted, mark_failed, change_job, fail,
}
use mem0_platform_sidecar.Jobs.History.{IsQueue}
use mem0_platform_sidecar.Jobs.Claims.{claim_next-none}
use mem0_platform_sidecar.Jobs.Runner.{
  returned, Handler, handler_of, run_job, raised, Handlers, job_types, Times, delay_seconds,
  record_failure, after_write, finish, after_claim, run_once,
}

delay_bounds : (n : ℕ) → 1 ≤ n → (60 ≤ delay_seconds n) × (delay_seconds n ≤ 3600)
delay_bounds zero h = absurd (omega arith)
delay_bounds (suc n) h = omega (arith, pow-suc 2 n, one-le-pow n 2 (omega arith))

-- The row after the failure of an attempt.
abbrev retried : Times → ℕ → String → Job → Job
retried t attempt_count error_type job =
    fail (single "error_type" (text error_type))
      (some (t.failed_at + seconds (delay_seconds attempt_count))) t.written_at job

-- `change_job` at the id of a row of a queue changes that row.
change_job_row :
    (f : Job → Job) (job : Job) (jobs : Table)
    → IsQueue jobs
    → In job jobs
    → change_job job.id f jobs ≡ (ok (f job), update_rows (has_id job.id) f jobs)
unfolding change_job
change_job_row f job jobs q m =
    let k : find_row (has_id job.id) jobs ≡ some job =
      find_row-key (λ (j : Job). j.id) jobs job q.keyed m in
    rw (change_job, k)

changed-In :
    (f : Job → Job) (job : Job) (jobs : Table)
    → In job jobs
    → In (f job) (update_rows (has_id job.id) f jobs)
changed-In f job jobs m = rw (eq_refl job.id) at (update_rows-In (has_id job.id) f job jobs m)

finish-raised :
    (t : Times) (error_type : String) (job : Job) (jobs : Table)
    → IsQueue jobs
    → In job jobs
    → finish job.id job.attempt_count t (raised error_type) jobs
      ≡ (ok true, update_rows (has_id job.id) (retried t job.attempt_count error_type) jobs)
unfolding finish record_failure mark_failed
finish-raised t error_type job jobs q m =
    ap (after_write (ok true))
      (change_job_row (retried t job.attempt_count error_type) job jobs q m)

-- When the handler of a job with attempts left raises, and the row is as the worker knows it, the
-- round returns `true`, and the row waits again, under the same id and attempts, and cannot be
-- claimed in the next 60 seconds whatever the job types.
pub retry_waits :
    (t : Times) (error_type : String) (job : Job) (jobs : Table) (job_types : List String) (now : ℕ)
    → IsQueue jobs
    → In job jobs
    → 1 ≤ job.attempt_count
    → job.attempt_count < job.max_attempts
    → now < t.failed_at + seconds 60
    → ((finish job.id job.attempt_count t (raised error_type) jobs).0 ≡ ok true)
      × ((row : Job) × In row (finish job.id job.attempt_count t (raised error_type) jobs).1
          × (row.id ≡ job.id)
          × (row.attempt_count ≡ job.attempt_count)
          × (row.status ≡ pending)
          × (claimable job_types now row ≡ false))
retry_waits t error_type job jobs job_types now q m h k early = (
  ap (λ r. r.0) (finish-raised t error_type job jobs q m),
  (
    retried t job.attempt_count error_type job,
    rw (finish-raised t error_type job jobs q m) (changed-In _ job jobs m),
    refl,
    refl,
    ground arith,
    unfold claimable in (ground (arith, delay_bounds job.attempt_count h)),
  ),
)

-- When the handler raises on the last attempt, the round returns `true`, and the row has failed, is
-- completed, and cannot be claimed at any time or for any job types.
pub last_attempt_fails :
    (t : Times) (error_type : String) (job : Job) (jobs : Table) (job_types : List String) (now : ℕ)
    → IsQueue jobs
    → In job jobs
    → job.attempt_count ≡ job.max_attempts
    → ((finish job.id job.attempt_count t (raised error_type) jobs).0 ≡ ok true)
      × ((row : Job) × In row (finish job.id job.attempt_count t (raised error_type) jobs).1
          × (row.id ≡ job.id)
          × (row.status ≡ failed)
          × (row.completed_at ≡ some t.written_at)
          × (claimable job_types now row ≡ false))
last_attempt_fails t error_type job jobs job_types now q m h = (
  ap (λ r. r.0) (finish-raised t error_type job jobs q m),
  (
    retried t job.attempt_count error_type job,
    rw (finish-raised t error_type job jobs q m) (changed-In _ job jobs m),
    refl,
    ground arith,
    ground arith,
    unfold claimable in (ground arith),
  ),
)

-- A round with a valid lease that finds no claimable job returns `false` and leaves the table as it
-- was: a running job whose lease and attempts are both used up stays as it is.
pub idle_round_keeps_exhausted :
    (handlers : Handlers) (lease_seconds : ℕ) (t : Times) (job : Job) (jobs : Table)
    → IsQueue jobs
    → 1 ≤ lease_seconds
    → lease_seconds ≤ 86400
    → All (λ row. claimable (job_types handlers) t.claimed_at row ≡ false) jobs
    → In job jobs
    → exhausted t.claimed_at job ≡ true
    → (run_once handlers lease_seconds t jobs ≡ (ok false, jobs)) × (job.status ≡ running)
unfolding run_once
idle_round_keeps_exhausted handlers lease t job jobs q h k idle m done = (
  ap
      (λ r.
        after_claim handlers t jobs
          (r, (claim_next (job_types handlers) lease t.claimed_at jobs).1))
      ((claim_next-none (job_types handlers) lease t.claimed_at jobs q h k).1 idle),
  unfold exhausted in (ground arith),
)

round-completed :
    (handlers : Handlers) (lease_seconds : ℕ) (t : Times) (jobs claimed left : Table) (job : Job)
    (handler : Handler) (result : Fields)
    → claim_next (job_types handlers) lease_seconds t.claimed_at jobs ≡ (ok (some job), claimed)
    → handler_of job.job_type handlers ≡ some handler
    → handler job.id (payload job) claimed ≡ (returned (object result), left)
    → IsQueue left
    → In job left
    → run_once handlers lease_seconds t jobs
      ≡ (ok true, update_rows (has_id job.id) (succeed result t.written_at) left)
unfolding run_once run_job finish mark_succeeded
round-completed handlers lease t jobs claimed left job handler result c f h q m =
    let written : after_write (ok true) (change_job job.id (succeed result t.written_at) left)
        ≡ (ok true, update_rows (has_id job.id) (succeed result t.written_at) left) =
      ap (after_write (ok true)) (change_job_row (succeed result t.written_at) job left q m) in
    rw (run_once, c, run_job, f, h, finish) written

-- When a round claims a job whose handler returns an object and leaves a queue with the row as it was
-- claimed, the round returns `true`, and the row has succeeded with that object as its result and its
-- attempts as claimed, has no lease, is completed, and cannot be claimed at any time or for any job
-- types.
pub round_completes :
    (handlers : Handlers) (lease_seconds : ℕ) (t : Times) (jobs claimed left : Table) (job : Job)
    (handler : Handler) (result : Fields) (wanted : List String) (now : ℕ)
    → claim_next (job_types handlers) lease_seconds t.claimed_at jobs ≡ (ok (some job), claimed)
    → handler_of job.job_type handlers ≡ some handler
    → handler job.id (payload job) claimed ≡ (returned (object result), left)
    → IsQueue left
    → In job left
    → ((run_once handlers lease_seconds t jobs).0 ≡ ok true)
      × ((row : Job) × In row (run_once handlers lease_seconds t jobs).1
          × (row.id ≡ job.id)
          × (row.attempt_count ≡ job.attempt_count)
          × (row.status ≡ succeeded)
          × (row.result_json ≡ dumps (object result))
          × (row.lease_expires_at ≡ none)
          × (row.completed_at ≡ some t.written_at)
          × (claimable wanted now row ≡ false))
round_completes handlers lease t jobs claimed left job handler result wanted now c f h q m =
    let round : run_once handlers lease t jobs
        ≡ (ok true, update_rows (has_id job.id) (succeed result t.written_at) left) =
      round-completed handlers lease t jobs claimed left job handler result c f h q m in
    (
      ap (λ r. r.0) round,
      (
        succeed result t.written_at job,
        rw round (changed-In (succeed result t.written_at) job left m),
        refl,
        refl,
        refl,
        refl,
        refl,
        refl,
        unfold claimable in (ground arith),
      ),
    )
