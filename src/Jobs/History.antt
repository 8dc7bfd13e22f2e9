-- ===== src/Jobs/History.antt =====
-- What the methods of the job queue keep, over every sequence of calls by any number of workers.
use mem0_platform_sidecar.Prelude.{
  ◌⊎◌, ◌++◌, ℕ, ◌≤◌, ◌<◌, String, ◌≡◌, refl, Bool, true, false, ◌||◌, Option, some, List, [], ◌∷◌,
  arith, All, In, All-append, is_some, ltb, inl, inr, Bool-cases, Option-cases,
}
use mem0_platform_sidecar.Prelude.Tables.{
  All-update_rows, IsKeyed, IsKeyed-update_rows, row_of_key, IsKeyed-snoc, absent_of_any,
  In-rows_where, find_row,
}
use mem0_platform_sidecar.Prelude.Order.{least-In}
use mem0_platform_sidecar.Jobs.{is_duplicate, claims_before}
use mem0_platform_sidecar.Prelude.Result.{Error, value_error, integrity_error, ok, err}
use mem0_platform_sidecar.Json.{Fields}
use mem0_platform_sidecar.Jobs.{
  Job, JobStatus, running, succeeded, failed, is_running, Table, Request, has_id, new_job, enqueue,
  exhausted, exhaust, claim, expire_exhausted, claimable, candidate, claim_valid, claim_next,
  succeed, fail, change_job, mark_succeeded, mark_failed,
}

abbrev pub is_finished : JobStatus → Bool
is_finished succeeded = true
is_finished failed = true
is_finished _ = false

pub data Call : Type 0 where
  enqueued : String → ℕ → Request → Call
  claimed : List String → ℕ → ℕ → Call
  marked_succeeded : String → Fields → ℕ → Call
  marked_failed : String → Fields → Option ℕ → ℕ → Call

-- The table after a call, whether it returned or raised.
unfoldable pub perform : Call → Table → Table
perform (enqueued id now r) jobs = (enqueue id now r jobs).1
perform (claimed job_types lease_seconds now) jobs = (claim_next job_types lease_seconds now jobs).1
perform (marked_succeeded id result now) jobs = (mark_succeeded id result now jobs).1
perform (marked_failed id error retry_at now) jobs = (mark_failed id error retry_at now jobs).1

unfoldable pub history : List Call → Table → Table
history [] jobs = jobs
history (c ∷ cs) jobs = history cs (perform c jobs)

-- `enqueue` raises and changes nothing, or appends its row.
pub enqueue_cases :
    (id : String) (now : ℕ) (r : Request) (jobs : Table)
    → ((e : Error) × (enqueue id now r jobs ≡ (err e, jobs)))
      ⊎ (enqueue id now r jobs ≡ (ok (new_job id now r), jobs ++ new_job id now r ∷ []))
unfolding enqueue
enqueue_cases id now r jobs = elim (Bool-cases (ltb r.max_attempts 1 || ltb 100 r.max_attempts)) [
  | inl bad ↦ inl (value_error "max_attempts must be between 1 and 100", rw bad)
  | inr fine ↦ elim (Bool-cases (is_duplicate id r jobs)) [
    | inl twice ↦ inl (integrity_error, rw (fine, twice))
    | inr fresh ↦ inr (rw (fine, fresh))
  ]
]

pub claim_next_cases :
    (job_types : List String) (lease_seconds now : ℕ) (jobs : Table)
    → ((e : Error) × (claim_next job_types lease_seconds now jobs ≡ (err e, jobs)))
      ⊎ (claim_next job_types lease_seconds now jobs ≡ (
        ok (claim_valid job_types lease_seconds now jobs).0,
        (claim_valid job_types lease_seconds now jobs).1,
      ))
unfolding claim_next
claim_next_cases job_types lease now jobs = elim (Bool-cases (ltb lease 1 || ltb 86400 lease)) [
  | inl e ↦ inl (value_error "lease_seconds must be between 1 and 86400", rw e)
  | inr e ↦ inr (rw e)
]

-- What holds of a job between two calls.
pub record IsValid (job : Job) : Type 0 where
  pub limit : (1 ≤ job.max_attempts) × (job.max_attempts ≤ 100)
  pub attempts : job.attempt_count ≤ job.max_attempts
  pub leased : is_running job.status ≡ is_some job.lease_expires_at
  pub completed : is_finished job.status ≡ is_some job.completed_at
  pub started : job.status ≡ running → 1 ≤ job.attempt_count

pub exhaust-IsValid :
    (now : ℕ) (job : Job) → IsValid job → exhausted now job ≡ true → IsValid (exhaust now job)
exhaust-IsValid now job v h = ground arith

pub succeed-IsValid :
    (result : Fields) (now : ℕ) (job : Job) → IsValid job → IsValid (succeed result now job)
succeed-IsValid result now job v = ground arith

pub fail-IsValid :
    (error : Fields) (retry_at : Option ℕ) (now : ℕ) (job : Job)
    → IsValid job
    → IsValid (fail error retry_at now job)
fail-IsValid error retry_at now job v = ground arith

pub claim-IsValid :
    (lease now : ℕ) (job : Job)
    → IsValid job
    → job.attempt_count < job.max_attempts
    → IsValid (claim lease now job)
claim-IsValid lease now job v h = ground arith

pub new_job-IsValid :
    (id : String) (now : ℕ) (r : Request)
    → 1 ≤ r.max_attempts
    → r.max_attempts ≤ 100
    → IsValid (new_job id now r)
new_job-IsValid id now r h k = ground arith

pub record IsQueue (jobs : Table) : Type 0 where
  pub rows : All IsValid jobs
  pub keyed : IsKeyed (λ (job : Job). job.id) jobs

pub enqueue-IsQueue :
    (id : String) (now : ℕ) (r : Request) (jobs : Table)
    → IsQueue jobs
    → IsQueue (enqueue id now r jobs).1
unfolding enqueue is_duplicate
enqueue-IsQueue id now r jobs q =
    elim (Bool-cases (ltb r.max_attempts 1 || ltb 100 r.max_attempts)) [
      | inl bad ↦ rw bad q
      | inr fine ↦ rw fine (elim (Bool-cases (is_duplicate id r jobs)) [
        | inl twice ↦ rw twice q
        | inr fresh ↦ rw fresh (record {
          rows =
              All-append IsValid jobs (new_job id now r ∷ []) q.rows
                (new_job-IsValid id now r (ground arith) (ground arith), tt);
          keyed =
              IsKeyed-snoc (λ (job : Job). job.id) jobs (new_job id now r) q.keyed
                (absent_of_any (λ (job : Job). job.id) id jobs (ground arith));
        })
      ])
    ]

pub expire_exhausted-IsQueue :
    (now : ℕ) (jobs : Table) → IsQueue jobs → IsQueue (expire_exhausted now jobs)
unfolding expire_exhausted
expire_exhausted-IsQueue now jobs q = record {
  rows =
      All-update_rows IsValid (exhausted now) (exhaust now) jobs
        (λ job m v. exhaust-IsValid now job v) q.rows;
  keyed =
      IsKeyed-update_rows (λ (job : Job). job.id) (exhausted now) (exhaust now) jobs (λ job. refl)
        q.keyed;
}

-- The candidate is a claimable row of the table.
pub candidate-claimable :
    (job_types : List String) (now : ℕ) (jobs : Table) (c : Job)
    → candidate job_types now jobs ≡ some c
    → In c jobs × (claimable job_types now c ≡ true)
unfolding candidate
candidate-claimable job_types now jobs c h =
    In-rows_where (claimable job_types now) c jobs (least-In claims_before _ c h)

pub claimable-lt :
    (job_types : List String) (now : ℕ) (job : Job)
    → claimable job_types now job ≡ true
    → job.attempt_count < job.max_attempts
unfolding claimable
claimable-lt job_types now job h = ground arith

claim_valid-IsQueue :
    (job_types : List String) (lease now : ℕ) (jobs : Table)
    → IsQueue jobs
    → IsQueue (claim_valid job_types lease now jobs).1
unfolding claim_valid
claim_valid-IsQueue job_types lease now jobs q =
    let table = expire_exhausted now jobs in
    let q' = expire_exhausted-IsQueue now jobs q in
    elim (Option-cases (candidate job_types now table)) [
      | inl e ↦ rw e q'
      | inr (c, e) ↦ rw e (record {
        rows =
            All-update_rows IsValid (has_id c.id) (claim lease now) table
              (λ job m v same. claim-IsValid lease now job v (
                let (i, t) = candidate-claimable job_types now table c e in
                rw (row_of_key (λ (j : Job). j.id) table job c q'.keyed m i same)
                  (claimable-lt job_types now c t)))
              q'.rows;
        keyed =
            IsKeyed-update_rows (λ (j : Job). j.id) (has_id c.id) (claim lease now) table
              (λ job. refl) q'.keyed;
      })
    ]

pub claim_next-IsQueue :
    (job_types : List String) (lease now : ℕ) (jobs : Table)
    → IsQueue jobs
    → IsQueue (claim_next job_types lease now jobs).1
unfolding claim_next
claim_next-IsQueue job_types lease now jobs q = elim (Bool-cases (ltb lease 1 || ltb 86400 lease)) [
  | inl e ↦ rw e q
  | inr e ↦ rw e (claim_valid-IsQueue job_types lease now jobs q)
]

pub change_job-IsQueue :
    (id : String) (f : Job → Job) (jobs : Table)
    → ((job : Job) → (f job).id ≡ job.id)
    → ((job : Job) → IsValid job → IsValid (f job))
    → IsQueue jobs
    → IsQueue (change_job id f jobs).1
unfolding change_job
change_job-IsQueue id f jobs same keep q = elim (Option-cases (find_row (has_id id) jobs)) [
  | inl e ↦ rw (e, change_job) q
  | inr (job, e) ↦
      rw (e, change_job)
        (record {
          rows = All-update_rows IsValid (has_id id) f jobs (λ job m v h. keep job v) q.rows;
          keyed = IsKeyed-update_rows (λ (j : Job). j.id) (has_id id) f jobs same q.keyed;
        })
]

pub perform-IsQueue : (c : Call) (jobs : Table) → IsQueue jobs → IsQueue (perform c jobs)
unfolding perform mark_succeeded mark_failed
perform-IsQueue (enqueued id now r) jobs q = enqueue-IsQueue id now r jobs q
perform-IsQueue (claimed job_types lease now) jobs q = claim_next-IsQueue job_types lease now jobs q
perform-IsQueue (marked_succeeded id result now) jobs q =
    change_job-IsQueue id (succeed result now) jobs (λ job. refl) (succeed-IsValid result now) q
perform-IsQueue (marked_failed id error retry_at now) jobs q =
    change_job-IsQueue id (fail error retry_at now) jobs (λ job. refl)
      (fail-IsValid error retry_at now) q

-- After any sequence of calls on a queue, whether they return or raise, the ids are distinct and each
-- job has at most `max_attempts` attempts, a lease exactly while it runs, and a completion time
-- exactly when it has succeeded or failed.
pub history-IsQueue :
    (calls : List Call) (jobs : Table) → IsQueue jobs → IsQueue (history calls jobs)
unfolding history
history-IsQueue [] jobs q = q
history-IsQueue (c ∷ cs) jobs q = history-IsQueue cs (perform c jobs) (perform-IsQueue c jobs q)
