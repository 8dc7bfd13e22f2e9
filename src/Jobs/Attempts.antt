-- ===== src/Jobs/Attempts.antt =====
-- How often a job can be claimed.
use mem0_platform_sidecar.Prelude.{
  ℕ, ◌+◌, ◌-◌, String, ◌≡◌, refl, inl, inr, none, some, List, [], ◌∷◌, arith, Option-cases,
}
use mem0_platform_sidecar.Prelude.Tables.{
  find_row, sum_rows, sum_rows-update, sum_rows-update_rows, sum_rows_snoc,
}
use mem0_platform_sidecar.Prelude.Result.{ok, err}
use mem0_platform_sidecar.Jobs.{
  Job, Table, has_id, new_job, exhausted, exhaust, claim, expire_exhausted, candidate, claim_valid,
  claim_next, enqueue, change_job, succeed, fail, mark_succeeded, mark_failed,
}
use mem0_platform_sidecar.Jobs.History.{
  IsQueue, expire_exhausted-IsQueue, candidate-claimable, claimable-lt, enqueue_cases,
  claim_next_cases, Call, enqueued, claimed, marked_succeeded, marked_failed, perform, history,
  perform-IsQueue,
}
use mem0_platform_sidecar.Jobs.Claims.{claim_valid-some}

-- The claims that a job has left.
abbrev pub left : Job → ℕ
left job = job.max_attempts - job.attempt_count

-- The claims that a call grants by a new job, and the claims that it makes.
abbrev pub granted : Call → Table → ℕ
granted (enqueued id now r) jobs = elim (enqueue id now r jobs).0 [
  | ok job ↦ r.max_attempts
  | err e ↦ 0
]
granted _ jobs = 0

abbrev pub made : Call → Table → ℕ
made (claimed job_types lease_seconds now) jobs =
    elim (claim_next job_types lease_seconds now jobs).0 [
      | ok (some job) ↦ 1
      | ok none ↦ 0
      | err e ↦ 0
    ]
made _ jobs = 0

unfoldable pub all_granted : List Call → Table → ℕ
all_granted [] jobs = 0
all_granted (c ∷ cs) jobs = granted c jobs + all_granted cs (perform c jobs)

unfoldable pub all_made : List Call → Table → ℕ
all_made [] jobs = 0
all_made (c ∷ cs) jobs = made c jobs + all_made cs (perform c jobs)

left-change_job :
    (id : String) (f : Job → Job) (jobs : Table)
    → ((job : Job) → left (f job) ≡ left job)
    → sum_rows left (change_job id f jobs).1 ≡ sum_rows left jobs
unfolding change_job
left-change_job id f jobs same = elim (Option-cases (find_row (has_id id) jobs)) [
  | inl e ↦ rw (e, change_job) refl
  | inr (job, e) ↦ rw (e, change_job) (sum_rows-update left (has_id id) f jobs same)
]

left-claim_valid :
    (job_types : List String) (lease now : ℕ) (jobs : Table)
    → IsQueue jobs
    → sum_rows left (claim_valid job_types lease now jobs).1
        + (elim (claim_valid job_types lease now jobs).0 [ some job ↦ 1 | none ↦ 0 ])
      ≡ sum_rows left jobs
left-claim_valid job_types lease now jobs q =
    let table = expire_exhausted now jobs in
    let same : sum_rows left table ≡ sum_rows left jobs =
      unfold expire_exhausted in
      (sum_rows-update left (exhausted now) (exhaust now) jobs (λ job. refl)) in
    elim (Option-cases (candidate job_types now table)) [
      | inl e ↦ unfold claim_valid in (rw e (omega (arith, same)))
      | inr (c, e) ↦
          let (m, t) = candidate-claimable job_types now table c e in
          rw (claim_valid-some job_types lease now jobs c q e) (
            unfold claim_valid in
            (rw e (
              omega (
                arith,
                same,
                claimable-lt job_types now c t,
                sum_rows-update_rows (λ (j : Job). j.id) left (claim lease now) table c
                    (expire_exhausted-IsQueue now jobs q).keyed m,
              ))))
    ]

left-perform :
    (c : Call) (jobs : Table)
    → IsQueue jobs
    → sum_rows left (perform c jobs) + made c jobs ≡ sum_rows left jobs + granted c jobs
unfolding perform mark_succeeded mark_failed
left-perform (enqueued id now r) jobs q = elim (enqueue_cases id now r jobs) [
  | inl (e, same) ↦ rw (perform, granted, made, same) (omega arith)
  | inr more ↦
      rw (perform, granted, more) (omega (arith, sum_rows_snoc left jobs (new_job id now r)))
]
left-perform (claimed job_types lease now) jobs q =
    elim (claim_next_cases job_types lease now jobs) [
      | inl (e, same) ↦ rw (perform, granted, made, same) (omega arith)
      | inr done ↦
          rw (perform, made, done) (ground (arith, left-claim_valid job_types lease now jobs q))
    ]
left-perform (marked_succeeded id result now) jobs q =
    omega (arith, left-change_job id (succeed result now) jobs (λ job. refl))
left-perform (marked_failed id error retry_at now) jobs q =
    omega (arith, left-change_job id (fail error retry_at now) jobs (λ job. refl))

-- Through any sequence of calls on a queue, the claims that returned a job and the attempts still
-- left to the rows are together the attempts left at the start and the `max_attempts` of the rows
-- enqueued since.
pub claims_conserved :
    (calls : List Call) (jobs : Table)
    → IsQueue jobs
    → sum_rows left (history calls jobs) + all_made calls jobs
      ≡ sum_rows left jobs + all_granted calls jobs
unfolding history all_made all_granted
claims_conserved [] jobs q = refl
claims_conserved (c ∷ cs) jobs q =
    omega (
      arith,
      left-perform c jobs q,
      claims_conserved cs (perform c jobs) (perform-IsQueue c jobs q),
    )
