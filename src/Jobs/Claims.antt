-- ===== src/Jobs/Claims.antt =====
-- Which job `claim_next` hands out, and to whom: the order of the queue and the leases.
use mem0_platform_sidecar.Prelude.{
  ℕ, ◌≤◌, ◌<◌, String, ◌≡◌, refl, sym, ap, ◌∙◌, In-append_left, ◌↔◌, inl, inr, true, false, Option,
  none, some, List, [], ◌∷◌, ◌==◌, eq_refl, arith, All, In, some_inj, Bool-cases, Option-cases,
}
use mem0_platform_sidecar.Prelude.Text.{
  str_leb_total, str_leb_trans, then_leb_total, then_leb_trans,
}
use mem0_platform_sidecar.Prelude.Tables.{
  find_row, rows_where, update_rows, find_row-key, find_row-update_rows, rows_where-In,
  rows_where-nil, In-rows_where, update_rows-In, row_of_key,
}
use mem0_platform_sidecar.Prelude.Order.{IsOrder, least, least-before, least-none}
use mem0_platform_sidecar.Prelude.Result.{ok}
use mem0_platform_sidecar.Jobs.{
  Job, running, Table, has_id, coalesce, exhausted, exhaust, claim, expire_exhausted, claimable,
  claims_before, candidate, claim_valid, claim_next, change_job, mark_succeeded, mark_failed,
}
use mem0_platform_sidecar.Jobs.History.{
  IsQueue, expire_exhausted-IsQueue, candidate-claimable, enqueue_cases, claim_next_cases, Call,
  enqueued, claimed, marked_succeeded, marked_failed, perform, history, perform-IsQueue,
  history-IsQueue,
}

claims_before-IsOrder : IsOrder claims_before
unfolding claims_before
claims_before-IsOrder = record {
  total = λ a b.
      then_leb_total (coalesce a.run_after a.created_at) (coalesce b.run_after b.created_at) _ _
        (then_leb_total a.created_at b.created_at _ _ (str_leb_total a.id b.id));
  trans = λ a b c.
      then_leb_trans (coalesce a.run_after a.created_at) (coalesce b.run_after b.created_at)
        (coalesce c.run_after c.created_at) _ _ _
        (then_leb_trans a.created_at b.created_at c.created_at _ _ _
          (str_leb_trans a.id b.id c.id));
}

-- The jobs that can be claimed are not touched by the expiry before the claim.
claimable-exhaust :
    (job_types : List String) (now : ℕ) (job : Job)
    → exhausted now job ≡ true
    → (claimable job_types now job ≡ false) × (claimable job_types now (exhaust now job) ≡ false)
unfolding claimable exhausted
claimable-exhaust job_types now job h = ground arith

rows_where-expire_exhausted :
    (job_types : List String) (now : ℕ) (jobs : Table)
    → rows_where (claimable job_types now) (expire_exhausted now jobs)
      ≡ rows_where (claimable job_types now) jobs
unfolding expire_exhausted update_rows rows_where
rows_where-expire_exhausted job_types now [] = refl
rows_where-expire_exhausted job_types now (job ∷ jobs) =
    let ih = rows_where-expire_exhausted job_types now jobs in
    elim (Bool-cases (exhausted now job)) [
      | inl e ↦ let (a, b) = claimable-exhaust job_types now job e in rw (e, a, b) ih
      | inr e ↦ rw e (elim (Bool-cases (claimable job_types now job)) [
        | inl c ↦ rw c (ap (λ l. job ∷ l) ih)
        | inr c ↦ rw c ih
      ])
    ]

-- Of a job that a claim returned: its row before the call, and how the two are related.
pub record IsFirst (job_types : List String) (lease_seconds now : ℕ) (jobs : Table) (job : Job)
    : Type 0 where
  pub row : Job
  pub listed : In row jobs
  pub can_claim : claimable job_types now row ≡ true
  pub first :
      (other : Job)
      → In other jobs
      → claimable job_types now other ≡ true
      → claims_before row other ≡ true
  pub became : job ≡ claim lease_seconds now row

pub claim_valid-some :
    (job_types : List String) (lease now : ℕ) (jobs : Table) (c : Job)
    → IsQueue jobs
    → candidate job_types now (expire_exhausted now jobs) ≡ some c
    → (claim_valid job_types lease now jobs).0 ≡ some (claim lease now c)
unfolding claim_valid
claim_valid-some job_types lease now jobs c q e =
    let q' = expire_exhausted-IsQueue now jobs q in
    let m = (candidate-claimable job_types now (expire_exhausted now jobs) c e).0 in
    let k : find_row (has_id c.id) (expire_exhausted now jobs) ≡ some c =
      find_row-key (λ (j : Job). j.id) (expire_exhausted now jobs) c q'.keyed m in
    rw e (
      rw
        (find_row-update_rows (has_id c.id) (has_id c.id) (claim lease now)
          (expire_exhausted now jobs) (λ j. refl))
        (rw k (rw (eq_refl c.id))))

claim_valid-IsFirst :
    (job_types : List String) (lease_seconds now : ℕ) (jobs : Table) (job : Job)
    → IsQueue jobs
    → (claim_valid job_types lease_seconds now jobs).0 ≡ some job
    → IsFirst job_types lease_seconds now jobs job
claim_valid-IsFirst job_types lease now jobs job q h =
    let table = expire_exhausted now jobs in
    elim (Option-cases (candidate job_types now table)) [
      | inl e ↦
          let h' : ◌≡◌ {A = Option Job} none (some job) =
            unfold claim_valid in (rw (e, claim_valid) at h) in
          cc
      | inr (c, e) ↦
          let s : least claims_before (rows_where (claimable job_types now) jobs) ≡ some c =
            unfold candidate in (rw (rows_where-expire_exhausted job_types now jobs) at e) in
          let (m, t) = candidate-claimable job_types now table c e in
          let (i, t') = In-rows_where (claimable job_types now) c jobs (
            rw (rows_where-expire_exhausted job_types now jobs) at
              (rows_where-In (claimable job_types now) c table m t)) in
          record {
            row = c;
            listed = i;
            can_claim = t;
            first = λ other m u.
                least-before claims_before claims_before-IsOrder
                  (rows_where (claimable job_types now) jobs) c other s
                  (rows_where-In (claimable job_types now) other jobs m u);
            became = some_inj (sym h ∙ claim_valid-some job_types lease now jobs c q e);
          }
    ]

-- A job that `claim_next` returns from a queue was a claimable row, stood before every other
-- claimable row in the order of the queue (due time, creation time, id), and comes back as the claim
-- writes it: running, under a lease of `lease_seconds`, with one attempt more.
pub claim_next-IsFirst :
    (job_types : List String) (lease_seconds now : ℕ) (jobs : Table) (job : Job)
    → IsQueue jobs
    → (claim_next job_types lease_seconds now jobs).0 ≡ ok (some job)
    → IsFirst job_types lease_seconds now jobs job
unfolding claim_next
claim_next-IsFirst job_types lease now jobs job q h =
    claim_valid-IsFirst job_types lease now jobs job q (ground arith)

-- With a lease of 1 to 86400 seconds, `claim_next` returns no job exactly when no row of the queue
-- can be claimed.
pub claim_next-none :
    (job_types : List String) (lease_seconds now : ℕ) (jobs : Table)
    → IsQueue jobs
    → 1 ≤ lease_seconds
    → lease_seconds ≤ 86400
    → ((claim_next job_types lease_seconds now jobs).0 ≡ ok none)
      ↔ All (λ job. claimable job_types now job ≡ false) jobs
claim_next-none job_types lease now jobs q h k = (to, from)
  where
    table : Table
    table = expire_exhausted now jobs

    rows : rows_where (claimable job_types now) table ≡ rows_where (claimable job_types now) jobs
    rows = rows_where-expire_exhausted job_types now jobs

    to :
        (claim_next job_types lease now jobs).0 ≡ ok none
        → All (λ job. claimable job_types now job ≡ false) jobs
    to e = elim (Option-cases (candidate job_types now table)) [
      | inl n ↦
          (rows_where-nil (claimable job_types now) jobs).0
            (sym rows ∙ least-none claims_before _ (unfold candidate in n))
      | inr (c, s) ↦
          absurd
            (unfold claim_next in (ground (arith, claim_valid-some job_types lease now jobs c q s)))
    ]

    from :
        All (λ job. claimable job_types now job ≡ false) jobs
        → (claim_next job_types lease now jobs).0 ≡ ok none
    from a =
        let n : candidate job_types now table ≡ none =
          unfold candidate in
          (rw (rows ∙ (rows_where-nil (claimable job_types now) jobs).1 a)
            (unfold least in refl)) in
        unfold claim_next claim_valid in (ground (arith, n))

-- A call before the end `t` of a lease, that does not mark the job `id`.
abbrev pub Respects : String → ℕ → Call → Type 0
Respects id t (enqueued _ now r) = Unit
Respects id t (claimed job_types lease_seconds now) = now < t
Respects id t (marked_succeeded other result now) = (id == other) ≡ false
Respects id t (marked_failed other error retry_at now) = (id == other) ≡ false

not_exhausted :
    (now t : ℕ) (job : Job) → job.lease_expires_at ≡ some t → now < t → exhausted now job ≡ false
unfolding exhausted
not_exhausted now t job e h = ground arith

not_claimable :
    (job_types : List String) (now t : ℕ) (job : Job)
    → job.status ≡ running
    → job.lease_expires_at ≡ some t
    → now < t
    → claimable job_types now job ≡ false
unfolding claimable
not_claimable job_types now t job s e h = ground arith

module _ (job : Job) (t : ℕ) (runs : job.status ≡ running)
    (leased : job.lease_expires_at ≡ some t) where
  claim_valid-keeps :
      (job_types : List String) (lease now : ℕ) (jobs : Table)
      → IsQueue jobs
      → In job jobs
      → now < t
      → In job (claim_valid job_types lease now jobs).1
  unfolding claim_valid
  claim_valid-keeps job_types lease now jobs q m h =
      let table = expire_exhausted now jobs in
      let q' = expire_exhausted-IsQueue now jobs q in
      let m' : In job table =
        unfold expire_exhausted in
        (rw (not_exhausted now t job leased h) at
          (update_rows-In (exhausted now) (exhaust now) job jobs m)) in
      elim (Option-cases (candidate job_types now table)) [
        | inl e ↦ rw e m'
        | inr (c, e) ↦ rw e (elim (Bool-cases (has_id c.id job)) [
          | inl same ↦
              let (i, u) = candidate-claimable job_types now table c e in
              let d = row_of_key (λ (j : Job). j.id) table job c q'.keyed m' i same in
              absurd (
                cc
                  (not_claimable job_types now t job runs leased h, ap (claimable job_types now) d))
          | inr other ↦ rw other at (update_rows-In (has_id c.id) (claim lease now) job table m')
        ])
      ]

  change_job-keeps :
      (id : String) (f : Job → Job) (jobs : Table)
      → (job.id == id) ≡ false
      → In job jobs
      → In job (change_job id f jobs).1
  unfolding change_job
  change_job-keeps id f jobs other m = elim (Option-cases (find_row (has_id id) jobs)) [
    | inl e ↦ rw (e, change_job) m
    | inr (j, e) ↦ rw (e, change_job) (rw other at (update_rows-In (has_id id) f job jobs m))
  ]

  perform-keeps :
      (c : Call) (jobs : Table)
      → IsQueue jobs
      → In job jobs
      → Respects job.id t c
      → In job (perform c jobs)
  unfolding perform mark_succeeded mark_failed
  perform-keeps (enqueued id now r) jobs q m h = elim (enqueue_cases id now r jobs) [
    | inl (e, same) ↦ rw (perform, same) m
    | inr more ↦ rw (perform, more) (In-append_left job jobs _ m)
  ]
  perform-keeps (claimed job_types lease now) jobs q m h =
      elim (claim_next_cases job_types lease now jobs) [
        | inl (e, same) ↦ rw (perform, same) m
        | inr done ↦ rw (perform, done) (claim_valid-keeps job_types lease now jobs q m h)
      ]
  perform-keeps (marked_succeeded id result now) jobs q m h = change_job-keeps id _ jobs h m
  perform-keeps (marked_failed id error retry_at now) jobs q m h = change_job-keeps id _ jobs h m

  history-keeps :
      (calls : List Call) (jobs : Table)
      → IsQueue jobs
      → In job jobs
      → All (Respects job.id t) calls
      → In job (history calls jobs)
  unfolding history
  history-keeps [] jobs q m h = m
  history-keeps (c ∷ cs) jobs q m h =
      history-keeps cs (perform c jobs) (perform-IsQueue c jobs q) (perform-keeps c jobs q m h.0)
        h.1

-- While a lease lasts and nobody marks its job, no claim on the queue returns that job again, after
-- any sequence of calls.
pub lease_excludes :
    (job : Job) (t : ℕ) (calls : List Call) (jobs : Table) (job_types : List String)
    (lease_seconds now : ℕ) (other : Job)
    → IsQueue jobs
    → In job jobs
    → job.status ≡ running
    → job.lease_expires_at ≡ some t
    → All (Respects job.id t) calls
    → now < t
    → (claim_next job_types lease_seconds now (history calls jobs)).0 ≡ ok (some other)
    → (other.id == job.id) ≡ false
lease_excludes job t calls jobs job_types lease now other q m runs leased h before e =
    let after = history calls jobs in
    let q' = history-IsQueue calls jobs q in
    let kept = history-keeps job t runs leased calls jobs q m h in
    let f = claim_next-IsFirst job_types lease now after other q' e in
    elim (Bool-cases (other.id == job.id)) [
      | inl same ↦
          let d =
            row_of_key (λ (j : Job). j.id) after f.row job q'.keyed f.listed kept
              (rw (ap (λ (j : Job). j.id) f.became) at same) in
          absurd (
            cc (
              not_claimable job_types now t job runs leased before,
              ap (claimable job_types now) d,
              f.can_claim,
            ))
      | inr differs ↦ differs
    ]
