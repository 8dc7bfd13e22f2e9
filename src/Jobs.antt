-- ===== src/Jobs.antt =====
-- The durable job queue: the `Job` row of src/mem0_sidecar/store/models.py and `JobRepository` of
-- src/mem0_sidecar/store/repositories.py. A session's view of the table is a list of rows, and an
-- instant is a number of microseconds since the epoch, in UTC.
pub mod History
pub mod Claims
pub mod Attempts
pub mod Runner
mod Examples
use mem0_platform_sidecar.Prelude.{
  ℕ, ◌+◌, ◌*◌, String, Bool, true, false, ◌&&◌, ◌||◌, Option, none, some, List, [], ◌∷◌, ◌++◌, any,
  ltb, leb, is_some, if◌then◌else◌, ◌==◌,
}
use mem0_platform_sidecar.Prelude.Text.{then_leb, str_leb, opt_eqb}
use mem0_platform_sidecar.Prelude.Tables.{find_row, rows_where, update_rows}
use mem0_platform_sidecar.Prelude.Order.{least}
use mem0_platform_sidecar.Prelude.Result.{value_error, key_error, integrity_error, ok, err, Action}
use mem0_platform_sidecar.Json.{
  text, object, Fields, Column, dumps, empty_object, single, loads_object,
}

pub data JobStatus : Type 0 where
  pending running succeeded failed cancelled : JobStatus

abbrev pub is_pending : JobStatus → Bool
is_pending pending = true
is_pending _ = false

abbrev pub is_running : JobStatus → Bool
is_running running = true
is_running _ = false

abbrev pub is_succeeded : JobStatus → Bool
is_succeeded succeeded = true
is_succeeded _ = false

pub record Job : Type 0 where
  pub id : String
  pub project_id : String
  pub event_id : Option String
  pub job_type : String
  pub status : JobStatus
  pub payload_json : Column
  pub result_json : Column
  pub dedupe_key : Option String
  pub attempt_count : ℕ
  pub max_attempts : ℕ
  pub run_after : Option ℕ
  pub locked_at : Option ℕ
  pub lease_expires_at : Option ℕ
  pub completed_at : Option ℕ
  pub error_json : Column
  pub created_at : ℕ
  pub updated_at : ℕ

abbrev pub Table : Type 0
Table = List Job

-- `timedelta(seconds=n)`
abbrev pub seconds : ℕ → ℕ
seconds n = n * 1000000

abbrev pub has_id : String → Job → Bool
has_id id job = job.id == id

-- The arguments of `enqueue`.
pub record Request : Type 0 where
  pub project_id : String
  pub event_id : Option String
  pub job_type : String
  pub payload : Fields
  pub run_after : Option ℕ
  pub max_attempts : ℕ
  pub dedupe_key : Option String

-- The row that `Job(…)` makes, with the defaults of the model.
abbrev pub new_job : String → ℕ → Request → Job
new_job id now r = record {
  id = id;
  project_id = r.project_id;
  event_id = r.event_id;
  job_type = r.job_type;
  status = pending;
  payload_json = dumps (object r.payload);
  result_json = empty_object;
  dedupe_key = r.dedupe_key;
  attempt_count = 0;
  max_attempts = r.max_attempts;
  run_after = r.run_after;
  locked_at = none;
  lease_expires_at = none;
  completed_at = none;
  error_json = empty_object;
  created_at = now;
  updated_at = now;
}

abbrev pub has_dedupe : String → String → String → Job → Bool
has_dedupe project_id job_type dedupe_key job =
    job.project_id == project_id
    && job.job_type == job_type
    && opt_eqb job.dedupe_key (some dedupe_key)

unfoldable pub find_by_dedupe : String → String → String → Table → Option Job
find_by_dedupe project_id job_type dedupe_key jobs =
    find_row (has_dedupe project_id job_type dedupe_key) jobs

-- The primary key, and the unique constraint on the dedupe key, under which two null keys differ.
unfoldable pub is_duplicate : String → Request → Table → Bool
is_duplicate id r jobs = any (has_id id) jobs || (elim r.dedupe_key [
  | none ↦ false
  | some key ↦ is_some (find_by_dedupe r.project_id r.job_type key jobs)
])

-- `id` is the fresh id of `new_id`, `now` the clock at the flush.
unfoldable pub enqueue : String → ℕ → Request → Action Table Job
enqueue id now r jobs =
    if ltb r.max_attempts 1 || ltb 100 r.max_attempts
    then (err (value_error "max_attempts must be between 1 and 100"), jobs)
    else if is_duplicate id r jobs
    then (err integrity_error, jobs)
    else (ok (new_job id now r), jobs ++ new_job id now r ∷ [])

-- `column IS NOT NULL AND column <= now`
abbrev pub is_past : Option ℕ → ℕ → Bool
is_past none now = false
is_past (some t) now = leb t now

-- `column IS NULL OR column <= now`
abbrev pub is_due : Option ℕ → ℕ → Bool
is_due none now = true
is_due (some t) now = leb t now

abbrev pub coalesce : Option ℕ → ℕ → ℕ
coalesce none t = t
coalesce (some s) t = s

-- `Job.job_type.in_(job_types)`, left out where no type is given
abbrev pub type_selected : List String → Job → Bool
type_selected [] job = true
type_selected (t ∷ ts) job = any (λ s. job.job_type == s) (t ∷ ts)

unfoldable pub claimable : List String → ℕ → Job → Bool
claimable job_types now job =
    (is_pending job.status && is_due job.run_after now
      || is_running job.status && is_past job.lease_expires_at now)
    && ltb job.attempt_count job.max_attempts
    && type_selected job_types job

unfoldable pub claims_before : Job → Job → Bool
claims_before a b =
    then_leb (coalesce a.run_after a.created_at) (coalesce b.run_after b.created_at)
      (then_leb a.created_at b.created_at (str_leb a.id b.id))

unfoldable pub candidate : List String → ℕ → Table → Option Job
candidate job_types now jobs = least claims_before (rows_where (claimable job_types now) jobs)

unfoldable pub exhausted : ℕ → Job → Bool
exhausted now job =
    is_running job.status
    && is_past job.lease_expires_at now
    && leb job.max_attempts job.attempt_count

abbrev pub exhaust : ℕ → Job → Job
exhaust now job = record job {
  status = failed;
  lease_expires_at = none;
  completed_at = some now;
  error_json = dumps (object (single "error_type" (text "AttemptsExhausted")));
  updated_at = now;
}

abbrev pub claim : ℕ → ℕ → Job → Job
claim lease_seconds now job = record job {
  status = running;
  locked_at = some now;
  lease_expires_at = some (now + seconds lease_seconds);
  attempt_count = job.attempt_count + 1;
  completed_at = none;
  updated_at = now;
}

unfoldable pub expire_exhausted : ℕ → Table → Table
expire_exhausted now jobs = update_rows (exhausted now) (exhaust now) jobs

abbrev claim_candidate : ℕ → ℕ → Option Job → Table → Option Job × Table
claim_candidate lease_seconds now none jobs = (none, jobs)
claim_candidate lease_seconds now (some c) jobs =
    let claimed = update_rows (has_id c.id) (claim lease_seconds now) jobs in
    (find_row (has_id c.id) claimed, claimed)

-- After its test of `lease_seconds`.
unfoldable pub claim_valid : List String → ℕ → ℕ → Table → Option Job × Table
claim_valid job_types lease_seconds now jobs =
    let expired = expire_exhausted now jobs in
    claim_candidate lease_seconds now (candidate job_types now expired) expired

unfoldable pub claim_next : List String → ℕ → ℕ → Action Table (Option Job)
claim_next job_types lease_seconds now jobs =
    if ltb lease_seconds 1 || ltb 86400 lease_seconds
    then (err (value_error "lease_seconds must be between 1 and 86400"), jobs)
    else (let (job, after) = claim_valid job_types lease_seconds now jobs in (ok job, after))

unfoldable pub payload : Job → Fields
payload job = loads_object job.payload_json

abbrev pub succeed : Fields → ℕ → Job → Job
succeed result now job = record job {
  status = succeeded;
  result_json = dumps (object result);
  error_json = empty_object;
  lease_expires_at = none;
  completed_at = some now;
  updated_at = now;
}

abbrev pub should_retry : Option ℕ → Job → Bool
should_retry retry_at job = is_some retry_at && ltb job.attempt_count job.max_attempts

abbrev pub fail : Fields → Option ℕ → ℕ → Job → Job
fail error retry_at now job = record job {
  status = if should_retry retry_at job then pending else failed;
  error_json = dumps (object error);
  run_after = if should_retry retry_at job then retry_at else job.run_after;
  locked_at = none;
  lease_expires_at = none;
  completed_at = if should_retry retry_at job then none else some now;
  updated_at = now;
}

-- `session.get(Job, id)`, a `KeyError` where it is absent, and the assignments to the row
unfoldable pub change_job : String → (Job → Job) → Action Table Job
change_job id f jobs = elim (find_row (has_id id) jobs) [
  | none ↦ (err (key_error id), jobs)
  | some job ↦ (ok (f job), update_rows (has_id id) f jobs)
]

unfoldable pub mark_succeeded : String → Fields → ℕ → Action Table Job
mark_succeeded id result now = change_job id (succeed result now)

unfoldable pub mark_failed : String → Fields → Option ℕ → ℕ → Action Table Job
mark_failed id error retry_at now = change_job id (fail error retry_at now)
