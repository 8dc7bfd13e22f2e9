-- ===== src/Jobs/Examples.antt =====
-- The theorems about the job queue at concrete queues, and runs of its code.
use mem0_platform_sidecar.Prelude.{
  ◌+◌, ◌≡◌, refl, ◌↔◌, inl, true, false, none, some, List, [], ◌∷◌, arith, All, In, ◌==◌,
}
use mem0_platform_sidecar.Prelude.Tables.{sum_rows, find_row, rows_where, update_rows}
use mem0_platform_sidecar.Prelude.Order.{least}
use mem0_platform_sidecar.Prelude.Text.{str_leb}
use mem0_platform_sidecar.Prelude.Result.{ok}
use mem0_platform_sidecar.Json.{text, object, single, end, dumps, loads_object}
use mem0_platform_sidecar.Jobs.{
  Job, Table, Request, succeeded, pending, running, failed, new_job, fail, claim_valid, candidate,
  claims_before, expire_exhausted, exhausted, is_duplicate, find_by_dedupe, mark_failed,
  mark_succeeded, change_job, payload, claim, claimable, claim_next, enqueue,
}
use mem0_platform_sidecar.Jobs.History.{
  IsQueue, IsValid, Call, enqueued, claimed, marked_failed, history, perform, history-IsQueue,
}
use mem0_platform_sidecar.Jobs.Claims.{IsFirst, claim_next-IsFirst, claim_next-none, lease_excludes}
use mem0_platform_sidecar.Jobs.Attempts.{left, all_made, all_granted, claims_conserved}
use mem0_platform_sidecar.Jobs.Runner.{
  Handlers, Handler, job_types, Times, returned, raised, finish, run_once, run_job, handler_of,
  record_failure,
}
use mem0_platform_sidecar.Jobs.Runner.Rounds.{
  retry_waits, last_attempt_fails, idle_round_keeps_exhausted, round_completes,
}

-- What a run of the queue's code unfolds.
program : Unit {0}
unfolding run_once run_job handler_of finish record_failure mark_failed mark_succeeded change_job
    payload history perform claim_next claim_valid candidate claimable claims_before
    expire_exhausted exhausted enqueue is_duplicate find_by_dedupe find_row rows_where update_rows
    least sum_rows all_made all_granted loads_object str_leb
program = tt

abbrev scan : Request
scan = record {
  project_id = "p";
  event_id = none;
  job_type = "consolidation.scan";
  payload = single "run_id" (text "r1");
  run_after = none;
  max_attempts = 2;
  dedupe_key = some "app:7";
}

abbrev waiting : Job
waiting = new_job "j1" 10 scan

abbrev late : Job
late = record (new_job "j2" 5 scan) { run_after = some 900; dedupe_key = none }

abbrev queue : Table
queue = waiting ∷ late ∷ []

waiting-IsValid : IsValid waiting
waiting-IsValid = ground arith

late-IsValid : IsValid late
late-IsValid = ground arith

queue-IsQueue : IsQueue queue
queue-IsQueue = record {
  rows = (waiting-IsValid, (late-IsValid, tt));
  keyed = ((refl, tt), (tt, tt));
}

-- The first row is claimed for five minutes.
abbrev held : Job
held = claim 300 20 waiting

abbrev held_queue : Table
held_queue = held ∷ late ∷ []

held-IsValid : IsValid held
held-IsValid = ground arith

held-IsQueue : IsQueue held_queue
held-IsQueue = record { rows = (held-IsValid, (late-IsValid, tt)); keyed = ((refl, tt), (tt, tt)) }

claim_waiting : (claim_next [] 300 20 queue).0 ≡ ok (some held)
unfolding program
claim_waiting = refl

claim_next-IsFirst_example : IsFirst [] 300 20 queue held
claim_next-IsFirst_example = claim_next-IsFirst [] 300 20 queue held queue-IsQueue claim_waiting

none_claimable : All (λ job. claimable [] 20 job ≡ false) held_queue
unfolding program
none_claimable = (refl, (refl, tt))

claim_next-none_example :
    ((claim_next [] 300 20 held_queue).0 ≡ ok none)
    ↔ All (λ job. claimable [] 20 job ≡ false) held_queue
claim_next-none_example =
    claim_next-none [] 300 20 held_queue held-IsQueue (omega arith) (omega arith)

-- A second worker claims, the first fails, the second claims too early, and a job is added.
abbrev calls : List Call
calls =
    claimed [] 300 30
    ∷ marked_failed "j2" end (some 99) 40
    ∷ claimed [] 60 50
    ∷ enqueued "j3" 60 (record scan { dedupe_key = none })
    ∷ claimed [] 60 70
    ∷ []

history-IsQueue_example : IsQueue (history calls queue)
history-IsQueue_example = history-IsQueue calls queue queue-IsQueue

claims_conserved_example :
    sum_rows left (history calls queue) + all_made calls queue
    ≡ sum_rows left queue + all_granted calls queue
claims_conserved_example = claims_conserved calls queue queue-IsQueue

abbrev early_calls : List Call
early_calls = claimed [] 300 30 ∷ marked_failed "j2" end (some 99) 40 ∷ []

claims_counted : (all_made calls queue ≡ 2) × (sum_rows left (history calls queue) ≡ 4)
unfolding program
claims_counted = (refl, refl)

lease_excludes_example : ("j2" == "j1") ≡ false
unfolding program
lease_excludes_example =
    lease_excludes held 300000020 early_calls held_queue [] 300 2000
      (claim 300 2000 (fail end (some 99) 40 late)) held-IsQueue (inl refl) refl refl
      (omega arith, (refl, tt)) (omega arith) refl

abbrev times : Times
times = record { claimed_at = 20; failed_at = 50; written_at = 51 }

retry_waits_example :
    ((finish "j1" 1 times (raised "ValueError") held_queue).0 ≡ ok true)
    × ((row : Job) × In row (finish "j1" 1 times (raised "ValueError") held_queue).1
        × (row.id ≡ "j1")
        × (row.attempt_count ≡ 1)
        × (row.status ≡ pending)
        × (claimable [] 60000049 row ≡ false))
retry_waits_example =
    retry_waits times "ValueError" held held_queue [] 60000049 held-IsQueue (inl refl) (omega arith)
      (omega arith) (omega arith)

-- The same row at its second and last attempt.
abbrev last_held : Job
last_held = record held { attempt_count = 2 }

abbrev last_queue : Table
last_queue = last_held ∷ []

last-IsValid : IsValid last_held
last-IsValid = ground arith

last-IsQueue : IsQueue last_queue
last-IsQueue = record { rows = (last-IsValid, tt); keyed = (tt, tt) }

last_attempt_fails_example :
    ((finish "j1" 2 times (raised "ValueError") last_queue).0 ≡ ok true)
    × ((row : Job) × In row (finish "j1" 2 times (raised "ValueError") last_queue).1
        × (row.id ≡ "j1")
        × (row.status ≡ failed)
        × (row.completed_at ≡ some 51)
        × (claimable [] 99 row ≡ false))
last_attempt_fails_example =
    last_attempt_fails times "ValueError" last_held last_queue [] 99 last-IsQueue (inl refl) refl

-- The handler adds nothing to the table and returns an empty result.
abbrev quiet : Handler
quiet id arguments jobs = (returned (object end), jobs)

abbrev handlers : Handlers
handlers = ("consolidation.scan", quiet) ∷ []

abbrev much_later : Times
much_later = record { claimed_at = 400000000; failed_at = 0; written_at = 400000001 }

idle_round_keeps_exhausted_example :
    (run_once handlers 300 much_later last_queue ≡ (ok false, last_queue))
    × (last_held.status ≡ running)
unfolding program
idle_round_keeps_exhausted_example =
    idle_round_keeps_exhausted handlers 300 much_later last_held last_queue last-IsQueue
      (omega arith) (omega arith) (refl, tt) (inl refl) refl

claim_by_type : claim_next (job_types handlers) 300 20 queue ≡ (ok (some held), held_queue)
unfolding program
claim_by_type = refl

finds_quiet : handler_of "consolidation.scan" handlers ≡ some quiet
unfolding program
finds_quiet = refl

round_completes_example :
    ((run_once handlers 300 times queue).0 ≡ ok true)
    × ((row : Job) × In row (run_once handlers 300 times queue).1
        × (row.id ≡ "j1")
        × (row.attempt_count ≡ 1)
        × (row.status ≡ succeeded)
        × (row.result_json ≡ dumps (object end))
        × (row.lease_expires_at ≡ none)
        × (row.completed_at ≡ some 51)
        × (claimable [] 99 row ≡ false))
round_completes_example =
    round_completes handlers 300 times queue held_queue held_queue held quiet end [] 99
      claim_by_type finds_quiet refl held-IsQueue (inl refl)
