-- ===== src/Worker.antt =====
-- `ConsolidationWorker` of src/mem0_sidecar/workers/consolidation.py: what its handlers do after the
-- service has answered. Each handler has a session of its own, whose changes since its last commit
-- are lost if it raises.
use mem0_platform_sidecar.Prelude.{
  ℕ, String, ◌<>◌, Bool, true, false, not, ◌&&◌, ◌||◌, Option, none, some, List, [], ◌∷◌, is_some,
  if◌then◌else◌, ◌==◌,
}
use mem0_platform_sidecar.Prelude.Result.{value_error, Result, ok, err, Action}
use mem0_platform_sidecar.Json.{text, Fields, end, field, get}
use mem0_platform_sidecar.Policy.Values.{Mode, auto_safe}
use mem0_platform_sidecar.Jobs.{Job, Request, enqueue}
use mem0_platform_sidecar.Consolidation.Rows.{Run, Proposal}
use mem0_platform_sidecar.Consolidation.Proposals.{source_ids, list_actionable_for_run}
use mem0_platform_sidecar.Memories.Rows.{Memory}
use mem0_platform_sidecar.Memories.Reads.{list_memories_by_ids}
use mem0_platform_sidecar.Service.Rows.{Tables, Settings, Outcome, mark_stale}
use mem0_platform_sidecar.Service.Sources.{keys, same_set}
use mem0_platform_sidecar.Service.Approve.{Approval, Approving, decided, adding, request_approval}

pub record State : Type 0 where
  pub tables : Tables
  pub jobs : List Job

-- `payload.get(key)`, which has to be a text that is not empty
unfoldable pub required_text : String → String → Fields → Result String
required_text key message payload = elim (get key payload) [
  | some (text value) ↦ if value == "" then err (value_error message) else ok value
  | _ ↦ err (value_error message)
]

abbrev pub with_hash : Memory → Option String → Fields → Fields
with_hash memory none rest = rest
with_hash memory (some hash) rest = field memory.mem0_memory_id (text hash) rest

-- The hashes of the sources that have one.
unfoldable pub source_hashes : List Memory → Fields
source_hashes [] = end
source_hashes (memory ∷ rest) = with_hash memory memory.content_hash (source_hashes rest)

abbrev pub proposal_request : String → Proposal → Option ℕ → String → Request
proposal_request job_type proposal run_after dedupe_key = record {
  project_id = proposal.project_id;
  event_id = none;
  job_type = job_type;
  payload = field "app_id" (text proposal.app_id) (field "proposal_id" (text proposal.id) end);
  run_after = run_after;
  max_attempts = 3;
  dedupe_key = some dedupe_key;
}

-- The clock and the fresh ids, one for the job of each proposal.
pub record Fresh : Type 0 where
  pub now : ℕ
  pub job_id : String → String

abbrev pub enqueued : State → Result Job × List Job → Result (Unit {0}) × State
enqueued s (err e, jobs) = (err e, s)
enqueued s (ok job, jobs) = (ok tt, record s { jobs = jobs })

unfoldable pub enqueue_shadow : Fresh → Proposal → Action State (Unit {0})
enqueue_shadow fresh proposal s = enqueued s (
    enqueue (fresh.job_id proposal.id) fresh.now
      (proposal_request "consolidation.shadow" proposal none ("shadow:" <> proposal.id)) s.jobs)

-- What follows an approval. One without a replacement text is decided at once.
unfoldable pub after_approval :
    Fresh → Proposal → Result Approving × Tables → State → Result (Unit {0}) × State
after_approval fresh proposal (err e, tables) s = (err e, s)
after_approval fresh proposal (ok (adding addition), tables) s =
    (ok tt, record s { tables = tables })
after_approval fresh proposal (ok (decided o), tables) s =
    if o.status == "APPROVED"
    then enqueue_shadow fresh proposal (record s { tables = tables })
    else (ok tt, record s { tables = tables })

abbrev pub worker_approval : Fields → Approval
worker_approval hashes = record {
  expected_status = "PENDING";
  expected_source_hashes = hashes;
  canonical_id = none;
  replacement_text = none;
  replacement_length = 0;
}

-- One round of the loop over the actionable proposals.
unfoldable pub approve_one : Settings → Fresh → Proposal → Action State (Unit {0})
approve_one settings fresh proposal s = elim (source_ids proposal.source_ids_json) [
  | err e ↦ (err e, s)
  | ok ids ↦
      let sources =
        list_memories_by_ids proposal.project_id (some proposal.app_id) ids false false
          s.tables.memories in
      let hashes = source_hashes sources in
      if not (same_set (keys hashes) ids)
      then (ok tt, record s { tables = mark_stale proposal.id fresh.now s.tables })
      else after_approval fresh proposal
          (request_approval settings (worker_approval hashes) fresh.now proposal.id s.tables) s
]

abbrev pub next_round :
    Result (Unit {0}) × State → (State → Result (Unit {0}) × State) → Result (Unit {0}) × State
next_round (err e, s) rest = (err e, s)
next_round (ok tt', s) rest = rest s

unfoldable pub approve_each : Settings → Fresh → List Proposal → Action State (Unit {0})
approve_each settings fresh [] s = (ok tt, s)
approve_each settings fresh (proposal ∷ rest) s =
    next_round (approve_one settings fresh proposal s) (approve_each settings fresh rest)

-- Nothing of the loop is kept if it raises.
abbrev pub committed : State → Result (Unit {0}) × State → Result (Unit {0}) × State
committed s (err e, after) = (err e, s)
committed s (ok tt', after) = (ok tt, after)

abbrev pub is_auto_safe : Mode → Bool
is_auto_safe auto_safe = true
is_auto_safe _ = false

-- `handle_scan` after `run_scan`, on the run read again.
unfoldable pub approve_actionable : Settings → Fresh → Run → Action State (Unit {0})
approve_actionable settings fresh run s =
    if not (is_auto_safe run.mode) || not settings.bridge_routing_ready
    then (ok tt, s)
    else committed s
        (approve_each settings fresh (list_actionable_for_run run.id s.tables.proposals) s)

-- `handle_shadow` after `shadow_approved`, on the proposal and the run read again.
unfoldable pub enqueue_finalize :
    Settings → Fresh → Outcome → Run → Proposal → Action State (Unit {0})
enqueue_finalize settings fresh result run proposal s =
    if result.status == "SHADOWED"
      && is_auto_safe run.mode
      && settings.hard_delete_enabled
      && is_some proposal.not_before
    then enqueued s (
        enqueue (fresh.job_id proposal.id) fresh.now
          (proposal_request "consolidation.finalize" proposal proposal.not_before
            ("finalize:" <> proposal.id))
          s.jobs)
    else (ok tt, s)
