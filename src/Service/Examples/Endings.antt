-- ===== src/Service/Examples/Endings.antt =====
-- The theorems about the end of an attempt, rollbacks and deletions at concrete tables.
use mem0_platform_sidecar.Prelude.{
  ℕ, ◌+◌, String, ◌≡◌, refl, true, false, ◌||◌, if◌then◌else◌, none, some, List, [], ◌∷◌, In, All,
  map, inl, inr, ◌⊎◌, ◌↔◌, ◌==◌,
}
use mem0_platform_sidecar.Prelude.Result.{ok}
use mem0_platform_sidecar.Json.{Json, text, object, end, field}
use mem0_platform_sidecar.Consolidation.Rows.{Proposal}
use mem0_platform_sidecar.Memories.Rows.{Memory}
use mem0_platform_sidecar.Service.Rows.{Tables, Outcome, seconds, days}
use mem0_platform_sidecar.Service.Upstream.{found, missing, Server, upstream_sources_match}
use mem0_platform_sidecar.Service.Approve.{approve_row}
use mem0_platform_sidecar.Service.Shadow.{
  Attempt, take_attempt, locked, begin, Export, hide, shadow_export, finish,
}
use mem0_platform_sidecar.Service.Rollback.{rollback_shadowed}
use mem0_platform_sidecar.Service.Finalize.{World, finalize_shadowed}
use mem0_platform_sidecar.Service.Hiding.{IsSource, finish-hides}
use mem0_platform_sidecar.Service.Hiding.RoundTrip.{forget, rollback_shadowed-finish}
use mem0_platform_sidecar.Service.Deletion.{upstream_sources_match_lem}
use mem0_platform_sidecar.Service.Deletion.Intact.{HasIntact}
use mem0_platform_sidecar.Service.Deletion.Applied.{IsAllowed, IsDone, finalize_shadowed-applied}
use mem0_platform_sidecar.Service.Refinement.Histories.{
  Command, requests, begins, finishes, rolls_back, run_all, Runs, run_all-Runs,
}
use mem0_platform_sidecar.Service.Examples.{
  program, settings, twins, copy, hashes, tables, approval, approved,
}

abbrev attempt : Attempt
attempt = record {
  proposal_id = "x1";
  attempt_id = "t1";
  ids = "m1" ∷ "m2" ∷ [];
  hashes = hashes;
  grace_days = 7;
}

abbrev export : Export
export = record {
  id = "e1";
  is_succeeded = true;
  total_count = 2;
  exported_count = 2;
  skipped_count = 0;
}

abbrev history : List (Command × ℕ)
history =
    (requests settings approval "x1", 10)
    ∷ (begins settings "t1" "x1", 20)
    ∷ (finishes attempt export true, 30)
    ∷ (rolls_back "x1", 40)
    ∷ []

run_all-Runs_example : Runs history tables.proposals (run_all history tables).proposals
run_all-Runs_example = run_all-Runs history tables (tt, tt)

abbrev exporting : Tables
exporting = (begin settings "t1" 20 "x1" approved).1

-- The row of the proposal by then.
abbrev taken : Proposal
taken = take_attempt "t1" (20 + seconds 60) 20 (approve_row hashes none false none 10 twins)

has_taken : locked "x1" exporting ≡ ok taken
unfolding program
has_taken = refl

abbrev finished : Tables
finished = (finish 30 attempt export true exporting).1

copy_is_hidden : In (hide taken 30 copy) finished.memories
unfolding program
copy_is_hidden = inr (inl refl)

has_sources : (taken.status ≡ "EXPORTING") × (taken.source_ids_json ≡ twins.source_ids_json)
unfolding program
has_sources = (refl, refl)

finish-hides_example :
    In (hide taken 30 copy) exporting.memories
    ⊎ ((before : Memory) × In before exporting.memories
        × (hide taken 30 copy ≡ hide taken 30 before)
        × IsSource 30 attempt exporting taken before)
unfolding program
finish-hides_example =
    finish-hides 30 attempt export true exporting taken (hide taken 30 copy) ((refl, tt), (tt, tt))
      has_taken refl copy_is_hidden

abbrev answer : Outcome
answer = record {
  proposal_id = "x1";
  status = "SHADOWED";
  count = some 1;
  not_before = some (30 + days 7);
}

is_finished : (finish 30 attempt export true exporting).0 ≡ ok answer
unfolding program
is_finished = refl

rollback_shadowed-finish_example :
    map forget (rollback_shadowed 40 "x1" (finish 30 attempt export true exporting).1).1.memories
    ≡ map forget exporting.memories
unfolding program
rollback_shadowed-finish_example =
    rollback_shadowed-finish 30 40 attempt export true exporting taken answer ((refl, tt), (tt, tt))
      has_taken refl refl is_finished refl

abbrev response : String → Json
response id = object (
    field "id" (text id) (
      field "memory" (text id) (
        field "metadata"
          (object (
            field "_mem0_sidecar_project_id" (text "p")
              (field "_mem0_sidecar_app_id" (text "a") end)))
          end)))

-- It has the two memories.
abbrev server : Server
server = record {
  get_memory = λ id. if id == "m1" || id == "m2" then found (response id) else missing;
  digest = λ value. if value == "m1" then "h1" else "h2";
  starts_pinned = λ value. false;
}

upstream_sources_match_lem_example :
    (upstream_sources_match server ("m1" ∷ "m2" ∷ []) hashes "p" "a" ≡ ok true)
    ↔ All (HasIntact server hashes "p" "a") ("m1" ∷ "m2" ∷ [])
upstream_sources_match_lem_example =
    upstream_sources_match_lem server ("m1" ∷ "m2" ∷ []) hashes "p" "a"

both_match : upstream_sources_match server ("m1" ∷ "m2" ∷ []) hashes "p" "a" ≡ ok true
unfolding program
both_match = refl

abbrev empty_server : Server
empty_server = record server { get_memory = λ id. missing }

abbrev world : World
world = record {
  before = λ id. server;
  delete_memory = λ id s. (ok tt, s);
  after = λ id. empty_server;
  lineage_id = λ id. id;
}

abbrev later : ℕ
later = 30 + days 8

abbrev shadowed_twins : Proposal
shadowed_twins = shadow_export 30 7 "e1" taken

is_shadowed : locked "x1" finished ≡ ok shadowed_twins
unfolding program
is_shadowed = refl

abbrev deleted : Tables
deleted = (finalize_shadowed settings world later "x1" finished).1

abbrev applied : Outcome
applied = record { proposal_id = "x1"; status = "APPLIED"; count = some 1; not_before = none }

is_applied : finalize_shadowed settings world later "x1" finished ≡ (ok applied, deleted)
unfolding program
is_applied = refl

finalize_shadowed-applied_example :
    IsAllowed settings world later shadowed_twins
    × All (IsDone settings world later shadowed_twins finished.lineage deleted.lineage) ("m2" ∷ [])
unfolding program
finalize_shadowed-applied_example =
    finalize_shadowed-applied settings world later "x1" shadowed_twins (λ id s. refl)
      ("m1" ∷ "m2" ∷ []) refl finished deleted applied refl is_applied refl
