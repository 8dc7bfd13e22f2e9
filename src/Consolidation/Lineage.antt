-- ===== src/Consolidation/Lineage.antt =====
-- `ConsolidationLineageRepository`.
pub mod Repeat
use mem0_platform_sidecar.Prelude.{
  ℕ, String, Bool, ◌&&◌, Option, none, some, List, [], ◌∷◌, ◌++◌, any, if◌then◌else◌, ◌==◌,
}
use mem0_platform_sidecar.Prelude.Tables.{find_row}
use mem0_platform_sidecar.Prelude.Result.{integrity_error, ok, err, Action}
use mem0_platform_sidecar.Json.{empty_object}
use mem0_platform_sidecar.Consolidation.Rows.{Proposal, LineageRow}

abbrev pub is_source : String → String → LineageRow → Bool
is_source proposal_id source_memory_id row =
    row.proposal_id == proposal_id && row.source_memory_id == source_memory_id

unfoldable pub get_source : String → String → List LineageRow → Option LineageRow
get_source proposal_id source_memory_id rows =
    find_row (is_source proposal_id source_memory_id) rows

-- The arguments of `create`, without its proposal.
pub record Applied : Type 0 where
  pub source_memory_id : String
  pub canonical_memory_id : Option String
  pub action : String
  pub source_content_hash : Option String
  pub export_job_id : String
  pub applied_at : ℕ

abbrev pub new_lineage : String → ℕ → Proposal → Applied → LineageRow
new_lineage id now proposal applied = record {
  id = id;
  project_id = proposal.project_id;
  app_id = proposal.app_id;
  run_id = proposal.run_id;
  proposal_id = proposal.id;
  source_memory_id = applied.source_memory_id;
  canonical_memory_id = applied.canonical_memory_id;
  action = applied.action;
  source_content_hash = applied.source_content_hash;
  export_job_id = some applied.export_job_id;
  metadata_json = empty_object;
  applied_at = applied.applied_at;
  created_at = now;
}

-- `create`, with the fresh id of a new row
unfoldable pub create_lineage :
    String → ℕ → Proposal → Applied → Action (List LineageRow) LineageRow
create_lineage id now proposal applied rows =
    elim (get_source proposal.id applied.source_memory_id rows) [
      | some existing ↦ (ok existing, rows)
      | none ↦
          if any (λ (row : LineageRow). row.id == id) rows then (err integrity_error, rows) else (
            ok (new_lineage id now proposal applied),
            rows ++ new_lineage id now proposal applied ∷ [],
          )
    ]
