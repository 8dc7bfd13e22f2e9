-- ===== src/Memories/Examples.antt =====
-- A row of the index.
use mem0_platform_sidecar.Prelude.{none, some}
use mem0_platform_sidecar.Json.{empty_object}
use mem0_platform_sidecar.Memories.Rows.{Memory, active}

abbrev pub note : Memory
note = record {
  id = "n1";
  project_id = "p";
  mem0_memory_id = "m1";
  user_id = some "u";
  agent_id = none;
  app_id = some "a";
  run_id = none;
  category = none;
  entity_refs_json = empty_object;
  metadata_projection_json = empty_object;
  content_hash = some "h1";
  content_length = some 4;
  normalized_type = some "note";
  source = none;
  pinned = 0;
  expires_at = none;
  last_observed_at = some 4;
  access_count = 0;
  last_accessed_at = none;
  last_consolidation_scan_at = none;
  scope_markers_verified = 1;
  scope_marker_backfill_status = "VERIFIED";
  scope_marker_backfill_attempted_at = none;
  consolidation_state = active;
  shadowed_by_proposal_id = none;
  created_at = 4;
  updated_at = 4;
  deleted_at = none;
}
