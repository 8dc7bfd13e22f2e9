-- ===== src/Memories/Rows.antt =====
-- The row `MemoryIndex`. Instants are microseconds since the epoch, in UTC.
use mem0_platform_sidecar.Prelude.{ℕ, String, Bool, true, false, Option, ◌==◌}
use mem0_platform_sidecar.Json.{Column}

-- The texts that the column `consolidation_state` holds.
pub data State : Type 0 where
  active shadowed merged superseded : State

abbrev pub is_active : State → Bool
is_active active = true
is_active _ = false

-- `INACTIVE_CONSOLIDATION_STATES`
abbrev pub is_inactive : State → Bool
is_inactive shadowed = true
is_inactive merged = true
is_inactive superseded = true
is_inactive active = false

pub record Memory : Type 0 where
  pub id : String
  pub project_id : String
  pub mem0_memory_id : String
  pub user_id : Option String
  pub agent_id : Option String
  pub app_id : Option String
  pub run_id : Option String
  pub category : Option String
  pub entity_refs_json : Column
  pub metadata_projection_json : Column
  pub content_hash : Option String
  pub content_length : Option ℕ
  pub normalized_type : Option String
  pub source : Option String
  pub pinned : ℕ
  pub expires_at : Option ℕ
  pub last_observed_at : Option ℕ
  pub access_count : ℕ
  pub last_accessed_at : Option ℕ
  pub last_consolidation_scan_at : Option ℕ
  pub scope_markers_verified : ℕ
  pub scope_marker_backfill_status : String
  pub scope_marker_backfill_attempted_at : Option ℕ
  pub consolidation_state : State
  pub shadowed_by_proposal_id : Option String
  pub created_at : ℕ
  pub updated_at : ℕ
  pub deleted_at : Option ℕ

abbrev pub has_memory_id : String → Memory → Bool
has_memory_id memory_id memory = memory.mem0_memory_id == memory_id
