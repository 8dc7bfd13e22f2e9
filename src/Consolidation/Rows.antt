-- ===== src/Consolidation/Rows.antt =====
-- The rows of the four tables. Instants are microseconds since the epoch, in UTC, and a score is the
-- 64 bits of a double.
use mem0_platform_sidecar.Prelude.{ℕ, String, Bool, true, false, Option, ◌&&◌, ◌==◌}
use mem0_platform_sidecar.Json.{Column}
use mem0_platform_sidecar.Policy.Values.{Mode}

pub record PolicyRow : Type 0 where
  pub id : String
  pub project_id : String
  pub app_id : String
  pub enabled : ℕ
  pub mode : Mode
  pub policy_json : Column
  pub version : ℕ
  pub created_at : ℕ
  pub updated_at : ℕ

-- The texts that the column `status` of a run holds.
pub data RunStatus : Type 0 where
  pending running succeeded failed : RunStatus

-- `NONTERMINAL`
abbrev pub is_nonterminal : RunStatus → Bool
is_nonterminal pending = true
is_nonterminal running = true
is_nonterminal _ = false

abbrev pub is_succeeded : RunStatus → Bool
is_succeeded succeeded = true
is_succeeded _ = false

pub record Run : Type 0 where
  pub id : String
  pub project_id : String
  pub app_id : String
  pub policy_id : Option String
  pub policy_version : ℕ
  pub mode : Mode
  pub status : RunStatus
  pub scan_cutoff : Option ℕ
  pub counts_json : Column
  pub error_code : Option String
  pub error_json : Column
  pub created_at : ℕ
  pub updated_at : ℕ
  pub started_at : Option ℕ
  pub completed_at : Option ℕ

pub record Proposal : Type 0 where
  pub id : String
  pub run_id : String
  pub project_id : String
  pub app_id : String
  pub proposal_key : String
  pub kind : String
  pub status : String
  pub source_ids_json : Column
  pub canonical_memory_id : Option String
  pub score : Option ℕ
  pub evidence_json : Column
  pub expected_hashes_json : Column
  pub canonical_content_hash : Option String
  pub export_job_id : Option String
  pub shadow_attempt_id : Option String
  pub shadow_attempt_expires_at : Option ℕ
  pub not_before : Option ℕ
  pub created_at : ℕ
  pub updated_at : ℕ
  pub applied_at : Option ℕ

pub record LineageRow : Type 0 where
  pub id : String
  pub project_id : String
  pub app_id : String
  pub run_id : String
  pub proposal_id : String
  pub source_memory_id : String
  pub canonical_memory_id : Option String
  pub action : String
  pub source_content_hash : Option String
  pub export_job_id : Option String
  pub metadata_json : Column
  pub applied_at : ℕ
  pub created_at : ℕ

-- The scope of a row, given its two columns.
abbrev pub in_scope : String → String → String → String → Bool
in_scope project_id app_id row_project row_app = row_project == project_id && row_app == app_id
