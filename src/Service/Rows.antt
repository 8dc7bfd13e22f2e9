-- ===== src/Service/Rows.antt =====
-- The tables of the service, its settings, and what its methods return.
use mem0_platform_sidecar.Prelude.{
  ℕ, ◌*◌, String, Bool, Option, none, List, any, if◌then◌else◌, ◌==◌,
}
use mem0_platform_sidecar.Prelude.Tables.{update_rows}
use mem0_platform_sidecar.Prelude.Result.{key_error, Result, ok, err}
use mem0_platform_sidecar.Policy.Values.{Texts}
use mem0_platform_sidecar.Consolidation.Rows.{PolicyRow, Proposal, LineageRow}
use mem0_platform_sidecar.Consolidation.Proposals.{proposal_has_id, with_status}
use mem0_platform_sidecar.Memories.Rows.{Memory}

-- Of a project the service needs the id only.
pub record Tables : Type 0 where
  pub projects : List String
  pub policies : List PolicyRow
  pub proposals : List Proposal
  pub memories : List Memory
  pub lineage : List LineageRow

-- The arguments of the constructor, and what is asked of Python's str: `not text.strip()`.
pub record Settings : Type 0 where
  pub texts : Texts
  pub is_empty_text : String → Bool
  pub bridge_routing_ready : Bool
  pub hard_delete_enabled : Bool
  pub shadow_lease_seconds : ℕ

-- The document that a method returns: the id of the proposal, its status, the count (shadowed,
-- restored or deleted) and the end of the grace period, where these are there.
pub record Outcome : Type 0 where
  pub proposal_id : String
  pub status : String
  pub count : Option ℕ
  pub not_before : Option ℕ

abbrev pub outcome : String → String → Outcome
outcome proposal_id status = record {
  proposal_id = proposal_id;
  status = status;
  count = none;
  not_before = none;
}

abbrev pub seconds : ℕ → ℕ
seconds n = n * 1000000

abbrev pub days : ℕ → ℕ
days n = n * 86400000000

-- The row of a proposal, changed by `f`. The session writes the changed row at its next flush.
abbrev pub change_proposal : String → (Proposal → Proposal) → Tables → Tables
change_proposal id f s = record s { proposals = update_rows (proposal_has_id id) f s.proposals }

-- `_mark_stale`
abbrev pub mark_stale : String → ℕ → Tables → Tables
mark_stale id now s = change_proposal id (with_status "STALE" now) s

abbrev pub clear_attempt : Proposal → Proposal
clear_attempt proposal = record proposal {
  shadow_attempt_id = none;
  shadow_attempt_expires_at = none;
}

-- `ProjectRepository.lock_for_mutation`
abbrev pub lock_project : String → Tables → Result (Unit {0})
lock_project project_id s =
    if any (λ id. id == project_id) s.projects then ok tt else err (key_error project_id)
