-- ===== src/Service/Rollback.antt =====
-- `rollback_shadowed`: the sources that a proposal hides are shown again.
use mem0_platform_sidecar.Prelude.{
  ℕ, String, Bool, true, not, ◌&&◌, none, some, List, length, is_some, if◌then◌else◌, ◌==◌,
}
use mem0_platform_sidecar.Prelude.Text.{opt_eqb}
use mem0_platform_sidecar.Prelude.Tables.{rows_where, update_rows}
use mem0_platform_sidecar.Prelude.Result.{conflict_error, ok, err, Action}
use mem0_platform_sidecar.Consolidation.Rows.{Proposal}
use mem0_platform_sidecar.Consolidation.Proposals.{source_ids, with_status}
use mem0_platform_sidecar.Memories.Rows.{active, is_inactive, Memory}
use mem0_platform_sidecar.Memories.Reads.{list_memories_by_ids}
use mem0_platform_sidecar.Service.Rows.{Tables, Outcome, change_proposal}
use mem0_platform_sidecar.Service.Shadow.{is_row_of, locked}

-- The row is still hidden by the proposal.
unfoldable pub is_hidden_by : String → Memory → Bool
is_hidden_by proposal_id memory =
    not (is_some memory.deleted_at)
    && is_inactive memory.consolidation_state
    && opt_eqb memory.shadowed_by_proposal_id (some proposal_id)

abbrev pub show : ℕ → Memory → Memory
show now memory = record memory {
  consolidation_state = active;
  shadowed_by_proposal_id = none;
  last_consolidation_scan_at = none;
  updated_at = now;
}

abbrev pub roll_back_row : ℕ → Proposal → Proposal
roll_back_row now proposal = with_status "ROLLED_BACK" now (record proposal { not_before = none })

unfoldable pub roll_back : ℕ → Proposal → List String → Action Tables Outcome
roll_back now proposal ids s =
    let sources =
      list_memories_by_ids proposal.project_id (some proposal.app_id) ids true true s.memories in
    let restored = rows_where (is_hidden_by proposal.id) sources in
    (
      ok (record {
        proposal_id = proposal.id;
        status = "ROLLED_BACK";
        count = some (length restored);
        not_before = none;
      }),
      change_proposal proposal.id (roll_back_row now)
          (record s { memories = update_rows (is_row_of restored) (show now) s.memories }),
    )

unfoldable pub rollback_locked : ℕ → Proposal → Action Tables Outcome
rollback_locked now proposal s =
    if not (proposal.status == "SHADOWED")
    then (err (conflict_error "proposal is not shadowed"), s)
    else elim (source_ids proposal.source_ids_json) [
      | err e ↦ (err e, s)
      | ok ids ↦ roll_back now proposal ids s
    ]

unfoldable pub rollback_shadowed : ℕ → String → Action Tables Outcome
rollback_shadowed now id s = elim (locked id s) [
  | err e ↦ (err e, s)
  | ok proposal ↦ rollback_locked now proposal s
]
