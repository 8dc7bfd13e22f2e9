-- ===== src/Service/Shadow.antt =====
-- `shadow_approved`, divided at its awaits: `begin` up to the commit of the attempt, `give_up` where the
-- first answers of the server do not match, and `finish` after the export.
use mem0_platform_sidecar.Prelude.{
  ℕ, ◌+◌, ◌-◌, String, Bool, true, false, not, ◌&&◌, ◌||◌, Option, none, some, List, [], ◌∷◌,
  length, ltb, eqb, is_some, if◌then◌else◌, ◌==◌,
}
use mem0_platform_sidecar.Prelude.Text.{opt_eqb}
use mem0_platform_sidecar.Prelude.Tables.{update_rows}
use mem0_platform_sidecar.Prelude.Result.{conflict_error, Result, ok, err, Action}
use mem0_platform_sidecar.Prelude.Fallible.{◌>>=◌}
use mem0_platform_sidecar.Json.{Fields}
use mem0_platform_sidecar.Intents.Targets.{without}
use mem0_platform_sidecar.Policy.Parse.{Spec}
use mem0_platform_sidecar.Consolidation.Rows.{Proposal}
use mem0_platform_sidecar.Consolidation.Policies.{get_policy, spec_of}
use mem0_platform_sidecar.Consolidation.Proposals.{
  get_proposal, source_ids, expected_hashes, with_status,
}
use mem0_platform_sidecar.Memories.Rows.{State, active, shadowed, merged, superseded, Memory}
use mem0_platform_sidecar.Memories.Reads.{list_memories_by_ids}
use mem0_platform_sidecar.Service.Rows.{
  Tables, Settings, Outcome, outcome, seconds, days, change_proposal, mark_stale, clear_attempt,
  lock_project,
}
use mem0_platform_sidecar.Service.Sources.{has_canonical, proposal_sources}

-- What a worker keeps while it waits: its attempt, and the values that it has read.
pub record Attempt : Type 0 where
  pub proposal_id : String
  pub attempt_id : String
  pub ids : List String
  pub hashes : Fields
  pub grace_days : ℕ

pub data Begun : Type 0 where
  settled : Outcome → Begun
  started : Attempt → Begun

abbrev pub canonical_count : Option String → List String → ℕ
canonical_count canonical ids = if has_canonical canonical ids then 1 else 0

-- `_shadowed_result`
unfoldable pub shadowed_result : Proposal → Result Outcome
shadowed_result proposal = elim (source_ids proposal.source_ids_json) [
  | err e ↦ err e
  | ok ids ↦ ok (record {
    proposal_id = proposal.id;
    status = "SHADOWED";
    count = some (length ids - canonical_count proposal.canonical_memory_id ids);
    not_before = proposal.not_before;
  })
]

abbrev pub is_live : ℕ → Option ℕ → Bool
is_live now none = false
is_live now (some expires_at) = ltb now expires_at

-- Another attempt runs under a lease.
abbrev pub is_taken : ℕ → Proposal → Bool
is_taken now proposal =
    proposal.status == "EXPORTING"
    && is_some proposal.shadow_attempt_id
    && is_live now proposal.shadow_attempt_expires_at

abbrev pub take_attempt : String → ℕ → ℕ → Proposal → Proposal
take_attempt attempt_id expires_at now proposal = record proposal {
  shadow_attempt_id = some attempt_id;
  shadow_attempt_expires_at = some expires_at;
  status = "EXPORTING";
  updated_at = now;
}

abbrev pub settle : Result Outcome → Result Begun
settle (ok o) = ok (settled o)
settle (err e) = err e

-- The end of the first part, with the policy and the expected hashes that were read.
unfoldable pub start : Settings → String → ℕ → Proposal → Spec → Fields → Action Tables Begun
start settings attempt_id now proposal policy hashes s =
    elim (proposal_sources proposal hashes active s) [
      | err e ↦ (err e, s)
      | ok none ↦ (ok (settled (outcome proposal.id "STALE")), mark_stale proposal.id now s)
      | ok (some sources) ↦ elim (source_ids proposal.source_ids_json) [
        | err e ↦ (err e, s)
        | ok ids ↦ (
          ok (
              started (record {
                proposal_id = proposal.id;
                attempt_id = attempt_id;
                ids = ids;
                hashes = hashes;
                grace_days = policy.shadow_grace_days;
              })),
          change_proposal proposal.id
              (take_attempt attempt_id (now + seconds settings.shadow_lease_seconds) now) s,
        )
      ]
    ]

-- The policy of the proposal's scope, and its expected hashes.
unfoldable pub policy_and_hashes : Settings → Proposal → Tables → Result (Spec × Fields)
policy_and_hashes settings proposal s =
    elim (get_policy proposal.project_id proposal.app_id s.policies) [
      | none ↦ err (conflict_error "consolidation policy is missing")
      | some row ↦ spec_of settings.texts row.policy_json >>= λ policy.
          expected_hashes proposal.expected_hashes_json >>= λ hashes. ok (policy, hashes)
    ]

unfoldable pub start_allowed : Settings → String → ℕ → Proposal → Action Tables Begun
start_allowed settings attempt_id now proposal s = elim (policy_and_hashes settings proposal s) [
  | err e ↦ (err e, s)
  | ok read ↦ start settings attempt_id now proposal read.0 read.1 s
]

-- What follows the lock, on the row read again.
unfoldable pub begin_locked : Settings → String → ℕ → Proposal → Action Tables Begun
begin_locked settings attempt_id now proposal s =
    if proposal.status == "SHADOWED"
    then (settle (shadowed_result proposal), s)
    else if not (proposal.status == "APPROVED" || proposal.status == "EXPORTING")
    then (err (conflict_error "proposal is not approved"), s)
    else if is_taken now proposal
    then (ok (settled (outcome proposal.id proposal.status)), s)
    else if not settings.bridge_routing_ready
    then (err (conflict_error "bridge routing is not verified"), s)
    else start_allowed settings attempt_id now proposal s

-- The proposal of that id, under the lock of its project.
unfoldable pub locked : String → Tables → Result Proposal
locked id s = elim (get_proposal id s.proposals) [
  | err e ↦ err e
  | ok proposal ↦ elim (lock_project proposal.project_id s) [ err e ↦ err e | ok tt' ↦ ok proposal ]
]

-- `attempt_id` is the fresh id of the attempt.
unfoldable pub begin : Settings → String → ℕ → String → Action Tables Begun
begin settings attempt_id now id s = elim (locked id s) [
  | err e ↦ (err e, s)
  | ok proposal ↦ begin_locked settings attempt_id now proposal s
]

-- `_owns_shadow_attempt`
unfoldable pub owns : String → Proposal → Bool
owns attempt_id proposal =
    proposal.status == "EXPORTING" && opt_eqb proposal.shadow_attempt_id (some attempt_id)

-- What a worker does first when it comes back: nothing more, if the attempt is not its own.
unfoldable pub resume : Attempt → (Proposal → Action Tables Outcome) → Action Tables Outcome
resume attempt act s = elim (locked attempt.proposal_id s) [
  | err e ↦ (err e, s)
  | ok proposal ↦
      if proposal.status == "SHADOWED"
      then (shadowed_result proposal, s)
      else if not (owns attempt.attempt_id proposal)
      then (ok (outcome proposal.id proposal.status), s)
      else act proposal s
]

-- The attempt ends with that status.
abbrev pub end_attempt : String → ℕ → Proposal → Proposal
end_attempt status now proposal = with_status status now (clear_attempt proposal)

abbrev pub end_with : String → ℕ → Proposal → Action Tables Outcome
end_with status now proposal s =
    (ok (outcome proposal.id status), change_proposal proposal.id (end_attempt status now) s)

unfoldable pub give_up : ℕ → Attempt → Action Tables Outcome
give_up now attempt = resume attempt (end_with "STALE" now)

-- What the export returned.
pub record Export : Type 0 where
  pub id : String
  pub is_succeeded : Bool
  pub total_count : ℕ
  pub exported_count : ℕ
  pub skipped_count : ℕ

abbrev pub is_complete : Export → ℕ → Bool
is_complete export n =
    export.is_succeeded
    && eqb export.total_count n
    && eqb export.exported_count n
    && eqb export.skipped_count 0

abbrev pub set_export : String → Proposal → Proposal
set_export export_id proposal = record proposal { export_job_id = some export_id }

-- The sources to hide: all but the canonical memory.
abbrev pub target_ids : Option String → List String → List String
target_ids none ids = ids
target_ids (some canonical) ids = without canonical ids

abbrev pub hidden_state : String → State
hidden_state kind =
    if kind == "EXACT_DUPLICATE" || kind == "NEAR_DUPLICATE"
    then merged
    else if kind == "CONTRADICTION"
    then superseded
    else shadowed

abbrev pub hide : Proposal → ℕ → Memory → Memory
hide proposal now memory = record memory {
  consolidation_state = hidden_state proposal.kind;
  shadowed_by_proposal_id = some proposal.id;
  updated_at = now;
}

-- The rows that `sources` are, in the table.
abbrev pub is_row_of : List Memory → Memory → Bool
is_row_of [] memory = false
is_row_of (source ∷ sources) memory = source.id == memory.id || is_row_of sources memory

abbrev pub shadow_row : ℕ → ℕ → Proposal → Proposal
shadow_row now grace_days proposal =
    with_status "SHADOWED" now
      (clear_attempt (record proposal { not_before = some (now + days grace_days) }))

abbrev pub hide_rows : Proposal → ℕ → List Memory → Tables → Tables
hide_rows proposal now sources s = record s {
  memories = update_rows (is_row_of sources) (hide proposal now) s.memories;
}

abbrev pub shadow_export : ℕ → ℕ → String → Proposal → Proposal
shadow_export now grace_days export_id proposal =
    shadow_row now grace_days (set_export export_id proposal)

-- `proposal` has the id of its export by now, which each of the writes below stores with it.
unfoldable pub shadow_sources : ℕ → Attempt → String → Proposal → Action Tables Outcome
shadow_sources now attempt export_id proposal s =
    let targets = target_ids proposal.canonical_memory_id attempt.ids in
    let sources =
      list_memories_by_ids proposal.project_id (some proposal.app_id) targets false true
        s.memories in
    if not (eqb (length sources) (length targets))
    then (
      ok (outcome proposal.id "STALE"),
      change_proposal proposal.id (λ row. with_status "STALE" now (set_export export_id row)) s,
    )
    else (
      shadowed_result (shadow_export now attempt.grace_days export_id proposal),
      change_proposal proposal.id (shadow_export now attempt.grace_days export_id)
          (hide_rows proposal now sources s),
    )

-- The attempt ends with that status, and the id of its export is kept.
abbrev pub end_exported : String → ℕ → String → Proposal → Action Tables Outcome
end_exported status now export_id proposal s = (
  ok (outcome proposal.id status),
  change_proposal proposal.id (λ row. end_attempt status now (set_export export_id row)) s,
)

unfoldable pub finish_owned : ℕ → Attempt → Export → Bool → Proposal → Action Tables Outcome
finish_owned now attempt export still_match proposal s =
    if not (is_complete export (length attempt.ids))
    then end_exported (if export.is_succeeded then "STALE" else "FAILED") now export.id proposal s
    else if not still_match
    then end_exported "STALE" now export.id proposal s
    else elim (proposal_sources proposal attempt.hashes active s) [
      | err e ↦ (err e, s)
      | ok none ↦ end_exported "STALE" now export.id proposal s
      | ok (some sources) ↦ shadow_sources now attempt export.id proposal s
    ]

-- `still_match` says that the sources and the canonical memory have matched after the export too.
unfoldable pub finish : ℕ → Attempt → Export → Bool → Action Tables Outcome
finish now attempt export still_match = resume attempt (finish_owned now attempt export still_match)
