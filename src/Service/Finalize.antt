-- ===== src/Service/Finalize.antt =====
-- `finalize_shadowed`: after the grace period the hidden sources are deleted one by one. The session
-- keeps the row of the proposal that it read first, so the proposal is a parameter of each part.
use mem0_platform_sidecar.Prelude.{
  ℕ, String, ◌<>◌, Bool, true, false, not, ◌&&◌, Option, none, some, List, [], ◌∷◌, length, eqb,
  leb, is_some, if◌then◌else◌, ◌==◌,
}
use mem0_platform_sidecar.Prelude.Text.{opt_eqb}
use mem0_platform_sidecar.Prelude.Result.{Error, conflict_error, key_error, Result, ok, err, Action}
use mem0_platform_sidecar.Json.{Json, text, Fields, get}
use mem0_platform_sidecar.Consolidation.Rows.{Proposal}
use mem0_platform_sidecar.Consolidation.Proposals.{
  get_proposal, source_ids, expected_hashes, with_status,
}
use mem0_platform_sidecar.Consolidation.Lineage.{get_source, create_lineage, Applied}
use mem0_platform_sidecar.Memories.Rows.{is_inactive, Memory}
use mem0_platform_sidecar.Memories.Reads.{get_memory}
use mem0_platform_sidecar.Service.Rows.{
  Tables, Settings, Outcome, outcome, change_proposal, lock_project,
}
use mem0_platform_sidecar.Service.Sources.{equals_text}
use mem0_platform_sidecar.Service.Upstream.{
  Server, upstream_sources_match, upstream_canonical_matches, verify_upstream_deleted,
}
use mem0_platform_sidecar.Service.Shadow.{target_ids}

-- What happens while the deletion of one memory is awaited: `MemoryService.delete_memory`, whose code
-- is not part of this model, and what other workers do to the tables in the meantime; and the
-- server before it and after it.
pub record World : Type 0 where
  pub before : String → Server
  pub delete_memory : String → Action Tables (Unit {0})
  pub after : String → Server
  pub lineage_id : String → String

-- The row is hidden by the proposal and unchanged. Its hash is looked up only after the first two tests.
unfoldable pub is_hidden_unchanged : Proposal → Fields → Memory → Result Bool
is_hidden_unchanged proposal hashes memory =
    if not (
      is_inactive memory.consolidation_state
      && opt_eqb memory.shadowed_by_proposal_id (some proposal.id))
    then ok false
    else elim (get memory.mem0_memory_id hashes) [
      | none ↦ err (key_error memory.mem0_memory_id)
      | some hash ↦ ok (equals_text memory.content_hash (some hash) && not (eqb memory.pinned 1))
    ]

-- The proposal is marked FAILED, and that is committed before the exception.
abbrev pub fail_with : String → ℕ → Proposal → Action Tables (Unit {0})
fail_with message now proposal s =
    (err (conflict_error message), change_proposal proposal.id (with_status "FAILED" now) s)

-- The answers of the server just before the deletion.
unfoldable pub deletable : Server → Proposal → Fields → String → Result (Unit {0})
deletable server proposal hashes memory_id =
    elim (upstream_sources_match server (memory_id ∷ []) hashes proposal.project_id
      proposal.app_id) [
        | err e ↦ err e
        | ok false ↦ err (conflict_error "upstream source changed")
        | ok true ↦ elim (upstream_canonical_matches server proposal hashes) [
          | err e ↦ err e
          | ok false ↦ err (conflict_error "canonical memory changed")
          | ok true ↦ ok tt
        ]
      ]

unfoldable pub delete_hidden : World → ℕ → Proposal → Fields → Memory → Action Tables (Unit {0})
delete_hidden world now proposal hashes memory s =
    elim (is_hidden_unchanged proposal hashes memory) [
      | err e ↦ (err e, s)
      | ok false ↦ fail_with "shadowed source changed" now proposal s
      | ok true ↦
          elim (deletable (world.before memory.mem0_memory_id) proposal hashes
            memory.mem0_memory_id) [
              | err e ↦ (err e, s)
              | ok tt' ↦ world.delete_memory memory.mem0_memory_id s
            ]
    ]

unfoldable pub delete_source : World → ℕ → Proposal → Fields → String → Action Tables (Unit {0})
delete_source world now proposal hashes memory_id s =
    elim (get_memory proposal.project_id memory_id (some proposal.app_id) true s.memories) [
      | none ↦ fail_with "shadowed projection is missing" now proposal s
      | some memory ↦
          if is_some memory.deleted_at
          then (ok tt, s)
          else delete_hidden world now proposal hashes memory s
    ]

abbrev pub is_conflict : Error → Bool
is_conflict (conflict_error message) = true
is_conflict _ = false

-- The conflict of a memory that is still there marks the proposal FAILED; another error does not.
abbrev pub verified : World → ℕ → Proposal → String → Action Tables (Unit {0})
verified world now proposal memory_id s =
    elim (verify_upstream_deleted (world.after memory_id) memory_id) [
      | ok tt' ↦ (ok tt, s)
      | err e ↦ (
        err e,
        if is_conflict e then change_proposal proposal.id (with_status "FAILED" now) s else s,
      )
    ]

abbrev pub text_of : Json → Option String
text_of (text value) = some value
text_of _ = none

abbrev pub given : Option String → String
given none = ""
given (some value) = value

abbrev pub applied : ℕ → Proposal → Json → String → Applied
applied now proposal hash memory_id = record {
  source_memory_id = memory_id;
  canonical_memory_id = proposal.canonical_memory_id;
  action = proposal.kind <> "_DELETE";
  source_content_hash = text_of hash;
  export_job_id = given proposal.export_job_id;
  applied_at = now;
}

unfoldable pub record_deletion : World → ℕ → Proposal → Fields → String → Action Tables (Unit {0})
record_deletion world now proposal hashes memory_id s = elim (lock_project proposal.project_id s) [
  | err e ↦ (err e, s)
  | ok tt' ↦ elim (get memory_id hashes) [
    | none ↦ (err (key_error memory_id), s)
    | some hash ↦
        let created =
          create_lineage (world.lineage_id memory_id) now proposal
            (applied now proposal hash memory_id) s.lineage in
        elim created.0 [ err e ↦ (err e, s) | ok row ↦ (ok tt, record s { lineage = created.1 }) ]
  ]
]

-- One round of the loop. What raises ends it.
unfoldable pub finalize_source : World → ℕ → Proposal → Fields → String → Action Tables (Unit {0})
finalize_source world now proposal hashes memory_id s =
    if is_some (get_source proposal.id memory_id s.lineage)
    then (ok tt, s)
    else let deleted = delete_source world now proposal hashes memory_id s in
      elim deleted.0 [
        | err e ↦ deleted
        | ok tt' ↦
            let checked = verified world now proposal memory_id deleted.1 in
            elim checked.0 [
              | err e ↦ checked
              | ok tt'' ↦ record_deletion world now proposal hashes memory_id checked.1
            ]
      ]

abbrev pub continue_with :
    Result (Unit {0}) × Tables → Action Tables (Unit {0}) → Result (Unit {0}) × Tables
continue_with (err e, s) rest = (err e, s)
continue_with (ok tt', s) rest = rest s

unfoldable pub finalize_sources :
    World → ℕ → Proposal → Fields → List String → Action Tables (Unit {0})
finalize_sources world now proposal hashes [] s = (ok tt, s)
finalize_sources world now proposal hashes (memory_id ∷ rest) s =
    continue_with (finalize_source world now proposal hashes memory_id s)
      (finalize_sources world now proposal hashes rest)

abbrev pub apply_row : ℕ → Proposal → Proposal
apply_row now proposal = with_status "APPLIED" now (record proposal { applied_at = some now })

abbrev pub applied_outcome : String → ℕ → Outcome
applied_outcome id n = record {
  proposal_id = id;
  status = "APPLIED";
  count = some n;
  not_before = none;
}

abbrev pub mark_applied : ℕ → Proposal → ℕ → Result (Unit {0}) × Tables → Result Outcome × Tables
mark_applied now proposal n (err e, s) = (err e, s)
mark_applied now proposal n (ok tt', s) =
    (ok (applied_outcome proposal.id n), change_proposal proposal.id (apply_row now) s)

unfoldable pub apply_all : World → ℕ → Proposal → Fields → List String → Action Tables Outcome
apply_all world now proposal hashes targets s =
    mark_applied now proposal (length targets)
      (finalize_sources world now proposal hashes targets s)

unfoldable pub finalize_allowed : World → ℕ → Proposal → Action Tables Outcome
finalize_allowed world now proposal s = elim (expected_hashes proposal.expected_hashes_json) [
  | err e ↦ (err e, s)
  | ok hashes ↦ elim (source_ids proposal.source_ids_json) [
    | err e ↦ (err e, s)
    | ok ids ↦ apply_all world now proposal hashes (target_ids proposal.canonical_memory_id ids) s
  ]
]

abbrev pub grace_is_over : Option ℕ → ℕ → Bool
grace_is_over none now = false
grace_is_over (some t) now = leb t now

abbrev pub is_given : Option String → Bool
is_given none = false
is_given (some value) = not (value == "")

-- The guards of the method, in its order.
unfoldable pub finalize : Settings → World → ℕ → Proposal → Action Tables Outcome
finalize settings world now proposal s =
    if not (proposal.status == "SHADOWED")
    then (err (conflict_error "proposal is not shadowed"), s)
    else if not (grace_is_over proposal.not_before now)
    then (err (conflict_error "shadow grace period has not elapsed"), s)
    else if not settings.hard_delete_enabled
    then (ok (outcome proposal.id "SHADOWED"), s)
    else if not settings.bridge_routing_ready
    then (err (conflict_error "bridge routing is not verified"), s)
    else if not (is_given proposal.export_job_id)
    then (err (conflict_error "export checkpoint is missing"), s)
    else finalize_allowed world now proposal s

unfoldable pub finalize_shadowed : Settings → World → ℕ → String → Action Tables Outcome
finalize_shadowed settings world now id s = elim (get_proposal id s.proposals) [
  | err e ↦ (err e, s)
  | ok proposal ↦ finalize settings world now proposal s
]
