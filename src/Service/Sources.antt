-- ===== src/Service/Sources.antt =====
-- `_proposal_sources`: the rows of a proposal's sources, if they are as the proposal expects.
use mem0_platform_sidecar.Prelude.{
  String, Bool, true, false, not, ◌&&◌, Option, none, some, List, [], ◌∷◌, all, eqb, is_some,
  if◌then◌else◌, ◌==◌, map,
}
use mem0_platform_sidecar.Prelude.Text.{opt_eqb}
use mem0_platform_sidecar.Prelude.Result.{Result, ok, err}
use mem0_platform_sidecar.Json.{Json, text, Fields, end, field, get}
use mem0_platform_sidecar.Consolidation.Rows.{Proposal}
use mem0_platform_sidecar.Consolidation.Proposals.{source_ids}
use mem0_platform_sidecar.Memories.Rows.{State, active, shadowed, merged, superseded, Memory}
use mem0_platform_sidecar.Memories.Reads.{is_among, list_memories_by_ids}
use mem0_platform_sidecar.Service.Rows.{Tables}

-- `set(mapping)`
abbrev pub keys : Fields → List String
keys end = []
keys (field key value rest) = key ∷ keys rest

-- `set(xs) == set(ys)`
abbrev pub same_set : List String → List String → Bool
same_set xs ys = all (is_among ys) xs && all (is_among xs) ys

abbrev pub same_state : State → State → Bool
same_state active active = true
same_state shadowed shadowed = true
same_state merged merged = true
same_state superseded superseded = true
same_state _ _ = false

abbrev pub equals_text : Option String → Option Json → Bool
equals_text hash (some (text expected)) = opt_eqb hash (some expected)
equals_text hash _ = false

-- `memory.content_hash == expected_hashes[memory.mem0_memory_id]`. The key is there: the rows have the
-- ids of the sources, which are the keys.
unfoldable pub has_expected_hash : Fields → Memory → Bool
has_expected_hash expected_hashes memory =
    equals_text memory.content_hash (get memory.mem0_memory_id expected_hashes)

unfoldable pub is_as_expected : Fields → State → Memory → Bool
is_as_expected expected_hashes required_state memory =
    not (is_some memory.deleted_at)
    && not (eqb memory.pinned 1)
    && has_expected_hash expected_hashes memory
    && same_state memory.consolidation_state required_state

abbrev pub has_canonical : Option String → List String → Bool
has_canonical none ids = false
has_canonical (some id) ids = is_among ids id

abbrev pub memory_ids : List Memory → List String
memory_ids rows = map (λ (memory : Memory). memory.mem0_memory_id) rows

-- The check of the sources that were read.
unfoldable pub checked :
    Fields → State → Proposal → List String → List Memory → Option (List Memory)
checked expected_hashes required_state proposal ids rows =
    if not (same_set (memory_ids rows) ids)
    then none
    else if not (all (is_as_expected expected_hashes required_state) rows)
    then none
    else if proposal.kind == "EXACT_DUPLICATE"
        && not (has_canonical proposal.canonical_memory_id (memory_ids rows))
    then none
    else some rows

unfoldable pub proposal_sources : Proposal → Fields → State → Tables → Result (Option (List Memory))
proposal_sources proposal expected_hashes required_state s =
    elim (source_ids proposal.source_ids_json) [
      | err e ↦ err e
      | ok ids ↦
          if not (same_set (keys expected_hashes) ids)
          then ok none
          else ok (
              checked expected_hashes required_state proposal ids (
                list_memories_by_ids proposal.project_id (some proposal.app_id) ids true true
                  s.memories))
    ]
