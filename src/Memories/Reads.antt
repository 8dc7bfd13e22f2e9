-- ===== src/Memories/Reads.antt =====
-- `get_memory`, `list_memories_by_ids` and `list_exact_group_peers`.
use mem0_platform_sidecar.Prelude.{
  ℕ, zero, suc, ◌+◌, ◌/◌, String, Bool, true, not, ◌&&◌, ◌||◌, Option, none, some, List, [], ◌++◌,
  any, take, drop, length, ltb, eqb, is_some, if◌then◌else◌, ◌==◌,
}
use mem0_platform_sidecar.Prelude.Text.{opt_eqb, str_leb}
use mem0_platform_sidecar.Prelude.Tables.{find_row, rows_where}
use mem0_platform_sidecar.Prelude.Order.{sort_by}
use mem0_platform_sidecar.Prelude.Result.{value_error, Result, ok, err}
use mem0_platform_sidecar.Intents.Targets.{distinct}
use mem0_platform_sidecar.Memories.Rows.{Memory, is_active, has_memory_id}

-- `column == app_id`, left out where no app is given
abbrev pub of_app : Option String → Memory → Bool
of_app none memory = true
of_app (some app_id) memory = opt_eqb memory.app_id (some app_id)

abbrev pub shown : Bool → Memory → Bool
shown include_deleted memory = include_deleted || not (is_some memory.deleted_at)

abbrev pub unshadowed : Bool → Memory → Bool
unshadowed include_shadowed memory = include_shadowed || is_active memory.consolidation_state

unfoldable pub get_memory : String → String → Option String → Bool → List Memory → Option Memory
get_memory project_id mem0_memory_id app_id include_deleted rows =
    find_row
      (λ memory.
        memory.project_id == project_id
        && has_memory_id mem0_memory_id memory
        && of_app app_id memory
        && shown include_deleted memory)
      rows

-- `column.in_(ids)`
abbrev pub is_among : List String → String → Bool
is_among ids id = any (λ other. other == id) ids

-- The condition of the statement, but for the ids.
abbrev pub in_reach : String → Option String → Bool → Bool → Memory → Bool
in_reach project_id app_id include_deleted include_shadowed memory =
    memory.project_id == project_id
    && of_app app_id memory
    && shown include_deleted memory
    && unshadowed include_shadowed memory

-- One statement for each 400 ids, for that many rounds.
unfoldable pub rows_by_chunks : (Memory → Bool) → List Memory → ℕ → List String → List Memory
rows_by_chunks p rows zero ids = []
rows_by_chunks p rows (suc rounds) ids =
    rows_where (λ memory. is_among (take 400 ids) memory.mem0_memory_id && p memory) rows
    ++ rows_by_chunks p rows rounds (drop 400 ids)

-- `len(range(0, n, 400))`
abbrev pub chunks : ℕ → ℕ
chunks n = (n + 399) / 400

unfoldable pub list_memories_by_ids :
    String → Option String → List String → Bool → Bool → List Memory → List Memory
list_memories_by_ids project_id app_id mem0_memory_ids include_deleted include_shadowed rows =
    let memory_ids = distinct mem0_memory_ids in
    rows_by_chunks (in_reach project_id app_id include_deleted include_shadowed) rows
      (chunks (length memory_ids)) memory_ids

-- `not value`, for an optional text
abbrev pub is_blank : Option String → Bool
is_blank none = true
is_blank (some value) = value == ""

unfoldable pub is_peer : Memory → Memory → Bool
is_peer anchor memory =
    memory.project_id == anchor.project_id
    && opt_eqb memory.app_id anchor.app_id
    && not (is_some memory.deleted_at)
    && is_active memory.consolidation_state
    && eqb memory.pinned 0
    && eqb memory.scope_markers_verified 1
    && opt_eqb memory.normalized_type anchor.normalized_type
    && opt_eqb memory.content_hash anchor.content_hash
    && opt_eqb memory.user_id anchor.user_id
    && opt_eqb memory.agent_id anchor.agent_id

abbrev pub memory_id_before : Memory → Memory → Bool
memory_id_before a b = str_leb a.mem0_memory_id b.mem0_memory_id

unfoldable pub list_exact_group_peers : Memory → ℕ → List Memory → Result (List Memory)
list_exact_group_peers anchor limit rows =
    if ltb limit 1 || ltb 100 limit
    then err (value_error "exact peer limit must be between 1 and 100")
    else if is_blank anchor.app_id || is_blank anchor.content_hash
    then ok []
    else ok (take limit (sort_by memory_id_before (rows_where (is_peer anchor) rows)))
