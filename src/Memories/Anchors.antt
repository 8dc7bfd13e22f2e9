-- ===== src/Memories/Anchors.antt =====
-- `list_dirty_anchors`, `mark_anchors_scanned` and `count_dirty_anchors`.
use mem0_platform_sidecar.Prelude.{
  ℕ, String, Bool, true, false, not, ◌&&◌, ◌||◌, Option, none, some, List, take, any, ltb, leb, eqb,
  is_some, if◌then◌else◌, ◌==◌,
}
use mem0_platform_sidecar.Prelude.Text.{opt_eqb, str_leb, then_leb}
use mem0_platform_sidecar.Prelude.Tables.{rows_where, update_rows, count_rows}
use mem0_platform_sidecar.Prelude.Order.{sort_by}
use mem0_platform_sidecar.Prelude.Result.{value_error, Result, ok, err, Action}
use mem0_platform_sidecar.Memories.Rows.{Memory, is_active}

-- `last_observed_at > scanned`, and true where there has been no scan
abbrev pub observed_since : Option ℕ → ℕ → Bool
observed_since none observed = true
observed_since (some scanned) observed = ltb scanned observed

-- The pair of arguments `after_last_observed_at`, `after_memory_id`, where both are given.
abbrev pub is_after : Option (ℕ × String) → ℕ → String → Bool
is_after none observed memory_id = true
is_after (some (at, id)) observed memory_id =
    ltb at observed || (eqb observed at && (not (memory_id == id) && str_leb id memory_id))

abbrev pub is_dirty_at : Option (ℕ × String) → Option ℕ → Memory → Bool
is_dirty_at cursor none anchor = false
is_dirty_at cursor (some observed) anchor =
    observed_since anchor.last_consolidation_scan_at observed
    && is_after cursor observed anchor.mem0_memory_id

unfoldable pub is_dirty : String → String → Option (ℕ × String) → Memory → Bool
is_dirty project_id app_id cursor anchor =
    anchor.project_id == project_id
    && opt_eqb anchor.app_id (some app_id)
    && not (is_some anchor.deleted_at)
    && is_active anchor.consolidation_state
    && eqb anchor.pinned 0
    && eqb anchor.scope_markers_verified 1
    && is_some anchor.content_hash
    && is_dirty_at cursor anchor.last_observed_at anchor

abbrev pub observed_at : Option ℕ → ℕ
observed_at none = 0
observed_at (some t) = t

unfoldable pub anchor_before : Memory → Memory → Bool
anchor_before a b =
    then_leb (observed_at a.last_observed_at) (observed_at b.last_observed_at)
      (str_leb a.mem0_memory_id b.mem0_memory_id)

-- The cursor's two instants are given together or not at all: the other call raises ValueError.
unfoldable pub list_dirty_anchors :
    String → String → Option (ℕ × String) → ℕ → List Memory → Result (List Memory)
list_dirty_anchors project_id app_id cursor limit anchors =
    if ltb limit 1 || ltb 1000 limit
    then err (value_error "dirty anchor limit must be between 1 and 1000")
    else ok (
        take limit (sort_by anchor_before (rows_where (is_dirty project_id app_id cursor) anchors)))

abbrev pub observed_by : Option ℕ → ℕ → Bool
observed_by none scan_cutoff = false
observed_by (some observed) scan_cutoff = leb observed scan_cutoff

unfoldable pub is_scanned : String → String → List String → ℕ → Memory → Bool
is_scanned project_id app_id memory_ids scan_cutoff memory =
    memory.project_id == project_id
    && opt_eqb memory.app_id (some app_id)
    && any (λ id. id == memory.mem0_memory_id) memory_ids
    && observed_by memory.last_observed_at scan_cutoff

abbrev pub set_scanned : ℕ → ℕ → Memory → Memory
set_scanned scan_cutoff now memory = record memory {
  last_consolidation_scan_at = some scan_cutoff;
  updated_at = now;
}

-- The answer is the number of rows written. `now` is the clock that the model's `onupdate` reads.
unfoldable pub mark_anchors_scanned : String → String → List String → ℕ → ℕ → Action (List Memory) ℕ
mark_anchors_scanned project_id app_id memory_ids scan_cutoff now rows =
    let scanned = is_scanned project_id app_id memory_ids scan_cutoff in
    (ok (count_rows scanned rows), update_rows scanned (set_scanned scan_cutoff now) rows)

unfoldable pub count_dirty_anchors : String → String → List Memory → ℕ
count_dirty_anchors project_id app_id rows = count_rows (is_dirty project_id app_id none) rows
