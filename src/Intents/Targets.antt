-- ===== src/Intents/Targets.antt =====
-- The targets of an intent: `add_targets`, `add_target_batch`, `targets`, `incomplete_targets`,
-- `get_target`, `count_targets`, `mark_target_succeeded` and `mark_target_failed`.
pub mod Ordinals
use mem0_platform_sidecar.Prelude.{
  ℕ, zero, suc, ◌+◌, String, Bool, true, false, not, ◌&&◌, ◌||◌, Option, none, some, List, [], ◌∷◌,
  ◌++◌, map, any, length, take, ltb, if◌then◌else◌, ◌==◌,
}
use mem0_platform_sidecar.Prelude.Text.{then_leb, str_leb}
use mem0_platform_sidecar.Prelude.Tables.{find_row, rows_where, update_rows, count_rows}
use mem0_platform_sidecar.Prelude.Order.{sort_by}
use mem0_platform_sidecar.Prelude.Result.{value_error, key_error, Result, ok, err, Action}
use mem0_platform_sidecar.Json.{object, Fields, dumps, empty_object}
use mem0_platform_sidecar.Intents.Rows.{
  TargetStatus, target_pending, target_completed, target_failed, target_status_eqb, Target, Store,
  Sanitizer, max_targets, intent_has_id, target_has_id, of_intent,
}

unfoldable pub without : String → List String → List String
without id [] = []
without id (x ∷ xs) = let rest = without id xs in if x == id then rest else x ∷ rest

-- `list(dict.fromkeys(ids))`
unfoldable pub distinct : List String → List String
distinct [] = []
distinct (x ∷ xs) = x ∷ without x (distinct xs)

unfoldable pub target_before : Target → Target → Bool
target_before a b = then_leb a.ordinal b.ordinal (str_leb a.memory_id b.memory_id)

abbrev pub pending_target : Target → Bool
pending_target target = target_status_eqb target.status target_pending

-- `targets(intent_id, pending_only=…)`
unfoldable pub targets : String → Bool → Store → List Target
targets intent_id pending_only s =
    let rows = rows_where (of_intent intent_id) s.targets in
    sort_by target_before (if pending_only then rows_where pending_target rows else rows)

-- The ids that are not among those of `rows`.
unfoldable pub new_ids : List Target → List String → List String
new_ids rows [] = []
new_ids rows (id ∷ ids) =
    let rest = new_ids rows ids in
    if any (λ (target : Target). target.memory_id == id) rows then rest else id ∷ rest

-- A row as the model's defaults make it. `target_id` gives the fresh id of the row of a memory.
abbrev pub new_target : (String → String) → ℕ → String → ℕ → String → Target
new_target target_id now intent_id ordinal memory_id = record {
  id = target_id memory_id;
  intent_id = intent_id;
  memory_id = memory_id;
  ordinal = ordinal;
  status = target_pending;
  error_json = empty_object;
  created_at = now;
  updated_at = now;
}

-- The rows of `ids`, numbered from `ordinal`.
unfoldable pub new_targets : (String → String) → ℕ → String → ℕ → List String → List Target
new_targets target_id now intent_id ordinal [] = []
new_targets target_id now intent_id ordinal (memory_id ∷ ids) =
    new_target target_id now intent_id ordinal memory_id
    ∷ new_targets target_id now intent_id (suc ordinal) ids

abbrev pub too_many : String
too_many = "mutation intent exceeds 5000 memory targets"

unfoldable pub add_targets :
    (String → String) → ℕ → String → List String → Action Store (List Target)
add_targets target_id now intent_id memory_ids s =
    let current = targets intent_id false s in
    let ids = new_ids current (distinct memory_ids) in
    let added = new_targets target_id now intent_id (length current) ids in
    if ltb max_targets (length current + length ids)
    then (err (value_error too_many), s)
    else (ok added, record s { targets = s.targets ++ added })

abbrev pub greatest : ℕ → Option ℕ → ℕ
greatest n none = n
greatest n (some m) = if ltb m n then n else m

abbrev pub next_ordinal : Option ℕ → ℕ
next_ordinal none = 0
next_ordinal (some m) = m + 1

abbrev pub is_empty : List String → Bool
is_empty [] = true
is_empty (id ∷ ids) = false

-- `max(ordinal)` over the rows of an intent
unfoldable pub maximum_ordinal : String → List Target → Option ℕ
maximum_ordinal intent_id [] = none
maximum_ordinal intent_id (target ∷ rest) =
    let top = maximum_ordinal intent_id rest in
    if of_intent intent_id target then some (greatest target.ordinal top) else top

unfoldable pub add_target_batch :
    (String → String) → ℕ → String → List String → Action Store (List Target)
add_target_batch target_id now intent_id memory_ids s =
    let target_ids = distinct memory_ids in
    let rows = rows_where (of_intent intent_id) s.targets in
    let ids = new_ids rows target_ids in
    let added =
      new_targets target_id now intent_id (next_ordinal (maximum_ordinal intent_id s.targets))
        ids in
    if ltb 200 (length target_ids)
    then (err (value_error "mutation target batch exceeds 200 records"), s)
    else if is_empty target_ids
    then (ok [], s)
    else if ltb max_targets (count_rows (of_intent intent_id) s.targets + length ids)
    then (err (value_error too_many), s)
    else (ok added, record s { targets = s.targets ++ added })

unfoldable pub incomplete_targets : String → ℕ → Store → Result (List Target)
incomplete_targets intent_id limit s =
    if ltb limit 1 || ltb 200 limit
    then err (value_error "incomplete target limit must be between 1 and 200")
    else ok (
        take limit (
          sort_by target_before (
            rows_where
              (λ target.
                of_intent intent_id target
                && not (target_status_eqb target.status target_completed))
              s.targets)))

unfoldable pub get_target : String → Store → Result Target
get_target target_id s = elim (find_row (target_has_id target_id) s.targets) [
  | none ↦ err (key_error target_id)
  | some target ↦ ok target
]

unfoldable pub count_targets : String → Option TargetStatus → Store → ℕ
count_targets intent_id status s = elim status [
  | none ↦ count_rows (of_intent intent_id) s.targets
  | some wanted ↦
      count_rows (λ target. of_intent intent_id target && target_status_eqb target.status wanted)
        s.targets
]

abbrev pub succeed_target : ℕ → Target → Target
succeed_target now target = record target {
  status = target_completed;
  error_json = empty_object;
  updated_at = now;
}

abbrev pub fail_target : Fields → ℕ → Target → Target
fail_target error now target = record target {
  status = target_failed;
  error_json = dumps (object error);
  updated_at = now;
}

unfoldable pub mark_target_succeeded : Target → ℕ → Action Store Unit
mark_target_succeeded target now s = (
  ok tt,
  record s { targets = update_rows (target_has_id target.id) (succeed_target now) s.targets },
)

unfoldable pub mark_target_failed : Sanitizer → Target → Fields → ℕ → Action Store Unit
mark_target_failed sanitize target error now s =
    elim (find_row (intent_has_id target.intent_id) s.intents) [
      | none ↦ (err (key_error target.intent_id), s)
      | some intent ↦ (
        ok tt,
        record s {
          targets =
              update_rows (target_has_id target.id)
                (fail_target (sanitize intent.project_id error) now) s.targets;
        },
      )
    ]
