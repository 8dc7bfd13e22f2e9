-- ===== src/Consolidation/Policies.antt =====
-- `ConsolidationPolicyRepository`.
use mem0_platform_sidecar.Prelude.{
  ℕ, String, Bool, true, false, Option, none, some, List, [], ◌∷◌, ◌++◌, any, eqb, if◌then◌else◌,
  ◌==◌,
}
use mem0_platform_sidecar.Prelude.Text.{str_leb}
use mem0_platform_sidecar.Prelude.Tables.{find_row, rows_where, update_rows}
use mem0_platform_sidecar.Prelude.Order.{sort_by}
use mem0_platform_sidecar.Prelude.Result.{value_error, integrity_error, Result, ok, err, Action}
use mem0_platform_sidecar.Json.{Json, object, Column, dumps}
use mem0_platform_sidecar.Policy.Values.{Texts}
use mem0_platform_sidecar.Policy.Parse.{Spec, from_mapping, to_mapping}
use mem0_platform_sidecar.Consolidation.Rows.{PolicyRow, in_scope}

abbrev pub of_scope : String → String → PolicyRow → Bool
of_scope project_id app_id row = in_scope project_id app_id row.project_id row.app_id

abbrev pub policy_has_id : String → PolicyRow → Bool
policy_has_id id row = row.id == id

abbrev pub enabled_number : Bool → ℕ
enabled_number true = 1
enabled_number false = 0

-- What `upsert` writes to a row that is there.
abbrev pub write_spec : Spec → ℕ → PolicyRow → PolicyRow
write_spec spec now row = record row {
  enabled = enabled_number spec.enabled;
  mode = spec.mode;
  version = spec.policy_version;
  policy_json = dumps (object (to_mapping spec));
  updated_at = now;
}

abbrev pub new_policy : String → String → String → Spec → ℕ → PolicyRow
new_policy id project_id app_id spec now = record {
  id = id;
  project_id = project_id;
  app_id = app_id;
  enabled = enabled_number spec.enabled;
  mode = spec.mode;
  policy_json = dumps (object (to_mapping spec));
  version = spec.policy_version;
  created_at = now;
  updated_at = now;
}

unfoldable pub upsert_spec : String → ℕ → String → String → Spec → Action (List PolicyRow) PolicyRow
upsert_spec id now project_id app_id spec rows =
    let row = new_policy id project_id app_id spec now in
    elim (find_row (of_scope project_id app_id) rows) [
      | none ↦
          if any (policy_has_id id) rows
          then (err integrity_error, rows)
          else (ok row, rows ++ row ∷ [])
      | some old ↦ (
        ok (write_spec spec now old),
        update_rows (policy_has_id old.id) (write_spec spec now) rows,
      )
    ]

-- `upsert`, with the fresh id of a new row
unfoldable pub upsert :
    Texts → String → ℕ → String → String → Json → Action (List PolicyRow) PolicyRow
upsert texts id now project_id app_id policy rows = elim (from_mapping texts policy) [
  | err e ↦ (err e, rows)
  | ok spec ↦ upsert_spec id now project_id app_id spec rows
]

unfoldable pub get_policy : String → String → List PolicyRow → Option PolicyRow
get_policy project_id app_id rows = find_row (of_scope project_id app_id) rows

unfoldable pub policy_before : PolicyRow → PolicyRow → Bool
policy_before a b =
    if a.project_id == b.project_id
    then str_leb a.app_id b.app_id
    else str_leb a.project_id b.project_id

unfoldable pub list_enabled : List PolicyRow → List PolicyRow
list_enabled rows = sort_by policy_before (rows_where (λ row. eqb row.enabled 1) rows)

abbrev pub invalid_policy : String
invalid_policy = "stored consolidation policy is invalid"

-- `spec` of a row, by its column
unfoldable pub spec_of : Texts → Column → Result Spec
spec_of texts none = err (value_error invalid_policy)
spec_of texts (some (object fields)) = from_mapping texts (object fields)
spec_of texts (some _) = err (value_error invalid_policy)
