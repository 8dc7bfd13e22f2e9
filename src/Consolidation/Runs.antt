-- ===== src/Consolidation/Runs.antt =====
-- `ConsolidationRunRepository`.
use mem0_platform_sidecar.Prelude.{
  ℕ, String, Bool, true, false, ◌&&◌, Option, none, some, List, [], ◌∷◌, ◌++◌, any, leb,
  if◌then◌else◌, ◌==◌,
}
use mem0_platform_sidecar.Prelude.Text.{str_leb, then_leb}
use mem0_platform_sidecar.Prelude.Tables.{find_row, rows_where, update_rows}
use mem0_platform_sidecar.Prelude.Order.{least}
use mem0_platform_sidecar.Prelude.Result.{key_error, integrity_error, Result, ok, err, Action}
use mem0_platform_sidecar.Json.{object, Fields, dumps, empty_object}
use mem0_platform_sidecar.Consolidation.Rows.{
  PolicyRow, Run, pending, running, succeeded, failed, is_nonterminal, is_succeeded, in_scope,
}

abbrev pub run_of_scope : String → String → Run → Bool
run_of_scope project_id app_id run = in_scope project_id app_id run.project_id run.app_id

abbrev pub run_has_id : String → Run → Bool
run_has_id id run = run.id == id

abbrev pub is_active_in : String → String → Run → Bool
is_active_in project_id app_id run = run_of_scope project_id app_id run && is_nonterminal run.status

unfoldable pub active : String → String → List Run → Option Run
active project_id app_id runs = find_row (is_active_in project_id app_id) runs

-- The descending order of a nullable instant, where null stands last.
abbrev pub later : Option ℕ → Option ℕ → Bool
later none none = true
later none (some b) = false
later (some a) none = true
later (some a) (some b) = leb b a

unfoldable pub last_succeeded : String → String → List Run → Option Run
last_succeeded project_id app_id runs =
    least (λ (a b : Run). later a.completed_at b.completed_at)
      (rows_where (λ run. run_of_scope project_id app_id run && is_succeeded run.status) runs)

unfoldable pub newest_before : Run → Run → Bool
newest_before a b = then_leb b.created_at a.created_at (str_leb b.id a.id)

unfoldable pub last : String → String → List Run → Option Run
last project_id app_id runs = least newest_before (rows_where (run_of_scope project_id app_id) runs)

abbrev pub new_run : String → PolicyRow → ℕ → Run
new_run id policy now = record {
  id = id;
  project_id = policy.project_id;
  app_id = policy.app_id;
  policy_id = some policy.id;
  policy_version = policy.version;
  mode = policy.mode;
  status = pending;
  scan_cutoff = none;
  counts_json = empty_object;
  error_code = none;
  error_json = empty_object;
  created_at = now;
  updated_at = now;
  started_at = none;
  completed_at = none;
}

-- `create`, with the fresh id of the row
unfoldable pub create_run : String → PolicyRow → ℕ → Action (List Run) Run
create_run id policy now runs =
    if any (run_has_id id) runs
    then (err integrity_error, runs)
    else (ok (new_run id policy now), runs ++ new_run id policy now ∷ [])

abbrev pub selected : Option String → String → Bool
selected none value = true
selected (some wanted) value = value == wanted

-- `get(run_id, project_id=…, app_id=…)`
unfoldable pub get_run : String → Option String → Option String → List Run → Result Run
get_run id project_id app_id runs =
    elim (find_row
      (λ run. run_has_id id run && selected project_id run.project_id && selected app_id run.app_id)
      runs) [ none ↦ err (key_error id) | some run ↦ ok run ]

-- The row of that id is read, changed by `f` and written.
unfoldable pub change_run : String → (Run → Run) → Action (List Run) Run
change_run id f runs = elim (find_row (run_has_id id) runs) [
  | none ↦ (err (key_error id), runs)
  | some run ↦ (ok (f run), update_rows (run_has_id id) f runs)
]

abbrev pub or_else : Option ℕ → ℕ → Option ℕ
or_else none n = some n
or_else (some m) n = some m

abbrev pub start : ℕ → Run → Run
start scan_cutoff run = record run {
  status = running;
  scan_cutoff = some scan_cutoff;
  started_at = or_else run.started_at scan_cutoff;
  updated_at = scan_cutoff;
}

unfoldable pub mark_running : String → ℕ → Action (List Run) Run
mark_running id scan_cutoff = change_run id (start scan_cutoff)

abbrev pub succeed_run : Fields → ℕ → Run → Run
succeed_run counts completed_at run = record run {
  status = succeeded;
  counts_json = dumps (object counts);
  error_code = none;
  error_json = empty_object;
  completed_at = some completed_at;
  updated_at = completed_at;
}

unfoldable pub mark_run_succeeded : String → Fields → ℕ → Action (List Run) Run
mark_run_succeeded id counts completed_at = change_run id (succeed_run counts completed_at)

abbrev pub fail_run : String → Fields → ℕ → Run → Run
fail_run error_code error completed_at run = record run {
  status = failed;
  error_code = some error_code;
  error_json = dumps (object error);
  completed_at = some completed_at;
  updated_at = completed_at;
}

unfoldable pub mark_run_failed : String → String → Fields → ℕ → Action (List Run) Run
mark_run_failed id error_code error completed_at =
    change_run id (fail_run error_code error completed_at)
