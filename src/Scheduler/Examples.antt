-- ===== src/Scheduler/Examples.antt =====
-- The theorems about the scheduler at concrete tables.
use mem0_platform_sidecar.Prelude.{ℕ, ◌≡◌, refl, true, none, [], ◌∷◌, arith}
use mem0_platform_sidecar.Prelude.Tables.{find_row, rows_where, count_rows, update_rows}
use mem0_platform_sidecar.Prelude.Order.{sort_by, insert, least}
use mem0_platform_sidecar.Prelude.Text.{str_leb}
use mem0_platform_sidecar.Prelude.Result.{ok, err, value_error}
use mem0_platform_sidecar.Prelude.Fallible.{◌>>=◌, raise_if}
use mem0_platform_sidecar.Json.{pos, int, boolean, object, dumps, Fields, end, field, get}
use mem0_platform_sidecar.Jobs.{enqueue, is_duplicate, find_by_dedupe}
use mem0_platform_sidecar.Policy.Values.{
  observe, default_retention, unknown_keys, normalize_type_key, bounded_int, rule_days, rule_action,
  retention_rule, out_of_range, threshold, default_threshold,
}
use mem0_platform_sidecar.Policy.Parse.{
  Spec, parse_enabled, parse_mode, action_names, parse_safe_actions, assign, override,
  parse_retention, int_field, from_mapping,
}
use mem0_platform_sidecar.Consolidation.Rows.{PolicyRow}
use mem0_platform_sidecar.Consolidation.Policies.{list_enabled, policy_before, spec_of}
use mem0_platform_sidecar.Consolidation.Runs.{active, create_run, new_run, last_succeeded, last}
use mem0_platform_sidecar.Memories.Examples.{note}
use mem0_platform_sidecar.Memories.Anchors.{list_dirty_anchors, is_dirty, anchor_before}
use mem0_platform_sidecar.Scheduler.{
  Tables, Outside, bridge_blocked, lock_for_mutation, start_scan, enqueue_locked, enqueue_spec,
  enqueue_scope, enqueue_scopes, enqueue_due_scopes,
}
use mem0_platform_sidecar.Scheduler.Runs.{HasOneActive, enqueue_due_scopes-HasOneActive}
use mem0_platform_sidecar.Scheduler.Scans.{IsScan, enqueue_scope-IsScan}
use mem0_platform_sidecar.Scheduler.Limits.{enqueue_due_scopes-limit}

-- What a run of the scheduler unfolds.
program : Unit {0}
unfolding from_mapping parse_enabled parse_mode action_names parse_safe_actions assign override
    parse_retention int_field unknown_keys normalize_type_key bounded_int rule_days rule_action
    retention_rule out_of_range threshold ◌>>=◌ raise_if sort_by insert str_leb get list_enabled
    policy_before spec_of active create_run last_succeeded last least list_dirty_anchors is_dirty
    anchor_before bridge_blocked lock_for_mutation start_scan enqueue_locked enqueue_spec
    enqueue_scope enqueue_scopes enqueue_due_scopes find_row rows_where update_rows count_rows
    enqueue is_duplicate find_by_dedupe
program = tt

abbrev outside : Outside
outside = record {
  texts = record {
    strip_upper = λ value. value;
    nfkc_strip_lower = λ value. value;
    underscored = λ value. value;
  };
  decimal = λ n. "window";
  run_id = λ id. id;
  job_id = λ id. id;
  bridge_routing_ready = λ project now. ok true;
  bridge_routing_required = true;
}

-- A policy that asks for that many new memories.
abbrev asks : ℕ → Fields
asks n = field "enabled" (boolean true) (field "min_new_memories" (int (pos n)) end)

abbrev policy : ℕ → PolicyRow
policy n = record {
  id = "c1";
  project_id = "p";
  app_id = "a";
  enabled = 1;
  mode = observe;
  policy_json = dumps (object (asks n));
  version = 1;
  created_at = 1;
  updated_at = 1;
}

abbrev tables : ℕ → Tables
tables n = record {
  projects = "p" ∷ [];
  anchors = note ∷ [];
  policies = policy n ∷ [];
  runs = [];
  jobs = [];
}

abbrev spec : ℕ → Spec
spec n = record {
  enabled = true;
  mode = observe;
  max_anchors_per_run = 100;
  max_proposals_per_run = 200;
  shadow_grace_days = 7;
  min_new_memories = n;
  scan_interval_seconds = 86400;
  near_duplicate_threshold = default_threshold;
  policy_version = 1;
  safe_actions = record { exact_duplicate = true; retention_expired = true };
  retention = default_retention;
}

-- One new memory is enough for a scan.
scan_enqueued : (enqueue_due_scopes outside 9 (tables 1)).0 ≡ ok 1
unfolding program
scan_enqueued = refl

run_created : (enqueue_due_scopes outside 9 (tables 1)).1.runs ≡ new_run "c1" (policy 1) 9 ∷ []
unfolding program
run_created = refl

no_runs : HasOneActive []
unfolding program
no_runs project_id app_id = omega arith

enqueue_due_scopes-HasOneActive_example :
    HasOneActive (enqueue_due_scopes outside 9 (tables 1)).1.runs
enqueue_due_scopes-HasOneActive_example =
    enqueue_due_scopes-HasOneActive outside 9 (tables 1) no_runs

enabled_policy : list_enabled (policy 1001 ∷ []) ≡ policy 1001 ∷ []
unfolding program
enabled_policy = refl

policy_parses : spec_of outside.texts (dumps (object (asks 1001))) ≡ ok (spec 1001)
unfolding program
policy_parses = refl

none-active : active "p" "a" [] ≡ none
unfolding program
none-active = refl

enqueue_due_scopes-limit_example :
    enqueue_due_scopes outside 9 (tables 1001)
    ≡ (err (value_error "dirty anchor limit must be between 1 and 1000"), tables 1001)
enqueue_due_scopes-limit_example =
    enqueue_due_scopes-limit outside 9 (tables 1001) (policy 1001) [] (spec 1001) enabled_policy
      policy_parses none-active (omega arith)

scope_scanned : (enqueue_scope outside 9 (policy 1) (tables 1)).0 ≡ ok true
unfolding program
scope_scanned = refl

enqueue_scope-IsScan_example :
    IsScan outside 9 (policy 1) (tables 1) (enqueue_scope outside 9 (policy 1) (tables 1)).1
enqueue_scope-IsScan_example = enqueue_scope-IsScan outside 9 (policy 1) (tables 1) scope_scanned
