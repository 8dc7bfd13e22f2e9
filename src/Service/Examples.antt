-- ===== src/Service/Examples.antt =====
-- The theorems about the service at concrete tables: one proposal of two memories, from its approval
-- to a rollback or to the deletion.
pub mod Attempts
pub mod Endings
use mem0_platform_sidecar.Prelude.{
  ℕ, ◌+◌, String, ◌≡◌, refl, Bool, true, false, Option, none, some, List, [], ◌∷◌, ◌⊎◌, inl, inr,
  ◌↔◌, All, In, map, ltb, ◌==◌,
}
use mem0_platform_sidecar.Prelude.Order.{sort_by, insert}
use mem0_platform_sidecar.Prelude.Text.{str_leb, opt_eqb}
use mem0_platform_sidecar.Prelude.Tables.{find_row, rows_where, update_rows}
use mem0_platform_sidecar.Prelude.Result.{conflict_error, ok, err}
use mem0_platform_sidecar.Prelude.Fallible.{◌>>=◌, raise_if}
use mem0_platform_sidecar.Json.{
  Json, boolean, text, array, object, nil, cons, Fields, end, field, get, loads_object,
  empty_object, dumps,
}
use mem0_platform_sidecar.Intents.Targets.{distinct, without}
use mem0_platform_sidecar.Policy.Values.{
  Texts, manual, unknown_keys, normalize_type_key, bounded_int, rule_days, rule_action,
  retention_rule, out_of_range, threshold,
}
use mem0_platform_sidecar.Policy.Parse.{
  parse_enabled, parse_mode, action_names, parse_safe_actions, assign, override, parse_retention,
  int_field, from_mapping,
}
use mem0_platform_sidecar.Consolidation.Rows.{PolicyRow, Proposal}
use mem0_platform_sidecar.Consolidation.Policies.{get_policy, spec_of}
use mem0_platform_sidecar.Consolidation.Lineage.{get_source, create_lineage}
use mem0_platform_sidecar.Consolidation.Proposals.{
  get_proposal, source_ids, full_texts, all_texts, expected_hashes,
}
use mem0_platform_sidecar.Memories.Rows.{Memory, merged}
use mem0_platform_sidecar.Memories.Reads.{
  get_memory, is_among, in_reach, rows_by_chunks, list_memories_by_ids,
}
use mem0_platform_sidecar.Memories.ById.{list_memories_by_ids_lem}
use mem0_platform_sidecar.Memories.Examples.{note}
use mem0_platform_sidecar.Service.Rows.{Tables, Settings, Outcome, outcome, seconds}
use mem0_platform_sidecar.Service.Sources.{
  has_expected_hash, is_as_expected, checked, proposal_sources,
}
use mem0_platform_sidecar.Service.Upstream.{
  Server, found, missing, append_items, extract_memory_ids, memory_text, fingerprint,
  record_is_pinned, response_matches, upstream_sources_match, upstream_canonical_matches,
  verify_upstream_deleted,
}
use mem0_platform_sidecar.Service.Approve.{
  Approval, Approving, decided, semantic_allowed, safe_allowed, policy_of, approval_allowed,
  set_field, decide, fix_canonical_hash, approve_row, choose, seen_sources, with_sources,
  request_locked, request_approval,
}
use mem0_platform_sidecar.Service.Shadow.{
  Attempt, settled, started, shadowed_result, take_attempt, start, policy_and_hashes, start_allowed,
  begin_locked, locked, begin, owns, resume, give_up, Export, hide, shadow_export, shadow_sources,
  finish_owned, finish,
}
use mem0_platform_sidecar.Service.Rollback.{
  is_hidden_by, roll_back, rollback_locked, rollback_shadowed,
}
use mem0_platform_sidecar.Service.Finalize.{
  World, is_hidden_unchanged, deletable, delete_hidden, delete_source, record_deletion,
  finalize_source, finalize_sources, apply_all, finalize_allowed, finalize, finalize_shadowed,
}

-- What a run of the service unfolds.
pub program : Unit {0}
unfolding find_row rows_where update_rows sort_by insert str_leb ◌>>=◌ raise_if get loads_object
    distinct without unknown_keys normalize_type_key bounded_int rule_days rule_action
    retention_rule out_of_range threshold parse_enabled parse_mode action_names parse_safe_actions
    assign override parse_retention int_field from_mapping get_policy spec_of get_source
    create_lineage get_proposal source_ids full_texts all_texts expected_hashes get_memory
    rows_by_chunks list_memories_by_ids has_expected_hash is_as_expected checked proposal_sources
    append_items extract_memory_ids memory_text fingerprint record_is_pinned response_matches
    upstream_sources_match upstream_canonical_matches verify_upstream_deleted semantic_allowed
    safe_allowed policy_of approval_allowed set_field decide fix_canonical_hash approve_row choose
    seen_sources with_sources request_locked request_approval shadowed_result start
    policy_and_hashes start_allowed begin_locked locked begin owns resume give_up shadow_sources
    finish_owned finish is_hidden_by roll_back rollback_locked rollback_shadowed is_hidden_unchanged
    deletable delete_hidden delete_source record_deletion finalize_source finalize_sources apply_all
    finalize_allowed finalize finalize_shadowed
program = tt

abbrev pub texts : Texts
texts = record {
  strip_upper = λ value. value;
  nfkc_strip_lower = λ value. value;
  underscored = λ value. value;
}

abbrev pub settings : Settings
settings = record {
  texts = texts;
  is_empty_text = λ value. value == "";
  bridge_routing_ready = true;
  hard_delete_enabled = true;
  shadow_lease_seconds = 60;
}

abbrev pub policy : PolicyRow
policy = record {
  id = "c1";
  project_id = "p";
  app_id = "a";
  enabled = 1;
  mode = manual;
  policy_json = dumps (object (field "enabled" (boolean true) (field "mode" (text "MANUAL") end)));
  version = 1;
  created_at = 1;
  updated_at = 1;
}

abbrev pub twins : Proposal
twins = record {
  id = "x1";
  run_id = "r1";
  project_id = "p";
  app_id = "a";
  proposal_key = "k1";
  kind = "EXACT_DUPLICATE";
  status = "PENDING";
  source_ids_json = dumps (array (cons (text "m1") (cons (text "m2") nil)));
  canonical_memory_id = some "m1";
  score = none;
  evidence_json = empty_object;
  expected_hashes_json = empty_object;
  canonical_content_hash = none;
  export_job_id = none;
  shadow_attempt_id = none;
  shadow_attempt_expires_at = none;
  not_before = none;
  created_at = 5;
  updated_at = 5;
  applied_at = none;
}

abbrev pub copy : Memory
copy = record note { id = "n2"; mem0_memory_id = "m2"; content_hash = some "h2" }

abbrev pub hashes : Fields
hashes = field "m1" (text "h1") (field "m2" (text "h2") end)

abbrev pub tables : Tables
tables = record {
  projects = "p" ∷ [];
  policies = policy ∷ [];
  proposals = twins ∷ [];
  memories = note ∷ copy ∷ [];
  lineage = [];
}

abbrev pub approval : Approval
approval = record {
  expected_status = "PENDING";
  expected_source_hashes = hashes;
  canonical_id = none;
  replacement_text = none;
  replacement_length = 0;
}

list_memories_by_ids_lem_example :
    In copy
      (list_memories_by_ids "p" (some "a") ("m2" ∷ "m9" ∷ "m2" ∷ []) false false tables.memories)
    ↔ (In copy tables.memories
        × (is_among ("m2" ∷ "m9" ∷ "m2" ∷ []) "m2" ≡ true)
        × (in_reach "p" (some "a") false false copy ≡ true))
list_memories_by_ids_lem_example =
    list_memories_by_ids_lem "p" (some "a") ("m2" ∷ "m9" ∷ "m2" ∷ []) false false tables.memories
      copy

listed :
    list_memories_by_ids "p" (some "a") ("m2" ∷ "m9" ∷ "m2" ∷ []) false false tables.memories
    ≡ copy ∷ []
unfolding program
listed = refl

abbrev pub approved : Tables
approved = (request_approval settings approval 10 "x1" tables).1

pub is_approved :
    request_approval settings approval 10 "x1" tables
    ≡ (ok (decided (outcome "x1" "APPROVED")), approved)
unfolding program
is_approved = refl
