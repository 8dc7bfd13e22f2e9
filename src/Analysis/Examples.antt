-- ===== src/Analysis/Examples.antt =====
-- The theorems about the analysis at concrete memories.
use mem0_platform_sidecar.Prelude.{
  ◌≡◌, refl, true, false, none, some, List, [], ◌∷◌, inl, ◌⊎◌, if◌then◌else◌, ◌==◌, length,
}
use mem0_platform_sidecar.Prelude.Tables.{rows_where}
use mem0_platform_sidecar.Prelude.Order.{least, sort_by, insert}
use mem0_platform_sidecar.Prelude.Text.{str_leb}
use mem0_platform_sidecar.Json.{get, loads_object}
use mem0_platform_sidecar.Intents.Targets.{distinct, without}
use mem0_platform_sidecar.Policy.Values.{manual, default_retention, default_threshold, one}
use mem0_platform_sidecar.Policy.Parse.{Spec}
use mem0_platform_sidecar.Memories.Rows.{Memory}
use mem0_platform_sidecar.Memories.Examples.{note}
use mem0_platform_sidecar.Analysis.Drafts.{Pattern, Lexicon, ProposalDraft, draft_key}
use mem0_platform_sidecar.Analysis.Neighbors.{
  Snapshot, replacement_conflict, base, is_negation_flip, contradiction_reason, is_comparable,
  shared_term_count, kind_and_reason, neighbor_evidence, neighbor_draft, classify_neighbor,
}
use mem0_platform_sidecar.Analysis.Scopes.{
  is_eligible, eligible, group_key, without_key, group_keys, canonical_before, exact_evidence,
  exact_draft, exact_drafts, exact_member_ids, retention_of, expired_draft, outlived,
  expired_drafts, all_drafts, analyze_scope,
}
use mem0_platform_sidecar.Analysis.Sound.{IsExact, IsExpired, analyze_scope-IsSound}
use mem0_platform_sidecar.Analysis.Disjoint.{analyze_scope_disjoint}
use mem0_platform_sidecar.Analysis.Symmetry.{classify_neighbor-sym}

-- What a run of the analysis unfolds.
program : Unit {0}
unfolding rows_where least sort_by insert str_leb get loads_object distinct without draft_key
    replacement_conflict base is_negation_flip contradiction_reason is_comparable shared_term_count
    kind_and_reason neighbor_evidence neighbor_draft classify_neighbor is_eligible eligible
    group_key without_key group_keys canonical_before exact_evidence exact_draft exact_drafts
    exact_member_ids retention_of expired_draft outlived expired_drafts all_drafts analyze_scope
program = tt

abbrev no_pattern : Pattern
no_pattern = record { findall = λ value. []; masked = λ value. value }

-- It knows two texts.
abbrev lexicon : Lexicon
lexicon = record {
  tokens = λ value.
      if value == "It is on" then "it" ∷ "is" ∷ "on" ∷ [] else "it" ∷ "is" ∷ "not" ∷ "on" ∷ [];
  dates = no_pattern;
  versions = no_pattern;
  strip_lower = λ value. value;
  prefix = λ value. value;
  digest = λ value. "key";
  is_surer = λ a b. false;
}

abbrev policy : Spec
policy = record {
  enabled = true;
  mode = manual;
  max_anchors_per_run = 100;
  max_proposals_per_run = 1;
  shadow_grace_days = 7;
  min_new_memories = 20;
  scan_interval_seconds = 86400;
  near_duplicate_threshold = default_threshold;
  policy_version = 1;
  safe_actions = record { exact_duplicate = true; retention_expired = true };
  retention = default_retention;
}

-- The same content twice, and an old capture.
abbrev anchors : List Memory
anchors =
    record note {
      id = "n3";
      mem0_memory_id = "m3";
      content_hash = some "h3";
      normalized_type = some "auto_capture";
    }
    ∷ record note { id = "n2"; mem0_memory_id = "m2" }
    ∷ note
    ∷ []

abbrev draft : ProposalDraft
draft =
    exact_draft lexicon "p" "a" policy
      (note ∷ record note { id = "n2"; mem0_memory_id = "m2" } ∷ []) note

only_draft : analyze_scope lexicon "p" "a" policy anchors 2592000000005 ≡ draft ∷ []
unfolding program
only_draft = refl

two_drafts :
    length (
      analyze_scope lexicon "p" "a"
        (record policy { max_proposals_per_run = 9 })
        anchors
        2592000000005)
    ≡ 2
unfolding program
two_drafts = refl

analyze_scope_disjoint_example :
    ((draft.kind ≡ "EXACT_DUPLICATE") × (draft.kind ≡ "EXACT_DUPLICATE"))
    ⊎ ((draft.kind ≡ "RETENTION_EXPIRED") × (draft.kind ≡ "RETENTION_EXPIRED"))
unfolding program
analyze_scope_disjoint_example =
    analyze_scope_disjoint lexicon "p" "a" policy anchors 2592000000005 draft draft "m1" (inl refl)
      (inl refl) (inl refl) (inl refl)

analyze_scope-IsSound_example :
    IsExact lexicon "p" "a" policy anchors 2592000000005 draft
    ⊎ IsExpired lexicon "p" "a" policy anchors 2592000000005 draft
unfolding program
analyze_scope-IsSound_example =
    analyze_scope-IsSound lexicon "p" "a" policy anchors 2592000000005 draft (inl refl)

abbrev lamp : Snapshot
lamp = record {
  project_id = "p";
  app_id = "a";
  memory_id = "m1";
  user_id = some "u";
  agent_id = none;
  normalized_type = "note";
  content_hash = "h1";
  content_length = 8;
  body = "It is on";
}

abbrev dark_lamp : Snapshot
dark_lamp = record lamp {
  memory_id = "m2";
  content_hash = "h2";
  content_length = 12;
  body = "It is not on";
}

abbrev flip : ProposalDraft
flip = neighbor_draft lexicon lamp dark_lamp one 1 "CONTRADICTION" "negation_flip"

is_flip : classify_neighbor lexicon lamp dark_lamp one 1 ≡ some flip
unfolding program
is_flip = refl

is_contradiction : (flip.kind == "CONTRADICTION") ≡ true
unfolding program
is_contradiction = refl

classify_neighbor-sym_example :
    (back : ProposalDraft) × (classify_neighbor lexicon dark_lamp lamp one 1 ≡ some back)
    × (back.kind ≡ "CONTRADICTION")
classify_neighbor-sym_example =
    classify_neighbor-sym lexicon lamp dark_lamp one one 1 flip is_flip is_contradiction refl
