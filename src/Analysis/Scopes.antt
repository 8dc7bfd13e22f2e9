-- ===== src/Analysis/Scopes.antt =====
-- `analyze_scope`. `now` and `created_at` are microseconds, so an age is compared with whole days.
use mem0_platform_sidecar.Prelude.{
  ℕ, ◌-◌, ◌+◌, ◌*◌, ◌/◌, String, Bool, true, false, not, ◌&&◌, Option, none, some, List, [], ◌∷◌,
  ◌++◌, map, take, length, leb, eqb, is_some, if◌then◌else◌, ◌==◌,
}
use mem0_platform_sidecar.Prelude.Tables.{rows_where}
use mem0_platform_sidecar.Prelude.Order.{least, sort_by}
use mem0_platform_sidecar.Prelude.Text.{str_leb, then_leb, opt_eqb}
use mem0_platform_sidecar.Json.{
  pos, Json, boolean, int, text, array, Fields, end, field, get, loads_object,
}
use mem0_platform_sidecar.Policy.Values.{RetentionAction, review, shadow, RetentionRule, Retention}
use mem0_platform_sidecar.Policy.Parse.{Spec, action_text}
use mem0_platform_sidecar.Consolidation.Proposals.{items}
use mem0_platform_sidecar.Memories.Rows.{Memory, is_active}
use mem0_platform_sidecar.Memories.Reads.{is_among, memory_id_before}
use mem0_platform_sidecar.Analysis.Drafts.{Lexicon, ProposalDraft, sorted_texts, draft_key}
use mem0_platform_sidecar.Analysis.Neighbors.{same_texts}

unfoldable pub is_eligible : String → String → Memory → Bool
is_eligible project_id app_id memory =
    memory.project_id == project_id
    && opt_eqb memory.app_id (some app_id)
    && not (is_some memory.deleted_at)
    && is_active memory.consolidation_state
    && eqb memory.pinned 0
    && is_some memory.content_hash

unfoldable pub eligible : String → String → List Memory → List Memory
eligible project_id app_id anchors =
    sort_by memory_id_before (rows_where (is_eligible project_id app_id) anchors)

-- `value or given`
abbrev pub or_given : String → Option String → String
or_given given none = given
or_given given (some value) = if value == "" then given else value

-- `_subject_identity`
abbrev pub subject_identity : Option String → Option String → List String
subject_identity (some user) (some agent) = "user_agent" ∷ user ∷ agent ∷ []
subject_identity (some user) none = "user" ∷ user ∷ "" ∷ []
subject_identity none (some agent) = "agent" ∷ agent ∷ "" ∷ []
subject_identity none none = "unscoped" ∷ "" ∷ "" ∷ []

-- The key of the group of a memory: its subject, its type and its hash.
unfoldable pub group_key : Memory → List String
group_key memory =
    subject_identity memory.user_id memory.agent_id
    ++ or_given "unknown" memory.normalized_type ∷ or_given "" memory.content_hash ∷ []

-- The order of tuples of texts.
abbrev pub texts_leb : List String → List String → Bool
texts_leb [] ys = true
texts_leb (x ∷ xs) [] = false
texts_leb (x ∷ xs) (y ∷ ys) = if x == y then texts_leb xs ys else str_leb x y

abbrev pub in_group : List String → Memory → Bool
in_group key memory = same_texts (group_key memory) key

unfoldable pub without_key : List String → List (List String) → List (List String)
without_key key [] = []
without_key key (k ∷ keys) =
    let rest = without_key key keys in if same_texts k key then rest else k ∷ rest

-- The keys of the groups, each once.
unfoldable pub group_keys : List Memory → List (List String)
group_keys [] = []
group_keys (memory ∷ rest) = group_key memory ∷ without_key (group_key memory) (group_keys rest)

-- `_AUTO_SOURCES`
abbrev pub auto_number : Lexicon → Memory → ℕ
auto_number lexicon memory =
    if is_among ("auto" ∷ "auto_capture" ∷ "opencode" ∷ "periodic_capture" ∷ [])
      (lexicon.strip_lower (or_given "" memory.source))
    then 1
    else 0

abbrev pub confidence : Memory → Option Json
confidence memory = get "confidence" (loads_object memory.metadata_projection_json)

abbrev pub number_or_zero : Option ℕ → ℕ
number_or_zero none = 0
number_or_zero (some n) = n

-- The order of `_canonical_sort_key`
unfoldable pub canonical_before : Lexicon → Memory → Memory → Bool
canonical_before lexicon a b = then_leb (auto_number lexicon a) (auto_number lexicon b) (
    if lexicon.is_surer (confidence a) (confidence b)
    then true
    else if lexicon.is_surer (confidence b) (confidence a)
    then false
    else then_leb (number_or_zero b.content_length) (number_or_zero a.content_length)
        (then_leb a.created_at b.created_at (memory_id_before a b)))

abbrev pub id_of_memory : Memory → String
id_of_memory memory = memory.mem0_memory_id

abbrev pub group_ids : List Memory → List String
group_ids group = sorted_texts (map id_of_memory group)

unfoldable pub exact_evidence : Lexicon → Spec → Memory → ℕ → Fields
exact_evidence lexicon policy memory n =
    field "hash_prefix" (text (lexicon.prefix (or_given "" memory.content_hash))) (
      field "normalized_type" (text (or_given "unknown" memory.normalized_type)) (
        field "subject_kind" (text (subject_kind (subject_identity memory.user_id memory.agent_id)))
          (field "count" (int (pos n)) (
            field "selection_reasons"
              (array (
                items (
                  "non_auto_source" ∷ "higher_confidence" ∷ "longer_content" ∷ "older_created_at"
                  ∷ "lexical_memory_id" ∷ [])))
              (field "safe_action" (boolean policy.safe_actions.exact_duplicate) end)))))
  where
    subject_kind : List String → String
    subject_kind [] = ""
    subject_kind (kind ∷ rest) = kind

unfoldable pub exact_draft : Lexicon → String → String → Spec → List Memory → Memory → ProposalDraft
exact_draft lexicon project_id app_id policy group canonical = record {
  kind = "EXACT_DUPLICATE";
  source_ids = group_ids group;
  canonical_id = some canonical.mem0_memory_id;
  score = none;
  evidence = exact_evidence lexicon policy canonical (length group);
  proposal_key =
      draft_key lexicon project_id app_id "EXACT_DUPLICATE" (group_ids group) policy.policy_version;
}

-- A group is proposed if it has 2 to 100 memories.
abbrev pub is_proposed : List Memory → Bool
is_proposed group = leb 2 (length group) && leb (length group) 100

abbrev pub draft_of_group :
    Lexicon → String → String → Spec → List Memory → Option Memory → List ProposalDraft
draft_of_group lexicon project_id app_id policy group none = []
draft_of_group lexicon project_id app_id policy group (some canonical) =
    exact_draft lexicon project_id app_id policy group canonical ∷ []

unfoldable pub exact_drafts :
    Lexicon → String → String → Spec → List Memory → List (List String) → List ProposalDraft
exact_drafts lexicon project_id app_id policy memories [] = []
exact_drafts lexicon project_id app_id policy memories (key ∷ keys) =
    let rest = exact_drafts lexicon project_id app_id policy memories keys in
    let group = rows_where (in_group key) memories in
    if is_proposed group
    then draft_of_group lexicon project_id app_id policy group
        (least (canonical_before lexicon) group)
      ++ rest
    else rest

-- The ids of the memories that stand in a proposed group.
unfoldable pub exact_member_ids : List Memory → List (List String) → List String
exact_member_ids memories [] = []
exact_member_ids memories (key ∷ keys) =
    let rest = exact_member_ids memories keys in
    let group = rows_where (in_group key) memories in
    if is_proposed group then group_ids group ++ rest else rest

-- `policy.retention.get(normalized_type)`
unfoldable pub retention_of : String → Retention → Option RetentionRule
retention_of name [] = none
retention_of name ((other, rule) ∷ rest) =
    if other == name then some rule else retention_of name rest

abbrev pub day : ℕ
day = 86400000000

abbrev pub shadows : RetentionAction → Bool
shadows shadow = true
shadows review = false

unfoldable pub expired_draft :
    Lexicon → String → String → Spec → ℕ → RetentionRule → ℕ → Memory → ProposalDraft
expired_draft lexicon project_id app_id policy now rule rule_days memory = record {
  kind = "RETENTION_EXPIRED";
  source_ids = memory.mem0_memory_id ∷ [];
  canonical_id = none;
  score = none;
  evidence = field "normalized_type" (text (or_given "unknown" memory.normalized_type)) (
      field "age_days" (int (pos ((now - memory.created_at) / day))) (
        field "retention_days" (int (pos rule_days)) (
          field "retention_action" (text (action_text rule.action)) (
            field "safe_action"
              (boolean (shadows rule.action && policy.safe_actions.retention_expired)) end))));
  proposal_key =
      draft_key lexicon project_id app_id "RETENTION_EXPIRED" (memory.mem0_memory_id ∷ [])
        policy.policy_version;
}

-- The rule that the memory has outlived, with its days.
unfoldable pub outlived : Spec → ℕ → Memory → Option (RetentionRule × ℕ)
outlived policy now memory =
    elim (retention_of (or_given "unknown" memory.normalized_type) policy.retention) [
      | none ↦ none
      | some rule ↦ elim rule.days [
        | none ↦ none
        | some n ↦ if leb now (memory.created_at + n * day) then none else some (rule, n)
      ]
    ]

unfoldable pub expired_drafts :
    Lexicon → String → String → Spec → ℕ → List String → List Memory → List ProposalDraft
expired_drafts lexicon project_id app_id policy now exact_ids [] = []
expired_drafts lexicon project_id app_id policy now exact_ids (memory ∷ memories) =
    let rest = expired_drafts lexicon project_id app_id policy now exact_ids memories in
    if is_among exact_ids memory.mem0_memory_id then rest else elim (outlived policy now memory) [
      | none ↦ rest
      | some found ↦
          expired_draft lexicon project_id app_id policy now found.0 found.1 memory ∷ rest
    ]

abbrev pub draft_before : ProposalDraft → ProposalDraft → Bool
draft_before a b =
    if a.kind == b.kind then texts_leb a.source_ids b.source_ids else str_leb a.kind b.kind

unfoldable pub all_drafts : Lexicon → String → String → Spec → ℕ → List Memory → List ProposalDraft
all_drafts lexicon project_id app_id policy now memories =
    let keys = sort_by texts_leb (group_keys memories) in
    exact_drafts lexicon project_id app_id policy memories keys
    ++ expired_drafts lexicon project_id app_id policy now (exact_member_ids memories keys) memories

unfoldable pub analyze_scope :
    Lexicon → String → String → Spec → List Memory → ℕ → List ProposalDraft
analyze_scope lexicon project_id app_id policy anchors now = take policy.max_proposals_per_run (
    sort_by draft_before
      (all_drafts lexicon project_id app_id policy now (eligible project_id app_id anchors)))
