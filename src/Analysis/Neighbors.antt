-- ===== src/Analysis/Neighbors.antt =====
-- `classify_neighbor`.
use mem0_platform_sidecar.Prelude.{
  ℕ, ◌%◌, String, Bool, true, false, not, ◌&&◌, ◌||◌, Option, none, some, List, [], ◌∷◌, any,
  length, ltb, leb, if◌then◌else◌, ◌==◌,
}
use mem0_platform_sidecar.Prelude.Tables.{rows_where}
use mem0_platform_sidecar.Prelude.Text.{opt_eqb}
use mem0_platform_sidecar.Json.{
  pos, boolean, int, float, text, array, Items, nil, cons, Fields, end, field,
}
use mem0_platform_sidecar.Intents.Targets.{distinct}
use mem0_platform_sidecar.Policy.Values.{sign_bit}
use mem0_platform_sidecar.Consolidation.Proposals.{items}
use mem0_platform_sidecar.Memories.Reads.{is_among}
use mem0_platform_sidecar.Analysis.Drafts.{Pattern, Lexicon, ProposalDraft, sorted_texts, draft_key}

pub record Snapshot : Type 0 where
  pub project_id : String
  pub app_id : String
  pub memory_id : String
  pub user_id : Option String
  pub agent_id : Option String
  pub normalized_type : String
  pub content_hash : String
  pub content_length : ℕ
  pub body : String  -- the field `text`

-- `_NEGATION_TOKENS`
abbrev pub is_negation : String → Bool
is_negation = is_among ("not" ∷ "no" ∷ "never" ∷ "without" ∷ "false" ∷ [])

abbrev pub same_texts : List String → List String → Bool
same_texts [] [] = true
same_texts (x ∷ xs) (y ∷ ys) = x == y && same_texts xs ys
same_texts _ _ = false

abbrev pub is_nil : List String → Bool
is_nil [] = true
is_nil (x ∷ xs) = false

-- `_replacement_conflict`
unfoldable pub replacement_conflict : Pattern → String → String → Bool
replacement_conflict pattern left right =
    if is_nil (pattern.findall left)
      || is_nil (pattern.findall right)
      || same_texts (pattern.findall left) (pattern.findall right)
    then false
    else pattern.masked left == pattern.masked right

abbrev pub differ : Bool → Bool → Bool
differ a b = if a then not b else b

-- The base of a text: its tokens but for the negations.
unfoldable pub base : List String → List String
base tokens = rows_where (λ token. not (is_negation token)) tokens

unfoldable pub is_negation_flip : List String → List String → Bool
is_negation_flip left right =
    differ (any is_negation left) (any is_negation right) && same_texts (base left) (base right)

-- `_contradiction_reason`
unfoldable pub contradiction_reason : Lexicon → String → String → Option String
contradiction_reason lexicon left right =
    if is_negation_flip (lexicon.tokens left) (lexicon.tokens right)
    then some "negation_flip"
    else if replacement_conflict lexicon.dates left right
    then some "date_change"
    else if replacement_conflict lexicon.versions left right
    then some "version_change"
    else none

-- `math.isfinite`, of the bits of a double
abbrev pub is_finite : ℕ → Bool
is_finite bits = ltb (bits % sign_bit) 9218868437227405312

-- Two memories of one subject and type, whose contents differ.
unfoldable pub is_comparable : Snapshot → Snapshot → Bool
is_comparable anchor candidate =
    not (anchor.memory_id == candidate.memory_id)
    && anchor.project_id == candidate.project_id
    && anchor.app_id == candidate.app_id
    && opt_eqb anchor.user_id candidate.user_id
    && opt_eqb anchor.agent_id candidate.agent_id
    && anchor.normalized_type == candidate.normalized_type
    && not (anchor.content_hash == candidate.content_hash)

-- `len(set(left) & set(right))`
unfoldable pub shared_term_count : List String → List String → ℕ
shared_term_count left right = length (rows_where (is_among right) (distinct left))

-- The kind of the draft and its reason.
unfoldable pub kind_and_reason : Lexicon → Snapshot → Snapshot → Option (String × String)
kind_and_reason lexicon anchor candidate =
    elim (contradiction_reason lexicon anchor.body candidate.body) [
      | some reason ↦ some ("CONTRADICTION", reason)
      | none ↦
          if leb 2 (shared_term_count (lexicon.tokens anchor.body) (lexicon.tokens candidate.body))
          then some ("NEAR_DUPLICATE", "high_similarity_shared_terms")
          else none
    ]

abbrev pub sorted_pair : ℕ → ℕ → Items
sorted_pair a b =
    if leb a b
    then cons (int (pos a)) (cons (int (pos b)) nil)
    else cons (int (pos b)) (cons (int (pos a)) nil)

unfoldable pub neighbor_evidence : Lexicon → Snapshot → Snapshot → ℕ → String → Fields
neighbor_evidence lexicon anchor candidate score reason = field "score" (float score) (
    field "shared_term_count"
      (int (pos (shared_term_count (lexicon.tokens anchor.body) (lexicon.tokens candidate.body))))
      (field "normalized_type" (text anchor.normalized_type) (
        field "content_hash_prefixes"
          (array (
            items (
              sorted_texts (
                distinct (
                  lexicon.prefix anchor.content_hash
                  ∷ lexicon.prefix candidate.content_hash
                  ∷ [])))))
          (field "content_lengths"
            (array (sorted_pair anchor.content_length candidate.content_length))
            (field "reason_codes" (array (cons (text reason) nil))
              (field "safe_action" (boolean false) end))))))

unfoldable pub neighbor_draft :
    Lexicon → Snapshot → Snapshot → ℕ → ℕ → String → String → ProposalDraft
neighbor_draft lexicon anchor candidate score policy_version kind reason =
    let ids = sorted_texts (anchor.memory_id ∷ candidate.memory_id ∷ []) in
    record {
      kind = kind;
      source_ids = ids;
      canonical_id = none;
      score = some score;
      evidence = neighbor_evidence lexicon anchor candidate score reason;
      proposal_key = draft_key lexicon anchor.project_id anchor.app_id kind ids policy_version;
    }

unfoldable pub classify_neighbor : Lexicon → Snapshot → Snapshot → ℕ → ℕ → Option ProposalDraft
classify_neighbor lexicon anchor candidate score policy_version =
    if not (is_comparable anchor candidate && is_finite score)
    then none
    else elim (kind_and_reason lexicon anchor candidate) [
      | none ↦ none
      | some found ↦
          some (neighbor_draft lexicon anchor candidate score policy_version found.0 found.1)
    ]
