-- ===== src/Analysis/Drafts.antt =====
-- The drafts of proposals, and what the analysis asks of Python's libraries.
use mem0_platform_sidecar.Prelude.{ℕ, String, Bool, Option, List}
use mem0_platform_sidecar.Prelude.Order.{sort_by}
use mem0_platform_sidecar.Prelude.Text.{str_leb}
use mem0_platform_sidecar.Json.{pos, Json, int, text, array, object, Fields, end, field}
use mem0_platform_sidecar.Consolidation.Proposals.{items}

-- What a pattern finds in a text, and the text in lower case with `<value>` for what it finds.
pub record Pattern : Type 0 where
  pub findall : String → List String
  pub masked : String → String

-- Functions of unicodedata, re, hashlib and str; nothing is assumed of them.
pub record Lexicon : Type 0 where
  pub tokens : String → List String  -- `_tokens`
  pub dates : Pattern
  pub versions : Pattern
  pub strip_lower : String → String
  pub prefix : String → String  -- `text[:12]`
  pub digest : Json → String  -- the SHA-256 of the JSON text
  pub is_surer : Option Json → Option Json → Bool  -- the first `_confidence` is greater

pub record ProposalDraft : Type 0 where
  pub kind : String
  pub source_ids : List String
  pub canonical_id : Option String
  pub score : Option ℕ
  pub evidence : Fields
  pub proposal_key : String

abbrev pub sorted_texts : List String → List String
sorted_texts = sort_by str_leb

-- `_proposal_key`
unfoldable pub draft_key : Lexicon → String → String → String → List String → ℕ → String
draft_key lexicon project_id app_id kind source_ids policy_version = lexicon.digest (
    object (
      field "app_id" (text app_id) (
        field "kind" (text kind) (
          field "policy_version" (int (pos policy_version)) (
            field "project_id" (text project_id)
              (field "source_ids" (array (items (sorted_texts source_ids))) end))))))
