-- ===== src/Consolidation/Proposals.antt =====
-- `ConsolidationProposalRepository`.
pub mod Totals
pub mod Sources
pub mod Pages
use mem0_platform_sidecar.Prelude.{
  ℕ, String, Bool, true, false, ◌&&◌, ◌||◌, Option, none, some, List, [], ◌∷◌, ◌++◌, any, take,
  drop, ltb, if◌then◌else◌, ◌==◌, ◌+◌,
}
use mem0_platform_sidecar.Prelude.Text.{str_leb, then_leb}
use mem0_platform_sidecar.Prelude.Tables.{find_row, rows_where, update_rows, count_rows}
use mem0_platform_sidecar.Prelude.Order.{sort_by}
use mem0_platform_sidecar.Prelude.Result.{
  value_error, key_error, integrity_error, Result, ok, err, Action,
}
use mem0_platform_sidecar.Json.{
  ℤ, pos, negsuc, Json, null, boolean, int, float, text, array, object, Items, nil, cons, Fields,
  end, field, Column, dumps, empty_object,
}
use mem0_platform_sidecar.Intents.Targets.{distinct}
use mem0_platform_sidecar.Consolidation.Rows.{Run, Proposal, in_scope}

-- The arguments of `create`, without its run.
pub record Draft : Type 0 where
  pub proposal_key : String
  pub kind : String
  pub source_ids : List String
  pub canonical_id : Option String
  pub score : Option ℕ
  pub evidence : Fields
  pub status : String

abbrev pub items : List String → Items
items [] = nil
items (id ∷ ids) = cons (text id) (items ids)

abbrev pub new_proposal : String → ℕ → Run → Draft → Proposal
new_proposal id now run draft = record {
  id = id;
  run_id = run.id;
  project_id = run.project_id;
  app_id = run.app_id;
  proposal_key = draft.proposal_key;
  kind = draft.kind;
  status = draft.status;
  source_ids_json = dumps (array (items draft.source_ids));
  canonical_memory_id = draft.canonical_id;
  score = draft.score;
  evidence_json = dumps (object draft.evidence);
  expected_hashes_json = empty_object;
  canonical_content_hash = none;
  export_job_id = none;
  shadow_attempt_id = none;
  shadow_attempt_expires_at = none;
  not_before = none;
  created_at = now;
  updated_at = now;
  applied_at = none;
}

abbrev pub proposal_has_id : String → Proposal → Bool
proposal_has_id id proposal = proposal.id == id

abbrev pub of_run : String → Proposal → Bool
of_run run_id proposal = proposal.run_id == run_id

abbrev pub has_key : String → String → Proposal → Bool
has_key run_id proposal_key proposal =
    proposal.run_id == run_id && proposal.proposal_key == proposal_key

-- `create`, with the fresh id of a new row
unfoldable pub create_proposal : String → ℕ → Run → Draft → Action (List Proposal) Proposal
create_proposal id now run draft rows = elim (find_row (has_key run.id draft.proposal_key) rows) [
  | some existing ↦ (ok existing, rows)
  | none ↦
      if any (proposal_has_id id) rows
      then (err integrity_error, rows)
      else (ok (new_proposal id now run draft), rows ++ new_proposal id now run draft ∷ [])
]

unfoldable pub get_proposal : String → List Proposal → Result Proposal
get_proposal id rows = elim (find_row (proposal_has_id id) rows) [
  | none ↦ err (key_error id)
  | some proposal ↦ ok proposal
]

-- The texts of a list, if each of them is a text and none is empty.
unfoldable pub full_texts : Items → Option (List String)
full_texts nil = some []
full_texts (cons (text item) rest) = elim (full_texts rest) [
  | none ↦ none
  | some more ↦ if item == "" then none else some (item ∷ more)
]
full_texts (cons item rest) = none

abbrev pub invalid_source_ids : String
invalid_source_ids = "stored proposal source IDs are invalid"

abbrev distinct_ids : Option (List String) → Result (List String)
distinct_ids none = err (value_error invalid_source_ids)
distinct_ids (some []) = err (value_error invalid_source_ids)
distinct_ids (some (id ∷ ids)) = ok (distinct (id ∷ ids))

-- `source_ids` of a proposal, by its column
unfoldable pub source_ids : Column → Result (List String)
source_ids none = err (value_error invalid_source_ids)
source_ids (some (array ids)) = distinct_ids (full_texts ids)
source_ids (some _) = err (value_error invalid_source_ids)

unfoldable pub all_texts : Fields → Bool
all_texts end = true
all_texts (field key (text value) rest) = all_texts rest
all_texts (field key value rest) = false

abbrev pub invalid_hashes : String
invalid_hashes = "stored proposal hashes are invalid"

-- `expected_hashes` of a proposal, by its column
unfoldable pub expected_hashes : Column → Result Fields
expected_hashes none = err (value_error invalid_hashes)
expected_hashes (some (object fields)) =
    if all_texts fields then ok fields else err (value_error invalid_hashes)
expected_hashes (some _) = err (value_error invalid_hashes)

abbrev pub with_status : String → ℕ → Proposal → Proposal
with_status status now proposal = record proposal { status = status; updated_at = now }

unfoldable pub set_status : Proposal → String → ℕ → Action (List Proposal) Proposal
set_status proposal status now rows = (
  ok (with_status status now proposal),
  update_rows (proposal_has_id proposal.id) (with_status status now) rows,
)

unfoldable pub oldest_before : Proposal → Proposal → Bool
oldest_before a b = then_leb a.created_at b.created_at (str_leb a.id b.id)

-- The proposals that `list_for_run` pages through.
unfoldable pub listed : String → String → String → List Proposal → List Proposal
listed project_id app_id run_id rows = sort_by oldest_before (
    rows_where (λ row. in_scope project_id app_id row.project_id row.app_id && of_run run_id row)
      rows)

unfoldable pub list_for_run :
    String → String → String → ℤ → ℤ → List Proposal → Result (List Proposal)
list_for_run project_id app_id run_id (pos offset) (pos limit) rows =
    if ltb limit 1 || ltb 100 limit
    then err (value_error "proposal page is invalid")
    else ok (take limit (drop offset (listed project_id app_id run_id rows)))
list_for_run project_id app_id run_id _ _ rows = err (value_error "proposal page is invalid")

unfoldable pub list_actionable_for_run : String → List Proposal → List Proposal
list_actionable_for_run run_id rows =
    take 1000 (
      sort_by oldest_before (rows_where (λ row. of_run run_id row && row.status == "PENDING") rows))

unfoldable pub count_for_run : String → List Proposal → ℕ
count_for_run run_id rows = count_rows (of_run run_id) rows

abbrev pub Counts : Type 0
Counts = List (String × ℕ)

unfoldable pub count_one : String → Counts → Counts
count_one key [] = (key, 1) ∷ []
count_one key ((k, n) ∷ rest) =
    let more = count_one key rest in if k == key then (k, n + 1) ∷ rest else (k, n) ∷ more

-- SELECT column, count(*) … GROUP BY column
unfoldable pub counts_by : (Proposal → String) → List Proposal → Counts
counts_by column [] = []
counts_by column (row ∷ rows) = count_one (column row) (counts_by column rows)

abbrev pub key_before : String × ℕ → String × ℕ → Bool
key_before a b = str_leb a.0 b.0

unfoldable pub total : Counts → ℕ
total [] = 0
total ((key, n) ∷ rest) = n + total rest

pub record Summary : Type 0 where
  pub by_kind : Counts
  pub by_status : Counts
  pub all_kinds : ℕ  -- the key `total`

unfoldable pub summary_for_run : String → List Proposal → Summary
summary_for_run run_id rows =
    let by_kind = counts_by (λ row. row.kind) (rows_where (of_run run_id) rows) in
    record {
      by_kind = sort_by key_before by_kind;
      by_status =
          sort_by key_before (counts_by (λ row. row.status) (rows_where (of_run run_id) rows));
      all_kinds = total by_kind;
    }

unfoldable pub counts_for_scope : String → String → List Proposal → Counts
counts_for_scope project_id app_id rows =
    counts_by (λ row. row.status)
      (rows_where (λ row. in_scope project_id app_id row.project_id row.app_id) rows)
