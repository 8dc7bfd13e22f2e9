-- ===== src/Consolidation/Examples.antt =====
-- The theorems about proposals at concrete tables.
use mem0_platform_sidecar.Prelude.{
  In, All, ◌+◌, ◌≡◌, refl, ◌&&◌, ◌==◌, none, some, List, [], ◌∷◌, take, drop,
}
use mem0_platform_sidecar.Prelude.Tables.{find_row, rows_where, count_rows}
use mem0_platform_sidecar.Prelude.Order.{sort_by, insert}
use mem0_platform_sidecar.Prelude.Text.{str_leb}
use mem0_platform_sidecar.Prelude.Result.{ok, and_then}
use mem0_platform_sidecar.Json.{pos, end, empty_object}
use mem0_platform_sidecar.Intents.Targets.{distinct, without}
use mem0_platform_sidecar.Policy.Values.{manual}
use mem0_platform_sidecar.Consolidation.Rows.{Run, running, Proposal, in_scope}
use mem0_platform_sidecar.Consolidation.Proposals.{
  Draft, new_proposal, has_key, create_proposal, source_ids, full_texts, total, summary_for_run,
  count_for_run, counts_for_scope, counts_by, count_one, listed, oldest_before, list_for_run,
}
use mem0_platform_sidecar.Consolidation.Proposals.Totals.{
  count_of, summary_for_run-total, counts_for_scope_lem,
}
use mem0_platform_sidecar.Consolidation.Proposals.Sources.{
  source_ids-create_proposal, create_proposal_again,
}
use mem0_platform_sidecar.Consolidation.Proposals.Pages.{IsEarlier, list_for_run-pages}
use mem0_platform_sidecar.Consolidation.Lineage.{Applied, new_lineage, get_source, create_lineage}
use mem0_platform_sidecar.Consolidation.Lineage.Repeat.{create_lineage_again}

-- What a run of the code of proposals unfolds.
program : Unit {0}
unfolding create_proposal source_ids full_texts summary_for_run count_for_run counts_for_scope
    counts_by count_one listed oldest_before list_for_run find_row rows_where count_rows sort_by
    insert str_leb distinct without total count_of
program = tt

abbrev scan : Run
scan = record {
  id = "r1";
  project_id = "p";
  app_id = "a";
  policy_id = some "c1";
  policy_version = 1;
  mode = manual;
  status = running;
  scan_cutoff = some 5;
  counts_json = empty_object;
  error_code = none;
  error_json = empty_object;
  created_at = 1;
  updated_at = 5;
  started_at = some 5;
  completed_at = none;
}

abbrev twins : Draft
twins = record {
  proposal_key = "k1";
  kind = "EXACT_DUPLICATE";
  source_ids = "m1" ∷ "m2" ∷ "m1" ∷ [];
  canonical_id = some "m3";
  score = none;
  evidence = end;
  status = "PENDING";
}

abbrev old_note : Draft
old_note = record twins { proposal_key = "k2"; kind = "RETENTION_EXPIRED"; status = "OBSERVED" }

abbrev proposals : List Proposal
proposals = new_proposal "x2" 7 scan old_note ∷ new_proposal "x1" 6 scan twins ∷ []

unused_key : find_row (has_key "r1" "k1") (new_proposal "x2" 7 scan old_note ∷ []) ≡ none
unfolding program
unused_key = refl

created : (create_proposal "x1" 6 scan twins []).0 ≡ ok (new_proposal "x1" 6 scan twins)
unfolding program
created = refl

create_proposal_again_example :
    create_proposal "x9" 8 scan
      (record old_note { proposal_key = "k1" })
      (create_proposal "x1" 6 scan twins []).1
    ≡ (ok (new_proposal "x1" 6 scan twins), (create_proposal "x1" 6 scan twins []).1)
create_proposal_again_example =
    create_proposal_again "x1" "x9" 6 8 scan scan twins (record old_note { proposal_key = "k1" }) []
      (new_proposal "x1" 6 scan twins) created refl refl

source_ids-create_proposal_example :
    and_then
      (create_proposal "x1" 6 scan twins (new_proposal "x2" 7 scan old_note ∷ [])).0
      (λ proposal. source_ids proposal.source_ids_json)
    ≡ ok (distinct ("m1" ∷ "m2" ∷ "m1" ∷ []))
source_ids-create_proposal_example =
    source_ids-create_proposal "x1" 6 scan twins (new_proposal "x2" 7 scan old_note ∷ []) "m1"
      ("m2" ∷ "m1" ∷ []) refl (refl, (refl, (refl, tt))) unused_key refl

read_back : distinct ("m1" ∷ "m2" ∷ "m1" ∷ []) ≡ "m1" ∷ "m2" ∷ []
unfolding program
read_back = refl

summary_for_run-total_example :
    (total (summary_for_run "r1" proposals).by_kind ≡ count_for_run "r1" proposals)
    × (total (summary_for_run "r1" proposals).by_status ≡ count_for_run "r1" proposals)
    × ((summary_for_run "r1" proposals).all_kinds ≡ count_for_run "r1" proposals)
summary_for_run-total_example = summary_for_run-total "r1" proposals

two_in_run : count_for_run "r1" proposals ≡ 2
unfolding program
two_in_run = refl

counts_for_scope_lem_example :
    count_of "PENDING" (counts_for_scope "p" "a" proposals)
    ≡ count_rows
        (λ row. in_scope "p" "a" row.project_id row.app_id && row.status == "PENDING")
        proposals
counts_for_scope_lem_example = counts_for_scope_lem "p" "a" "PENDING" proposals

first_page :
    list_for_run "p" "a" "r1" (pos 0) (pos 1) proposals ≡ ok (new_proposal "x1" 6 scan twins ∷ [])
unfolding program
first_page = refl

second_page :
    list_for_run "p" "a" "r1" (pos (0 + 1)) (pos 5) proposals
    ≡ ok (new_proposal "x2" 7 scan old_note ∷ [])
unfolding program
second_page = refl

list_for_run-pages_example :
    (new_proposal "x1" 6 scan twins ∷ new_proposal "x2" 7 scan old_note ∷ []
      ≡ take (1 + 5) (drop 0 (listed "p" "a" "r1" proposals)))
    × All
        (λ p. All (λ q. IsEarlier p q) (new_proposal "x2" 7 scan old_note ∷ []))
        (new_proposal "x1" 6 scan twins ∷ [])
    × All
        (λ p. In p proposals × (p.project_id ≡ "p") × (p.app_id ≡ "a") × (p.run_id ≡ "r1"))
        (new_proposal "x1" 6 scan twins ∷ new_proposal "x2" 7 scan old_note ∷ [])
list_for_run-pages_example =
    list_for_run-pages "p" "a" "r1" 0 1 5 proposals (new_proposal "x1" 6 scan twins ∷ [])
      (new_proposal "x2" 7 scan old_note ∷ []) first_page second_page

abbrev merged : Applied
merged = record {
  source_memory_id = "m1";
  canonical_memory_id = some "m3";
  action = "SHADOW";
  source_content_hash = some "h";
  export_job_id = "e1";
  applied_at = 9;
}

abbrev duplicate : Proposal
duplicate = new_proposal "x1" 6 scan twins

lineage_created :
    (create_lineage "l1" 10 duplicate merged []).0 ≡ ok (new_lineage "l1" 10 duplicate merged)
unfolding create_lineage get_source find_row
lineage_created = refl

create_lineage_again_example :
    (get_source "x1" "m1" (create_lineage "l1" 10 duplicate merged []).1
      ≡ some (new_lineage "l1" 10 duplicate merged))
    × (create_lineage "l2" 11 duplicate
          (record merged { action = "DELETE" })
          (create_lineage "l1" 10 duplicate merged []).1
        ≡ (
          ok (new_lineage "l1" 10 duplicate merged),
          (create_lineage "l1" 10 duplicate merged []).1,
        ))
create_lineage_again_example =
    create_lineage_again "l1" "l2" 10 11 duplicate merged (record merged { action = "DELETE" }) []
      (new_lineage "l1" 10 duplicate merged) lineage_created refl
