-- ===== src/Consolidation/Proposals/Totals.antt =====
-- The counts of proposals, against the rows that they count.
use mem0_platform_sidecar.Prelude.{
  ℕ, suc, ◌+◌, String, ◌≡◌, refl, ap, ◌∙◌, Bool, ◌&&◌, List, [], ◌∷◌, arith, length, if◌then◌else◌,
  ◌==◌, eq_iff, Bool-cases, inl, inr,
}
use mem0_platform_sidecar.Prelude.Tables.{rows_where, count_rows, length-rows_where}
use mem0_platform_sidecar.Prelude.Order.{sort_by, insert}
use mem0_platform_sidecar.Consolidation.Rows.{Proposal, in_scope}
use mem0_platform_sidecar.Consolidation.Proposals.{
  of_run, count_for_run, Counts, count_one, counts_by, key_before, total, summary_for_run,
  counts_for_scope,
}

-- The count that a report gives for a key, and 0 if it names none.
unfoldable pub count_of : String → Counts → ℕ
count_of key [] = 0
count_of key ((k, n) ∷ rest) = if k == key then n else count_of key rest

total-count_one :
    (key : String) (counts : Counts) → total (count_one key counts) ≡ suc (total counts)
unfolding total count_one
total-count_one key [] = refl
total-count_one key ((k, n) ∷ rest) = elim (Bool-cases (k == key)) [
  | inl e ↦ rw e (omega arith)
  | inr e ↦ rw e (omega (arith, total-count_one key rest))
]

total-counts_by :
    (column : Proposal → String) (rows : List Proposal)
    → total (counts_by column rows) ≡ length rows
unfolding total counts_by
total-counts_by column [] = refl
total-counts_by column (row ∷ rows) =
    total-count_one (column row) (counts_by column rows) ∙ ap suc (total-counts_by column rows)

total-insert :
    (key : String) (n : ℕ) (counts : Counts)
    → total (insert key_before (key, n) counts) ≡ n + total counts
unfolding total insert
total-insert key n [] = refl
total-insert key n ((k, m) ∷ rest) = elim (Bool-cases (key_before (key, n) (k, m))) [
  | inl e ↦ rw e
  | inr e ↦ rw e (omega (arith, total-insert key n rest))
]

total-sort_by : (counts : Counts) → total (sort_by key_before counts) ≡ total counts
unfolding total sort_by
total-sort_by [] = refl
total-sort_by ((key, n) ∷ rest) =
    total-insert key n (sort_by key_before rest) ∙ ap (λ m. n + m) (total-sort_by rest)

total_in_run :
    (run_id : String) (rows : List Proposal) (column : Proposal → String)
    → total (counts_by column (rows_where (of_run run_id) rows)) ≡ count_rows (of_run run_id) rows
total_in_run run_id rows column =
    total-counts_by column (rows_where (of_run run_id) rows)
    ∙ length-rows_where (of_run run_id) rows

-- The summary of a run counts each of its proposals once: the counts by kind, the counts by status
-- and the field `total` all come to the number of proposals of the run.
pub summary_for_run-total :
    (run_id : String) (rows : List Proposal)
    → (total (summary_for_run run_id rows).by_kind ≡ count_for_run run_id rows)
      × (total (summary_for_run run_id rows).by_status ≡ count_for_run run_id rows)
      × ((summary_for_run run_id rows).all_kinds ≡ count_for_run run_id rows)
unfolding summary_for_run count_for_run
summary_for_run-total run_id rows = (
  total-sort_by _ ∙ total_in_run run_id rows (λ row. row.kind),
  total-sort_by _ ∙ total_in_run run_id rows (λ row. row.status),
  total_in_run run_id rows (λ row. row.kind),
)

count_of-count_one :
    (wanted key : String) (counts : Counts)
    → count_of wanted (count_one key counts)
      ≡ (if key == wanted then suc (count_of wanted counts) else count_of wanted counts)
unfolding count_of count_one
count_of-count_one wanted key [] = ground arith
count_of-count_one wanted key ((k, n) ∷ rest) =
    ground
      (arith, eq_iff k key, eq_iff key wanted, eq_iff k wanted, count_of-count_one wanted key rest)

count_of-counts_by :
    (column : Proposal → String) (wanted : String) (p : Proposal → Bool) (rows : List Proposal)
    → count_of wanted (counts_by column (rows_where p rows))
      ≡ count_rows (λ row. p row && column row == wanted) rows
unfolding count_rows rows_where counts_by
count_of-counts_by column wanted p [] = unfold count_of in refl
count_of-counts_by column wanted p (row ∷ rows) =
    let ih = count_of-counts_by column wanted p rows in
    elim (Bool-cases (p row)) [
      | inl e ↦ rw e (
          count_of-count_one wanted (column row) (counts_by column (rows_where p rows))
          ∙ rw ih (ground arith))
      | inr e ↦ rw e ih
    ]

-- The counts of a scope give for each status the number of the scope's proposals in that status, and
-- 0 for a status that they do not name.
pub counts_for_scope_lem :
    (project_id app_id status : String) (rows : List Proposal)
    → count_of status (counts_for_scope project_id app_id rows)
      ≡ count_rows
          (λ row. in_scope project_id app_id row.project_id row.app_id && row.status == status)
          rows
unfolding counts_for_scope
counts_for_scope_lem project_id app_id status rows =
    count_of-counts_by (λ row. row.status) status
      (λ row. in_scope project_id app_id row.project_id row.app_id) rows
