-- ===== src/Consolidation/Proposals/Pages.antt =====
-- The pages of the proposals of a run.
use mem0_platform_sidecar.Prelude.{
  In, In-drop, eq_iff, ◌&&◌, ℕ, zero, suc, ◌+◌, String, ◌≡◌, refl, sym, ap, ◌∙◌, ◌||◌, List, [],
  ◌∷◌, ◌++◌, arith, take, drop, true, ◌<◌, ◌⊎◌, All, In-take, All-of_In, ltb, Bool-cases, inl, inr,
}
use mem0_platform_sidecar.Prelude.Text.{
  str_leb, then_leb_total, then_leb_trans, then_leb_cases, str_leb_total, str_leb_trans,
}
use mem0_platform_sidecar.Prelude.Order.{
  In-sort_by, IsOrder, IsSorted, sort_by-IsSorted, IsSorted-drop, IsSorted-split,
}
use mem0_platform_sidecar.Prelude.Tables.{In-rows_where}
use mem0_platform_sidecar.Prelude.Result.{Result, ok, err}
use mem0_platform_sidecar.Prelude.Fallible.{ok_inj}
use mem0_platform_sidecar.Json.{pos}
use mem0_platform_sidecar.Consolidation.Rows.{Proposal, in_scope}
use mem0_platform_sidecar.Consolidation.Proposals.{of_run, oldest_before, listed, list_for_run}

suc_add : (a b : ℕ) → suc (a + b) ≡ suc a + b
suc_add a b = omega arith

module _ {A : Type 0} where
  drop-nil : (n : ℕ) → drop {A = A} n [] ≡ []
  drop-nil zero = refl
  drop-nil (suc n) = refl

  take-nil : (n : ℕ) → take {A = A} n [] ≡ []
  take-nil zero = refl
  take-nil (suc n) = refl

  take_twice : (a b : ℕ) (xs : List A) → take a xs ++ take b (drop a xs) ≡ take (a + b) xs
  take_twice zero b xs = ap (λ n. take n xs) (omega arith)
  take_twice (suc a) b [] = take-nil b ∙ sym (take-nil (suc a + b))
  take_twice (suc a) b (x ∷ xs) =
      ap (λ ys. x ∷ ys) (take_twice a b xs) ∙ ap (λ n. take n (x ∷ xs)) (suc_add a b)

  drop-drop : (a o : ℕ) (xs : List A) → drop (o + a) xs ≡ drop a (drop o xs)
  drop-drop a zero xs = ap (λ n. drop n xs) (omega arith)
  drop-drop a (suc o) [] = drop-nil (suc o + a) ∙ sym (drop-nil a)
  drop-drop a (suc o) (x ∷ xs) = ap (λ n. drop n (x ∷ xs)) (sym (suc_add o a)) ∙ drop-drop a o xs

page_rows :
    (project_id app_id run_id : String) (offset limit : ℕ) (rows page : List Proposal)
    → list_for_run project_id app_id run_id (pos offset) (pos limit) rows ≡ ok page
    → take limit (drop offset (listed project_id app_id run_id rows)) ≡ page
unfolding list_for_run
page_rows project_id app_id run_id offset limit rows page h =
    elim (Bool-cases (ltb limit 1 || ltb 100 limit)) [
      | inl e ↦ let h' : ◌≡◌ {A = Result (List Proposal)} (err _) (ok page) = rw e at h in cc
      | inr e ↦ ok_inj (rw e at h)
    ]

-- The order of the pages: a proposal that was created earlier is earlier, and among those of one
-- instant, one whose id is not greater.
abbrev pub IsEarlier : Proposal → Proposal → Type 0
IsEarlier p q =
    (p.created_at < q.created_at) ⊎ ((p.created_at ≡ q.created_at) × (str_leb p.id q.id ≡ true))

oldest_before-IsOrder : IsOrder oldest_before
unfolding oldest_before
oldest_before-IsOrder = record {
  total = λ p q. then_leb_total p.created_at q.created_at _ _ (str_leb_total p.id q.id);
  trans = λ p q r.
      then_leb_trans p.created_at q.created_at r.created_at _ _ _ (str_leb_trans p.id q.id r.id);
}

oldest_before-IsEarlier : (p q : Proposal) → oldest_before p q ≡ true → IsEarlier p q
unfolding oldest_before
oldest_before-IsEarlier p q h = then_leb_cases p.created_at q.created_at _ h

listed-IsSorted :
    (project_id app_id run_id : String) (rows : List Proposal)
    → IsSorted oldest_before (listed project_id app_id run_id rows)
unfolding listed
listed-IsSorted project_id app_id run_id rows =
    sort_by-IsSorted oldest_before oldest_before-IsOrder _

listed-In :
    (project_id app_id run_id : String) (rows : List Proposal) (p : Proposal)
    → In p (listed project_id app_id run_id rows)
    → In p rows × (p.project_id ≡ project_id) × (p.app_id ≡ app_id) × (p.run_id ≡ run_id)
unfolding listed
listed-In project_id app_id run_id rows p m =
    let (i, t) =
      In-rows_where
        (λ row. in_scope project_id app_id row.project_id row.app_id && of_run run_id row) p rows
        (In-sort_by oldest_before p _ m) in
    (
      i,
      ground (arith, t, eq_iff p.project_id project_id),
      ground (arith, t, eq_iff p.app_id app_id),
      ground (arith, t, eq_iff p.run_id run_id),
    )

-- Two pages of a run, the second from where the first one ends, are together the listed proposals
-- from the offset of the first on, as many as the two limits allow, and each proposal of the first
-- page is earlier than each one of the second, by its time of creation and then by its id. Every
-- proposal on either page stands in the table, in that project, app and run.
pub list_for_run-pages :
    (project_id app_id run_id : String) (offset a b : ℕ) (rows first second : List Proposal)
    → list_for_run project_id app_id run_id (pos offset) (pos a) rows ≡ ok first
    → list_for_run project_id app_id run_id (pos (offset + a)) (pos b) rows ≡ ok second
    → (first ++ second ≡ take (a + b) (drop offset (listed project_id app_id run_id rows)))
      × All (λ p. All (λ q. IsEarlier p q) second) first
      × All
          (λ p. In p rows × (p.project_id ≡ project_id) × (p.app_id ≡ app_id) × (p.run_id ≡ run_id))
          (first ++ second)
list_for_run-pages project_id app_id run_id offset a b rows first second h i =
    let all = listed project_id app_id run_id rows in
    let one : take a (drop offset all) ≡ first =
      page_rows project_id app_id run_id offset a rows first h in
    let two : take b (drop a (drop offset all)) ≡ second =
      ap (take b) (sym (drop-drop a offset all))
      ∙ page_rows project_id app_id run_id (offset + a) b rows second i in
    let sorted =
      IsSorted-drop oldest_before offset all (listed-IsSorted project_id app_id run_id rows) in
    let together : first ++ second ≡ take (a + b) (drop offset all) =
      ap (λ page. page ++ second) (sym one)
      ∙ ap (λ page. take a (drop offset all) ++ page) (sym two)
      ∙ take_twice a b (drop offset all) in
    (
      together,
      All-of_In (λ p. All (λ q. IsEarlier p q) second) first
          (λ p m.
            All-of_In (λ q. IsEarlier p q) second
              (λ q n. oldest_before-IsEarlier p q (
                IsSorted-split oldest_before a (drop offset all) p q sorted (rw one m)
                  (In-take b q (drop a (drop offset all)) (rw two n))))),
      All-of_In _ (first ++ second) (λ p m.
          listed-In project_id app_id run_id rows p
            (In-drop offset p all (In-take (a + b) p (drop offset all) (rw together at m)))),
    )
