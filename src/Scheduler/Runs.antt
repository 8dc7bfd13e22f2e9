-- ===== src/Scheduler/Runs.antt =====
-- The runs of a scope, over the calls of the scheduler.
use mem0_platform_sidecar.Prelude.{
  ℕ, ◌/◌, ◌<>◌, ◌≤◌, String, ◌≡◌, refl, sym, subst, Bool, true, false, not, ◌&&◌, none, some, List,
  [], ◌∷◌, arith, any, ltb, length, is_some, eq_iff, Bool-cases, Option-cases, inl, inr,
}
use mem0_platform_sidecar.Prelude.Tables.{find_row, update_rows, count_rows, count_rows-append}
use mem0_platform_sidecar.Prelude.Result.{Result, ok, err, continue}
use mem0_platform_sidecar.Prelude.Fallible.{Result-cases}
use mem0_platform_sidecar.Json.{Fields, text, single}
use mem0_platform_sidecar.Policy.Parse.{Spec}
use mem0_platform_sidecar.Jobs.{Job, find_by_dedupe}
use mem0_platform_sidecar.Consolidation.Rows.{PolicyRow, Run, in_scope}
use mem0_platform_sidecar.Consolidation.Policies.{list_enabled, spec_of}
use mem0_platform_sidecar.Consolidation.Runs.{
  active, is_active_in, run_has_id, last, last_succeeded, new_run, create_run, change_run, fail_run,
  mark_run_failed,
}
use mem0_platform_sidecar.Memories.Anchors.{list_dirty_anchors}
use mem0_platform_sidecar.Scheduler.{
  Tables, Outside, reported, fail_blocked, report_blocked, enqueued, enqueue_run, start_scan,
  already_reported, bridge_blocked, lock_for_mutation, interval_due, enqueue_locked, enqueue_spec,
  enqueue_scope, counted, enqueue_scopes, enqueue_due_scopes,
}

-- No scope has two active runs.
abbrev pub HasOneActive : List Run → Type 0
HasOneActive runs =
    (project_id app_id : String) → count_rows (is_active_in project_id app_id) runs ≤ 1

count_rows-find_row-none :
    {A : Type 0} (p : A → Bool) (xs : List A) → find_row p xs ≡ none → count_rows p xs ≡ 0
unfolding find_row count_rows
count_rows-find_row-none p [] h = refl
count_rows-find_row-none p (x ∷ xs) h = elim (Bool-cases (p x)) [
  | inl e ↦ let h' : some x ≡ none = rw e at h in cc
  | inr e ↦ rw e (count_rows-find_row-none p xs (rw e at h))
]

-- A write that leaves no new row in a class leaves no more rows in it.
count_rows-update_rows_le :
    {A : Type 0} (p q : A → Bool) (f : A → A) (xs : List A)
    → ((a : A) → p (f a) ≡ false)
    → count_rows p (update_rows q f xs) ≤ count_rows p xs
unfolding count_rows update_rows
count_rows-update_rows_le p q f [] h = omega arith
count_rows-update_rows_le p q f (x ∷ xs) h =
    let ih = count_rows-update_rows_le p q f xs h in
    elim (Bool-cases (q x)) [
      | inl e ↦
          rw (e, h x)
            (elim (Bool-cases (p x)) [ inl i ↦ rw i (omega (arith, ih)) | inr i ↦ rw i ih ])
      | inr e ↦
          rw e (elim (Bool-cases (p x)) [ inl i ↦ rw i (omega (arith, ih)) | inr i ↦ rw i ih ])
    ]

none-in_scope :
    (row_project row_app project_id app_id : String) (runs : List Run)
    → in_scope project_id app_id row_project row_app ≡ true
    → active row_project row_app runs ≡ none
    → count_rows (is_active_in project_id app_id) runs ≡ 0
unfolding active
none-in_scope row_project row_app project_id app_id runs i a =
    let p : row_project ≡ project_id = ground (arith, i, eq_iff row_project project_id) in
    let q : row_app ≡ app_id = ground (arith, i, eq_iff row_app app_id) in
    count_rows-find_row-none (is_active_in project_id app_id) runs (
      subst (λ x. find_row (is_active_in project_id x) runs ≡ none) q
        (subst (λ x. find_row (is_active_in x row_app) runs ≡ none) p a))

one_new :
    (project_id app_id : String) (run : Run)
    → count_rows (is_active_in project_id app_id) (run ∷ []) ≤ 1
unfolding count_rows
one_new project_id app_id run = elim (Bool-cases (is_active_in project_id app_id run)) [
  | inl e ↦ rw e (omega arith)
  | inr e ↦ rw e (omega arith)
]

none_new :
    (project_id app_id : String) (run : Run)
    → in_scope project_id app_id run.project_id run.app_id ≡ false
    → count_rows (is_active_in project_id app_id) (run ∷ []) ≡ 0
unfolding count_rows
none_new project_id app_id run i = rw i refl

-- A new run in a scope without an active one.
HasOneActive-create_run :
    (id : String) (policy : PolicyRow) (now : ℕ) (runs : List Run)
    → active policy.project_id policy.app_id runs ≡ none
    → HasOneActive runs
    → HasOneActive (create_run id policy now runs).1
unfolding create_run active
HasOneActive-create_run id policy now runs a h project_id app_id =
    elim (Bool-cases (any (run_has_id id) runs)) [
      | inl e ↦ rw (create_run, e) (h project_id app_id)
      | inr e ↦
          rw (create_run, e)
            (let c =
                count_rows-append (is_active_in project_id app_id) runs
                  (new_run id policy now ∷ []) in
              elim (Bool-cases (in_scope project_id app_id policy.project_id policy.app_id)) [
                | inl i ↦
                    let z =
                      none-in_scope policy.project_id policy.app_id project_id app_id runs i a in
                    let one = one_new project_id app_id (new_run id policy now) in
                    omega (arith, c, z, one)
                | inr i ↦
                    let z = none_new project_id app_id (new_run id policy now) i in
                    omega (arith, c, z, h project_id app_id)
              ])
    ]

fail_run_inactive :
    (project_id app_id code : String) (error : Fields) (now : ℕ) (run : Run)
    → is_active_in project_id app_id (fail_run code error now run) ≡ false
fail_run_inactive project_id app_id code error now run = ground arith

HasOneActive-mark_run_failed :
    (id code : String) (error : Fields) (now : ℕ) (runs : List Run)
    → HasOneActive runs
    → HasOneActive (mark_run_failed id code error now runs).1
unfolding mark_run_failed change_run
HasOneActive-mark_run_failed id code error now runs h project_id app_id =
    elim (Option-cases (find_row (run_has_id id) runs)) [
      | inl e ↦ rw (change_run, e) (h project_id app_id)
      | inr (run, e) ↦
          rw (change_run, e)
            (let le =
                count_rows-update_rows_le (is_active_in project_id app_id) (run_has_id id)
                  (fail_run code error now) runs
                  (fail_run_inactive project_id app_id code error now) in
              omega (arith, le, h project_id app_id))
    ]

fail_blocked-HasOneActive :
    (now : ℕ) (s : Tables) (r : Result Run × List Run)
    → HasOneActive r.1
    → HasOneActive (fail_blocked now s r).1.runs
fail_blocked-HasOneActive now s (err e, runs) h = h
fail_blocked-HasOneActive now s (ok run, runs) h =
    let m =
      HasOneActive-mark_run_failed run.id "BRIDGE_ROUTING_REQUIRED"
        (single "error_type" (text "BridgeRoutingRequired")) now runs h in
    subst HasOneActive (sym (reported-runs s _)) m
  where
    reported-runs : (s : Tables) (r : Result Run × List Run) → (reported s r).1.runs ≡ r.1
    reported-runs s (err e, runs) = refl
    reported-runs s (ok run, runs) = refl

enqueued-runs : (s : Tables) (r : Result Job × List Job) → (enqueued s r).1.runs ≡ s.runs
enqueued-runs s (err e, jobs) = refl
enqueued-runs s (ok job, jobs) = refl

enqueue_run-runs :
    (outside : Outside) (now : ℕ) (policy : PolicyRow) (key : String) (s : Tables)
    (r : Result Run × List Run)
    → (enqueue_run outside now policy key s r).1.runs ≡ r.1
enqueue_run-runs outside now policy key s (err e, runs) = refl
enqueue_run-runs outside now policy key s (ok run, runs) =
    enqueued-runs (record s { runs = runs }) _

report_blocked-HasOneActive :
    (outside : Outside) (now : ℕ) (policy : PolicyRow) (spec : Spec) (s : Tables)
    → active policy.project_id policy.app_id s.runs ≡ none
    → HasOneActive s.runs
    → HasOneActive (report_blocked outside now policy spec s).1.runs
unfolding report_blocked
report_blocked-HasOneActive outside now policy spec s a h =
    let created = create_run (outside.run_id policy.id) policy now s.runs in
    elim (Bool-cases (
      already_reported (last policy.project_id policy.app_id s.runs) spec.scan_interval_seconds
        now)) [
          | inl e ↦ rw (report_blocked, e) h
          | inr e ↦
              rw (report_blocked, e)
                (fail_blocked-HasOneActive now s created
                  (HasOneActive-create_run _ policy now s.runs a h))
        ]

start_scan-HasOneActive :
    (outside : Outside) (now : ℕ) (policy : PolicyRow) (key : String) (s : Tables)
    → active policy.project_id policy.app_id s.runs ≡ none
    → HasOneActive s.runs
    → HasOneActive (start_scan outside now policy key s).1.runs
unfolding start_scan
start_scan-HasOneActive outside now policy key s a h =
    subst HasOneActive
      (sym (
        enqueue_run-runs outside now policy key s
          (create_run (outside.run_id policy.id) policy now s.runs)))
      (HasOneActive-create_run _ policy now s.runs a h)

enqueue_locked-HasOneActive :
    (outside : Outside) (now : ℕ) (policy : PolicyRow) (spec : Spec) (s : Tables)
    → HasOneActive s.runs
    → HasOneActive (enqueue_locked outside now policy spec s).1.runs
unfolding enqueue_locked
enqueue_locked-HasOneActive outside now policy spec s h =
    let key =
      policy.app_id <> ":" <> outside.decimal (now / 1000000 / spec.scan_interval_seconds) in
    elim (Option-cases (active policy.project_id policy.app_id s.runs)) [
      | inr (run, e) ↦ rw (enqueue_locked, e) h
      | inl a ↦
          elim (Bool-cases
            (is_some (find_by_dedupe policy.project_id "consolidation.scan" key s.jobs))) [
              | inl e ↦ rw (enqueue_locked, a, e) h
              | inr fresh ↦ elim (Result-cases (bridge_blocked outside now policy spec)) [
                | inr (e, b) ↦ rw (enqueue_locked, a, fresh, b) h
                | inl (true, b) ↦
                    rw (enqueue_locked, a, fresh, b)
                      (report_blocked-HasOneActive outside now policy spec s a h)
                | inl (false, b) ↦
                    rw (enqueue_locked, a, fresh, b)
                      (start_scan-HasOneActive outside now policy key s a h)
              ]
            ]
    ]

enqueue_spec-HasOneActive :
    (outside : Outside) (now : ℕ) (policy : PolicyRow) (spec : Spec) (s : Tables)
    → HasOneActive s.runs
    → HasOneActive (enqueue_spec outside now policy spec s).1.runs
unfolding enqueue_spec
enqueue_spec-HasOneActive outside now policy spec s h =
    let listed =
      list_dirty_anchors policy.project_id policy.app_id none spec.min_new_memories s.anchors in
    elim (Option-cases (active policy.project_id policy.app_id s.runs)) [
      | inr (run, e) ↦ rw (enqueue_spec, e) h
      | inl a ↦ elim (Result-cases listed) [
        | inr (e, l) ↦ rw (enqueue_spec, a, l) h
        | inl (dirty, l) ↦
            let few =
              ltb (length dirty) spec.min_new_memories
              && not (
                  interval_due (last_succeeded policy.project_id policy.app_id s.runs)
                    spec.scan_interval_seconds now) in
            elim (Bool-cases few) [
              | inl f ↦ rw (enqueue_spec, a, l, f) h
              | inr f ↦ elim (Result-cases (lock_for_mutation policy.project_id s.projects)) [
                | inr (e, k) ↦ rw (enqueue_spec, a, l, f, k) h
                | inl (locked, k) ↦
                    rw (enqueue_spec, a, l, f, k)
                      (enqueue_locked-HasOneActive outside now policy spec s h)
              ]
            ]
      ]
    ]

enqueue_scope-HasOneActive :
    (outside : Outside) (now : ℕ) (policy : PolicyRow) (s : Tables)
    → HasOneActive s.runs
    → HasOneActive (enqueue_scope outside now policy s).1.runs
unfolding enqueue_scope
enqueue_scope-HasOneActive outside now policy s h =
    elim (Result-cases (spec_of outside.texts policy.policy_json)) [
      | inr (e, p) ↦ rw (enqueue_scope, p) h
      | inl (spec, p) ↦
          rw (enqueue_scope, p) (enqueue_spec-HasOneActive outside now policy spec s h)
    ]

-- Whatever the scheduler enqueues, and where it raises, no scope has two active runs afterwards if none
-- had before.
pub enqueue_due_scopes-HasOneActive :
    (outside : Outside) (now : ℕ) (s : Tables)
    → HasOneActive s.runs
    → HasOneActive (enqueue_due_scopes outside now s).1.runs
unfolding enqueue_due_scopes enqueue_scopes
enqueue_due_scopes-HasOneActive outside now s h = all (list_enabled s.policies) 0 s h
  where
    next :
        (rest : List PolicyRow) (n : ℕ) (r : Result Bool × Tables)
        → ((n : ℕ) (s : Tables)
            → HasOneActive s.runs
            → HasOneActive (enqueue_scopes outside now rest n s).1.runs)
        → HasOneActive r.1.runs
        → HasOneActive
            (continue r.0 (λ more. enqueue_scopes outside now rest (counted n more)) r.1).1.runs
    next rest n (err e, s') ih k = k
    next rest n (ok more, s') ih k = ih (counted n more) s' k

    all :
        (policies : List PolicyRow) (n : ℕ) (s : Tables)
        → HasOneActive s.runs
        → HasOneActive (enqueue_scopes outside now policies n s).1.runs
    all [] n s h = h
    all (policy ∷ rest) n s h =
        next rest n (enqueue_scope outside now policy s) (all rest)
          (enqueue_scope-HasOneActive outside now policy s h)
