-- ===== src/Analysis/Sound.antt =====
-- What the drafts of `analyze_scope` and `classify_neighbor` rest on.
use mem0_platform_sidecar.Prelude.{
  ℕ, ◌+◌, ◌*◌, ◌≤◌, String, ◌≡◌, refl, sym, ap, subst, ◌∙◌, ◌⊎◌, inl, inr, true, false, some, List,
  [], ◌∷◌, ◌++◌, map, arith, and_true, In, In-append, In-take, length, leb, Bool-cases,
  Option-cases,
}
use mem0_platform_sidecar.Prelude.Tables.{rows_where, In-rows_where}
use mem0_platform_sidecar.Prelude.Order.{least, least-In, sort_by, In-sort_by, length-sort_by}
use mem0_platform_sidecar.Policy.Values.{RetentionRule}
use mem0_platform_sidecar.Policy.Parse.{Spec}
use mem0_platform_sidecar.Prelude.Text.{str_leb}
use mem0_platform_sidecar.Memories.Rows.{Memory}
use mem0_platform_sidecar.Memories.Reads.{is_among, memory_id_before}
use mem0_platform_sidecar.Analysis.Drafts.{Lexicon, ProposalDraft}
use mem0_platform_sidecar.Analysis.Scopes.{
  is_eligible, eligible, or_given, texts_leb, in_group, group_keys, canonical_before, id_of_memory,
  group_ids, exact_draft, is_proposed, draft_of_group, exact_drafts, exact_member_ids, retention_of,
  day, expired_draft, outlived, expired_drafts, draft_before, all_drafts, analyze_scope,
}

In-map :
    (id : String) (ms : List Memory)
    → In id (map id_of_memory ms)
    → (m : Memory) × In m ms × (m.mem0_memory_id ≡ id)
In-map id [] i = absurd i
In-map id (m ∷ ms) (inl e) = (m, inl refl, sym e)
In-map id (m ∷ ms) (inr i) = let (n, j, e) = In-map id ms i in (n, inr j, e)

length-map : (ms : List Memory) → length (map id_of_memory ms) ≡ length ms
length-map [] = refl
length-map (m ∷ ms) = omega (arith, length-map ms)

-- A memory of the table that is eligible.
abbrev pub IsAnchor : String → String → List Memory → Memory → Type 0
IsAnchor project_id app_id anchors memory =
    In memory anchors × (is_eligible project_id app_id memory ≡ true)

eligible-IsAnchor :
    (project_id app_id : String) (anchors : List Memory) (memory : Memory)
    → In memory (eligible project_id app_id anchors)
    → IsAnchor project_id app_id anchors memory
unfolding eligible
eligible-IsAnchor project_id app_id anchors memory i =
    In-rows_where (is_eligible project_id app_id) memory anchors
      (In-sort_by memory_id_before memory _ i)

module _ (lexicon : Lexicon) (project_id app_id : String) (policy : Spec) (anchors : List Memory)
    (now : ℕ) where
  abbrev Anchored : Memory → Type 0
  Anchored = IsAnchor project_id app_id anchors

  -- The sources are 2 to 100 memories of one group, and the canonical memory is one of the group.
  abbrev pub IsExact : ProposalDraft → Type 0
  IsExact draft =
      (key : List String) × (canonical : Memory) × (2 ≤ length draft.source_ids)
      × (length draft.source_ids ≤ 100)
      × (draft.canonical_id ≡ some canonical.mem0_memory_id)
      × (Anchored canonical × (in_group key canonical ≡ true))
      × ((id : String)
          → In id draft.source_ids
          → (memory : Memory) × Anchored memory
            × (in_group key memory ≡ true)
            × (memory.mem0_memory_id ≡ id))

  -- The source is one memory, older than the days that the policy keeps its type.
  abbrev pub IsExpired : ProposalDraft → Type 0
  IsExpired draft =
      (memory : Memory) × (rule : RetentionRule) × (n : ℕ) × (draft.source_ids
        ≡ memory.mem0_memory_id ∷ [])
      × Anchored memory
      × (retention_of (or_given "unknown" memory.normalized_type) policy.retention ≡ some rule)
      × (rule.days ≡ some n)
      × (leb now (memory.created_at + n * day) ≡ false)

  module _ (memories : List Memory) (all_anchored : (m : Memory) → In m memories → Anchored m) where
    group-IsExact :
        (key : List String) (canonical : Memory)
        → is_proposed (rows_where (in_group key) memories) ≡ true
        → In canonical (rows_where (in_group key) memories)
        → IsExact (
            exact_draft lexicon project_id app_id policy
              (rows_where (in_group key) memories)
              canonical)
    unfolding exact_draft
    group-IsExact key canonical proposed i =
        let group = rows_where (in_group key) memories in
        let n : length (group_ids group) ≡ length group =
          length-sort_by str_leb (map id_of_memory group) ∙ length-map group in
        let (low, high) = and_true (leb 2 (length group)) (leb (length group) 100) proposed in
        let low' : 2 ≤ length (group_ids group) = ground (arith, n, low) in
        let high' : length (group_ids group) ≤ 100 = ground (arith, n, high) in
        let (member, grouped) = In-rows_where (in_group key) canonical memories i in
        (
          key,
          canonical,
          low',
          high',
          refl,
          (all_anchored canonical member, grouped),
          λ id j. source id j,
        )
      where
        source :
            (id : String)
            → In id (group_ids (rows_where (in_group key) memories))
            → (memory : Memory) × Anchored memory
              × (in_group key memory ≡ true)
              × (memory.mem0_memory_id ≡ id)
        source id j =
            let (m, k, e) = In-map id _ (In-sort_by str_leb id _ j) in
            let (member, grouped) = In-rows_where (in_group key) m memories k in
            (m, all_anchored m member, grouped, e)

    exact_drafts-IsExact :
        (keys : List (List String)) (draft : ProposalDraft)
        → In draft (exact_drafts lexicon project_id app_id policy memories keys)
        → IsExact draft
    unfolding exact_drafts
    exact_drafts-IsExact [] draft i = absurd i
    exact_drafts-IsExact (key ∷ keys) draft i =
        let group = rows_where (in_group key) memories in
        let rest = exact_drafts lexicon project_id app_id policy memories keys in
        let more = exact_drafts-IsExact keys draft in
        elim (Bool-cases (is_proposed group)) [
          | inr e ↦ more (rw (exact_drafts, e) at i)
          | inl e ↦
              let j : In draft (
                  draft_of_group lexicon project_id app_id policy group
                    (least (canonical_before lexicon) group)
                  ++ rest) =
                rw (exact_drafts, e) at i in
              elim (In-append draft _ rest j) [
                | inr k ↦ more k
                | inl k ↦ elim (Option-cases (least (canonical_before lexicon) group)) [
                  | inl none_left ↦
                      absurd (let k' : In {A = ProposalDraft} draft [] = rw none_left at k in k')
                  | inr (canonical, f) ↦
                      let k' : In draft
                          (exact_draft lexicon project_id app_id policy group canonical ∷ []) =
                        rw f at k in
                      let good =
                        group-IsExact key canonical e
                          (least-In (canonical_before lexicon) group canonical f) in
                      elim k' [
                        | inl same ↦ subst IsExact (sym same) good
                        | inr nothing ↦ absurd nothing
                      ]
                ]
              ]
        ]

    expired_drafts-IsExpired :
        (exact_ids : List String) (ms : List Memory) (draft : ProposalDraft)
        → ((m : Memory) → In m ms → Anchored m)
        → In draft (expired_drafts lexicon project_id app_id policy now exact_ids ms)
        → IsExpired draft
    unfolding expired_drafts outlived expired_draft
    expired_drafts-IsExpired exact_ids [] draft known i = absurd i
    expired_drafts-IsExpired exact_ids (m ∷ ms) draft known i =
        let more = expired_drafts-IsExpired exact_ids ms draft (λ a j. known a (inr j)) in
        elim (Bool-cases (is_among exact_ids m.mem0_memory_id)) [
          | inl e ↦ more (rw (expired_drafts, e) at i)
          | inr e ↦
              elim (Option-cases
                (retention_of (or_given "unknown" m.normalized_type) policy.retention)) [
                  | inl f ↦ more (rw (expired_drafts, e, outlived, f) at i)
                  | inr (rule, f) ↦ elim (Option-cases rule.days) [
                    | inl g ↦ more (rw (expired_drafts, e, outlived, f, g) at i)
                    | inr (n, g) ↦ elim (Bool-cases (leb now (m.created_at + n * day))) [
                      | inl h ↦ more (rw (expired_drafts, e, outlived, f, g, h) at i)
                      | inr h ↦
                          let j : In draft (
                              expired_draft lexicon project_id app_id policy now rule n m
                              ∷ expired_drafts lexicon project_id app_id policy now exact_ids ms) =
                            rw (expired_drafts, e, outlived, f, g, h) at i in
                          elim j [
                            | inl same ↦ (
                              m,
                              rule,
                              n,
                              ap (λ d. d.source_ids) same,
                              known m (inl refl),
                              f,
                              g,
                              h,
                            )
                            | inr k ↦ more k
                          ]
                    ]
                  ]
                ]
        ]

  -- Each draft proposes either 2 to 100 eligible memories of one subject, type and hash, of which the
  -- canonical memory is one, or one eligible memory that is older than the policy keeps its type.
  pub analyze_scope-IsSound :
      (draft : ProposalDraft)
      → In draft (analyze_scope lexicon project_id app_id policy anchors now)
      → IsExact draft ⊎ IsExpired draft
  unfolding analyze_scope all_drafts
  analyze_scope-IsSound draft i =
      let memories = eligible project_id app_id anchors in
      let keys = sort_by texts_leb (group_keys memories) in
      let known = eligible-IsAnchor project_id app_id anchors in
      let j =
        In-sort_by draft_before draft (all_drafts lexicon project_id app_id policy now memories)
          (In-take policy.max_proposals_per_run draft _ i) in
      elim (In-append draft (exact_drafts lexicon project_id app_id policy memories keys) _ j) [
        | inl k ↦ inl (exact_drafts-IsExact memories known keys draft k)
        | inr k ↦ inr (
            expired_drafts-IsExpired memories known (exact_member_ids memories keys) memories draft
              known k)
      ]
