-- ===== src/Analysis/Disjoint.antt =====
-- The two kinds of drafts of `analyze_scope` share no memory.
use mem0_platform_sidecar.Prelude.{
  ℕ, String, ◌≡◌, refl, sym, subst, ◌⊎◌, inl, inr, Bool, true, false, List, [], ◌∷◌, ◌++◌, arith,
  In, In-append, In-take, eq_iff, Bool-cases, Option-cases,
}
use mem0_platform_sidecar.Prelude.Tables.{rows_where}
use mem0_platform_sidecar.Prelude.Order.{least, sort_by, In-sort_by}
use mem0_platform_sidecar.Policy.Parse.{Spec}
use mem0_platform_sidecar.Memories.Rows.{Memory}
use mem0_platform_sidecar.Memories.Reads.{is_among}
use mem0_platform_sidecar.Analysis.Drafts.{Lexicon, ProposalDraft}
use mem0_platform_sidecar.Analysis.Scopes.{
  eligible, texts_leb, in_group, group_keys, canonical_before, group_ids, exact_draft, is_proposed,
  draft_of_group, exact_drafts, exact_member_ids, expired_draft, outlived, expired_drafts,
  draft_before, all_drafts, analyze_scope,
}

is_among_left : (xs ys : List String) (id : String) → In id xs → is_among (xs ++ ys) id ≡ true
is_among_left [] ys id i = absurd i
is_among_left (x ∷ xs) ys id (inl e) = ground (arith, eq_iff x id)
is_among_left (x ∷ xs) ys id (inr i) = ground (arith, is_among_left xs ys id i)

is_among_right :
    (xs ys : List String) (id : String) → is_among ys id ≡ true → is_among (xs ++ ys) id ≡ true
is_among_right [] ys id h = h
is_among_right (x ∷ xs) ys id h = ground (arith, is_among_right xs ys id h)

module _ (lexicon : Lexicon) (project_id app_id : String) (policy : Spec)
    (memories : List Memory) where
  -- An exact draft, and its sources are among the members of the proposed groups.
  abbrev pub IsMember : List (List String) → ProposalDraft → Type 0
  IsMember keys draft =
      (draft.kind ≡ "EXACT_DUPLICATE")
      × ((id : String)
          → In id draft.source_ids
          → is_among (exact_member_ids memories keys) id ≡ true)

  exact_drafts-IsMember :
      (keys : List (List String)) (draft : ProposalDraft)
      → In draft (exact_drafts lexicon project_id app_id policy memories keys)
      → IsMember keys draft
  unfolding exact_drafts exact_member_ids exact_draft
  exact_drafts-IsMember [] draft i = absurd i
  exact_drafts-IsMember (key ∷ keys) draft i =
      let group = rows_where (in_group key) memories in
      let rest = exact_drafts lexicon project_id app_id policy memories keys in
      let more = exact_drafts-IsMember keys draft in
      elim (Bool-cases (is_proposed group)) [
        | inr e ↦ rw (exact_member_ids, e) (more (rw (exact_drafts, e) at i))
        | inl e ↦
            let j : In draft (
                draft_of_group lexicon project_id app_id policy group
                  (least (canonical_before lexicon) group)
                ++ rest) =
              rw (exact_drafts, e) at i in
            let later : IsMember keys draft → IsMember (key ∷ keys) draft = λ h.
              rw (exact_member_ids, e)
                (
                  h.0,
                  λ id n.
                      is_among_right (group_ids group) (exact_member_ids memories keys) id
                        (h.1 id n),
                ) in
            elim (In-append draft _ rest j) [
              | inr k ↦ later (more k)
              | inl k ↦ elim (Option-cases (least (canonical_before lexicon) group)) [
                | inl none_left ↦
                    absurd (let k' : In {A = ProposalDraft} draft [] = rw none_left at k in k')
                | inr (canonical, f) ↦
                    let k' : In draft
                        (exact_draft lexicon project_id app_id policy group canonical ∷ []) =
                      rw f at k in
                    let good : IsMember (key ∷ keys)
                        (exact_draft lexicon project_id app_id policy group canonical) =
                      rw (exact_member_ids, e)
                        (
                          refl,
                          λ id n.
                              is_among_left (group_ids group) (exact_member_ids memories keys) id n,
                        ) in
                    elim k' [
                      | inl same ↦ subst (IsMember (key ∷ keys)) (sym same) good
                      | inr nothing ↦ absurd nothing
                    ]
              ]
            ]
      ]

  -- A draft of retention, and its sources are none of those ids.
  abbrev pub IsOther : List String → ProposalDraft → Type 0
  IsOther exact_ids draft =
      (draft.kind ≡ "RETENTION_EXPIRED")
      × ((id : String) → In id draft.source_ids → is_among exact_ids id ≡ false)

  expired_drafts-IsOther :
      (now : ℕ) (exact_ids : List String) (ms : List Memory) (draft : ProposalDraft)
      → In draft (expired_drafts lexicon project_id app_id policy now exact_ids ms)
      → IsOther exact_ids draft
  unfolding expired_drafts expired_draft
  expired_drafts-IsOther now exact_ids [] draft i = absurd i
  expired_drafts-IsOther now exact_ids (m ∷ ms) draft i =
      let more = expired_drafts-IsOther now exact_ids ms draft in
      elim (Bool-cases (is_among exact_ids m.mem0_memory_id)) [
        | inl e ↦ more (rw (expired_drafts, e) at i)
        | inr e ↦ elim (Option-cases (outlived policy now m)) [
          | inl f ↦ more (rw (expired_drafts, e, f) at i)
          | inr (found, f) ↦
              let j : In draft (
                  expired_draft lexicon project_id app_id policy now found.0 found.1 m
                  ∷ expired_drafts lexicon project_id app_id policy now exact_ids ms) =
                rw (expired_drafts, e, f) at i in
              elim j [
                | inl same ↦ subst (IsOther exact_ids) (sym same) (refl, λ id n. only id n e)
                | inr k ↦ more k
              ]
        ]
      ]
    where
      only :
          (id : String)
          → In id (m.mem0_memory_id ∷ [])
          → is_among exact_ids m.mem0_memory_id ≡ false
          → is_among exact_ids id ≡ false
      only id (inl same) e = subst (λ x. is_among exact_ids x ≡ false) (sym same) e
      only id (inr nothing) e = absurd nothing

-- Two drafts of `analyze_scope` that share a source are both duplicates or both expiries, so no memory
-- is proposed for a merge and as expired at once.
pub analyze_scope_disjoint :
    (lexicon : Lexicon) (project_id app_id : String) (policy : Spec) (anchors : List Memory)
    (now : ℕ) (a b : ProposalDraft) (id : String)
    → In a (analyze_scope lexicon project_id app_id policy anchors now)
    → In b (analyze_scope lexicon project_id app_id policy anchors now)
    → In id a.source_ids
    → In id b.source_ids
    → ((a.kind ≡ "EXACT_DUPLICATE") × (b.kind ≡ "EXACT_DUPLICATE"))
      ⊎ ((a.kind ≡ "RETENTION_EXPIRED") × (b.kind ≡ "RETENTION_EXPIRED"))
unfolding analyze_scope all_drafts
analyze_scope_disjoint lexicon project_id app_id policy anchors now a b id i j m n =
    let memories = eligible project_id app_id anchors in
    let keys = sort_by texts_leb (group_keys memories) in
    let exact_ids = exact_member_ids memories keys in
    let drafts = exact_drafts lexicon project_id app_id policy memories keys in
    let split : (d : ProposalDraft)
        → In d (analyze_scope lexicon project_id app_id policy anchors now)
        → IsMember lexicon project_id app_id policy memories keys d
          ⊎ IsOther lexicon project_id app_id policy memories exact_ids d =
      λ d k.
        let listed =
          In-sort_by draft_before d (all_drafts lexicon project_id app_id policy now memories)
            (In-take policy.max_proposals_per_run d _ k) in
        elim (In-append d drafts _ listed) [
          | inl x ↦ inl (exact_drafts-IsMember lexicon project_id app_id policy memories keys d x)
          | inr x ↦ inr (
              expired_drafts-IsOther lexicon project_id app_id policy memories now exact_ids
                memories d x)
        ] in
    elim (split a i) [
      | inl x ↦ elim (split b j) [
        | inl y ↦ inl (x.0, y.0)
        | inr y ↦ absurd (clash (x.1 id m) (y.1 id n))
      ]
      | inr x ↦ elim (split b j) [
        | inl y ↦ absurd (clash (y.1 id n) (x.1 id m))
        | inr y ↦ inr (x.0, y.0)
      ]
    ]
  where
    clash : {c : Bool} → c ≡ true → c ≡ false → ⊥
    clash h k = cc
