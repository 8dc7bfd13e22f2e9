-- ===== src/Analysis/Symmetry.antt =====
-- Contradictions do not depend on which of two memories is the anchor.
use mem0_platform_sidecar.Prelude.{
  ℕ, String, ◌≡◌, refl, sym, ap, subst, ◌∙◌, inl, inr, Bool, true, false, not, ◌&&◌, ◌||◌, Option,
  none, some, List, [], ◌∷◌, arith, any, leb, if◌then◌else◌, ◌==◌, eq_iff, Bool-cases, Option-cases,
}
use mem0_platform_sidecar.Prelude.Text.{opt_eqb}
use mem0_platform_sidecar.Analysis.Drafts.{Pattern, Lexicon, ProposalDraft}
use mem0_platform_sidecar.Analysis.Neighbors.{
  Snapshot, is_negation, same_texts, is_nil, replacement_conflict, differ, base, is_negation_flip,
  contradiction_reason, is_finite, is_comparable, shared_term_count, kind_and_reason,
  neighbor_draft, classify_neighbor,
}

eq_sym : (a b : String) → (a == b) ≡ (b == a)
eq_sym a b = ground (arith, eq_iff a b, eq_iff b a)

opt_eqb-sym : (a b : Option String) → opt_eqb a b ≡ opt_eqb b a
opt_eqb-sym none none = refl
opt_eqb-sym none (some b) = refl
opt_eqb-sym (some a) none = refl
opt_eqb-sym (some a) (some b) = eq_sym a b

same_texts-sym : (xs ys : List String) → same_texts xs ys ≡ same_texts ys xs
same_texts-sym [] [] = refl
same_texts-sym [] (y ∷ ys) = refl
same_texts-sym (x ∷ xs) [] = refl
same_texts-sym (x ∷ xs) (y ∷ ys) = rw (eq_sym x y, same_texts-sym xs ys) refl

differ-sym : (a b : Bool) → differ a b ≡ differ b a
differ-sym true true = refl
differ-sym true false = refl
differ-sym false true = refl
differ-sym false false = refl

is_negation_flip-sym :
    (left right : List String) → is_negation_flip left right ≡ is_negation_flip right left
unfolding is_negation_flip
is_negation_flip-sym left right =
    ap (λ b. b && same_texts (base left) (base right))
      (differ-sym (any is_negation left) (any is_negation right))
    ∙ ap (λ b. differ (any is_negation right) (any is_negation left) && b)
        (same_texts-sym (base left) (base right))

replacement_conflict-sym :
    (pattern : Pattern) (left right : String)
    → replacement_conflict pattern left right ≡ replacement_conflict pattern right left
unfolding replacement_conflict
replacement_conflict-sym pattern left right =
    go (is_nil (pattern.findall left)) (is_nil (pattern.findall right)) _ _ _ _
      (same_texts-sym (pattern.findall left) (pattern.findall right))
      (eq_sym (pattern.masked left) (pattern.masked right))
  where
    go :
        (a b c c' d d' : Bool)
        → c ≡ c'
        → d ≡ d'
        → (if a || b || c then false else d) ≡ (if b || a || c' then false else d')
    go a b c c' d d' e f = ground (arith, e, f)

contradiction_reason-sym :
    (lexicon : Lexicon) (left right : String)
    → contradiction_reason lexicon left right ≡ contradiction_reason lexicon right left
unfolding contradiction_reason
contradiction_reason-sym lexicon left right =
    rw
      (
        contradiction_reason,
        is_negation_flip-sym (lexicon.tokens left) (lexicon.tokens right),
        replacement_conflict-sym lexicon.dates left right,
        replacement_conflict-sym lexicon.versions left right,
      )
      refl

is_comparable-sym : (a b : Snapshot) → is_comparable a b ≡ is_comparable b a
unfolding is_comparable
is_comparable-sym a b =
    go _ _ _ _ _ _ _ _ _ _ _ _ _ _ (eq_sym a.memory_id b.memory_id)
      (eq_sym a.project_id b.project_id) (eq_sym a.app_id b.app_id)
      (opt_eqb-sym a.user_id b.user_id) (opt_eqb-sym a.agent_id b.agent_id)
      (eq_sym a.normalized_type b.normalized_type) (eq_sym a.content_hash b.content_hash)
  where
    go :
        (p q r s t u v p' q' r' s' t' u' v' : Bool)
        → p ≡ p'
        → q ≡ q'
        → r ≡ r'
        → s ≡ s'
        → t ≡ t'
        → u ≡ u'
        → v ≡ v'
        → (not p && q && r && s && t && u && not v)
          ≡ (not p' && q' && r' && s' && t' && u' && not v')
    go p q r s t u v p' q' r' s' t' u' v' a b c d e f g = ground arith

-- If a memory contradicts its neighbor, then the neighbor contradicts it: where `classify_neighbor`
-- returns a contradiction, it returns one with the two memories exchanged, for any finite score.
pub classify_neighbor-sym :
    (lexicon : Lexicon) (anchor candidate : Snapshot) (score other policy_version : ℕ)
    (draft : ProposalDraft)
    → classify_neighbor lexicon anchor candidate score policy_version ≡ some draft
    → (draft.kind == "CONTRADICTION") ≡ true
    → is_finite other ≡ true
    → (back : ProposalDraft) × (classify_neighbor lexicon candidate anchor other policy_version
        ≡ some back)
      × (back.kind ≡ "CONTRADICTION")
unfolding classify_neighbor kind_and_reason neighbor_draft
classify_neighbor-sym lexicon anchor candidate score other policy_version draft h kind finite =
    elim (Bool-cases (is_comparable anchor candidate && is_finite score)) [
      | inr e ↦ absurd (none_not (rw (classify_neighbor, e) at h))
      | inl e ↦ elim (Option-cases (contradiction_reason lexicon anchor.body candidate.body)) [
        | inr (reason, f) ↦
            let comparable : is_comparable candidate anchor ≡ true =
              ground (arith, is_comparable-sym anchor candidate, e) in
            let f' = sym (contradiction_reason-sym lexicon anchor.body candidate.body) ∙ f in
            (
              neighbor_draft lexicon candidate anchor other policy_version "CONTRADICTION" reason,
              rw (classify_neighbor, comparable, finite, kind_and_reason, f') refl,
              refl,
            )
        | inl f ↦
            elim (Bool-cases (
              leb 2
                (shared_term_count (lexicon.tokens anchor.body) (lexicon.tokens candidate.body)))) [
                  | inr g ↦
                      absurd (none_not (rw (classify_neighbor, e, kind_and_reason, f, g) at h))
                  | inl g ↦
                      let h' : some (
                            neighbor_draft lexicon anchor candidate score policy_version
                              "NEAR_DUPLICATE" "high_similarity_shared_terms")
                          ≡ some draft =
                        rw (classify_neighbor, e, kind_and_reason, f, g) at h in
                      let wrong : ("NEAR_DUPLICATE" == "CONTRADICTION") ≡ true =
                        subst (λ k. (k == "CONTRADICTION") ≡ true) (sym (some_kind h')) kind in
                      absurd (cc)
                ]
      ]
    ]
  where
    none_not : ◌≡◌ {A = Option ProposalDraft} none (some draft) → ⊥
    none_not k = cc

    some_kind : {a b : ProposalDraft} → some a ≡ some b → a.kind ≡ b.kind
    some_kind {a} {b} k = ap (λ o. elim o [ none ↦ a.kind | some d ↦ d.kind ]) k
