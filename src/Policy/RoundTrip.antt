-- ===== src/Policy/RoundTrip.antt =====
-- Reading back what `to_mapping` writes.
use mem0_platform_sidecar.Prelude.{
  ℕ, String, ◌≡◌, refl, Bool, true, false, ◌||◌, Option, none, some, List, [], ◌∷◌, arith, any, All,
  ltb, ◌==◌, eq_iff, Bool-cases, inl, inr,
}
use mem0_platform_sidecar.Prelude.Tables.{IsKeyed}
use mem0_platform_sidecar.Prelude.Order.{sort_by, insert}
use mem0_platform_sidecar.Prelude.Result.{ok}
use mem0_platform_sidecar.Prelude.Fallible.{◌>>=◌, raise_if}
use mem0_platform_sidecar.Json.{pos, int, float, text, array, object, end, field, get}
use mem0_platform_sidecar.Policy.Values.{
  Texts, Mode, observe, manual, auto_safe, RetentionAction, review, shadow, RetentionRule,
  Retention, default_retention, unknown_keys, normalize_type_key, bounded_int, rule_days,
  rule_action, retention_rule, out_of_range, threshold, sorted,
}
use mem0_platform_sidecar.Policy.Parse.{
  Spec, parse_enabled, parse_mode, action_names, parse_safe_actions, assign, override,
  parse_retention, int_field, from_mapping, mode_text, action_text, days_json, safe_action_items,
  retention_fields, name_before, to_mapping,
}
use mem0_platform_sidecar.Policy.Bounds.{
  DaysBounded, IsWithin, IsPermittedRule, AllPermitted, IsPermitted, IsThreshold-in_range,
}

-- What is relied on of `strip` and `upper`: they keep the texts that a policy writes.
pub record KeepsTexts (texts : Texts) : Type 0 where
  pub modes : (mode : Mode) → texts.strip_upper (mode_text mode) ≡ mode_text mode
  pub actions :
      (action : RetentionAction) → texts.strip_upper (action_text action) ≡ action_text action
  pub exact : texts.strip_upper "EXACT_DUPLICATE" ≡ "EXACT_DUPLICATE"
  pub expired : texts.strip_upper "RETENTION_EXPIRED" ≡ "RETENTION_EXPIRED"

-- The name of a rule is in normal form.
abbrev pub IsNormalName : Texts → String × RetentionRule → Type 0
IsNormalName texts entry =
    (texts.underscored (texts.nfkc_strip_lower entry.0) ≡ entry.0) × ((entry.0 == "") ≡ false)

-- The rules of the first list, assigned in its order over the second.
unfoldable pub assign_all : Retention → Retention → Retention
assign_all [] base = base
assign_all ((name, rule) ∷ rules) base = assign_all rules (assign name rule base)

bounded_int-pos :
    (name : String) (minimum maximum : ℕ) (shown : String) (n : ℕ)
    → IsWithin minimum maximum n
    → bounded_int name minimum maximum shown (int (pos n)) ≡ ok n
unfolding bounded_int
bounded_int-pos name minimum maximum shown n w = rw (within minimum maximum n w) refl
  where
    within :
        (minimum maximum n : ℕ)
        → IsWithin minimum maximum n
        → (ltb n minimum || ltb maximum n) ≡ false
    within minimum maximum n w = ground (arith, w.0, w.1)

rule_days-days_json :
    (name : String) (days : Option ℕ)
    → DaysBounded days
    → rule_days name (some (days_json days)) ≡ ok days
unfolding rule_days ◌>>=◌
rule_days-days_json name none p = refl
rule_days-days_json name (some n) p = rw (bounded_int-pos _ 1 36500 "1 and 36500" n p) refl

rule_action-action_text :
    (texts : Texts) (name : String) (action : RetentionAction)
    → KeepsTexts texts
    → rule_action texts name (text (action_text action)) ≡ ok action
unfolding rule_action
rule_action-action_text texts name review k = rw (k.actions review) refl
rule_action-action_text texts name shadow k = rw (k.actions shadow) refl

retention_rule-back :
    (texts : Texts) (name : String) (rule : RetentionRule)
    → KeepsTexts texts
    → IsPermittedRule rule
    → retention_rule texts name (
        object (
          field "days" (days_json rule.days) (field "action" (text (action_text rule.action)) end)))
      ≡ ok rule
unfolding retention_rule unknown_keys sort_by ◌>>=◌ raise_if get
retention_rule-back texts name rule k p =
    rw (rule_days-days_json name rule.days p.0, rule_action-action_text texts name rule.action k)
      (rw p.1 refl)

-- None of the names of the rules is among those seen.
abbrev pub AllUnseen : List String → Retention → Type 0
AllUnseen seen =
    All (λ (entry : String × RetentionRule). any (λ name. name == entry.0) seen ≡ false)

AllUnseen-cons :
    (name : String) (seen : List String) (rules : Retention)
    → All (λ (entry : String × RetentionRule). (entry.0 == name) ≡ false) rules
    → AllUnseen seen rules
    → AllUnseen (name ∷ seen) rules
AllUnseen-cons name seen [] d u = tt
AllUnseen-cons name seen ((k, rule) ∷ rules) d u =
    (ground (arith, d.0, u.0, eq_iff name k, eq_iff k name), AllUnseen-cons name seen rules d.1 u.1)

normalize_type_key-name :
    (texts : Texts) (entry : String × RetentionRule)
    → IsNormalName texts entry
    → normalize_type_key texts entry.0 ≡ ok entry.0
unfolding normalize_type_key
normalize_type_key-name texts entry n = rw (n.0, n.1) refl

override-retention_fields :
    (texts : Texts) (seen : List String) (rules base : Retention)
    → KeepsTexts texts
    → All (IsNormalName texts) rules
    → IsKeyed (λ (entry : String × RetentionRule). entry.0) rules
    → AllUnseen seen rules
    → AllPermitted rules
    → override texts seen (retention_fields rules) base ≡ ok (assign_all rules base)
unfolding override retention_fields assign_all ◌>>=◌ raise_if
override-retention_fields texts seen [] base k n d u p = refl
override-retention_fields texts seen ((name, rule) ∷ rules) base k n d u p =
    let ih =
      override-retention_fields texts (name ∷ seen) rules (assign name rule base) k n.1 d.1
        (AllUnseen-cons name seen rules d.0 u.1) p.1 in
    rw
      (
        normalize_type_key-name texts (name, rule) n.0,
        u.0,
        retention_rule-back texts name rule k p.0,
      )
      ih

safe_actions-back :
    (texts : Texts) (exact expired : Bool)
    → KeepsTexts texts
    → parse_safe_actions texts (
        some (
          array
            (safe_action_items (record { exact_duplicate = exact; retention_expired = expired }))))
      ≡ ok (record { exact_duplicate = exact; retention_expired = expired })
unfolding parse_safe_actions action_names ◌>>=◌ raise_if
safe_actions-back texts true true k = rw (k.exact, k.expired) refl
safe_actions-back texts true false k = rw k.exact refl
safe_actions-back texts false true k = rw k.expired refl
safe_actions-back texts false false k = refl

parse_mode-mode_text :
    (texts : Texts) (mode : Mode)
    → KeepsTexts texts
    → parse_mode texts (text (mode_text mode)) ≡ ok mode
unfolding parse_mode
parse_mode-mode_text texts observe k = rw (k.modes observe) refl
parse_mode-mode_text texts manual k = rw (k.modes manual) refl
parse_mode-mode_text texts auto_safe k = rw (k.modes auto_safe) refl

threshold-float : (bits : ℕ) → out_of_range bits ≡ false → threshold (float bits) ≡ ok bits
unfolding threshold
threshold-float bits h = rw h refl

module _ {A : Type 0} (key : A → String) (before : A → A → Bool) where
  All-insert : (P : A → Type 0) (a : A) (xs : List A) → P a → All P xs → All P (insert before a xs)
  unfolding insert
  All-insert P a [] p h = (p, tt)
  All-insert P a (x ∷ xs) p h = elim (Bool-cases (before a x)) [
    | inl e ↦ rw e (p, h)
    | inr e ↦ rw e (h.0, All-insert P a xs p h.1)
  ]

  All-sort_by : (P : A → Type 0) (xs : List A) → All P xs → All P (sort_by before xs)
  unfolding sort_by
  All-sort_by P [] h = tt
  All-sort_by P (x ∷ xs) h = All-insert P x (sort_by before xs) h.0 (All-sort_by P xs h.1)

  IsKeyed-insert :
      (a : A) (xs : List A)
      → All (λ y. (key y == key a) ≡ false) xs
      → IsKeyed key xs
      → IsKeyed key (insert before a xs)
  unfolding insert
  IsKeyed-insert a [] f h = (tt, tt)
  IsKeyed-insert a (x ∷ xs) f h = elim (Bool-cases (before a x)) [
    | inl e ↦ rw e (f, h)
    | inr e ↦ rw e (
      All-insert (λ y. (key y == key x) ≡ false) a xs
          (ground (arith, f.0, eq_iff (key x) (key a), eq_iff (key a) (key x))) h.0,
      IsKeyed-insert a xs f.1 h.1,
    )
  ]

  -- Ordering keeps the keys distinct.
  IsKeyed-sort_by : (xs : List A) → IsKeyed key xs → IsKeyed key (sort_by before xs)
  unfolding sort_by
  IsKeyed-sort_by [] h = tt
  IsKeyed-sort_by (x ∷ xs) h =
      IsKeyed-insert x (sort_by before xs) (All-sort_by (λ y. (key y == key x) ≡ false) xs h.0)
        (IsKeyed-sort_by xs h.1)

AllUnseen-nil : (rules : Retention) → AllUnseen [] rules
AllUnseen-nil [] = tt
AllUnseen-nil (entry ∷ rules) = (refl, AllUnseen-nil rules)

sorted-nil : sorted [] ≡ []
unfolding sort_by
sorted-nil = refl

-- For a permitted policy whose rules have distinct names in normal form, and texts that strip and
-- upper keep, reading back what is written gives the same policy, with its rules assigned over the
-- default ones in the order of their names.
pub from_mapping-to_mapping :
    (texts : Texts) (spec : Spec)
    → KeepsTexts texts
    → IsPermitted spec
    → All (IsNormalName texts) spec.retention
    → IsKeyed (λ (entry : String × RetentionRule). entry.0) spec.retention
    → from_mapping texts (object (to_mapping spec))
      ≡ ok (record spec {
        retention = assign_all (sort_by name_before spec.retention) default_retention;
      })
unfolding from_mapping to_mapping unknown_keys parse_enabled parse_retention int_field ◌>>=◌
    raise_if get
from_mapping-to_mapping texts spec k p n d =
    let rules = sort_by name_before spec.retention in
    let key = λ (entry : String × RetentionRule). entry.0 in
    let back =
      override-retention_fields texts [] rules default_retention k
        (All-sort_by key name_before (IsNormalName texts) spec.retention n)
        (IsKeyed-sort_by key name_before spec.retention d) (AllUnseen-nil rules)
        (All-sort_by key name_before (λ (entry : String × RetentionRule). IsPermittedRule entry.1)
          spec.retention p.rules) in
    rw
      (
        sorted-nil,
        parse_mode-mode_text texts spec.mode k,
        threshold-float spec.near_duplicate_threshold
            (IsThreshold-in_range spec.near_duplicate_threshold p.near),
        safe_actions-back texts spec.safe_actions.exact_duplicate
            spec.safe_actions.retention_expired k,
        back,
        bounded_int-pos "max_anchors_per_run" 1 1000 "1 and 1000" spec.max_anchors_per_run
            p.anchors,
        bounded_int-pos "max_proposals_per_run" 1 1000 "1 and 1000" spec.max_proposals_per_run
            p.proposals,
        bounded_int-pos "shadow_grace_days" 7 365 "7 and 365" spec.shadow_grace_days p.grace,
        bounded_int-pos "min_new_memories" 1 100000 "1 and 100000" spec.min_new_memories
            p.new_memories,
        bounded_int-pos "scan_interval_seconds" 60 31536000 "60 and 31536000"
            spec.scan_interval_seconds p.interval,
        bounded_int-pos "policy_version" 1 2147483647 "1 and 2147483647" spec.policy_version
            p.version,
      )
      refl
