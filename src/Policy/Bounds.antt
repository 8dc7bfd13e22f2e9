-- ===== src/Policy/Bounds.antt =====
-- What holds of every policy that `from_mapping` returns.
use mem0_platform_sidecar.Prelude.{
  ℕ, ◌≤◌, ltb, String, ◌≡◌, refl, subst, ◌+◌, true, false, ◌⊎◌, Option, none, some, List, [], ◌∷◌,
  arith, All, leb, eqb, ◌==◌, Bool-cases, inl, inr,
}
use mem0_platform_sidecar.Prelude.Result.{Result, ok, err}
use mem0_platform_sidecar.Prelude.Fallible.{◌>>=◌, bind-ok, raise_if-ok, ok_inj}
use mem0_platform_sidecar.Json.{
  pos, negsuc, Json, null, boolean, int, float, text, array, object, Fields, end, field,
}
use mem0_platform_sidecar.Policy.Values.{
  Texts, RetentionRule, Retention, default_retention, bounded_int, rule_days, shadows_forever,
  is_nan, half, sign_bit, retention_rule, out_of_range, threshold, one, float_limit,
}
use mem0_platform_sidecar.Policy.Parse.{
  Spec, assign, override, parse_retention, int_field, from_mapping,
}

-- The days of a rule are in their bounds.
abbrev pub DaysBounded : Option ℕ → Type 0
DaysBounded none = Unit
DaysBounded (some n) = (1 ≤ n) × (n ≤ 36500)

abbrev pub IsPermittedRule : RetentionRule → Type 0
IsPermittedRule rule = DaysBounded rule.days × (shadows_forever rule.days rule.action ≡ false)

abbrev pub IsWithin : ℕ → ℕ → ℕ → Type 0
IsWithin minimum maximum n = (minimum ≤ n) × (n ≤ maximum)

-- The threshold is NaN, or its bits are between those of 0.5 and those of 1.
abbrev pub IsThreshold : ℕ → Type 0
IsThreshold bits = (is_nan bits ≡ true) ⊎ IsWithin 4602678819172646912 4607182418800017408 bits

-- The bounds of a policy.
pub record IsPermitted (spec : Spec) : Type 0 where
  pub anchors : IsWithin 1 1000 spec.max_anchors_per_run
  pub proposals : IsWithin 1 1000 spec.max_proposals_per_run
  pub grace : IsWithin 7 365 spec.shadow_grace_days
  pub new_memories : IsWithin 1 100000 spec.min_new_memories
  pub interval : IsWithin 60 31536000 spec.scan_interval_seconds
  pub version : IsWithin 1 2147483647 spec.policy_version
  pub near : IsThreshold spec.near_duplicate_threshold
  pub rules : All (λ (entry : String × RetentionRule). IsPermittedRule entry.1) spec.retention

bounded_int-IsWithin :
    (name : String) (minimum maximum : ℕ) (shown : String) (value : Json) (n : ℕ)
    → bounded_int name minimum maximum shown value ≡ ok n
    → IsWithin minimum maximum n
unfolding bounded_int
bounded_int-IsWithin name minimum maximum shown (int (pos m)) n h = ground arith
bounded_int-IsWithin name minimum maximum shown (int (negsuc m)) n h = cc
bounded_int-IsWithin name minimum maximum shown null n h = cc
bounded_int-IsWithin name minimum maximum shown (boolean b) n h = cc
bounded_int-IsWithin name minimum maximum shown (float b) n h = cc
bounded_int-IsWithin name minimum maximum shown (text t) n h = cc
bounded_int-IsWithin name minimum maximum shown (array items) n h = cc
bounded_int-IsWithin name minimum maximum shown (object fields) n h = cc

int_field-IsWithin :
    (name : String) (given minimum maximum : ℕ) (shown : String) (value : Fields) (n : ℕ)
    → int_field name given minimum maximum shown value ≡ ok n
    → IsWithin minimum maximum n
unfolding int_field
int_field-IsWithin name given minimum maximum shown value n h =
    bounded_int-IsWithin name minimum maximum shown _ n h

one-IsThreshold : IsThreshold one
one-IsThreshold = inr (omega arith, omega arith)

-- A double that is not out of range has bits between those of 0.5 and 1: the order of positive doubles
-- is the order of their bits.
in_range-IsThreshold : (bits : ℕ) → out_of_range bits ≡ false → IsThreshold bits
unfolding out_of_range
in_range-IsThreshold bits h = elim (Bool-cases (is_nan bits)) [
  | inl e ↦ inl e
  | inr e ↦ inr (ground (arith, e, h))
]

pub IsThreshold-in_range : (bits : ℕ) → IsThreshold bits → out_of_range bits ≡ false
unfolding out_of_range
IsThreshold-in_range bits (inl e) = ground (arith, e)
IsThreshold-in_range bits (inr (low, high)) =
    let a : leb sign_bit bits ≡ false = ground arith in
    let b : ltb bits half ≡ false = ground arith in
    let c : ltb one bits ≡ false = ground arith in
    elim (Bool-cases (is_nan bits)) [ inl e ↦ rw e refl | inr e ↦ rw (e, a, b, c) refl ]

-- `threshold` returns NaN or a double from 0.5 to 1.
threshold-IsThreshold : (value : Json) (bits : ℕ) → threshold value ≡ ok bits → IsThreshold bits
unfolding threshold
threshold-IsThreshold (float b) bits h = elim (Bool-cases (out_of_range b)) [
  | inl e ↦ let h' : ◌≡◌ {A = Result ℕ} (err _) (ok bits) = rw e at h in cc
  | inr e ↦
      let h' : b ≡ bits = ok_inj (rw e at h) in subst IsThreshold h' (in_range-IsThreshold b e)
]
threshold-IsThreshold (int (pos n)) bits h = elim (Bool-cases (leb float_limit n)) [
  | inl e ↦ let h' : ◌≡◌ {A = Result ℕ} (err _) (ok bits) = rw e at h in cc
  | inr e ↦ elim (Bool-cases (eqb n 1)) [
    | inl i ↦ let h' : one ≡ bits = ok_inj (rw (e, i) at h) in subst IsThreshold h' one-IsThreshold
    | inr i ↦ let h' : ◌≡◌ {A = Result ℕ} (err _) (ok bits) = rw (e, i) at h in cc
  ]
]
threshold-IsThreshold (int (negsuc n)) bits h = elim (Bool-cases (leb float_limit (n + 1))) [
  | inl e ↦ let h' : ◌≡◌ {A = Result ℕ} (err _) (ok bits) = rw e at h in cc
  | inr e ↦ let h' : ◌≡◌ {A = Result ℕ} (err _) (ok bits) = rw e at h in cc
]
threshold-IsThreshold null bits h = cc
threshold-IsThreshold (boolean b) bits h = cc
threshold-IsThreshold (text t) bits h = cc
threshold-IsThreshold (array items) bits h = cc
threshold-IsThreshold (object fields) bits h = cc

some_days-DaysBounded :
    (name : String) (value : Json) (days : Option ℕ)
    → (bounded_int name 1 36500 "1 and 36500" value >>= λ n. ok (some n)) ≡ ok days
    → DaysBounded days
some_days-DaysBounded name value days h =
    let (n, e, i) = bind-ok (bounded_int name 1 36500 "1 and 36500" value) _ days h in
    let j : some n ≡ days = cc in
    subst DaysBounded j (bounded_int-IsWithin name 1 36500 _ value n e)

rule_days-DaysBounded :
    (name : String) (value : Option Json) (days : Option ℕ)
    → rule_days name value ≡ ok days
    → DaysBounded days
unfolding rule_days
rule_days-DaysBounded name none days h = let j : none ≡ days = cc in subst DaysBounded j tt
rule_days-DaysBounded name (some null) days h = let j : none ≡ days = cc in subst DaysBounded j tt
rule_days-DaysBounded name (some (int n)) days h = some_days-DaysBounded _ (int n) days h
rule_days-DaysBounded name (some (boolean b)) days h = some_days-DaysBounded _ (boolean b) days h
rule_days-DaysBounded name (some (float b)) days h = some_days-DaysBounded _ (float b) days h
rule_days-DaysBounded name (some (text t)) days h = some_days-DaysBounded _ (text t) days h
rule_days-DaysBounded name (some (array items)) days h =
    some_days-DaysBounded _ (array items) days h
rule_days-DaysBounded name (some (object fields)) days h =
    some_days-DaysBounded _ (object fields) days h

retention_rule-IsPermittedRule :
    (texts : Texts) (name : String) (value : Json) (rule : RetentionRule)
    → retention_rule texts name value ≡ ok rule
    → IsPermittedRule rule
unfolding retention_rule
retention_rule-IsPermittedRule texts name (object value) rule h =
    let (_, h1) = raise_if-ok _ _ _ rule h in
    let (days, d, h2) = bind-ok _ _ rule h1 in
    let (action, a, h3) = bind-ok _ _ rule h2 in
    let (f, h4) = raise_if-ok _ _ _ rule h3 in
    let j : record { days = days; action = action } ≡ rule = cc in
    subst IsPermittedRule j (rule_days-DaysBounded name _ days d, f)
retention_rule-IsPermittedRule texts name null rule h = cc
retention_rule-IsPermittedRule texts name (boolean b) rule h = cc
retention_rule-IsPermittedRule texts name (int n) rule h = cc
retention_rule-IsPermittedRule texts name (float b) rule h = cc
retention_rule-IsPermittedRule texts name (text t) rule h = cc
retention_rule-IsPermittedRule texts name (array items) rule h = cc

abbrev pub AllPermitted : Retention → Type 0
AllPermitted = All (λ (entry : String × RetentionRule). IsPermittedRule entry.1)

AllPermitted-assign :
    (name : String) (rule : RetentionRule) (retention : Retention)
    → IsPermittedRule rule
    → AllPermitted retention
    → AllPermitted (assign name rule retention)
unfolding assign
AllPermitted-assign name rule [] p a = (p, tt)
AllPermitted-assign name rule ((k, old) ∷ rest) p a = elim (Bool-cases (k == name)) [
  | inl e ↦ rw e (p, a.1)
  | inr e ↦ rw e (a.0, AllPermitted-assign name rule rest p a.1)
]

override-AllPermitted :
    (texts : Texts) (seen : List String) (overrides : Fields) (retention result : Retention)
    → AllPermitted retention
    → override texts seen overrides retention ≡ ok result
    → AllPermitted result
unfolding override
override-AllPermitted texts seen end retention result a h =
    let j : retention ≡ result = cc in subst AllPermitted j a
override-AllPermitted texts seen (field k v rest) retention result a h =
    let (name, n, h1) = bind-ok _ _ result h in
    let (_, h2) = raise_if-ok _ _ _ result h1 in
    let (rule, r, h3) = bind-ok _ _ result h2 in
    override-AllPermitted texts (name ∷ seen) rest (assign name rule retention) result
      (AllPermitted-assign name rule retention (retention_rule-IsPermittedRule texts name v rule r)
        a)
      h3

default_AllPermitted : AllPermitted default_retention
default_AllPermitted = ground arith

parse_retention-AllPermitted :
    (texts : Texts) (value : Json) (result : Retention)
    → parse_retention texts value ≡ ok result
    → AllPermitted result
unfolding parse_retention
parse_retention-AllPermitted texts (object overrides) result h =
    override-AllPermitted texts [] overrides default_retention result default_AllPermitted h
parse_retention-AllPermitted texts null result h = cc
parse_retention-AllPermitted texts (boolean b) result h = cc
parse_retention-AllPermitted texts (int n) result h = cc
parse_retention-AllPermitted texts (float b) result h = cc
parse_retention-AllPermitted texts (text t) result h = cc
parse_retention-AllPermitted texts (array items) result h = cc

-- A policy that `from_mapping` returns is permitted: its six integers are in their bounds, its
-- threshold is NaN or from 0.5 to 1.0, and each of its retention rules has days in their bounds, and has
-- days if it shadows.
pub from_mapping-IsPermitted :
    (texts : Texts) (fields : Fields) (spec : Spec)
    → from_mapping texts (object fields) ≡ ok spec
    → IsPermitted spec
unfolding from_mapping
from_mapping-IsPermitted texts fields spec h =
    let (_, h0) = raise_if-ok _ _ _ spec h in
    let (enabled, e1, h1) = bind-ok _ _ spec h0 in
    let (mode, e2, h2) = bind-ok _ _ spec h1 in
    let (near, e3, h3) = bind-ok _ _ spec h2 in
    let (safe, e4, h4) = bind-ok _ _ spec h3 in
    let (retention, e5, h5) = bind-ok _ _ spec h4 in
    let (anchors, e6, h6) = bind-ok _ _ spec h5 in
    let (proposals, e7, h7) = bind-ok _ _ spec h6 in
    let (grace, e8, h8) = bind-ok _ _ spec h7 in
    let (new_memories, e9, h9) = bind-ok _ _ spec h8 in
    let (interval, e10, h10) = bind-ok _ _ spec h9 in
    let (version, e11, h11) = bind-ok _ _ spec h10 in
    subst IsPermitted (ok_inj h11) (record {
      anchors = int_field-IsWithin _ _ _ _ _ fields anchors e6;
      proposals = int_field-IsWithin _ _ _ _ _ fields proposals e7;
      grace = int_field-IsWithin _ _ _ _ _ fields grace e8;
      new_memories = int_field-IsWithin _ _ _ _ _ fields new_memories e9;
      interval = int_field-IsWithin _ _ _ _ _ fields interval e10;
      version = int_field-IsWithin _ _ _ _ _ fields version e11;
      near = threshold-IsThreshold _ near e3;
      rules = parse_retention-AllPermitted texts _ retention e5;
    })
