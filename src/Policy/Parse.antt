-- ===== src/Policy/Parse.antt =====
-- `ConsolidationPolicySpec.from_mapping` and `to_mapping`.
use mem0_platform_sidecar.Prelude.{
  ℕ, String, ◌<>◌, Bool, true, false, not, Option, none, some, List, [], ◌∷◌, all, any,
  if◌then◌else◌, ◌==◌,
}
use mem0_platform_sidecar.Prelude.Order.{sort_by}
use mem0_platform_sidecar.Prelude.Text.{str_leb}
use mem0_platform_sidecar.Prelude.Result.{value_error, Result, ok, err}
use mem0_platform_sidecar.Prelude.Fallible.{◌>>=◌, ◌>>◌, raise_if}
use mem0_platform_sidecar.Json.{
  pos, Json, null, boolean, int, float, text, array, object, Items, nil, cons, Fields, end, field,
  get,
}
use mem0_platform_sidecar.Policy.Values.{
  Texts, Mode, observe, manual, auto_safe, RetentionAction, review, shadow, RetentionRule,
  SafeActions, Retention, default_retention, join, unknown_keys, is_empty, sorted,
  normalize_type_key, bounded_int, default, retention_rule, default_threshold, threshold,
}

pub record Spec : Type 0 where
  pub enabled : Bool
  pub mode : Mode
  pub max_anchors_per_run : ℕ
  pub max_proposals_per_run : ℕ
  pub shadow_grace_days : ℕ
  pub min_new_memories : ℕ
  pub scan_interval_seconds : ℕ
  pub near_duplicate_threshold : ℕ
  pub policy_version : ℕ
  pub safe_actions : SafeActions
  pub retention : Retention

abbrev pub allowed_fields : List String
allowed_fields =
    "enabled" ∷ "mode" ∷ "max_anchors_per_run" ∷ "max_proposals_per_run" ∷ "shadow_grace_days"
    ∷ "min_new_memories" ∷ "scan_interval_seconds" ∷ "near_duplicate_threshold" ∷ "policy_version"
    ∷ "safe_actions" ∷ "retention" ∷ []

unfoldable pub parse_enabled : Json → Result Bool
parse_enabled (boolean b) = ok b
parse_enabled _ = err (value_error "enabled must be a boolean")

unfoldable pub parse_mode : Texts → Json → Result Mode
parse_mode texts (text raw_mode) =
    let mode = texts.strip_upper raw_mode in
    if mode == "OBSERVE"
    then ok observe
    else if mode == "MANUAL"
    then ok manual
    else if mode == "AUTO_SAFE"
    then ok auto_safe
    else err (value_error "mode must be OBSERVE, MANUAL, or AUTO_SAFE")
parse_mode texts _ = err (value_error "mode must be OBSERVE, MANUAL, or AUTO_SAFE")

-- The loop over `raw_safe_actions`.
unfoldable pub action_names : Texts → Items → Result (List String)
action_names texts nil = ok []
action_names texts (cons (text item) items) =
    action_names texts items >>= λ names. ok (texts.strip_upper item ∷ names)
action_names texts (cons item items) = err (value_error "safe_actions entries must be strings")

abbrev pub is_allowed_action : String → Bool
is_allowed_action name =
    any (λ allowed. allowed == name) ("EXACT_DUPLICATE" ∷ "RETENTION_EXPIRED" ∷ [])

unfoldable pub parse_safe_actions : Texts → Option Json → Result SafeActions
parse_safe_actions texts none = ok (record { exact_duplicate = true; retention_expired = true })
parse_safe_actions texts (some (array items)) = do
  names ← action_names texts items
  raise_if (not (all is_allowed_action names))
      (value_error "safe_actions may contain only EXACT_DUPLICATE and RETENTION_EXPIRED")
  ok (record {
    exact_duplicate = any (λ name. name == "EXACT_DUPLICATE") names;
    retention_expired = any (λ name. name == "RETENTION_EXPIRED") names;
  })
parse_safe_actions texts (some _) = err (value_error "safe_actions must be a collection")

-- `retention[type_name] = rule`
unfoldable pub assign : String → RetentionRule → Retention → Retention
assign type_name rule [] = (type_name, rule) ∷ []
assign type_name rule ((name, old) ∷ rest) =
    let more = assign type_name rule rest in
    if name == type_name then (name, rule) ∷ rest else (name, old) ∷ more

-- The loop over the overrides, with the normalized names met so far.
unfoldable pub override : Texts → List String → Fields → Retention → Result Retention
override texts seen end retention = ok retention
override texts seen (field raw_type raw_rule rest) retention = do
  type_name ← normalize_type_key texts raw_type
  raise_if (any (λ name. name == type_name) seen)
      (value_error ("retention contains duplicate normalized type '" <> type_name <> "'"))
  rule ← retention_rule texts type_name raw_rule
  override texts (type_name ∷ seen) rest (assign type_name rule retention)

unfoldable pub parse_retention : Texts → Json → Result Retention
parse_retention texts (object overrides) = override texts [] overrides default_retention
parse_retention texts _ = err (value_error "retention must be a mapping")

-- The integer field of that name, with its default and its bounds.
unfoldable pub int_field : String → ℕ → ℕ → ℕ → String → Fields → Result ℕ
int_field name given minimum maximum shown value =
    bounded_int name minimum maximum shown (default (int (pos given)) (get name value))

unfoldable pub from_mapping : Texts → Json → Result Spec
from_mapping texts (object value) =
    let unknown = sorted (unknown_keys allowed_fields value) in
    do
      raise_if (not (is_empty unknown))
          (value_error ("unknown consolidation policy fields: " <> join unknown))
      enabled ← parse_enabled (default (boolean false) (get "enabled" value))
      mode ← parse_mode texts (default (text "OBSERVE") (get "mode" value))
      near ← threshold (default (float default_threshold) (get "near_duplicate_threshold" value))
      safe_actions ← parse_safe_actions texts (get "safe_actions" value)
      retention ← parse_retention texts (default (object end) (get "retention" value))
      anchors ← int_field "max_anchors_per_run" 100 1 1000 "1 and 1000" value
      proposals ← int_field "max_proposals_per_run" 200 1 1000 "1 and 1000" value
      grace ← int_field "shadow_grace_days" 7 7 365 "7 and 365" value
      new_memories ← int_field "min_new_memories" 20 1 100000 "1 and 100000" value
      interval ← int_field "scan_interval_seconds" 86400 60 31536000 "60 and 31536000" value
      version ← int_field "policy_version" 1 1 2147483647 "1 and 2147483647" value
      ok (record {
        enabled = enabled;
        mode = mode;
        max_anchors_per_run = anchors;
        max_proposals_per_run = proposals;
        shadow_grace_days = grace;
        min_new_memories = new_memories;
        scan_interval_seconds = interval;
        near_duplicate_threshold = near;
        policy_version = version;
        safe_actions = safe_actions;
        retention = retention;
      })
from_mapping texts _ = err (value_error "consolidation policy must be a mapping")

abbrev pub mode_text : Mode → String
mode_text observe = "OBSERVE"
mode_text manual = "MANUAL"
mode_text auto_safe = "AUTO_SAFE"

abbrev pub action_text : RetentionAction → String
action_text review = "REVIEW"
action_text shadow = "SHADOW"

abbrev pub days_json : Option ℕ → Json
days_json none = null
days_json (some n) = int (pos n)

-- `sorted(self.safe_actions)`
abbrev pub safe_action_items : SafeActions → Items
safe_action_items actions =
    let expired = if actions.retention_expired then cons (text "RETENTION_EXPIRED") nil else nil in
    if actions.exact_duplicate then cons (text "EXACT_DUPLICATE") expired else expired

unfoldable pub retention_fields : Retention → Fields
retention_fields [] = end
retention_fields ((type_name, rule) ∷ rest) =
    field type_name
      (object
        (field "days" (days_json rule.days) (field "action" (text (action_text rule.action)) end)))
      (retention_fields rest)

abbrev pub name_before : String × RetentionRule → String × RetentionRule → Bool
name_before a b = str_leb a.0 b.0

unfoldable pub to_mapping : Spec → Fields
to_mapping spec = field "enabled" (boolean spec.enabled) (
    field "mode" (text (mode_text spec.mode)) (
      field "max_anchors_per_run" (int (pos spec.max_anchors_per_run)) (
        field "max_proposals_per_run" (int (pos spec.max_proposals_per_run)) (
          field "shadow_grace_days" (int (pos spec.shadow_grace_days)) (
            field "min_new_memories" (int (pos spec.min_new_memories)) (
              field "scan_interval_seconds" (int (pos spec.scan_interval_seconds)) (
                field "near_duplicate_threshold" (float spec.near_duplicate_threshold) (
                  field "policy_version" (int (pos spec.policy_version)) (
                    field "safe_actions" (array (safe_action_items spec.safe_actions)) (
                      field "retention"
                        (object (retention_fields (sort_by name_before spec.retention)))
                        end))))))))))
