-- ===== src/Policy/Values.antt =====
-- The values of a policy, and the checks of one field.
use mem0_platform_sidecar.Prelude.{
  ℕ, ◌+◌, ◌-◌, ◌^◌, ◌%◌, String, ◌<>◌, Bool, true, false, not, ◌&&◌, ◌||◌, Option, none, some, List,
  [], ◌∷◌, ltb, leb, eqb, if◌then◌else◌, ◌==◌, any,
}
use mem0_platform_sidecar.Prelude.Order.{sort_by}
use mem0_platform_sidecar.Prelude.Text.{str_leb}
use mem0_platform_sidecar.Prelude.Result.{value_error, overflow_error, Result, ok, err}
use mem0_platform_sidecar.Prelude.Fallible.{◌>>=◌, ◌>>◌, raise_if}
use mem0_platform_sidecar.Json.{
  pos, negsuc, Json, null, int, float, text, object, Fields, end, field, get,
}

-- What the code asks of Python's str, re and unicodedata. Nothing is assumed of it.
pub record Texts : Type 0 where
  pub strip_upper : String → String  -- `value.strip().upper()`
  pub nfkc_strip_lower : String → String  -- `unicodedata.normalize("NFKC", value).strip().lower()`
  pub underscored : String → String  -- `re.sub(r"[^a-z0-9]+", "_", value).strip("_")`

pub data Mode : Type 0 where
  observe manual auto_safe : Mode

pub data RetentionAction : Type 0 where
  review shadow : RetentionAction

pub record RetentionRule : Type 0 where
  pub days : Option ℕ
  pub action : RetentionAction

-- A subset of `ALLOWED_SAFE_ACTIONS`.
pub record SafeActions : Type 0 where
  pub exact_duplicate : Bool
  pub retention_expired : Bool

abbrev pub Retention : Type 0
Retention = List (String × RetentionRule)

abbrev rule : Option ℕ → RetentionAction → RetentionRule
rule days action = record { days = days; action = action }

abbrev pub default_retention : Retention
default_retention =
    ("session_state", rule (some 90) shadow)
    ∷ ("compact_summary", rule (some 90) shadow)
    ∷ ("auto_capture", rule (some 30) shadow)
    ∷ ("debugging_note", rule (some 180) review)
    ∷ ("decision", rule none review)
    ∷ ("user_preference", rule none review)
    ∷ ("project_profile", rule none review)
    ∷ []

abbrev pub join : List String → String
join [] = ""
join (x ∷ []) = x
join (x ∷ (y ∷ ys)) = x <> ", " <> join (y ∷ ys)

-- `sorted(map(str, set(value) - allowed))`
unfoldable pub unknown_keys : List String → Fields → List String
unknown_keys allowed end = []
unknown_keys allowed (field key value rest) =
    let more = unknown_keys allowed rest in if any (λ k. k == key) allowed then more else key ∷ more

abbrev pub is_empty : List String → Bool
is_empty [] = true
is_empty (x ∷ xs) = false

abbrev pub sorted : List String → List String
sorted = sort_by str_leb

-- `_normalize_type_key`
unfoldable pub normalize_type_key : Texts → String → Result String
normalize_type_key texts value =
    let normalized = texts.underscored (texts.nfkc_strip_lower value) in
    if normalized == ""
    then err (value_error "retention type names must not be empty")
    else ok normalized

-- `_bounded_int`, with the two bounds as the message shows them
unfoldable pub bounded_int : String → ℕ → ℕ → String → Json → Result ℕ
bounded_int field_name minimum maximum shown (int (pos n)) =
    if ltb n minimum || ltb maximum n
    then err (value_error (field_name <> " must be between " <> shown))
    else ok n
bounded_int field_name minimum maximum shown (int (negsuc n)) =
    err (value_error (field_name <> " must be between " <> shown))
bounded_int field_name minimum maximum shown _ =
    err (value_error (field_name <> " must be an integer"))

abbrev pub default : Json → Option Json → Json
default value none = value
default value (some given) = given

-- `days` of a rule, where a missing value and null are None
unfoldable pub rule_days : String → Option Json → Result (Option ℕ)
rule_days type_name none = ok none
rule_days type_name (some null) = ok none
rule_days type_name (some value) =
    bounded_int ("retention." <> type_name <> ".days") 1 36500 "1 and 36500" value >>= λ n.
    ok (some n)

unfoldable pub rule_action : Texts → String → Json → Result RetentionAction
rule_action texts type_name (text action) =
    let normalized_action = texts.strip_upper action in
    if normalized_action == "REVIEW"
    then ok review
    else if normalized_action == "SHADOW"
    then ok shadow
    else err (value_error ("retention." <> type_name <> ".action must be REVIEW or SHADOW"))
rule_action texts type_name _ =
    err (value_error ("retention." <> type_name <> ".action must be REVIEW or SHADOW"))

abbrev pub shadows_forever : Option ℕ → RetentionAction → Bool
shadows_forever none shadow = true
shadows_forever _ _ = false

-- `_retention_rule` of a value of the json module
unfoldable pub retention_rule : Texts → String → Json → Result RetentionRule
retention_rule texts type_name (object value) =
    let unknown = sorted (unknown_keys ("days" ∷ "action" ∷ []) value) in
    do
      raise_if (not (is_empty unknown)) (
          value_error ("retention rule '" <> type_name <> "' has unknown fields: " <> join unknown))
      days ← rule_days type_name (get "days" value)
      action ← rule_action texts type_name (default (text "REVIEW") (get "action" value))
      raise_if (shadows_forever days action)
          (value_error ("retention." <> type_name <> " cannot SHADOW without a finite day limit"))
      ok (record { days = days; action = action })
retention_rule texts type_name _ =
    err (value_error ("retention rule '" <> type_name <> "' must be a mapping"))

-- The bits of a double: its sign, and the rest as a number, which orders the doubles of one sign.
abbrev pub sign_bit : ℕ
sign_bit = 2 ^ 63

abbrev pub is_nan : ℕ → Bool
is_nan bits = ltb 9218868437227405312 (bits % sign_bit)

abbrev pub is_negative : ℕ → Bool
is_negative bits = leb sign_bit bits

abbrev pub half : ℕ
half = 4602678819172646912

abbrev pub one : ℕ
one = 4607182418800017408

-- The bits of 0.92.
abbrev pub default_threshold : ℕ
default_threshold = 4606461842859638129

-- `threshold < 0.5 or threshold > 1.0`: a comparison with NaN is false
unfoldable pub out_of_range : ℕ → Bool
out_of_range bits = not (is_nan bits) && (is_negative bits || ltb bits half || ltb one bits)

-- The integers from this one on are too large for a double.
abbrev pub float_limit : ℕ
float_limit = 2 ^ 1024 - 2 ^ 970

abbrev pub threshold_range : String
threshold_range = "near_duplicate_threshold must be between 0.5 and 1.0"

unfoldable pub threshold : Json → Result ℕ
threshold (float bits) = if out_of_range bits then err (value_error threshold_range) else ok bits
threshold (int (pos n)) =
    if leb float_limit n
    then err overflow_error
    else if eqb n 1
    then ok one
    else err (value_error threshold_range)
threshold (int (negsuc n)) =
    if leb float_limit (n + 1) then err overflow_error else err (value_error threshold_range)
threshold _ = err (value_error "near_duplicate_threshold must be a number")
