-- ===== src/Policy/Examples.antt =====
-- The theorems about policies at a concrete policy.
use mem0_platform_sidecar.Prelude.{arith, ℕ, ◌≡◌, refl, true, none, some, [], ◌∷◌}
use mem0_platform_sidecar.Prelude.Order.{sort_by, insert}
use mem0_platform_sidecar.Prelude.Text.{str_leb}
use mem0_platform_sidecar.Prelude.Result.{ok, err, value_error}
use mem0_platform_sidecar.Prelude.Fallible.{◌>>=◌, raise_if}
use mem0_platform_sidecar.Json.{pos, boolean, int, float, text, object, Fields, end, field, get}
use mem0_platform_sidecar.Policy.Values.{
  Texts, auto_safe, review, shadow, default_retention, unknown_keys, normalize_type_key,
  bounded_int, rule_days, rule_action, retention_rule, out_of_range, threshold, is_nan,
}
use mem0_platform_sidecar.Policy.Parse.{
  Spec, parse_enabled, parse_mode, action_names, parse_safe_actions, assign, override,
  parse_retention, int_field, from_mapping, name_before, to_mapping,
}
use mem0_platform_sidecar.Policy.Bounds.{IsPermitted, from_mapping-IsPermitted}
use mem0_platform_sidecar.Policy.RoundTrip.{KeepsTexts, assign_all, from_mapping-to_mapping}

-- What a run of `from_mapping` unfolds.
program : Unit {0}
unfolding from_mapping parse_enabled parse_mode action_names parse_safe_actions assign override
    parse_retention int_field unknown_keys normalize_type_key bounded_int rule_days rule_action
    retention_rule out_of_range threshold ◌>>=◌ raise_if sort_by insert str_leb get
program = tt

-- Texts that are as they should be already.
abbrev plain : Texts
plain = record {
  strip_upper = λ value. value;
  nfkc_strip_lower = λ value. value;
  underscored = λ value. value;
}

-- The bits of NaN.
abbrev nan : ℕ
nan = 9221120237041090560

abbrev given : Fields
given = field "enabled" (boolean true) (
    field "mode" (text "AUTO_SAFE") (
      field "near_duplicate_threshold" (float nan) (
        field "retention"
          (object (
            field "note" (object (field "days" (int (pos 5)) (field "action" (text "SHADOW") end)))
              end))
          end)))

abbrev parsed : Spec
parsed = record {
  enabled = true;
  mode = auto_safe;
  max_anchors_per_run = 100;
  max_proposals_per_run = 200;
  shadow_grace_days = 7;
  min_new_memories = 20;
  scan_interval_seconds = 86400;
  near_duplicate_threshold = nan;
  policy_version = 1;
  safe_actions = record { exact_duplicate = true; retention_expired = true };
  retention = assign "note" (record { days = some 5; action = shadow }) default_retention;
}

given_parses : from_mapping plain (object given) ≡ ok parsed
unfolding program
given_parses = refl

nan-is_nan : is_nan nan ≡ true
nan-is_nan = refl

from_mapping-IsPermitted_example : IsPermitted parsed
from_mapping-IsPermitted_example = from_mapping-IsPermitted plain given parsed given_parses

too_low :
    threshold (float 0) ≡ err (value_error "near_duplicate_threshold must be between 0.5 and 1.0")
unfolding program
too_low = refl

parsed-IsPermitted : IsPermitted parsed
parsed-IsPermitted = from_mapping-IsPermitted plain given parsed given_parses

abbrev small : Spec
small = record parsed {
  retention =
      ("note", record { days = some 5; action = shadow })
      ∷ ("log", record { days = none; action = review })
      ∷ [];
}

small-IsPermitted : IsPermitted small
small-IsPermitted = record {
  anchors = parsed-IsPermitted.anchors;
  proposals = parsed-IsPermitted.proposals;
  grace = parsed-IsPermitted.grace;
  new_memories = parsed-IsPermitted.new_memories;
  interval = parsed-IsPermitted.interval;
  version = parsed-IsPermitted.version;
  near = parsed-IsPermitted.near;
  rules = (((omega arith, omega arith), refl), ((tt, refl), tt));
}

plain-KeepsTexts : KeepsTexts plain
plain-KeepsTexts = record {
  modes = λ mode. refl;
  actions = λ action. refl;
  exact = refl;
  expired = refl;
}

from_mapping-to_mapping_example :
    from_mapping plain (object (to_mapping small))
    ≡ ok (record small {
      retention = assign_all (sort_by name_before small.retention) default_retention;
    })
from_mapping-to_mapping_example =
    from_mapping-to_mapping plain small plain-KeepsTexts small-IsPermitted
      ((refl, refl), ((refl, refl), tt)) ((refl, tt), (tt, tt))
