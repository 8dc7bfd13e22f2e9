-- ===== src/Scope.antt =====
-- The identifiers of a scope: src/mem0_sidecar/core/scope.py.
use mem0_platform_sidecar.Prelude.{
  ℕ, String, ◌<>◌, Bool, true, false, not, ◌&&◌, Option, none, some, ltb, if◌then◌else◌, ◌==◌,
}
use mem0_platform_sidecar.Prelude.Result.{value_error, Result, ok, err}
use mem0_platform_sidecar.Prelude.Fallible.{◌>>=◌}
use mem0_platform_sidecar.Json.{Json, null, text, Fields, end, field}

-- What is asked of Python's str and of unicodedata.
pub record Unicode : Type 0 where
  pub strip : String → String
  pub nfc : String → String
  pub len : String → ℕ  -- in code points
  pub has_space : String → Bool
  pub has_control : String → Bool  -- a character of a category that starts with C

abbrev pub maximum : String → ℕ
maximum field_name = if field_name == "project_id" then 128 else 256

abbrev pub maximum_text : String → String
maximum_text field_name = if field_name == "project_id" then "128" else "256"

abbrev pub not_portable : String → String
not_portable field_name =
    field_name <> " must be a portable 1-" <> maximum_text field_name <> " character identifier"

-- The conditions on a text.
unfoldable pub is_portable : Unicode → String → String → Bool
is_portable unicode field_name value =
    not (value == "")
    && value == unicode.strip value
    && not (ltb (maximum field_name) (unicode.len value))
    && unicode.nfc value == value
    && not (unicode.has_space value)
    && not (unicode.has_control value)

unfoldable pub validate_scope_id : Unicode → String → Bool → Json → Result (Option String)
validate_scope_id unicode field_name required null =
    if required then err (value_error (not_portable field_name)) else ok none
validate_scope_id unicode field_name required (text value) =
    if is_portable unicode field_name value
    then ok (some value)
    else err (value_error (not_portable field_name))
validate_scope_id unicode field_name required _ = err (value_error (not_portable field_name))

pub record Scope : Type 0 where
  pub project_id : Option String
  pub user_id : Option String
  pub app_id : Option String
  pub agent_id : Option String
  pub run_id : Option String

-- The field of that name, left out where there is no value.
abbrev pub field_if : String → Option String → Fields → Fields
field_if name none rest = rest
field_if name (some value) rest = if value == "" then rest else field name (text value) rest

unfoldable pub as_filter_dict : Scope → Fields
as_filter_dict scope = field_if "user_id" scope.user_id (
    field_if "agent_id" scope.agent_id
      (field_if "app_id" scope.app_id (field_if "run_id" scope.run_id end)))

abbrev pub as_json : Option String → Json
as_json none = null
as_json (some value) = text value

-- `normalized_project_id if app_id is None else app_id`
abbrev pub app_or_project : Json → Option String → Json
app_or_project null project = as_json project
app_or_project value project = value

unfoldable pub normalize_scope : Unicode → Json → Json → Json → Json → Json → Result Scope
normalize_scope unicode project_id user_id app_id agent_id run_id =
    validate_scope_id unicode "project_id" true project_id >>= λ project.
    validate_scope_id unicode "app_id" true (app_or_project app_id project) >>= λ app.
    validate_scope_id unicode "user_id" false user_id >>= λ user.
    validate_scope_id unicode "agent_id" false agent_id >>= λ agent.
    validate_scope_id unicode "run_id" false run_id >>= λ run.
    ok (record {
      project_id = project;
      user_id = user;
      app_id = app;
      agent_id = agent;
      run_id = run;
    })
