-- ===== src/Intents/Rows.antt =====
-- The rows `MutationIntent` and `MutationIntentTarget` of src/mem0_sidecar/store/models.py, and the
-- constants of `MutationIntentRepository`. Instants are microseconds since the epoch, in UTC.
use mem0_platform_sidecar.Prelude.{ℕ, ◌*◌, String, Bool, true, false, Option, List, ◌==◌}
use mem0_platform_sidecar.Json.{Fields, Column}

-- The texts that the column `status` of an intent holds.
pub data IntentStatus : Type 0 where
  active unknown pending exhausted completed failed partial : IntentStatus

abbrev pub is_active : IntentStatus → Bool
is_active active = true
is_active _ = false

abbrev pub is_exhausted : IntentStatus → Bool
is_exhausted exhausted = true
is_exhausted _ = false

-- `BLOCKING_STATUSES`, which are also `RECOVERABLE_STATUSES`
abbrev pub is_blocking : IntentStatus → Bool
is_blocking active = true
is_blocking unknown = true
is_blocking pending = true
is_blocking exhausted = true
is_blocking _ = false

-- `TERMINAL_STATUSES`
abbrev pub is_terminal : IntentStatus → Bool
is_terminal completed = true
is_terminal failed = true
is_terminal partial = true
is_terminal _ = false

abbrev pub status_eqb : IntentStatus → IntentStatus → Bool
status_eqb active active = true
status_eqb unknown unknown = true
status_eqb pending pending = true
status_eqb exhausted exhausted = true
status_eqb completed completed = true
status_eqb failed failed = true
status_eqb partial partial = true
status_eqb _ _ = false

pub record Intent : Type 0 where
  pub id : String
  pub project_id : String
  pub app_id : String
  pub event_id : String
  pub operation : String
  pub operation_key : String
  pub status : IntentStatus
  pub payload_json : Column
  pub result_json : Column
  pub error_json : Column
  pub attempt_count : ℕ
  pub lease_expires_at : Option ℕ
  pub created_at : ℕ
  pub updated_at : ℕ
  pub completed_at : Option ℕ

pub data TargetStatus : Type 0 where
  target_pending target_completed target_failed : TargetStatus

abbrev pub target_status_eqb : TargetStatus → TargetStatus → Bool
target_status_eqb target_pending target_pending = true
target_status_eqb target_completed target_completed = true
target_status_eqb target_failed target_failed = true
target_status_eqb _ _ = false

pub record Target : Type 0 where
  pub id : String
  pub intent_id : String
  pub memory_id : String
  pub ordinal : ℕ
  pub status : TargetStatus
  pub error_json : Column
  pub created_at : ℕ
  pub updated_at : ℕ

-- The two tables.
pub record Store : Type 0 where
  pub intents : List Intent
  pub targets : List Target

abbrev pub max_targets : ℕ
max_targets = 5000

abbrev pub recovery_limit : ℕ
recovery_limit = 100

abbrev pub lease_seconds : ℕ
lease_seconds = 300

abbrev pub max_attempts : ℕ
max_attempts = 3

-- `timedelta(seconds=n)`
abbrev pub seconds : ℕ → ℕ
seconds n = n * 1000000

abbrev pub intent_has_id : String → Intent → Bool
intent_has_id id intent = intent.id == id

abbrev pub target_has_id : String → Target → Bool
target_has_id id target = target.id == id

abbrev pub of_intent : String → Target → Bool
of_intent intent_id target = target.intent_id == intent_id

-- `_safe_trace_document`, with the project whose internal hosts it scrubs. Its code is not part of
-- this model, and nothing is assumed of it.
abbrev pub Sanitizer : Type 0
Sanitizer = String → Fields → Fields
