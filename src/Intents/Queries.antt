-- ===== src/Intents/Queries.antt =====
-- The reads of `MutationIntentRepository`: `find_by_operation_key`, `find_resumable_by_fingerprint`,
-- `payload`, `result`, `list_recoverable` and `list_blocking`; and the scopes that
-- src/mem0_sidecar/workers/add_recovery.py recovers.
use mem0_platform_sidecar.Prelude.{
  ℕ, String, Bool, true, false, ◌&&◌, ◌||◌, Option, none, some, List, take, leb, ◌==◌,
}
use mem0_platform_sidecar.Prelude.Text.{then_leb, str_leb}
use mem0_platform_sidecar.Prelude.Tables.{find_row, rows_where}
use mem0_platform_sidecar.Prelude.Order.{sort_by}
use mem0_platform_sidecar.Json.{Json, text, Fields, get, loads_object}
use mem0_platform_sidecar.Intents.Rows.{
  IntentStatus, active, unknown, pending, failed, partial, is_active, is_exhausted, is_blocking,
  Intent, Store, recovery_limit,
}
use mem0_platform_sidecar.Intents.Lifecycle.{same_operation}

unfoldable pub find_by_operation_key : String → String → String → String → Store → Option Intent
find_by_operation_key project_id app_id operation operation_key s =
    find_row (same_operation project_id app_id operation operation_key) s.intents

abbrev pub payload : Intent → Fields
payload intent = loads_object intent.payload_json

abbrev pub result : Intent → Fields
result intent = loads_object intent.result_json

abbrev pub is_resumable : IntentStatus → Bool
is_resumable active = true
is_resumable unknown = true
is_resumable pending = true
is_resumable failed = true
is_resumable partial = true
is_resumable _ = false

unfoldable pub newest_before : Intent → Intent → Bool
newest_before a b = then_leb b.created_at a.created_at (str_leb b.id a.id)

-- `value == request_fingerprint`, for the value that a payload may lack
abbrev pub is_text : String → Option Json → Bool
is_text wanted (some (text s)) = s == wanted
is_text wanted _ = false

abbrev pub has_fingerprint : String → Intent → Bool
has_fingerprint request_fingerprint intent =
    is_text request_fingerprint (get "request_fingerprint" (payload intent))

abbrev pub in_scope : String → String → Intent → Bool
in_scope project_id app_id intent = intent.project_id == project_id && intent.app_id == app_id

unfoldable pub find_resumable_by_fingerprint :
    String → String → String → String → Store → Option Intent
find_resumable_by_fingerprint project_id app_id operation request_fingerprint s =
    find_row (has_fingerprint request_fingerprint) (
      take recovery_limit (
        sort_by newest_before (
          rows_where
            (λ intent.
              in_scope project_id app_id intent
              && intent.operation == operation
              && is_resumable intent.status)
            s.intents)))

-- `lease_expires_at IS NULL OR lease_expires_at <= now`
abbrev pub lease_is_over : ℕ → Option ℕ → Bool
lease_is_over now none = true
lease_is_over now (some t) = leb t now

abbrev pub is_waiting : IntentStatus → Bool
is_waiting unknown = true
is_waiting pending = true
is_waiting _ = false

abbrev pub operation_selected : Option String → Intent → Bool
operation_selected none intent = true
operation_selected (some operation) intent = intent.operation == operation

unfoldable pub is_recoverable : ℕ → Intent → Bool
is_recoverable now intent =
    is_waiting intent.status
    || is_exhausted intent.status && intent.operation == "memory.add"
    || is_active intent.status && lease_is_over now intent.lease_expires_at

unfoldable pub recovers_before : Intent → Intent → Bool
recovers_before a b =
    then_leb a.updated_at b.updated_at (then_leb a.created_at b.created_at (str_leb a.id b.id))

unfoldable pub list_recoverable : String → String → Option String → ℕ → Store → List Intent
list_recoverable project_id app_id operation now s = take recovery_limit (
    sort_by recovers_before (
      rows_where
        (λ intent.
          in_scope project_id app_id intent
          && operation_selected operation intent
          && is_recoverable now intent)
        s.intents))

unfoldable pub oldest_before : Intent → Intent → Bool
oldest_before a b = then_leb a.created_at b.created_at (str_leb a.id b.id)

unfoldable pub list_blocking : String → String → Store → List Intent
list_blocking project_id app_id s = take recovery_limit (
    sort_by oldest_before (
      rows_where (λ intent. in_scope project_id app_id intent && is_blocking intent.status)
        s.intents))
