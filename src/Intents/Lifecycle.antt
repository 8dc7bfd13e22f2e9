-- ===== src/Intents/Lifecycle.antt =====
-- The life of an intent: `create`, `update_payload`, `claim_recovery`, `require_active_attempt`,
-- `renew_active_attempt`, `mark_unresolved`, `fail`, `release_for_recovery` and `complete`.
use mem0_platform_sidecar.Prelude.{
  ℕ, ◌+◌, String, Bool, true, false, not, ◌&&◌, ◌||◌, Option, none, some, List, [], ◌∷◌, ◌++◌, any,
  length, ltb, leb, eqb, is_some, if◌then◌else◌, ◌==◌,
}
use mem0_platform_sidecar.Prelude.Tables.{find_row, update_rows, count_rows}
use mem0_platform_sidecar.Prelude.Result.{
  value_error, key_error, fence_error, integrity_error, Result, ok, err, Action,
}
use mem0_platform_sidecar.Json.{
  text, object, Fields, end, field, get, dumps, empty_object, single, loads_object,
}
use mem0_platform_sidecar.Intents.Rows.{
  IntentStatus, active, unknown, exhausted, completed, failed, partial, is_active, is_exhausted,
  status_eqb, Intent, Target, Store, Sanitizer, max_targets, lease_seconds, max_attempts, seconds,
  intent_has_id,
}
use mem0_platform_sidecar.Intents.Targets.{distinct, add_targets, too_many}

-- The arguments of `create`.
pub record Request : Type 0 where
  pub project_id : String
  pub app_id : String
  pub event_id : String
  pub operation : String
  pub payload : Fields
  pub memory_ids : List String
  pub operation_key : String

abbrev pub new_intent : Sanitizer → String → ℕ → Request → Intent
new_intent sanitize id now r = record {
  id = id;
  project_id = r.project_id;
  app_id = r.app_id;
  event_id = r.event_id;
  operation = r.operation;
  operation_key = r.operation_key;
  status = active;
  payload_json = dumps (object (sanitize r.project_id r.payload));
  result_json = empty_object;
  error_json = empty_object;
  attempt_count = 1;
  lease_expires_at = some (now + seconds lease_seconds);
  created_at = now;
  updated_at = now;
  completed_at = none;
}

abbrev pub same_operation : String → String → String → String → Intent → Bool
same_operation project_id app_id operation operation_key intent =
    intent.project_id == project_id
    && intent.app_id == app_id
    && intent.operation == operation
    && intent.operation_key == operation_key

-- The primary key and the unique constraint of the table.
unfoldable pub is_duplicate : Intent → List Intent → Bool
is_duplicate intent intents =
    any (intent_has_id intent.id) intents
    || any (same_operation intent.project_id intent.app_id intent.operation intent.operation_key)
        intents

abbrev pub with_intent : Intent → Result (List Target) × Store → Result Intent × Store
with_intent intent (ok added, s) = (ok intent, s)
with_intent intent (err e, s) = (err e, s)

-- `r.operation_key` is the key that was given, or else the fresh random one.
unfoldable pub create : Sanitizer → String → (String → String) → ℕ → Request → Action Store Intent
create sanitize id target_id now r s =
    let target_ids = distinct r.memory_ids in
    let intent = new_intent sanitize id now r in
    if ltb max_targets (length target_ids)
    then (err (value_error too_many), s)
    else if is_duplicate intent s.intents
    then (err integrity_error, s)
    else with_intent intent
        (add_targets target_id now id target_ids (record s { intents = s.intents ++ intent ∷ [] }))

unfoldable pub get_intent : String → Store → Result Intent
get_intent id s = elim (find_row (intent_has_id id) s.intents) [
  | none ↦ err (key_error id)
  | some intent ↦ ok intent
]

-- `self.get(id)`, and the assignments to the row
unfoldable pub change_intent : String → (Intent → Intent) → Action Store Intent
change_intent id f s = elim (find_row (intent_has_id id) s.intents) [
  | none ↦ (err (key_error id), s)
  | some intent ↦ (ok (f intent), record s { intents = update_rows (intent_has_id id) f s.intents })
]

-- `{key: existing[key] for key in preserve_keys if key in existing}`
unfoldable pub preserved : List String → Fields → Fields
preserved [] existing = end
preserved (key ∷ keys) existing =
    let rest = preserved keys existing in
    elim (get key existing) [ none ↦ rest | some value ↦ field key value rest ]

unfoldable pub has_key : String → Fields → Bool
has_key key fields = is_some (get key fields)

unfoldable pub keep_new : Fields → Fields → Fields
keep_new kept end = end
keep_new kept (field key value rest) =
    let others = keep_new kept rest in if has_key key kept then others else field key value others

unfoldable pub append_fields : Fields → Fields → Fields
append_fields end more = more
append_fields (field key value rest) more = field key value (append_fields rest more)

-- `{**kept, **{key: value for key, value in payload.items() if key not in kept}}`
abbrev pub merged : Fields → Fields → Fields
merged kept payload = append_fields kept (keep_new kept payload)

abbrev pub set_payload : Sanitizer → Fields → List String → ℕ → Intent → Intent
set_payload sanitize payload preserve_keys now intent =
    let kept = preserved preserve_keys (loads_object intent.payload_json) in
    record intent {
      payload_json = dumps (object (sanitize intent.project_id (merged kept payload)));
      updated_at = now;
    }

unfoldable pub update_payload : Sanitizer → String → Fields → List String → ℕ → Action Store Intent
update_payload sanitize id payload preserve_keys now =
    change_intent id (set_payload sanitize payload preserve_keys now)

abbrev pub set_error : Sanitizer → Option Fields → Intent → Intent
set_error sanitize none intent = intent
set_error sanitize (some error) intent = record intent {
  error_json = dumps (object (sanitize intent.project_id error));
}

abbrev pub unresolve : Sanitizer → Option Fields → ℕ → Intent → Intent
unresolve sanitize error now intent = set_error sanitize error (record intent {
  status = if leb max_attempts intent.attempt_count then exhausted else unknown;
  lease_expires_at = none;
  updated_at = now;
})

unfoldable pub mark_unresolved : Sanitizer → String → Option Fields → ℕ → Action Store Intent
mark_unresolved sanitize id error now = change_intent id (unresolve sanitize error now)

unfoldable pub release_for_recovery : Sanitizer → String → Option Fields → ℕ → Action Store Intent
unfolding mark_unresolved
release_for_recovery sanitize id error now = mark_unresolved sanitize id error now

abbrev pub set_result : Sanitizer → Option Fields → Intent → Intent
set_result sanitize none intent = intent
set_result sanitize (some result) intent = record intent {
  result_json = dumps (object (sanitize intent.project_id result));
}

abbrev pub fail_row : Sanitizer → Fields → IntentStatus → Option Fields → ℕ → Intent → Intent
fail_row sanitize error status result now intent =
    let settled = set_result sanitize result (record intent {
      status = status;
      error_json = dumps (object (sanitize intent.project_id error));
    }) in
    record settled { lease_expires_at = none; completed_at = some now; updated_at = now }

unfoldable pub fail :
    Sanitizer → String → Fields → IntentStatus → Option Fields → ℕ → Action Store Intent
fail sanitize id error status result now s =
    if status_eqb status failed || status_eqb status partial
    then change_intent id (fail_row sanitize error status result now) s
    else (err (value_error "terminal mutation failure status is invalid"), s)

abbrev pub complete_row : Sanitizer → Fields → ℕ → Intent → Intent
complete_row sanitize result now intent = record intent {
  status = completed;
  result_json = dumps (object (sanitize intent.project_id result));
  error_json = empty_object;
  lease_expires_at = none;
  completed_at = some now;
  updated_at = now;
}

unfoldable pub complete : Sanitizer → String → Fields → ℕ → Action Store Intent
complete sanitize id result now = change_intent id (complete_row sanitize result now)

abbrev pub lease_is_live : ℕ → Option ℕ → Bool
lease_is_live now none = false
lease_is_live now (some t) = ltb now t

-- An add whose attempts are used up may still be observed, without a further attempt.
unfoldable pub observes_exhausted_add : Intent → Bool
observes_exhausted_add intent =
    intent.operation == "memory.add"
    && is_exhausted intent.status
    && leb max_attempts intent.attempt_count

-- The condition of the guarded update: `held` is the copy of the row that the caller read before.
abbrev pub matches : Intent → Intent → Bool
matches held row =
    row.id == held.id
    && status_eqb row.status held.status
    && eqb row.attempt_count held.attempt_count

abbrev pub claim_row : Intent → ℕ → Intent → Intent
claim_row held now row = record row {
  attempt_count =
      if observes_exhausted_add held then held.attempt_count else held.attempt_count + 1;
  status = active;
  lease_expires_at = some (now + seconds lease_seconds);
  updated_at = now;
}

abbrev pub unresolved_claim : Result Intent × Store → Result Bool × Store
unresolved_claim (ok intent, s) = (ok false, s)
unresolved_claim (err e, s) = (err e, s)

-- The guarded update, and its fence: exactly one row has to match.
unfoldable pub guarded_claim : Intent → ℕ → Action Store Bool
guarded_claim held now s =
    let after = record s { intents = update_rows (matches held) (claim_row held now) s.intents } in
    if eqb (count_rows (matches held) s.intents) 1
    then (ok true, after)
    else (err (fence_error "durable mutation recovery claim lost its fence"), after)

unfoldable pub claim_recovery : Sanitizer → Intent → ℕ → Action Store Bool
claim_recovery sanitize held now s =
    if is_active held.status && lease_is_live now held.lease_expires_at
    then (ok false, s)
    else if leb max_attempts held.attempt_count && not (observes_exhausted_add held)
    then unresolved_claim (
        mark_unresolved sanitize held.id
          (some (single "message" (text "Mutation recovery attempts exhausted"))) now s)
    else guarded_claim held now s

abbrev pub claimed_at : Option ℕ → Intent → Bool
claimed_at none intent = true
claimed_at (some t) intent = eqb intent.updated_at t

abbrev pub is_attempt : String → ℕ → Option ℕ → Intent → Bool
is_attempt id attempt_count claim_updated_at intent =
    intent.id == id
    && is_active intent.status
    && eqb intent.attempt_count attempt_count
    && claimed_at claim_updated_at intent

unfoldable pub require_active_attempt : String → ℕ → Option ℕ → Store → Result Intent
require_active_attempt id attempt_count claim_updated_at s =
    if ltb attempt_count 1
    then err (value_error "expected mutation attempt count is invalid")
    else elim (find_row (is_attempt id attempt_count claim_updated_at) s.intents) [
      | none ↦ err (fence_error "durable mutation attempt lost its fence")
      | some intent ↦ ok intent
    ]

abbrev pub renew_row : ℕ → Intent → Intent
renew_row now intent = record intent {
  lease_expires_at = some (now + seconds lease_seconds);
  updated_at = now;
}

abbrev pub renewed_store : Result Intent → String → ℕ → Action Store Intent
renewed_store (err e) id now s = (err e, s)
renewed_store (ok intent) id now s = (
  ok (renew_row now intent),
  record s { intents = update_rows (intent_has_id id) (renew_row now) s.intents },
)

unfoldable pub renew_active_attempt : String → ℕ → ℕ → Action Store Intent
renew_active_attempt id attempt_count now s =
    renewed_store (require_active_attempt id attempt_count none s) id now s
