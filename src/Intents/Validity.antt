-- ===== src/Intents/Validity.antt =====
-- What the methods write to a row keeps the row well formed.
use mem0_platform_sidecar.Prelude.{
  ℕ, ◌≤◌, ◌<◌, String, ◌≡◌, true, false, not, ◌&&◌, ◌||◌, Option, none, some, List, arith, All, leb,
  is_some,
}
use mem0_platform_sidecar.Prelude.Tables.{IsKeyed}
use mem0_platform_sidecar.Json.{Fields}
use mem0_platform_sidecar.Intents.Rows.{
  IntentStatus, active, unknown, exhausted, failed, partial, is_terminal, status_eqb, Intent, Store,
  Sanitizer, max_attempts,
}
use mem0_platform_sidecar.Intents.Lifecycle.{
  Request, new_intent, set_payload, unresolve, fail_row, complete_row, observes_exhausted_add,
  matches, claim_row, renew_row,
}

-- What holds of an intent between two calls.
pub record IsValid (intent : Intent) : Type 0 where
  pub attempts : (1 ≤ intent.attempt_count) × (intent.attempt_count ≤ max_attempts)
  pub leased : is_some intent.lease_expires_at ≡ true → intent.status ≡ active
  pub settled : is_terminal intent.status ≡ true → is_some intent.completed_at ≡ true
  pub used_up : intent.status ≡ exhausted → intent.attempt_count ≡ max_attempts
  pub undecided : intent.status ≡ unknown → intent.attempt_count < max_attempts

pub new_intent-IsValid :
    (sanitize : Sanitizer) (id : String) (now : ℕ) (r : Request)
    → IsValid (new_intent sanitize id now r)
new_intent-IsValid sanitize id now r = ground arith

pub set_payload-IsValid :
    (sanitize : Sanitizer) (payload : Fields) (keys : List String) (now : ℕ) (intent : Intent)
    → IsValid intent
    → IsValid (set_payload sanitize payload keys now intent)
set_payload-IsValid sanitize payload keys now intent v = record {
  attempts = v.attempts;
  leased = v.leased;
  settled = v.settled;
  used_up = v.used_up;
  undecided = v.undecided;
}

pub unresolve-IsValid :
    (sanitize : Sanitizer) (error : Option Fields) (now : ℕ) (intent : Intent)
    → IsValid intent
    → IsValid (unresolve sanitize error now intent)
unresolve-IsValid sanitize none now intent v = ground arith
unresolve-IsValid sanitize (some error) now intent v = ground arith

pub fail_row-IsValid :
    (sanitize : Sanitizer) (error : Fields) (status : IntentStatus) (result : Option Fields)
    (now : ℕ) (intent : Intent)
    → (status_eqb status failed || status_eqb status partial) ≡ true
    → IsValid intent
    → IsValid (fail_row sanitize error status result now intent)
fail_row-IsValid sanitize error status none now intent h v = ground arith
fail_row-IsValid sanitize error status (some result) now intent h v = ground arith

pub complete_row-IsValid :
    (sanitize : Sanitizer) (result : Fields) (now : ℕ) (intent : Intent)
    → IsValid intent
    → IsValid (complete_row sanitize result now intent)
complete_row-IsValid sanitize result now intent v = ground arith

-- The test that a claim makes of its copy bounds the attempts of the rows that match it.
pub claim_row-IsValid :
    (held row : Intent) (now : ℕ)
    → (leb max_attempts held.attempt_count && not (observes_exhausted_add held)) ≡ false
    → matches held row ≡ true
    → IsValid row
    → IsValid (claim_row held now row)
unfolding observes_exhausted_add
claim_row-IsValid held row now h m v = ground arith

pub renew_row-IsValid :
    (now : ℕ) (intent : Intent)
    → intent.status ≡ active
    → IsValid intent
    → IsValid (renew_row now intent)
renew_row-IsValid now intent a v = ground arith

pub record IsStore (s : Store) : Type 0 where
  pub rows : All IsValid s.intents
  pub keyed : IsKeyed (λ (intent : Intent). intent.id) s.intents
