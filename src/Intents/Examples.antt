-- ===== src/Intents/Examples.antt =====
-- The theorems about intents at concrete tables.
use mem0_platform_sidecar.Prelude.{
  All, ◌⊎◌, ℕ, String, ◌≡◌, refl, ◌≤◌, inl, true, none, some, List, [], ◌∷◌, arith, In, length,
}
use mem0_platform_sidecar.Prelude.Tables.{find_row, rows_where, update_rows, count_rows}
use mem0_platform_sidecar.Prelude.Order.{sort_by, insert}
use mem0_platform_sidecar.Prelude.Text.{str_leb}
use mem0_platform_sidecar.Prelude.Result.{ok, err, fence_error}
use mem0_platform_sidecar.Json.{text, single, loads_object}
use mem0_platform_sidecar.Intents.Rows.{Intent, Store, Sanitizer, failed, of_intent}
use mem0_platform_sidecar.Intents.Targets.{
  add_targets, add_target_batch, targets, new_targets, new_ids, distinct, without, maximum_ordinal,
  target_before,
}
use mem0_platform_sidecar.Intents.Targets.Ordinals.{
  IsNumbered, IsNumbered-add_targets, add_target_batch-eq-add_targets,
}
use mem0_platform_sidecar.Intents.Lifecycle.{
  Request, new_intent, create, is_duplicate, change_intent, mark_unresolved, claim_recovery,
  guarded_claim, observes_exhausted_add, require_active_attempt, renew_active_attempt,
}
use mem0_platform_sidecar.Intents.Queries.{
  list_recoverable, list_blocking, recovers_before, oldest_before, is_recoverable,
}
use mem0_platform_sidecar.Intents.Fence.{claim_recovery_once, claim_ends_attempt}
use mem0_platform_sidecar.Intents.Validity.{IsStore}
use mem0_platform_sidecar.Intents.History.{
  Call, created, unresolved, ended, renewed, history, perform, history-IsStore,
}
use mem0_platform_sidecar.Intents.Recovery.{
  list_recoverable-claim, Blocks, IsEarlier, list_blocking_first,
}

-- What a run of the code of intents unfolds.
program : Unit {0}
unfolding create is_duplicate add_targets targets new_targets new_ids distinct without
    maximum_ordinal change_intent mark_unresolved claim_recovery guarded_claim
    observes_exhausted_add require_active_attempt renew_active_attempt list_recoverable
    list_blocking recovers_before oldest_before is_recoverable target_before history perform
    find_row rows_where update_rows count_rows sort_by insert loads_object str_leb
program = tt

-- A sanitizer that keeps what it is given.
abbrev keep : Sanitizer
keep project fields = fields

abbrev deletion : Request
deletion = record {
  project_id = "p";
  app_id = "a";
  event_id = "e1";
  operation = "delete";
  payload = single "reason" (text "user");
  memory_ids = "m1" ∷ "m2" ∷ "m1" ∷ [];
  operation_key = "k1";
}

abbrev target_ids : String → String
target_ids memory_id = memory_id

abbrev empty_store : Store
empty_store = record { intents = []; targets = [] }

-- The tables once the deletion has been written.
abbrev deleting : Store
deleting = (create keep "i1" target_ids 10 deletion empty_store).1

abbrev held : Intent
held = new_intent keep "i1" 10 deletion

-- The lease ends five minutes after the intent is written.
abbrev lapsed : ℕ
lapsed = 300000010

empty-IsStore : IsStore empty_store
empty-IsStore = record { rows = tt; keyed = tt }

deleting-IsStore : IsStore deleting
unfolding program
deleting-IsStore =
    history-IsStore keep (created "i1" target_ids 10 deletion ∷ []) empty_store empty-IsStore

claim_held : (claim_recovery keep held lapsed deleting).0 ≡ ok true
unfolding program
claim_held = refl

claim_recovery_once_example :
    (claim_recovery keep held 300000020 (claim_recovery keep held lapsed deleting).1).0
    ≡ err (fence_error "durable mutation recovery claim lost its fence")
claim_recovery_once_example =
    claim_recovery_once keep held lapsed 300000020 deleting claim_held (omega arith)

claim_ends_attempt_example :
    (require_active_attempt "i1" 1 none (claim_recovery keep held lapsed deleting).1
      ≡ err (fence_error "durable mutation attempt lost its fence"))
    × ((renew_active_attempt "i1" 1 300000020 (claim_recovery keep held lapsed deleting).1).0
        ≡ err (fence_error "durable mutation attempt lost its fence"))
claim_ends_attempt_example =
    claim_ends_attempt keep held lapsed 300000020 deleting refl (omega arith) claim_held

-- The attempt is renewed, given up, claimed again, and ends.
abbrev calls : List Call
calls =
    created "i1" target_ids 10 deletion
    ∷ renewed "i1" 1 20
    ∷ unresolved "i1" (some (single "code" (text "TIMEOUT"))) 30
    ∷ ended "i1" (single "code" (text "GONE")) failed none 40
    ∷ []

history-IsStore_example : IsStore (history keep calls empty_store)
history-IsStore_example = history-IsStore keep calls empty_store empty-IsStore

held_recoverable : In held (list_recoverable "p" "a" (some "delete") lapsed deleting)
unfolding program
held_recoverable = inl refl

list_recoverable-claim_example : (claim_recovery keep held 300000020 deleting).0 ≡ ok true
list_recoverable-claim_example =
    list_recoverable-claim keep "p" "a" (some "delete") lapsed 300000020 deleting held
      deleting-IsStore.keyed held_recoverable (omega arith) (omega arith)

held_stands : In held deleting.intents
unfolding program
held_stands = inl refl

list_blocking_first_example :
    All
      (λ row.
        In row deleting.intents × (row.project_id ≡ "p") × (row.app_id ≡ "a") × Blocks row.status)
      (list_blocking "p" "a" deleting)
    × (In held (list_blocking "p" "a" deleting)
        ⊎ ((length (list_blocking "p" "a" deleting) ≡ 100)
            × All (λ row. IsEarlier row held) (list_blocking "p" "a" deleting)))
list_blocking_first_example =
    list_blocking_first "p" "a" deleting held held_stands refl refl (inl refl)

deleting-IsNumbered : IsNumbered "i1" deleting.targets
unfolding program
deleting-IsNumbered = refl

IsNumbered-add_targets_example :
    IsNumbered "i1" (add_targets target_ids 20 "i1" ("m2" ∷ "m3" ∷ []) deleting).1.targets
IsNumbered-add_targets_example =
    IsNumbered-add_targets target_ids 20 "i1" ("m2" ∷ "m3" ∷ []) deleting deleting-IsNumbered

few_targets : count_rows (of_intent "i1") deleting.targets ≤ 5000
unfolding program
few_targets = omega arith

two_ids : length (distinct ("m2" ∷ "m3" ∷ [])) ≤ 200
unfolding program
two_ids = omega arith

add_target_batch-eq-add_targets_example :
    add_target_batch target_ids 20 "i1" ("m2" ∷ "m3" ∷ []) deleting
    ≡ add_targets target_ids 20 "i1" ("m2" ∷ "m3" ∷ []) deleting
add_target_batch-eq-add_targets_example =
    add_target_batch-eq-add_targets target_ids 20 "i1" ("m2" ∷ "m3" ∷ []) deleting
      deleting-IsNumbered few_targets two_ids
