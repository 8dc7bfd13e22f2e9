-- ===== src/Intents/History.antt =====
-- What the methods of the intent repository keep, over every sequence of calls by any workers.
use mem0_platform_sidecar.Prelude.{
  ℕ, String, ◌≡◌, refl, true, false, not, ◌&&◌, ◌||◌, Option, none, some, List, [], ◌∷◌, ◌++◌,
  arith, All-append, In, eqb, leb, ltb, length, ◌==◌, eq_iff, Bool-cases, Option-cases, inl, inr,
}
use mem0_platform_sidecar.Prelude.Tables.{
  find_row, update_rows, count_rows, IsKeyed-snoc, absent_of_any, row_of_key, find_row-In,
  find_row-holds, IsKeyed-update_rows, All-update_rows,
}
use mem0_platform_sidecar.Prelude.Result.{Result, ok, err}
use mem0_platform_sidecar.Json.{Fields}
use mem0_platform_sidecar.Intents.Rows.{
  IntentStatus, active, failed, partial, is_active, status_eqb, Intent, Target, Store, Sanitizer,
  max_attempts, max_targets, intent_has_id,
}
use mem0_platform_sidecar.Intents.Targets.{distinct, add_targets}
use mem0_platform_sidecar.Intents.Lifecycle.{
  Request, new_intent, is_duplicate, create, change_intent, set_payload, update_payload, unresolve,
  mark_unresolved, unresolved_claim, fail_row, fail, complete_row, complete, lease_is_live,
  observes_exhausted_add, matches, claim_row, guarded_claim, claim_recovery, require_active_attempt,
  renew_row, renew_active_attempt, with_intent, renewed_store, is_attempt,
}
use mem0_platform_sidecar.Intents.Validity.{
  IsValid, IsStore, new_intent-IsValid, set_payload-IsValid, unresolve-IsValid, fail_row-IsValid,
  complete_row-IsValid, claim_row-IsValid, renew_row-IsValid,
}

pub data Call : Type 0 where
  created : String → (String → String) → ℕ → Request → Call
  payload_updated : String → Fields → List String → ℕ → Call
  unresolved : String → Option Fields → ℕ → Call
  ended : String → Fields → IntentStatus → Option Fields → ℕ → Call
  was_completed : String → Fields → ℕ → Call
  claimed : Intent → ℕ → Call
  renewed : String → ℕ → ℕ → Call

-- The tables after a call, whether it returned or raised.
unfoldable pub perform : Sanitizer → Call → Store → Store
perform sanitize (created id target_id now r) s = (create sanitize id target_id now r s).1
perform sanitize (payload_updated id fields keys now) s =
    (update_payload sanitize id fields keys now s).1
perform sanitize (unresolved id error now) s = (mark_unresolved sanitize id error now s).1
perform sanitize (ended id error status result now) s =
    (fail sanitize id error status result now s).1
perform sanitize (was_completed id result now) s = (complete sanitize id result now s).1
perform sanitize (claimed held now) s = (claim_recovery sanitize held now s).1
perform sanitize (renewed id attempt_count now) s = (renew_active_attempt id attempt_count now s).1

unfoldable pub history : Sanitizer → List Call → Store → Store
history sanitize [] s = s
history sanitize (c ∷ cs) s = history sanitize cs (perform sanitize c s)

change_intent-IsStore :
    (id : String) (f : Intent → Intent) (s : Store)
    → ((intent : Intent) → (f intent).id ≡ intent.id)
    → ((intent : Intent) → IsValid intent → IsValid (f intent))
    → IsStore s
    → IsStore (change_intent id f s).1
unfolding change_intent
change_intent-IsStore id f s same keep q =
    elim (Option-cases (find_row (intent_has_id id) s.intents)) [
      | inl e ↦ rw (e, change_intent) q
      | inr (intent, e) ↦
          rw (e, change_intent)
            (record {
              rows =
                  All-update_rows IsValid (intent_has_id id) f s.intents (λ i m v h. keep i v)
                    q.rows;
              keyed =
                  IsKeyed-update_rows (λ (i : Intent). i.id) (intent_has_id id) f s.intents same
                    q.keyed;
            })
    ]

with_intent-store :
    (intent : Intent) (r : Result (List Target) × Store) → (with_intent intent r).1 ≡ r.1
with_intent-store intent (ok added, s) = refl
with_intent-store intent (err e, s) = refl

intents-add_targets :
    (target_id : String → String) (now : ℕ) (id : String) (ids : List String) (s : Store)
    → (add_targets target_id now id ids s).1.intents ≡ s.intents
unfolding add_targets
intents-add_targets target_id now id ids s = ground arith

create-IsStore :
    (sanitize : Sanitizer) (id : String) (target_id : String → String) (now : ℕ) (r : Request)
    (s : Store)
    → IsStore s
    → IsStore (create sanitize id target_id now r s).1
unfolding create
create-IsStore sanitize id target_id now r s q =
    let intent = new_intent sanitize id now r in
    let s' = record s { intents = s.intents ++ intent ∷ [] } in
    elim (Bool-cases (ltb max_targets (length (distinct r.memory_ids)))) [
      | inl bad ↦ rw bad q
      | inr fine ↦ rw fine (elim (Bool-cases (is_duplicate intent s.intents)) [
        | inl twice ↦ rw twice q
        | inr fresh ↦ rw fresh (
            rw (with_intent-store intent (add_targets target_id now id (distinct r.memory_ids) s'))
              (record {
                rows = rw (intents-add_targets target_id now id (distinct r.memory_ids) s') (
                    All-append IsValid s.intents (intent ∷ []) q.rows
                      (new_intent-IsValid sanitize id now r, tt));
                keyed = rw (intents-add_targets target_id now id (distinct r.memory_ids) s') (
                    IsKeyed-snoc (λ (i : Intent). i.id) s.intents intent q.keyed
                      (absent_of_any (λ (i : Intent). i.id) id s.intents
                        (unfold is_duplicate in (ground (arith, fresh)))));
              }))
      ])
    ]

fail-IsStore :
    (sanitize : Sanitizer) (id : String) (error : Fields) (status : IntentStatus)
    (result : Option Fields) (now : ℕ) (s : Store)
    → IsStore s
    → IsStore (fail sanitize id error status result now s).1
unfolding fail
fail-IsStore sanitize id error status result now s q =
    elim (Bool-cases (status_eqb status failed || status_eqb status partial)) [
      | inl good ↦ rw good (
          change_intent-IsStore id (fail_row sanitize error status result now) s (same result)
            (λ intent. fail_row-IsValid sanitize error status result now intent good) q)
      | inr bad ↦ rw bad q
    ]
  where
    same :
        (result : Option Fields) (intent : Intent)
        → (fail_row sanitize error status result now intent).id ≡ intent.id
    same none intent = refl
    same (some fields) intent = refl

mark_unresolved-IsStore :
    (sanitize : Sanitizer) (id : String) (error : Option Fields) (now : ℕ) (s : Store)
    → IsStore s
    → IsStore (mark_unresolved sanitize id error now s).1
unfolding mark_unresolved
mark_unresolved-IsStore sanitize id error now s q =
    change_intent-IsStore id (unresolve sanitize error now) s (same error)
      (unresolve-IsValid sanitize error now) q
  where
    same :
        (error : Option Fields) (intent : Intent)
        → (unresolve sanitize error now intent).id ≡ intent.id
    same none intent = refl
    same (some fields) intent = refl

guarded_claim-IsStore :
    (held : Intent) (now : ℕ) (s : Store)
    → (leb max_attempts held.attempt_count && not (observes_exhausted_add held)) ≡ false
    → IsStore s
    → IsStore (guarded_claim held now s).1
unfolding guarded_claim
guarded_claim-IsStore held now s h q =
    let after : IsStore
        (record s { intents = update_rows (matches held) (claim_row held now) s.intents }) =
      record {
        rows =
            All-update_rows IsValid (matches held) (claim_row held now) s.intents
              (λ row m v t. claim_row-IsValid held row now h t v) q.rows;
        keyed =
            IsKeyed-update_rows (λ (i : Intent). i.id) (matches held) (claim_row held now) s.intents
              (λ i. refl) q.keyed;
      } in
    elim (Bool-cases (eqb (count_rows (matches held) s.intents) 1)) [
      | inl e ↦ rw (e, guarded_claim) after
      | inr e ↦ rw (e, guarded_claim) after
    ]

unresolved_claim-store : (r : Result Intent × Store) → (unresolved_claim r).1 ≡ r.1
unresolved_claim-store (ok intent, s) = refl
unresolved_claim-store (err e, s) = refl

claim_recovery-IsStore :
    (sanitize : Sanitizer) (held : Intent) (now : ℕ) (s : Store)
    → IsStore s
    → IsStore (claim_recovery sanitize held now s).1
unfolding claim_recovery
claim_recovery-IsStore sanitize held now s q =
    elim (Bool-cases (is_active held.status && lease_is_live now held.lease_expires_at)) [
      | inl live ↦ rw (claim_recovery, live) q
      | inr over ↦
          elim (Bool-cases
            (leb max_attempts held.attempt_count && not (observes_exhausted_add held))) [
              | inl spent ↦
                  rw (claim_recovery, over, spent)
                    (rw (unresolved_claim-store _)
                      (mark_unresolved-IsStore sanitize held.id _ now s q))
              | inr fine ↦ rw (claim_recovery, over, fine) (guarded_claim-IsStore held now s fine q)
            ]
    ]

attempt-In :
    (id : String) (n : ℕ) (s : Store) (intent : Intent)
    → require_active_attempt id n none s ≡ ok intent
    → In intent s.intents × (intent.status ≡ active) × ((intent.id == id) ≡ true)
unfolding require_active_attempt
attempt-In id n s intent h = elim (Bool-cases (ltb n 1)) [
  | inl bad ↦ absurd (
      let h' : ◌≡◌ {A = Result Intent} (err _) (ok intent) =
        rw (require_active_attempt, bad) at h in
      cc)
  | inr fine ↦ elim (Option-cases (find_row (is_attempt id n none) s.intents)) [
    | inl e ↦ absurd (
        let h' : ◌≡◌ {A = Result Intent} (err _) (ok intent) =
          rw (require_active_attempt, fine, e) at h in
        cc)
    | inr (i, e) ↦
        let same : ◌≡◌ {A = Result Intent} (ok i) (ok intent) =
          rw (require_active_attempt, fine, e) at h in
        let e' : find_row (is_attempt id n none) s.intents ≡ some intent = cc in
        let t = find_row-holds (is_attempt id n none) s.intents intent e' in
        (
          find_row-In (is_attempt id n none) s.intents intent e',
          ground (arith, t),
          ground (arith, t),
        )
  ]
]

renew_active_attempt-IsStore :
    (id : String) (n now : ℕ) (s : Store) → IsStore s → IsStore (renew_active_attempt id n now s).1
unfolding renew_active_attempt
renew_active_attempt-IsStore id n now s q =
    go (require_active_attempt id n none s) (attempt-In id n s)
  where
    go :
        (r : Result Intent)
        → ((intent : Intent)
            → r ≡ ok intent
            → In intent s.intents × (intent.status ≡ active) × ((intent.id == id) ≡ true))
        → IsStore (renewed_store r id now s).1
    go (err e) f = q
    go (ok intent) f =
        let (m, a, same) = f intent refl in
        record {
          rows =
              All-update_rows IsValid (intent_has_id id) (renew_row now) s.intents
                (λ row n v t.
                  renew_row-IsValid now row
                    (rw
                      (row_of_key (λ (i : Intent). i.id) s.intents row intent q.keyed n m
                        (ground
                          (arith, eq_iff row.id id, eq_iff intent.id id, eq_iff row.id intent.id)))
                      a)
                    v)
                q.rows;
          keyed =
              IsKeyed-update_rows (λ (i : Intent). i.id) (intent_has_id id) (renew_row now)
                s.intents (λ i. refl) q.keyed;
        }

perform-IsStore :
    (sanitize : Sanitizer) (c : Call) (s : Store) → IsStore s → IsStore (perform sanitize c s)
unfolding perform update_payload complete
perform-IsStore sanitize (created id target_id now r) s q =
    create-IsStore sanitize id target_id now r s q
perform-IsStore sanitize (payload_updated id fields keys now) s q =
    change_intent-IsStore id (set_payload sanitize fields keys now) s (λ i. refl)
      (set_payload-IsValid sanitize fields keys now) q
perform-IsStore sanitize (unresolved id error now) s q =
    mark_unresolved-IsStore sanitize id error now s q
perform-IsStore sanitize (ended id error status result now) s q =
    fail-IsStore sanitize id error status result now s q
perform-IsStore sanitize (was_completed id result now) s q =
    change_intent-IsStore id (complete_row sanitize result now) s (λ i. refl)
      (complete_row-IsValid sanitize result now) q
perform-IsStore sanitize (claimed held now) s q = claim_recovery-IsStore sanitize held now s q
perform-IsStore sanitize (renewed id n now) s q = renew_active_attempt-IsStore id n now s q

-- Through any sequence of calls, with copies of rows of any age, the ids stay distinct and each
-- intent has between one and three attempts, a lease only while it is active, a completion time when
-- it is completed, failed or partial, all three attempts when it is exhausted, and fewer when its
-- outcome is unknown.
pub history-IsStore :
    (sanitize : Sanitizer) (calls : List Call) (s : Store)
    → IsStore s
    → IsStore (history sanitize calls s)
unfolding history
history-IsStore sanitize [] s q = q
history-IsStore sanitize (c ∷ cs) s q =
    history-IsStore sanitize cs (perform sanitize c s) (perform-IsStore sanitize c s q)
