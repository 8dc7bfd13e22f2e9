-- ===== src/Intents/Fence.antt =====
-- The fence of the attempts: of several workers that read one row, one claims it.
use mem0_platform_sidecar.Prelude.{
  ℕ, ◌≤◌, ◌≡◌, refl, Bool, true, false, not, ◌&&◌, none, List, [], ◌∷◌, arith, eqb, leb,
  if◌then◌else◌, Bool-cases, inl, inr,
}
use mem0_platform_sidecar.Prelude.Tables.{find_row, update_rows, count_rows}
use mem0_platform_sidecar.Prelude.Result.{fence_error, Result, ok, err}
use mem0_platform_sidecar.Intents.Rows.{active, is_active, Intent, Store, Sanitizer, max_attempts}
use mem0_platform_sidecar.Intents.Lifecycle.{
  lease_is_live, observes_exhausted_add, matches, claim_row, claim_recovery, guarded_claim,
  renew_active_attempt, unresolved_claim, is_attempt, require_active_attempt,
}

-- A claimed row no longer matches the copy it was claimed by.
not_matches-claim_row :
    (held row : Intent) (now : ℕ)
    → matches held row ≡ true
    → matches held (claim_row held now row) ≡ false
unfolding observes_exhausted_add
not_matches-claim_row held row now h = ground arith

count_rows-claimed :
    (held : Intent) (now : ℕ) (rows : List Intent)
    → count_rows (matches held) (update_rows (matches held) (claim_row held now) rows) ≡ 0
unfolding count_rows update_rows
count_rows-claimed held now [] = refl
count_rows-claimed held now (row ∷ rows) = elim (Bool-cases (matches held row)) [
  | inl e ↦ rw e (rw (not_matches-claim_row held row now e) (count_rows-claimed held now rows))
  | inr e ↦ rw e (rw e (count_rows-claimed held now rows))
]

-- What a claim that returned `true` has tested, and what it has written.
pub record IsClaim (held : Intent) (now : ℕ) (s t : Store) : Type 0 where
  pub not_live : (is_active held.status && lease_is_live now held.lease_expires_at) ≡ false
  pub has_attempt :
      (leb max_attempts held.attempt_count && not (observes_exhausted_add held)) ≡ false
  pub one_row : count_rows (matches held) s.intents ≡ 1
  pub after : t ≡ record s { intents = update_rows (matches held) (claim_row held now) s.intents }

guarded_claim_cases :
    (held : Intent) (now : ℕ) (s : Store)
    → (guarded_claim held now s).0 ≡ ok true
    → (count_rows (matches held) s.intents ≡ 1)
      × ((guarded_claim held now s).1
          ≡ record s { intents = update_rows (matches held) (claim_row held now) s.intents })
unfolding guarded_claim
guarded_claim_cases held now s h = elim (Bool-cases (eqb (count_rows (matches held) s.intents) 1)) [
  | inl e ↦ (ground (arith, e), rw (guarded_claim, e))
  | inr e ↦ absurd (ground (arith, e))
]

unresolved_claim-ne-true : (r : Result Intent × Store) → (unresolved_claim r).0 ≡ ok true → ⊥
unresolved_claim-ne-true (ok intent, s) h = cc
unresolved_claim-ne-true (err e, s) h = cc

claim_recovery-IsClaim :
    (sanitize : Sanitizer) (held : Intent) (now : ℕ) (s : Store)
    → (claim_recovery sanitize held now s).0 ≡ ok true
    → IsClaim held now s (claim_recovery sanitize held now s).1
unfolding claim_recovery
claim_recovery-IsClaim sanitize held now s h =
    elim (Bool-cases (is_active held.status && lease_is_live now held.lease_expires_at)) [
      | inl live ↦ absurd (
          let h' : ◌≡◌ {A = Result Bool} (ok false) (ok true) = rw (claim_recovery, live) at h in
          cc)
      | inr not_live ↦
          elim (Bool-cases
            (leb max_attempts held.attempt_count && not (observes_exhausted_add held))) [
              | inl over ↦
                  absurd (unresolved_claim-ne-true _ (rw (claim_recovery, not_live, over) at h))
              | inr fine ↦
                  let h' : (guarded_claim held now s).0 ≡ ok true =
                    rw (claim_recovery, not_live, fine) at h in
                  let (one, after) = guarded_claim_cases held now s h' in
                  record {
                    not_live = not_live;
                    has_attempt = fine;
                    one_row = one;
                    after = rw (claim_recovery, not_live, fine) after;
                  }
            ]
    ]

-- A copy of a row by which one worker has claimed it cannot be used for another claim, at that time
-- or later: the second claim raises the fence error.
pub claim_recovery_once :
    (sanitize : Sanitizer) (held : Intent) (now later : ℕ) (s : Store)
    → (claim_recovery sanitize held now s).0 ≡ ok true
    → now ≤ later
    → (claim_recovery sanitize held later (claim_recovery sanitize held now s).1).0
      ≡ err (fence_error "durable mutation recovery claim lost its fence")
claim_recovery_once sanitize held now later s h le =
    let c = claim_recovery-IsClaim sanitize held now s h in
    let n : (is_active held.status && lease_is_live later held.lease_expires_at) ≡ false =
      ground (arith, c.not_live) in
    rw c.after (
      unfold claim_recovery guarded_claim in
      (rw (n, c.has_attempt) (rw (count_rows-claimed held now s.intents))))

-- No row is the old attempt of an active copy, once a claim by that copy has gone through.
not_is_attempt :
    (held row : Intent) (now : ℕ)
    → held.status ≡ active
    → is_attempt held.id held.attempt_count none
        (if matches held row then claim_row held now row else row)
      ≡ false
unfolding observes_exhausted_add
not_is_attempt held row now a = elim (Bool-cases (matches held row)) [
  | inl e ↦ rw e (ground arith)
  | inr e ↦ rw e (ground arith)
]

find_row-claimed :
    (held : Intent) (now : ℕ) (rows : List Intent)
    → held.status ≡ active
    → find_row
        (is_attempt held.id held.attempt_count none)
        (update_rows (matches held) (claim_row held now) rows)
      ≡ none
unfolding find_row update_rows
find_row-claimed held now [] a = refl
find_row-claimed held now (row ∷ rows) a =
    rw (not_is_attempt held row now a) (find_row-claimed held now rows a)

-- Once a recovery of an active intent with at least one attempt has been claimed, that attempt is lost
-- to the worker that held it: it can neither confirm the attempt nor renew its lease.
pub claim_ends_attempt :
    (sanitize : Sanitizer) (held : Intent) (now later : ℕ) (s : Store)
    → held.status ≡ active
    → 1 ≤ held.attempt_count
    → (claim_recovery sanitize held now s).0 ≡ ok true
    → (require_active_attempt held.id held.attempt_count none (claim_recovery sanitize held now s).1
        ≡ err (fence_error "durable mutation attempt lost its fence"))
      × ((renew_active_attempt held.id held.attempt_count later
            (claim_recovery sanitize held now s).1).0
          ≡ err (fence_error "durable mutation attempt lost its fence"))
claim_ends_attempt sanitize held now later s a p h =
    let after = (claim_recovery sanitize held now s).1 in
    let lost : require_active_attempt held.id held.attempt_count none after
        ≡ err (fence_error "durable mutation attempt lost its fence") =
      rw ((claim_recovery-IsClaim sanitize held now s h).after) (
        unfold require_active_attempt in
        (rw (find_row-claimed held now s.intents a) (ground arith))) in
    (lost, unfold renew_active_attempt in (rw (renew_active_attempt, lost)))
