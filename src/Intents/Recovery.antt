-- ===== src/Intents/Recovery.antt =====
-- Which intents the recovery worker is given, and that it can claim them.
use mem0_platform_sidecar.Prelude.{
  ℕ, ◌≤◌, ◌<◌, String, ◌≡◌, ◌↔◌, Bool, true, false, not, ◌&&◌, Option, List, arith, In, In-take,
  In-split, and_true, refl, ◌⊎◌, inl, inr, length, take, All, All-of_In, eq_iff, leb, eq_refl,
}
use mem0_platform_sidecar.Prelude.Tables.{
  rows_where, rows_where-In, In-rows_where, IsKeyed, count_rows-key,
}
use mem0_platform_sidecar.Prelude.Order.{
  IsOrder, IsSorted-split, sort_by-IsSorted, In-sort_by, sort_by-In, sort_by,
}
use mem0_platform_sidecar.Prelude.Text.{
  str_leb, then_leb_total, then_leb_trans, then_leb_cases, str_leb_total, str_leb_trans,
}
use mem0_platform_sidecar.Prelude.Result.{ok}
use mem0_platform_sidecar.Intents.Rows.{
  IntentStatus, active, unknown, pending, exhausted, completed, failed, partial, is_active,
  is_blocking, status_eqb, Intent, Store, Sanitizer, max_attempts, recovery_limit,
}
use mem0_platform_sidecar.Intents.Lifecycle.{
  lease_is_live, observes_exhausted_add, matches, guarded_claim, claim_recovery,
}
use mem0_platform_sidecar.Intents.Queries.{
  in_scope, operation_selected, is_recoverable, recovers_before, list_recoverable, oldest_before,
  list_blocking,
}

status_eqb_refl : (s : IntentStatus) → status_eqb s s ≡ true
status_eqb_refl s = ground arith

matches_self : (held : Intent) → matches held held ≡ true
matches_self held = ground (arith, eq_refl held.id, status_eqb_refl held.status)

recoverable_row :
    (project_id app_id : String) (operation : Option String) (now : ℕ) (s : Store) (held : Intent)
    → In held (list_recoverable project_id app_id operation now s)
    → In held s.intents × (is_recoverable now held ≡ true)
unfolding list_recoverable
recoverable_row project_id app_id operation now s held m =
    let (i, t) =
      In-rows_where
        (λ intent.
          in_scope project_id app_id intent
          && operation_selected operation intent
          && is_recoverable now intent)
        held s.intents (In-sort_by recovers_before held _ (In-take recovery_limit held _ m)) in
    (i, ground (arith, t))

-- An intent listed as recoverable with attempts left is claimed by a worker that reads it, at any
-- later time and with the tables unchanged.
pub list_recoverable-claim :
    (sanitize : Sanitizer) (project_id app_id : String) (operation : Option String) (now later : ℕ)
    (s : Store) (held : Intent)
    → IsKeyed (λ (intent : Intent). intent.id) s.intents
    → In held (list_recoverable project_id app_id operation now s)
    → held.attempt_count < max_attempts
    → now ≤ later
    → (claim_recovery sanitize held later s).0 ≡ ok true
list_recoverable-claim sanitize project_id app_id operation now later s held k m left le =
    let (i, t) = recoverable_row project_id app_id operation now s held m in
    let n : (is_active held.status && lease_is_live later held.lease_expires_at) ≡ false =
      unfold is_recoverable in (ground (arith, t)) in
    let a : (leb max_attempts held.attempt_count && not (observes_exhausted_add held)) ≡ false =
      ground arith in
    let one =
      count_rows-key (λ (intent : Intent). intent.id) (matches held) s.intents held k i
        (matches_self held) (λ row h. ground (arith, h)) in
    unfold claim_recovery guarded_claim in (rw (n, a) (rw one))

-- The statuses of an intent that blocks its scope.
abbrev pub Blocks : IntentStatus → Type 0
Blocks status =
    (status ≡ active) ⊎ ((status ≡ unknown) ⊎ ((status ≡ pending) ⊎ (status ≡ exhausted)))

-- An intent that was created earlier is earlier, and among those of one instant, one whose id is not
-- greater.
abbrev pub IsEarlier : Intent → Intent → Type 0
IsEarlier a b =
    (a.created_at < b.created_at) ⊎ ((a.created_at ≡ b.created_at) × (str_leb a.id b.id ≡ true))

is_blocking-Blocks : (status : IntentStatus) → (is_blocking status ≡ true) ↔ Blocks status
is_blocking-Blocks active = (λ h. inl refl, λ h. refl)
is_blocking-Blocks unknown = (λ h. inr (inl refl), λ h. refl)
is_blocking-Blocks pending = (λ h. inr (inr (inl refl)), λ h. refl)
is_blocking-Blocks exhausted = (λ h. inr (inr (inr refl)), λ h. refl)
is_blocking-Blocks completed = ground arith
is_blocking-Blocks failed = ground arith
is_blocking-Blocks partial = ground arith

oldest_before-IsOrder : IsOrder oldest_before
unfolding oldest_before
oldest_before-IsOrder = record {
  total = λ a b. then_leb_total a.created_at b.created_at _ _ (str_leb_total a.id b.id);
  trans = λ a b c.
      then_leb_trans a.created_at b.created_at c.created_at _ _ _ (str_leb_trans a.id b.id c.id);
}

oldest_before-IsEarlier : (a b : Intent) → oldest_before a b ≡ true → IsEarlier a b
unfolding oldest_before
oldest_before-IsEarlier a b h = then_leb_cases a.created_at b.created_at _ h

-- Of an intent that stands in the table, in that scope, and is ACTIVE, UNKNOWN, PENDING or EXHAUSTED:
-- every listed intent is such a one too, and it is listed itself, unless a hundred are, each of them
-- earlier by its time of creation and then by its id.
pub list_blocking_first :
    (project_id app_id : String) (s : Store) (intent : Intent)
    → In intent s.intents
    → intent.project_id ≡ project_id
    → intent.app_id ≡ app_id
    → Blocks intent.status
    → All
        (λ row.
          In row s.intents
          × (row.project_id ≡ project_id)
          × (row.app_id ≡ app_id)
          × Blocks row.status)
        (list_blocking project_id app_id s)
      × (In intent (list_blocking project_id app_id s)
          ⊎ ((length (list_blocking project_id app_id s) ≡ 100)
              × All (λ row. IsEarlier row intent) (list_blocking project_id app_id s)))
unfolding list_blocking
list_blocking_first project_id app_id s intent m p a b = (
  All-of_In _ _ (λ row n. sound row n),
  elim (In-split recovery_limit intent rows listed) [
    | inl k ↦ inl k
    | inr (full, k) ↦ inr (
      full,
      All-of_In _ _ (λ row n. oldest_before-IsEarlier row intent (
          IsSorted-split oldest_before recovery_limit rows row intent
            (sort_by-IsSorted oldest_before oldest_before-IsOrder _) n k)),
    )
  ],
)
  where
    blocks : Intent → Bool
    blocks i = in_scope project_id app_id i && is_blocking i.status

    rows : List Intent
    rows = sort_by oldest_before (rows_where blocks s.intents)

    sound :
        (row : Intent)
        → In row (take recovery_limit rows)
        → In row s.intents
          × (row.project_id ≡ project_id)
          × (row.app_id ≡ app_id)
          × Blocks row.status
    sound row n =
        let (i, t) =
          In-rows_where blocks row s.intents
            (In-sort_by oldest_before row _ (In-take recovery_limit row rows n)) in
        let (c, d) = and_true (in_scope project_id app_id row) (is_blocking row.status) t in
        (
          i,
          ground (arith, eq_iff row.project_id project_id),
          ground (arith, eq_iff row.app_id app_id),
          (is_blocking-Blocks row.status).0 d,
        )

    listed : In intent rows
    listed =
        let k = (is_blocking-Blocks intent.status).1 b in
        let c : in_scope project_id app_id intent ≡ true =
          rw (p, a) (ground (arith, eq_refl project_id, eq_refl app_id)) in
        sort_by-In oldest_before intent _ (rows_where-In blocks intent s.intents m (rw (c, k)))
