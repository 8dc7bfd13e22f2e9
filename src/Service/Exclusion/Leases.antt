-- ===== src/Service/Exclusion/Leases.antt =====
-- What the lease of an attempt keeps the other workers from.
use mem0_platform_sidecar.Prelude.{
  ℕ, ◌+◌, ◌<◌, String, ◌≡◌, ◌⊎◌, refl, sym, ap, subst, ◌∙◌, Bool, true, false, ltb, if◌then◌else◌,
  ◌==◌, inl, inr, some, List, [], ◌∷◌, In, All, arith, eq_refl, eq_iff, Bool-cases, some_inj,
}
use mem0_platform_sidecar.Prelude.Tables.{IsKeyed, row_of_key}
use mem0_platform_sidecar.Prelude.Result.{ok}
use mem0_platform_sidecar.Consolidation.Rows.{Proposal}
use mem0_platform_sidecar.Service.Rows.{Tables, Settings, outcome, seconds}
use mem0_platform_sidecar.Service.Shadow.{
  Attempt, settled, started, take_attempt, begin_locked, locked, begin,
}
use mem0_platform_sidecar.Service.Locked.{locked-get_proposal, get_proposal-In, get_proposal-id}
use mem0_platform_sidecar.Service.Exclusion.{begin-locked}
use mem0_platform_sidecar.Service.Moves.{
  phase, approved, exporting, hidden, rolled_back, outdated, failed, waiting, State, state_of,
  Action, approving, replacing, starting, ending, rolling_back, Step, refused, approves, expires,
  replaces, misses, starts, lapses, hides, fails, abandons, shows, IsReady, id_of, Moves, Follows,
  IsKeyed-Follows,
}
use mem0_platform_sidecar.Service.Refinement.Approvals.{begin-Follows}
use mem0_platform_sidecar.Service.Refinement.Histories.{
  Command, aim, action, run_all, Runs, run_all-Runs,
}

-- A proposal that is exported by that attempt until that time.
abbrev running : String → ℕ → State
running attempt_id end = record { phase = exporting; attempt = some attempt_id; expiry = some end }

-- An action that is no business of the attempt: a start before its lease ends, the end of another
-- attempt, a rollback, or an approval that does not expect the status EXPORTING.
abbrev pub Spares : String → ℕ → Action → Type 0
Spares attempt_id end (approving expected) = ¬ (expected ≡ exporting)
Spares attempt_id end replacing = ⊥
Spares attempt_id end (starting id now until) = now < end
Spares attempt_id end (ending id) = (id == attempt_id) ≡ false
Spares attempt_id end rolling_back = Unit

-- The command is for another proposal, or its action is no business of the attempt.
abbrev pub LeavesAlone : String → String → ℕ → Command × ℕ → Type 0
LeavesAlone id attempt_id end (command, now) =
    ((aim command == id) ≡ false) ⊎ Spares attempt_id end (action command now)

module _ (attempt_id : String) (end : ℕ) where
  not_ready : (now : ℕ) → now < end → IsReady now (running attempt_id end) → ⊥
  not_ready now h (inl e) = cc
  not_ready now h (inr (e, inl f)) = cc
  not_ready now h (inr (e, inr f)) = omega arith

  not_other : (id : String) → (id == attempt_id) ≡ false → some attempt_id ≡ some id → ⊥
  not_other id h e = let same : attempt_id ≡ id = some_inj e in ground (arith, eq_iff id attempt_id)

  Step-running :
      (t : State) (a : Action)
      → Spares attempt_id end a
      → Step (running attempt_id end) t a
      → t ≡ running attempt_id end
  Step-running t a h (refused e) = e
  Step-running t (approving x) h (approves e f) = absurd (h (sym e))
  Step-running t (approving x) h (expires e f) = absurd (h (sym e))
  Step-running t replacing h (replaces e) = absurd h
  Step-running t replacing h (misses e) = absurd h
  Step-running t (starting id now x) h (starts r e) = absurd (not_ready now h r)
  Step-running t (starting id now x) h (lapses r e) = absurd (not_ready now h r)
  Step-running t (ending id) h (hides u own e) = absurd (not_other id h own)
  Step-running t (ending id) h (fails u own e) = absurd (not_other id h own)
  Step-running t (ending id) h (abandons u own e) = absurd (not_other id h own)
  Step-running t rolling_back h (shows e f) = cc

-- Each row of the second table comes from one of the first.
Follows-In :
    (id : String) (a : Action) (ps qs : List Proposal) (q : Proposal)
    → Follows id a ps qs
    → In q qs
    → (p : Proposal) × In p ps × (p.id ≡ q.id) × Moves (p.id == id) a p q
Follows-In id a [] [] q h m = elim m [ ]
Follows-In id a [] (r ∷ qs) q h m = absurd h
Follows-In id a (p ∷ ps) [] q h m = elim m [ ]
Follows-In id a (p ∷ ps) (r ∷ qs) q h (inl e) = rw e (p, inl refl, h.0, h.1)
Follows-In id a (p ∷ ps) (r ∷ qs) q h (inr m) =
    let (p', n, same, move) = Follows-In id a ps qs q h.2 m in (p', inr n, same, move)

module _ (id attempt_id : String) (end : ℕ) where
  -- The attempt has every row of that id.
  abbrev Has : List Proposal → Type 0
  Has rows = (q : Proposal) → In q rows → (q.id == id) ≡ true → state_of q ≡ running attempt_id end

  Moves-running :
      (command : Command) (now : ℕ) (p q : Proposal)
      → LeavesAlone id attempt_id end (command, now)
      → (p.id == id) ≡ true
      → state_of p ≡ running attempt_id end
      → Moves (p.id == aim command) (action command now) p q
      → state_of q ≡ running attempt_id end
  Moves-running command now p q alone same has move = elim (Bool-cases (p.id == aim command)) [
    | inr f ↦ let e : q ≡ p = rw f at move in ap (λ x. state_of x) e ∙ has
    | inl t ↦
        let step : Step (state_of p) (state_of q) (action command now) = rw t at move in
        elim alone [
          | inl other ↦
              absurd
                (ground (arith, eq_iff p.id id, eq_iff p.id (aim command), eq_refl (aim command)))
          | inr spares ↦
              Step-running attempt_id end (state_of q) (action command now) spares
                (subst (λ x. Step x (state_of q) (action command now)) has step)
        ]
  ]

  Runs-Has :
      (history : List (Command × ℕ)) (ps rs : List Proposal)
      → All (LeavesAlone id attempt_id end) history
      → Runs history ps rs
      → Has ps
      → Has rs
  Runs-Has [] ps rs alone runs has = subst Has (sym runs) has
  Runs-Has ((command, now) ∷ rest) ps rs alone (qs, step, runs) has =
      Runs-Has rest qs rs alone.1 runs (λ q m same.
        let (p, n, e, move) = Follows-In (aim command) (action command now) ps qs q step m in
        let same' : (p.id == id) ≡ true = rw (sym e) at same in
        Moves-running command now p q alone.0 same' (has p n same') move)

exporting_only :
    (is_approved is_exporting is_hidden is_back is_stale is_failed : Bool)
    → (if is_approved
        then approved
        else if is_exporting
        then exporting
        else if is_hidden
        then hidden
        else if is_back
        then rolled_back
        else if is_stale
        then outdated
        else if is_failed
        then failed
        else waiting)
      ≡ exporting
    → is_exporting ≡ true
exporting_only true b c d e f h = cc
exporting_only false true c d e f h = refl
exporting_only false false true d e f h = cc
exporting_only false false false true e f h = cc
exporting_only false false false false true f h = cc
exporting_only false false false false false true h = cc
exporting_only false false false false false false h = cc

exports : (p : Proposal) → phase p.status ≡ exporting → p.status ≡ "EXPORTING"
unfolding phase
exports p h =
    let b : (p.status == "EXPORTING") ≡ true = exporting_only _ _ _ _ _ _ h in
    ground (arith, eq_iff p.status "EXPORTING")

running_row :
    (attempt_id : String) (end now : ℕ) (p : Proposal)
    → state_of (take_attempt attempt_id end now p) ≡ running attempt_id end
unfolding phase
running_row attempt_id end now p = refl

-- Another call while the row says that the attempt runs.
begin-running :
    (settings : Settings) (other_id attempt_id : String) (now end : ℕ) (id : String) (t : Tables)
    (q : Proposal)
    → locked id t ≡ ok q
    → q.id ≡ id
    → state_of q ≡ running attempt_id end
    → now < end
    → begin settings other_id now id t ≡ (ok (settled (outcome id "EXPORTING")), t)
unfolding begin begin_locked
begin-running settings other_id attempt_id now end id t q l is_id has early =
    let status : q.status ≡ "EXPORTING" = exports q (ap (λ (x : State). x.phase) has) in
    let own : q.shadow_attempt_id ≡ some attempt_id = ap (λ (x : State). x.attempt) has in
    let until : q.shadow_attempt_expires_at ≡ some end = ap (λ (x : State). x.expiry) has in
    let live : ltb now end ≡ true = ground arith in
    rw (begin, l, begin_locked, status, own, until, live, is_id)

-- After an attempt has started at one of the proposals, whose ids are distinct, the workers may run any
-- parts of their methods, in any order, among those that are for other proposals, or start an attempt
-- before the lease ends, or end another attempt, or roll back, or request the approval of a status
-- other than EXPORTING, but not approve with a memory that was added. Then a locked row of the proposal is still EXPORTING under the
-- attempt and its lease, and a further call of `shadow_approved` before the lease ends returns
-- EXPORTING and changes nothing.
pub begin_exclusive :
    (settings other : Settings) (attempt_id other_id : String) (now later : ℕ) (id : String)
    (attempt : Attempt) (s t : Tables) (history : List (Command × ℕ)) (q : Proposal)
    → IsKeyed id_of s.proposals
    → begin settings attempt_id now id s ≡ (ok (started attempt), t)
    → All (LeavesAlone id attempt_id (now + seconds settings.shadow_lease_seconds)) history
    → later < now + seconds settings.shadow_lease_seconds
    → locked id (run_all history t) ≡ ok q
    → (q.status ≡ "EXPORTING")
      × (q.shadow_attempt_id ≡ some attempt_id)
      × (q.shadow_attempt_expires_at ≡ some (now + seconds settings.shadow_lease_seconds))
      × (begin other other_id later id (run_all history t)
          ≡ (ok (settled (outcome id "EXPORTING")), run_all history t))
begin_exclusive settings other attempt_id other_id now later id attempt s t history q k h alone
      early l =
    let end = now + seconds settings.shadow_lease_seconds in
    let (p, is_id, locks) = begin-locked settings attempt_id now id attempt s t h in
    let row = take_attempt attempt_id end now p in
    let k' : IsKeyed id_of t.proposals = keyed_after in
    let has : Has id attempt_id end t.proposals = λ r m same.
      let n : In row t.proposals =
        get_proposal-In id t.proposals row (locked-get_proposal id t row locks).0 in
      let same' : (r.id == row.id) ≡ true = rw is_id same in
      let e : r ≡ row = row_of_key id_of t.proposals r row k' m n same' in
      ap (λ x. state_of x) e ∙ running_row attempt_id end now p in
    let found = (locked-get_proposal id (run_all history t) q l).0 in
    let is_id' : q.id ≡ id = get_proposal-id id (run_all history t).proposals q found in
    let state : state_of q ≡ running attempt_id end =
      Runs-Has id attempt_id end history t.proposals (run_all history t).proposals alone
        (run_all-Runs history t k') has q (get_proposal-In id (run_all history t).proposals q found)
        (rw is_id' (eq_refl id)) in
    (
      exports q (ap (λ (x : State). x.phase) state),
      ap (λ (x : State). x.attempt) state,
      ap (λ (x : State). x.expiry) state,
      begin-running other other_id attempt_id later end id (run_all history t) q l is_id' state
          early,
    )
  where
    keyed_after : IsKeyed id_of t.proposals
    keyed_after =
        let after : (begin settings attempt_id now id s).1 ≡ t = ap (λ r. r.1) h in
        subst (λ x. IsKeyed id_of x.proposals) after
          (IsKeyed-Follows id _ s.proposals _ (begin-Follows s k settings attempt_id now id) k)
