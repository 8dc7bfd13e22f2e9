-- ===== src/Service/Hiding/RoundTrip.antt =====
-- `rollback_shadowed` after `shadow_approved`.
use mem0_platform_sidecar.Prelude.{
  ℕ, String, ◌≡◌, refl, sym, ap, subst, ◌∙◌, inl, inr, Bool, true, false, ◌||◌, none, some, List,
  [], ◌∷◌, arith, map, is_some, In, if◌then◌else◌, ◌==◌, eq_iff, Bool-cases,
}
use mem0_platform_sidecar.Prelude.Tables.{
  rows_where, In-rows_where, rows_where-In, update_rows, update_rows-In, IsKeyed,
  IsKeyed-update_rows,
}
use mem0_platform_sidecar.Prelude.Result.{ok}
use mem0_platform_sidecar.Json.{Fields}
use mem0_platform_sidecar.Consolidation.Rows.{Proposal}
use mem0_platform_sidecar.Consolidation.Proposals.{source_ids}
use mem0_platform_sidecar.Memories.Rows.{
  State, active, shadowed, merged, superseded, is_inactive, Memory,
}
use mem0_platform_sidecar.Memories.Reads.{is_among, in_reach, list_memories_by_ids}
use mem0_platform_sidecar.Memories.ById.{list_memories_by_ids_lem}
use mem0_platform_sidecar.Service.Rows.{Tables, Outcome, change_proposal}
use mem0_platform_sidecar.Service.Sources.{same_state, is_as_expected, proposal_sources}
use mem0_platform_sidecar.Service.Shadow.{
  Attempt, locked, Export, hidden_state, hide, is_row_of, hide_rows, shadow_export, finish,
}
use mem0_platform_sidecar.Service.Rollback.{
  is_hidden_by, show, roll_back, rollback_locked, rollback_shadowed,
}
use mem0_platform_sidecar.Service.Locked.{locked-change_proposal}
use mem0_platform_sidecar.Service.Checked.{row_id, proposal_sources-In, is_row_of-In, In-is_row_of}
use mem0_platform_sidecar.Service.Hiding.{hidden_rows, hidden_rows-IsSource, finish-cases}

-- A memory without the three columns that a rollback does not restore: the last scan, which it
-- forgets so that the memory is scanned again, the instant of the last change, and the proposal
-- that hides it, which an active memory has none of.
abbrev pub forget : Memory → Memory
forget memory = record memory {
  last_consolidation_scan_at = none;
  updated_at = 0;
  shadowed_by_proposal_id = none;
}

map-update_rows :
    (g : Memory → Memory) (p q : Memory → Bool) (f h : Memory → Memory) (rows : List Memory)
    → ((m : Memory)
        → In m rows
        → g (
            if q (if p m then f m else m)
            then h (if p m then f m else m)
            else (if p m then f m else m))
          ≡ g m)
    → map g (update_rows q h (update_rows p f rows)) ≡ map g rows
unfolding update_rows
map-update_rows g p q f h [] k = refl
map-update_rows g p q f h (x ∷ xs) k =
    ap (λ a. a ∷ map g (update_rows q h (update_rows p f xs))) (k x (inl refl))
    ∙ ap (λ l. g x ∷ l) (map-update_rows g p q f h xs (λ m i. k m (inr i)))

is_active_of : (state : State) → same_state state active ≡ true → active ≡ state
is_active_of active h = refl
is_active_of shadowed h = cc
is_active_of merged h = cc
is_active_of superseded h = cc

pub expected-parts :
    (hashes : Fields) (memory : Memory)
    → is_as_expected hashes active memory ≡ true
    → (is_some memory.deleted_at ≡ false) × (active ≡ memory.consolidation_state)
unfolding is_as_expected
expected-parts hashes memory h =
    let d : is_some memory.deleted_at ≡ false = ground arith in
    let a : same_state memory.consolidation_state active ≡ true = ground arith in
    (d, is_active_of memory.consolidation_state a)

hidden-state : (kind : String) → is_inactive (hidden_state kind) ≡ true
hidden-state kind = elim (Bool-cases (kind == "EXACT_DUPLICATE" || kind == "NEAR_DUPLICATE")) [
  | inl e ↦ rw e refl
  | inr e ↦
      rw e (elim (Bool-cases (kind == "CONTRADICTION")) [ inl f ↦ rw f refl | inr f ↦ rw f refl ])
]

-- The rows of a table `s`, hidden by the proposal `p` and then shown again. `ids` are its sources.
module _ (now later : ℕ) (attempt : Attempt) (s : Tables) (p : Proposal)
    (keyed : IsKeyed row_id s.memories) where
  abbrev hides : Memory → Bool
  hides = is_row_of (hidden_rows now attempt s p)

  abbrev after_hiding : List Memory
  after_hiding = update_rows hides (hide p now) s.memories

  abbrev restored : List Memory
  restored =
      rows_where (is_hidden_by p.id)
        (list_memories_by_ids p.project_id (some p.app_id) attempt.ids true true after_hiding)

  restored-rows :
      (a : Memory)
      → In a restored
      → In a after_hiding
        × (is_among attempt.ids a.mem0_memory_id ≡ true)
        × (in_reach p.project_id (some p.app_id) true true a ≡ true)
        × (is_hidden_by p.id a ≡ true)
  restored-rows a m =
      let (i, h) = In-rows_where (is_hidden_by p.id) a _ m in
      let (j, among, reach) =
        (list_memories_by_ids_lem p.project_id (some p.app_id) attempt.ids true true after_hiding
            a).0
          i in
      (j, among, reach, h)

  rows-restored :
      (a : Memory)
      → In a after_hiding
      → is_among attempt.ids a.mem0_memory_id ≡ true
      → in_reach p.project_id (some p.app_id) true true a ≡ true
      → is_hidden_by p.id a ≡ true
      → In a restored
  rows-restored a j among reach h =
      rows_where-In (is_hidden_by p.id) a _
        ((list_memories_by_ids_lem p.project_id (some p.app_id) attempt.ids true true after_hiding
            a).1
          (j, among, reach))
        h

  is_hidden_by-hide :
      (m : Memory) → is_some m.deleted_at ≡ false → is_hidden_by p.id (hide p now m) ≡ true
  unfolding is_hidden_by
  is_hidden_by-hide m d = ground (arith, d, hidden-state p.kind, eq_iff p.id p.id)

  is_hidden_by-inactive :
      (m : Memory) → is_hidden_by p.id m ≡ true → active ≡ m.consolidation_state → ⊥
  unfolding is_hidden_by
  is_hidden_by-inactive m h e =
      let i : is_inactive m.consolidation_state ≡ true = ground arith in
      let j : is_inactive active ≡ true = subst (λ x. is_inactive x ≡ true) (sym e) i in cc

  module _ (sources : List Memory)
      (checked : proposal_sources p attempt.hashes active s ≡ ok (some sources))
      (ids : source_ids p.source_ids_json ≡ ok attempt.ids) where
    hides-In : (m : Memory) → In m s.memories → hides m ≡ true → In m (hidden_rows now attempt s p)
    hides-In m i u =
        let sub = λ (a : Memory) (n : In a (hidden_rows now attempt s p)).
          (hidden_rows-IsSource now attempt s p sources a checked ids n).0 in
        is_row_of-In s.memories (hidden_rows now attempt s p) m keyed sub i u

    row_restored :
        (m : Memory)
        → In m s.memories
        → forget (
            if is_row_of restored (if hides m then hide p now m else m)
            then show later (if hides m then hide p now m else m)
            else (if hides m then hide p now m else m))
          ≡ forget m
    row_restored m i = elim (Bool-cases (hides m)) [
      | inl u ↦
          let listed = hides-In m i u in
          let (i', known) = hidden_rows-IsSource now attempt s p sources m checked ids listed in
          let (good, source, other) = known in
          let (d, a) = expected-parts attempt.hashes m good in
          let reach =
            (list_memories_by_ids_lem p.project_id (some p.app_id) _ false true s.memories m).0
              listed in
          let here : In (hide p now m) after_hiding =
            rw u at (update_rows-In hides (hide p now) m s.memories i) in
          let back : is_row_of restored (hide p now m) ≡ true =
            In-is_row_of restored (hide p now m) (
              rows-restored (hide p now m) here source (ground (arith, reach.2))
                (is_hidden_by-hide m d)) in
          rw (u, back) (ap (λ (x : State). record (forget m) { consolidation_state = x }) a)
      | inr u ↦ elim (Bool-cases (is_row_of restored m)) [
        | inr v ↦ rw (u, v) refl
        | inl v ↦
            let here : In m after_hiding =
              rw u at (update_rows-In hides (hide p now) m s.memories i) in
            let keyed' =
              IsKeyed-update_rows row_id hides (hide p now) s.memories (λ a. refl) keyed in
            let listed =
              is_row_of-In after_hiding restored m keyed' (λ a n. (restored-rows a n).0) here v in
            let (j, among, reach, h) = restored-rows m listed in
            let good =
              proposal_sources-In p attempt.hashes active s attempt.ids sources m checked ids i
                among reach in
            absurd (is_hidden_by-inactive m h (expected-parts attempt.hashes m good).1)
      ]
    ]

    all_restored :
        map forget (update_rows (is_row_of restored) (show later) after_hiding)
        ≡ map forget s.memories
    all_restored =
        map-update_rows forget hides (is_row_of restored) (hide p now) (show later) s.memories
          row_restored

-- The rows of the memories after a rollback of a proposal that is hidden.
rollback_shadowed-memories :
    (later : ℕ) (id : String) (t : Tables) (p : Proposal) (ids : List String)
    → locked id t ≡ ok p
    → (p.status == "SHADOWED") ≡ true
    → source_ids p.source_ids_json ≡ ok ids
    → (rollback_shadowed later id t).1.memories
      ≡ update_rows
          (is_row_of (
            rows_where
              (is_hidden_by p.id)
              (list_memories_by_ids p.project_id (some p.app_id) ids true true t.memories)))
          (show later)
          t.memories
unfolding rollback_shadowed rollback_locked roll_back
rollback_shadowed-memories later id t p ids l e i =
    rw (rollback_shadowed, l, rollback_locked, e, i, roll_back) refl

-- Where an attempt on the sources that the proposal names ends with the answer SHADOWED, a rollback
-- after it gives every memory its row back, but for the columns that `forget` leaves out. The ids of
-- the rows are distinct, the proposal and its project are there, and it was not SHADOWED before.
pub rollback_shadowed-finish :
    (now later : ℕ) (attempt : Attempt) (export : Export) (still_match : Bool) (s : Tables)
    (p : Proposal) (o : Outcome)
    → IsKeyed row_id s.memories
    → locked attempt.proposal_id s ≡ ok p
    → (p.status == "SHADOWED") ≡ false
    → source_ids p.source_ids_json ≡ ok attempt.ids
    → (finish now attempt export still_match s).0 ≡ ok o
    → (o.status == "SHADOWED") ≡ true
    → map forget
        (rollback_shadowed later attempt.proposal_id
          (finish now attempt export still_match s).1).1.memories
      ≡ map forget s.memories
rollback_shadowed-finish now later attempt export still_match s p o keyed l n ids ended
      is_shadowed =
    elim (finish-cases now attempt s p export still_match l n) [
      | inl kept ↦ absurd (true_or_false (kept.1 o ended) is_shadowed)
      | inr (export_id, sources, checked, changed) ↦
          let f = shadow_export now attempt.grace_days export_id in
          let t = change_proposal p.id f (hide_rows p now (hidden_rows now attempt s p) s) in
          let l' : locked attempt.proposal_id t ≡ ok (f p) =
            locked-change_proposal attempt.proposal_id f s t p (λ q. refl) refl refl refl l in
          subst
            (λ x.
              map forget (rollback_shadowed later attempt.proposal_id x).1.memories
              ≡ map forget s.memories)
            (sym changed)
            (ap (map forget) (
                rollback_shadowed-memories later attempt.proposal_id t (f p) attempt.ids l' refl
                  ids)
              ∙ all_restored now later attempt s p keyed sources checked ids)
    ]
  where
    true_or_false : {b : Bool} → b ≡ false → b ≡ true → ⊥
    true_or_false h k = cc
