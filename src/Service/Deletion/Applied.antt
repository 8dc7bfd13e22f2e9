-- ===== src/Service/Deletion/Applied.antt =====
-- The answer APPLIED of `finalize_shadowed`.
use mem0_platform_sidecar.Prelude.{
  ℕ, String, ◌≡◌, refl, sym, ap, subst, ◌⊎◌, inl, inr, Bool, true, false, not, List, [], ◌∷◌, All,
  In, All-of_In, length, if◌then◌else◌, ◌==◌, arith,
}
use mem0_platform_sidecar.Prelude.Result.{Error, Result, ok, err}
use mem0_platform_sidecar.Prelude.Fallible.{ok_inj, Result-cases}
use mem0_platform_sidecar.Json.{Fields}
use mem0_platform_sidecar.Consolidation.Rows.{Proposal, LineageRow}
use mem0_platform_sidecar.Consolidation.Proposals.{get_proposal, source_ids, expected_hashes}
use mem0_platform_sidecar.Service.Rows.{Tables, Settings, Outcome, outcome}
use mem0_platform_sidecar.Service.Upstream.{missing}
use mem0_platform_sidecar.Service.Shadow.{target_ids}
use mem0_platform_sidecar.Service.Finalize.{
  World, finalize_source, continue_with, finalize_sources, mark_applied, apply_all,
  finalize_allowed, grace_is_over, is_given, finalize, finalize_shadowed,
}
use mem0_platform_sidecar.Service.Approval.{err_not_ok}
use mem0_platform_sidecar.Service.Deletion.Records.{
  is_recorded, KeepsLineage, IsGone, Reply, finalize_source-ok,
}

module _ (world : World) (now : ℕ) (p : Proposal) (hashes : Fields)
    (keeps : KeepsLineage world) where
  abbrev Gone : String → Type 0
  Gone = IsGone world now p hashes keeps

  -- After the loop: its memories are recorded, and those that were not before are gone.
  abbrev IsLoop : List String → List LineageRow → List LineageRow → Type 0
  IsLoop ids rows rows' =
      ((id : String) → In id ids → is_recorded p.id rows' id ≡ true)
      × ((other : String)
          → is_recorded p.id rows other ≡ true
          → is_recorded p.id rows' other ≡ true)
      × ((other : String)
          → is_recorded p.id rows' other ≡ true
          → (is_recorded p.id rows other ≡ true) ⊎ Gone other)

  all_recorded :
      (id : String) (ids : List String) (rows rows' : List LineageRow)
      → is_recorded p.id rows id ≡ true
      → ((other : String)
          → is_recorded p.id rows other ≡ true
          → is_recorded p.id rows' other ≡ true)
      → ((other : String) → In other ids → is_recorded p.id rows' other ≡ true)
      → (other : String) → In other (id ∷ ids)
      → is_recorded p.id rows' other ≡ true
  all_recorded id ids rows rows' r k rest other (inl e) =
      k other (subst (λ z. is_recorded p.id rows z ≡ true) (sym e) r)
  all_recorded id ids rows rows' r k rest other (inr m) = rest other m

  finalize_sources-ok :
      (ids : List String) (s t : Tables) (x : Unit {0})
      → finalize_sources world now p hashes ids s ≡ (ok x, t)
      → IsLoop ids s.lineage t.lineage
  unfolding finalize_sources
  finalize_sources-ok [] s t x h =
      let same : s.lineage ≡ t.lineage = ap (λ y. y.1.lineage) h in
      subst (IsLoop [] s.lineage) same ((λ id m. absurd m), (λ other r. r), λ other r. inl r)
  finalize_sources-ok (id ∷ ids) s t x h =
      go (finalize_source world now p hashes id s) refl h (λ u k. finalize_sources-ok ids u t x k)
    where
      go :
          (reply : Reply)
          → finalize_source world now p hashes id s ≡ reply
          → continue_with reply (finalize_sources world now p hashes ids) ≡ (ok x, t)
          → ((u : Tables)
              → finalize_sources world now p hashes ids u ≡ (ok x, t)
              → IsLoop ids u.lineage t.lineage)
          → IsLoop (id ∷ ids) s.lineage t.lineage
      go (err e, u) round k rest = absurd (err_not_ok e x u t k)
      go (ok y, u) round k rest =
          let (recorded, kept, new) = finalize_source-ok world now p hashes keeps id s u y round in
          let (recorded', kept', new') = rest u k in
          (
            all_recorded id ids u.lineage t.lineage recorded kept' recorded',
            λ other r. kept' other (kept other r),
            λ other r. elim (new' other r) [ inl old ↦ new other old | inr gone ↦ inr gone ],
          )

  apply_all-ok :
      (ids : List String) (s t : Tables) (o : Outcome)
      → apply_all world now p hashes ids s ≡ (ok o, t)
      → IsLoop ids s.lineage t.lineage
  unfolding apply_all
  apply_all-ok ids s t o h = go (finalize_sources world now p hashes ids s) refl h
    where
      go :
          (reply : Reply)
          → finalize_sources world now p hashes ids s ≡ reply
          → mark_applied now p (length ids) reply ≡ (ok o, t)
          → IsLoop ids s.lineage t.lineage
      go (err e, u) looped k = absurd (err_not_ok e o u t k)
      go (ok x, u) looped k =
          subst (IsLoop ids s.lineage) (ap (λ y. y.1.lineage) k)
            (finalize_sources-ok ids s u x looped)

module _ (settings : Settings) (world : World) (now : ℕ) (p : Proposal) where
  -- What holds of a memory that the loop has passed.
  abbrev pub IsDone : List LineageRow → List LineageRow → String → Type 0
  IsDone rows rows' id =
      (is_recorded p.id rows' id ≡ true)
      × ((is_recorded p.id rows id ≡ true) ⊎ ((world.after id).get_memory id ≡ missing))

  -- Nothing is deleted before this.
  abbrev pub IsAllowed : Type 0
  IsAllowed =
      ((p.status == "SHADOWED") ≡ true)
      × (grace_is_over p.not_before now ≡ true)
      × (settings.hard_delete_enabled ≡ true)
      × (is_given p.export_job_id ≡ true)

-- The row that `finalize` reads, with its sources.
module _ (settings : Settings) (world : World) (now : ℕ) (p : Proposal) (keeps : KeepsLineage world)
    (ids : List String) (i : source_ids p.source_ids_json ≡ ok ids) where
  finalize_allowed-ok :
      (s t : Tables) (o : Outcome)
      → finalize_allowed world now p s ≡ (ok o, t)
      → All (IsDone settings world now p s.lineage t.lineage) (target_ids p.canonical_memory_id ids)
  unfolding finalize_allowed
  finalize_allowed-ok s t o h = elim (Result-cases (expected_hashes p.expected_hashes_json)) [
    | inr (e, u) ↦ absurd (err_not_ok e o s t (rw (finalize_allowed, u) at h))
    | inl (hashes, u) ↦
        let (recorded, kept, new) =
          apply_all-ok world now p hashes keeps (target_ids p.canonical_memory_id ids) s t o
            (rw (finalize_allowed, u, i) at h) in
        All-of_In (IsDone settings world now p s.lineage t.lineage)
          (target_ids p.canonical_memory_id ids) (λ id m. (recorded id m, new id (recorded id m)))
  ]

  finalize-ok :
      (s t : Tables) (o : Outcome)
      → finalize settings world now p s ≡ (ok o, t)
      → (o.status == "APPLIED") ≡ true
      → IsAllowed settings world now p
        × All
            (IsDone settings world now p s.lineage t.lineage)
            (target_ids p.canonical_memory_id ids)
  unfolding finalize
  finalize-ok s t o h applied =
      let (a, h1) = guarded (not (p.status == "SHADOWED")) _ _ _ o s t h in
      let (b, h2) = guarded (not (grace_is_over p.not_before now)) _ _ _ o s t h1 in
      let (c, h3) = answered (not settings.hard_delete_enabled) h2 in
      let (d, h4) = guarded (not settings.bridge_routing_ready) _ _ _ o s t h3 in
      let (e, h5) = guarded (not (is_given p.export_job_id)) _ _ _ o s t h4 in
      ((holds _ a, holds _ b, holds _ c, holds _ e), finalize_allowed-ok s t o h5)
    where
      guarded :
          (c : Bool) (e : Error) (u : Tables) (rest : Result Outcome × Tables) (o : Outcome)
          (s t : Tables)
          → (if c then (err e, u) else rest) ≡ (ok o, t)
          → (c ≡ false) × (rest ≡ (ok o, t))
      guarded true e u rest o s t h = absurd (err_not_ok e o u t h)
      guarded false e u rest o s t h = (refl, h)

      answered :
          (c : Bool) {rest : Result Outcome × Tables}
          → (if c then (ok (outcome p.id "SHADOWED"), s) else rest) ≡ (ok o, t)
          → (c ≡ false) × (rest ≡ (ok o, t))
      answered true h =
          let k : outcome p.id "SHADOWED" ≡ o = ok_inj (ap (λ y. y.0) h) in
          let wrong : ("SHADOWED" == "APPLIED") ≡ true =
            subst (λ y. (y.status == "APPLIED") ≡ true) (sym k) applied in
          absurd (cc)
      answered false h = (refl, h)

      holds : (c : Bool) → not c ≡ false → c ≡ true
      holds c h = ground arith

-- Where `finalize_shadowed` answers APPLIED, the proposal was SHADOWED, its grace period was over, hard
-- deletion was enabled, and the export was there; and of each source that is not the canonical memory
-- there is lineage in the end, which was there before, or the server has answered that the memory is
-- missing. The proposal is there, its source ids can be read, and what happens during the deletion of
-- a memory leaves the lineage alone.
pub finalize_shadowed-applied :
    (settings : Settings) (world : World) (now : ℕ) (id : String) (p : Proposal)
    (keeps : KeepsLineage world) (ids : List String) (i : source_ids p.source_ids_json ≡ ok ids)
    (s t : Tables) (o : Outcome)
    → get_proposal id s.proposals ≡ ok p
    → finalize_shadowed settings world now id s ≡ (ok o, t)
    → (o.status == "APPLIED") ≡ true
    → IsAllowed settings world now p
      × All (IsDone settings world now p s.lineage t.lineage) (target_ids p.canonical_memory_id ids)
unfolding finalize_shadowed
finalize_shadowed-applied settings world now id p keeps ids i s t o g h applied =
    finalize-ok settings world now p keeps ids i s t o (rw (finalize_shadowed, g) at h) applied
