-- ===== src/Scheduler/Limits.antt =====
-- What a policy that asks for many new memories does to the scheduler.
use mem0_platform_sidecar.Prelude.{
  ℕ, ◌<◌, String, ◌≡◌, refl, true, none, List, ◌∷◌, arith, ltb, ◌||◌,
}
use mem0_platform_sidecar.Prelude.Result.{value_error, ok, err}
use mem0_platform_sidecar.Policy.Parse.{Spec}
use mem0_platform_sidecar.Consolidation.Rows.{PolicyRow}
use mem0_platform_sidecar.Consolidation.Policies.{list_enabled, spec_of}
use mem0_platform_sidecar.Consolidation.Runs.{active}
use mem0_platform_sidecar.Memories.Rows.{Memory}
use mem0_platform_sidecar.Memories.Anchors.{list_dirty_anchors}
use mem0_platform_sidecar.Scheduler.{
  Tables, Outside, enqueue_spec, enqueue_scope, enqueue_scopes, enqueue_due_scopes,
}

list_dirty_anchors-limit :
    (project_id app_id : String) (limit : ℕ) (anchors : List Memory)
    → 1000 < limit
    → list_dirty_anchors project_id app_id none limit anchors
      ≡ err (value_error "dirty anchor limit must be between 1 and 1000")
unfolding list_dirty_anchors
list_dirty_anchors-limit project_id app_id limit anchors h =
    let e : (ltb limit 1 || ltb 1000 limit) ≡ true = ground arith in rw (list_dirty_anchors, e) refl

-- If the first enabled policy parses, asks for more than 1000 new memories, and its scope has no
-- active run, then the scheduler raises and changes nothing.
pub enqueue_due_scopes-limit :
    (outside : Outside) (now : ℕ) (s : Tables) (policy : PolicyRow) (rest : List PolicyRow)
    (spec : Spec)
    → list_enabled s.policies ≡ policy ∷ rest
    → spec_of outside.texts policy.policy_json ≡ ok spec
    → active policy.project_id policy.app_id s.runs ≡ none
    → 1000 < spec.min_new_memories
    → enqueue_due_scopes outside now s
      ≡ (err (value_error "dirty anchor limit must be between 1 and 1000"), s)
unfolding enqueue_due_scopes enqueue_scopes enqueue_scope enqueue_spec
enqueue_due_scopes-limit outside now s policy rest spec l p a h =
    rw (enqueue_due_scopes, l)
      (rw (enqueue_scope, p)
        (rw (enqueue_spec, a)
          (rw
            (list_dirty_anchors-limit policy.project_id policy.app_id spec.min_new_memories
              s.anchors h)
            refl)))
