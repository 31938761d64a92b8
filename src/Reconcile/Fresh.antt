-- ===== src/Reconcile/Fresh.antt =====
-- A sidekick pod is not recreated as long as nothing has changed (`newSidekickPod` and
-- `podNeedsRecreate` of pkg/controllers/apps).
use sidekick.Prelude.{◌≡◌, false, ◌&&◌, some, arith, eq_refl, eq_iff, get_or, ok}
use sidekick.Prelude.Maps.{get, lookup-insert}
use sidekick.Api.Pod.{Pod, PodStatus, is_failed, is_never}
use sidekick.Api.Sidekick.{Sidekick}
use sidekick.Api.Library.{Library}
use sidekick.PodBuilder.{key_hash, key_leader, pod_annotations, new_sidekick_pod}
use sidekick.Reconcile.{annotation, pod_needs_recreate}

module _ {R : Type 0} (lib : Library R) (sidekick : Sidekick R) (leader : Pod R) where
  pub built_from :
      (pod : Pod R) (sk : Sidekick R)
      → new_sidekick_pod lib sidekick leader ≡ ok (pod, sk)
      → (pod.annotations ≡ some (pod_annotations lib leader sidekick))
        × (pod.spec.node_name ≡ leader.spec.node_name)
  unfolding new_sidekick_pod
  built_from pod sk h = ground arith

  pub hash_annotation :
      get_or "" (get (some (pod_annotations lib leader sidekick)) key_hash)
      ≡ lib.generation_hash sidekick.metadata
  unfolding get
  hash_annotation = simp lookup-insert

  pub leader_annotation :
      get_or "" (get (some (pod_annotations lib leader sidekick)) key_leader) ≡ leader.name
  unfolding get
  leader_annotation = simp lookup-insert

  -- The pod that is built for a leader is recreated, while the Sidekick and the leader stay as they
  -- are, only if it fails under the policy Never, whatever status it comes to have.
  pub built-fresh :
      (pod : Pod R) (sk : Sidekick R) (status : PodStatus R)
      → new_sidekick_pod lib sidekick leader ≡ ok (pod, sk)
      → pod_needs_recreate lib sidekick leader (record pod { status = status })
        ≡ (is_failed status.phase && is_never sidekick.spec.restart_policy)
  unfolding pod_needs_recreate
  built-fresh pod sk status h =
      let (annotations, node) = built_from pod sk h in
      simp (annotations, node, hash_annotation, leader_annotation, eq_refl)

  -- A pod that needs no recreation has the hash of the Sidekick and the name of the leader in its
  -- annotations, is on the node of the leader, and has not failed under the policy Never.
  kept-current :
      (pod : Pod R)
      → pod_needs_recreate lib sidekick leader pod ≡ false
      → (annotation pod key_hash ≡ lib.generation_hash sidekick.metadata)
        × (annotation pod key_leader ≡ leader.name)
        × (pod.spec.node_name ≡ leader.spec.node_name)
        × ((is_failed pod.status.phase && is_never sidekick.spec.restart_policy) ≡ false)
  unfolding pod_needs_recreate
  kept-current pod h = ground (
    arith,
    eq_iff (annotation pod key_hash) (lib.generation_hash sidekick.metadata),
    eq_iff (annotation pod key_leader) leader.name,
    eq_iff pod.spec.node_name leader.spec.node_name,
  )
