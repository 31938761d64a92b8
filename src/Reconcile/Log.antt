-- ===== src/Reconcile/Log.antt =====
-- In which order `Reconcile` (pkg/controllers/apps/sidekick_controller.go) changes objects, for every
-- behaviour of the API server.
use sidekick.Prelude.{not_found, failed, panicked, Result, ok, err}
use sidekick.Api.Meta.{NamespacedName}
use sidekick.Api.Pod.{Pod}
use sidekick.Api.Sidekick.{Sidekick}
use sidekick.Api.Library.{Library}
use sidekick.Cluster.{Io, Run, Server}
use sidekick.Cluster.Keeps.{keeps_rules}
use sidekick.Leader.{Sort, get_leader}
use sidekick.PodOps.{remove_pod_finalizer_if_marked_for_deletion}
use sidekick.Reconcile.{
  Outcome, delete_pod_and_reset_status, sync_existing_pod, create_sidekick_pod, sync_or_create,
  follow, on_changed, on_missing, on_leader, follow_leader, reconcile_held, reconcile_here,
  reconcile_found, reconcile,
}
use sidekick.Reconcile.Rules.{IsOrderly, Orderly}
use sidekick.Reconcile.Order.{
  delete_own_pod-Orderly, update_sidekick_status-Orderly, handle_sidekick_finalizer-Orderly,
  apply_pod-Orderly, release_pod-Orderly, update_sidekick_phase-Orderly,
}

module _ {R W : Type 0} (lib : Library R) (server : Server R W) where
  reset-Orderly :
      (sidekick : Sidekick R) (pod : Pod R)
      → Orderly lib (delete_pod_and_reset_status lib server sidekick pod)
  unfolding delete_pod_and_reset_status
  reset-Orderly sidekick pod =
      search (keeps_rules, delete_own_pod-Orderly, update_sidekick_status-Orderly)

  sync-Orderly :
      (sidekick : Sidekick R) (leader pod : Pod R)
      → Orderly lib (sync_existing_pod lib server sidekick leader pod)
  unfolding sync_existing_pod
  sync-Orderly sidekick leader pod =
      search (keeps_rules, reset-Orderly, update_sidekick_status-Orderly)

  create-Orderly :
      (sidekick : Sidekick R) (leader : Pod R)
      → Orderly lib (create_sidekick_pod lib server sidekick leader)
  unfolding create_sidekick_pod
  create-Orderly sidekick leader =
      search (keeps_rules, apply_pod-Orderly, update_sidekick_status-Orderly)

  sync_or_create-Orderly :
      (sidekick : Sidekick R) (leader : Pod R) (found : Result (Pod R))
      → Orderly lib (sync_or_create lib server sidekick leader found)
  unfolding sync_or_create
  sync_or_create-Orderly sidekick leader (ok pod) = search (keeps_rules, sync-Orderly)
  sync_or_create-Orderly sidekick leader (err not_found) = search (keeps_rules, create-Orderly)
  sync_or_create-Orderly sidekick leader (err (failed e)) = search keeps_rules
  sync_or_create-Orderly sidekick leader (err panicked) = search keeps_rules

  follow-Orderly :
      (req : NamespacedName) (sidekick : Sidekick R) (leader : Pod R)
      → Orderly lib (follow lib server req sidekick leader)
  unfolding follow
  follow-Orderly req sidekick leader = search (keeps_rules, sync_or_create-Orderly)

  on_changed-Orderly :
      (req : NamespacedName) (sidekick : Sidekick R) (leader : Pod R) (found : Result (Pod R))
      → Orderly lib (on_changed lib server req sidekick leader found)
  unfolding on_changed
  on_changed-Orderly req sidekick leader (ok pod) = search (keeps_rules, reset-Orderly)
  on_changed-Orderly req sidekick leader (err e) = follow-Orderly req sidekick leader

  on_missing-Orderly :
      (sidekick : Sidekick R) (found : Result (Pod R))
      → Orderly lib (on_missing lib server sidekick found)
  unfolding on_missing
  on_missing-Orderly sidekick (ok pod) = search (keeps_rules, reset-Orderly)
  on_missing-Orderly sidekick (err e) = search keeps_rules

  on_leader-Orderly :
      (req : NamespacedName) (sidekick : Sidekick R) (found : Result (Pod R))
      → Orderly lib (on_leader lib server req sidekick found)
  unfolding on_leader
  on_leader-Orderly req sidekick (ok leader) =
      search (keeps_rules, follow-Orderly, on_changed-Orderly)
  on_leader-Orderly req sidekick (err not_found) = search (keeps_rules, on_missing-Orderly)
  on_leader-Orderly req sidekick (err (failed e)) = search keeps_rules
  on_leader-Orderly req sidekick (err panicked) = search keeps_rules

  get_leader-Orderly :
      (sort : Sort R) (sidekick : Sidekick R) → Orderly lib (get_leader server sort sidekick)
  unfolding get_leader
  get_leader-Orderly sort sidekick = search keeps_rules

  here-Orderly :
      (sort : Sort R) (req : NamespacedName) (found : Sidekick R)
      → Orderly lib (reconcile_here lib server sort req found)
  unfolding reconcile_here reconcile_held follow_leader
  here-Orderly sort req found =
      search
        (
          keeps_rules, handle_sidekick_finalizer-Orderly, update_sidekick_phase-Orderly,
          get_leader-Orderly, on_leader-Orderly,
        )
        depth 9

module _ {R W : Type 0} (lib : Library R) (server : Server R W) (sort : Sort R)
    (distributed : NamespacedName → Io (Run R W) Outcome)
    (handed_over : (req : NamespacedName) → Orderly lib (distributed req)) where
  reconcile_found-Orderly :
      (req : NamespacedName) (found : Result (Sidekick R))
      → Orderly lib (reconcile_found lib server sort distributed req found)
  unfolding reconcile_found
  reconcile_found-Orderly req (ok found) = search (keeps_rules, handed_over, here-Orderly)
  reconcile_found-Orderly req (err not_found) = search keeps_rules
  reconcile_found-Orderly req (err (failed e)) = search keeps_rules
  reconcile_found-Orderly req (err panicked) = search keeps_rules

  reconcile-Orderly :
      (req : NamespacedName) → Orderly lib (reconcile lib server sort distributed req)
  unfolding reconcile remove_pod_finalizer_if_marked_for_deletion
  reconcile-Orderly req = search (keeps_rules, release_pod-Orderly, reconcile_found-Orderly)

  -- However the API server answers, a reconciliation that starts from an orderly log leaves one,
  -- on every path, provided the reconciliation of distributed Sidekicks keeps a log orderly. In an
  -- orderly log a pod is deleted, other than by name, right after it was marked as deleted by the
  -- operator, a Sidekick that is being deleted and has the finalizer is changed right after its
  -- pod was removed, and no pod's status is set but to Failed.
  pub reconcile-IsOrderly :
      (req : NamespacedName) (run : Run R W)
      → IsOrderly lib run.log
      → IsOrderly lib (reconcile lib server sort distributed req run).1.log
  reconcile-IsOrderly req run h = (reconcile-Orderly req).at run h
