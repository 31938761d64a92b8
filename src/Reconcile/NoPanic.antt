-- ===== src/Reconcile/NoPanic.antt =====
-- That `Reconcile` (pkg/controllers/apps/sidekick_controller.go) does not panic.
use sidekick.Prelude.{◌≢◌, not_found, failed, panicked, Result, ok, err}
use mathlib.Core.Path.{subst}
use sidekick.Api.Meta.{NamespacedName}
use sidekick.Api.Pod.{Pod}
use sidekick.Api.Sidekick.{Sidekick}
use sidekick.Api.Library.{Library}
use sidekick.Cluster.{Io, Run, Server}
use sidekick.Cluster.Yields.{IsCalm, Anything, Calm, bind-Yields, if-Calm, pure-Calm, calm_rules}
use sidekick.PhaseUpdate.{update_sidekick_phase}
use sidekick.PhaseUpdate.Failures.{HasFailures}
use sidekick.Leader.{Sort}
use sidekick.Reconcile.{
  Outcome, done, sync_or_create, follow, on_changed, on_missing, on_leader, follow_leader, if_kept,
  reconcile_held, reconcile_here, reconcile_found, reconcile,
}
use sidekick.Reconcile.Calm.{
  IsServing, get_pod-Calm, get_sidekick-Calm, remove_pod_finalizer_if_marked_for_deletion-Calm,
  handle_sidekick_finalizer-Calm,
}
use sidekick.Reconcile.Calm.Steps.{
  phase-Yields, get_leader-Calm, reset-Calm, sync-Calm, create-Calm,
}

module _ {R W : Type 0} (lib : Library R) (server : Server R W) (serving : IsServing server) where
  sync_or_create-Calm :
      (sk : Sidekick R) (leader : Pod R) (found : Result (Pod R))
      → HasFailures sk
      → IsCalm found
      → Calm (sync_or_create lib server sk leader found)
  unfolding sync_or_create
  sync_or_create-Calm sk leader (ok pod) h calm =
      let synced = sync-Calm lib server serving sk leader pod h in search (calm_rules, synced)
  sync_or_create-Calm sk leader (err not_found) h calm =
      let created = create-Calm lib server serving sk leader in search (calm_rules, created)
  sync_or_create-Calm sk leader (err (failed e)) h calm = search calm_rules
  sync_or_create-Calm sk leader (err panicked) h calm = absurd calm

  follow-Calm :
      (req : NamespacedName) (sk : Sidekick R) (leader : Pod R)
      → HasFailures sk
      → Calm (follow lib server req sk leader)
  unfolding follow
  follow-Calm req sk leader h =
      let pods = get_pod-Calm lib server serving in search (calm_rules, pods, sync_or_create-Calm)

  changed-Calm :
      (req : NamespacedName) (sk : Sidekick R) (leader : Pod R) (found : Result (Pod R))
      → HasFailures sk
      → Calm (on_changed lib server req sk leader found)
  unfolding on_changed
  changed-Calm req sk leader (ok pod) h =
      let reset = reset-Calm lib server serving sk pod in search (calm_rules, reset)
  changed-Calm req sk leader (err e) h = follow-Calm req sk leader h

  missing-Calm : (sk : Sidekick R) (found : Result (Pod R)) → Calm (on_missing lib server sk found)
  unfolding on_missing
  missing-Calm sk (ok pod) =
      let reset = reset-Calm lib server serving sk pod in search (calm_rules, reset)
  missing-Calm sk (err e) = search calm_rules

  on_leader-Calm :
      (req : NamespacedName) (sk : Sidekick R) (found : Result (Pod R))
      → HasFailures sk
      → IsCalm found
      → Calm (on_leader lib server req sk found)
  unfolding on_leader
  on_leader-Calm req sk (ok leader) h calm =
      let pods = get_pod-Calm lib server serving in
      search (calm_rules, pods, follow-Calm, changed-Calm)
  on_leader-Calm req sk (err not_found) h calm =
      let pods = get_pod-Calm lib server serving in search (calm_rules, pods, missing-Calm)
  on_leader-Calm req sk (err (failed e)) h calm = search calm_rules
  on_leader-Calm req sk (err panicked) h calm = absurd calm

  module _ (sort : Sort R) where
    follow_leader-Calm :
        (req : NamespacedName) (sk : Sidekick R)
        → HasFailures sk
        → Calm (follow_leader lib server sort req sk)
    unfolding follow_leader
    follow_leader-Calm req sk h =
        let elected = get_leader-Calm lib server serving sort sk in
        search (calm_rules, elected, on_leader-Calm)

    held-Calm :
        (req : NamespacedName) (sk : Sidekick R) → Calm (reconcile_held lib server sort req sk)
    unfolding reconcile_held
    held-Calm req sk =
        bind-Yields (λ updated. HasFailures updated.1) Anything
          (update_sidekick_phase server req sk) (if_kept lib server sort req)
          (phase-Yields lib server serving req sk)
          (λ (dropped, s) h.
            if-Calm dropped _ (follow_leader lib server sort req s) (pure-Calm done)
              (follow_leader-Calm req s h))

    here-Calm :
        (req : NamespacedName) (sk : Sidekick R) → Calm (reconcile_here lib server sort req sk)
    unfolding reconcile_here
    here-Calm req sk =
        let handled = handle_sidekick_finalizer-Calm lib server serving sk in
        search (calm_rules, handled, held-Calm)

    module _ (distributed : NamespacedName → Io (Run R W) Outcome)
        (handed_over : (req : NamespacedName) → Calm (distributed req)) where
      found-Calm :
          (req : NamespacedName) (found : Result (Sidekick R))
          → IsCalm found
          → Calm (reconcile_found lib server sort distributed req found)
      unfolding reconcile_found
      found-Calm req (ok sk) calm = search (calm_rules, handed_over, here-Calm)
      found-Calm req (err not_found) calm = search calm_rules
      found-Calm req (err (failed e)) calm = search calm_rules
      found-Calm req (err panicked) calm = absurd calm

      reconcile-Calm : (req : NamespacedName) → Calm (reconcile lib server sort distributed req)
      unfolding reconcile
      reconcile-Calm req =
          let released = remove_pod_finalizer_if_marked_for_deletion-Calm lib server serving in
          let sidekicks = get_sidekick-Calm lib server serving in
          search (calm_rules, released, sidekicks, found-Calm)

      -- A reconciliation in one cluster does not panic, whatever the objects hold, as long as the
      -- calls of the API server do not, a status that is written with the map of failures is given
      -- back with it, and the reconciliation of distributed Sidekicks does not panic.
      pub reconcile-ne-panicked :
          (req : NamespacedName) (run : Run R W)
          → (reconcile lib server sort distributed req run).0 ≢ err panicked
      reconcile-ne-panicked req run h = subst IsCalm h ((reconcile-Calm req).fine run)
