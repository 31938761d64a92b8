-- ===== src/Distributed/Traces.antt =====
-- All rounds of the controller, over any requests, with anything else in between
-- (`Reconcile` of pkg/controllers/apps/sidekick_controller.go and `ReconcileDistributedSidekick` of
-- pkg/controllers/apps/distributed.go).
use sidekick.Prelude.{◌≡◌, Bool}
use mathlib.Core.Path.{subst}
use sidekick.Api.Meta.{NamespacedName}
use sidekick.Cluster.{Run, Server}
use sidekick.Reconcile.{reconcile}
use sidekick.Reconcile.Rules.{IsOrderly}
use sidekick.Distributed.Reconciler.{Operator, reconcile_distributed_sidekick}
use sidekick.Distributed.Log.{controller-IsOrderly}

module _ {R W : Type 0} (op : Operator R) (server : Server R W) where
  -- What one worker of the controller does: a round for any request, after which the world may be any
  -- other, since others have been at work too.
  pub data Rounds (start : Run R W) : Run R W → Type 0 where
    none_yet : Rounds start start
    another :
        {before after : Run R W} (first : Bool) (req : NamespacedName)
        → Rounds start before
        → (reconcile op.lib server op.sort
            (reconcile_distributed_sidekick op server first)
            req
            before).1.log
          ≡ after.log
        → Rounds start after

  -- Over any rounds for any requests, whatever the API servers answer, however a round ends and
  -- whatever others change in between, the log stays orderly: a pod or a ManifestWork is deleted,
  -- other than by name, right after it was marked as deleted by the operator, a Sidekick that is
  -- being deleted and has the finalizer is changed right after its pod or its ManifestWork was
  -- removed or none was found, any other Sidekick is changed, its status aside, only by adding the
  -- finalizer, and no pod's status is set but to Failed.
  pub Rounds-IsOrderly :
      (start : Run R W) {end : Run R W}
      → IsOrderly op.lib start.log
      → Rounds start end
      → IsOrderly op.lib end.log
  Rounds-IsOrderly start h none_yet = h
  Rounds-IsOrderly start h (another {before} first req more e) =
      subst (IsOrderly op.lib) e
        (controller-IsOrderly op server first req before (Rounds-IsOrderly start h more))
