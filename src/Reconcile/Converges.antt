-- ===== src/Reconcile/Converges.antt =====
-- That a Sidekick comes to have a pod and keeps it, over all rounds of `Reconcile`
-- (pkg/controllers/apps/sidekick_controller.go).
use sidekick.Prelude.{◌≡◌, refl, true, inr, is_ok, [], not_found, ok, err}
use sidekick.Api.Meta.{NamespacedName}
use sidekick.Api.Pod.{Pod, PodStatus, is_always}
use sidekick.Api.Sidekick.{Sidekick, SidekickStatus}
use sidekick.Api.Library.{Library}
use sidekick.Cluster.{Io, Run, Server}
use sidekick.PodBuilder.{new_sidekick_pod}
use sidekick.PhaseUpdate.Always.{decide-GoesOn}
use sidekick.PhaseUpdate.{object_key}
use sidekick.Leader.{Sort}
use sidekick.Reconcile.{Outcome, done, reconcile}
use sidekick.Reconcile.Store.{IsStore}
use sidekick.Reconcile.Round.{IsSteady, Stands}
use sidekick.Reconcile.Kept.{IsUpToDate}
use sidekick.Reconcile.Created.{AddsFinalizer, reconcile-IsMade}
use sidekick.Reconcile.History.{History, pod-kept}

module _ {R W : Type 0} (lib : Library R) (adds : AddsFinalizer lib) (server : Server R W)
    (store : IsStore server) (sort : Sort R) (distributed : NamespacedName → Io (Run R W) Outcome)
    (sk : Sidekick R) (steady : IsSteady lib sk) (always : is_always sk.spec.restart_policy ≡ true)
    (leader : Pod R) (mounts : is_ok (new_sidekick_pod lib sk leader) ≡ true) where
  -- Where a Sidekick with the policy Always has no pod, the election finds a leader, and a pod can be
  -- built for it, one round ends well and leaves a pod that is up to date. From then on that pod is
  -- there, up to its status, after any rounds and any changes by others that spare the Sidekick and
  -- the pod, its status aside, and after which the election still gives a leader of that name on that
  -- node. The Sidekick has its finalizer, is not distributed and is not being deleted, and the API
  -- server is a store.
  pub reconcile-converges :
      (st : SidekickStatus R) (run : Run R W)
      → Stands server sort sk (err not_found) leader st run.world
      → (w : W)
      → History lib server sort distributed sk
          (reconcile lib server sort distributed (object_key sk) run).1.world
          w
      → let (outcome, after) = reconcile lib server sort distributed (object_key sk) run in
        (outcome ≡ ok done)
        × (pod : Pod R) × ((server.on_get_pod (object_key sk) after.world).0 ≡ ok pod)
        × IsUpToDate lib sk leader.name leader.spec.node_name pod
        × (ps : PodStatus R) × ((server.on_get_pod (object_key sk) w).0
            ≡ ok (record pod { status = ps }))
  reconcile-converges st run stands w history =
      let (phase, decided, e, goes) =
        decide-GoesOn (record sk { status = st }) (err not_found) always (inr refl) in
      let (ends, (pod, st', current, follows, there)) =
        reconcile-IsMade lib adds server store sort sk steady leader mounts distributed st phase
          decided run e goes.0 goes.1 stands in
      let later : Run R W = record { world = w; log = [] } in
      let ((ps, kept), _) =
        pod-kept lib server sort distributed sk pod leader.name leader.spec.node_name steady always
          current store later (st', pod.status, leader, there, follows, refl, refl) history in
      (ends, pod, there.answers, current, ps, kept)
