-- ===== src/Distributed/Calm/Works.antt =====
-- That the deletion of the ManifestWork of a distributed Sidekick, and the finalizer, do not panic
-- (pkg/controllers/apps/distributed.go).
use sidekick.Prelude.{String, not_found, failed, panicked, Result, ok, err}
use sidekick.Api.Meta.{NamespacedName}
use sidekick.Api.Sidekick.{Sidekick}
use sidekick.Api.ManifestWork.{ManifestWork}
use sidekick.Api.Library.{Library}
use sidekick.Cluster.{Run, Server, note, Event}
use sidekick.Cluster.Yields.{IsCalm, Anything, Yields, Calm, bind-Yields, calm_rules}
use sidekick.Reconcile.Calm.{IsServing, apply_sidekick-Calm, ignore_not_found-Calm}
use sidekick.Distributed.Works.{
  pod_namespace, own_mw, set_mw_deletion_initiator_annotation, delete_mw, delete_found,
  delete_searched, terminate_manifest_work, handle_distributed_sidekick_finalizer,
}
use sidekick.Distributed.Calm.{
  IsHub, HasManifests, get_mw-Yields, apply_mw-Calm, delete_api_mw-Calm, delete_mw_named-Calm,
  pod_namespace-Calm,
}

module _ {R W : Type 0} (server : Server R W) (hub : IsHub server) where
  pub own_mw-Yields :
      (req : NamespacedName) (sk : Sidekick R) → Yields HasManifests (own_mw server req sk)
  unfolding own_mw
  own_mw-Yields req sk =
      bind-Yields Anything HasManifests (pod_namespace server req.name) _
        (pod_namespace-Calm server hub req.name) (λ ns _. get_mw-Yields server hub _)

  pub delete_mw-Calm : (mw : ManifestWork R) → Calm (delete_mw server mw)
  unfolding delete_mw set_mw_deletion_initiator_annotation
  delete_mw-Calm mw = search (calm_rules, apply_mw-Calm, delete_api_mw-Calm)

  note-Calm : (e : Event R) → Calm {S = Run R W} (note e)
  unfolding note
  note-Calm e = record { fine = λ s. tt }

  delete_found-Calm : (name ns : String) → Calm (delete_found server name ns)
  unfolding delete_found
  delete_found-Calm name ns =
      search (calm_rules, note-Calm, delete_mw_named-Calm, ignore_not_found-Calm)

  delete_searched-Calm :
      (name : String) (searched : Result String)
      → IsCalm searched
      → Calm (delete_searched server name searched)
  unfolding delete_searched
  delete_searched-Calm name (ok ns) h = delete_found-Calm name ns
  delete_searched-Calm name (err not_found) h = delete_found-Calm name ""
  delete_searched-Calm name (err (failed e)) h = search calm_rules
  delete_searched-Calm name (err panicked) h = absurd h

  module _ (lib : Library R) (serving : IsServing server) where
    terminate-Calm : (sk : Sidekick R) → Calm (terminate_manifest_work lib server sk)
    unfolding terminate_manifest_work
    terminate-Calm sk =
        let applies = apply_sidekick-Calm lib server serving in
        search (calm_rules, pod_namespace-Calm, delete_searched-Calm, applies)

    pub handle_finalizer-Calm :
        (sk : Sidekick R) → Calm (handle_distributed_sidekick_finalizer lib server sk)
    unfolding handle_distributed_sidekick_finalizer
    handle_finalizer-Calm sk =
        let applies = apply_sidekick-Calm lib server serving in
        search (calm_rules, terminate-Calm, applies)
