-- ===== src/Distributed/NoPanic.antt =====
-- That `ReconcileDistributedSidekick` (pkg/controllers/apps/distributed.go) does not panic, and
-- `Reconcile`, which hands distributed Sidekicks over to it.
use sidekick.Prelude.{◌≢◌, Bool, true, not_found, failed, panicked, Result, ok, err}
use sidekick.Api.Meta.{NamespacedName}
use sidekick.Api.Pod.{Pod}
use sidekick.Api.Sidekick.{Sidekick}
use sidekick.Api.ManifestWork.{ManifestWork}
use sidekick.Cluster.{Run, Server, lift}
use sidekick.Cluster.Yields.{
  IsFine, IsCalm, if-IsCalm, forget, attempt-fine, bind-Calm, lift-Calm, Anything, Calm,
  bind-Yields, if-Calm, pure-Calm, calm_rules,
}
use sidekick.PhaseUpdate.{set_failure}
use sidekick.PhaseUpdate.Failures.{HasFailures}
use sidekick.Reconcile.{done, reconcile}
use sidekick.Reconcile.Calm.{IsServing, get_sidekick-Calm}
use sidekick.Reconcile.Calm.Steps.{set_failure-IsCalm}
use sidekick.Reconcile.NoPanic.{reconcile-ne-panicked}
use sidekick.GrpcWiring.{set_signing_key, set_snapshot_grant}
use sidekick.GrpcWiring.Secrets.{key_server, ensure_grpc_keys}
use sidekick.GrpcWiring.Calm.{
  IsWiring, set_signing_key-IsCalm, set_snapshot_grant-IsCalm, set_grpc_address-IsCalm,
  ensure_grpc_keys-Calm, ensure_service_export-Calm,
}
use sidekick.Distributed.Calm.{IsHub, Decodes, HasManifests, extract-IsCalm}
use sidekick.Distributed.Calm.Works.{own_mw-Yields, delete_mw-Calm, handle_finalizer-Calm}
use sidekick.Distributed.Calm.Steps.{
  status-Calm, phase-Yields, new_distributed_pod-IsCalm, get_distributed_leader-Calm,
  ensure_pod_manifest_work-Calm,
}
use sidekick.Distributed.Works.{own_mw, handle_distributed_sidekick_finalizer}
use sidekick.Distributed.Status.{update_distributed_sidekick_phase}
use sidekick.Distributed.Reconciler.{
  Operator, delete_mw_and_reset_status, note_moved_mw, sync_pod_of_mw, sync_existing_mw, wire_grpc,
  create_manifest_work, sync_or_create_mw, follow_distributed, on_changed_leader, on_missing_leader,
  on_distributed_leader, follow_elected, export_once, reconcile_distributed_found,
  reconcile_distributed_sidekick,
}

module _ {R W : Type 0} (op : Operator R) (server : Server R W) (decodes : Decodes op.codec)
    (serving : IsServing server) (hub : IsHub server) (wiring : IsWiring server) where
  reset-Calm :
      (sk : Sidekick R) (mw : ManifestWork R) → Calm (delete_mw_and_reset_status op server sk mw)
  unfolding delete_mw_and_reset_status
  reset-Calm sk mw =
      let deletes = delete_mw-Calm server hub in
      let status = status-Calm op.lib server serving in search (calm_rules, deletes, status)

  note_moved_mw-IsCalm :
      (sk : Sidekick R) (leader pod : Pod R) (mw : ManifestWork R)
      → HasFailures sk
      → IsCalm (note_moved_mw op server sk leader pod mw)
  unfolding note_moved_mw
  note_moved_mw-IsCalm sk leader pod mw h =
      if-IsCalm _ (set_failure mw.uid true sk) (ok sk) (set_failure-IsCalm mw.uid true sk h) tt

  sync_pod-Calm :
      (sk : Sidekick R) (leader : Pod R) (mw : ManifestWork R) (pod : Pod R)
      → HasFailures sk
      → Calm (sync_pod_of_mw op server sk leader mw pod)
  unfolding sync_pod_of_mw
  sync_pod-Calm sk leader mw pod h =
      let noted = note_moved_mw-IsCalm sk leader pod mw h in
      let status = status-Calm op.lib server serving in
      search (calm_rules, noted, reset-Calm, status)

  sync_existing-Calm :
      (sk : Sidekick R) (leader : Pod R) (mw : ManifestWork R)
      → HasFailures sk
      → HasManifests mw
      → Calm (sync_existing_mw op server sk leader mw)
  unfolding sync_existing_mw
  sync_existing-Calm sk leader mw h m =
      let extracted = extract-IsCalm op.codec decodes mw m in
      search (calm_rules, extracted, sync_pod-Calm)

  wire_grpc-Calm : (sk : Sidekick R) → Calm (wire_grpc op server sk)
  unfolding wire_grpc
  wire_grpc-Calm sk =
      bind-Calm (ensure_grpc_keys (key_server server) op.lib sk) _
        (ensure_grpc_keys-Calm op.lib server wiring sk)
        (λ (signing_key, snapshot_key).
          bind-Calm (lift (set_signing_key sk signing_key)) _
            (lift-Calm _ (set_signing_key-IsCalm sk signing_key))
            (λ signed.
              bind-Calm (lift (set_snapshot_grant op.crypto signed snapshot_key)) _
                (lift-Calm _ (set_snapshot_grant-IsCalm op.crypto signed snapshot_key))
                (λ granted. lift-Calm _ (set_grpc_address-IsCalm op.getenv granted))))

  create-Calm : (sk : Sidekick R) (leader : Pod R) → Calm (create_manifest_work op server sk leader)
  unfolding create_manifest_work
  create-Calm sk leader =
      let built = new_distributed_pod-IsCalm op.lib in
      let ensured = ensure_pod_manifest_work-Calm server hub op.codec decodes in
      let status = status-Calm op.lib server serving in
      search (calm_rules, wire_grpc-Calm, built, ensured, status) depth 9

  sync_or_create-Calm :
      (sk : Sidekick R) (leader : Pod R) (found : Result (ManifestWork R))
      → HasFailures sk
      → IsFine HasManifests found
      → Calm (sync_or_create_mw op server sk leader found)
  unfolding sync_or_create_mw
  sync_or_create-Calm sk leader (ok mw) h m = sync_existing-Calm sk leader mw h m
  sync_or_create-Calm sk leader (err not_found) h m = create-Calm sk leader
  sync_or_create-Calm sk leader (err (failed e)) h m = search calm_rules
  sync_or_create-Calm sk leader (err panicked) h m = absurd m

  follow-Calm :
      (req : NamespacedName) (sk : Sidekick R) (leader : Pod R)
      → HasFailures sk
      → Calm (follow_distributed op server req sk leader)
  unfolding follow_distributed
  follow-Calm req sk leader h =
      attempt-fine HasManifests Anything (own_mw server req sk) _ (own_mw-Yields server hub req sk)
        (λ found m. sync_or_create-Calm sk leader found h m)

  own_mw-Calm : (req : NamespacedName) (sk : Sidekick R) → Calm (own_mw server req sk)
  own_mw-Calm req sk = forget HasManifests (own_mw server req sk) (own_mw-Yields server hub req sk)

  changed-Calm :
      (req : NamespacedName) (sk : Sidekick R) (leader : Pod R) (found : Result (ManifestWork R))
      → HasFailures sk
      → IsCalm found
      → Calm (on_changed_leader op server req sk leader found)
  unfolding on_changed_leader
  changed-Calm req sk leader (ok mw) h calm = reset-Calm sk mw
  changed-Calm req sk leader (err not_found) h calm = follow-Calm req sk leader h
  changed-Calm req sk leader (err (failed e)) h calm = follow-Calm req sk leader h
  changed-Calm req sk leader (err panicked) h calm = absurd calm

  missing-Calm :
      (sk : Sidekick R) (found : Result (ManifestWork R))
      → IsCalm found
      → Calm (on_missing_leader op server sk found)
  unfolding on_missing_leader
  missing-Calm sk (ok mw) calm = reset-Calm sk mw
  missing-Calm sk (err not_found) calm = search calm_rules
  missing-Calm sk (err (failed e)) calm = search calm_rules
  missing-Calm sk (err panicked) calm = absurd calm

  on_leader-Calm :
      (req : NamespacedName) (sk : Sidekick R) (found : Result (Pod R))
      → HasFailures sk
      → IsCalm found
      → Calm (on_distributed_leader op server req sk found)
  unfolding on_distributed_leader
  on_leader-Calm req sk (ok leader) h calm =
      search (calm_rules, own_mw-Calm, follow-Calm, changed-Calm)
  on_leader-Calm req sk (err not_found) h calm = search (calm_rules, own_mw-Calm, missing-Calm)
  on_leader-Calm req sk (err (failed e)) h calm = search calm_rules
  on_leader-Calm req sk (err panicked) h calm = absurd calm

  follow_elected-Calm :
      (req : NamespacedName) (sk : Sidekick R)
      → HasFailures sk
      → Calm (follow_elected op server req sk)
  unfolding follow_elected
  follow_elected-Calm req sk h =
      let elected = get_distributed_leader-Calm server hub op.codec decodes op.sort sk in
      search (calm_rules, elected, on_leader-Calm)

  export_once-Calm : (first : Bool) (sk : Sidekick R) → Calm (export_once op server first sk)
  unfolding export_once
  export_once-Calm first sk =
      let exports = ensure_service_export-Calm op.lib server wiring op.getenv in
      search (calm_rules, exports)

  found-Calm :
      (first : Bool) (req : NamespacedName) (found : Result (Sidekick R))
      → IsCalm found
      → Calm (reconcile_distributed_found op server first req found)
  unfolding reconcile_distributed_found
  found-Calm first req (ok sk) calm =
      bind-Calm (export_once op server first sk) _ (export_once-Calm first sk) (λ _.
        bind-Calm (handle_distributed_sidekick_finalizer op.lib server sk) _
          (handle_finalizer-Calm server hub op.lib serving sk)
          (λ held.
            bind-Yields (λ updated. HasFailures updated.1) Anything
              (update_distributed_sidekick_phase server op.codec.unmarshal_counts req held) _
              (phase-Yields op.lib server serving hub op.codec.unmarshal_counts req held)
              (λ (dropped, s) h.
                if-Calm dropped _ (follow_elected op server req s) (pure-Calm done)
                  (follow_elected-Calm req s h))))
  found-Calm first req (err not_found) calm = search calm_rules
  found-Calm first req (err (failed e)) calm = search calm_rules
  found-Calm first req (err panicked) calm = absurd calm

  distributed-Calm :
      (first : Bool) (req : NamespacedName)
      → Calm (reconcile_distributed_sidekick op server first req)
  unfolding reconcile_distributed_sidekick
  distributed-Calm first req =
      let sidekicks = get_sidekick-Calm op.lib server serving in
      search (calm_rules, sidekicks, found-Calm)

  -- A reconciliation does not panic, of a distributed Sidekick or of another, whatever the objects
  -- hold, as long as no call of the API servers, decoding of a manifest or drawing of a key does, a
  -- status that is written with the map of failures is given back with it, and every ManifestWork
  -- that is fetched has a manifest.
  pub controller-ne-panicked :
      (first : Bool) (req : NamespacedName) (run : Run R W)
      → (reconcile op.lib server op.sort (reconcile_distributed_sidekick op server first) req run).0
        ≢ err panicked
  controller-ne-panicked first req run =
      reconcile-ne-panicked op.lib server serving op.sort
        (reconcile_distributed_sidekick op server first) (distributed-Calm first) req run
