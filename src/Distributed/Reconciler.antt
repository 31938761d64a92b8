-- ===== src/Distributed/Reconciler.antt =====
-- The reconciliation of a distributed Sidekick: `ReconcileDistributedSidekick` of
-- pkg/controllers/apps/distributed.go.
use sidekick.Prelude.{
  String, Bool, true, not, ◌&&◌, ◌||◌, ◌==◌, if◌then◌else◌, not_found, failed, panicked, Result, ok,
  err,
}
use sidekick.Api.Meta.{NamespacedName}
use sidekick.Api.Pod.{Pod, PodPhase, is_never}
use sidekick.Api.Sidekick.{Sidekick}
use sidekick.Api.ManifestWork.{ManifestWork, Codec}
use sidekick.Api.Library.{Library}
use sidekick.Cluster.{Io, Run, Server, pure, raise, lift, attempt, ◌>>=◌, ◌>>◌, get_sidekick}
use sidekick.Token.{Crypto}
use sidekick.PodBuilder.{key_hash, key_leader}
use sidekick.PhaseUpdate.{set_failure}
use sidekick.Leader.{Sort}
use sidekick.Reconcile.{Outcome, done, requeue, requeue_after, annotation, with_status}
use sidekick.GrpcWiring.{set_signing_key, set_snapshot_grant, set_grpc_address}
use sidekick.GrpcWiring.Secrets.{key_server, ensure_grpc_keys}
use sidekick.GrpcWiring.Domain.{ResolvConf, find_domain}
use sidekick.GrpcWiring.Export.{ensure_service_export}
use sidekick.Distributed.{extract_pod_status_from_mw}
use sidekick.Distributed.Works.{
  get_pod_phase, extract_pod_from_manifest_work, own_mw, delete_mw,
  handle_distributed_sidekick_finalizer,
}
use sidekick.Distributed.Status.{
  update_distributed_sidekick_status, update_distributed_sidekick_phase,
}
use sidekick.Distributed.Election.{get_distributed_leader}
use sidekick.Distributed.Build.{new_distributed_pod, ensure_pod_manifest_work}

-- What the operator runs with: third-party code, its environment, and the file /etc/resolv.conf.
pub record Operator (R : Type 0) : Type 0 where
  pub lib : Library R
  pub codec : Codec R
  pub crypto : Crypto
  pub sort : Sort R
  pub getenv : String → String
  pub resolv_conf : Result ResolvConf

abbrev pub is_failed_text : String → Bool
is_failed_text phase = phase == "Failed"

module _ {R : Type 0} (lib : Library R) where
  -- `pod` is the manifest, and `phase` what the feedback reports.
  unfoldable pub mw_needs_recreate : Sidekick R → Pod R → Pod R → String → Bool
  mw_needs_recreate sidekick leader pod phase =
      not (lib.generation_hash sidekick.metadata == annotation pod key_hash)
      || (not (leader.name == annotation pod key_leader)
          || (not (leader.spec.node_name == pod.spec.node_name)
              || is_failed_text phase && is_never sidekick.spec.restart_policy))

module _ {R W : Type 0} (op : Operator R) (server : Server R W) where
  unfoldable pub delete_mw_and_reset_status : Sidekick R → ManifestWork R → Io (Run R W) Outcome
  delete_mw_and_reset_status sidekick mw = do
    delete_mw server mw
    update_distributed_sidekick_status server (with_status "" PodPhase.unset sidekick)
    pure done

  -- A pod that is not on its leader's node counts as a failed one.
  unfoldable pub note_moved_mw : Sidekick R → Pod R → Pod R → ManifestWork R → Result (Sidekick R)
  note_moved_mw sidekick leader pod mw =
      if not (leader.spec.node_name == pod.spec.node_name)
      then set_failure mw.uid true sidekick
      else ok sidekick

  unfoldable pub sync_pod_of_mw : Sidekick R → Pod R → ManifestWork R → Pod R → Io (Run R W) Outcome
  sync_pod_of_mw sidekick leader mw pod =
      let phase = extract_pod_status_from_mw mw in
      if pod.spec.node_name == "" || phase == ""
      then pure requeue
      else if mw_needs_recreate op.lib sidekick leader pod phase
      then (do sk ← lift (note_moved_mw sidekick leader pod mw); delete_mw_and_reset_status sk mw)
      else (do
        update_distributed_sidekick_status server
            (with_status sidekick.status.leader.name (get_pod_phase phase) sidekick)
        pure done)

  unfoldable pub sync_existing_mw : Sidekick R → Pod R → ManifestWork R → Io (Run R W) Outcome
  sync_existing_mw sidekick leader mw = do
    pod ← lift (extract_pod_from_manifest_work op.codec mw)
    sync_pod_of_mw sidekick leader mw pod

  -- The keys, the grant and the address are given to the container before the pod is built.
  unfoldable pub wire_grpc : Sidekick R → Io (Run R W) (Sidekick R)
  wire_grpc sidekick = do
    (signing_key, snapshot_key) ← ensure_grpc_keys (key_server server) op.lib sidekick
    signed ← lift (set_signing_key sidekick signing_key)
    granted ← lift (set_snapshot_grant op.crypto signed snapshot_key)
    lift (set_grpc_address op.getenv granted)

  unfoldable pub create_manifest_work : Sidekick R → Pod R → Io (Run R W) Outcome
  create_manifest_work sidekick leader = do
    wired ← wire_grpc sidekick
    pod ← lift (new_distributed_pod op.lib wired leader)
    stored ← ensure_pod_manifest_work server op.codec wired pod
    update_distributed_sidekick_status server (with_status leader.name pod.status.phase stored)
    pure done

  unfoldable pub sync_or_create_mw :
      Sidekick R → Pod R → Result (ManifestWork R) → Io (Run R W) Outcome
  sync_or_create_mw sidekick leader (ok mw) = sync_existing_mw sidekick leader mw
  sync_or_create_mw sidekick leader (err not_found) = create_manifest_work sidekick leader
  sync_or_create_mw sidekick leader (err (failed e)) = raise (failed e)
  sync_or_create_mw sidekick leader (err panicked) = raise panicked

  unfoldable pub follow_distributed : NamespacedName → Sidekick R → Pod R → Io (Run R W) Outcome
  follow_distributed req sidekick leader = do
    found ← attempt (own_mw server req sidekick)
    sync_or_create_mw sidekick leader found

  -- The leader has changed: an old ManifestWork is removed, and without one, or if the search for it
  -- fails, the new leader is followed.
  unfoldable pub on_changed_leader :
      NamespacedName → Sidekick R → Pod R → Result (ManifestWork R) → Io (Run R W) Outcome
  on_changed_leader req sidekick leader (ok mw) = delete_mw_and_reset_status sidekick mw
  on_changed_leader req sidekick leader (err not_found) = follow_distributed req sidekick leader
  on_changed_leader req sidekick leader (err (failed e)) = follow_distributed req sidekick leader
  on_changed_leader req sidekick leader (err panicked) = raise panicked

  -- There is no leader: an old ManifestWork is removed, and without one, or if the search for it
  -- fails, the operator waits.
  unfoldable pub on_missing_leader : Sidekick R → Result (ManifestWork R) → Io (Run R W) Outcome
  on_missing_leader sidekick (ok mw) = delete_mw_and_reset_status sidekick mw
  on_missing_leader sidekick (err not_found) = pure (requeue_after 10)
  on_missing_leader sidekick (err (failed e)) = pure (requeue_after 10)
  on_missing_leader sidekick (err panicked) = raise panicked

  unfoldable pub on_distributed_leader :
      NamespacedName → Sidekick R → Result (Pod R) → Io (Run R W) Outcome
  on_distributed_leader req sidekick (ok leader) =
      if leader.name == sidekick.status.leader.name
      then follow_distributed req sidekick leader
      else (do
        found ← attempt (own_mw server req sidekick)
        on_changed_leader req sidekick leader found)
  on_distributed_leader req sidekick (err not_found) = do
    found ← attempt (own_mw server req sidekick)
    on_missing_leader sidekick found
  on_distributed_leader req sidekick (err (failed e)) = raise (failed e)
  on_distributed_leader req sidekick (err panicked) = raise panicked

  unfoldable pub follow_elected : NamespacedName → Sidekick R → Io (Run R W) Outcome
  follow_elected req sidekick = do
    leader ← attempt (get_distributed_leader server op.codec op.sort sidekick)
    on_distributed_leader req sidekick leader

  -- `grpcOnce`: on the first reconciliation the service is started, which is not modelled, and
  -- exported; an error of the export is only logged.
  unfoldable pub export_once : Bool → Sidekick R → Io (Run R W) (Unit {0})
  export_once first sidekick =
      if first
      then (do
        exported ←
            attempt (ensure_service_export op.getenv server (find_domain op.resolv_conf) sidekick)
        pure tt)
      else pure tt

  unfoldable pub reconcile_distributed_found :
      Bool → NamespacedName → Result (Sidekick R) → Io (Run R W) Outcome
  reconcile_distributed_found first req (ok found) = do
    export_once first found
    held ← handle_distributed_sidekick_finalizer op.lib server found
    (drop_key, sidekick) ←
        update_distributed_sidekick_phase server op.codec.unmarshal_counts req held
    if drop_key then pure done else follow_elected req sidekick
  reconcile_distributed_found first req (err not_found) = pure done
  reconcile_distributed_found first req (err (failed e)) = raise (failed e)
  reconcile_distributed_found first req (err panicked) = raise panicked

  -- `first` tells whether no distributed Sidekick was reconciled before.
  unfoldable pub reconcile_distributed_sidekick : Bool → NamespacedName → Io (Run R W) Outcome
  reconcile_distributed_sidekick first req = do
    found ← attempt (get_sidekick server req)
    reconcile_distributed_found first req found
