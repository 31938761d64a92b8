-- ===== src/Distributed/Works.antt =====
-- What is done with the ManifestWork of a distributed Sidekick, and with the finalizer of the
-- Sidekick: `deleteMW`, `terminateManifestWork` and what is around them in
-- pkg/controllers/apps/distributed.go.
use sidekick.Prelude.{
  String, ◌==◌, ◌&&◌, some, List, [], ◌∷◌, if◌then◌else◌, is_some, not_found, failed, panicked,
  Result, ok, err,
}
use sidekick.Prelude
use sidekick.Prelude.Maps.{entries, insert}
use sidekick.Api.Meta.{NamespacedName}
use sidekick.Api.Pod.{Pod, PodPhase}
use sidekick.Api.Sidekick.{Sidekick}
use sidekick.Api.ManifestWork.{ManifestWork, Manifest, Codec}
use sidekick.Api.Library.{Library}
use sidekick.Cluster.{
  Io, Run, Server, raise, attempt, ◌>>=◌, ◌>>◌, note, skipped_mw, list_namespaces, ocm_get, get_mw,
  apply_mw, delete_api_mw, delete_mw_named, apply_sidekick,
}
use sidekick.PodOps.{
  deletion_initiator_key, deletion_initiates_by_sidekick_operator, get_finalizer_name,
  ignore_not_found,
}
use sidekick.Distributed.Search.{get_distributed_pod_namespace}

unfoldable pub get_pod_phase : String → PodPhase
get_pod_phase pod_phase =
    if pod_phase == "Pending"
    then PodPhase.pending
    else if pod_phase == "Running"
    then PodPhase.running
    else if pod_phase == "Succeeded"
    then PodPhase.succeeded
    else if pod_phase == "Failed"
    then PodPhase.failed
    else PodPhase.unknown

-- The first manifest is read without a test that there is one.
abbrev pub extract_first : {R : Type 0} → Codec R → List (Manifest R) → Result (Pod R)
extract_first codec [] = err panicked
extract_first codec (manifest ∷ _) =
    Prelude.◌>>=◌ (codec.unmarshal_map manifest.raw) codec.from_unstructured

unfoldable pub extract_pod_from_manifest_work :
    {R : Type 0} → Codec R → ManifestWork R → Result (Pod R)
extract_pod_from_manifest_work codec mw = extract_first codec mw.spec.manifests

-- The ManifestWork with the operator named as who deletes it.
abbrev pub mark_mw_deletion : {R : Type 0} → ManifestWork R → ManifestWork R
mark_mw_deletion mw = record mw {
  metadata = record (mw.metadata) {
    annotations = some (
        insert deletion_initiator_key deletion_initiates_by_sidekick_operator
          (entries mw.annotations));
  };
}

module _ {R W : Type 0} (server : Server R W) where
  -- `getDistributedPodNamespace`, of the calls of this server
  abbrev pub pod_namespace : String → Io (Run R W) String
  pod_namespace name = get_distributed_pod_namespace (ocm_get server name) (list_namespaces server)

  -- The ManifestWork of the Sidekick: its namespace from the hub, the rest from the cache.
  unfoldable pub own_mw : NamespacedName → Sidekick R → Io (Run R W) (ManifestWork R)
  own_mw req sidekick = do
    ns ← pod_namespace req.name
    get_mw server (record { namespace = ns; name = sidekick.name })

  unfoldable pub set_mw_deletion_initiator_annotation :
      ManifestWork R → Io (Run R W) (ManifestWork R)
  set_mw_deletion_initiator_annotation mw = apply_mw server mw mark_mw_deletion

  unfoldable pub delete_mw : ManifestWork R → Io (Run R W) (Unit {0})
  delete_mw mw = do marked ← set_mw_deletion_initiator_annotation mw; delete_api_mw server marked

  -- The ManifestWork in the namespace that the search gave, which is "" for none.
  unfoldable pub delete_found : String → String → Io (Run R W) (Unit {0})
  delete_found name ns = if ns == "" then note (skipped_mw name) else (do
    deleted ← attempt (delete_mw_named server (record { namespace = ns; name = name }))
    ignore_not_found deleted)

  unfoldable pub delete_searched : String → Result String → Io (Run R W) (Unit {0})
  delete_searched name (ok ns) = delete_found name ns
  delete_searched name (err not_found) = delete_found name ""
  delete_searched name (err (failed e)) = raise (failed e)
  delete_searched name (err panicked) = raise panicked

module _ {R W : Type 0} (lib : Library R) (server : Server R W) where
  unfoldable pub terminate_manifest_work : Sidekick R → Io (Run R W) (Sidekick R)
  terminate_manifest_work sidekick = do
    searched ← attempt (pod_namespace server sidekick.name)
    delete_searched server sidekick.name searched
    apply_sidekick server sidekick
        (λ sk. record sk { metadata = lib.remove_finalizer sk.metadata get_finalizer_name })

  -- The Sidekick that is returned is the one that the last call has stored.
  unfoldable pub handle_distributed_sidekick_finalizer : Sidekick R → Io (Run R W) (Sidekick R)
  handle_distributed_sidekick_finalizer sidekick =
      if is_some sidekick.deletion_timestamp
        && lib.has_finalizer sidekick.metadata get_finalizer_name
      then terminate_manifest_work sidekick
      else apply_sidekick server sidekick
          (λ sk. record sk { metadata = lib.add_finalizer sk.metadata get_finalizer_name })
