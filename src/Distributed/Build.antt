-- ===== src/Distributed/Build.antt =====
-- The pod of a distributed Sidekick and the ManifestWork that brings it to the cluster of the leader:
-- the second half of `ReconcileDistributedSidekick`, and `ensurePodManifestWork`, of
-- pkg/controllers/apps/distributed.go.
use sidekick.Prelude.{
  String, true, none, some, [], ◌∷◌, ◌==◌, if◌then◌else◌, Result, ok, failed, ◌>>=◌,
}
use sidekick.Prelude.Maps.{Entries, entries, insert, copy_into}
use sidekick.Api.Pod.{Pod}
use sidekick.Api.Sidekick.{Sidekick}
use sidekick.Api.ManifestWork.{ManifestWork, ManifestConfigOption, JsonPath, Codec}
use sidekick.Api.Library.{Library}
use sidekick.Cluster.{Io, Run, Server, pure, raise, lift, ◌>>◌, apply_mw}
use sidekick.Cluster
use sidekick.PhaseUpdate.{zero_pod}
use sidekick.PodBuilder.{key_hash, key_leader, conv_containers, conv_init_containers, pod_spec}
use sidekick.Reconcile.{annotation}
use sidekick.Distributed.Election.{manifest_work_cluster_name_label}

module _ {R : Type 0} (lib : Library R) where
  -- The Sidekick's annotations and over them the leader's, in a fresh map.
  abbrev pub merged_annotations : Pod R → Sidekick R → Entries String
  merged_annotations leader sidekick =
      copy_into (copy_into [] (entries sidekick.annotations)) (entries leader.annotations)

  abbrev pub distributed_pod_annotations : Pod R → Sidekick R → Entries String
  distributed_pod_annotations leader sidekick =
      insert key_leader leader.name (
        insert key_hash (lib.generation_hash sidekick.metadata)
          (merged_annotations leader sidekick))

  unfoldable pub new_distributed_pod : Sidekick R → Pod R → Result (Pod R)
  new_distributed_pod sidekick leader = do
    containers ← conv_containers leader sidekick.spec.containers
    init_containers ← conv_init_containers leader sidekick.spec.init_containers
    ok (record {
      metadata = record (zero_pod.metadata) {
        name = sidekick.name;
        namespace = sidekick.namespace;
        annotations = some (distributed_pod_annotations leader sidekick);
        labels = sidekick.labels;
        owner_references = lib.new_controller_ref sidekick.metadata "Sidekick" ∷ [];
      };
      spec = pod_spec lib leader sidekick containers init_containers;
      status = zero_pod.status;
    })

abbrev json_path : String → String → JsonPath
json_path name path = record { name = name; path = path }

abbrev pub manifest_config : {R : Type 0} → Pod R → ManifestConfigOption
manifest_config pod = record {
  resource_identifier = record {
    group = "";
    resource = "pods";
    name = pod.name;
    namespace = pod.namespace;
  };
  feedback_kind = "JSONPaths";
  json_paths =
      json_path "PodPhase" ".status.phase"
      ∷ json_path "PodIP" ".status.podIP"
      ∷ json_path "ReadyCondition" ".status.conditions[?(@.type=='Ready')]"
      ∷ json_path "NodeName" ".spec.nodeName"
      ∷ json_path "ContainerRestartCount" ".status.containerStatuses[*].restartCount"
      ∷ json_path "InitContainerRestartCount" ".status.initContainerStatuses[*].restartCount"
      ∷ [];
  update_strategy = record {
    kind = "ServerSideApply";
    force = true;
    ignore_condition = "OnSpokePresent";
    ignore_paths = "$.metadata.labels" ∷ [];
  };
}

module _ {R : Type 0} where
  abbrev pub work_labels : Sidekick R → Entries String
  work_labels sidekick = insert "sidekick-name" sidekick.name (entries sidekick.labels)

  abbrev pub manifest_work_of : Sidekick R → Pod R → String → R → ManifestWork R
  manifest_work_of sidekick pod namespace object = record {
    metadata = record (zero_pod.metadata) {
      name = pod.name;
      namespace = namespace;
      labels = some (work_labels sidekick);
    };
    spec = record {
      manifests = record { raw = ""; object = some object } ∷ [];
      manifest_configs = manifest_config pod ∷ [];
    };
    feedbacks = [];
  }

  -- The labels are written to the map of the Sidekick itself, unless that is nil.
  abbrev pub with_work_label : Sidekick R → Sidekick R
  with_work_label sidekick = elim sidekick.labels [
    | none ↦ sidekick
    | some _ ↦ record sidekick {
      metadata = record (sidekick.metadata) { labels = some (work_labels sidekick) };
    }
  ]

  abbrev pub without_owners : Pod R → Pod R
  without_owners pod = record pod { metadata = record (pod.metadata) { owner_references = [] } }

module _ {R W : Type 0} (server : Server R W) (codec : Codec R) where
  -- The Sidekick as it is then.
  unfoldable pub ensure_pod_manifest_work : Sidekick R → Pod R → Io (Run R W) (Sidekick R)
  ensure_pod_manifest_work sidekick pod =
      let namespace = annotation pod manifest_work_cluster_name_label in
      if namespace == ""
      then raise (failed "cluster-name annotation is empty")
      else Cluster.◌>>=◌ (lift (codec.to_unstructured (without_owners pod))) λ object.
        let mw = manifest_work_of sidekick pod namespace object in
        apply_mw server mw (λ stored. record stored {
          metadata = record (stored.metadata) { labels = mw.labels };
          spec = mw.spec;
        })
        >> pure (with_work_label sidekick)
