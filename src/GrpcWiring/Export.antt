-- ===== src/GrpcWiring/Export.antt =====
-- The export of the service onto the slice: `ensureServiceExport` and `stableSelectorLabels` of
-- pkg/controllers/apps/grpc_wiring.go. The operator's pod, its environment and the domain of the cluster
-- are parameters.
use Prim.Native.String.{◌++◌ as append_text}
use sidekick.Prelude.{
  ℕ, String, ◌≡◌, Bool, ◌||◌, none, some, List, [], ◌∷◌, ◌==◌, if◌then◌else◌, arith, eq_iff, Result,
  ok, err, failed,
}
use sidekick.Prelude.Maps.{GoMap, Entries, entries, get, lookup}
use sidekick.Api.Meta.{NamespacedName}
use sidekick.Api.Pod.{Pod}
use sidekick.Api.Sidekick.{Sidekick}
use sidekick.Api.Wiring.{ServiceExport}
use sidekick.Cluster.{Io, Run, Server, pure, lift, ◌>>=◌, get_pod, apply_export}
use sidekick.Prelude
use sidekick.GrpcWiring.{env_pod_name, env_pod_namespace, get_slice_name, slice_dns}
use sidekick.GrpcWiring.Names.{deployment_name_for_pod}

-- What changes from one revision of a workload to the next.
abbrev pub is_volatile : String → Bool
is_volatile k =
    k == "pod-template-hash"
    || (k == "controller-revision-hash"
        || (k == "statefulset.kubernetes.io/pod-name" || k == "apps.kubernetes.io/pod-index"))

-- The loop over the labels, which leaves out those of some names.
unfoldable pub drop_labels : (String → Bool) → Entries String → Entries String
drop_labels out [] = []
drop_labels out ((k, v) ∷ rest) =
    let kept = drop_labels out rest in if out k then kept else (k, v) ∷ kept

abbrev pub stable_selector_labels : GoMap String → GoMap String
stable_selector_labels labels = some (drop_labels is_volatile (entries labels))

abbrev pub own_pod : (String → String) → NamespacedName
own_pod getenv = record { namespace = getenv env_pod_namespace; name = getenv env_pod_name }

module _ {R : Type 0} (getenv : String → String) where
  -- The slice, if the operator knows its own pod.
  unfoldable pub export_slice : Sidekick R → Result String
  export_slice sidekick = Prelude.◌>>=◌ (get_slice_name sidekick) λ slice_name.
      if getenv env_pod_name == "" || getenv env_pod_namespace == ""
      then err (failed "POD_NAME/POD_NAMESPACE env not set")
      else ok slice_name

  abbrev pub export_of : String → String → Pod R → ServiceExport
  export_of domain slice_name self =
      let svc_name = deployment_name_for_pod (getenv env_pod_name) in
      let namespace = getenv env_pod_namespace in
      record {
        key = record { namespace = namespace; name = svc_name };
        slice = slice_name;
        selector = stable_selector_labels self.labels;
        aliases =
            append_text svc_name
              (append_text "." (append_text namespace (append_text ".svc." domain)))
            ∷ slice_dns svc_name namespace
            ∷ [];
        port_name = "grpc";
        container_port = 50051;
        protocol = "TCP";
      }

  -- The ServiceExport that is to be stored; `self` is the operator's pod, which `fetch` looks up.
  unfoldable pub service_export :
      {S : Type 0} → (NamespacedName → Io S (Pod R)) → String → Sidekick R → Io S ServiceExport
  service_export fetch domain sidekick = do
    slice_name ← lift (export_slice sidekick)
    self ← fetch (own_pod getenv)
    pure (export_of domain slice_name self)

  unfoldable pub ensure_service_export :
      {W : Type 0} → Server R W → String → Sidekick R → Io (Run R W) (Unit {0})
  ensure_service_export server domain sidekick = do
    export ← service_export (get_pod server) domain sidekick
    apply_export server export

lookup-drop_labels :
    (out : String → Bool) (k : String) (labels : Entries String)
    → lookup k (drop_labels out labels) ≡ (if out k then none else lookup k labels)
unfolding lookup drop_labels
lookup-drop_labels out k [] = ground arith
lookup-drop_labels out k ((j, v) ∷ rest) = ground (arith, eq_iff j k, lookup-drop_labels out k rest)

-- The labels of the selector are those of the pod, but for the ones that change with each revision.
lookup-stable_selector_labels :
    (k : String) (labels : GoMap String)
    → get (stable_selector_labels labels) k ≡ (if is_volatile k then none else get labels k)
unfolding get
lookup-stable_selector_labels k labels = lookup-drop_labels is_volatile k (entries labels)
