-- ===== src/Distributed/Election.antt =====
-- The pod that a distributed Sidekick follows: `getDistributedLeader` and `findDistributedLeader` of
-- pkg/controllers/apps/distributed.go.
use sidekick.Prelude.{
  String, Bool, false, not, ◌||◌, Option, none, some, List, [], ◌∷◌, ◌++◌, ◌==◌, if◌then◌else◌,
  is_some, not_found, Result, ok, err,
}
use sidekick.Prelude.Maps.{entries, insert, get, delete}
use sidekick.Api.Pod.{Pod, PodStatus, PodPhase}
use sidekick.Api.Sidekick.{Sidekick, LabelSelector}
use sidekick.Api.ManifestWork.{ManifestWork, Manifest, FeedbackValue, Codec}
use sidekick.Cluster.{Io, Run, Server, pure, lift, ◌>>=◌, list_namespaces, ocm_get, ocm_list}
use sidekick.PhaseUpdate.{zero_pod}
use sidekick.Leader.{Sort, pod_less, pick}
use sidekick.Distributed.Works.{pod_namespace, extract_pod_from_manifest_work}

abbrev pub manifest_work_cluster_name_label : String
manifest_work_cluster_name_label = "open-cluster-management.io/cluster-name"

abbrev pub role_label : String
role_label = "kubedb.com/role"

-- The conversion of a string to a `PodPhase`.
unfoldable pub phase_of_text : String → PodPhase
phase_of_text s =
    if s == ""
    then PodPhase.unset
    else if s == "Pending"
    then PodPhase.pending
    else if s == "Running"
    then PodPhase.running
    else if s == "Succeeded"
    then PodPhase.succeeded
    else if s == "Failed"
    then PodPhase.failed
    else if s == "Unknown"
    then PodPhase.unknown
    else PodPhase.other s

module _ {R : Type 0} where
  abbrev pub has_role : Option (LabelSelector R) → Bool
  has_role none = false
  has_role (some selector) = is_some (get selector.match_labels role_label)

  -- The selector with which ManifestWorks are listed: they are not labelled with a role.
  abbrev pub without_role : Option (LabelSelector R) → Option (LabelSelector R)
  without_role none = none
  without_role (some selector) = some (
      if is_some (get selector.match_labels role_label)
      then record selector {
        match_labels = some (delete role_label (entries selector.match_labels));
      }
      else selector)

-- What the loop over the feedback has collected.
pub record Seen (R : Type 0) : Type 0 where
  pub status : PodStatus R
  pub primary : Bool
  pub node_name : String

module _ {R : Type 0} (codec : Codec R) where
  abbrev pub with_condition : String → Seen R → Seen R
  with_condition raw seen = elim (codec.unmarshal_condition raw) [
    | some c ↦ record seen {
      status = record (seen.status) { conditions = seen.status.conditions ++ c ∷ [] };
    }
    | none ↦ seen
  ]

  -- The `switch` of the loop, for a value with a string, and for one with JSON.
  abbrev pub see_text : String → String → Seen R → Seen R
  see_text name s seen =
      if name == "PodPhase"
      then record seen { status = record (seen.status) { phase = phase_of_text s } }
      else if name == "PodIP"
      then record seen { status = record (seen.status) { pod_ip = s } }
      else if name == "PodRoleLabel"
      then record seen { primary = seen.primary || s == "Primary" }
      else if name == "NodeName"
      then record seen { node_name = s }
      else seen

  abbrev pub see_json : String → String → Seen R → Seen R
  see_json name raw seen = if name == "ReadyCondition" then with_condition raw seen else seen

  abbrev pub see : FeedbackValue → Seen R → Seen R
  see v seen =
      let after : Seen R = elim v.text [ some s ↦ see_text v.name s seen | none ↦ seen ] in
      elim v.json_raw [ some raw ↦ see_json v.name raw after | none ↦ after ]

  unfoldable pub see_all : List FeedbackValue → Seen R → Seen R
  see_all [] seen = seen
  see_all (v ∷ rest) seen = see_all rest (see v seen)

  abbrev pub seen_first : Bool → Seen R
  seen_first remove_role = record {
    status = zero_pod.status;
    primary = not remove_role;
    node_name = "";
  }

  -- The pod of a ManifestWork as its feedback shows it.
  abbrev pub observed_pod : ManifestWork R → Pod R → Seen R → Pod R
  observed_pod mw pod seen = record pod {
    metadata = record (pod.metadata) {
      annotations =
          some (insert manifest_work_cluster_name_label mw.namespace (entries pod.annotations));
    };
    spec = record (pod.spec) { node_name = seen.node_name };
    status = seen.status;
  }

  abbrev pub if_primary : ManifestWork R → Pod R → Seen R → Option (Pod R)
  if_primary mw pod seen = if seen.primary then some (observed_pod mw pod seen) else none

  abbrev pub first_pod : List (Manifest R) → Option (Pod R)
  first_pod [] = none
  first_pod (manifest ∷ _) = codec.unmarshal_pod manifest.raw

  unfoldable pub leader_from :
      Bool → ManifestWork R → Option (Pod R) → List (List FeedbackValue) → Option (Pod R)
  leader_from remove_role mw none feedbacks = none
  leader_from remove_role mw (some pod) [] = none
  leader_from remove_role mw (some pod) (values ∷ _) =
      if_primary mw pod (see_all values (seen_first remove_role))

  -- A ManifestWork without a manifest that is a pod, or without feedback, is passed over.
  abbrev pub leader_of : Bool → ManifestWork R → Option (Pod R)
  leader_of remove_role mw = leader_from remove_role mw (first_pod mw.spec.manifests) mw.feedbacks

  unfoldable pub leaders_of : Bool → List (ManifestWork R) → List (Pod R)
  leaders_of remove_role [] = []
  leaders_of remove_role (mw ∷ rest) = elim (leader_of remove_role mw) [
    | some pod ↦ pod ∷ leaders_of remove_role rest
    | none ↦ leaders_of remove_role rest
  ]

-- The end of `findDistributedLeader`.
unfoldable pub order_leaders : {R : Type 0} → Sort R → List (Pod R) → Result (List (Pod R))
order_leaders sort [] = err not_found
order_leaders sort (pod ∷ []) = ok (pod ∷ [])
order_leaders sort (pod ∷ next ∷ rest) = ok (sort pod_less (pod ∷ next ∷ rest))

module _ {R W : Type 0} (server : Server R W) (codec : Codec R) (sort : Sort R) where
  unfoldable pub list_works :
      Option (LabelSelector R) → List String → Io (Run R W) (List (ManifestWork R))
  list_works selector [] = pure []
  list_works selector (ns ∷ rest) = do
    works ← ocm_list server selector ns
    more ← list_works selector rest
    pure (works ++ more)

  -- The leader by name: it is looked up where the ManifestWork of the Sidekick is.
  unfoldable pub find_named : Sidekick R → Io (Run R W) (List (Pod R))
  find_named sidekick = do
    ns ← pod_namespace server sidekick.name
    mw ← ocm_get server sidekick.spec.leader.name ns
    leader ← lift (extract_pod_from_manifest_work codec mw)
    pure (leader ∷ [])

  unfoldable pub find_selected : Sidekick R → Io (Run R W) (List (Pod R))
  find_selected sidekick = do
    namespaces ← list_namespaces server
    works ← list_works (without_role sidekick.spec.leader.selector) namespaces
    lift (order_leaders sort (leaders_of codec (has_role sidekick.spec.leader.selector) works))

  unfoldable pub find_distributed_leader : Sidekick R → Io (Run R W) (List (Pod R))
  find_distributed_leader sidekick =
      if sidekick.spec.leader.name == "" then find_selected sidekick else find_named sidekick

  unfoldable pub get_distributed_leader : Sidekick R → Io (Run R W) (Pod R)
  get_distributed_leader sidekick = do
    leaders ← find_distributed_leader sidekick
    lift (pick sidekick.spec.leader.selection_policy leaders)
