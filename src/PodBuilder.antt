-- ===== src/PodBuilder.antt =====
-- The sidekick pod that is built for a leader: pkg/controllers/apps/pod_builder.go, with the two
-- annotation keys of pkg/controllers/apps/sidekick_controller.go.
pub mod Mounts
pub mod Built
pub mod Calm
use sidekick.Prelude.{
  String, Bool, true, false, not, ◌&&◌, Option, none, some, List, [], ◌∷◌, ◌++◌, ◌==◌,
  if◌then◌else◌, is_some, ℤ, pos, Result, ok, err, failed, ◌>>=◌,
}
use sidekick.Prelude.Maps.{GoMap, Entries, entries, insert}
use sidekick.Api.Meta.{ObjectMeta, OwnerReference}
use sidekick.Api.Pod.{
  Pod, PodSpec, PodStatus, CoreContainer, CoreVolumeMount, EnvVar, Volume, unset,
}
use sidekick.Api.Sidekick.{Sidekick, SidekickSpec, Container, VolumeMount}
use sidekick.Api.Library.{Library}

abbrev pub key_hash : String
key_hash = "sidekick.appscode.com/hash"

abbrev pub key_leader : String
key_leader = "sidekick.appscode.com/leader"

module _ {R : Type 0} where
  mount_named : String → List (CoreVolumeMount R) → Option (CoreVolumeMount R)
  mount_named name [] = none
  mount_named name (vm ∷ rest) = if vm.name == name then some vm else mount_named name rest

  mount_in : String → List (CoreContainer R) → Option (CoreVolumeMount R)
  mount_in name [] = none
  mount_in name (c ∷ rest) = elim (mount_named name c.volume_mounts) [
    | some vm ↦ some vm
    | none ↦ mount_in name rest
  ]

  unfoldable pub find_mount : Pod R → String → Option (CoreVolumeMount R)
  unfolding mount_named mount_in
  find_mount leader name = elim (mount_in name leader.spec.containers) [
    | some vm ↦ some vm
    | none ↦ mount_in name leader.spec.init_containers
  ]

  -- A mount with no more than a name is to be taken from the leader.
  abbrev pub is_empty_mount : VolumeMount R → Bool
  is_empty_mount vm =
      not vm.read_only
      && vm.mount_path == ""
      && vm.sub_path == ""
      && not (is_some vm.mount_propagation)
      && vm.sub_path_expr == ""

  abbrev pub own_mount : VolumeMount R → CoreVolumeMount R
  own_mount vm = record {
    name = vm.name;
    read_only = vm.read_only;
    recursive_read_only = none;
    mount_path = vm.mount_path;
    sub_path = vm.sub_path;
    mount_propagation = vm.mount_propagation;
    sub_path_expr = vm.sub_path_expr;
  }

  abbrev pub from_leader : Option (CoreVolumeMount R) → Result (CoreVolumeMount R)
  from_leader none = err (failed "missing volume mount for leader")
  from_leader (some v2) = ok v2

  unfoldable pub conv_mount : Pod R → VolumeMount R → Result (CoreVolumeMount R)
  conv_mount leader vm =
      if is_empty_mount vm then from_leader (find_mount leader vm.name) else ok (own_mount vm)

  unfoldable pub conv_mounts : Pod R → List (VolumeMount R) → Result (List (CoreVolumeMount R))
  conv_mounts leader [] = ok []
  conv_mounts leader (vm ∷ rest) = do
    v2 ← conv_mount leader vm
    mounts ← conv_mounts leader rest
    ok (v2 ∷ mounts)

  unfoldable pub conv_container : Pod R → Container R → Result (CoreContainer R)
  conv_container leader c = do
    mounts ← conv_mounts leader c.volume_mounts
    ok (record {
      name = c.name;
      image = c.image;
      command = c.command;
      args = c.args;
      working_dir = c.working_dir;
      ports = c.ports;
      env_from = c.env_from;
      env = c.env;
      resources = c.resources;
      volume_mounts = mounts;
      volume_devices = c.volume_devices;
      liveness_probe = c.liveness_probe;
      readiness_probe = c.readiness_probe;
      startup_probe = c.startup_probe;
      lifecycle = c.lifecycle;
      termination_message_path = c.termination_message_path;
      termination_message_policy = c.termination_message_policy;
      image_pull_policy = c.image_pull_policy;
      security_context = c.security_context;
      stdin = c.stdin;
      stdin_once = c.stdin_once;
      tty = c.tty;
    })

  abbrev pub leader_name_env : Pod R → EnvVar R
  leader_name_env leader = record { name = "LEADER_NAME"; value = leader.name; value_from = none }

  -- The loop over the containers, which adds the leader's name to the environment of each.
  unfoldable pub conv_containers : Pod R → List (Container R) → Result (List (CoreContainer R))
  conv_containers leader [] = ok []
  conv_containers leader (c ∷ rest) = do
    container ← conv_container leader c
    others ← conv_containers leader rest
    ok (record container { env = container.env ++ leader_name_env leader ∷ [] } ∷ others)

  unfoldable pub conv_init_containers : Pod R → List (Container R) → Result (List (CoreContainer R))
  conv_init_containers leader [] = ok []
  conv_init_containers leader (c ∷ rest) = do
    container ← conv_container leader c
    others ← conv_init_containers leader rest
    ok (container ∷ others)

  unfoldable pub has_mounts : List (Container R) → Bool
  has_mounts [] = false
  has_mounts (c ∷ rest) = elim c.volume_mounts [ [] ↦ has_mounts rest | _ ∷ _ ↦ true ]

module _ {R : Type 0} (lib : Library R) where
  unfoldable pub list_volumes : Pod R → Sidekick R → List (Volume R)
  list_volumes leader sidekick =
      let vols = lib.upsert_volume [] sidekick.spec.volumes in
      if has_mounts sidekick.spec.containers
      then lib.upsert_volume vols leader.spec.volumes
      else if has_mounts sidekick.spec.init_containers
      then lib.upsert_volume vols leader.spec.volumes
      else []

  -- The pod's spec but for its containers.
  abbrev pub pod_spec :
      Pod R → Sidekick R → List (CoreContainer R) → List (CoreContainer R) → PodSpec R
  pod_spec leader sidekick containers init_containers = record {
    volumes = list_volumes leader sidekick;
    init_containers = init_containers;
    containers = containers;
    ephemeral_containers = ephemeral_containers;
    restart_policy = restart_policy;
    termination_grace_period_seconds = termination_grace_period_seconds;
    active_deadline_seconds = active_deadline_seconds;
    dns_policy = dns_policy;
    service_account_name = service_account_name;
    deprecated_service_account = deprecated_service_account;
    automount_service_account_token = automount_service_account_token;
    node_name = leader.spec.node_name;
    host_network = host_network;
    host_pid = host_pid;
    host_ipc = host_ipc;
    share_process_namespace = share_process_namespace;
    security_context = security_context;
    image_pull_secrets = image_pull_secrets;
    hostname = hostname;
    subdomain = subdomain;
    affinity = affinity;
    scheduler_name = scheduler_name;
    tolerations = tolerations;
    host_aliases = host_aliases;
    priority_class_name = priority_class_name;
    priority = priority;
    dns_config = dns_config;
    readiness_gates = readiness_gates;
    runtime_class_name = runtime_class_name;
    enable_service_links = enable_service_links;
    preemption_policy = preemption_policy;
    overhead = overhead;
    topology_spread_constraints = topology_spread_constraints;
    set_hostname_as_fqdn = set_hostname_as_fqdn;
    os = os;
    host_users = host_users;
  }
    where
      open sidekick.spec use {
        ephemeral_containers, restart_policy, termination_grace_period_seconds,
        active_deadline_seconds, dns_policy, service_account_name, deprecated_service_account,
        automount_service_account_token, host_network, host_pid, host_ipc, share_process_namespace,
        security_context, image_pull_secrets, hostname, subdomain, affinity, scheduler_name,
        tolerations, host_aliases, priority_class_name, priority, dns_config, readiness_gates,
        runtime_class_name, enable_service_links, preemption_policy, overhead,
        topology_spread_constraints, set_hostname_as_fqdn, os, host_users,
      }

  -- The annotations of the new pod: the hash is taken before either key is written.
  abbrev pub pod_annotations : Pod R → Sidekick R → Entries String
  pod_annotations leader sidekick =
      insert key_leader leader.name
        (insert key_hash (lib.generation_hash sidekick.metadata) (entries sidekick.annotations))

  -- The pod, and the Sidekick, whose annotations the pod's map shares unless they are nil.
  unfoldable pub new_sidekick_pod : Sidekick R → Pod R → Result (Pod R × Sidekick R)
  new_sidekick_pod sidekick leader =
      let sidekick_ref = lib.new_controller_ref sidekick.metadata "Sidekick" in
      let leader_ref = record (lib.new_controller_ref leader.metadata "Pod") {
        controller = some false;
        block_owner_deletion = some false;
      } in
      let annotations = pod_annotations leader sidekick in
      (conv_containers leader sidekick.spec.containers >>= λ containers.
      conv_init_containers leader sidekick.spec.init_containers >>= λ init_containers. ok (
        record {
          metadata = record {
            name = sidekick.name;
            namespace = sidekick.namespace;
            uid = "";
            generation = pos 0;
            annotations = some annotations;
            labels = sidekick.labels;
            finalizers = [];
            deletion_timestamp = none;
            owner_references = sidekick_ref ∷ leader_ref ∷ [];
          };
          spec = pod_spec leader sidekick containers init_containers;
          status = record {
            phase = unset;
            pod_ip = "";
            conditions = [];
            container_statuses = [];
            init_container_statuses = [];
          };
        },
        elim sidekick.annotations [
          | none ↦ sidekick
          | some _ ↦ record sidekick {
            metadata = record (sidekick.metadata) { annotations = some annotations };
          }
        ],
      ))
