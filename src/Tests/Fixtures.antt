-- ===== src/Tests/Fixtures.antt =====
-- Concrete objects, a library and a server for the tests. What the program only copies is a number.
use sidekick.Prelude.{
  ℕ, String, Bool, true, false, Option, none, some, [], ◌∷◌, ◌++◌, pos, ok, err, not_found,
}
use sidekick.Prelude.Maps.{GoMap}
use sidekick.Api.Meta.{NamespacedName, ObjectMeta}
use sidekick.Api.Pod.{Pod, PodPhase, CoreContainer, CoreVolumeMount, RestartPolicy, on_failure}
use sidekick.Api.Sidekick.{
  Sidekick, SidekickSpec, Container, VolumeMount, LeaderSelectionPolicy, SideKickPhase,
}
use sidekick.Api.ManifestWork.{ManifestWork, FeedbackValue}
use sidekick.Api.Library.{Library}
use sidekick.Cluster.{Server, Run}
use sidekick.PhaseUpdate.{zero_pod}

abbrev pub lib : Library ℕ
lib = record {
  generation_hash = λ m. m.name;
  upsert_volume = λ vols new. vols ++ new;
  new_controller_ref = λ m kind. record {
    kind = kind;
    name = m.name;
    uid = m.uid;
    controller = some true;
    block_owner_deletion = some true;
  };
  add_finalizer = λ m f. record m { finalizers = f ∷ m.finalizers };
  has_finalizer = λ m f. true;
  remove_finalizer = λ m f. record m { finalizers = [] };
}

abbrev pub meta : String → String → ObjectMeta ℕ
meta name uid = record {
  name = name;
  namespace = "demo";
  uid = uid;
  generation = pos 1;
  annotations = none;
  labels = none;
  finalizers = [];
  deletion_timestamp = none;
  owner_references = [];
}

abbrev pub pod : String → PodPhase → Pod ℕ
pod name phase = record (zero_pod {R = ℕ}) {
  metadata = meta name "u1";
  status = record (zero_pod.status) { phase = phase };
}

abbrev pub mount : VolumeMount ℕ
mount = record {
  name = "data";
  read_only = false;
  mount_path = "";
  sub_path = "";
  mount_propagation = none;
  sub_path_expr = "";
}

abbrev pub core_mount : CoreVolumeMount ℕ
core_mount = record {
  name = "data";
  read_only = false;
  recursive_read_only = none;
  mount_path = "/data";
  sub_path = "";
  mount_propagation = none;
  sub_path_expr = "";
}

abbrev pub container : Container ℕ
container = record {
  name = "wal-g";
  image = "wal-g";
  command = [];
  args = [];
  working_dir = "";
  ports = [];
  env_from = [];
  env = [];
  resources = 0;
  volume_mounts = mount ∷ [];
  volume_devices = [];
  liveness_probe = none;
  readiness_probe = none;
  startup_probe = none;
  lifecycle = none;
  termination_message_path = "";
  termination_message_policy = "";
  image_pull_policy = "";
  security_context = none;
  stdin = false;
  stdin_once = false;
  tty = false;
}

abbrev pub core_container : CoreContainer ℕ
core_container = record {
  name = "db";
  image = "db";
  command = [];
  args = [];
  working_dir = "";
  ports = [];
  env_from = [];
  env = [];
  resources = 0;
  volume_mounts = core_mount ∷ [];
  volume_devices = [];
  liveness_probe = none;
  readiness_probe = none;
  startup_probe = none;
  lifecycle = none;
  termination_message_path = "";
  termination_message_policy = "";
  image_pull_policy = "";
  security_context = none;
  stdin = false;
  stdin_once = false;
  tty = false;
}

-- A database pod, with one container that mounts "data".
abbrev pub leader : String → Pod ℕ
leader name =
    let p = pod name PodPhase.running in
    record p { spec = record (p.spec) { containers = core_container ∷ []; node_name = "node-1" } }

abbrev pub spec : RestartPolicy → Option ℕ → SidekickSpec ℕ
spec policy limit = record {
  leader = record { name = ""; selector = none; selection_policy = LeaderSelectionPolicy.first };
  init_containers = [];
  containers = container ∷ [];
  ephemeral_containers = [];
  restart_policy = policy;
  backoff_limit = limit;
  termination_grace_period_seconds = none;
  active_deadline_seconds = none;
  dns_policy = "";
  node_selector = none;
  service_account_name = "";
  deprecated_service_account = "";
  automount_service_account_token = none;
  node_name = "";
  host_network = false;
  host_pid = false;
  host_ipc = false;
  share_process_namespace = none;
  security_context = none;
  image_pull_secrets = [];
  hostname = "";
  subdomain = "";
  affinity = none;
  scheduler_name = "";
  tolerations = [];
  host_aliases = [];
  priority_class_name = "";
  priority = none;
  dns_config = none;
  readiness_gates = [];
  runtime_class_name = none;
  enable_service_links = none;
  preemption_policy = none;
  overhead = none;
  topology_spread_constraints = [];
  set_hostname_as_fqdn = none;
  os = none;
  host_users = none;
  volumes = [];
  distributed = false;
  extra_args = none;
}

abbrev pub sidekick_of :
    RestartPolicy → Option ℕ → SideKickPhase → GoMap Bool → GoMap ℕ → Sidekick ℕ
sidekick_of policy limit phase failures restarts = record {
  metadata = meta "archiver" "u0";
  spec = spec policy limit;
  status = record {
    leader = record { name = "" };
    pod = PodPhase.unset;
    phase = phase;
    observed_generation = pos 1;
    conditions = [];
    container_restart_counts_per_pod = restarts;
    failure_count = failures;
  };
}

-- A Sidekick that has just been made.
abbrev pub fresh : RestartPolicy → Sidekick ℕ
fresh policy = sidekick_of policy (some 2) SideKickPhase.unset none none

abbrev pub feedback : String → String → FeedbackValue
feedback name text = record { name = name; text = some text; json_raw = none }

-- The ManifestWork of the database pod, in the namespace of a cluster.
abbrev pub db_work : ManifestWork ℕ
db_work = record {
  metadata = record (meta "db" "u5") { namespace = "cluster-1" };
  spec = record { manifests = record { raw = "db-0"; object = none } ∷ []; manifest_configs = [] };
  feedbacks = (feedback "NodeName" "node-1" ∷ feedback "PodRoleLabel" "Primary" ∷ []) ∷ [];
}

-- A server that knows one Sidekick, one database pod and no sidekick pod, and stores nothing.
abbrev pub server : Server ℕ (Unit {0})
server = record {
  on_get_pod = λ key w. (err not_found, w);
  on_get_sidekick = λ key w. (ok (fresh on_failure), w);
  on_list_pods = λ ns sel w. (ok (leader "db-0" ∷ []), w);
  on_list_sidekicks = λ ns w. (ok (fresh on_failure ∷ []), w);
  on_apply_pod = λ p f w. (ok (f p), w);
  on_update_pod_status = λ p w. (ok tt, w);
  on_delete_pod = λ p w. (ok tt, w);
  on_delete_pod_named = λ key w. (ok tt, w);
  on_apply_sidekick = λ sk f w. (ok (f sk), w);
  on_patch_sidekick_status = λ sk f w. (ok (f sk), w);
  on_list_namespaces = λ w. (ok ("cluster-1" ∷ []), w);
  on_ocm_get = λ ns name w. (err not_found, w);
  on_ocm_list = λ ns sel w. (ok (db_work ∷ []), w);
  on_get_mw = λ key w. (err not_found, w);
  on_apply_mw = λ mw f w. (ok (f mw), w);
  on_delete_mw = λ mw w. (ok tt, w);
  on_delete_mw_named = λ key w. (ok tt, w);
  on_get_secret = λ key w. (
    ok (record {
      owner_references = [];
      contents = some (("signing-key", "k1") ∷ ("snapshot-key", "k2") ∷ []);
    }),
    w,
  );
  on_apply_secret = λ key f w. (err not_found, w);
  on_apply_export = λ e w. (ok tt, w);
  on_random_key = λ w. (ok "random", w);
}

abbrev pub start : Run ℕ (Unit {0})
start = record { world = tt; log = [] }

abbrev pub request : NamespacedName
request = record { namespace = "demo"; name = "archiver" }
