-- ===== src/Api/Pod.antt =====
-- Pods (k8s.io/api/core/v1): the fields that the program reads or writes. The field of a pointer
-- type is an `Option`, and an enumeration has a constructor for each of its constants; `unset` is "".
use sidekick.Prelude.{String, Bool, true, false, Option, List, Int32}
use sidekick.Api.Meta.{ObjectMeta}

pub data PodPhase : Type 0 where
  unset pending running succeeded failed unknown : PodPhase
  other : String → PodPhase

pub data RestartPolicy : Type 0 where
  unset always on_failure never : RestartPolicy

abbrev pub is_running : PodPhase → Bool
is_running running = true
is_running _ = false

abbrev pub is_failed : PodPhase → Bool
is_failed failed = true
is_failed _ = false

abbrev pub is_succeeded : PodPhase → Bool
is_succeeded succeeded = true
is_succeeded _ = false

abbrev pub is_always : RestartPolicy → Bool
is_always always = true
is_always _ = false

abbrev pub is_never : RestartPolicy → Bool
is_never never = true
is_never _ = false

pub record EnvVar (R : Type 0) : Type 0 where
  pub name : String
  pub value : String
  pub value_from : Option R

pub record CoreVolumeMount (R : Type 0) : Type 0 where
  pub name : String
  pub read_only : Bool
  pub recursive_read_only : Option R
  pub mount_path : String
  pub sub_path : String
  pub mount_propagation : Option R
  pub sub_path_expr : String

pub record Volume (R : Type 0) : Type 0 where
  pub name : String
  pub source : R

pub record CoreContainer (R : Type 0) : Type 0 where
  pub name : String
  pub image : String
  pub command : List String
  pub args : List String
  pub working_dir : String
  pub ports : List R
  pub env_from : List R
  pub env : List (EnvVar R)
  pub resources : R
  pub volume_mounts : List (CoreVolumeMount R)
  pub volume_devices : List R
  pub liveness_probe : Option R
  pub readiness_probe : Option R
  pub startup_probe : Option R
  pub lifecycle : Option R
  pub termination_message_path : String
  pub termination_message_policy : String
  pub image_pull_policy : String
  pub security_context : Option R
  pub stdin : Bool
  pub stdin_once : Bool
  pub tty : Bool

pub record PodSpec (R : Type 0) : Type 0 where
  pub volumes : List (Volume R)
  pub init_containers : List (CoreContainer R)
  pub containers : List (CoreContainer R)
  pub ephemeral_containers : List R
  pub restart_policy : RestartPolicy
  pub termination_grace_period_seconds : Option R
  pub active_deadline_seconds : Option R
  pub dns_policy : String
  pub service_account_name : String
  pub deprecated_service_account : String
  pub automount_service_account_token : Option Bool
  pub node_name : String
  pub host_network : Bool
  pub host_pid : Bool
  pub host_ipc : Bool
  pub share_process_namespace : Option Bool
  pub security_context : Option R
  pub image_pull_secrets : List R
  pub hostname : String
  pub subdomain : String
  pub affinity : Option R
  pub scheduler_name : String
  pub tolerations : List R
  pub host_aliases : List R
  pub priority_class_name : String
  pub priority : Option Int32
  pub dns_config : Option R
  pub readiness_gates : List R
  pub runtime_class_name : Option String
  pub enable_service_links : Option Bool
  pub preemption_policy : Option R
  pub overhead : Option R
  pub topology_spread_constraints : List R
  pub set_hostname_as_fqdn : Option Bool
  pub os : Option R
  pub host_users : Option Bool

-- `running` tells whether `State.Running` is not nil.
pub record ContainerStatus : Type 0 where
  pub restart_count : Int32
  pub running : Bool

pub record PodStatus (R : Type 0) : Type 0 where
  pub phase : PodPhase
  pub pod_ip : String
  pub conditions : List R
  pub container_statuses : List ContainerStatus
  pub init_container_statuses : List ContainerStatus

pub record Pod (R : Type 0) : Type 0 where
  pub metadata : ObjectMeta R
  pub open metadata use *
  pub spec : PodSpec R
  pub status : PodStatus R
