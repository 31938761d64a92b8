-- ===== src/Api/Sidekick.antt =====
-- apis/apps/v1alpha1/sidekick_types.go
use sidekick.Prelude.{String, Bool, true, false, Option, List, ℤ, Int32}
use sidekick.Prelude.Maps.{GoMap}
use sidekick.Api.Meta.{ObjectMeta}
use sidekick.Api.Pod.{RestartPolicy, PodPhase, EnvVar, Volume}

-- An enumeration's zero value, "", is `unset`.
pub data LeaderSelectionPolicy : Type 0 where
  unset first last : LeaderSelectionPolicy

pub data SideKickPhase : Type 0 where
  unset current failed succeeded pending degraded : SideKickPhase

abbrev pub selects_first : LeaderSelectionPolicy → Bool
selects_first first = true
selects_first _ = false

abbrev pub phase_is_failed : SideKickPhase → Bool
phase_is_failed failed = true
phase_is_failed _ = false

abbrev pub phase_is_succeeded : SideKickPhase → Bool
phase_is_succeeded succeeded = true
phase_is_succeeded _ = false

pub record LabelSelector (R : Type 0) : Type 0 where
  pub match_labels : GoMap String
  pub match_expressions : List R

pub record LeaderSpec (R : Type 0) : Type 0 where
  pub name : String
  pub selector : Option (LabelSelector R)
  pub selection_policy : LeaderSelectionPolicy

pub record VolumeMount (R : Type 0) : Type 0 where
  pub name : String
  pub read_only : Bool
  pub mount_path : String
  pub sub_path : String
  pub mount_propagation : Option R
  pub sub_path_expr : String

pub record Container (R : Type 0) : Type 0 where
  pub name : String
  pub image : String
  pub command : List String
  pub args : List String
  pub working_dir : String
  pub ports : List R
  pub env_from : List R
  pub env : List (EnvVar R)
  pub resources : R
  pub volume_mounts : List (VolumeMount R)
  pub volume_devices : List R
  pub liveness_probe : Option R
  pub readiness_probe : Option R
  pub startup_probe : Option R
  pub lifecycle : Option R
  pub termination_message_path : String
  pub termination_message_policy : String
  pub image_pull_policy : String
  pub security_context : Option R
  pub stdin : Bool
  pub stdin_once : Bool
  pub tty : Bool

pub record SidekickSpec (R : Type 0) : Type 0 where
  pub leader : LeaderSpec R
  pub init_containers : List (Container R)
  pub containers : List (Container R)
  pub ephemeral_containers : List R
  pub restart_policy : RestartPolicy
  pub backoff_limit : Option Int32
  pub termination_grace_period_seconds : Option R
  pub active_deadline_seconds : Option R
  pub dns_policy : String
  pub node_selector : GoMap String
  pub service_account_name : String
  pub deprecated_service_account : String
  pub automount_service_account_token : Option Bool
  pub node_name : String
  pub host_network : Bool
  pub host_pid : Bool
  pub host_ipc : Bool
  pub share_process_namespace : Option Bool
  pub security_context : Option R
  pub image_pull_secrets : List R
  pub hostname : String
  pub subdomain : String
  pub affinity : Option R
  pub scheduler_name : String
  pub tolerations : List R
  pub host_aliases : List R
  pub priority_class_name : String
  pub priority : Option Int32
  pub dns_config : Option R
  pub readiness_gates : List R
  pub runtime_class_name : Option String
  pub enable_service_links : Option Bool
  pub preemption_policy : Option R
  pub overhead : Option R
  pub topology_spread_constraints : List R
  pub set_hostname_as_fqdn : Option Bool
  pub os : Option R
  pub host_users : Option Bool
  pub volumes : List (Volume R)
  pub distributed : Bool
  pub extra_args : GoMap R

pub record LeaderStatus : Type 0 where
  pub name : String

pub record SidekickStatus (R : Type 0) : Type 0 where
  pub leader : LeaderStatus
  pub pod : PodPhase
  pub phase : SideKickPhase
  pub observed_generation : ℤ
  pub conditions : List R
  pub container_restart_counts_per_pod : GoMap Int32
  pub failure_count : GoMap Bool

pub record Sidekick (R : Type 0) : Type 0 where
  pub metadata : ObjectMeta R
  pub open metadata use *
  pub spec : SidekickSpec R
  pub status : SidekickStatus R
