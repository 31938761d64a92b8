-- ===== src/PhaseUpdate.antt =====
-- How the phase of a Sidekick is computed from its pod and written to its status:
-- `calculateSidekickPhase`, `updateSidekickPhase` and `updateSidekickStatus` of
-- pkg/controllers/apps/sidekick.go.
pub mod Observed
pub mod Failures
pub mod Always
pub mod Exhausted
use sidekick.Prelude.{
  String, Bool, true, false, not, ◌&&◌, Option, none, some, [], pos, if◌then◌else◌, is_some, Error,
  not_found, failed, panicked, Result, ok, err,
}
use sidekick.Prelude
use sidekick.Prelude.Maps.{make_if_nil, put}
use sidekick.Api.Meta.{NamespacedName}
use sidekick.Api.Pod
use sidekick.Api.Pod.{Pod, PodPhase, RestartPolicy, is_running, is_failed, is_never}
use sidekick.Api.Sidekick.{
  Sidekick, SidekickStatus, SideKickPhase, phase_is_failed, phase_is_succeeded,
}
use sidekick.Cluster.{
  Io, Run, Server, pure, raise, lift, attempt, ◌>>=◌, ◌>>◌, get_pod, update_pod_status,
  patch_sidekick_status,
}
use sidekick.Phase.{get_container_restart_counts, exceeds_backoff_limit, get_sidekick_phase}

abbrev pub object_key : {R : Type 0} → Sidekick R → NamespacedName
object_key sidekick = record { namespace = sidekick.namespace; name = sidekick.name }

module _ {R : Type 0} where
  -- The `Pod` that a failed lookup leaves.
  abbrev pub zero_pod : Pod R
  zero_pod = record {
    metadata = record {
      name = "";
      namespace = "";
      uid = "";
      generation = pos 0;
      annotations = none;
      labels = none;
      finalizers = [];
      deletion_timestamp = none;
      owner_references = [];
    };
    spec = record {
      volumes = [];
      init_containers = [];
      containers = [];
      ephemeral_containers = [];
      restart_policy = RestartPolicy.unset;
      termination_grace_period_seconds = none;
      active_deadline_seconds = none;
      dns_policy = "";
      service_account_name = "";
      deprecated_service_account = "";
      automount_service_account_token = none;
      node_name = "";
      host_network = false;
      host_pid = false;
      host_ipc = false;
      share_process_namespace = none;
      security_context = none;
      image_pull_secrets = [];
      hostname = "";
      subdomain = "";
      affinity = none;
      scheduler_name = "";
      tolerations = [];
      host_aliases = [];
      priority_class_name = "";
      priority = none;
      dns_config = none;
      readiness_gates = [];
      runtime_class_name = none;
      enable_service_links = none;
      preemption_policy = none;
      overhead = none;
      topology_spread_constraints = [];
      set_hostname_as_fqdn = none;
      os = none;
      host_users = none;
    };
    status = record {
      phase = PodPhase.unset;
      pod_ip = "";
      conditions = [];
      container_statuses = [];
      init_container_statuses = [];
    };
  }

  abbrev pub set_failure : String → Bool → Sidekick R → Result (Sidekick R)
  set_failure uid val sidekick =
      Prelude.◌>>=◌ (put uid val sidekick.status.failure_count)
        λ m. ok (record sidekick { status = record (sidekick.status) { failure_count = m } })

  -- The two maps of the status are made if they are nil.
  abbrev pub init_maps : Sidekick R → Sidekick R
  init_maps sidekick = record sidekick {
    status = record (sidekick.status) {
      container_restart_counts_per_pod =
          make_if_nil sidekick.status.container_restart_counts_per_pod;
      failure_count = make_if_nil sidekick.status.failure_count;
    };
  }

  -- `if RestartPolicy != Never && getTotalBackOffCounts(sidekick) > limit { … = false }`
  unfoldable pub forgive : String → Sidekick R → Result (Sidekick R)
  forgive uid sidekick =
      if is_never sidekick.spec.restart_policy
      then ok sidekick
      else Prelude.◌>>=◌ (exceeds_backoff_limit sidekick) λ (exceeded, sidekick').
        if exceeded then set_failure uid false sidekick' else ok sidekick'

  -- What is written to the status when the sidekick's pod exists.
  unfoldable pub observe_pod : Sidekick R → Pod R → Result (Sidekick R)
  observe_pod sidekick pod =
      Prelude.◌>>=◌
        (put pod.uid (get_container_restart_counts pod)
          sidekick.status.container_restart_counts_per_pod)
        λ counts.
          let sidekick' = record sidekick {
            status = record (sidekick.status) { container_restart_counts_per_pod = counts };
          } in
          if is_failed pod.status.phase && not (is_some pod.deletion_timestamp)
          then Prelude.◌>>=◌ (set_failure pod.uid true sidekick') (forgive pod.uid)
          else ok sidekick'

  -- The Sidekick and the pod on which the phase is decided, from the outcome of the lookup.
  unfoldable pub observe : Sidekick R → Result (Pod R) → Result (Sidekick R × Pod R)
  observe sidekick (ok pod) = Prelude.◌>>=◌ (observe_pod sidekick pod) λ sk. ok (sk, pod)
  observe sidekick (err not_found) = ok (sidekick, zero_pod)
  observe sidekick (err (failed e)) = err (failed e)
  observe sidekick (err panicked) = err panicked

  -- The new phase, and the Sidekick with it.
  unfoldable pub set_phase : Sidekick R × Pod R → Result (SideKickPhase × Sidekick R)
  set_phase (observed, pod) =
      Prelude.◌>>=◌ (get_sidekick_phase observed pod)
        λ (phase, sk). ok (phase, record sk { status = record (sk.status) { phase = phase } })

  unfoldable pub decide : Sidekick R → Result (Pod R) → Result (SideKickPhase × Sidekick R)
  unfolding set_phase
  decide sidekick found = Prelude.◌>>=◌ (observe (init_maps sidekick) found) set_phase

module _ {R W : Type 0} (server : Server R W) where
  unfoldable pub update_sidekick_status : Sidekick R → Io (Run R W) (Sidekick R)
  update_sidekick_status sidekick =
      patch_sidekick_status server sidekick (λ sk. record sk { status = sidekick.status })

  unfoldable pub calculate_sidekick_phase : Sidekick R → Io (Run R W) (SideKickPhase × Sidekick R)
  calculate_sidekick_phase sidekick = do
    found ← attempt (get_pod server (object_key sidekick))
    (phase, sk) ← lift (decide sidekick found)
    sk' ← update_sidekick_status sk
    pure (phase, sk')

  -- The pod of a Sidekick that has failed is marked as failed, if it still runs.
  unfoldable pub fail_pod : Result (Pod R) → Io (Run R W) (Unit {0})
  fail_pod (ok pod) =
      if is_running pod.status.phase
      then update_pod_status server
          (record pod { status = record (pod.status) { phase = PodPhase.failed } })
      else pure tt
  fail_pod (err not_found) = pure tt
  fail_pod (err (failed e)) = raise (failed e)
  fail_pod (err panicked) = raise panicked

  -- Whether the key is dropped, and the Sidekick as it is then.
  unfoldable pub update_sidekick_phase :
      NamespacedName → Sidekick R → Io (Run R W) (Bool × Sidekick R)
  update_sidekick_phase req sidekick = do
    (phase, sk) ← calculate_sidekick_phase sidekick
    if phase_is_failed phase
        then (do found ← attempt (get_pod server req); fail_pod found; pure (true, sk))
        else pure (phase_is_succeeded sk.status.phase, sk)
