-- ===== src/Distributed/Course.antt =====
-- What a round of `ReconcileDistributedSidekick` (pkg/controllers/apps/distributed.go) computes between its
-- calls, for a Sidekick without a ManifestWork.
use sidekick.Prelude.{◌≡◌, true, false, some, ◌==◌, is_some, arith, List, not_found, ok, err}
use sidekick.Api.Pod.{Pod}
use sidekick.Api.Sidekick.{
  Sidekick, SidekickStatus, SideKickPhase, phase_is_failed, phase_is_succeeded,
}
use sidekick.Api.ManifestWork.{ManifestWork}
use sidekick.Api.Wiring.{Secret}
use sidekick.Phase.Backoff.{exceeds-ok}
use sidekick.PhaseUpdate.{object_key, init_maps}
use sidekick.PodOps.{get_finalizer_name}
use sidekick.Leader.{pick}
use sidekick.Reconcile.{annotation}
use sidekick.GrpcWiring.{set_signing_key, set_snapshot_grant, set_grpc_address}
use sidekick.GrpcWiring.Secrets.{has_keys, keys_in}
use sidekick.Distributed.{get_distributed_sidekick_phase, set_distributed_phase, decide_distributed}
use sidekick.Distributed.Election.{
  manifest_work_cluster_name_label, has_role, order_leaders, leader_of, leaders_of,
}
use sidekick.Distributed.Build.{new_distributed_pod, with_work_label, without_owners}
use sidekick.Distributed.Reconciler.{Operator}

module _ {R : Type 0} where
  pub labelled-key : (sk : Sidekick R) → object_key (with_work_label sk) ≡ object_key sk
  labelled-key sk = ground arith

-- The Sidekick has its finalizer and is not being deleted, its leader is to be elected, and its Secret
-- has the keys.
pub record IsEligible {R : Type 0} (op : Operator R) (sk : Sidekick R) (secret : Secret)
    : Type 0 where
  pub lives : is_some sk.deletion_timestamp ≡ false
  pub held : op.lib.add_finalizer sk.metadata get_finalizer_name ≡ sk.metadata
  pub unnamed : (sk.spec.leader.name == "") ≡ true
  pub keyed : has_keys secret.contents ≡ true

-- The phase without a ManifestWork, which does not end the round, the election over these
-- ManifestWorks, the one in which the leader is found, the wiring of the Sidekick, and the pod that is built for the leader, which is sent
-- to a cluster.
pub record Course {R : Type 0} (op : Operator R) (sk : Sidekick R) (st : SidekickStatus R)
    (works : List (ManifestWork R)) (secret : Secret) : Type 0 where
  pub phase : SideKickPhase
  pub decided : Sidekick R
  pub decides :
      decide_distributed op.codec.unmarshal_counts (record sk { status = st }) (err not_found)
      ≡ ok (phase, decided)
  pub unfailed : phase_is_failed phase ≡ false
  pub unfinished : phase_is_succeeded decided.status.phase ≡ false
  pub leaders : List (Pod R)
  pub leader : Pod R
  pub ordered :
      order_leaders op.sort (leaders_of op.codec (has_role sk.spec.leader.selector) works)
      ≡ ok leaders
  pub source : ManifestWork R
  pub found : leader_of op.codec (has_role sk.spec.leader.selector) source ≡ some leader
  pub picked : pick sk.spec.leader.selection_policy leaders ≡ ok leader
  pub signed : Sidekick R
  pub granted : Sidekick R
  pub wired : Sidekick R
  pub signs :
      set_signing_key (record sk { status = decided.status }) (keys_in secret.contents).0
      ≡ ok signed
  pub grants : set_snapshot_grant op.crypto signed (keys_in secret.contents).1 ≡ ok granted
  pub addresses : set_grpc_address op.getenv granted ≡ ok wired
  pub pod : Pod R
  pub builds : new_distributed_pod op.lib wired leader ≡ ok pod
  pub object : R
  pub encodes : op.codec.to_unstructured (without_owners pod) ≡ ok object
  pub placed : (annotation pod manifest_work_cluster_name_label == "") ≡ false

pub decided-key :
    {R : Type 0} (op : Operator R) (sk decided : Sidekick R) (phase : SideKickPhase)
    → decide_distributed op.codec.unmarshal_counts sk (err not_found) ≡ ok (phase, decided)
    → object_key decided ≡ object_key sk
unfolding decide_distributed set_distributed_phase get_distributed_sidekick_phase
decided-key op sk decided phase h = ground (arith, exceeds-ok (init_maps sk))
