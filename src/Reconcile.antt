-- ===== src/Reconcile.antt =====
-- The reconciliation of a Sidekick in one cluster: `Reconcile` and its helpers of
-- pkg/controllers/apps/sidekick_controller.go. `distributed` stands for the reconciliation of a
-- distributed Sidekick, to which `Reconcile` hands over.
pub mod Fresh
pub mod Rules
pub mod Order
pub mod Log
pub mod Progress
pub mod Calm
pub mod NoPanic
pub mod Handlers
pub mod Store
pub mod Round
pub mod Kept
pub mod Created
pub mod History
pub mod Converges
pub mod Stopped
use sidekick.Prelude.{
  String, Bool, true, false, not, ◌&&◌, ◌||◌, none, some, ◌==◌, if◌then◌else◌, get_or, not_found,
  failed, panicked, Result, ok, err, ℕ,
}
use sidekick.Prelude
use sidekick.Prelude.Maps.{get}
use sidekick.Api.Meta.{NamespacedName}
use sidekick.Api.Pod
use sidekick.Api.Pod.{Pod, PodPhase, is_failed, is_never}
use sidekick.Api.Sidekick.{Sidekick}
use sidekick.Api.Library.{Library}
use sidekick.Cluster.{
  Io, Run, Server, pure, raise, lift, attempt, ◌>>=◌, ◌>>◌, get_pod, get_sidekick, apply_pod,
}
use sidekick.PodBuilder.{key_hash, key_leader, new_sidekick_pod}
use sidekick.PhaseUpdate.{set_failure, update_sidekick_status, update_sidekick_phase}
use sidekick.Leader.{Sort, get_leader}
use sidekick.PodOps.{
  add_pod_finalizer, delete_own_pod, remove_pod_finalizer_if_marked_for_deletion,
  handle_sidekick_finalizer,
}

-- `ctrl.Result`: nothing more to do, or another round, at the pace of the queue or after some seconds.
pub data Outcome : Type 0 where
  done : Outcome
  requeue : Outcome
  requeue_after : ℕ → Outcome

module _ {R : Type 0} where
  -- `pod.Annotations[key]`, which is "" for a missing key
  abbrev pub annotation : Pod R → String → String
  annotation pod key = get_or "" (get pod.annotations key)

  unfoldable pub pod_needs_recreate : Library R → Sidekick R → Pod R → Pod R → Bool
  pod_needs_recreate lib sidekick leader pod =
      not (annotation pod key_hash == lib.generation_hash sidekick.metadata)
      || (not (annotation pod key_leader == leader.name)
          || (not (pod.spec.node_name == leader.spec.node_name)
              || is_failed pod.status.phase && is_never sidekick.spec.restart_policy))

  -- The Sidekick with a leader, the phase of its pod, and its generation as the one observed.
  abbrev pub with_status : String → PodPhase → Sidekick R → Sidekick R
  with_status leader phase sidekick = record sidekick {
    status = record (sidekick.status) {
      leader = record { name = leader };
      pod = phase;
      observed_generation = sidekick.generation;
    };
  }

module _ {R W : Type 0} (lib : Library R) (server : Server R W) where
  unfoldable pub delete_pod_and_reset_status : Sidekick R → Pod R → Io (Run R W) (Unit {0})
  delete_pod_and_reset_status sidekick pod = do
    delete_own_pod lib server pod
    update_sidekick_status server (with_status "" PodPhase.unset sidekick)
    pure tt

  -- A pod that moved off its leader's node counts as a failed one.
  unfoldable pub note_moved : Sidekick R → Pod R → Pod R → Result (Sidekick R)
  note_moved sidekick leader pod =
      if not (leader.spec.node_name == pod.spec.node_name) && not (pod.spec.node_name == "")
      then set_failure pod.uid true sidekick
      else ok sidekick

  unfoldable pub sync_existing_pod : Sidekick R → Pod R → Pod R → Io (Run R W) (Unit {0})
  sync_existing_pod sidekick leader pod =
      if pod_needs_recreate lib sidekick leader pod
      then (do sk ← lift (note_moved sidekick leader pod); delete_pod_and_reset_status sk pod)
      else (do
        update_sidekick_status server
            (with_status sidekick.status.leader.name pod.status.phase sidekick)
        pure tt)

  unfoldable pub create_sidekick_pod : Sidekick R → Pod R → Io (Run R W) (Unit {0})
  create_sidekick_pod sidekick leader = do
    (pod, sk) ← lift (new_sidekick_pod lib sidekick leader)
    created ← apply_pod server pod (add_pod_finalizer lib server)
    update_sidekick_status server (with_status leader.name created.status.phase sk)
    pure tt

  -- The end of `Reconcile`, once there is a leader.
  unfoldable pub sync_or_create : Sidekick R → Pod R → Result (Pod R) → Io (Run R W) Outcome
  sync_or_create sidekick leader (ok pod) = do sync_existing_pod sidekick leader pod; pure done
  sync_or_create sidekick leader (err not_found) = do create_sidekick_pod sidekick leader; pure done
  sync_or_create sidekick leader (err (failed e)) = raise (failed e)
  sync_or_create sidekick leader (err panicked) = raise panicked

  unfoldable pub follow : NamespacedName → Sidekick R → Pod R → Io (Run R W) Outcome
  follow req sidekick leader = do
    found ← attempt (get_pod server req)
    sync_or_create sidekick leader found

  -- The leader has changed: an old pod is removed, and without one the new leader is followed.
  unfoldable pub on_changed :
      NamespacedName → Sidekick R → Pod R → Result (Pod R) → Io (Run R W) Outcome
  on_changed req sidekick leader (ok pod) = do delete_pod_and_reset_status sidekick pod; pure done
  on_changed req sidekick leader (err _) = follow req sidekick leader

  -- There is no leader: an old pod is removed, and without one the operator waits.
  unfoldable pub on_missing : Sidekick R → Result (Pod R) → Io (Run R W) Outcome
  on_missing sidekick (ok pod) = do delete_pod_and_reset_status sidekick pod; pure done
  on_missing sidekick (err _) = pure (requeue_after 10)

  unfoldable pub on_leader : NamespacedName → Sidekick R → Result (Pod R) → Io (Run R W) Outcome
  on_leader req sidekick (ok leader) =
      if leader.name == sidekick.status.leader.name
      then follow req sidekick leader
      else (do found ← attempt (get_pod server req); on_changed req sidekick leader found)
  on_leader req sidekick (err not_found) = do
    found ← attempt (get_pod server req)
    on_missing sidekick found
  on_leader req sidekick (err (failed e)) = raise (failed e)
  on_leader req sidekick (err panicked) = raise panicked

  module _ (sort : Sort R) where
    unfoldable pub follow_leader : NamespacedName → Sidekick R → Io (Run R W) Outcome
    follow_leader req sidekick = do
      leader ← attempt (get_leader server sort sidekick)
      on_leader req sidekick leader

    abbrev pub if_kept : NamespacedName → Bool × Sidekick R → Io (Run R W) Outcome
    if_kept req (drop_key, sidekick) = if drop_key then pure done else follow_leader req sidekick

    -- What is done with a Sidekick whose finalizer was seen to.
    unfoldable pub reconcile_held : NamespacedName → Sidekick R → Io (Run R W) Outcome
    reconcile_held req held = do
      updated ← update_sidekick_phase server req held
      if_kept req updated

    -- What is done with a Sidekick that is not distributed.
    unfoldable pub reconcile_here : NamespacedName → Sidekick R → Io (Run R W) Outcome
    reconcile_here req found = do
      held ← handle_sidekick_finalizer lib server found
      reconcile_held req held

  module _ (sort : Sort R) (distributed : NamespacedName → Io (Run R W) Outcome) where
    unfoldable pub reconcile_found : NamespacedName → Result (Sidekick R) → Io (Run R W) Outcome
    reconcile_found req (ok found) =
        if found.spec.distributed then distributed req else reconcile_here sort req found
    reconcile_found req (err not_found) = pure done
    reconcile_found req (err (failed e)) = raise (failed e)
    reconcile_found req (err panicked) = raise panicked

    unfoldable pub reconcile : NamespacedName → Io (Run R W) Outcome
    reconcile req = do
      released ← remove_pod_finalizer_if_marked_for_deletion lib server req
      if released
          then pure done
          else (do found ← attempt (get_sidekick server req); reconcile_found req found)
