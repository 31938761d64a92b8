-- ===== src/Distributed/Status.antt =====
-- How the phase of a distributed Sidekick is written to its status: `updateDistributedSidekickPhase`,
-- `updateDistributedSidekickStatus` and `calculateDistributedSidekickPhase` of
-- pkg/controllers/apps/distributed.go.
use sidekick.Prelude.{String, Bool, true, Option, List, if◌then◌else◌, Int32}
use sidekick.Api.Meta.{NamespacedName}
use sidekick.Api.Sidekick.{Sidekick, SideKickPhase, phase_is_failed, phase_is_succeeded}
use sidekick.Cluster.{
  Io, Run, Server, pure, lift, attempt, ◌>>=◌, ◌>>◌, get_pod, patch_sidekick_status,
  list_namespaces, ocm_get,
}
use sidekick.PhaseUpdate.{fail_pod}
use sidekick.Distributed.{decide_distributed}
use sidekick.Distributed.Search.{get_distributed_sidekick_current_leader}

module _ {R W : Type 0} (server : Server R W) where
  unfoldable pub update_distributed_sidekick_status : Sidekick R → Io (Run R W) (Sidekick R)
  update_distributed_sidekick_status sidekick =
      patch_sidekick_status server sidekick (λ sk. record sk { status = sidekick.status })

  module _ (unmarshal_counts : String → Option (List Int32)) where
    unfoldable pub calculate_distributed_sidekick_phase :
        Sidekick R → Io (Run R W) (SideKickPhase × Sidekick R)
    calculate_distributed_sidekick_phase sidekick = do
      found ← attempt (
          get_distributed_sidekick_current_leader (ocm_get server sidekick.name)
            (list_namespaces server))
      (phase, sk) ← lift (decide_distributed unmarshal_counts sidekick found)
      sk' ← update_distributed_sidekick_status sk
      pure (phase, sk')

    -- Whether the key is dropped, and the Sidekick as it is then. The pod that is marked as failed is
    -- looked up in the operator's own cluster.
    unfoldable pub update_distributed_sidekick_phase :
        NamespacedName → Sidekick R → Io (Run R W) (Bool × Sidekick R)
    update_distributed_sidekick_phase req sidekick = do
      (phase, sk) ← calculate_distributed_sidekick_phase sidekick
      if phase_is_failed phase
          then (do found ← attempt (get_pod server req); fail_pod server found; pure (true, sk))
          else pure (phase_is_succeeded sk.status.phase, sk)
