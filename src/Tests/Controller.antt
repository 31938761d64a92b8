-- ===== src/Tests/Controller.antt =====
-- The theorems about the reconciler, at concrete inputs.
use sidekick.Prelude.{
  ◌≤◌, ℕ, ◌≡◌, refl, ◌↔◌, true, false, some, [], ◌∷◌, arith, Result, ok, err, is_ok, not_found, ◌⊎◌,
}
use sidekick.Api.Pod.{Pod, RestartPolicy, PodPhase, never, on_failure, is_always}
use sidekick.Api.Sidekick.{Sidekick, SideKickPhase, phase_is_succeeded}
use sidekick.Cluster.{pure, ◌>>=◌, read, write}
use sidekick.Phase.{
  get_sidekick_phase, exceeds_backoff_limit, is_sidekick_pod_running, get_total_back_off_counts,
  get_failure_count_from_sidekick_status, get_total_container_restart_counts,
}
use sidekick.Phase.Backoff.{backoffs, limit_of, with_limit, exceeds-exact}
use sidekick.Phase.Decision.{
  decided, IsExhausted, has_completed, phase-current_iff, phase-failed_iff, phase-succeeded_iff,
}
use sidekick.PhaseUpdate.{
  decide, observe, update_sidekick_phase, calculate_sidekick_phase, update_sidekick_status,
}
use sidekick.PhaseUpdate.Observed.{decide-ok}
use sidekick.PodBuilder.{
  new_sidekick_pod, conv_containers, conv_init_containers, conv_container, conv_mounts, conv_mount,
  find_mount, list_volumes,
}
use sidekick.PodOps.{
  remove_pod_finalizer_if_marked_for_deletion, release_pod, handle_sidekick_finalizer, terminate,
  ignore_not_found,
}
use sidekick.Leader.{choose, get_leader}
use sidekick.Reconcile.{
  done, reconcile, reconcile_found, reconcile_here, reconcile_held, follow_leader, on_leader,
  on_changed, follow, sync_or_create, create_sidekick_pod,
}
use sidekick.Tests.Sorting.{insertion_sort}
use sidekick.Tests.Fixtures.{lib, pod, sidekick_of, fresh, server, start, request}

-- A first reconciliation builds and stores the pod of "db-0".
reconcile_creates :
    (reconcile lib server insertion_sort (λ req. pure done) request start).0 ≡ ok done
unfolding reconcile remove_pod_finalizer_if_marked_for_deletion release_pod reconcile_found
    reconcile_here reconcile_held follow_leader handle_sidekick_finalizer terminate
    update_sidekick_phase calculate_sidekick_phase decide observe get_sidekick_phase
    exceeds_backoff_limit get_total_back_off_counts get_failure_count_from_sidekick_status
    get_total_container_restart_counts is_sidekick_pod_running update_sidekick_status get_leader
    choose on_leader on_changed follow sync_or_create create_sidekick_pod new_sidekick_pod
    conv_containers conv_init_containers conv_container conv_mounts conv_mount find_mount
    list_volumes ◌>>=◌ read write ignore_not_found
reconcile_creates = refl

-- A pod that has failed, with nobody deleting it.
abbrev failed_pod : Pod ℕ
failed_pod = pod "archiver" PodPhase.failed

-- Three restarts are one more than the limit.
abbrev restarted : RestartPolicy → Sidekick ℕ
restarted policy =
    sidekick_of policy (some 2) SideKickPhase.current (some []) (some (("u0", 3) ∷ []))

phase-failed_iff_example :
    (decided (get_sidekick_phase (restarted on_failure) failed_pod) ≡ some SideKickPhase.failed) ↔ (
      (false ≡ false)
      × (false ≡ false)
      × (has_completed failed_pod ≡ false)
      × IsExhausted (restarted on_failure))
phase-failed_iff_example =
    phase-failed_iff (restarted on_failure) failed_pod
      (record { counts = omega arith; limit = omega arith })

phase-current_iff_example :
    (decided (get_sidekick_phase (fresh never) (pod "archiver" PodPhase.running))
      ≡ some SideKickPhase.current)
    ↔ ((is_sidekick_pod_running (pod "archiver" PodPhase.running) ≡ true)
        × ((is_always never ≡ true)
            ⊎ ((false ≡ false) × (backoffs (fresh never) ≤ limit_of (fresh never)))))
phase-current_iff_example =
    phase-current_iff (fresh never) (pod "archiver" PodPhase.running)
      (record { counts = omega arith; limit = omega arith })

phase-succeeded_iff_example :
    (decided (get_sidekick_phase (fresh never) (pod "archiver" PodPhase.succeeded))
      ≡ some SideKickPhase.succeeded)
    ↔ ((is_always never ≡ false)
        × ((phase_is_succeeded SideKickPhase.unset ≡ true)
            ⊎ (has_completed (pod "archiver" PodPhase.succeeded) ≡ true)))
phase-succeeded_iff_example = phase-succeeded_iff (fresh never) (pod "archiver" PodPhase.succeeded)

exceeds-exact_example :
    exceeds_backoff_limit (restarted on_failure) ≡ ok (true, with_limit (restarted on_failure))
exceeds-exact_example = exceeds-exact (restarted on_failure) (omega arith) (omega arith)

decide-ok_example :
    (is_ok (decide (fresh on_failure) (ok failed_pod)) ≡ true)
    ↔ ((is_ok (ok failed_pod) ≡ true) ⊎ (◌≡◌ {A = Result (Pod ℕ)} (ok failed_pod) (err not_found)))
decide-ok_example = decide-ok (fresh on_failure) (ok failed_pod)
