-- ===== src/Tests/Pods.antt =====
-- The theorems about leaders, pods and their phases, at concrete inputs.
use sidekick.Prelude.{
  ℕ, ◌≡◌, refl, true, false, ◌&&◌, none, some, List, [], ◌∷◌, arith, Result, ok, err, is_ok,
}
use sidekick.Prelude.Lists.{all}
use sidekick.Prelude.Maps.{lookup, entries, insert, put}
use sidekick.Api.Pod.{Pod, PodPhase, never, on_failure, is_failed, is_never}
use sidekick.Api.Sidekick.{Sidekick, SideKickPhase, LeaderSelectionPolicy}
use sidekick.Phase.{
  get_sidekick_phase, exceeds_backoff_limit, get_total_back_off_counts,
  get_failure_count_from_sidekick_status, get_total_container_restart_counts,
  get_container_restart_counts,
}
use sidekick.PhaseUpdate.{decide, observe, observe_pod, forgive}
use sidekick.PhaseUpdate.Observed.{decide-succeeded, decide-failed_pod}
use sidekick.PodBuilder.{
  find_mount, conv_mount, conv_mounts, conv_container, conv_containers, conv_init_containers,
  new_sidekick_pod,
}
use sidekick.PodBuilder.Built.{
  has_all_mounts, with_leader, new_sidekick_pod-ok, new_sidekick_pod-containers, AreBuilt, plain,
}
use sidekick.Leader.{choose, pick}
use sidekick.Leader.Name.{rank, find_submatch, atoi, lex_less, name_less, name_less-cycle}
use sidekick.Leader.Choice.{is_extreme, choose-extreme}
use sidekick.Reconcile.{pod_needs_recreate}
use sidekick.Reconcile.Fresh.{built-fresh}
use sidekick.Tests.Sorting.{insertion_sort, insertion_sort-Sorts}
use sidekick.Tests.Fixtures.{lib, pod, leader, container, sidekick_of, fresh}

-- The Sidekick of a decision.
abbrev decision : Result (SideKickPhase × Sidekick ℕ) → Sidekick ℕ
decision (ok (phase, sk)) = sk
decision (err e) = fresh never

abbrev done_before : Sidekick ℕ
done_before = sidekick_of never (some 2) SideKickPhase.succeeded none none

abbrev failed_pod : Pod ℕ
failed_pod = pod "archiver" PodPhase.failed

decide-succeeded_example :
    (SideKickPhase.succeeded ≡ SideKickPhase.succeeded)
    × ((decision (decide done_before (ok failed_pod))).status.phase ≡ SideKickPhase.succeeded)
unfolding decide observe observe_pod forgive get_sidekick_phase put
decide-succeeded_example =
    decide-succeeded done_before (ok failed_pod) SideKickPhase.succeeded _ refl refl refl

-- The restarts alone pass the limit.
abbrev restarted : Sidekick ℕ
restarted = sidekick_of on_failure (some 2) SideKickPhase.current (some []) (some (("u0", 3) ∷ []))

decide-failed_pod_example :
    lookup "u1" (entries (decision (decide restarted (ok failed_pod))).status.failure_count)
    ≡ some false
unfolding decide observe observe_pod forgive get_sidekick_phase exceeds_backoff_limit
    get_total_back_off_counts get_failure_count_from_sidekick_status
    get_total_container_restart_counts get_container_restart_counts put insert
decide-failed_pod_example = decide-failed_pod restarted failed_pod _ refl refl refl refl

abbrev built : Result (Pod ℕ × Sidekick ℕ) → Pod ℕ
built (ok (p, sk)) = p
built (err e) = failed_pod

abbrev owner : Result (Pod ℕ × Sidekick ℕ) → Sidekick ℕ
owner (ok (p, sk)) = sk
owner (err e) = restarted

abbrev building : Result (Pod ℕ × Sidekick ℕ)
building = new_sidekick_pod lib (fresh never) (leader "db-0")

built-fresh_example :
    pod_needs_recreate lib
      (fresh never)
      (leader "db-0")
      (record (built building) { status = (pod "archiver" PodPhase.running).status })
    ≡ (is_failed PodPhase.running && is_never never)
unfolding new_sidekick_pod conv_containers conv_init_containers conv_container conv_mounts
    conv_mount find_mount
built-fresh_example =
    built-fresh lib (fresh never) (leader "db-0") (built building) (owner building)
      (pod "archiver" PodPhase.running).status refl

new_sidekick_pod-ok_example :
    is_ok (new_sidekick_pod lib (fresh never) (leader "db-0"))
    ≡ (has_all_mounts (leader "db-0") (container ∷ []) && has_all_mounts (leader "db-0") [])
new_sidekick_pod-ok_example = new_sidekick_pod-ok lib (fresh never) (leader "db-0")

new_sidekick_pod-containers_example :
    AreBuilt
      (with_leader (leader "db-0"))
      (leader "db-0")
      (container ∷ [])
      (built building).spec.containers
    × AreBuilt plain (leader "db-0") [] (built building).spec.init_containers
unfolding new_sidekick_pod conv_containers conv_init_containers conv_container conv_mounts
    conv_mount find_mount
new_sidekick_pod-containers_example =
    new_sidekick_pod-containers lib (fresh never) (leader "db-0") (built building) (owner building)
      refl

abbrev two : List (Pod ℕ)
two = leader "db-10" ∷ leader "db-2" ∷ []

choose-extreme_example : all (is_extreme LeaderSelectionPolicy.first (leader "db-2")) two ≡ true
unfolding choose pick insertion_sort name_less find_submatch atoi
choose-extreme_example =
    choose-extreme insertion_sort insertion_sort-Sorts LeaderSelectionPolicy.first two
      (leader "db-2") ((_, refl), ((_, refl), tt)) refl

name_less-cycle_example :
    (name_less "z-1" "a-2" ≡ true) × (name_less "a-2" "m" ≡ true) × (name_less "m" "z-1" ≡ true)
unfolding find_submatch rank atoi lex_less
name_less-cycle_example =
    name_less-cycle "z-1" "a-2" "m" (_, refl) (_, refl) refl (omega arith) refl refl
