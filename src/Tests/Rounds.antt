-- ===== src/Tests/Rounds.antt =====
-- Rounds of one Sidekick against a store, and the theorems on them.
use sidekick.Prelude.{false, ℕ, ◌≡◌, refl, true, some, [], ◌∷◌, is_ok, not_found, Result, ok, err}
use sidekick.Api.Pod.{Pod, PodStatus, PodPhase, always, never}
use sidekick.Api.Sidekick.{Sidekick, SideKickPhase, phase_is_succeeded}
use sidekick.Cluster.{Run, pure}
use sidekick.Phase.{
  get_sidekick_phase, exceeds_backoff_limit, get_total_back_off_counts,
  get_failure_count_from_sidekick_status, get_total_container_restart_counts,
  is_sidekick_pod_running,
}
use sidekick.PhaseUpdate.{object_key, observe, decide}
use sidekick.PodBuilder.{
  key_hash, key_leader, new_sidekick_pod, conv_containers, conv_init_containers, conv_container,
  conv_mounts, conv_mount, find_mount,
}
use sidekick.PodOps.{get_finalizer_name}
use sidekick.Leader.{choose}
use sidekick.Reconcile.{Outcome, done, reconcile}
use sidekick.Reconcile.Round.{IsSteady, Stands}
use sidekick.Reconcile.Kept.{IsUpToDate}
use sidekick.Reconcile.Created.{IsMade, reconcile-IsMade}
use sidekick.Reconcile.History.{now, round}
use sidekick.Reconcile.Converges.{reconcile-converges}
use sidekick.Tests.Sorting.{insertion_sort}
use sidekick.Tests.Fixtures
use sidekick.Tests.Fixtures.{fresh, leader}
use sidekick.Tests.Store.{World, lib, store, store-IsStore, adds}

-- A Sidekick that has its finalizer.
abbrev archiver : Sidekick ℕ
archiver =
    let sk = fresh always in
    record sk { metadata = record (sk.metadata) { finalizers = get_finalizer_name ∷ [] } }

steady : IsSteady lib archiver
steady = record { here = refl; lives = refl; held = refl }

abbrev empty : Run ℕ World
empty = record { world = record { sidekick = archiver; pod = err not_found }; log = [] }

waits :
    Stands store insertion_sort archiver (err not_found) (leader "db-0") archiver.status empty.world
unfolding choose
waits = record { knows = refl; answers = refl; elects = refl }

mounts : is_ok (new_sidekick_pod lib archiver (leader "db-0")) ≡ true
unfolding new_sidekick_pod conv_containers conv_init_containers conv_container conv_mounts
    conv_mount find_mount
mounts = refl

abbrev one_round : Result Outcome × Run ℕ World
one_round = reconcile lib store insertion_sort (λ req. pure done) (object_key archiver) empty

abbrev after : World
after = one_round.1.world

-- The round that creates the pod, and another one.
reconcile-converges_example :
    let later =
      reconcile lib store insertion_sort (λ req. pure done) (object_key archiver) one_round.1 in
    (one_round.0 ≡ ok done)
    × (pod : Pod ℕ) × ((store.on_get_pod (object_key archiver) after).0 ≡ ok pod)
    × IsUpToDate lib archiver "db-0" "node-1" pod
    × (ps : PodStatus ℕ) × ((store.on_get_pod (object_key archiver) later.1.world).0
        ≡ ok (record pod { status = ps }))
reconcile-converges_example =
    reconcile-converges lib adds store store-IsStore insertion_sort (λ req. pure done) archiver
      steady refl (leader "db-0") mounts archiver.status empty waits _ (round one_round.1 now refl)

-- One with the policy Never.
abbrev once : Sidekick ℕ
once =
    let sk = fresh never in
    record sk { metadata = record (sk.metadata) { finalizers = get_finalizer_name ∷ [] } }

once_steady : IsSteady lib once
once_steady = record { here = refl; lives = refl; held = refl }

abbrev once_empty : Run ℕ World
once_empty = record { world = record { sidekick = once; pod = err not_found }; log = [] }

once_waits :
    Stands store insertion_sort once (err not_found) (leader "db-0") once.status once_empty.world
unfolding choose
once_waits = record { knows = refl; answers = refl; elects = refl }

once_mounts : is_ok (new_sidekick_pod lib once (leader "db-0")) ≡ true
unfolding new_sidekick_pod conv_containers conv_init_containers conv_container conv_mounts
    conv_mount find_mount
once_mounts = refl

decided :
    (sk : Sidekick ℕ) × (decide once (err not_found) ≡ ok (SideKickPhase.degraded, sk))
    × (phase_is_succeeded sk.status.phase ≡ false)
unfolding decide get_sidekick_phase exceeds_backoff_limit get_total_back_off_counts
    get_failure_count_from_sidekick_status get_total_container_restart_counts
    is_sidekick_pod_running observe
decided = (_, refl, refl)

reconcile-IsMade_example :
    let (outcome, run) =
      reconcile lib store insertion_sort (λ req. pure done) (object_key once) once_empty in
    (outcome ≡ ok done)
    × IsMade lib adds store store-IsStore insertion_sort once once_steady
        (leader "db-0")
        once_mounts
        run.world
reconcile-IsMade_example =
    reconcile-IsMade lib adds store store-IsStore insertion_sort once once_steady (leader "db-0")
      once_mounts (λ req. pure done) once.status SideKickPhase.degraded decided.0 once_empty
      decided.1 refl decided.2 once_waits

-- The pod of a round before, and the world with it in some phase.
abbrev kept_pod : Pod ℕ
kept_pod =
    let p = Fixtures.pod "archiver" PodPhase.running in
    record p {
      metadata = record (p.metadata) {
        annotations = some ((key_hash, "archiver") ∷ (key_leader, "db-0") ∷ []);
      };
      spec = record (p.spec) { node_name = "node-1" };
    }

abbrev in_phase : PodPhase → World
in_phase phase =
    let sk = archiver in
    record {
      sidekick = record sk { status = record (sk.status) { leader = record { name = "db-0" } } };
      pod = ok (record kept_pod { status = (Fixtures.pod "archiver" phase).status });
    }

abbrev with_failed : Result (Pod ℕ) → Result (Pod ℕ)
with_failed (ok p) = ok (record p { status = (Fixtures.pod "archiver" PodPhase.failed).status })
with_failed (err e) = err e

abbrev next_round : Run ℕ World
next_round = record { world = in_phase PodPhase.failed; log = [] }
