-- ===== src/Reconcile/Calm/Steps.antt =====
-- That the steps of `Reconcile` (pkg/controllers/apps/sidekick_controller.go) do not panic.
use sidekick.Prelude.{String, Bool, true, List, [], ◌∷◌, arith, ok}
use sidekick.Prelude.Maps.{put}
use sidekick.Api.Meta.{NamespacedName}
use sidekick.Api.Pod.{Pod}
use sidekick.Api.Sidekick.{Sidekick, LeaderSelectionPolicy}
use sidekick.Api.Library.{Library}
use sidekick.Cluster.{Server, lift, get_pod}
use sidekick.Cluster.Yields.{
  IsCalm, if-IsCalm, Anything, Yields, Calm, lift-Yields, pure-Yields, if-Yields, bind-Yields,
  attempt-Yields, calm_rules,
}
use sidekick.PodBuilder.Calm.{new_sidekick_pod-IsCalm}
use sidekick.PhaseUpdate.{
  object_key, set_failure, update_sidekick_status, decide, calculate_sidekick_phase,
  update_sidekick_phase,
}
use sidekick.PhaseUpdate.Failures.{HasFailures, decide-IsFine, ok-IsFine}
use sidekick.Leader.{Sort, pick, choose, get_leader}
use sidekick.Reconcile.{
  note_moved, delete_pod_and_reset_status, sync_existing_pod, create_sidekick_pod,
}
use sidekick.Reconcile.Calm.{
  IsServing, get_pod-Calm, list_pods-Calm, apply_pod-Calm, status-Calm, status-Yields,
  fail_pod-Calm, delete_own_pod-Calm,
}

module _ {R : Type 0} where
  pub pick-IsCalm :
      (policy : LeaderSelectionPolicy) (pods : List (Pod R)) → IsCalm (pick policy pods)
  unfolding pick
  pick-IsCalm policy [] = tt
  pick-IsCalm policy (pod ∷ rest) = tt

  choose-IsCalm :
      (sort : Sort R) (policy : LeaderSelectionPolicy) (pods : List (Pod R))
      → IsCalm (choose sort policy pods)
  unfolding choose
  choose-IsCalm sort policy [] = tt
  choose-IsCalm sort policy (pod ∷ []) = tt
  choose-IsCalm sort policy (pod ∷ next ∷ rest) = pick-IsCalm policy _

  pub set_failure-IsCalm :
      (uid : String) (b : Bool) (sk : Sidekick R) → HasFailures sk → IsCalm (set_failure uid b sk)
  unfolding put
  set_failure-IsCalm uid b sk h =
      ok-IsFine Anything (set_failure uid b sk) (ground arith) (λ _ _. tt)

  note_moved-IsCalm :
      {W : Type 0} (lib : Library R) (server : Server R W) (sk : Sidekick R) (leader pod : Pod R)
      → HasFailures sk
      → IsCalm (note_moved lib server sk leader pod)
  unfolding note_moved
  note_moved-IsCalm lib server sk leader pod h =
      if-IsCalm _ (set_failure pod.uid true sk) (ok sk) (set_failure-IsCalm pod.uid true sk h) tt

module _ {R W : Type 0} (lib : Library R) (server : Server R W) (serving : IsServing server) where
  calculate-Yields :
      (sk : Sidekick R)
      → Yields (λ decided. HasFailures decided.1) (calculate_sidekick_phase server sk)
  unfolding calculate_sidekick_phase
  calculate-Yields sk =
      attempt-Yields _ (get_pod server (object_key sk)) _
        (get_pod-Calm lib server serving (object_key sk))
        (λ found calm.
          bind-Yields (λ decided. HasFailures decided.1) _ (lift (decide sk found)) _
            (lift-Yields _ (decide sk found) (decide-IsFine sk found calm))
            (λ (phase, s) h.
              bind-Yields HasFailures _ (update_sidekick_status server s) _
                (status-Yields lib server serving s h) (λ s' h'. pure-Yields _ (phase, s') h')))

  pub phase-Yields :
      (req : NamespacedName) (sk : Sidekick R)
      → Yields (λ updated. HasFailures updated.1) (update_sidekick_phase server req sk)
  unfolding update_sidekick_phase
  phase-Yields req sk =
      bind-Yields (λ decided. HasFailures decided.1) _ (calculate_sidekick_phase server sk) _
        (calculate-Yields sk)
        (λ (phase, s) h.
          if-Yields (λ updated. HasFailures updated.1) _ _ _
            (attempt-Yields _ (get_pod server req) _ (get_pod-Calm lib server serving req)
              (λ found calm.
                bind-Yields Anything _ _ _ (fail_pod-Calm lib server serving found calm)
                  (λ _ _. pure-Yields _ (true, s) h)))
            (pure-Yields _ _ h))

  pub get_leader-Calm : (sort : Sort R) (sk : Sidekick R) → Calm (get_leader server sort sk)
  unfolding get_leader
  get_leader-Calm sort sk =
      let pods = get_pod-Calm lib server serving in
      let lists = list_pods-Calm lib server serving in
      search (calm_rules, pods, lists, choose-IsCalm)

  pub reset-Calm :
      (sk : Sidekick R) (pod : Pod R) → Calm (delete_pod_and_reset_status lib server sk pod)
  unfolding delete_pod_and_reset_status
  reset-Calm sk pod =
      let deletes = delete_own_pod-Calm lib server serving in
      let status = status-Calm lib server serving in search (calm_rules, deletes, status)

  pub sync-Calm :
      (sk : Sidekick R) (leader pod : Pod R)
      → HasFailures sk
      → Calm (sync_existing_pod lib server sk leader pod)
  unfolding sync_existing_pod
  sync-Calm sk leader pod h =
      let noted = note_moved-IsCalm lib server sk leader pod h in
      let status = status-Calm lib server serving in search (calm_rules, noted, reset-Calm, status)

  pub create-Calm :
      (sk : Sidekick R) (leader : Pod R) → Calm (create_sidekick_pod lib server sk leader)
  unfolding create_sidekick_pod
  create-Calm sk leader =
      let built = new_sidekick_pod-IsCalm lib sk leader in
      let applies = apply_pod-Calm lib server serving in
      let status = status-Calm lib server serving in search (calm_rules, built, applies, status)
