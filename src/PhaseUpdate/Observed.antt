-- ===== src/PhaseUpdate/Observed.antt =====
-- What `calculateSidekickPhase` (pkg/controllers/apps/sidekick.go) decides from the pod it looks up.
use text.Mathlib.TextPositions.{eq_refl}
use sidekick.Prelude.{
  String, ◌≡◌, refl, sym, ◌∙◌, ◌≢◌, ◌↔◌, ◌⊎◌, inl, inr, Bool, true, false, some, arith, not_found,
  failed, panicked, Result, ok, err, is_ok, is_some, Result-cases, Bool-cases, >>=-eq-ok, ltb32,
}
use sidekick.Prelude.Maps.{entries, insert, lookup, lookup-insert, put}
use sidekick.Api.Pod.{Pod, is_always, is_failed, is_never}
use sidekick.Api.Sidekick
use sidekick.Api.Sidekick.{Sidekick, SideKickPhase, succeeded, current, phase_is_succeeded}
use sidekick.Phase.{
  get_failure_count_from_sidekick_status, get_total_container_restart_counts,
  get_container_restart_counts, get_sidekick_phase, get_total_back_off_counts,
}
use sidekick.Phase.Backoff.{exceeds-ok, with_limit, limit_of}
use sidekick.Phase.Decision.{phase-total, phase-sticky, phase-within}
use sidekick.PhaseUpdate.{init_maps, forgive, observe_pod, observe, set_phase, decide, zero_pod}

module _ {R : Type 0} where
  -- The two maps of the status are there.
  abbrev pub HasMaps : Sidekick R → Type 0
  HasMaps sidekick =
      (is_some sidekick.status.failure_count ≡ true)
      × (is_some sidekick.status.container_restart_counts_per_pod ≡ true)

  pub init_maps-HasMaps : (sidekick : Sidekick R) → HasMaps (init_maps sidekick)
  init_maps-HasMaps sidekick = ground arith

  pub forgive-ok :
      (uid : String) (sidekick : Sidekick R)
      → is_some sidekick.status.failure_count ≡ true
      → is_ok (forgive uid sidekick) ≡ true
  unfolding forgive put
  forgive-ok uid sidekick h = ground (arith, exceeds-ok sidekick)

  -- The Sidekick in which the pod has been counted as a failed one.
  abbrev pub with_failure : String → Sidekick R → Sidekick R
  with_failure uid sidekick = record sidekick {
    status = record (sidekick.status) {
      failure_count = some (insert uid true (entries sidekick.status.failure_count));
    };
  }

  abbrev pub with_restarts : Pod R → Sidekick R → Sidekick R
  with_restarts pod sidekick = record sidekick {
    status = record (sidekick.status) {
      container_restart_counts_per_pod = some (
          insert pod.uid (get_container_restart_counts pod)
            (entries sidekick.status.container_restart_counts_per_pod));
    };
  }

  observe_pod-failed :
      (sidekick : Sidekick R) (pod : Pod R)
      → HasMaps sidekick
      → is_failed pod.status.phase ≡ true
      → is_some pod.deletion_timestamp ≡ false
      → observe_pod sidekick pod
        ≡ forgive pod.uid (with_failure pod.uid (with_restarts pod sidekick))
  unfolding observe_pod put
  observe_pod-failed sidekick pod h f d = ground arith

  observe_pod-ok :
      (sidekick : Sidekick R) (pod : Pod R)
      → HasMaps sidekick
      → is_ok (observe_pod sidekick pod) ≡ true
  unfolding observe_pod put
  observe_pod-ok sidekick pod h =
      ground (arith, forgive-ok pod.uid (with_failure pod.uid (with_restarts pod sidekick)))

  abbrev passes_limit : Sidekick R → Bool
  passes_limit sidekick = ltb32 (limit_of sidekick) (get_total_back_off_counts sidekick).0

  forgive-passing :
      (uid : String) (sidekick : Sidekick R)
      → is_never sidekick.spec.restart_policy ≡ false
      → is_some sidekick.status.failure_count ≡ true
      → passes_limit sidekick ≡ true
      → forgive uid sidekick
        ≡ ok (record (with_limit sidekick) {
          status = record (sidekick.status) {
            failure_count = some (insert uid false (entries sidekick.status.failure_count));
          };
        })
  unfolding forgive put
  forgive-passing uid sidekick n m h = ground (arith, exceeds-ok sidekick)

  forgive-within :
      (uid : String) (sidekick : Sidekick R)
      → is_never sidekick.spec.restart_policy ≡ false
      → passes_limit sidekick ≡ false
      → forgive uid sidekick ≡ ok (with_limit sidekick)
  unfolding forgive
  forgive-within uid sidekick n h = rw (n, exceeds-ok sidekick, h)

  forgive-keeps :
      (uid : String) (sidekick sk : Sidekick R)
      → forgive uid sidekick ≡ ok sk
      → (sk.spec.restart_policy ≡ sidekick.spec.restart_policy)
        × (sk.status.phase ≡ sidekick.status.phase)
  unfolding forgive put
  forgive-keeps uid sidekick sk h = ground (arith, exceeds-ok sidekick)

  observe_pod-keeps :
      (sidekick : Sidekick R) (pod : Pod R) (sk : Sidekick R)
      → observe_pod sidekick pod ≡ ok sk
      → (sk.spec.restart_policy ≡ sidekick.spec.restart_policy)
        × (sk.status.phase ≡ sidekick.status.phase)
  unfolding observe_pod put
  observe_pod-keeps sidekick pod sk h =
      ground (arith, forgive-keeps pod.uid (with_failure pod.uid (with_restarts pod sidekick)) sk)

  set_phase-ok : (sidekick : Sidekick R) (pod : Pod R) → is_ok (set_phase (sidekick, pod)) ≡ true
  unfolding set_phase
  set_phase-ok sidekick pod = ground (arith, phase-total sidekick pod)

  set_phase-succeeded :
      (sidekick : Sidekick R) (pod : Pod R) (phase : SideKickPhase) (sk : Sidekick R)
      → is_always sidekick.spec.restart_policy ≡ false
      → sidekick.status.phase ≡ succeeded
      → set_phase (sidekick, pod) ≡ ok (phase, sk)
      → (phase ≡ succeeded) × (sk.status.phase ≡ succeeded)
  unfolding set_phase
  set_phase-succeeded sidekick pod phase sk a s h =
      let ((phase', sk'), e, same) = >>=-eq-ok (get_sidekick_phase sidekick pod) _ h in
      ground (arith, phase-sticky sidekick pod phase' sk' a (rw s) e, same)

  set_phase-within :
      (sidekick : Sidekick R) (pod : Pod R) (phase : SideKickPhase) (sk : Sidekick R)
      → passes_limit sidekick ≡ false
      → set_phase (sidekick, pod) ≡ ok (phase, sk)
      → phase ≢ Sidekick.failed
  unfolding set_phase
  set_phase-within sidekick pod phase sk l h =
      let ((phase', sk'), e, same) = >>=-eq-ok (get_sidekick_phase sidekick pod) _ h in
      ground (arith, phase-within sidekick pod phase' sk' l e, same)

  pub set_phase-failure_count :
      (sidekick : Sidekick R) (pod : Pod R) (phase : SideKickPhase) (sk : Sidekick R)
      → set_phase (sidekick, pod) ≡ ok (phase, sk)
      → sk.status.failure_count ≡ sidekick.status.failure_count
  unfolding set_phase get_sidekick_phase
  set_phase-failure_count sidekick pod phase sk h = ground (arith, exceeds-ok sidekick)

  passes_limit-with_limit :
      (sidekick : Sidekick R) → passes_limit (with_limit sidekick) ≡ passes_limit sidekick
  unfolding get_total_back_off_counts get_failure_count_from_sidekick_status
      get_total_container_restart_counts
  passes_limit-with_limit sidekick = refl

  decide-seen :
      (sidekick : Sidekick R) (pod : Pod R) (seen : Sidekick R)
      → observe_pod (init_maps sidekick) pod ≡ ok seen
      → decide sidekick (ok pod) ≡ set_phase (seen, pod)
  unfolding decide observe
  decide-seen sidekick pod seen e = rw e

  -- A phase is decided, without a panic, exactly when the lookup found a pod or answered NotFound.
  pub decide-ok :
      (sidekick : Sidekick R) (found : Result (Pod R))
      → (is_ok (decide sidekick found) ≡ true) ↔ ((is_ok found ≡ true) ⊎ (found ≡ err not_found))
  unfolding decide observe
  decide-ok sidekick (ok pod) =
      let h = observe_pod-ok (init_maps sidekick) pod (init_maps-HasMaps sidekick) in
      elim (Result-cases (observe_pod (init_maps sidekick) pod)) [
        | inl (sk, e) ↦ rw e (ground (arith, set_phase-ok sk pod))
        | inr (x, e) ↦ cc
      ]
  decide-ok sidekick (err not_found) = ground (arith, set_phase-ok (init_maps sidekick) zero_pod)
  decide-ok sidekick (err (failed e)) = ground arith
  decide-ok sidekick (err panicked) = ground arith

  -- Once Succeeded, a Sidekick whose policy is not Always stays so, whatever pod is found.
  pub decide-succeeded :
      (sidekick : Sidekick R) (found : Result (Pod R)) (phase : SideKickPhase) (sk : Sidekick R)
      → is_always sidekick.spec.restart_policy ≡ false
      → sidekick.status.phase ≡ succeeded
      → decide sidekick found ≡ ok (phase, sk)
      → (phase ≡ succeeded) × (sk.status.phase ≡ succeeded)
  unfolding decide observe
  decide-succeeded sidekick (ok pod) phase sk a s h =
      elim (Result-cases (observe_pod (init_maps sidekick) pod)) [
        | inl (seen, e) ↦
            let (policy, kept) = observe_pod-keeps (init_maps sidekick) pod seen e in
            set_phase-succeeded seen pod phase sk (rw policy a) (kept ∙ s)
              (sym (decide-seen sidekick pod seen e) ∙ h)
        | inr (x, e) ↦ cc
      ]
  decide-succeeded sidekick (err not_found) phase sk a s h =
      set_phase-succeeded (init_maps sidekick) zero_pod phase sk a s h
  decide-succeeded sidekick (err (failed e)) phase sk a s h = cc
  decide-succeeded sidekick (err panicked) phase sk a s h = cc

  -- Where the phase is decided to be Failed on a failed pod that is not being deleted, under
  -- another policy than Never, that pod is not counted as a failure in the new status.
  pub decide-failed_pod :
      (sidekick : Sidekick R) (pod : Pod R) (sk : Sidekick R)
      → is_never sidekick.spec.restart_policy ≡ false
      → is_failed pod.status.phase ≡ true
      → is_some pod.deletion_timestamp ≡ false
      → decide sidekick (ok pod) ≡ ok (Sidekick.failed, sk)
      → lookup pod.uid (entries sk.status.failure_count) ≡ some false
  decide-failed_pod sidekick pod sk n f d h =
      let counted = with_failure pod.uid (with_restarts pod (init_maps sidekick)) in
      let e = observe_pod-failed (init_maps sidekick) pod (init_maps-HasMaps sidekick) f d in
      elim (Bool-cases (passes_limit counted)) [
        | inl p ↦
            let seen = decide-seen sidekick pod _ (e ∙ forgive-passing pod.uid counted n refl p) in
            rw (set_phase-failure_count _ pod Sidekick.failed sk (sym seen ∙ h))
              (simp (lookup-insert, eq_refl))
        | inr p ↦
            let seen = decide-seen sidekick pod _ (e ∙ forgive-within pod.uid counted n p) in
            absurd (
              set_phase-within (with_limit counted) pod Sidekick.failed sk
                (passes_limit-with_limit counted ∙ p) (sym seen ∙ h) refl)
      ]
