-- ===== src/Phase/Decision.antt =====
-- Which phase `getSidekickPhase` (pkg/controllers/apps/sidekick.go) decides on.
use sidekick.Prelude.{
  ◌<◌, ◌≤◌, ◌≡◌, ◌≢◌, ◌↔◌, ◌⊎◌, Bool, true, false, not, ◌&&◌, arith, ltb32, is_some, Option, none,
  some, Result, ok, err, is_ok,
}
use sidekick.Api.Pod.{Pod, is_always, is_succeeded}
use sidekick.Api.Sidekick.{Sidekick, SideKickPhase, current, failed, succeeded, phase_is_succeeded}
use sidekick.Phase.{get_total_back_off_counts, get_sidekick_phase, is_sidekick_pod_running}
use sidekick.Phase.Backoff.{backoffs, limit_of, exceeds-ok, exceeds-exact}

-- The pod ended with exit code 0 and nobody deletes it.
abbrev pub has_completed : {R : Type 0} → Pod R → Bool
has_completed pod = is_succeeded pod.status.phase && not (is_some pod.deletion_timestamp)

-- The backoff limit is passed.
abbrev pub IsExhausted : {R : Type 0} → Sidekick R → Type 0
IsExhausted sidekick = limit_of sidekick < backoffs sidekick

-- The counts of the status, and the limit, fit an int32.
pub record FitsInt32 {R : Type 0} (sidekick : Sidekick R) : Type 0 where
  pub counts : backoffs sidekick < 2147483648
  pub limit : limit_of sidekick < 2147483648

-- The phase that is decided; a panic has none.
abbrev pub decided : {R : Type 0} → Result (SideKickPhase × Sidekick R) → Option SideKickPhase
decided (ok (phase, _)) = some phase
decided (err _) = none

module _ {R : Type 0} (sidekick : Sidekick R) (pod : Pod R) where
  -- While the counts and the limit fit an int32, the phase is Failed exactly when the policy is not
  -- Always, the Sidekick and its pod have not succeeded, and the failed pods and the restarts
  -- together pass the limit.
  pub phase-failed_iff :
      FitsInt32 sidekick
      → (decided (get_sidekick_phase sidekick pod) ≡ some failed) ↔ (
          (is_always sidekick.spec.restart_policy ≡ false)
          × (phase_is_succeeded sidekick.status.phase ≡ false)
          × (has_completed pod ≡ false)
          × IsExhausted sidekick)
  unfolding get_sidekick_phase
  phase-failed_iff fits = ground (arith, exceeds-exact sidekick)

  -- The phase is Succeeded exactly when the policy is not Always and the Sidekick, or its pod, has
  -- succeeded; no backoff count undoes it.
  pub phase-succeeded_iff : (decided (get_sidekick_phase sidekick pod) ≡ some succeeded) ↔ (
      (is_always sidekick.spec.restart_policy ≡ false)
      × ((phase_is_succeeded sidekick.status.phase ≡ true) ⊎ (has_completed pod ≡ true)))
  unfolding get_sidekick_phase
  phase-succeeded_iff = ground (arith, exceeds-ok sidekick)

  running-completed : is_sidekick_pod_running pod ≡ true → has_completed pod ≡ false
  unfolding is_sidekick_pod_running
  running-completed h = ground arith

  -- While the counts and the limit fit an int32, the phase is Current exactly when the pod runs, all
  -- its containers included, and the policy is Always, or the Sidekick has not succeeded and the
  -- limit is not passed.
  pub phase-current_iff :
      FitsInt32 sidekick
      → (decided (get_sidekick_phase sidekick pod) ≡ some current) ↔ (
          (is_sidekick_pod_running pod ≡ true)
          × ((is_always sidekick.spec.restart_policy ≡ true)
              ⊎ ((phase_is_succeeded sidekick.status.phase ≡ false)
                  × (backoffs sidekick ≤ limit_of sidekick))))
  unfolding get_sidekick_phase
  phase-current_iff fits = ground (arith, exceeds-exact sidekick, running-completed)

  -- A phase is always decided, also where no backoff limit is set: nothing is dereferenced at nil.
  pub phase-total : is_ok (get_sidekick_phase sidekick pod) ≡ true
  unfolding get_sidekick_phase
  phase-total = ground (arith, exceeds-ok sidekick)

  -- The phase is not Failed while the comparison with the limit, as the code makes it, fails.
  pub phase-within :
      (phase : SideKickPhase) (sk : Sidekick R)
      → ltb32 (limit_of sidekick) (get_total_back_off_counts sidekick).0 ≡ false
      → get_sidekick_phase sidekick pod ≡ ok (phase, sk)
      → phase ≢ failed
  unfolding get_sidekick_phase
  phase-within phase sk h e = ground (arith, exceeds-ok sidekick)

  -- Once Succeeded, a Sidekick whose policy is not Always is decided to be so.
  pub phase-sticky :
      (phase : SideKickPhase) (sk : Sidekick R)
      → is_always sidekick.spec.restart_policy ≡ false
      → phase_is_succeeded sidekick.status.phase ≡ true
      → get_sidekick_phase sidekick pod ≡ ok (phase, sk)
      → phase ≡ succeeded
  unfolding get_sidekick_phase
  phase-sticky phase sk a h e = ground (arith, exceeds-ok sidekick)
