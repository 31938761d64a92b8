-- ===== src/Tests/Spent.antt =====
-- A Sidekick that has passed its backoff limit, and the theorems on it.
use sidekick.Prelude.{
  ℕ, ◌≡◌, refl, sym, ap, ◌∙◌, true, none, some, [], ◌∷◌, arith, ok, is_ok, ok-injective,
}
use mathlib.Core.Path.{subst}
use sidekick.Prelude.Maps.{lookup, insert, put}
use sidekick.Api.Pod.{Pod, PodPhase, never}
use sidekick.Api.Sidekick.{Sidekick, SideKickPhase}
use sidekick.Cluster.{Server}
use sidekick.Phase.{
  get_sidekick_phase, exceeds_backoff_limit, get_total_back_off_counts,
  get_failure_count_from_sidekick_status, get_total_container_restart_counts,
  get_container_restart_counts,
}
use sidekick.Phase.Decision.{FitsInt32}
use sidekick.PhaseUpdate.{decide, observe, observe_pod, forgive, object_key}
use sidekick.PhaseUpdate.Exhausted.{IsSpent, FindsUnfinished, decide-IsSpent}
use sidekick.Reconcile.{done, reconcile_held}
use sidekick.Reconcile.Stopped.{pods_applied, held-stops}
use sidekick.Tests.Sorting.{insertion_sort}
use sidekick.Tests.Fixtures.{lib, pod, sidekick_of, server, start}

-- Three restarts are one more than the limit.
abbrev exhausted : Sidekick ℕ
exhausted = sidekick_of never (some 2) SideKickPhase.failed none (some (("u0", 3) ∷ []))

exhausted-IsSpent : IsSpent exhausted
exhausted-IsSpent = record { policy = refl; unsucceeded = refl; passed = omega arith }

abbrev failed_pod : Pod ℕ
failed_pod = pod "archiver" PodPhase.failed

abbrev with_pod : Server ℕ (Unit {0})
with_pod = record server { on_get_pod = λ key w. (ok failed_pod, w) }

unfinished : FindsUnfinished exhausted (ok failed_pod)
unfolding lookup get_container_restart_counts
unfinished = (refl, omega arith)

failing :
    (sk : Sidekick ℕ) × (decide exhausted (ok failed_pod) ≡ ok (SideKickPhase.failed, sk))
    × FitsInt32 sk
unfolding decide observe observe_pod forgive get_sidekick_phase exceeds_backoff_limit
    get_total_back_off_counts get_failure_count_from_sidekick_status
    get_total_container_restart_counts get_container_restart_counts put insert
failing = (_, refl, record { counts = omega arith; limit = omega arith })

decide-IsSpent_example : (SideKickPhase.failed ≡ SideKickPhase.failed) × IsSpent (failing.0)
decide-IsSpent_example =
    decide-IsSpent exhausted (ok failed_pod) SideKickPhase.failed failing.0 exhausted-IsSpent
      unfinished failing.2 failing.1

fits :
    (phase : SideKickPhase) (sk : Sidekick ℕ)
    → decide exhausted (ok failed_pod) ≡ ok (phase, sk)
    → FitsInt32 sk
fits phase sk h =
    let (there, e, f) = failing in subst FitsInt32 (ap (λ o. o.1) (ok-injective _ _ (sym e ∙ h))) f

held-stops_example :
    let (outcome, after) =
      reconcile_held lib with_pod insertion_sort (object_key exhausted) exhausted start in
    (pods_applied after.log ≡ 0) × (is_ok outcome ≡ true → outcome ≡ ok done)
held-stops_example =
    held-stops with_pod exhausted exhausted-IsSpent start unfinished fits lib insertion_sort
      (object_key exhausted)
