-- ===== src/PhaseUpdate/Failures.antt =====
-- That the phase of a Sidekick is decided without a panic, and leaves a status to which failures can be
-- written (`calculateSidekickPhase` of pkg/controllers/apps/sidekick.go).
use mathlib.Core.Path.{subst}
use sidekick.Prelude.{
  String, ◌≡◌, refl, true, is_some, arith, not_found, failed, panicked, Result, ok, err, is_ok,
  >>=-eq-ok, ok-injective, inl, inr,
}
use sidekick.Prelude.Maps.{put}
use sidekick.Api.Pod.{Pod}
use sidekick.Api.Sidekick.{Sidekick, SideKickPhase}
use sidekick.Cluster.Yields.{IsFine, IsCalm}
use sidekick.PhaseUpdate.{init_maps, forgive, observe_pod, observe, set_phase, decide}
use sidekick.PhaseUpdate.Observed.{
  decide-ok, set_phase-failure_count, with_failure, with_restarts, init_maps-HasMaps,
}
use sidekick.Phase.Backoff.{exceeds-ok}

pub ok-IsFine :
    {A : Type 0} (Q : A → Type 0) (r : Result A)
    → is_ok r ≡ true
    → ((a : A) → r ≡ ok a → Q a)
    → IsFine Q r
ok-IsFine Q (ok a) h k = k a refl
ok-IsFine Q (err e) h k = cc

module _ {R : Type 0} where
  -- The map of the failures is there.
  abbrev pub HasFailures : Sidekick R → Type 0
  HasFailures sk = is_some sk.status.failure_count ≡ true

  pub forgive-HasFailures :
      (uid : String) (sk sk' : Sidekick R)
      → HasFailures sk
      → forgive uid sk ≡ ok sk'
      → HasFailures sk'
  unfolding forgive put
  forgive-HasFailures uid sk sk' h e = ground (arith, exceeds-ok sk)

  observe_pod-HasFailures :
      (sk : Sidekick R) (pod : Pod R) (sk' : Sidekick R)
      → HasFailures sk
      → observe_pod sk pod ≡ ok sk'
      → HasFailures sk'
  unfolding observe_pod put
  observe_pod-HasFailures sk pod sk' h e =
      ground (arith, forgive-HasFailures pod.uid (with_failure pod.uid (with_restarts pod sk)) sk')

  observe-HasFailures :
      (sk : Sidekick R) (found : Result (Pod R)) (observed : Sidekick R × Pod R)
      → HasFailures sk
      → observe sk found ≡ ok observed
      → HasFailures observed.0
  unfolding observe
  observe-HasFailures sk (ok pod) observed h e =
      let (seen, there, same) = >>=-eq-ok (observe_pod sk pod) _ e in
      subst (λ o. HasFailures o.0) (ok-injective _ _ same)
        (observe_pod-HasFailures sk pod seen h there)
  observe-HasFailures sk (err not_found) observed h e =
      subst (λ o. HasFailures o.0) (ok-injective _ _ e) h
  observe-HasFailures sk (err (failed x)) observed h e = cc
  observe-HasFailures sk (err panicked) observed h e = cc

  -- The decided Sidekick has the map of the failures.
  pub decide-HasFailures :
      (sk : Sidekick R) (found : Result (Pod R)) (phase : SideKickPhase) (sk' : Sidekick R)
      → decide sk found ≡ ok (phase, sk')
      → HasFailures sk'
  unfolding decide
  decide-HasFailures sk found phase sk' h =
      let (observed, seen, e) = >>=-eq-ok (observe (init_maps sk) found) set_phase h in
      let there = observe-HasFailures (init_maps sk) found observed (init_maps-HasMaps sk).0 seen in
      rw (set_phase-failure_count observed.0 observed.1 phase sk' e) there

  -- Where the lookup did not panic, neither does the decision.
  pub decide-IsFine :
      (sk : Sidekick R) (found : Result (Pod R))
      → IsCalm found
      → IsFine (λ decided. HasFailures decided.1) (decide sk found)
  unfolding decide observe
  decide-IsFine sk (ok pod) h =
      ok-IsFine (λ decided. HasFailures decided.1) (decide sk (ok pod))
        ((decide-ok sk (ok pod)).1 (inl refl))
        (λ (phase, sk') e. decide-HasFailures sk (ok pod) phase sk' e)
  decide-IsFine sk (err not_found) h =
      ok-IsFine (λ decided. HasFailures decided.1) (decide sk (err not_found))
        ((decide-ok sk (err not_found)).1 (inr refl))
        (λ (phase, sk') e. decide-HasFailures sk (err not_found) phase sk' e)
  decide-IsFine sk (err (failed e)) h = tt
  decide-IsFine sk (err panicked) h = h
