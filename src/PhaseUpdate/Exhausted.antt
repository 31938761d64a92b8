-- ===== src/PhaseUpdate/Exhausted.antt =====
-- That a Sidekick with the restart policy Never which has passed its backoff limit stays Failed
-- (`calculateSidekickPhase` of pkg/controllers/apps/sidekick.go).
use mathlib.Core.Path.{subst}
use sidekick.Prelude.{
  ℕ, Bool, String, ◌≤◌, ◌≡◌, ◌⊎◌, inl, inr, refl, sym, ap, ◌∙◌, true, false, some, [], ◌∷◌, arith,
  not_found, failed, panicked, Result, ok, err, get_or, >>=-eq-ok, ok-injective,
}
use sidekick.Prelude.Maps.{Entries, entries, lookup, insert, put}
use sidekick.Api.Pod.{Pod, RestartPolicy, is_never, is_always}
use sidekick.Api.Sidekick
use sidekick.Api.Sidekick.{Sidekick, SideKickPhase, phase_is_succeeded}
use sidekick.Phase.{get_sidekick_phase, get_container_restart_counts}
use sidekick.Phase.Backoff.{failures, restarts, backoffs, limit_of, with_limit, exceeds-ok}
use sidekick.Phase.Decision.{has_completed, IsExhausted, FitsInt32, decided, phase-failed_iff}
use sidekick.PhaseUpdate.{zero_pod, init_maps, forgive, observe_pod, observe, set_phase, decide}

failures-insert : (uid : String) (m : Entries Bool) → failures m ≤ failures (insert uid true m)
unfolding insert
failures-insert uid [] = omega arith
failures-insert uid ((name, val) ∷ more) = ground (arith, failures-insert uid more)

restarts-insert :
    (uid : String) (n : ℕ) (m : Entries ℕ)
    → get_or 0 (lookup uid m) ≤ n
    → restarts m ≤ restarts (insert uid n m)
unfolding insert lookup
restarts-insert uid n [] h = omega arith
restarts-insert uid n ((name, val) ∷ more) h = ground (arith, restarts-insert uid n more)

never-always : (policy : RestartPolicy) → is_never policy ≡ true → is_always policy ≡ false
never-always policy h = ground arith

module _ {R : Type 0} where
  -- The pod has not completed, and its containers have not restarted fewer times than the status says.
  abbrev pub IsUnfinished : Sidekick R → Pod R → Type 0
  IsUnfinished sk pod =
      (has_completed pod ≡ false)
      × (get_or 0 (lookup pod.uid (entries sk.status.container_restart_counts_per_pod))
          ≤ get_container_restart_counts pod)

  -- The pod that is found, if there is one, is unfinished.
  abbrev pub FindsUnfinished : Sidekick R → Result (Pod R) → Type 0
  FindsUnfinished sk (ok pod) = IsUnfinished sk pod
  FindsUnfinished sk (err e) = Unit {0}

  -- What an observation under the policy Never leaves as it is, with counts that only grow.
  abbrev Grows : Sidekick R → Sidekick R → Type 0
  Grows sk sk' =
      (sk'.spec ≡ sk.spec) × (sk'.status.phase ≡ sk.status.phase) × (backoffs sk ≤ backoffs sk')

  observe_pod-Grows :
      (sk : Sidekick R) (pod : Pod R) (sk' : Sidekick R)
      → is_never sk.spec.restart_policy ≡ true
      → IsUnfinished sk pod
      → observe_pod sk pod ≡ ok sk'
      → Grows sk sk'
  unfolding observe_pod put forgive
  observe_pod-Grows sk pod sk' n (c, u) h = ground (
    arith,
    failures-insert pod.uid (entries sk.status.failure_count),
    restarts-insert pod.uid (get_container_restart_counts pod)
        (entries sk.status.container_restart_counts_per_pod) u,
  )

  get_sidekick_phase-limit :
      (sk : Sidekick R) (pod : Pod R) (phase : SideKickPhase) (sk' : Sidekick R)
      → get_sidekick_phase sk pod ≡ ok (phase, sk')
      → (sk' ≡ sk) ⊎ (sk' ≡ with_limit sk)
  unfolding get_sidekick_phase
  get_sidekick_phase-limit sk pod phase sk' h = ground (arith, exceeds-ok sk)

  -- Only the phase is changed, and what a missing limit is taken for.
  abbrev IsPhased : Sidekick R → SideKickPhase → Sidekick R → Type 0
  IsPhased sk phase sk' =
      (sk'.spec.restart_policy ≡ sk.spec.restart_policy)
      × (limit_of sk' ≡ limit_of sk)
      × (backoffs sk' ≡ backoffs sk)
      × (sk'.status.phase ≡ phase)

  set_phase-IsPhased :
      (sk : Sidekick R) (pod : Pod R) (phase : SideKickPhase) (sk' : Sidekick R)
      → set_phase (sk, pod) ≡ ok (phase, sk')
      → IsPhased sk phase sk' × (decided (get_sidekick_phase sk pod) ≡ some phase)
  unfolding set_phase
  set_phase-IsPhased sk pod phase sk' h =
      let ((phase', seen), there, same) = >>=-eq-ok (get_sidekick_phase sk pod) _ h in
      let pair = ok-injective _ _ same in
      let as_phased : IsPhased sk phase'
          (record seen { status = record (seen.status) { phase = phase' } }) =
        elim (get_sidekick_phase-limit sk pod phase' seen there) [
          | inl e ↦ rw e (refl, refl, refl, refl)
          | inr e ↦ rw e (refl, refl, refl, refl)
        ] in
      (subst (λ o. IsPhased sk o.0 o.1) pair as_phased, rw there (ap (λ o. some o.0) pair))

  -- What is kept of a Sidekick with the policy Never once it has passed its limit.
  pub record IsSpent (sk : Sidekick R) : Type 0 where
    pub policy : is_never sk.spec.restart_policy ≡ true
    pub unsucceeded : phase_is_succeeded sk.status.phase ≡ false
    pub passed : IsExhausted sk

  init_maps-IsSpent : (sk : Sidekick R) → IsSpent sk → IsSpent (init_maps sk)
  init_maps-IsSpent sk spent = record {
    policy = spent.policy;
    unsucceeded = spent.unsucceeded;
    passed = let p = spent.passed in ground arith;
  }

  init_maps-IsUnfinished :
      (sk : Sidekick R) (pod : Pod R) → IsUnfinished sk pod → IsUnfinished (init_maps sk) pod
  init_maps-IsUnfinished sk pod (c, u) = (c, ground arith)

  Grows-IsSpent : (sk sk' : Sidekick R) → IsSpent sk → Grows sk sk' → IsSpent sk'
  Grows-IsSpent sk sk' spent (spec, phase, more) = record {
    policy = ap (λ s. is_never s.restart_policy) spec ∙ spent.policy;
    unsucceeded = ap phase_is_succeeded phase ∙ spent.unsucceeded;
    passed =
        let same : limit_of sk' ≡ limit_of sk = ap (λ s. get_or 0 s.backoff_limit) spec in
        let p = spent.passed in omega (arith, same);
  }

  set_phase-IsSpent :
      (sk : Sidekick R) (pod : Pod R) (phase : SideKickPhase) (sk' : Sidekick R)
      → IsSpent sk
      → has_completed pod ≡ false
      → FitsInt32 sk'
      → set_phase (sk, pod) ≡ ok (phase, sk')
      → (phase ≡ Sidekick.failed) × IsSpent sk'
  set_phase-IsSpent sk pod phase sk' spent c fits h =
      let ((policy, limit, counts, kept), chosen) = set_phase-IsPhased sk pod phase sk' h in
      let fits' : FitsInt32 sk = record {
        counts = rw (sym counts) fits.counts;
        limit = rw (sym limit) fits.limit;
      } in
      let exact =
        (phase-failed_iff sk pod fits').1
          (never-always sk.spec.restart_policy spent.policy, spent.unsucceeded, c, spent.passed) in
      let e : phase ≡ Sidekick.failed = cc in
      (
        e,
        record {
          policy = ap is_never policy ∙ spent.policy;
          unsucceeded = ap phase_is_succeeded (kept ∙ e);
          passed = let p = spent.passed in omega (arith, limit, counts);
        },
      )

  -- A Sidekick with the policy Never whose failed pods and restarts pass its backoff limit, and that has
  -- not succeeded, is decided to be Failed, with a pod that has not completed or without one, and
  -- is then still such a Sidekick. The pod does not report fewer restarts than before, and the
  -- counts and the limit fit an int32.
  pub decide-IsSpent :
      (sk : Sidekick R) (found : Result (Pod R)) (phase : SideKickPhase) (sk' : Sidekick R)
      → IsSpent sk
      → FindsUnfinished sk found
      → FitsInt32 sk'
      → decide sk found ≡ ok (phase, sk')
      → (phase ≡ Sidekick.failed) × IsSpent sk'
  unfolding decide observe
  decide-IsSpent sk (ok pod) phase sk' spent u fits h =
      let ((seen, p), there, more) = >>=-eq-ok (observe (init_maps sk) (ok pod)) set_phase h in
      let (seen', there', pair) = >>=-eq-ok (observe_pod (init_maps sk) pod) _ there in
      let spent' = init_maps-IsSpent sk spent in
      let unfinished = init_maps-IsUnfinished sk pod u in
      let grows = observe_pod-Grows (init_maps sk) pod seen' spent'.policy unfinished there' in
      set_phase-IsSpent seen' pod phase sk' (Grows-IsSpent (init_maps sk) seen' spent' grows) u.0
        fits (ap set_phase (ok-injective _ _ pair) ∙ more)
  decide-IsSpent sk (err not_found) phase sk' spent u fits h =
      set_phase-IsSpent (init_maps sk) zero_pod phase sk' (init_maps-IsSpent sk spent) refl fits h
  decide-IsSpent sk (err (failed x)) phase sk' spent u fits h = cc
  decide-IsSpent sk (err panicked) phase sk' spent u fits h = cc
