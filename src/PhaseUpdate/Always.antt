-- ===== src/PhaseUpdate/Always.antt =====
-- The phase of a Sidekick with the restart policy Always, which is never Failed or Succeeded
-- (`calculateSidekickPhase` of pkg/controllers/apps/sidekick.go).
use sidekick.Prelude.{
  String, ◌≡◌, ◌⊎◌, sym, ap, ◌∙◌, true, false, arith, not_found, failed, panicked, Result, ok, err,
  is_ok, >>=-eq-ok, ok-injective, Result-cases, inl, inr,
}
use sidekick.Prelude.Maps.{put}
use sidekick.Api.Pod.{Pod, is_always}
use sidekick.Api.Sidekick.{Sidekick, SideKickPhase, phase_is_failed, phase_is_succeeded}
use sidekick.Phase.{get_sidekick_phase}
use sidekick.Phase.Backoff.{exceeds-ok}
use sidekick.PhaseUpdate.{zero_pod, init_maps, forgive, observe_pod, observe, set_phase, decide}
use sidekick.PhaseUpdate.Observed.{decide-ok, with_failure, with_restarts}

module _ {R : Type 0} where
  -- What an observation leaves as it is: the policy, the leader and the metadata.
  abbrev IsSame : Sidekick R → Sidekick R → Type 0
  IsSame sk sk' =
      (sk'.spec.restart_policy ≡ sk.spec.restart_policy)
      × (sk'.status.leader ≡ sk.status.leader)
      × (sk'.metadata ≡ sk.metadata)

  forgive-IsSame : (uid : String) (sk sk' : Sidekick R) → forgive uid sk ≡ ok sk' → IsSame sk sk'
  unfolding forgive put
  forgive-IsSame uid sk sk' h = ground (arith, exceeds-ok sk)

  observe_pod-IsSame :
      (sk : Sidekick R) (pod : Pod R) (sk' : Sidekick R)
      → observe_pod sk pod ≡ ok sk'
      → IsSame sk sk'
  unfolding observe_pod put
  observe_pod-IsSame sk pod sk' h =
      ground (arith, forgive-IsSame pod.uid (with_failure pod.uid (with_restarts pod sk)) sk')

  set_phase-always :
      (sk : Sidekick R) (pod : Pod R) (phase : SideKickPhase) (sk' : Sidekick R)
      → is_always sk.spec.restart_policy ≡ true
      → set_phase (sk, pod) ≡ ok (phase, sk')
      → (phase_is_failed phase ≡ false)
        × (phase_is_succeeded sk'.status.phase ≡ false)
        × (sk'.status.leader ≡ sk.status.leader)
        × (sk'.metadata ≡ sk.metadata)
  unfolding set_phase get_sidekick_phase
  set_phase-always sk pod phase sk' a h = ground arith

  -- A phase that does not end the reconciliation, with the leader and the metadata as they were.
  abbrev pub GoesOn : Sidekick R → SideKickPhase → Sidekick R → Type 0
  GoesOn sk phase sk' =
      (phase_is_failed phase ≡ false)
      × (phase_is_succeeded sk'.status.phase ≡ false)
      × (sk'.status.leader ≡ sk.status.leader)
      × (sk'.metadata ≡ sk.metadata)

  decided-GoesOn :
      (sk : Sidekick R) (found : Result (Pod R)) (phase : SideKickPhase) (sk' : Sidekick R)
      → is_always sk.spec.restart_policy ≡ true
      → decide sk found ≡ ok (phase, sk')
      → GoesOn sk phase sk'
  unfolding decide observe
  decided-GoesOn sk (ok pod) phase sk' a e =
      let ((seen, p), there, more) = >>=-eq-ok (observe (init_maps sk) (ok pod)) set_phase e in
      let (seen', there', pair) = >>=-eq-ok (observe_pod (init_maps sk) pod) _ there in
      let (policy, leader, metadata) = observe_pod-IsSame (init_maps sk) pod seen' there' in
      let same : seen' ≡ seen = ap (λ o. o.0) (ok-injective _ _ pair) in
      let (f, s, l, m) =
        set_phase-always seen p phase sk'
          (ap (λ x. is_always x.spec.restart_policy) (sym same) ∙ ap is_always policy ∙ a) more in
      (
        f,
        s,
        l ∙ ap (λ x. x.status.leader) (sym same) ∙ leader,
        m ∙ ap (λ x. x.metadata) (sym same) ∙ metadata,
      )
  decided-GoesOn sk (err not_found) phase sk' a e =
      set_phase-always (init_maps sk) zero_pod phase sk' a e
  decided-GoesOn sk (err (failed x)) phase sk' a e = cc
  decided-GoesOn sk (err panicked) phase sk' a e = cc

  set_phase-kept :
      (sk : Sidekick R) (pod : Pod R) (phase : SideKickPhase) (sk' : Sidekick R)
      → set_phase (sk, pod) ≡ ok (phase, sk')
      → (sk'.status.leader ≡ sk.status.leader) × (sk'.metadata ≡ sk.metadata)
  unfolding set_phase get_sidekick_phase
  set_phase-kept sk pod phase sk' h = ground (arith, exceeds-ok sk)

  -- A phase decided without a pod goes on unless it is Failed or Succeeded.
  pub decided_podless-GoesOn :
      (sk : Sidekick R) (phase : SideKickPhase) (sk' : Sidekick R)
      → decide sk (err not_found) ≡ ok (phase, sk')
      → phase_is_failed phase ≡ false
      → phase_is_succeeded sk'.status.phase ≡ false
      → GoesOn sk phase sk'
  unfolding decide observe
  decided_podless-GoesOn sk phase sk' e f s =
      let (leader, metadata) = set_phase-kept (init_maps sk) zero_pod phase sk' e in
      (f, s, leader, metadata)

  -- Of a Sidekick with the policy Always a phase is decided, with a pod or without one, which does not
  -- end its reconciliation.
  pub decide-GoesOn :
      (sk : Sidekick R) (found : Result (Pod R))
      → is_always sk.spec.restart_policy ≡ true
      → (is_ok found ≡ true) ⊎ (found ≡ err not_found)
      → (phase : SideKickPhase) × (sk' : Sidekick R) × (decide sk found ≡ ok (phase, sk'))
        × GoesOn sk phase sk'
  decide-GoesOn sk found a h = elim (Result-cases (decide sk found)) [
    | inl ((phase, sk'), e) ↦ (phase, sk', e, decided-GoesOn sk found phase sk' a e)
    | inr (x, e) ↦ absurd (let d = (decide-ok sk found).1 h in cc)
  ]
