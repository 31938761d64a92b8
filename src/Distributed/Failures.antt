-- ===== src/Distributed/Failures.antt =====
-- That the phase of a distributed Sidekick is decided without a panic, and leaves a status to which
-- failures can be written (`calculateDistributedSidekickPhase` of pkg/controllers/apps/distributed.go).
use sidekick.Prelude.{
  String, ◌≡◌, refl, true, Option, none, some, List, arith, Int32, not_found, failed, panicked,
  Result, ok, err, is_ok, >>=-eq-ok, inl, inr,
}
use sidekick.Prelude.Maps.{put}
use sidekick.Api.Sidekick.{Sidekick, SideKickPhase}
use sidekick.Api.ManifestWork.{ManifestWork}
use sidekick.Cluster.Yields.{IsFine, IsCalm}
use sidekick.Phase.Backoff.{exceeds-ok}
use sidekick.PhaseUpdate.{init_maps}
use sidekick.PhaseUpdate.Observed.{with_failure, init_maps-HasMaps}
use sidekick.PhaseUpdate.Failures.{HasFailures, forgive-HasFailures, ok-IsFine}
use sidekick.Distributed.{
  get_distributed_sidekick_phase, set_distributed_phase, observe_mw, decide_distributed,
}
use sidekick.Distributed.Decided.{with_mw_restarts, decide_distributed-ok}

module _ {R : Type 0} where
  set_distributed_phase-HasFailures :
      (sk : Sidekick R) (mw : Option (ManifestWork R)) (phase : SideKickPhase) (sk' : Sidekick R)
      → HasFailures sk
      → set_distributed_phase sk mw ≡ ok (phase, sk')
      → HasFailures sk'
  unfolding set_distributed_phase get_distributed_sidekick_phase
  set_distributed_phase-HasFailures sk mw phase sk' h e = ground (arith, exceeds-ok sk)

module _ {R : Type 0} (unmarshal : String → Option (List Int32)) where
  observe_mw-HasFailures :
      (sk : Sidekick R) (mw : ManifestWork R) (sk' : Sidekick R)
      → HasFailures sk
      → observe_mw unmarshal sk mw ≡ ok sk'
      → HasFailures sk'
  unfolding observe_mw put
  observe_mw-HasFailures sk mw sk' h e = ground (
    arith,
    forgive-HasFailures mw.uid (with_failure mw.uid (with_mw_restarts unmarshal mw sk)) sk',
  )

  decide_distributed-HasFailures :
      (sk : Sidekick R) (found : Result (Option (ManifestWork R))) (phase : SideKickPhase)
      (sk' : Sidekick R)
      → decide_distributed unmarshal sk found ≡ ok (phase, sk')
      → HasFailures sk'
  unfolding decide_distributed
  decide_distributed-HasFailures sk (ok (some mw)) phase sk' e =
      let (seen, there, last) = >>=-eq-ok (observe_mw unmarshal (init_maps sk) mw) _ e in
      set_distributed_phase-HasFailures seen (some mw) phase sk'
        (observe_mw-HasFailures (init_maps sk) mw seen (init_maps-HasMaps sk).0 there) last
  decide_distributed-HasFailures sk (ok none) phase sk' e =
      set_distributed_phase-HasFailures (init_maps sk) none phase sk' (init_maps-HasMaps sk).0 e
  decide_distributed-HasFailures sk (err not_found) phase sk' e =
      set_distributed_phase-HasFailures (init_maps sk) none phase sk' (init_maps-HasMaps sk).0 e
  decide_distributed-HasFailures sk (err (failed x)) phase sk' e = cc
  decide_distributed-HasFailures sk (err panicked) phase sk' e = cc

  decided-IsFine :
      (sk : Sidekick R) (found : Result (Option (ManifestWork R)))
      → is_ok (decide_distributed unmarshal sk found) ≡ true
      → IsFine (λ decided. HasFailures decided.1) (decide_distributed unmarshal sk found)
  decided-IsFine sk found h =
      ok-IsFine (λ decided. HasFailures decided.1) (decide_distributed unmarshal sk found) h
        (λ (phase, sk') e. decide_distributed-HasFailures sk found phase sk' e)

  -- Where the search did not panic, neither does the decision.
  pub decide_distributed-IsFine :
      (sk : Sidekick R) (found : Result (Option (ManifestWork R)))
      → IsCalm found
      → IsFine (λ decided. HasFailures decided.1) (decide_distributed unmarshal sk found)
  unfolding decide_distributed
  decide_distributed-IsFine sk (ok mw) h =
      decided-IsFine sk (ok mw) ((decide_distributed-ok unmarshal sk (ok mw)).1 (inl refl))
  decide_distributed-IsFine sk (err not_found) h =
      decided-IsFine sk (err not_found)
        ((decide_distributed-ok unmarshal sk (err not_found)).1 (inr refl))
  decide_distributed-IsFine sk (err (failed e)) h = tt
  decide_distributed-IsFine sk (err panicked) h = h
