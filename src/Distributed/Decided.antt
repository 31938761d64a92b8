-- ===== src/Distributed/Decided.antt =====
-- When the phase of a distributed Sidekick is decided (`calculateDistributedSidekickPhase` of
-- pkg/controllers/apps/distributed.go).
use sidekick.Prelude.{
  String, ◌≡◌, ◌↔◌, ◌⊎◌, inl, inr, true, Option, none, some, List, arith, Int32, not_found, failed,
  panicked, Result, ok, err, is_ok, Result-cases,
}
use sidekick.Prelude.Maps.{insert, entries, put}
use sidekick.Api.Sidekick.{Sidekick}
use sidekick.Phase.Backoff.{exceeds-ok}
use sidekick.PhaseUpdate.{init_maps}
use sidekick.PhaseUpdate.Observed.{HasMaps, init_maps-HasMaps, forgive-ok, with_failure}
use sidekick.Api.ManifestWork.{ManifestWork}
use sidekick.Distributed.{
  get_distributed_container_restart_counts, get_distributed_sidekick_phase, set_distributed_phase,
  observe_mw, decide_distributed,
}

module _ {R : Type 0} where
  set_distributed_phase-ok :
      (sk : Sidekick R) (mw : Option (ManifestWork R)) → is_ok (set_distributed_phase sk mw) ≡ true
  unfolding set_distributed_phase get_distributed_sidekick_phase
  set_distributed_phase-ok sk mw = ground (arith, exceeds-ok sk)

module _ {R : Type 0} (unmarshal : String → Option (List Int32)) where
  abbrev pub with_mw_restarts : ManifestWork R → Sidekick R → Sidekick R
  with_mw_restarts mw sk = record sk {
    status = record (sk.status) {
      container_restart_counts_per_pod = some (
          insert mw.uid (get_distributed_container_restart_counts unmarshal mw)
            (entries sk.status.container_restart_counts_per_pod));
    };
  }

  observe_mw-ok :
      (sk : Sidekick R) (mw : ManifestWork R)
      → HasMaps sk
      → is_ok (observe_mw unmarshal sk mw) ≡ true
  unfolding observe_mw put
  observe_mw-ok sk mw h =
      ground (arith, forgive-ok mw.uid (with_failure mw.uid (with_mw_restarts mw sk)))

  -- A phase is decided, without a panic, exactly when the search for the ManifestWork found one,
  -- found nothing or answered NotFound.
  pub decide_distributed-ok :
      (sk : Sidekick R) (found : Result (Option (ManifestWork R)))
      → (is_ok (decide_distributed unmarshal sk found) ≡ true)
        ↔ ((is_ok found ≡ true) ⊎ (found ≡ err not_found))
  unfolding decide_distributed
  decide_distributed-ok sk (ok (some mw)) =
      let h = observe_mw-ok (init_maps sk) mw (init_maps-HasMaps sk) in
      elim (Result-cases (observe_mw unmarshal (init_maps sk) mw)) [
        | inl (seen, e) ↦ rw e (ground (arith, set_distributed_phase-ok seen (some mw)))
        | inr (x, e) ↦ cc
      ]
  decide_distributed-ok sk (ok none) = ground (arith, set_distributed_phase-ok (init_maps sk) none)
  decide_distributed-ok sk (err not_found) =
      ground (arith, set_distributed_phase-ok (init_maps sk) none)
  decide_distributed-ok sk (err (failed e)) = ground arith
  decide_distributed-ok sk (err panicked) = ground arith
