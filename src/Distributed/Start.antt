-- ===== src/Distributed/Start.antt =====
-- The steps of `ReconcileDistributedSidekick` (pkg/controllers/apps/distributed.go) before the pod is
-- built, for a Sidekick that has no ManifestWork.
use sidekick.Prelude.{
  String, ◌≡◌, refl, ap, false, Bool, ◌&&◌, is_some, arith, List, ◌∷◌, not_found, ok, err,
}
use sidekick.Api.Sidekick.{Sidekick, SidekickStatus}
use sidekick.Api.ManifestWork.{ManifestWork}
use sidekick.Api.Wiring.{Secret}
use sidekick.Cluster.{Server}
use sidekick.Cluster.Leads.{
  Leads, pure-Leads, lift-Leads, read-Leads, write-Leads, then-Leads, else-Leads, bind-Leads,
  attempt-Leads,
}
use sidekick.PhaseUpdate.{object_key}
use sidekick.PodOps.{get_finalizer_name}
use sidekick.GrpcWiring.Secrets.{key_server, keys_in, ensure_found, ensure_grpc_keys}
use sidekick.Distributed.Works.{handle_distributed_sidekick_finalizer}
use sidekick.Distributed.Status.{
  update_distributed_sidekick_status, calculate_distributed_sidekick_phase,
  update_distributed_sidekick_phase,
}
use sidekick.Distributed.Reconciler.{Operator, wire_grpc}
use sidekick.Distributed.Store.{IsHubStore, Ready, Ready-moved, secret_of, current-Leads, all_works}
use sidekick.Distributed.Course.{IsEligible, Course, decided-key}

and_first : (a b : Bool) → a ≡ false → (a && b) ≡ false
and_first a b h = ground arith

module _ {R W : Type 0} (op : Operator R) (server : Server R W) (store : IsHubStore server)
    (sk : Sidekick R) (first : String) (rest : List String) (works : String → List (ManifestWork R))
    (secret : Secret) (eligible : IsEligible op sk secret) (st : SidekickStatus R)
    (course : Course op sk st
      (all_works server store sk first rest works secret st op.codec op.sort (first ∷ rest))
      secret) where
  abbrev At : SidekickStatus R → W → Type 0
  At s w = Ready server sk first rest works secret s w

  abbrev pub the_sidekick : SidekickStatus R → Sidekick R
  the_sidekick s = record sk { status = s }

  -- The status once the phase is decided.
  abbrev pub then_status : SidekickStatus R
  then_status = course.decided.status

  pub handled-Leads :
      Leads
        (At st)
        (handle_distributed_sidekick_finalizer op.lib server (the_sidekick st))
        (ok (the_sidekick st))
        (At st)
  unfolding handle_distributed_sidekick_finalizer
  handled-Leads =
      let held : record (the_sidekick st) {
        metadata = op.lib.add_finalizer sk.metadata get_finalizer_name;
      }
          ≡ the_sidekick st =
        ap (λ m. record (the_sidekick st) { metadata = m }) eligible.held in
      else-Leads _ _ _ (and_first (is_some sk.deletion_timestamp) _ eligible.lives) (
        write-Leads _ _ _ (λ w h.
          let (r, knows, same) = store.applies (the_sidekick st) _ w h.knows held in
          (r, Ready-moved server sk first rest works secret h same knows)))

  pub phase-Leads :
      Leads
        (At st)
        (update_distributed_sidekick_phase server op.codec.unmarshal_counts
          (object_key sk)
          (the_sidekick st))
        (ok (false, the_sidekick then_status))
        (At then_status)
  unfolding update_distributed_sidekick_phase calculate_distributed_sidekick_phase
      update_distributed_sidekick_status
  phase-Leads =
      let key = decided-key op (the_sidekick st) course.decided course.phase course.decides in
      bind-Leads
        (calculate_distributed_sidekick_phase server op.codec.unmarshal_counts (the_sidekick st)) _
        (course.phase, the_sidekick then_status) _
        (attempt-Leads _ _ (err not_found) _
          (current-Leads server store sk first rest works secret st)
          (bind-Leads _ _ (course.phase, course.decided) _ (lift-Leads _ _ course.decides)
            (bind-Leads (update_distributed_sidekick_status server course.decided) _
              (the_sidekick then_status) _
              (write-Leads _ _ _ (λ w h.
                let (r, knows, same) =
                  store.patches (the_sidekick st) course.decided
                    (λ x. record x { status = then_status }) w h.knows key in
                (r, Ready-moved server sk first rest works secret h same knows)))
              (pure-Leads _ _ refl))))
        (else-Leads _ _ _ course.unfailed
          (pure-Leads _ _ (ap (λ b. (b, the_sidekick then_status)) course.unfinished)))

  pub wire-Leads :
      Leads
        (At then_status)
        (wire_grpc op server (the_sidekick then_status))
        (ok course.wired)
        (At then_status)
  unfolding wire_grpc ensure_grpc_keys ensure_found
  wire-Leads =
      bind-Leads (ensure_grpc_keys (key_server server) op.lib (the_sidekick then_status)) _
        (keys_in secret.contents) _
        (attempt-Leads _ _ (ok secret) _
          (read-Leads _ _ (store.reads_secret (secret_of sk)) (λ w h. h.has_secret))
          (then-Leads _ _ _ eligible.keyed (pure-Leads _ _ refl)))
        (bind-Leads _ _ course.signed _ (lift-Leads _ _ course.signs) (
          bind-Leads _ _ course.granted _ (lift-Leads _ _ course.grants)
            (lift-Leads _ _ course.addresses)))
