-- ===== src/Distributed/Order.antt =====
-- In which order the operations on the ManifestWork of a distributed Sidekick change objects
-- (pkg/controllers/apps/distributed.go and grpc_wiring.go), for every behaviour of the API server.
use sidekick.Prelude.{
  true, String, ◌≡◌, refl, inl, inr, some, List, ◌∷◌, Bool-cases, not_found, failed, panicked,
  Result, ok, err, ◌==◌,
}
use sidekick.Prelude.Maps.{get, lookup-insert}
use sidekick.Api.Sidekick.{Sidekick}
use sidekick.Api.ManifestWork.{ManifestWork}
use sidekick.Api.Library.{Library}
use sidekick.Cluster.{
  Run, Server, lift, ◌>>=◌, write, note, Event, applied_mw, deleted_mw_named, delete_api_mw,
  apply_sidekick,
}
use sidekick.Cluster.Keeps.{Keeps-write, keeps_rules}
use sidekick.PodOps.{
  deletion_initiator_key, deletion_initiates_by_sidekick_operator, ignore_not_found,
}
use sidekick.Reconcile.Rules.{ends, IsOrderly, Orderly}
use sidekick.Distributed.Reads.{pod_namespace-Keeps}
use sidekick.Distributed.Works.{
  mark_mw_deletion, set_mw_deletion_initiator_annotation, delete_mw, delete_found, delete_searched,
  terminate_manifest_work, handle_distributed_sidekick_finalizer,
}

module _ {R W : Type 0} (lib : Library R) (server : Server R W) where
  mark_mw_deletion-get :
      (n : ManifestWork R)
      → get (mark_mw_deletion n).annotations deletion_initiator_key
        ≡ some deletion_initiates_by_sidekick_operator
  unfolding get
  mark_mw_deletion-get n = simp lookup-insert

  delete_marked_mw :
      (mw : ManifestWork R) (r : Result (ManifestWork R)) (w : W) (log : List (Event R))
      → IsOrderly lib log
      → IsOrderly lib
          ((lift r >>= delete_api_mw server)
            (record { world = w; log = applied_mw mw mark_mw_deletion r ∷ log })).1.log
  unfolding ◌>>=◌ write
  delete_marked_mw mw (ok marked) w log h = ((refl, mark_mw_deletion-get), (tt, h))
  delete_marked_mw mw (err e) w log h = (tt, h)

  pub delete_mw-Orderly : (mw : ManifestWork R) → Orderly lib (delete_mw server mw)
  unfolding delete_mw set_mw_deletion_initiator_annotation write ◌>>=◌
  delete_mw-Orderly mw = record {
    at = λ s h.
        let (r, w) = server.on_apply_mw mw mark_mw_deletion s.world in
        delete_marked_mw mw r w s.log h;
  }

  -- What a change of the Sidekick may follow: the outcome of the deletion, by name, of its
  -- ManifestWork in some namespace.
  change_after :
      (sidekick : Sidekick R) (ns : String) (f : Sidekick R → Sidekick R) (r : Result (Unit {0}))
      (w : W) (log : List (Event R))
      → ends lib sidekick ≡ true
      → IsOrderly lib log
      → IsOrderly lib
          ((ignore_not_found {S = Run R W} r >>= λ _. apply_sidekick server sidekick f) (record {
            world = w;
            log = deleted_mw_named (record { namespace = ns; name = sidekick.name }) r ∷ log;
          })).1.log
  unfolding ◌>>=◌ write ignore_not_found
  change_after sidekick ns f (ok a) w log t h = ((λ _. (refl, inl refl), λ n. cc), (tt, h))
  change_after sidekick ns f (err not_found) w log t h = ((λ _. (refl, inr refl), λ n. cc), (tt, h))
  change_after sidekick ns f (err (failed e)) w log t h = (tt, h)
  change_after sidekick ns f (err panicked) w log t h = (tt, h)

  change_deleted :
      (sidekick : Sidekick R) (ns : String) (f : Sidekick R → Sidekick R)
      → ends lib sidekick ≡ true
      → Orderly lib (delete_found server sidekick.name ns >>= λ _. apply_sidekick server sidekick f)
  unfolding delete_found ◌>>=◌ write note
  change_deleted sidekick ns f t = elim (Bool-cases (ns == "")) [
    | inl e ↦ rw e (record { at = λ s h. ((λ _. refl, λ n. cc), (tt, h)) })
    | inr n ↦ rw n (record {
      at = λ s h.
          let (r, w) =
            server.on_delete_mw_named (record { namespace = ns; name = sidekick.name }) s.world in
          change_after sidekick ns f r w s.log t h;
    })
  ]

  change_searched :
      (sidekick : Sidekick R) (f : Sidekick R → Sidekick R) (searched : Result String)
      → ends lib sidekick ≡ true
      → Orderly lib
          (delete_searched server sidekick.name searched >>= λ _. apply_sidekick server sidekick f)
  unfolding delete_searched ◌>>=◌
  change_searched sidekick f (ok ns) t = change_deleted sidekick ns f t
  change_searched sidekick f (err not_found) t = change_deleted sidekick "" f t
  change_searched sidekick f (err (failed e)) t = record { at = λ s h. h }
  change_searched sidekick f (err panicked) t = record { at = λ s h. h }

  terminate_manifest_work-Orderly :
      (sidekick : Sidekick R)
      → ends lib sidekick ≡ true
      → Orderly lib (terminate_manifest_work lib server sidekick)
  unfolding terminate_manifest_work
  terminate_manifest_work-Orderly sidekick t =
      let k = pod_namespace-Keeps server (IsOrderly lib) sidekick.name in
      search (keeps_rules, change_searched)

  pub handle_distributed_sidekick_finalizer-Orderly :
      (sidekick : Sidekick R)
      → Orderly lib (handle_distributed_sidekick_finalizer lib server sidekick)
  unfolding handle_distributed_sidekick_finalizer
  handle_distributed_sidekick_finalizer-Orderly sidekick = elim (Bool-cases (ends lib sidekick)) [
    | inl t ↦ rw t (terminate_manifest_work-Orderly sidekick t)
    | inr n ↦ rw n (Keeps-write _ _ (λ r log h. ((λ d. cc, λ _ q. refl), h)))
  ]
