-- ===== src/Reconcile/Order.antt =====
-- In which order the operations on a Sidekick and its pod change objects (pkg/controllers/apps/pod.go
-- and sidekick.go), for every behaviour of the API server.
use sidekick.Prelude.{
  true, ◌≡◌, refl, inl, inr, some, List, ◌∷◌, not_found, failed, panicked, Result, ok, err,
  Bool-cases,
}
use sidekick.Prelude.Maps.{get, lookup-insert}
use sidekick.Api.Meta.{NamespacedName}
use sidekick.Api.Pod.{Pod, PodPhase}
use sidekick.Api.Sidekick.{Sidekick}
use sidekick.Api.Library.{Library}
use sidekick.Cluster.{
  Run, Server, lift, ◌>>=◌, write, Event, applied_pod, deleted_pod_named, delete_pod,
  apply_sidekick, apply_pod, update_pod_status,
}
use sidekick.Cluster.Keeps.{Keeps-write, keeps_rules}
use sidekick.PhaseUpdate.{
  object_key, update_sidekick_status, calculate_sidekick_phase, fail_pod, update_sidekick_phase,
}
use sidekick.Reconcile.Rules.{ends, IsOrderly, Orderly}
use sidekick.PodOps.{
  mark_deletion, deletion_initiator_key, deletion_initiates_by_sidekick_operator, ignore_not_found,
  set_deletion_initiator_annotation, delete_own_pod, remove_pod_finalizer, count_external,
  note_external_deletion, release_pod, terminate, handle_sidekick_finalizer,
}

module _ {R : Type 0} where
  mark_deletion-get :
      (q : Pod R)
      → get (mark_deletion q).annotations deletion_initiator_key
        ≡ some deletion_initiates_by_sidekick_operator
  unfolding get
  mark_deletion-get q = simp lookup-insert

module _ {R W : Type 0} (lib : Library R) (server : Server R W) where
  delete_marked :
      (pod : Pod R) (r : Result (Pod R)) (w : W) (log : List (Event R))
      → IsOrderly lib log
      → IsOrderly lib
          ((lift r >>= delete_pod server)
            (record { world = w; log = applied_pod pod mark_deletion r ∷ log })).1.log
  unfolding ◌>>=◌ write
  delete_marked pod (ok marked) w log h = ((refl, mark_deletion-get), (tt, h))
  delete_marked pod (err e) w log h = (tt, h)

  pub delete_own_pod-Orderly : (pod : Pod R) → Orderly lib (delete_own_pod lib server pod)
  unfolding delete_own_pod set_deletion_initiator_annotation write ◌>>=◌
  delete_own_pod-Orderly pod = record {
    at = λ s h.
        let (r, w) = server.on_apply_pod pod mark_deletion s.world in delete_marked pod r w s.log h;
  }

  pub update_sidekick_status-Orderly :
      (sidekick : Sidekick R) → Orderly lib (update_sidekick_status server sidekick)
  unfolding update_sidekick_status
  update_sidekick_status-Orderly sidekick = Keeps-write _ _ (λ r log h. (tt, h))

  pub ignore_not_found-Orderly :
      {A : Type 0} (r : Result A) → Orderly {W = W} lib (ignore_not_found {S = Run R W} r)
  unfolding ignore_not_found
  ignore_not_found-Orderly (ok a) = search keeps_rules
  ignore_not_found-Orderly (err not_found) = search keeps_rules
  ignore_not_found-Orderly (err (failed e)) = search keeps_rules
  ignore_not_found-Orderly (err panicked) = search keeps_rules

  remove_after :
      (sidekick : Sidekick R) (f : Sidekick R → Sidekick R) (r : Result (Unit {0})) (w : W)
      (log : List (Event R))
      → ends lib sidekick ≡ true
      → IsOrderly lib log
      → IsOrderly lib
          ((ignore_not_found {S = Run R W} r >>= λ _. apply_sidekick server sidekick f)
            (record { world = w; log = deleted_pod_named (object_key sidekick) r ∷ log })).1.log
  unfolding ◌>>=◌ write ignore_not_found
  remove_after sidekick f (ok a) w log t h = ((λ _. (refl, inl refl), λ n. cc), (tt, h))
  remove_after sidekick f (err not_found) w log t h = ((λ _. (refl, inr refl), λ n. cc), (tt, h))
  remove_after sidekick f (err (failed e)) w log t h = (tt, h)
  remove_after sidekick f (err panicked) w log t h = (tt, h)

  pub terminate-Orderly :
      (sidekick : Sidekick R)
      → ends lib sidekick ≡ true
      → Orderly lib (terminate lib server sidekick)
  unfolding terminate write ◌>>=◌
  terminate-Orderly sidekick t = record {
    at = λ s h.
        let (r, w) = server.on_delete_pod_named (object_key sidekick) s.world in
        remove_after sidekick _ r w s.log t h;
  }

  pub handle_sidekick_finalizer-Orderly :
      (sidekick : Sidekick R) → Orderly lib (handle_sidekick_finalizer lib server sidekick)
  unfolding handle_sidekick_finalizer
  handle_sidekick_finalizer-Orderly sidekick = elim (Bool-cases (ends lib sidekick)) [
    | inl t ↦ rw t (terminate-Orderly sidekick t)
    | inr n ↦ rw n (Keeps-write _ _ (λ r log h. ((λ d. cc, λ _ q. refl), h)))
  ]

  pub failed_status-Orderly :
      (pod : Pod R)
      → Orderly lib (
          update_pod_status server
            (record pod { status = record (pod.status) { phase = PodPhase.failed } }))
  failed_status-Orderly pod = Keeps-write _ _ (λ r log h. (refl, h))

  pub apply_pod-Orderly : (pod : Pod R) (f : Pod R → Pod R) → Orderly lib (apply_pod server pod f)
  apply_pod-Orderly pod f = Keeps-write _ _ (λ r log h. (tt, h))

  pub fail_pod-Orderly : (found : Result (Pod R)) → Orderly lib (fail_pod server found)
  unfolding fail_pod
  fail_pod-Orderly (ok pod) = search (keeps_rules, failed_status-Orderly)
  fail_pod-Orderly (err not_found) = search keeps_rules
  fail_pod-Orderly (err (failed e)) = search keeps_rules
  fail_pod-Orderly (err panicked) = search keeps_rules

  pub remove_pod_finalizer-Orderly :
      (pod : Pod R) → Orderly lib (remove_pod_finalizer lib server pod)
  unfolding remove_pod_finalizer
  remove_pod_finalizer-Orderly pod =
      search (keeps_rules, apply_pod-Orderly, ignore_not_found-Orderly)

  pub count_external-Orderly :
      (pod : Pod R) (found : Result (Sidekick R))
      → Orderly lib (count_external lib server pod found)
  unfolding count_external
  count_external-Orderly pod (ok sk) =
      search (keeps_rules, update_sidekick_status-Orderly, ignore_not_found-Orderly)
  count_external-Orderly pod (err not_found) = search keeps_rules
  count_external-Orderly pod (err (failed e)) = search keeps_rules
  count_external-Orderly pod (err panicked) = search keeps_rules

  pub note_external_deletion-Orderly :
      (req : NamespacedName) (pod : Pod R) → Orderly lib (note_external_deletion lib server req pod)
  unfolding note_external_deletion
  note_external_deletion-Orderly req pod = search (keeps_rules, count_external-Orderly)

  pub release_pod-Orderly :
      (req : NamespacedName) (found : Result (Pod R))
      → Orderly lib (release_pod lib server req found)
  unfolding release_pod
  release_pod-Orderly req (ok pod) =
      search (keeps_rules, note_external_deletion-Orderly, remove_pod_finalizer-Orderly)
  release_pod-Orderly req (err not_found) = search keeps_rules
  release_pod-Orderly req (err (failed e)) = search keeps_rules
  release_pod-Orderly req (err panicked) = search keeps_rules

  pub calculate_sidekick_phase-Orderly :
      (sidekick : Sidekick R) → Orderly lib (calculate_sidekick_phase server sidekick)
  unfolding calculate_sidekick_phase
  calculate_sidekick_phase-Orderly sidekick = search (keeps_rules, update_sidekick_status-Orderly)

  pub update_sidekick_phase-Orderly :
      (req : NamespacedName) (sidekick : Sidekick R)
      → Orderly lib (update_sidekick_phase server req sidekick)
  unfolding update_sidekick_phase
  update_sidekick_phase-Orderly req sidekick =
      search (keeps_rules, calculate_sidekick_phase-Orderly, fail_pod-Orderly)
