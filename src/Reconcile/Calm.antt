-- ===== src/Reconcile/Calm.antt =====
-- That a reconciliation in one cluster does not panic (`Reconcile` of
-- pkg/controllers/apps/sidekick_controller.go and what it calls in pod.go and sidekick.go).
pub mod Steps
use sidekick.Prelude.{
  String, ◌≡◌, ◌≢◌, sym, ◌∙◌, ap, Bool, true, false, ◌&&◌, ◌||◌, not, ◌==◌, Option, List, [], ◌∷◌,
  is_some, arith, not_found, failed, panicked, Result, ok, err, >>=-eq-ok, if◌then◌else◌, inl, inr,
  Bool-cases, Result-cases, is_ok,
}
use sidekick.Prelude
use sidekick.Prelude.Maps.{put, entries, get}
use sidekick.Api.Meta.{NamespacedName}
use sidekick.Api.Pod.{Pod}
use sidekick.Api.Sidekick.{Sidekick, SideKickPhase, LabelSelector}
use sidekick.Api.Library.{Library}
use sidekick.Cluster.{
  Io, Run, Server, pure, raise, lift, attempt, ◌>>=◌, get_pod, apply_pod, delete_pod,
  delete_pod_named, get_sidekick, apply_sidekick, update_pod_status, list_pods, read, write,
}
use sidekick.Cluster.Yields.{
  weaken, IsFine, IsCalm, Anything, Yields, Calm, lift-Yields, read-Yields, write-Yields,
  bind-Yields, attempt-Yields, calm_rules, if-Calm,
}
use sidekick.PhaseUpdate.{
  object_key, init_maps, set_failure, forgive, observe_pod, observe, set_phase, decide,
  update_sidekick_status, calculate_sidekick_phase, fail_pod, update_sidekick_phase,
}
use sidekick.PhaseUpdate.Failures.{HasFailures, decide-IsFine}
use sidekick.PodOps.{
  mark_deletion, deletion_initiator_key, get_finalizer_name, ignore_not_found,
  set_deletion_initiator_annotation, delete_own_pod, remove_pod_finalizer, count_external,
  count_failure, note_external_deletion, release_pod, terminate, handle_sidekick_finalizer,
  remove_pod_finalizer_if_marked_for_deletion,
}

-- An API server whose calls may fail, but do not panic, and that gives back a status with the map of
-- the failures if it was written with one.
pub record IsServing {R W : Type 0} (server : Server R W) : Type 0 where
  pub pods : (key : NamespacedName) (w : W) → IsCalm (server.on_get_pod key w).0
  pub sidekicks : (key : NamespacedName) (w : W) → IsCalm (server.on_get_sidekick key w).0
  pub lists :
      (ns : String) (sel : Option (LabelSelector R)) (w : W)
      → IsCalm (server.on_list_pods ns sel w).0
  pub applies : (p : Pod R) (f : Pod R → Pod R) (w : W) → IsCalm (server.on_apply_pod p f w).0
  pub updates : (p : Pod R) (w : W) → IsCalm (server.on_update_pod_status p w).0
  pub deletes : (p : Pod R) (w : W) → IsCalm (server.on_delete_pod p w).0
  pub deletes_named : (key : NamespacedName) (w : W) → IsCalm (server.on_delete_pod_named key w).0
  pub applies_sidekick :
      (s : Sidekick R) (f : Sidekick R → Sidekick R) (w : W)
      → IsCalm (server.on_apply_sidekick s f w).0
  pub patches :
      (s : Sidekick R) (f : Sidekick R → Sidekick R) (w : W)
      → IsFine
          (λ stored. HasFailures (f s) → HasFailures stored)
          (server.on_patch_sidekick_status s f w).0

pub ignore_not_found-Calm :
    {S A : Type 0} (r : Result A) → IsCalm r → Calm (ignore_not_found {S = S} r)
unfolding ignore_not_found
ignore_not_found-Calm (ok a) h = search calm_rules
ignore_not_found-Calm (err not_found) h = search calm_rules
ignore_not_found-Calm (err (failed e)) h = search calm_rules
ignore_not_found-Calm (err panicked) h = absurd h

module _ {R W : Type 0} (lib : Library R) (server : Server R W) (serving : IsServing server) where
  pub get_pod-Calm : (key : NamespacedName) → Calm (get_pod server key)
  get_pod-Calm key = read-Yields Anything _ (serving.pods key)

  pub get_sidekick-Calm : (key : NamespacedName) → Calm (get_sidekick server key)
  get_sidekick-Calm key = read-Yields Anything _ (serving.sidekicks key)

  pub list_pods-Calm :
      (ns : String) (sel : Option (LabelSelector R)) → Calm (list_pods server ns sel)
  list_pods-Calm ns sel = read-Yields Anything _ (serving.lists ns sel)

  pub apply_pod-Calm : (p : Pod R) (f : Pod R → Pod R) → Calm (apply_pod server p f)
  apply_pod-Calm p f = write-Yields Anything _ _ (serving.applies p f)

  update_pod_status-Calm : (p : Pod R) → Calm (update_pod_status server p)
  update_pod_status-Calm p = write-Yields Anything _ _ (serving.updates p)

  delete_pod-Calm : (p : Pod R) → Calm (delete_pod server p)
  delete_pod-Calm p = write-Yields Anything _ _ (serving.deletes p)

  delete_pod_named-Calm : (key : NamespacedName) → Calm (delete_pod_named server key)
  delete_pod_named-Calm key = write-Yields Anything _ _ (serving.deletes_named key)

  pub apply_sidekick-Calm :
      (s : Sidekick R) (f : Sidekick R → Sidekick R) → Calm (apply_sidekick server s f)
  apply_sidekick-Calm s f = write-Yields Anything _ _ (serving.applies_sidekick s f)

  pub status-Yields :
      (sk : Sidekick R) → HasFailures sk → Yields HasFailures (update_sidekick_status server sk)
  unfolding update_sidekick_status
  status-Yields sk h =
      write-Yields HasFailures _ _
        (λ w. weaken _ HasFailures _ (serving.patches sk _ w) (λ stored back. back h))

  pub status-Calm : (sk : Sidekick R) → Calm (update_sidekick_status server sk)
  unfolding update_sidekick_status
  status-Calm sk =
      write-Yields Anything _ _
        (λ w. weaken _ Anything _ (serving.patches sk _ w) (λ stored back. tt))

  pub delete_own_pod-Calm : (pod : Pod R) → Calm (delete_own_pod lib server pod)
  unfolding delete_own_pod set_deletion_initiator_annotation
  delete_own_pod-Calm pod = search (calm_rules, apply_pod-Calm, delete_pod-Calm)

  remove_pod_finalizer-Calm : (pod : Pod R) → Calm (remove_pod_finalizer lib server pod)
  unfolding remove_pod_finalizer
  remove_pod_finalizer-Calm pod = search (calm_rules, apply_pod-Calm, ignore_not_found-Calm)

  count_external-Calm :
      (pod : Pod R) (found : Result (Sidekick R))
      → IsCalm found
      → Calm (count_external lib server pod found)
  unfolding count_external
  count_external-Calm pod (ok sk) h = search (calm_rules, status-Calm, ignore_not_found-Calm)
  count_external-Calm pod (err not_found) h = search calm_rules
  count_external-Calm pod (err (failed e)) h = search calm_rules
  count_external-Calm pod (err panicked) h = absurd h

  note_external_deletion-Calm :
      (req : NamespacedName) (pod : Pod R) → Calm (note_external_deletion lib server req pod)
  unfolding note_external_deletion
  note_external_deletion-Calm req pod = search (calm_rules, get_sidekick-Calm, count_external-Calm)

  release_pod-Calm :
      (req : NamespacedName) (found : Result (Pod R))
      → IsCalm found
      → Calm (release_pod lib server req found)
  unfolding release_pod
  release_pod-Calm req (ok pod) h =
      search (calm_rules, note_external_deletion-Calm, remove_pod_finalizer-Calm)
  release_pod-Calm req (err not_found) h = search calm_rules
  release_pod-Calm req (err (failed e)) h = search calm_rules
  release_pod-Calm req (err panicked) h = absurd h

  pub remove_pod_finalizer_if_marked_for_deletion-Calm :
      (req : NamespacedName) → Calm (remove_pod_finalizer_if_marked_for_deletion lib server req)
  unfolding remove_pod_finalizer_if_marked_for_deletion
  remove_pod_finalizer_if_marked_for_deletion-Calm req =
      search (calm_rules, get_pod-Calm, release_pod-Calm)

  terminate-Calm : (sk : Sidekick R) → Calm (terminate lib server sk)
  unfolding terminate
  terminate-Calm sk =
      search (calm_rules, delete_pod_named-Calm, ignore_not_found-Calm, apply_sidekick-Calm)

  pub handle_sidekick_finalizer-Calm :
      (sk : Sidekick R) → Calm (handle_sidekick_finalizer lib server sk)
  unfolding handle_sidekick_finalizer
  handle_sidekick_finalizer-Calm sk = search (calm_rules, terminate-Calm, apply_sidekick-Calm)

  pub fail_pod-Calm : (found : Result (Pod R)) → IsCalm found → Calm (fail_pod server found)
  unfolding fail_pod
  fail_pod-Calm (ok pod) h = search (calm_rules, update_pod_status-Calm)
  fail_pod-Calm (err not_found) h = search calm_rules
  fail_pod-Calm (err (failed e)) h = search calm_rules
  fail_pod-Calm (err panicked) h = absurd h
