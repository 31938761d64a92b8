-- ===== src/PodOps.antt =====
-- The operations on the sidekick's pod, and on the finalizers: pkg/controllers/apps/pod.go, and
-- `terminate`, `getFinalizerName` and `handleSidekickFinalizer` of the files beside it.
use sidekick.Prelude.{
  String, Bool, true, false, ◌&&◌, some, if◌then◌else◌, is_some, not_found, failed, panicked,
  Result, ok, err,
}
use sidekick.Prelude.Maps.{entries, insert, get}
use sidekick.Api.Meta.{NamespacedName}
use sidekick.Api.Pod.{Pod}
use sidekick.Api.Sidekick.{Sidekick}
use sidekick.Api.Library.{Library}
use sidekick.Cluster.{
  Io, Run, Server, pure, raise, attempt, ◌>>=◌, ◌>>◌, get_pod, get_sidekick, apply_pod, delete_pod,
  delete_pod_named, apply_sidekick,
}
use sidekick.PhaseUpdate.{object_key, update_sidekick_status}

abbrev pub deletion_initiator_key : String
deletion_initiator_key = "sidekick.appscode.com/deletion-initiator"

abbrev pub deletion_initiates_by_sidekick_operator : String
deletion_initiates_by_sidekick_operator = "sidekick-operator"

abbrev pub get_finalizer_name : String
get_finalizer_name = "apps.k8s.appscode.com/finalizer"

-- `client.IgnoreNotFound`, of the error of a call.
unfoldable pub ignore_not_found : {S A : Type 0} → Result A → Io S (Unit {0})
ignore_not_found (ok _) = pure tt
ignore_not_found (err not_found) = pure tt
ignore_not_found (err (failed e)) = raise (failed e)
ignore_not_found (err panicked) = raise panicked

module _ {R : Type 0} where
  -- The pod with the operator named as who deletes it.
  abbrev pub mark_deletion : Pod R → Pod R
  mark_deletion pod = record pod {
    metadata = record (pod.metadata) {
      annotations = some (
          insert deletion_initiator_key deletion_initiates_by_sidekick_operator
            (entries pod.annotations));
    };
  }

  -- The Sidekick with the pod counted as a failed one.
  abbrev pub count_failure : Pod R → Sidekick R → Sidekick R
  count_failure pod sk = record sk {
    status = record (sk.status) {
      failure_count = some (insert pod.uid true (entries sk.status.failure_count));
    };
  }

module _ {R W : Type 0} (lib : Library R) (server : Server R W) where
  abbrev pub add_pod_finalizer : Pod R → Pod R
  add_pod_finalizer pod = record pod {
    metadata = lib.add_finalizer pod.metadata get_finalizer_name;
  }

  unfoldable pub remove_pod_finalizer : Pod R → Io (Run R W) (Unit {0})
  remove_pod_finalizer pod = do
    removed ← attempt (
        apply_pod server pod
          (λ p. record p { metadata = lib.remove_finalizer p.metadata get_finalizer_name }))
    ignore_not_found removed

  unfoldable pub set_deletion_initiator_annotation : Pod R → Io (Run R W) (Pod R)
  set_deletion_initiator_annotation pod = apply_pod server pod mark_deletion

  -- `deletePod`
  unfoldable pub delete_own_pod : Pod R → Io (Run R W) (Unit {0})
  delete_own_pod pod = do marked ← set_deletion_initiator_annotation pod; delete_pod server marked

  -- What is done with the Sidekick of a pod that someone else deletes.
  unfoldable pub count_external : Pod R → Result (Sidekick R) → Io (Run R W) (Unit {0})
  count_external pod (ok sk) = if is_some sk.deletion_timestamp then pure tt else (do
    updated ← attempt (update_sidekick_status server (count_failure pod sk))
    ignore_not_found updated)
  count_external pod (err not_found) = pure tt
  count_external pod (err (failed e)) = raise (failed e)
  count_external pod (err panicked) = raise panicked

  unfoldable pub note_external_deletion : NamespacedName → Pod R → Io (Run R W) (Unit {0})
  note_external_deletion req pod =
      if is_some (get pod.annotations deletion_initiator_key)
      then pure tt
      else (do found ← attempt (get_sidekick server req); count_external pod found)

  unfoldable pub release_pod : NamespacedName → Result (Pod R) → Io (Run R W) Bool
  release_pod req (ok pod) =
      if is_some pod.deletion_timestamp
      then (do
        note_external_deletion req pod
        if lib.has_finalizer pod.metadata get_finalizer_name
            then (do remove_pod_finalizer pod; pure true)
            else pure false)
      else pure false
  release_pod req (err not_found) = pure false
  release_pod req (err (failed e)) = raise (failed e)
  release_pod req (err panicked) = raise panicked

  unfoldable pub remove_pod_finalizer_if_marked_for_deletion : NamespacedName → Io (Run R W) Bool
  remove_pod_finalizer_if_marked_for_deletion req = do
    found ← attempt (get_pod server req)
    release_pod req found

  unfoldable pub terminate : Sidekick R → Io (Run R W) (Sidekick R)
  terminate sidekick = do
    deleted ← attempt (delete_pod_named server (object_key sidekick))
    ignore_not_found deleted
    apply_sidekick server sidekick
        (λ sk. record sk { metadata = lib.remove_finalizer sk.metadata get_finalizer_name })

  -- The Sidekick that is returned is the one that the last call has stored.
  unfoldable pub handle_sidekick_finalizer : Sidekick R → Io (Run R W) (Sidekick R)
  handle_sidekick_finalizer sidekick =
      if is_some sidekick.deletion_timestamp
        && lib.has_finalizer sidekick.metadata get_finalizer_name
      then terminate sidekick
      else apply_sidekick server sidekick
          (λ sk. record sk { metadata = lib.add_finalizer sk.metadata get_finalizer_name })
