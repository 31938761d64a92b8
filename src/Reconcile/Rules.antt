-- ===== src/Reconcile/Rules.antt =====
-- The order in which the reconcilers may change objects: what is required of the log.
use sidekick.Prelude.{
  Bool, ◌&&◌, false, ◌≡◌, ◌⊎◌, true, some, List, [], ◌∷◌, is_some, not_found, ok, err, is_ok,
}
use sidekick.Prelude.Maps.{get}
use sidekick.Api.Meta.{NamespacedName}
use sidekick.Api.Pod.{Pod, PodPhase}
use sidekick.Api.Sidekick.{Sidekick}
use sidekick.Api.ManifestWork.{ManifestWork}
use sidekick.Api.Library.{Library}
use sidekick.Cluster.{
  Io, Run, Event, applied_pod, updated_pod_status, deleted_pod, deleted_pod_named, applied_sidekick,
  applied_mw, deleted_mw, deleted_mw_named, skipped_mw,
}
use sidekick.Cluster.Keeps.{Keeps}
use sidekick.PhaseUpdate.{object_key}
use sidekick.PodOps.{
  deletion_initiator_key, deletion_initiates_by_sidekick_operator, get_finalizer_name,
}

module _ {R : Type 0} where
  -- The pod was returned by a change that names the operator as who deletes it.
  abbrev pub IsMark : Pod R → Event R → Type 0
  IsMark pod (applied_pod p f r) =
      (r ≡ ok pod)
      × ((q : Pod R)
          → get (f q).annotations deletion_initiator_key
            ≡ some deletion_initiates_by_sidekick_operator)
  IsMark pod _ = ⊥

  -- The same of a ManifestWork.
  abbrev pub IsWorkMark : ManifestWork R → Event R → Type 0
  IsWorkMark mw (applied_mw m f r) =
      (r ≡ ok mw)
      × ((n : ManifestWork R)
          → get (f n).annotations deletion_initiator_key
            ≡ some deletion_initiates_by_sidekick_operator)
  IsWorkMark mw _ = ⊥

  -- The pod of that name, or a ManifestWork of that name, was deleted, or was not there, or a search
  -- for the ManifestWork gave no namespace.
  abbrev pub IsRemoval : NamespacedName → Event R → Type 0
  IsRemoval key (deleted_pod_named k r) = (k ≡ key) × ((is_ok r ≡ true) ⊎ (r ≡ err not_found))
  IsRemoval key (deleted_mw_named k r) =
      (k.name ≡ key.name) × ((is_ok r ≡ true) ⊎ (r ≡ err not_found))
  IsRemoval key (skipped_mw name) = name ≡ key.name
  IsRemoval key _ = ⊥

  abbrev pub RightAfter : (Event R → Type 0) → List (Event R) → Type 0
  RightAfter P [] = ⊥
  RightAfter P (e ∷ _) = P e

  -- The Sidekick is being deleted and has the finalizer.
  abbrev pub ends : Library R → Sidekick R → Bool
  ends lib sk = is_some sk.deletion_timestamp && lib.has_finalizer sk.metadata get_finalizer_name

  -- What has to come before a change: a pod or a ManifestWork is deleted, other than by name,
  -- right after it was marked as deleted by the operator; a Sidekick that is being deleted and has
  -- the finalizer is changed right after its pod or its ManifestWork was removed, and any other,
  -- its status aside, only by adding the finalizer; and the status of a pod is only ever set to
  -- Failed.
  abbrev pub MayFollow : Library R → Event R → List (Event R) → Type 0
  MayFollow lib (deleted_pod pod r) log = RightAfter (IsMark pod) log
  MayFollow lib (deleted_mw mw r) log = RightAfter (IsWorkMark mw) log
  MayFollow lib (applied_sidekick sk f r) log =
      (ends lib sk ≡ true → RightAfter (IsRemoval (object_key sk)) log)
      × (ends lib sk ≡ false
          → (q : Sidekick R)
          → f q ≡ record q { metadata = lib.add_finalizer q.metadata get_finalizer_name })
  MayFollow lib (updated_pod_status pod r) log = pod.status.phase ≡ PodPhase.failed
  MayFollow lib _ log = Unit

  -- The log has the last change first.
  abbrev pub IsOrderly : Library R → List (Event R) → Type 0
  IsOrderly lib [] = Unit
  IsOrderly lib (e ∷ log) = MayFollow lib e log × IsOrderly lib log

abbrev pub Orderly : {R W A : Type 0} → Library R → Io (Run R W) A → Type 0
Orderly lib m = Keeps (IsOrderly lib) m
