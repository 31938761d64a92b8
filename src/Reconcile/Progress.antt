-- ===== src/Reconcile/Progress.antt =====
-- That a Sidekick comes to have a pod (`Reconcile` of pkg/controllers/apps/sidekick_controller.go).
use mathlib.Core.Path.{subst}
use sidekick.Prelude.{
  String, ◌≡◌, refl, sym, ap, ◌∙◌, arith, Bool-cases, inl, inr, false, true, Bool, List, ◌∷◌,
  not_found, Result, ok, err, ◌==◌, is_some, none, if◌then◌else◌, ok-injective, ◌≢◌,
}
use sidekick.Prelude
use sidekick.Api.Meta.{NamespacedName}
use sidekick.Api.Pod.{Pod}
use sidekick.Api.Sidekick.{Sidekick, SideKickPhase}
use sidekick.Api.Library.{Library}
use sidekick.Cluster.{
  Io, Run, Server, Event, pure, attempt, ◌>>=◌, read, write, get_sidekick, get_pod, applied_pod,
  patched_sidekick_status, >>=-ok, attempt-next,
}
use sidekick.PodBuilder.{new_sidekick_pod}
use sidekick.PhaseUpdate.{
  object_key, init_maps, observe, set_phase, decide, update_sidekick_status,
  calculate_sidekick_phase, update_sidekick_phase,
}
use sidekick.Phase.{get_sidekick_phase}
use sidekick.Leader.{Sort, get_leader}
use sidekick.PodOps.{
  add_pod_finalizer, get_finalizer_name, release_pod, handle_sidekick_finalizer,
  remove_pod_finalizer_if_marked_for_deletion,
}
use sidekick.Reconcile.{
  Outcome, done, with_status, create_sidekick_pod, sync_or_create, follow, on_changed, on_leader,
  if_kept, follow_leader, reconcile_held, reconcile_here, reconcile_found, reconcile,
}

-- An API server that answers every call, knows this Sidekick and has no pod of its name.
record Serves {R W : Type 0} (server : Server R W) (sk : Sidekick R) : Type 0 where
  knows : (w : W) → (server.on_get_sidekick (object_key sk) w).0 ≡ ok sk
  no_pod : (w : W) → (server.on_get_pod (object_key sk) w).0 ≡ err not_found
  stores_sidekick :
      (s : Sidekick R) (f : Sidekick R → Sidekick R) (w : W)
      → (server.on_apply_sidekick s f w).0 ≡ ok (f s)
  stores_status :
      (s : Sidekick R) (f : Sidekick R → Sidekick R) (w : W)
      → (server.on_patch_sidekick_status s f w).0 ≡ ok (f s)
  stores_pod : (p : Pod R) (f : Pod R → Pod R) (w : W) → (server.on_apply_pod p f w).0 ≡ ok (f p)

-- The Sidekick once the finalizer is added.
abbrev held : {R : Type 0} → Library R → Sidekick R → Sidekick R
held lib sk = record sk { metadata = lib.add_finalizer sk.metadata get_finalizer_name }

module _ {R W : Type 0} (lib : Library R) (server : Server R W) (leader pod : Pod R) where
  -- The round ends with the pod stored, with its finalizer, and then the status, of the Sidekick as it
  -- is after the pod was built.
  abbrev IsCreated : Sidekick R → Result Outcome × Run R W → Type 0
  IsCreated after (outcome, run) =
      let final : Sidekick R = with_status leader.name pod.status.phase after in
      (outcome ≡ ok done)
      × (before : List (Event R)) × (run.log
          ≡ patched_sidekick_status final (λ s. record s { status = final.status }) (ok final)
            ∷ applied_pod pod (add_pod_finalizer lib server) (ok (add_pod_finalizer lib server pod))
            ∷ before)

module _ {R W : Type 0} (lib : Library R) (server : Server R W) (sort : Sort R)
    (distributed : NamespacedName → Io (Run R W) Outcome) (sk : Sidekick R)
    (serves : Serves server sk) (decided after : Sidekick R) (leader pod : Pod R)
    (built : new_sidekick_pod lib decided leader ≡ ok (pod, after)) where
  create-IsCreated :
      (run : Run R W)
      → IsCreated lib server leader pod after
          ((create_sidekick_pod lib server decided leader >>= λ _. pure done) run)
  unfolding create_sidekick_pod ◌>>=◌ write update_sidekick_status
  create-IsCreated run =
      let final : Sidekick R = with_status leader.name pod.status.phase after in
      rw
        (
          built,
          serves.stores_pod pod (add_pod_finalizer lib server) run.world,
          serves.stores_status final (λ s. record s { status = final.status }),
        )
        (refl, run.log, refl)

  follow-IsCreated :
      (run : Run R W)
      → IsCreated lib server leader pod after (follow lib server (object_key sk) decided leader run)
  unfolding follow sync_or_create read
  follow-IsCreated run =
      subst (IsCreated lib server leader pod after)
        (sym (
          attempt-next (get_pod server (object_key sk)) (sync_or_create lib server decided leader)
            run _ (serves.no_pod run.world)))
        (create-IsCreated _)

  changed-IsCreated :
      (run : Run R W)
      → IsCreated lib server leader pod after (
          (attempt (get_pod server (object_key sk))
              >>= on_changed lib server (object_key sk) decided leader)
            run)
  unfolding on_changed read
  changed-IsCreated run =
      subst (IsCreated lib server leader pod after)
        (sym (
          attempt-next (get_pod server (object_key sk))
            (on_changed lib server (object_key sk) decided leader) run _ (serves.no_pod run.world)))
        (follow-IsCreated _)

  leader-IsCreated :
      (run : Run R W)
      → IsCreated lib server leader pod after
          (on_leader lib server (object_key sk) decided (ok leader) run)
  unfolding on_leader
  leader-IsCreated run = elim (Bool-cases (leader.name == decided.status.leader.name)) [
    | inl t ↦ rw t (follow-IsCreated run)
    | inr n ↦ rw n (changed-IsCreated run)
  ]

module _ {R : Type 0} where
  decide-phase :
      (sk sk' : Sidekick R) (found : Result (Pod R)) (phase : SideKickPhase)
      → decide sk found ≡ ok (phase, sk')
      → sk'.status.phase ≡ phase
  unfolding decide
  decide-phase sk sk' found phase h =
      let ((observed, pod), _, more) =
        Prelude.>>=-eq-ok (observe (init_maps sk) found) set_phase h in
      let ((p, s), _, same) = Prelude.>>=-eq-ok (get_sidekick_phase observed pod) _ more in
      let pair = ok-injective _ _ same in ap (λ x. x.1.status.phase) (sym pair) ∙ ap (λ x. x.0) pair

module _ {R W : Type 0} (lib : Library R) (server : Server R W) (sk : Sidekick R)
    (serves : Serves server sk) (named : object_key (held lib sk) ≡ object_key sk)
    (decided : Sidekick R)
    (degraded : decide (held lib sk) (err not_found) ≡ ok (SideKickPhase.degraded, decided)) where
  calculate-degraded :
      (run : Run R W)
      → (calculate_sidekick_phase server (held lib sk) run).0 ≡ ok (SideKickPhase.degraded, decided)
  unfolding calculate_sidekick_phase ◌>>=◌ read write update_sidekick_status
  calculate-degraded run =
      rw (named, serves.no_pod run.world, degraded, serves.stores_status decided) refl

  update-degraded :
      (run : Run R W)
      → (update_sidekick_phase server (object_key sk) (held lib sk) run).0 ≡ ok (false, decided)
  unfolding update_sidekick_phase ◌>>=◌
  update-degraded run =
      rw
        (
          calculate-degraded run,
          decide-phase (held lib sk) decided (err not_found) SideKickPhase.degraded degraded,
        )
        refl

module _ {R W : Type 0} (lib : Library R) (server : Server R W) (sort : Sort R)
    (distributed : NamespacedName → Io (Run R W) Outcome) (sk : Sidekick R)
    (serves : Serves server sk) (named : object_key (held lib sk) ≡ object_key sk)
    (here : sk.spec.distributed ≡ false) (kept : is_some sk.deletion_timestamp ≡ false) where
  released-false :
      (run : Run R W)
      → (remove_pod_finalizer_if_marked_for_deletion lib server (object_key sk) run).0 ≡ ok false
  unfolding remove_pod_finalizer_if_marked_for_deletion release_pod read ◌>>=◌
  released-false run = rw (serves.no_pod run.world) refl

  handle-held : (run : Run R W) → (handle_sidekick_finalizer lib server sk run).0 ≡ ok (held lib sk)
  unfolding handle_sidekick_finalizer write
  handle-held run = rw (kept, serves.stores_sidekick sk) refl

  module _ (decided after : Sidekick R) (leader pod : Pod R)
      (degraded : decide (held lib sk) (err not_found) ≡ ok (SideKickPhase.degraded, decided))
      (elected : (run : Run R W) → (get_leader server sort decided run).0 ≡ ok leader)
      (built : new_sidekick_pod lib decided leader ≡ ok (pod, after)) where
    held-IsCreated :
        (run : Run R W)
        → IsCreated lib server leader pod after
            (reconcile_held lib server sort (object_key sk) (held lib sk) run)
    unfolding reconcile_held follow_leader
    held-IsCreated run =
        subst (IsCreated lib server leader pod after)
          (sym (
            >>=-ok (update_sidekick_phase server (object_key sk) (held lib sk))
              (if_kept lib server sort (object_key sk)) run _
              (update-degraded lib server sk serves named decided degraded run)))
          (subst (IsCreated lib server leader pod after)
            (sym (
              attempt-next (get_leader server sort decided)
                (on_leader lib server (object_key sk) decided) _ _ (elected _)))
            (leader-IsCreated lib server sort distributed sk serves decided after leader pod built
              _))

    found-IsCreated :
        (run : Run R W)
        → IsCreated lib server leader pod after
            (reconcile_found lib server sort distributed (object_key sk) (ok sk) run)
    unfolding reconcile_found reconcile_here
    found-IsCreated run =
        subst
          (λ b. IsCreated lib server leader pod after (
            (if b
                then distributed (object_key sk)
                else reconcile_here lib server sort (object_key sk) sk)
              run))
          (sym here)
          (subst (IsCreated lib server leader pod after)
            (sym (
              >>=-ok (handle_sidekick_finalizer lib server sk)
                (reconcile_held lib server sort (object_key sk)) run _ (handle-held run)))
            (held-IsCreated _))

    -- As long as the API server answers every call, knows a Sidekick and has no pod of its name, a
    -- reconciliation creates the pod and then writes the status, and needs no other round: where the
    -- Sidekick is not distributed and is not being deleted, the finalizer leaves its name as it is, its
    -- phase without a pod is decided to be Degraded, the election finds a leader, and a pod can be
    -- built for it.
    reconcile-IsCreated :
        (run : Run R W)
        → IsCreated lib server leader pod after
            (reconcile lib server sort distributed (object_key sk) run)
    unfolding reconcile read
    reconcile-IsCreated run =
        subst (IsCreated lib server leader pod after)
          (sym (
            >>=-ok (remove_pod_finalizer_if_marked_for_deletion lib server (object_key sk)) _ run _
              (released-false run)))
          (subst (IsCreated lib server leader pod after)
            (sym (
              attempt-next (get_sidekick server (object_key sk))
                (reconcile_found lib server sort distributed (object_key sk)) _ _ (serves.knows _)))
            (found-IsCreated _))
