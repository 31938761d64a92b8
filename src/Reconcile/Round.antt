-- ===== src/Reconcile/Round.antt =====
-- A round of `Reconcile` (pkg/controllers/apps/sidekick_controller.go) up to the election, in a cluster where no one else is at work.
use sidekick.Prelude.{
  ◌≡◌, refl, ap, ◌∙◌, false, Bool, ◌&&◌, is_some, arith, not_found, failed, panicked, Result, ok,
  err,
}
use sidekick.Api.Meta.{NamespacedName}
use sidekick.Api.Pod.{Pod}
use sidekick.Api.Sidekick.{Sidekick, SidekickStatus, SideKickPhase}
use sidekick.Api.Library.{Library}
use sidekick.Cluster.{Io, Run, Server, lift, get_pod, get_sidekick}
use sidekick.Cluster.Leads.{
  Leads, pure-Leads, lift-Leads, read-Leads, write-Leads, else-Leads, bind-Leads, attempt-Leads,
}
use sidekick.PhaseUpdate.{
  object_key, update_sidekick_status, decide, calculate_sidekick_phase, update_sidekick_phase,
}
use sidekick.PhaseUpdate.Always.{GoesOn}
use sidekick.PodOps.{
  get_finalizer_name, release_pod, handle_sidekick_finalizer,
  remove_pod_finalizer_if_marked_for_deletion,
}
use sidekick.Leader.{Sort, get_leader}
use sidekick.Reconcile.{
  Outcome, done, on_leader, follow_leader, reconcile_held, reconcile_here, reconcile_found,
  reconcile,
}
use sidekick.Reconcile.Store.{SamePods, IsStore, chosen, chosen-same, get_leader-Leads}

and_first : (a b : Bool) → a ≡ false → (a && b) ≡ false
and_first a b h = ground arith

-- The Sidekick is in this cluster, has its finalizer and is not being deleted.
pub record IsSteady {R : Type 0} (lib : Library R) (sk : Sidekick R) : Type 0 where
  pub here : sk.spec.distributed ≡ false
  pub lives : is_some sk.deletion_timestamp ≡ false
  pub held : lib.add_finalizer sk.metadata get_finalizer_name ≡ sk.metadata

-- There is a pod that is not being deleted, or none.
abbrev pub IsLive : {R : Type 0} → Result (Pod R) → Type 0
IsLive (ok pod) = is_some pod.deletion_timestamp ≡ false
IsLive (err not_found) = Unit
IsLive (err (failed e)) = ⊥
IsLive (err panicked) = ⊥

module _ {R W : Type 0} (server : Server R W) (sort : Sort R) (sk : Sidekick R)
    (found : Result (Pod R)) (leader : Pod R) where
  -- In this world the Sidekick is stored with this status, the lookup of its pod has this outcome, and
  -- the election finds the leader.
  pub record Stands (st : SidekickStatus R) (w : W) : Type 0 where
    pub knows : (server.on_get_sidekick (object_key sk) w).0 ≡ ok (record sk { status = st })
    pub answers : (server.on_get_pod (object_key sk) w).0 ≡ found
    pub elects : chosen server sort sk w ≡ ok leader

  Stands-moved :
      {st st' : SidekickStatus R} {w w' : W}
      → Stands st w
      → SamePods server w w'
      → (server.on_get_sidekick (object_key sk) w').0 ≡ ok (record sk { status = st' })
      → Stands st' w'
  Stands-moved {w} {w'} h same knows = record {
    knows = knows;
    answers = same.gets (object_key sk) ∙ h.answers;
    elects = chosen-same server sort sk w w' same ∙ h.elects;
  }

  module _ (store : IsStore server) where
    pub get_pod-Leads :
        (st : SidekickStatus R)
        → Leads (Stands st) (get_pod server (object_key sk)) found (Stands st)
    get_pod-Leads st = read-Leads _ found (store.reads_pod (object_key sk)) (λ w h. h.answers)

    pub status-Leads :
        (st : SidekickStatus R) (s : Sidekick R)
        → object_key s ≡ object_key sk
        → Leads
            (Stands st)
            (update_sidekick_status server s)
            (ok (record sk { status = s.status }))
            (Stands s.status)
    unfolding update_sidekick_status
    status-Leads st s k = write-Leads _ _ _ (λ w h.
        let (r, knows, same) =
          store.patches (record sk { status = st }) s (λ x. record x { status = s.status }) w
            h.knows k in
        (r, Stands-moved h same knows))

    module _ (lib : Library R) (steady : IsSteady lib sk) (live : IsLive found) where
      abbrev the_sidekick : SidekickStatus R → Sidekick R
      the_sidekick st = record sk { status = st }

      release-Leads :
          (P : W → Type 0) (q : Result (Pod R))
          → IsLive q
          → Leads P (release_pod lib server (object_key sk) q) (ok false) P
      unfolding release_pod
      release-Leads P (ok pod) h = else-Leads _ _ _ h (pure-Leads false false refl)
      release-Leads P (err not_found) h = pure-Leads false false refl
      release-Leads P (err (failed e)) h = absurd h
      release-Leads P (err panicked) h = absurd h

      held-same :
          (st : SidekickStatus R)
          → record (the_sidekick st) { metadata = lib.add_finalizer sk.metadata get_finalizer_name }
            ≡ the_sidekick st
      held-same st = ap (λ m. record (the_sidekick st) { metadata = m }) steady.held

      handled-Leads :
          (st : SidekickStatus R)
          → Leads
              (Stands st)
              (handle_sidekick_finalizer lib server (the_sidekick st))
              (ok (the_sidekick st))
              (Stands st)
      unfolding handle_sidekick_finalizer
      handled-Leads st =
          else-Leads _ _ _ (and_first (is_some sk.deletion_timestamp) _ steady.lives) (
            write-Leads _ _ _ (λ w h.
              let (r, knows, same) = store.applies (the_sidekick st) _ w h.knows (held-same st) in
              (r, Stands-moved h same knows)))

      phase-Leads :
          (st : SidekickStatus R) (phase : SideKickPhase) (s : Sidekick R)
          → decide (the_sidekick st) found ≡ ok (phase, s)
          → GoesOn (the_sidekick st) phase s
          → Leads
              (Stands st)
              (update_sidekick_phase server (object_key sk) (the_sidekick st))
              (ok (false, the_sidekick s.status))
              (Stands s.status)
      unfolding update_sidekick_phase calculate_sidekick_phase
      phase-Leads st phase s e (f, g, l, m) =
          let key : object_key s ≡ object_key sk =
            ap (λ x. record { namespace = x.namespace; name = x.name }) m in
          bind-Leads (calculate_sidekick_phase server (the_sidekick st)) _
            (phase, the_sidekick s.status) _
            (attempt-Leads _ _ found _ (get_pod-Leads st) (
              bind-Leads (lift (decide (the_sidekick st) found)) _ (phase, s) _ (lift-Leads _ _ e)
                (bind-Leads (update_sidekick_status server s) _ (the_sidekick s.status) _
                  (status-Leads st s key) (pure-Leads _ _ refl))))
            (else-Leads _ _ _ f (pure-Leads _ _ (ap (λ b. (b, the_sidekick s.status)) g)))

      -- What is left of a round, where a phase is decided that does not end it, is to follow the leader,
      -- with a status that names the same leader as before.
      pub round-Leads :
          (distributed : NamespacedName → Io (Run R W) Outcome) (st : SidekickStatus R)
          (phase : SideKickPhase) (s : Sidekick R)
          → decide (record sk { status = st }) found ≡ ok (phase, s)
          → GoesOn (record sk { status = st }) phase s
          → (Q : W → Type 0)
          → Leads
              (Stands s.status)
              (on_leader lib server (object_key sk) (record sk { status = s.status }) (ok leader))
              (ok done)
              Q
          → Leads (Stands st) (reconcile lib server sort distributed (object_key sk)) (ok done) Q
      unfolding reconcile reconcile_found reconcile_here reconcile_held follow_leader
          remove_pod_finalizer_if_marked_for_deletion
      round-Leads distributed st phase s e goes Q rest =
          bind-Leads (remove_pod_finalizer_if_marked_for_deletion lib server (object_key sk)) _
            false (ok done)
            (attempt-Leads _ _ found _ (get_pod-Leads st) (release-Leads (Stands st) found live))
            (attempt-Leads (get_sidekick server (object_key sk)) _ (ok (the_sidekick st)) (ok done)
              (read-Leads _ _ (store.reads_sidekick (object_key sk)) (λ w h. h.knows))
              (else-Leads _ _ _ steady.here (
                bind-Leads (handle_sidekick_finalizer lib server (the_sidekick st)) _
                  (the_sidekick st) (ok done) (handled-Leads st)
                  (bind-Leads (update_sidekick_phase server (object_key sk) (the_sidekick st)) _
                    (false, the_sidekick s.status) (ok done) (phase-Leads st phase s e goes)
                    (attempt-Leads (get_leader server sort (the_sidekick s.status)) _ (ok leader)
                      (ok done)
                      (get_leader-Leads server sort store (Stands s.status) (the_sidekick s.status)
                        leader (λ w h. h.elects))
                      rest)))))
