-- ===== src/Reconcile/Kept.antt =====
-- That a round of `Reconcile` (pkg/controllers/apps/sidekick_controller.go) keeps a pod that is up to
-- date, whatever the status of the pod.
use text.Mathlib.TextPositions.{eq_refl}
use sidekick.Prelude.{
  String, ◌≡◌, refl, ap, ◌∙◌, true, false, Bool, ◌&&◌, ◌==◌, is_some, arith, inl, Result, ok,
}
use sidekick.Api.Meta.{NamespacedName}
use sidekick.Api.Pod.{Pod, PodStatus, RestartPolicy, is_always, is_never, is_failed}
use sidekick.Api.Sidekick.{Sidekick, SidekickStatus}
use sidekick.Api.Library.{Library}
use sidekick.Cluster.{Io, Run, Server}
use sidekick.Cluster.Leads.{Leads, pure-Leads, then-Leads, else-Leads, bind-Leads, attempt-Leads}
use sidekick.PodBuilder.{key_hash, key_leader}
use sidekick.PhaseUpdate.Always.{decide-GoesOn}
use sidekick.PhaseUpdate.{object_key, update_sidekick_status}
use sidekick.Leader.{Sort}
use sidekick.Reconcile.{
  Outcome, done, annotation, pod_needs_recreate, with_status, sync_existing_pod, sync_or_create,
  follow, on_leader, reconcile,
}
use sidekick.Reconcile.Store.{IsStore}
use sidekick.Reconcile.Round.{IsSteady, Stands, get_pod-Leads, status-Leads, round-Leads}

-- The pod is not being deleted, and was built from this Sidekick for a leader of this name on this
-- node. Its status does not matter.
pub record IsUpToDate {R : Type 0} (lib : Library R) (sk : Sidekick R) (name node : String)
    (pod : Pod R) : Type 0 where
  pub lives : is_some pod.deletion_timestamp ≡ false
  pub hash : annotation pod key_hash ≡ lib.generation_hash sk.metadata
  pub leader : annotation pod key_leader ≡ name
  pub node_name : pod.spec.node_name ≡ node

and_false : (b : Bool) → (b && false) ≡ false
and_false b = ground arith

never_of_always : (policy : RestartPolicy) → is_always policy ≡ true → is_never policy ≡ false
never_of_always policy h = ground arith

module _ {R : Type 0} (lib : Library R) (sk : Sidekick R) (steady : IsSteady lib sk)
    (always : is_always sk.spec.restart_policy ≡ true) (name node : String) (pod : Pod R)
    (current : IsUpToDate lib sk name node pod) (leader : Pod R) (named : leader.name ≡ name)
    (placed : leader.spec.node_name ≡ node) where
  recreate-false :
      (st : SidekickStatus R) (ps : PodStatus R)
      → pod_needs_recreate lib (record sk { status = st }) leader (record pod { status = ps })
        ≡ false
  unfolding pod_needs_recreate
  recreate-false st ps =
      let never = never_of_always sk.spec.restart_policy always in
      simp (current.hash, current.leader, current.node_name, named, placed, never, eq_refl)
        (and_false (is_failed ps.phase))

  module _ {W : Type 0} (server : Server R W) (store : IsStore server) (sort : Sort R)
      (ps : PodStatus R) where
    abbrev the_pod : Pod R
    the_pod = record pod { status = ps }

    abbrev At : SidekickStatus R → W → Type 0
    At st w = Stands server sort sk (ok the_pod) leader st w

    -- The status after a round.
    abbrev synced : SidekickStatus R → Sidekick R
    synced st = with_status st.leader.name ps.phase (record sk { status = st })

    sync-Leads :
        (st : SidekickStatus R)
        → Leads
            (At st)
            (sync_or_create lib server (record sk { status = st }) leader (ok the_pod))
            (ok done)
            (At (synced st).status)
    unfolding sync_or_create sync_existing_pod
    sync-Leads st =
        bind-Leads (sync_existing_pod lib server (record sk { status = st }) leader the_pod) _ tt
          (ok done)
          (else-Leads _ _ _ (recreate-false st ps) (
            bind-Leads (update_sidekick_status server (synced st)) _ (synced st) (ok tt)
              (status-Leads server sort sk (ok the_pod) leader store st (synced st) refl)
              (pure-Leads tt tt refl)))
          (pure-Leads done done refl)

    follow-Leads :
        (st : SidekickStatus R)
        → st.leader.name ≡ leader.name
        → Leads
            (At st)
            (on_leader lib server (object_key sk) (record sk { status = st }) (ok leader))
            (ok done)
            (At (synced st).status)
    unfolding on_leader follow
    follow-Leads st follows =
        let same : (leader.name == st.leader.name) ≡ true = simp (follows, eq_refl) in
        then-Leads _ _ _ same (
          attempt-Leads _ _ (ok the_pod) (ok done)
            (get_pod-Leads server sort sk (ok the_pod) leader store st) (sync-Leads st))

    -- A round leaves the Sidekick and its pod as they are, but for the status of the Sidekick, which
    -- names the same leader.
    pub kept-Leads :
        (distributed : NamespacedName → Io (Run R W) Outcome) (st : SidekickStatus R)
        → st.leader.name ≡ leader.name
        → (st' : SidekickStatus R) × (st'.leader.name ≡ leader.name)
          × Leads (At st) (reconcile lib server sort distributed (object_key sk)) (ok done) (At st')
    kept-Leads distributed st follows =
        let found : Result (Pod R) = ok the_pod in
        let (phase, s, e, goes) =
          decide-GoesOn (record sk { status = st }) found always (inl refl) in
        let (_, _, same, _) = goes in
        let follows' : s.status.leader.name ≡ leader.name = ap (λ l. l.name) same ∙ follows in
        (
          (synced s.status).status,
          follows',
          round-Leads server sort sk found leader store lib steady current.lives distributed st
              phase s e goes _ (follow-Leads s.status follows'),
        )
