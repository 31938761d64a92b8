-- ===== src/Reconcile/Created.antt =====
-- That a round of `Reconcile` (pkg/controllers/apps/sidekick_controller.go) for a Sidekick without a pod
-- creates one that is up to date.
use mathlib.Core.Path.{ap₂}
use sidekick.Prelude.{
  String, ◌≡◌, refl, sym, ◌∙◌, true, false, ◌==◌, is_ok, Bool-cases, inl, inr, arith, not_found, ok,
  err, Result-cases,
}
use sidekick.Api.Meta.{NamespacedName, ObjectMeta}
use sidekick.Api.Pod.{Pod}
use sidekick.Api.Sidekick.{
  Sidekick, SidekickStatus, SideKickPhase, phase_is_failed, phase_is_succeeded,
}
use sidekick.Api.Library.{Library}
use sidekick.Cluster.{Io, Run, Server, lift}
use sidekick.Cluster.Leads.{
  Leads, pure-Leads, lift-Leads, then-Leads, else-Leads, bind-Leads, attempt-Leads, weaken-Leads,
  write-some,
}
use sidekick.PodBuilder.{new_sidekick_pod}
use sidekick.PodBuilder.Built.{new_sidekick_pod-ok}
use sidekick.PhaseUpdate.Always.{decided_podless-GoesOn}
use sidekick.PhaseUpdate.{decide, object_key, update_sidekick_status}
use sidekick.PodOps.{add_pod_finalizer, get_finalizer_name}
use sidekick.Leader.{Sort}
use sidekick.Reconcile.{
  Outcome, done, with_status, create_sidekick_pod, sync_or_create, follow, on_changed, on_leader,
  reconcile,
}
use sidekick.Reconcile.Fresh.{built_from, hash_annotation, leader_annotation}
use sidekick.Reconcile.Store.{IsStore, Admits, pod_key, chosen-Adds}
use sidekick.Reconcile.Round.{IsSteady, Stands, get_pod-Leads, status-Leads, round-Leads}
use sidekick.Reconcile.Kept.{IsUpToDate}

-- A finalizer is added to the finalizers only.
pub record AddsFinalizer {R : Type 0} (lib : Library R) : Type 0 where
  pub name : (m : ObjectMeta R) (f : String) → (lib.add_finalizer m f).name ≡ m.name
  pub namespace : (m : ObjectMeta R) (f : String) → (lib.add_finalizer m f).namespace ≡ m.namespace
  pub annotations :
      (m : ObjectMeta R) (f : String) → (lib.add_finalizer m f).annotations ≡ m.annotations

module _ {R W : Type 0} (lib : Library R) (adds : AddsFinalizer lib) (server : Server R W)
    (store : IsStore server) (sort : Sort R) (sk : Sidekick R) (steady : IsSteady lib sk)
    (leader : Pod R) (mounts : is_ok (new_sidekick_pod lib sk leader) ≡ true) where
  abbrev the_sidekick : SidekickStatus R → Sidekick R
  the_sidekick st = record sk { status = st }

  built-keys :
      (s owner : Sidekick R) (pod : Pod R)
      → new_sidekick_pod lib s leader ≡ ok (pod, owner)
      → (object_key owner ≡ object_key s) × (pod_key pod ≡ object_key s)
  unfolding new_sidekick_pod
  built-keys s owner pod h = ground arith

  -- Whether a pod can be built does not depend on the status.
  builds :
      (st : SidekickStatus R)
      → (pod : Pod R) × (owner : Sidekick R) × (new_sidekick_pod lib (the_sidekick st) leader
          ≡ ok (pod, owner))
  builds st = elim (Result-cases (new_sidekick_pod lib (the_sidekick st) leader)) [
    | inl ((pod, owner), e) ↦ (pod, owner, e)
    | inr (x, e) ↦ absurd (
        let a = new_sidekick_pod-ok lib sk leader in
        let b = new_sidekick_pod-ok lib (the_sidekick st) leader in cc)
  ]

  made-IsUpToDate :
      (st : SidekickStatus R) (pod made : Pod R) (owner : Sidekick R)
      → new_sidekick_pod lib (the_sidekick st) leader ≡ ok (pod, owner)
      → Admits (add_pod_finalizer lib server pod) made
      → IsUpToDate lib sk leader.name leader.spec.node_name made
  made-IsUpToDate st pod made owner e admits =
      let (annotations, node) = built_from lib (the_sidekick st) leader pod owner e in
      let noted =
        admits.annotations ∙ adds.annotations pod.metadata get_finalizer_name ∙ annotations in
      record {
        lives = admits.lives;
        hash = rw noted (hash_annotation lib (the_sidekick st) leader);
        leader = rw noted (leader_annotation lib (the_sidekick st) leader);
        node_name = admits.node_name ∙ node;
      }

  abbrev Waits : SidekickStatus R → W → Type 0
  Waits st w = Stands server sort sk (err not_found) leader st w

  -- There is a pod that is up to date, and the status names its leader.
  abbrev pub IsMade : W → Type 0
  IsMade w =
      (made : Pod R) × (st : SidekickStatus R) × IsUpToDate lib sk leader.name leader.spec.node_name
        made
      × (st.leader.name ≡ leader.name)
      × Stands server sort sk (ok made) leader st w

  create-Leads :
      (st : SidekickStatus R)
      → Leads (Waits st) (create_sidekick_pod lib server (the_sidekick st) leader) (ok tt) IsMade
  unfolding create_sidekick_pod
  create-Leads st =
      let (pod, owner, e) = builds st in
      let (owner_key, key) = built-keys (the_sidekick st) owner pod e in
      bind-Leads (lift (new_sidekick_pod lib (the_sidekick st) leader)) _ (pod, owner) (ok tt)
        (lift-Leads _ _ e)
        (write-some (Admits (add_pod_finalizer lib server pod))
          (λ made. Stands server sort sk (ok made) leader st) _ _ _ (ok tt)
          (λ w h.
            let (made, given, admits, there, more) =
              store.creates pod (add_pod_finalizer lib server) w (rw key h.answers) (
                ap₂ (λ a b. record { namespace = a; name = b })
                  (adds.namespace pod.metadata get_finalizer_name)
                  (adds.name pod.metadata get_finalizer_name)) in
            (
              made,
              given,
              admits,
              record {
                knows = more.sidekicks (object_key sk) ∙ h.knows;
                answers = rw (sym key) there;
                elects = chosen-Adds server sort sk leader w _ more h.elects;
              },
            ))
          (λ made admits.
            let final : Sidekick R = with_status leader.name made.status.phase owner in
            bind-Leads (update_sidekick_status server final) _ (record sk { status = final.status })
              (ok tt) (status-Leads server sort sk (ok made) leader store st final owner_key)
              (weaken-Leads _ (pure-Leads tt tt refl) (λ w there.
                (made, final.status, made-IsUpToDate st pod made owner e admits, refl, there)))))

  -- What is done once the leader is known.
  lead-Leads :
      (st : SidekickStatus R)
      → Leads
          (Waits st)
          (on_leader lib server (object_key sk) (the_sidekick st) (ok leader))
          (ok done)
          IsMade
  unfolding on_leader on_changed follow sync_or_create
  lead-Leads st =
      let looked = get_pod-Leads server sort sk (err not_found) leader store st in
      let created : Leads (Waits st) (follow lib server (object_key sk) (the_sidekick st) leader)
          (ok done) IsMade =
        attempt-Leads _ _ (err not_found) (ok done) looked (
          bind-Leads (create_sidekick_pod lib server (the_sidekick st) leader) _ tt (ok done)
            (create-Leads st) (pure-Leads done done refl)) in
      elim (Bool-cases (leader.name == st.leader.name)) [
        | inl t ↦ then-Leads _ _ _ t created
        | inr n ↦ else-Leads _ _ _ n (attempt-Leads _ _ (err not_found) (ok done) looked created)
      ]

  -- Where a Sidekick has no pod, the phase decided without one is neither Failed nor Succeeded, the
  -- election finds a leader, and a pod can be built for it, one round ends well and leaves a pod that
  -- is up to date, whose leader the status names. The Sidekick has its finalizer, is not distributed
  -- and is not being deleted, and the API server is a store.
  pub reconcile-IsMade :
      (distributed : NamespacedName → Io (Run R W) Outcome) (st : SidekickStatus R)
      (phase : SideKickPhase) (decided : Sidekick R) (run : Run R W)
      → decide (the_sidekick st) (err not_found) ≡ ok (phase, decided)
      → phase_is_failed phase ≡ false
      → phase_is_succeeded decided.status.phase ≡ false
      → Waits st run.world
      → let (outcome, after) = reconcile lib server sort distributed (object_key sk) run in
        (outcome ≡ ok done) × IsMade after.world
  reconcile-IsMade distributed st phase decided run e unfailed unfinished waits =
      let goes = decided_podless-GoesOn (the_sidekick st) phase decided e unfailed unfinished in
      (round-Leads server sort sk (err not_found) leader store lib steady tt distributed st phase
          decided e goes IsMade (lead-Leads decided.status)).at
        run waits
