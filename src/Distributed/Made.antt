-- ===== src/Distributed/Made.antt =====
-- That a round of `ReconcileDistributedSidekick` (pkg/controllers/apps/distributed.go) makes the
-- ManifestWork of a Sidekick that has none.
use mathlib.Core.Path.{ap₂}
use sidekick.Prelude.{
  String, ◌≡◌, refl, sym, ap, ◌∙◌, false, ◌==◌, Bool-cases, inl, inr, List, ◌∷◌, not_found, ok, err,
}
use sidekick.Api.Sidekick.{Sidekick, SidekickStatus}
use sidekick.Api.ManifestWork.{ManifestWork}
use sidekick.Api.Wiring.{Secret}
use sidekick.Cluster.{Run, Server, lift, get_sidekick}
use sidekick.Cluster.Leads.{
  Leads, pure-Leads, lift-Leads, read-Leads, write-Leads, then-Leads, else-Leads, bind-Leads,
  attempt-Leads, weaken-Leads, write-some,
}
use sidekick.PhaseUpdate.{object_key}
use sidekick.Reconcile.{done, annotation, with_status}
use sidekick.GrpcWiring.Secrets.{keys_in}
use sidekick.Distributed.Works.{handle_distributed_sidekick_finalizer}
use sidekick.Distributed.Status.{
  update_distributed_sidekick_status, update_distributed_sidekick_phase,
}
use sidekick.Distributed.Election.{
  manifest_work_cluster_name_label, has_role, get_distributed_leader,
}
use sidekick.Distributed.Build.{
  ensure_pod_manifest_work, manifest_work_of, with_work_label, without_owners,
}
use sidekick.Distributed.Reconciler.{
  Operator, wire_grpc, create_manifest_work, sync_or_create_mw, follow_distributed,
  on_changed_leader, on_distributed_leader, follow_elected, export_once,
  reconcile_distributed_found, reconcile_distributed_sidekick,
}
use sidekick.Distributed.Fresh.{wired-metadata, built-annotation, built-key}
use sidekick.Distributed.Store.{IsHubStore, Ready, mw_key, own_mw-Leads, all_works, elect-Leads}
use sidekick.Distributed.Course.{IsEligible, Course, labelled-key}
use sidekick.Distributed.Start.{handled-Leads, phase-Leads, wire-Leads}

module _ {R W : Type 0} (op : Operator R) (server : Server R W) (store : IsHubStore server)
    (sk : Sidekick R) (first : String) (rest : List String) (works : String → List (ManifestWork R))
    (secret : Secret) (eligible : IsEligible op sk secret) (st : SidekickStatus R)
    (course : Course op sk st
      (all_works server store sk first rest works secret st op.codec op.sort (first ∷ rest))
      secret) where
  abbrev At : SidekickStatus R → W → Type 0
  At s w = Ready server sk first rest works secret s w

  abbrev the_sidekick : SidekickStatus R → Sidekick R
  the_sidekick s = record sk { status = s }

  -- The status once the phase is decided.
  abbrev then_status : SidekickStatus R
  then_status = course.decided.status

  -- The Sidekick as the status is last written.
  abbrev pub final : Sidekick R
  final = with_status course.leader.name course.pod.status.phase (with_work_label course.wired)

  abbrev cluster : String
  cluster = course.source.namespace

  abbrev work : ManifestWork R
  work =
      manifest_work_of course.wired course.pod
        (annotation course.pod manifest_work_cluster_name_label) course.object

  in_cluster : annotation course.pod manifest_work_cluster_name_label ≡ cluster
  in_cluster =
      built-annotation op.codec op.lib (has_role sk.spec.leader.selector) course.source course.wired
        course.leader course.pod course.found course.builds

  -- The ManifestWork is in the namespace of the one in which the leader was found, under the name of the
  -- Sidekick, which has this status.
  abbrev pub IsPlaced : SidekickStatus R → W → Type 0
  IsPlaced s w =
      (made : ManifestWork R) × (made.spec ≡ work.spec)
      × ((server.on_get_mw (record { namespace = cluster; name = sk.name }) w).0 ≡ ok made)
      × ((server.on_get_sidekick (object_key sk) w).0 ≡ ok (the_sidekick s))

  wired-same : course.wired.metadata ≡ sk.metadata
  wired-same =
      wired-metadata op.lib op.crypto op.getenv (the_sidekick then_status) course.signed
        course.granted course.wired (keys_in secret.contents).0 (keys_in secret.contents).1
        course.signs course.grants course.addresses

  named : mw_key work ≡ record { namespace = cluster; name = sk.name }
  named =
      ap₂ (λ ns n. record { namespace = ns; name = n }) in_cluster
        (built-key op.lib course.wired course.leader course.pod course.builds
          ∙ ap (λ m. m.name) wired-same)

  ensure-Leads :
      Leads
        (At then_status)
        (ensure_pod_manifest_work server op.codec course.wired course.pod)
        (ok (with_work_label course.wired))
        (IsPlaced then_status)
  unfolding ensure_pod_manifest_work
  ensure-Leads = else-Leads _ _ _ course.placed (
      bind-Leads (lift (op.codec.to_unstructured (without_owners course.pod))) _ course.object _
        (lift-Leads _ _ course.encodes)
        (write-some (λ made. made.spec ≡ work.spec)
          (λ made w.
            ((server.on_get_mw (record { namespace = cluster; name = sk.name }) w).0 ≡ ok made)
            × ((server.on_get_sidekick (object_key sk) w).0 ≡ ok (the_sidekick then_status)))
          _ _ _ _
          (λ w h.
            let (made, given, spec, there, others) =
              store.makes work _ w (rw named (h.uncached cluster)) refl in
            (made, given, spec, (rw (sym named) there, others (object_key sk) ∙ h.knows)))
          (λ made spec.
            weaken-Leads _ (pure-Leads _ _ refl) (λ w (there, knows). (made, spec, there, knows)))))

  status-Leads :
      Leads
        (IsPlaced then_status)
        (update_distributed_sidekick_status server final)
        (ok (the_sidekick final.status))
        (IsPlaced final.status)
  unfolding update_distributed_sidekick_status
  status-Leads =
      let key : object_key final ≡ object_key sk =
        labelled-key course.wired
        ∙ ap (λ m. record { namespace = m.namespace; name = m.name }) wired-same in
      write-Leads _ _ _ (λ w (made, spec, there, knows).
        let (r, after, same) =
          store.patches (the_sidekick then_status) final (λ x. record x { status = final.status }) w
            knows key in
        (
          r,
          (made, spec, same.cached (record { namespace = cluster; name = sk.name }) ∙ there, after),
        ))

  create-Leads :
      Leads
        (At then_status)
        (create_manifest_work op server (the_sidekick then_status) course.leader)
        (ok done)
        (IsPlaced final.status)
  unfolding create_manifest_work
  create-Leads =
      bind-Leads (wire_grpc op server (the_sidekick then_status)) _ course.wired _
        (wire-Leads op server store sk first rest works secret eligible st course)
        (bind-Leads _ _ course.pod _ (lift-Leads _ _ course.builds) (
          bind-Leads (ensure_pod_manifest_work server op.codec course.wired course.pod) _
            (with_work_label course.wired) _ ensure-Leads
            (bind-Leads (update_distributed_sidekick_status server final) _
              (the_sidekick final.status) _ status-Leads (pure-Leads _ _ refl))))

  follow-Leads :
      Leads
        (At then_status)
        (on_distributed_leader op server
          (object_key sk)
          (the_sidekick then_status)
          (ok course.leader))
        (ok done)
        (IsPlaced final.status)
  unfolding on_distributed_leader on_changed_leader follow_distributed sync_or_create_mw
  follow-Leads =
      let looked =
        own_mw-Leads server store sk first rest works secret then_status
          (the_sidekick then_status) in
      let created : Leads (At then_status)
          (follow_distributed op server (object_key sk) (the_sidekick then_status) course.leader)
          (ok done) (IsPlaced final.status) =
        attempt-Leads _ _ (err not_found) (ok done) looked create-Leads in
      elim (Bool-cases (course.leader.name == then_status.leader.name)) [
        | inl t ↦ then-Leads _ _ _ t created
        | inr n ↦ else-Leads _ _ _ n (attempt-Leads _ _ (err not_found) (ok done) looked created)
      ]

  round-Leads :
      Leads
        (At st)
        (reconcile_distributed_sidekick op server false (object_key sk))
        (ok done)
        (IsPlaced final.status)
  unfolding reconcile_distributed_sidekick reconcile_distributed_found export_once follow_elected
  round-Leads =
      attempt-Leads (get_sidekick server (object_key sk)) _ (ok (the_sidekick st)) (ok done)
        (read-Leads _ _ (store.reads_sidekick (object_key sk)) (λ w h. h.knows))
        (bind-Leads (export_once op server false (the_sidekick st)) _ tt _ (pure-Leads tt tt refl) (
          bind-Leads (handle_distributed_sidekick_finalizer op.lib server (the_sidekick st)) _
            (the_sidekick st) _
            (handled-Leads op server store sk first rest works secret eligible st course)
            (bind-Leads
              (update_distributed_sidekick_phase server op.codec.unmarshal_counts (object_key sk)
                (the_sidekick st))
              _ (false, the_sidekick then_status) _
              (phase-Leads op server store sk first rest works secret eligible st course)
              (attempt-Leads
                (get_distributed_leader server op.codec op.sort (the_sidekick then_status)) _
                (ok course.leader) _
                (elect-Leads server store sk first rest works secret then_status op.codec op.sort
                  course.leaders course.leader eligible.unnamed course.ordered course.picked)
                follow-Leads))))

  -- Where a distributed Sidekick has no ManifestWork in any namespace of the hub, its phase without one
  -- does not end the round, the election by a selector finds a leader, in the feedback of one of the
  -- ManifestWorks, and the Sidekick, which has its finalizer and its keys and is not being deleted, can
  -- be wired and its pod built, a round that is not the first ends well: the ManifestWork with the pod
  -- is then in the namespace of the one in which the leader was found, and the status names the
  -- leader. The hub and the cluster of the operator are stores.
  pub distributed-IsPlaced :
      (run : Run R W)
      → At st run.world
      → let (outcome, after) = reconcile_distributed_sidekick op server false (object_key sk) run in
        (outcome ≡ ok done)
        × IsPlaced final.status after.world
        × (final.status.leader.name ≡ course.leader.name)
  distributed-IsPlaced run h = let (ends, there) = round-Leads.at run h in (ends, there, refl)
