-- ===== src/Distributed/Fresh.antt =====
-- The pod that is built for a distributed Sidekick is not recreated as long as nothing has changed, and
-- it is sent to the cluster of its leader (`ReconcileDistributedSidekick`, `findDistributedLeader` and
-- `ensurePodManifestWork` of pkg/controllers/apps/distributed.go).
use sidekick.Prelude.{
  String, ◌≡◌, ◌∙◌, ap, sym, Bool, ◌&&◌, Option, List, [], ◌∷◌, some, none, arith, eq_refl, ok,
  >>=-eq-ok, ok-injective,
}
use sidekick.Prelude.Maps.{get, entries, lookup-insert, lookup-copy_into}
use sidekick.Api.Pod.{Pod, is_never}
use sidekick.Api.Sidekick.{Sidekick}
use sidekick.Api.ManifestWork.{ManifestWork, Codec, FeedbackValue}
use sidekick.Api.Library.{Library}
use sidekick.Token.{Crypto}
use sidekick.PodBuilder.{key_hash, key_leader, conv_containers, conv_init_containers}
use sidekick.Reconcile.{annotation}
use sidekick.GrpcWiring.{
  get_sidekick_container, found_or_error, grpc_slice_address, set_signing_key, set_snapshot_grant,
  set_grpc_address,
}
use sidekick.Distributed.Election.{
  manifest_work_cluster_name_label, leader_of, leader_from, if_primary, see_all, Seen, seen_first,
}
use sidekick.Distributed.Build.{distributed_pod_annotations, new_distributed_pod}
use sidekick.Distributed.Reconciler.{is_failed_text, mw_needs_recreate}

module _ {R : Type 0} where
  set_signing_key-metadata :
      (sk sk' : Sidekick R) (key : String)
      → set_signing_key sk key ≡ ok sk'
      → sk'.metadata ≡ sk.metadata
  unfolding set_signing_key
  set_signing_key-metadata sk sk' key h =
      let (cont, _, same) = >>=-eq-ok (found_or_error (get_sidekick_container sk)) _ h in
      sym (ap (λ s. s.metadata) (ok-injective _ _ same))

  set_snapshot_grant-metadata :
      (c : Crypto) (sk sk' : Sidekick R) (key : String)
      → set_snapshot_grant c sk key ≡ ok sk'
      → sk'.metadata ≡ sk.metadata
  unfolding set_snapshot_grant
  set_snapshot_grant-metadata c sk sk' key h = ground arith

  set_grpc_address-metadata :
      (getenv : String → String) (sk sk' : Sidekick R)
      → set_grpc_address getenv sk ≡ ok sk'
      → sk'.metadata ≡ sk.metadata
  unfolding set_grpc_address
  set_grpc_address-metadata getenv sk sk' h =
      let (cont, _, more) = >>=-eq-ok (found_or_error (get_sidekick_container sk)) _ h in
      let (addr, _, same) = >>=-eq-ok (grpc_slice_address getenv) _ more in
      sym (ap (λ s. s.metadata) (ok-injective _ _ same))

module _ {R : Type 0} (lib : Library R) (sidekick : Sidekick R) (leader : Pod R) where
  distributed_built_from :
      (pod : Pod R)
      → new_distributed_pod lib sidekick leader ≡ ok pod
      → (pod.annotations ≡ some (distributed_pod_annotations lib leader sidekick))
        × (pod.spec.node_name ≡ leader.spec.node_name)
  unfolding new_distributed_pod
  distributed_built_from pod h =
      let (containers, _, more) = >>=-eq-ok (conv_containers leader sidekick.spec.containers) _ h in
      let (init, _, same) =
        >>=-eq-ok (conv_init_containers leader sidekick.spec.init_containers) _ more in
      (
        sym (ap (λ p. p.annotations) (ok-injective _ _ same)),
        sym (ap (λ p. p.spec.node_name) (ok-injective _ _ same)),
      )

  distributed_hash :
      (pod : Pod R)
      → new_distributed_pod lib sidekick leader ≡ ok pod
      → annotation pod key_hash ≡ lib.generation_hash sidekick.metadata
  unfolding get
  distributed_hash pod h =
      let (annotations, _) = distributed_built_from pod h in simp (annotations, lookup-insert)

  distributed_leader :
      (pod : Pod R)
      → new_distributed_pod lib sidekick leader ≡ ok pod
      → annotation pod key_leader ≡ leader.name
  unfolding get
  distributed_leader pod h =
      let (annotations, _) = distributed_built_from pod h in simp (annotations, lookup-insert)

module _ {R : Type 0} (lib : Library R) (c : Crypto) (getenv : String → String) where
  pub wired-metadata :
      (sk signed granted wired : Sidekick R) (signing_key snapshot_key : String)
      → set_signing_key sk signing_key ≡ ok signed
      → set_snapshot_grant c signed snapshot_key ≡ ok granted
      → set_grpc_address getenv granted ≡ ok wired
      → wired.metadata ≡ sk.metadata
  wired-metadata sk signed granted wired signing_key snapshot_key s g a =
      set_grpc_address-metadata getenv granted wired a
      ∙ (set_snapshot_grant-metadata c signed granted snapshot_key g
          ∙ set_signing_key-metadata sk signed signing_key s)

  -- The pod that is built for a distributed Sidekick, once the signing key, the grant and the address
  -- are given to its container, needs no recreation, while the Sidekick and the leader stay as they
  -- are, unless the reported phase is Failed and the policy Never; whatever the annotations of the
  -- leader are, the operator's own included.
  pub wired-fresh :
      (sk signed granted wired : Sidekick R) (leader pod : Pod R)
      (signing_key snapshot_key phase : String)
      → set_signing_key sk signing_key ≡ ok signed
      → set_snapshot_grant c signed snapshot_key ≡ ok granted
      → set_grpc_address getenv granted ≡ ok wired
      → new_distributed_pod lib wired leader ≡ ok pod
      → mw_needs_recreate lib sk leader pod phase
        ≡ (is_failed_text phase && is_never sk.spec.restart_policy)
  unfolding mw_needs_recreate
  wired-fresh sk signed granted wired leader pod signing_key snapshot_key phase s g a b =
      let same = wired-metadata sk signed granted wired signing_key snapshot_key s g a in
      let (_, node) = distributed_built_from lib wired leader pod b in
      let hash : annotation pod key_hash ≡ lib.generation_hash sk.metadata =
        distributed_hash lib wired leader pod b ∙ ap lib.generation_hash same in
      simp (hash, distributed_leader lib wired leader pod b, node, eq_refl)

module _ {R : Type 0} where
  pub built-key :
      (lib : Library R) (sk : Sidekick R) (leader pod : Pod R)
      → new_distributed_pod lib sk leader ≡ ok pod
      → pod.name ≡ sk.name
  unfolding new_distributed_pod
  built-key lib sk leader pod h =
      let (containers, _, more) = >>=-eq-ok (conv_containers leader sk.spec.containers) _ h in
      let (init, _, same) =
        >>=-eq-ok (conv_init_containers leader sk.spec.init_containers) _ more in
      sym (ap (λ p. p.name) (ok-injective _ _ same))

module _ {R : Type 0} (codec : Codec R) (lib : Library R) where
  observed-cluster :
      (mw : ManifestWork R) (pod leader : Pod R) (seen : Seen R)
      → if_primary codec mw pod seen ≡ some leader
      → get leader.annotations manifest_work_cluster_name_label ≡ some mw.namespace
  unfolding get
  observed-cluster mw pod leader seen h = ground (
    arith,
    lookup-insert manifest_work_cluster_name_label manifest_work_cluster_name_label mw.namespace
        (entries pod.annotations),
  )

  leader_from-cluster :
      (remove_role : Bool) (mw : ManifestWork R) (found : Option (Pod R))
      (feedbacks : List (List FeedbackValue)) (leader : Pod R)
      → leader_from codec remove_role mw found feedbacks ≡ some leader
      → get leader.annotations manifest_work_cluster_name_label ≡ some mw.namespace
  unfolding leader_from
  leader_from-cluster remove_role mw none feedbacks leader h = cc
  leader_from-cluster remove_role mw (some pod) [] leader h = cc
  leader_from-cluster remove_role mw (some pod) (values ∷ rest) leader h =
      observed-cluster mw pod leader (see_all codec values (seen_first codec remove_role)) h

  -- The pod names the namespace of the ManifestWork of the leader.
  pub built-annotation :
      (remove_role : Bool) (mw : ManifestWork R) (sk : Sidekick R) (leader pod : Pod R)
      → leader_of codec remove_role mw ≡ some leader
      → new_distributed_pod lib sk leader ≡ ok pod
      → annotation pod manifest_work_cluster_name_label ≡ mw.namespace
  unfolding get
  built-annotation remove_role mw sk leader pod h b =
      let there : get (some (entries leader.annotations)) manifest_work_cluster_name_label
          ≡ some mw.namespace =
        leader_from-cluster remove_role mw _ _ leader h in
      let (annotations, _) = distributed_built_from lib sk leader pod b in
      simp (annotations, lookup-insert, lookup-copy_into, there)
