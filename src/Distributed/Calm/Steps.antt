-- ===== src/Distributed/Calm/Steps.antt =====
-- That the steps of `ReconcileDistributedSidekick` (pkg/controllers/apps/distributed.go) do not panic.
use sidekick.Prelude.{String, true, Option, List, [], ◌∷◌, Int32}
use sidekick.Api.Meta.{NamespacedName}
use sidekick.Api.Pod.{Pod}
use sidekick.Api.Sidekick.{Sidekick, LabelSelector}
use sidekick.Api.ManifestWork.{Codec}
use sidekick.Api.Library.{Library}
use sidekick.Cluster.{Server, lift, get_pod, list_namespaces, ocm_get, ocm_list}
use sidekick.Cluster.Yields.{
  IsCalm, bind-IsCalm, Anything, Yields, Calm, weaken, lift-Yields, lift-Calm, pure-Calm,
  pure-Yields, if-Yields, bind-Yields, bind-Calm, write-Yields, attempt-Yields, calm_rules,
}
use sidekick.PodBuilder.{conv_containers, conv_init_containers}
use sidekick.PodBuilder.Calm.{conv_containers-IsCalm, conv_init_containers-IsCalm}
use sidekick.PhaseUpdate.Failures.{HasFailures}
use sidekick.Leader.{Sort}
use sidekick.Reconcile.Calm.{IsServing, get_pod-Calm, fail_pod-Calm}
use sidekick.Reconcile.Calm.Steps.{pick-IsCalm}
use sidekick.Distributed.{decide_distributed}
use sidekick.Distributed.Failures.{decide_distributed-IsFine}
use sidekick.Distributed.Search.{get_distributed_sidekick_current_leader}
use sidekick.Distributed.Works.{pod_namespace}
use sidekick.Distributed.Status.{
  update_distributed_sidekick_status, calculate_distributed_sidekick_phase,
  update_distributed_sidekick_phase,
}
use sidekick.Distributed.Election.{
  order_leaders, list_works, find_named, find_selected, find_distributed_leader,
  get_distributed_leader,
}
use sidekick.Distributed.Build.{new_distributed_pod, ensure_pod_manifest_work}
use sidekick.Distributed.Calm.{
  IsHub, Decodes, HasManifests, extract-IsCalm, list_namespaces-Calm, ocm_get-Yields, ocm_list-Calm,
  apply_mw-Calm, pod_namespace-Calm, current_leader-Calm,
}

module _ {R W : Type 0} (lib : Library R) (server : Server R W) (serving : IsServing server) where
  status-Yields :
      (sk : Sidekick R)
      → HasFailures sk
      → Yields HasFailures (update_distributed_sidekick_status server sk)
  unfolding update_distributed_sidekick_status
  status-Yields sk h =
      write-Yields HasFailures _ _
        (λ w. weaken _ HasFailures _ (serving.patches sk _ w) (λ stored back. back h))

  pub status-Calm : (sk : Sidekick R) → Calm (update_distributed_sidekick_status server sk)
  unfolding update_distributed_sidekick_status
  status-Calm sk =
      write-Yields Anything _ _
        (λ w. weaken _ Anything _ (serving.patches sk _ w) (λ stored back. tt))

  module _ (hub : IsHub server) (unmarshal : String → Option (List Int32)) where
    calculate-Yields :
        (sk : Sidekick R)
        → Yields
            (λ decided. HasFailures decided.1)
            (calculate_distributed_sidekick_phase server unmarshal sk)
    unfolding calculate_distributed_sidekick_phase
    calculate-Yields sk =
        attempt-Yields _
          (get_distributed_sidekick_current_leader (ocm_get server sk.name)
            (list_namespaces server))
          _ (current_leader-Calm server hub sk.name)
          (λ found calm.
            bind-Yields (λ decided. HasFailures decided.1) _
              (lift (decide_distributed unmarshal sk found)) _
              (lift-Yields _ (decide_distributed unmarshal sk found)
                (decide_distributed-IsFine unmarshal sk found calm))
              (λ (phase, s) h.
                bind-Yields HasFailures _ (update_distributed_sidekick_status server s) _
                  (status-Yields s h) (λ s' h'. pure-Yields _ (phase, s') h')))

    pub phase-Yields :
        (req : NamespacedName) (sk : Sidekick R)
        → Yields
            (λ updated. HasFailures updated.1)
            (update_distributed_sidekick_phase server unmarshal req sk)
    unfolding update_distributed_sidekick_phase
    phase-Yields req sk =
        bind-Yields (λ decided. HasFailures decided.1) _
          (calculate_distributed_sidekick_phase server unmarshal sk) _ (calculate-Yields sk)
          (λ (phase, s) h.
            if-Yields (λ updated. HasFailures updated.1) _ _ _
              (attempt-Yields _ (get_pod server req) _ (get_pod-Calm lib server serving req)
                (λ found calm.
                  bind-Yields Anything _ _ _ (fail_pod-Calm lib server serving found calm)
                    (λ _ _. pure-Yields _ (true, s) h)))
              (pure-Yields _ _ h))

module _ {R : Type 0} where
  order_leaders-IsCalm : (sort : Sort R) (pods : List (Pod R)) → IsCalm (order_leaders sort pods)
  unfolding order_leaders
  order_leaders-IsCalm sort [] = tt
  order_leaders-IsCalm sort (pod ∷ []) = tt
  order_leaders-IsCalm sort (pod ∷ next ∷ rest) = tt

  pub new_distributed_pod-IsCalm :
      (lib : Library R) (sk : Sidekick R) (leader : Pod R)
      → IsCalm (new_distributed_pod lib sk leader)
  unfolding new_distributed_pod
  new_distributed_pod-IsCalm lib sk leader =
      bind-IsCalm (conv_containers leader sk.spec.containers) _
        (conv_containers-IsCalm leader sk.spec.containers)
        (λ _.
          bind-IsCalm (conv_init_containers leader sk.spec.init_containers) _
            (conv_init_containers-IsCalm leader sk.spec.init_containers) (λ _. tt))

module _ {R W : Type 0} (server : Server R W) (hub : IsHub server) where
  module _ (codec : Codec R) (decodes : Decodes codec) (sort : Sort R) where
    list_works-Calm :
        (sel : Option (LabelSelector R)) (namespaces : List String)
        → Calm (list_works server codec sort sel namespaces)
    unfolding list_works
    list_works-Calm sel [] = search calm_rules
    list_works-Calm sel (ns ∷ rest) =
        bind-Calm (ocm_list server sel ns) _ (ocm_list-Calm server hub sel ns) (λ works.
          bind-Calm (list_works server codec sort sel rest) _ (list_works-Calm sel rest)
            (λ more. pure-Calm _))

    find_named-Calm : (sk : Sidekick R) → Calm (find_named server codec sort sk)
    unfolding find_named
    find_named-Calm sk =
        bind-Yields Anything _ (pod_namespace server sk.name) _
          (pod_namespace-Calm server hub sk.name)
          (λ ns _.
            bind-Yields HasManifests _ (ocm_get server sk.spec.leader.name ns) _
              (ocm_get-Yields server hub sk.spec.leader.name ns)
              (λ mw h.
                let extracted = extract-IsCalm codec decodes mw h in
                search (calm_rules, extracted)))

    find_selected-Calm : (sk : Sidekick R) → Calm (find_selected server codec sort sk)
    unfolding find_selected
    find_selected-Calm sk =
        bind-Calm (list_namespaces server) _ (list_namespaces-Calm server hub) (λ namespaces.
          bind-Calm (list_works server codec sort _ namespaces) _ (list_works-Calm _ namespaces)
            (λ works. lift-Calm _ (order_leaders-IsCalm sort _)))

    pub get_distributed_leader-Calm :
        (sk : Sidekick R) → Calm (get_distributed_leader server codec sort sk)
    unfolding get_distributed_leader find_distributed_leader
    get_distributed_leader-Calm sk =
        search (calm_rules, find_selected-Calm, find_named-Calm, pick-IsCalm)

  pub ensure_pod_manifest_work-Calm :
      (codec : Codec R)
      → Decodes codec
      → (sk : Sidekick R) (pod : Pod R) → Calm (ensure_pod_manifest_work server codec sk pod)
  unfolding ensure_pod_manifest_work
  ensure_pod_manifest_work-Calm codec decodes sk pod =
      let encoded = decodes.objects in
      let applies = apply_mw-Calm server hub in search (calm_rules, encoded, applies)
