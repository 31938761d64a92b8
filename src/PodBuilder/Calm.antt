-- ===== src/PodBuilder/Calm.antt =====
-- That no pod panics as it is built (`newSidekickPod` of pkg/controllers/apps/pod_builder.go).
use sidekick.Prelude.{List, [], ◌∷◌, Option, none, some, ok}
use sidekick.Api.Pod.{Pod, CoreVolumeMount}
use sidekick.Api.Sidekick.{Sidekick, Container, VolumeMount}
use sidekick.Api.Library.{Library}
use sidekick.Cluster.Yields.{IsCalm, bind-IsCalm, if-IsCalm}
use sidekick.PodBuilder.{
  find_mount, is_empty_mount, own_mount, from_leader, conv_mount, conv_mounts, conv_container,
  conv_containers, conv_init_containers, new_sidekick_pod,
}

module _ {R : Type 0} where
  from_leader-IsCalm : (found : Option (CoreVolumeMount R)) → IsCalm (from_leader found)
  from_leader-IsCalm none = tt
  from_leader-IsCalm (some vm) = tt

  conv_mount-IsCalm : (leader : Pod R) (vm : VolumeMount R) → IsCalm (conv_mount leader vm)
  unfolding conv_mount
  conv_mount-IsCalm leader vm =
      if-IsCalm (is_empty_mount vm) (from_leader (find_mount leader vm.name)) (ok (own_mount vm))
        (from_leader-IsCalm (find_mount leader vm.name)) tt

  conv_mounts-IsCalm :
      (leader : Pod R) (mounts : List (VolumeMount R)) → IsCalm (conv_mounts leader mounts)
  unfolding conv_mounts
  conv_mounts-IsCalm leader [] = tt
  conv_mounts-IsCalm leader (vm ∷ rest) =
      bind-IsCalm (conv_mount leader vm) _ (conv_mount-IsCalm leader vm)
        (λ v2. bind-IsCalm (conv_mounts leader rest) _ (conv_mounts-IsCalm leader rest) (λ _. tt))

  conv_container-IsCalm : (leader : Pod R) (c : Container R) → IsCalm (conv_container leader c)
  unfolding conv_container
  conv_container-IsCalm leader c =
      bind-IsCalm (conv_mounts leader c.volume_mounts) _ (conv_mounts-IsCalm leader c.volume_mounts)
        (λ _. tt)

  pub conv_containers-IsCalm :
      (leader : Pod R) (cs : List (Container R)) → IsCalm (conv_containers leader cs)
  unfolding conv_containers
  conv_containers-IsCalm leader [] = tt
  conv_containers-IsCalm leader (c ∷ rest) =
      bind-IsCalm (conv_container leader c) _ (conv_container-IsCalm leader c) (λ _.
        bind-IsCalm (conv_containers leader rest) _ (conv_containers-IsCalm leader rest) (λ _. tt))

  pub conv_init_containers-IsCalm :
      (leader : Pod R) (cs : List (Container R)) → IsCalm (conv_init_containers leader cs)
  unfolding conv_init_containers
  conv_init_containers-IsCalm leader [] = tt
  conv_init_containers-IsCalm leader (c ∷ rest) =
      bind-IsCalm (conv_container leader c) _ (conv_container-IsCalm leader c) (λ _.
        bind-IsCalm (conv_init_containers leader rest) _ (conv_init_containers-IsCalm leader rest)
          (λ _. tt))

  pub new_sidekick_pod-IsCalm :
      (lib : Library R) (sk : Sidekick R) (leader : Pod R) → IsCalm (new_sidekick_pod lib sk leader)
  unfolding new_sidekick_pod
  new_sidekick_pod-IsCalm lib sk leader =
      bind-IsCalm (conv_containers leader sk.spec.containers) _
        (conv_containers-IsCalm leader sk.spec.containers)
        (λ _.
          bind-IsCalm (conv_init_containers leader sk.spec.init_containers) _
            (conv_init_containers-IsCalm leader sk.spec.init_containers) (λ _. tt))
