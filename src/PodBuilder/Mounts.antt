-- ===== src/PodBuilder/Mounts.antt =====
-- Volume mounts of the sidekick's containers (`findMount` and `convContainer` of
-- pkg/controllers/apps/pod_builder.go).
use sidekick.Prelude.{
  String, ◌≡◌, refl, Bool, some, List, [], ◌∷◌, map, arith, eq_iff, is_some, ok, is_ok, >>=-eq-ok,
  not, ◌||◌,
}
use sidekick.Prelude.Lists.{all}
use sidekick.Api.Pod.{Pod, CoreContainer, CoreVolumeMount}
use sidekick.Api.Sidekick.{VolumeMount}
use sidekick.PodBuilder.{mount_named, mount_in, find_mount, is_empty_mount, conv_mount, conv_mounts}

module _ {R : Type 0} where
  mount_named-name :
      (name : String) (mounts : List (CoreVolumeMount R)) (vm : CoreVolumeMount R)
      → mount_named name mounts ≡ some vm
      → vm.name ≡ name
  unfolding mount_named
  mount_named-name name [] vm h = cc
  mount_named-name name (m ∷ rest) vm h =
      ground (arith, eq_iff m.name name, mount_named-name name rest vm)

  mount_in-name :
      (name : String) (containers : List (CoreContainer R)) (vm : CoreVolumeMount R)
      → mount_in name containers ≡ some vm
      → vm.name ≡ name
  unfolding mount_in
  mount_in-name name [] vm h = cc
  mount_in-name name (c ∷ rest) vm h =
      ground (arith, mount_named-name name c.volume_mounts vm, mount_in-name name rest vm)

  -- A mount that is found has the name that was looked for.
  pub find_mount-name :
      (leader : Pod R) (name : String) (vm : CoreVolumeMount R)
      → find_mount leader name ≡ some vm
      → vm.name ≡ name
  unfolding find_mount
  find_mount-name leader name vm h = ground (
    arith,
    mount_in-name name leader.spec.containers vm,
    mount_in-name name leader.spec.init_containers vm,
  )

  -- A mount is available if it says more than a name, or if the leader has one of that name.
  abbrev pub is_available : Pod R → VolumeMount R → Bool
  is_available leader vm = not (is_empty_mount vm) || is_some (find_mount leader vm.name)

  conv_mount-ok :
      (leader : Pod R) (vm : VolumeMount R) → is_ok (conv_mount leader vm) ≡ is_available leader vm
  unfolding conv_mount
  conv_mount-ok leader vm = ground arith

  -- The conversion succeeds exactly when each mount that has only a name is a mount of the leader.
  pub conv_mounts-ok :
      (leader : Pod R) (mounts : List (VolumeMount R))
      → is_ok (conv_mounts leader mounts) ≡ all (is_available leader) mounts
  unfolding conv_mounts
  conv_mounts-ok leader [] = refl
  conv_mounts-ok leader (vm ∷ rest) =
      ground (arith, conv_mount-ok leader vm, conv_mounts-ok leader rest)

  conv_mount-name :
      (leader : Pod R) (vm : VolumeMount R) (v2 : CoreVolumeMount R)
      → conv_mount leader vm ≡ ok v2
      → v2.name ≡ vm.name
  unfolding conv_mount
  conv_mount-name leader vm v2 h = ground (arith, find_mount-name leader vm.name v2)

  -- The mounts of a converted container have the names of the sidekick's, in their order.
  conv_mounts-name :
      (leader : Pod R) (mounts : List (VolumeMount R)) (converted : List (CoreVolumeMount R))
      → conv_mounts leader mounts ≡ ok converted
      → map (λ v2. v2.name) converted ≡ map (λ vm. vm.name) mounts
  unfolding conv_mounts
  conv_mounts-name leader [] converted h = ground arith
  conv_mounts-name leader (vm ∷ rest) converted h =
      let (v2, converts, more) = >>=-eq-ok (conv_mount leader vm) _ h in
      let (mounts, rest_converts, same) = >>=-eq-ok (conv_mounts leader rest) _ more in
      ground (
        arith,
        conv_mount-name leader vm v2 converts,
        conv_mounts-name leader rest mounts rest_converts,
        same,
      )
