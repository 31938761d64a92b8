-- ===== src/PodBuilder/Built.antt =====
-- The containers of the pod that `newSidekickPod` (pkg/controllers/apps/pod_builder.go) builds.
use sidekick.Prelude.{
  ◌≡◌, refl, Bool, List, [], ◌∷◌, ◌++◌, map, arith, ok, is_ok, ◌&&◌, >>=-eq-ok, sym, ap, ◌∙◌,
  ok-injective,
}
use mathlib.Core.Path.{subst, ap₂}
use sidekick.Prelude.Lists.{all}
use sidekick.Api.Pod.{Pod, CoreContainer}
use sidekick.Api.Sidekick.{Sidekick, Container}
use sidekick.Api.Library.{Library}
use sidekick.PodBuilder.{
  conv_mounts, conv_container, conv_containers, conv_init_containers, leader_name_env,
  new_sidekick_pod,
}
use sidekick.PodBuilder.Mounts.{is_available, conv_mounts-ok}

module _ {R : Type 0} where
  abbrev pub has_all_mounts : Pod R → List (Container R) → Bool
  has_all_mounts leader = all (λ c. all (is_available leader) c.volume_mounts)

  conv_container-ok :
      (leader : Pod R) (c : Container R)
      → is_ok (conv_container leader c) ≡ all (is_available leader) c.volume_mounts
  unfolding conv_container
  conv_container-ok leader c = ground (arith, conv_mounts-ok leader c.volume_mounts)

  conv_containers-ok :
      (leader : Pod R) (cs : List (Container R))
      → is_ok (conv_containers leader cs) ≡ has_all_mounts leader cs
  unfolding conv_containers
  conv_containers-ok leader [] = refl
  conv_containers-ok leader (c ∷ rest) =
      ground (arith, conv_container-ok leader c, conv_containers-ok leader rest)

  conv_init_containers-ok :
      (leader : Pod R) (cs : List (Container R))
      → is_ok (conv_init_containers leader cs) ≡ has_all_mounts leader cs
  unfolding conv_init_containers
  conv_init_containers-ok leader [] = refl
  conv_init_containers-ok leader (c ∷ rest) =
      ground (arith, conv_container-ok leader c, conv_init_containers-ok leader rest)

  -- A pod is built exactly when each mount of the containers and init containers that has only a
  -- name is a mount of the leader.
  pub new_sidekick_pod-ok :
      (lib : Library R) (sidekick : Sidekick R) (leader : Pod R)
      → is_ok (new_sidekick_pod lib sidekick leader) ≡ (
          has_all_mounts leader sidekick.spec.containers
          && has_all_mounts leader sidekick.spec.init_containers)
  unfolding new_sidekick_pod
  new_sidekick_pod-ok lib sidekick leader = ground (
    arith,
    conv_containers-ok leader sidekick.spec.containers,
    conv_init_containers-ok leader sidekick.spec.init_containers,
  )

  -- The container of a pod that a container of the Sidekick asks for, without mounts.
  abbrev pub plain : Container R → CoreContainer R
  plain c = record {
    name = c.name;
    image = c.image;
    command = c.command;
    args = c.args;
    working_dir = c.working_dir;
    ports = c.ports;
    env_from = c.env_from;
    env = c.env;
    resources = c.resources;
    volume_mounts = [];
    volume_devices = c.volume_devices;
    liveness_probe = c.liveness_probe;
    readiness_probe = c.readiness_probe;
    startup_probe = c.startup_probe;
    lifecycle = c.lifecycle;
    termination_message_path = c.termination_message_path;
    termination_message_policy = c.termination_message_policy;
    image_pull_policy = c.image_pull_policy;
    security_context = c.security_context;
    stdin = c.stdin;
    stdin_once = c.stdin_once;
    tty = c.tty;
  }

  -- The same with the leader's name as one more variable.
  abbrev pub with_leader : Pod R → Container R → CoreContainer R
  with_leader leader c = record (plain c) { env = c.env ++ leader_name_env leader ∷ [] }

  abbrev pub without_mounts : CoreContainer R → CoreContainer R
  without_mounts b = record b { volume_mounts = [] }

  -- The built containers are, in order, those that `wanted` gives, each with the converted mounts of
  -- the one it comes from.
  abbrev pub AreBuilt :
      (Container R → CoreContainer R) → Pod R → List (Container R) → List (CoreContainer R) → Type 0
  AreBuilt wanted leader cs built =
      (map without_mounts built ≡ map wanted cs)
      × (map (λ b. ok b.volume_mounts) built ≡ map (λ c. conv_mounts leader c.volume_mounts) cs)

  conv_container-plain :
      (leader : Pod R) (c : Container R) (built : CoreContainer R)
      → conv_container leader c ≡ ok built
      → (without_mounts built ≡ plain c)
        × (ok built.volume_mounts ≡ conv_mounts leader c.volume_mounts)
        × (built.env ≡ c.env)
  unfolding conv_container
  conv_container-plain leader c built h =
      let (mounts, converts, same) = >>=-eq-ok (conv_mounts leader c.volume_mounts) _ h in
      let e = sym (ok-injective _ _ same) in
      (ap without_mounts e, ap (λ b. ok b.volume_mounts) e ∙ sym converts, ap (λ b. b.env) e)

  conv_containers-AreBuilt :
      (leader : Pod R) (cs : List (Container R)) (built : List (CoreContainer R))
      → conv_containers leader cs ≡ ok built
      → AreBuilt (with_leader leader) leader cs built
  unfolding conv_containers
  conv_containers-AreBuilt leader [] built h = let e = sym (ok-injective _ _ h) in rw e (refl, refl)
  conv_containers-AreBuilt leader (c ∷ rest) built h =
      let (container, converts, more) = >>=-eq-ok (conv_container leader c) _ h in
      let (others, rest_converts, same) = >>=-eq-ok (conv_containers leader rest) _ more in
      let (kept, mounts, env) = conv_container-plain leader c container converts in
      let (all_kept, all_mounts) = conv_containers-AreBuilt leader rest others rest_converts in
      let added =
        ap₂ {A = CoreContainer R} (λ b e. record b { env = e ++ leader_name_env leader ∷ [] }) kept
          env in
      rw (sym (ok-injective _ _ same))
        (ap₂ (λ b bs. b ∷ bs) added all_kept, ap₂ (λ b bs. b ∷ bs) mounts all_mounts)

  conv_init_containers-AreBuilt :
      (leader : Pod R) (cs : List (Container R)) (built : List (CoreContainer R))
      → conv_init_containers leader cs ≡ ok built
      → AreBuilt plain leader cs built
  unfolding conv_init_containers
  conv_init_containers-AreBuilt leader [] built h =
      let e = sym (ok-injective _ _ h) in rw e (refl, refl)
  conv_init_containers-AreBuilt leader (c ∷ rest) built h =
      let (container, converts, more) = >>=-eq-ok (conv_container leader c) _ h in
      let (others, rest_converts, same) = >>=-eq-ok (conv_init_containers leader rest) _ more in
      let (kept, mounts, env) = conv_container-plain leader c container converts in
      let (all_kept, all_mounts) = conv_init_containers-AreBuilt leader rest others rest_converts in
      rw (sym (ok-injective _ _ same))
        (ap₂ (λ b bs. b ∷ bs) kept all_kept, ap₂ (λ b bs. b ∷ bs) mounts all_mounts)

  -- The containers of a built pod are the sidekick's, in order, with all their fields, the converted
  -- mounts for the mounts, and LEADER_NAME appended to the environment; the init containers are the
  -- sidekick's in the same way, without LEADER_NAME.
  pub new_sidekick_pod-containers :
      (lib : Library R) (sidekick : Sidekick R) (leader : Pod R) (pod : Pod R) (sk : Sidekick R)
      → new_sidekick_pod lib sidekick leader ≡ ok (pod, sk)
      → AreBuilt (with_leader leader) leader sidekick.spec.containers pod.spec.containers
        × AreBuilt plain leader sidekick.spec.init_containers pod.spec.init_containers
  unfolding new_sidekick_pod
  new_sidekick_pod-containers lib sidekick leader pod sk h =
      let (containers, converts, more) =
        >>=-eq-ok (conv_containers leader sidekick.spec.containers) _ h in
      let (init, init_converts, same) =
        >>=-eq-ok (conv_init_containers leader sidekick.spec.init_containers) _ more in
      let e = ap (λ o. o.0.spec) (ok-injective _ _ same) in
      (
        subst (λ p. AreBuilt (with_leader leader) leader sidekick.spec.containers p.containers) e
            (conv_containers-AreBuilt leader sidekick.spec.containers containers converts),
        subst (λ p. AreBuilt plain leader sidekick.spec.init_containers p.init_containers) e
            (conv_init_containers-AreBuilt leader sidekick.spec.init_containers init init_converts),
      )
