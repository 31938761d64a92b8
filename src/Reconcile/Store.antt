-- ===== src/Reconcile/Store.antt =====
-- The API server of one cluster as a store, whose answers show what was written to it: what
-- `Reconcile` (pkg/controllers/apps/sidekick_controller.go) relies on when no one else is at work.
use sidekick.Prelude.{
  String, ◌≡◌, ◌==◌, refl, sym, Bool, Bool-cases, true, false, Option, List, ◌⊎◌, inl, inr, is_some,
  not_found, err, Result, ok, ◌>>=◌, >>=-eq-ok, if◌then◌else◌,
}
use mathlib.Core.Path.{subst}
use sidekick.Prelude.Lists.{keep_if}
use sidekick.Api.Meta.{NamespacedName}
use sidekick.Api.Pod.{Pod}
use sidekick.Api.Sidekick.{Sidekick, LabelSelector}
use sidekick.Cluster
use sidekick.Cluster.{Run, Server, read}
use sidekick.Cluster.Leads.{Leads}
use sidekick.Leader.{Sort, is_candidate, choose, get_leader}
use sidekick.PhaseUpdate.{object_key}

-- What a test came to.
by_test :
    {A : Type 0} (c : Bool) {b : Bool} (x y : A) {z : A}
    → b ≡ c
    → (if b then x else y) ≡ z
    → (if c then x else y) ≡ z
by_test c x y e h = cc

-- Two worlds that give the same answers about pods.
pub record SamePods {R W : Type 0} (server : Server R W) (w w' : W) : Type 0 where
  pub gets : (key : NamespacedName) → (server.on_get_pod key w').0 ≡ (server.on_get_pod key w).0
  pub lists :
      (ns : String) (sel : Option (LabelSelector R))
      → (server.on_list_pods ns sel w').0 ≡ (server.on_list_pods ns sel w).0

abbrev pub pod_key : {R : Type 0} → Pod R → NamespacedName
pod_key pod = record { namespace = pod.namespace; name = pod.name }

-- What the server makes of a pod that is created.
pub record Admits {R : Type 0} (given made : Pod R) : Type 0 where
  pub annotations : made.annotations ≡ given.annotations
  pub lives : is_some made.deletion_timestamp ≡ false
  pub node_name : made.spec.node_name ≡ given.spec.node_name

-- The second world has one pod more, which does not run yet.
pub record Adds {R W : Type 0} (server : Server R W) (w w' : W) : Type 0 where
  pub stays :
      (key : NamespacedName) (pod : Pod R)
      → (server.on_get_pod key w).0 ≡ ok pod
      → (server.on_get_pod key w').0 ≡ ok pod
  pub runs :
      (ns : String) (sel : Option (LabelSelector R)) (pods : List (Pod R))
      → (server.on_list_pods ns sel w).0 ≡ ok pods
      → (more : List (Pod R)) × ((server.on_list_pods ns sel w').0 ≡ ok more)
        × (keep_if is_candidate more ≡ keep_if is_candidate pods)
  pub sidekicks :
      (key : NamespacedName) → (server.on_get_sidekick key w').0 ≡ (server.on_get_sidekick key w).0

-- A read changes nothing. A patch of a Sidekick that changes nothing succeeds and leaves it as it is,
-- a patch of its status succeeds and replaces the status only, and neither touches a pod. A pod that
-- is not there is created.
pub record IsStore {R W : Type 0} (server : Server R W) : Type 0 where
  pub reads_pod : (key : NamespacedName) (w : W) → (server.on_get_pod key w).1 ≡ w
  pub reads_sidekick : (key : NamespacedName) (w : W) → (server.on_get_sidekick key w).1 ≡ w
  pub reads_list :
      (ns : String) (sel : Option (LabelSelector R)) (w : W) → (server.on_list_pods ns sel w).1 ≡ w
  pub applies :
      (sk : Sidekick R) (f : Sidekick R → Sidekick R) (w : W)
      → (server.on_get_sidekick (object_key sk) w).0 ≡ ok sk
      → f sk ≡ sk
      → let (r, w') = server.on_apply_sidekick sk f w in
        (r ≡ ok sk) × ((server.on_get_sidekick (object_key sk) w').0 ≡ ok sk) × SamePods server w w'
  pub patches :
      (sk s : Sidekick R) (f : Sidekick R → Sidekick R) (w : W)
      → (server.on_get_sidekick (object_key sk) w).0 ≡ ok sk
      → object_key s ≡ object_key sk
      → let (r, w') = server.on_patch_sidekick_status s f w in
        let stored : Sidekick R = record sk { status = (f sk).status } in
        (r ≡ ok stored)
        × ((server.on_get_sidekick (object_key sk) w').0 ≡ ok stored)
        × SamePods server w w'
  pub creates :
      (pod : Pod R) (f : Pod R → Pod R) (w : W)
      → (server.on_get_pod (pod_key pod) w).0 ≡ err not_found
      → pod_key (f pod) ≡ pod_key pod
      → let (r, w') = server.on_apply_pod pod f w in
        (made : Pod R) × (r ≡ ok made)
        × Admits (f pod) made
        × ((server.on_get_pod (pod_key pod) w').0 ≡ ok made)
        × Adds server w w'

module _ {R W : Type 0} (server : Server R W) (sort : Sort R) where
  abbrev pick_of : Sidekick R → Result (List (Pod R)) → Result (Pod R)
  pick_of sk listed = do
    candidates ← listed
    choose sort sk.spec.leader.selection_policy (keep_if is_candidate candidates)

  abbrev is_empty : String → Bool
  is_empty s = s == ""

  abbrev named : Sidekick R → NamespacedName
  named sk = record { namespace = sk.namespace; name = sk.spec.leader.name }

  -- The leader that the election of `getLeader` finds in a world.
  abbrev pub chosen : Sidekick R → W → Result (Pod R)
  chosen sk w =
      if is_empty sk.spec.leader.name
      then pick_of sk (server.on_list_pods sk.namespace sk.spec.leader.selector w).0
      else (server.on_get_pod (named sk) w).0

  pub chosen-same : (sk : Sidekick R) (w w' : W) → SamePods server w w' → chosen sk w' ≡ chosen sk w
  chosen-same sk w w' same =
      rw (same.lists sk.namespace sk.spec.leader.selector, same.gets (named sk)) refl

  -- How a leader was found.
  chosen-cases :
      (sk : Sidekick R) (leader : Pod R) (w : W)
      → chosen sk w ≡ ok leader
      → ((is_empty sk.spec.leader.name ≡ true)
          × (pods : List (Pod R)) × ((server.on_list_pods sk.namespace sk.spec.leader.selector w).0
              ≡ ok pods)
          × (pick_of sk (ok pods) ≡ ok leader))
        ⊎ ((is_empty sk.spec.leader.name ≡ false)
            × ((server.on_get_pod (named sk) w).0 ≡ ok leader))
  chosen-cases sk leader w h = elim (Bool-cases (is_empty sk.spec.leader.name)) [
    | inl t ↦
        let there : pick_of sk (server.on_list_pods sk.namespace sk.spec.leader.selector w).0
            ≡ ok leader =
          by_test true _ _ t h in
        let (pods, listed, picked) =
          >>=-eq-ok (server.on_list_pods sk.namespace sk.spec.leader.selector w).0
            (λ found. choose sort sk.spec.leader.selection_policy (keep_if is_candidate found))
            there in
        inl (t, pods, listed, picked)
    | inr n ↦ inr (n, by_test false _ _ n h)
  ]

  pub chosen-Adds :
      (sk : Sidekick R) (leader : Pod R) (w w' : W)
      → Adds server w w'
      → chosen sk w ≡ ok leader
      → chosen sk w' ≡ ok leader
  chosen-Adds sk leader w w' adds h = elim (chosen-cases sk leader w h) [
    | inl (t, pods, listed, picked) ↦
        let (more, there, same) = adds.runs sk.namespace sk.spec.leader.selector pods listed in
        rw (t, there, same) picked
    | inr (n, got) ↦ rw n (adds.stays (named sk) leader got)
  ]

  get_leader-run :
      (store : IsStore server) (sk : Sidekick R) (leader : Pod R) (run : Run R W)
      → chosen sk run.world ≡ ok leader
      → ((get_leader server sort sk run).0 ≡ ok leader)
        × ((get_leader server sort sk run).1.world ≡ run.world)
  unfolding get_leader Cluster.◌>>=◌ read
  get_leader-run store sk leader run h = elim (chosen-cases sk leader run.world h) [
    | inl (t, pods, listed, picked) ↦
        rw (t, listed) (picked, store.reads_list sk.namespace sk.spec.leader.selector run.world)
    | inr (n, got) ↦ rw n (got, store.reads_pod (named sk) run.world)
  ]

  -- The election finds its leader, and changes nothing.
  pub get_leader-Leads :
      (store : IsStore server) (P : W → Type 0) (sk : Sidekick R) (leader : Pod R)
      → ((w : W) → P w → chosen sk w ≡ ok leader)
      → Leads P (get_leader server sort sk) (ok leader) P
  get_leader-Leads store P sk leader elects = record {
    at = λ s h.
        let (e, same) = get_leader-run store sk leader s (elects s.world h) in
        (e, subst P (sym same) h);
  }
