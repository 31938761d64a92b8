-- ===== src/Distributed/Store.antt =====
-- The hub and the cluster of the operator as stores, whose answers show what was written to them, and the
-- searches of `ReconcileDistributedSidekick` (pkg/controllers/apps/distributed.go) in them.
use sidekick.Prelude.{
  String, ◌≡◌, refl, ◌∙◌, true, Option, some, List, [], ◌∷◌, ◌++◌, ◌==◌, not_found, ok, err,
}
use sidekick.Api.Meta.{NamespacedName}
use sidekick.Api.Pod.{Pod}
use sidekick.Api.Sidekick.{Sidekick, SidekickStatus, LabelSelector}
use sidekick.Api.ManifestWork.{ManifestWork, Codec}
use sidekick.Api.Wiring.{Secret}
use sidekick.Cluster.{Server, list_namespaces, ocm_get, ocm_list}
use sidekick.Cluster.Leads.{
  Leads, pure-Leads, raise-Leads, read-Leads, then-Leads, lift-Leads, bind-Leads, attempt-Leads,
  fail-Leads,
}
use sidekick.PhaseUpdate.{object_key}
use sidekick.SnapshotServer.Command.{signing_secret_name}
use sidekick.Leader.{Sort, pick}
use sidekick.Distributed.Search.{
  on_found, search_current, get_distributed_sidekick_current_leader, on_namespace, search_namespace,
  get_distributed_pod_namespace,
}
use sidekick.Distributed.Works.{pod_namespace, own_mw}
use sidekick.Distributed.Election.{
  list_works, without_role, has_role, order_leaders, leaders_of, find_selected,
  find_distributed_leader, get_distributed_leader,
}

-- Two worlds that give the same answers about everything but Sidekicks.
pub record SameHub {R W : Type 0} (server : Server R W) (w w' : W) : Type 0 where
  pub namespaces : (server.on_list_namespaces w').0 ≡ (server.on_list_namespaces w).0
  pub gets : (ns name : String) → (server.on_ocm_get ns name w').0 ≡ (server.on_ocm_get ns name w).0
  pub lists :
      (ns : String) (sel : Option (LabelSelector R))
      → (server.on_ocm_list ns sel w').0 ≡ (server.on_ocm_list ns sel w).0
  pub cached : (key : NamespacedName) → (server.on_get_mw key w').0 ≡ (server.on_get_mw key w).0
  pub secrets :
      (key : NamespacedName) → (server.on_get_secret key w').0 ≡ (server.on_get_secret key w).0

abbrev pub mw_key : {R : Type 0} → ManifestWork R → NamespacedName
mw_key mw = record { namespace = mw.namespace; name = mw.name }

abbrev pub secret_of : {R : Type 0} → Sidekick R → NamespacedName
secret_of sk = record { namespace = sk.namespace; name = signing_secret_name sk.name }

-- A read changes nothing. A patch of a Sidekick that changes nothing succeeds and leaves it as it is,
-- and a patch of its status succeeds and replaces the status only. A ManifestWork that is not there is
-- made, and the cache shows it.
pub record IsHubStore {R W : Type 0} (server : Server R W) : Type 0 where
  pub reads_sidekick : (key : NamespacedName) (w : W) → (server.on_get_sidekick key w).1 ≡ w
  pub reads_namespaces : (w : W) → (server.on_list_namespaces w).1 ≡ w
  pub reads_work : (ns name : String) (w : W) → (server.on_ocm_get ns name w).1 ≡ w
  pub reads_works :
      (ns : String) (sel : Option (LabelSelector R)) (w : W) → (server.on_ocm_list ns sel w).1 ≡ w
  pub reads_cache : (key : NamespacedName) (w : W) → (server.on_get_mw key w).1 ≡ w
  pub reads_secret : (key : NamespacedName) (w : W) → (server.on_get_secret key w).1 ≡ w
  pub applies :
      (sk : Sidekick R) (f : Sidekick R → Sidekick R) (w : W)
      → (server.on_get_sidekick (object_key sk) w).0 ≡ ok sk
      → f sk ≡ sk
      → let (r, w') = server.on_apply_sidekick sk f w in
        (r ≡ ok sk) × ((server.on_get_sidekick (object_key sk) w').0 ≡ ok sk) × SameHub server w w'
  pub patches :
      (sk s : Sidekick R) (f : Sidekick R → Sidekick R) (w : W)
      → (server.on_get_sidekick (object_key sk) w).0 ≡ ok sk
      → object_key s ≡ object_key sk
      → let (r, w') = server.on_patch_sidekick_status s f w in
        let stored : Sidekick R = record sk { status = (f sk).status } in
        (r ≡ ok stored)
        × ((server.on_get_sidekick (object_key sk) w').0 ≡ ok stored)
        × SameHub server w w'
  pub makes :
      (mw : ManifestWork R) (f : ManifestWork R → ManifestWork R) (w : W)
      → (server.on_get_mw (mw_key mw) w).0 ≡ err not_found
      → mw_key (f mw) ≡ mw_key mw
      → let (r, w') = server.on_apply_mw mw f w in
        (made : ManifestWork R) × (r ≡ ok made)
        × (made.spec ≡ (f mw).spec)
        × ((server.on_get_mw (mw_key mw) w').0 ≡ ok made)
        × ((key : NamespacedName)
            → (server.on_get_sidekick key w').0 ≡ (server.on_get_sidekick key w).0)

module _ {R W : Type 0} (server : Server R W) (sk : Sidekick R) (first : String)
    (rest : List String) (works : String → List (ManifestWork R)) (secret : Secret) where
  -- The Sidekick is stored with this status and has no ManifestWork in any namespace, the namespaces
  -- hold these ManifestWorks, and the Sidekick has a Secret.
  pub record Ready (st : SidekickStatus R) (w : W) : Type 0 where
    pub knows : (server.on_get_sidekick (object_key sk) w).0 ≡ ok (record sk { status = st })
    pub namespaces : (server.on_list_namespaces w).0 ≡ ok (first ∷ rest)
    pub absent : (ns : String) → (server.on_ocm_get ns sk.name w).0 ≡ err not_found
    pub uncached :
        (ns : String)
        → (server.on_get_mw (record { namespace = ns; name = sk.name }) w).0 ≡ err not_found
    pub holds :
        (ns : String)
        → (server.on_ocm_list ns (without_role sk.spec.leader.selector) w).0 ≡ ok (works ns)
    pub has_secret : (server.on_get_secret (secret_of sk) w).0 ≡ ok secret

  pub Ready-moved :
      {st st' : SidekickStatus R} {w w' : W}
      → Ready st w
      → SameHub server w w'
      → (server.on_get_sidekick (object_key sk) w').0 ≡ ok (record sk { status = st' })
      → Ready st' w'
  Ready-moved h same knows = record {
    knows = knows;
    namespaces = same.namespaces ∙ h.namespaces;
    absent = λ ns. same.gets ns sk.name ∙ h.absent ns;
    uncached = λ ns. same.cached (record { namespace = ns; name = sk.name }) ∙ h.uncached ns;
    holds = λ ns. same.lists ns (without_role sk.spec.leader.selector) ∙ h.holds ns;
    has_secret = same.secrets (secret_of sk) ∙ h.has_secret;
  }

module _ {R W : Type 0} (server : Server R W) (store : IsHubStore server) (sk : Sidekick R)
    (first : String) (rest : List String) (works : String → List (ManifestWork R)) (secret : Secret)
    (st : SidekickStatus R) where
  abbrev Now : W → Type 0
  Now w = Ready server sk first rest works secret st w

  lookup-Leads : (ns : String) → Leads Now (ocm_get server sk.name ns) (err not_found) Now
  lookup-Leads ns = read-Leads _ _ (store.reads_work ns sk.name) (λ w h. h.absent ns)

  namespaces-Leads : Leads Now (list_namespaces server) (ok (first ∷ rest)) Now
  namespaces-Leads = read-Leads _ _ store.reads_namespaces (λ w h. h.namespaces)

  search_current-Leads :
      (namespaces : List String)
      → Leads Now
          (search_current (ocm_get server sk.name) (some not_found) namespaces)
          (err not_found)
          Now
  unfolding search_current on_found
  search_current-Leads [] = raise-Leads not_found
  search_current-Leads (ns ∷ more) =
      attempt-Leads _ _ (err not_found) _ (lookup-Leads ns) (search_current-Leads more)

  -- The search for the ManifestWork of the Sidekick finds none.
  pub current-Leads :
      Leads Now
        (get_distributed_sidekick_current_leader (ocm_get server sk.name) (list_namespaces server))
        (err not_found)
        Now
  unfolding get_distributed_sidekick_current_leader search_current on_found
  current-Leads =
      bind-Leads (list_namespaces server) _ (first ∷ rest) _ namespaces-Leads
        (attempt-Leads _ _ (err not_found) _ (lookup-Leads first) (search_current-Leads rest))

  search_namespace-Leads :
      (namespaces : List String)
      → Leads Now
          (search_namespace (ocm_get server sk.name) (some not_found) namespaces)
          (err not_found)
          Now
  unfolding search_namespace on_namespace
  search_namespace-Leads [] = raise-Leads not_found
  search_namespace-Leads (ns ∷ more) =
      attempt-Leads _ _ (err not_found) _ (lookup-Leads ns) (search_namespace-Leads more)

  pub own_mw-Leads :
      (s : Sidekick R) → Leads Now (own_mw server (object_key sk) s) (err not_found) Now
  unfolding own_mw get_distributed_pod_namespace search_namespace on_namespace
  own_mw-Leads s = fail-Leads (pod_namespace server sk.name) _ not_found (
      bind-Leads (list_namespaces server) _ (first ∷ rest) _ namespaces-Leads
        (attempt-Leads _ _ (err not_found) _ (lookup-Leads first) (search_namespace-Leads rest)))

  module _ (codec : Codec R) (sort : Sort R) where
    -- The ManifestWorks of all namespaces.
    abbrev pub all_works : List String → List (ManifestWork R)
    all_works [] = []
    all_works (ns ∷ more) = works ns ++ all_works more

    list_works-Leads :
        (namespaces : List String)
        → Leads Now
            (list_works server codec sort (without_role sk.spec.leader.selector) namespaces)
            (ok (all_works namespaces))
            Now
    unfolding list_works
    list_works-Leads [] = pure-Leads [] [] refl
    list_works-Leads (ns ∷ more) =
        bind-Leads (ocm_list server (without_role sk.spec.leader.selector) ns) _ (works ns) _
          (read-Leads _ _ (store.reads_works ns (without_role sk.spec.leader.selector))
            (λ w h. h.holds ns))
          (bind-Leads (list_works server codec sort (without_role sk.spec.leader.selector) more) _
            (all_works more) _ (list_works-Leads more) (pure-Leads _ _ refl))

    -- The election finds the leader that is picked among the pods in the ManifestWorks.
    pub elect-Leads :
        (leaders : List (Pod R)) (leader : Pod R)
        → (sk.spec.leader.name == "") ≡ true
        → order_leaders sort
            (leaders_of codec (has_role sk.spec.leader.selector) (all_works (first ∷ rest)))
          ≡ ok leaders
        → pick sk.spec.leader.selection_policy leaders ≡ ok leader
        → Leads Now
            (get_distributed_leader server codec sort (record sk { status = st }))
            (ok leader)
            Now
    unfolding get_distributed_leader find_distributed_leader find_selected
    elect-Leads leaders leader unnamed ordered picked =
        bind-Leads _ _ leaders (ok leader)
          (then-Leads _ _ _ unnamed (
            bind-Leads (list_namespaces server) _ (first ∷ rest) _ namespaces-Leads (
              bind-Leads
                (list_works server codec sort (without_role sk.spec.leader.selector) (first ∷ rest))
                _ (all_works (first ∷ rest)) _ (list_works-Leads (first ∷ rest))
                (lift-Leads _ _ ordered))))
          (lift-Leads _ _ picked)
