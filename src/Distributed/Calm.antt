-- ===== src/Distributed/Calm.antt =====
-- That the operations on the ManifestWork of a distributed Sidekick, and the search for its leader, do
-- not panic where every ManifestWork has a manifest (pkg/controllers/apps/distributed.go).
pub mod Works
pub mod Steps
use sidekick.Prelude.{
  String, Option, none, some, List, [], ◌∷◌, Error, not_found, failed, panicked, Result, ok, err,
}
use sidekick.Api.Meta.{NamespacedName}
use sidekick.Api.Pod.{Pod}
use sidekick.Api.Sidekick.{Sidekick, LabelSelector}
use sidekick.Api.ManifestWork.{ManifestWork, Manifest, Codec}
use sidekick.Api.Library.{Library}
use sidekick.Cluster.{
  Io, Run, Server, raise, note, Event, list_namespaces, ocm_get, ocm_list, get_mw, apply_mw,
  delete_api_mw, delete_mw_named,
}
use sidekick.Cluster.Yields.{
  IsFine, IsCalm, Anything, Yields, Calm, weaken, bind-IsCalm, read-Yields, write-Yields,
  bind-Yields, attempt-Yields, calm_rules,
}
use sidekick.Reconcile.Calm.{IsServing, apply_sidekick-Calm, ignore_not_found-Calm}
use sidekick.Distributed.Search.{
  return_nil, on_found, search_current, get_distributed_sidekick_current_leader, on_namespace,
  search_namespace, get_distributed_pod_namespace,
}
use sidekick.Distributed.Works.{
  extract_first, extract_pod_from_manifest_work, pod_namespace, own_mw,
  set_mw_deletion_initiator_annotation, delete_mw, delete_found, delete_searched,
  terminate_manifest_work, handle_distributed_sidekick_finalizer,
}

abbrev pub IsNonempty : {R : Type 0} → List (Manifest R) → Type 0
IsNonempty [] = ⊥
IsNonempty (_ ∷ _) = Unit

abbrev pub HasManifests : {R : Type 0} → ManifestWork R → Type 0
HasManifests mw = IsNonempty mw.spec.manifests

-- The calls for ManifestWorks may fail, but do not panic, and no ManifestWork that is fetched is empty.
pub record IsHub {R W : Type 0} (server : Server R W) : Type 0 where
  pub namespaces : (w : W) → IsCalm (server.on_list_namespaces w).0
  pub works : (ns name : String) (w : W) → IsFine HasManifests (server.on_ocm_get ns name w).0
  pub lists :
      (ns : String) (sel : Option (LabelSelector R)) (w : W)
      → IsCalm (server.on_ocm_list ns sel w).0
  pub cached : (key : NamespacedName) (w : W) → IsFine HasManifests (server.on_get_mw key w).0
  pub applies :
      (mw : ManifestWork R) (f : ManifestWork R → ManifestWork R) (w : W)
      → IsCalm (server.on_apply_mw mw f w).0
  pub deletes : (mw : ManifestWork R) (w : W) → IsCalm (server.on_delete_mw mw w).0
  pub deletes_named : (key : NamespacedName) (w : W) → IsCalm (server.on_delete_mw_named key w).0

-- Decoding a manifest may fail, but does not panic.
pub record Decodes {R : Type 0} (codec : Codec R) : Type 0 where
  pub maps : (raw : String) → IsCalm (codec.unmarshal_map raw)
  pub pods : (object : R) → IsCalm (codec.from_unstructured object)
  pub objects : (pod : Pod R) → IsCalm (codec.to_unstructured pod)

module _ {R : Type 0} (codec : Codec R) (decodes : Decodes codec) where
  extract_first-IsCalm :
      (manifests : List (Manifest R))
      → IsNonempty manifests
      → IsCalm (extract_first codec manifests)
  extract_first-IsCalm [] h = absurd h
  extract_first-IsCalm (manifest ∷ rest) h =
      bind-IsCalm (codec.unmarshal_map manifest.raw) codec.from_unstructured
        (decodes.maps manifest.raw) decodes.pods

  pub extract-IsCalm :
      (mw : ManifestWork R) → HasManifests mw → IsCalm (extract_pod_from_manifest_work codec mw)
  unfolding extract_pod_from_manifest_work
  extract-IsCalm mw h = extract_first-IsCalm mw.spec.manifests h

module _ {R W : Type 0} (server : Server R W) (hub : IsHub server) where
  pub list_namespaces-Calm : Calm (list_namespaces server)
  list_namespaces-Calm = read-Yields Anything _ hub.namespaces

  pub ocm_get-Yields :
      (name ns : String) → Yields {S = Run R W} HasManifests (ocm_get server name ns)
  ocm_get-Yields name ns = read-Yields HasManifests _ (hub.works ns name)

  ocm_get-Calm : (name ns : String) → Calm (ocm_get server name ns)
  ocm_get-Calm name ns =
      read-Yields Anything _
        (λ w. weaken HasManifests Anything _ (hub.works ns name w) (λ mw h. tt))

  pub ocm_list-Calm : (sel : Option (LabelSelector R)) (ns : String) → Calm (ocm_list server sel ns)
  ocm_list-Calm sel ns = read-Yields Anything _ (hub.lists ns sel)

  pub get_mw-Yields : (key : NamespacedName) → Yields {S = Run R W} HasManifests (get_mw server key)
  get_mw-Yields key = read-Yields HasManifests _ (hub.cached key)

  pub apply_mw-Calm :
      (mw : ManifestWork R) (f : ManifestWork R → ManifestWork R) → Calm (apply_mw server mw f)
  apply_mw-Calm mw f = write-Yields Anything _ _ (hub.applies mw f)

  pub delete_api_mw-Calm : (mw : ManifestWork R) → Calm (delete_api_mw server mw)
  delete_api_mw-Calm mw = write-Yields Anything _ _ (hub.deletes mw)

  pub delete_mw_named-Calm : (key : NamespacedName) → Calm (delete_mw_named server key)
  delete_mw_named-Calm key = write-Yields Anything _ _ (hub.deletes_named key)

  on_namespace-Calm :
      (name : String) (again : Io (Run R W) String) (found : Result (ManifestWork R))
      → Calm again
      → IsCalm found
      → Calm (on_namespace (ocm_get server name) again found)
  unfolding on_namespace
  on_namespace-Calm name again (ok mw) k h = search calm_rules
  on_namespace-Calm name again (err not_found) k h = k
  on_namespace-Calm name again (err (failed e)) k h = search calm_rules
  on_namespace-Calm name again (err panicked) k h = absurd h

  missing-Calm : {A : Type 0} → Calm {S = Run R W} {A = A} (raise not_found)
  unfolding raise
  missing-Calm = record { fine = λ s. tt }

  search_again-Calm :
      (name : String) (namespaces : List String)
      → Calm (search_namespace (ocm_get server name) (some not_found) namespaces)
  unfolding search_namespace
  search_again-Calm name [] = missing-Calm
  search_again-Calm name (ns ∷ rest) =
      let k = search_again-Calm name rest in search (calm_rules, ocm_get-Calm, on_namespace-Calm)

  search_namespace-Calm :
      (name : String) (namespaces : List String)
      → Calm (search_namespace (ocm_get server name) none namespaces)
  unfolding search_namespace
  search_namespace-Calm name [] = search calm_rules
  search_namespace-Calm name (ns ∷ rest) =
      let k = search_again-Calm name rest in search (calm_rules, ocm_get-Calm, on_namespace-Calm)

  pub pod_namespace-Calm : (name : String) → Calm (pod_namespace server name)
  unfolding get_distributed_pod_namespace
  pod_namespace-Calm name = search (calm_rules, list_namespaces-Calm, search_namespace-Calm)

  on_found-Calm :
      (name : String) (held : Option Error) (again : Io (Run R W) (Option (ManifestWork R)))
      (found : Result (ManifestWork R))
      → Calm (return_nil (ocm_get server name) held)
      → Calm again
      → IsCalm found
      → Calm (on_found (ocm_get server name) held again found)
  unfolding on_found
  on_found-Calm name held again (ok mw) n k h = search calm_rules
  on_found-Calm name held again (err not_found) n k h = k
  on_found-Calm name held again (err (failed e)) n k h = n
  on_found-Calm name held again (err panicked) n k h = absurd h

  search_more-Calm :
      (name : String) (namespaces : List String)
      → Calm (search_current (ocm_get server name) (some not_found) namespaces)
  unfolding search_current
  search_more-Calm name [] = missing-Calm
  search_more-Calm name (ns ∷ rest) =
      attempt-Yields Anything (ocm_get server name ns) _ (ocm_get-Calm name ns) (λ found h.
        on_found-Calm name (some not_found) _ found missing-Calm (search_more-Calm name rest) h)

  search_current-Calm :
      (name : String) (namespaces : List String)
      → Calm (search_current (ocm_get server name) none namespaces)
  unfolding search_current
  search_current-Calm name [] = search calm_rules
  search_current-Calm name (ns ∷ rest) =
      attempt-Yields Anything (ocm_get server name ns) _ (ocm_get-Calm name ns) (λ found h.
        on_found-Calm name none _ found (search calm_rules) (search_more-Calm name rest) h)

  pub current_leader-Calm :
      (name : String)
      → Calm
          (get_distributed_sidekick_current_leader (ocm_get server name) (list_namespaces server))
  unfolding get_distributed_sidekick_current_leader
  current_leader-Calm name = search (calm_rules, list_namespaces-Calm, search_current-Calm)
