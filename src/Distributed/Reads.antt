-- ===== src/Distributed/Reads.antt =====
-- That the searches for the ManifestWork of a distributed Sidekick (pkg/controllers/apps/distributed.go)
-- change nothing.
use sidekick.Prelude.{
  String, Option, none, some, List, [], ◌∷◌, Error, not_found, failed, panicked, Result, ok, err,
}
use sidekick.Api.Meta.{NamespacedName}
use sidekick.Api.Sidekick.{Sidekick}
use sidekick.Api.ManifestWork.{ManifestWork}
use sidekick.Cluster.{Io, Run, Server, Event, list_namespaces, ocm_get}
use sidekick.Cluster.Keeps.{Keeps, keeps_rules}
use sidekick.Distributed.Search.{
  return_nil, on_found, search_current, get_distributed_sidekick_current_leader, on_namespace,
  search_namespace, get_distributed_pod_namespace,
}
use sidekick.Distributed.Works.{pod_namespace, own_mw}

-- A search makes no change, so it keeps every property of the log.
module _ {R W : Type 0} (server : Server R W) (P : List (Event R) → Type 0) (name : String) where
  on_namespace-Keeps :
      (again : Io (Run R W) String) (found : Result (ManifestWork R))
      → Keeps P again
      → Keeps P (on_namespace (ocm_get server name) again found)
  unfolding on_namespace
  on_namespace-Keeps again (ok mw) k = search keeps_rules
  on_namespace-Keeps again (err not_found) k = k
  on_namespace-Keeps again (err (failed e)) k = search keeps_rules
  on_namespace-Keeps again (err panicked) k = search keeps_rules

  search_namespace-Keeps :
      (held : Option Error) (namespaces : List String)
      → Keeps P (search_namespace (ocm_get server name) held namespaces)
  unfolding search_namespace
  search_namespace-Keeps none [] = search keeps_rules
  search_namespace-Keeps (some e) [] = search keeps_rules
  search_namespace-Keeps held (ns ∷ rest) =
      let k = search_namespace-Keeps (some not_found) rest in
      search (keeps_rules, on_namespace-Keeps)

  return_nil-Keeps : (held : Option Error) → Keeps P (return_nil (ocm_get server name) held)
  return_nil-Keeps none = search keeps_rules
  return_nil-Keeps (some e) = search keeps_rules

  on_found-Keeps :
      (held : Option Error) (again : Io (Run R W) (Option (ManifestWork R)))
      (found : Result (ManifestWork R))
      → Keeps P again
      → Keeps P (on_found (ocm_get server name) held again found)
  unfolding on_found
  on_found-Keeps held again (ok mw) k = search keeps_rules
  on_found-Keeps held again (err not_found) k = k
  on_found-Keeps held again (err (failed e)) k = return_nil-Keeps held
  on_found-Keeps held again (err panicked) k = search keeps_rules

  search_current-Keeps :
      (held : Option Error) (namespaces : List String)
      → Keeps P (search_current (ocm_get server name) held namespaces)
  unfolding search_current
  search_current-Keeps held [] = return_nil-Keeps held
  search_current-Keeps held (ns ∷ rest) =
      let k = search_current-Keeps (some not_found) rest in search (keeps_rules, on_found-Keeps)

  pub pod_namespace-Keeps : Keeps P (pod_namespace server name)
  unfolding get_distributed_pod_namespace
  pod_namespace-Keeps = search (keeps_rules, search_namespace-Keeps)

  pub current_leader-Keeps :
      Keeps P
        (get_distributed_sidekick_current_leader (ocm_get server name) (list_namespaces server))
  unfolding get_distributed_sidekick_current_leader
  current_leader-Keeps = search (keeps_rules, search_current-Keeps)

module _ {R W : Type 0} (server : Server R W) where
  pub own_mw-Keeps :
      (P : List (Event R) → Type 0) (req : NamespacedName) (sidekick : Sidekick R)
      → Keeps P (own_mw server req sidekick)
  unfolding own_mw
  own_mw-Keeps P req sidekick = let k = pod_namespace-Keeps server P req.name in search keeps_rules
