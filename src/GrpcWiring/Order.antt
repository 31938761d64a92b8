-- ===== src/GrpcWiring/Order.antt =====
-- In which order the wiring (pkg/controllers/apps/grpc_wiring.go) changes objects: it changes none
-- whose changes are ordered.
use sidekick.Prelude.{String, not_found, failed, panicked, Result, ok, err}
use sidekick.Api.Meta.{NamespacedName}
use sidekick.Api.Sidekick.{Sidekick}
use sidekick.Api.Wiring.{Secret, ServiceExport}
use sidekick.Api.Library.{Library}
use sidekick.Cluster.{Server, apply_export, get_pod}
use sidekick.Cluster.Keeps.{Keeps-write, keeps_rules}
use sidekick.Reconcile.Rules.{Orderly}
use sidekick.GrpcWiring.Secrets.{key_server, create_keys, ensure_found, ensure_grpc_keys}
use sidekick.GrpcWiring.Export.{service_export, ensure_service_export}

module _ {R W : Type 0} (lib : Library R) (server : Server R W) where
  secret-Orderly :
      (key : NamespacedName) (f : Secret → Secret)
      → Orderly lib ((key_server server).on_apply_secret key f)
  secret-Orderly key f = Keeps-write _ _ (λ r log h. (tt, h))

  create_keys-Orderly :
      (sidekick : Sidekick R) → Orderly lib (create_keys (key_server server) lib sidekick)
  unfolding create_keys
  create_keys-Orderly sidekick = search (keeps_rules, secret-Orderly) depth 9

  ensure_found-Orderly :
      (sidekick : Sidekick R) (found : Result Secret)
      → Orderly lib (ensure_found (key_server server) lib sidekick found)
  unfolding ensure_found
  ensure_found-Orderly sidekick (ok existing) = search (keeps_rules, create_keys-Orderly)
  ensure_found-Orderly sidekick (err not_found) = create_keys-Orderly sidekick
  ensure_found-Orderly sidekick (err (failed e)) = search keeps_rules
  ensure_found-Orderly sidekick (err panicked) = search keeps_rules

  pub ensure_grpc_keys-Orderly :
      (sidekick : Sidekick R) → Orderly lib (ensure_grpc_keys (key_server server) lib sidekick)
  unfolding ensure_grpc_keys
  ensure_grpc_keys-Orderly sidekick = search (keeps_rules, ensure_found-Orderly)

  apply_export-Orderly : (export : ServiceExport) → Orderly lib (apply_export server export)
  apply_export-Orderly export = Keeps-write _ _ (λ r log h. (tt, h))

  service_export-Orderly :
      (getenv : String → String) (domain : String) (sidekick : Sidekick R)
      → Orderly lib (service_export getenv (get_pod server) domain sidekick)
  unfolding service_export
  service_export-Orderly getenv domain sidekick = search keeps_rules

  pub ensure_service_export-Orderly :
      (getenv : String → String) (domain : String) (sidekick : Sidekick R)
      → Orderly lib (ensure_service_export getenv server domain sidekick)
  unfolding ensure_service_export
  ensure_service_export-Orderly getenv domain sidekick =
      search (keeps_rules, service_export-Orderly, apply_export-Orderly)
