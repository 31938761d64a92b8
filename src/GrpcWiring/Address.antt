-- ===== src/GrpcWiring/Address.antt =====
-- The address that a sidekick is given is one under which the service is exported
-- (`setGRPCAddress` and `ensureServiceExport` of pkg/controllers/apps/grpc_wiring.go).
use Prim.Native.String.{◌++◌ as append_text}
use mathlib.Core.Path.{subst}
use sidekick.Prelude.{String, ◌≡◌, sym, ap, ◌∙◌, some, [], ◌∷◌, arith, ok, >>=-eq-ok, ok-injective}
use sidekick.Api.Meta.{NamespacedName}
use sidekick.Api.Pod.{Pod}
use sidekick.Api.Sidekick.{Sidekick}
use sidekick.Cluster.{Io, pure, lift}
use sidekick.Cluster
use sidekick.GrpcWiring.{
  get_sidekick_container, found_or_error, slice_dns, grpc_slice_address, set_grpc_address,
  env_pod_name, env_pod_namespace, env_grpc_server_address,
}
use sidekick.GrpcWiring.Names.{deployment_name_for_pod}
use sidekick.GrpcWiring.Env.{wal_g_env, wal_g_env-put, found-cases}
use sidekick.Api.Wiring.{ServiceExport}
use sidekick.GrpcWiring.Export.{own_pod, export_slice, service_export}

abbrev own_dns : (String → String) → String
own_dns getenv =
    slice_dns (deployment_name_for_pod (getenv env_pod_name)) (getenv env_pod_namespace)

grpc_slice_address-own :
    (getenv : String → String) (addr : String)
    → grpc_slice_address getenv ≡ ok addr
    → addr ≡ own_dns getenv
unfolding grpc_slice_address
grpc_slice_address-own getenv addr h = ground arith

module _ {R : Type 0} (getenv : String → String) where
  service_export-own :
      {S : Type 0} (fetch : NamespacedName → Io S (Pod R)) (domain : String) (sk : Sidekick R)
      (s : S) (e : ServiceExport)
      → (service_export getenv fetch domain sk s).0 ≡ ok e
      → (first : String) × (e.aliases ≡ first ∷ own_dns getenv ∷ [])
  unfolding service_export pure
  service_export-own fetch domain sk s e h =
      let (slice, s', _, rest) = Cluster.>>=-eq-ok (lift (export_slice getenv sk)) _ s h in
      let (self, _, _, same) = Cluster.>>=-eq-ok (fetch (own_pod getenv)) _ s' rest in
      (
        append_text (deployment_name_for_pod (getenv env_pod_name))
            (append_text "." (append_text (getenv env_pod_namespace) (append_text ".svc." domain))),
        sym (ap (λ x. x.aliases) (ok-injective _ _ same)),
      )

  set_grpc_address-env :
      (sk sk' : Sidekick R)
      → set_grpc_address getenv sk ≡ ok sk'
      → wal_g_env sk' env_grpc_server_address ≡ some (append_text (own_dns getenv) ":50051")
  unfolding set_grpc_address
  set_grpc_address-env sk sk' h =
      let (cont, found, rest) = >>=-eq-ok (found_or_error (get_sidekick_container sk)) _ h in
      let (addr, address, same) = >>=-eq-ok (grpc_slice_address getenv) _ rest in
      subst
        (λ s. wal_g_env s env_grpc_server_address ≡ some (append_text (own_dns getenv) ":50051"))
        (ok-injective _ _ same)
        (wal_g_env-put sk cont env_grpc_server_address env_grpc_server_address
            (append_text addr ":50051") (found-cases sk cont found)
          ∙ ap (λ a. some (append_text a ":50051")) (grpc_slice_address-own getenv addr address))

  -- Where both are made, the address that a sidekick is given is, but for the port, the second
  -- alias of the export that the same operator makes for any Sidekick.
  pub set_grpc_address-exported :
      {S : Type 0} (fetch : NamespacedName → Io S (Pod R)) (domain : String)
      (sk sk' other : Sidekick R) (s : S) (e : ServiceExport)
      → set_grpc_address getenv sk ≡ ok sk'
      → (service_export getenv fetch domain other s).0 ≡ ok e
      → (first : String) × (alias : String) × (e.aliases ≡ first ∷ alias ∷ [])
        × (wal_g_env sk' env_grpc_server_address ≡ some (append_text alias ":50051"))
  set_grpc_address-exported fetch domain sk sk' other s e h k =
      let (first, aliases) = service_export-own fetch domain other s e k in
      (first, own_dns getenv, aliases, set_grpc_address-env sk sk' h)
