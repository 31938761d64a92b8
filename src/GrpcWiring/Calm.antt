-- ===== src/GrpcWiring/Calm.antt =====
-- That the wiring (pkg/controllers/apps/grpc_wiring.go) does not panic.
use sidekick.Prelude.{
  eqb, Bool, true, false, String, ◌==◌, Option, none, some, if◌then◌else◌, not_found, failed,
  panicked, Result, ok, err, ◌||◌,
}
use sidekick.Prelude.Lists.{length}
use sidekick.Api.Meta.{NamespacedName}
use sidekick.Api.Sidekick.{Sidekick, Container}
use sidekick.Api.Wiring.{Secret, ServiceExport}
use sidekick.Api.Library.{Library}
use sidekick.Cluster.{Server, get_pod, apply_export}
use sidekick.Cluster.Yields.{
  IsCalm, Anything, Calm, bind-IsCalm, if-IsCalm, read-Yields, write-Yields, calm_rules,
}
use sidekick.Token.{Crypto, encrypt_string, new_gcm, derive_key}
use sidekick.GrpcWiring.{
  env_pod_name, env_pod_namespace, env_snapshot_name, env_slice_name, find_env, get_env,
  slice_or_error, found_or_error, get_sidekick_container, set_signing_key, set_snapshot_grant,
  get_slice_name, grpc_slice_address, set_grpc_address, slice_dns,
}
use sidekick.GrpcWiring.Names.{deployment_name_for_pod}
use sidekick.GrpcWiring.Secrets.{key_server, create_keys, ensure_found, ensure_grpc_keys}
use sidekick.GrpcWiring.Export.{export_slice, service_export, ensure_service_export}

unless-IsCalm :
    {A : Type 0} (b : Bool) (e : String) (a : A) → IsCalm (if b then err (failed e) else ok a)
unless-IsCalm true e a = tt
unless-IsCalm false e a = tt

encrypt_string-IsCalm : (c : Crypto) (key text : String) → IsCalm (encrypt_string c key text)
unfolding encrypt_string new_gcm
encrypt_string-IsCalm c key text =
    bind-IsCalm (if key == "" then err (failed "token: key must not be empty") else ok tt) _
      (unless-IsCalm (key == "") _ tt)
      (λ _.
        bind-IsCalm (new_gcm c key) _
          (if-IsCalm (eqb (length (derive_key c key)) 32) (ok (derive_key c key)) _ tt tt)
          (λ _. tt))

module _ {R : Type 0} where
  found_or_error-IsCalm : (found : Option (Container R)) → IsCalm (found_or_error found)
  found_or_error-IsCalm none = tt
  found_or_error-IsCalm (some cont) = tt

  pub set_signing_key-IsCalm : (sk : Sidekick R) (key : String) → IsCalm (set_signing_key sk key)
  unfolding set_signing_key
  set_signing_key-IsCalm sk key =
      bind-IsCalm (found_or_error (get_sidekick_container sk)) _ (found_or_error-IsCalm _) (λ _. tt)

  pub set_snapshot_grant-IsCalm :
      (c : Crypto) (sk : Sidekick R) (key : String) → IsCalm (set_snapshot_grant c sk key)
  unfolding set_snapshot_grant
  set_snapshot_grant-IsCalm c sk key =
      bind-IsCalm (found_or_error (get_sidekick_container sk)) _ (found_or_error-IsCalm _) (λ cont.
        if-IsCalm (get_env cont env_snapshot_name == "") (ok sk) _ tt (
          bind-IsCalm (encrypt_string c key (get_env cont env_snapshot_name)) _
            (encrypt_string-IsCalm c key (get_env cont env_snapshot_name)) (λ _. tt)))

grpc_slice_address-IsCalm : (getenv : String → String) → IsCalm (grpc_slice_address getenv)
unfolding grpc_slice_address
grpc_slice_address-IsCalm getenv =
    unless-IsCalm (getenv env_pod_name == "" || getenv env_pod_namespace == "") _
      (slice_dns (deployment_name_for_pod (getenv env_pod_name)) (getenv env_pod_namespace))

slice_or_error-IsCalm : (slice : Option String) → IsCalm (slice_or_error slice)
slice_or_error-IsCalm none = tt
slice_or_error-IsCalm (some value) = tt

module _ {R : Type 0} (getenv : String → String) where
  pub set_grpc_address-IsCalm : (sk : Sidekick R) → IsCalm (set_grpc_address getenv sk)
  unfolding set_grpc_address
  set_grpc_address-IsCalm sk =
      bind-IsCalm (found_or_error (get_sidekick_container sk)) _ (found_or_error-IsCalm _) (λ cont.
        bind-IsCalm (grpc_slice_address getenv) _ (grpc_slice_address-IsCalm getenv) (λ _. tt))

  export_slice-IsCalm : (sk : Sidekick R) → IsCalm (export_slice getenv sk)
  unfolding export_slice get_slice_name
  export_slice-IsCalm sk =
      bind-IsCalm (get_slice_name sk) _
        (bind-IsCalm (found_or_error (get_sidekick_container sk)) _ (found_or_error-IsCalm _)
          (λ cont. slice_or_error-IsCalm (find_env env_slice_name cont.env)))
        (λ slice_name.
          unless-IsCalm (getenv env_pod_name == "" || getenv env_pod_namespace == "") _ slice_name)

-- An API server whose calls for Secrets, ServiceExports and pods, and the random source, may fail,
-- but do not panic.
pub record IsWiring {R W : Type 0} (server : Server R W) : Type 0 where
  pub own_pods : (key : NamespacedName) (w : W) → IsCalm (server.on_get_pod key w).0
  pub gets : (key : NamespacedName) (w : W) → IsCalm (server.on_get_secret key w).0
  pub applies :
      (key : NamespacedName) (f : Secret → Secret) (w : W)
      → IsCalm (server.on_apply_secret key f w).0
  pub draws : (w : W) → IsCalm (server.on_random_key w).0
  pub exports : (e : ServiceExport) (w : W) → IsCalm (server.on_apply_export e w).0

module _ {R W : Type 0} (lib : Library R) (server : Server R W) (wiring : IsWiring server) where
  get_secret-Calm : (key : NamespacedName) → Calm ((key_server server).on_get_secret key)
  get_secret-Calm key = read-Yields Anything _ (wiring.gets key)

  apply_secret-Calm :
      (key : NamespacedName) (f : Secret → Secret)
      → Calm ((key_server server).on_apply_secret key f)
  apply_secret-Calm key f = write-Yields Anything _ _ (wiring.applies key f)

  draw-Calm : Calm ((key_server server).on_random_key)
  draw-Calm = read-Yields Anything _ wiring.draws

  create_keys-Calm : (sk : Sidekick R) → Calm (create_keys (key_server server) lib sk)
  unfolding create_keys
  create_keys-Calm sk = search (calm_rules, get_secret-Calm, apply_secret-Calm, draw-Calm) depth 9

  ensure_found-Calm :
      (sk : Sidekick R) (found : Result Secret)
      → IsCalm found
      → Calm (ensure_found (key_server server) lib sk found)
  unfolding ensure_found
  ensure_found-Calm sk (ok existing) h = search (calm_rules, create_keys-Calm)
  ensure_found-Calm sk (err not_found) h = create_keys-Calm sk
  ensure_found-Calm sk (err (failed e)) h = search calm_rules
  ensure_found-Calm sk (err panicked) h = absurd h

  pub ensure_grpc_keys-Calm : (sk : Sidekick R) → Calm (ensure_grpc_keys (key_server server) lib sk)
  unfolding ensure_grpc_keys
  ensure_grpc_keys-Calm sk = search (calm_rules, get_secret-Calm, ensure_found-Calm)

  apply_export-Calm : (e : ServiceExport) → Calm (apply_export server e)
  apply_export-Calm e = write-Yields Anything _ _ (wiring.exports e)

  own_pod-Calm : (key : NamespacedName) → Calm (get_pod server key)
  own_pod-Calm key = read-Yields Anything _ (wiring.own_pods key)

  pub ensure_service_export-Calm :
      (getenv : String → String) (domain : String) (sk : Sidekick R)
      → Calm (ensure_service_export getenv server domain sk)
  unfolding ensure_service_export service_export
  ensure_service_export-Calm getenv domain sk =
      let sliced = export_slice-IsCalm getenv sk in
      search (calm_rules, sliced, own_pod-Calm, apply_export-Calm) depth 9
