-- ===== src/GrpcWiring.antt =====
-- How the address and the keys of the service reach a sidekick: the changes to its container in
-- pkg/controllers/apps/grpc_wiring.go. The environment of the operator is a parameter.
pub mod Names
pub mod Domain
pub mod Env
pub mod Grant
pub mod Secrets
pub mod Export
pub mod Address
pub mod Order
pub mod Calm
use Prim.Native.String.{◌++◌ as append_text}
use sidekick.Prelude.{
  String, Bool, ◌||◌, Option, none, some, List, [], ◌∷◌, ◌==◌, if◌then◌else◌, get_or, Result, ok,
  err, failed, ◌>>=◌,
}
use sidekick.Api.Pod.{EnvVar}
use sidekick.Api.Sidekick.{Sidekick, SidekickSpec, Container}
use sidekick.Token.{Crypto, encrypt_string}
use sidekick.GrpcWiring.Names.{deployment_name_for_pod}

abbrev pub env_slice_name : String
env_slice_name = "SLICE_NAME"

abbrev pub env_pod_name : String
env_pod_name = "POD_NAME"

abbrev pub env_pod_namespace : String
env_pod_namespace = "POD_NAMESPACE"

abbrev pub env_grpc_server_address : String
env_grpc_server_address = "GRPC_SERVER_ADDRESS"

abbrev pub env_grpc_token_secret : String
env_grpc_token_secret = "GRPC_TOKEN_SECRET"

abbrev pub env_grpc_snapshot_token : String
env_grpc_snapshot_token = "GRPC_SNAPSHOT_TOKEN"

abbrev pub env_snapshot_name : String
env_snapshot_name = "SNAPSHOT_NAME"

abbrev pub is_wal_g : {R : Type 0} → Container R → Bool
is_wal_g cont = cont.name == "wal-g"

abbrev pub slice_or_error : Option String → Result String
slice_or_error none = err (failed "no SLICE_NAME env in wal-g container")
slice_or_error (some value) = ok value

module _ {R : Type 0} where
  -- The value of the first variable of that name.
  unfoldable pub find_env : String → List (EnvVar R) → Option String
  find_env name [] = none
  find_env name (e ∷ rest) = if e.name == name then some e.value else find_env name rest

  abbrev pub get_env : Container R → String → String
  get_env cont name = get_or "" (find_env name cont.env)

  unfoldable pub upsert_env : String → String → List (EnvVar R) → List (EnvVar R)
  upsert_env name value [] = record { name = name; value = value; value_from = none } ∷ []
  upsert_env name value (e ∷ rest) =
      if e.name == name then record e { value = value } ∷ rest else e ∷ upsert_env name value rest

  abbrev pub set_env : Container R → String → String → Container R
  set_env cont name value = record cont { env = upsert_env name value cont.env }

  unfoldable pub find_wal_g : List (Container R) → Option (Container R)
  find_wal_g [] = none
  find_wal_g (cont ∷ rest) = if is_wal_g cont then some cont else find_wal_g rest

  abbrev pub get_sidekick_container : Sidekick R → Option (Container R)
  get_sidekick_container sk = find_wal_g sk.spec.containers

  -- A write through the pointer that `getSidekickContainer` returns.
  unfoldable pub replace_wal_g : Container R → List (Container R) → List (Container R)
  replace_wal_g new [] = []
  replace_wal_g new (cont ∷ rest) =
      if is_wal_g cont then new ∷ rest else cont ∷ replace_wal_g new rest

  abbrev pub put_container : Sidekick R → Container R → Sidekick R
  put_container sk new = record sk {
    spec = record (sk.spec) { containers = replace_wal_g new sk.spec.containers };
  }

  abbrev pub found_or_error : Option (Container R) → Result (Container R)
  found_or_error none = err (failed "wal-g container not found")
  found_or_error (some cont) = ok cont

  unfoldable pub set_signing_key : Sidekick R → String → Result (Sidekick R)
  set_signing_key sk key = do
    cont ← found_or_error (get_sidekick_container sk)
    ok (put_container sk (set_env cont env_grpc_token_secret key))

  unfoldable pub set_snapshot_grant : Crypto → Sidekick R → String → Result (Sidekick R)
  set_snapshot_grant c sk snapshot_key = do
    cont ← found_or_error (get_sidekick_container sk)
    if get_env cont env_snapshot_name == "" then ok sk else (do
      grant ← encrypt_string c snapshot_key (get_env cont env_snapshot_name)
      ok (put_container sk (set_env cont env_grpc_snapshot_token grant)))

  unfoldable pub get_slice_name : Sidekick R → Result String
  get_slice_name sk = do
    cont ← found_or_error (get_sidekick_container sk)
    slice_or_error (find_env env_slice_name cont.env)

unfoldable pub slice_dns : String → String → String
slice_dns svc_name namespace =
    append_text svc_name (append_text "." (append_text namespace ".svc.slice.local"))

-- `os.Getenv` is a parameter.
unfoldable pub grpc_slice_address : (String → String) → Result String
grpc_slice_address getenv =
    if getenv env_pod_name == "" || getenv env_pod_namespace == ""
    then err (failed "POD_NAME/POD_NAMESPACE env not set")
    else ok (slice_dns (deployment_name_for_pod (getenv env_pod_name)) (getenv env_pod_namespace))

unfoldable pub set_grpc_address :
    {R : Type 0} → (String → String) → Sidekick R → Result (Sidekick R)
set_grpc_address getenv sk = do
  cont ← found_or_error (get_sidekick_container sk)
  addr ← grpc_slice_address getenv
  ok (put_container sk (set_env cont env_grpc_server_address (append_text addr ":50051")))
