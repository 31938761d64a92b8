-- ===== src/Tests/Wiring.antt =====
-- The theorems about the wiring of the service, at concrete inputs.
use Prim.Native.String.{◌++◌ as append_text}
use sidekick.Prelude.{
  ℕ, String, ◌≡◌, ◌≢◌, refl, none, some, [], ◌∷◌, arith, eq_iff, ok, ◌==◌, if◌then◌else◌, true,
  false,
}
use sidekick.Prelude.Maps.{get, lookup}
use sidekick.Api.Meta.{NamespacedName, OwnerReference}
use sidekick.Api.Pod.{Pod, PodPhase, RestartPolicy}
use sidekick.Api.Sidekick.{Sidekick, Container}
use sidekick.Token.{decrypt_string}
use sidekick.GrpcWiring.{
  env_grpc_snapshot_token, env_grpc_server_address, env_snapshot_name, set_signing_key,
  set_snapshot_grant, set_grpc_address, grpc_slice_address, get_slice_name, find_wal_g,
  replace_wal_g, find_env, upsert_env,
}
use sidekick.GrpcWiring.Names.{deployment_name_for_pod, deployment_name_for_pod-dashed, dashed}
use sidekick.GrpcWiring.Env.{wal_g_env}
use sidekick.GrpcWiring.Grant.{set_snapshot_grant-opens}
use sidekick.Cluster.{Io, ◌>>=◌}
use sidekick.Api.Wiring.{Secret, ServiceExport}
use sidekick.GrpcWiring.Secrets.{populate_keys, populate_keys-keys, kept_or}
use sidekick.GrpcWiring.Domain.{find_domain, trim_left, trim_right, strip_prefix}
use sidekick.GrpcWiring.Domain.Resolved.{search_line, find_domain-search_line}
use sidekick.GrpcWiring.Export.{service_export, export_slice}
use sidekick.GrpcWiring.Address.{set_grpc_address-exported}
use sidekick.SnapshotServer.Auth.{keys_of}
use sidekick.Tests.Cipher.{cipher, cipher_laws, key_ne}
use sidekick.Tests.Fixtures.{container, fresh, pod}

abbrev wal_g : Container ℕ
wal_g = record container {
  name = "wal-g";
  env =
      record { name = "SNAPSHOT_NAME"; value = "snap-1"; value_from = none }
      ∷ record { name = "SLICE_NAME"; value = "blue"; value_from = none }
      ∷ [];
}

abbrev helper : Container ℕ
helper = record container { name = "helper" }

abbrev archiver : Sidekick ℕ
archiver =
    let sk = fresh RestartPolicy.never in
    record sk { spec = record (sk.spec) { containers = helper ∷ wal_g ∷ [] } }

signed : (sk : Sidekick ℕ) × (set_signing_key archiver "k1" ≡ ok sk)
unfolding set_signing_key find_wal_g replace_wal_g upsert_env
signed = (_, refl)

name_ne : ◌≢◌ {A = String} "snap-1" ""
name_ne = ground (arith, eq_iff "snap-1" "")

named : wal_g_env archiver env_snapshot_name ≡ some "snap-1"
unfolding find_wal_g find_env
named = refl

set_snapshot_grant-opens_example :
    (sk : Sidekick ℕ) × (grant : String) × (set_snapshot_grant cipher archiver "k2" ≡ ok sk)
    × (wal_g_env sk env_grpc_snapshot_token ≡ some grant)
    × (decrypt_string cipher "k2" grant ≡ ok "snap-1")
set_snapshot_grant-opens_example =
    set_snapshot_grant-opens cipher cipher_laws archiver "k2" "snap-1" key_ne name_ne refl named

abbrev owner : OwnerReference
owner = record {
  kind = "Sidekick";
  name = "archiver";
  uid = "u1";
  controller = some true;
  block_owner_deletion = some true;
}

-- The signing key is there, and the snapshot key is missing.
abbrev half_filled : Secret
half_filled = record { owner_references = []; contents = some (("signing-key", "k1") ∷ []) }

populate_keys-keys_example :
    keys_of (populate_keys owner "snap-1" "k2" half_filled).contents
    ≡ ok (kept_or "k1" "snap-1", kept_or "" "k2")
unfolding get lookup
populate_keys-keys_example = populate_keys-keys owner "snap-1" "k2" half_filled name_ne key_ne

deployment_name_for_pod-dashed_example :
    deployment_name_for_pod (dashed "kubedb-sidekick" (dashed "5f9d777f8f" "rjvdq"))
    ≡ "kubedb-sidekick"
deployment_name_for_pod-dashed_example =
    deployment_name_for_pod-dashed "kubedb-sidekick" "5f9d777f8f" "rjvdq" refl refl

abbrev getenv : String → String
getenv name = if name == "POD_NAME" then "op-1-x" else "ops"

addressed : (sk : Sidekick ℕ) × (set_grpc_address getenv archiver ≡ ok sk)
unfolding set_grpc_address grpc_slice_address find_wal_g replace_wal_g upsert_env
addressed = (_, refl)

abbrev fetch : NamespacedName → Io ℕ (Pod ℕ)
fetch key s = (ok (pod "op-1-x" PodPhase.running), s)

exported : (e : ServiceExport) × ((service_export getenv fetch "cluster.local" archiver 0).0 ≡ ok e)
unfolding service_export ◌>>=◌ export_slice get_slice_name find_wal_g find_env
exported = (_, refl)

set_grpc_address-exported_example :
    (first : String) × (alias : String) × (exported.0.aliases ≡ first ∷ alias ∷ [])
    × (wal_g_env addressed.0 env_grpc_server_address ≡ some (append_text alias ":50051"))
set_grpc_address-exported_example =
    set_grpc_address-exported getenv fetch "cluster.local" archiver addressed.0 archiver 0
      exported.0 addressed.1 exported.1

domain_ne : ◌≢◌ {A = String} "cluster.local" ""
domain_ne = ground (arith, eq_iff "cluster.local" "")

find_domain-search_line_example :
    find_domain (
      ok (record {
        lines = "# made by the kubelet" ∷ search_line "svc" "cluster.local" ∷ [];
        broken = false;
      }))
    ≡ "cluster.local"
unfolding trim_left trim_right strip_prefix
find_domain-search_line_example =
    find_domain-search_line "svc" "cluster.local" refl refl refl domain_ne false
      ("# made by the kubelet" ∷ []) [] refl refl
