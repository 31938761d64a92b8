-- ===== src/GrpcWiring/Grant.antt =====
-- The grant that the operator hands to a sidekick (`setSnapshotGrant` of
-- pkg/controllers/apps/grpc_wiring.go) names, to the service, the Snapshot that the sidekick is for.
use sidekick.Prelude.{String, ◌≡◌, ◌≢◌, ap, some, arith, get_or, eq_iff, ok, >>=-eq-ok}
use sidekick.Api.Sidekick.{Sidekick, Container}
use sidekick.Token.{Crypto, CryptoLaws, encrypt_string, decrypt_string}
use sidekick.Token.RoundTrip.{decrypt-encrypt}
use sidekick.GrpcWiring.{
  get_sidekick_container, find_env, get_env, set_env, put_container, set_snapshot_grant,
  env_snapshot_name, env_grpc_snapshot_token,
}
use sidekick.GrpcWiring.Env.{wal_g_env, wal_g_env-put, wal_g_env-some}

module _ {R : Type 0} (c : Crypto) where
  set_snapshot_grant-put :
      (sk : Sidekick R) (cont : Container R) (key name grant : String)
      → get_sidekick_container sk ≡ some cont
      → find_env env_snapshot_name cont.env ≡ some name
      → name ≢ ""
      → encrypt_string c key name ≡ ok grant
      → set_snapshot_grant c sk key
        ≡ ok (put_container sk (set_env cont env_grpc_snapshot_token grant))
  unfolding set_snapshot_grant
  set_snapshot_grant-put sk cont key name grant there named n encrypted =
      let value : get_env cont env_snapshot_name ≡ name = ap (get_or "") named in
      rw (there, value) (ground (arith, eq_iff name ""))

  -- Under the laws of the cryptography: where a Snapshot is named in the environment, and its name
  -- comes back from its bytes, a grant is set in the environment, and under the Sidekick's snapshot
  -- key, if that is not empty, the grant is decrypted to the name.
  pub set_snapshot_grant-opens :
      (laws : CryptoLaws c) (sk : Sidekick R) (key name : String)
      → key ≢ ""
      → name ≢ ""
      → c.text (c.bytes name) ≡ name
      → wal_g_env sk env_snapshot_name ≡ some name
      → (sk' : Sidekick R) × (grant : String) × (set_snapshot_grant c sk key ≡ ok sk')
        × (wal_g_env sk' env_grpc_snapshot_token ≡ some grant)
        × (decrypt_string c key grant ≡ ok name)
  set_snapshot_grant-opens laws sk key name k n back named =
      let (cont, there, found) = wal_g_env-some sk env_snapshot_name name named in
      let (grant, encrypted, decrypted) =
        >>=-eq-ok (encrypt_string c key name) (decrypt_string c key)
          (decrypt-encrypt c laws key name k back) in
      (
        put_container sk (set_env cont env_grpc_snapshot_token grant),
        grant,
        set_snapshot_grant-put sk cont key name grant there found n encrypted,
        wal_g_env-put sk cont env_grpc_snapshot_token env_grpc_snapshot_token grant there,
        decrypted,
      )
