-- ===== src/SnapshotServer/Auth.antt =====
-- Authentication of a request: `authenticate` and `grpcKeys` of pkg/snapshotserver/grpc.go. The
-- Secret that the API server returns, and the two readings of the clock, are arguments: the token
-- is verified at the first reading and its nonce used at the second.
pub mod Sound
use sidekick.Prelude.{
  String, Bool, true, false, not, ◌||◌, Option, none, some, ℤ, ◌==◌, if◌then◌else◌, get_or, Result,
  ok, err, failed, ◌>>=◌, ◌>>◌,
}
use sidekick.Prelude.Maps.{GoMap, Entries, get}
use sidekick.Token.{Bytes, Claims, Crypto, request_digest, open_token, verify, decrypt_string}
use sidekick.SnapshotServer.Request.{SnapShot, Bound, binding_payload}
use sidekick.SnapshotServer.Replay.{accept}

abbrev pub signing_secret_key : String
signing_secret_key = "signing-key"

abbrev pub snapshot_secret_key : String
snapshot_secret_key = "snapshot-key"

-- The keys in the data of the Secret, which must both be there.
unfoldable pub keys_of : GoMap String → Result (String × String)
keys_of secret =
    let sign = get_or "" (get secret signing_secret_key) in
    let snap = get_or "" (get secret snapshot_secret_key) in
    if sign == "" || snap == "" then err (failed "grpc keys missing in secret") else ok (sign, snap)

unfoldable pub grpc_keys : Result (GoMap String) → Result (String × String)
grpc_keys secret = do data' ← secret; keys_of data'

abbrev pub use_nonce : Claims → Bool → Result Claims
use_nonce claims true = ok claims
use_nonce claims false = err (failed "nonce already used")

abbrev pub granted_or_error : String → Claims → Result Claims
granted_or_error granted claims =
    if granted == "" || not (granted == claims.snapshot_name)
    then err (failed "snapshot not authorized for sidekick")
    else ok claims

module _ (c : Crypto) (marshal : Bound → Bytes) where
  unfoldable pub binding_digest : SnapShot → String
  binding_digest snap = request_digest c (binding_payload marshal snap)

  -- All checks but that of the nonce.
  unfoldable pub check_token : SnapShot → Result (GoMap String) → ℤ → Result Claims
  check_token snap secret now = do
    (signing_key, snapshot_key) ← grpc_keys secret
    claims ← open_token c signing_key snap.token
    verify claims now snap.sidekick_name snap.name_space (binding_digest snap)
    granted ← decrypt_string c snapshot_key snap.snapshot_token
    granted_or_error granted claims

  -- The claims, and the cache of nonces then.
  unfoldable pub authenticate :
      SnapShot → Result (GoMap String) → ℤ → ℤ → Entries ℤ → Result Claims × Entries ℤ
  authenticate snap secret now used_at cache = elim (check_token snap secret now) [
    | ok claims ↦
        let (new, cache') = accept used_at claims.nonce claims.expires_at cache in
        (use_nonce claims new, cache')
    | err e ↦ (err e, cache)
  ]
