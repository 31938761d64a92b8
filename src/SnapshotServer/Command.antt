-- ===== src/SnapshotServer/Command.antt =====
-- The service: `ExecuteCommand`, `UpdateSnapshot` and `GetSnapshot` of pkg/snapshotserver, and the
-- name of a Sidekick's Secret.
pub mod Authorized
pub mod Once
use Prim.Native.String.{◌++◌ as append_text}
use sidekick.Prelude.{
  String, Option, none, some, List, [], ◌∷◌, ℤ, ◌==◌, if◌then◌else◌, Error, failed, Result, ok, err,
}
use sidekick.Prelude.Maps.{GoMap, Entries, make_if_nil}
use sidekick.Token.{Bytes, Claims, Crypto}
use sidekick.Cluster.{Io, pure, raise, lift, attempt, ◌>>=◌, ◌>>◌}
use sidekick.SnapshotServer.Request.{SnapShot, Bound, LogInfo}
use sidekick.SnapshotServer.Replay.{accept}
use sidekick.SnapshotServer.Auth.{check_token, use_nonce}
use sidekick.SnapshotServer.History.{Snapshot, init_components, update_components}

abbrev pub signing_secret_name : String → String
signing_secret_name sidekick_name = append_text sidekick_name "-grpc-key"

-- The envelope is nothing where the data of the request is no JSON of one.
pub record CommandRequest : Type 0 where
  pub command : String
  pub envelope : Option SnapShot

pub data CommandResponse : Type 0 where
  unauthenticated : CommandResponse
  success : Bytes → CommandResponse
  error : Error → CommandResponse

-- The name of a Snapshot: its namespace and name.
abbrev pub Target : Type 0
Target = String × String

-- What the server uses: the API server, the clock and the encoding of a Snapshot.
pub record Backend (W : Type 0) : Type 0 where
  pub on_get_secret : Target → W → Result (GoMap String) × W
  pub on_get_snapshot : Target → W → Result Snapshot × W
  pub on_patch_status : Target → (Snapshot → Snapshot) → W → Result Snapshot × W
  pub on_now : W → ℤ × W
  pub marshal_snapshot : Snapshot → Bytes

-- The world, the cache of nonces, and the Snapshots that were patched, the last one first.
pub record State (W : Type 0) : Type 0 where
  pub world : W
  pub cache : Entries ℤ
  pub patched : List Target

-- The response to a command that has passed authentication; errors of the API server are shown.
unfoldable pub respond : Result Bytes → CommandResponse
respond (ok output) = success output
respond (err e) = error e

module _ {W : Type 0} (b : Backend W) where
  unfoldable pub get_secret : Target → Io (State W) (GoMap String)
  get_secret key s = let (r, w) = b.on_get_secret key s.world in (r, record s { world = w })

  unfoldable pub get_snapshot : Target → Io (State W) Snapshot
  get_snapshot key s = let (r, w) = b.on_get_snapshot key s.world in (r, record s { world = w })

  unfoldable pub patch_status : Target → (Snapshot → Snapshot) → Io (State W) Snapshot
  patch_status key f s =
      let (r, w) = b.on_patch_status key f s.world in
      (r, record s { world = w; patched = key ∷ s.patched })

  unfoldable pub now : Io (State W) ℤ
  now s = let (t, w) = b.on_now s.world in (ok t, record s { world = w })

  unfoldable pub use_once : Claims → ℤ → Io (State W) Claims
  use_once claims used_at s =
      let (new, cache) = accept used_at claims.nonce claims.expires_at s.cache in
      (use_nonce claims new, record s { cache = cache })

  unfoldable pub update_snapshot_status : Target → Snapshot → Io (State W) Snapshot
  update_snapshot_status key snapshot = patch_status key (λ stored. record stored {
    total_components = snapshot.total_components;
    components = snapshot.components;
  })

  unfoldable pub init_snapshot_components_status : Target → Io (State W) Snapshot
  init_snapshot_components_status key = do
    snapshot ← get_snapshot key
    update_snapshot_status key (init_components snapshot)

  unfoldable pub update_snapshot : Target → LogInfo → Io (State W) (Unit {0})
  update_snapshot key info = do
    snapshot ← init_snapshot_components_status key
    updated ← lift (update_components info snapshot)
    update_snapshot_status key updated
    pure tt

  unfoldable pub fetch_snapshot : Target → Io (State W) Bytes
  fetch_snapshot key = do snapshot ← get_snapshot key; pure (b.marshal_snapshot snapshot)

  unfoldable pub dispatch : String → Target → LogInfo → Io (State W) CommandResponse
  dispatch command key info =
      if command == "UpdateSnapshot"
      then (do updated ← attempt (update_snapshot key info >> pure []); pure (respond updated))
      else if command == "GetSnapshot"
      then (do fetched ← attempt (fetch_snapshot key); pure (respond fetched))
      else pure (error (failed "unknown command"))

module _ {W : Type 0} (c : Crypto) (marshal : Bound → Bytes) (b : Backend W) where
  -- `authenticate` with the calls that it makes: the Secret is read, the token is verified at one
  -- time and its nonce used at another.
  unfoldable pub authenticate_call : SnapShot → Io (State W) Claims
  authenticate_call snap = do
    secret ← attempt (get_secret b (snap.name_space, signing_secret_name snap.sidekick_name))
    verified_at ← now b
    claims ← lift (check_token c marshal snap secret verified_at)
    used_at ← now b
    use_once b claims used_at

  unfoldable pub handle_claims : String → SnapShot → Result Claims → Io (State W) CommandResponse
  handle_claims command snap (ok claims) =
      dispatch b command (snap.name_space, claims.snapshot_name) snap.log_info
  handle_claims command snap (err e) = pure unauthenticated

  unfoldable pub execute_envelope : String → Option SnapShot → Io (State W) CommandResponse
  execute_envelope command none = pure unauthenticated
  execute_envelope command (some snap) = do
    claims ← attempt (authenticate_call snap)
    handle_claims command snap claims

  unfoldable pub execute_command : CommandRequest → Io (State W) CommandResponse
  execute_command req = execute_envelope req.command req.envelope
