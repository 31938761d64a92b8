-- ===== src/Tests/Server.antt =====
-- The theorems about tokens and the snapshot updater, at concrete inputs.
use sidekick.Prelude.{
  ◌<ℤ◌, ◌≡◌, refl, ◌≢◌, ◌⊎◌, none, some, [], ◌∷◌, pos, ◌≤◌, arith, String, Result, ok,
}
use sidekick.Prelude.Lists.{length}
use sidekick.Prelude.Maps.{GoMap, get, lookup, insert}
use sidekick.Token.{
  Bytes, Claims, Crypto, verify, decrypt_string, open_token, decrypt, new_gcm, derive_key,
  request_digest,
}
use sidekick.SnapshotServer.Request.{SnapShot, LogInfo, Bound}
use sidekick.SnapshotServer.Replay.{accept, accept_all, purge}
use sidekick.SnapshotServer.Auth.{authenticate, check_token, grpc_keys, keys_of, binding_digest}
use sidekick.SnapshotServer.Auth.Sound.{
  IsAuthentic, authenticate-IsAuthentic, authenticate-once, authenticate-twice,
}
use sidekick.SnapshotServer.History.{zero_stats, add_log}
use sidekick.SnapshotServer.History.Bounds.{IsBounded, add_log-IsBounded, add_log-grows}
use sidekick.Cluster.{lift, attempt, ◌>>=◌}
use sidekick.SnapshotServer.Command.{
  CommandRequest, Backend, State, execute_command, authenticate_call, execute_envelope, get_secret,
  now, use_once, unauthenticated,
}
use sidekick.SnapshotServer.Command.Once.{none_yet, another, execute_command-once}
use sidekick.SnapshotServer.Command.Authorized.{
  secret_of, time_of, used_time_of, IsUpdate, execute_command-authorized,
}

abbrev claims : Claims
claims = record {
  snapshot_name = "snap-1";
  sidekick_name = "archiver";
  namespace = "demo";
  digest = "d";
  nonce = "n1";
  expires_at = pos 300;
}

-- Encodings that forget what they are given, and know one token and one grant.
abbrev crypto : Crypto
crypto = record {
  bytes = λ s. [];
  text = λ b. "snap-1";
  encode = λ b. "d";
  decode = λ s. some (0 ∷ 0 ∷ 0 ∷ 0 ∷ 0 ∷ 0 ∷ 0 ∷ 0 ∷ 0 ∷ 0 ∷ 0 ∷ 0 ∷ []);
  marshal_claims = λ c. [];
  unmarshal_claims = λ b. some claims;
  sha256 = λ b.
      0 ∷ 0 ∷ 0 ∷ 0 ∷ 0 ∷ 0 ∷ 0 ∷ 0 ∷ 0 ∷ 0 ∷ 0 ∷ 0 ∷ 0 ∷ 0 ∷ 0 ∷ 0 ∷ 0 ∷ 0 ∷ 0 ∷ 0 ∷ 0 ∷ 0 ∷ 0 ∷ 0
      ∷ 0 ∷ 0 ∷ 0 ∷ 0 ∷ 0 ∷ 0 ∷ 0 ∷ 0 ∷ [];
  hmac_sha256 = λ k b. [];
  seal = λ k iv p. p;
  unseal = λ k iv p. some p;
}

abbrev info : LogInfo
info = record { kind = "success"; log = []; log_limit = pos 5; start_time = "t0"; end_time = "t1" }

abbrev snap : SnapShot
snap = record {
  log_info = info;
  sidekick_name = "archiver";
  name_space = "demo";
  token = "tok";
  snapshot_token = "grant";
}

abbrev secret : Result (GoMap String)
secret = ok (some (("signing-key", "k1") ∷ ("snapshot-key", "k2") ∷ []))

abbrev marshal : Bound → Bytes
marshal b = []

passed : (authenticate crypto marshal snap secret (pos 100) (pos 101) []).0 ≡ ok claims
unfolding authenticate check_token grpc_keys keys_of open_token decrypt new_gcm derive_key verify
    binding_digest request_digest decrypt_string accept purge insert lookup get
passed = refl

authenticate-IsAuthentic_example : IsAuthentic crypto marshal snap secret (pos 100) claims
authenticate-IsAuthentic_example =
    authenticate-IsAuthentic crypto marshal snap secret (pos 100) (pos 101) [] claims passed

authenticate-once_example :
    (authenticate crypto marshal snap secret
      (pos 110)
      (pos 111)
      (accept_all [] (authenticate crypto marshal snap secret (pos 100) (pos 101) []).1)).0
    ≢ ok claims
authenticate-once_example =
    authenticate-once crypto marshal snap secret secret (pos 100) (pos 101) (pos 110) (pos 111) []
      [] claims passed tt (omega arith)

authenticate-twice_example :
    (authenticate crypto marshal snap secret
      (pos 299)
      (pos 300)
      (authenticate crypto marshal snap secret (pos 299) (pos 299) []).1).0
    ≡ ok claims
unfolding authenticate check_token grpc_keys keys_of open_token decrypt new_gcm derive_key verify
    binding_digest request_digest decrypt_string accept purge insert lookup get
authenticate-twice_example =
    authenticate-twice crypto marshal snap secret (pos 299) (pos 299) (pos 300) [] claims refl
      (omega arith)

add_log-IsBounded_example : IsBounded (add_log info zero_stats)
add_log-IsBounded_example = add_log-IsBounded info zero_stats (omega arith)

add_log-grows_example :
    (length zero_stats.last_succeeded_stats ≤ length (add_log info zero_stats).last_succeeded_stats)
    × (length zero_stats.last_failed_stats ≤ length (add_log info zero_stats).last_failed_stats)
add_log-grows_example = add_log-grows info zero_stats

-- A server on which every Snapshot is empty and the time is 100.
abbrev backend : Backend (Unit {0})
backend = record {
  on_get_secret = λ key w. (secret, w);
  on_get_snapshot = λ key w. (ok (record { total_components = 1; components = none }), w);
  on_patch_status = λ key f w. (ok (f (record { total_components = 1; components = none })), w);
  on_now = λ w. (pos 100, w);
  marshal_snapshot = λ s. [];
}

abbrev idle : State (Unit {0})
idle = record { world = tt; cache = []; patched = [] }

abbrev update : CommandRequest
update = record { command = "UpdateSnapshot"; envelope = some snap }

execute_command-authorized_example :
    ((execute_command crypto marshal backend update idle).1.patched ≡ [])
    ⊎ IsUpdate crypto marshal backend update idle
        (execute_command crypto marshal backend update idle).1
execute_command-authorized_example = execute_command-authorized crypto marshal backend update idle

let_through : (authenticate_call crypto marshal backend snap idle).0 ≡ ok claims
unfolding authenticate_call get_secret now use_once ◌>>=◌ lift attempt check_token grpc_keys keys_of
    open_token decrypt new_gcm derive_key verify binding_digest request_digest decrypt_string accept
    purge insert lookup get
let_through = refl

-- The state after the update, and after one more request of the same nonce.
abbrev updated : State (Unit {0})
updated = (execute_envelope crypto marshal backend "UpdateSnapshot" (some snap) idle).1

abbrev replayed : State (Unit {0})
replayed = (execute_command crypto marshal backend update updated).1

early : (s : State (Unit {0})) → used_time_of crypto marshal backend snap s <ℤ pos 300
early s = omega arith

opens :
    check_token crypto marshal snap
      (secret_of crypto marshal backend snap replayed)
      (time_of crypto marshal backend snap replayed)
    ≡ ok claims
unfolding check_token grpc_keys keys_of open_token decrypt new_gcm derive_key verify binding_digest
    request_digest decrypt_string lookup get
opens = refl

execute_command-once_example :
    let (response, after) =
      execute_command crypto marshal backend
        (record { command = "GetSnapshot"; envelope = some snap })
        replayed in
    (response ≡ ok unauthenticated) × (after.patched ≡ replayed.patched)
execute_command-once_example =
    execute_command-once crypto marshal backend "UpdateSnapshot" "GetSnapshot" snap snap idle
      replayed claims claims let_through (another update none_yet (early updated) refl) opens refl
      (early replayed)
