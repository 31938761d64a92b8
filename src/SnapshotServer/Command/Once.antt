-- ===== src/SnapshotServer/Command/Once.antt =====
-- That the service lets a nonce through once, over any requests (`ExecuteCommand` of
-- pkg/snapshotserver/grpc.go).
use mathlib.Core.Path.{subst}
use sidekick.Prelude.{
  String, ◌≡◌, refl, sym, ◌∙◌, Option, none, some, ℤ, ◌<ℤ◌, false, arith, Result, ok, err, failed,
  Result-cases, inl, inr,
}
use sidekick.Prelude.Maps.{GoMap, Entries, lookup}
use sidekick.Token.{Bytes, Claims, Crypto}
use sidekick.Cluster.{attempt, pure, ◌>>=◌, lift}
use sidekick.SnapshotServer.Request.{SnapShot, Bound, LogInfo}
use sidekick.SnapshotServer.Replay.{accept, accept-keeps, accept-seen, accept-lookup}
use sidekick.SnapshotServer.Auth.{authenticate, check_token}
use sidekick.SnapshotServer.Auth.Sound.{authenticate-checked}
use sidekick.SnapshotServer.Command.{
  Backend, State, CommandRequest, unauthenticated, patch_status, get_snapshot,
  update_snapshot_status, init_snapshot_components_status, update_snapshot, fetch_snapshot, Target,
  dispatch, authenticate_call, handle_claims, execute_envelope, execute_command,
}
use sidekick.SnapshotServer.Command.Authorized.{
  secret_of, time_of, used_time_of, authenticate_call-authenticate, authenticate_call-patched,
}

module _ {W : Type 0} (b : Backend W) where
  update_snapshot-cache :
      (key : Target) (info : LogInfo) (s : State W)
      → (update_snapshot b key info s).1.cache ≡ s.cache
  unfolding update_snapshot init_snapshot_components_status update_snapshot_status get_snapshot
      patch_status ◌>>=◌ lift
  update_snapshot-cache key info s = ground arith

  dispatch-cache :
      (command : String) (key : Target) (info : LogInfo) (s : State W)
      → (dispatch b command key info s).1.cache ≡ s.cache
  unfolding dispatch fetch_snapshot get_snapshot ◌>>=◌ attempt
  dispatch-cache command key info s = ground (arith, update_snapshot-cache key info s)

module _ {W : Type 0} (c : Crypto) (marshal : Bound → Bytes) (b : Backend W) where
  handle_claims-cache :
      (command : String) (snap : SnapShot) (r : Result Claims) (s : State W)
      → (handle_claims c marshal b command snap r s).1.cache ≡ s.cache
  unfolding handle_claims pure
  handle_claims-cache command snap (ok claims) s =
      dispatch-cache b command (snap.name_space, claims.snapshot_name) snap.log_info s
  handle_claims-cache command snap (err e) s = refl

  authenticate-keeps :
      (snap : SnapShot) (secret : Result (GoMap String)) (now used_at : ℤ) (cache : Entries ℤ)
      (nonce : String) (e : ℤ)
      → used_at <ℤ e
      → lookup nonce cache ≡ some e
      → lookup nonce (authenticate c marshal snap secret now used_at cache).1 ≡ some e
  unfolding authenticate
  authenticate-keeps snap secret now used_at cache nonce e l h =
      elim (Result-cases (check_token c marshal snap secret now)) [
        | inl (claims, checked) ↦
            ground (arith, accept-keeps used_at claims.nonce nonce e claims.expires_at cache l h)
        | inr (x, failing) ↦ ground arith
      ]

  seen_nonce :
      (snap : SnapShot) (secret : Result (GoMap String)) (now used_at : ℤ) (cache : Entries ℤ)
      (claims : Claims)
      → check_token c marshal snap secret now ≡ ok claims
      → (accept used_at claims.nonce claims.expires_at cache).0 ≡ false
      → (authenticate c marshal snap secret now used_at cache).0 ≡ err (failed "nonce already used")
  unfolding authenticate
  seen_nonce snap secret now used_at cache claims h a = ground arith

  -- The nonce, if the request comes to one, is used before this time.
  abbrev pub UsesBefore : ℤ → Option SnapShot → State W → Type 0
  UsesBefore e none s = Unit {0}
  UsesBefore e (some snap) s = used_time_of c marshal b snap s <ℤ e

  -- The cache after the request.
  envelope-cache :
      (command : String) (snap : SnapShot) (s : State W)
      → (execute_envelope c marshal b command (some snap) s).1.cache
        ≡ (authenticate_call c marshal b snap s).1.cache
  unfolding execute_envelope ◌>>=◌ attempt
  envelope-cache command snap s =
      handle_claims-cache command snap (authenticate_call c marshal b snap s).0
        (authenticate_call c marshal b snap s).1

  envelope-keeps :
      (command : String) (envelope : Option SnapShot) (s : State W) (nonce : String) (e : ℤ)
      → UsesBefore e envelope s
      → lookup nonce s.cache ≡ some e
      → lookup nonce (execute_envelope c marshal b command envelope s).1.cache ≡ some e
  unfolding execute_envelope pure
  envelope-keeps command none s nonce e l h = h
  envelope-keeps command (some snap) s nonce e l h =
      rw (envelope-cache command snap s, (authenticate_call-authenticate c marshal b snap s).1)
        (authenticate-keeps snap _ _ _ s.cache nonce e l h)

  -- Any requests that are served from some state on, with anything else in between that leaves the cache
  -- of nonces, while the clock, where a nonce is used, is before `e`.
  pub data Served (e : ℤ) (start : State W) : State W → Type 0 where
    none_yet : Served e start start
    another :
        {before after : State W} (req : CommandRequest)
        → Served e start before
        → UsesBefore e req.envelope before
        → (execute_command c marshal b req before).1.cache ≡ after.cache
        → Served e start after

  Served-keeps :
      (nonce : String) (e : ℤ) (start : State W) {end : State W}
      → lookup nonce start.cache ≡ some e
      → Served e start end
      → lookup nonce end.cache ≡ some e
  unfolding execute_command
  Served-keeps nonce e start h none_yet = h
  Served-keeps nonce e start h (another {before} req more l same) =
      subst (λ m. lookup nonce m ≡ some e) same
        (envelope-keeps req.command req.envelope before nonce e l
          (Served-keeps nonce e start h more))

  authenticated-lookup :
      (snap : SnapShot) (s : State W) (claims : Claims)
      → (authenticate_call c marshal b snap s).0 ≡ ok claims
      → lookup claims.nonce (authenticate_call c marshal b snap s).1.cache ≡ some claims.expires_at
  authenticated-lookup snap s claims h =
      let (outcome, cache) = authenticate_call-authenticate c marshal b snap s in
      let (_, new, left) =
        authenticate-checked c marshal snap _ _ _ s.cache claims (sym outcome ∙ h) in
      rw (cache, left) (accept-lookup _ claims.nonce claims.expires_at s.cache new)

  refused :
      (snap : SnapShot) (t : State W) (claims : Claims) (e : ℤ)
      → check_token c marshal snap (secret_of c marshal b snap t) (time_of c marshal b snap t)
        ≡ ok claims
      → lookup claims.nonce t.cache ≡ some e
      → used_time_of c marshal b snap t <ℤ e
      → (authenticate_call c marshal b snap t).0 ≡ err (failed "nonce already used")
  refused snap t claims e checked h l =
      (authenticate_call-authenticate c marshal b snap t).0
      ∙ seen_nonce snap _ _ (used_time_of c marshal b snap t) t.cache claims checked (
          accept-seen (used_time_of c marshal b snap t) claims.nonce e claims.expires_at t.cache l
            h)

  -- After a request was let through, and after any further requests, every request whose token has the
  -- same nonce is answered as unauthenticated and changes no Snapshot, whichever command, payload or
  -- grant it has, while the clock, where a nonce is used, is before the expiry of the first token.
  pub execute_command-once :
      (command command' : String) (snap snap' : SnapShot) (s t : State W) (claims claims' : Claims)
      → (authenticate_call c marshal b snap s).0 ≡ ok claims
      → Served claims.expires_at (execute_envelope c marshal b command (some snap) s).1 t
      → check_token c marshal snap' (secret_of c marshal b snap' t) (time_of c marshal b snap' t)
        ≡ ok claims'
      → claims'.nonce ≡ claims.nonce
      → used_time_of c marshal b snap' t <ℤ claims.expires_at
      → let (response, after) =
          execute_command c marshal b (record { command = command'; envelope = some snap' }) t in
        (response ≡ ok unauthenticated) × (after.patched ≡ t.patched)
  unfolding execute_command execute_envelope ◌>>=◌ attempt handle_claims
  execute_command-once command command' snap snap' s t claims claims' h served checked same l =
      let there =
        Served-keeps claims.nonce claims.expires_at _
          (rw (envelope-cache command snap s) (authenticated-lookup snap s claims h)) served in
      let e = refused snap' t claims' claims.expires_at checked (rw same there) l in
      rw e (refl, authenticate_call-patched c marshal b snap' t)
