-- ===== src/SnapshotServer/Command/Authorized.antt =====
-- What a request can change (`ExecuteCommand` of pkg/snapshotserver/grpc.go), for every behaviour of
-- the API server and the clock.
use sidekick.Prelude.{
  String, ◌≡◌, refl, ◌∙◌, ◌⊎◌, inl, inr, Option, none, some, List, ◌∷◌, ℤ, arith, eq_iff, Result,
  ok, err,
}
use sidekick.Prelude.Maps.{GoMap}
use sidekick.Token.{Bytes, Claims, Crypto}
use sidekick.Cluster.{◌>>=◌, attempt}
use sidekick.SnapshotServer.Request.{SnapShot, Bound, LogInfo}
use sidekick.SnapshotServer.Auth.{check_token, authenticate}
use sidekick.SnapshotServer.Auth.Sound.{IsAuthentic, check_token-IsAuthentic}
use sidekick.SnapshotServer.Command.{
  CommandRequest, Target, Backend, State, signing_secret_name, get_secret, get_snapshot,
  patch_status, now, use_once, update_snapshot_status, init_snapshot_components_status,
  update_snapshot, fetch_snapshot, dispatch, authenticate_call, handle_claims, execute_envelope,
  execute_command,
}

-- The list has the target in front once or twice more, or is as it was.
abbrev pub AddsOnly : Target → List Target → List Target → Type 0
AddsOnly key old new = (new ≡ old) ⊎ (new ≡ key ∷ old) ⊎ (new ≡ key ∷ key ∷ old)

module _ {W : Type 0} (b : Backend W) where
  update_snapshot-AddsOnly :
      (key : Target) (info : LogInfo) (s : State W)
      → AddsOnly key s.patched (update_snapshot b key info s).1.patched
  unfolding update_snapshot init_snapshot_components_status update_snapshot_status get_snapshot
      patch_status ◌>>=◌
  update_snapshot-AddsOnly key info s = ground arith

  dispatch-AddsOnly :
      (command : String) (key : Target) (info : LogInfo) (s : State W)
      → (((dispatch b command key info s).1.patched ≡ s.patched)
          ⊎ ((command ≡ "UpdateSnapshot")
              × AddsOnly key s.patched (dispatch b command key info s).1.patched))
  unfolding dispatch ◌>>=◌ fetch_snapshot get_snapshot
  dispatch-AddsOnly command key info s = ground (
    arith,
    eq_iff command "UpdateSnapshot",
    eq_iff command "GetSnapshot",
    update_snapshot-AddsOnly key info s,
  )

module _ {W : Type 0} (c : Crypto) (marshal : Bound → Bytes) (b : Backend W) where
  -- The Secret and the time that the server reads for a request.
  abbrev pub secret_of : SnapShot → State W → Result (GoMap String)
  secret_of snap s =
      (b.on_get_secret (snap.name_space, signing_secret_name snap.sidekick_name) s.world).0

  abbrev pub time_of : SnapShot → State W → ℤ
  time_of snap s =
      (b.on_now
        (b.on_get_secret (snap.name_space, signing_secret_name snap.sidekick_name) s.world).1).0

  pub authenticate_call-patched :
      (snap : SnapShot) (s : State W) → (authenticate_call c marshal b snap s).1.patched ≡ s.patched
  unfolding authenticate_call ◌>>=◌ get_secret now use_once
  authenticate_call-patched snap s = ground arith

  authenticate_call-checked :
      (snap : SnapShot) (s : State W) (claims : Claims)
      → (authenticate_call c marshal b snap s).0 ≡ ok claims
      → check_token c marshal snap (secret_of snap s) (time_of snap s) ≡ ok claims
  unfolding authenticate_call ◌>>=◌ get_secret now use_once
  authenticate_call-checked snap s claims h = ground arith

  -- The second reading of the clock.
  abbrev pub used_time_of : SnapShot → State W → ℤ
  used_time_of snap s =
      (b.on_now
        (b.on_now
          (b.on_get_secret (snap.name_space, signing_secret_name snap.sidekick_name)
            s.world).1).1).0

  -- With the Secret and the two times that the server reads, the calls that authenticate a request
  -- have the outcome of the checks in their order, and leave the cache that these leave.
  pub authenticate_call-authenticate :
      (snap : SnapShot) (s : State W)
      → let outcome =
          authenticate c marshal snap
            (secret_of snap s)
            (time_of snap s)
            (used_time_of snap s)
            s.cache in
        ((authenticate_call c marshal b snap s).0 ≡ outcome.0)
        × ((authenticate_call c marshal b snap s).1.cache ≡ outcome.1)
  unfolding authenticate_call authenticate ◌>>=◌ get_secret now use_once
  authenticate_call-authenticate snap s = ground arith

  -- A request that changed a Snapshot.
  pub record IsUpdate (req : CommandRequest) (before after : State W) : Type 0 where
    pub snap : SnapShot
    pub claims : Claims
    pub envelope : req.envelope ≡ some snap
    pub command : req.command ≡ "UpdateSnapshot"
    pub authentic : IsAuthentic c marshal snap (secret_of snap before) (time_of snap before) claims
    pub only : AddsOnly (snap.name_space, claims.snapshot_name) before.patched after.patched

  handle_claims-patched :
      (command : String) (snap : SnapShot) (r : Result Claims) (s : State W)
      → ((handle_claims c marshal b command snap r s).1.patched ≡ s.patched)
        ⊎ ((claims : Claims) × (r ≡ ok claims)
            × (command ≡ "UpdateSnapshot")
            × AddsOnly
                (snap.name_space, claims.snapshot_name)
                s.patched
                (handle_claims c marshal b command snap r s).1.patched)
  unfolding handle_claims ◌>>=◌
  handle_claims-patched command snap (err e) s = inl refl
  handle_claims-patched command snap (ok claims) s =
      elim (dispatch-AddsOnly b command (snap.name_space, claims.snapshot_name) snap.log_info s) [
        | inl same ↦ inl same
        | inr (updates, only) ↦ inr (claims, refl, updates, only)
      ]

  execute_envelope-steps :
      (command : String) (snap : SnapShot) (s : State W)
      → (execute_envelope c marshal b command (some snap) s).1
        ≡ (handle_claims c marshal b command snap
            (authenticate_call c marshal b snap s).0
            (authenticate_call c marshal b snap s).1).1
  unfolding execute_envelope ◌>>=◌ attempt
  execute_envelope-steps command snap s = refl

  envelope-authorized :
      (req : CommandRequest) (envelope : Option SnapShot) (s : State W)
      → req.envelope ≡ envelope
      → ((execute_envelope c marshal b req.command envelope s).1.patched ≡ s.patched)
        ⊎ IsUpdate req s (execute_envelope c marshal b req.command envelope s).1
  envelope-authorized req none s e = inl (unfold execute_envelope ◌>>=◌ in refl)
  envelope-authorized req (some snap) s e =
      let same = authenticate_call-patched snap s in
      rw (execute_envelope-steps req.command snap s)
        (elim (handle_claims-patched req.command snap (authenticate_call c marshal b snap s).0
          (authenticate_call c marshal b snap s).1) [
            | inl left ↦ inl (left ∙ same)
            | inr (claims, passed, updates, only) ↦ inr (record {
              snap = snap;
              claims = claims;
              envelope = e;
              command = updates;
              authentic =
                  check_token-IsAuthentic c marshal snap _ _ claims
                    (authenticate_call-checked snap s claims passed);
              only = rw same at only;
            })
          ])

  -- Whatever the API server and the clock answer, a request changes no Snapshot unless it is an
  -- authentic UpdateSnapshot, and then only the one Snapshot that its token and its grant name, in
  -- the namespace of the request, in at most two patches.
  pub execute_command-authorized :
      (req : CommandRequest) (s : State W)
      → ((execute_command c marshal b req s).1.patched ≡ s.patched)
        ⊎ IsUpdate req s (execute_command c marshal b req s).1
  unfolding execute_command
  execute_command-authorized req s = envelope-authorized req req.envelope s refl
