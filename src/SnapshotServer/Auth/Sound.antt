-- ===== src/SnapshotServer/Auth/Sound.antt =====
-- What an authenticated request is, and that it cannot be sent twice (`authenticate` of
-- pkg/snapshotserver/grpc.go).
use mathlib.Core.Path.{subst}
use sidekick.Prelude.{
  String, ◌≡◌, ◌≢◌, ap, ◌∙◌, List, true, false, ℤ, ◌<ℤ◌, ◌≤ℤ◌, arith, eq_iff, Result, ok, err,
  Error, >>=-eq-ok,
}
use sidekick.Prelude.Lists.{All}
use sidekick.Prelude.Maps.{GoMap, Entries}
use sidekick.Token.{Bytes, Claims, Crypto, open_token, verify, decrypt_string}
use sidekick.Token.Checks.{verify-ok}
use sidekick.SnapshotServer.Request.{SnapShot, Bound}
use sidekick.SnapshotServer.Replay.{Use, accept, accept_all, accept-once, accept-again}
use sidekick.SnapshotServer.Auth.{
  grpc_keys, binding_digest, granted_or_error, check_token, authenticate,
}

-- A request that passed: the keys of its Sidekick open its token to the claims and its grant to the
-- Snapshot that the claims name, and the claims are of this Sidekick, this payload and this time.
pub record IsAuthentic (c : Crypto) (marshal : Bound → Bytes) (snap : SnapShot)
    (secret : Result (GoMap String)) (now : ℤ) (claims : Claims) : Type 0 where
  pub signing_key : String
  pub snapshot_key : String
  pub keys : grpc_keys secret ≡ ok (signing_key, snapshot_key)
  pub opened : open_token c signing_key snap.token ≡ ok claims
  pub granted : decrypt_string c snapshot_key snap.snapshot_token ≡ ok claims.snapshot_name
  pub named : claims.snapshot_name ≢ ""
  pub sidekick : claims.sidekick_name ≡ snap.sidekick_name
  pub namespace : claims.namespace ≡ snap.name_space
  pub digest : claims.digest ≡ binding_digest c marshal snap
  pub live : now <ℤ claims.expires_at
  pub nonce : claims.nonce ≢ ""

module _ (c : Crypto) (marshal : Bound → Bytes) where
  granted_lem :
      (granted : String) (claims' claims : Claims)
      → granted_or_error granted claims' ≡ ok claims
      → (claims' ≡ claims) × (granted ≡ claims'.snapshot_name) × (claims'.snapshot_name ≢ "")
  granted_lem granted claims' claims h =
      ground (arith, eq_iff granted "", eq_iff granted claims'.snapshot_name)

  IsAuthentic-parts :
      (snap : SnapShot) (secret : Result (GoMap String)) (now : ℤ) (claims' claims : Claims)
      (signing_key snapshot_key granted : String)
      → grpc_keys secret ≡ ok (signing_key, snapshot_key)
      → open_token c signing_key snap.token ≡ ok claims'
      → verify claims' now snap.sidekick_name snap.name_space (binding_digest c marshal snap)
        ≡ ok tt
      → decrypt_string c snapshot_key snap.snapshot_token ≡ ok granted
      → granted_or_error granted claims' ≡ ok claims
      → IsAuthentic c marshal snap secret now claims
  IsAuthentic-parts snap secret now claims' claims signing_key snapshot_key granted keys opened
        verified decrypted h =
      let (same, names, named) = granted_lem granted claims' claims h in
      let (_, live, sidekick, namespace, digest, _, nonce) =
        (verify-ok claims' now snap.sidekick_name snap.name_space (binding_digest c marshal snap)).0
          verified in
      subst (IsAuthentic c marshal snap secret now) same (record {
        signing_key = signing_key;
        snapshot_key = snapshot_key;
        keys = keys;
        opened = opened;
        granted = decrypted ∙ ap ok names;
        named = named;
        sidekick = sidekick;
        namespace = namespace;
        digest = digest;
        live = live;
        nonce = nonce;
      })

  pub check_token-IsAuthentic :
      (snap : SnapShot) (secret : Result (GoMap String)) (now : ℤ) (claims : Claims)
      → check_token c marshal snap secret now ≡ ok claims
      → IsAuthentic c marshal snap secret now claims
  unfolding check_token
  check_token-IsAuthentic snap secret now claims h =
      let ((sign, snapshot_key), keys, h₁) = >>=-eq-ok (grpc_keys secret) _ h in
      let (claims', opened, h₂) = >>=-eq-ok (open_token c sign snap.token) _ h₁ in
      let (_, verified, h₃) =
        >>=-eq-ok (verify claims' now snap.sidekick_name snap.name_space _) _ h₂ in
      let (granted, decrypted, h₄) =
        >>=-eq-ok (decrypt_string c snapshot_key snap.snapshot_token) _ h₃ in
      IsAuthentic-parts snap secret now claims' claims sign snapshot_key granted keys opened
        verified decrypted h₄

  -- An authenticated request passed every check, and its nonce was new.
  pub authenticate-checked :
      (snap : SnapShot) (secret : Result (GoMap String)) (now used_at : ℤ) (cache : Entries ℤ)
      (claims : Claims)
      → (authenticate c marshal snap secret now used_at cache).0 ≡ ok claims
      → (check_token c marshal snap secret now ≡ ok claims)
        × ((accept used_at claims.nonce claims.expires_at cache).0 ≡ true)
        × ((authenticate c marshal snap secret now used_at cache).1
            ≡ (accept used_at claims.nonce claims.expires_at cache).1)
  unfolding authenticate
  authenticate-checked snap secret now used_at cache claims h = ground arith

  -- A request is let through only if it is authentic, whatever the cache holds.
  pub authenticate-IsAuthentic :
      (snap : SnapShot) (secret : Result (GoMap String)) (now used_at : ℤ) (cache : Entries ℤ)
      (claims : Claims)
      → (authenticate c marshal snap secret now used_at cache).0 ≡ ok claims
      → IsAuthentic c marshal snap secret now claims
  authenticate-IsAuthentic snap secret now used_at cache claims h =
      check_token-IsAuthentic snap secret now claims
        (authenticate-checked snap secret now used_at cache claims h).0

  -- A request that fails a check leaves the cache as it was: its nonce is not used up.
  authenticate-unchecked :
      (snap : SnapShot) (secret : Result (GoMap String)) (now used_at : ℤ) (cache : Entries ℤ)
      (e : Error)
      → check_token c marshal snap secret now ≡ err e
      → authenticate c marshal snap secret now used_at cache ≡ (err e, cache)
  unfolding authenticate
  authenticate-unchecked snap secret now used_at cache e h = ground arith

  refused_nonce :
      (snap : SnapShot) (secret : Result (GoMap String)) (now used_at : ℤ) (cache : Entries ℤ)
      (claims : Claims)
      → (accept used_at claims.nonce claims.expires_at cache).0 ≡ false
      → (authenticate c marshal snap secret now used_at cache).0 ≢ ok claims
  unfolding authenticate
  refused_nonce snap secret now used_at cache claims a h = ground arith

  accepted_nonce :
      (snap : SnapShot) (secret : Result (GoMap String)) (now used_at : ℤ) (cache : Entries ℤ)
      (claims : Claims)
      → check_token c marshal snap secret now ≡ ok claims
      → (accept used_at claims.nonce claims.expires_at cache).0 ≡ true
      → (authenticate c marshal snap secret now used_at cache).0 ≡ ok claims
  unfolding authenticate
  accepted_nonce snap secret now used_at cache claims k a = ground arith

  -- A request that was let through is not let through with the same claims again, after any uses of
  -- nonces, as long as the clock, when the nonces are used, is before the expiry of its token.
  pub authenticate-once :
      (snap : SnapShot) (secret secret' : Result (GoMap String)) (now used_at now' used_at' : ℤ)
      (cache : Entries ℤ) (us : List Use) (claims : Claims)
      → (authenticate c marshal snap secret now used_at cache).0 ≡ ok claims
      → All (λ u. u.now <ℤ claims.expires_at) us
      → used_at' <ℤ claims.expires_at
      → (authenticate c marshal snap secret' now' used_at'
          (accept_all us (authenticate c marshal snap secret now used_at cache).1)).0
        ≢ ok claims
  authenticate-once snap secret secret' now used_at now' used_at' cache us claims h l l' =
      let (_, new, left) = authenticate-checked snap secret now used_at cache claims h in
      rw left (
        refused_nonce snap secret' now' used_at' _ claims (
          accept-once used_at claims.nonce claims.expires_at cache us used_at' claims.expires_at new
            l l'))

  -- The two readings of the clock matter: a request that was let through is let through once more
  -- if its token is verified before its expiry and its nonce is used at or after it.
  pub authenticate-twice :
      (snap : SnapShot) (secret : Result (GoMap String)) (now used_at used_at' : ℤ)
      (cache : Entries ℤ) (claims : Claims)
      → (authenticate c marshal snap secret now used_at cache).0 ≡ ok claims
      → claims.expires_at ≤ℤ used_at'
      → (authenticate c marshal snap secret now used_at'
          (authenticate c marshal snap secret now used_at cache).1).0
        ≡ ok claims
  authenticate-twice snap secret now used_at used_at' cache claims h l =
      let (checked, new, left) = authenticate-checked snap secret now used_at cache claims h in
      rw left (
        accepted_nonce snap secret now used_at' _ claims checked (
          accept-again used_at claims.nonce claims.expires_at cache used_at' claims.expires_at new
            l))
