-- ===== src/GrpcWiring/Secrets.antt =====
-- The keys of a Sidekick and their Secret: `ensureGRPCKeys` of pkg/controllers/apps/grpc_wiring.go.
-- The API server and the random source are a parameter.
use sidekick.Prelude.{
  String, ◌≡◌, ap, ◌∙◌, ◌≢◌, Bool, not, ◌&&◌, some, [], ◌∷◌, ◌==◌, if◌then◌else◌, arith, eq_iff,
  get_or, not_found, failed, panicked, Result, ok, err,
}
use sidekick.Prelude.Maps.{GoMap, Entries, entries, get, lookup, insert, lookup-insert}
use sidekick.Api.Meta.{OwnerReference, NamespacedName}
use sidekick.Api.Sidekick.{Sidekick}
use sidekick.Api.Wiring.{Secret}
use sidekick.Api.Library.{Library}
use sidekick.Cluster.{
  Io, Run, Server, pure, raise, attempt, ◌>>=◌, ◌>>◌, read, write, applied_secret,
}
use sidekick.SnapshotServer.Auth.{signing_secret_key, snapshot_secret_key, keys_of}
use sidekick.SnapshotServer.Command.{signing_secret_name}

pub record KeyServer (W : Type 0) : Type 0 where
  pub on_get_secret : NamespacedName → W → Result Secret × W
  pub on_apply_secret : NamespacedName → (Secret → Secret) → W → Result Secret × W
  pub on_random_key : W → Result String × W

abbrev pub key_server : {R W : Type 0} → Server R W → KeyServer (Run R W)
key_server server = record {
  on_get_secret = λ key. read (server.on_get_secret key);
  on_apply_secret = λ key f. write (applied_secret key f) (server.on_apply_secret key f);
  on_random_key = read server.on_random_key;
}

-- `string(existing.Data[k])`
abbrev pub key_in : GoMap String → String → String
key_in contents k = get_or "" (get contents k)

abbrev pub has_keys : GoMap String → Bool
has_keys contents =
    not (key_in contents signing_secret_key == "")
    && not (key_in contents snapshot_secret_key == "")

abbrev pub keys_in : GoMap String → String × String
keys_in contents = (key_in contents signing_secret_key, key_in contents snapshot_secret_key)

unfoldable pub populate : String → String → Entries String → Entries String
populate k fresh contents =
    if get_or "" (lookup k contents) == "" then insert k fresh contents else contents

-- The change that is made to the stored Secret.
unfoldable pub populate_keys : OwnerReference → String → String → Secret → Secret
populate_keys owner fresh_signing fresh_snapshot s = record {
  owner_references = owner ∷ [];
  contents = some (
      populate snapshot_secret_key fresh_snapshot
        (populate signing_secret_key fresh_signing (entries s.contents)));
}

module _ {W : Type 0} (server : KeyServer W) {R : Type 0} (lib : Library R)
    (sidekick : Sidekick R) where
  abbrev secret_key : NamespacedName
  secret_key = record { namespace = sidekick.namespace; name = signing_secret_name sidekick.name }

  abbrev pub reread_keys : Secret → Io W (String × String)
  reread_keys existing =
      if has_keys existing.contents
      then pure (keys_in existing.contents)
      else raise (failed "grpc keys empty in secret after ensure")

  unfoldable pub create_keys : Io W (String × String)
  create_keys = do
    fresh_signing ← server.on_random_key
    fresh_snapshot ← server.on_random_key
    server.on_apply_secret secret_key (
        populate_keys (lib.new_controller_ref sidekick.metadata "Sidekick") fresh_signing
          fresh_snapshot)
    existing ← server.on_get_secret secret_key
    reread_keys existing

  unfoldable pub ensure_found : Result Secret → Io W (String × String)
  ensure_found (ok existing) =
      if has_keys existing.contents then pure (keys_in existing.contents) else create_keys
  ensure_found (err not_found) = create_keys
  ensure_found (err (failed e)) = raise (failed e)
  ensure_found (err panicked) = raise panicked

  unfoldable pub ensure_grpc_keys : Io W (String × String)
  ensure_grpc_keys = do found ← attempt (server.on_get_secret secret_key); ensure_found found

-- A key that is there is kept, and a missing or empty one is the fresh key.
key_in-populate :
    (k other fresh : String) (contents : Entries String)
    → key_in (some (populate k fresh contents)) other ≡ (
        if (k == other) && (key_in (some contents) k == "")
        then fresh
        else key_in (some contents) other)
unfolding populate get
key_in-populate k other fresh contents =
    ground (arith, lookup-insert k other fresh contents, eq_iff k other)

keys_of-keys :
    (contents : GoMap String) (signing snapshot : String)
    → key_in contents signing_secret_key ≡ signing
    → key_in contents snapshot_secret_key ≡ snapshot
    → signing ≢ ""
    → snapshot ≢ ""
    → keys_of contents ≡ ok (signing, snapshot)
unfolding keys_of
keys_of-keys contents signing snapshot h k n m =
    rw (h, k) (ground (arith, eq_iff signing "", eq_iff snapshot ""))

abbrev pub kept_or : String → String → String
kept_or old fresh = if old == "" then fresh else old

kept-nonempty : (old fresh : String) → fresh ≢ "" → kept_or old fresh ≢ ""
kept-nonempty old fresh n = ground (arith, eq_iff old "")

-- Whatever Secret is stored when the keys are created, also one that another reconciliation has
-- written in the meantime, if the fresh keys are not empty: a key that is in it is kept, one that
-- is not becomes the fresh one, and the service accepts the Secret, with these keys.
pub populate_keys-keys :
    (owner : OwnerReference) (signing snapshot : String) (s : Secret)
    → signing ≢ ""
    → snapshot ≢ ""
    → keys_of (populate_keys owner signing snapshot s).contents
      ≡ ok (
        kept_or (key_in s.contents signing_secret_key) signing,
        kept_or (key_in s.contents snapshot_secret_key) snapshot,
      )
unfolding populate_keys get
populate_keys-keys owner signing snapshot s n m =
    let first = populate signing_secret_key signing (entries s.contents) in
    keys_of-keys _ (kept_or (key_in s.contents signing_secret_key) signing)
      (kept_or (key_in s.contents snapshot_secret_key) snapshot)
      (key_in-populate snapshot_secret_key signing_secret_key snapshot first
        ∙ key_in-populate signing_secret_key signing_secret_key signing (entries s.contents))
      (key_in-populate snapshot_secret_key snapshot_secret_key snapshot first
        ∙ ap (λ old. kept_or old snapshot)
            (key_in-populate signing_secret_key snapshot_secret_key signing (entries s.contents)))
      (kept-nonempty (key_in s.contents signing_secret_key) signing n)
      (kept-nonempty (key_in s.contents snapshot_secret_key) snapshot m)
