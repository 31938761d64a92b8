-- ===== src/Token.antt =====
-- Tokens and grants: grpc/token/token.go. The standard library's encodings and ciphers are a
-- parameter, with the laws that the package relies on.
pub mod RoundTrip
pub mod Checks
use sidekick.Prelude.{
  ℕ, ◌≡◌, String, Bool, true, false, not, ◌&&◌, ◌||◌, Option, none, some, List, [], ◌∷◌, ◌++◌, ℤ,
  pos, negsuc, ltb_ℤ, ◌==◌, ltb, eqb, if◌then◌else◌, Result, ok, err, failed, ◌>>=◌, ◌>>◌,
}
use sidekick.Prelude.Lists.{length, take, drop}

abbrev pub Bytes : Type 0
Bytes = List ℕ

pub record Claims : Type 0 where
  pub snapshot_name : String
  pub sidekick_name : String
  pub namespace : String
  pub digest : String
  pub nonce : String
  pub expires_at : ℤ

-- `encoding/base64`, `encoding/json`, `crypto/*`; `bytes` and `text` convert strings.
pub record Crypto : Type 0 where
  pub bytes : String → Bytes
  pub text : Bytes → String
  pub encode : Bytes → String
  pub decode : String → Option Bytes
  pub marshal_claims : Claims → Bytes
  pub unmarshal_claims : Bytes → Option Claims
  pub sha256 : Bytes → Bytes
  pub hmac_sha256 : Bytes → Bytes → Bytes
  pub seal : Bytes → Bytes → Bytes → Bytes
  pub unseal : Bytes → Bytes → Bytes → Option Bytes

-- What is documented of them.
pub record CryptoLaws (c : Crypto) : Type 0 where
  pub decode-encode : (b : Bytes) → c.decode (c.encode b) ≡ some b
  pub length-sha256 : (b : Bytes) → length (c.sha256 b) ≡ 32
  pub length-hmac_sha256 : (key b : Bytes) → length (c.hmac_sha256 key b) ≡ 32
  pub unseal-seal : (key iv plain : Bytes) → c.unseal key iv (c.seal key iv plain) ≡ some plain

-- `gcm.NonceSize()`
abbrev pub nonce_size : ℕ
nonce_size = 12

abbrev pub or_error {ℓ} : {A : Type ℓ} → String → Option A → Result A
or_error e none = err (failed e)
or_error e (some a) = ok a

module _ (c : Crypto) where
  unfoldable pub request_digest : Bytes → String
  request_digest payload = c.encode (c.sha256 payload)

  unfoldable pub derive_key : String → Bytes
  derive_key key = c.sha256 (c.bytes key)

  -- The cipher is its key; `aes.NewCipher` refuses a key of another length.
  unfoldable pub new_gcm : String → Result Bytes
  new_gcm key =
      if eqb (length (derive_key key)) 32
      then ok (derive_key key)
      else err (failed "token: new cipher")

  unfoldable pub deterministic_nonce : String → String → ℕ → Bytes
  deterministic_nonce key plaintext size =
      take size (c.hmac_sha256 (derive_key key) (c.bytes plaintext))

  abbrev nonempty_key : String → Result (Unit {0})
  nonempty_key key = if key == "" then err (failed "token: key must not be empty") else ok tt

  -- `NewNonce`, from what the random reader gives
  unfoldable pub new_nonce : Result Bytes → Result String
  new_nonce drawn = do buf ← drawn; ok (c.encode buf)

  -- `iv` is what the random reader gives.
  unfoldable pub mint : String → Claims → Bytes → Result String
  mint key claims iv = do
    nonempty_key key
    gcm ← new_gcm key
    ok (c.encode (iv ++ c.seal gcm iv (c.marshal_claims claims)))

  -- The part that `Open` and `DecryptString` share: the plaintext.
  unfoldable pub decrypt : String → String → Result Bytes
  decrypt key blob = do
    nonempty_key key
    sealed ← or_error "token: decode" (c.decode blob)
    gcm ← new_gcm key
    if ltb (length sealed) nonce_size
        then err (failed "token: ciphertext too short")
        else or_error "token: decryption failed"
            (c.unseal gcm (take nonce_size sealed) (drop nonce_size sealed))

  -- `Open`
  unfoldable pub open_token : String → String → Result Claims
  open_token key tok = do
    plaintext ← decrypt key tok
    or_error "token: unmarshal claims" (c.unmarshal_claims plaintext)

  unfoldable pub encrypt_string : String → String → Result String
  encrypt_string key plaintext = do
    nonempty_key key
    gcm ← new_gcm key
    let iv = deterministic_nonce key plaintext nonce_size
    ok (c.encode (iv ++ c.seal gcm iv (c.bytes plaintext)))

  unfoldable pub decrypt_string : String → String → Result String
  decrypt_string key blob = do plaintext ← decrypt key blob; ok (c.text plaintext)

abbrev pub is_zero : ℤ → Bool
is_zero (pos n) = eqb n 0
is_zero (negsuc n) = false

-- `Claims.Verify`, at a time in seconds
unfoldable pub verify : Claims → ℤ → String → String → String → Result (Unit {0})
verify claims now sidekick_name namespace digest =
    if is_zero claims.expires_at || not (ltb_ℤ now claims.expires_at)
    then err (failed "token: expired")
    else if not (claims.sidekick_name == sidekick_name) || not (claims.namespace == namespace)
    then err (failed "token: identity mismatch")
    else if claims.digest == "" || not (claims.digest == digest)
    then err (failed "token: payload binding mismatch")
    else if claims.nonce == ""
    then err (failed "token: missing nonce")
    else ok tt
