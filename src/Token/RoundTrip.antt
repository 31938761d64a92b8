-- ===== src/Token/RoundTrip.antt =====
-- Tokens and grants are read back by who has the key (grpc/token/token.go).
use sidekick.Prelude.{String, ◌≡◌, ◌≢◌, some, false, arith, eq_iff, ok, ◌>>=◌, ◌++◌, ◌==◌}
use sidekick.Prelude.Lists.{length, length-take, split-append, length-append}
use sidekick.Token.{
  Bytes, Claims, Crypto, CryptoLaws, nonce_size, derive_key, new_gcm, deterministic_nonce, mint,
  new_nonce, decrypt, open_token, encrypt_string, decrypt_string,
}

module _ (c : Crypto) (laws : CryptoLaws c) where
  new_gcm-ok : (key : String) → new_gcm c key ≡ ok (derive_key c key)
  unfolding new_gcm derive_key
  new_gcm-ok key = rw (laws.length-sha256 (c.bytes key))

  key-ne : (key : String) → key ≢ "" → (key == "") ≡ false
  key-ne key h = ground (arith, eq_iff key "")

  -- What is sealed with a nonce of 12 bytes is read back.
  decrypt-seal :
      (key : String) (iv plain : Bytes)
      → key ≢ ""
      → length iv ≡ nonce_size
      → decrypt c key (c.encode (iv ++ c.seal (derive_key c key) iv plain)) ≡ ok plain
  unfolding decrypt
  decrypt-seal key iv plain k n =
      let sealed = c.seal (derive_key c key) iv plain in
      let (t, d) = split-append nonce_size iv sealed n in
      simp (key-ne key k, laws.decode-encode, new_gcm-ok, t, d, laws.unseal-seal)
        (ground (arith, length-append iv sealed))

  nonce-length :
      (key plaintext : String)
      → length (deterministic_nonce c key plaintext nonce_size) ≡ nonce_size
  unfolding deterministic_nonce
  nonce-length key plaintext =
      length-take nonce_size _
        (omega (arith, laws.length-hmac_sha256 (derive_key c key) (c.bytes plaintext)))

  -- Under the laws of the cryptography, a grant that is encrypted with a key that is not empty is
  -- decrypted with it to the same text, if the text comes back from its bytes.
  pub decrypt-encrypt :
      (key plaintext : String)
      → key ≢ ""
      → c.text (c.bytes plaintext) ≡ plaintext
      → (encrypt_string c key plaintext >>= decrypt_string c key) ≡ ok plaintext
  unfolding encrypt_string decrypt_string
  decrypt-encrypt key plaintext k back = simp (
    key-ne key k,
    new_gcm-ok,
    decrypt-seal key _ (c.bytes plaintext) k (nonce-length key plaintext),
    back,
  )

  -- Under the laws of the cryptography, a token that is minted with a key that is not empty is
  -- opened with it to the same claims, whatever 12 bytes the random reader gave, if the claims come
  -- back from their JSON.
  pub open-mint :
      (key : String) (claims : Claims) (iv : Bytes)
      → key ≢ ""
      → length iv ≡ nonce_size
      → c.unmarshal_claims (c.marshal_claims claims) ≡ some claims
      → (mint c key claims iv >>= open_token c key) ≡ ok claims
  unfolding mint open_token
  open-mint key claims iv k n back =
      simp (key-ne key k, new_gcm-ok, decrypt-seal key iv (c.marshal_claims claims) k n, back)

  -- A nonce is only drawn again if the same bytes are.
  new_nonce-injective : (a b : Bytes) → new_nonce c (ok a) ≡ new_nonce c (ok b) → a ≡ b
  unfolding new_nonce
  new_nonce-injective a b h = let da = laws.decode-encode a in let db = laws.decode-encode b in cc
