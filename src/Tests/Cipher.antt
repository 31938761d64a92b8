-- ===== src/Tests/Cipher.antt =====
-- Encodings and ciphers for which the laws of the cryptography hold: bytes are written in unary, and
-- nothing is hidden.
use Prim.Native.Char.{code}
use sidekick.Prelude.{
  ℕ, suc, zero, ◌+◌, ◌≡◌, refl, ◌∙◌, ap, String, Option, none, some, [], ◌∷◌, eqb, arith,
  if◌then◌else◌, pos, ok, ◌>>=◌, ◌≢◌, eq_iff,
}
use sidekick.Token.{Bytes, Claims, Crypto, CryptoLaws, mint, open_token}
use sidekick.Token.RoundTrip.{open-mint}

unfoldable pub unary : ℕ → String → String
unary zero rest = String.◌∷◌ "0" rest
unary (suc n) rest = String.◌∷◌ "1" (unary n rest)

unfoldable pub write : Bytes → String
write [] = String.[]
write (n ∷ rest) = unary n (write rest)

abbrev cons : ℕ → Option Bytes → Option Bytes
cons n none = none
cons n (some rest) = some (n ∷ rest)

unfoldable pub parse : ℕ → String → Option Bytes
parse n String.[] = some []
parse n (String.◌∷◌ c rest) =
    if eqb (code c) b'0' then cons n (parse 0 rest) else parse (n + 1) rest

parse-unary : (m n : ℕ) (rest : String) → parse m (unary n rest) ≡ cons (m + n) (parse 0 rest)
unfolding parse unary
parse-unary m zero rest = ap (λ k. cons k (parse 0 rest)) (omega arith)
parse-unary m (suc n) rest =
    parse-unary (m + 1) n rest ∙ ap (λ k. cons k (parse 0 rest)) (omega arith)

parse-write : (b : Bytes) → parse 0 (write b) ≡ some b
unfolding write
parse-write [] = unfold parse in refl
parse-write (n ∷ rest) =
    parse-unary 0 n (write rest)
    ∙ (ap (λ k. cons k (parse 0 (write rest))) (omega arith) ∙ ap (cons n) (parse-write rest))

abbrev digest : Bytes
digest =
    1 ∷ 2 ∷ 3 ∷ 4 ∷ 5 ∷ 6 ∷ 7 ∷ 8 ∷ 9 ∷ 10 ∷ 11 ∷ 12 ∷ 13 ∷ 14 ∷ 15 ∷ 16 ∷ 17 ∷ 18 ∷ 19 ∷ 20 ∷ 21
    ∷ 22 ∷ 23 ∷ 24 ∷ 25 ∷ 26 ∷ 27 ∷ 28 ∷ 29 ∷ 30 ∷ 31 ∷ 32 ∷ []

abbrev minted : Claims
minted = record {
  snapshot_name = "snap-1";
  sidekick_name = "archiver";
  namespace = "demo";
  digest = "d";
  nonce = "n1";
  expires_at = pos 300;
}

abbrev pub cipher : Crypto
cipher = record {
  bytes = λ s. 7 ∷ [];
  text = λ b. "snap-1";
  encode = write;
  decode = parse 0;
  marshal_claims = λ claims. 8 ∷ 9 ∷ [];
  unmarshal_claims = λ b. some minted;
  sha256 = λ b. digest;
  hmac_sha256 = λ key b. digest;
  seal = λ key iv plain. plain;
  unseal = λ key iv sealed. some sealed;
}

pub cipher_laws : CryptoLaws cipher
cipher_laws = record {
  decode-encode = parse-write;
  length-sha256 = λ b. refl;
  length-hmac_sha256 = λ key b. refl;
  unseal-seal = λ key iv plain. refl;
}

pub key_ne : ◌≢◌ {A = String} "k2" ""
key_ne = ground (arith, eq_iff "k2" "")

abbrev iv : Bytes
iv = 1 ∷ 2 ∷ 3 ∷ 4 ∷ 5 ∷ 6 ∷ 7 ∷ 8 ∷ 9 ∷ 10 ∷ 11 ∷ 12 ∷ []

open-mint_example : (mint cipher "k2" minted iv >>= open_token cipher "k2") ≡ ok minted
open-mint_example = open-mint cipher cipher_laws "k2" minted iv key_ne refl refl
