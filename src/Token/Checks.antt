-- ===== src/Token/Checks.antt =====
-- What a verified token is (`Claims.Verify` of grpc/token/token.go).
use sidekick.Prelude.{String, ◌≡◌, ◌≢◌, ◌↔◌, ℤ, pos, ◌<ℤ◌, arith, eq_iff, ok}
use sidekick.Token.{Claims, verify}

-- A token passes exactly when it has an expiry that is still ahead, was minted for the Sidekick and
-- the namespace of the request, is bound to the digest of its payload, and has a nonce.
pub verify-ok :
    (claims : Claims) (now : ℤ) (sidekick_name namespace digest : String)
    → (verify claims now sidekick_name namespace digest ≡ ok tt) ↔ (
        (claims.expires_at ≢ pos 0)
        × (now <ℤ claims.expires_at)
        × (claims.sidekick_name ≡ sidekick_name)
        × (claims.namespace ≡ namespace)
        × (claims.digest ≡ digest)
        × (claims.digest ≢ "")
        × (claims.nonce ≢ ""))
unfolding verify
verify-ok claims now sidekick_name namespace digest = ground (
  arith,
  eq_iff claims.sidekick_name sidekick_name,
  eq_iff claims.namespace namespace,
  eq_iff claims.digest digest,
  eq_iff claims.digest "",
  eq_iff claims.nonce "",
)
