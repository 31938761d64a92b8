-- ===== src/SnapshotServer/Replay.antt =====
-- The cache of nonces that have been used: `replayCache` of pkg/snapshotserver/grpc.go. Entries are
-- kept until their token has expired. The lock makes each `accept` one step.
use sidekick.Prelude.{
  String, ◌≡◌, refl, Bool, true, false, none, some, List, [], ◌∷◌, ℤ, ltb_ℤ, ◌<ℤ◌, ◌≤ℤ◌, arith,
  if◌then◌else◌, is_some, eq_iff, eq_refl,
}
use sidekick.Prelude.Lists.{All}
use sidekick.Prelude.Maps.{Entries, lookup, insert, lookup-insert}

-- The entries whose expiry is after `now`.
unfoldable pub purge : ℤ → Entries ℤ → Entries ℤ
purge now [] = []
purge now ((k, e) ∷ rest) = let live = purge now rest in if ltb_ℤ now e then (k, e) ∷ live else live

-- Whether the nonce is new, and the cache then.
unfoldable pub accept : ℤ → String → ℤ → Entries ℤ → Bool × Entries ℤ
accept now nonce exp cache =
    let live = purge now cache in
    if is_some (lookup nonce live) then (false, live) else (true, insert nonce exp live)

-- A use of a nonce: the time of the call, the nonce and its expiry.
pub record Use : Type 0 where
  pub now : ℤ
  pub nonce : String
  pub exp : ℤ

unfoldable pub accept_all : List Use → Entries ℤ → Entries ℤ
accept_all [] cache = cache
accept_all (u ∷ us) cache = accept_all us (accept u.now u.nonce u.exp cache).1

lookup-purge :
    (now : ℤ) (nonce : String) (e : ℤ) (cache : Entries ℤ)
    → now <ℤ e
    → lookup nonce cache ≡ some e
    → lookup nonce (purge now cache) ≡ some e
unfolding lookup purge
lookup-purge now nonce e [] l h = cc
lookup-purge now nonce e ((k, e') ∷ rest) l h =
    ground (arith, eq_iff k nonce, lookup-purge now nonce e rest)

-- Before it expires, a nonce in the cache is not accepted.
pub accept-seen :
    (now : ℤ) (nonce : String) (e exp : ℤ) (cache : Entries ℤ)
    → now <ℤ e
    → lookup nonce cache ≡ some e
    → (accept now nonce exp cache).0 ≡ false
unfolding accept
accept-seen now nonce e exp cache l h = ground (arith, lookup-purge now nonce e cache l h)

-- And it stays there, whatever nonce is tried.
pub accept-keeps :
    (now : ℤ) (other nonce : String) (e exp : ℤ) (cache : Entries ℤ)
    → now <ℤ e
    → lookup nonce cache ≡ some e
    → lookup nonce (accept now other exp cache).1 ≡ some e
unfolding accept
accept-keeps now other nonce e exp cache l h = ground (
  arith,
  lookup-purge now nonce e cache l h,
  lookup-insert other nonce exp (purge now cache),
  eq_iff other nonce,
)

accept_all-keeps :
    (us : List Use) (nonce : String) (e : ℤ) (cache : Entries ℤ)
    → All (λ u. u.now <ℤ e) us
    → lookup nonce cache ≡ some e
    → lookup nonce (accept_all us cache) ≡ some e
unfolding accept_all
accept_all-keeps [] nonce e cache l h = h
accept_all-keeps (u ∷ us) nonce e cache (l, ls) h =
    accept_all-keeps us nonce e _ ls (accept-keeps u.now u.nonce nonce e u.exp cache l h)

-- An accepted nonce is in the cache.
pub accept-lookup :
    (now : ℤ) (nonce : String) (exp : ℤ) (cache : Entries ℤ)
    → (accept now nonce exp cache).0 ≡ true
    → lookup nonce (accept now nonce exp cache).1 ≡ some exp
unfolding accept
accept-lookup now nonce exp cache h =
    ground (arith, lookup-insert nonce nonce exp (purge now cache), eq_refl nonce)

-- A nonce is accepted once: after it was accepted with an expiry, and after any uses of nonces, no
-- use of it before that expiry is accepted.
pub accept-once :
    (now : ℤ) (nonce : String) (exp : ℤ) (cache : Entries ℤ) (us : List Use) (later exp' : ℤ)
    → (accept now nonce exp cache).0 ≡ true
    → All (λ u. u.now <ℤ exp) us
    → later <ℤ exp
    → (accept later nonce exp' (accept_all us (accept now nonce exp cache).1)).0 ≡ false
accept-once now nonce exp cache us later exp' h l l' =
    accept-seen later nonce exp exp' _ l'
      (accept_all-keeps us nonce exp _ l (accept-lookup now nonce exp cache h))

purge-live : (now : ℤ) (cache : Entries ℤ) → All (λ p. now <ℤ p.1) (purge now cache)
unfolding purge
purge-live now [] = tt
purge-live now ((k, e) ∷ rest) = ground (arith, purge-live now rest)

insert-live :
    (now : ℤ) (nonce : String) (exp : ℤ) (cache : Entries ℤ)
    → now <ℤ exp
    → All (λ p. now <ℤ p.1) cache
    → All (λ p. now <ℤ p.1) (insert nonce exp cache)
unfolding insert
insert-live now nonce exp [] l h = (l, tt)
insert-live now nonce exp ((k, e) ∷ rest) l h = ground (arith, insert-live now nonce exp rest l)

-- After a call with a token that has not expired, the cache holds no expired entry.
accept-live :
    (now : ℤ) (nonce : String) (exp : ℤ) (cache : Entries ℤ)
    → now <ℤ exp
    → All (λ p. now <ℤ p.1) (accept now nonce exp cache).1
unfolding accept
accept-live now nonce exp cache l = ground (
  arith,
  purge-live now cache,
  insert-live now nonce exp (purge now cache) l (purge-live now cache),
)

-- A nonce without an entry that is alive is accepted.
pub accept-new :
    (now : ℤ) (nonce : String) (exp : ℤ) (cache : Entries ℤ)
    → lookup nonce (purge now cache) ≡ none
    → (accept now nonce exp cache).0 ≡ true
unfolding accept
accept-new now nonce exp cache h = ground arith

lookup-purge-none :
    (now : ℤ) (nonce : String) (cache : Entries ℤ)
    → lookup nonce cache ≡ none
    → lookup nonce (purge now cache) ≡ none
unfolding lookup purge
lookup-purge-none now nonce [] h = refl
lookup-purge-none now nonce ((k, e) ∷ rest) h =
    ground (arith, eq_iff k nonce, lookup-purge-none now nonce rest)

purge-insert :
    (now : ℤ) (nonce : String) (exp : ℤ) (cache : Entries ℤ)
    → exp ≤ℤ now
    → lookup nonce cache ≡ none
    → lookup nonce (purge now (insert nonce exp cache)) ≡ none
unfolding lookup purge insert
purge-insert now nonce exp [] l h = ground arith
purge-insert now nonce exp ((k, e) ∷ rest) l h =
    ground (arith, eq_iff k nonce, purge-insert now nonce exp rest l)

-- Once the expiry has come, the nonce that was accepted with it is accepted again.
pub accept-again :
    (now : ℤ) (nonce : String) (exp : ℤ) (cache : Entries ℤ) (later exp' : ℤ)
    → (accept now nonce exp cache).0 ≡ true
    → exp ≤ℤ later
    → (accept later nonce exp' (accept now nonce exp cache).1).0 ≡ true
unfolding accept
accept-again now nonce exp cache later exp' h l =
    ground (arith, purge-insert later nonce exp (purge now cache) l)
