-- ===== src/Cluster/Leads.antt =====
-- What a function that calls the API server returns and what it makes of the world, one rule for each
-- way to build it.
use sidekick.Prelude.{◌≡◌, refl, sym, Bool, true, false, Error, Result, ok, err, if◌then◌else◌}
use mathlib.Core.Path.{subst}
use sidekick.Cluster.{
  Io, pure, raise, lift, attempt, ◌>>=◌, Event, Run, read, write, >>=-ok, attempt-next,
}

-- From a world in which `P` holds, `m` returns `r` and leaves one in which `Q` holds.
pub record Leads {R W A : Type 0} (P : W → Type 0) (m : Io (Run R W) A) (r : Result A)
    (Q : W → Type 0) : Type 0 where
  pub at : (s : Run R W) → P s.world → ((m s).0 ≡ r) × Q (m s).1.world

module _ {R W A : Type 0} {P : W → Type 0} where
  pub raise-Leads : (e : Error) → Leads {R = R} {A = A} P (raise e) (err e) P
  unfolding raise
  raise-Leads e = record { at = λ s h. (refl, h) }

  pub pure-Leads : (a b : A) → a ≡ b → Leads {R = R} P (pure a) (ok b) P
  unfolding pure
  pure-Leads a b e = record { at = λ s h. (rw e refl, h) }

  pub lift-Leads : (q r : Result A) → q ≡ r → Leads {R = R} P (lift q) r P
  unfolding lift
  lift-Leads q r e = record { at = λ s h. (e, h) }

  -- A read leaves the world as it is.
  pub read-Leads :
      (f : W → Result A × W) (r : Result A)
      → ((w : W) → (f w).1 ≡ w)
      → ((w : W) → P w → (f w).0 ≡ r)
      → Leads {R = R} P (read f) r P
  unfolding read
  read-Leads f r same answers = record {
    at = λ s h. (answers s.world h, subst P (sym (same s.world)) h);
  }

  pub write-Leads :
      {Q : W → Type 0} (e : Result A → Event R) (f : W → Result A × W) (r : Result A)
      → ((w : W) → P w → ((f w).0 ≡ r) × Q (f w).1)
      → Leads P (write e f) r Q
  unfolding write
  write-Leads e f r moves = record { at = λ s h. moves s.world h }

  module _ {Q : W → Type 0} {r : Result A} where
    pub weaken-Leads :
        {Q' : W → Type 0} (m : Io (Run R W) A)
        → Leads P m r Q
        → ((w : W) → Q w → Q' w)
        → Leads P m r Q'
    weaken-Leads m k weaker = record {
      at = λ s h. let (e, there) = k.at s h in (e, weaker (m s).1.world there);
    }

    pub then-Leads :
        (b : Bool) (m n : Io (Run R W) A)
        → b ≡ true
        → Leads P m r Q
        → Leads P (if b then m else n) r Q
    then-Leads true m n e k = k
    then-Leads false m n e k = cc

    pub else-Leads :
        (b : Bool) (m n : Io (Run R W) A)
        → b ≡ false
        → Leads P n r Q
        → Leads P (if b then m else n) r Q
    else-Leads true m n e k = cc
    else-Leads false m n e k = k

module _ {R W A B : Type 0} {P M Q : W → Type 0} where
  pub bind-Leads :
      (first : Io (Run R W) A) (next : A → Io (Run R W) B) (a : A) (r : Result B)
      → Leads P first (ok a) M
      → Leads M (next a) r Q
      → Leads P (first >>= next) r Q
  bind-Leads first next a r k kn = record {
    at = λ s h.
        let (e, there) = k.at s h in
        subst (λ (x, s'). (x ≡ r) × Q s'.world) (sym (>>=-ok first next s a e))
          (kn.at (first s).1 there);
  }

  pub attempt-Leads :
      (first : Io (Run R W) A) (next : Result A → Io (Run R W) B) (q : Result A) (r : Result B)
      → Leads P first q M
      → Leads M (next q) r Q
      → Leads P (attempt first >>= next) r Q
  attempt-Leads first next q r k kn = record {
    at = λ s h.
        let (e, there) = k.at s h in
        subst (λ (x, s'). (x ≡ r) × Q s'.world) (sym (attempt-next first next s q e))
          (kn.at (first s).1 there);
  }

module _ {R W A B : Type 0} {P Q : W → Type 0} where
  -- An error of the first call is that of the whole.
  pub fail-Leads :
      (first : Io (Run R W) A) (next : A → Io (Run R W) B) (e : Error)
      → Leads P first (err e) Q
      → Leads P (first >>= next) (err e) Q
  unfolding ◌>>=◌
  fail-Leads first next e k = record {
    at = λ s h. let (failed, there) = k.at s h in rw failed (refl, there);
  }

  -- A change whose outcome the server chooses, with what is known of it.
  pub write-some :
      (F : A → Type 0) (T : A → W → Type 0) (e : Result A → Event R) (f : W → Result A × W)
      (next : A → Io (Run R W) B) (r : Result B)
      → ((w : W) → P w → (a : A) × ((f w).0 ≡ ok a) × F a × T a (f w).1)
      → ((a : A) → F a → Leads (T a) (next a) r Q)
      → Leads P (write e f >>= next) r Q
  unfolding write
  write-some F T e f next r moves k = record {
    at = λ s h.
        let (a, given, fact, there) = moves s.world h in
        subst (λ (x, s'). (x ≡ r) × Q s'.world) (sym (>>=-ok (write e f) next s a given))
          ((k a fact).at (write e f s).1 there);
  }
