-- ===== src/Cluster/Effects.antt =====
-- Functions that call the API server: what was done before an error stays done.
use sidekick.Prelude.{◌≡◌, refl, Error, Result, ok, err}

abbrev pub Io : Type 0 → Type 0 → Type 0
Io S A = S → Result A × S

module _ {S A : Type 0} where
  unfoldable pub pure : A → Io S A
  pure a s = (ok a, s)

  unfoldable pub raise : Error → Io S A
  raise e s = (err e, s)

  unfoldable pub lift : Result A → Io S A
  lift r s = (r, s)

  -- `x, err := m`: the error as a value, for code that looks at it.
  unfoldable pub attempt : Io S A → Io S (Result A)
  attempt m s = let (r, s') = m s in (ok r, s')

module _ {S A B : Type 0} where
  abbrev continue : Result A → (A → Io S B) → Io S B
  continue (ok a) f s = f a s
  continue (err e) f s = (err e, s)

  infixl 5 ◌>>=◌ ◌>>◌
  -- Opening this opens `pure`, `raise`, `lift` and `attempt` too.
  unfoldable pub ◌>>=◌ : Io S A → (A → Io S B) → Io S B
  unfolding pure raise lift attempt
  ◌>>=◌ m f s = let (r, s') = m s in continue r f s'

  abbrev pub ◌>>◌ : Io S A → Io S B → Io S B
  m >> n = m >>= λ _. n

  -- What follows a call whose outcome is known.
  pub >>=-ok :
      (first : Io S A) (next : A → Io S B) (s : S) (a : A)
      → (first s).0 ≡ ok a
      → (first >>= next) s ≡ next a (first s).1
  unfolding ◌>>=◌
  >>=-ok first next s a h = rw h refl

  pub >>=-err :
      (first : Io S A) (next : A → Io S B) (s : S) (e : Error)
      → (first s).0 ≡ err e
      → ((first >>= next) s).0 ≡ err e
  unfolding ◌>>=◌
  >>=-err first next s e h = rw h refl

  continue-eq-ok :
      (r : Result A) (next : A → Io S B) (s : S) {b : B}
      → (continue r next s).0 ≡ ok b
      → (a : A) × (r ≡ ok a) × ((next a s).0 ≡ ok b)
  continue-eq-ok (ok a) next s h = (a, refl, h)
  continue-eq-ok (err e) next s h = cc

  -- A composition succeeds only where both parts do.
  pub >>=-eq-ok :
      (first : Io S A) (next : A → Io S B) (s : S) {b : B}
      → ((first >>= next) s).0 ≡ ok b
      → (a : A) × (s' : S) × ((first s).0 ≡ ok a) × ((next a s').0 ≡ ok b)
  unfolding ◌>>=◌
  >>=-eq-ok first next s h =
      let (a, e, more) = continue-eq-ok (first s).0 next (first s).1 h in (a, (first s).1, e, more)

module _ {S A B : Type 0} where
  pub attempt-next :
      (m : Io S A) (next : Result A → Io S B) (s : S) (r : Result A)
      → (m s).0 ≡ r
      → (attempt m >>= next) s ≡ next r (m s).1
  unfolding ◌>>=◌
  attempt-next m next s r h = rw h refl
