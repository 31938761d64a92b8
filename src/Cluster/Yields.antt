-- ===== src/Cluster/Yields.antt =====
-- What a function that calls the API server returns, one rule for each way to build it. A panic is
-- never allowed.
use sidekick.Prelude.{
  Bool, true, false, Option, none, some, Error, not_found, failed, panicked, Result, ok, err,
  if◌then◌else◌, String,
}
use sidekick.Prelude
use sidekick.Cluster.{Io, pure, raise, lift, attempt, ◌>>=◌, Event, Run, read, write}

-- The result is an error but no panic, or a value of which `Q` holds.
abbrev pub IsFine : {A : Type 0} → (A → Type 0) → Result A → Type 0
IsFine Q (ok a) = Q a
IsFine Q (err not_found) = Unit
IsFine Q (err (failed e)) = Unit
IsFine Q (err panicked) = ⊥

abbrev pub Anything : {A : Type 0} → A → Type 0
Anything a = Unit

pub weaken :
    {A : Type 0} (P Q : A → Type 0) (r : Result A) → IsFine P r → ((a : A) → P a → Q a) → IsFine Q r
weaken P Q (ok a) h k = k a h
weaken P Q (err not_found) h k = tt
weaken P Q (err (failed e)) h k = tt
weaken P Q (err panicked) h k = h

-- An error that is no panic.
abbrev pub IsCalm : {A : Type 0} → Result A → Type 0
IsCalm r = IsFine Anything r

pub bind-IsCalm :
    {A B : Type 0} (r : Result A) (next : A → Result B)
    → IsCalm r
    → ((a : A) → IsCalm (next a))
    → IsCalm (Prelude.◌>>=◌ r next)
bind-IsCalm (ok a) next h k = k a
bind-IsCalm (err not_found) next h k = tt
bind-IsCalm (err (failed e)) next h k = tt
bind-IsCalm (err panicked) next h k = h

pub if-IsCalm :
    {A : Type 0} (b : Bool) (x y : Result A) → IsCalm x → IsCalm y → IsCalm (if b then x else y)
if-IsCalm true x y h k = h
if-IsCalm false x y h k = k

pub record Yields {S A : Type 0} (Q : A → Type 0) (m : Io S A) : Type 0 where
  pub fine : (s : S) → IsFine Q (m s).0

abbrev pub Calm : {S A : Type 0} → Io S A → Type 0
Calm m = Yields Anything m

module _ {S A : Type 0} where
  pub pure-Calm : (a : A) → Calm {S = S} (pure a)
  unfolding pure
  pure-Calm a = record { fine = λ s. tt }

  pub forget : (Q : A → Type 0) (m : Io S A) → Yields Q m → Calm m
  forget Q m h = record { fine = λ s. weaken Q Anything (m s).0 (h.fine s) (λ a _. tt) }

  pub pure-Yields : (Q : A → Type 0) (a : A) → Q a → Yields {S = S} Q (pure a)
  unfolding pure
  pure-Yields Q a h = record { fine = λ s. h }

  pub if-Yields :
      (Q : A → Type 0) (b : Bool) (m n : Io S A)
      → Yields Q m
      → Yields Q n
      → Yields Q (if b then m else n)
  if-Yields Q true m n km kn = km
  if-Yields Q false m n km kn = kn

  pub lift-Calm : (r : Result A) → IsCalm r → Calm {S = S} (lift r)
  unfolding lift
  lift-Calm r h = record { fine = λ s. h }

  pub raise-Calm : (e : String) → Calm {S = S} {A = A} (raise (failed e))
  unfolding raise
  raise-Calm e = record { fine = λ s. tt }

  pub lift-Yields : (Q : A → Type 0) (r : Result A) → IsFine Q r → Yields {S = S} Q (lift r)
  unfolding lift
  lift-Yields Q r h = record { fine = λ s. h }

  pub if-Calm : (b : Bool) (m n : Io S A) → Calm m → Calm n → Calm (if b then m else n)
  if-Calm b m n km kn = if-Yields Anything b m n km kn

module _ {R W A : Type 0} where
  pub read-Yields :
      (Q : A → Type 0) (f : W → Result A × W)
      → ((w : W) → IsFine Q (f w).0)
      → Yields {S = Run R W} Q (read f)
  unfolding read
  read-Yields Q f k = record { fine = λ s. k s.world }

  pub write-Yields :
      (Q : A → Type 0) (e : Result A → Event R) (f : W → Result A × W)
      → ((w : W) → IsFine Q (f w).0)
      → Yields {S = Run R W} Q (write e f)
  unfolding write
  write-Yields Q e f k = record { fine = λ s. k s.world }

module _ {S A B : Type 0} where
  lift-next :
      (Q : A → Type 0) (P : B → Type 0) (r : Result A) (next : A → Io S B) (s : S)
      → IsFine Q r
      → ((a : A) → Q a → Yields P (next a))
      → IsFine P ((lift r >>= next) s).0
  unfolding ◌>>=◌
  lift-next Q P (ok a) next s h k = (k a h).fine s
  lift-next Q P (err not_found) next s h k = tt
  lift-next Q P (err (failed e)) next s h k = tt
  lift-next Q P (err panicked) next s h k = h

  pub bind-Yields :
      (Q : A → Type 0) (P : B → Type 0) (first : Io S A) (next : A → Io S B)
      → Yields Q first
      → ((a : A) → Q a → Yields P (next a))
      → Yields P (first >>= next)
  unfolding ◌>>=◌
  bind-Yields Q P first next h k = record {
    fine = λ s. let (r, s') = first s in lift-next Q P r next s' (h.fine s) k;
  }

  pub bind-Calm :
      (first : Io S A) (next : A → Io S B)
      → Calm first
      → ((a : A) → Calm (next a))
      → Calm (first >>= next)
  bind-Calm first next h k = bind-Yields Anything Anything first next h (λ a _. k a)

  -- Code that looks at the error of a call need not expect a panic.
  pub attempt-fine :
      (Q : A → Type 0) (P : B → Type 0) (first : Io S A) (next : Result A → Io S B)
      → Yields Q first
      → ((r : Result A) → IsFine Q r → Yields P (next r))
      → Yields P (attempt first >>= next)
  unfolding ◌>>=◌
  attempt-fine Q P first next h k = record {
    fine = λ s. let (r, s') = first s in (k r (h.fine s)).fine s';
  }

  pub attempt-Yields :
      (P : B → Type 0) (first : Io S A) (next : Result A → Io S B)
      → Calm first
      → ((r : Result A) → IsCalm r → Yields P (next r))
      → Yields P (attempt first >>= next)
  attempt-Yields P first next h k = attempt-fine Anything P first next h k

pub ruleset calm_rules = (pure-Calm, raise-Calm, lift-Calm, if-Calm, bind-Calm, attempt-Yields)
