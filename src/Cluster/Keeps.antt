-- ===== src/Cluster/Keeps.antt =====
-- Invariants of the log, one rule for each way to build a function that calls the API server.
use sidekick.Prelude.{Bool, true, false, List, ◌∷◌, Error, Result, ok, err, if◌then◌else◌}
use sidekick.Cluster.{Io, pure, raise, lift, attempt, ◌>>=◌, Event, Run, read, write, note}

-- `m` keeps `P` of the log, whether it returns or fails.
pub record Keeps {R W A : Type 0} (P : List (Event R) → Type 0) (m : Io (Run R W) A) : Type 0 where
  pub at : (s : Run R W) → P s.log → P (m s).1.log

module _ {R W A : Type 0} {P : List (Event R) → Type 0} where
  pub Keeps-lift : (r : Result A) → Keeps {W = W} P (lift r)
  unfolding lift
  Keeps-lift r = record { at = λ run held. held }

  pub Keeps-pure : (a : A) → Keeps {W = W} P (pure a)
  unfolding pure
  Keeps-pure a = record { at = λ run held. held }

  pub Keeps-raise : (e : Error) → Keeps {W = W} {A = A} P (raise e)
  unfolding raise
  Keeps-raise e = record { at = λ run held. held }

  pub Keeps-attempt : (m : Io (Run R W) A) → Keeps P m → Keeps P (attempt m)
  unfolding attempt
  Keeps-attempt m k = record { at = k.at }

  pub Keeps-if :
      (b : Bool) (m n : Io (Run R W) A) → Keeps P m → Keeps P n → Keeps P (if b then m else n)
  Keeps-if true m n km kn = km
  Keeps-if false m n km kn = kn

  pub Keeps-read : (f : W → Result A × W) → Keeps P (read f)
  unfolding read
  Keeps-read f = record { at = λ run held. held }

  pub Keeps-write :
      (e : Result A → Event R) (f : W → Result A × W)
      → ((r : Result A) (log : List (Event R)) → P log → P (e r ∷ log))
      → Keeps P (write e f)
  unfolding write
  Keeps-write e f k = record { at = λ s h. let (r, w) = f s.world in k r s.log h }

pub Keeps-note :
    {R W : Type 0} {P : List (Event R) → Type 0} (e : Event R)
    → ((log : List (Event R)) → P log → P (e ∷ log))
    → Keeps {W = W} P (note e)
unfolding note
Keeps-note e k = record { at = λ run held. k run.log held }

module _ {R W A B : Type 0} {P : List (Event R) → Type 0} where
  Keeps-continue :
      (r : Result A) (s : Run R W) (f : A → Io (Run R W) B)
      → P s.log
      → ((a : A) → Keeps P (f a))
      → P ((lift r >>= f) s).1.log
  unfolding ◌>>=◌
  Keeps-continue (ok a) s f h kf = (kf a).at s h
  Keeps-continue (err e) s f h kf = h

  pub Keeps-bind :
      (first : Io (Run R W) A) (next : A → Io (Run R W) B)
      → Keeps P first
      → ((a : A) → Keeps P (next a))
      → Keeps P (first >>= next)
  unfolding ◌>>=◌
  Keeps-bind first next kept kept_next = record {
    at = λ run held.
        let (r, after) = first run in Keeps-continue r after next (kept.at run held) kept_next;
  }

pub ruleset keeps_rules = (
  Keeps-pure, Keeps-raise, Keeps-lift, Keeps-attempt, Keeps-if, Keeps-read, Keeps-write, Keeps-bind,
)
