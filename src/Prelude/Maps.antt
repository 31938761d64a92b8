-- ===== src/Prelude/Maps.antt =====
-- Go maps with string keys: an association list, or nil. A read of a missing key, or of a nil map,
-- has no value; a write to a nil map panics.
use Prim.Native.String.{String}
use mathlib.Core.Path.{◌≡◌, refl}
use mathlib.Core.List.{List, [], ◌∷◌}
use mathlib.Core.Option.{Option, none, some}
use native.Mathlib.Omega.{arith}
use text.Mathlib.TextEquality.{eq_iff}
use sidekick.Prelude.Tests.{◌==◌, if◌then◌else◌}
use sidekick.Prelude.Errors.{Result, ok, err, panicked}

abbrev pub Entries {ℓ} : Type ℓ → Type ℓ
Entries V = List (String × V)

abbrev pub GoMap {ℓ} : Type ℓ → Type ℓ
GoMap V = Option (Entries V)

module _ {ℓ} {V : Type ℓ} where
  unfoldable pub lookup : String → Entries V → Option V
  lookup key [] = none
  lookup key ((name, val) ∷ more) = if name == key then some val else lookup key more

  unfoldable pub insert : String → V → Entries V → Entries V
  insert key new [] = (key, new) ∷ []
  insert key new ((name, val) ∷ more) =
      if name == key then (key, new) ∷ more else (name, val) ∷ insert key new more

  pub lookup-insert :
      (key other : String) (new : V) (more : Entries V)
      → lookup other (insert key new more) ≡ (if key == other then some new else lookup other more)
  unfolding lookup insert
  lookup-insert key other new [] = refl
  lookup-insert key other new ((name, val) ∷ more) = ground (
    arith,
    eq_iff key other,
    eq_iff name key,
    eq_iff name other,
    lookup-insert key other new more,
  )

  -- `delete(m, k)`
  unfoldable pub delete : String → Entries V → Entries V
  delete key [] = []
  delete key ((name, val) ∷ more) =
      let rest = delete key more in if name == key then rest else (name, val) ∷ rest

  -- `maps.Copy(to, from)`. No key is twice in `from`, and if it were, the first would count.
  unfoldable pub copy_into : Entries V → Entries V → Entries V
  copy_into to [] = to
  copy_into to ((name, val) ∷ more) = insert name val (copy_into to more)

  pub lookup-copy_into :
      (to from : Entries V) (key : String)
      → lookup key (copy_into to from)
        ≡ (elim (lookup key from) [ some val ↦ some val | none ↦ lookup key to ])
  unfolding lookup copy_into
  lookup-copy_into to [] key = refl
  lookup-copy_into to ((name, val) ∷ more) key =
      ground (arith, lookup-insert name key val (copy_into to more), lookup-copy_into to more key)

  abbrev pub entries : GoMap V → Entries V
  entries none = []
  entries (some m) = m

  -- `if m == nil { m = make(...) }`
  abbrev pub make_if_nil : GoMap V → GoMap V
  make_if_nil none = some []
  make_if_nil (some m) = some m

  -- `m[k]`, where the key may be missing
  unfoldable pub get : GoMap V → String → Option V
  get m k = lookup k (entries m)

  -- `m[k] = v`
  unfoldable pub put : String → V → GoMap V → Result (GoMap V)
  put k v none = err panicked
  put k v (some m) = ok (some (insert k v m))
