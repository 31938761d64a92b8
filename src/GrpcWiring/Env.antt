-- ===== src/GrpcWiring/Env.antt =====
-- Variables of a container: that they are read as they were set, and set without effect on others
-- (`setEnv`, `getEnv` and `setSigningKey` of pkg/controllers/apps/grpc_wiring.go).
use mathlib.Core.Path.{subst}
use sidekick.Prelude.{
  String, ◌≡◌, ap, sym, ◌∙◌, ◌≢◌, ◌⊎◌, inl, inr, refl, true, Option, none, some, List, [], ◌∷◌,
  ◌==◌, arith, if◌then◌else◌, eq_iff, eq_refl, is_some, ok, >>=-eq-ok, ok-injective,
}
use sidekick.Api.Pod.{EnvVar}
use sidekick.Api.Sidekick.{Sidekick, Container}
use sidekick.GrpcWiring.{
  find_env, upsert_env, set_env, is_wal_g, find_wal_g, replace_wal_g, get_sidekick_container,
  put_container, found_or_error, set_signing_key, env_grpc_token_secret,
}

Option-cases : {A : Type 0} (o : Option A) → ((a : A) × (o ≡ some a)) ⊎ (o ≡ none)
Option-cases (some a) = inl (a, refl)
Option-cases none = inr refl

some-ne-none : {A : Type 0} (a : A) → some a ≢ none
some-ne-none a h = cc

module _ {R : Type 0} where
  -- A variable that is set is read with its value, and the others as before.
  pub find_env-upsert_env :
      (name other value : String) (env : List (EnvVar R))
      → find_env other (upsert_env name value env)
        ≡ (if name == other then some value else find_env other env)
  unfolding find_env upsert_env
  find_env-upsert_env name other value [] = refl
  find_env-upsert_env name other value (e ∷ rest) = ground (
    arith,
    eq_iff name other,
    eq_iff e.name name,
    eq_iff e.name other,
    find_env-upsert_env name other value rest,
  )

  -- Setting a variable again to its value changes nothing, so a repeated reconciliation does not
  -- change the pod.
  pub upsert_env-idempotent :
      (name value : String) (env : List (EnvVar R))
      → upsert_env name value (upsert_env name value env) ≡ upsert_env name value env
  unfolding upsert_env
  upsert_env-idempotent name value [] = ground (arith, eq_refl name)
  upsert_env-idempotent name value (e ∷ rest) =
      ground (arith, eq_iff e.name name, eq_refl name, upsert_env-idempotent name value rest)

  find_wal_g-is_wal_g :
      (containers : List (Container R)) (cont : Container R)
      → find_wal_g containers ≡ some cont
      → is_wal_g cont ≡ true
  unfolding find_wal_g
  find_wal_g-is_wal_g [] cont h = cc
  find_wal_g-is_wal_g (c ∷ rest) cont h = ground (arith, find_wal_g-is_wal_g rest cont)

  find_wal_g-replace_wal_g :
      (containers : List (Container R)) (new : Container R)
      → is_wal_g new ≡ true
      → is_some (find_wal_g containers) ≡ true
      → find_wal_g (replace_wal_g new containers) ≡ some new
  unfolding find_wal_g replace_wal_g
  find_wal_g-replace_wal_g [] new w h = cc
  find_wal_g-replace_wal_g (c ∷ rest) new w h = ground (arith, find_wal_g-replace_wal_g rest new w)

  replace_wal_g-idempotent :
      (containers : List (Container R)) (new : Container R)
      → is_wal_g new ≡ true
      → replace_wal_g new (replace_wal_g new containers) ≡ replace_wal_g new containers
  unfolding replace_wal_g
  replace_wal_g-idempotent [] new w = refl
  replace_wal_g-idempotent (c ∷ rest) new w = ground (arith, replace_wal_g-idempotent rest new w)

  abbrev env_in : String → Option (Container R) → Option String
  env_in name none = none
  env_in name (some cont) = find_env name cont.env

  -- A variable of the container that the service is for.
  abbrev pub wal_g_env : Sidekick R → String → Option String
  wal_g_env sk name = env_in name (get_sidekick_container sk)

  -- The container after a variable has been set in it.
  put-set_env :
      (sk : Sidekick R) (cont : Container R) (name value : String)
      → get_sidekick_container sk ≡ some cont
      → get_sidekick_container (put_container sk (set_env cont name value))
        ≡ some (set_env cont name value)
  put-set_env sk cont name value h =
      find_wal_g-replace_wal_g sk.spec.containers (set_env cont name value)
        (find_wal_g-is_wal_g sk.spec.containers cont h) (rw h)

  pub wal_g_env-put :
      (sk : Sidekick R) (cont : Container R) (name other value : String)
      → get_sidekick_container sk ≡ some cont
      → wal_g_env (put_container sk (set_env cont name value)) other
        ≡ (if name == other then some value else wal_g_env sk other)
  wal_g_env-put sk cont name other value h =
      ap (env_in other) (put-set_env sk cont name value h)
      ∙ (find_env-upsert_env name other value cont.env
          ∙ ap (λ before. if name == other then some value else before) (sym (ap (env_in other) h)))

  pub wal_g_env-found :
      (sk : Sidekick R) (cont : Container R) (name : String)
      → get_sidekick_container sk ≡ some cont
      → wal_g_env sk name ≡ find_env name cont.env
  wal_g_env-found sk cont name h = ap (env_in name) h

  -- A variable that has a value is one of the container.
  pub wal_g_env-some :
      (sk : Sidekick R) (name value : String)
      → wal_g_env sk name ≡ some value
      → (cont : Container R) × (get_sidekick_container sk ≡ some cont)
        × (find_env name cont.env ≡ some value)
  wal_g_env-some sk name value h = elim (Option-cases (get_sidekick_container sk)) [
    | inl (cont, e) ↦ (cont, e, sym (wal_g_env-found sk cont name e) ∙ h)
    | inr e ↦ absurd (some-ne-none value (sym h ∙ ap (env_in name) e))
  ]

  pub found-cases :
      (sk : Sidekick R) (cont : Container R)
      → found_or_error (get_sidekick_container sk) ≡ ok cont
      → get_sidekick_container sk ≡ some cont
  found-cases sk cont h = ground arith

  -- Where it succeeds, setting the signing key puts it into the environment of the container that
  -- the service is for, and all other variables of that container are as they were.
  set_signing_key-env :
      (sk sk' : Sidekick R) (key other : String)
      → set_signing_key sk key ≡ ok sk'
      → wal_g_env sk' other
        ≡ (if env_grpc_token_secret == other then some key else wal_g_env sk other)
  unfolding set_signing_key
  set_signing_key-env sk sk' key other h =
      let (cont, found, same) = >>=-eq-ok (found_or_error (get_sidekick_container sk)) _ h in
      subst
        (λ s.
          wal_g_env s other
          ≡ (if env_grpc_token_secret == other then some key else wal_g_env sk other))
        (ok-injective _ _ same)
        (wal_g_env-put sk cont env_grpc_token_secret other key (found-cases sk cont found))

  -- A write of what is there.
  put-again :
      (sk : Sidekick R) (cont : Container R) (name value : String)
      → get_sidekick_container sk ≡ some cont
      → put_container
          (put_container sk (set_env cont name value))
          (set_env (set_env cont name value) name value)
        ≡ put_container sk (set_env cont name value)
  put-again sk cont name value h =
      let new = set_env cont name value in
      let same : set_env new name value ≡ new =
        ap (λ env. record cont { env = env }) (upsert_env-idempotent name value cont.env) in
      ap (put_container (put_container sk new)) same
      ∙ ap (λ cs. record sk { spec = record (sk.spec) { containers = cs } })
          (replace_wal_g-idempotent sk.spec.containers new
            (find_wal_g-is_wal_g sk.spec.containers cont h))

  set_signing_key-put :
      (sk : Sidekick R) (cont : Container R) (key : String)
      → get_sidekick_container sk ≡ some cont
      → set_signing_key sk key ≡ ok (put_container sk (set_env cont env_grpc_token_secret key))
  unfolding set_signing_key
  set_signing_key-put sk cont key h = rw h refl

  -- Where setting the signing key succeeds, setting it again succeeds and changes nothing.
  set_signing_key-stable :
      (sk sk' : Sidekick R) (key : String)
      → set_signing_key sk key ≡ ok sk'
      → set_signing_key sk' key ≡ ok sk'
  unfolding set_signing_key
  set_signing_key-stable sk sk' key h =
      let (cont, found, same) = >>=-eq-ok (found_or_error (get_sidekick_container sk)) _ h in
      let there = found-cases sk cont found in
      subst (λ s. set_signing_key s key ≡ ok s) (ok-injective _ _ same)
        (set_signing_key-put _ (set_env cont env_grpc_token_secret key) key
            (put-set_env sk cont env_grpc_token_secret key there)
          ∙ ap ok (put-again sk cont env_grpc_token_secret key there))
