-- ===== src/Reconcile/Handlers.antt =====
-- Which Sidekicks are reconciled when another object changes: the handlers of `SetupWithManager` of
-- pkg/controllers/apps/sidekick_controller.go. The registration of the watches is not modelled.
use sidekick.Prelude.{
  ◌≡◌, ap, sym, ◌∙◌, ok-injective, refl, Bool, ◌&&◌, none, some, List, [], ◌∷◌, ◌==◌, if◌then◌else◌,
  arith, Result, ok, err,
}
use sidekick.Prelude.Lists.{any}
use sidekick.Api.Meta.{ObjectMeta, NamespacedName}
use sidekick.Api.Sidekick.{Sidekick}
use sidekick.Cluster.{Io, Run, Server, pure, attempt, ◌>>=◌, read, list_sidekicks}
use sidekick.PhaseUpdate.{object_key}

module _ {R : Type 0} where
  unfoldable pub requests_of : (Sidekick R → Bool) → List (Sidekick R) → List NamespacedName
  requests_of wanted [] = []
  requests_of wanted (sk ∷ rest) =
      let more = requests_of wanted rest in if wanted sk then object_key sk ∷ more else more

  abbrev pub requests_or_none :
      (Sidekick R → Bool) → Result (List (Sidekick R)) → List NamespacedName
  requests_or_none wanted (ok sidekicks) = requests_of wanted sidekicks
  requests_or_none wanted (err _) = []

module _ {R W : Type 0} (server : Server R W) where
  -- For a pod that changes: the Sidekicks of its namespace that follow it.
  unfoldable pub leader_handler : ObjectMeta R → Io (Run R W) (List NamespacedName)
  leader_handler a = do
    listed ← attempt (list_sidekicks server (some a.namespace))
    pure (requests_or_none (λ sk. sk.status.leader.name == a.name) listed)

  -- For a ManifestWork that changes: the Sidekicks of its name in all namespaces.
  unfoldable pub mw_handler : ObjectMeta R → Io (Run R W) (List NamespacedName)
  mw_handler a = do
    listed ← attempt (list_sidekicks server none)
    pure (requests_or_none (λ sk. sk.name == a.name) listed)

any-requests_of :
    {R : Type 0} (wanted : Sidekick R → Bool) (test : NamespacedName → Bool)
    (sidekicks : List (Sidekick R))
    → any test (requests_of wanted sidekicks)
      ≡ any (λ sk. wanted sk && test (object_key sk)) sidekicks
unfolding requests_of
any-requests_of wanted test [] = refl
any-requests_of wanted test (sk ∷ rest) = ground (arith, any-requests_of wanted test rest)

module _ {R W : Type 0} (server : Server R W) (a : ObjectMeta R) (run : Run R W)
    (sidekicks : List (Sidekick R)) (requests : List NamespacedName) where
  -- When a pod changes and the Sidekicks of its namespace can be listed, exactly those are reconciled
  -- whose status names the pod as the leader: every test of requests passes on one of them exactly
  -- when it passes on one that is made.
  leader_handler-exact :
      (server.on_list_sidekicks (some a.namespace) run.world).0 ≡ ok sidekicks
      → (leader_handler server a run).0 ≡ ok requests
      → (test : NamespacedName → Bool)
      → any test requests
        ≡ any (λ sk. (sk.status.leader.name == a.name) && test (object_key sk)) sidekicks
  unfolding leader_handler ◌>>=◌ read
  leader_handler-exact listed h test =
      let wanted : Sidekick R → Bool = λ sk. sk.status.leader.name == a.name in
      ap (any test) (sym (ok-injective _ _ h) ∙ ap (requests_or_none wanted) listed)
      ∙ any-requests_of wanted test sidekicks
