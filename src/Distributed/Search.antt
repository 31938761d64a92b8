-- ===== src/Distributed/Search.antt =====
-- The search for the ManifestWork of a distributed Sidekick over the namespaces of the clusters
-- (`getDistributedSidekickCurrentLeader` and `getDistributedPodNamespace` of
-- pkg/controllers/apps/distributed.go). The calls of the API server are parameters.
use sidekick.Prelude.{
  String, ◌≡◌, ◌≢◌, refl, arith, ◌⊎◌, inl, inr, Option, none, some, List, [], ◌∷◌, Error, not_found,
  failed, panicked, Result, ok, err,
}
use sidekick.Cluster.{Io, pure, raise, attempt, ◌>>=◌}
use sidekick.Api.ManifestWork.{ManifestWork}

module _ {R W : Type 0} (get_mw : String → Io W (ManifestWork R)) where
  -- `return nil, err`, where `err` may be nil.
  abbrev pub return_nil : Option Error → Io W (Option (ManifestWork R))
  return_nil none = pure none
  return_nil (some e) = raise e

  -- After a lookup: on an error other than NotFound the program returns what `err` held before, which
  -- is not the error of the call.
  unfoldable pub on_found :
      Option Error
      → Io W (Option (ManifestWork R))
      → Result (ManifestWork R)
      → Io W (Option (ManifestWork R))
  on_found held again (ok mw) = pure (some mw)
  on_found held again (err not_found) = again
  on_found held again (err (failed e)) = return_nil held
  on_found held again (err panicked) = raise panicked

  -- The loop, with what `err` holds.
  unfoldable pub search_current : Option Error → List String → Io W (Option (ManifestWork R))
  search_current held [] = return_nil held
  search_current held (ns ∷ rest) = do
    found ← attempt (get_mw ns)
    on_found held (search_current (some not_found) rest) found

  unfoldable pub get_distributed_sidekick_current_leader :
      Io W (List String) → Io W (Option (ManifestWork R))
  get_distributed_sidekick_current_leader list_namespaces = do
    namespaces ← list_namespaces
    search_current none namespaces

  unfoldable pub on_namespace : Io W String → Result (ManifestWork R) → Io W String
  on_namespace again (ok mw) = pure mw.namespace
  on_namespace again (err not_found) = again
  on_namespace again (err (failed e)) = raise (failed e)
  on_namespace again (err panicked) = raise panicked

  -- The loop of `getDistributedPodNamespace`, with the NotFound that it holds.
  unfoldable pub search_namespace : Option Error → List String → Io W String
  search_namespace held [] = elim held [ none ↦ pure "" | some e ↦ raise e ]
  search_namespace held (ns ∷ rest) = do
    found ← attempt (get_mw ns)
    on_namespace (search_namespace (some not_found) rest) found

  unfoldable pub get_distributed_pod_namespace : Io W (List String) → Io W String
  get_distributed_pod_namespace list_namespaces = do
    namespaces ← list_namespaces
    search_namespace none namespaces

  -- The outcome is not an error other than NotFound.
  abbrev IsHidden : Result (Option (ManifestWork R)) → Type 0
  IsHidden r = (e : String) → r ≢ err (failed e)

  -- What `err` holds is nothing or NotFound.
  abbrev IsHeld : Option Error → Type 0
  IsHeld held = (held ≡ none) ⊎ (held ≡ some not_found)

  return_nil-IsHidden : (held : Option Error) (s : W) → IsHeld held → IsHidden (return_nil held s).0
  unfolding pure raise
  return_nil-IsHidden none s h e k = cc
  return_nil-IsHidden (some not_found) s h e k = cc
  return_nil-IsHidden (some (failed x)) s h e k = ground arith
  return_nil-IsHidden (some panicked) s h e k = cc

  on_found-IsHidden :
      (held : Option Error) (again : Io W (Option (ManifestWork R))) (r : Result (ManifestWork R))
      (s : W)
      → IsHeld held
      → IsHidden (again s).0
      → IsHidden (on_found held again r s).0
  unfolding on_found pure raise
  on_found-IsHidden held again (ok mw) s h k = λ e q. cc
  on_found-IsHidden held again (err not_found) s h k = k
  on_found-IsHidden held again (err (failed x)) s h k = return_nil-IsHidden held s h
  on_found-IsHidden held again (err panicked) s h k = λ e q. cc

  search_current-IsHidden :
      (held : Option Error) (namespaces : List String) (s : W)
      → IsHeld held
      → IsHidden (search_current held namespaces s).0
  unfolding search_current ◌>>=◌ attempt
  search_current-IsHidden held [] s h = return_nil-IsHidden held s h
  search_current-IsHidden held (ns ∷ rest) s h =
      let (r, s') = get_mw ns s in
      on_found-IsHidden held (search_current (some not_found) rest) r s' h
        (search_current-IsHidden (some not_found) rest s' (inr refl))

  -- Once the namespaces are listed, no error of a lookup but NotFound is passed on, whatever the
  -- API server answers.
  pub current_leader-hides :
      (list_namespaces : Io W (List String)) (namespaces : List String) (s s' : W) (e : String)
      → list_namespaces s ≡ (ok namespaces, s')
      → (get_distributed_sidekick_current_leader list_namespaces s).0 ≢ err (failed e)
  unfolding get_distributed_sidekick_current_leader ◌>>=◌
  current_leader-hides list_namespaces namespaces s s' e h =
      rw h (search_current-IsHidden none namespaces s' (inl refl) e)
