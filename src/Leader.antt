-- ===== src/Leader.antt =====
-- The pod that a Sidekick follows: `getLeader` of pkg/controllers/apps/sidekick_controller.go.
pub mod Name
pub mod Choice
use sidekick.Prelude.{
  String, Bool, true, false, Option, none, some, List, [], ◌∷◌, ◌==◌, if◌then◌else◌, not_found,
  failed, Result, ok, err,
}
use sidekick.Prelude.Lists.{keep_if, last_of}
use sidekick.Api.Meta.{NamespacedName}
use sidekick.Api.Pod.{Pod, is_running}
use sidekick.Api.Sidekick.{Sidekick, LeaderSelectionPolicy, selects_first}
use sidekick.Cluster.{Io, Run, Server, lift, ◌>>=◌, ◌>>◌, get_pod, list_pods}
use sidekick.Leader.Name.{name_less}

-- `sort.Slice`, of the standard library: a list in the order of a test.
abbrev pub Sort : Type 0 → Type 0
Sort R = (Pod R → Pod R → Bool) → List (Pod R) → List (Pod R)

module _ {R : Type 0} where
  abbrev pub is_candidate : Pod R → Bool
  is_candidate pod = is_running pod.status.phase

  abbrev pub pod_less : Pod R → Pod R → Bool
  pod_less i j = name_less i.name j.name

  -- `&leaders[0]` or `&leaders[len(leaders)-1]`; an empty list, which is answered before, does not come
  -- here unless the sort loses pods
  unfoldable pub pick : LeaderSelectionPolicy → List (Pod R) → Result (Pod R)
  pick policy [] = err not_found
  pick policy (pod ∷ rest) = ok (if selects_first policy then pod else last_of pod rest)

  -- The choice among the pods that run.
  unfoldable pub choose : Sort R → LeaderSelectionPolicy → List (Pod R) → Result (Pod R)
  choose sort policy [] = err not_found
  choose sort policy (pod ∷ []) = ok pod
  choose sort policy (pod ∷ next ∷ rest) = pick policy (sort pod_less (pod ∷ next ∷ rest))

module _ {R W : Type 0} (server : Server R W) (sort : Sort R) where
  unfoldable pub get_leader : Sidekick R → Io (Run R W) (Pod R)
  get_leader sidekick =
      if sidekick.spec.leader.name == ""
      then (do
        candidates ← list_pods server sidekick.namespace sidekick.spec.leader.selector
        lift (choose sort sidekick.spec.leader.selection_policy (keep_if is_candidate candidates)))
      else get_pod server
          (record { namespace = sidekick.namespace; name = sidekick.spec.leader.name })
