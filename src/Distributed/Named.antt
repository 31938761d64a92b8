-- ===== src/Distributed/Named.antt =====
-- What the election of a distributed Sidekick comes to (`getDistributedLeader` and
-- `findDistributedLeader` of pkg/controllers/apps/distributed.go).
use sidekick.Prelude.{
  String, ◌≡◌, ◌≢◌, refl, ◌∙◌, ap, arith, eq_iff, Bool-cases, inl, inr, Option, none, some, List,
  [], ◌∷◌, not_found, Result, ok, err, ◌==◌, false,
}
use sidekick.Prelude
use sidekick.Api.Meta.{NamespacedName}
use sidekick.Api.Pod.{Pod}
use sidekick.Api.Sidekick.{Sidekick, LeaderSelectionPolicy}
use sidekick.Cluster.{
  Run, Server, Event, pure, ◌>>=◌, read, list_namespaces, ocm_get, >>=-ok, >>=-err, attempt-next,
}
use sidekick.Leader.{Sort, pick, choose}
use sidekick.Reconcile.{requeue_after}
use sidekick.Distributed.Search.{search_namespace, on_namespace, get_distributed_pod_namespace}
use sidekick.Distributed.Reads.{own_mw-Keeps}
use sidekick.Distributed.Log.{get_distributed_leader-Keeps}
use sidekick.Distributed.Works.{pod_namespace, own_mw}
use sidekick.Distributed.Election.{
  order_leaders, find_named, find_distributed_leader, get_distributed_leader,
}
use sidekick.Distributed.Reconciler.{
  Operator, follow_elected, on_missing_leader, on_distributed_leader,
}

-- Among the same pods, a distributed Sidekick gets the leader that it would get in one cluster, under
-- every policy and whatever the sort.
order_leaders-choose :
    {R : Type 0} (sort : Sort R) (policy : LeaderSelectionPolicy) (pods : List (Pod R))
    → Prelude.◌>>=◌ (order_leaders sort pods) (pick policy) ≡ choose sort policy pods
unfolding order_leaders pick choose
order_leaders-choose sort policy [] = refl
order_leaders-choose sort policy (pod ∷ []) = ground arith
order_leaders-choose sort policy (pod ∷ next ∷ rest) = refl

module _ {R W : Type 0} (server : Server R W) (name : String)
    (missing : (ns : String) (w : W) → (server.on_ocm_get ns name w).0 ≡ err not_found) where
  search_missing :
      (namespaces : List String) (run : Run R W)
      → (search_namespace (ocm_get server name) (some not_found) namespaces run).0 ≡ err not_found
  unfolding search_namespace ◌>>=◌ read on_namespace
  search_missing [] run = refl
  search_missing (ns ∷ rest) run = rw (missing ns run.world) (search_missing rest _)

  search_first_missing :
      (ns : String) (rest : List String) (run : Run R W)
      → (search_namespace (ocm_get server name) none (ns ∷ rest) run).0 ≡ err not_found
  unfolding search_namespace ◌>>=◌ read on_namespace
  search_first_missing ns rest run = rw (missing ns run.world) (search_missing rest _)

  module _ (first_ns : String) (others : List String)
      (listed : (w : W) → (server.on_list_namespaces w).0 ≡ ok (first_ns ∷ others)) where
    pod_namespace-missing : (run : Run R W) → (pod_namespace server name run).0 ≡ err not_found
    unfolding get_distributed_pod_namespace read
    pod_namespace-missing run =
        ap (λ x. x.0) (>>=-ok (list_namespaces server) _ run (first_ns ∷ others) (listed run.world))
        ∙ search_first_missing first_ns others _

    own_mw-missing :
        (sk : Sidekick R) (namespace : String) (run : Run R W)
        → (own_mw server (record { namespace = namespace; name = name }) sk run).0 ≡ err not_found
    unfolding own_mw
    own_mw-missing sk namespace run =
        >>=-err (pod_namespace server name) _ run not_found (pod_namespace-missing run)

module _ {R W : Type 0} (op : Operator R) (server : Server R W) (sk : Sidekick R)
    (named : sk.spec.leader.name ≢ "")
    (missing : (ns : String) (w : W) → (server.on_ocm_get ns sk.name w).0 ≡ err not_found)
    (first_ns : String) (others : List String)
    (listed : (w : W) → (server.on_list_namespaces w).0 ≡ ok (first_ns ∷ others)) where
  find_named-missing :
      (run : Run R W) → (find_distributed_leader server op.codec op.sort sk run).0 ≡ err not_found
  unfolding find_distributed_leader find_named
  find_named-missing run = elim (Bool-cases (sk.spec.leader.name == "")) [
    | inl t ↦ absurd (ground (arith, eq_iff sk.spec.leader.name ""))
    | inr n ↦ rw n (
        >>=-err (pod_namespace server sk.name) _ run not_found
          (pod_namespace-missing server sk.name missing first_ns others listed run))
  ]

  leader-missing :
      (run : Run R W) → (get_distributed_leader server op.codec op.sort sk run).0 ≡ err not_found
  unfolding get_distributed_leader
  leader-missing run =
      >>=-err (find_distributed_leader server op.codec op.sort sk) _ run not_found
        (find_named-missing run)

  -- A distributed Sidekick whose leader is given by name does not get a ManifestWork: as long as the
  -- hub has namespaces, and none has a ManifestWork with the name of the Sidekick, its
  -- reconciliation, from the election on, asks for another round after 10 seconds and changes
  -- nothing.
  pub named-waits :
      (namespace : String) (run : Run R W)
      → let req : NamespacedName = record { namespace = namespace; name = sk.name } in
        let (outcome, after) = follow_elected op server req sk run in
        (outcome ≡ ok (requeue_after 10)) × (after.log ≡ run.log)
  unfolding follow_elected on_distributed_leader on_missing_leader pure
  named-waits namespace run =
      let req : NamespacedName = record { namespace = namespace; name = sk.name } in
      let (_, after) = get_distributed_leader server op.codec op.sort sk run in
      let first =
        attempt-next _ (on_distributed_leader op server req sk) run _ (leader-missing run) in
      let second =
        attempt-next (own_mw server req sk) (on_missing_leader op server sk) after _
          (own_mw-missing server sk.name missing first_ns others listed sk namespace after) in
      let unchanged : List (Event R) → Type 0 = λ log. log ≡ run.log in
      (
        ap (λ x. x.0) (first ∙ second),
        ap (λ x. x.1.log) (first ∙ second)
            ∙ (own_mw-Keeps server unchanged req sk).at after
                ((get_distributed_leader-Keeps server op.codec op.sort unchanged sk).at run refl),
      )
