-- ===== src/Reconcile/History.antt =====
-- Rounds of `Reconcile` (pkg/controllers/apps/sidekick_controller.go) for one Sidekick, interleaved with
-- what others do in the cluster.
use mathlib.Core.Path.{subst}
use sidekick.Prelude.{String, ◌≡◌, sym, ◌∙◌, true, ok}
use sidekick.Api.Meta.{NamespacedName}
use sidekick.Api.Pod.{Pod, PodStatus, is_always}
use sidekick.Api.Sidekick.{Sidekick, SidekickStatus}
use sidekick.Api.Library.{Library}
use sidekick.Cluster.{Io, Run, Server}
use sidekick.Leader.{Sort}
use sidekick.PhaseUpdate.{object_key}
use sidekick.Reconcile.{Outcome, done, reconcile}
use sidekick.Reconcile.Store.{IsStore, chosen}
use sidekick.Reconcile.Round.{IsSteady, Stands}
use sidekick.Reconcile.Kept.{IsUpToDate, kept-Leads}

module _ {R W : Type 0} (server : Server R W) (sort : Sort R) (sk : Sidekick R) where
  -- What others do spares the Sidekick and its pod: the Sidekick stays, the pod changes in its status
  -- only, and the election finds a pod of the same name on the same node.
  pub record Spares (w w' : W) : Type 0 where
    pub sidekick :
        (server.on_get_sidekick (object_key sk) w').0 ≡ (server.on_get_sidekick (object_key sk) w).0
    pub pod :
        (p : Pod R)
        → (server.on_get_pod (object_key sk) w).0 ≡ ok p
        → (ps : PodStatus R) × ((server.on_get_pod (object_key sk) w').0
            ≡ ok (record p { status = ps }))
    pub leader :
        (p : Pod R)
        → chosen server sort sk w ≡ ok p
        → (q : Pod R) × (chosen server sort sk w' ≡ ok q)
          × (q.name ≡ p.name)
          × (q.spec.node_name ≡ p.spec.node_name)

module _ {R W : Type 0} (lib : Library R) (server : Server R W) (sort : Sort R)
    (distributed : NamespacedName → Io (Run R W) Outcome) (sk : Sidekick R) where
  -- From the world `w`, rounds and changes by others in any order have led to another world.
  pub data History (w : W) : W → Type 0 where
    now : History w w
    round :
        {w' : W} (run : Run R W)
        → History w run.world
        → (reconcile lib server sort distributed (object_key sk) run).1.world ≡ w'
        → History w w'
    others : {w' w'' : W} → History w w' → Spares server sort sk w' w'' → History w w''

module _ {R W : Type 0} (lib : Library R) (server : Server R W) (sort : Sort R)
    (distributed : NamespacedName → Io (Run R W) Outcome) (sk : Sidekick R) (pod : Pod R)
    (name node : String) where
  -- The Sidekick and the pod are there, in some status, and the leader of this name on this node is the
  -- one that is elected and that the status names.
  abbrev pub IsKept : W → Type 0
  IsKept w =
      (st : SidekickStatus R) × (ps : PodStatus R) × (leader : Pod R) × Stands server sort sk
        (ok (record pod { status = ps })) leader st w
      × (st.leader.name ≡ leader.name)
      × (leader.name ≡ name)
      × (leader.spec.node_name ≡ node)

  Spares-IsKept : (w w' : W) → Spares server sort sk w w' → IsKept w → IsKept w'
  Spares-IsKept w w' spares (st, ps, leader, stands, follows, named, placed) =
      let (ps', there) = spares.pod _ stands.answers in
      let (next, elects, same, near) = spares.leader leader stands.elects in
      let after : Stands server sort sk (ok (record pod { status = ps' })) next st w' = record {
        knows = spares.sidekick ∙ stands.knows;
        answers = there;
        elects = elects;
      } in
      (st, ps', next, after, follows ∙ sym same, same ∙ named, near ∙ placed)

  module _ (steady : IsSteady lib sk) (always : is_always sk.spec.restart_policy ≡ true)
      (current : IsUpToDate lib sk name node pod) (store : IsStore server) where
    round-IsKept :
        (run : Run R W)
        → IsKept run.world
        → let (outcome, after) = reconcile lib server sort distributed (object_key sk) run in
          (outcome ≡ ok done) × IsKept after.world
    round-IsKept run (st, ps, leader, stands, follows, named, placed) =
        let (st', follows', leads) =
          kept-Leads lib sk steady always name node pod current leader named placed server store
            sort ps distributed st follows in
        let (finished, after) = leads.at run stands in
        (finished, (st', ps, leader, after, follows', named, placed))

    pub History-IsKept :
        {w w' : W} → IsKept w → History lib server sort distributed sk w w' → IsKept w'
    History-IsKept h now = h
    History-IsKept h (round run before e) =
        subst IsKept e (round-IsKept run (History-IsKept h before)).1
    History-IsKept h (others before spares) = Spares-IsKept _ _ spares (History-IsKept h before)

    pub pod-kept :
        {w : W} (run : Run R W)
        → IsKept w
        → History lib server sort distributed sk w run.world
        → ((ps : PodStatus R) × ((server.on_get_pod (object_key sk) run.world).0
              ≡ ok (record pod { status = ps })))
          × ((reconcile lib server sort distributed (object_key sk) run).0 ≡ ok done)
    pod-kept run h history =
        let kept = History-IsKept h history in
        let (st, ps, leader, stands, _, _, _) = kept in
        ((ps, stands.answers), (round-IsKept run kept).0)
