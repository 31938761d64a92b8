-- ===== src/Distributed/Log.antt =====
-- In which order the reconciliation of a distributed Sidekick changes objects
-- (pkg/controllers/apps/distributed.go and grpc_wiring.go), and with it `Reconcile`
-- (pkg/controllers/apps/sidekick_controller.go), for every behaviour of the API server.
use sidekick.Prelude.{
  String, Bool, Option, List, [], ◌∷◌, Int32, not_found, failed, panicked, Result, ok, err,
}
use sidekick.Api.Meta.{NamespacedName}
use sidekick.Api.Pod.{Pod}
use sidekick.Api.Sidekick.{Sidekick, LabelSelector}
use sidekick.Api.ManifestWork.{ManifestWork, Codec}
use sidekick.Cluster.{Run, Server, Event, apply_mw}
use sidekick.Cluster.Keeps.{Keeps, Keeps-write, keeps_rules}
use sidekick.Leader.{Sort}
use sidekick.Reconcile.{reconcile}
use sidekick.Reconcile.Rules.{IsOrderly, Orderly}
use sidekick.Reconcile.Order.{fail_pod-Orderly}
use sidekick.Reconcile.Log.{reconcile-IsOrderly}
use sidekick.GrpcWiring.Order.{ensure_grpc_keys-Orderly, ensure_service_export-Orderly}
use sidekick.Distributed.Reads.{pod_namespace-Keeps, current_leader-Keeps, own_mw-Keeps}
use sidekick.Distributed.Order.{delete_mw-Orderly, handle_distributed_sidekick_finalizer-Orderly}
use sidekick.Distributed.Status.{
  update_distributed_sidekick_status, calculate_distributed_sidekick_phase,
  update_distributed_sidekick_phase,
}
use sidekick.Distributed.Election.{
  list_works, find_named, find_selected, find_distributed_leader, get_distributed_leader,
}
use sidekick.Distributed.Build.{ensure_pod_manifest_work}
use sidekick.Distributed.Reconciler.{
  Operator, delete_mw_and_reset_status, sync_pod_of_mw, sync_existing_mw, wire_grpc,
  create_manifest_work, sync_or_create_mw, follow_distributed, on_changed_leader, on_missing_leader,
  on_distributed_leader, follow_elected, export_once, reconcile_distributed_found,
  reconcile_distributed_sidekick,
}

-- The election makes no change.
module _ {R W : Type 0} (server : Server R W) (codec : Codec R) (sort : Sort R)
    (P : List (Event R) → Type 0) where
  list_works-Keeps :
      (selector : Option (LabelSelector R)) (namespaces : List String)
      → Keeps P (list_works server codec sort selector namespaces)
  unfolding list_works
  list_works-Keeps selector [] = search keeps_rules
  list_works-Keeps selector (ns ∷ rest) =
      let k = list_works-Keeps selector rest in search keeps_rules

  find_named-Keeps : (sidekick : Sidekick R) → Keeps P (find_named server codec sort sidekick)
  unfolding find_named
  find_named-Keeps sidekick =
      let k = pod_namespace-Keeps server P sidekick.name in search keeps_rules

  find_selected-Keeps : (sidekick : Sidekick R) → Keeps P (find_selected server codec sort sidekick)
  unfolding find_selected
  find_selected-Keeps sidekick = search (keeps_rules, list_works-Keeps)

  pub get_distributed_leader-Keeps :
      (sidekick : Sidekick R) → Keeps P (get_distributed_leader server codec sort sidekick)
  unfolding get_distributed_leader find_distributed_leader
  get_distributed_leader-Keeps sidekick =
      search (keeps_rules, find_named-Keeps, find_selected-Keeps)

module _ {R W : Type 0} (op : Operator R) (server : Server R W) where
  status-Orderly :
      (sidekick : Sidekick R) → Orderly op.lib (update_distributed_sidekick_status server sidekick)
  unfolding update_distributed_sidekick_status
  status-Orderly sidekick = Keeps-write _ _ (λ r log h. (tt, h))

  calculate-Orderly :
      (unmarshal : String → Option (List Int32)) (sidekick : Sidekick R)
      → Orderly op.lib (calculate_distributed_sidekick_phase server unmarshal sidekick)
  unfolding calculate_distributed_sidekick_phase
  calculate-Orderly unmarshal sidekick =
      let k = current_leader-Keeps server (IsOrderly op.lib) sidekick.name in
      search (keeps_rules, status-Orderly)

  phase-Orderly :
      (req : NamespacedName) (sidekick : Sidekick R)
      → Orderly op.lib
          (update_distributed_sidekick_phase server op.codec.unmarshal_counts req sidekick)
  unfolding update_distributed_sidekick_phase
  phase-Orderly req sidekick =
      let fails = fail_pod-Orderly op.lib server in search (keeps_rules, calculate-Orderly, fails)

  reset_mw-Orderly :
      (sidekick : Sidekick R) (mw : ManifestWork R)
      → Orderly op.lib (delete_mw_and_reset_status op server sidekick mw)
  unfolding delete_mw_and_reset_status
  reset_mw-Orderly sidekick mw = search (keeps_rules, delete_mw-Orderly, status-Orderly)

  sync_pod-Orderly :
      (sidekick : Sidekick R) (leader : Pod R) (mw : ManifestWork R) (pod : Pod R)
      → Orderly op.lib (sync_pod_of_mw op server sidekick leader mw pod)
  unfolding sync_pod_of_mw
  sync_pod-Orderly sidekick leader mw pod = search (keeps_rules, reset_mw-Orderly, status-Orderly)

  sync_mw-Orderly :
      (sidekick : Sidekick R) (leader : Pod R) (mw : ManifestWork R)
      → Orderly op.lib (sync_existing_mw op server sidekick leader mw)
  unfolding sync_existing_mw
  sync_mw-Orderly sidekick leader mw = search (keeps_rules, sync_pod-Orderly)

  wire-Orderly : (sidekick : Sidekick R) → Orderly op.lib (wire_grpc op server sidekick)
  unfolding wire_grpc
  wire-Orderly sidekick = search (keeps_rules, ensure_grpc_keys-Orderly)

  apply_mw-Orderly :
      (mw : ManifestWork R) (f : ManifestWork R → ManifestWork R)
      → Orderly op.lib (apply_mw server mw f)
  apply_mw-Orderly mw f = Keeps-write _ _ (λ r log h. (tt, h))

  ensure_mw-Orderly :
      (sidekick : Sidekick R) (pod : Pod R)
      → Orderly op.lib (ensure_pod_manifest_work server op.codec sidekick pod)
  unfolding ensure_pod_manifest_work
  ensure_mw-Orderly sidekick pod = search (keeps_rules, apply_mw-Orderly)

  create_mw-Orderly :
      (sidekick : Sidekick R) (leader : Pod R)
      → Orderly op.lib (create_manifest_work op server sidekick leader)
  unfolding create_manifest_work
  create_mw-Orderly sidekick leader =
      search (keeps_rules, wire-Orderly, ensure_mw-Orderly, status-Orderly)

  sync_or_create_mw-Orderly :
      (sidekick : Sidekick R) (leader : Pod R) (found : Result (ManifestWork R))
      → Orderly op.lib (sync_or_create_mw op server sidekick leader found)
  unfolding sync_or_create_mw
  sync_or_create_mw-Orderly sidekick leader (ok mw) = sync_mw-Orderly sidekick leader mw
  sync_or_create_mw-Orderly sidekick leader (err not_found) = create_mw-Orderly sidekick leader
  sync_or_create_mw-Orderly sidekick leader (err (failed e)) = search keeps_rules
  sync_or_create_mw-Orderly sidekick leader (err panicked) = search keeps_rules

  follow_distributed-Orderly :
      (req : NamespacedName) (sidekick : Sidekick R) (leader : Pod R)
      → Orderly op.lib (follow_distributed op server req sidekick leader)
  unfolding follow_distributed
  follow_distributed-Orderly req sidekick leader =
      search (keeps_rules, own_mw-Keeps, sync_or_create_mw-Orderly)

  changed-Orderly :
      (req : NamespacedName) (sidekick : Sidekick R) (leader : Pod R)
      (found : Result (ManifestWork R))
      → Orderly op.lib (on_changed_leader op server req sidekick leader found)
  unfolding on_changed_leader
  changed-Orderly req sidekick leader (ok mw) = reset_mw-Orderly sidekick mw
  changed-Orderly req sidekick leader (err not_found) =
      follow_distributed-Orderly req sidekick leader
  changed-Orderly req sidekick leader (err (failed e)) =
      follow_distributed-Orderly req sidekick leader
  changed-Orderly req sidekick leader (err panicked) = search keeps_rules

  missing-Orderly :
      (sidekick : Sidekick R) (found : Result (ManifestWork R))
      → Orderly op.lib (on_missing_leader op server sidekick found)
  unfolding on_missing_leader
  missing-Orderly sidekick (ok mw) = reset_mw-Orderly sidekick mw
  missing-Orderly sidekick (err not_found) = search keeps_rules
  missing-Orderly sidekick (err (failed e)) = search keeps_rules
  missing-Orderly sidekick (err panicked) = search keeps_rules

  leader-Orderly :
      (req : NamespacedName) (sidekick : Sidekick R) (found : Result (Pod R))
      → Orderly op.lib (on_distributed_leader op server req sidekick found)
  unfolding on_distributed_leader
  leader-Orderly req sidekick (ok leader) =
      search (keeps_rules, own_mw-Keeps, follow_distributed-Orderly, changed-Orderly)
  leader-Orderly req sidekick (err not_found) = search (keeps_rules, own_mw-Keeps, missing-Orderly)
  leader-Orderly req sidekick (err (failed e)) = search keeps_rules
  leader-Orderly req sidekick (err panicked) = search keeps_rules

  elected-Orderly :
      (req : NamespacedName) (sidekick : Sidekick R)
      → Orderly op.lib (follow_elected op server req sidekick)
  unfolding follow_elected
  elected-Orderly req sidekick = search (keeps_rules, get_distributed_leader-Keeps, leader-Orderly)

  export-Orderly :
      (first : Bool) (sidekick : Sidekick R) → Orderly op.lib (export_once op server first sidekick)
  unfolding export_once
  export-Orderly first sidekick = search (keeps_rules, ensure_service_export-Orderly)

  distributed_found-Orderly :
      (first : Bool) (req : NamespacedName) (found : Result (Sidekick R))
      → Orderly op.lib (reconcile_distributed_found op server first req found)
  unfolding reconcile_distributed_found
  distributed_found-Orderly first req (ok found) =
      search
        (
          keeps_rules, export-Orderly, handle_distributed_sidekick_finalizer-Orderly, phase-Orderly,
          elected-Orderly,
        )
        depth 9
  distributed_found-Orderly first req (err not_found) = search keeps_rules
  distributed_found-Orderly first req (err (failed e)) = search keeps_rules
  distributed_found-Orderly first req (err panicked) = search keeps_rules

  distributed-Orderly :
      (first : Bool) (req : NamespacedName)
      → Orderly op.lib (reconcile_distributed_sidekick op server first req)
  unfolding reconcile_distributed_sidekick
  distributed-Orderly first req = search (keeps_rules, distributed_found-Orderly)

  -- However the API servers answer, a reconciliation that starts from an orderly log leaves one, on
  -- every path, of a distributed Sidekick too. In an orderly log a pod or a ManifestWork is deleted
  -- right after it was marked as deleted by the operator; a Sidekick that is being deleted and has
  -- the finalizer is changed right after its pod, or a ManifestWork of its name, was removed or a
  -- search found no namespace with one; and no pod's status is set but to Failed.
  pub controller-IsOrderly :
      (first : Bool) (req : NamespacedName) (run : Run R W)
      → IsOrderly op.lib run.log
      → IsOrderly op.lib
          (reconcile op.lib server op.sort
            (reconcile_distributed_sidekick op server first)
            req
            run).1.log
  controller-IsOrderly first req run h =
      reconcile-IsOrderly op.lib server op.sort (reconcile_distributed_sidekick op server first)
        (distributed-Orderly first) req run h
