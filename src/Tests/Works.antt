-- ===== src/Tests/Works.antt =====
-- A hub with the ManifestWork of one database pod, where the ManifestWork that is made is stored, and the
-- theorem on a round of a distributed Sidekick against it.
use sidekick.Prelude.{
  ℕ, String, false, ◌≡◌, refl, ap, ◌∙◌, some, [], ◌∷◌, List, not_found, Result, ok, err,
  ok-injective,
}
use sidekick.Prelude.Maps.{get, lookup, insert, copy_into}
use sidekick.Api.Pod.{never}
use sidekick.Api.Sidekick.{Sidekick}
use sidekick.Api.ManifestWork.{ManifestWork}
use sidekick.Api.Wiring.{Secret}
use sidekick.Cluster.{Server, Run}
use sidekick.Phase.{
  exceeds_backoff_limit, get_total_back_off_counts, get_failure_count_from_sidekick_status,
  get_total_container_restart_counts,
}
use sidekick.PhaseUpdate.{object_key}
use sidekick.Leader.{pick}
use sidekick.PodOps.{get_finalizer_name}
use sidekick.PodBuilder.{
  conv_containers, conv_init_containers, conv_container, conv_mounts, conv_mount, find_mount,
}
use sidekick.Reconcile.{Outcome, done}
use sidekick.GrpcWiring.{
  set_signing_key, set_snapshot_grant, set_grpc_address, grpc_slice_address, find_wal_g,
  replace_wal_g, find_env, upsert_env,
}
use sidekick.Distributed.{
  decide_distributed, get_distributed_sidekick_phase, set_distributed_phase,
  is_distributed_sidekick_pod_running,
}
use sidekick.Distributed.Election.{order_leaders, leaders_of, leader_from, see_all}
use sidekick.Distributed.Build.{new_distributed_pod}
use sidekick.Distributed.Reconciler.{Operator, reconcile_distributed_sidekick}
use sidekick.Distributed.Store.{IsHubStore}
use sidekick.Distributed.Course.{IsEligible, Course}
use sidekick.Distributed.Made.{IsPlaced, final, distributed-IsPlaced}
use sidekick.Tests.Fixtures.{fresh, db_work}
use sidekick.Tests.Hub
use sidekick.Tests.Store.{lib, with_status_of}

record World : Type 0 where
  sidekick : Sidekick ℕ
  made : Result (ManifestWork ℕ)

abbrev op : Operator ℕ
op = record Hub.op { lib = lib }

abbrev patched : World → (Sidekick ℕ → Sidekick ℕ) → Sidekick ℕ
patched w f = with_status_of f w.sidekick

abbrev secret : Secret
secret = record {
  owner_references = [];
  contents = some (("signing-key", "k1") ∷ ("snapshot-key", "k2") ∷ []);
}

abbrev hub_store : Server ℕ World
hub_store = record {
  on_get_pod = λ key w. (err not_found, w);
  on_get_sidekick = λ key w. (ok w.sidekick, w);
  on_list_pods = λ ns sel w. (ok [], w);
  on_list_sidekicks = λ ns w. (ok (w.sidekick ∷ []), w);
  on_apply_pod = λ p f w. (ok (f p), w);
  on_update_pod_status = λ p w. (ok tt, w);
  on_delete_pod = λ p w. (ok tt, w);
  on_delete_pod_named = λ key w. (ok tt, w);
  on_apply_sidekick = λ sk f w. (ok (f w.sidekick), record w { sidekick = f w.sidekick });
  on_patch_sidekick_status = λ sk f w. (ok (patched w f), record w { sidekick = patched w f });
  on_list_namespaces = λ w. (ok ("cluster-1" ∷ []), w);
  on_ocm_get = λ ns name w. (err not_found, w);
  on_ocm_list = λ ns sel w. (ok (db_work ∷ []), w);
  on_get_mw = λ key w. (w.made, w);
  on_apply_mw = λ mw f w. (ok (f mw), record w { made = ok (f mw) });
  on_delete_mw = λ mw w. (ok tt, w);
  on_delete_mw_named = λ key w. (ok tt, w);
  on_get_secret = λ key w. (ok secret, w);
  on_apply_secret = λ key f w. (err not_found, w);
  on_apply_export = λ e w. (ok tt, w);
  on_random_key = λ w. (ok "random", w);
}

hub_store-IsHubStore : IsHubStore hub_store
hub_store-IsHubStore = record {
  reads_sidekick = λ key w. refl;
  reads_namespaces = λ w. refl;
  reads_work = λ ns name w. refl;
  reads_works = λ ns sel w. refl;
  reads_cache = λ key w. refl;
  reads_secret = λ key w. refl;
  applies = λ sk f w h same.
      let e = ap f (ok-injective _ _ h) ∙ same in
      (
        ap ok e,
        ap ok e,
        record {
          namespaces = refl;
          gets = λ ns name. refl;
          lists = λ ns sel. refl;
          cached = λ key. refl;
          secrets = λ key. refl;
        },
      );
  patches = λ sk s f w h key.
      let e : patched w f ≡ record sk { status = (f sk).status } =
        ap (with_status_of f) (ok-injective _ _ h) in
      (
        ap ok e,
        ap ok e,
        record {
          namespaces = refl;
          gets = λ ns name. refl;
          lists = λ ns sel. refl;
          cached = λ k. refl;
          secrets = λ k. refl;
        },
      );
  makes = λ mw f w h key. (f mw, refl, refl, refl, λ k. refl);
}

-- A distributed Sidekick that has its finalizer.
abbrev archiver : Sidekick ℕ
archiver =
    let sk = fresh never in
    record sk { metadata = record (sk.metadata) { finalizers = get_finalizer_name ∷ [] } }

abbrev works : String → List (ManifestWork ℕ)
works ns = db_work ∷ []

eligible : IsEligible op archiver secret
unfolding get lookup
eligible = record { lives = refl; held = refl; unnamed = refl; keyed = refl }

abbrev before : Run ℕ World
before = record { world = record { sidekick = archiver; made = err not_found }; log = [] }

course : Course op archiver archiver.status (db_work ∷ []) secret
unfolding decide_distributed get_distributed_sidekick_phase set_distributed_phase set_signing_key
    set_snapshot_grant set_grpc_address grpc_slice_address find_wal_g replace_wal_g find_env
    upsert_env new_distributed_pod conv_containers conv_init_containers conv_container conv_mounts
    conv_mount find_mount order_leaders leaders_of leader_from see_all get lookup pick
    exceeds_backoff_limit get_total_back_off_counts get_failure_count_from_sidekick_status
    get_total_container_restart_counts is_distributed_sidekick_pod_running insert copy_into
course = record {
  phase = _;
  decided = _;
  decides = refl;
  unfailed = refl;
  unfinished = refl;
  leaders = _;
  leader = _;
  ordered = refl;
  source = db_work;
  found = refl;
  picked = refl;
  signed = _;
  granted = _;
  wired = _;
  signs = refl;
  grants = refl;
  addresses = refl;
  pod = _;
  builds = refl;
  object = _;
  encodes = refl;
  placed = refl;
}

abbrev one_round : Result Outcome × Run ℕ World
one_round = reconcile_distributed_sidekick op hub_store false (object_key archiver) before

abbrev last : Sidekick ℕ
last =
    final op hub_store hub_store-IsHubStore archiver "cluster-1" [] works secret eligible
      archiver.status course

distributed-IsPlaced_example :
    (one_round.0 ≡ ok done)
    × IsPlaced op hub_store hub_store-IsHubStore archiver "cluster-1" [] works secret eligible
        archiver.status course last.status one_round.1.world
    × (last.status.leader.name ≡ course.leader.name)
distributed-IsPlaced_example =
    distributed-IsPlaced op hub_store hub_store-IsHubStore archiver "cluster-1" [] works secret
      eligible archiver.status course before
      (record {
        knows = refl;
        namespaces = refl;
        absent = λ ns. refl;
        uncached = λ ns. refl;
        holds = λ ns. refl;
        has_secret = refl;
      })
