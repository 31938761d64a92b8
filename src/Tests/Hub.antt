-- ===== src/Tests/Hub.antt =====
-- The theorems about the reconciliation of a distributed Sidekick, at concrete inputs.
use sidekick.Prelude.{
  Result, ℕ, String, ◌≡◌, ◌≢◌, refl, true, ◌&&◌, none, some, [], arith, eq_iff, ok, ◌==◌,
  if◌then◌else◌, err, failed, panicked,
}
use sidekick.Api.Meta.{NamespacedName}
use sidekick.Api.Pod.{Pod, never, is_never}
use sidekick.Api.Sidekick.{Sidekick}
use sidekick.Api.ManifestWork.{Codec, ManifestWork}
use sidekick.PodBuilder.{
  conv_containers, conv_init_containers, conv_container, conv_mounts, conv_mount, find_mount,
}
use sidekick.Reconcile.{Outcome, requeue_after, reconcile}
use sidekick.Cluster.{Server, Run}
use sidekick.Reconcile.Calm.{IsServing}
use sidekick.GrpcWiring.Calm.{IsWiring}
use sidekick.Distributed.Calm.{IsHub, Decodes}
use sidekick.Distributed.NoPanic.{controller-ne-panicked}
use sidekick.Reconcile.Rules.{IsOrderly}
use sidekick.GrpcWiring.{
  set_signing_key, set_snapshot_grant, set_grpc_address, grpc_slice_address, find_wal_g,
  replace_wal_g, find_env, upsert_env,
}
use sidekick.Distributed.Election.{leader_of, leader_from, see_all}
use sidekick.Distributed.Build.{new_distributed_pod}
use sidekick.Distributed.Reconciler.{
  Operator, is_failed_text, mw_needs_recreate, reconcile_distributed_sidekick, follow_elected,
}
use sidekick.Distributed.Traces.{none_yet, another, Rounds-IsOrderly}
use sidekick.Distributed.Fresh.{wired-fresh}
use sidekick.Distributed.Named.{named-waits}
use sidekick.Tests.Cipher.{cipher}
use sidekick.Tests.Sorting.{insertion_sort}
use sidekick.Tests.Fixtures.{lib, leader, fresh, server, start, request, db_work}

-- A manifest is the name of a database pod.
abbrev codec : Codec ℕ
codec = record {
  unmarshal_pod = λ raw. some (leader raw);
  unmarshal_map = λ raw. ok 0;
  unmarshal_condition = λ raw. none;
  unmarshal_counts = λ raw. none;
  from_unstructured = λ object. ok (leader "archiver");
  to_unstructured = λ p. ok 1;
}

abbrev getenv : String → String
getenv name = if name == "POD_NAME" then "op-1-x" else "ops"

abbrev pub op : Operator ℕ
op = record {
  lib = lib;
  codec = codec;
  crypto = cipher;
  sort = insertion_sort;
  getenv = getenv;
  resolv_conf = err (failed "no such file");
}

abbrev one_round : Result Outcome × Run ℕ (Unit {0})
one_round =
    reconcile lib server insertion_sort (reconcile_distributed_sidekick op server true) request
      start

Rounds-IsOrderly_example : IsOrderly lib one_round.1.log
Rounds-IsOrderly_example = Rounds-IsOrderly op server start tt (another true request none_yet refl)

signed : (sk : Sidekick ℕ) × (set_signing_key (fresh never) "k1" ≡ ok sk)
unfolding set_signing_key find_wal_g replace_wal_g upsert_env
signed = (_, refl)

-- No Snapshot is named, so there is no grant.
granted : (sk : Sidekick ℕ) × (set_snapshot_grant cipher signed.0 "k2" ≡ ok sk)
unfolding signed set_snapshot_grant find_wal_g replace_wal_g upsert_env find_env
granted = (_, refl)

wired : (sk : Sidekick ℕ) × (set_grpc_address getenv granted.0 ≡ ok sk)
unfolding signed granted set_grpc_address grpc_slice_address find_wal_g replace_wal_g upsert_env
wired = (_, refl)

found : (p : Pod ℕ) × (leader_of codec true db_work ≡ some p)
unfolding leader_from see_all
found = (_, refl)

built : (p : Pod ℕ) × (new_distributed_pod lib wired.0 found.0 ≡ ok p)
unfolding signed granted wired found new_distributed_pod conv_containers conv_init_containers
    conv_container conv_mounts conv_mount find_mount find_wal_g replace_wal_g upsert_env see_all
built = (_, refl)

wired-fresh_example :
    mw_needs_recreate lib (fresh never) found.0 built.0 "Running"
    ≡ (is_failed_text "Running" && is_never never)
wired-fresh_example =
    wired-fresh lib cipher getenv (fresh never) signed.0 granted.0 wired.0 found.0 built.0 "k1" "k2"
      "Running" signed.1 granted.1 wired.1 built.1

abbrev db_named : Sidekick ℕ
db_named =
    let sk = fresh never in
    record sk { spec = record (sk.spec) { leader = record (sk.spec.leader) { name = "db" } } }

name_ne : ◌≢◌ {A = String} "db" ""
name_ne = ground (arith, eq_iff "db" "")

named-waits_example :
    let req : NamespacedName = record { namespace = "demo"; name = "archiver" } in
    let (outcome, after) = follow_elected op server req db_named start in
    (outcome ≡ ok (requeue_after 10)) × (after.log ≡ [])
named-waits_example =
    named-waits op server db_named name_ne (λ ns w. refl) "cluster-1" [] (λ w. refl) "demo" start

abbrev distributed_fresh : Sidekick ℕ
distributed_fresh =
    let sk = fresh never in record sk { spec = record (sk.spec) { distributed = true } }

-- A hub on which the ManifestWork of the Sidekick is the one of the database pod.
abbrev hub_server : Server ℕ (Unit {0})
hub_server = record server {
  on_get_sidekick = λ key w. (ok (distributed_fresh), w);
  on_ocm_get = λ ns name w. (ok db_work, w);
  on_get_mw = λ key w. (ok db_work, w);
}

serving : IsServing hub_server
serving = record {
  pods = λ key w. tt;
  sidekicks = λ key w. tt;
  lists = λ ns sel w. tt;
  applies = λ p f w. tt;
  updates = λ p w. tt;
  deletes = λ p w. tt;
  deletes_named = λ key w. tt;
  applies_sidekick = λ s f w. tt;
  patches = λ s f w h. h;
}

hub : IsHub hub_server
hub = record {
  namespaces = λ w. tt;
  works = λ ns name w. tt;
  lists = λ ns sel w. tt;
  cached = λ key w. tt;
  applies = λ mw f w. tt;
  deletes = λ mw w. tt;
  deletes_named = λ key w. tt;
}

wiring : IsWiring hub_server
wiring = record {
  own_pods = λ key w. tt;
  gets = λ key w. tt;
  applies = λ key f w. tt;
  draws = λ w. tt;
  exports = λ e w. tt;
}

decodes : Decodes codec
decodes = record { maps = λ raw. tt; pods = λ object. tt; objects = λ pod. tt }

controller-ne-panicked_example :
    (reconcile lib hub_server insertion_sort
      (reconcile_distributed_sidekick op hub_server true)
      request
      start).0
    ≢ err panicked
controller-ne-panicked_example =
    controller-ne-panicked op hub_server decodes serving hub wiring true request start
