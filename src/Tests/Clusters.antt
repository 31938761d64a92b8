-- ===== src/Tests/Clusters.antt =====
-- The theorems about distributed Sidekicks, at concrete inputs.
use sidekick.Prelude.{
  true, ◌↔◌, ◌⊎◌, Option, is_ok, not_found, ℕ, String, ◌≡◌, ◌≢◌, refl, some, none, List, [], ◌∷◌,
  arith, eq_iff, ok, err, failed,
}
use sidekick.Api.Meta.{ObjectMeta}
use sidekick.Api.Pod.{Pod, PodPhase, RestartPolicy}
use sidekick.Api.Sidekick
use sidekick.Api.Sidekick.{Sidekick}
use sidekick.Cluster.{Io}
use sidekick.Phase.{get_sidekick_phase}
use sidekick.Phase.Decision.{decided}
use sidekick.Api.ManifestWork.{FeedbackValue, ManifestWork, ManifestWorkSpec}
use sidekick.Distributed.{decide_distributed, get_distributed_sidekick_phase}
use sidekick.Distributed.Agreement.{phase-agrees, phase-deleted}
use sidekick.Distributed.Decided.{decide_distributed-ok}
use sidekick.Distributed.Search.{get_distributed_sidekick_current_leader, current_leader-hides}
use sidekick.Tests.Fixtures.{fresh, meta, pod}

abbrev feedback : String → List (List FeedbackValue)
feedback phase =
    (record { name = "PodIP"; text = some "10.0.0.1"; json_raw = none }
      ∷ record { name = "PodPhase"; text = some phase; json_raw = none }
      ∷ [])
    ∷ []

abbrev no_spec : ManifestWorkSpec ℕ
no_spec = record { manifests = []; manifest_configs = [] }

abbrev work : String → ManifestWork ℕ
work phase = record { metadata = meta "archiver" "u9"; spec = no_spec; feedbacks = feedback phase }

uid_ne : ◌≢◌ {A = String} "u1" ""
uid_ne = ground (arith, eq_iff "u1" "")

phase-agrees_example :
    get_distributed_sidekick_phase (fresh RestartPolicy.never) (some (work "Running"))
    ≡ get_sidekick_phase (fresh RestartPolicy.never) (pod "archiver" PodPhase.running)
phase-agrees_example =
    phase-agrees (fresh RestartPolicy.never) (work "Running") (pod "archiver" PodPhase.running)
      "Running" refl refl (record { there = uid_ne; kept = refl; containers = refl })
      (record { runs = refl; succeeds = refl })

abbrev deleted : ObjectMeta ℕ
deleted = record (meta "archiver" "u9") { deletion_timestamp = some 5 }

abbrev deleted_pod : Pod ℕ
deleted_pod = record (pod "archiver" PodPhase.succeeded) { metadata = deleted }

abbrev deleted_work : ManifestWork ℕ
deleted_work = record { metadata = deleted; spec = no_spec; feedbacks = feedback "Succeeded" }

phase-deleted_example :
    (decided (get_distributed_sidekick_phase (fresh RestartPolicy.never) (some deleted_work))
      ≡ some Sidekick.succeeded)
    × (decided (get_sidekick_phase (fresh RestartPolicy.never) deleted_pod)
        ≢ some Sidekick.succeeded)
phase-deleted_example =
    phase-deleted (fresh RestartPolicy.never) deleted_work deleted_pod refl refl refl refl refl

-- No cluster can be reached.
abbrev get_mw : String → Io ℕ (ManifestWork ℕ)
get_mw ns s = (err (failed "timeout"), s)

abbrev list_namespaces : Io ℕ (List String)
list_namespaces s = (ok ("cluster-1" ∷ "cluster-2" ∷ []), s)

current_leader-hides_example :
    (get_distributed_sidekick_current_leader get_mw list_namespaces 0).0 ≢ err (failed "timeout")
current_leader-hides_example =
    current_leader-hides get_mw list_namespaces ("cluster-1" ∷ "cluster-2" ∷ []) 0 0 "timeout" refl

abbrev restarts : String → Option (List ℕ)
restarts raw = some (1 ∷ 2 ∷ [])

decide_distributed-ok_example :
    (is_ok
        (decide_distributed restarts (fresh RestartPolicy.on_failure) (ok (some (work "Failed"))))
      ≡ true)
    ↔ ((true ≡ true) ⊎ (ok (some (work "Failed")) ≡ err not_found))
decide_distributed-ok_example =
    decide_distributed-ok restarts (fresh RestartPolicy.on_failure) (ok (some (work "Failed")))
