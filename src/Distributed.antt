-- ===== src/Distributed.antt =====
-- The phase of a distributed Sidekick, whose pod runs in another cluster and is seen through the
-- feedback of a ManifestWork: pkg/controllers/apps/distributed.go.
pub mod Agreement
pub mod Decided
pub mod Search
pub mod Works
pub mod Status
pub mod Election
pub mod Build
pub mod Reads
pub mod Order
pub mod Log
pub mod Traces
pub mod Fresh
pub mod Named
pub mod Failures
pub mod Calm
pub mod NoPanic
pub mod Store
pub mod Course
pub mod Start
pub mod Made
pub mod Reconciler
use sidekick.Prelude.{
  String, Bool, true, false, not, ◌&&◌, ◌||◌, Option, none, some, List, [], ◌∷◌, Int32, add32, ◌==◌,
  if◌then◌else◌, is_some, Error, not_found, failed, panicked, Result, ok, err, ◌>>=◌,
}
use sidekick.Prelude.Maps.{put}
use sidekick.Api.ManifestWork.{FeedbackValue, ManifestWork}
use sidekick.Api.Pod.{PodPhase, is_always}
use sidekick.Api.Sidekick
use sidekick.Api.Sidekick.{
  Sidekick, SidekickSpec, SidekickStatus, SideKickPhase, current, degraded, phase_is_succeeded,
}
use sidekick.Phase.{exceeds_backoff_limit}
use sidekick.PhaseUpdate.{init_maps, set_failure, forgive}

abbrev pub is_pod_phase : FeedbackValue → Bool
is_pod_phase v = v.name == "PodPhase"

-- The loop of `extractPodStatusFromMW`, in which a later value replaces an earlier one.
unfoldable pub last_phase : String → List FeedbackValue → String
last_phase phase [] = phase
last_phase phase (v ∷ rest) = elim v.text [
  | some s ↦ last_phase (if is_pod_phase v then s else phase) rest
  | none ↦ last_phase phase rest
]

sum_restart_list : Int32 → List Int32 → Int32
sum_restart_list n [] = n
sum_restart_list n (c ∷ rest) = sum_restart_list (add32 n c) rest

abbrev pub is_restart_count : FeedbackValue → Bool
is_restart_count v = v.name == "ContainerRestartCount" || v.name == "InitContainerRestartCount"

-- Whether the first phase that the feedback of a manifest reports is Running.
unfoldable pub first_is_running : List FeedbackValue → Option Bool
first_is_running [] = none
first_is_running (v ∷ rest) =
    let later = first_is_running rest in
    elim v.text [ some s ↦ if is_pod_phase v then some (s == "Running") else later | none ↦ later ]

unfoldable pub any_running : List (List FeedbackValue) → Bool
any_running [] = false
any_running (values ∷ rest) = elim (first_is_running values) [
  | some b ↦ b
  | none ↦ any_running rest
]

unfoldable pub reports_success : List FeedbackValue → Bool
reports_success [] = false
reports_success (v ∷ rest) =
    let later = reports_success rest in
    elim v.text [ some s ↦ is_pod_phase v && s == "Succeeded" || later | none ↦ later ]

unfoldable pub any_success : List (List FeedbackValue) → Bool
any_success [] = false
any_success (values ∷ rest) = reports_success values || any_success rest

module _ {R : Type 0} where
  unfoldable pub extract_pod_status_from_mw : ManifestWork R → String
  extract_pod_status_from_mw mw = elim mw.feedbacks [ [] ↦ "" | values ∷ _ ↦ last_phase "" values ]

  unfoldable pub is_distributed_sidekick_pod_running : Option (ManifestWork R) → Bool
  is_distributed_sidekick_pod_running none = false
  is_distributed_sidekick_pod_running (some mw) =
      if is_some mw.deletion_timestamp then false else any_running mw.feedbacks

  abbrev pub has_succeeded : Option (ManifestWork R) → Bool
  has_succeeded none = false
  has_succeeded (some mw) = any_success mw.feedbacks

  unfoldable pub get_distributed_sidekick_phase :
      Sidekick R → Option (ManifestWork R) → Result (SideKickPhase × Sidekick R)
  get_distributed_sidekick_phase sidekick mw =
      if is_always sidekick.spec.restart_policy
      then ok (if is_distributed_sidekick_pod_running mw then current else degraded, sidekick)
      else if phase_is_succeeded sidekick.status.phase
      then ok (Sidekick.succeeded, sidekick)
      else if has_succeeded mw
      then ok (Sidekick.succeeded, sidekick)
      else (exceeds_backoff_limit sidekick >>= λ (exceeded, sidekick').
          if exceeded
          then ok (Sidekick.failed, sidekick')
          else if not (is_distributed_sidekick_pod_running mw)
          then ok (degraded, sidekick')
          else ok (current, sidekick'))

  abbrev pub with_phase : SideKickPhase × Sidekick R → SideKickPhase × Sidekick R
  with_phase (phase, sk) = (phase, record sk { status = record (sk.status) { phase = phase } })

  -- The new phase, and the Sidekick with it.
  unfoldable pub set_distributed_phase :
      Sidekick R → Option (ManifestWork R) → Result (SideKickPhase × Sidekick R)
  set_distributed_phase sidekick mw = do
    decided ← get_distributed_sidekick_phase sidekick mw
    ok (with_phase decided)

-- `json.Unmarshal` into a list of numbers is a parameter.
module _ (unmarshal : String → Option (List Int32)) where
  unfoldable pub extract_restart_count_from_json_raw : String → Int32
  unfolding sum_restart_list
  extract_restart_count_from_json_raw value = elim (unmarshal value) [
    | some counts ↦ sum_restart_list 0 counts
    | none ↦ 0
  ]

  unfoldable pub sum_restart_values : Int32 → List FeedbackValue → Int32
  sum_restart_values n [] = n
  sum_restart_values n (v ∷ rest) = elim v.json_raw [
    | some raw ↦
        sum_restart_values
          (if is_restart_count v then add32 n (extract_restart_count_from_json_raw raw) else n) rest
    | none ↦ sum_restart_values n rest
  ]

module _ {R : Type 0} (unmarshal : String → Option (List Int32)) where
  unfoldable pub get_distributed_container_restart_counts : ManifestWork R → Int32
  get_distributed_container_restart_counts mw = elim mw.feedbacks [
    | [] ↦ 0
    | values ∷ _ ↦ sum_restart_values unmarshal 0 values
  ]

  -- What is written to the status when there is a ManifestWork.
  unfoldable pub observe_mw : Sidekick R → ManifestWork R → Result (Sidekick R)
  observe_mw sidekick mw = do
    counts ←
        put mw.uid (get_distributed_container_restart_counts mw)
          sidekick.status.container_restart_counts_per_pod
    let sidekick' = record sidekick {
      status = record (sidekick.status) { container_restart_counts_per_pod = counts };
    }
    if extract_pod_status_from_mw mw == "Failed" && not (is_some mw.deletion_timestamp)
        then set_failure mw.uid true sidekick' >>= forgive mw.uid
        else ok sidekick'

  -- `calculateDistributedSidekickPhase` up to the write, from the outcome of the search: a
  -- ManifestWork, nothing without an error, or an error.
  unfoldable pub decide_distributed :
      Sidekick R → Result (Option (ManifestWork R)) → Result (SideKickPhase × Sidekick R)
  decide_distributed sidekick (ok (some mw)) = do
    seen ← observe_mw (init_maps sidekick) mw
    set_distributed_phase seen (some mw)
  decide_distributed sidekick (ok none) = set_distributed_phase (init_maps sidekick) none
  decide_distributed sidekick (err not_found) = set_distributed_phase (init_maps sidekick) none
  decide_distributed sidekick (err (failed e)) = err (failed e)
  decide_distributed sidekick (err panicked) = err panicked
