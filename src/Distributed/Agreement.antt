-- ===== src/Distributed/Agreement.antt =====
-- That a distributed Sidekick has the phase that it would have in one cluster
-- (`getDistributedSidekickPhase` of pkg/controllers/apps/distributed.go, and `getSidekickPhase` of
-- pkg/controllers/apps/sidekick.go), and where it has not.
use sidekick.Prelude.{
  String, ◌≡◌, refl, ◌≢◌, Bool, true, false, ◌||◌, Option, none, some, List, [], ◌∷◌, ◌++◌, ◌==◌,
  if◌then◌else◌, is_some, arith, eq_iff,
}
use sidekick.Prelude.Lists.{all}
use sidekick.Phase.Decision.{decided}
use sidekick.Api.Pod.{Pod, is_running, is_succeeded, is_always}
use sidekick.Api.Sidekick
use sidekick.Api.Sidekick.{Sidekick, SidekickSpec, SidekickStatus, phase_is_succeeded}
use sidekick.Phase.{get_sidekick_phase, is_sidekick_pod_running}
use sidekick.Phase.Backoff.{exceeds-ok}
use sidekick.Api.ManifestWork.{FeedbackValue, ManifestWork}
use sidekick.Distributed.{
  is_pod_phase, first_is_running, any_running, reports_success, any_success,
  is_distributed_sidekick_pod_running, has_succeeded, get_distributed_sidekick_phase,
}

-- The phases that are reported, in order.
abbrev pub reports : List FeedbackValue → List String
reports [] = []
reports (v ∷ rest) = elim v.text [
  | some s ↦ if is_pod_phase v then s ∷ reports rest else reports rest
  | none ↦ reports rest
]

abbrev pub all_reports : List (List FeedbackValue) → List String
all_reports [] = []
all_reports (values ∷ rest) = reports values ++ all_reports rest

abbrev running_of : List String → Option Bool
running_of [] = none
running_of (s ∷ _) = some (s == "Running")

abbrev succeeded_of : List String → Bool
succeeded_of [] = false
succeeded_of (s ∷ rest) = s == "Succeeded" || succeeded_of rest

first_is_running-reports :
    (values : List FeedbackValue) → first_is_running values ≡ running_of (reports values)
unfolding first_is_running
first_is_running-reports [] = refl
first_is_running-reports (v ∷ rest) = ground (arith, first_is_running-reports rest)

reports_success-reports :
    (values : List FeedbackValue) → reports_success values ≡ succeeded_of (reports values)
unfolding reports_success
reports_success-reports [] = refl
reports_success-reports (v ∷ rest) = ground (arith, reports_success-reports rest)

abbrev or_false : Option Bool → Bool
or_false none = false
or_false (some b) = b

running_of-append :
    (xs ys : List String)
    → or_false (running_of (xs ++ ys))
      ≡ (elim (running_of xs) [ some b ↦ b | none ↦ or_false (running_of ys) ])
running_of-append [] ys = refl
running_of-append (x ∷ xs) ys = refl

succeeded_of-append :
    (xs ys : List String) → succeeded_of (xs ++ ys) ≡ (succeeded_of xs || succeeded_of ys)
succeeded_of-append [] ys = refl
succeeded_of-append (x ∷ xs) ys = ground (arith, succeeded_of-append xs ys)

any_running-reports :
    (feedbacks : List (List FeedbackValue))
    → any_running feedbacks ≡ or_false (running_of (all_reports feedbacks))
unfolding any_running
any_running-reports [] = refl
any_running-reports (values ∷ rest) = ground (
  arith,
  first_is_running-reports values,
  any_running-reports rest,
  running_of-append (reports values) (all_reports rest),
)

any_success-reports :
    (feedbacks : List (List FeedbackValue))
    → any_success feedbacks ≡ succeeded_of (all_reports feedbacks)
unfolding any_success
any_success-reports [] = refl
any_success-reports (values ∷ rest) = ground (
  arith,
  reports_success-reports values,
  any_success-reports rest,
  succeeded_of-append (reports values) (all_reports rest),
)

-- A pod that runs, but for its phase: it exists, is not being deleted, and all its containers run.
pub record IsUp {R : Type 0} (pod : Pod R) : Type 0 where
  pub there : pod.uid ≢ ""
  pub kept : is_some pod.deletion_timestamp ≡ false
  pub containers : all (λ cs. cs.running) pod.status.container_statuses ≡ true

-- The phase of the pod is the reported one, as far as the decision looks at it.
pub record IsReported {R : Type 0} (pod : Pod R) (report : String) : Type 0 where
  pub runs : is_running pod.status.phase ≡ (report == "Running")
  pub succeeds : is_succeeded pod.status.phase ≡ (report == "Succeeded")

module _ {R : Type 0} where
  up_running : (pod : Pod R) → IsUp pod → is_sidekick_pod_running pod ≡ is_running pod.status.phase
  unfolding is_sidekick_pod_running
  up_running pod up = ground (arith, eq_iff pod.uid "", up.there, up.kept, up.containers)

  reported_running :
      (mw : ManifestWork R) (report : String)
      → all_reports mw.feedbacks ≡ report ∷ []
      → is_some mw.deletion_timestamp ≡ false
      → is_distributed_sidekick_pod_running (some mw) ≡ (report == "Running")
  unfolding is_distributed_sidekick_pod_running
  reported_running mw report h d = rw (d, any_running-reports mw.feedbacks, h) refl

  reported_success :
      (mw : ManifestWork R) (report : String)
      → all_reports mw.feedbacks ≡ report ∷ []
      → has_succeeded (some mw) ≡ (report == "Succeeded")
  reported_success mw report h = rw (any_success-reports mw.feedbacks, h) (ground arith)

  -- Where the feedback of a ManifestWork that is not being deleted reports one phase, a distributed
  -- Sidekick has the phase that it would have in one cluster with a pod in that phase that exists, is
  -- not being deleted and has only containers that run.
  pub phase-agrees :
      (sk : Sidekick R) (mw : ManifestWork R) (pod : Pod R) (report : String)
      → all_reports mw.feedbacks ≡ report ∷ []
      → is_some mw.deletion_timestamp ≡ false
      → IsUp pod
      → IsReported pod report
      → get_distributed_sidekick_phase sk (some mw) ≡ get_sidekick_phase sk pod
  unfolding get_distributed_sidekick_phase get_sidekick_phase
  phase-agrees sk mw pod report h d up same = ground (
    arith,
    up_running pod up,
    reported_running mw report h d,
    reported_success mw report h,
    same.runs,
    same.succeeds,
    up.kept,
    exceeds-ok sk,
  )

  -- Where a ManifestWork that reports only Succeeded is being deleted, a distributed Sidekick whose
  -- policy is not Always is decided to have succeeded, while in one cluster, with a pod that is being
  -- deleted, it is not unless it had succeeded before.
  pub phase-deleted :
      (sk : Sidekick R) (mw : ManifestWork R) (pod : Pod R)
      → all_reports mw.feedbacks ≡ "Succeeded" ∷ []
      → is_some mw.deletion_timestamp ≡ true
      → is_some pod.deletion_timestamp ≡ true
      → is_always sk.spec.restart_policy ≡ false
      → phase_is_succeeded sk.status.phase ≡ false
      → (decided (get_distributed_sidekick_phase sk (some mw)) ≡ some Sidekick.succeeded)
        × (decided (get_sidekick_phase sk pod) ≢ some Sidekick.succeeded)
  unfolding get_distributed_sidekick_phase get_sidekick_phase
  phase-deleted sk mw pod h d e policy before =
      ground (arith, reported_success mw "Succeeded" h, exceeds-ok sk)
