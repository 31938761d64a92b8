-- ===== src/Phase.antt =====
-- The phase of a Sidekick: pkg/controllers/apps/sidekick.go, and `getContainerRestartCounts` of
-- pkg/controllers/apps/pod.go.
pub mod Backoff
pub mod Decision
use sidekick.Prelude.{
  ℕ, String, Bool, true, false, not, ◌&&◌, ◌||◌, Option, none, some, List, [], ◌∷◌, Int32, add32,
  ltb32, ◌==◌, if◌then◌else◌, is_some, get_or, Result, ok, err, panicked, ◌>>=◌, ◌>>◌,
}
use sidekick.Prelude.Lists.{all}
use sidekick.Prelude.Maps.{GoMap, Entries, entries, make_if_nil, put}
use sidekick.Api.Pod.{
  Pod, PodPhase, ContainerStatus, is_running, is_failed, is_succeeded, is_always, is_never,
}
use sidekick.Api.Sidekick.{
  Sidekick, SidekickSpec, SideKickPhase, current, failed, succeeded, degraded, phase_is_succeeded,
}

-- The loop over the statuses, with its counter.
sum_restarts : Int32 → List ContainerStatus → Int32
sum_restarts counter [] = counter
sum_restarts counter (cs ∷ rest) = sum_restarts (add32 counter cs.restart_count) rest

unfoldable pub get_container_restart_counts : {R : Type 0} → Pod R → Int32
unfolding sum_restarts
get_container_restart_counts pod =
    sum_restarts (sum_restarts 0 pod.status.container_statuses) pod.status.init_container_statuses

-- A map's entries are added up in the order of the list; the program's order is any.
count_failures : Int32 → Entries Bool → Int32
count_failures n [] = n
count_failures n ((_, val) ∷ rest) = count_failures (if val then add32 n 1 else n) rest

sum_counts : Int32 → Entries Int32 → Int32
sum_counts n [] = n
sum_counts n ((_, value) ∷ rest) = sum_counts (add32 n value) rest

unfoldable pub get_failure_count_from_sidekick_status : {R : Type 0} → Sidekick R → Int32
unfolding count_failures
get_failure_count_from_sidekick_status sidekick =
    count_failures 0 (entries sidekick.status.failure_count)

unfoldable pub get_total_container_restart_counts : {R : Type 0} → Sidekick R → Int32
unfolding sum_counts
get_total_container_restart_counts sidekick =
    sum_counts 0 (entries sidekick.status.container_restart_counts_per_pod)

-- The count, and the Sidekick with a nil backoff limit replaced by 0.
unfoldable pub get_total_back_off_counts : {R : Type 0} → Sidekick R → Int32 × Sidekick R
get_total_back_off_counts sidekick = (
  add32 (get_failure_count_from_sidekick_status sidekick)
      (get_total_container_restart_counts sidekick),
  record sidekick {
    spec = record (sidekick.spec) { backoff_limit = some (get_or 0 sidekick.spec.backoff_limit) };
  },
)

-- `*p`, which panics on nil.
abbrev pub deref {ℓ} : {A : Type ℓ} → Option A → Result A
deref none = err panicked
deref (some a) = ok a

-- `getTotalBackOffCounts(sidekick) > *sidekick.Spec.BackoffLimit`, with the Sidekick that the call
-- leaves behind.
unfoldable pub exceeds_backoff_limit : {R : Type 0} → Sidekick R → Result (Bool × Sidekick R)
exceeds_backoff_limit sidekick =
    let (counts, sidekick') = get_total_back_off_counts sidekick in
    (deref sidekick'.spec.backoff_limit >>= λ limit. ok (ltb32 limit counts, sidekick'))

-- The zero `Pod` that a failed lookup leaves has an empty UID, so a pod is never nil here.
unfoldable pub is_sidekick_pod_running : {R : Type 0} → Pod R → Bool
is_sidekick_pod_running pod =
    if pod.uid == "" || is_some pod.deletion_timestamp
    then false
    else if not (is_running pod.status.phase)
    then false
    else all (λ cs. cs.running) pod.status.container_statuses

-- The phase, and the Sidekick with its backoff limit set where the code came so far.
unfoldable pub get_sidekick_phase :
    {R : Type 0} → Sidekick R → Pod R → Result (SideKickPhase × Sidekick R)
get_sidekick_phase sidekick pod =
    if is_always sidekick.spec.restart_policy
    then ok (if is_sidekick_pod_running pod then current else degraded, sidekick)
    else if phase_is_succeeded sidekick.status.phase
    then ok (succeeded, sidekick)
    else if is_succeeded pod.status.phase && not (is_some pod.deletion_timestamp)
    then ok (succeeded, sidekick)
    else (exceeds_backoff_limit sidekick >>= λ (exceeded, sidekick').
        if exceeded
        then ok (failed, sidekick')
        else if not (is_sidekick_pod_running pod)
        then ok (degraded, sidekick')
        else ok (current, sidekick'))
