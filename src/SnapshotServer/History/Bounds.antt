-- ===== src/SnapshotServer/History/Bounds.antt =====
-- Bounds of what a report can leave in a Snapshot (pkg/snapshotserver/snapshot.go).
use sidekick.Prelude.{
  ℕ, ◌+◌, ◌≤◌, ◌≡◌, ◌⊎◌, true, false, List, [], ◌∷◌, ◌++◌, ℤ, pos, negsuc, arith, leb,
  if◌then◌else◌, Bool-cases, inl, inr,
}
use sidekick.Prelude.Lists.{length, drop, length-append, length-take-le, All}
use sidekick.Token.{Bytes}
use sidekick.SnapshotServer.Request.{LogInfo}
use sidekick.SnapshotServer.History.{
  Log, LogStats, trim_log_history, clamp_limit, truncate, clamp_log, add_log, is_success,
  max_log_limit, max_log_bytes, add64,
}

clamp_limit_bounds : (limit : ℤ) → (n : ℕ) × (clamp_limit limit ≡ pos n) × (n ≤ max_log_limit)
unfolding clamp_limit
clamp_limit_bounds (pos n) =
    (if leb n max_log_limit then n else max_log_limit, ground arith, ground arith)
clamp_limit_bounds (negsuc n) = (0, ground arith, ground arith)

length-truncate : (n : ℕ) (log : Bytes) → length (truncate n log) ≤ n
unfolding truncate
length-truncate n log = ground (arith, length-take-le n log)

length-clamp_log : (log : Bytes) → length (clamp_log log) ≤ max_log_bytes
unfolding clamp_log
length-clamp_log log = length-truncate max_log_bytes log

length-drop_one : {A : Type 0} (xs : List A) (n : ℕ) → length xs ≡ n + 1 → length (drop 1 xs) ≡ n
length-drop_one [] n h = absurd (omega arith)
length-drop_one (x ∷ xs) n h = omega arith

-- A history grows by one entry while it is below the limit, and keeps its length otherwise.
length-trim :
    (logs : List Log) (log : Log) (n : ℕ)
    → length (trim_log_history (logs ++ log ∷ []) (pos n))
      ≡ (if leb (length logs + 1) n then length logs + 1 else length logs)
unfolding trim_log_history
length-trim logs log n = ground (
  arith,
  length-append {0} logs (log ∷ []),
  length-drop_one (logs ++ log ∷ []) (length logs)
      (omega (arith, length-append {0} logs (log ∷ []))),
)

-- No history is longer than the largest limit, and no error in it longer than the largest log.
pub record IsBounded (stats : LogStats) : Type 0 where
  pub succeeded : length stats.last_succeeded_stats ≤ max_log_limit
  pub failed : length stats.last_failed_stats ≤ max_log_limit
  pub errors : All (λ (l : Log). length l.error ≤ max_log_bytes) stats.last_failed_stats

All-append : (P : Log → Type 0) (xs : List Log) (x : Log) → All P xs → P x → All P (xs ++ x ∷ [])
All-append P [] x h p = (p, tt)
All-append P (y ∷ ys) x (h, hs) p = (h, All-append P ys x hs p)

All-drop_one : (P : Log → Type 0) (xs : List Log) → All P xs → All P (drop 1 xs)
All-drop_one P [] h = tt
All-drop_one P (x ∷ xs) h = h.1

All-trim :
    (P : Log → Type 0) (logs : List Log) (limit : ℤ)
    → All P logs
    → All P (trim_log_history logs limit)
unfolding trim_log_history
All-trim P logs limit h = ground (arith, All-drop_one P logs h)

length-report :
    (logs : List Log) (log : Log) (limit : ℤ)
    → length logs ≤ max_log_limit
    → length (trim_log_history (logs ++ log ∷ []) (clamp_limit limit)) ≤ max_log_limit
length-report logs log limit h =
    let (n, clamped, capped) = clamp_limit_bounds limit in
    rw clamped (ground (arith, length-trim logs log n))

errors-report :
    (logs : List Log) (log : Log) (limit : ℤ)
    → All (λ (l : Log). length l.error ≤ max_log_bytes) logs
    → length log.error ≤ max_log_bytes
    → All
        (λ (l : Log). length l.error ≤ max_log_bytes)
        (trim_log_history (logs ++ log ∷ []) (clamp_limit limit))
errors-report logs log limit h p = All-trim _ _ _ (All-append _ logs log h p)

-- Statistics whose histories have at most 100 entries, and whose errors at most 4096 bytes, are
-- such after a report, whatever limit and log the caller sends.
pub add_log-IsBounded :
    (info : LogInfo) (stats : LogStats) → IsBounded stats → IsBounded (add_log info stats)
unfolding add_log
add_log-IsBounded info stats h = elim (Bool-cases (is_success info)) [
  | inl s ↦ rw s (record {
    succeeded = length-report stats.last_succeeded_stats _ info.log_limit h.succeeded;
    failed = h.failed;
    errors = h.errors;
  })
  | inr f ↦ rw f (record {
    succeeded = h.succeeded;
    failed = length-report stats.last_failed_stats _ info.log_limit h.failed;
    errors =
        errors-report stats.last_failed_stats _ info.log_limit h.errors (length-clamp_log info.log);
  })
]

-- What a report of one kind leaves alone, and that it is counted: a success leaves the failures as
-- they were and adds one to the count of successes, and a failure the other way round.
pub add_log-kind :
    (info : LogInfo) (stats : LogStats)
    → ((is_success info ≡ true)
        × ((add_log info stats).last_failed_stats ≡ stats.last_failed_stats)
        × ((add_log info stats).total_failed_count ≡ stats.total_failed_count)
        × ((add_log info stats).total_succeeded_count ≡ add64 stats.total_succeeded_count 1))
      ⊎ ((is_success info ≡ false)
          × ((add_log info stats).last_succeeded_stats ≡ stats.last_succeeded_stats)
          × ((add_log info stats).total_succeeded_count ≡ stats.total_succeeded_count)
          × ((add_log info stats).total_failed_count ≡ add64 stats.total_failed_count 1))
unfolding add_log
add_log-kind info stats = ground arith

-- A report never shortens a history, whatever limit it carries.
pub add_log-grows :
    (info : LogInfo) (stats : LogStats)
    → (length stats.last_succeeded_stats ≤ length (add_log info stats).last_succeeded_stats)
      × (length stats.last_failed_stats ≤ length (add_log info stats).last_failed_stats)
unfolding add_log
add_log-grows info stats =
    let grows : (logs : List Log) (log : Log)
        → length logs ≤ length (trim_log_history (logs ++ log ∷ []) (clamp_limit info.log_limit)) =
      λ logs log.
        let (n, clamped, _) = clamp_limit_bounds info.log_limit in
        rw clamped (ground (arith, length-trim logs log n)) in
    elim (Bool-cases (is_success info)) [
      | inl s ↦ rw s (grows stats.last_succeeded_stats _, omega arith)
      | inr f ↦ rw f (omega arith, grows stats.last_failed_stats _)
    ]
