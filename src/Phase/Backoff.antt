-- ===== src/Phase/Backoff.antt =====
-- The backoff counts of a Sidekick (pkg/controllers/apps/sidekick.go), and that reading them is safe.
use sidekick.Prelude.{
  ℕ, ◌+◌, ◌%◌, ◌<◌, ◌≡◌, refl, Bool, true, false, some, [], ◌∷◌, arith, ltb, ltb32, ltb32-eq-ltb,
  if◌then◌else◌, get_or, ok,
}
use sidekick.Prelude.Maps.{Entries, entries}
use sidekick.Api.Sidekick.{Sidekick}
use sidekick.Phase.{
  count_failures, sum_counts, get_failure_count_from_sidekick_status,
  get_total_container_restart_counts, get_total_back_off_counts, exceeds_backoff_limit,
}

-- The counts as numbers that do not wrap.
abbrev pub failures : Entries Bool → ℕ
failures [] = 0
failures ((_, val) ∷ rest) = (if val then 1 else 0) + failures rest

abbrev pub restarts : Entries ℕ → ℕ
restarts [] = 0
restarts ((_, value) ∷ rest) = value + restarts rest

abbrev pub backoffs : {R : Type 0} → Sidekick R → ℕ
backoffs sidekick =
    failures (entries sidekick.status.failure_count)
    + restarts (entries sidekick.status.container_restart_counts_per_pod)

abbrev pub limit_of : {R : Type 0} → Sidekick R → ℕ
limit_of sidekick = get_or 0 sidekick.spec.backoff_limit

count_failures-eq :
    (n : ℕ) (m : Entries Bool) → n + failures m < 4294967296 → count_failures n m ≡ n + failures m
unfolding count_failures
count_failures-eq n [] h = omega arith
count_failures-eq n ((_, true) ∷ rest) h =
    omega (arith, count_failures-eq ((n + 1) % 4294967296) rest (omega arith))
count_failures-eq n ((_, false) ∷ rest) h = omega (arith, count_failures-eq n rest (omega arith))

sum_counts-eq :
    (n : ℕ) (m : Entries ℕ) → n + restarts m < 4294967296 → sum_counts n m ≡ n + restarts m
unfolding sum_counts
sum_counts-eq n [] h = omega arith
sum_counts-eq n ((_, value) ∷ rest) h =
    omega (arith, sum_counts-eq ((n + value) % 4294967296) rest (omega arith))

module _ {R : Type 0} (sidekick : Sidekick R) where
  total_back_off-eq :
      backoffs sidekick < 4294967296 → (get_total_back_off_counts sidekick).0 ≡ backoffs sidekick
  unfolding get_total_back_off_counts get_failure_count_from_sidekick_status
      get_total_container_restart_counts
  total_back_off-eq h = omega (
    arith,
    count_failures-eq 0 (entries sidekick.status.failure_count) (omega arith),
    sum_counts-eq 0 (entries sidekick.status.container_restart_counts_per_pod) (omega arith),
  )

  -- The Sidekick with its backoff limit set.
  abbrev pub with_limit : Sidekick R
  with_limit = record sidekick {
    spec = record (sidekick.spec) { backoff_limit = some (limit_of sidekick) };
  }

  -- The comparison with the limit never panics, and sets a missing limit to 0.
  pub exceeds-ok :
      exceeds_backoff_limit sidekick
      ≡ ok (ltb32 (limit_of sidekick) (get_total_back_off_counts sidekick).0, with_limit)
  unfolding exceeds_backoff_limit get_total_back_off_counts
  exceeds-ok = refl

  -- While the counts and the limit fit an int32, the comparison with the limit is that of the exact
  -- sums, and a missing limit is 0.
  pub exceeds-exact :
      backoffs sidekick < 2147483648
      → limit_of sidekick < 2147483648
      → exceeds_backoff_limit sidekick
        ≡ ok (ltb (limit_of sidekick) (backoffs sidekick), with_limit)
  exceeds-exact h l = rw (
    exceeds-ok,
    total_back_off-eq (omega arith),
    ltb32-eq-ltb (limit_of sidekick) (backoffs sidekick) l h,
  )
