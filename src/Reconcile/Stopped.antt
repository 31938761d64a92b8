-- ===== src/Reconcile/Stopped.antt =====
-- That a Sidekick with the restart policy Never which has passed its backoff limit gets no pod any more
-- (`Reconcile` of pkg/controllers/apps/sidekick_controller.go).
use sidekick.Prelude.{
  ℕ, ◌+◌, ◌≡◌, refl, sym, ap, ◌∙◌, true, List, [], ◌∷◌, Result, ok, err, is_ok, ok-injective, Bool,
  if◌then◌else◌, Result-cases, inl, inr, not_found, failed, panicked,
}
use sidekick.Api.Meta.{NamespacedName}
use sidekick.Api.Pod.{Pod}
use sidekick.Api.Sidekick
use sidekick.Api.Sidekick.{Sidekick, SideKickPhase, phase_is_failed, phase_is_succeeded}
use sidekick.Cluster.{
  Run, Server, Event, applied_pod, ◌>>=◌, lift, attempt, pure, ◌>>◌, get_pod, >>=-eq-ok, read,
  update_pod_status,
}
use sidekick.Cluster.Keeps.{Keeps, Keeps-write, keeps_rules}
use sidekick.Phase.Decision.{FitsInt32}
use sidekick.PhaseUpdate.{
  object_key, decide, update_sidekick_status, calculate_sidekick_phase, fail_pod,
  update_sidekick_phase,
}
use sidekick.PhaseUpdate.Exhausted.{IsSpent, FindsUnfinished, decide-IsSpent}
use sidekick.Leader.{Sort}
use sidekick.Reconcile.{done, reconcile_held}
use sidekick.Api.Library.{Library}

-- How many times a pod was created or changed, its status aside.
abbrev pub pods_applied : {R : Type 0} → List (Event R) → ℕ
pods_applied [] = 0
pods_applied (applied_pod _ _ _ ∷ log) = 1 + pods_applied log
pods_applied (_ ∷ log) = pods_applied log

module _ {R W : Type 0} (server : Server R W) (n : ℕ) where
  abbrev AppliesNone : {A : Type 0} → (Run R W → Result A × Run R W) → Type 0
  AppliesNone m = Keeps (λ log. pods_applied log ≡ n) m

  update_sidekick_status-AppliesNone :
      (sk : Sidekick R) → AppliesNone (update_sidekick_status server sk)
  unfolding update_sidekick_status
  update_sidekick_status-AppliesNone sk = Keeps-write _ _ (λ r log h. h)

  update_pod_status-AppliesNone : (pod : Pod R) → AppliesNone (update_pod_status server pod)
  update_pod_status-AppliesNone pod = Keeps-write _ _ (λ r log h. h)

  fail_pod-AppliesNone : (found : Result (Pod R)) → AppliesNone (fail_pod server found)
  unfolding fail_pod
  fail_pod-AppliesNone (ok pod) = search (keeps_rules, update_pod_status-AppliesNone)
  fail_pod-AppliesNone (err not_found) = search keeps_rules
  fail_pod-AppliesNone (err (failed e)) = search keeps_rules
  fail_pod-AppliesNone (err panicked) = search keeps_rules

  calculate-AppliesNone : (sk : Sidekick R) → AppliesNone (calculate_sidekick_phase server sk)
  unfolding calculate_sidekick_phase
  calculate-AppliesNone sk = search (keeps_rules, update_sidekick_status-AppliesNone)

  update_sidekick_phase-AppliesNone :
      (req : NamespacedName) (sk : Sidekick R) → AppliesNone (update_sidekick_phase server req sk)
  unfolding update_sidekick_phase
  update_sidekick_phase-AppliesNone req sk =
      search (keeps_rules, calculate-AppliesNone, fail_pod-AppliesNone)

failed-drops :
    {R W : Type 0} (server : Server R W) (req : NamespacedName) (phase : SideKickPhase)
    (sk : Sidekick R) (s : Run R W) (updated : Bool × Sidekick R)
    → phase ≡ Sidekick.failed
    → ((if phase_is_failed phase
          then (do found ← attempt (get_pod server req); fail_pod server found; pure (true, sk))
          else pure (phase_is_succeeded sk.status.phase, sk))
        s).0
      ≡ ok updated
    → updated.0 ≡ true
unfolding pure
failed-drops server req Sidekick.failed sk s updated f h =
    let (found, s1, got, h1) = >>=-eq-ok (attempt (get_pod server req)) _ s h in
    let (u, s2, marked, h2) = >>=-eq-ok (fail_pod server found) _ s1 h1 in
    ap (λ o. o.0) (sym (ok-injective _ _ h2))
failed-drops server req _ sk s updated f h = cc

module _ {R W : Type 0} (server : Server R W) (sk : Sidekick R) (spent : IsSpent sk) (s : Run R W)
    (finds : FindsUnfinished sk (server.on_get_pod (object_key sk) s.world).0)
    (fits : (phase : SideKickPhase) (sk' : Sidekick R)
      → decide sk (server.on_get_pod (object_key sk) s.world).0 ≡ ok (phase, sk')
      → FitsInt32 sk') where
  calculate-failed :
      (phase : SideKickPhase) (sk' : Sidekick R)
      → (calculate_sidekick_phase server sk s).0 ≡ ok (phase, sk')
      → phase ≡ Sidekick.failed
  unfolding calculate_sidekick_phase read attempt lift pure
  calculate-failed phase sk' h =
      let (found, s1, got, h1) = >>=-eq-ok (attempt (get_pod server (object_key sk))) _ s h in
      let found-same = ok-injective _ _ got in
      let ((phase', sk1), s2, made, h2) = >>=-eq-ok (lift (decide sk found)) _ s1 h1 in
      let (sk2, s3, patched, h3) = >>=-eq-ok (update_sidekick_status server sk1) _ s2 h2 in
      let made' = ap (decide sk) found-same ∙ made in
      let failing = decide-IsSpent sk _ phase' sk1 spent finds (fits phase' sk1 made') made' in
      ap (λ o. o.0) (sym (ok-injective _ _ h3)) ∙ failing.0

  update-drops :
      (req : NamespacedName) (updated : Bool × Sidekick R)
      → (update_sidekick_phase server req sk s).0 ≡ ok updated
      → updated.0 ≡ true
  unfolding update_sidekick_phase
  update-drops req updated h =
      let ((phase, sk1), s1, calculated, h1) =
        >>=-eq-ok (calculate_sidekick_phase server sk) _ s h in
      failed-drops server req phase sk1 s1 updated (calculate-failed phase sk1 calculated) h1

  -- For a Sidekick with the policy Never that has passed its limit and not succeeded, what `Reconcile`
  -- does after the finalizer creates no pod and changes none but for its status, whatever the API
  -- server answers, and where there is no error the key is dropped. The pod that is first found,
  -- if there is one, has not completed and reports no fewer restarts than before, and the counts
  -- and the limit fit an int32.
  pub held-stops :
      (lib : Library R) (sort : Sort R) (req : NamespacedName)
      → let (outcome, after) = reconcile_held lib server sort req sk s in
        (pods_applied after.log ≡ pods_applied s.log) × (is_ok outcome ≡ true → outcome ≡ ok done)
  unfolding reconcile_held ◌>>=◌
  held-stops lib sort req =
      let kept = (update_sidekick_phase-AppliesNone server (pods_applied s.log) req sk).at s refl in
      elim (Result-cases (update_sidekick_phase server req sk s).0) [
        | inl ((drop, next), e) ↦
            let d : drop ≡ true = update-drops req (drop, next) e in rw (e, d) (kept, λ _. refl)
        | inr (x, e) ↦ rw e (kept, λ i. cc)
      ]
