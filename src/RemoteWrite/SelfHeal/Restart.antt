-- ===== src/RemoteWrite/SelfHeal/Restart.antt =====
-- When the watchdog restarts the pod: exactly in the situation that the comments on
-- `shouldEscalatePodRestart` and `evaluateSelfHeal` describe.
use prometheus_multi_tenant.Shared.{
  ℕ, ◌+◌, ◌^◌, ◌≤◌, ◌<◌, String, ◌≡◌, ◌↔◌, ◌⊎◌, inl, inr, refl, sym, ◌∙◌, ap, false≢true, true,
  false, some, arith, and_parts, not-eq-true,
}
use prometheus_multi_tenant.Shared.Int.{pos}
use prometheus_multi_tenant.Shared.Map.{lookup}
use prometheus_multi_tenant.Shared.Time.{
  Time, max_duration, sub_exceeds, exceeds_sub, sub_reached, reached_sub,
}
use prometheus_multi_tenant.Shared.Word.{inc64}
use prometheus_multi_tenant.RemoteWrite.Job.{
  RemoteWriteJob, Controller, is_job_stalled, self_heal_pod_restart_enabled,
  pod_restart_grace_period, pod_restart_cooldown,
}
use prometheus_multi_tenant.RemoteWrite.SelfHeal.{
  proceed, exited, mark_stalled, should_escalate_pod_restart, within_cooldown, evaluate_self_heal,
}
use prometheus_multi_tenant.RemoteWrite.SelfHeal.Spec.{IsWellFormed, exits_for}
use prometheus_multi_tenant.RemoteWrite.SelfHeal.Refinement.{evaluate_self_heal_refines}

-- The effective windows of a controller, below the saturation of `time.Duration`.
pub record Windows (grace cooldown : ℕ) (c : Controller) : Type 0 where
  pub grace_is : pod_restart_grace_period c.config ≡ pos grace
  pub grace_small : grace < max_duration
  pub cooldown_is : pod_restart_cooldown c.config ≡ pos cooldown
  pub cooldown_pos : 0 < cooldown
  pub cooldown_small : cooldown ≤ max_duration

-- The restart is enabled, this replica leads, the job's last cycle saw healthy targets, it has been
-- recreated before, its stall was seen more than the grace period ago, and the last restart is at
-- least a cooldown ago.
pub record RestartIsDue (grace cooldown : ℕ) (c : Controller) (job : RemoteWriteJob) (now : Time)
    : Type 0 where
  pub enabled : c.config.self_heal_pod_restart ≡ some true
  pub leads : c.is_leader ≡ true
  pub reachable : job.last_cycle_had_healthy_targets ≡ true
  pub recreated : 1 ≤ job.recreate_count
  pub counted : job.recreate_count < 2 ^ 63
  pub wedged : 0 < job.stalled_since
  pub late : job.stalled_since + grace < now
  pub cooled : (c.last_self_restart_at ≡ 0) ⊎ (c.last_self_restart_at + cooldown ≤ now)

proceed-ne-exited : {c d : Controller} → proceed c ≡ exited d → ⊥
proceed-ne-exited h = cc

exited-injective : {c d : Controller} → exited c ≡ exited d → c ≡ d
exited-injective h = cc

module _ (grace cooldown : ℕ) (c : Controller) (w : Windows grace cooldown c) where
  cooled_iff :
      (now : Time)
      → (within_cooldown c now ≡ false)
        ↔ ((c.last_self_restart_at ≡ 0) ⊎ (c.last_self_restart_at + cooldown ≤ now))
  unfolding within_cooldown
  cooled_iff now = rw w.cooldown_is (
    (λ h.
        ground
          (arith, sub_reached now c.last_self_restart_at cooldown w.cooldown_pos w.cooldown_small)),
    (λ h.
        ground
          (arith, reached_sub now c.last_self_restart_at cooldown w.cooldown_pos w.cooldown_small)),
  )

  escalates_iff :
      (job : RemoteWriteJob) (now : Time)
      → (should_escalate_pod_restart c (mark_stalled job now) now ≡ true) ↔ (
          (c.config.self_heal_pod_restart ≡ some true)
          × (c.is_leader ≡ true)
          × (job.last_cycle_had_healthy_targets ≡ true)
          × (1 ≤ job.recreate_count)
          × (job.recreate_count < 2 ^ 63)
          × (0 < job.stalled_since)
          × (job.stalled_since + grace < now))
  unfolding should_escalate_pod_restart mark_stalled self_heal_pod_restart_enabled
  escalates_iff job now = rw w.grace_is (
    (λ h. ground (
      arith,
      sub_exceeds now now grace w.grace_small,
      sub_exceeds now job.stalled_since grace w.grace_small,
    )),
    (λ h. ground (arith, exceeds_sub now job.stalled_since grace w.grace_small)),
  )

  exits_for_iff :
      (job : RemoteWriteJob) (now : Time)
      → (exits_for c job now ≡ true) ↔ RestartIsDue grace cooldown c job now
  unfolding exits_for
  exits_for_iff job now = (
    (λ h.
        let (e, k) = and_parts _ _ h in
        let (enabled, leads, reachable, recreated, counted, wedged, late) =
          (escalates_iff job now).0 e in
        record {
          enabled = enabled;
          leads = leads;
          reachable = reachable;
          recreated = recreated;
          counted = counted;
          wedged = wedged;
          late = late;
          cooled = (cooled_iff now).0 (not-eq-true k);
        }),
    (λ d.
        rw
          (
            (escalates_iff job now).1
                (d.enabled, d.leads, d.reachable, d.recreated, d.counted, d.wedged, d.late),
            (cooled_iff now).1 d.cooled,
          )
          refl),
  )

  -- For a well-formed table, with a grace period and a cooldown within the range of durations, the
  -- sweep exits the process exactly when some stalled job is due for the last-resort restart, in
  -- the sense of `RestartIsDue`.
  pub exits_exactly_when_due :
      (clock : String → Time) (now : Time)
      → IsWellFormed c
      → ((d : Controller) × (evaluate_self_heal clock c now ≡ exited d)) ↔ (
          (key : String) × (job : RemoteWriteJob) × (lookup key c.jobs ≡ some job)
          × (is_job_stalled c job now ≡ true)
          × RestartIsDue grace cooldown c job now)
  exits_exactly_when_due clock now wf = elim (evaluate_self_heal_refines c now wf clock) [
    | inl (jobs, ends, _, none_due, _) ↦ (
      (λ (d, h). absurd (proceed-ne-exited (sym ends ∙ h))),
      (λ (key, job, present, stalled, due).
          absurd
            (false≢true (sym (none_due key job present stalled) ∙ (exits_for_iff job now).1 due))),
    )
    | inr (key, job, jobs, present, stalled, due, ends) ↦
        ((λ _. (key, job, present, stalled, (exits_for_iff job now).0 due)), (λ _. (_, ends)))
  ]

exit_records :
    (c d : Controller) (clock : String → Time) (now : Time)
    → IsWellFormed c
    → evaluate_self_heal clock c now ≡ exited d
    → (d.last_self_restart_at ≡ now)
      × (d.self_restart_total ≡ inc64 c.self_restart_total)
      × (d.config ≡ c.config)
exit_records c d clock now wf h = elim (evaluate_self_heal_refines c now wf clock) [
  | inl (jobs, ends, _, _, _) ↦ absurd (proceed-ne-exited (sym ends ∙ h))
  | inr (key, job, jobs, present, stalled, due, ends) ↦
      let e = exited-injective (sym h ∙ ends) in
      (
        ap (λ (x : Controller). x.last_self_restart_at) e,
        ap (λ (x : Controller). x.self_restart_total) e,
        ap (λ (x : Controller). x.config) e,
      )
]

-- Where the exit returns, as the tests' seam does, two restarts are at least a cooldown apart: after
-- a sweep of `c` that exits at `now` and leaves `d`, a sweep of a later table `e` under the same
-- configuration and restart time that exits at `later` has `now + cooldown ≤ later`. Both tables are
-- well formed, and `now` is not the zero time.
pub exits_a_cooldown_apart :
    (grace cooldown : ℕ) (c d e f : Controller) (clock clock' : String → Time) (now later : Time)
    → Windows grace cooldown e
    → IsWellFormed c
    → IsWellFormed e
    → 0 < now
    → e.last_self_restart_at ≡ d.last_self_restart_at
    → evaluate_self_heal clock c now ≡ exited d
    → evaluate_self_heal clock' e later ≡ exited f
    → now + cooldown ≤ later
exits_a_cooldown_apart grace cooldown c d e f clock clock' now later w wc we started last h h' =
    let (key, job, present, stalled, due) =
      (exits_exactly_when_due grace cooldown e w clock' later we).0 (f, h') in
    omega (arith, due.cooled, last, (exit_records c d clock now wc h).0)
