-- ===== src/RemoteWrite/SelfHeal/Recreate.antt =====
-- When the watchdog recreates a job, what the fresh job keeps, and which jobs it leaves alone.
use prometheus_multi_tenant.Shared.{
  ℕ, ◌+◌, ◌≤◌, ◌<◌, String, ◌≡◌, ◌⊎◌, inl, inr, refl, sym, ◌∙◌, ap, Bool, true, false, not, subst,
  false≢true, some, arith, map_option, some_inj, if◌then◌else◌,
}
use prometheus_multi_tenant.Shared.Int.{pos}
use prometheus_multi_tenant.Shared.Map.{lookup}
use prometheus_multi_tenant.Shared.Time.{Time, max_duration, sub_reached}
use prometheus_multi_tenant.Shared.Word.{inc64}
use prometheus_multi_tenant.RemoteWrite.Job.{
  RemoteWriteJob, Controller, is_job_stalled, recreate_backoff, fresh_job,
}
use prometheus_multi_tenant.RemoteWrite.SelfHeal.{
  proceed, mark_stalled, carry_over, should_escalate_pod_restart, within_backoff,
  evaluate_self_heal,
}
use prometheus_multi_tenant.RemoteWrite.SelfHeal.Spec.{IsWellFormed, healed, stalled_outcome}
use prometheus_multi_tenant.RemoteWrite.SelfHeal.Refinement.{sweep_entries}

-- A recreated job: the guards that let it through, the fresh bookkeeping and what is carried over.
pub record IsRecreated (backoff : ℕ) (now reading : Time) (old new : RemoteWriteJob) : Type 0 where
  pub reachable : old.last_cycle_had_healthy_targets ≡ true
  pub rested : (old.last_recreate_at ≡ 0) ⊎ (old.last_recreate_at + backoff ≤ now)
  pub access : new.metric_access ≡ old.metric_access
  pub count : new.recreate_count ≡ inc64 old.recreate_count
  pub stamped : new.last_recreate_at ≡ now
  pub baseline : new.created_at ≡ reading
  pub unclean : new.last_clean_cycle_time ≡ 0
  pub window : new.stalled_since ≡ (mark_stalled old now).stalled_since
  pub carried : new.last_cycle_had_healthy_targets ≡ true

-- The branches of `healed`.
branches :
    (P : RemoteWriteJob → Type 0) (job marked new : RemoteWriteJob)
    (stalled escalates healthy throttled : Bool)
    → (stalled ≡ false → P job)
    → (stalled ≡ true → P marked)
    → (stalled ≡ true → healthy ≡ true → throttled ≡ false → P new)
    → P (
        if stalled
        then if escalates
          then marked
          else if not healthy
          then marked
          else if throttled
          then marked
          else new
        else job)
branches P job marked new false escalates healthy throttled p q r = p refl
branches P job marked new true true healthy throttled p q r = q refl
branches P job marked new true false false throttled p q r = q refl
branches P job marked new true false true true p q r = q refl
branches P job marked new true false true false p q r = r refl refl refl

module _ (c : Controller) (backoff : ℕ) (now : Time) (is : recreate_backoff c.config ≡ pos backoff)
    (positive : 0 < backoff) (small : backoff ≤ max_duration) where
  rested_lem :
      (job : RemoteWriteJob)
      → within_backoff c job now ≡ false
      → (job.last_recreate_at ≡ 0) ⊎ (job.last_recreate_at + backoff ≤ now)
  unfolding within_backoff
  rested_lem job h = ground (arith, is, sub_reached now job.last_recreate_at backoff positive small)

  carry_over-IsRecreated :
      (job : RemoteWriteJob) (reading : Time)
      → (mark_stalled job now).last_cycle_had_healthy_targets ≡ true
      → within_backoff c (mark_stalled job now) now ≡ false
      → IsRecreated backoff now reading job (
          carry_over
            (mark_stalled job now)
            now
            (fresh_job (mark_stalled job now).metric_access reading))
  unfolding carry_over fresh_job mark_stalled
  carry_over-IsRecreated job reading h b = ground (arith, rested_lem (mark_stalled job now) b)

  -- What a sweep makes of one job.
  abbrev Outcome : RemoteWriteJob → Time → RemoteWriteJob → Type 0
  Outcome job reading new =
      ((is_job_stalled c job now ≡ false) × (new ≡ job))
      ⊎ ((is_job_stalled c job now ≡ true) × (new ≡ mark_stalled job now))
      ⊎ ((is_job_stalled c job now ≡ true) × IsRecreated backoff now reading job new)

  healed-Outcome :
      (job : RemoteWriteJob) (reading : Time) → Outcome job reading (healed c now reading job)
  unfolding healed stalled_outcome
  healed-Outcome job reading =
      branches (Outcome job reading) job (mark_stalled job now) _ (is_job_stalled c job now)
        (should_escalate_pod_restart c (mark_stalled job now) now)
        (mark_stalled job now).last_cycle_had_healthy_targets
        (within_backoff c (mark_stalled job now) now) (λ s. inl (s, refl))
        (λ s. inr (inl (s, refl))) (λ s h b. inr (inr (s, carry_over-IsRecreated job reading h b)))

  module _ (d : Controller) (clock : String → Time) (wf : IsWellFormed c) (key : String)
      (job new : RemoteWriteJob) (completes : evaluate_self_heal clock c now ≡ proceed d)
      (before : lookup key c.jobs ≡ some job) (after : lookup key d.jobs ≡ some new) where
    becomes : healed c now (clock key) job ≡ new
    becomes = some_inj (
        sym (ap (map_option (healed c now (clock key))) before)
        ∙ sym ((sweep_entries c d now clock wf completes).2 key)
        ∙ after)

    -- For a well-formed table and a positive backoff within the range of durations: a sweep that
    -- goes through leaves a job that is not stalled as it was. It marks a stalled one with the time
    -- that the stall was first seen and does nothing else to it, or it recreates it: its last cycle
    -- saw healthy targets, its last recreation, if any, is a backoff ago, and the fresh job carries
    -- the throttle, the count, one higher, and the stall window over.
    pub sweep-Outcome : Outcome job (clock key) new
    sweep-Outcome = subst (Outcome job (clock key)) becomes (healed-Outcome job (clock key))

    -- An outage is no reason to recreate: when a sweep of a well-formed table goes through, with a
    -- positive backoff within the range of durations, a job whose last cycle saw no healthy target
    -- keeps all its state but the mark of the stall.
    pub outage_left_alone :
        job.last_cycle_had_healthy_targets ≡ false
        → (new ≡ job) ⊎ (new ≡ record job { stalled_since = new.stalled_since })
    unfolding mark_stalled
    outage_left_alone h = elim sweep-Outcome [
      | inl (_, e) ↦ inl e
      | inr (inl (_, e)) ↦ inr (ground arith)
      | inr (inr (_, r)) ↦ absurd (false≢true (sym h ∙ r.reachable))
    ]
