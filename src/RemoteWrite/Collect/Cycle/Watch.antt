-- ===== src/RemoteWrite/Collect/Cycle/Watch.antt =====
-- What the self-heal watchdog makes of a job after a collection cycle.
use prometheus_multi_tenant.Shared.{
  ℕ, String, length, ◌≡◌, ◌≢◌, inl, inr, refl, sym, ap, ◌∙◌, true, false, Option, some, none, List,
  [], ◌∷◌, map, arith, concat, Bool-cases, List-cases, some_inj, ◌+◌, ◌≤◌, ◌<◌,
}
use prometheus_multi_tenant.Shared.Int.{ℤ, pos}
use prometheus_multi_tenant.Shared.Map.{Map}
use prometheus_multi_tenant.Shared.Result.{Result, err}
use prometheus_multi_tenant.Shared.Time.{Time, max_duration}
use prometheus_multi_tenant.Api.{MetricAccess}
use prometheus_multi_tenant.Api
use prometheus_multi_tenant.Discovery.{Target}
use prometheus_multi_tenant.RemoteWrite.Metric.{Metric}
use prometheus_multi_tenant.RemoteWrite.Job.{
  RemoteWriteJob, Controller, is_job_stalled, stall_grace_period,
}
use prometheus_multi_tenant.RemoteWrite.Job.Laws.{is_job_stalled_iff}
use prometheus_multi_tenant.RemoteWrite.Dedup.Reference.{merge_onto}
use prometheus_multi_tenant.RemoteWrite.Collect.Laws.{failing_patterns}
use prometheus_multi_tenant.RemoteWrite.Collect.Send.{
  Sending, Ends, nil_section, sent, send_error, send_metrics, send_metrics-Ends,
}
use prometheus_multi_tenant.RemoteWrite.Collect.Cycle.{
  Cycle, healthy_targets, collect_metrics, after_send, classify, finish,
}
use prometheus_multi_tenant.RemoteWrite.Collect.Cycle.Laws.{
  series, IsClean, Keeps, Verdict, clean, unreachable, undelivered, collect_metrics-Verdict,
  reachable_cycle, unreachable_cycle, yield_of,
}

not_both : {e : String} → sent ≡ send_error e → ⊥
not_both h = ground arith

module _ (fingerprint : Map String → ℕ)
    (query : MetricAccess → String → String → Result (List Metric))
    (send : String → MetricAccess → List Metric → Option String)
    (wall collected_at clean_at : Time) where
  -- The job after a cycle in which everything stayed that a stall depends on.
  not_clean :
      (c : Controller) (job new : RemoteWriteJob) (targets : List Target)
      → (IsClean fingerprint query send wall collected_at clean_at c job.metric_access targets → ⊥)
      → Verdict fingerprint query send wall collected_at clean_at c job targets new
      → Keeps fingerprint query send wall collected_at clean_at job new
        × (new.last_clean_cycle_time ≡ job.last_clean_cycle_time)
        × (new.stalled_since ≡ job.stalled_since)
  not_clean c job new targets h (clean a k b d e) = absurd (h a)
  not_clean c job new targets h (unreachable a k b d e) = (k, b, d)
  not_clean c job new targets h (undelivered a s t b k f d e g) = (k, d, e)

  is_clean :
      (c : Controller) (job new : RemoteWriteJob) (targets : List Target)
      → IsClean fingerprint query send wall collected_at clean_at c job.metric_access targets
      → Verdict fingerprint query send wall collected_at clean_at c job targets new
      → Keeps fingerprint query send wall collected_at clean_at job new
        × (new.last_clean_cycle_time ≡ clean_at)
        × (new.stalled_since ≡ 0)
  is_clean c job new targets h (clean a k b d e) = (k, b, d)
  is_clean c job new targets h (unreachable a k b d e) = absurd (h.reachable a)
  is_clean c job new targets h (undelivered a s t b k f d e g) = elim h.delivered [
    | inl n ↦ absurd (s n)
    | inr q ↦ absurd (not_both (sym q ∙ b))
  ]

  -- For a grace period below the largest duration and a clock past the zero time, a clean cycle
  -- ends a stall: the job is not stalled at any time up to the grace period after the cycle's
  -- reading of the clock.
  pub clean_cycle_ends_stall :
      (c : Controller) (job : RemoteWriteJob) (targets : List Target) (cyc : Cycle) (grace : ℕ)
      (later : Time)
      → collect_metrics fingerprint query send wall collected_at clean_at c job targets ≡ some cyc
      → IsClean fingerprint query send wall collected_at clean_at c job.metric_access targets
      → stall_grace_period c.config ≡ pos grace
      → grace < max_duration
      → 0 < clean_at
      → later ≤ clean_at + grace
      → is_job_stalled c cyc.job later ≡ false
  clean_cycle_ends_stall c job targets cyc grace later h cl g small z l =
      let (k, fresh, s) = is_clean c job cyc.job targets cl (
        collect_metrics-Verdict fingerprint query send wall collected_at clean_at c job targets cyc
          h) in
      elim (Bool-cases (is_job_stalled c cyc.job later)) [
        | inr calm ↦ calm
        | inl stalled ↦
            let s = (is_job_stalled_iff c cyc.job later grace g small).0 stalled in
            ground (arith, s.late, fresh)
      ]

  -- A cycle that is not clean leaves the stall clock alone: at every later time the job is stalled
  -- exactly when it would have been stalled without the cycle.
  pub other_cycle_keeps_stall :
      (c : Controller) (job : RemoteWriteJob) (targets : List Target) (cyc : Cycle) (later : Time)
      → collect_metrics fingerprint query send wall collected_at clean_at c job targets ≡ some cyc
      → (IsClean fingerprint query send wall collected_at clean_at c job.metric_access targets → ⊥)
      → is_job_stalled c cyc.job later ≡ is_job_stalled c job later
  unfolding is_job_stalled
  other_cycle_keeps_stall c job targets cyc later h other =
      let (k, same, s) = not_clean c job cyc.job targets other (
        collect_metrics-Verdict fingerprint query send wall collected_at clean_at c job targets cyc
          h) in
      rw (k.spec, same, k.created_at) refl

  after_send-Ends :
      (job : RemoteWriteJob) (count : ℕ) (s : Sending)
      → Ends s
      → (new : RemoteWriteJob) × (after_send fingerprint query send wall collected_at clean_at job
            count s
          ≡ some new)
  unfolding after_send
  after_send-Ends job count sent h = (_, refl)
  after_send-Ends job count (send_error e) h = (_, refl)
  after_send-Ends job count nil_section h = absurd h

  -- A cycle's classification always ends, where the job has a remote write section.
  classify_ends :
      (size : ℤ) (job : RemoteWriteJob) (ms : List Metric) (r : Api.RemoteWriteConfig)
      → job.metric_access.spec.remote_write ≡ some r
      → (new : RemoteWriteJob) × (classify fingerprint query send wall collected_at clean_at size
            job false ms
          ≡ some new)
  unfolding classify
  classify_ends size job [] r h = (_, refl)
  classify_ends size job (m ∷ ms) r h =
      after_send-Ends job (length (m ∷ ms)) (send_metrics send size job.metric_access (m ∷ ms))
        (send_metrics-Ends send size job.metric_access (m ∷ ms) r h)

  pub collect_metrics-Keeps :
      (c : Controller) (job : RemoteWriteJob) (targets : List Target) (cyc : Cycle)
      → collect_metrics fingerprint query send wall collected_at clean_at c job targets ≡ some cyc
      → Keeps fingerprint query send wall collected_at clean_at job cyc.job
  collect_metrics-Keeps c job targets cyc h =
      elim (collect_metrics-Verdict fingerprint query send wall collected_at clean_at c job targets
        cyc h) [
          | clean a k b d e ↦ k
          | unreachable a k b d e ↦ k
          | undelivered a s t b k f d e g ↦ k
        ]

  finished_jobs :
      (c : Controller) (o : Option RemoteWriteJob) (cyc : Cycle)
      → finish fingerprint query send wall collected_at clean_at c o ≡ some cyc
      → cyc.controller.jobs ≡ c.jobs
  unfolding finish
  finished_jobs c none cyc h = ground arith
  finished_jobs c (some job) cyc h = ap (λ (x : Cycle). x.controller.jobs) (sym (some_inj h))

  -- A cycle leaves the table of jobs to its caller.
  pub cycle_jobs :
      (c : Controller) (job : RemoteWriteJob) (targets : List Target) (cyc : Cycle)
      → collect_metrics fingerprint query send wall collected_at clean_at c job targets ≡ some cyc
      → cyc.controller.jobs ≡ c.jobs
  cycle_jobs c job targets cyc h = elim (List-cases (healthy_targets targets)) [
    | inl none_up ↦
        ap (λ (x : Cycle). x.controller.jobs)
          (some_inj (
            sym h
            ∙ unreachable_cycle fingerprint query send wall collected_at clean_at c job targets
                none_up))
    | inr (t, ts, up) ↦ finished_jobs _ _ cyc (
        sym
          (reachable_cycle fingerprint query send wall collected_at clean_at c job targets t ts up)
        ∙ h)
  ]

  -- A cycle never panics for a job with a remote write section, whatever the targets answer.
  pub collect_metrics_returns :
      (c : Controller) (job : RemoteWriteJob) (targets : List Target) (r : Api.RemoteWriteConfig)
      → job.metric_access.spec.remote_write ≡ some r
      → (cyc : Cycle) × (collect_metrics fingerprint query send wall collected_at clean_at c job
            targets
          ≡ some cyc)
  unfolding finish
  collect_metrics_returns c job targets r h = elim (List-cases (healthy_targets targets)) [
    | inl none_up ↦ (
      _,
      unreachable_cycle fingerprint query send wall collected_at clean_at c job targets none_up,
    )
    | inr (t, ts, up) ↦
        let (new, q) =
          classify_ends c.config.batch_size (record job { last_cycle_had_healthy_targets = true })
            (series fingerprint query send wall collected_at clean_at job.metric_access targets) r
            h in
        (
          _,
          reachable_cycle fingerprint query send wall collected_at clean_at c job targets t ts up
              ∙ ap (finish fingerprint query send wall collected_at clean_at _) q,
        )
  ]

  module _ (ma : MetricAccess)
      (fails : (url text : String) → (e : String) × (query ma url text ≡ err e)) where
    nothing_yielded :
        (ts : List Target)
        → concat (map (yield_of fingerprint query send wall collected_at clean_at ma) ts) ≡ []
    nothing_yielded [] = refl
    nothing_yielded (t ∷ ts) =
        rw (failing_patterns (query ma t.url) ma ma.spec.metrics (fails t.url)) (nothing_yielded ts)

    no_series :
        (targets : List Target)
        → series fingerprint query send wall collected_at clean_at ma targets ≡ []
    unfolding series merge_onto
    no_series targets = rw (nothing_yielded (healthy_targets targets)) refl

  -- An outage of every query counts as a clean cycle: for a job with a remote write section, where
  -- some target is healthy but each query of the job fails, the cycle returns, the stall clock
  -- starts anew all the same, and the stall is forgotten.
  pub outage_counts_as_clean :
      (c : Controller) (job : RemoteWriteJob) (targets : List Target) (r : Api.RemoteWriteConfig)
      → job.metric_access.spec.remote_write ≡ some r
      → healthy_targets targets ≢ []
      → ((url text : String) → (e : String) × (query job.metric_access url text ≡ err e))
      → (cyc : Cycle) × (collect_metrics fingerprint query send wall collected_at clean_at c job
            targets
          ≡ some cyc)
        × (cyc.job.last_clean_cycle_time ≡ clean_at)
        × (cyc.job.stalled_since ≡ 0)
  outage_counts_as_clean c job targets r h up fails =
      let (cyc, q) = collect_metrics_returns c job targets r h in
      let (k, fresh, forgotten) =
        is_clean c job cyc.job targets
          (record { reachable = up; delivered = inl (no_series job.metric_access fails targets) })
          (collect_metrics-Verdict fingerprint query send wall collected_at clean_at c job targets
            cyc q) in
      (cyc, q, fresh, forgotten)
