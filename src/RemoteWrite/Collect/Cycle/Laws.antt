-- ===== src/RemoteWrite/Collect/Cycle/Laws.antt =====
-- How a collection cycle is classified, and what the watchdog sees of it.
use prometheus_multi_tenant.Shared.{
  ℕ, String, ◌≡◌, ◌≢◌, ◌⊎◌, inl, inr, refl, sym, ap, ◌∙◌, subst, true, false, Option, none, some,
  List, [], ◌∷◌, ◌++◌, map, arith, length, concat, All, All-keep_if, append_assoc, append-nil,
  some_inj, List-cases, cons≢nil,
}
use prometheus_multi_tenant.Shared.Map.{Map, insert}
use prometheus_multi_tenant.Shared.Result.{Result}
use prometheus_multi_tenant.Shared.Time.{Time}
use prometheus_multi_tenant.Api.{MetricAccess, key_of}
use prometheus_multi_tenant.Discovery.{Target}
use prometheus_multi_tenant.RemoteWrite.Metric.{Metric}
use prometheus_multi_tenant.RemoteWrite.Job.{RemoteWriteJob, Controller}
use prometheus_multi_tenant.RemoteWrite.Dedup.Reference.{merge_onto, deduplicate_metrics-merge_onto}
use prometheus_multi_tenant.RemoteWrite.Collect.{collect_from_target, collect_patterns}
use prometheus_multi_tenant.RemoteWrite.Collect.Send.{
  Sending, sent, send_error, nil_section, send_metrics,
}
use prometheus_multi_tenant.RemoteWrite.Collect.Cycle.{
  update_job_status, healthy_targets, without_targets, on_send_error, on_success, on_clean_empty,
  Gathered, gather, Cycle, after_send, classify, finish, store, collect_from_healthy,
  collect_metrics,
}

module _ (fingerprint : Map String → ℕ)
    (query : MetricAccess → String → String → Result (List Metric))
    (send : String → MetricAccess → List Metric → Option String)
    (wall collected_at clean_at : Time) where
  -- What one target yields for a resource.
  abbrev pub yield_of : MetricAccess → Target → List Metric
  yield_of ma t = collect_patterns (query ma t.url) ma ma.spec.metrics

  -- The series of a cycle: everything that the healthy targets yield, merged.
  unfoldable pub series : MetricAccess → List Target → List Metric
  series ma targets =
      merge_onto fingerprint [] (concat (map (yield_of ma) (healthy_targets targets)))

  -- Healthy targets report no error, so the gathering only appends what they yield.
  gather_lem :
      (g : Gathered) (ts : List Target)
      → All (λ t. t.healthy ≡ true) ts
      → gather fingerprint query send wall collected_at clean_at g ts
        ≡ record g { metrics = g.metrics ++ concat (map (yield_of g.job.metric_access) ts) }
  unfolding gather collect_from_target
  gather_lem g [] h = ap (λ x. record g { metrics = x }) (sym (append-nil g.metrics))
  gather_lem g (t ∷ ts) h =
      let here = yield_of g.job.metric_access t in
      let later = concat (map (yield_of g.job.metric_access) ts) in
      rw h.0 (
        gather_lem (record g { metrics = g.metrics ++ here }) ts h.1
        ∙ ap (λ x. record g { metrics = x }) (append_assoc g.metrics here later))

  -- The controller after a cycle that stored metrics.
  abbrev pub stored : Controller → MetricAccess → List Metric → Controller
  stored c ma ms = record c { collected_metrics = insert (key_of ma) ms c.collected_metrics }

  -- With a healthy target the cycle is classified without a target error.
  pub reachable_cycle :
      (c : Controller) (job : RemoteWriteJob) (targets : List Target) (t : Target)
      (ts : List Target)
      → healthy_targets targets ≡ t ∷ ts
      → collect_metrics fingerprint query send wall collected_at clean_at c job targets
        ≡ finish fingerprint query send wall collected_at clean_at
            (stored c job.metric_access (series job.metric_access targets))
            (classify fingerprint query send wall collected_at clean_at c.config.batch_size
              (record job { last_cycle_had_healthy_targets = true })
              false
              (series job.metric_access targets))
  unfolding collect_metrics collect_from_healthy store series
  reachable_cycle c job targets t ts h =
      let up = subst (All (λ t. t.healthy ≡ true)) h (All-keep_if (λ t. t.healthy) targets) in
      rw
        (
          h,
          gather_lem (record { job = job; metrics = []; target_err = false }) (t ∷ ts) up,
          deduplicate_metrics-merge_onto fingerprint
              (concat (map (yield_of job.metric_access) (t ∷ ts))),
        )
        refl

  -- A cycle is clean: some target is healthy, and there is nothing to send or it is sent.
  pub record IsClean (c : Controller) (ma : MetricAccess) (targets : List Target) : Type 0 where
    pub reachable : healthy_targets targets ≢ []
    pub delivered :
        (series ma targets ≡ [])
        ⊎ (send_metrics send c.config.batch_size ma (series ma targets) ≡ sent)

  -- What every cycle leaves alone.
  pub record Keeps (old new : RemoteWriteJob) : Type 0 where
    pub spec : new.metric_access.spec ≡ old.metric_access.spec
    pub created_at : new.created_at ≡ old.created_at
    pub recreate_count : new.recreate_count ≡ old.recreate_count
    pub key : key_of new.metric_access ≡ key_of old.metric_access

  pub data Verdict (c : Controller) (old : RemoteWriteJob) (targets : List Target)
      (new : RemoteWriteJob) : Type 0 where
    clean :
        IsClean c old.metric_access targets
        → Keeps old new
        → new.last_clean_cycle_time ≡ clean_at
        → new.stalled_since ≡ 0
        → new.last_cycle_had_healthy_targets ≡ true
        → Verdict c old targets new
    unreachable :
        healthy_targets targets ≡ []
        → Keeps old new
        → new.last_clean_cycle_time ≡ old.last_clean_cycle_time
        → new.stalled_since ≡ old.stalled_since
        → new.last_cycle_had_healthy_targets ≡ false
        → Verdict c old targets new
    undelivered :
        healthy_targets targets ≢ []
        → series old.metric_access targets ≢ []
        → (e : String)
        → send_metrics send c.config.batch_size old.metric_access (series old.metric_access targets)
          ≡ send_error e
        → Keeps old new
        → new.last_error ≡ some e
        → new.last_clean_cycle_time ≡ old.last_clean_cycle_time
        → new.stalled_since ≡ old.stalled_since
        → new.last_cycle_had_healthy_targets ≡ true
        → Verdict c old targets new

  finish_new :
      (c c' : Controller) (job job' : RemoteWriteJob)
      → finish fingerprint query send wall collected_at clean_at c (some job)
        ≡ some (record { controller = c'; job = job' })
      → job' ≡ update_job_status (record job { last_run = wall })
  unfolding finish
  finish_new c c' job job' h = ap (λ x. x.job) (sym (some_inj h))

  nothing :
      {X : Type 0} (c : Controller) (cyc : Cycle)
      → finish fingerprint query send wall collected_at clean_at c none ≡ some cyc
      → X
  unfolding finish
  nothing c cyc h = ground arith

  after_send-Verdict :
      (c c' c'' : Controller) (job new : RemoteWriteJob) (targets : List Target) (count : ℕ)
      (s : Sending)
      → healthy_targets targets ≢ []
      → series job.metric_access targets ≢ []
      → send_metrics send c.config.batch_size job.metric_access (series job.metric_access targets)
        ≡ s
      → finish fingerprint query send wall collected_at clean_at c' (
          after_send fingerprint query send wall collected_at clean_at
            (record job { last_cycle_had_healthy_targets = true })
            count
            s)
        ≡ some (record { controller = c''; job = new })
      → Verdict c job targets new
  unfolding after_send on_success on_send_error update_job_status
  after_send-Verdict c c' c'' job new targets count sent up some_series s h =
      let e = finish_new c' c'' _ new h in
      rw e (
        clean (record { reachable = up; delivered = inr s })
          (record { spec = refl; created_at = refl; recreate_count = refl; key = refl }) refl refl
          refl)
  after_send-Verdict c c' c'' job new targets count (send_error t) up some_series s h =
      let e = finish_new c' c'' _ new h in
      rw e (
        undelivered up some_series t s
          (record { spec = refl; created_at = refl; recreate_count = refl; key = refl }) refl refl
          refl refl)
  after_send-Verdict c c' c'' job new targets count nil_section up some_series s h =
      nothing c' (record { controller = c''; job = new }) h

  classify-Verdict :
      (c c' c'' : Controller) (job new : RemoteWriteJob) (targets : List Target) (ms : List Metric)
      → healthy_targets targets ≢ []
      → series job.metric_access targets ≡ ms
      → finish fingerprint query send wall collected_at clean_at c' (
          classify fingerprint query send wall collected_at clean_at c.config.batch_size
            (record job { last_cycle_had_healthy_targets = true })
            false
            ms)
        ≡ some (record { controller = c''; job = new })
      → Verdict c job targets new
  unfolding classify on_clean_empty update_job_status
  classify-Verdict c c' c'' job new targets [] up s h =
      let e = finish_new c' c'' _ new h in
      rw e (
        clean (record { reachable = up; delivered = inl s })
          (record { spec = refl; created_at = refl; recreate_count = refl; key = refl }) refl refl
          refl)
  classify-Verdict c c' c'' job new targets (m ∷ ms) up s h =
      after_send-Verdict c c' c'' job new targets (length (m ∷ ms))
        (send_metrics send c.config.batch_size job.metric_access (m ∷ ms)) up
        (λ e. cons≢nil (sym s ∙ e)) (rw s refl) h

  pub unreachable_cycle :
      (c : Controller) (job : RemoteWriteJob) (targets : List Target)
      → healthy_targets targets ≡ []
      → collect_metrics fingerprint query send wall collected_at clean_at c job targets
        ≡ some (record {
          controller = stored c job.metric_access [];
          job = update_job_status (without_targets job wall);
        })
  unfolding collect_metrics collect_from_healthy
  unreachable_cycle c job targets h = rw h refl

  unreachable-Verdict :
      (c c'' : Controller) (job new : RemoteWriteJob) (targets : List Target)
      → healthy_targets targets ≡ []
      → collect_metrics fingerprint query send wall collected_at clean_at c job targets
        ≡ some (record { controller = c''; job = new })
      → Verdict c job targets new
  unfolding without_targets update_job_status
  unreachable-Verdict c c'' job new targets none_up h =
      let e = ap (λ x. x.job) (some_inj (sym h ∙ unreachable_cycle c job targets none_up)) in
      rw e (
        unreachable none_up
          (record { spec = refl; created_at = refl; recreate_count = refl; key = refl }) refl refl
          refl)

  -- Every cycle is one of three. It is clean, where some target is healthy and the series, if any,
  -- are sent: then the stall clock starts anew. It has no healthy target. Or its series are not
  -- sent, and the error is recorded. In the last two the stall clock and the time at which the
  -- stall was seen stay; in all of them, specification, creation time and recreations stay.
  pub collect_metrics-Verdict :
      (c : Controller) (job : RemoteWriteJob) (targets : List Target) (cyc : Cycle)
      → collect_metrics fingerprint query send wall collected_at clean_at c job targets ≡ some cyc
      → Verdict c job targets cyc.job
  collect_metrics-Verdict c job targets cyc h = elim (List-cases (healthy_targets targets)) [
    | inl none_up ↦ unreachable-Verdict c cyc.controller job cyc.job targets none_up h
    | inr (t, ts, up) ↦
        classify-Verdict c (stored c job.metric_access (series job.metric_access targets))
          cyc.controller job cyc.job targets (series job.metric_access targets)
          (λ e. cons≢nil (sym up ∙ e)) refl (sym (reachable_cycle c job targets t ts up) ∙ h)
  ]
