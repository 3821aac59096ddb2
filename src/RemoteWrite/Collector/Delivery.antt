-- ===== src/RemoteWrite/Collector/Delivery.antt =====
-- A collection cycle with the program's own collectors, from the queries to the receivers.
mod Examples
use prometheus_multi_tenant.Shared.{
  ℕ, String, ◌≡◌, ◌≢◌, ◌⊎◌, inl, inr, true, Option, some, List, [], All,
}
use mathlib.Core.List.{Permᴰ}
use prometheus_multi_tenant.Shared.Map.{Map}
use prometheus_multi_tenant.Shared.Result.{Result}
use prometheus_multi_tenant.Shared.Time.{Time}
use prometheus_multi_tenant.Api.{MetricAccess}
use prometheus_multi_tenant.Api
use prometheus_multi_tenant.Discovery.{Target}
use prometheus_multi_tenant.RemoteWrite.Metric.{Metric}
use prometheus_multi_tenant.RemoteWrite.Job.{RemoteWriteJob, Controller, is_target_type}
use prometheus_multi_tenant.RemoteWrite.Batch.{split_into_batches}
use prometheus_multi_tenant.RemoteWrite.Collect.Send.{sent, send_metrics}
use prometheus_multi_tenant.RemoteWrite.Collect.Cycle.{Cycle, collect_metrics}
use prometheus_multi_tenant.RemoteWrite.Collect.Cycle.Laws.{
  series, Verdict, clean, unreachable, undelivered, collect_metrics-Verdict,
}
use prometheus_multi_tenant.RemoteWrite.Collector.Send.{Outside}
use prometheus_multi_tenant.RemoteWrite.Collector.Send.Laws.{
  Delivered, IsCollector, send_metrics-Delivered,
}

module _ (fingerprint : Map String → ℕ)
    (query : MetricAccess → String → String → Result (List Metric))
    (send : String → MetricAccess → List Metric → Option String)
    (wall collected_at clean_at : Time) where
  -- The series that a cycle of the job collects.
  abbrev pub collected : RemoteWriteJob → List Target → List Metric
  collected job targets =
      series fingerprint query send wall collected_at clean_at job.metric_access targets

  sent_or_empty :
      (c : Controller) (job new : RemoteWriteJob) (targets : List Target)
      → Verdict fingerprint query send wall collected_at clean_at c job targets new
      → new.last_clean_cycle_time ≢ job.last_clean_cycle_time
      → (collected job targets ≡ [])
        ⊎ (send_metrics send c.config.batch_size job.metric_access (collected job targets) ≡ sent)
  sent_or_empty c job new targets (clean is_clean _ _ _ _) moved = is_clean.delivered
  sent_or_empty c job new targets (unreachable _ _ same _ _) moved = absurd (moved same)
  sent_or_empty c job new targets (undelivered _ _ _ _ _ _ same _ _) moved = absurd (moved same)

  -- End to end: where the job's target is not the Pushgateway, whose collector sends nothing, a
  -- collection cycle that moves the time of the job's last clean cycle, with the program's
  -- collectors, either collected no series, or the target type is a known one and every batch of
  -- the collected and deduplicated series could be encoded and was accepted by all the receivers
  -- of the target, each within three attempts.
  pub clean_cycle_delivers :
      (out : Outside) (any_order : (urls : List String) → Permᴰ (out.finish urls) urls)
      → IsCollector out send
      → (c : Controller) (job : RemoteWriteJob) (targets : List Target) (cyc : Cycle)
        (r : Api.RemoteWriteConfig)
      → job.metric_access.spec.remote_write ≡ some r
      → r.target.type ≢ "pushgateway"
      → collect_metrics fingerprint query send wall collected_at clean_at c job targets ≡ some cyc
      → cyc.job.last_clean_cycle_time ≢ job.last_clean_cycle_time
      → (collected job targets ≡ [])
        ⊎ ((is_target_type r.target.type ≡ true)
            × All
                (Delivered out r.target.type r job.metric_access.namespace)
                (split_into_batches (collected job targets) c.config.batch_size))
  clean_cycle_delivers out any_order collects c job targets cyc r section pushes ended moved =
      let verdict =
        collect_metrics-Verdict fingerprint query send wall collected_at clean_at c job targets cyc
          ended in
      elim (sent_or_empty c job cyc.job targets verdict moved) [
        | inl none_collected ↦ inl none_collected
        | inr all_sent ↦ inr (
            (send_metrics-Delivered out any_order send collects c.config.batch_size
                job.metric_access (collected job targets) r section).0
              all_sent)
      ]
