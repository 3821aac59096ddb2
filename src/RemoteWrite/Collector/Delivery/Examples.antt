-- ===== src/RemoteWrite/Collector/Delivery/Examples.antt =====
-- The delivery of a collection at a concrete job.
use prometheus_multi_tenant.Shared.{
  String, ◌≡◌, ◌≢◌, eq_iff, ◌↔◌, refl, true, some, List, [], ◌∷◌, arith, All,
}
use prometheus_multi_tenant.Shared.Int.{pos}
use prometheus_multi_tenant.Shared.Map.{insert}
use prometheus_multi_tenant.Api.{MetricAccess}
use prometheus_multi_tenant.RemoteWrite.Fixtures.{one}
use prometheus_multi_tenant.Shared.Result.{Result, ok}
use prometheus_multi_tenant.Discovery.{Target}
use prometheus_multi_tenant.RemoteWrite.Fixtures.{fingerprint, controller, job, sample}
use prometheus_multi_tenant.RemoteWrite.Job.{RemoteWriteJob}
use prometheus_multi_tenant.RemoteWrite.Collect.Cycle.{
  Cycle, collect_metrics, gather, on_success, update_job_status,
}
use prometheus_multi_tenant.RemoteWrite.Collector.Delivery.{collected, clean_cycle_delivers}
use prometheus_multi_tenant.Shared.{◌⊎◌}
use prometheus_multi_tenant.RemoteWrite.Metric.{Metric}
use prometheus_multi_tenant.RemoteWrite.Job.{is_target_type}
use prometheus_multi_tenant.RemoteWrite.Batch.{split_into_batches}
use prometheus_multi_tenant.RemoteWrite.Collect.Send.{sent, send_metrics}
use prometheus_multi_tenant.RemoteWrite.Collector.Write.{
  attempt_error, write_from, send_remote_write,
}
use prometheus_multi_tenant.RemoteWrite.Collector.Send.{build_prometheus_urls, send_by}
use prometheus_multi_tenant.RemoteWrite.Collector.Send.Laws.{Delivered, send_metrics-Delivered}
use prometheus_multi_tenant.RemoteWrite.Dedup.{deduplicate_metrics}
use prometheus_multi_tenant.RemoteWrite.Collect.{
  collect_from_target, collect_patterns, collect_pattern,
}
use prometheus_multi_tenant.Shared.Text.{namespaced}
use prometheus_multi_tenant.RemoteWrite.Batch.{split_batches}
use prometheus_multi_tenant.RemoteWrite.Collector.Send.{send_prometheus, fan_out}
use prometheus_multi_tenant.RemoteWrite.Collector.Fixtures.{
  metric, outside, full_section, full_resource, send, send-IsCollector, any_order,
}

send_metrics-Delivered_example :
    (send_metrics send (pos 1) full_resource (metric ∷ metric ∷ []) ≡ sent) ↔ (
      (is_target_type full_section.target.type ≡ true)
      × All
          (Delivered outside full_section.target.type full_section "shop")
          (split_into_batches (metric ∷ metric ∷ []) (pos 1)))
send_metrics-Delivered_example =
    send_metrics-Delivered outside any_order send send-IsCollector (pos 1) full_resource
      (metric ∷ metric ∷ []) full_section refl

abbrev query : MetricAccess → String → String → Result (List Metric)
query ma url text = ok (sample one ∷ [])

abbrev up_target : Target
up_target = record { url = "http://p"; labels = []; healthy = true; last_seen = 1 }

abbrev full_job : RemoteWriteJob
full_job = record job { metric_access = full_resource }

abbrev delivered_cycle : Cycle
delivered_cycle = record {
  controller = record controller { collected_metrics = ("shop/web", sample one ∷ []) ∷ [] };
  job = update_job_status (record (on_success full_job 1 9 9) { last_run = 9 });
}

delivered_cycle_ends :
    collect_metrics fingerprint query send 9 9 9 controller full_job (up_target ∷ [])
    ≡ some delivered_cycle
unfolding collect_metrics gather deduplicate_metrics collect_from_target collect_patterns
    collect_pattern send_metrics split_into_batches split_batches send_by send_prometheus fan_out
    build_prometheus_urls send_remote_write write_from attempt_error insert namespaced
delivered_cycle_ends = refl

not_pushgateway : full_section.target.type ≢ "pushgateway"
not_pushgateway e = ground (arith, (eq_iff full_section.target.type "pushgateway").1 e)

clean_cycle_delivers_example :
    (collected fingerprint query send 9 9 9 full_job (up_target ∷ []) ≡ [])
    ⊎ ((is_target_type full_section.target.type ≡ true)
        × All (Delivered outside full_section.target.type full_section "shop") (
            split_into_batches
              (collected fingerprint query send 9 9 9 full_job (up_target ∷ []))
              controller.config.batch_size))
unfolding update_job_status on_success
clean_cycle_delivers_example =
    clean_cycle_delivers fingerprint query send 9 9 9 outside any_order send-IsCollector controller
      full_job (up_target ∷ []) delivered_cycle full_section refl not_pushgateway
      delivered_cycle_ends (omega arith)
