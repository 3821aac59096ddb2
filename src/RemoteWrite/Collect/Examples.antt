-- ===== src/RemoteWrite/Collect/Examples.antt =====
-- The theorems on collection cycles at concrete targets.
use prometheus_multi_tenant.Shared.{
  ◌*◌, String, ◌≡◌, inl, refl, true, false, Option, none, some, List, [], ◌∷◌, arith, All, Any,
  cons≢nil,
}
use prometheus_multi_tenant.Shared.Int.{pos}
use prometheus_multi_tenant.Shared.Map.{insert}
use prometheus_multi_tenant.Shared.Result.{Result, err, ok}
use prometheus_multi_tenant.Shared.Text.{namespaced}
use prometheus_multi_tenant.Shared.Time.{minute}
use prometheus_multi_tenant.Api.{MetricAccess}
use prometheus_multi_tenant.Discovery.{Target}
use prometheus_multi_tenant.RemoteWrite.Fixtures.{
  one, sample, fingerprint, job, controller, section, resource,
}
use prometheus_multi_tenant.RemoteWrite.Metric.{Metric}
use prometheus_multi_tenant.RemoteWrite.Job.{is_job_stalled, stall_grace_period}
use prometheus_multi_tenant.RemoteWrite.Dedup.{deduplicate_metrics, dedup_loop}
use prometheus_multi_tenant.RemoteWrite.Dedup.Reference.{merge_onto}
use prometheus_multi_tenant.RemoteWrite.Collect.{
  collect_from_target, collect_patterns, collect_pattern,
}
use prometheus_multi_tenant.RemoteWrite.Collect.Laws.{Justified, collected_metrics-Justified}
use prometheus_multi_tenant.RemoteWrite.Collect.Cycle.{
  Cycle, collect_metrics, gather, on_clean_empty, update_job_status, without_targets,
}
use prometheus_multi_tenant.RemoteWrite.Collect.Cycle.Laws.{
  series, Verdict, collect_metrics-Verdict,
}
use prometheus_multi_tenant.RemoteWrite.Collect.Cycle.Watch.{
  clean_cycle_ends_stall, other_cycle_keeps_stall, collect_metrics_returns, outage_counts_as_clean,
}

abbrev target : Target
target = record { url = "http://p"; labels = []; healthy = true; last_seen = 1 }

abbrev ask : String → Result (List Metric)
ask query = ok (sample one ∷ [])

abbrev ask_in_vain : String → Result (List Metric)
ask_in_vain query = err "unreachable"

one_collected : collect_from_target ask resource target ≡ ok (sample one ∷ [])
unfolding collect_from_target collect_patterns collect_pattern
one_collected = refl

collected_metrics-Justified_example :
    All (λ m. Any (λ p. Justified ask resource p m) resource.spec.metrics) (sample one ∷ [])
collected_metrics-Justified_example =
    collected_metrics-Justified ask resource target (sample one ∷ []) one_collected

abbrev accept : String → MetricAccess → List Metric → Option String
accept type ma batch = none

abbrev refuse : String → MetricAccess → List Metric → Option String
refuse type ma batch = some "503"

abbrev query : MetricAccess → String → String → Result (List Metric)
query ma url text = ok (sample one ∷ [])

abbrev query_in_vain : MetricAccess → String → String → Result (List Metric)
query_in_vain ma url text = err "unreachable"

collect_metrics_returns_example :
    (cyc : Cycle) × (collect_metrics fingerprint query refuse 9 9 9 controller job (target ∷ [])
      ≡ some cyc)
collect_metrics_returns_example =
    collect_metrics_returns fingerprint query refuse 9 9 9 controller job (target ∷ []) section refl

outage_counts_as_clean_example :
    (cyc : Cycle) × (collect_metrics fingerprint query_in_vain accept 9 9 9 controller job
        (target ∷ [])
      ≡ some cyc)
    × (cyc.job.last_clean_cycle_time ≡ 9)
    × (cyc.job.stalled_since ≡ 0)
outage_counts_as_clean_example =
    outage_counts_as_clean fingerprint query_in_vain accept 9 9 9 controller job (target ∷ [])
      section refl cons≢nil (λ url text. ("unreachable", refl))

-- The cycle of that outage, and the one of no target at all.
abbrev vain_cycle : Cycle
vain_cycle = record {
  controller = record controller { collected_metrics = ("shop/web", []) ∷ [] };
  job = update_job_status (record (on_clean_empty job 9) { last_run = 9 });
}

vain_cycle_ends :
    collect_metrics fingerprint query_in_vain accept 9 9 9 controller job (target ∷ [])
    ≡ some vain_cycle
unfolding collect_metrics gather collect_from_target collect_patterns collect_pattern
    deduplicate_metrics dedup_loop on_clean_empty insert namespaced
vain_cycle_ends = refl

vain_series : series fingerprint query_in_vain accept 9 9 9 resource (target ∷ []) ≡ []
unfolding series merge_onto collect_patterns collect_pattern
vain_series = refl

abbrev idle_cycle : Cycle
idle_cycle = record {
  controller = record controller { collected_metrics = ("shop/web", []) ∷ [] };
  job = update_job_status (without_targets job 9);
}

idle_cycle_ends : collect_metrics fingerprint query accept 9 9 9 controller job [] ≡ some idle_cycle
unfolding collect_metrics insert namespaced
idle_cycle_ends = refl

collect_metrics-Verdict_example :
    Verdict fingerprint query accept 9 9 9 controller job [] idle_cycle.job
collect_metrics-Verdict_example =
    collect_metrics-Verdict fingerprint query accept 9 9 9 controller job [] idle_cycle
      idle_cycle_ends

other_cycle_keeps_stall_example :
    is_job_stalled controller idle_cycle.job (100 * minute)
    ≡ is_job_stalled controller job (100 * minute)
other_cycle_keeps_stall_example =
    other_cycle_keeps_stall fingerprint query accept 9 9 9 controller job [] idle_cycle
      (100 * minute) idle_cycle_ends (λ c. c.reachable refl)

grace_is : stall_grace_period controller.config ≡ pos (15 * minute)
unfolding stall_grace_period
grace_is = refl

clean_cycle_ends_stall_example : is_job_stalled controller vain_cycle.job (15 * minute) ≡ false
clean_cycle_ends_stall_example =
    clean_cycle_ends_stall fingerprint query_in_vain accept 9 9 9 controller job (target ∷ [])
      vain_cycle (15 * minute) (15 * minute) vain_cycle_ends
      (record { reachable = cons≢nil; delivered = inl vain_series }) grace_is (omega arith)
      (omega arith) (omega arith)
