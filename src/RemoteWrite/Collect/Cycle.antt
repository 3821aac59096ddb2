-- ===== src/RemoteWrite/Collect/Cycle.antt =====
-- One collection cycle of a job (internal/remote_write/controller.go, `collectMetrics` and
-- `updateJobStatus`), taken as one step. `query resource url text` is `queryPromQL`; `wall` is
-- `time.Now()`, and `collected_at` and `clean_at` are the readings of the controller's clock for the
-- two fields of these names.
pub mod Laws
pub mod Watch
use prometheus_multi_tenant.Shared.{
  ℕ, String, Bool, true, false, Option, none, some, List, [], ◌∷◌, ◌++◌, if◌then◌else◌, length,
  keep_if,
}
use prometheus_multi_tenant.Shared.Int.{ℤ}
use prometheus_multi_tenant.Shared.Map.{Map, insert}
use prometheus_multi_tenant.Shared.Result.{Result, err, ok}
use prometheus_multi_tenant.Shared.Time.{Time}
use prometheus_multi_tenant.Shared.Word.{add64, inc64, to_int32}
use prometheus_multi_tenant.Api.{MetricAccess, key_of}
use prometheus_multi_tenant.Discovery.{Target}
use prometheus_multi_tenant.RemoteWrite.Metric.{Metric}
use prometheus_multi_tenant.RemoteWrite.Job.{RemoteWriteJob, Controller}
use prometheus_multi_tenant.RemoteWrite.Dedup.{deduplicate_metrics}
use prometheus_multi_tenant.RemoteWrite.Collect.{collect_from_target}
use prometheus_multi_tenant.RemoteWrite.Collect.Send.{
  Sending, sent, send_error, nil_section, send_metrics,
}

abbrev or_no_error : Option String → String
or_no_error none = ""
or_no_error (some e) = e

unfoldable pub update_job_status : RemoteWriteJob → RemoteWriteJob
update_job_status job = record job {
  metric_access = record job.metric_access {
    status = record {
      remote_write = some (record {
        active = true;
        last_collection = job.last_run;
        metrics_collected = to_int32 job.metrics_count;
        last_error = or_no_error job.last_error;
      });
    };
  };
}

abbrev pub healthy_targets : List Target → List Target
healthy_targets = keep_if (λ t. t.healthy)

-- No healthy target: a failure cycle.
unfoldable pub without_targets : RemoteWriteJob → Time → RemoteWriteJob
without_targets job wall = record job {
  last_cycle_had_healthy_targets = false;
  consecutive_empty_collections = inc64 job.consecutive_empty_collections;
  last_collection_succeeded = false;
  last_run = wall;
}

unfoldable pub on_send_error : RemoteWriteJob → String → RemoteWriteJob
on_send_error job e = record job {
  last_error = some e;
  failure_count = inc64 job.failure_count;
  consecutive_empty_collections = inc64 job.consecutive_empty_collections;
  last_collection_succeeded = false;
}

unfoldable pub on_success : RemoteWriteJob → ℕ → Time → Time → RemoteWriteJob
on_success job count collected_at clean_at = record job {
  success_count = inc64 job.success_count;
  metrics_count = add64 job.metrics_count count;
  last_successful_collection_time = collected_at;
  last_collected_series_count = count;
  consecutive_empty_collections = 0;
  last_collection_succeeded = true;
  last_clean_cycle_time = clean_at;
  last_recreate_at = 0;
  stalled_since = 0;
}

unfoldable pub on_target_error : RemoteWriteJob → RemoteWriteJob
on_target_error job = record job {
  consecutive_empty_collections = inc64 job.consecutive_empty_collections;
  last_collection_succeeded = false;
}

unfoldable pub on_clean_empty : RemoteWriteJob → Time → RemoteWriteJob
on_clean_empty job clean_at = record job {
  consecutive_empty_collections = inc64 job.consecutive_empty_collections;
  last_collection_succeeded = false;
  last_clean_cycle_time = clean_at;
  stalled_since = 0;
}

-- The variables of the loop over the targets.
pub record Gathered : Type 0 where
  pub job : RemoteWriteJob
  pub metrics : List Metric
  pub target_err : Bool

abbrev pub gather_one : Gathered → Result (List Metric) → Gathered
gather_one g (err e) = record g {
  job = record g.job { last_error = some e; failure_count = inc64 g.job.failure_count };
  target_err = true;
}
gather_one g (ok ms) = record g { metrics = g.metrics ++ ms }

-- What a cycle leaves: the controller, and the job, which its goroutine holds by a pointer.
pub record Cycle : Type 0 where
  pub controller : Controller
  pub job : RemoteWriteJob

module _ (fingerprint : Map String → ℕ)
    (query : MetricAccess → String → String → Result (List Metric))
    (send : String → MetricAccess → List Metric → Option String)
    (wall collected_at clean_at : Time) where
  unfoldable pub gather : Gathered → List Target → Gathered
  gather g [] = g
  gather g (t ∷ ts) =
      let ma = g.job.metric_access in
      gather (gather_one g (collect_from_target (query ma t.url) ma t)) ts

  pub after_send : RemoteWriteJob → ℕ → Sending → Option RemoteWriteJob
  after_send job count sent = some (on_success job count collected_at clean_at)
  after_send job count (send_error e) = some (on_send_error job e)
  after_send job count nil_section = none

  -- The classification of the cycle.
  pub classify : ℤ → RemoteWriteJob → Bool → List Metric → Option RemoteWriteJob
  unfolding after_send
  classify size job target_err [] =
      some (if target_err then on_target_error job else on_clean_empty job clean_at)
  classify size job target_err (m ∷ ms) =
      after_send job (length (m ∷ ms)) (send_metrics send size job.metric_access (m ∷ ms))

  pub finish : Controller → Option RemoteWriteJob → Option Cycle
  finish c none = none
  finish c (some job) =
      some (record { controller = c; job = update_job_status (record job { last_run = wall }) })

  pub store : Controller → Gathered → Option (List Metric) → Option Cycle
  unfolding classify finish
  store c g none = none
  store c g (some ms) =
      let job = record g.job { last_cycle_had_healthy_targets = true } in
      finish
        (record c { collected_metrics = insert (key_of job.metric_access) ms c.collected_metrics })
        (classify c.config.batch_size job g.target_err ms)

  pub collect_from_healthy : Controller → RemoteWriteJob → List Target → Option Cycle
  unfolding store gather
  collect_from_healthy c job [] = some (record {
    controller = record c {
      collected_metrics = insert (key_of job.metric_access) [] c.collected_metrics;
    };
    job = update_job_status (without_targets job wall);
  })
  collect_from_healthy c job (t ∷ ts) =
      let g = gather (record { job = job; metrics = []; target_err = false }) (t ∷ ts) in
      store c g (deduplicate_metrics fingerprint g.metrics)

  -- `none` stands for a panic.
  unfoldable pub collect_metrics : Controller → RemoteWriteJob → List Target → Option Cycle
  unfolding collect_from_healthy
  collect_metrics c job targets = collect_from_healthy c job (healthy_targets targets)
