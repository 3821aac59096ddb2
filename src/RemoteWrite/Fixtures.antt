-- ===== src/RemoteWrite/Fixtures.antt =====
-- Test data for the examples of the remote write subsystem.
use prometheus_multi_tenant.RemoteWrite.Metric.{Metric}
use prometheus_multi_tenant.Shared.{
  String, ℕ, length, ◌≡◌, refl, subst, Bool, true, false, none, some, [], ◌∷◌, ◌*◌, arith, str_eq,
  eq_iff, Bool-cases, inl, inr, some_inj,
}
use prometheus_multi_tenant.Shared.Float.{Float64}
use prometheus_multi_tenant.Shared.Int.{pos}
use prometheus_multi_tenant.Shared.Map.{Map, lookup}
use prometheus_multi_tenant.Shared.Time.{Time, minute, second}
use prometheus_multi_tenant.Shared.Text.{namespaced}
use prometheus_multi_tenant.Api.{MetricAccess, key_of}
use prometheus_multi_tenant.Api
use prometheus_multi_tenant.Config
use prometheus_multi_tenant.RemoteWrite.Job.{RemoteWriteJob, Controller}
use prometheus_multi_tenant.RemoteWrite.SelfHeal.Spec.{IsSound, IsWellFormed}

-- 1.0 and 2.0
abbrev pub one : Float64
one = 4607182418800017408

abbrev pub two : Float64
two = 4611686018427387904

abbrev pub nan : Float64
nan = 9221120237041090561

abbrev pub sample : Float64 → Metric
sample v = record { name = "up"; labels = []; value = v; timestamp = 1 }

abbrev pub fingerprint : Map String → ℕ
fingerprint labels = length labels

abbrev pub section : Api.RemoteWriteConfig
section = record {
  enabled = true;
  interval = pos (30 * second);
  target = record {
    type = "remote_write";
    prometheus = none;
    pushgateway = none;
    remote_write = none;
  };
  prometheus = none;
  pushgateway = none;
  remote_write = none;
  extra_labels = ("team", "a") ∷ [];
  honor_labels = false;
  metric_relabelings = [];
}

abbrev pub resource : MetricAccess
resource = record {
  namespace = "shop";
  name = "web";
  spec = record {
    metrics = "up" ∷ [];
    source = "";
    label_selectors = [];
    metric_isolation = true;
    remote_write = some section;
  };
  status = record { remote_write = none };
}

abbrev pub config : Config.RemoteWriteConfig
config = record {
  enabled = true;
  default_interval = pos (30 * second);
  max_concurrent_jobs = pos 10;
  collection_timeout = pos (30 * second);
  retry_attempts = pos 3;
  retry_delay = pos (5 * second);
  batch_size = pos 2;
  stall_grace_period = pos (15 * minute);
  recreate_backoff = pos (5 * minute);
  pod_restart_grace_period = pos (45 * minute);
  pod_restart_cooldown = pos (30 * minute);
  self_heal_pod_restart = some true;
}

-- A job that last ran cleanly at its first nanosecond and was recreated once.
abbrev pub wedged : Bool → Time → RemoteWriteJob
wedged reachable stalled_since = record {
  metric_access = resource;
  last_run = 0;
  last_error = none;
  metrics_count = 0;
  success_count = 0;
  failure_count = 0;
  last_successful_collection_time = 0;
  last_collected_series_count = 0;
  consecutive_empty_collections = 0;
  last_collection_succeeded = false;
  last_clean_cycle_time = 1;
  last_cycle_had_healthy_targets = reachable;
  created_at = 1;
  last_recreate_at = 0;
  recreate_count = 1;
  stalled_since = stalled_since;
}

abbrev pub with_job : RemoteWriteJob → Time → Controller
with_job job last = record {
  config = config;
  jobs = ("shop/web", job) ∷ [];
  collected_metrics = [];
  is_leader = true;
  last_self_restart_at = last;
  self_restart_total = 0;
}

abbrev pub job : RemoteWriteJob
job = wedged true minute

abbrev pub controller : Controller
controller = with_job job 0

pub with_job-IsWellFormed :
    (reachable : Bool) (since last : Time) → IsWellFormed (with_job (wedged reachable since) last)
unfolding lookup namespaced
with_job-IsWellFormed reachable since last = record {
  unique = (refl, tt);
  sound = λ key job e. elim (Bool-cases (str_eq "shop/web" key)) [
    | inl same ↦
        let here : some (wedged reachable since) ≡ some job = ground (arith, same, e) in
        subst (IsSound key) (some_inj here)
          (record { keyed = (eq_iff "shop/web" key).0 same; target = (section, refl, refl) })
    | inr other ↦ ground (arith, other, e)
  ];
}
