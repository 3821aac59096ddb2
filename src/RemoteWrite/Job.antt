-- ===== src/RemoteWrite/Job.antt =====
-- The controller's state and its jobs (internal/remote_write/controller.go): the records, the
-- effective periods, stall detection, and the creation and the stop of a job.
pub mod Laws
use prometheus_multi_tenant.Shared.{
  ℕ, ◌*◌, String, Bool, true, false, not, ◌&&◌, ◌||◌, Option, none, some, List, [], ◌∷◌, str_eq,
  if◌then◌else◌,
}
use prometheus_multi_tenant.Shared.Int.{pos, is_positive, ltb_ℤ}
use prometheus_multi_tenant.Shared.Map.{Map, insert, delete, keys}
use prometheus_multi_tenant.Shared.Time.{Time, Duration, is_zero_time, minute, sub}
use prometheus_multi_tenant.Api.{MetricAccess, is_enabled, key_of}
use prometheus_multi_tenant.Api
use prometheus_multi_tenant.Config
use prometheus_multi_tenant.RemoteWrite.Metric.{Metric}

-- The counters are bit patterns of 64-bit integers. A job whose stop channel is closed is no longer
-- in the table, so the channel has no field.
pub record RemoteWriteJob : Type 0 where
  pub metric_access : MetricAccess
  pub last_run : Time
  pub last_error : Option String
  pub metrics_count : ℕ
  pub success_count : ℕ
  pub failure_count : ℕ
  pub last_successful_collection_time : Time
  pub last_collected_series_count : ℕ
  pub consecutive_empty_collections : ℕ
  pub last_collection_succeeded : Bool
  pub last_clean_cycle_time : Time
  pub last_cycle_had_healthy_targets : Bool
  pub created_at : Time
  pub last_recreate_at : Time
  pub recreate_count : ℕ
  pub stalled_since : Time

-- The client, the discovery, the clock and the exit are arguments of the operations that use them.
pub record Controller : Type 0 where
  pub config : Config.RemoteWriteConfig
  pub jobs : Map RemoteWriteJob
  pub collected_metrics : Map (List Metric)
  pub is_leader : Bool
  pub last_self_restart_at : Time
  pub self_restart_total : ℕ

unfoldable pub new_controller : Config.RemoteWriteConfig → Controller
new_controller config = record {
  config = config;
  jobs = [];
  collected_metrics = [];
  is_leader = false;
  last_self_restart_at = 0;
  self_restart_total = 0;
}

abbrev pub default_stall_grace_period : Duration
default_stall_grace_period = pos (15 * minute)

abbrev pub default_recreate_backoff : Duration
default_recreate_backoff = pos (5 * minute)

abbrev pub default_pod_restart_grace_period : Duration
default_pod_restart_grace_period = pos (45 * minute)

abbrev pub default_pod_restart_cooldown : Duration
default_pod_restart_cooldown = pos (30 * minute)

unfoldable pub stall_grace_period : Config.RemoteWriteConfig → Duration
stall_grace_period c =
    if is_positive c.stall_grace_period then c.stall_grace_period else default_stall_grace_period

unfoldable pub recreate_backoff : Config.RemoteWriteConfig → Duration
recreate_backoff c =
    if is_positive c.recreate_backoff then c.recreate_backoff else default_recreate_backoff

unfoldable pub pod_restart_grace_period : Config.RemoteWriteConfig → Duration
pod_restart_grace_period c =
    if is_positive c.pod_restart_grace_period
    then c.pod_restart_grace_period
    else default_pod_restart_grace_period

unfoldable pub pod_restart_cooldown : Config.RemoteWriteConfig → Duration
pod_restart_cooldown c =
    if is_positive c.pod_restart_cooldown
    then c.pod_restart_cooldown
    else default_pod_restart_cooldown

abbrev or_false : Option Bool → Bool
or_false none = false
or_false (some b) = b

unfoldable pub self_heal_pod_restart_enabled : Config.RemoteWriteConfig → Bool
self_heal_pod_restart_enabled c = or_false c.self_heal_pod_restart

-- The last clean cycle, or the creation where there was none.
abbrev pub stall_baseline : RemoteWriteJob → Time
stall_baseline job =
    if is_zero_time job.last_clean_cycle_time then job.created_at else job.last_clean_cycle_time

-- `isJobStalledLocked`; `isJobStalled` is the same under the lock.
unfoldable pub is_job_stalled : Controller → RemoteWriteJob → Time → Bool
is_job_stalled c job now =
    is_enabled job.metric_access.spec.remote_write
    && not (is_zero_time (stall_baseline job))
    && ltb_ℤ (stall_grace_period c.config) (sub now (stall_baseline job))

-- The result of `createRemoteWriteJobLocked`; without a remote write section the code dereferences
-- a nil pointer.
pub data Creation : Type 0 where
  created : Controller → Creation
  unsupported_target : String → Creation
  nil_remote_write : Creation

abbrev pub is_target_type : String → Bool
is_target_type t = str_eq t "prometheus" || str_eq t "pushgateway" || str_eq t "remote_write"

unfoldable pub fresh_job : MetricAccess → Time → RemoteWriteJob
fresh_job ma now = record {
  metric_access = ma;
  last_run = 0;
  last_error = none;
  metrics_count = 0;
  success_count = 0;
  failure_count = 0;
  last_successful_collection_time = 0;
  last_collected_series_count = 0;
  consecutive_empty_collections = 0;
  last_collection_succeeded = false;
  last_clean_cycle_time = 0;
  last_cycle_had_healthy_targets = false;
  created_at = now;
  last_recreate_at = 0;
  recreate_count = 0;
  stalled_since = 0;
}

unfoldable pub create_for :
    Controller → MetricAccess → Time → Option Api.RemoteWriteConfig → Creation
create_for c ma now none = nil_remote_write
create_for c ma now (some r) =
    if is_target_type r.target.type
    then created (record c { jobs = insert (key_of ma) (fresh_job ma now) c.jobs })
    else unsupported_target r.target.type

-- `now` is the reading of the controller's clock.
unfoldable pub create_remote_write_job : Controller → MetricAccess → Time → Creation
unfolding create_for
create_remote_write_job c ma now = create_for c ma now ma.spec.remote_write

-- The job's channel is closed and the job leaves the table; its collected metrics stay.
unfoldable pub stop_remote_write_job : Controller → String → Controller
stop_remote_write_job c key = record c { jobs = delete key c.jobs }

unfoldable pub stop_keys : Controller → List String → Controller
stop_keys c [] = c
stop_keys c (key ∷ rest) = stop_keys (stop_remote_write_job c key) rest

unfoldable pub stop_all_jobs : Controller → Controller
unfolding stop_keys stop_remote_write_job
stop_all_jobs c = stop_keys c (keys c.jobs)
