-- ===== src/RemoteWrite/HealthMetrics.antt =====
-- The health metrics (internal/remote_write/metrics.go, `HealthCollector`): what a scrape reads of
-- the controller's jobs. A value is the integer that the code converts to a float64.
pub mod Laws
mod Examples
use prometheus_multi_tenant.Shared.{
  ℕ, ◌+◌, ◌-◌, ◌/◌, ◌^◌, String, Bool, true, false, List, [], ◌∷◌, ◌++◌, if◌then◌else◌, leb, ltb,
}
use prometheus_multi_tenant.Shared.Int.{ℤ, pos, negsuc}
use prometheus_multi_tenant.Shared.Map.{Map}
use prometheus_multi_tenant.Shared.Time.{Time, second, is_zero_time}
use prometheus_multi_tenant.Api.{wants_remote_write}
use prometheus_multi_tenant.RemoteWrite.Job.{RemoteWriteJob, Controller}

pub data Family : Type 0 where
  collection_up last_successful_collection collected_series stall_recreations self_restart : Family

-- `Describe`
abbrev pub describe : List Family
describe =
    collection_up ∷ last_successful_collection ∷ collected_series ∷ stall_recreations ∷ self_restart
    ∷ []

-- `prometheus.MustNewConstMetric(desc, kind, value, labels...)`
pub record Emitted : Type 0 where
  pub family : Family
  pub value : ℤ
  pub labels : List String

-- The seconds from the zero time to the Unix epoch.
abbrev epoch_seconds : ℕ
epoch_seconds = 62135596800

-- `t.Unix()`
unfoldable pub unix : Time → ℤ
unix t =
    let s = t / second in
    if leb epoch_seconds s then pos (s - epoch_seconds) else negsuc (epoch_seconds - s - 1)

-- A 64-bit counter as a number.
unfoldable pub signed64 : ℕ → ℤ
signed64 n = if ltb n (2 ^ 63) then pos n else negsuc (2 ^ 64 - n - 1)

abbrev up_value : Bool → ℤ
up_value true = pos 1
up_value false = pos 0

abbrev pub labels_of : RemoteWriteJob → List String
labels_of job = job.metric_access.namespace ∷ job.metric_access.name ∷ []

abbrev emit : RemoteWriteJob → Family → ℤ → Emitted
emit job family value = record { family = family; value = value; labels = labels_of job }

-- The four metrics of a job whose resource has remote write enabled.
unfoldable pub emit_job : RemoteWriteJob → List Emitted
emit_job job =
    let last_success =
      if is_zero_time job.last_successful_collection_time
      then pos 0
      else unix job.last_successful_collection_time in
    if wants_remote_write job.metric_access
    then emit job collection_up (up_value job.last_collection_succeeded)
      ∷ emit job last_successful_collection last_success
      ∷ emit job collected_series (signed64 job.last_collected_series_count)
      ∷ emit job stall_recreations (signed64 job.recreate_count)
      ∷ []
    else []

unfoldable pub emit_jobs : Map RemoteWriteJob → List Emitted
emit_jobs [] = []
emit_jobs ((key, job) ∷ rest) = emit_job job ++ emit_jobs rest

unfoldable pub collect : Controller → List Emitted
collect c =
    emit_jobs c.jobs
    ++ (record { family = self_restart; value = signed64 c.self_restart_total; labels = [] } ∷ [])
