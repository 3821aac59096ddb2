-- ===== src/RemoteWrite/SelfHeal/Spec.antt =====
-- What one sweep of the watchdog is meant to do to one job, apart from the order of the jobs and
-- from the table (internal/remote_write/controller.go, the comment on `evaluateSelfHeal`).
use prometheus_multi_tenant.Shared.{String, ◌≡◌, Bool, true, not, ◌&&◌, some, if◌then◌else◌}
use prometheus_multi_tenant.Shared.Map.{lookup, NoDup}
use prometheus_multi_tenant.Shared.Time.{Time}
use prometheus_multi_tenant.Api
use prometheus_multi_tenant.Api.{key_of}
use prometheus_multi_tenant.RemoteWrite.Job.{
  RemoteWriteJob, Controller, is_job_stalled, is_target_type, fresh_job,
}
use prometheus_multi_tenant.RemoteWrite.SelfHeal.{
  should_escalate_pod_restart, within_cooldown, within_backoff, carry_over, mark_stalled,
}

-- The job is the one to restart the pod for.
unfoldable pub exits_for : Controller → RemoteWriteJob → Time → Bool
exits_for c job now =
    should_escalate_pod_restart c (mark_stalled job now) now && not (within_cooldown c now)

-- A stalled job after its turn, where the process goes on.
unfoldable pub stalled_outcome : Controller → Time → Time → RemoteWriteJob → RemoteWriteJob
stalled_outcome c now reading job =
    let marked = mark_stalled job now in
    if should_escalate_pod_restart c marked now
    then marked
    else if not marked.last_cycle_had_healthy_targets
    then marked
    else if within_backoff c marked now
    then marked
    else carry_over marked now (fresh_job marked.metric_access reading)

unfoldable pub healed : Controller → Time → Time → RemoteWriteJob → RemoteWriteJob
healed c now reading job =
    if is_job_stalled c job now then stalled_outcome c now reading job else job

-- A job can be created anew: it stands under its own key, with a supported target.
pub record IsSound (key : String) (job : RemoteWriteJob) : Type 0 where
  pub keyed : key_of job.metric_access ≡ key
  pub target :
      (r : Api.RemoteWriteConfig) × (job.metric_access.spec.remote_write ≡ some r)
      × (is_target_type r.target.type ≡ true)

-- The table of jobs is a map of sound jobs.
pub record IsWellFormed (c : Controller) : Type 0 where
  pub unique : NoDup c.jobs
  pub sound : (key : String) (job : RemoteWriteJob) → lookup key c.jobs ≡ some job → IsSound key job
