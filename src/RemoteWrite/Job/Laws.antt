-- ===== src/RemoteWrite/Job/Laws.antt =====
-- The effective periods are positive whatever the configuration, and what it is to be stalled.
use prometheus_multi_tenant.Shared.{ℕ, ◌+◌, ◌<◌, ◌≡◌, ◌↔◌, true, arith}
use prometheus_multi_tenant.Shared.Int.{pos, is_positive}
use prometheus_multi_tenant.Shared.Time.{Time, sub_exceeds, exceeds_sub, max_duration}
use prometheus_multi_tenant.Api.{is_enabled}
use prometheus_multi_tenant.Config
use prometheus_multi_tenant.RemoteWrite.Job.{
  RemoteWriteJob, Controller, is_job_stalled, stall_grace_period, recreate_backoff,
  pod_restart_grace_period, pod_restart_cooldown, stall_baseline,
}

pub stall_grace_period_positive :
    (c : Config.RemoteWriteConfig) → is_positive (stall_grace_period c) ≡ true
unfolding stall_grace_period
stall_grace_period_positive c = ground arith

pub recreate_backoff_positive :
    (c : Config.RemoteWriteConfig) → is_positive (recreate_backoff c) ≡ true
unfolding recreate_backoff
recreate_backoff_positive c = ground arith

pub pod_restart_grace_period_positive :
    (c : Config.RemoteWriteConfig) → is_positive (pod_restart_grace_period c) ≡ true
unfolding pod_restart_grace_period
pod_restart_grace_period_positive c = ground arith

pub pod_restart_cooldown_positive :
    (c : Config.RemoteWriteConfig) → is_positive (pod_restart_cooldown c) ≡ true
unfolding pod_restart_cooldown
pod_restart_cooldown_positive c = ground arith

-- The specification of a stall: the job is enabled, has a baseline, and more than the grace period
-- lies between the baseline and now.
pub record IsStalled (grace : ℕ) (job : RemoteWriteJob) (now : Time) : Type 0 where
  pub enabled : is_enabled job.metric_access.spec.remote_write ≡ true
  pub known : 0 < stall_baseline job
  pub late : stall_baseline job + grace < now

-- With a grace period below the largest duration, stall detection finds a job stalled exactly when
-- the job is enabled, has a baseline, and more than the grace period lies between the baseline and
-- now.
pub is_job_stalled_iff :
    (c : Controller) (job : RemoteWriteJob) (now : Time) (grace : ℕ)
    → stall_grace_period c.config ≡ pos grace
    → grace < max_duration
    → (is_job_stalled c job now ≡ true) ↔ IsStalled grace job now
unfolding is_job_stalled
is_job_stalled_iff c job now grace e h = rw e (
  (λ t. ground (arith, sub_exceeds now (stall_baseline job) grace h)),
  (λ s. ground (arith, exceeds_sub now (stall_baseline job) grace h)),
)
