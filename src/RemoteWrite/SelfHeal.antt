-- ===== src/RemoteWrite/SelfHeal.antt =====
-- The self-heal watchdog (internal/remote_write/controller.go, `shouldEscalatePodRestart` and
-- `evaluateSelfHeal`): a sweep over the stalled jobs that recreates a job or restarts the pod.
pub mod Spec
pub mod Turns
pub mod Sweep
pub mod Refinement
pub mod Restart
pub mod Recreate
mod Examples
use prometheus_multi_tenant.Shared.{
  ℕ, String, Bool, true, false, not, ◌&&◌, ◌||◌, Option, none, some, List, [], ◌∷◌, ltb,
  if◌then◌else◌,
}
use prometheus_multi_tenant.Shared.Int.{ltb_ℤ}
use prometheus_multi_tenant.Shared.Map.{Map, lookup, insert}
use prometheus_multi_tenant.Shared.Time.{Time, is_zero_time, sub}
use prometheus_multi_tenant.Shared.Word.{inc64, is_negative64}
use prometheus_multi_tenant.RemoteWrite.Job.{
  RemoteWriteJob, Controller, Creation, created, unsupported_target, nil_remote_write,
  is_job_stalled, create_remote_write_job, stop_remote_write_job, self_heal_pod_restart_enabled,
  pod_restart_grace_period, pod_restart_cooldown, recreate_backoff,
}

unfoldable pub should_escalate_pod_restart : Controller → RemoteWriteJob → Time → Bool
should_escalate_pod_restart c job now =
    self_heal_pod_restart_enabled c.config
    && c.is_leader
    && job.last_cycle_had_healthy_targets
    && not (ltb job.recreate_count 1 || is_negative64 job.recreate_count)
    && not (is_zero_time job.stalled_since)
    && ltb_ℤ (pod_restart_grace_period c.config) (sub now job.stalled_since)

-- How one job's turn ends: the sweep goes on, the process exits with code 1, or it panics at a nil
-- job.
pub data Turn : Type 0 where
  proceed exited panicked : Controller → Turn

-- The throttle state that is carried over to the fresh job.
unfoldable pub carry_over : RemoteWriteJob → Time → RemoteWriteJob → RemoteWriteJob
carry_over old now fresh = record fresh {
  last_recreate_at = now;
  recreate_count = inc64 old.recreate_count;
  stalled_since = old.stalled_since;
  last_cycle_had_healthy_targets = old.last_cycle_had_healthy_targets;
}

-- `newJob := c.jobs[key]` and the writes through it.
unfoldable pub carry_to : Controller → String → RemoteWriteJob → Time → Option RemoteWriteJob → Turn
carry_to c key old now none = panicked c
carry_to c key old now (some fresh) =
    proceed (record c { jobs = insert key (carry_over old now fresh) c.jobs })

unfoldable pub after_creation : Controller → String → RemoteWriteJob → Time → Creation → Turn
after_creation stopped key old now (created c) = carry_to c key old now (lookup key c.jobs)
after_creation stopped key old now (unsupported_target t) = proceed stopped
after_creation stopped key old now nil_remote_write = panicked stopped

-- Step 1: stop the job and create it anew. `reading` is the controller's clock at that moment.
unfoldable pub recreate : Controller → String → RemoteWriteJob → Time → Time → Turn
recreate c key job now reading =
    let stopped = stop_remote_write_job c key in
    after_creation stopped key job now (create_remote_write_job stopped job.metric_access reading)

unfoldable pub within_cooldown : Controller → Time → Bool
within_cooldown c now =
    not (is_zero_time c.last_self_restart_at)
    && ltb_ℤ (sub now c.last_self_restart_at) (pod_restart_cooldown c.config)

unfoldable pub within_backoff : Controller → RemoteWriteJob → Time → Bool
within_backoff c job now =
    not (is_zero_time job.last_recreate_at)
    && ltb_ℤ (sub now job.last_recreate_at) (recreate_backoff c.config)

-- The job's turn, once it is known when its stall was first seen.
unfoldable pub escalate : Controller → String → RemoteWriteJob → Time → Time → Turn
escalate c key job now reading =
    if should_escalate_pod_restart c job now
    then if within_cooldown c now
      then proceed c
      else exited
          (record c { last_self_restart_at = now; self_restart_total = inc64 c.self_restart_total })
    else if not job.last_cycle_had_healthy_targets
    then proceed c
    else if within_backoff c job now
    then proceed c
    else recreate c key job now reading

-- `if job.stalledSince.IsZero() { job.stalledSince = now }`
unfoldable pub mark_stalled : RemoteWriteJob → Time → RemoteWriteJob
mark_stalled job now =
    if is_zero_time job.stalled_since then record job { stalled_since = now } else job

unfoldable pub heal_job : Controller → String → Time → Time → Option RemoteWriteJob → Turn
heal_job c key now reading none = proceed c
heal_job c key now reading (some job) =
    let marked = mark_stalled job now in
    escalate (record c { jobs = insert key marked c.jobs }) key marked now reading

unfoldable pub stalled_keys : Controller → Time → Map RemoteWriteJob → List String
stalled_keys c now [] = []
stalled_keys c now ((key, job) ∷ rest) =
    let others = stalled_keys c now rest in
    if is_job_stalled c job now then key ∷ others else others

-- The turns of the stalled jobs, up to an exit or a panic. `clock` reads the controller's clock when
-- the job of a key is created.
unfoldable pub heal_all : (String → Time) → Controller → Time → List String → Turn
heal_all clock c now [] = proceed c
heal_all clock c now (key ∷ rest) = elim (heal_job c key now (clock key) (lookup key c.jobs)) [
  | proceed c' ↦ heal_all clock c' now rest
  | exited c' ↦ exited c'
  | panicked c' ↦ panicked c'
]

unfoldable pub evaluate_self_heal : (String → Time) → Controller → Time → Turn
evaluate_self_heal clock c now = heal_all clock c now (stalled_keys c now c.jobs)
