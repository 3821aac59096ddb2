-- ===== src/RemoteWrite/SelfHeal/Turns.antt =====
-- One job's turn in the watchdog's sweep.
use prometheus_multi_tenant.Shared.{
  String, ◌≡◌, refl, Bool, true, false, not, ◌&&◌, some, if◌then◌else◌, arith, str_eq, and_parts,
  not-eq-true,
}
use prometheus_multi_tenant.Shared.Map.{
  Map, lookup, insert, delete, lookup-insert, lookup-delete, lookup-insert_self, NoDup,
  insert-NoDup, delete-NoDup,
}
use prometheus_multi_tenant.Shared.Time.{Time}
use prometheus_multi_tenant.Shared.Word.{inc64}
use prometheus_multi_tenant.RemoteWrite.Job.{
  RemoteWriteJob, Controller, is_job_stalled, fresh_job, created, create_remote_write_job,
  stop_remote_write_job,
}
use prometheus_multi_tenant.RemoteWrite.SelfHeal.{
  Turn, proceed, exited, should_escalate_pod_restart, within_cooldown, within_backoff, carry_over,
  mark_stalled, recreate, escalate, heal_job, after_creation, carry_to,
}
use prometheus_multi_tenant.RemoteWrite.SelfHeal.Spec.{IsSound, exits_for, stalled_outcome}

-- The guards read the configuration and the controller's flags, and not the table.
module _ (c : Controller) (jobs : Map RemoteWriteJob) where
  pub should_escalate-jobs :
      (job : RemoteWriteJob) (now : Time)
      → should_escalate_pod_restart (record c { jobs = jobs }) job now
        ≡ should_escalate_pod_restart c job now
  unfolding should_escalate_pod_restart
  should_escalate-jobs job now = refl

  pub within_cooldown-jobs :
      (now : Time) → within_cooldown (record c { jobs = jobs }) now ≡ within_cooldown c now
  unfolding within_cooldown
  within_cooldown-jobs now = refl

  pub within_backoff-jobs :
      (job : RemoteWriteJob) (now : Time)
      → within_backoff (record c { jobs = jobs }) job now ≡ within_backoff c job now
  unfolding within_backoff
  within_backoff-jobs job now = refl

  pub is_job_stalled-jobs :
      (job : RemoteWriteJob) (now : Time)
      → is_job_stalled (record c { jobs = jobs }) job now ≡ is_job_stalled c job now
  unfolding is_job_stalled
  is_job_stalled-jobs job now = refl

  pub stalled_outcome-jobs :
      (now reading : Time)
      → stalled_outcome (record c { jobs = jobs }) now reading ≡ stalled_outcome c now reading
  unfolding stalled_outcome should_escalate_pod_restart within_backoff
  stalled_outcome-jobs now reading = refl

  pub exits_for-jobs :
      (job : RemoteWriteJob) (now : Time)
      → exits_for (record c { jobs = jobs }) job now ≡ exits_for c job now
  unfolding exits_for should_escalate_pod_restart within_cooldown
  exits_for-jobs job now = refl

pub ruleset jobs_laws = (
  should_escalate-jobs, within_cooldown-jobs, within_backoff-jobs, is_job_stalled-jobs,
  stalled_outcome-jobs, exits_for-jobs,
)

-- The turn goes on, with `job` at the key and the rest of the controller as it was.
pub record Proceeds (c : Controller) (key : String) (job : RemoteWriteJob) (t : Turn) : Type 0 where
  pub jobs : Map RemoteWriteJob
  pub ends : t ≡ proceed (record c { jobs = jobs })
  pub unique : NoDup c.jobs → NoDup jobs
  pub entries : (j : String) → lookup j jobs ≡ (if str_eq key j then some job else lookup j c.jobs)

mark_stalled-access :
    (job : RemoteWriteJob) (now : Time) → (mark_stalled job now).metric_access ≡ job.metric_access
unfolding mark_stalled
mark_stalled-access job now = ground arith

mark_stalled-IsSound :
    (key : String) (job : RemoteWriteJob) (now : Time)
    → IsSound key job
    → IsSound key (mark_stalled job now)
mark_stalled-IsSound key job now s = record {
  keyed = rw mark_stalled-access s.keyed;
  target = rw mark_stalled-access s.target;
}

creation_lem :
    (c : Controller) (key : String) (job : RemoteWriteJob) (reading : Time)
    → IsSound key job
    → create_remote_write_job c job.metric_access reading
      ≡ created (record c { jobs = insert key (fresh_job job.metric_access reading) c.jobs })
unfolding create_remote_write_job
creation_lem c key job reading s =
    let (r, e, supported) = s.target in ground (arith, e, supported, s.keyed)

recreate-Proceeds :
    (c : Controller) (key : String) (job : RemoteWriteJob) (now reading : Time)
    → IsSound key job
    → Proceeds c key
        (carry_over job now (fresh_job job.metric_access reading))
        (recreate c key job now reading)
unfolding recreate stop_remote_write_job after_creation carry_to
recreate-Proceeds c key job now reading s = record {
  jobs = insert key replaced (insert key fresh (delete key c.jobs));
  ends =
      rw (creation_lem (record c { jobs = delete key c.jobs }) key job reading s, after_creation)
        (rw (lookup-insert_self key fresh (delete key c.jobs), carry_to) refl);
  unique = λ d. insert-NoDup key _ _ (insert-NoDup key _ _ (delete-NoDup key c.jobs d));
  entries = λ j. simp (lookup-insert, lookup-delete) (ground arith);
}
  where
    fresh : RemoteWriteJob
    fresh = fresh_job job.metric_access reading

    replaced : RemoteWriteJob
    replaced = carry_over job now fresh

-- The job where the process goes on, before its turn or by one of the guards.
stays-Proceeds :
    (c : Controller) (key : String) (job : RemoteWriteJob)
    → Proceeds c key job (proceed (record c { jobs = insert key job c.jobs }))
stays-Proceeds c key job = record {
  jobs = insert key job c.jobs;
  ends = refl;
  unique = insert-NoDup key job c.jobs;
  entries = λ j. lookup-insert key j job c.jobs;
}

-- A write to the key before the turn is overwritten by the turn.
rebase :
    (c : Controller) (key : String) (old new : RemoteWriteJob) (t : Turn)
    → Proceeds (record c { jobs = insert key old c.jobs }) key new t
    → Proceeds c key new t
rebase c key old new t p = record {
  jobs = p.jobs;
  ends = p.ends;
  unique = λ d. p.unique (insert-NoDup key old c.jobs d);
  entries = λ j. ground (arith, p.entries j, lookup-insert key j old c.jobs);
}

-- The branches of `escalate` beside those of the specification, where the process goes on.
branches :
    (P : RemoteWriteJob → Turn → Type 0) (job new : RemoteWriteJob) (stays exits goes : Turn)
    (escalates cooling healthy throttled : Bool)
    → (escalates && not cooling) ≡ false
    → P job stays
    → P new goes
    → P (if escalates then job else if not healthy then job else if throttled then job else new) (
        if escalates
        then if cooling then stays else exits
        else if not healthy
        then stays
        else if throttled
        then stays
        else goes)
branches P job new stays exits goes true true healthy throttled h p q = p
branches P job new stays exits goes true false healthy throttled h p q = cc
branches P job new stays exits goes false cooling false throttled h p q = p
branches P job new stays exits goes false cooling true true h p q = p
branches P job new stays exits goes false cooling true false h p q = q

escalate-Proceeds :
    (c : Controller) (key : String) (job : RemoteWriteJob) (now reading : Time)
    → IsSound key job
    → (should_escalate_pod_restart c job now && not (within_cooldown c now)) ≡ false
    → Proceeds c key
        (if should_escalate_pod_restart c job now
          then job
          else if not job.last_cycle_had_healthy_targets
          then job
          else if within_backoff c job now
          then job
          else carry_over job now (fresh_job job.metric_access reading))
        (escalate (record c { jobs = insert key job c.jobs }) key job now reading)
unfolding escalate
escalate-Proceeds c key job now reading s h = simp jobs_laws (
    branches (Proceeds c key) job (carry_over job now (fresh_job job.metric_access reading)) _ _ _
      (should_escalate_pod_restart c job now) (within_cooldown c now)
      job.last_cycle_had_healthy_targets (within_backoff c job now) h (stays-Proceeds c key job)
      (rebase c key job _ _
        (recreate-Proceeds (record c { jobs = insert key job c.jobs }) key job now reading s)))

-- The turn of a job that the process is not restarted for.
pub heal_job-Proceeds :
    (c : Controller) (key : String) (job : RemoteWriteJob) (now reading : Time)
    → IsSound key job
    → exits_for c job now ≡ false
    → Proceeds c key (stalled_outcome c now reading job) (heal_job c key now reading (some job))
unfolding heal_job stalled_outcome exits_for
heal_job-Proceeds c key job now reading s h =
    escalate-Proceeds c key (mark_stalled job now) now reading (mark_stalled-IsSound key job now s)
      h

-- The turn of a job that it is restarted for.
pub heal_job-exits :
    (c : Controller) (key : String) (job : RemoteWriteJob) (now reading : Time)
    → exits_for c job now ≡ true
    → heal_job c key now reading (some job)
      ≡ exited (record c {
        jobs = insert key (mark_stalled job now) c.jobs;
        last_self_restart_at = now;
        self_restart_total = inc64 c.self_restart_total;
      })
unfolding heal_job escalate exits_for
heal_job-exits c key job now reading h =
    let parts =
      and_parts (should_escalate_pod_restart c (mark_stalled job now) now)
        (not (within_cooldown c now)) h in
    simp (jobs_laws, parts.0, not-eq-true parts.1) refl
