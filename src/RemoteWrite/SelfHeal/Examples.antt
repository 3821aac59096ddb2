-- ===== src/RemoteWrite/SelfHeal/Examples.antt =====
-- The theorems on the watchdog at concrete tables of jobs.
use prometheus_multi_tenant.Shared.{
  ◌+◌, ◌*◌, ◌≤◌, String, ◌≡◌, ◌↔◌, ◌⊎◌, refl, true, false, some, arith, map_option,
}
use prometheus_multi_tenant.Shared.Int.{pos}
use prometheus_multi_tenant.Shared.Map.{Map, lookup, insert, NoDup}
use prometheus_multi_tenant.Shared.Time.{Time, minute, sub}
use prometheus_multi_tenant.Shared.Word.{inc64}
use prometheus_multi_tenant.RemoteWrite.Fixtures.{wedged, with_job, with_job-IsWellFormed}
use prometheus_multi_tenant.RemoteWrite.Job.{
  RemoteWriteJob, Controller, is_job_stalled, stall_grace_period, pod_restart_grace_period,
  pod_restart_cooldown, recreate_backoff, self_heal_pod_restart_enabled,
}
use prometheus_multi_tenant.RemoteWrite.SelfHeal.{
  proceed, exited, evaluate_self_heal, stalled_keys, heal_all, heal_job, escalate, mark_stalled,
  should_escalate_pod_restart, within_cooldown,
}
use prometheus_multi_tenant.RemoteWrite.SelfHeal.Spec.{exits_for, healed}
use prometheus_multi_tenant.RemoteWrite.SelfHeal.Refinement.{evaluate_self_heal_refines}
use prometheus_multi_tenant.RemoteWrite.SelfHeal.Restart.{
  Windows, RestartIsDue, exits_exactly_when_due, exits_a_cooldown_apart,
}
use prometheus_multi_tenant.RemoteWrite.SelfHeal.Recreate.{IsRecreated, sweep-Outcome}

abbrev now : Time
now = 100 * minute

abbrev clock : String → Time
clock key = now

-- The job has been stalled for 99 minutes and its targets are healthy.
abbrev due : Controller
due = with_job (wedged true minute) 0

due-Windows : Windows (45 * minute) (30 * minute) due
unfolding pod_restart_grace_period pod_restart_cooldown
due-Windows = record {
  grace_is = refl;
  grace_small = omega arith;
  cooldown_is = refl;
  cooldown_pos = omega arith;
  cooldown_small = omega arith;
}

exits_exactly_when_due_example :
    ((d : Controller) × (evaluate_self_heal clock due now ≡ exited d)) ↔ (
      (key : String) × (job : RemoteWriteJob) × (lookup key due.jobs ≡ some job)
      × (is_job_stalled due job now ≡ true)
      × RestartIsDue (45 * minute) (30 * minute) due job now)
exits_exactly_when_due_example =
    exits_exactly_when_due (45 * minute) (30 * minute) due due-Windows clock now
      (with_job-IsWellFormed true minute 0)

evaluate_self_heal_refines_example :
    ((jobs : Map RemoteWriteJob) × (evaluate_self_heal clock due now
        ≡ proceed (record due { jobs = jobs }))
      × NoDup jobs
      × ((j : String) (job : RemoteWriteJob)
          → lookup j due.jobs ≡ some job
          → is_job_stalled due job now ≡ true
          → exits_for due job now ≡ false)
      × ((j : String) → lookup j jobs ≡ map_option (healed due now (clock j)) (lookup j due.jobs)))
    ⊎ ((key : String) × (job : RemoteWriteJob) × (jobs : Map RemoteWriteJob) × (lookup key due.jobs
          ≡ some job)
        × (is_job_stalled due job now ≡ true)
        × (exits_for due job now ≡ true)
        × (evaluate_self_heal clock due now
            ≡ exited (record due {
              jobs = jobs;
              last_self_restart_at = now;
              self_restart_total = inc64 due.self_restart_total;
            })))
evaluate_self_heal_refines_example =
    evaluate_self_heal_refines due now (with_job-IsWellFormed true minute 0) clock

-- The controller after the exit at `now`.
abbrev after_exit : Controller
after_exit = record due { last_self_restart_at = now; self_restart_total = 1 }

due_exits : evaluate_self_heal clock due now ≡ exited after_exit
unfolding evaluate_self_heal stalled_keys heal_all heal_job escalate mark_stalled is_job_stalled
    lookup insert sub stall_grace_period pod_restart_grace_period should_escalate_pod_restart
    self_heal_pod_restart_enabled within_cooldown
due_exits = refl

abbrev later : Time
later = 200 * minute

abbrev still_due : Controller
still_due = with_job (wedged true minute) now

abbrev after_second : Controller
after_second = record still_due { last_self_restart_at = later; self_restart_total = 1 }

still_due_exits : evaluate_self_heal clock still_due later ≡ exited after_second
unfolding evaluate_self_heal stalled_keys heal_all heal_job escalate mark_stalled is_job_stalled
    lookup insert sub stall_grace_period pod_restart_grace_period pod_restart_cooldown
    should_escalate_pod_restart self_heal_pod_restart_enabled within_cooldown
still_due_exits = refl

still_due-Windows : Windows (45 * minute) (30 * minute) still_due
unfolding pod_restart_grace_period pod_restart_cooldown
still_due-Windows = record {
  grace_is = refl;
  grace_small = omega arith;
  cooldown_is = refl;
  cooldown_pos = omega arith;
  cooldown_small = omega arith;
}

exits_a_cooldown_apart_example : now + 30 * minute ≤ later
exits_a_cooldown_apart_example =
    exits_a_cooldown_apart (45 * minute) (30 * minute) due after_exit still_due after_second clock
      clock now later still_due-Windows (with_job-IsWellFormed true minute 0)
      (with_job-IsWellFormed true minute now) (omega arith) refl due_exits still_due_exits

-- An outage: the last cycle saw no healthy target.
abbrev outage : Controller
outage = with_job (wedged false 0) 0

abbrev outage_after : Controller
outage_after = with_job (wedged false now) 0

outage_proceeds : evaluate_self_heal clock outage now ≡ proceed outage_after
unfolding evaluate_self_heal stalled_keys heal_all heal_job escalate mark_stalled is_job_stalled
    lookup insert sub stall_grace_period pod_restart_grace_period pod_restart_cooldown
    should_escalate_pod_restart self_heal_pod_restart_enabled within_cooldown
outage_proceeds = refl

backoff_is : recreate_backoff outage.config ≡ pos (5 * minute)
unfolding recreate_backoff
backoff_is = refl

found : lookup "shop/web" outage.jobs ≡ some (wedged false 0)
unfolding lookup
found = refl

found_after : lookup "shop/web" outage_after.jobs ≡ some (wedged false now)
unfolding lookup
found_after = refl

sweep-Outcome_example :
    ((is_job_stalled outage (wedged false 0) now ≡ false) × (wedged false now ≡ wedged false 0))
    ⊎ ((is_job_stalled outage (wedged false 0) now ≡ true)
        × (wedged false now ≡ mark_stalled (wedged false 0) now))
    ⊎ ((is_job_stalled outage (wedged false 0) now ≡ true)
        × IsRecreated (5 * minute) now (clock "shop/web") (wedged false 0) (wedged false now))
sweep-Outcome_example =
    sweep-Outcome outage (5 * minute) now backoff_is (omega arith) (omega arith) outage_after clock
      (with_job-IsWellFormed false 0 0) "shop/web" (wedged false 0) (wedged false now)
      outage_proceeds found found_after

grace_is : stall_grace_period due.config ≡ pos (15 * minute)
unfolding stall_grace_period
grace_is = refl
