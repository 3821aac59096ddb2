-- ===== src/RemoteWrite/System.antt =====
-- The controller as a state machine (internal/remote_write/controller.go, `Start`, `reconcileLoop`
-- and `runRemoteWriteJob`): the steps that its goroutines take under the lock, in any order.
pub mod Laws
pub mod Leftover
mod Examples
use prometheus_multi_tenant.Shared.{
  ℕ, String, ◌≡◌, Option, none, some, List, [], ◌∷◌, if◌then◌else◌, true,
}
use prometheus_multi_tenant.Shared.Map.{Map, lookup, insert}
use prometheus_multi_tenant.Shared.Result.{Result}
use prometheus_multi_tenant.Shared.Time.{Time}
use prometheus_multi_tenant.Api.{MetricAccess, wants_remote_write}
use prometheus_multi_tenant.Config
use prometheus_multi_tenant.Discovery.{Target}
use prometheus_multi_tenant.RemoteWrite.Metric.{Metric}
use prometheus_multi_tenant.RemoteWrite.Job.{
  RemoteWriteJob, Controller, new_controller, stop_all_jobs,
}
use prometheus_multi_tenant.RemoteWrite.SelfHeal.{proceed, evaluate_self_heal}
use prometheus_multi_tenant.RemoteWrite.Reconcile.{create, reconcile_remote_write_jobs}
use prometheus_multi_tenant.RemoteWrite.Collect.Cycle.{Cycle, collect_metrics}

-- The loop of `loadExistingRemoteWriteJobs`.
unfoldable pub load_existing_remote_write_jobs :
    (String → Time) → Controller → List MetricAccess → Option Controller
load_existing_remote_write_jobs clock c [] = some c
load_existing_remote_write_jobs clock c (ma ∷ rest) =
    elim (if wants_remote_write ma then create clock c ma else some c) [
      | none ↦ none
      | some c' ↦ load_existing_remote_write_jobs clock c' rest
    ]

-- `GetActiveJobs` and `GetAllCollectedMetrics`, which return copies of the maps.
abbrev pub get_active_jobs : Controller → Map RemoteWriteJob
get_active_jobs c = c.jobs

abbrev pub get_all_collected_metrics : Controller → Map (List Metric)
get_all_collected_metrics c = c.collected_metrics

module _ (fingerprint : Map String → ℕ) where
  pub data Step : Controller → Controller → Type 0 where
    loads :
        {c c' : Controller} (clock : String → Time) (items : List MetricAccess)
        → load_existing_remote_write_jobs clock c items ≡ some c'
        → Step c c'
    leads : {c : Controller} → Step c (record c { is_leader = true })
    reconciles :
        {c c' : Controller} (clock : String → Time) (listed : Option (List MetricAccess))
        → reconcile_remote_write_jobs clock c listed ≡ some c'
        → Step c c'
    heals :
        {c c' : Controller} (clock : String → Time) (now : Time)
        → evaluate_self_heal clock c now ≡ proceed c'
        → Step c c'
    collects :
        {c : Controller} (key : String) (job : RemoteWriteJob) (targets : List Target)
        (query : MetricAccess → String → String → Result (List Metric))
        (send : String → MetricAccess → List Metric → Option String)
        (wall collected_at clean_at : Time) (cyc : Cycle)
        → lookup key c.jobs ≡ some job
        → collect_metrics fingerprint query send wall collected_at clean_at c job targets ≡ some cyc
        → Step c (record cyc.controller { jobs = insert key cyc.job cyc.controller.jobs })
    -- The cycle that the goroutine of a stopped or replaced job is still finishing, whatever that
    -- job, which the table no longer has: the cycle still stores its metrics.
    finishes :
        {c : Controller} (job : RemoteWriteJob) (targets : List Target)
        (query : MetricAccess → String → String → Result (List Metric))
        (send : String → MetricAccess → List Metric → Option String)
        (wall collected_at clean_at : Time) (cyc : Cycle)
        → collect_metrics fingerprint query send wall collected_at clean_at c job targets ≡ some cyc
        → Step c cyc.controller
    stops : {c : Controller} → Step c (stop_all_jobs c)

  pub data Reachable (config : Config.RemoteWriteConfig) : Controller → Type 0 where
    started : Reachable config (new_controller config)
    next : {c c' : Controller} → Reachable config c → Step c c' → Reachable config c'
