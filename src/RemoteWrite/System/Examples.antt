-- ===== src/RemoteWrite/System/Examples.antt =====
-- The theorems on reconciliation and on the reachable controllers at concrete resources.
use prometheus_multi_tenant.Shared.{String, ◌≡◌, refl, true, none, some, [], ◌∷◌, if◌then◌else◌}
use prometheus_multi_tenant.Shared.Map.{lookup, has, insert}
use prometheus_multi_tenant.Shared.Text.{namespaced}
use prometheus_multi_tenant.Shared.Time.{Time}
use prometheus_multi_tenant.Api.{MetricAccess}
use prometheus_multi_tenant.RemoteWrite.Fixtures.{
  one, sample, fingerprint, controller, config, resource, job,
}
use prometheus_multi_tenant.RemoteWrite.Job.{
  fresh_job, create_remote_write_job, create_for, new_controller, Controller,
}
use prometheus_multi_tenant.RemoteWrite.Reconcile.{
  after_creation, has_configuration_changed, reconcile_remote_write_jobs, desired_jobs,
  reconcile_listed, reconcile_items, reconcile_item, reconcile_existing, stop_undesired,
  remote_write_changed, compare_extra_labels,
}
use prometheus_multi_tenant.RemoteWrite.Reconcile.Kept.{KeptOrRenewed, job-KeptOrRenewed}
use prometheus_multi_tenant.RemoteWrite.Reconcile.Laws.{settled_by, reconcile_settles}
use prometheus_multi_tenant.RemoteWrite.SelfHeal.Spec.{IsWellFormed}
use prometheus_multi_tenant.RemoteWrite.System.{
  get_active_jobs, get_all_collected_metrics, loads, load_existing_remote_write_jobs, leads,
  started, next,
}
use prometheus_multi_tenant.RemoteWrite.System.Laws.{Reachable-IsWellFormed}
use prometheus_multi_tenant.RemoteWrite.System.Leftover.{leftover_metrics}

abbrev clock : String → Time
clock key = 9

reconcile_settles_example :
    (c : Controller) × (reconcile_remote_write_jobs clock controller (some (resource ∷ []))
      ≡ some c)
    × ((key : String)
        → lookup key c.jobs ≡ (
            if has key (desired_jobs (resource ∷ []))
            then settled_by clock key (resource ∷ []) (lookup key controller.jobs)
            else none))
reconcile_settles_example = reconcile_settles clock controller (resource ∷ [])

-- The resource with label selectors that its job has not seen.
abbrev selective : MetricAccess
selective = record resource { spec = record resource.spec { label_selectors = ("pod", "b") ∷ [] } }

job-KeptOrRenewed_example :
    (c : Controller) × (reconcile_remote_write_jobs clock controller (some (selective ∷ []))
      ≡ some c)
    × KeptOrRenewed clock selective job (lookup "shop/web" c.jobs)
unfolding lookup namespaced
job-KeptOrRenewed_example =
    job-KeptOrRenewed clock controller [] [] selective job refl tt tt refl (refl, tt) (refl, tt)

-- Its job is kept, with the selectors of before.
selectors_overlooked :
    reconcile_remote_write_jobs clock controller (some (selective ∷ [])) ≡ some controller
unfolding reconcile_remote_write_jobs reconcile_listed reconcile_items reconcile_item
    reconcile_existing stop_undesired lookup namespaced has_configuration_changed
    remote_write_changed compare_extra_labels
selectors_overlooked = refl

abbrev leader : Controller
leader = record (new_controller config) { is_leader = true }

abbrev loaded : Controller
loaded = record leader { jobs = ("shop/web", fresh_job resource 9) ∷ [] }

loads_one : load_existing_remote_write_jobs clock leader (resource ∷ []) ≡ some loaded
unfolding load_existing_remote_write_jobs create_remote_write_job create_for after_creation
    new_controller insert namespaced
loads_one = refl

Reachable-IsWellFormed_example : IsWellFormed loaded
Reachable-IsWellFormed_example =
    Reachable-IsWellFormed fingerprint config loaded
      (next (next started leads) (loads clock (resource ∷ []) loads_one))

-- A job with the metrics of its last cycle.
abbrev collected : Controller
collected = record loaded { collected_metrics = ("shop/web", sample one ∷ []) ∷ [] }

leftover_metrics_example :
    (c' : Controller) × (reconcile_remote_write_jobs clock collected (some []) ≡ some c')
    × ((key : String) → lookup key (get_active_jobs c') ≡ none)
    × (get_all_collected_metrics c' ≡ get_all_collected_metrics collected)
leftover_metrics_example = leftover_metrics clock collected
