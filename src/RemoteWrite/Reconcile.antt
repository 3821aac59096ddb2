-- ===== src/RemoteWrite/Reconcile.antt =====
-- Reconciliation (internal/remote_write/controller.go, `hasConfigurationChanged` and
-- `reconcileRemoteWriteJobs`). The list of the resources is a parameter, `none` an error of the
-- client; `clock` reads the controller's clock when the job of a key is created.
pub mod Change
pub mod Laws
pub mod Kept
use prometheus_multi_tenant.Shared.{
  String, Bool, true, false, not, ◌&&◌, ◌||◌, Option, none, some, List, [], ◌∷◌, ◌==◌, str_eq,
  if◌then◌else◌, length, all,
}
use prometheus_multi_tenant.Shared.Int.{eqb_ℤ}
use prometheus_multi_tenant.Shared.Map.{Map, lookup, has, keys}
use prometheus_multi_tenant.Shared.Time.{Time}
use prometheus_multi_tenant.Api.{MetricAccess, PrometheusTarget, key_of, wants_remote_write}
use prometheus_multi_tenant.Api
use prometheus_multi_tenant.RemoteWrite.Job.{
  RemoteWriteJob, Controller, Creation, created, unsupported_target, nil_remote_write,
  create_remote_write_job, stop_remote_write_job,
}

abbrev is_value : String → Option String → Bool
is_value v none = false
is_value v (some w) = str_eq v w

abbrev pub agrees : Map String → Map String → Bool
agrees [] new = true
agrees ((k, v) ∷ rest) new = is_value v (lookup k new) && agrees rest new

unfoldable pub compare_extra_labels : Map String → Map String → Bool
compare_extra_labels old new = length old == length new && agrees old new

abbrev pub replicas_changed : Option PrometheusTarget → Option PrometheusTarget → Bool
replicas_changed (some old) (some new) =
    not (eqb_ℤ old.replicas new.replicas)
    || not (str_eq old.stateful_set_name new.stateful_set_name)
replicas_changed _ _ = false

unfoldable pub remote_write_changed :
    Option Api.RemoteWriteConfig → Option Api.RemoteWriteConfig → Bool
remote_write_changed (some old) (some new) =
    not (eqb_ℤ old.interval new.interval)
    || not (str_eq old.target.type new.target.type)
    || not (compare_extra_labels old.extra_labels new.extra_labels)
    || not (length old.metric_relabelings == length new.metric_relabelings)
    || replicas_changed old.prometheus new.prometheus
remote_write_changed _ _ = false

abbrev pub same_bool : Bool → Bool → Bool
same_bool true b = b
same_bool false b = not b

unfoldable pub has_configuration_changed : MetricAccess → MetricAccess → Bool
has_configuration_changed old new =
    not (same_bool old.spec.metric_isolation new.spec.metric_isolation)
    || not (length old.spec.metrics == length new.spec.metrics)
    || not (all (λ m. has m old.spec.metrics) new.spec.metrics)
    || remote_write_changed old.spec.remote_write new.spec.remote_write

-- The keys of `desiredJobs`; the values are never read.
abbrev pub desired_jobs : List MetricAccess → List String
desired_jobs [] = []
desired_jobs (ma ∷ rest) =
    let others = desired_jobs rest in if wants_remote_write ma then key_of ma ∷ others else others

-- An error of the creation is logged.
unfoldable pub after_creation : Controller → Creation → Option Controller
after_creation c (created c') = some c'
after_creation c (unsupported_target t) = some c
after_creation c nil_remote_write = none

module _ (clock : String → Time) where
  abbrev pub create : Controller → MetricAccess → Option Controller
  create c ma = after_creation c (create_remote_write_job c ma (clock (key_of ma)))

  unfoldable pub reconcile_existing :
      Controller → MetricAccess → Option RemoteWriteJob → Option Controller
  reconcile_existing c ma none = create c ma
  reconcile_existing c ma (some job) =
      if has_configuration_changed job.metric_access ma
      then create (stop_remote_write_job c (key_of ma)) ma
      else some c

  unfoldable pub reconcile_item : Controller → MetricAccess → Option Controller
  reconcile_item c ma =
      if wants_remote_write ma then reconcile_existing c ma (lookup (key_of ma) c.jobs) else some c

  unfoldable pub reconcile_items : Controller → List MetricAccess → Option Controller
  unfolding reconcile_item reconcile_existing after_creation
  reconcile_items c [] = some c
  reconcile_items c (ma ∷ rest) = elim (reconcile_item c ma) [
    | none ↦ none
    | some c' ↦ reconcile_items c' rest
  ]

  unfoldable pub stop_undesired : List String → Controller → List String → Controller
  stop_undesired desired c [] = c
  stop_undesired desired c (k ∷ ks) =
      stop_undesired desired (if has k desired then c else stop_remote_write_job c k) ks

  abbrev pub stop_rest : List MetricAccess → Option Controller → Option Controller
  stop_rest items none = none
  stop_rest items (some c) = some (stop_undesired (desired_jobs items) c (keys c.jobs))

  unfoldable pub reconcile_listed : Controller → Option (List MetricAccess) → Option Controller
  unfolding reconcile_items
  reconcile_listed c none = some c
  reconcile_listed c (some items) = stop_rest items (reconcile_items c items)

  -- `none` stands for a panic; an error of the list leaves the jobs as they are.
  unfoldable pub reconcile_remote_write_jobs :
      Controller → Option (List MetricAccess) → Option Controller
  unfolding reconcile_listed stop_undesired
  reconcile_remote_write_jobs c listed = reconcile_listed c listed
