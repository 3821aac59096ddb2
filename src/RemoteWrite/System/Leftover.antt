-- ===== src/RemoteWrite/System/Leftover.antt =====
-- What the readers of the controller see after a resource is gone.
use prometheus_multi_tenant.Shared.{
  String, ◌≡◌, refl, sym, ap, ◌∙◌, none, some, List, [], ◌∷◌, Bool-cases, inl, inr, some_inj,
}
use prometheus_multi_tenant.Shared.Map.{lookup, has, keys}
use prometheus_multi_tenant.Shared.Time.{Time}
use prometheus_multi_tenant.RemoteWrite.Job.{Controller, stop_remote_write_job}
use prometheus_multi_tenant.RemoteWrite.Reconcile.{
  stop_undesired, reconcile_items, reconcile_listed, reconcile_remote_write_jobs,
}
use prometheus_multi_tenant.RemoteWrite.Reconcile.Laws.{reconcile_settles}
use prometheus_multi_tenant.RemoteWrite.System.{get_active_jobs, get_all_collected_metrics}

module _ (clock : String → Time) where
  stop_undesired-metrics :
      (desired : List String) (c : Controller) (ks : List String)
      → (stop_undesired clock desired c ks).collected_metrics ≡ c.collected_metrics
  unfolding stop_undesired stop_remote_write_job
  stop_undesired-metrics desired c [] = refl
  stop_undesired-metrics desired c (k ∷ ks) = elim (Bool-cases (has k desired)) [
    | inl wanted ↦ rw (stop_undesired, wanted) (stop_undesired-metrics desired c ks)
    | inr unwanted ↦
        rw (stop_undesired, unwanted)
          (stop_undesired-metrics desired (stop_remote_write_job c k) ks)
  ]

  emptied :
      (c c' : Controller)
      → reconcile_remote_write_jobs clock c (some []) ≡ some c'
      → c'.collected_metrics ≡ c.collected_metrics
  unfolding reconcile_remote_write_jobs reconcile_listed reconcile_items
  emptied c c' h =
      ap (λ x. x.collected_metrics) (sym (some_inj h)) ∙ stop_undesired-metrics [] c (keys c.jobs)

  -- Once all resources are gone, a reconciliation leaves no active job, yet the metrics
  -- collected for the former tenants all stay where the proxy reads them.
  pub leftover_metrics :
      (c : Controller)
      → (c' : Controller) × (reconcile_remote_write_jobs clock c (some []) ≡ some c')
        × ((key : String) → lookup key (get_active_jobs c') ≡ none)
        × (get_all_collected_metrics c' ≡ get_all_collected_metrics c)
  leftover_metrics c =
      let (c', e, jobs) = reconcile_settles clock c [] in (c', e, jobs, emptied c c' e)
