-- ===== src/Proxy/Api/Grants.antt =====
-- Which items of a result the filter of the proxy keeps (internal/proxy/handler.go).
use prometheus_multi_tenant.Shared.{
  String, ◌≡◌, ◌↔◌, refl, sym, subst, true, Option, none, some, [], arith, Any, some_inj,
}
use prometheus_multi_tenant.Shared.Map.{lookup}
use prometheus_multi_tenant.Tenant.Pattern.{matches_pattern, matches_label_selectors}
use prometheus_multi_tenant.Tenant.Access.{TenantInfo, Manager}
use prometheus_multi_tenant.Tenant.Access.Laws.{IsKeyed, validate_access_iff}
use prometheus_multi_tenant.Proxy.Json.{Json, Fields, string_labels, as_object}
use prometheus_multi_tenant.Proxy.Aggregate.{metric_name, metric_of, may_see_metric, may_see}

-- A metric is granted to the identifier: there is such a tenant, one of its patterns matches the
-- metric, and the labels pass its selectors.
abbrev pub GrantsMetric : Manager → String → Fields → Type 0
GrantsMetric m id metric =
    let labels = string_labels [] metric in
    (t : TenantInfo) × (lookup id m.tenants ≡ some t)
    × Any (λ p. matches_pattern p (metric_name metric) labels ≡ true) t.metric_patterns
    × (matches_label_selectors t.label_selectors labels ≡ true)

-- An item has a metric, and it is granted.
abbrev pub Grants : Manager → String → Json → Type 0
Grants m id x =
    (metric : Fields) × (metric_of (as_object (some x)) ≡ some metric) × GrantsMetric m id metric

may_see_metric_iff :
    (m : Manager) (id : String) (o : Option Fields)
    → IsKeyed m.tenants
    → (may_see_metric m id o ≡ true)
      ↔ ((metric : Fields) × (o ≡ some metric) × GrantsMetric m id metric)
may_see_metric_iff m id none h = ((λ e. ground (arith, e)), (λ (f, e, _). ground (arith, e)))
may_see_metric_iff m id (some metric) h =
    let granted = validate_access_iff m id (metric_name metric) (string_labels [] metric) h in
    (
      (λ e. (metric, refl, granted.0 e)),
      (λ (f, e, g). granted.1 (subst (GrantsMetric m id) (sym (some_inj e)) g)),
    )

pub may_see_iff :
    (m : Manager) (id : String) (x : Json)
    → IsKeyed m.tenants
    → (may_see m id x ≡ true) ↔ Grants m id x
unfolding may_see
may_see_iff m id x h = may_see_metric_iff m id (metric_of (as_object (some x))) h
