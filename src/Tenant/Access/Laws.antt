-- ===== src/Tenant/Access/Laws.antt =====
-- What `ValidateAccess` grants.
use prometheus_multi_tenant.Shared.{
  String, ◌≡◌, ◌↔◌, refl, sym, ap, subst, true, Option, none, some, List, [], ◌∷◌, arith, str_eq,
  eq_iff, eq_refl, Bool-cases, inl, inr, Any, some_inj,
}
use prometheus_multi_tenant.Shared.Map.{Map, lookup, NoDup}
use prometheus_multi_tenant.Tenant.Pattern.{MetricPattern, matches_pattern, matches_label_selectors}
use prometheus_multi_tenant.Tenant.Access.{
  TenantInfo, Manager, find_by_id, grants, validate_for, validate_access,
}

-- The manager's table: a map in which each tenant stands under its identifier.
pub record IsKeyed (tenants : Map TenantInfo) : Type 0 where
  pub unique : NoDup tenants
  pub keyed : (key : String) (t : TenantInfo) → lookup key tenants ≡ some t → t.id ≡ key

grants_iff :
    (selectors : Map String) (ps : List MetricPattern) (name : String) (labels : Map String)
    → (grants selectors ps name labels ≡ true) ↔ (
        Any (λ p. matches_pattern p name labels ≡ true) ps
        × (matches_label_selectors selectors labels ≡ true))
unfolding grants
grants_iff selectors [] name labels = ground arith
grants_iff selectors (p ∷ ps) name labels = ground (arith, grants_iff selectors ps name labels)

IsKeyed-tail :
    (k : String) (t : TenantInfo) (rest : Map TenantInfo) → IsKeyed ((k, t) ∷ rest) → IsKeyed rest
unfolding lookup
IsKeyed-tail k t rest h = record {
  unique = h.unique.1;
  keyed = λ key u e. elim (Bool-cases (str_eq k key)) [
    | inl q ↦ cc (h.unique.0, e, ap (λ i. lookup i rest) ((eq_iff k key).0 q))
    | inr q ↦ h.keyed key u (ground (arith, q, e))
  ];
}

pub find_by_id-lookup :
    (id : String) (tenants : Map TenantInfo)
    → IsKeyed tenants
    → find_by_id id tenants ≡ lookup id tenants
unfolding find_by_id lookup
find_by_id-lookup id [] h = refl
find_by_id-lookup id ((k, t) ∷ rest) h =
    ground
      (arith, find_by_id-lookup id rest (IsKeyed-tail k t rest h), h.keyed k t (rw (eq_refl k)))

validate_for_iff :
    (o : Option TenantInfo) (name : String) (labels : Map String)
    → (validate_for o name labels ≡ true) ↔ (
        (t : TenantInfo) × (o ≡ some t)
        × Any (λ p. matches_pattern p name labels ≡ true) t.metric_patterns
        × (matches_label_selectors t.label_selectors labels ≡ true))
unfolding validate_for
validate_for_iff none name labels = ((λ h. cc), (λ (t, e, _, _). cc))
validate_for_iff (some t) name labels =
    let granted = grants_iff t.label_selectors t.metric_patterns name labels in
    (
      (λ h. let (a, b) = granted.0 h in (t, refl, a, b)),
      (λ (u, e, a, b).
          subst (λ x. validate_for (some x) name labels ≡ true) (some_inj (sym e))
            ((grants_iff u.label_selectors u.metric_patterns name labels).1 (a, b))),
    )

-- In a table keyed by the identifiers of its tenants, a metric is granted exactly when the tenant
-- exists, one of its patterns matches the metric, and the labels pass its selectors.
pub validate_access_iff :
    (m : Manager) (id name : String) (labels : Map String)
    → IsKeyed m.tenants
    → (validate_access m id name labels ≡ true) ↔ (
        (t : TenantInfo) × (lookup id m.tenants ≡ some t)
        × Any (λ p. matches_pattern p name labels ≡ true) t.metric_patterns
        × (matches_label_selectors t.label_selectors labels ≡ true))
unfolding validate_access
validate_access_iff m id name labels h =
    rw (find_by_id-lookup id m.tenants h) (validate_for_iff (lookup id m.tenants) name labels)
