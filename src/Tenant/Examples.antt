-- ===== src/Tenant/Examples.antt =====
-- The theorems on tenants at concrete resources.
use prometheus_multi_tenant.Shared.{
  String, ◌≡◌, ◌↔◌, refl, Bool, true, false, Option, none, some, List, [], ◌∷◌, arith, str_eq,
  eq_iff, Bool-cases, inl, inr, All, Any, some_inj, subst,
}
use prometheus_multi_tenant.Shared.Map.{Map, lookup, NoDup}
use prometheus_multi_tenant.Shared.Text.{contains_any}
use prometheus_multi_tenant.Api.{MetricAccess, key_of}
use prometheus_multi_tenant.Tenant.Pattern.{
  exact, is_metacharacter, matches_pattern, matches_label_selectors,
}
use prometheus_multi_tenant.Tenant.Access.{TenantInfo, Manager, validate_access}
use prometheus_multi_tenant.Tenant.Access.Laws.{IsKeyed, validate_access_iff}
use prometheus_multi_tenant.Tenant.Load.{
  convert_to_tenant_info, load_existing_tenants, get_watch_namespaces,
}
use prometheus_multi_tenant.Tenant.Load.Laws.{
  load-IsKeyed, deleted_tenant_keeps_access, load_installs,
}

abbrev selectors : Map String
selectors = ("namespace", "shop") ∷ ("pod", "web") ∷ []

selectors_distinct : NoDup selectors
unfolding lookup
selectors_distinct = (refl, (refl, tt))

abbrev labels : Map String
labels = ("pod", "web") ∷ ("namespace", "shop") ∷ []

abbrev compile : String → Option (String → Bool)
compile s = none

abbrev metric : String
metric = "up"

plain : contains_any is_metacharacter metric ≡ false
unfolding contains_any
plain = refl

abbrev tenant : TenantInfo
tenant = record {
  id = "shop/web";
  name = "web";
  namespace = "shop";
  metric_patterns = record { pattern = "up"; matcher = none; type = exact; selector = [] } ∷ [];
  source = "";
  label_selectors = selectors;
  last_updated = 1;
}

abbrev manager : Manager
manager = record {
  config = record { watch_all_namespaces = true; watch_namespaces = [] };
  tenants = ("shop/web", tenant) ∷ [];
}

manager-IsKeyed : IsKeyed manager.tenants
unfolding lookup
manager-IsKeyed = record {
  unique = (refl, tt);
  keyed = λ key t e. elim (Bool-cases (str_eq "shop/web" key)) [
    | inl same ↦
        let here : some tenant ≡ some t = ground (arith, same, e) in
        subst (λ (x : TenantInfo). x.id ≡ key) (some_inj here) ((eq_iff "shop/web" key).0 same)
    | inr other ↦ ground (arith, other, e)
  ];
}

validate_access_iff_example : (validate_access manager "shop/web" "up" labels ≡ true) ↔ (
    (t : TenantInfo) × (lookup "shop/web" manager.tenants ≡ some t)
    × Any (λ p. matches_pattern p "up" labels ≡ true) t.metric_patterns
    × (matches_label_selectors t.label_selectors labels ≡ true))
validate_access_iff_example = validate_access_iff manager "shop/web" "up" labels manager-IsKeyed

abbrev lists_nothing : String → Option (List MetricAccess)
lists_nothing namespace = some []

load-IsKeyed_example : IsKeyed (load_existing_tenants compile 5 lists_nothing manager).tenants
load-IsKeyed_example = load-IsKeyed compile 5 lists_nothing manager manager-IsKeyed

deleted_tenant_keeps_access_example :
    validate_access (load_existing_tenants compile 5 lists_nothing manager) "shop/web" "up" labels
    ≡ validate_access manager "shop/web" "up" labels
unfolding get_watch_namespaces
deleted_tenant_keeps_access_example =
    deleted_tenant_keeps_access compile 5 lists_nothing manager "shop/web" "up" labels
      manager-IsKeyed (tt, tt)

abbrev resource : MetricAccess
resource = record {
  namespace = "shop";
  name = "api";
  spec = record {
    metrics = "up" ∷ [];
    source = "";
    label_selectors = [];
    metric_isolation = false;
    remote_write = none;
  };
  status = record { remote_write = none };
}

abbrev lists_one : String → Option (List MetricAccess)
lists_one namespace = some (resource ∷ [])

load_installs_example :
    All
      (λ ma.
        lookup (key_of ma) (load_existing_tenants compile 5 lists_one manager).tenants
        ≡ some (convert_to_tenant_info compile 5 ma))
      (resource ∷ [])
load_installs_example =
    load_installs compile 5 lists_one manager (resource ∷ []) refl refl (refl, tt)
