-- ===== src/Tenant/Access.antt =====
-- The manager's table of tenants and its access checks (internal/tenant/manager.go).
pub mod Laws
use prometheus_multi_tenant.Shared.{
  String, Bool, true, false, ◌&&◌, Option, none, some, List, [], ◌∷◌, str_eq, if◌then◌else◌,
}
use prometheus_multi_tenant.Shared.Map.{Map, lookup}
use prometheus_multi_tenant.Shared.Time.{Time}
use prometheus_multi_tenant.Config.{TenantConfig}
use prometheus_multi_tenant.Tenant.Pattern.{MetricPattern, matches_pattern, matches_label_selectors}

pub record TenantInfo : Type 0 where
  pub id : String
  pub name : String
  pub namespace : String
  pub metric_patterns : List MetricPattern
  pub source : String
  pub label_selectors : Map String
  pub last_updated : Time

pub record Manager : Type 0 where
  pub config : TenantConfig
  pub tenants : Map TenantInfo

-- `NewManager`
abbrev pub new_manager : TenantConfig → Manager
new_manager config = record { config = config; tenants = [] }

unfoldable pub get_tenant : Manager → String → Option TenantInfo
get_tenant m id = lookup id m.tenants

tenants_in : String → Map TenantInfo → List TenantInfo
tenants_in namespace [] = []
tenants_in namespace ((key, t) ∷ rest) =
    let others = tenants_in namespace rest in
    if str_eq t.namespace namespace then t ∷ others else others

unfoldable pub get_tenants_by_namespace : Manager → String → List TenantInfo
unfolding tenants_in
get_tenants_by_namespace m namespace = tenants_in namespace m.tenants

-- `GetAllTenants` returns a copy of the map.
unfoldable pub get_all_tenants : Manager → Map TenantInfo
get_all_tenants m = m.tenants

-- The first tenant, in the order of the loop, with the identifier.
pub find_by_id : String → Map TenantInfo → Option TenantInfo
find_by_id id [] = none
find_by_id id ((key, t) ∷ rest) = if str_eq t.id id then some t else find_by_id id rest

-- The loop over the patterns: the first that matches, with labels that pass the selectors.
unfoldable pub grants : Map String → List MetricPattern → String → Map String → Bool
grants selectors [] name labels = false
grants selectors (p ∷ rest) name labels =
    let later = grants selectors rest name labels in
    if matches_pattern p name labels
    then if matches_label_selectors selectors labels then true else later
    else later

pub validate_for : Option TenantInfo → String → Map String → Bool
validate_for none name labels = false
validate_for (some t) name labels = grants t.label_selectors t.metric_patterns name labels

unfoldable pub validate_access : Manager → String → String → Map String → Bool
unfolding find_by_id validate_for
validate_access m id name labels = validate_for (find_by_id id m.tenants) name labels
