-- ===== src/Tenant/Load.antt =====
-- The load of the MetricAccess resources (internal/tenant/manager.go, `loadExistingTenants` and the
-- functions that it calls). The Kubernetes client is a parameter: `list namespace` is the result of
-- its `List`, `none` an error; "" stands for all namespaces.
pub mod Laws
use prometheus_multi_tenant.Shared.{String, Bool, Option, none, some, List, [], ◌∷◌, if◌then◌else◌}
use prometheus_multi_tenant.Shared.Map.{Map, insert}
use prometheus_multi_tenant.Shared.Time.{Time}
use prometheus_multi_tenant.Api.{MetricAccess, key_of}
use prometheus_multi_tenant.Config.{TenantConfig}
use prometheus_multi_tenant.Tenant.Pattern.{parse_metric_patterns}
use prometheus_multi_tenant.Tenant.Access.{TenantInfo, Manager}

abbrev or_all : List String → List String
or_all [] = "" ∷ []
or_all (n ∷ ns) = n ∷ ns

unfoldable pub get_watch_namespaces : TenantConfig → List String
get_watch_namespaces c = if c.watch_all_namespaces then "" ∷ [] else or_all c.watch_namespaces

module _ (compile : String → Option (String → Bool)) (now : Time) where
  -- `parseMetricPatterns` skips the patterns with errors, so there is no error.
  unfoldable pub convert_to_tenant_info : MetricAccess → TenantInfo
  convert_to_tenant_info ma = record {
    id = key_of ma;
    name = ma.name;
    namespace = ma.namespace;
    metric_patterns = parse_metric_patterns compile ma.spec.metrics;
    source = ma.spec.source;
    label_selectors = ma.spec.label_selectors;
    last_updated = now;
  }

  unfoldable pub process_tenant_update : Manager → MetricAccess → Manager
  process_tenant_update m ma = record m {
    tenants = insert (key_of ma) (convert_to_tenant_info ma) m.tenants;
  }

  unfoldable pub process_all : Manager → List MetricAccess → Manager
  process_all m [] = m
  process_all m (ma ∷ rest) = process_all (process_tenant_update m ma) rest

  -- A namespace whose list fails is skipped.
  pub process_list : Manager → Option (List MetricAccess) → Manager
  process_list m none = m
  process_list m (some items) = process_all m items

  module _ (list : String → Option (List MetricAccess)) where
    unfoldable pub load_namespaces : Manager → List String → Manager
    load_namespaces m [] = m
    load_namespaces m (n ∷ ns) = load_namespaces (process_list m (list n)) ns

    unfoldable pub load_existing_tenants : Manager → Manager
    load_existing_tenants m = load_namespaces m (get_watch_namespaces m.config)
