-- ===== src/Proxy/Identity.antt =====
-- The tenant of a request (internal/proxy/handler.go, `extractTenantInfo` and what it calls).
pub mod Laws
use prometheus_multi_tenant.Shared.{
  String, Bool, true, false, not, Option, none, some, List, [], ◌∷◌, ◌++◌, if◌then◌else◌, str_eq,
  is_some, ltb,
}
use prometheus_multi_tenant.Shared.Map.{Map, lookup}
use prometheus_multi_tenant.Shared.Result.{Result, err, ok}
use prometheus_multi_tenant.Shared.Text.{join, is_empty}
use prometheus_multi_tenant.Shared.Time.{Time}
use prometheus_multi_tenant.Config
use prometheus_multi_tenant.Tenant.Pattern.{MetricPattern, regex}
use prometheus_multi_tenant.Tenant.Access.{TenantInfo, Manager, get_tenants_by_namespace}

-- What the handler reads of a request; `headers` has the values of each canonical header name and
-- `query` those of each query parameter.
pub record Request : Type 0 where
  pub method : String
  pub path : String
  pub uri : String
  pub headers : Map (List String)
  pub query : Map (List String)
  pub body : String

abbrev pub first_of : Option (List String) → String
first_of none = ""
first_of (some []) = ""
first_of (some (v ∷ vs)) = v

-- `r.Header.Get(name)` and `r.URL.Query().Get(name)`: the first value, or the empty text.
abbrev pub get_first : String → Map (List String) → String
get_first name values = first_of (lookup name values)

-- The tenant of the bypass; `now` is `time.Now()`.
abbrev pub internal_tenant : Time → TenantInfo
internal_tenant now = record {
  id = "internal-collection";
  name = "Internal Collection Service";
  namespace = "internal-collection";
  metric_patterns = record { pattern = ".*"; matcher = none; type = regex; selector = [] } ∷ [];
  source = "internal";
  label_selectors = [];
  last_updated = now;
}

-- One round of the loop that merges the tenants of a namespace.
unfoldable pub merge : TenantInfo → List TenantInfo → TenantInfo
merge merged [] = merged
merge merged (t ∷ ts) =
    merge
      (record merged {
        metric_patterns = merged.metric_patterns ++ t.metric_patterns;
        last_updated =
            if ltb merged.last_updated t.last_updated then t.last_updated else merged.last_updated;
      })
      ts

-- The combined view before the loop.
abbrev pub fresh_merge : String → TenantInfo → TenantInfo
fresh_merge namespace t = record {
  id = join "merged/" namespace;
  name = join "merged-" namespace;
  namespace = namespace;
  metric_patterns = [];
  source = t.source;
  label_selectors = [];
  last_updated = t.last_updated;
}

pub merged_of : String → List TenantInfo → Result TenantInfo
merged_of namespace [] = err (join "no tenants found for namespace: " namespace)
merged_of namespace (t ∷ []) = ok t
merged_of namespace (t ∷ u ∷ ts) = ok (merge (fresh_merge namespace t) (t ∷ u ∷ ts))

unfoldable pub merged_tenant_for_namespace : Manager → String → Result TenantInfo
unfolding merged_of
merged_tenant_for_namespace m namespace = merged_of namespace (get_tenants_by_namespace m namespace)

unfoldable pub extract_tenant_from_auth : Manager → Request → Result TenantInfo
extract_tenant_from_auth m r =
    let namespace = get_first "X-Tenant-Namespace" r.headers in
    if is_empty (get_first "Authorization" r.headers)
    then err "missing authorization header"
    else (if is_empty namespace
        then err "missing tenant namespace"
        else merged_tenant_for_namespace m namespace)

unfoldable pub extract_tenant_info : Config.Config → Manager → Time → Request → Result TenantInfo
extract_tenant_info config m now r =
    let from_header = get_first "X-Tenant-Namespace" r.headers in
    let from_query = get_first "namespace" r.query in
    if str_eq (get_first "X-Internal-Collection" r.headers) "true"
    then ok (internal_tenant now)
    else (if not (is_empty from_header)
        then merged_tenant_for_namespace m from_header
        else (if is_some config.auth
            then extract_tenant_from_auth m r
            else (if not (is_empty from_query)
                then merged_tenant_for_namespace m from_query
                else err "no tenant information found in request")))
