-- ===== src/Proxy/Server/Examples.antt =====
-- The routes of the proxy at concrete requests.
use prometheus_multi_tenant.Shared.{◌≡◌, refl, true, false, some}
use prometheus_multi_tenant.Shared.Text.{has_prefix}
use prometheus_multi_tenant.Proxy.Server.{health_page, metrics_page, tenants_page, api_page, routes}
use prometheus_multi_tenant.Proxy.Server.Laws.{first_fit}

-- Without the metrics, and for another method than GET, a page's path is one of the API.
routes_run :
    (first_fit (routes true) "GET" "/health" ≡ some health_page)
    × (first_fit (routes true) "GET" "/metrics" ≡ some metrics_page)
    × (first_fit (routes false) "GET" "/metrics" ≡ some api_page)
    × (first_fit (routes true) "GET" "/debug/tenants" ≡ some tenants_page)
    × (first_fit (routes true) "POST" "/debug/tenants" ≡ some api_page)
    × (first_fit (routes true) "GET" "/api/v1/query" ≡ some api_page)
unfolding first_fit routes has_prefix
routes_run = (refl, refl, refl, refl, refl, refl)
