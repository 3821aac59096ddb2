-- ===== src/Proxy/Server.antt =====
-- The routes of the proxy (internal/proxy/handler.go, `ServeHTTP`). The router of gorilla/mux and
-- the handler of the metrics registry are not this repository's code: the router is a parameter, and
-- a request that is handed over to the registry is a reply of its own.
pub mod Laws
mod Examples
use prometheus_multi_tenant.Shared.{
  String, Bool, Option, none, some, List, [], ◌∷◌, ◌++◌, if◌then◌else◌,
}
use prometheus_multi_tenant.Shared.Map.{Map}
use prometheus_multi_tenant.Shared.Result.{Result}
use prometheus_multi_tenant.Shared.Time.{Time}
use prometheus_multi_tenant.Config
use prometheus_multi_tenant.Discovery.{Target}
use prometheus_multi_tenant.Tenant.Access.{Manager}
use prometheus_multi_tenant.RemoteWrite.Metric.{Metric}
use prometheus_multi_tenant.RemoteWrite.Query.{PrometheusResponse}
use prometheus_multi_tenant.Proxy.LoadBalancer.{LoadBalancer}
use prometheus_multi_tenant.Proxy.Identity.{Request, get_first}
use prometheus_multi_tenant.Proxy.Aggregate.{Backend}
use prometheus_multi_tenant.Proxy.Api.{
  Answer, panicked, Handled, ReverseProxy, handle_prometheus_api,
}
use prometheus_multi_tenant.Proxy.Pages.{
  Format, handle_health, handle_debug_targets, handle_debug_tenants,
}
use prometheus_multi_tenant.Proxy.Direct.{Fetched, handle_collected_metrics}

pub data Page : Type 0 where
  health_page : Page
  metrics_page : Page
  targets_page : Page
  tenants_page : Page
  collected_page : Page
  api_page : Page

-- `Handle(path)` and `PathPrefix(prefix)`.
pub data Pattern : Type 0 where
  at : String → Pattern
  below : String → Pattern

-- A route, for one method alone or for all.
pub record Route : Type 0 where
  pub pattern : Pattern
  pub method : Option String
  pub page : Page

abbrev pub get_only : String → Page → Route
get_only path page = record { pattern = at path; method = some "GET"; page = page }

abbrev pub all_below : String → Page → Route
all_below prefix page = record { pattern = below prefix; method = none; page = page }

unfoldable pub routes : Bool → List Route
routes enable_metrics =
    get_only "/health" health_page
    ∷ ((if enable_metrics then get_only "/metrics" metrics_page ∷ [] else [])
        ++ (get_only "/debug/targets" targets_page
            ∷ get_only "/debug/tenants" tenants_page
            ∷ get_only "/collected-metrics" collected_page
            ∷ all_below "/api/v1/" api_page
            ∷ all_below "/" api_page
            ∷ []))

-- The page that the router finds for a method and a path; `none` where it answers by itself.
abbrev pub Router : Type 0
Router = List Route → String → String → Option Page

pub data Reply : Type 0 where
  shown : List String → Reply
  from_registry : Reply
  from_api : Answer → Reply
  from_router : Reply

-- A request that `requests_total` counts.
pub record Count : Type 0 where
  pub method : String
  pub path : String
  pub status : String

pub record Served : Type 0 where
  pub reply : Reply
  pub balancer : LoadBalancer
  pub counted : List Count

-- The services of the handler: the discovery's targets, the tenants, the controller's metrics, and
-- what it calls outside.
pub record Handler : Type 0 where
  pub config : Config.Config
  pub targets : List Target
  pub manager : Manager
  pub collected : Option (Map (List Metric))
  pub backend : Backend
  pub reverse_proxy : ReverseProxy
  pub format : Format
  pub escape : String → String
  pub fetch : String → Fetched
  pub decode : String → Result PrometheusResponse

module _ (h : Handler) (router : Router) (now : Time) (lb : LoadBalancer) (r : Request) where
  -- The metrics of the proxy, once the request has returned.
  abbrev counted_if : Bool → List Count
  counted_if enable_metrics =
      if enable_metrics
      then record { method = r.method; path = r.path; status = "200" } ∷ []
      else []

  unfoldable pub count : List Count
  count = counted_if h.config.proxy.enable_metrics

  abbrev show : List String → Served
  show lines = record { reply = shown lines; balancer = lb; counted = count }

  -- A panic leaves `ServeHTTP` before the request is counted.
  abbrev pub by_api : Handled → Served
  by_api (panicked, after) = record { reply = from_api panicked; balancer = after; counted = [] }
  by_api (answer, after) = record { reply = from_api answer; balancer = after; counted = count }

  abbrev pub open_page : Option Page → Served
  open_page none = record { reply = from_router; balancer = lb; counted = count }
  open_page (some health_page) = show (handle_health h.targets h.manager ∷ [])
  open_page (some metrics_page) = record { reply = from_registry; balancer = lb; counted = count }
  open_page (some targets_page) = show (handle_debug_targets h.format h.targets ∷ [])
  open_page (some tenants_page) = show (handle_debug_tenants h.format h.manager ∷ [])
  open_page (some collected_page) = show (
      handle_collected_metrics h.format h.escape h.fetch h.decode (get_first "metric" r.query)
        h.targets h.collected)
  open_page (some api_page) =
      by_api (handle_prometheus_api h.config h.manager h.backend h.reverse_proxy now lb r)

  unfoldable pub serve_http : Served
  serve_http = open_page (router (routes h.config.proxy.enable_metrics) r.method r.path)
