-- ===== src/Proxy/Server/Laws.antt =====
-- Which requests reach the Prometheus API.
use prometheus_multi_tenant.Shared.{
  String, ◌≡◌, ◌∙◌, ap, Bool, true, false, ◌||◌, ◌&&◌, Option, none, some, List, [], ◌∷◌,
  if◌then◌else◌, str_eq, arith,
}
use prometheus_multi_tenant.Shared.Text.{has_prefix}
use prometheus_multi_tenant.Shared.Time.{Time}
use prometheus_multi_tenant.Proxy.LoadBalancer.{LoadBalancer}
use prometheus_multi_tenant.Proxy.Identity.{Request}
use prometheus_multi_tenant.Proxy.Api.{handle_prometheus_api}
use prometheus_multi_tenant.Proxy.Server.{
  Page, api_page, Pattern, at, below, Route, routes, Router, Handler, by_api, open_page, serve_http,
}

-- The rule of the router: the routes are tested in their order, and the first that fits is taken.
abbrev fits_pattern : Pattern → String → Bool
fits_pattern (at path) p = str_eq path p
fits_pattern (below prefix) p = has_prefix p prefix

abbrev fits_method : Option String → String → Bool
fits_method none m = true
fits_method (some method) m = str_eq method m

unfoldable pub first_fit : List Route → String → String → Option Page
first_fit [] m p = none
first_fit (r ∷ rs) m p =
    if fits_pattern r.pattern p && fits_method r.method m then some r.page else first_fit rs m p

-- The paths with a page of their own.
abbrev pub has_page : String → Bool
has_page p =
    str_eq "/health" p
    || str_eq "/metrics" p
    || str_eq "/debug/targets" p
    || str_eq "/debug/tenants" p
    || str_eq "/collected-metrics" p

routes-api :
    (enable_metrics : Bool) (m p : String)
    → (str_eq "GET" m && has_page p) ≡ false
    → has_prefix p "/" ≡ true
    → first_fit (routes enable_metrics) m p ≡ some api_page
unfolding first_fit routes
routes-api true m p other slash = ground (arith, other, slash)
routes-api false m p other slash = ground (arith, other, slash)

-- Where the router takes the first route that fits, a request that is not a GET of one of the
-- pages is handled by the Prometheus API.
pub other_requests_reach_api :
    (h : Handler) (router : Router) (now : Time) (lb : LoadBalancer) (r : Request)
    → router (routes h.config.proxy.enable_metrics) r.method r.path
      ≡ first_fit (routes h.config.proxy.enable_metrics) r.method r.path
    → (str_eq "GET" r.method && has_page r.path) ≡ false
    → has_prefix r.path "/" ≡ true
    → serve_http h router now lb r
      ≡ by_api h router now lb r
          (handle_prometheus_api h.config h.manager h.backend h.reverse_proxy now lb r)
unfolding serve_http
other_requests_reach_api h router now lb r rule other slash =
    ap (open_page h router now lb r)
      (rule ∙ routes-api h.config.proxy.enable_metrics r.method r.path other slash)
