-- ===== src/Proxy/Api.antt =====
-- The Prometheus API of the proxy (internal/proxy/handler.go, `handlePrometheusAPI`).
pub mod Grants
pub mod Laws
pub mod Relay
mod Fixtures
mod Examples
use prometheus_multi_tenant.Shared.{
  ℕ, String, Bool, true, false, ◌||◌, Option, none, some, List, [], ◌∷◌, if◌then◌else◌,
}
use prometheus_multi_tenant.Shared.Map.{Map}
use prometheus_multi_tenant.Shared.Result.{Result, err, ok}
use prometheus_multi_tenant.Shared.Text.{join, contains}
use prometheus_multi_tenant.Shared.Time.{Time}
use prometheus_multi_tenant.Config
use prometheus_multi_tenant.Discovery.{Target}
use prometheus_multi_tenant.Tenant.Access.{TenantInfo, Manager}
use prometheus_multi_tenant.Proxy.LoadBalancer.{
  LoadBalancer, Pick, picked, no_target, index_panic, get_target, get_all_targets,
}
use prometheus_multi_tenant.Proxy.Identity.{Request, extract_tenant_info}
use prometheus_multi_tenant.Proxy.Aggregate.{Backend, query_all_targets_and_aggregate}

-- The reply that a reverse proxy gives to the client.
pub record Relayed : Type 0 where
  pub status : ℕ
  pub headers : Map (List String)
  pub body : String

-- The packages net/url and httputil: the error of `url.Parse`, and the reply of the reverse proxy
-- for the target at a URL to a request, which it gets as it came.
pub record ReverseProxy : Type 0 where
  pub parse_error : String → Option String
  pub relay : String → Request → Relayed

-- What the handler answers: an error reply of `writeError` with its status, a reply with an
-- aggregated body, or what the reverse proxy of a target replies; the load balancer panics where
-- its counter has gone negative.
pub data Answer : Type 0 where
  refused : ℕ → String → Answer
  answered : String → Answer
  proxied : Target → Relayed → Answer
  panicked : Answer

abbrev pub unauthorized : ℕ
unauthorized = 401

abbrev pub internal_server_error : ℕ
internal_server_error = 500

abbrev pub service_unavailable : ℕ
service_unavailable = 503

abbrev pub is_query : String → Bool
is_query path = contains path "/api/v1/query" || contains path "/api/v1/query_range"

abbrev pub no_response : String
no_response = "No successful responses from any target"

-- The answer with the load balancer after it, whose counter only `GetTarget` moves.
abbrev pub Handled : Type 0
Handled = Answer × LoadBalancer

abbrev pub or_no_response : LoadBalancer → Option String → Handled
or_no_response lb none = (refused service_unavailable no_response, lb)
or_no_response lb (some body) = (answered body, lb)

-- With the error of parsing the target's URL.
abbrev pub forward_to : ReverseProxy → Request → Target → Option String → Answer
forward_to p r target none = proxied target (p.relay target.url r)
forward_to p r target (some e) =
    refused internal_server_error (join "Failed to parse target URL: " e)

abbrev pub forward : ReverseProxy → LoadBalancer → Request → Pick → Handled
forward p lb r (picked target after) = (forward_to p r target (p.parse_error target.url), after)
forward p lb r no_target =
    (refused service_unavailable "Failed to get target: no healthy targets available", lb)
forward p lb r index_panic = (panicked, lb)

module _ (config : Config.Config) (m : Manager) (b : Backend) (p : ReverseProxy) where
  -- With the tenant at hand; an empty list of targets is refused first.
  pub serve : LoadBalancer → Request → TenantInfo → List Target → Handled
  serve lb r t [] = (refused service_unavailable "No backends available", lb)
  serve lb r t (target ∷ targets) =
      if is_query r.path
      then or_no_response lb (query_all_targets_and_aggregate b m t.id r (target ∷ targets))
      else forward p lb r (get_target lb)

  pub serve_tenant : LoadBalancer → Request → Result TenantInfo → Handled
  unfolding serve
  serve_tenant lb r (err e) = (refused unauthorized (join "Authentication failed: " e), lb)
  serve_tenant lb r (ok t) = serve lb r t (get_all_targets lb)

  unfoldable pub handle_prometheus_api : Time → LoadBalancer → Request → Handled
  unfolding serve_tenant
  handle_prometheus_api now lb r = serve_tenant lb r (extract_tenant_info config m now r)
