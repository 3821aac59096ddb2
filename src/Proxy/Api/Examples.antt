-- ===== src/Proxy/Api/Examples.antt =====
-- The proxy at concrete requests, and the theorems on it.
use prometheus_multi_tenant.Shared.{
  ◌≡◌, ◌↔◌, ◌⊎◌, refl, true, false, none, some, List, [], ◌∷◌, All,
}
use prometheus_multi_tenant.Shared.Map.{lookup, insert}
use prometheus_multi_tenant.Shared.Result.{ok}
use prometheus_multi_tenant.Shared.Text.{contains, has_prefix}
use prometheus_multi_tenant.Config.Fixtures.{file}
use prometheus_multi_tenant.Tenant.Pattern.{matches_pattern, matches_label_selectors, labels_match}
use prometheus_multi_tenant.Tenant.Access.{
  TenantInfo, get_tenants_by_namespace, validate_access, grants,
}
use prometheus_multi_tenant.Proxy.Json.{Json, get, to_list, string_labels}
use prometheus_multi_tenant.Proxy.LoadBalancer.{
  LoadBalancer, picked, get_target, get_healthy_targets,
}
use prometheus_multi_tenant.Proxy.Identity.{
  Request, merge, internal_tenant, merged_tenant_for_namespace, extract_tenant_info,
}
use prometheus_multi_tenant.Proxy.Identity.Laws.{
  is_internal, named_namespace, ServedAs, extract_tenant_info_iff,
}
use prometheus_multi_tenant.Proxy.Aggregate.{
  Backend, may_see, envelope, result_array, success_result, add_header, copy_headers,
  read_response_body, query_target, query_targets, filter_results, aggregate,
  query_all_targets_and_aggregate,
}
use prometheus_multi_tenant.Proxy.Aggregate.Laws.{visible, aggregate_noninterference}
use prometheus_multi_tenant.Proxy.Api.{answered, proxied, Relayed, is_query, handle_prometheus_api}
use prometheus_multi_tenant.Proxy.Api.Relay.{other_paths_unfiltered}
use prometheus_multi_tenant.Discovery.{Target}
use prometheus_multi_tenant.Proxy.Api.Laws.{
  IsBody, AreServed, answered-AreServed, merged_tenant_sees_nothing,
}
use prometheus_multi_tenant.Proxy.Api.Fixtures.{
  web, db, alone, both, alone-IsKeyed, both-IsKeyed, request, query, sample, censored, backend,
  reverse_proxy, balancer,
}

query_runs :
    aggregate backend alone "shop/web" query balancer.targets ≡ some (envelope (sample "up" ∷ []))
unfolding aggregate query_targets query_target read_response_body success_result result_array get
    to_list filter_results may_see string_labels validate_access grants matches_pattern insert
    matches_label_selectors labels_match add_header copy_headers lookup
query_runs = refl

extract_tenant_info_iff_example : (extract_tenant_info file alone 1 query ≡ ok web) ↔ (
    ((is_internal query ≡ true) × (internal_tenant 1 ≡ web))
    ⊎ ((is_internal query ≡ false) × ServedAs alone (named_namespace file query) web))
extract_tenant_info_iff_example = extract_tenant_info_iff file alone 1 query web

query_answered :
    (handle_prometheus_api file alone backend reverse_proxy 1 balancer query).0 ≡ answered "{}"
unfolding handle_prometheus_api extract_tenant_info merged_tenant_for_namespace lookup
    get_tenants_by_namespace query_all_targets_and_aggregate contains has_prefix aggregate
    query_targets query_target read_response_body success_result result_array get add_header
    copy_headers insert filter_results to_list may_see string_labels validate_access grants
    matches_pattern matches_label_selectors labels_match merge
query_answered = refl

answered-AreServed_example :
    (t : TenantInfo) × (items : List Json) × (extract_tenant_info file alone 1 query ≡ ok t)
    × IsBody file alone backend reverse_proxy 1 balancer query "{}" items
    × AreServed alone backend query balancer t items
answered-AreServed_example =
    answered-AreServed file alone backend reverse_proxy 1 balancer query "{}" alone-IsKeyed
      query_answered

abbrev other_backend : Backend
other_backend = record backend { decode = λ body. some censored }

seen_alike :
    All
      (λ t.
        visible alone "shop/web" (query_target backend query t)
        ≡ visible alone "shop/web" (query_target other_backend query t))
      balancer.targets
unfolding query_target read_response_body success_result result_array get to_list may_see
    string_labels validate_access grants matches_pattern insert matches_label_selectors labels_match
    add_header copy_headers lookup
seen_alike = (refl, tt)

aggregate_noninterference_example :
    aggregate backend alone "shop/web" query balancer.targets
    ≡ aggregate other_backend alone "shop/web" query balancer.targets
aggregate_noninterference_example =
    aggregate_noninterference backend other_backend alone "shop/web" query balancer.targets
      seen_alike

merged_answered :
    (handle_prometheus_api file both backend reverse_proxy 1 balancer query).0 ≡ answered "null"
unfolding handle_prometheus_api extract_tenant_info merged_tenant_for_namespace lookup
    get_tenants_by_namespace query_all_targets_and_aggregate contains has_prefix aggregate
    query_targets query_target read_response_body success_result result_array get add_header
    copy_headers insert filter_results to_list may_see string_labels validate_access grants
    matches_pattern matches_label_selectors labels_match merge
merged_answered = refl

two_tenants : get_tenants_by_namespace both "shop" ≡ web ∷ db ∷ []
unfolding get_tenants_by_namespace
two_tenants = refl

merged_tenant_sees_nothing_example :
    IsBody file both backend reverse_proxy 1 balancer query "null" []
unfolding lookup
merged_tenant_sees_nothing_example =
    merged_tenant_sees_nothing file both backend reverse_proxy 1 balancer query "shop" "null" web db
      [] both-IsKeyed two_tenants refl refl refl merged_answered

abbrev series : Request
series = request "/api/v1/series"

abbrev page : Relayed
page = record { status = 200; headers = []; body = "{}" }

abbrev backend_target : Target
backend_target = record { url = "http://a"; labels = []; healthy = true; last_seen = 1 }

abbrev stepped : LoadBalancer
stepped = record balancer { counter = 1 }

other_paths_unfiltered_example :
    (handle_prometheus_api file alone backend reverse_proxy 1 balancer series
      ≡ (proxied backend_target page, stepped))
    ↔ ((is_query series.path ≡ false)
        × ((t : TenantInfo) × (extract_tenant_info file alone 1 series ≡ ok t))
        × (get_target balancer ≡ picked backend_target stepped)
        × (reverse_proxy.parse_error backend_target.url ≡ none)
        × (page ≡ reverse_proxy.relay backend_target.url series))
other_paths_unfiltered_example =
    other_paths_unfiltered reverse_proxy balancer series backend_target page stepped file alone
      backend 1

-- The right-hand side at this request.
series_relayed :
    (is_query series.path ≡ false)
    × ((t : TenantInfo) × (extract_tenant_info file alone 1 series ≡ ok t))
    × (get_target balancer ≡ picked backend_target stepped)
unfolding contains has_prefix extract_tenant_info merged_tenant_for_namespace lookup
    get_tenants_by_namespace get_target get_healthy_targets
series_relayed = (refl, (web, refl), refl)
