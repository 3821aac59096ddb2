-- ===== src/Proxy/Api/Fixtures.antt =====
-- A proxy with one tenant and one with two, for the runs at concrete requests.
use prometheus_multi_tenant.Shared.{
  String, ◌≡◌, refl, subst, true, Option, none, some, [], ◌∷◌, str_eq, arith, eq_iff, Bool-cases,
  inl, inr, some_inj,
}
use prometheus_multi_tenant.Shared.Map.{lookup}
use prometheus_multi_tenant.Config.Fixtures.{file}
use prometheus_multi_tenant.Tenant.Pattern.{exact}
use prometheus_multi_tenant.Tenant.Access.{TenantInfo, Manager}
use prometheus_multi_tenant.Tenant.Access.Laws.{IsKeyed}
use prometheus_multi_tenant.Proxy.Json.{
  Json, null, text, array, object, item, end, Fields, field, end_of,
}
use prometheus_multi_tenant.Proxy.LoadBalancer.{LoadBalancer}
use prometheus_multi_tenant.Proxy.Identity.{Request}
use prometheus_multi_tenant.Proxy.Aggregate.{Backend}
use prometheus_multi_tenant.Proxy.Api.{ReverseProxy}

-- A resource that grants one metric.
abbrev pub tenant : String → String → String → TenantInfo
tenant id name metric = record {
  id = id;
  name = name;
  namespace = "shop";
  metric_patterns = record { pattern = metric; matcher = none; type = exact; selector = [] } ∷ [];
  source = "";
  label_selectors = [];
  last_updated = 1;
}

abbrev pub web : TenantInfo
web = tenant "shop/web" "web" "up"

abbrev pub db : TenantInfo
db = tenant "shop/db" "db" "down"

abbrev pub alone : Manager
alone = record { config = file.tenants; tenants = ("shop/web", web) ∷ [] }

abbrev pub both : Manager
both = record { config = file.tenants; tenants = ("shop/web", web) ∷ ("shop/db", db) ∷ [] }

pub alone-IsKeyed : IsKeyed alone.tenants
unfolding lookup
alone-IsKeyed = record {
  unique = (refl, tt);
  keyed = λ key t e. elim (Bool-cases (str_eq "shop/web" key)) [
    | inl same ↦
        let here : some web ≡ some t = ground (arith, same, e) in
        subst (λ (x : TenantInfo). x.id ≡ key) (some_inj here) ((eq_iff "shop/web" key).0 same)
    | inr other ↦ ground (arith, other, e)
  ];
}

pub both-IsKeyed : IsKeyed both.tenants
unfolding lookup
both-IsKeyed = record {
  unique = (refl, (refl, tt));
  keyed = λ key t e. elim (Bool-cases (str_eq "shop/web" key)) [
    | inl same ↦
        let here : some web ≡ some t = ground (arith, same, e) in
        subst (λ (x : TenantInfo). x.id ≡ key) (some_inj here) ((eq_iff "shop/web" key).0 same)
    | inr other ↦ elim (Bool-cases (str_eq "shop/db" key)) [
      | inl same ↦
          let here : some db ≡ some t = ground (arith, other, same, e) in
          subst (λ (x : TenantInfo). x.id ≡ key) (some_inj here) ((eq_iff "shop/db" key).0 same)
      | inr neither ↦ ground (arith, other, neither, e)
    ]
  ];
}

abbrev pub request : String → Request
request path = record {
  method = "GET";
  path = path;
  uri = path;
  headers = ("X-Tenant-Namespace", "shop" ∷ []) ∷ [];
  query = [];
  body = "";
}

abbrev pub query : Request
query = request "/api/v1/query"

-- The item of a metric.
abbrev pub sample : String → Json
sample name = object (field "metric" (object (field "__name__" (text name) end_of)) end_of)

abbrev pub response : Fields
response = field "status" (text "success") (
    field "data"
      (object (field "result" (array (item (sample "up") (item (sample "down") end))) end_of))
      end_of)

-- The same without the metric that the tenant may not see.
abbrev pub censored : Fields
censored =
    field "status" (text "success")
      (field "data" (object (field "result" (array (item (sample "up") end)) end_of)) end_of)

-- Tells a body without items from one with some.
abbrev pub encode : Fields → Option String
encode (field s v (field d (object (field k t (field q null e))) e')) = some "null"
encode f = some "{}"

abbrev pub backend : Backend
backend = record {
  is_valid_request = λ method url. true;
  exchange = λ r. some (record { content_encoding = ""; body = "{}" });
  read_all = λ body. some body;
  gunzip = λ body. none;
  decode = λ body. some response;
  encode = encode;
}

-- Serves any request with the same page.
abbrev pub reverse_proxy : ReverseProxy
reverse_proxy = record {
  parse_error = λ url. none;
  relay = λ url r. record { status = 200; headers = []; body = "{}" };
}

abbrev pub balancer : LoadBalancer
balancer = record {
  targets = record { url = "http://a"; labels = []; healthy = true; last_seen = 1 } ∷ [];
  counter = 0;
}
