-- ===== src/RemoteWrite/Query.antt =====
-- One query for a job (internal/remote_write/controller.go, `queryPromQL`): the request, its reply
-- and the conversion of the samples. What the Go library does is given by parameters: the escape of
-- a query, the check of a URL, the exchange itself, the decoding of JSON, the parsing of a float,
-- and `time.Unix` of a float; `now` is `time.Now()`.
pub mod Laws
use prometheus_multi_tenant.Shared.{
  ℕ, String, Bool, true, false, not, Option, none, some, List, [], ◌∷◌, ◌==◌, str_eq, if◌then◌else◌,
}
use prometheus_multi_tenant.Shared.Float.{Float64}
use prometheus_multi_tenant.Shared.Int.{pos}
use prometheus_multi_tenant.Shared.Map.{Map, lookup}
use prometheus_multi_tenant.Shared.Result.{Result, err, ok}
use prometheus_multi_tenant.Shared.Text.{join, show_int}
use prometheus_multi_tenant.Shared.Time.{Time}
use prometheus_multi_tenant.Api.{MetricAccess}
use prometheus_multi_tenant.RemoteWrite.Metric.{Metric}

-- An `interface{}` that JSON decoding fills, as far as the code tells its types apart.
pub data Value : Type 0 where
  number : Float64 → Value
  text : String → Value
  other : Value

pub record Sample : Type 0 where
  pub metric : Map String
  pub value : List Value

pub record PrometheusResponse : Type 0 where
  pub status : String
  pub result : List Sample

pub record Request : Type 0 where
  pub url : String
  pub headers : Map String

-- What the client returns: an error, or a status with the body read and the error of its reading.
pub data Reply : Type 0 where
  unreachable : String → Reply
  replied : ℕ → String → Option String → Reply

abbrev pub user_agent : String
user_agent = "prometheus-multi-tenant-proxy/remote-write-controller"

abbrev pub or_blank : Option String → String
or_blank none = ""
or_blank (some s) = s

-- `if name != "__name__" { labels[name] = value }`
abbrev pub without_name : Map String → Map String
without_name [] = []
without_name ((k, v) ∷ rest) =
    let others = without_name rest in if str_eq k "__name__" then others else (k, v) ∷ others

abbrev pub http_ok : ℕ
http_ok = 200

module _ (escape : String → String) where
  -- With metric isolation the request goes to prom-label-proxy, with the namespace of the tenant.
  unfoldable pub request_for : MetricAccess → String → String → Request
  request_for ma target_url query =
      if ma.spec.metric_isolation
      then record {
        url = join "http://localhost:8082/api/v1/query?query=" (escape query);
        headers = ("X-Tenant-Namespace", ma.namespace) ∷ ("User-Agent", user_agent) ∷ [];
      }
      else record {
        url = join target_url (join "/api/v1/query?query=" (escape query));
        headers = ("User-Agent", user_agent) ∷ [];
      }

module _ (parse_float : String → Option Float64) (unix : Float64 → Time) (now : Time) where
  abbrev pub timestamp_of : Value → Time
  timestamp_of (number ts) = unix ts
  timestamp_of _ = now

  abbrev pub value_of : Value → Option Float64
  value_of (text s) = parse_float s
  value_of (number v) = some v
  value_of other = none

  abbrev pub with_value : Map String → Value → Option Float64 → Option Metric
  with_value labels ts none = none
  with_value labels ts (some v) = some (record {
    name = or_blank (lookup "__name__" labels);
    labels = without_name labels;
    value = v;
    timestamp = timestamp_of ts;
  })

  -- A sample with fewer than two values, or without a readable value, is skipped.
  abbrev pub convert : Map String → List Value → Option Metric
  convert labels [] = none
  convert labels (ts ∷ []) = none
  convert labels (ts ∷ v ∷ more) = with_value labels ts (value_of v)

  abbrev pub cons_some : Option Metric → List Metric → List Metric
  cons_some none ms = ms
  cons_some (some m) ms = m ∷ ms

  unfoldable pub convert_all : List Sample → List Metric
  convert_all [] = []
  convert_all (s ∷ rest) = cons_some (convert s.metric s.value) (convert_all rest)

  module _ (unmarshal : String → Result PrometheusResponse) where
    pub convert_response : Result PrometheusResponse → Result (List Metric)
    convert_response (err e) = err (join "failed to parse prometheus response: " e)
    convert_response (ok r) =
        if not (str_eq r.status "success")
        then err (join "prometheus returned non-success status: " r.status)
        else ok (convert_all r.result)

    pub read_body : ℕ → String → Option String → Result (List Metric)
    unfolding convert_response
    read_body status body none = convert_response (unmarshal body)
    read_body status body (some e) = err (join "failed to read response body: " e)

    pub read_reply : Reply → Result (List Metric)
    unfolding read_body
    read_reply (unreachable e) = err e
    read_reply (replied status body read_error) =
        if not (status == http_ok)
        then err (
            join "prometheus query failed with status "
              (join (show_int (pos status)) (join ": " body)))
        else read_body status body read_error

    module _ (escape : String → String) (request_error : String → Option String)
        (exchange : Request → Reply) where
      pub make_request : Request → Option String → Result (List Metric)
      unfolding read_reply
      make_request request (some e) = err e
      make_request request none = read_reply (exchange request)

      unfoldable pub query_prom_ql : MetricAccess → String → String → Result (List Metric)
      unfolding make_request request_for
      query_prom_ql ma target_url query =
          let request = request_for escape ma target_url query in
          make_request request (request_error request.url)
