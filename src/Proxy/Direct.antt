-- ===== src/Proxy/Direct.antt =====
-- The page of collected metrics and the direct query behind it (internal/proxy/handler.go,
-- `handleCollectedMetrics` and `executeDirectPrometheusQuery`).
pub mod Laws
use prometheus_multi_tenant.Shared.{
  ℕ, suc, ◌+◌, String, Bool, true, false, not, ◌&&◌, Option, none, some, List, [], ◌∷◌, ◌++◌,
  if◌then◌else◌, str_eq, length, keep_if, leb, map,
}
use prometheus_multi_tenant.Shared.Float.{Float64}
use prometheus_multi_tenant.Shared.Int.{ℤ, pos}
use prometheus_multi_tenant.Shared.Map.{Map, insert}
use prometheus_multi_tenant.Shared.Result.{Result, err, ok}
use prometheus_multi_tenant.Shared.Text.{join, join_with, show_int, is_empty, has_prefix, split}
use prometheus_multi_tenant.Shared.Time.{Time}
use prometheus_multi_tenant.Discovery.{Target}
use prometheus_multi_tenant.Tenant.Access.{TenantInfo, Manager, get_all_tenants}
use prometheus_multi_tenant.RemoteWrite.Metric.{Metric}
use prometheus_multi_tenant.RemoteWrite.Collector.Series.{to_millis, unix_nano}
use prometheus_multi_tenant.RemoteWrite.Query.{
  Value, number, text, other, Sample, PrometheusResponse, or_blank,
}
use prometheus_multi_tenant.Shared.Map.{lookup}
use prometheus_multi_tenant.Proxy.Pages.{Format, show, concat_texts, sample_line, all_job_lines}

module _ (f : Format) where
  -- The value and the timestamp of a result, both 0 where they cannot be read.
  abbrev float_or_zero : Option Float64 → Float64
  float_or_zero none = 0
  float_or_zero (some x) = x

  abbrev pub value_of : List Value → Float64
  value_of (t ∷ text v ∷ rest) = float_or_zero (f.parse_float v)
  value_of _ = 0

  abbrev pub timestamp_of : List Value → ℤ
  timestamp_of (number t ∷ v ∷ rest) = f.float_millis t
  timestamp_of _ = pos 0

  abbrev first_part : List String → String
  first_part [] = ""
  first_part (s ∷ ss) = s

  abbrev name_of : String → String → String
  name_of type name = if is_empty name then first_part (split b'{' type) else name

  abbrev result_line : String → Sample → String
  result_line type s =
      sample_line f (name_of type (or_blank (lookup "__name__" s.metric))) s.metric
        (value_of s.value) (timestamp_of s.value)

  abbrev pub omitted : String
  omitted = "# ... more results omitted (limited to 10 samples per metric type)\n"

  -- The loop over the results, `count` of which are printed.
  unfoldable pub result_lines : String → ℕ → List Sample → List String
  result_lines type count [] = []
  result_lines type count (s ∷ rest) =
      let later = result_lines type (count + 1) rest in
      result_line type s
      ∷ (if leb 10 (count + 1) && not (has_prefix type "apiserver_") then omitted ∷ [] else later)

  abbrev no_data : List Sample → List String
  no_data [] = "# No data found for this metric\n" ∷ []
  no_data (s ∷ ss) = []

  unfoldable pub response_lines : String → Result PrometheusResponse → List String
  response_lines type (err e) = concat_texts ("# Error parsing response: " ∷ e ∷ "\n" ∷ []) ∷ []
  response_lines type (ok r) =
      if str_eq r.status "success"
      then result_lines type 0 r.result ++ no_data r.result ++ ("\n" ∷ [])
      else concat_texts ("# Error from Prometheus: " ∷ r.status ∷ "\n\n" ∷ []) ∷ []

-- The URL of the first healthy target, or of the next while that is empty.
unfoldable pub choose_url : String → List Target → String
choose_url url [] = url
choose_url url (t ∷ ts) = choose_url (if t.healthy && is_empty url then t.url else url) ts

abbrev pub metric_types : List String
metric_types =
    "node_memory_MemAvailable_bytes" ∷ "node_cpu_seconds_total" ∷ "node_filesystem_avail_bytes"
    ∷ "apiserver_request_total" ∷ "apiserver_request_duration_seconds_count"
    ∷ "container_cpu_usage_seconds_total" ∷ "container_memory_usage_bytes" ∷ "kube_pod_status_phase"
    ∷ "kube_service_info" ∷ "kube_endpoint_info" ∷ []

abbrev pub types_for : String → List String
types_for requested = if is_empty requested then metric_types else requested ∷ []

-- What the client and the reading of a body come to.
pub data Fetched : Type 0 where
  query_failed : String → Fetched
  read_failed : String → Fetched
  fetched : String → Fetched

-- The lines printed while the metrics are fetched, and the bodies.
abbrev pub Fetches : Type 0
Fetches = List String × Map String

abbrev pub keep_fetched : String → Fetched → Fetches → Fetches
keep_fetched type (query_failed e) (lines, bodies) = (
  lines ++ (concat_texts ("# Error querying backend for " ∷ type ∷ ": " ∷ e ∷ "\n" ∷ []) ∷ []),
  bodies,
)
keep_fetched type (read_failed e) (lines, bodies) = (
  lines ++ (concat_texts ("# Error reading response for " ∷ type ∷ ": " ∷ e ∷ "\n" ∷ []) ∷ []),
  bodies,
)
keep_fetched type (fetched body) (lines, bodies) = (lines, insert type body bodies)

module _ (f : Format) (escape : String → String) (fetch : String → Fetched)
    (decode : String → Result PrometheusResponse) where
  unfoldable pub fetch_all : String → List String → Fetches → Fetches
  fetch_all url [] done = done
  fetch_all url (type ∷ types) done =
      fetch_all url types
        (keep_fetched type (fetch (join url (join "/api/v1/query?query=" (escape type)))) done)

  unfoldable pub body_lines : Map String → List String
  body_lines [] = []
  body_lines ((type, body) ∷ rest) =
      concat_texts ("# Metric: " ∷ type ∷ "\n" ∷ [])
      ∷ (response_lines f type (decode body) ++ body_lines rest)

  pub report_fetches : String → ℕ → Fetches → List String
  report_fetches url attempted (lines, []) =
      lines
      ++ ("# No metrics could be fetched from backend\n"
          ∷ concat_texts ("# Target: " ∷ url ∷ "\n" ∷ [])
          ∷ concat_texts ("# Attempted " ∷ show attempted ∷ " metric types\n" ∷ [])
          ∷ [])
  report_fetches url attempted (lines, b ∷ bodies) = lines ++ body_lines (b ∷ bodies)

  pub query_at : String → String → List Target → List String
  unfolding report_fetches
  query_at url requested targets =
      if is_empty url
      then "# No healthy backend targets available.\n"
        ∷ concat_texts (
            "# Total targets: "
            ∷ show (length targets)
            ∷ ", Healthy targets: "
            ∷ show (length (keep_if (λ t. t.healthy) targets))
            ∷ "\n"
            ∷ [])
        ∷ []
      else report_fetches url (length (types_for requested))
          (fetch_all url (types_for requested) ([], []))

  unfoldable pub execute_direct_prometheus_query : String → List Target → List String
  unfolding query_at
  execute_direct_prometheus_query requested [] = "# No backend targets available.\n" ∷ []
  execute_direct_prometheus_query requested (t ∷ ts) =
      query_at (choose_url "" (t ∷ ts)) requested (t ∷ ts)

  -- The remote write controller's metrics; `none` without a controller.
  unfoldable pub handle_collected_metrics :
      String → List Target → Option (Map (List Metric)) → List String
  handle_collected_metrics requested targets none =
      "# No remote write controller available. RemoteWrite feature may be disabled.\n"
      ∷ "# Attempting direct Prometheus query fallback...\n\n"
      ∷ execute_direct_prometheus_query requested targets
  handle_collected_metrics requested targets (some []) =
      "# No collected metrics found in remote write controller.\n"
      ∷ "# Attempting to fetch metrics directly from Prometheus backend.\n\n"
      ∷ execute_direct_prometheus_query requested targets
  handle_collected_metrics requested targets (some (j ∷ jobs)) = all_job_lines f (j ∷ jobs)
