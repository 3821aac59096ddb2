-- ===== src/RemoteWrite/Collector/Send.antt =====
-- The collectors' `Send` (internal/remote_write/collector.go). What they call is a record of
-- operations, which every collector takes.
pub mod Laws
use prometheus_multi_tenant.Shared.{
  ℕ, zero, suc, String, ◌+◌, Bool, true, false, not, ◌&&◌, Option, none, some, List, [], ◌∷◌,
  if◌then◌else◌, str_eq,
}
use prometheus_multi_tenant.Shared.Int.{ℤ, pos, negsuc, is_positive, eqb_ℤ}
use prometheus_multi_tenant.Shared.Text.{join, join_with, show_int, is_empty}
use prometheus_multi_tenant.Api.{MetricAccess}
use prometheus_multi_tenant.Api
use prometheus_multi_tenant.RemoteWrite.Metric.{Metric}
use prometheus_multi_tenant.RemoteWrite.Collector.Relabel.{Regexp, apply_metric_relabelings}
use prometheus_multi_tenant.RemoteWrite.Collector.Series.{TimeSeries, build_timeseries}
use prometheus_multi_tenant.RemoteWrite.Collector.Write.{Reply, send_remote_write}

abbrev pub resolve_target_namespace : Api.PrometheusTarget → String → String
resolve_target_namespace target cr_namespace =
    if not (is_empty target.target_namespace) then target.target_namespace else cr_namespace

-- `%s.%s.svc.cluster.local:%d/api/v1/write`
abbrev service_address : Api.PrometheusTarget → String → String
service_address target namespace =
    let port = if eqb_ℤ target.service_port (pos 0) then pos 9090 else target.service_port in
    join target.service_name (
      join "." (join namespace (join ".svc.cluster.local:" (join (show_int port) "/api/v1/write"))))

-- The URL of replica `i`.
abbrev pub replica_url : Api.PrometheusTarget → String → ℕ → String
replica_url target namespace i = join "http://" (
    join target.stateful_set_name
      (join "-" (join (show_int (pos i)) (join "." (service_address target namespace)))))

-- The URLs of the replicas from `i` on, `count` of them.
unfoldable pub replica_urls : Api.PrometheusTarget → String → ℕ → ℕ → List String
replica_urls target namespace zero i = []
replica_urls target namespace (suc count) i =
    replica_url target namespace i ∷ replica_urls target namespace count (i + 1)

-- A negative count has no rounds.
abbrev pub rounds : ℤ → ℕ
rounds (pos n) = n
rounds (negsuc n) = 0

unfoldable pub build_prometheus_urls : Api.PrometheusTarget → String → List String
unfolding replica_urls
build_prometheus_urls target namespace =
    if is_positive target.replicas && not (is_empty target.stateful_set_name)
    then replica_urls target namespace (rounds target.replicas) 0
    else join "http://" (service_address target namespace) ∷ []

-- `errCh <- fmt.Errorf("%s: %w", u, err)`
abbrev report : String → Option String → List String → List String
report url none errs = errs
report url (some e) errs = join url (join ": " e) ∷ errs

abbrev pub join_failures : List String → Option String
join_failures [] = none
join_failures (e ∷ es) = some (join "remote write failures: " (join_with "; " (e ∷ es)))

abbrev or_failed : String → Option String → Option String
or_failed url none = none
or_failed url (some e) = some (join "remote write to " (join url (join " failed: " e)))

-- The outcome of a write, after the error of encoding its series.
abbrev or_encoded : Option String → Option String → Option String
or_encoded none outcome = outcome
or_encoded (some e) outcome = some (join "failed to marshal metrics: " e)

-- What the collectors call: the error of `http.NewRequest` for a URL; the replies to the attempts to
-- post series to it; the error of encoding them; the package regexp; and the order in which the
-- goroutines of a fan-out to some URLs finish.
pub record Outside : Type 0 where
  pub request_error : String → Option String
  pub exchange : String → List TimeSeries → ℕ → Reply
  pub marshal : List TimeSeries → Option String
  pub compile : String → Option Regexp
  pub finish : List String → List String

module _ (out : Outside) where
  -- The errors of the fan-out, in the order in which the writes finish.
  unfoldable pub fan_out : List TimeSeries → List String → List String
  fan_out series [] = []
  fan_out series (url ∷ urls) =
      report url (send_remote_write out.request_error out.exchange url series) (fan_out series urls)

  -- The series of a collection, relabelled.
  abbrev pub series_to_send : Api.RemoteWriteConfig → List Metric → List TimeSeries
  series_to_send r metrics =
      build_timeseries (apply_metric_relabelings out.compile metrics r.metric_relabelings) r

  unfoldable pub send_prometheus :
      Api.RemoteWriteConfig → String → List Metric → Option Api.PrometheusTarget → Option String
  send_prometheus r namespace metrics none = some "prometheus target configuration is missing"
  send_prometheus r namespace metrics (some target) =
      let series = series_to_send r metrics in
      let urls = build_prometheus_urls target (resolve_target_namespace target namespace) in
      or_encoded (out.marshal series) (join_failures (fan_out series (out.finish urls)))

  -- The placeholder sends nothing.
  unfoldable pub send_pushgateway : Api.RemoteWriteConfig → List Metric → Option String
  send_pushgateway r metrics = none

  unfoldable pub send_endpoint :
      Api.RemoteWriteConfig → List Metric → Option Api.RemoteWriteEndpoint → Option String
  send_endpoint r metrics none = some "remote write endpoint configuration is missing"
  send_endpoint r metrics (some endpoint) =
      let series = series_to_send r metrics in
      or_encoded (out.marshal series) (
        or_failed endpoint.url
          (send_remote_write out.request_error out.exchange endpoint.url series))

  -- The collector that `createCollector` picks for a target type; the others have none.
  unfoldable pub send_by : String → Api.RemoteWriteConfig → String → List Metric → Option String
  send_by type r namespace metrics =
      if str_eq type "prometheus"
      then send_prometheus r namespace metrics r.prometheus
      else (if str_eq type "pushgateway"
          then send_pushgateway r metrics
          else send_endpoint r metrics r.remote_write)
