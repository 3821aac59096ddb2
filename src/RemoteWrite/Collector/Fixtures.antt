-- ===== src/RemoteWrite/Collector/Fixtures.antt =====
-- Test data for the examples of the collectors.
use prometheus_multi_tenant.Shared.{
  ℕ, zero, suc, String, ◌+◌, refl, Option, none, some, List, [], ◌∷◌, if◌then◌else◌, str_eq,
}
use mathlib.Core.List.{Permᴰ}
use mathlib.Core.List.Permᴰ.{nil, cons}
use prometheus_multi_tenant.Shared.Int.{pos}
use prometheus_multi_tenant.Api.{MetricAccess, MetricRelabelConfig}
use prometheus_multi_tenant.Api
use prometheus_multi_tenant.RemoteWrite.Fixtures.{one, resource, section}
use prometheus_multi_tenant.RemoteWrite.Metric.{Metric}
use prometheus_multi_tenant.RemoteWrite.Collector.Relabel.{Regexp}
use prometheus_multi_tenant.RemoteWrite.Collector.Series.{TimeSeries, unix_epoch}
use prometheus_multi_tenant.RemoteWrite.Collector.Write.{Reply, failed, replied}
use prometheus_multi_tenant.RemoteWrite.Collector.Send.{Outside, send_by}
use prometheus_multi_tenant.RemoteWrite.Collector.Send.Laws.{IsCollector}

-- An expression that matches the text between the anchors only.
abbrev pub literally : String → Regexp
literally text = record { matches = λ s. str_eq s text; replace_all = λ s replacement. replacement }

abbrev pub compile : String → Option Regexp
compile expression = if str_eq expression "^(?:bad()$" then none else some (literally "a")

abbrev pub metric : Metric
metric = record {
  name = "up";
  labels = ("team", "a") ∷ ("node", "n1") ∷ [];
  value = one;
  timestamp = unix_epoch + 1500000;
}

abbrev pub no_error : String → Option String
no_error url = none

-- Two attempts fail and the third is accepted.
abbrev pub third_time : String → List TimeSeries → ℕ → Reply
third_time url series zero = failed "EOF"
third_time url series (suc zero) = replied 503 "busy"
third_time url series (suc (suc n)) = replied 204 ""

abbrev pub prometheus : Api.PrometheusTarget
prometheus = record {
  service_name = "prom";
  service_port = pos 0;
  replicas = pos 2;
  stateful_set_name = "db";
  target_namespace = "";
}

abbrev pub outside : Outside
outside = record {
  request_error = no_error;
  exchange = third_time;
  marshal = λ series. none;
  compile = compile;
  finish = λ urls. urls;
}

-- The section with both a target and an endpoint, and its resource.
abbrev pub full_section : Api.RemoteWriteConfig
full_section = record section {
  target = record section.target { type = "prometheus" };
  prometheus = some prometheus;
}

abbrev pub full_resource : MetricAccess
full_resource = record resource { spec = record resource.spec { remote_write = some full_section } }

-- The collectors as `sendMetrics` calls them, with a section at hand.
abbrev pub with_section :
    String → MetricAccess → List Metric → Option Api.RemoteWriteConfig → Option String
with_section type ma batch none = some "no section"
with_section type ma batch (some r) = send_by outside type r ma.namespace batch

abbrev pub send : String → MetricAccess → List Metric → Option String
send type ma batch = with_section type ma batch ma.spec.remote_write

pub send-IsCollector : IsCollector outside send
send-IsCollector type ma r batch h = rw h refl

pub any_order : (urls : List String) → Permᴰ (outside.finish urls) urls
any_order [] = nil
any_order (u ∷ us) = cons refl (any_order us)
