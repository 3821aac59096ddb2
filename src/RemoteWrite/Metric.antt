-- ===== src/RemoteWrite/Metric.antt =====
-- A collected sample (internal/remote_write/collector.go).
use prometheus_multi_tenant.Shared.{String}
use prometheus_multi_tenant.Shared.Float.{Float64}
use prometheus_multi_tenant.Shared.Map.{Map}
use prometheus_multi_tenant.Shared.Time.{Time}

pub record Metric : Type 0 where
  pub name : String
  pub labels : Map String
  pub value : Float64
  pub timestamp : Time
