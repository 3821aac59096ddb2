-- ===== src/RemoteWrite/Collector/Series.antt =====
-- The time series of a write request (internal/remote_write/collector.go, `buildTimeseries`).
pub mod Laws
use prometheus_multi_tenant.Shared.{
  ℕ, String, Bool, true, ◌&&◌, ◌-◌, ◌+◌, ◌/◌, ◌%◌, ◌^◌, Option, none, some, List, [], ◌∷◌,
  if◌then◌else◌, map, ltb, leb,
}
use prometheus_multi_tenant.Shared.Float.{Float64}
use prometheus_multi_tenant.Shared.Int.{ℤ, pos, negsuc}
use prometheus_multi_tenant.Shared.Map.{Map, insert, has_key}
use prometheus_multi_tenant.Shared.Time.{Time}
use prometheus_multi_tenant.Api
use prometheus_multi_tenant.Api.{MetricAccess}
use prometheus_multi_tenant.RemoteWrite.Metric.{Metric}
use prometheus_multi_tenant.RemoteWrite.Collector.Relabel.{insert_all}

-- `prompb.TimeSeries` with its one sample; a label is a pair of a name and a value.
pub record TimeSeries : Type 0 where
  pub labels : List (String × String)
  pub value : Float64
  pub timestamp : ℤ

-- The nanoseconds from the zero time to the Unix epoch.
abbrev pub unix_epoch : ℕ
unix_epoch = 62135596800000000000

-- `t.UnixNano()`, an int64 that wraps, as its bit pattern.
unfoldable pub unix_nano : Time → ℕ
unix_nano t = (t + (2 ^ 64 - unix_epoch % 2 ^ 64)) % 2 ^ 64

abbrev minus : ℕ → ℤ
minus n = if leb n 0 then pos 0 else negsuc (n - 1)

-- `n / int64(time.Millisecond)` of a bit pattern, rounded to 0.
unfoldable pub to_millis : ℕ → ℤ
to_millis n = if ltb n (2 ^ 63) then pos (n / 1000000) else minus ((2 ^ 64 - n) / 1000000)

-- The loop over the extra labels.
unfoldable pub add_extra : Bool → Map String → Map String → Map String
add_extra honor labels [] = labels
add_extra honor labels ((k, v) ∷ extra) =
    add_extra honor (if has_key k labels && honor then labels else insert k v labels) extra

-- Without a remote write section the program dereferences a nil pointer; `sendMetrics` calls a
-- collector only where there is one.
unfoldable pub label_map : Api.RemoteWriteConfig → Metric → Map String
label_map r m = add_extra r.honor_labels (insert_all [] m.labels) r.extra_labels

unfoldable pub series_of : Api.RemoteWriteConfig → Metric → TimeSeries
series_of r m = record {
  labels = ("__name__", m.name) ∷ label_map r m;
  value = m.value;
  timestamp = to_millis (unix_nano m.timestamp);
}

abbrev pub build_timeseries : List Metric → Api.RemoteWriteConfig → List TimeSeries
build_timeseries metrics r = map (series_of r) metrics
