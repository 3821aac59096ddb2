-- ===== src/Proxy/Pages.antt =====
-- The pages of the proxy besides the Prometheus API (internal/proxy/handler.go): health, debug, and
-- the samples of collected metrics. The texts of floats, quoted strings and
-- instants are those of the package fmt and time, fields of a record.
use prometheus_multi_tenant.Shared.{
  ℕ, String, Bool, true, false, Option, List, [], ◌∷◌, ◌++◌, length, keep_if, map,
}
use prometheus_multi_tenant.Shared.Float.{Float64}
use prometheus_multi_tenant.Shared.Int.{ℤ, pos}
use prometheus_multi_tenant.Shared.Map.{Map}
use prometheus_multi_tenant.Shared.Text.{join, join_with, show_int}
use prometheus_multi_tenant.Shared.Time.{Time}
use prometheus_multi_tenant.Discovery.{Target}
use prometheus_multi_tenant.Tenant.Access.{TenantInfo, Manager, get_all_tenants}
use prometheus_multi_tenant.RemoteWrite.Metric.{Metric}
use prometheus_multi_tenant.RemoteWrite.Collector.Series.{to_millis, unix_nano}

abbrev pub show : ℕ → String
show n = show_int (pos n)

abbrev show_bool : Bool → String
show_bool true = "true"
show_bool false = "false"

-- `%g`, `%q` and `time.RFC3339`; `strconv.ParseFloat`, and `int64(ts * 1000)` of a float.
pub record Format : Type 0 where
  pub float : Float64 → String
  pub quote : String → String
  pub instant : Time → String
  pub parse_float : String → Option Float64
  pub float_millis : Float64 → ℤ

abbrev pub concat_texts : List String → String
concat_texts lines = join_with "" lines

unfoldable pub handle_health : List Target → Manager → String
handle_health targets m = concat_texts (
    "{\"status\":\"healthy\",\"total_targets\":"
    ∷ show (length targets)
    ∷ ",\"healthy_targets\":"
    ∷ show (length (keep_if (λ t. t.healthy) targets))
    ∷ ",\"tenants\":"
    ∷ show (length (get_all_tenants m))
    ∷ "}"
    ∷ [])

module _ (f : Format) where
  abbrev debug_target : Target → String
  debug_target t = concat_texts (
      "{\"url\":\""
      ∷ t.url
      ∷ "\",\"healthy\":"
      ∷ show_bool t.healthy
      ∷ ",\"last_seen\":\""
      ∷ f.instant t.last_seen
      ∷ "\"}"
      ∷ [])

  abbrev pub handle_debug_targets : List Target → String
  handle_debug_targets targets =
      concat_texts ("{\"targets\":[" ∷ join_with "," (map debug_target targets) ∷ "]}" ∷ [])

  abbrev debug_tenant : String × TenantInfo → String
  debug_tenant (key, t) = concat_texts (
      "{\"id\":\""
      ∷ t.id
      ∷ "\",\"name\":\""
      ∷ t.name
      ∷ "\",\"namespace\":\""
      ∷ t.namespace
      ∷ "\",\"patterns\":"
      ∷ show (length t.metric_patterns)
      ∷ "}"
      ∷ [])

  abbrev pub handle_debug_tenants : Manager → String
  handle_debug_tenants m =
      concat_texts
        ("{\"tenants\":[" ∷ join_with "," (map debug_tenant (get_all_tenants m)) ∷ "]}" ∷ [])

  label_texts : Map String → List String
  label_texts [] = []
  label_texts ((name, value) ∷ rest) = join name (join "=" (f.quote value)) ∷ label_texts rest

  abbrev braced : List String → String
  braced [] = ""
  braced (l ∷ ls) = concat_texts ("{" ∷ join_with "," (l ∷ ls) ∷ "}" ∷ [])

  -- One sample in the text format.
  pub sample_line : String → Map String → Float64 → ℤ → String
  unfolding label_texts
  sample_line name labels value timestamp = concat_texts (
      name
      ∷ braced (label_texts labels)
      ∷ " "
      ∷ f.float value
      ∷ " "
      ∷ show_int timestamp
      ∷ "\n"
      ∷ [])

  abbrev metric_line : Metric → String
  metric_line m = sample_line m.name m.labels m.value (to_millis (unix_nano m.timestamp))

  abbrev job_lines : String → List Metric → List String
  job_lines key metrics =
      concat_texts ("# Job: " ∷ key ∷ " (" ∷ show (length metrics) ∷ " metrics)\n" ∷ [])
      ∷ (map metric_line metrics ++ ("\n" ∷ []))

  unfoldable pub all_job_lines : Map (List Metric) → List String
  all_job_lines [] = []
  all_job_lines ((key, metrics) ∷ rest) = job_lines key metrics ++ all_job_lines rest
