-- ===== src/RemoteWrite/Collect.antt =====
-- The collection from one target (internal/remote_write/controller.go, `collectFromTarget`): the
-- queries made for each of a job's patterns, the fallbacks included. `ask` is the result of
-- `queryPromQL` for the target and the job.
pub mod Laws
pub mod Send
pub mod Cycle
mod Examples
use prometheus_multi_tenant.Shared.{
  String, Bool, true, false, not, ◌&&◌, List, [], ◌∷◌, ◌++◌, if◌then◌else◌,
}
use prometheus_multi_tenant.Shared.Map.{Map}
use prometheus_multi_tenant.Shared.Result.{Result, err, ok}
use prometheus_multi_tenant.Shared.Text.{join, join_with, has_prefix, has_last, contains_char}
use prometheus_multi_tenant.Discovery.{Target}
use prometheus_multi_tenant.Api.{MetricAccess}
use prometheus_multi_tenant.RemoteWrite.Metric.{Metric}

-- `fmt.Sprintf("%s=\"%s\"", k, v)` for each selector.
abbrev label_matchers : Map String → List String
label_matchers [] = []
label_matchers ((k, v) ∷ rest) = join k (join "=\"" (join v "\"")) ∷ label_matchers rest

-- `{__name__="pattern",matchers}`
abbrev with_selectors : Map String → String → String
with_selectors [] pattern = pattern
with_selectors (s ∷ ss) pattern =
    join "{__name__=\""
      (join pattern (join "\"," (join (join_with "," (label_matchers (s ∷ ss))) "}")))

-- The standard query of a pattern.
unfoldable pub query_pattern : MetricAccess → String → String
query_pattern ma pattern =
    if has_prefix pattern "{" && has_last b'}' pattern
    then pattern
    else with_selectors ma.spec.label_selectors pattern

abbrev pub node_query_pattern : String → String
node_query_pattern pattern = join "{__name__=\"" (join pattern "\",job=\"node-exporter\"}")

abbrev pub flexible_query_pattern : String → String
flexible_query_pattern pattern = join "{__name__=\"" (join pattern "\"}")

-- Whether the other strategies are tried: `!HasPrefix(pattern, "{") && Count(pattern, "\"") == 0`.
abbrev pub is_simple : String → Bool
is_simple pattern = not (has_prefix pattern "{") && not (contains_char 34 pattern)

-- An error counts as no metrics.
abbrev pub or_nothing : Result (List Metric) → List Metric
or_nothing (err e) = []
or_nothing (ok ms) = ms

module _ (ask : String → Result (List Metric)) where
  pub last_resort : String → List Metric
  last_resort pattern = or_nothing (ask (flexible_query_pattern pattern))

  pub after_node : String → Result (List Metric) → List Metric
  after_node pattern (err e) = last_resort pattern
  after_node pattern (ok []) = last_resort pattern
  after_node pattern (ok (m ∷ ms)) = m ∷ ms

  pub fallback : String → List Metric
  fallback pattern =
      if is_simple pattern
      then if has_prefix pattern "node_"
        then after_node pattern (ask (node_query_pattern pattern))
        else last_resort pattern
      else []

  pub after_standard : String → Result (List Metric) → List Metric
  after_standard pattern (err e) = []
  after_standard pattern (ok []) = fallback pattern
  after_standard pattern (ok (m ∷ ms)) = m ∷ ms

  unfoldable pub collect_pattern : MetricAccess → String → List Metric
  unfolding after_standard after_node fallback last_resort
  collect_pattern ma pattern = after_standard pattern (ask (query_pattern ma pattern))

  unfoldable pub collect_patterns : MetricAccess → List String → List Metric
  collect_patterns ma [] = []
  collect_patterns ma (p ∷ ps) = collect_pattern ma p ++ collect_patterns ma ps

  unfoldable pub collect_from_target : MetricAccess → Target → Result (List Metric)
  collect_from_target ma target =
      if not target.healthy
      then err "target is unhealthy"
      else ok (collect_patterns ma ma.spec.metrics)
