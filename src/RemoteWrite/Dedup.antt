-- ===== src/RemoteWrite/Dedup.antt =====
-- Removing duplicate series (internal/remote_write/collector.go, `deduplicateMetrics`). The
-- fingerprint of a label set, a hash of the Prometheus library, is a parameter.
pub mod Reference
pub mod Laws
use prometheus_multi_tenant.Shared.{
  ℕ, String, Bool, ◌&&◌, Option, none, some, List, [], ◌∷◌, ◌++◌, str_eq, ◌==◌, if◌then◌else◌,
  length, get_elem?, set,
}
use prometheus_multi_tenant.Shared.Float.{gt}
use prometheus_multi_tenant.Shared.Map.{Map}
use prometheus_multi_tenant.RemoteWrite.Metric.{Metric}

-- `metricKey`: the name and the fingerprint of the labels.
abbrev pub MetricKey : Type 0
MetricKey = String × ℕ

abbrev pub key_eq : MetricKey → MetricKey → Bool
key_eq (n, f) (m, g) = str_eq n m && f == g

-- `seen[k]`
unfoldable pub seen_at : MetricKey → List (MetricKey × ℕ) → Option ℕ
seen_at k [] = none
seen_at k ((j, i) ∷ seen) = if key_eq j k then some i else seen_at k seen

-- The variables of the loop: `seen`, from keys to indices in `result`.
pub record Progress : Type 0 where
  pub seen : List (MetricKey × ℕ)
  pub result : List Metric

module _ (fingerprint : Map String → ℕ) where
  abbrev pub metric_key : Metric → MetricKey
  metric_key m = (m.name, fingerprint m.labels)

  pub replace_at : Progress → Metric → ℕ → Option Metric → Option Progress
  replace_at p m idx none = none
  replace_at p m idx (some r) =
      some (if gt m.value r.value then record p { result = set p.result idx m } else p)

  pub place : Progress → Metric → Option ℕ → Option Progress
  unfolding replace_at
  place p m none =
      some (record { seen = (metric_key m, length p.result) ∷ p.seen; result = p.result ++ m ∷ [] })
  place p m (some idx) = replace_at p m idx (get_elem? p.result idx)

  -- The loop; `none` stands for an index out of range, a panic.
  unfoldable pub dedup_loop : Progress → List Metric → Option Progress
  dedup_loop p [] = some p
  dedup_loop p (m ∷ ms) = elim (place p m (seen_at (metric_key m) p.seen)) [
    | none ↦ none
    | some p' ↦ dedup_loop p' ms
  ]

  abbrev pub result_of : Option Progress → Option (List Metric)
  result_of none = none
  result_of (some p) = some p.result

  unfoldable pub deduplicate_metrics : List Metric → Option (List Metric)
  unfolding dedup_loop place seen_at
  deduplicate_metrics metrics = result_of (dedup_loop (record { seen = []; result = [] }) metrics)
