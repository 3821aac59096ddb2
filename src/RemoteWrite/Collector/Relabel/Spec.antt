-- ===== src/RemoteWrite/Collector/Relabel/Spec.antt =====
-- What relabelling promises (internal/remote_write/collector.go, `applyMetricRelabelings`), on label sets
-- as functions, which forget the order and the representation of a map.
use prometheus_multi_tenant.Shared.{
  String, Bool, not, ◌&&◌, Option, none, some, List, [], ◌∷◌, if◌then◌else◌, str_eq, and_then,
  either,
}
use prometheus_multi_tenant.Shared.Float.{Float64}
use prometheus_multi_tenant.Shared.Time.{Time}
use prometheus_multi_tenant.Shared.Map.{Map, lookup}
use prometheus_multi_tenant.Shared.Text.{is_empty}
use prometheus_multi_tenant.Api.{MetricRelabelConfig}
use prometheus_multi_tenant.RemoteWrite.Metric.{Metric}
use prometheus_multi_tenant.RemoteWrite.Collector.Relabel.{
  Regexp, default_to, or_empty, source_text, anchored, new_value, is_reserved,
}

-- A label set: the value of each name.
abbrev pub Labels : Type 0
Labels = String → Option String

abbrev pub view : Map String → Labels
view m k = lookup k m

abbrev pub put : String → String → Labels → Labels
put key value labels k = if str_eq key k then some value else labels k

abbrev pub without : (String → Bool) → Labels → Labels
without p labels k = if p k then none else labels k

-- What a rule does to a label set; `none` drops the metric.
abbrev pub spec_act : Regexp → String → MetricRelabelConfig → String → Labels → Option Labels
spec_act re action rule text labels =
    if str_eq action "replace"
    then some (
        if re.matches text && not (is_empty rule.target_label)
        then put rule.target_label (new_value re rule text) labels
        else labels)
    else (if str_eq action "keep"
        then (if re.matches text then some labels else none)
        else (if str_eq action "drop"
            then (if re.matches text then none else some labels)
            else (if str_eq action "labeldrop"
                then some (without re.matches labels)
                else (if str_eq action "labelkeep"
                    then some (without (λ k. not (re.matches k) && not (is_reserved k)) labels)
                    else some labels))))

-- A metric with its label set.
abbrev pub Seen : Type 0
Seen = String × Labels × Float64 × Time

abbrev pub view_metric : Metric → Seen
view_metric m = (m.name, view m.labels, m.value, m.timestamp)

-- The label set that the rules start from: the metric's own `__name__` label, if any, wins.
abbrev pub initial : String → Labels → Labels
initial name labels k = either (labels k) (if str_eq "__name__" k then some name else none)

abbrev pub conclude : Float64 → Time → Option Labels → Option Seen
conclude value at none = none
conclude value at (some labels) =
    some (or_empty (labels "__name__"), without (str_eq "__name__") labels, value, at)

abbrev pub keep_seen : Option Seen → List Seen → List Seen
keep_seen none rest = rest
keep_seen (some m) rest = m ∷ rest

module _ (compile : String → Option Regexp) where
  unfoldable pub spec_rule : MetricRelabelConfig → Labels → Option Labels
  spec_rule rule labels = elim (compile (anchored rule)) [
    | none ↦ some labels
    | some re ↦
        spec_act re (default_to "replace" rule.action) rule
          (source_text rule (λ k. or_empty (labels k))) labels
  ]

  -- The rules in turn, up to the first that drops the metric.
  unfoldable pub spec_rules : List MetricRelabelConfig → Labels → Option Labels
  spec_rules [] labels = some labels
  spec_rules (rule ∷ rules) labels = and_then (spec_rule rule labels) (spec_rules rules)

  abbrev pub spec_relabel : List MetricRelabelConfig → Seen → Option Seen
  spec_relabel rules (name, labels, value, at) =
      conclude value at (spec_rules rules (initial name labels))

  abbrev pub spec_each : List MetricRelabelConfig → List Seen → List Seen
  spec_each rules [] = []
  spec_each rules (m ∷ ms) = keep_seen (spec_relabel rules m) (spec_each rules ms)

  abbrev pub spec_relabelings : List MetricRelabelConfig → List Seen → List Seen
  spec_relabelings [] ms = ms
  spec_relabelings (rule ∷ rules) ms = spec_each (rule ∷ rules) ms
