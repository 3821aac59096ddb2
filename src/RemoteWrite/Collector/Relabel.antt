-- ===== src/RemoteWrite/Collector/Relabel.antt =====
-- Metric relabelling (internal/remote_write/collector.go, `applyMetricRelabelings`). The package
-- regexp is the parameter `compile`: an expression's tests, or `none` where it does not compile.
pub mod Spec
pub mod Laws
use prometheus_multi_tenant.Shared.{
  String, Bool, true, false, not, ◌&&◌, Option, none, some, List, [], ◌∷◌, if◌then◌else◌, str_eq,
  and_then,
}
use prometheus_multi_tenant.Shared.Map.{Map, lookup, insert, delete}
use prometheus_multi_tenant.Shared.Text.{join, join_with, is_empty}
use prometheus_multi_tenant.Api.{MetricRelabelConfig}
use prometheus_multi_tenant.RemoteWrite.Metric.{Metric}

-- `regexp.Regexp`: `MatchString(s)` and `ReplaceAllString(s, replacement)`.
pub record Regexp : Type 0 where
  pub matches : String → Bool
  pub replace_all : String → String → String

abbrev pub default_to : String → String → String
default_to fallback s = if is_empty s then fallback else s

-- `for k, v := range entries { m[k] = v }`
unfoldable pub insert_all : Map String → Map String → Map String
insert_all m [] = m
insert_all m ((k, v) ∷ entries) = insert_all (insert k v m) entries

-- `for k := range m { if p(k) { delete(m, k) } }`
unfoldable pub delete_if : (String → Bool) → Map String → Map String
delete_if p [] = []
delete_if p ((k, v) ∷ m) = let rest = delete_if p m in if p k then rest else (k, v) ∷ rest

-- `m[k]`, the empty text for a missing key.
abbrev or_empty : Option String → String
or_empty none = ""
or_empty (some v) = v

abbrev pub read : Map String → String → String
read m k = or_empty (lookup k m)

abbrev pub source_values : (String → String) → List String → List String
source_values read [] = []
source_values read (l ∷ ls) = read l ∷ source_values read ls

-- The values of the source labels, concatenated.
abbrev pub source_text : MetricRelabelConfig → (String → String) → String
source_text rule read =
    join_with (default_to ";" rule.separator) (source_values read rule.source_labels)

abbrev pub anchored : MetricRelabelConfig → String
anchored rule = join "^(?:" (join (default_to "(.*)" rule.regex) ")$")

abbrev pub new_value : Regexp → MetricRelabelConfig → String → String
new_value re rule text = re.replace_all text (default_to "$1" rule.replacement)

abbrev pub is_reserved : String → Bool
is_reserved k = str_eq k "__name__"

-- `none` drops the metric; an unknown action does nothing.
unfoldable pub act :
    Regexp → String → MetricRelabelConfig → String → Map String → Option (Map String)
act re action rule text labels =
    if str_eq action "replace"
    then some (
        if re.matches text && not (is_empty rule.target_label)
        then insert rule.target_label (new_value re rule text) labels
        else labels)
    else (if str_eq action "keep"
        then (if re.matches text then some labels else none)
        else (if str_eq action "drop"
            then (if re.matches text then none else some labels)
            else (if str_eq action "labeldrop"
                then some (delete_if re.matches labels)
                else (if str_eq action "labelkeep"
                    then some (delete_if (λ k. not (re.matches k) && not (is_reserved k)) labels)
                    else some labels))))

-- The relabelled metric.
abbrev pub rebuild : Metric → Option (Map String) → Option Metric
rebuild m none = none
rebuild m (some labels) =
    some (record m { name = read labels "__name__"; labels = delete "__name__" labels })

abbrev pub keep_some : Option Metric → List Metric → List Metric
keep_some none rest = rest
keep_some (some m) rest = m ∷ rest

module _ (compile : String → Option Regexp) where
  -- One round of the loop over the rules.
  unfoldable pub apply_rule : MetricRelabelConfig → Map String → Option (Map String)
  apply_rule rule labels = elim (compile (anchored rule)) [
    | none ↦ some labels
    | some re ↦
        act re (default_to "replace" rule.action) rule (source_text rule (read labels)) labels
  ]

  unfoldable pub apply_rules : List MetricRelabelConfig → Map String → Option (Map String)
  apply_rules [] labels = some labels
  apply_rules (rule ∷ rules) labels = and_then (apply_rule rule labels) (apply_rules rules)

  unfoldable pub relabel : List MetricRelabelConfig → Metric → Option Metric
  relabel rules m = rebuild m (apply_rules rules (insert_all (("__name__", m.name) ∷ []) m.labels))

  unfoldable pub relabel_each : List MetricRelabelConfig → List Metric → List Metric
  relabel_each rules [] = []
  relabel_each rules (m ∷ ms) = keep_some (relabel rules m) (relabel_each rules ms)

  unfoldable pub apply_metric_relabelings : List Metric → List MetricRelabelConfig → List Metric
  apply_metric_relabelings metrics [] = metrics
  apply_metric_relabelings metrics (rule ∷ rules) = relabel_each (rule ∷ rules) metrics
