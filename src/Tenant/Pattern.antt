-- ===== src/Tenant/Pattern.antt =====
-- Metric patterns (internal/tenant/manager.go): their parser and what they match. Compiling a
-- regular expression is a parameter, which returns the matcher.
pub mod Laws
use prometheus_multi_tenant.Shared.{
  ℕ, String, Bool, true, false, ◌&&◌, ◌||◌, Option, none, some, List, [], ◌∷◌, str_eq, ◌==◌,
  if◌then◌else◌,
}
use prometheus_multi_tenant.Shared.Map.{Map, lookup, insert}
use prometheus_multi_tenant.Shared.Text.{
  is_empty, contains_any, contains_char, has_prefix, has_last, trim, trim_space, trim_last, split,
  cut, join,
}

pub data PatternType : Type 0 where
  exact regex promql : PatternType

pub record MetricPattern : Type 0 where
  pub pattern : String
  pub matcher : Option (String → Bool)
  pub type : PatternType
  pub selector : Map String

abbrev is_brace : ℕ → Bool
is_brace c = c == b'{' || c == b'}'

abbrev is_quote : ℕ → Bool
is_quote c = c == b'"' || c == 39

-- `.*+?^$[](){}|\`
abbrev pub is_metacharacter : ℕ → Bool
is_metacharacter c =
    c == b'.'
    || c == b'*'
    || c == b'+'
    || c == b'?'
    || c == b'^'
    || c == b'$'
    || c == b'['
    || c == b']'
    || c == b'('
    || c == b')'
    || c == b'{'
    || c == b'}'
    || c == b'|'
    || c == 92

-- One part between commas: `key="value"`.
unfoldable pub add_part : Map String → String → Map String
add_part labels part =
    let trimmed = trim_space part in
    if is_empty trimmed then labels else elim (cut b'=' trimmed) [
      | none ↦ labels
      | some (key, value) ↦ insert (trim_space key) (trim is_quote (trim_space value)) labels
    ]

unfoldable pub add_parts : Map String → List String → Map String
add_parts labels [] = labels
add_parts labels (part ∷ rest) = add_parts (add_part labels part) rest

unfoldable pub parse_promql_selector : String → Map String
unfolding add_parts add_part
parse_promql_selector selector = add_parts [] (split b',' (trim is_brace selector))

with_name : String → Map String → Map String
with_name name labels = if is_empty name then labels else insert "__name__" name labels

unfoldable pub parse_metric_with_labels : String → Option (Map String)
unfolding with_name
parse_metric_with_labels metric = elim (cut b'{' metric) [
  | none ↦ none
  | some (name, rest) ↦ some (
      with_name (trim_space name)
        (parse_promql_selector (join "{" (join (trim_last b'}' rest) "}"))))
]

module _ (compile : String → Option (String → Bool)) where
  pub labelled : String → Option (Map String) → Option MetricPattern
  labelled metric none = none
  labelled metric (some selector) =
      some (record { pattern = metric; matcher = none; type = promql; selector = selector })

  pub compiled : String → Option (String → Bool) → Option MetricPattern
  compiled metric none = none
  compiled metric (some matches) =
      some (record { pattern = metric; matcher = some matches; type = regex; selector = [] })

  -- `none` is an error, on which the caller skips the pattern.
  unfoldable pub parse_metric_pattern : String → Option MetricPattern
  unfolding labelled compiled
  parse_metric_pattern metric =
      if has_prefix metric "{" && has_last b'}' metric
      then labelled metric (some (parse_promql_selector metric))
      else if contains_char b'{' metric && contains_char b'}' metric
      then labelled metric (parse_metric_with_labels metric)
      else if contains_any is_metacharacter metric
      then compiled metric (compile metric)
      else some (record { pattern = metric; matcher = none; type = exact; selector = [] })

  unfoldable pub parse_metric_patterns : List String → List MetricPattern
  parse_metric_patterns [] = []
  parse_metric_patterns (metric ∷ rest) = elim (parse_metric_pattern metric) [
    | none ↦ parse_metric_patterns rest
    | some p ↦ p ∷ parse_metric_patterns rest
  ]

-- `actualValue, exists := labels[key]; exists && actualValue == expectedValue`
abbrev pub has_value : Option String → String → Bool
has_value none expected = false
has_value (some actual) expected = str_eq actual expected

-- The loop over the selectors, which returns false at the first that fails.
unfoldable pub labels_match : Map String → Map String → Bool
labels_match [] labels = true
labels_match ((key, expected) ∷ rest) labels =
    let later = labels_match rest labels in
    if has_value (lookup key labels) expected then later else false

-- The same, past the entries for `__name__`.
unfoldable pub other_labels_match : Map String → Map String → Bool
other_labels_match [] labels = true
other_labels_match ((key, expected) ∷ rest) labels =
    let later = other_labels_match rest labels in
    if str_eq key "__name__"
    then later
    else if has_value (lookup key labels) expected
    then later
    else false

abbrev name_matches : Option String → String → Bool
name_matches none name = true
name_matches (some expected) name = str_eq name expected

unfoldable pub matches_promql_selector : Map String → String → Map String → Bool
unfolding other_labels_match
matches_promql_selector selector name labels =
    if name_matches (lookup "__name__" selector) name
    then other_labels_match selector labels
    else false

abbrev regex_matches : Option (String → Bool) → String → Bool
regex_matches none name = false
regex_matches (some matches) name = matches name

abbrev matches_by_type : PatternType → MetricPattern → String → Map String → Bool
matches_by_type exact p name labels = str_eq name p.pattern
matches_by_type regex p name labels = regex_matches p.matcher name
matches_by_type promql p name labels = matches_promql_selector p.selector name labels

unfoldable pub matches_pattern : MetricPattern → String → Map String → Bool
matches_pattern p name labels = matches_by_type p.type p name labels

-- The selectors without the one for the namespace, which the code copies out of the map.
unfoldable pub without_namespace : Map String → Map String
without_namespace [] = []
without_namespace ((key, value) ∷ rest) =
    let others = without_namespace rest in
    if str_eq key "namespace" then others else (key, value) ∷ others

by_namespace : Map String → Map String → Option String → Bool
by_namespace selectors labels none = labels_match selectors labels
by_namespace selectors labels (some namespace) =
    if has_value (lookup "namespace" labels) namespace
    then labels_match (without_namespace selectors) labels
    else false

unfoldable pub matches_label_selectors : Map String → Map String → Bool
unfolding by_namespace without_namespace labels_match
matches_label_selectors [] labels = true
matches_label_selectors (s ∷ rest) labels =
    by_namespace (s ∷ rest) labels (lookup "namespace" (s ∷ rest))
