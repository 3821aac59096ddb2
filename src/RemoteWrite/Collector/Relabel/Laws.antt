-- ===== src/RemoteWrite/Collector/Relabel/Laws.antt =====
-- Relabelling against a specification on label sets as functions, which forget the order and the
-- representation of a map.
use prometheus_multi_tenant.Shared.{
  String, ◌≡◌, refl, ap, Bool, not, ◌&&◌, Option, none, some, List, [], ◌∷◌, if◌then◌else◌, str_eq,
  arith, map, map_option, and_then, either, ◌∙◌, eq_iff, eq_refl, subst, Bool-cases, Option-cases,
  inl, inr, All,
}
use mathlib.Core.Path.{fun_ext, ap₂}
use prometheus_multi_tenant.Shared.Map.{
  Map, lookup, insert, NoDup, lookup-insert, lookup-delete, insert-NoDup,
}
use prometheus_multi_tenant.Api.{MetricRelabelConfig}
use prometheus_multi_tenant.RemoteWrite.Metric.{Metric}
use prometheus_multi_tenant.RemoteWrite.Collector.Relabel.{
  Regexp, default_to, insert_all, delete_if, or_empty, source_text, anchored, new_value,
  is_reserved, act, apply_rule, apply_rules, rebuild, relabel, keep_some, relabel_each,
  apply_metric_relabelings,
}
use prometheus_multi_tenant.RemoteWrite.Collector.Relabel.Spec.{
  Labels, view, put, without, spec_act, view_metric, initial, conclude, keep_seen, spec_rule,
  spec_rules, spec_relabel, spec_each, spec_relabelings,
}

-- At the key that the loop visits.
delete_if-at :
    (p : String → Bool) (j : String) (v : String) (m : Map String)
    → lookup j (delete_if p m) ≡ (if p j then none else lookup j m)
    → lookup j (delete_if p ((j, v) ∷ m)) ≡ (if p j then none else some v)
unfolding lookup delete_if
delete_if-at p j v m h = ground (arith, h, eq_refl j)

pub lookup-delete_if :
    (p : String → Bool) (m : Map String) (k : String)
    → lookup k (delete_if p m) ≡ (if p k then none else lookup k m)
unfolding lookup delete_if
lookup-delete_if p [] k = ground arith
lookup-delete_if p ((j, v) ∷ m) k = elim (Bool-cases (str_eq j k)) [
  | inl same ↦ rw same (
      subst (λ x. lookup x (delete_if p ((j, v) ∷ m)) ≡ (if p x then none else some v))
        ((eq_iff j k).0 same) (delete_if-at p j v m (lookup-delete_if p m j)))
  | inr other ↦ ground (arith, lookup-delete_if p m k)
]

-- The entries of the loop win over those of the map before it.
pub lookup-insert_all :
    (m entries : Map String) (k : String)
    → NoDup entries
    → lookup k (insert_all m entries) ≡ either (lookup k entries) (lookup k m)
unfolding lookup insert_all
lookup-insert_all m [] k h = refl
lookup-insert_all m ((j, v) ∷ rest) k h = elim (Bool-cases (str_eq j k)) [
  | inl same ↦
      let fresh : lookup k rest ≡ none =
        subst (λ x. lookup x rest ≡ none) ((eq_iff j k).0 same) h.0 in
      rw same
        (ground (arith, lookup-insert_all (insert j v m) rest k h.1, lookup-insert j k v m, fresh))
  | inr other ↦ ground (arith, lookup-insert_all (insert j v m) rest k h.1, lookup-insert j k v m)
]

act-view :
    (re : Regexp) (action : String) (rule : MetricRelabelConfig) (text : String)
    (labels : Map String)
    → map_option view (act re action rule text labels) ≡ spec_act re action rule text (view labels)
unfolding act
act-view re action rule text labels =
    let replaced : view (insert rule.target_label (new_value re rule text) labels)
        ≡ put rule.target_label (new_value re rule text) (view labels) =
      fun_ext (λ k. lookup-insert rule.target_label k (new_value re rule text) labels) in
    let dropped : (p : String → Bool) → view (delete_if p labels) ≡ without p (view labels) =
      (λ p. fun_ext (lookup-delete_if p labels)) in
    ground (
      arith,
      replaced,
      dropped re.matches,
      dropped (λ k. not (re.matches k) && not (is_reserved k)),
    )

rebuild-view :
    (m : Metric) (result : Option (Map String))
    → map_option view_metric (rebuild m result)
      ≡ conclude m.value m.timestamp (map_option view result)
rebuild-view m none = refl
rebuild-view m (some labels) =
    ap (λ l. some (or_empty (lookup "__name__" labels), l, m.value, m.timestamp))
      (fun_ext (λ k. lookup-delete "__name__" k labels))

initial-view :
    (m : Metric)
    → NoDup m.labels
    → view (insert_all (("__name__", m.name) ∷ []) m.labels) ≡ initial m.name (view m.labels)
unfolding lookup
initial-view m h = fun_ext (λ k. lookup-insert_all (("__name__", m.name) ∷ []) m.labels k h)

keep_some-view :
    (o : Option Metric) (rest : List Metric)
    → map view_metric (keep_some o rest)
      ≡ keep_seen (map_option view_metric o) (map view_metric rest)
keep_some-view none rest = refl
keep_some-view (some m) rest = refl

module _ (compile : String → Option Regexp) where
  apply_rule-view :
      (rule : MetricRelabelConfig) (labels : Map String)
      → map_option view (apply_rule compile rule labels) ≡ spec_rule compile rule (view labels)
  unfolding apply_rule spec_rule
  apply_rule-view rule labels = elim (Option-cases (compile (anchored rule))) [
    | inl e ↦ rw (map_option, spec_rule, e) refl
    | inr (re, e) ↦
        rw (map_option, spec_rule, e)
          (act-view re (default_to "replace" rule.action) rule
            (source_text rule (λ k. or_empty (lookup k labels))) labels)
  ]

  and_then-view :
      (o : Option (Map String)) (f : Map String → Option (Map String)) (g : Labels → Option Labels)
      → ((m : Map String) → map_option view (f m) ≡ g (view m))
      → map_option view (and_then o f) ≡ and_then (map_option view o) g
  and_then-view none f g h = refl
  and_then-view (some m) f g h = h m

  apply_rules-view :
      (rules : List MetricRelabelConfig) (labels : Map String)
      → map_option view (apply_rules compile rules labels) ≡ spec_rules compile rules (view labels)
  unfolding apply_rules spec_rules
  apply_rules-view [] labels = refl
  apply_rules-view (rule ∷ rules) labels =
      and_then-view (apply_rule compile rule labels) (apply_rules compile rules)
        (spec_rules compile rules) (apply_rules-view rules)
      ∙ ap (λ o. and_then o (spec_rules compile rules)) (apply_rule-view rule labels)

  relabel-view :
      (rules : List MetricRelabelConfig) (m : Metric)
      → NoDup m.labels
      → map_option view_metric (relabel compile rules m)
        ≡ spec_relabel compile rules (view_metric m)
  unfolding relabel
  relabel-view rules m h =
      let start = insert_all (("__name__", m.name) ∷ []) m.labels in
      rebuild-view m (apply_rules compile rules start)
      ∙ ap (conclude m.value m.timestamp)
          (apply_rules-view rules start ∙ ap (spec_rules compile rules) (initial-view m h))

  relabel_each-view :
      (rules : List MetricRelabelConfig) (ms : List Metric)
      → All (λ m. NoDup m.labels) ms
      → map view_metric (relabel_each compile rules ms)
        ≡ spec_each compile rules (map view_metric ms)
  unfolding relabel_each
  relabel_each-view rules [] h = refl
  relabel_each-view rules (m ∷ ms) h =
      keep_some-view (relabel compile rules m) (relabel_each compile rules ms)
      ∙ ap₂ keep_seen (relabel-view rules m h.0) (relabel_each-view rules ms h.1)

  -- Relabelling implements its specification on label sets as functions, for metrics whose labels
  -- have distinct names: each metric in turn goes through the rules in order, a rule whose
  -- expression does not compile changes nothing, and a metric that a rule drops leaves the result.
  pub apply_metric_relabelings_refines :
      (metrics : List Metric) (rules : List MetricRelabelConfig)
      → All (λ m. NoDup m.labels) metrics
      → map view_metric (apply_metric_relabelings compile metrics rules)
        ≡ spec_relabelings compile rules (map view_metric metrics)
  unfolding apply_metric_relabelings
  apply_metric_relabelings_refines metrics [] h = refl
  apply_metric_relabelings_refines metrics (rule ∷ rules) h =
      relabel_each-view (rule ∷ rules) metrics h

pub insert_all-NoDup : (m entries : Map String) → NoDup m → NoDup (insert_all m entries)
unfolding insert_all
insert_all-NoDup m [] h = h
insert_all-NoDup m ((k, v) ∷ entries) h =
    insert_all-NoDup (insert k v m) entries (insert-NoDup k v m h)
