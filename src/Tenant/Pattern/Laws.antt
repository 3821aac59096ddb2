-- ===== src/Tenant/Pattern/Laws.antt =====
-- What a pattern and a set of label selectors grant.
use prometheus_multi_tenant.Shared.{
  String, ◌≡◌, refl, sym, ap, ◌↔◌, Bool, true, false, Option, none, some, [], ◌∷◌, arith, str_eq,
  eq_iff, eq_refl, if◌then◌else◌, Bool-cases, inl, inr,
}
use prometheus_multi_tenant.Shared.Map.{Map, lookup, NoDup}
use prometheus_multi_tenant.Shared.Text.{contains_any, contains_char, has_prefix}
use prometheus_multi_tenant.Tenant.Pattern.{
  MetricPattern, exact, is_metacharacter, parse_metric_pattern, matches_pattern, has_value,
  labels_match, without_namespace, by_namespace, matches_label_selectors,
}

-- The labels carry every selector.
abbrev pub Carries : Map String → Map String → Type 0
Carries selectors labels = (k v : String) → lookup k selectors ≡ some v → lookup k labels ≡ some v

has_value_iff : (o : Option String) (v : String) → (has_value o v ≡ true) ↔ (o ≡ some v)
has_value_iff none v = ground arith
has_value_iff (some a) v = ground (arith, eq_iff a v)

-- The copy without the namespace, and the check of the namespace, amount to the plain loop.
labels_match-without :
    (selectors labels : Map String)
    → NoDup selectors
    → lookup "namespace" selectors ≡ none
    → without_namespace selectors ≡ selectors
unfolding without_namespace lookup
labels_match-without [] labels d h = refl
labels_match-without ((k, v) ∷ rest) labels d h =
    ground (arith, labels_match-without rest labels d.1)

split_namespace :
    (selectors labels : Map String) (namespace : String)
    → NoDup selectors
    → lookup "namespace" selectors ≡ some namespace
    → labels_match selectors labels ≡ (
        if has_value (lookup "namespace" labels) namespace
        then labels_match (without_namespace selectors) labels
        else false)
unfolding labels_match without_namespace lookup
split_namespace [] labels namespace d h = cc
split_namespace ((k, v) ∷ rest) labels namespace d h = elim (Bool-cases (str_eq k "namespace")) [
  | inl e ↦
      let same = (eq_iff k "namespace").0 e in
      ground (
        arith,
        e,
        h,
        same,
        ap (λ i. lookup i labels) same,
        labels_match-without rest labels d.1,
        ap (λ i. lookup i rest) same,
        d.0,
      )
  | inr e ↦ ground (arith, e, h, split_namespace rest labels namespace d.1)
]

later_carried :
    (key value : String) (rest labels : Map String)
    → NoDup ((key, value) ∷ rest)
    → Carries ((key, value) ∷ rest) labels
    → Carries rest labels
unfolding lookup
later_carried key value rest labels d c k v e = elim (Bool-cases (str_eq key k)) [
  | inl q ↦ cc (d.0, e, ap (λ i. lookup i rest) ((eq_iff key k).0 q))
  | inr q ↦ c k v (ground (arith, q, e))
]

labels_match-Carries :
    (selectors labels : Map String)
    → NoDup selectors
    → (labels_match selectors labels ≡ true) ↔ Carries selectors labels
unfolding labels_match lookup
labels_match-Carries [] labels d = ((λ h k v e. cc), (λ c. refl))
labels_match-Carries ((key, value) ∷ rest) labels d = (
  (λ h k v e. elim (Bool-cases (str_eq key k)) [
    | inl q ↦
        let same = (eq_iff key k).0 q in
        ground
          (arith, q, e, h, has_value_iff (lookup key labels) value, ap (λ i. lookup i labels) same)
    | inr q ↦
        (labels_match-Carries rest labels d.1).0 (ground (arith, h)) k v (ground (arith, q, e))
  ]),
  (λ c.
      rw
        (
          (has_value_iff (lookup key labels) value).1 (c key value (rw (eq_refl key))),
          (labels_match-Carries rest labels d.1).1 (later_carried key value rest labels d c),
        )
        refl),
)

by_namespace-labels_match :
    (selectors labels : Map String) (o : Option String)
    → NoDup selectors
    → lookup "namespace" selectors ≡ o
    → by_namespace selectors labels o ≡ labels_match selectors labels
unfolding by_namespace
by_namespace-labels_match selectors labels none d e = refl
by_namespace-labels_match selectors labels (some namespace) d e =
    sym (split_namespace selectors labels namespace d e)

matches-labels_match :
    (selectors labels : Map String)
    → NoDup selectors
    → matches_label_selectors selectors labels ≡ labels_match selectors labels
unfolding matches_label_selectors
matches-labels_match [] labels d = refl
matches-labels_match (s ∷ rest) labels d =
    by_namespace-labels_match (s ∷ rest) labels (lookup "namespace" (s ∷ rest)) d refl

-- The special treatment of the namespace changes nothing: the check passes exactly when the labels
-- carry every selector, for selectors without a double key.
pub matches_label_selectors_iff :
    (selectors labels : Map String)
    → NoDup selectors
    → (matches_label_selectors selectors labels ≡ true) ↔ Carries selectors labels
matches_label_selectors_iff selectors labels d =
    rw (matches-labels_match selectors labels d) (labels_match-Carries selectors labels d)

not_brace : (s : String) → contains_any is_metacharacter s ≡ false → contains_char b'{' s ≡ false
unfolding contains_any
not_brace String.[] h = refl
not_brace (String.◌∷◌ c s) h = ground (arith, not_brace s)

not_brace_prefix : (s : String) → contains_char b'{' s ≡ false → has_prefix s "{" ≡ false
unfolding contains_any has_prefix
not_brace_prefix String.[] h = refl
not_brace_prefix (String.◌∷◌ c s) h = ground arith

-- A pattern with no metacharacter grants the metric of that name and no other.
pub exact_grants :
    (compile : String → Option (String → Bool)) (metric name : String) (labels : Map String)
    → contains_any is_metacharacter metric ≡ false
    → (p : MetricPattern) × (parse_metric_pattern compile metric ≡ some p)
      × ((matches_pattern p name labels ≡ true) ↔ (name ≡ metric))
unfolding parse_metric_pattern matches_pattern
exact_grants compile metric name labels h =
    let no_brace = not_brace metric h in
    (
      record { pattern = metric; matcher = none; type = exact; selector = [] },
      rw (not_brace_prefix metric no_brace, no_brace, h) refl,
      eq_iff name metric,
    )
