-- ===== src/RemoteWrite/Collect/Laws.antt =====
-- What a collection from one target returns.
use prometheus_multi_tenant.Shared.{
  String, ◌≡◌, refl, sym, ap, subst, inl, inr, true, List, [], ◌∷◌, arith, All, Any, All-append,
  All-map, All-members, Bool-cases,
}
use prometheus_multi_tenant.Shared.Result.{Result, err, ok}
use prometheus_multi_tenant.Shared.Text.{has_prefix}
use prometheus_multi_tenant.Discovery.{Target}
use prometheus_multi_tenant.Api.{MetricAccess}
use prometheus_multi_tenant.RemoteWrite.Metric.{Metric}
use prometheus_multi_tenant.RemoteWrite.Collect.{
  query_pattern, node_query_pattern, flexible_query_pattern, or_nothing, is_simple, last_resort,
  after_node, fallback, after_standard, collect_pattern, collect_patterns, collect_from_target,
}

abbrev pub Member : {A : Type 0} → A → List A → Type 0
Member x xs = Any (λ y. y ≡ x) xs

ok_inj : {a b : List Metric} → ok a ≡ ok b → a ≡ b
ok_inj e = cc

module _ (ask : String → Result (List Metric)) where
  abbrev pub Answers : String → Metric → Type 0
  Answers query m = Member m (or_nothing (ask query))

  -- The metric answers one of the queries that the pattern allows.
  pub data Justified (ma : MetricAccess) (pattern : String) (m : Metric) : Type 0 where
    by_standard : Answers (query_pattern ma pattern) m → Justified ma pattern m
    by_node_exporter :
        is_simple pattern ≡ true
        → has_prefix pattern "node_" ≡ true
        → Answers (node_query_pattern pattern) m
        → Justified ma pattern m
    by_last_resort :
        is_simple pattern ≡ true
        → Answers (flexible_query_pattern pattern) m
        → Justified ma pattern m

  module _ (ma : MetricAccess) where
    last_resort-Justified :
        (p : String) → is_simple p ≡ true → All (Justified ma p) (last_resort ask p)
    unfolding last_resort
    last_resort-Justified p h =
        All-map (Answers (flexible_query_pattern p)) _ _ (λ m a. by_last_resort h a)
          (All-members (or_nothing (ask (flexible_query_pattern p))))

    after_node-Justified :
        (p : String) (r : Result (List Metric))
        → is_simple p ≡ true
        → has_prefix p "node_" ≡ true
        → ask (node_query_pattern p) ≡ r
        → All (Justified ma p) (after_node ask p r)
    unfolding after_node
    after_node-Justified p (err e) s n h = last_resort-Justified p s
    after_node-Justified p (ok []) s n h = last_resort-Justified p s
    after_node-Justified p (ok (m ∷ ms)) s n h =
        All-map (λ x. Member x (m ∷ ms)) _ (m ∷ ms)
          (λ x a. by_node_exporter s n (subst (λ r. Member x (or_nothing r)) (sym h) a))
          (All-members (m ∷ ms))

    fallback-Justified : (p : String) → All (Justified ma p) (fallback ask p)
    unfolding fallback
    fallback-Justified p = elim (Bool-cases (is_simple p)) [
      | inr f ↦ rw f tt
      | inl s ↦ elim (Bool-cases (has_prefix p "node_")) [
        | inl n ↦ rw (s, n) (after_node-Justified p _ s n refl)
        | inr f ↦ rw (s, f) (last_resort-Justified p s)
      ]
    ]

    after_standard-Justified :
        (p : String) (r : Result (List Metric))
        → ask (query_pattern ma p) ≡ r
        → All (Justified ma p) (after_standard ask p r)
    unfolding after_standard
    after_standard-Justified p (err e) h = tt
    after_standard-Justified p (ok []) h = fallback-Justified p
    after_standard-Justified p (ok (m ∷ ms)) h =
        All-map (λ x. Member x (m ∷ ms)) _ (m ∷ ms)
          (λ x a. by_standard (subst (λ r. Member x (or_nothing r)) (sym h) a))
          (All-members (m ∷ ms))

    collect_patterns-Justified :
        (ps : List String) → All (λ m. Any (λ p. Justified ma p m) ps) (collect_patterns ask ma ps)
    unfolding collect_patterns collect_pattern
    collect_patterns-Justified [] = tt
    collect_patterns-Justified (p ∷ ps) =
        All-append _ (collect_pattern ask ma p) (collect_patterns ask ma ps)
          (All-map (Justified ma p) _ _ (λ m j. inl j) (after_standard-Justified p _ refl))
          (All-map _ _ _ (λ m j. inr j) (collect_patterns-Justified ps))

    -- Whatever is collected from a target, each metric answers a query made for one of the
    -- resource's patterns: its standard query, or, for a simple pattern alone, the query of the
    -- node exporter's job or the one without selectors.
    pub collected_metrics-Justified :
        (target : Target) (ms : List Metric)
        → collect_from_target ask ma target ≡ ok ms
        → All (λ m. Any (λ p. Justified ma p m) ma.spec.metrics) ms
    unfolding collect_from_target
    collected_metrics-Justified target ms h = elim (Bool-cases target.healthy) [
      | inl up ↦
          subst (All (λ m. Any (λ p. Justified ma p m) ma.spec.metrics))
            (ok_inj (ground (arith, up, h))) (collect_patterns-Justified ma.spec.metrics)
      | inr down ↦ ground (arith, down, h)
    ]

    pub failing_patterns :
        (ps : List String)
        → ((query : String) → (e : String) × (ask query ≡ err e))
        → collect_patterns ask ma ps ≡ []
    unfolding collect_patterns collect_pattern after_standard
    failing_patterns [] fails = refl
    failing_patterns (p ∷ ps) fails =
        let (e, q) = fails (query_pattern ma p) in rw q (failing_patterns ps fails)

    -- An outage of a healthy target is no error: where every query of it fails, the collection
    -- returns successfully, with no metrics.
    pub failing_target_is_no_error :
        (target : Target)
        → target.healthy ≡ true
        → ((query : String) → (e : String) × (ask query ≡ err e))
        → collect_from_target ask ma target ≡ ok []
    unfolding collect_from_target
    failing_target_is_no_error target h fails =
        rw h (ap ok (failing_patterns ma.spec.metrics fails))
