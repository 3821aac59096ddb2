-- ===== src/RemoteWrite/Dedup/Laws.antt =====
-- What deduplication keeps: one sample of each series, the highest.
use prometheus_multi_tenant.Shared.{
  ℕ, String, ◌≡◌, refl, ap, sym, ◌∙◌, subst, true, false, some, List, [], ◌∷◌, arith, Bool-cases,
  inl, inr, All, Any, some_inj, All-members,
}
use prometheus_multi_tenant.Shared.Float.{
  gt, is_nan, gt_irrefl, not_gt_trans, gt_asym, nan_not_exceeded,
}
use prometheus_multi_tenant.Shared.Map.{Map}
use prometheus_multi_tenant.RemoteWrite.Metric.{Metric}
use prometheus_multi_tenant.RemoteWrite.Dedup.{MetricKey, key_eq, metric_key, deduplicate_metrics}
use prometheus_multi_tenant.RemoteWrite.Dedup.Reference.{
  key_eq→eq, key_eq_refl, absorb, merge_onto, deduplicate_metrics-merge_onto,
}

module _ (fingerprint : Map String → ℕ) where
  abbrev key : Metric → MetricKey
  key = metric_key fingerprint

  -- `r` stands for the series of `m`, with a value that `m` does not exceed.
  pub record Covers (m r : Metric) : Type 0 where
    pub series : key r ≡ key m
    pub highest : gt m.value r.value ≡ false

  abbrev pub IsNumber : Metric → Type 0
  IsNumber m = is_nan m.value ≡ false

  -- No entry has the key.
  abbrev pub Lacks : MetricKey → List Metric → Type 0
  Lacks k = All (λ r. key_eq (key r) k ≡ false)

  -- Each series stands once.
  abbrev pub Unique : List Metric → Type 0
  Unique [] = Unit
  Unique (r ∷ rs) = Lacks (key r) rs × Unique rs

  absorb-All :
      (P : Metric → Type 0) (m : Metric) (rs : List Metric)
      → P m
      → All P rs
      → All P (absorb fingerprint m rs)
  unfolding absorb
  absorb-All P m [] h a = (h, tt)
  absorb-All P m (r ∷ rs) h a = ground (arith, absorb-All P m rs h a.1)

  absorb-Covers : (m : Metric) (rs : List Metric) → Any (Covers m) (absorb fingerprint m rs)
  unfolding absorb
  absorb-Covers m [] = inl (record { series = refl; highest = gt_irrefl m.value })
  absorb-Covers m (r ∷ rs) = elim (Bool-cases (key_eq (key r) (key m))) [
    | inl e ↦ elim (Bool-cases (gt m.value r.value)) [
      | inl h ↦ rw (e, h) (inl (record { series = refl; highest = gt_irrefl m.value }))
      | inr h ↦ rw (e, h) (inl (record { series = key_eq→eq (key r) (key m) e; highest = h }))
    ]
    | inr e ↦ rw e (inr (absorb-Covers m rs))
  ]

  Covers-trans :
      (n m r : Metric)
      → IsNumber r
      → Covers n r
      → key r ≡ key m
      → gt m.value r.value ≡ true
      → Covers n m
  Covers-trans n m r num c e h = record {
    series = sym e ∙ c.series;
    highest = not_gt_trans n.value r.value m.value num c.highest (gt_asym m.value r.value h);
  }

  absorb-keeps :
      (n m : Metric) (rs : List Metric)
      → All IsNumber rs
      → Any (Covers n) rs
      → Any (Covers n) (absorb fingerprint m rs)
  unfolding absorb
  absorb-keeps n m [] num a = absurd a
  absorb-keeps n m (r ∷ rs) num (inl c) = elim (Bool-cases (key_eq (key r) (key m))) [
    | inl e ↦ elim (Bool-cases (gt m.value r.value)) [
      | inl h ↦ rw (e, h) (inl (Covers-trans n m r num.0 c (key_eq→eq (key r) (key m) e) h))
      | inr h ↦ rw (e, h) (inl c)
    ]
    | inr e ↦ rw e (inl c)
  ]
  absorb-keeps n m (r ∷ rs) num (inr a) = elim (Bool-cases (key_eq (key r) (key m))) [
    | inl e ↦ elim (Bool-cases (gt m.value r.value)) [
      | inl h ↦ rw (e, h) (inr a)
      | inr h ↦ rw (e, h) (inr a)
    ]
    | inr e ↦ rw e (inr (absorb-keeps n m rs num.1 a))
  ]

  key_eq_sym : (j k : MetricKey) → key_eq j k ≡ false → key_eq k j ≡ false
  key_eq_sym j k h = elim (Bool-cases (key_eq k j)) [
    | inl e ↦ cc (h, key_eq_refl k, ap (λ i. key_eq i k) (key_eq→eq k j e))
    | inr e ↦ e
  ]

  absorb-Unique : (m : Metric) (rs : List Metric) → Unique rs → Unique (absorb fingerprint m rs)
  unfolding absorb
  absorb-Unique m [] u = (tt, tt)
  absorb-Unique m (r ∷ rs) u = elim (Bool-cases (key_eq (key r) (key m))) [
    | inl e ↦ elim (Bool-cases (gt m.value r.value)) [
      | inl h ↦ rw (e, h) (subst (λ k. Lacks k rs) (key_eq→eq (key r) (key m) e) u.0, u.1)
      | inr h ↦ rw (e, h) u
    ]
    | inr e ↦ rw e (
      absorb-All (λ x. key_eq (key x) (key r) ≡ false) m rs (key_eq_sym (key r) (key m) e) u.0,
      absorb-Unique m rs u.1,
    )
  ]

  merge-Unique : (rs ms : List Metric) → Unique rs → Unique (merge_onto fingerprint rs ms)
  unfolding merge_onto
  merge-Unique rs [] u = u
  merge-Unique rs (m ∷ ms) u = merge-Unique (absorb fingerprint m rs) ms (absorb-Unique m rs u)

  merge-All :
      (P : Metric → Type 0) (rs ms : List Metric)
      → All P rs
      → All P ms
      → All P (merge_onto fingerprint rs ms)
  unfolding merge_onto
  merge-All P rs [] a b = a
  merge-All P rs (m ∷ ms) a b =
      merge-All P (absorb fingerprint m rs) ms (absorb-All P m rs b.0 a) b.1

  merge-keeps :
      (n : Metric) (rs ms : List Metric)
      → All IsNumber rs
      → All IsNumber ms
      → Any (Covers n) rs
      → Any (Covers n) (merge_onto fingerprint rs ms)
  unfolding merge_onto
  merge-keeps n rs [] a b c = c
  merge-keeps n rs (m ∷ ms) a b c =
      merge-keeps n (absorb fingerprint m rs) ms (absorb-All IsNumber m rs b.0 a) b.1
        (absorb-keeps n m rs a c)

  merge-Covers :
      (rs ms : List Metric)
      → All IsNumber rs
      → All IsNumber ms
      → All (λ m. Any (Covers m) (merge_onto fingerprint rs ms)) ms
  unfolding merge_onto
  merge-Covers rs [] a b = tt
  merge-Covers rs (m ∷ ms) a b =
      let a' = absorb-All IsNumber m rs b.0 a in
      (
        merge-keeps m (absorb fingerprint m rs) ms a' b.1 (absorb-Covers m rs),
        merge-Covers (absorb fingerprint m rs) ms a' b.1,
      )

  nan_stays :
      (m : Metric) (ms : List Metric)
      → is_nan m.value ≡ true
      → All (λ n. key n ≡ key m) ms
      → merge_onto fingerprint (m ∷ []) ms ≡ m ∷ []
  unfolding merge_onto absorb
  nan_stays m [] nan same = refl
  nan_stays m (n ∷ ms) nan same =
      rw
        (
          ap (λ k. key_eq (key m) k) same.0 ∙ key_eq_refl (key m),
          nan_not_exceeded n.value m.value nan,
        )
        (nan_stays m ms nan same.1)

  -- Deduplication always returns, never by an index out of range, a list in which each series, a
  -- name with a fingerprint, stands once, and whose every entry is one of the metrics.
  pub deduplicate_metrics-Unique :
      (ms : List Metric)
      → (rs : List Metric) × (deduplicate_metrics fingerprint ms ≡ some rs)
        × Unique rs
        × All (λ r. Any (λ m. m ≡ r) ms) rs
  deduplicate_metrics-Unique ms = (
    merge_onto fingerprint [] ms,
    deduplicate_metrics-merge_onto fingerprint ms,
    merge-Unique [] ms tt,
    merge-All (λ r. Any (λ m. m ≡ r) ms) [] ms tt (All-members ms),
  )

  -- Where no value is a NaN, every metric is covered by an entry of its series, whose value the
  -- metric's does not exceed: the highest value is kept, as the comment on the routine says.
  pub deduplicate_metrics_keeps_highest :
      (ms rs : List Metric)
      → All IsNumber ms
      → deduplicate_metrics fingerprint ms ≡ some rs
      → All (λ m. Any (Covers m) rs) ms
  deduplicate_metrics_keeps_highest ms rs num e =
      subst (λ xs. All (λ m. Any (Covers m) xs) ms)
        (some_inj (sym (deduplicate_metrics-merge_onto fingerprint ms) ∙ e))
        (merge-Covers [] ms tt num)

  -- Among the samples of one series, a NaN that comes first stays: it alone is kept.
  pub nan_sticks :
      (m : Metric) (ms : List Metric)
      → is_nan m.value ≡ true
      → All (λ n. key n ≡ key m) ms
      → deduplicate_metrics fingerprint (m ∷ ms) ≡ some (m ∷ [])
  nan_sticks m ms nan same =
      deduplicate_metrics-merge_onto fingerprint (m ∷ ms)
      ∙ ap some (unfold merge_onto absorb in nan_stays m ms nan same)
