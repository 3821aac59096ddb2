-- ===== src/RemoteWrite/Dedup/Reference.antt =====
-- The routine without its index map: each metric is merged into the entry with its key.
use prometheus_multi_tenant.Shared.{
  ℕ, zero, suc, String, ◌≡◌, refl, ap, sym, ◌∙◌, true, Option, none, some, List, [], ◌∷◌, ◌++◌,
  arith, eq_iff, if◌then◌else◌, length, get_elem?, set, map_option, some_inj, Bool-cases, inl, inr,
}
use prometheus_multi_tenant.Shared.Float.{gt}
use prometheus_multi_tenant.Shared.Map.{Map}
use prometheus_multi_tenant.RemoteWrite.Metric.{Metric}
use prometheus_multi_tenant.RemoteWrite.Dedup.{
  MetricKey, key_eq, seen_at, Progress, metric_key, replace_at, place, dedup_loop,
  deduplicate_metrics,
}

pub key_eq→eq : (j k : MetricKey) → key_eq j k ≡ true → j ≡ k
key_eq→eq (n, f) (m, g) h = ground (arith, eq_iff n m)

pub key_eq_refl : (k : MetricKey) → key_eq k k ≡ true
key_eq_refl (n, f) = ground (arith, eq_iff n n)

none-ne-some {ℓ} : {A : Type ℓ} {a : A} → none ≡ some a → ⊥
none-ne-some h = cc

map_suc-ne-zero : (o : Option ℕ) → map_option suc o ≡ some 0 → ⊥
map_suc-ne-zero none h = cc
map_suc-ne-zero (some i) h = ground arith

map_suc_inj : (o : Option ℕ) (i : ℕ) → map_option suc o ≡ some (suc i) → o ≡ some i
map_suc_inj none i h = cc
map_suc_inj (some j) i h = ground arith

module _ (fingerprint : Map String → ℕ) where
  abbrev key : Metric → MetricKey
  key = metric_key fingerprint

  unfoldable pub absorb : Metric → List Metric → List Metric
  absorb m [] = m ∷ []
  absorb m (r ∷ rest) =
      if key_eq (key r) (key m)
      then if gt m.value r.value then m ∷ rest else r ∷ rest
      else r ∷ absorb m rest

  unfoldable pub merge_onto : List Metric → List Metric → List Metric
  merge_onto result [] = result
  merge_onto result (m ∷ ms) = merge_onto (absorb m result) ms

  -- The place of the first entry with the key.
  index_of : MetricKey → List Metric → Option ℕ
  index_of k [] = none
  index_of k (r ∷ rest) = if key_eq (key r) k then some 0 else map_option suc (index_of k rest)

  -- The map holds each key's place.
  abbrev Indexed : Progress → Type 0
  Indexed p = (k : MetricKey) → seen_at k p.seen ≡ index_of k p.result

  merged_at : Metric → List Metric → ℕ → Option Metric → Option (List Metric)
  merged_at m rs i none = none
  merged_at m rs i (some r) = some (if gt m.value r.value then set rs i m else rs)

  -- What a round does to the result, by the place of its key.
  merged : Metric → List Metric → Option ℕ → Option (List Metric)
  merged m rs none = some (rs ++ m ∷ [])
  merged m rs (some i) = merged_at m rs i (get_elem? rs i)

  cons_merged :
      (m r : Metric) (rs : List Metric) (o : Option ℕ)
      → merged m (r ∷ rs) (map_option suc o) ≡ map_option (λ l. r ∷ l) (merged m rs o)
  unfolding merged merged_at
  cons_merged m r rs none = refl
  cons_merged m r rs (some i) = ground arith

  absorb-merged :
      (m : Metric) (rs : List Metric) → merged m rs (index_of (key m) rs) ≡ some (absorb m rs)
  unfolding absorb index_of merged merged_at
  absorb-merged m [] = refl
  absorb-merged m (r ∷ rs) = elim (Bool-cases (key_eq (key r) (key m))) [
    | inl e ↦ rw e (ground arith)
    | inr e ↦ rw e (
        cons_merged m r rs (index_of (key m) rs)
        ∙ ap (map_option (λ l. r ∷ l)) (absorb-merged m rs))
  ]

  index_of-append :
      (k : MetricKey) (m : Metric) (rs : List Metric)
      → index_of k (rs ++ m ∷ []) ≡ elim (index_of k rs) [
        | some i ↦ some i
        | none ↦ if key_eq (key m) k then some (length rs) else none
      ]
  unfolding index_of
  index_of-append k m [] = ground arith
  index_of-append k m (r ∷ rs) = ground (arith, index_of-append k m rs)

  index_of-set :
      (k : MetricKey) (m : Metric) (rs : List Metric) (i : ℕ)
      → index_of (key m) rs ≡ some i
      → index_of k (set rs i m) ≡ index_of k rs
  unfolding index_of
  index_of-set k m [] i h = refl
  index_of-set k m (r ∷ rs) zero h = elim (Bool-cases (key_eq (key r) (key m))) [
    | inl e ↦
        ap (λ (j : MetricKey). if key_eq j k then some 0 else map_option suc (index_of k rs))
          (sym (key_eq→eq (key r) (key m) e))
    | inr e ↦ absurd (map_suc-ne-zero (index_of (key m) rs) (ground (arith, h, e)))
  ]
  index_of-set k m (r ∷ rs) (suc i) h = elim (Bool-cases (key_eq (key r) (key m))) [
    | inl e ↦ cc (rw e at h)
    | inr e ↦
        ground (arith, index_of-set k m rs i (map_suc_inj (index_of (key m) rs) i (rw e at h)))
  ]

  appended-Indexed :
      (p : Progress) (m : Metric)
      → Indexed p
      → index_of (key m) p.result ≡ none
      → Indexed (record { seen = (key m, length p.result) ∷ p.seen; result = p.result ++ m ∷ [] })
  unfolding seen_at
  appended-Indexed p m ix e k = elim (Bool-cases (key_eq (key m) k)) [
    | inl h ↦ ground (
      arith,
      h,
      index_of-append k m p.result,
      e,
      ap (λ j. index_of j p.result) (key_eq→eq (key m) k h),
    )
    | inr h ↦ ground (arith, h, index_of-append k m p.result, ix k)
  ]

  -- A round neither panics nor loses the places, and merges the metric.
  abbrev Merges : Metric → Progress → Option Progress → Type 0
  Merges m p o = (q : Progress) × (o ≡ some q) × Indexed q × (q.result ≡ absorb m p.result)

  absorbed :
      (p : Progress) (m : Metric) (i : ℕ) (o : Option Metric)
      → index_of (key m) p.result ≡ some i
      → get_elem? p.result i ≡ o
      → merged_at m p.result i o ≡ some (absorb m p.result)
  unfolding merged
  absorbed p m i o e g =
      sym (ap (merged_at m p.result i) g)
      ∙ sym (ap (merged m p.result) e)
      ∙ absorb-merged m p.result

  replace_lem :
      (p : Progress) (m : Metric) (i : ℕ) (o : Option Metric)
      → Indexed p
      → index_of (key m) p.result ≡ some i
      → get_elem? p.result i ≡ o
      → Merges m p (replace_at fingerprint p m i o)
  unfolding replace_at merged_at
  replace_lem p m i none ix e g = absurd (none-ne-some (absorbed p m i none e g))
  replace_lem p m i (some r) ix e g =
      let result = some_inj (absorbed p m i (some r) e g) in
      elim (Bool-cases (gt m.value r.value)) [
        | inl h ↦ (
          record p { result = set p.result i m },
          rw h refl,
          (λ k. ix k ∙ sym (index_of-set k m p.result i e)),
          rw h at result,
        )
        | inr h ↦ (p, rw h refl, ix, rw h at result)
      ]

  place_lem :
      (p : Progress) (m : Metric) (o : Option ℕ)
      → Indexed p
      → index_of (key m) p.result ≡ o
      → Merges m p (place fingerprint p m o)
  unfolding place merged
  place_lem p m none ix e = (
    record { seen = (key m, length p.result) ∷ p.seen; result = p.result ++ m ∷ [] },
    refl,
    appended-Indexed p m ix e,
    some_inj (sym (ap (merged m p.result) e) ∙ absorb-merged m p.result),
  )
  place_lem p m (some i) ix e = replace_lem p m i (get_elem? p.result i) ix e refl

  dedup_loop_lem :
      (p : Progress) (ms : List Metric)
      → Indexed p
      → (q : Progress) × (dedup_loop fingerprint p ms ≡ some q)
        × (q.result ≡ merge_onto p.result ms)
  unfolding dedup_loop merge_onto
  dedup_loop_lem p [] ix = (p, refl, refl)
  dedup_loop_lem p (m ∷ ms) ix =
      let (q, placed, ix', result) = place_lem p m (seen_at (key m) p.seen) ix (sym (ix (key m))) in
      let (q', looped, final) = dedup_loop_lem q ms ix' in
      (q', rw (placed, dedup_loop) looped, final ∙ ap (λ rs. merge_onto rs ms) result)

  -- The routine with its index map never panics, and returns what the merge of each metric into
  -- the entry with its key returns.
  pub deduplicate_metrics-merge_onto :
      (ms : List Metric) → deduplicate_metrics fingerprint ms ≡ some (merge_onto [] ms)
  unfolding deduplicate_metrics
  deduplicate_metrics-merge_onto ms =
      let (q, looped, final) =
        dedup_loop_lem (record { seen = []; result = [] }) ms
          (λ k. unfold seen_at index_of in refl) in
      rw looped (ap some final)
