-- ===== src/RemoteWrite/Reconcile/Change.antt =====
-- Which changes of a resource `hasConfigurationChanged` sees.
use prometheus_multi_tenant.Shared.{
  suc, String, ◌≡◌, ◌≢◌, ◌↔◌, refl, sym, ap, ◌∙◌, subst, Bool, true, false, Option, none, some,
  List, [], ◌∷◌, arith, str_eq, eq_iff, eq_refl, all, All, IsIn, Bool-cases, Option-cases, inl, inr,
  length,
}
use prometheus_multi_tenant.Shared.Int.{ℤ, eqb_ℤ, eqb_ℤ→eq, eqb_ℤ_refl}
use prometheus_multi_tenant.Shared.Map.{
  Map, lookup, delete, has, NoDup, lookup-delete, delete-NoDup, lookup-All, Fresh-All,
}
use prometheus_multi_tenant.Api.{MetricAccess, PrometheusTarget}
use prometheus_multi_tenant.Api
use prometheus_multi_tenant.RemoteWrite.Reconcile.{
  agrees, replicas_changed, compare_extra_labels, same_bool, remote_write_changed,
  has_configuration_changed,
}

-- Two Go maps are the same.
abbrev pub SameMap : Map String → Map String → Type 0
SameMap old new = (k : String) → lookup k old ≡ lookup k new

-- Every entry of the list is looked up in the map.
abbrev Inside : Map String → Map String → Type 0
Inside m new = All (λ e. lookup e.0 new ≡ some e.1) m

agrees_iff : (m new : Map String) → (agrees m new ≡ true) ↔ Inside m new
agrees_iff [] new = ((λ h. tt), (λ h. refl))
agrees_iff ((k, v) ∷ m) new =
    let rest = agrees_iff m new in
    elim (Option-cases (lookup k new)) [
      | inl absent ↦ rw absent ((λ h. ground (arith, h)), (λ h. ground (arith, h.0)))
      | inr (w, found) ↦ rw found (ground (arith, rest, eq_iff v w))
    ]

length-delete-none :
    (k : String) (m : Map String) → lookup k m ≡ none → length (delete k m) ≡ length m
unfolding lookup delete
length-delete-none k [] h = refl
length-delete-none k ((j, v) ∷ m) h = ground (arith, h, length-delete-none k m)

length-delete-some :
    (k w : String) (m : Map String)
    → NoDup m
    → lookup k m ≡ some w
    → suc (length (delete k m)) ≡ length m
unfolding lookup delete
length-delete-some k w [] d h = ground (arith, h)
length-delete-some k w ((j, v) ∷ m) d h = elim (Bool-cases (str_eq j k)) [
  | inl same ↦
      let gone : lookup k m ≡ none = subst (λ x. lookup x m ≡ none) ((eq_iff j k).0 same) d.0 in
      rw same (ap suc (length-delete-none k m gone))
  | inr other ↦ ground (arith, other, length-delete-some k w m d.1 (ground (arith, other, h)))
]

-- A map without the key of its first entry.
Inside-delete :
    (k : String) (m new : Map String)
    → All (λ e. e.0 ≢ k) m
    → Inside m new
    → Inside m (delete k new)
Inside-delete k [] new other h = tt
Inside-delete k ((j, v) ∷ m) new other h = (
  ground (arith, lookup-delete k j new, eq_iff k j, other.0, h.0),
  Inside-delete k m new other.1 h.1,
)

Inside→SameMap :
    (old new : Map String)
    → NoDup old
    → NoDup new
    → length old ≡ length new
    → Inside old new
    → SameMap old new
unfolding lookup
Inside→SameMap [] [] d e n h = λ j. refl
Inside→SameMap [] (x ∷ new) d e n h = ground (arith, n)
Inside→SameMap ((k, v) ∷ m) new d e n h =
    let less = length-delete-some k v new e h.0 in
    let rest =
      Inside→SameMap m (delete k new) d.1 (delete-NoDup k new e) (ground (arith, n, less))
        (Inside-delete k m new (Fresh-All k m d.0) h.1) in
    λ j. ground (arith, rest j, lookup-delete k j new, eq_iff k j, h.0)

SameMap→length :
    (old new : Map String) → NoDup old → NoDup new → SameMap old new → length old ≡ length new
unfolding lookup
SameMap→length [] [] d e s = refl
SameMap→length [] ((k, v) ∷ new) d e s = ground (arith, s k, eq_refl k)
SameMap→length ((k, v) ∷ m) new d e s =
    let first : lookup k new ≡ some v = ground (arith, s k, eq_refl k) in
    let rest : SameMap m (delete k new) =
      λ j. ground (arith, s j, lookup-delete k j new, eq_iff k j, d.0) in
    ground (
      arith,
      length-delete-some k v new e first,
      SameMap→length m (delete k new) d.1 (delete-NoDup k new e) rest,
    )

SameMap→Inside : (old new : Map String) → NoDup old → SameMap old new → Inside old new
SameMap→Inside old new d s =
    lookup-All (λ k v. lookup k new ≡ some v) old d (λ k v h. sym (s k) ∙ h)

-- The test of the extra labels decides that the maps are the same.
pub compare_extra_labels_iff :
    (old new : Map String)
    → NoDup old
    → NoDup new
    → (compare_extra_labels old new ≡ true) ↔ SameMap old new
unfolding compare_extra_labels
compare_extra_labels_iff old new d e = (
  (λ h.
      Inside→SameMap old new d e (ground (arith, h)) ((agrees_iff old new).0 (ground (arith, h)))),
  (λ s.
      ground
        (arith, SameMap→length old new d e s, (agrees_iff old new).1 (SameMap→Inside old new d s))),
)

has_iff : (x : String) (xs : List String) → (has x xs ≡ true) ↔ IsIn x xs
has_iff x [] = ((λ h. ground (arith, h)), (λ h. absurd h))
has_iff x (y ∷ ys) = ground (arith, has_iff x ys, eq_iff y x)

all-has_iff : (xs ys : List String) → (all (λ x. has x xs) ys ≡ true) ↔ All (λ x. IsIn x xs) ys
all-has_iff xs [] = ((λ h. tt), (λ h. refl))
all-has_iff xs (y ∷ ys) = ground (arith, has_iff y xs, all-has_iff xs ys)

same_bool_iff : (a b : Bool) → (same_bool a b ≡ true) ↔ (a ≡ b)
same_bool_iff true true = ground arith
same_bool_iff true false = ground arith
same_bool_iff false true = ground arith
same_bool_iff false false = ground arith

eqb_ℤ_iff : (a b : ℤ) → (eqb_ℤ a b ≡ true) ↔ (a ≡ b)
eqb_ℤ_iff a b = (eqb_ℤ→eq a b, (λ e. subst (λ x. eqb_ℤ a x ≡ true) e (eqb_ℤ_refl a)))

-- What is compared of the Prometheus targets of two remote write sections.
abbrev pub SameReplicas : Option PrometheusTarget → Option PrometheusTarget → Type 0
SameReplicas (some old) (some new) =
    (old.replicas ≡ new.replicas) × (old.stateful_set_name ≡ new.stateful_set_name)
SameReplicas _ _ = Unit

-- What is compared of two remote write sections.
abbrev pub SameSection : Option Api.RemoteWriteConfig → Option Api.RemoteWriteConfig → Type 0
SameSection (some old) (some new) =
    (old.interval ≡ new.interval)
    × (old.target.type ≡ new.target.type)
    × SameMap old.extra_labels new.extra_labels
    × (length old.metric_relabelings ≡ length new.metric_relabelings)
    × SameReplicas old.prometheus new.prometheus
SameSection _ _ = Unit

-- What is compared of two resources.
abbrev pub SameConfiguration : MetricAccess → MetricAccess → Type 0
SameConfiguration old new =
    (old.spec.metric_isolation ≡ new.spec.metric_isolation)
    × (length old.spec.metrics ≡ length new.spec.metrics)
    × All (λ pattern. IsIn pattern old.spec.metrics) new.spec.metrics
    × SameSection old.spec.remote_write new.spec.remote_write

-- No extra label stands twice: what a Go map gives by itself.
abbrev pub HasLabels : Option Api.RemoteWriteConfig → Type 0
HasLabels none = Unit
HasLabels (some r) = NoDup r.extra_labels

replicas_changed_iff :
    (old new : Option PrometheusTarget) → (replicas_changed old new ≡ false) ↔ SameReplicas old new
replicas_changed_iff none none = ground arith
replicas_changed_iff none (some b) = ground arith
replicas_changed_iff (some a) none = ground arith
replicas_changed_iff (some a) (some b) =
    ground (arith, eqb_ℤ_iff a.replicas b.replicas, eq_iff a.stateful_set_name b.stateful_set_name)

remote_write_changed_iff :
    (old new : Option Api.RemoteWriteConfig)
    → HasLabels old
    → HasLabels new
    → (remote_write_changed old new ≡ false) ↔ SameSection old new
unfolding remote_write_changed
remote_write_changed_iff none none d e = ground arith
remote_write_changed_iff none (some n) d e = ground arith
remote_write_changed_iff (some o) none d e = ground arith
remote_write_changed_iff (some o) (some n) d e = ground (
  arith,
  eqb_ℤ_iff o.interval n.interval,
  eq_iff o.target.type n.target.type,
  compare_extra_labels_iff o.extra_labels n.extra_labels d e,
  replicas_changed_iff o.prometheus n.prometheus,
)

-- The check finds no change exactly when the compared parts are the same; the patterns are
-- compared by their number, and as a set in one direction only.
pub has_configuration_changed_iff :
    (old new : MetricAccess)
    → HasLabels old.spec.remote_write
    → HasLabels new.spec.remote_write
    → (has_configuration_changed old new ≡ false) ↔ SameConfiguration old new
unfolding has_configuration_changed
has_configuration_changed_iff old new d e = ground (
  arith,
  same_bool_iff old.spec.metric_isolation new.spec.metric_isolation,
  all-has_iff old.spec.metrics new.spec.metrics,
  remote_write_changed_iff old.spec.remote_write new.spec.remote_write d e,
)
