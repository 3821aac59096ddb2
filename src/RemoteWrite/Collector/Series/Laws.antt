-- ===== src/RemoteWrite/Collector/Series/Laws.antt =====
-- The labels and the timestamps of the series sent.
use prometheus_multi_tenant.Shared.{
  String, ◌+◌, ◌-◌, ◌/◌, ◌^◌, ◌≤◌, ◌<◌, ◌≡◌, refl, ap, ◌∙◌, Bool, ◌&&◌, Option, none, some, [], ◌∷◌,
  if◌then◌else◌, str_eq, arith, eq_iff, eq_refl, either, either-none, Bool-cases, inl, inr, subst,
}
use prometheus_multi_tenant.Shared.Int.{pos}
use prometheus_multi_tenant.Shared.Map.{
  Map, lookup, insert, NoDup, has_key, lookup-insert, insert-NoDup,
}
use prometheus_multi_tenant.Shared.Time.{Time}
use prometheus_multi_tenant.Api
use prometheus_multi_tenant.RemoteWrite.Metric.{Metric}
use prometheus_multi_tenant.RemoteWrite.Collector.Relabel.{insert_all}
use prometheus_multi_tenant.RemoteWrite.Collector.Relabel.Laws.{lookup-insert_all, insert_all-NoDup}
use prometheus_multi_tenant.RemoteWrite.Collector.Series.{
  unix_epoch, unix_nano, to_millis, add_extra, label_map, series_of,
}

-- Which of two label sets wins where both have the name.
abbrev pub precedence : Bool → Option String → Option String → Option String
precedence honor own extra = if honor then either own extra else either extra own

module _ (honor : Bool) where
  -- One round of the loop.
  abbrev add_label : Map String → String → String → Map String
  add_label labels k v = if has_key k labels && honor then labels else insert k v labels

  lookup-add_label :
      (labels : Map String) (j v k : String)
      → lookup k (add_label labels j v)
        ≡ (if str_eq j k then precedence honor (lookup k labels) (some v) else lookup k labels)
  lookup-add_label labels j v k = elim (Bool-cases (str_eq j k)) [
    | inl same ↦
        subst
          (λ x.
            lookup x (add_label labels j v)
            ≡ (if str_eq j x then precedence honor (lookup x labels) (some v) else lookup x labels))
          ((eq_iff j k).0 same) (ground (arith, eq_refl j, lookup-insert j j v labels))
    | inr other ↦ ground (arith, lookup-insert j k v labels)
  ]

  lookup-add_extra :
      (labels extra : Map String) (k : String)
      → NoDup extra
      → lookup k (add_extra honor labels extra)
        ≡ precedence honor (lookup k labels) (lookup k extra)
  unfolding add_extra lookup
  lookup-add_extra labels [] k h = ground arith
  lookup-add_extra labels ((j, v) ∷ extra) k h = elim (Bool-cases (str_eq j k)) [
    | inl same ↦
        let fresh : lookup k extra ≡ none =
          subst (λ x. lookup x extra ≡ none) ((eq_iff j k).0 same) h.0 in
        ground (
          arith,
          lookup-add_extra (add_label labels j v) extra k h.1,
          lookup-add_label labels j v k,
          fresh,
        )
    | inr other ↦
        ground (
          arith,
          lookup-add_extra (add_label labels j v) extra k h.1,
          lookup-add_label labels j v k,
        )
  ]

  add_extra-NoDup :
      (labels extra : Map String) → NoDup labels → NoDup (add_extra honor labels extra)
  unfolding add_extra
  add_extra-NoDup labels [] h = h
  add_extra-NoDup labels ((j, v) ∷ extra) h =
      add_extra-NoDup (add_label labels j v) extra (ground (arith, insert-NoDup j v labels h))

-- The labels of a series besides its name: no name occurs twice, and each has the value of the
-- metric's own label or of the configured extra label, whichever comes first.
abbrev pub IsLabelled : Api.RemoteWriteConfig → Metric → Map String → Type 0
IsLabelled r m labels =
    NoDup labels
    × ((k : String)
        → lookup k labels ≡ precedence r.honor_labels (lookup k m.labels) (lookup k r.extra_labels))

-- The series of a metric is named by a first label `__name__`; the other labels have distinct names,
-- and where a name is both the metric's and a configured extra label, the metric's value is kept if
-- labels are honoured and the extra label's otherwise. This holds for label maps with distinct
-- names, as Go's are, in whichever order the loops over them run.
pub series_of-labels :
    (r : Api.RemoteWriteConfig) (m : Metric)
    → NoDup m.labels
    → NoDup r.extra_labels
    → (labels : Map String) × ((series_of r m).labels ≡ ("__name__", m.name) ∷ labels)
      × IsLabelled r m labels
unfolding series_of label_map lookup
series_of-labels r m own extra =
    let own_labels = insert_all [] m.labels in
    (
      label_map r m,
      refl,
      (
        add_extra-NoDup r.honor_labels own_labels r.extra_labels (insert_all-NoDup [] m.labels tt),
        (λ k.
            lookup-add_extra r.honor_labels own_labels r.extra_labels k extra
            ∙ ap (λ o. precedence r.honor_labels o (lookup k r.extra_labels))
                (lookup-insert_all [] m.labels k own ∙ either-none (lookup k m.labels))),
      ),
    )

-- From the Unix epoch up to the year 2262 the timestamp of a series is the metric's in whole
-- milliseconds: the 64-bit nanoseconds in between do not overflow.
pub to_millis-unix_nano :
    (t : Time)
    → unix_epoch ≤ t
    → t < unix_epoch + 2 ^ 63
    → to_millis (unix_nano t) ≡ pos ((t - unix_epoch) / 1000000)
unfolding to_millis unix_nano
to_millis-unix_nano t past future = ground arith
