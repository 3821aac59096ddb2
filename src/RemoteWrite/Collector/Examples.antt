-- ===== src/RemoteWrite/Collector/Examples.antt =====
-- The collectors at concrete metrics, and the theorems on them.
use prometheus_multi_tenant.Shared.{
  String, ◌≡◌, ◌↔◌, ◌+◌, refl, none, some, List, [], ◌∷◌, arith, map,
}
use prometheus_multi_tenant.Shared.Int.{pos, negsuc}
use prometheus_multi_tenant.Shared.Map.{lookup, insert, delete}
use prometheus_multi_tenant.Shared.Text.{join_with, show_int, show_digits}
use prometheus_multi_tenant.Api.{MetricRelabelConfig}
use prometheus_multi_tenant.RemoteWrite.Fixtures.{one, section}
use prometheus_multi_tenant.RemoteWrite.Metric.{Metric}
use prometheus_multi_tenant.RemoteWrite.Collector.Relabel.{
  insert_all, act, apply_rule, apply_rules, relabel, relabel_each, apply_metric_relabelings,
}
use prometheus_multi_tenant.RemoteWrite.Collector.Relabel.Spec.{view_metric, spec_relabelings}
use prometheus_multi_tenant.RemoteWrite.Collector.Relabel.Laws.{apply_metric_relabelings_refines}
use prometheus_multi_tenant.RemoteWrite.Collector.Series.{
  unix_epoch, unix_nano, to_millis, add_extra, label_map, series_of,
}
use prometheus_multi_tenant.RemoteWrite.Collector.Series.Laws.{
  IsLabelled, series_of-labels, to_millis-unix_nano,
}
use prometheus_multi_tenant.RemoteWrite.Collector.Write.{
  replied, attempt_error, write_from, write, send_remote_write,
}
use prometheus_multi_tenant.RemoteWrite.Collector.Write.Laws.{Accepted, send_remote_write_iff}
use prometheus_multi_tenant.RemoteWrite.Collector.Send.{build_prometheus_urls, replica_urls}
use prometheus_multi_tenant.RemoteWrite.Collector.Fixtures.{
  compile, metric, no_error, third_time, prometheus,
}

abbrev rename_rule : MetricRelabelConfig
rename_rule = record {
  source_labels = "team" ∷ [];
  separator = "";
  regex = "a";
  target_label = "node";
  replacement = "n2";
  action = "";
}

abbrev drop_rule : MetricRelabelConfig
drop_rule = record rename_rule { action = "drop" }

abbrev bad_rule : MetricRelabelConfig
bad_rule = record drop_rule { regex = "bad(" }

abbrev renamed : Metric
renamed = record metric { labels = ("team", "a") ∷ ("node", "n2") ∷ [] }

relabel_runs :
    (apply_metric_relabelings compile (metric ∷ []) (bad_rule ∷ rename_rule ∷ []) ≡ renamed ∷ [])
    × (apply_metric_relabelings compile (metric ∷ []) (rename_rule ∷ drop_rule ∷ []) ≡ [])
unfolding apply_metric_relabelings relabel_each relabel apply_rules apply_rule act insert_all insert
    delete lookup join_with
relabel_runs = (refl, refl)

apply_metric_relabelings_refines_example :
    map view_metric (apply_metric_relabelings compile (metric ∷ []) (bad_rule ∷ rename_rule ∷ []))
    ≡ spec_relabelings compile (bad_rule ∷ rename_rule ∷ []) (map view_metric (metric ∷ []))
unfolding lookup
apply_metric_relabelings_refines_example =
    apply_metric_relabelings_refines compile (metric ∷ []) (bad_rule ∷ rename_rule ∷ [])
      ((refl, (refl, tt)), tt)

-- The zero time has a timestamp from the wrapped nanoseconds.
series_runs :
    (series_of section metric ≡ record {
      labels = ("__name__", "up") ∷ ("team", "a") ∷ ("node", "n1") ∷ [];
      value = one;
      timestamp = pos 1;
    })
    × (to_millis (unix_nano 0) ≡ negsuc 6795364578870)
unfolding series_of label_map add_extra insert_all insert lookup to_millis unix_nano
series_runs = (refl, refl)

series_of-labels_example :
    (labels : List (String × String)) × ((series_of section metric).labels
      ≡ ("__name__", "up") ∷ labels)
    × IsLabelled section metric labels
unfolding lookup
series_of-labels_example = series_of-labels section metric (refl, (refl, tt)) (refl, tt)

to_millis-unix_nano_example : to_millis (unix_nano (unix_epoch + 1500000)) ≡ pos 1
to_millis-unix_nano_example = to_millis-unix_nano (unix_epoch + 1500000) (omega arith) (omega arith)

write_runs :
    (send_remote_write no_error third_time "http://p" [] ≡ none)
    × (send_remote_write no_error (λ u s n. replied 400 "no") "http://p" []
        ≡ some "failed after retries: status 400: no")
unfolding send_remote_write write write_from attempt_error show_int show_digits
write_runs = (refl, refl)

send_remote_write_iff_example :
    (send_remote_write no_error third_time "http://p" [] ≡ none)
    ↔ Accepted (no_error "http://p") (third_time "http://p" [])
send_remote_write_iff_example = send_remote_write_iff no_error third_time "http://p" []

urls_run :
    build_prometheus_urls prometheus "shop"
    ≡ "http://db-0.prom.shop.svc.cluster.local:9090/api/v1/write"
      ∷ "http://db-1.prom.shop.svc.cluster.local:9090/api/v1/write" ∷ []
unfolding build_prometheus_urls replica_urls show_int show_digits
urls_run = refl
