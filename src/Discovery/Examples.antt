-- ===== src/Discovery/Examples.antt =====
-- The discovery at concrete objects, and the theorems on it.
use prometheus_multi_tenant.Shared.{
  String, ◌≡◌, ◌↔◌, refl, true, none, some, List, [], ◌∷◌, Any, IsIn,
}
use prometheus_multi_tenant.Shared.Int.{pos, negsuc}
use prometheus_multi_tenant.Shared.Map.{Map, lookup}
use prometheus_multi_tenant.Shared.Result.{ok}
use prometheus_multi_tenant.Shared.Text.{show_int, show_digits, atoi}
use prometheus_multi_tenant.Config.{KubernetesDiscoveryConfig}
use prometheus_multi_tenant.Discovery.{Target}
use prometheus_multi_tenant.Discovery.Labels.{build_target_labels}
use prometheus_multi_tenant.Discovery.Labels.Laws.{build_target_labels-namespace}
use prometheus_multi_tenant.Discovery.Ports.{
  find_port, is_wanted, find_container_port, find_pod_port, fallback_port, int32,
}
use prometheus_multi_tenant.Discovery.Kubernetes.{
  Service, Client, discover_types, discover_resource_type,
}
use prometheus_multi_tenant.Discovery.Kubernetes.Laws.{discover_types_iff}
use prometheus_multi_tenant.Discovery.Kubernetes.Subscribers.{
  Discovery, starting, sending, done, Event, found, subscribed, read, sent, received, Run, started,
  discovers, subscribes, reads, receives, update_targets, notify_subscribers, discover, subscribe,
}
use prometheus_multi_tenant.Discovery.Kubernetes.Subscribers.Told.{
  offered, oldest, Tells, IsOrderly,
}
use prometheus_multi_tenant.Discovery.Kubernetes.Subscribers.Laws.{Run-Tells}

abbrev forged : Map String
forged = ("__meta_kubernetes_namespace", "other") ∷ []

build_target_labels-namespace_example :
    lookup "__meta_kubernetes_namespace" (build_target_labels forged forged "shop") ≡ some "shop"
build_target_labels-namespace_example = build_target_labels-namespace forged forged "shop"

-- A configured port beyond an int32 wraps.
ports_run :
    (find_pod_port "web" ((record { name = "web"; number = pos 80 } ∷ []) ∷ []) ≡ pos 80)
    × (find_pod_port "x" [] ≡ pos 9090)
    × (find_pod_port "4294967297" [] ≡ pos 1)
    × (find_pod_port "2147483648" [] ≡ negsuc 2147483647)
unfolding find_container_port find_port is_wanted fallback_port int32 atoi show_int show_digits
ports_run = (refl, refl, refl, refl)

abbrev config : KubernetesDiscoveryConfig
config = record {
  namespaces = "shop" ∷ [];
  label_selectors = [];
  annotation_selectors = ("scrape", "true") ∷ [];
  port = "web";
  resource_types = "Service" ∷ "Ingress" ∷ [];
}

abbrev service : String → Map String → Service
service name annotations = record {
  metadata = record { name = name; namespace = "shop"; labels = []; annotations = annotations };
  ports = record { name = "web"; number = pos 9090 } ∷ [];
}

abbrev client : Client
client = record {
  services =
      λ namespace selector. some (service "prom" (("scrape", "true") ∷ []) ∷ service "db" [] ∷ []);
  pods = λ namespace selector. none;
  endpoints = λ namespace. none;
  selector_text = λ selectors. "";
}

abbrev prom : Target
prom = record {
  url = "http://prom.shop.svc.cluster.local:9090";
  labels =
      ("__meta_kubernetes_namespace", "shop")
      ∷ ("__meta_kubernetes_annotation_scrape", "true")
      ∷ [];
  healthy = true;
  last_seen = 7;
}

discover_types_iff_example :
    IsIn prom (discover_types config client 7 config.resource_types)
    ↔ Any
        (λ type.
          (ts : List Target) × (discover_resource_type config client 7 type ≡ ok ts) × IsIn prom ts)
        config.resource_types
discover_types_iff_example = discover_types_iff config client 7 config.resource_types prom

-- A channel that is full keeps the older list and misses the new one.
update_missed :
    update_targets [] (record {
      targets = [];
      subscribers =
          record { room = some (prom ∷ []); first = done }
          ∷ record { room = none; first = sending (prom ∷ []) }
          ∷ [];
    })
    ≡ record {
      targets = [];
      subscribers =
          record { room = some (prom ∷ []); first = done }
          ∷ record { room = some []; first = sending (prom ∷ []) }
          ∷ [];
    }
unfolding update_targets notify_subscribers
update_missed = refl

-- A subscriber whose goroutine has read the first list before the round that sends it another.
abbrev round : List Target
round = discover_types config client 7 config.resource_types

abbrev after : Discovery
after = record { targets = round; subscribers = record { room = none; first = sending [] } ∷ [] }

abbrev events : List Event
events = received 0 round ∷ found round ∷ read 0 ∷ subscribed ∷ []

after-Run : Run config events after
unfolding discover update_targets notify_subscribers subscribe
after-Run =
    receives 0 (record { room = some round; first = sending [] }) round
      (discovers client 7
        (reads 0 (record { room = none; first = starting }) (subscribes started) refl refl))
      refl refl

Run-Tells_example : Tells events after × IsOrderly events
Run-Tells_example = Run-Tells after-Run

-- Once the subscriber has received the newer list, its goroutine offers it the older one.
older_later : oldest (offered 0 (sent 0 [] ∷ events)) ≡ some []
unfolding offered
older_later = refl
