-- ===== src/Discovery/Kubernetes/Subscribers.antt =====
-- The state of the discovery and its subscribers (internal/discovery/kubernetes.go). A subscriber's
-- channel has room for one list. The goroutine of `Subscribe` reads the targets and then sends them
-- once there is room, each at a time of its own.
pub mod Indices
pub mod Told
pub mod Laws
use prometheus_multi_tenant.Shared.{
  ℕ, ◌≡◌, Option, none, some, List, [], ◌∷◌, ◌++◌, map, get_elem?, set,
}
use prometheus_multi_tenant.Shared.Time.{Time}
use prometheus_multi_tenant.Config.{KubernetesDiscoveryConfig}
use prometheus_multi_tenant.Discovery.{Target}
use prometheus_multi_tenant.Discovery.Kubernetes.{Client, discover_types}

-- The goroutine of `Subscribe`: about to read the targets, about to send them, and done.
pub data First : Type 0 where
  starting : First
  sending : List Target → First
  done : First

pub record Channel : Type 0 where
  pub room : Option (List Target)
  pub first : First

pub record Discovery : Type 0 where
  pub targets : List Target
  pub subscribers : List Channel

abbrev pub new_kubernetes_discovery : Discovery
new_kubernetes_discovery = record { targets = []; subscribers = [] }

abbrev pub get_targets : Discovery → List Target
get_targets d = d.targets

abbrev pub new_channel : Channel
new_channel = record { room = none; first = starting }

unfoldable pub subscribe : Discovery → Discovery
subscribe d = record d { subscribers = d.subscribers ++ (new_channel ∷ []) }

abbrev pub fill : List Target → Option (List Target) → Option (List Target)
fill targets none = some targets
fill targets (some waiting) = some waiting

-- `select { case ch <- targets: default: }`
abbrev pub offer : List Target → Channel → Channel
offer targets ch = record ch { room = fill targets ch.room }

unfoldable pub notify_subscribers : List Target → List Channel → List Channel
notify_subscribers targets channels = map (offer targets) channels

unfoldable pub update_targets : List Target → Discovery → Discovery
update_targets new_targets d = record {
  targets = new_targets;
  subscribers = notify_subscribers new_targets d.subscribers;
}

-- One round: `discover` returns no error.
unfoldable pub discover : KubernetesDiscoveryConfig → Client → Time → Discovery → Discovery
discover config client now d =
    update_targets (discover_types config client now config.resource_types) d

-- What happens to a discovery: a round finds targets, a subscriber comes, and by its number a
-- subscriber's goroutine reads the targets or sends them, or a subscriber receives a list.
pub data Event : Type 0 where
  found : List Target → Event
  subscribed : Event
  read : ℕ → Event
  sent : ℕ → List Target → Event
  received : ℕ → List Target → Event

-- The runs of the discovery, in any order of their events, with the events so far, the latest first.
-- A goroutine sends where the channel has room, and a subscriber receives what waits for it.
pub data Run (config : KubernetesDiscoveryConfig) : List Event → Discovery → Type 0 where
  started : Run config [] new_kubernetes_discovery
  discovers :
      {log : List Event} {d : Discovery} (client : Client) (now : Time)
      → Run config log d
      → Run config
          (found (discover_types config client now config.resource_types) ∷ log)
          (discover config client now d)
  subscribes :
      {log : List Event} {d : Discovery}
      → Run config log d
      → Run config (subscribed ∷ log) (subscribe d)
  reads :
      {log : List Event} {d : Discovery} (i : ℕ) (ch : Channel)
      → Run config log d
      → get_elem? d.subscribers i ≡ some ch
      → ch.first ≡ starting
      → Run config (read i ∷ log) (record d {
        subscribers = set d.subscribers i (record ch { first = sending (get_targets d) });
      })
  sends :
      {log : List Event} {d : Discovery} (i : ℕ) (ch : Channel) (targets : List Target)
      → Run config log d
      → get_elem? d.subscribers i ≡ some ch
      → ch.first ≡ sending targets
      → ch.room ≡ none
      → Run config (sent i targets ∷ log) (record d {
        subscribers = set d.subscribers i (record { room = some targets; first = done });
      })
  receives :
      {log : List Event} {d : Discovery} (i : ℕ) (ch : Channel) (targets : List Target)
      → Run config log d
      → get_elem? d.subscribers i ≡ some ch
      → ch.room ≡ some targets
      → Run config
          (received i targets ∷ log)
          (record d { subscribers = set d.subscribers i (record ch { room = none }) })
