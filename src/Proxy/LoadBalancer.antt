-- ===== src/Proxy/LoadBalancer.antt =====
-- The load balancer (internal/proxy/loadbalancer.go). The random number is an argument.
pub mod Laws
use prometheus_multi_tenant.Shared.{
  ℕ, zero, suc, ◌-◌, ◌%◌, ◌^◌, String, Bool, true, false, Option, none, some, List, [], ◌∷◌, ◌==◌,
  str_eq, if◌then◌else◌, length, get_elem?, keep_if,
}
use prometheus_multi_tenant.Shared.Time.{Time}
use prometheus_multi_tenant.Shared.Word.{inc64, is_negative64}
use prometheus_multi_tenant.Discovery.{Target}

-- The counter is the bit pattern of an int.
pub record LoadBalancer : Type 0 where
  pub targets : List Target
  pub counter : ℕ

abbrev pub new_load_balancer : LoadBalancer
new_load_balancer = record { targets = []; counter = 0 }

unfoldable pub get_healthy_targets : LoadBalancer → List Target
get_healthy_targets lb = keep_if (λ t. t.healthy) lb.targets

-- A target with the load balancer after the call, the error, or an index out of range.
pub data Pick : Type 0 where
  picked : Target → LoadBalancer → Pick
  no_target : Pick
  index_panic : Pick

-- Go's `counter % n`, which has the sign of the counter: `none` where it is negative.
unfoldable pub counter_index : ℕ → ℕ → Option ℕ
counter_index counter n =
    if is_negative64 counter
    then if (2 ^ 64 - counter) % n == 0 then some 0 else none
    else some (counter % n)

pub pick_found : LoadBalancer → Option Target → Pick
pick_found lb none = index_panic
pick_found lb (some t) = picked t (record lb { counter = inc64 lb.counter })

pub pick_at : LoadBalancer → List Target → Option ℕ → Pick
unfolding pick_found
pick_at lb healthy none = index_panic
pick_at lb healthy (some i) = pick_found lb (get_elem? healthy i)

pub pick_from : LoadBalancer → List Target → Pick
unfolding pick_at counter_index
pick_from lb [] = no_target
pick_from lb (t ∷ ts) = pick_at lb (t ∷ ts) (counter_index lb.counter (length (t ∷ ts)))

-- Round robin over the healthy targets.
unfoldable pub get_target : LoadBalancer → Pick
unfolding pick_from
get_target lb = pick_from lb (get_healthy_targets lb)

unfoldable pub get_random_target : LoadBalancer → ℕ → Option Target
get_random_target lb random = get_elem? (get_healthy_targets lb) random

abbrev pub get_all_targets : LoadBalancer → List Target
get_all_targets lb = lb.targets

-- The loop of `UpdateTargetHealth`: the first target with the URL; `now` is `time.Now()`.
unfoldable pub set_health : String → Bool → Time → List Target → List Target
set_health url healthy now [] = []
set_health url healthy now (t ∷ ts) =
    if str_eq t.url url
    then record t { healthy = healthy; last_seen = now } ∷ ts
    else t ∷ set_health url healthy now ts

unfoldable pub update_target_health : LoadBalancer → String → Bool → Time → LoadBalancer
update_target_health lb url healthy now = record lb {
  targets = set_health url healthy now lb.targets;
}

-- One round of `watchTargets`.
unfoldable pub watch_targets : LoadBalancer → List Target → LoadBalancer
watch_targets lb targets = record lb { targets = targets }
