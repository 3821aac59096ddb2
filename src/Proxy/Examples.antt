-- ===== src/Proxy/Examples.antt =====
-- The theorems on the load balancer at concrete targets.
use prometheus_multi_tenant.Shared.{
  ℕ, ◌≡◌, refl, String, Bool, true, false, Option, none, some, [], ◌∷◌, map, arith, cons≢nil,
  if◌then◌else◌,
}
use prometheus_multi_tenant.Shared.Map.{has}
use prometheus_multi_tenant.Shared.Time.{Time}
use prometheus_multi_tenant.Discovery.{Target}
use prometheus_multi_tenant.Proxy.LoadBalancer.{
  LoadBalancer, get_healthy_targets, get_target, picked,
}
use prometheus_multi_tenant.Proxy.LoadBalancer.Laws.{calls, cycle_from, calls-cycle_from}
use prometheus_multi_tenant.Proxy.Health.{check_all_targets}
use prometheus_multi_tenant.Proxy.Health.Laws.{checked, check_all_targets_lem}

abbrev target : String → Bool → Target
target url healthy = record { url = url; labels = []; healthy = healthy; last_seen = 1 }

abbrev balancer : LoadBalancer
balancer = record {
  targets = target "http://a" true ∷ target "http://b" false ∷ target "http://c" true ∷ [];
  counter = 5;
}

some_up : get_healthy_targets balancer ≡ [] → ⊥
unfolding get_healthy_targets
some_up = cons≢nil

calls-cycle_from_example :
    map some (calls 3 balancer) ≡ cycle_from 3 5 (get_healthy_targets balancer)
calls-cycle_from_example = calls-cycle_from 3 balancer some_up (omega arith)

abbrev after : LoadBalancer
after = record balancer { counter = 6 }

second_picked : get_target balancer ≡ picked (target "http://c" true) after
unfolding get_target get_healthy_targets
second_picked = refl

abbrev request_error : String → Option String
request_error url = none

abbrev exchange : String → Option ℕ
exchange url = some 503

abbrev at : String → Time
at url = 7

check_all_targets_lem_example :
    check_all_targets request_error exchange at balancer ("http://c" ∷ "http://a" ∷ [])
    ≡ record balancer {
      targets =
          map
            (λ t.
              if has t.url ("http://c" ∷ "http://a" ∷ [])
              then checked request_error exchange at t
              else t)
            balancer.targets;
    }
check_all_targets_lem_example =
    check_all_targets_lem request_error exchange at balancer ("http://c" ∷ "http://a" ∷ [])
      (refl, (refl, (refl, tt)))
