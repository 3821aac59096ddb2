-- ===== src/Proxy/Health.antt =====
-- The health checks (internal/proxy/health.go): one goroutine for each target, which finish in any
-- order. `request_error` is the error of the request's creation, `exchange` the status of the reply,
-- `none` an error of the client, and `at url` the `time.Now()` of the update.
pub mod Laws
use prometheus_multi_tenant.Shared.{
  ℕ, String, Bool, true, false, Option, none, some, List, [], ◌∷◌, ◌==◌, if◌then◌else◌, is_some,
}
use prometheus_multi_tenant.Shared.Text.{join}
use prometheus_multi_tenant.Shared.Time.{Time}
use prometheus_multi_tenant.Proxy.LoadBalancer.{LoadBalancer, update_target_health}

abbrev pub is_ok : Option ℕ → Bool
is_ok none = false
is_ok (some status) = status == 200

module _ (request_error : String → Option String) (exchange : String → Option ℕ)
    (at : String → Time) where
  -- The verdict on a target.
  unfoldable pub probe : String → Bool
  probe url =
      let request = join url "/-/healthy" in
      if is_some (request_error request) then false else is_ok (exchange request)

  unfoldable pub check_target : LoadBalancer → String → LoadBalancer
  check_target lb url = update_target_health lb url (probe url) (at url)

  -- The checks of `checkAllTargets`, in the order in which they finish.
  unfoldable pub check_all_targets : LoadBalancer → List String → LoadBalancer
  check_all_targets lb [] = lb
  check_all_targets lb (url ∷ rest) = check_all_targets (check_target lb url) rest
