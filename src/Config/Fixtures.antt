-- ===== src/Config/Fixtures.antt =====
-- Test data: a configuration file that leaves every field to its default.
use prometheus_multi_tenant.Shared.{true, false, none, []}
use prometheus_multi_tenant.Shared.Int.{pos, negsuc}
use prometheus_multi_tenant.Config.{Config}

abbrev pub file : Config
file = record {
  discovery = record {
    kubernetes = record {
      namespaces = [];
      label_selectors = [];
      annotation_selectors = [];
      port = "";
      resource_types = [];
    };
    refresh_interval = pos 0;
  };
  tenants = record { watch_all_namespaces = true; watch_namespaces = [] };
  proxy = record {
    enable_caching = false;
    cache_ttl = pos 0;
    enable_metrics = false;
    enable_request_logging = false;
    max_concurrent_requests = pos 0;
    backend_timeout = pos 0;
  };
  remote_write = record {
    enabled = true;
    default_interval = pos 0;
    max_concurrent_jobs = pos 0;
    collection_timeout = pos 0;
    retry_attempts = pos 0;
    retry_delay = pos 0;
    batch_size = negsuc 4;
    stall_grace_period = pos 0;
    recreate_backoff = pos 0;
    pod_restart_grace_period = pos 0;
    pod_restart_cooldown = pos 0;
    self_heal_pod_restart = none;
  };
  auth = none;
}
