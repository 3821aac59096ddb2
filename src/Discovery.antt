-- ===== src/Discovery.antt =====
-- The targets of the service discovery (internal/discovery/kubernetes.go).
pub mod Kubernetes
pub mod Labels
pub mod Ports
mod Examples
use prometheus_multi_tenant.Shared.{String, Bool}
use prometheus_multi_tenant.Shared.Map.{Map}
use prometheus_multi_tenant.Shared.Time.{Time}

pub record Target : Type 0 where
  pub url : String
  pub labels : Map String
  pub healthy : Bool
  pub last_seen : Time
