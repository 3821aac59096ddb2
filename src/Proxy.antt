-- ===== src/Proxy.antt =====
-- The proxy's choice among the targets (internal/proxy): the load balancer and its health checks.
pub mod LoadBalancer
pub mod Health
mod Examples
pub mod Json
pub mod Identity
pub mod Aggregate
pub mod Filter
pub mod Api
pub mod Pages
pub mod Direct
pub mod Server
