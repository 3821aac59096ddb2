-- ===== src/RemoteWrite.antt =====
-- The remote write subsystem (internal/remote_write): the controller with its jobs, reconciliation
-- and self-heal watchdog, the collection cycle, the collectors and the health metrics.
pub mod Metric
pub mod Fixtures
pub mod Job
pub mod SelfHeal
pub mod Batch
pub mod Dedup
pub mod Collector
pub mod Query
pub mod Collect
pub mod Reconcile
pub mod System
pub mod HealthMetrics
mod Examples
