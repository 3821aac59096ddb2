-- ===== src/Tenant.antt =====
-- The tenant manager (internal/tenant/manager.go): metric patterns, access checks and the load of
-- the MetricAccess resources.
pub mod Pattern
pub mod Access
pub mod Load
mod Examples
