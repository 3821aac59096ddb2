-- ===== src/RemoteWrite/Collector.antt =====
-- The collectors (internal/remote_write/collector.go): relabelling, time series, the addresses of a
-- target, the write request with its retries, and the `Send` of each collector.
pub mod Relabel
pub mod Series
pub mod Write
pub mod Send
pub mod Delivery
pub mod Fixtures
mod Examples
