-- ===== src/Remote.antt =====
-- The package `remote`: the sentinel on the VPS.
pub mod HeartbeatStore
pub mod DnsMonitor
pub mod ExternalProbe
pub mod AlertEngine
pub mod Sentinel
pub mod DnsLoop
pub mod Program
pub mod Main
