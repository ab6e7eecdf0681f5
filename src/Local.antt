-- ===== src/Local.antt =====
-- The package `local`: the monitor beside the router.
pub mod AlertEngine
pub mod SnmpPoller
pub mod Poller
pub mod Heartbeat
pub mod Monitor
pub mod SyslogReceiver
pub mod Program
pub mod Main
