-- ===== src/Device.antt =====
-- device/: devices, their twins, their lifecycle and the manager that holds them.
pub mod Types
pub mod Status
pub mod World
pub mod Rebuild
pub mod New
pub mod Lifecycle
pub mod Manager
pub mod Twins
pub mod Panel
pub mod DealTwin
pub mod DataThread
pub mod Host
pub mod JsonScan
pub mod Simulate
pub mod Threads
