-- ===== src/Uringblk.antt =====
-- The block driver of driver/uringblk_main.c: its backends, the request queue, the administration
-- commands and the latency percentiles.
pub mod Backend
pub mod Request
pub mod Device
pub mod Queue
pub mod Abi
pub mod Admin
pub mod Latency
pub mod Config
pub mod Instance
pub mod Init
pub mod Paths
pub mod Load
pub mod Disk
pub mod Sysfs
mod Tests
