-- ===== src/Wal.antt =====
-- The write-ahead-log driver of driver/wal_driver_main.c, one module per device and for loading.
pub mod Status
pub mod Char
pub mod Block
pub mod Load
pub mod Proc
pub mod Session
mod Tests
