-- ===== src/Tools.antt =====
-- The user-space classes of src/kvm_wal.cc and src/kvm_uringblk.cc and what they come to over the
-- drivers.
pub mod WalNodes
pub mod WalClient
pub mod UringClient
pub mod UringIo
pub mod Features
pub mod Format
pub mod Main
pub mod Probe
pub mod RoundTrip
pub mod BlockTests
mod Tests
