-- ===== src/Kdb.antt =====
-- The page-fault driven cache of src/.
pub mod Pool
pub mod Context
pub mod Fault
pub mod Accounts
pub mod Session
pub mod Races
pub mod Threads
pub mod Chrdev
pub mod Vma
pub mod Load
mod Tests
