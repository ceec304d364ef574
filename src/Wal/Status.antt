-- ===== src/Wal/Status.antt =====
-- The status of the write-ahead-log driver: `struct wal_status` of driver/wal_driver.h, the mode,
-- the message, and the utility functions that reset the counters and set the mode.
use kvm_db.Prelude.{ℕ, ◌≤◌, ◌<◌, ◌^◌, List, [], ◌∷◌, ltb, if◌then◌else◌, arith}
use kvm_db.Prelude.Errno.{Result, ok, err, einval}

-- `enum wal_mode`, kept as the number that the user may pass.
abbrev pub mode_normal : ℕ
mode_normal = 0

abbrev pub mode_debug : ℕ
mode_debug = 1

abbrev pub mode_quiet : ℕ
mode_quiet = 2

pub record WalStatus : Type 0 where
  pub char_read_count : ℕ
  pub char_write_count : ℕ
  pub block_read_count : ℕ
  pub block_write_count : ℕ
  pub total_bytes_read : ℕ
  pub total_bytes_written : ℕ
  pub current_mode : ℕ

-- WAL_RESPONSE_MSG, "Hello from WAL\n", of WAL_RESPONSE_LEN bytes
abbrev pub response_msg : List ℕ
response_msg = 72 ∷ 101 ∷ 108 ∷ 108 ∷ 111 ∷ 32 ∷ 102 ∷ 114 ∷ 111 ∷ 109 ∷ 32 ∷ 87 ∷ 65 ∷ 76 ∷ 10 ∷ []

abbrev pub response_len : ℕ
response_len = 15

-- `wal_driver_reset_stats`, which is also what WAL_IOC_RESET does
unfoldable pub wal_driver_reset_stats : WalStatus → WalStatus
wal_driver_reset_stats s = record {
  char_read_count = 0;
  char_write_count = 0;
  block_read_count = 0;
  block_write_count = 0;
  total_bytes_read = 0;
  total_bytes_written = 0;
  current_mode = mode_normal;
}

-- The C enum has no negative value, so the test against WAL_MODE_NORMAL never holds.
unfoldable pub wal_driver_set_mode : WalStatus → ℕ → Result ℕ × WalStatus
wal_driver_set_mode s mode =
    if ltb mode mode_normal
    then (err einval, s)
    else if ltb mode_quiet mode
    then (err einval, s)
    else (ok 0, record s { current_mode = mode })

-- Every counter is a 32-bit number and the mode is one of the three.
pub record IsStatus (s : WalStatus) : Type 0 where
  pub reads : s.char_read_count < 2 ^ 32
  pub writes : s.char_write_count < 2 ^ 32
  pub block_reads : s.block_read_count < 2 ^ 32
  pub block_writes : s.block_write_count < 2 ^ 32
  pub bytes_read : s.total_bytes_read < 2 ^ 32
  pub bytes_written : s.total_bytes_written < 2 ^ 32
  pub mode : s.current_mode ≤ 2

pub reset-IsStatus : (s : WalStatus) → IsStatus (wal_driver_reset_stats s)
unfolding wal_driver_reset_stats
reset-IsStatus s = ground arith

pub set_mode-IsStatus :
    (s : WalStatus) (mode : ℕ) → IsStatus s → IsStatus (wal_driver_set_mode s mode).1
unfolding wal_driver_set_mode
set_mode-IsStatus s mode v = ground arith
