-- ===== src/Wal/Tests.antt =====
-- Concrete runs of the write-ahead-log driver.
use kvm_db.Prelude.{
  ℕ, ◌≡◌, Bool, true, false, none, some, List, [], ◌∷◌, length, get_or, replicate, length-replicate,
  ltb, arith,
}
use kvm_db.Prelude.Splice.{splice}
use kvm_db.Prelude.Slice.{bytes}
use kvm_db.Prelude.Errno.{ok}
use kvm_db.Wal.Status.{WalStatus, IsStatus}
use kvm_db.Wal.Char.{wal_char_ioctl}
use kvm_db.Wal.Char.Reads.{read_all, read_all_lem}
use kvm_db.Wal.Char.Laws.{IoctlStep, ioctl-IoctlStep}
use kvm_db.Wal.Block.{WalDisk, fill, wal_block_submit_bio}
use kvm_db.Wal.Block.Pattern.{fill_lem}
use kvm_db.Wal.Block.Bio.{IsDisk, answered, submit_bio_data}
use kvm_db.Wal.Session.{WalCall, read_text, bio, set_mode, run_calls, run_calls-IsDisk}
use kvm_db.Wal.Load.{WalEnv}

abbrev status : WalStatus
status = record {
  char_read_count = 0;
  char_write_count = 0;
  block_read_count = 0;
  block_write_count = 0;
  total_bytes_read = 0;
  total_bytes_written = 0;
  current_mode = 0;
}

status-IsStatus : IsStatus status
status-IsStatus = ground arith

abbrev disk : WalDisk
disk = record { status = status; block_data = replicate 1048576 0 }

disk-IsDisk : IsDisk disk
disk-IsDisk = record { status = status-IsStatus; size = length-replicate {A = ℕ} 1048576 0 }

abbrev letters : ℕ → Bool
letters b = ltb 31 b

abbrev odd_bytes : List ℕ
odd_bytes = 1 ∷ 2 ∷ 3 ∷ []

-- Five bytes, then three.
read_all_lem_example :
    (read_all status 4 (5 ∷ 3 ∷ [])).0 ≡ 111 ∷ 32 ∷ 102 ∷ 114 ∷ 111 ∷ 109 ∷ 32 ∷ 87 ∷ []
read_all_lem_example = read_all_lem status (5 ∷ 3 ∷ []) 4

ioctl-IoctlStep_example :
    IoctlStep status 1074034434
      (some 3)
      true
      (wal_char_ioctl status 1074034434 (some 3) true).0
      (wal_char_ioctl status 1074034434 (some 3) true).1
ioctl-IoctlStep_example = ioctl-IoctlStep status 1074034434 (some 3) true

abbrev buffer : List ℕ
buffer = 0 ∷ 0 ∷ 0 ∷ 0 ∷ 0 ∷ 0 ∷ 0 ∷ 0 ∷ 0 ∷ 0 ∷ 0 ∷ 0 ∷ 0 ∷ 0 ∷ 0 ∷ 0 ∷ 0 ∷ 0 ∷ []

fill_lem_example : (length (fill 18 0 buffer) ≡ 18) × (get_or (fill 18 0 buffer) 16 0 ≡ 101)
fill_lem_example = fill_lem buffer 16 (omega arith)

submit_bio_data_example :
    ((wal_block_submit_bio disk true 3 (odd_bytes ∷ odd_bytes ∷ [])).0
      ≡ answered true (odd_bytes ∷ odd_bytes ∷ []))
    × ((wal_block_submit_bio disk true 3 (odd_bytes ∷ odd_bytes ∷ [])).1.block_data
        ≡ splice 1536 (bytes (answered true (odd_bytes ∷ odd_bytes ∷ []))) (replicate 1048576 0))
submit_bio_data_example = submit_bio_data disk true 3 (odd_bytes ∷ odd_bytes ∷ []) (omega arith)

abbrev calls : List WalCall
calls = read_text 5 0 true ∷ set_mode 7 ∷ bio true 2047 (odd_bytes ∷ []) ∷ []

run_calls-IsDisk_example : IsDisk (run_calls letters disk calls)
run_calls-IsDisk_example =
    run_calls-IsDisk letters disk calls (tt, (tt, (omega arith, tt))) disk-IsDisk

abbrev all_well : WalEnv
all_well = record {
  alloc_chrdev_region = none;
  cdev_add = none;
  class_create = none;
  device_create = none;
  vzalloc = true;
  blk_alloc_disk = true;
  register_blkdev = ok 250;
  add_disk = none;
  proc_create = false;
}
