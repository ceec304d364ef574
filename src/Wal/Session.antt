-- ===== src/Wal/Session.antt =====
-- The driver's calls in any order: reads, writes and `ioctl` of the character device, requests to the
-- block device, and the utility functions. Each runs under the driver's lock, so a use of the driver
-- by several threads is one sequence of calls.
use kvm_db.Prelude.{ℕ, ◌+◌, ◌*◌, ◌^◌, ◌<◌, Bool, Option, List, [], ◌∷◌, length}
use kvm_db.Prelude.Slice.{bytes}
use kvm_db.Wal.Status.{
  wal_driver_reset_stats, wal_driver_set_mode, reset-IsStatus, set_mode-IsStatus,
}
use kvm_db.Wal.Char.{wal_char_read, wal_char_write, wal_char_ioctl}
use kvm_db.Wal.Char.Laws.{read-IsStatus, write-IsStatus, ioctl-IsStatus}
use kvm_db.Wal.Block.{WalDisk, block_size, wal_block_submit_bio}
use kvm_db.Wal.Block.Bio.{IsDisk, submit_bio-IsDisk}

pub data WalCall : Type 0 where
  read_text : ℕ → ℕ → Bool → WalCall
  write_text : List ℕ → ℕ → Bool → Bool → WalCall
  ioctl : ℕ → Option ℕ → Bool → WalCall
  bio : Bool → ℕ → List (List ℕ) → WalCall
  reset_stats : WalCall
  set_mode : ℕ → WalCall

-- What the block layer sees to for a request: it ends below 2 ^ 64.
abbrev pub IsBelow : WalCall → Type 0
IsBelow (bio write sector buffers) = sector * block_size + length (bytes buffers) < 2 ^ 64
IsBelow c = Unit

abbrev pub AllBelow : List WalCall → Type 0
AllBelow [] = Unit
AllBelow (c ∷ cs) = IsBelow c × AllBelow cs

module _ (printable : ℕ → Bool) where
  unfoldable pub run_call : WalDisk → WalCall → WalDisk
  run_call d (read_text count pos copies) = record d {
    status = (wal_char_read d.status count pos copies).status;
  }
  run_call d (write_text bytes pos memory copies) = record d {
    status = (wal_char_write printable d.status bytes pos memory copies).status;
  }
  run_call d (ioctl cmd mode copies) = record d {
    status = (wal_char_ioctl d.status cmd mode copies).1;
  }
  run_call d (bio write sector buffers) = (wal_block_submit_bio d write sector buffers).1
  run_call d reset_stats = record d { status = wal_driver_reset_stats d.status }
  run_call d (set_mode mode) = record d { status = (wal_driver_set_mode d.status mode).1 }

  unfoldable pub run_calls : WalDisk → List WalCall → WalDisk
  unfolding run_call
  run_calls d [] = d
  run_calls d (c ∷ cs) = run_calls (run_call d c) cs

  run_call-IsDisk : (d : WalDisk) (c : WalCall) → IsBelow c → IsDisk d → IsDisk (run_call d c)
  unfolding run_call
  run_call-IsDisk d (read_text count pos copies) below v = record {
    status = read-IsStatus d.status count pos copies v.status;
    size = v.size;
  }
  run_call-IsDisk d (write_text bytes pos memory copies) below v = record {
    status = write-IsStatus printable d.status bytes pos memory copies v.status;
    size = v.size;
  }
  run_call-IsDisk d (ioctl cmd mode copies) below v = record {
    status = ioctl-IsStatus d.status cmd mode copies v.status;
    size = v.size;
  }
  run_call-IsDisk d (bio write sector buffers) below v =
      submit_bio-IsDisk d write sector buffers below v
  run_call-IsDisk d reset_stats below v = record { status = reset-IsStatus d.status; size = v.size }
  run_call-IsDisk d (set_mode mode) below v = record {
    status = set_mode-IsStatus d.status mode v.status;
    size = v.size;
  }

  -- Whatever calls are made of the driver, with requests to the disk that end below 2 ^ 64, wherever
  -- they lie: no byte outside the storage of the disk is written, the storage keeps its size, the
  -- counters stay 32-bit numbers, and the mode one of the three.
  pub run_calls-IsDisk :
      (d : WalDisk) (cs : List WalCall) → AllBelow cs → IsDisk d → IsDisk (run_calls d cs)
  unfolding run_calls
  run_calls-IsDisk d [] below v = v
  run_calls-IsDisk d (c ∷ cs) (here, later) v =
      run_calls-IsDisk (run_call d c) cs later (run_call-IsDisk d c here v)
