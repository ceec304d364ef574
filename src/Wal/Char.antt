-- ===== src/Wal/Char.antt =====
-- The character device /dev/rwal of driver/wal_driver_main.c: `read`, `write` and `ioctl`, each
-- under the driver's lock.
pub mod Reads
pub mod Laws
use kvm_db.Prelude.{
  ℕ, ◌+◌, ◌-◌, ◌*◌, ◌/◌, ◌%◌, ◌^◌, min, Bool, true, false, not, ◌&&◌, ◌||◌, Option, none, some,
  List, [], ◌∷◌, ◌++◌, length, take, drop, ◌==◌, ltb, leb, if◌then◌else◌,
}
use kvm_db.Prelude.Word.{u32, inc32}
use kvm_db.Prelude.Errno.{Errno, enomem, efault, einval, enotty, Result, ok, err}
use kvm_db.Wal.Status.{
  WalStatus, mode_debug, mode_quiet, response_msg, response_len, wal_driver_reset_stats,
}

-- What a read gives: the return value, the bytes put into the user's buffer (none where the call
-- fails), the file position and the status afterwards.
pub record CharRead : Type 0 where
  pub ret : Result ℕ
  pub copied : List ℕ
  pub pos : ℕ
  pub status : WalStatus

-- `copies`: whether `copy_to_user` succeeds.
unfoldable pub wal_char_read : WalStatus → ℕ → ℕ → Bool → CharRead
wal_char_read s count pos copies =
    let to_copy = min count (response_len - pos) in
    if leb response_len pos
    then record { ret = ok 0; copied = []; pos = pos; status = s }
    else if not copies
    then record { ret = err efault; copied = []; pos = pos; status = s }
    else record {
      ret = ok to_copy;
      copied = take to_copy (drop pos response_msg);
      pos = pos + to_copy;
      status = record s {
        char_read_count = inc32 s.char_read_count;
        total_bytes_read = u32 (s.total_bytes_read + to_copy);
      };
    }

-- What `write` reports of the captured data.
pub data LogLine : Type 0 where
  captured : ℕ → LogLine
  text_data : List ℕ → LogLine
  -- the bytes dumped, and whether the dump is marked as truncated
  hex_dump : List ℕ → Bool → LogLine

-- `isprint(c) || isspace(c)` over the buffer; the loop stops at the first byte that is neither.
abbrev pub is_printable : (ℕ → Bool) → List ℕ → Bool
is_printable printable [] = true
is_printable printable (b ∷ bs) = let rest = is_printable printable bs in printable b && rest

unfoldable pub captured_log : (ℕ → Bool) → ℕ → List ℕ → List LogLine
captured_log printable mode bytes =
    let shown = is_printable printable bytes in
    if mode == mode_quiet
    then []
    else captured (length bytes)
      ∷ ((if shown then text_data bytes ∷ [] else [])
          ++ (if mode == mode_debug || not shown
              then hex_dump (take 64 bytes) (ltb 64 (length bytes)) ∷ []
              else []))

pub record CharWrite : Type 0 where
  pub ret : Result ℕ
  pub pos : ℕ
  pub status : WalStatus
  pub log : List LogLine

abbrev pub page_size : ℕ
page_size = 4096

-- `bytes`: the user's buffer, of the call's `count` bytes. `memory`: whether `kzalloc` succeeds.
-- `copies`: whether `copy_from_user` does.
unfoldable pub wal_char_write : (ℕ → Bool) → WalStatus → List ℕ → ℕ → Bool → Bool → CharWrite
unfolding captured_log
wal_char_write printable s bytes pos memory copies =
    let actual_count = min (length bytes) page_size in
    if not memory
    then record { ret = err enomem; pos = pos; status = s; log = [] }
    else if not copies
    then record { ret = err efault; pos = pos; status = s; log = [] }
    else record {
      ret = ok actual_count;
      pos = pos + actual_count;
      status = record s {
        char_write_count = inc32 s.char_write_count;
        total_bytes_written = u32 (s.total_bytes_written + actual_count);
      };
      log = captured_log printable s.current_mode (take actual_count bytes);
    }

-- The numbers of `_IO`, `_IOR` and `_IOW`: direction, size, type and number.
abbrev pub ioc : ℕ → ℕ → ℕ → ℕ → ℕ
ioc dir size typ nr = dir * 2 ^ 30 + size * 2 ^ 16 + typ * 2 ^ 8 + nr

abbrev pub ioc_reset : ℕ
ioc_reset = ioc 0 0 119 0

abbrev pub ioc_get_status : ℕ
ioc_get_status = ioc 2 4 119 1

abbrev pub ioc_set_mode : ℕ
ioc_set_mode = ioc 1 4 119 2

-- `mode`: what `copy_from_user` reads for WAL_IOC_SET_MODE (none: a fault). `copies`: whether
-- `copy_to_user` succeeds. The reply is the status that WAL_IOC_GET_STATUS copies out.
unfoldable pub wal_char_ioctl :
    WalStatus → ℕ → Option ℕ → Bool → Result (Option WalStatus) × WalStatus
unfolding wal_driver_reset_stats
wal_char_ioctl s cmd mode copies =
    if not (cmd / 2 ^ 8 % 2 ^ 8 == 119)
    then (err enotty, s)
    else if ltb 2 (cmd % 2 ^ 8)
    then (err enotty, s)
    else if cmd == ioc_reset
    then (ok none, wal_driver_reset_stats s)
    else if cmd == ioc_get_status
    then (if copies then ok (some s) else err efault, s)
    else if cmd == ioc_set_mode
    then elim mode [
      | none ↦ (err efault, s)
      | some m ↦
          if ltb mode_quiet m then (err einval, s) else (ok none, record s { current_mode = m })
    ]
    else (err enotty, s)
