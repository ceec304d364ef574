-- ===== src/Wal/Char/Laws.antt =====
-- The error branches and the invariant of /dev/rwal.
use native.Mathlib.Decide.{ℕ_discrete}
use native.Mathlib.Nat.{le_refl}
use mathlib.Core.Path.{subst}
use kvm_db.Prelude.{
  ℕ, ◌≡◌, ◌≢◌, Bool, true, false, Option, none, some, List, [], ◌∷◌, length, take, min, arith, ltb,
  ◌==◌, Bool-cases, inl, inr, ltb→lt, ltb→le, ◌<◌, ◌≤◌, take_all,
}
use kvm_db.Prelude.Errno.{enotty, efault, einval, Result, ok, err}
use kvm_db.Wal.Status.{WalStatus, IsStatus, mode_quiet, wal_driver_reset_stats, reset-IsStatus}
use kvm_db.Wal.Char.{
  wal_char_read, wal_char_write, wal_char_ioctl, ioc_reset, ioc_get_status, ioc_set_mode, captured,
  captured_log, hex_dump, is_printable, page_size,
}

pub read-IsStatus :
    (s : WalStatus) (count pos : ℕ) (copies : Bool)
    → IsStatus s
    → IsStatus (wal_char_read s count pos copies).status
unfolding wal_char_read
read-IsStatus s count pos copies v = ground arith

pub write-IsStatus :
    (p : ℕ → Bool) (s : WalStatus) (bytes : List ℕ) (pos : ℕ) (memory copies : Bool)
    → IsStatus s
    → IsStatus (wal_char_write p s bytes pos memory copies).status
unfolding wal_char_write
write-IsStatus p s bytes pos memory copies v = ground arith

pub ioctl-IsStatus :
    (s : WalStatus) (cmd : ℕ) (mode : Option ℕ) (copies : Bool)
    → IsStatus s
    → IsStatus (wal_char_ioctl s cmd mode copies).1
unfolding wal_char_ioctl
ioctl-IsStatus s cmd none copies v = ground (arith, reset-IsStatus s)
ioctl-IsStatus s cmd (some m) copies v = ground (arith, reset-IsStatus s)

-- What an `ioctl` call may do: the status before, the command and what the user passes, the result
-- and the status after.
pub data IoctlStep
    : WalStatus → ℕ → Option ℕ → Bool → Result (Option WalStatus) → WalStatus → Type 0 where
  resets :
      {s : WalStatus} {mode : Option ℕ} {copies : Bool}
      → IoctlStep s ioc_reset mode copies (ok none) (wal_driver_reset_stats s)
  reports : {s : WalStatus} {mode : Option ℕ} → IoctlStep s ioc_get_status mode true (ok (some s)) s
  report_faults :
      {s : WalStatus} {mode : Option ℕ} → IoctlStep s ioc_get_status mode false (err efault) s
  sets :
      {s : WalStatus} {m : ℕ} {copies : Bool}
      → m ≤ mode_quiet
      → IoctlStep s ioc_set_mode (some m) copies (ok none) (record s { current_mode = m })
  mode_out_of_range :
      {s : WalStatus} {m : ℕ} {copies : Bool}
      → mode_quiet < m
      → IoctlStep s ioc_set_mode (some m) copies (err einval) s
  mode_faults :
      {s : WalStatus} {copies : Bool} → IoctlStep s ioc_set_mode none copies (err efault) s
  refused :
      {s : WalStatus} {cmd : ℕ} {mode : Option ℕ} {copies : Bool}
      → cmd ≢ ioc_reset
      → cmd ≢ ioc_get_status
      → cmd ≢ ioc_set_mode
      → IoctlStep s cmd mode copies (err enotty) s

refused_lem :
    (s : WalStatus) (cmd : ℕ) (mode : Option ℕ) (copies : Bool)
    → cmd ≢ ioc_reset
    → cmd ≢ ioc_get_status
    → cmd ≢ ioc_set_mode
    → wal_char_ioctl s cmd mode copies ≡ (err enotty, s)
unfolding wal_char_ioctl
refused_lem s cmd mode copies a b c = ground arith

set_lem :
    (s : WalStatus) (m : ℕ) (copies : Bool)
    → IoctlStep s ioc_set_mode
        (some m)
        copies
        (wal_char_ioctl s ioc_set_mode (some m) copies).0
        (wal_char_ioctl s ioc_set_mode (some m) copies).1
unfolding wal_char_ioctl
set_lem s m copies = elim (Bool-cases (ltb mode_quiet m)) [
  | inl e ↦ rw e (mode_out_of_range (ltb→lt mode_quiet m e))
  | inr e ↦ rw e (sets (ltb→le mode_quiet m e))
]

report_lem :
    (s : WalStatus) (mode : Option ℕ) (copies : Bool)
    → IoctlStep s ioc_get_status mode copies
        (wal_char_ioctl s ioc_get_status mode copies).0
        (wal_char_ioctl s ioc_get_status mode copies).1
unfolding wal_char_ioctl
report_lem s mode true = reports
report_lem s mode false = report_faults

set_any :
    (s : WalStatus) (mode : Option ℕ) (copies : Bool)
    → IoctlStep s ioc_set_mode mode copies
        (wal_char_ioctl s ioc_set_mode mode copies).0
        (wal_char_ioctl s ioc_set_mode mode copies).1
unfolding wal_char_ioctl
set_any s none copies = mode_faults
set_any s (some m) copies = set_lem s m copies

reset_lem :
    (s : WalStatus) (mode : Option ℕ) (copies : Bool)
    → IoctlStep s ioc_reset mode copies
        (wal_char_ioctl s ioc_reset mode copies).0
        (wal_char_ioctl s ioc_reset mode copies).1
unfolding wal_char_ioctl
reset_lem s mode copies = resets

-- Every `ioctl` call on /dev/rwal makes one of the described steps: a reset, a report of the status,
-- a change of the mode to one of the three, or a refusal that changes nothing, with ENOTTY for every
-- command but the three, EINVAL for a mode out of range and EFAULT for a failed copy.
pub ioctl-IoctlStep :
    (s : WalStatus) (cmd : ℕ) (mode : Option ℕ) (copies : Bool)
    → let r = wal_char_ioctl s cmd mode copies in IoctlStep s cmd mode copies r.0 r.1
ioctl-IoctlStep s cmd mode copies = elim (ℕ_discrete cmd ioc_reset) [
  | yes e ↦ rw e (reset_lem s mode copies)
  | no a ↦ elim (ℕ_discrete cmd ioc_get_status) [
    | yes e ↦ rw e (report_lem s mode copies)
    | no b ↦ elim (ℕ_discrete cmd ioc_set_mode) [
      | yes e ↦ rw e (set_any s mode copies)
      | no c ↦ rw (refused_lem s cmd mode copies a b c) (refused a b c)
    ]
  ]
]

-- What a write of data that is not printable reports outside quiet mode: the number of captured
-- bytes and a dump of the first 64, marked as truncated exactly when there are more.
pub unprintable_is_dumped :
    (p : ℕ → Bool) (s : WalStatus) (bytes : List ℕ) (pos : ℕ)
    → s.current_mode ≢ mode_quiet
    → is_printable p (take page_size bytes) ≡ false
    → length bytes ≤ page_size
    → (wal_char_write p s bytes pos true true).log
      ≡ captured (length bytes) ∷ hex_dump (take 64 bytes) (ltb 64 (length bytes)) ∷ []
unfolding wal_char_write captured_log
unprintable_is_dumped p s bytes pos loud odd fits =
    let h : min (length bytes) page_size ≡ length bytes = omega arith in
    let shown : is_printable p bytes ≡ false =
      subst (λ l. is_printable p l ≡ false) (take_all page_size bytes fits) odd in
    rw (h, take_all (length bytes) bytes (le_refl (length bytes)), shown)
      (elim (Bool-cases (s.current_mode == mode_quiet)) [
        | inl e ↦ absurd (loud (ground arith))
        | inr e ↦ ground arith
      ])
