-- ===== src/Tools/WalClient.antt =====
-- The client of the log driver's devices, `WAL_device_interface` of src/kvm_wal.cc, over what `read`
-- and `write` do; and over the driver's character device.
pub mod Driver
use kvm_db.Prelude.{
  ℕ, ◌+◌, ◌-◌, ◌≤◌, ◌≡◌, ◌≢◌, ◌⊎◌, arith, Bool, true, false, not, ◌&&◌, Option, none, some, List,
  [], ◌∷◌, ◌++◌, length, ◌==◌, if◌then◌else◌,
}
use kvm_db.Prelude.Errno.{Errno, ebadf, Result, ok, err}
use kvm_db.Prelude.Text.{codes}

-- `read` and `write` on the two open devices, on the state `S` of the kernel: the count or the bytes.
pub record WalFiles {ℓ} (S : Type ℓ) : Type ℓ where
  pub read_char : S → ℕ → Result (List ℕ) × S
  pub write_char : S → List ℕ → Result ℕ × S
  pub read_block : S → ℕ → Result (List ℕ) × S
  pub write_block : S → List ℕ → Result ℕ × S

-- The two descriptors, none for -1, and the number of descriptors that were opened for this client and
-- are open.
pub record Client : Type 0 where
  pub char_fd : Option ℕ
  pub block_fd : Option ℕ
  pub open_fds : ℕ

-- `WAL_RESPONSE`
abbrev pub wal_response : List ℕ
wal_response = codes "Hello from WAL" ++ 10 ∷ []

-- `char` and `block`: what `open` gives.
unfoldable pub open_devices : Result ℕ → Result ℕ → Client → Option Errno × Client
open_devices char block c = elim char [
  | err e ↦ (some e, record c { char_fd = none })
  | ok fd ↦
      let opened = record c { char_fd = some fd; open_fds = c.open_fds + 1 } in
      elim block [
        | err e ↦ (
          some e,
          record opened { char_fd = none; block_fd = none; open_fds = opened.open_fds - 1 },
        )
        | ok fd' ↦ (none, record opened { block_fd = some fd'; open_fds = opened.open_fds + 1 })
      ]
]

abbrev is_open : Option ℕ → Bool
is_open none = false
is_open (some fd) = true

unfoldable pub close_devices : Client → Client
close_devices c =
    let char_closed : Client =
      if is_open c.char_fd then record c { char_fd = none; open_fds = c.open_fds - 1 } else c in
    if is_open char_closed.block_fd
    then record char_closed { block_fd = none; open_fds = char_closed.open_fds - 1 }
    else char_closed

-- The descriptors that a client holds.
abbrev pub owned : Client → ℕ
owned c = (if is_open c.char_fd then 1 else 0) + (if is_open c.block_fd then 1 else 0)

-- The move assignment; `same`: of a client to itself. The first client is the one assigned to.
unfoldable pub move_client : Bool → Client → Client → Client × Client
unfolding close_devices
move_client true c other = (c, other)
move_client false c other = (
  record {
    char_fd = other.char_fd;
    block_fd = other.block_fd;
    open_fds = (close_devices c).open_fds + owned other;
  },
  record { char_fd = none; block_fd = none; open_fds = other.open_fds - owned other },
)

-- The move constructor.
unfoldable pub moved_client : Client → Client × Client
moved_client other = (
  record { char_fd = other.char_fd; block_fd = other.block_fd; open_fds = owned other },
  record { char_fd = none; block_fd = none; open_fds = other.open_fds - owned other },
)

unfoldable pub are_devices_open : Client → Bool
are_devices_open c = is_open c.char_fd && is_open c.block_fd

-- Where a read gives nothing the client answers with the fixed text.
abbrev answered : List ℕ → List ℕ
answered bytes = if length bytes == 0 then wal_response else bytes

abbrev pub test_char_data : List ℕ
test_char_data = codes "Hello, character device!"

abbrev pub test_block_data : List ℕ
test_block_data = codes "Hello, block device! This is a longer message."

module _ {ℓ} {S : Type ℓ} (files : WalFiles S) where
  unfoldable pub read_char_device : Client → S → ℕ → Result (List ℕ) × S
  read_char_device c s max_bytes = elim c.char_fd [
    | none ↦ (err ebadf, s)
    | some fd ↦
        let r = files.read_char s max_bytes in
        elim r.0 [ err e ↦ (err e, r.1) | ok bytes ↦ (ok (answered bytes), r.1) ]
  ]

  unfoldable pub write_char_device : Client → S → List ℕ → Result ℕ × S
  write_char_device c s text = elim c.char_fd [
    | none ↦ (err ebadf, s)
    | some fd ↦ files.write_char s text
  ]

  unfoldable pub read_block_device : Client → S → ℕ → Result (List ℕ) × S
  read_block_device c s block_size = elim c.block_fd [
    | none ↦ (err ebadf, s)
    | some fd ↦
        let r = files.read_block s block_size in
        elim r.0 [ err e ↦ (err e, r.1) | ok bytes ↦ (ok (answered bytes), r.1) ]
  ]

  unfoldable pub write_block_device : Client → S → List ℕ → Result ℕ × S
  write_block_device c s bytes = elim c.block_fd [
    | none ↦ (err ebadf, s)
    | some fd ↦ files.write_block s bytes
  ]

  -- The four calls in order; the first error ends the test.
  unfoldable pub test_device_operations : Client → S → Option Errno × S
  unfolding read_char_device write_char_device read_block_device write_block_device
  test_device_operations c s =
      if not (are_devices_open c)
      then (some ebadf, s)
      else let wrote = write_char_device c s test_char_data in
        elim wrote.0 [
          | err e ↦ (some e, wrote.1)
          | ok n ↦
              let text = read_char_device c wrote.1 1024 in
              elim text.0 [
                | err e ↦ (some e, text.1)
                | ok answer ↦
                    let stored = write_block_device c text.1 test_block_data in
                    elim stored.0 [
                      | err e ↦ (some e, stored.1)
                      | ok n ↦
                          let block = read_block_device c stored.1 512 in
                          elim block.0 [ err e ↦ (some e, block.1) | ok answer ↦ (none, block.1) ]
                    ]
              ]
        ]

-- A client that holds all its open descriptors and opens the devices has, after it closed them again,
-- none; but the descriptors that it held before the opening stay open. Where the opening fails at most
-- those stay open.
open-close :
    (char block : Result ℕ) (c : Client)
    → c.open_fds ≡ owned c
    → let r = open_devices char block c in
      ((r.0 ≡ none)
        × (close_devices r.1 ≡ record { char_fd = none; block_fd = none; open_fds = owned c }))
      ⊎ ((r.0 ≢ none) × ((close_devices r.1).open_fds ≤ owned c))
unfolding open_devices close_devices
open-close char block c all = ground (arith, all)

-- Two clients that hold all their open descriptors do so after one was moved to the other.
move-owned :
    (same : Bool) (c other : Client)
    → c.open_fds ≡ owned c
    → other.open_fds ≡ owned other
    → let r = move_client same c other in (r.0.open_fds ≡ owned r.0) × (r.1.open_fds ≡ owned r.1)
unfolding move_client close_devices
move-owned same c other all all' = ground (arith, all, all')
