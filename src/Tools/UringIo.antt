-- ===== src/Tools/UringIo.antt =====
-- The input and output of the block driver's client and its manager, src/kvm_uringblk.cc.
pub mod Transfers
use kvm_db.Prelude.{
  ℕ, zero, suc, ◌^◌, ◌≤◌, ◌<◌, ◌≡◌, refl, Bool, true, false, not, ◌&&◌, ◌==◌, ◌+◌, ◌-◌, Option,
  none, some, List, [], ◌∷◌, ◌++◌, length, if◌then◌else◌, arith,
}
use kvm_db.Prelude.Word.{u32}
use kvm_db.Prelude.Text.{codes, print_number}
use kvm_db.Prelude.Errno.{Errno, ebadf, eio, enoent, Result, ok, err}
use kvm_db.Tools.UringClient.{
  BlkClient, RingEnv, CmdPath, Called, called, ring_call, open_device, close_device, identify,
}

-- A ring with polling, or one without where that is refused.
abbrev pub polled : RingEnv → Called ℕ → Called ℕ
polled env run = elim env.poll_init [
  | none ↦ run
  | some e ↦ elim env.queue_init [ some e' ↦ called (err e') | none ↦ run ]
]

-- The move assignment of the client; `same`: to itself. The first client is the one assigned to;
-- `left` is what the library leaves in the path that was moved from.
unfoldable pub move_device : Bool → List ℕ → BlkClient → BlkClient → BlkClient × BlkClient
unfolding close_device
move_device true left c other = (c, other)
move_device false left c other =
    let held : ℕ = elim other.fd [ none ↦ 0 | some fd ↦ 1 ] in
    (
      record { fd = other.fd; path = other.path; open_fds = (close_device c).open_fds + held },
      record { fd = none; path = left; open_fds = other.open_fds - held },
    )

module _ (env : RingEnv) (c : BlkClient) where
  -- `kernel offset len`: what the kernel completes the read or write of so many bytes with; the length
  -- is cut to 32 bits.
  unfoldable pub read_async : (ℕ → ℕ → Result ℕ) → ℕ → ℕ → Called ℕ
  unfolding ring_call
  read_async kernel offset length = elim c.fd [
    | none ↦ called (err ebadf)
    | some fd ↦ polled env (ring_call env (kernel offset (u32 length)))
  ]

  unfoldable pub write_async : (ℕ → ℕ → Result ℕ) → ℕ → ℕ → Called ℕ
  unfolding ring_call
  write_async kernel offset length = elim c.fd [
    | none ↦ called (err ebadf)
    | some fd ↦ polled env (ring_call env (kernel offset (u32 length)))
  ]

  -- `kernel`: what it completes the `fsync` with; the value is 0 where that succeeds.
  unfoldable pub flush_async : Result ℕ → Called ℕ
  unfolding ring_call
  flush_async kernel = elim c.fd [
    | none ↦ called (err ebadf)
    | some fd ↦ elim env.queue_init [
      | some e ↦ called (err e)
      | none ↦
          let r = ring_call env kernel in
          elim r.value [ err e ↦ r | ok n ↦ record { value = ok 0; rings = r.rings } ]
    ]
  ]

-- The paths of the numbers from `i` on, `n` of them, that are there.
unfoldable pub device_path : ℕ → List ℕ
device_path i = codes "/dev/uringblk" ++ print_number 10 i

abbrev pub enumerate_from : (List ℕ → Bool) → ℕ → ℕ → List (List ℕ)
enumerate_from exists i zero = []
enumerate_from exists i (suc n) =
    let rest = enumerate_from exists (suc i) n in
    if exists (device_path i) then device_path i ∷ rest else rest

unfoldable pub enumerate_devices : (List ℕ → Bool) → List (List ℕ)
enumerate_devices exists = enumerate_from exists 0 16

-- `opens`: whether the path can be opened for reading.
unfoldable pub is_device_available : (List ℕ → Bool) → (List ℕ → Bool) → List ℕ → Bool
is_device_available exists opens path = exists path && opens path

-- Whether the module is loaded, by what is there.
unfoldable pub is_driver_loaded : (List ℕ → Bool) → Bool
is_driver_loaded exists =
    exists (codes "/proc/modules") && exists (codes "/sys/module/uringblk_driver")

-- Up to the end of the line.
abbrev first_line : List ℕ → List ℕ
first_line [] = []
first_line (c ∷ cs) = let rest = first_line cs in if c == 10 then [] else c ∷ rest

-- `thrown`: whether the search for the file throws; `opened`: the file's text, or the error of opening
-- it.
unfoldable pub get_driver_version : Bool → (List ℕ → Bool) → Result (List ℕ) → Result (List ℕ)
get_driver_version thrown exists opened =
    if thrown
    then err eio
    else if not (exists (codes "/sys/module/uringblk_driver/version"))
    then err enoent
    else elim opened [ err e ↦ err e | ok text ↦ ok (first_line text) ]

unfoldable pub check_sysfs_path : (List ℕ → Bool) → List ℕ → Bool
check_sysfs_path exists name = exists (codes "/sys/block/" ++ name ++ codes "/uringblk")

-- The manager's test of a path with a new client: the error that it returns, and the client after its
-- destructor. The other commands are only reported.
unfoldable pub test_device : RingEnv → CmdPath → Result ℕ → List ℕ → Option Errno × BlkClient
unfolding open_device identify
test_device env cmd opened path =
    let device = open_device opened path (record { fd = none; path = []; open_fds = 0 }) in
    elim device.0 [
      | some e ↦ (some e, close_device device.1)
      | none ↦ elim (identify env cmd device.1).value [
        | err e ↦ (some e, close_device device.1)
        | ok info ↦ (none, close_device device.1)
      ]
    ]

-- Every device that is there is tested; errors are only reported.
unfoldable pub test_all_devices :
    RingEnv → CmdPath → (List ℕ → Result ℕ) → List (List ℕ) → List (Option Errno)
unfolding test_device
test_all_devices env cmd opened [] = []
test_all_devices env cmd opened (path ∷ paths) =
    (test_device env cmd (opened path) path).0 ∷ test_all_devices env cmd opened paths
