-- ===== src/Tools/BlockTests.antt =====
-- The part of src/kvm_db.cc that tests the block driver, from the look for its module to the end.
use kvm_db.Prelude.{
  ℕ, ◌≡◌, refl, Bool, Option, none, some, List, [], ◌∷◌, if◌then◌else◌, arith, Bool-cases, inl, inr,
}
use kvm_db.Prelude.Errno.{Errno, Result}
use kvm_db.Uringblk.Request.{UringblkDisk}
use kvm_db.Tools.UringClient.{BlkClient, RingEnv, CmdPath, open_device, close_device}
use kvm_db.Tools.UringIo.{
  is_driver_loaded, get_driver_version, enumerate_devices, test_all_devices, flush_async,
}
use kvm_db.Tools.RoundTrip.{BlockLayer, data_test}

-- What the system gives: which paths exist, the module's version file, what opening a path and `fsync`
-- give, and the kernel under the client.
pub record BlockEnv : Type 0 where
  pub ring : RingEnv
  pub cmd : CmdPath
  pub exists : List ℕ → Bool
  pub version_thrown : Bool
  pub version_file : Result (List ℕ)
  pub opened : List ℕ → Result ℕ
  pub kernel : BlockLayer
  pub fsync : Result ℕ

-- What is reported of the first device: the error of opening it, or whether its data matched (none where
-- a transfer failed) and what the flush gave.
pub data FirstDevice : Type 0 where
  no_device : FirstDevice
  not_opened : Errno → FirstDevice
  tested : Option Bool → Result ℕ → FirstDevice

-- What is reported, and the client after its destructor.
pub record BlockReport : Type 0 where
  pub version : Option (Result (List ℕ))
  pub tests : List (Option Errno)
  pub first : FirstDevice
  pub client : BlkClient

abbrev pub no_blk_client : BlkClient
no_blk_client = record { fd = none; path = []; open_fds = 0 }

-- The tests of a device, given what opening it came to.
abbrev test_opened : BlockEnv → UringblkDisk → Option Errno × BlkClient → FirstDevice × BlkClient
test_opened env d (some e, c) = (not_opened e, close_device c)
test_opened env d (none, c) = (
  tested (data_test env.ring c env.kernel d) (flush_async env.ring c env.fsync).value,
  close_device c,
)

abbrev first_device : BlockEnv → UringblkDisk → List (List ℕ) → FirstDevice × BlkClient
first_device env d [] = (no_device, no_blk_client)
first_device env d (path ∷ paths) =
    test_opened env d (open_device (env.opened path) path no_blk_client)

unfoldable pub block_tests : BlockEnv → UringblkDisk → BlockReport
unfolding is_driver_loaded get_driver_version enumerate_devices test_all_devices open_device
    close_device data_test flush_async
block_tests env d =
    let devices = enumerate_devices env.exists in
    let first = first_device env d devices in
    if is_driver_loaded env.exists
    then record {
      version = some (get_driver_version env.version_thrown env.exists env.version_file);
      tests = test_all_devices env.ring env.cmd env.opened devices;
      first = first.0;
      client = first.1;
    }
    else record { version = none; tests = []; first = no_device; client = no_blk_client }

closed_after :
    (env : BlockEnv) (d : UringblkDisk) (paths : List (List ℕ))
    → (first_device env d paths).1.open_fds ≡ 0
unfolding open_device close_device
closed_after env d [] = refl
closed_after env d (path ∷ paths) = ground arith

-- However the tests of the block driver go, the client's descriptor is closed after them.
block_closed : (env : BlockEnv) (d : UringblkDisk) → (block_tests env d).client.open_fds ≡ 0
unfolding block_tests
block_closed env d = elim (Bool-cases (is_driver_loaded env.exists)) [
  | inl loaded ↦ rw loaded (closed_after env d (enumerate_devices env.exists))
  | inr missing ↦ rw missing refl
]
