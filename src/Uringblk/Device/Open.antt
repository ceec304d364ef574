-- ===== src/Uringblk/Device/Open.antt =====
-- Opening and closing the device under the device backend, driver/uringblk_main.c.
use kvm_db.Prelude.{
  ℕ, ◌*◌, ◌≤◌, ◌<◌, ◌≡◌, ◌≢◌, ◌⊎◌, Bool, true, false, ◌||◌, Option, none, some, List, length, ltb,
  leb, ◌==◌, if◌then◌else◌, arith,
}
use kvm_db.Prelude.Word.{u64}
use kvm_db.Prelude.Errno.{einval, enametoolong, Result, ok, err}
use kvm_db.Uringblk.Backend.{Backend, backend_device}

-- What `bdev_open_by_path` opens: `bdev_nr_bytes`, `bdev_nr_sectors` and the bytes that the device
-- holds.
pub record BlockDevice : Type 0 where
  pub nr_bytes : ℕ
  pub nr_sectors : ℕ
  pub content : List ℕ

abbrev path_max : ℕ
path_max = 4096

abbrev pub device_size : BlockDevice → ℕ
device_size bdev =
    if bdev.nr_bytes == 0
    then if ltb 0 bdev.nr_sectors then u64 (bdev.nr_sectors * 512) else 0
    else bdev.nr_bytes

-- The result, the backend, and whether the handle on the device is still open. `auto_detect` is the
-- module parameter uringblk_auto_detect_size.
unfoldable pub device_backend_init :
    Bool → Result BlockDevice → Backend → Option (List ℕ) → ℕ → Result ℕ × Backend × Bool
device_backend_init auto_detect opened b path capacity = elim path [
  | none ↦ (err einval, b, false)
  | some p ↦
      if length p == 0
      then (err einval, b, false)
      else if leb path_max (length p)
      then (err enametoolong, b, false)
      else elim opened [
        | err e ↦ (err e, b, false)
        | ok bdev ↦
            let size = device_size bdev in
            if size == 0 then (err einval, b, false) else (
              ok 0,
              record {
                kind = backend_device;
                private_data = some bdev.content;
                capacity =
                    if auto_detect || capacity == 0
                    then size
                    else if ltb size capacity
                    then size
                    else capacity;
              },
              true,
            )
      ]
]

-- The handle is released where there is one.
unfoldable pub device_backend_cleanup : Backend → Backend
device_backend_cleanup b = record b { private_data = none }

-- Opening a device gives either a backend on it whose capacity is positive and no larger than the
-- device, and is the requested one or the device's size, with the handle open; or an error, the
-- backend as it was and no open handle.
pub device_init_lem :
    (auto_detect : Bool) (bdev : BlockDevice) (b : Backend) (path : List ℕ) (capacity : ℕ)
    → let r = device_backend_init auto_detect (ok bdev) b (some path) capacity in
      ((r.0 ≡ ok 0)
        × (r.2 ≡ true)
        × (r.1.kind ≡ backend_device)
        × (r.1.private_data ≡ some bdev.content)
        × (0 < r.1.capacity)
        × (r.1.capacity ≤ device_size bdev)
        × ((r.1.capacity ≡ capacity) ⊎ (r.1.capacity ≡ device_size bdev)))
      ⊎ ((r.0 ≢ ok 0) × (r.2 ≡ false) × (r.1 ≡ b))
unfolding device_backend_init
device_init_lem auto_detect bdev b path capacity = ground arith
