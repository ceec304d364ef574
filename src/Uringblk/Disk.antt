-- ===== src/Uringblk/Disk.antt =====
-- The queue contexts and the block device's operations of driver/uringblk_main.c.
use kvm_db.Prelude.{ℕ, ◌*◌, ◌/◌, ◌%◌, ◌^◌, Bool, not, Option, none, some, if◌then◌else◌}
use kvm_db.Prelude.Errno.{Errno, enomem, enodev}
use kvm_db.Uringblk.Backend.{backend_virtual}
use kvm_db.Uringblk.Instance.{UringblkDevice}

-- `struct uringblk_queue`, the driver's data of a hardware context.
pub record UringblkQueue : Type 0 where
  pub device : UringblkDevice
  pub queue_num : ℕ

-- The error, and the context's data; `memory`: whether `kzalloc` succeeds.
unfoldable pub uringblk_init_hctx :
    Bool → Option UringblkQueue → UringblkDevice → ℕ → Option Errno × Option UringblkQueue
uringblk_init_hctx memory hctx dev hctx_idx =
    if not memory
    then (some enomem, hctx)
    else (none, some record { device = dev; queue_num = hctx_idx })

unfoldable pub uringblk_exit_hctx : Option UringblkQueue → Option UringblkQueue
uringblk_exit_hctx hctx = none

-- The number of requests that were found complete.
unfoldable pub uringblk_poll_fn : UringblkQueue → ℕ
uringblk_poll_fn uq =
    if not uq.device.config.enable_poll
    then 0
    else elim uq.device.backend [ none ↦ 0 | some b ↦ elim b.kind [ backend_virtual ↦ 0 | _ ↦ 0 ] ]

-- The disk's private data may be missing.
unfoldable pub uringblk_open : Option UringblkDevice → Option Errno
uringblk_open none = some enodev
uringblk_open (some dev) = none

-- `struct hd_geometry`; the number of cylinders has 16 bits.
pub record Geometry : Type 0 where
  pub cylinders : ℕ
  pub heads : ℕ
  pub sectors : ℕ
  pub start : ℕ

-- `capacity` is the backend's.
unfoldable pub uringblk_getgeo : ℕ → ℕ → Geometry
uringblk_getgeo logical_block_size capacity = record {
  cylinders = capacity / logical_block_size / (16 * 63) % 2 ^ 16;
  heads = 16;
  sectors = 63;
  start = 0;
}
