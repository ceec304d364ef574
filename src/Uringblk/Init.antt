-- ===== src/Uringblk/Init.antt =====
-- Setting up and taking down one block device, driver/uringblk_main.c: `uringblk_init_device` and
-- `uringblk_cleanup_device`.
pub mod Released
use kvm_db.Prelude.{
  ℕ, ◌+◌, ◌*◌, ◌/◌, Bool, true, false, ◌||◌, Option, none, some, List, [], take, replicate, ◌==◌,
  if◌then◌else◌,
}
use kvm_db.Prelude.Word.{u64}
use kvm_db.Prelude.Errno.{Errno, einval, Result, ok, err}
use kvm_db.Prelude.Text.{codes}
use kvm_db.Uringblk.Backend.{
  Backend, backend_virtual, backend_device, virtual_backend_init, virtual_backend_cleanup,
}
use kvm_db.Uringblk.Request.{UringblkStats, UringblkDisk}
use kvm_db.Uringblk.Device.Open.{BlockDevice, device_backend_init, device_backend_cleanup}
use kvm_db.Uringblk.Config.{validate_backend_config}
use kvm_db.Uringblk.Admin.{AdminDevice}
use kvm_db.Uringblk.Instance.{
  ModuleParams, UringblkConfig, Gendisk, UringblkDevice, InitEnv, no_stats, no_backend,
  initial_features, module_config, fresh_device, queue_view, admin_view,
}

-- How setting up can stop short: by an error number, or where the division by a block size of 0 traps.
pub data Stop : Type 0 where
  error : Errno → Stop
  divide_error : Stop

-- A backend that was set up, or the error.
abbrev backend_of : Result ℕ × Backend → Result Backend
backend_of (ok n, b) = ok b
backend_of (err e, b) = err e

abbrev opened_of : Result ℕ × Backend × Bool → Result Backend
opened_of (ok n, b, held) = ok b
opened_of (err e, b, held) = err e

-- The `switch` on the backend's type.
unfoldable pub init_backend : ModuleParams → InitEnv → Result Backend
unfolding virtual_backend_init device_backend_init
init_backend p env =
    let capacity = u64 (p.capacity_mb * 1024 * 1024) in
    if p.backend_type == 0
    then backend_of (virtual_backend_init no_backend capacity env.memory)
    else if p.backend_type == 1
    then opened_of (
        device_backend_init p.auto_detect_size env.opened no_backend
          (some (take 255 p.backend_device)) (if p.auto_detect_size then 0 else capacity))
    else err einval

-- `backend->ops->cleanup`
unfoldable pub backend_cleanup : Backend → Backend
unfolding virtual_backend_cleanup device_backend_cleanup
backend_cleanup b = elim b.kind [
  | backend_virtual ↦ virtual_backend_cleanup b
  | backend_device ↦ device_backend_cleanup b
]

-- The labels at the end of `uringblk_init_device`, the last one first.
abbrev err_cleanup_backend : UringblkDevice → Backend → UringblkDevice
err_cleanup_backend dev b = record dev { backend = some (backend_cleanup b) }

abbrev err_free_tag_set : UringblkDevice → Backend → UringblkDevice
err_free_tag_set dev b = err_cleanup_backend (record dev { tag_set = false }) b

abbrev err_put_disk : UringblkDevice → Backend → UringblkDevice
err_put_disk dev b = err_free_tag_set (record dev { disk = none }) b

abbrev is_ok : Option Errno → Bool
is_ok none = true
is_ok (some e) = false

-- Where the backend is up. Where the division traps nothing is undone.
unfoldable pub init_queue :
    ModuleParams → InitEnv → UringblkDevice → Backend → Option Stop × UringblkDevice
unfolding backend_cleanup
init_queue p env dev b = elim env.alloc_tag_set [
  | some e ↦ (some (error e), err_cleanup_backend dev b)
  | none ↦
      let tagged = record dev { backend = some b; tag_set = true } in
      elim env.alloc_disk [
        | some e ↦ (some (error e), err_free_tag_set tagged b)
        | none ↦
            let disk : Gendisk = record {
              sectors = b.capacity / p.logical_block_size;
              added = false;
              attributes = false;
            } in
            if p.logical_block_size == 0
            then (some divide_error, record tagged { disk = some (record disk { sectors = 0 }) })
            else elim env.add_disk [
              | some e ↦ (some (error e), err_put_disk (record tagged { disk = some disk }) b)
              | none ↦ (
                none,
                record tagged {
                  disk = some (record disk { added = true; attributes = is_ok env.create_group });
                  admin_device = is_ok env.device_create;
                },
              )
            ]
      ]
]

-- The device's memory is overwritten first, whatever it held.
unfoldable pub uringblk_init_device :
    ModuleParams → InitEnv → UringblkDevice → ℕ → Option Stop × UringblkDevice
uringblk_init_device p env dev minor =
    let fresh = fresh_device p minor in
    elim (validate_backend_config p.backend_type (some (take 255 p.backend_device))) [
      | err e ↦ (some (error e), fresh)
      | ok n ↦ elim (init_backend p env) [
        | err e ↦ (some (error e), fresh)
        | ok b ↦ init_queue p env fresh b
      ]
    ]

unfoldable pub uringblk_cleanup_device : UringblkDevice → UringblkDevice
unfolding backend_cleanup
uringblk_cleanup_device dev = record dev {
  admin_device = false;
  disk = none;
  tag_set = false;
  backend = elim dev.backend [ none ↦ none | some b ↦ some (backend_cleanup b) ];
}
