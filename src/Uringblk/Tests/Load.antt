-- ===== src/Uringblk/Tests/Load.antt =====
-- Concrete runs of the block driver's loading, its device backend and its attributes.
use kvm_db.Prelude.{
  ℕ, ◌*◌, ◌^◌, ◌<◌, ◌≡◌, ◌≢◌, refl, ◌⊎◌, inl, inr, true, false, Option, none, some, List, [], ◌∷◌,
  arith,
}
use kvm_db.Prelude.Text.{codes}
use kvm_db.Prelude.Errno.{Errno, einval, eio, ok, err}
use kvm_db.Uringblk.Backend.{Backend, backend_device, virtual_backend_init}
use kvm_db.Uringblk.Backend.Memory.{IsMemory, at}
use kvm_db.Uringblk.Request.{BlkStatus, sts_ok}
use kvm_db.Uringblk.Device.{
  AsyncEnv, device_backend_read_async, device_backend_write_async, device_backend_flush_async,
}
use kvm_db.Uringblk.Device.Sync.{
  BioDevice, device_backend_read, device_backend_write, device_backend_flush,
}
use kvm_db.Uringblk.Device.Waited.{IsStatusMap, completed, sync_as_async}
use kvm_db.Uringblk.Config.{validate_backend_config, parse_device_list, parse_entries, one_entry}
use kvm_db.Uringblk.Admin.{is_supported}
use kvm_db.Uringblk.Init.{error, divide_error, init_backend, init_queue, uringblk_init_device}
use kvm_db.Uringblk.Instance.{ModuleParams, InitEnv, UringblkDevice, fresh_device}
use kvm_db.Uringblk.Init.Released.{IsReleased}
use kvm_db.Uringblk.Load.{
  not_loaded, opened, init_devices, init_registered, init_validated, uringblk_init_admin_dev,
  uringblk_init, uringblk_exit, uringblk_admin_open,
}
use kvm_db.Uringblk.Paths.{LoadEnv, device_paths}
use kvm_db.Uringblk.Load.States.{IsFailed, IsTrapped, IsLoaded}
use kvm_db.Uringblk.Load.Whole.{load_lem}
use kvm_db.Uringblk.Load.Ignored.{list_ignored}
use kvm_db.Uringblk.Load.Virtual.{loaded_virtual}
use kvm_db.Uringblk.Sysfs.{
  attr_read_bytes, attr_model, counter_show, setting_show, stats_reset_store,
}
use kvm_db.Uringblk.Sysfs.Shown.{stats_reset_lem}

abbrev errno_of : BlkStatus → Option Errno
errno_of BlkStatus.sts_ok = none
errno_of status = some eio

errno_of-IsStatusMap : IsStatusMap errno_of
errno_of-IsStatusMap = record { of_ok = refl; of_other = ways }
  where
    ways : (s : BlkStatus) → (s ≡ sts_ok) ⊎ ((e : Errno) × (errno_of s ≡ some e))
    ways BlkStatus.sts_ok = inl refl
    ways BlkStatus.sts_ioerr = inr (eio, refl)
    ways BlkStatus.sts_notsupp = inr (eio, refl)
    ways (BlkStatus.sts_other n) = inr (eio, refl)

abbrev drive : BioDevice
drive = record {
  complete = λ bio. (sts_ok, 7 ∷ 8 ∷ 9 ∷ []);
  blk_status_to_errno = errno_of;
  discard = λ sector sectors. none;
}

abbrev async_env : AsyncEnv
async_env = record { context = true; page = true; added = true }

abbrev opened_drive : Backend
opened_drive = record { kind = backend_device; private_data = some []; capacity = 4096 }

abbrev blank : List ℕ
blank = 0 ∷ 0 ∷ []

sync_as_async_example :
    (device_backend_read async_env drive opened_drive 512 blank 2
      ≡ completed drive blank (device_backend_read_async async_env opened_drive 512 2))
    × (device_backend_write async_env drive opened_drive 512 blank 2
        ≡ completed drive blank (device_backend_write_async async_env opened_drive 512 blank 2))
    × (device_backend_flush drive opened_drive
        ≡ completed drive [] (device_backend_flush_async async_env opened_drive))
sync_as_async_example = sync_as_async async_env drive opened_drive 512 blank 2 errno_of-IsStatusMap

abbrev pub params : ModuleParams
params = record {
  nr_hw_queues = 4;
  queue_depth = 1024;
  enable_poll = true;
  enable_discard = true;
  write_cache = false;
  logical_block_size = 512;
  capacity_mb = 1;
  backend_type = 0;
  backend_device = [];
  auto_detect_size = true;
  max_devices = 8;
  devices = [];
}

abbrev init_env : InitEnv
init_env = record {
  memory = true;
  opened = err einval;
  alloc_tag_set = none;
  alloc_disk = none;
  add_disk = none;
  create_group = none;
  device_create = none;
}

abbrev pub all_well : LoadEnv
all_well = record {
  alloc_chrdev_region = none;
  cdev_add = none;
  class_create = none;
  register_blkdev = ok 250;
  list_copied = true;
  list_array = true;
  entry_copied = λ i. true;
  path_array = true;
  path_copied = true;
  device_array = true;
  allocated = λ i. true;
  init = λ i. init_env;
}

load_lem_example :
    let r = uringblk_init params all_well (not_loaded 0) in
    (((e : Errno) × (r.0 ≡ some (error e))) × IsFailed params all_well r.1)
    ⊎ ((r.0 ≡ some divide_error) × IsTrapped params r.1)
    ⊎ ((r.0 ≡ none)
        × IsLoaded params all_well r.1
        × (0 < params.logical_block_size)
        × (kind : ℕ) × (dev : UringblkDevice) × IsReleased dev
        × (uringblk_exit r.1 ≡ record (not_loaded kind) { freed = dev ∷ []; wild = r.1.wild }))
load_lem_example = load_lem params all_well (omega arith)

pub loads : (uringblk_init params all_well (not_loaded 0)).0 ≡ none
unfolding uringblk_init uringblk_init_admin_dev init_validated init_registered device_paths
    init_devices uringblk_init_device init_backend init_queue validate_backend_config
    virtual_backend_init
loads = refl

loaded_virtual_example :
    (dev : UringblkDevice) × (b : Backend) × (uringblk_admin_open
        (uringblk_init params all_well (not_loaded 0)).1
        0
      ≡ opened dev)
    × (dev.backend ≡ some b)
    × IsMemory b
    × (b.capacity ≡ 1 * 2 ^ 20)
    × (at b ≡ (λ i. 0))
    × (is_supported dev.features ≡ true)
loaded_virtual_example = loaded_virtual params all_well refl refl (omega arith) (omega arith) loads

-- "/dev/sdb,/dev/sdc"
abbrev listed : ModuleParams
listed = record params { devices = codes "/dev/sdb,/dev/sdc" }

only_sdb :
    parse_device_list true true (λ i. true) (some (codes "/dev/sdb,/dev/sdc"))
    ≡ ok (some (codes "/dev/sdb" ∷ []))
unfolding parse_device_list parse_entries one_entry
only_sdb = refl

list_ignored_example : (uringblk_init listed all_well (not_loaded 0)).0 ≢ none
list_ignored_example =
    list_ignored listed all_well (codes "/dev/sdb") [] (omega arith) only_sdb refl

abbrev device : UringblkDevice
device = fresh_device params 0

stats_reset_lem_example :
    let r = stats_reset_store device (some 1) 2 in
    ((◌≡◌ {A = Option ℕ} (some 1) (some 1))
      × (r.0 ≡ ok 2)
      × (counter_show attr_read_bytes r.1 ≡ 48 ∷ 10 ∷ [])
      × (setting_show attr_model r.1 ≡ setting_show attr_model device))
    ⊎ ((◌≢◌ {A = Option ℕ} (some 1) (some 1)) × (r.0 ≡ err einval) × (r.1 ≡ device))
stats_reset_lem_example = stats_reset_lem device (some 1) 2 attr_read_bytes attr_model
