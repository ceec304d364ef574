-- ===== src/Uringblk/Load.antt =====
-- Loading and unloading the block driver, driver/uringblk_main.c: `uringblk_init`, `uringblk_exit`, the
-- administration device's registration and its opening.
pub mod Count
pub mod States
pub mod Whole
pub mod Ignored
pub mod Virtual
pub mod Answers
use kvm_db.Prelude.{
  ℕ, zero, suc, ◌+◌, min, Bool, true, false, not, ◌&&◌, ◌||◌, Option, none, some, List, [], ◌∷◌,
  ◌++◌, length, get_or, take, map, ltb, leb, ◌==◌, if◌then◌else◌,
}
use kvm_db.Prelude.Errno.{Errno, enomem, enodev, Result, ok, err}
use kvm_db.Uringblk.Config.{validate_backend_config, parse_device_list}
use kvm_db.Uringblk.Init.{Stop, error, divide_error, uringblk_init_device, uringblk_cleanup_device}
use kvm_db.Uringblk.Instance.{ModuleParams, UringblkConfig, UringblkDevice, InitEnv, no_stats}
use kvm_db.Uringblk.Paths.{
  LoadEnv, DevicePaths, path_count, device_paths, device_count, configured, stray_path,
}

-- The module's variables. `devices`: the array; `freed`: the devices that were freed, as they were
-- then; `wild`: whether a slot of this array or of the array of paths was read that was never written;
-- `backend_type`: the module parameter.
pub record UringblkModule : Type 0 where
  pub region : Bool
  pub cdev : Bool
  pub class : Bool
  pub blkdev : Option ℕ
  pub backend_type : ℕ
  pub devices : Option (List UringblkDevice)
  pub freed : List UringblkDevice
  pub wild : Bool

-- On a failure the labels take back what was done.
unfoldable pub uringblk_init_admin_dev : LoadEnv → UringblkModule → Option Errno × UringblkModule
uringblk_init_admin_dev env s = elim env.alloc_chrdev_region [
  | some e ↦ (some e, s)
  | none ↦
      let err_unreg_chrdev = λ (t : UringblkModule). record t { region = false } in
      let registered = record s { region = true } in
      elim env.cdev_add [
        | some e ↦ (some e, err_unreg_chrdev registered)
        | none ↦
            let err_del_cdev =
              λ (t : UringblkModule). err_unreg_chrdev (record t { cdev = false }) in
            let added = record registered { cdev = true } in
            elim env.class_create [
              | some e ↦ (some e, err_del_cdev added)
              | none ↦ (none, record added { class = true })
            ]
      ]
]

unfoldable pub uringblk_cleanup_admin_dev : UringblkModule → UringblkModule
uringblk_cleanup_admin_dev s = record s { class = false; cdev = false; region = false }

-- The result of the loop over the devices, the devices in the slots before the one that failed, that
-- device, and whether a path was read that was never written; the device whose setting up traps stays
-- in its slot.
pub record InitLoop : Type 0 where
  pub result : Option Stop
  pub ready : List UringblkDevice
  pub failed : List UringblkDevice
  pub stray : Bool

-- Devices number `i` and up, `n` of them.
unfoldable pub init_devices :
    ModuleParams → LoadEnv → DevicePaths → ℕ → ℕ → List UringblkDevice → InitLoop
init_devices p env d i zero ready = record {
  result = none;
  ready = ready;
  failed = [];
  stray = false;
}
init_devices p env d i (suc n) ready =
    let r = uringblk_init_device p (env.init i) (configured p d i) i in
    let rest = init_devices p env d (suc i) n (ready ++ r.1 ∷ []) in
    if not (env.allocated i)
    then record { result = some (error enomem); ready = ready; failed = []; stray = false }
    else elim r.0 [
      | some (error e) ↦ record {
        result = some (error e);
        ready = ready;
        failed = r.1 ∷ [];
        stray = stray_path d i;
      }
      | some divide_error ↦ record {
        result = some divide_error;
        ready = ready ++ r.1 ∷ [];
        failed = [];
        stray = stray_path d i;
      }
      | none ↦ record rest { stray = stray_path d i || rest.stray }
    ]

-- `err_cleanup_devices`: the slots up to the one that failed were written, the others were not.
abbrev pub err_cleanup_devices : InitLoop → ℕ → UringblkModule → UringblkModule
err_cleanup_devices loop count s = record s {
  devices = none;
  freed = s.freed ++ map uringblk_cleanup_device loop.ready ++ loop.failed;
  wild = s.wild || ltb (suc (length loop.ready)) count || loop.stray;
}

-- Where the major number is registered; `err_unregister` gives it back.
unfoldable pub init_registered :
    ModuleParams → LoadEnv → UringblkModule → ℕ → Option Stop × UringblkModule
init_registered p env s major = elim (device_paths p env) [
  | err e ↦ (some (error e), s)
  | ok d ↦
      let count = device_count p d in
      let typed = record s { backend_type = d.kind } in
      let loop = init_devices (record p { backend_type = d.kind }) env d 0 count [] in
      let kept : UringblkModule = record typed {
        blkdev = some major;
        devices = some loop.ready;
        wild = s.wild || loop.stray;
      } in
      if not env.device_array then (some (error enomem), typed) else elim loop.result [
        | some (error e) ↦ (some (error e), err_cleanup_devices loop count typed)
        | some divide_error ↦ (some divide_error, kept)
        | none ↦ (none, kept)
      ]
]

-- From the early validation on.
unfoldable pub init_validated :
    ModuleParams → LoadEnv → Option Errno × UringblkModule → Option Stop × UringblkModule
init_validated p env (some e, s) = (some (error e), s)
init_validated p env (none, s) =
    elim (validate_backend_config p.backend_type (some p.backend_device)) [
      | err e ↦ (some (error e), s)
      | ok n ↦ elim env.register_blkdev [
        | err e ↦ (some (error e), s)
        | ok major ↦ init_registered p env s major
      ]
    ]

unfoldable pub uringblk_init :
    ModuleParams → LoadEnv → UringblkModule → Option Stop × UringblkModule
uringblk_init p env s = init_validated p env (uringblk_init_admin_dev env s)

unfoldable pub uringblk_exit : UringblkModule → UringblkModule
unfolding uringblk_cleanup_admin_dev
uringblk_exit s =
    let emptied : UringblkModule = elim s.devices [
      | none ↦ s
      | some devices ↦ record s {
        devices = none;
        freed = s.freed ++ map uringblk_cleanup_device devices;
      }
    ] in
    uringblk_cleanup_admin_dev (record emptied { blkdev = none })

abbrev minors : ℕ
minors = 16

-- A minor number is refused, or stands for a device, or selects a slot outside the array, which is
-- read all the same.
pub data AdminOpen : Type 0 where
  open_refused : Errno → AdminOpen
  opened : UringblkDevice → AdminOpen
  outside : AdminOpen

unfoldable pub uringblk_admin_open : UringblkModule → ℕ → AdminOpen
uringblk_admin_open s minor = if leb minors minor then open_refused enodev else elim s.devices [
  | none ↦ outside
  | some devices ↦ elim (get_or (map some devices) minor none) [
    | none ↦ outside
    | some dev ↦ opened dev
  ]
]

-- Before loading.
abbrev pub not_loaded : ℕ → UringblkModule
not_loaded backend_type = record {
  region = false;
  cdev = false;
  class = false;
  blkdev = none;
  backend_type = backend_type;
  devices = none;
  freed = [];
  wild = false;
}
