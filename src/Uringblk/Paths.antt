-- ===== src/Uringblk/Paths.antt =====
-- The devices that loading the block driver sets up and their configuration, `uringblk_init` of
-- driver/uringblk_main.c.
use kvm_db.Prelude.{
  ℕ, min, Bool, false, not, ◌&&◌, Option, none, some, List, [], ◌∷◌, length, get_or, take, ltb, leb,
  ◌==◌, if◌then◌else◌,
}
use kvm_db.Prelude.Errno.{Errno, enomem, Result, ok, err}
use kvm_db.Uringblk.Config.{parse_device_list}
use kvm_db.Uringblk.Instance.{ModuleParams, UringblkDevice, InitEnv, no_stats}

-- What the kernel's functions give; `allocated` and `init` for each device by its number.
pub record LoadEnv : Type 0 where
  pub alloc_chrdev_region : Option Errno
  pub cdev_add : Option Errno
  pub class_create : Option Errno
  pub register_blkdev : Result ℕ
  pub list_copied : Bool
  pub list_array : Bool
  pub entry_copied : ℕ → Bool
  pub path_array : Bool
  pub path_copied : Bool
  pub device_array : Bool
  pub allocated : ℕ → Bool
  pub init : ℕ → InitEnv

-- The paths, none for a NULL array; the count; and the backend's type, which a list of devices
-- changes.
pub record DevicePaths : Type 0 where
  pub paths : Option (List (List ℕ))
  pub count : ℕ
  pub kind : ℕ

abbrev pub path_count : Option (List (List ℕ)) → ℕ
path_count none = 0
path_count (some paths) = length paths

unfoldable pub device_paths : ModuleParams → LoadEnv → Result DevicePaths
device_paths p env =
    if ltb 0 (length p.devices)
    then elim (parse_device_list env.list_copied env.list_array env.entry_copied (some p.devices)) [
      | err e ↦ err e
      | ok list ↦
          let count = min (path_count list) p.max_devices in
          ok record {
            paths = list;
            count = count;
            kind = if ltb 0 count && p.backend_type == 0 then 1 else p.backend_type;
          }
    ]
    else if p.backend_type == 1 && ltb 0 (length p.backend_device)
    then if not env.path_array
      then err enomem
      else if not env.path_copied
      then err enomem
      else ok record { paths = some (p.backend_device ∷ []); count = 1; kind = p.backend_type }
    else ok record { paths = none; count = 1; kind = p.backend_type }

-- The number of devices in the end.
abbrev pub device_count : ModuleParams → DevicePaths → ℕ
device_count p d = min (if d.count == 0 then 1 else d.count) p.max_devices

-- A zeroed device with its own configuration.
abbrev pub configured : ModuleParams → DevicePaths → ℕ → UringblkDevice
configured p d i = record {
  minor = 0;
  config = record {
    nr_hw_queues = 0;
    queue_depth = 0;
    enable_poll = false;
    enable_discard = false;
    write_cache = false;
    backend_type = elim d.paths [ none ↦ d.kind | some paths ↦ 1 ];
    backend_device = elim d.paths [
      | none ↦ take 255 p.backend_device
      | some paths ↦ take 255 (get_or paths i [])
    ];
  };
  features = 0;
  model = [];
  firmware = [];
  stats = no_stats;
  latency_buckets = [];
  backend = none;
  tag_set = false;
  disk = none;
  admin_device = false;
}

-- Whether device `i` gets a path from behind those that were parsed: the count is raised to one where
-- the list gives none. The path, which the source reads from memory never written, is empty here.
abbrev pub stray_path : DevicePaths → ℕ → Bool
stray_path d i = elim d.paths [ none ↦ false | some paths ↦ leb (length paths) i ]
