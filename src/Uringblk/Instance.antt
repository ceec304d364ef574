-- ===== src/Uringblk/Instance.antt =====
-- One block device as driver/uringblk_driver.h and driver/uringblk_main.c declare it: the module's
-- parameters, the device and its configuration, and the device as `uringblk_init_device` fills it in.
use kvm_db.Prelude.{
  ℕ, ◌+◌, Bool, true, false, Option, none, List, take, replicate, ◌==◌, if◌then◌else◌,
}
use kvm_db.Prelude.Errno.{Errno, Result}
use kvm_db.Prelude.Text.{codes}
use kvm_db.Uringblk.Backend.{Backend, backend_virtual}
use kvm_db.Uringblk.Request.{UringblkStats, UringblkDisk}
use kvm_db.Uringblk.Device.Open.{BlockDevice}
use kvm_db.Uringblk.Admin.{AdminDevice}

-- The module's parameters; texts are lists of bytes, and `max_devices` is not negative.
pub record ModuleParams : Type 0 where
  pub nr_hw_queues : ℕ
  pub queue_depth : ℕ
  pub enable_poll : Bool
  pub enable_discard : Bool
  pub write_cache : Bool
  pub logical_block_size : ℕ
  pub capacity_mb : ℕ
  pub backend_type : ℕ
  pub backend_device : List ℕ
  pub auto_detect_size : Bool
  pub max_devices : ℕ
  pub devices : List ℕ

-- `struct uringblk_config`
pub record UringblkConfig : Type 0 where
  pub nr_hw_queues : ℕ
  pub queue_depth : ℕ
  pub enable_poll : Bool
  pub enable_discard : Bool
  pub write_cache : Bool
  pub backend_type : ℕ
  pub backend_device : List ℕ

-- What a device holds of the block layer: the disk, with its capacity and whether it was added, and
-- its group of attributes.
pub record Gendisk : Type 0 where
  pub sectors : ℕ
  pub added : Bool
  pub attributes : Bool

-- `struct uringblk_device`. `backend`: none as long as it has no operations; it holds memory or an open
-- handle as long as it has private data. `tag_set`: whether it is allocated; `disk`: none once it is
-- put.
pub record UringblkDevice : Type 0 where
  pub minor : ℕ
  pub config : UringblkConfig
  pub features : ℕ
  pub model : List ℕ
  pub firmware : List ℕ
  pub stats : UringblkStats
  pub latency_buckets : List ℕ
  pub backend : Option Backend
  pub tag_set : Bool
  pub disk : Option Gendisk
  pub admin_device : Bool

-- What the kernel's functions give, in the order of the calls.
pub record InitEnv : Type 0 where
  pub memory : Bool
  pub opened : Result BlockDevice
  pub alloc_tag_set : Option Errno
  pub alloc_disk : Option Errno
  pub add_disk : Option Errno
  pub create_group : Option Errno
  pub device_create : Option Errno

abbrev pub no_stats : UringblkStats
no_stats = record {
  read_ops = 0;
  write_ops = 0;
  flush_ops = 0;
  discard_ops = 0;
  read_sectors = 0;
  write_sectors = 0;
  read_bytes = 0;
  write_bytes = 0;
  queue_full_events = 0;
  media_errors = 0;
  retries = 0;
  p50_read_latency_us = 0;
  p99_read_latency_us = 0;
  p50_write_latency_us = 0;
  p99_write_latency_us = 0;
}

-- A backend as `memset` leaves it.
abbrev pub no_backend : Backend
no_backend = record { kind = backend_virtual; private_data = none; capacity = 0 }

abbrev flag : Bool → ℕ → ℕ
flag true n = n
flag false n = 0

-- The flags are set one by one; they are different bits.
abbrev pub initial_features : UringblkConfig → ℕ
initial_features c =
    4 + flag c.write_cache 1 + (if c.enable_discard then 8 + 16 else 0) + flag c.enable_poll 64 + 2

abbrev pub module_config : ModuleParams → UringblkConfig
module_config p = record {
  nr_hw_queues = p.nr_hw_queues;
  queue_depth = p.queue_depth;
  enable_poll = p.enable_poll;
  enable_discard = p.enable_discard;
  write_cache = p.write_cache;
  backend_type = p.backend_type;
  backend_device = take 255 p.backend_device;
}

-- From `memset` to the texts.
abbrev pub fresh_device : ModuleParams → ℕ → UringblkDevice
fresh_device p minor = record {
  minor = minor;
  config = module_config p;
  features = initial_features (module_config p);
  model =
      if p.backend_type == 0
      then codes "uringblk Virtual Device"
      else codes "uringblk Device Backend";
  firmware = codes "v1.0.0";
  stats = no_stats;
  latency_buckets = replicate 32 0;
  backend = none;
  tag_set = false;
  disk = none;
  admin_device = false;
}

-- The device as the request queue and the administration commands see it.
abbrev pub queue_view : UringblkDevice → Backend → UringblkDisk
queue_view dev b = record { stats = dev.stats; backend = b }

abbrev pub admin_view : UringblkDevice → Backend → AdminDevice
admin_view dev b = record {
  model = dev.model;
  firmware = dev.firmware;
  nr_hw_queues = dev.config.nr_hw_queues;
  queue_depth = dev.config.queue_depth;
  stats = dev.stats;
  latency_buckets = dev.latency_buckets;
  backend = b;
  features = dev.features;
}
