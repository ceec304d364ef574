-- ===== src/Uringblk/Load/Answers.antt =====
-- The requests that a freshly loaded driver answers.
use kvm_db.Prelude.{◌*◌, ◌^◌, ◌<◌, ◌≡◌, ap, ◌∙◌, none, some, [], List, arith}
use kvm_db.Uringblk.Backend.{Backend}
use kvm_db.Uringblk.Backend.Memory.{at}
use kvm_db.Uringblk.Device.{AsyncEnv}
use kvm_db.Uringblk.Request.{Request, UringblkDisk}
use kvm_db.Uringblk.Queue.Machine.{serve_all, queue_all, AllSound}
use kvm_db.Uringblk.Queue.Refines.{disk_refines}
use kvm_db.Uringblk.Instance.{ModuleParams, UringblkDevice}
use kvm_db.Uringblk.Load.{not_loaded, uringblk_init, uringblk_admin_open, opened}
use kvm_db.Uringblk.Load.Virtual.{loaded_virtual}
use kvm_db.Uringblk.Paths.{LoadEnv}

-- The part of a device that its requests use.
abbrev pub disk_of : UringblkDevice → Backend → UringblkDisk
disk_of dev b = record { stats = dev.stats; backend = b }

-- A driver that was loaded with a virtual backend, without a list of devices and with a maximum of at
-- least one device: device number 0 has a backend with which it answers every sequence of requests (each
-- as long as its segments, shorter than 4 GiB and at a position that a file can have) as an array of
-- `capacity_mb` MiB of zeros does.
pub loaded_answers :
    (p : ModuleParams) (env : LoadEnv) (async : AsyncEnv) (rqs : List Request)
    → p.backend_type ≡ 0
    → p.devices ≡ []
    → p.capacity_mb < 2 ^ 32
    → 0 < p.max_devices
    → (uringblk_init p env (not_loaded p.backend_type)).0 ≡ none
    → AllSound p.logical_block_size rqs
    → (dev : UringblkDevice) × (b : Backend) × (uringblk_admin_open
          (uringblk_init p env (not_loaded p.backend_type)).1
          0
        ≡ opened dev)
      × (dev.backend ≡ some b)
      × ((queue_all p.logical_block_size async (disk_of dev b) rqs).0
          ≡ (serve_all p.logical_block_size (p.capacity_mb * 2 ^ 20) (λ i. 0) rqs).0)
loaded_answers p env async rqs kind nil small some_device up sound =
    let (dev, b, admin, backend, memory, size, zeros, supported) =
      loaded_virtual p env kind nil small some_device up in
    let lbs = p.logical_block_size in
    let refined =
      disk_refines lbs async (disk_of dev b) rqs memory (omega (arith, size, small)) sound in
    (
      dev,
      b,
      admin,
      backend,
      refined.0
          ∙ ap (λ c. (serve_all lbs c (at b) rqs).0) size
          ∙ ap (λ f. (serve_all lbs (p.capacity_mb * 2 ^ 20) f rqs).0) zeros,
    )
