-- ===== src/Uringblk/Init/Released.antt =====
-- What a device holds after its setting up and taking down.
use kvm_db.Prelude.{
  ℕ, ◌*◌, ◌/◌, ◌^◌, ◌<◌, ◌≡◌, ◌≢◌, refl, ◌⊎◌, inl, inr, Bool, true, false, Option, none, some, List,
  replicate, take, Option-cases, Bool-cases, ◌==◌, arith,
}
use kvm_db.Prelude.Word.{u64}
use kvm_db.Prelude.Errno.{Errno, Result-cases, ok}
use kvm_db.Uringblk.Backend.{Backend, backend_virtual, virtual_backend_init}
use kvm_db.Uringblk.Config.{validate_backend_config}
use kvm_db.Uringblk.Admin.{is_supported}
use kvm_db.Uringblk.Init.{
  error, divide_error, Stop, init_backend, init_queue, backend_cleanup, uringblk_init_device,
  uringblk_cleanup_device,
}
use kvm_db.Uringblk.Instance.{
  ModuleParams, InitEnv, UringblkDevice, UringblkConfig, fresh_device, initial_features,
}

-- The backend's memory or handle.
abbrev pub data_of : Option Backend → Option (List ℕ)
data_of none = none
data_of (some b) = b.private_data

-- Nothing of the kernel's is held.
pub record IsReleased (dev : UringblkDevice) : Type 0 where
  pub no_data : data_of dev.backend ≡ none
  pub no_tag_set : dev.tag_set ≡ false
  pub no_disk : dev.disk ≡ none
  pub no_admin : dev.admin_device ≡ false

cleanup_data : (b : Backend) → (backend_cleanup b).private_data ≡ none
unfolding backend_cleanup
cleanup_data b = ground arith

-- A device that is up on a backend.
pub record IsReady (p : ModuleParams) (minor : ℕ) (b : Backend) (dev : UringblkDevice)
    : Type 0 where
  pub attributes : Bool
  pub admin : Bool
  pub block : 0 < p.logical_block_size
  pub is_device : dev ≡ record (fresh_device p minor) {
    backend = some b;
    tag_set = true;
    disk = some (record {
      sectors = b.capacity / p.logical_block_size;
      added = true;
      attributes = attributes;
    });
    admin_device = admin;
  }

abbrev IsUndone : Option Stop × UringblkDevice → Type 0
IsUndone r = ((e : Errno) × (r.0 ≡ some (error e))) × IsReleased r.1

-- Where the block size is 0 and the division traps, with the tag set and the disk held.
abbrev IsTrapped : ModuleParams → Option Stop × UringblkDevice → Type 0
IsTrapped p r =
    (p.logical_block_size ≡ 0)
    × (r.0 ≡ some divide_error)
    × (r.1.tag_set ≡ true)
    × (r.1.disk ≢ none)

fresh-IsReleased : (p : ModuleParams) (minor : ℕ) → IsReleased (fresh_device p minor)
fresh-IsReleased p minor = record {
  no_data = refl;
  no_tag_set = refl;
  no_disk = refl;
  no_admin = refl;
}

backend_cleanup-IsUndone :
    (p : ModuleParams) (minor : ℕ) (b : Backend) (e : Errno)
    → IsUndone
        (some (error e), record (fresh_device p minor) { backend = some (backend_cleanup b) })
backend_cleanup-IsUndone p minor b e = (
  (e, refl),
  record { no_data = cleanup_data b; no_tag_set = refl; no_disk = refl; no_admin = refl },
)

queue_lem :
    (p : ModuleParams) (env : InitEnv) (minor : ℕ) (b : Backend)
    → let r = init_queue p env (fresh_device p minor) b in
      IsUndone r ⊎ IsTrapped p r ⊎ ((r.0 ≡ none) × IsReady p minor b r.1)
unfolding init_queue
queue_lem p env minor b = elim (Option-cases env.alloc_tag_set) [
  | inr (e, t) ↦ rw t (inl (backend_cleanup-IsUndone p minor b e))
  | inl t ↦ elim (Option-cases env.alloc_disk) [
    | inr (e, d) ↦ rw (t, d) (inl (backend_cleanup-IsUndone p minor b e))
    | inl d ↦ elim (Bool-cases (p.logical_block_size == 0)) [
      | inl z ↦ rw (t, d, z) (inr (inl (ground (arith, z), refl, refl, ground arith)))
      | inr z ↦ elim (Option-cases env.add_disk) [
        | inr (e, a) ↦ rw (t, d, z, a) (inl (backend_cleanup-IsUndone p minor b e))
        | inl a ↦
            rw (t, d, z, a)
              (inr (
                inr (
                  refl,
                  record { attributes = _; admin = _; block = ground (arith, z); is_device = refl },
                )))
      ]
    ]
  ]
]

-- Setting a device up fails with nothing held, or traps for a block size of 0, or leaves the device up
-- on the backend that was opened.
pub init_device_lem :
    (p : ModuleParams) (env : InitEnv) (dev : UringblkDevice) (minor : ℕ)
    → let r = uringblk_init_device p env dev minor in
      (((e : Errno) × (r.0 ≡ some (error e))) × IsReleased r.1)
      ⊎ ((p.logical_block_size ≡ 0)
          × (r.0 ≡ some divide_error)
          × (r.1.tag_set ≡ true)
          × (r.1.disk ≢ none))
      ⊎ ((b : Backend) × (init_backend p env ≡ ok b) × (r.0 ≡ none) × IsReady p minor b r.1)
unfolding uringblk_init_device
init_device_lem p env dev minor =
    elim (Result-cases
      (validate_backend_config p.backend_type (some (take 255 p.backend_device)))) [
        | inl (e, v) ↦ rw (uringblk_init_device, v) (inl ((e, refl), fresh-IsReleased p minor))
        | inr (n, v) ↦ elim (Result-cases (init_backend p env)) [
          | inl (e, i) ↦ rw (uringblk_init_device, v, i) (inl ((e, refl), fresh-IsReleased p minor))
          | inr (b, i) ↦
              rw (uringblk_init_device, v, i)
                (elim (queue_lem p env minor b) [
                  | inl u ↦ inl u
                  | inr (inl u) ↦ inr (inl u)
                  | inr (inr u) ↦ inr (inr (b, refl, u.0, u.1))
                ])
        ]
      ]

-- Taking a device down leaves nothing held, whatever was set up.
pub cleanup-IsReleased : (dev : UringblkDevice) → IsReleased (uringblk_cleanup_device dev)
unfolding uringblk_cleanup_device
cleanup-IsReleased dev = record {
  no_data = elim (Option-cases dev.backend) [
    | inl n ↦ rw n refl
    | inr (b, n) ↦ rw n (cleanup_data b)
  ];
  no_tag_set = refl;
  no_disk = refl;
  no_admin = refl;
}

-- The features that a device starts with are supported.
pub initial_supported : (c : UringblkConfig) → is_supported (initial_features c) ≡ true
initial_supported c = ground arith

pub init_virtual :
    (p : ModuleParams) (env : InitEnv) (b : Backend)
    → p.backend_type ≡ 0
    → p.capacity_mb < 2 ^ 32
    → init_backend p env ≡ ok b
    → b ≡ record {
      kind = backend_virtual;
      private_data = some (replicate (p.capacity_mb * 2 ^ 20) 0);
      capacity = p.capacity_mb * 2 ^ 20;
    }
unfolding init_backend virtual_backend_init
init_virtual p env b z c h =
    let size : u64 (p.capacity_mb * 1024 * 1024) ≡ p.capacity_mb * 2 ^ 20 = omega arith in
    ground (arith, size)
