-- ===== src/Wal/Load.antt =====
-- Loading and unloading the write-ahead-log driver: what the kernel holds for it after each way out
-- of driver/wal_driver_main.c's initialisation.
use kvm_db.Prelude.{
  ℕ, ◌<◌, ◌≡◌, ◌≢◌, ap, ◌⊎◌, inl, inr, Bool, true, false, not, Option, none, some, ltb,
  if◌then◌else◌, arith,
}
use kvm_db.Prelude.Errno.{Errno, enomem, Result, Result-cases, ok, err}

pub record WalResources : Type 0 where
  pub char_region : Bool
  pub char_cdev : Bool
  pub char_class : Bool
  pub char_device : Bool
  pub block_data : Bool
  -- `block_disk` with its major number
  pub block_disk : Option ℕ
  pub blkdev : Bool
  pub disk_added : Bool
  pub proc_entry : Bool

-- What the kernel's functions give, in the order of the calls; `register_blkdev(0, …)` gives the
-- major number that it chose.
pub record WalEnv : Type 0 where
  pub alloc_chrdev_region : Option Errno
  pub cdev_add : Option Errno
  pub class_create : Option Errno
  pub device_create : Option Errno
  pub vzalloc : Bool
  pub blk_alloc_disk : Bool
  pub register_blkdev : Result ℕ
  pub add_disk : Option Errno
  pub proc_create : Bool

unfoldable pub wal_driver_init_char_device : WalEnv → WalResources → Option Errno × WalResources
wal_driver_init_char_device env s = elim env.alloc_chrdev_region [
  | some e ↦ (some e, s)
  | none ↦
      let region = record s { char_region = true } in
      let no_region = λ (t : WalResources). record t { char_region = false } in
      elim env.cdev_add [
        | some e ↦ (some e, no_region region)
        | none ↦
            let added = record region { char_cdev = true } in
            let no_cdev = λ (t : WalResources). no_region (record t { char_cdev = false }) in
            elim env.class_create [
              | some e ↦ (some e, no_cdev added)
              | none ↦
                  let classed = record added { char_class = true } in
                  elim env.device_create [
                    | some e ↦ (some e, no_cdev (record classed { char_class = false }))
                    | none ↦ (none, record classed { char_device = true })
                  ]
            ]
      ]
]

unfoldable pub wal_driver_init_block_device : WalEnv → WalResources → Option Errno × WalResources
wal_driver_init_block_device env s =
    let no_data = λ (t : WalResources). record t { block_data = false } in
    let no_disk = λ (t : WalResources). no_data (record t { block_disk = none }) in
    if not env.vzalloc
    then (some enomem, s)
    else let stored = record s { block_data = true } in
      if not env.blk_alloc_disk
      then (some enomem, no_data stored)
      else let disk = record stored { block_disk = some 0 } in
        elim env.register_blkdev [
          | err e ↦ (some e, no_disk disk)
          | ok major ↦
              let registered = record disk { block_disk = some major; blkdev = true } in
              elim env.add_disk [
                | some e ↦ (some e, no_disk (record registered { blkdev = false }))
                | none ↦ (none, record registered { disk_added = true })
              ]
        ]

-- The device and the class are destroyed where they are there, the rest in any case.
unfoldable pub wal_driver_cleanup_char_device : WalResources → WalResources
wal_driver_cleanup_char_device s = record s {
  char_device = false;
  char_class = false;
  char_cdev = false;
  char_region = false;
}

unfoldable pub wal_driver_cleanup_block_device : WalResources → WalResources
wal_driver_cleanup_block_device s = elim s.block_disk [
  | none ↦ record s { block_data = false }
  | some major ↦ record s {
    disk_added = false;
    block_disk = none;
    blkdev = if ltb 0 major then false else s.blkdev;
    block_data = false;
  }
]

unfoldable pub wal_driver_init : WalEnv → WalResources → Option Errno × WalResources
unfolding wal_driver_init_char_device wal_driver_init_block_device wal_driver_cleanup_char_device
wal_driver_init env s =
    let char = wal_driver_init_char_device env s in
    elim char.0 [
      | some e ↦ (some e, char.1)
      | none ↦
          let block = wal_driver_init_block_device env char.1 in
          elim block.0 [
            | some e ↦ (some e, wal_driver_cleanup_char_device block.1)
            | none ↦ (none, record block.1 { proc_entry = env.proc_create })
          ]
    ]

unfoldable pub wal_driver_exit : WalResources → WalResources
unfolding wal_driver_cleanup_char_device wal_driver_cleanup_block_device
wal_driver_exit s =
    wal_driver_cleanup_char_device
      (wal_driver_cleanup_block_device (record s { proc_entry = false }))

-- Before loading: everything is zeroed.
abbrev pub unloaded : WalResources
unloaded = record {
  char_region = false;
  char_cdev = false;
  char_class = false;
  char_device = false;
  block_data = false;
  block_disk = none;
  blkdev = false;
  disk_added = false;
  proc_entry = false;
}

-- What is held once the driver is up; the entry under /proc may be missing.
abbrev pub is_up : ℕ → Bool → WalResources
is_up major entry = record {
  char_region = true;
  char_cdev = true;
  char_class = true;
  char_device = true;
  block_data = true;
  block_disk = some major;
  blkdev = true;
  disk_added = true;
  proc_entry = entry;
}

abbrev IsUndone : Option Errno × WalResources → Type 0
IsUndone r = (r.0 ≢ none) × (r.1 ≡ unloaded)

without_major :
    (env : WalEnv) (e : Errno)
    → env.register_blkdev ≡ err e
    → IsUndone (wal_driver_init env unloaded)
unfolding wal_driver_init
without_major env e h = ground arith

with_major :
    (env : WalEnv) (major : ℕ)
    → env.register_blkdev ≡ ok major
    → IsUndone (wal_driver_init env unloaded)
      ⊎ (wal_driver_init env unloaded ≡ (none, is_up major env.proc_create))
unfolding wal_driver_init
with_major env major h = ground arith

-- Loading leaves both devices or nothing.
wal_init_all_or_nothing :
    (env : WalEnv)
    → (((wal_driver_init env unloaded).0 ≢ none) × ((wal_driver_init env unloaded).1 ≡ unloaded))
      ⊎ ((major : ℕ) × (env.register_blkdev ≡ ok major)
          × (wal_driver_init env unloaded ≡ (none, is_up major env.proc_create)))
wal_init_all_or_nothing env = elim (Result-cases env.register_blkdev) [
  | inl (e, h) ↦ inl (without_major env e h)
  | inr (major, h) ↦ elim (with_major env major h) [ inl u ↦ inl u | inr u ↦ inr (major, h, u) ]
]

-- Unloading after loading.
wal_init-exit :
    (env : WalEnv) (major : ℕ)
    → env.register_blkdev ≡ ok major
    → 0 < major
    → (wal_driver_init env unloaded).0 ≡ none
    → wal_driver_exit (wal_driver_init env unloaded).1 ≡ unloaded
unfolding wal_driver_init wal_driver_exit
wal_init-exit env major e pos up = ground arith

-- Loading the driver either succeeds with both devices up, which unloading takes back, or fails with
-- nothing left behind. The kernel's major numbers are positive.
wal_load_lem :
    (env : WalEnv)
    → ((major : ℕ) → env.register_blkdev ≡ ok major → 0 < major)
    → let r = wal_driver_init env unloaded in
      ((r.0 ≢ none) × (r.1 ≡ unloaded))
      ⊎ ((major : ℕ) × (env.register_blkdev ≡ ok major)
          × (r ≡ (none, is_up major env.proc_create))
          × (wal_driver_exit r.1 ≡ unloaded))
wal_load_lem env positive = elim (wal_init_all_or_nothing env) [
  | inl failed ↦ inl failed
  | inr (major, e, up) ↦ inr (
    major,
    e,
    up,
    wal_init-exit env major e (positive major e) (ap (λ (r : Option Errno × WalResources). r.0) up),
  )
]
