-- ===== src/Kdb/Load.antt =====
-- Loading and unloading the module, src/kdb_main.c: which subsystems are up after each way out.
use kvm_db.Prelude.{
  ◌≡◌, ◌≢◌, ◌⊎◌, inl, inr, Bool, true, false, not, Option, none, some, if◌then◌else◌, arith,
}
use kvm_db.Prelude.Errno.{Errno, enomem}
use kvm_db.Kdb.Pool.{Pool, cp_pool_init}

-- What the kernel holds for the module: the two slab caches and the device.
pub record Loaded : Type 0 where
  pub pool : Pool
  pub pool_up : Bool
  pub lp_state_cache : Bool
  pub vma_ctx_cache : Bool
  pub misc_device : Bool

-- What `kmem_cache_create` (twice) and `misc_register` give.
pub record LoadEnv : Type 0 where
  pub first_cache : Bool
  pub second_cache : Bool
  pub register : Option Errno

unfoldable pub lp_state_init : LoadEnv → Loaded → Option Errno × Loaded
lp_state_init env s =
    if not env.first_cache
    then (some enomem, record s { lp_state_cache = false })
    else if not env.second_cache
    then (some enomem, record s { lp_state_cache = false; vma_ctx_cache = false })
    else (none, record s { lp_state_cache = true; vma_ctx_cache = true })

unfoldable pub lp_state_exit : Loaded → Loaded
lp_state_exit s = record s { lp_state_cache = false; vma_ctx_cache = false }

unfoldable pub kdb_chrdev_init : LoadEnv → Loaded → Option Errno × Loaded
kdb_chrdev_init env s = elim env.register [
  | some e ↦ (some e, s)
  | none ↦ (none, record s { misc_device = true })
]

unfoldable pub kdb_chrdev_exit : Loaded → Loaded
kdb_chrdev_exit s = record s { misc_device = false }

-- `cp_pool_init` returns 0.
unfoldable pub pool_init : Loaded → Loaded
unfolding cp_pool_init
pool_init s = record s { pool = cp_pool_init s.pool; pool_up = true }

-- `cp_pool_exit` only reports.
unfoldable pub pool_exit : Loaded → Loaded
pool_exit s = record s { pool_up = false }

-- The labels `err_chrdev` and `err_lp_state`, which fall through.
unfoldable pub kdb_init : LoadEnv → Loaded → Option Errno × Loaded
unfolding lp_state_init lp_state_exit kdb_chrdev_init pool_init pool_exit
kdb_init env s =
    let pooled = pool_init s in
    let (cached, with_caches) = lp_state_init env pooled in
    elim cached [
      | some e ↦ (some e, pool_exit with_caches)
      | none ↦
          let (registered, with_device) = kdb_chrdev_init env with_caches in
          elim registered [
            | some e ↦ (some e, pool_exit (lp_state_exit with_device))
            | none ↦ (none, with_device)
          ]
    ]

unfoldable pub kdb_exit : Loaded → Loaded
unfolding lp_state_exit kdb_chrdev_exit pool_exit
kdb_exit s = pool_exit (lp_state_exit (kdb_chrdev_exit s))

-- Nothing is held for the module.
pub record IsUnloaded (s : Loaded) : Type 0 where
  pub pool_down : s.pool_up ≡ false
  pub no_lp_cache : s.lp_state_cache ≡ false
  pub no_ctx_cache : s.vma_ctx_cache ≡ false
  pub no_device : s.misc_device ≡ false

pub record IsLoaded (s : Loaded) : Type 0 where
  pub pool_ready : s.pool_up ≡ true
  pub lp_cache : s.lp_state_cache ≡ true
  pub ctx_cache : s.vma_ctx_cache ≡ true
  pub device : s.misc_device ≡ true

-- Loading leaves everything or nothing.
kdb_init_all_or_nothing :
    (env : LoadEnv) (s : Loaded)
    → IsUnloaded s
    → let (r, after) = kdb_init env s in
      ((r ≡ none) × IsLoaded after) ⊎ ((r ≢ none) × IsUnloaded after)
unfolding kdb_init
kdb_init_all_or_nothing env s u = ground arith

-- Unloading after loading.
kdb_init-exit :
    (env : LoadEnv) (s : Loaded)
    → IsUnloaded s
    → (kdb_init env s).0 ≡ none
    → IsUnloaded (kdb_exit (kdb_init env s).1)
unfolding kdb_init kdb_exit
kdb_init-exit env s u e = ground arith

-- Loading the module either succeeds with everything up, which unloading takes back, or fails with
-- nothing left behind.
kdb_load_lem :
    (env : LoadEnv) (s : Loaded)
    → IsUnloaded s
    → let r = kdb_init env s in
      ((r.0 ≡ none) × IsLoaded r.1 × IsUnloaded (kdb_exit r.1)) ⊎ ((r.0 ≢ none) × IsUnloaded r.1)
kdb_load_lem env s u = elim (kdb_init_all_or_nothing env s u) [
  | inl (e, up) ↦ inl (e, up, kdb_init-exit env s u e)
  | inr failed ↦ inr failed
]
