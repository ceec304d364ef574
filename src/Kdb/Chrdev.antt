-- ===== src/Kdb/Chrdev.antt =====
-- The character device of src/chrdev.c: the configured layout, `mmap` and `ioctl`.
pub mod Layout
use kvm_db.Prelude.{
  ℕ, ◌+◌, ◌-◌, ◌*◌, ◌/◌, ◌%◌, ◌^◌, Bool, true, false, not, ◌||◌, Option, none, some, ◌==◌, ltb,
  if◌then◌else◌,
}
use kvm_db.Prelude.Word.{u64}
use kvm_db.Prelude.Errno.{Errno, einval, enomem, efault, enodata, enotty, Result, ok, err}
use kvm_db.Kdb.Pool.{Pool, cp_pool_stats}
use kvm_db.Kdb.Context.{VmaCtx, lp_cp_max, vma_ctx_create}

-- `struct kdb_layout` of include/uapi/kdb.h
pub record KdbLayout : Type 0 where
  pub cp_size : ℕ
  pub lp_size : ℕ
  pub n_lpn : ℕ

-- `struct kdb_stats`
pub record KdbStats : Type 0 where
  pub total_faults : ℕ
  pub total_mkwrite : ℕ
  pub total_cp_alloc : ℕ
  pub total_lp_created : ℕ
  pub dirty_pages : ℕ
  pub allocated_cp : ℕ
  pub allocated_lp : ℕ

-- The global `kdb_dev`; each function below runs what stands under its lock in one piece.
pub record KdbDev : Type 0 where
  pub layout : KdbLayout
  pub layout_set : Bool

-- An `ioctl` call: the command, with what `copy_from_user` gives (none: a fault) or whether
-- `copy_to_user` succeeds.
pub data IoctlCall : Type 0 where
  set_layout : Option KdbLayout → IoctlCall
  get_layout get_stats : Bool → IoctlCall
  reset_stats unknown : IoctlCall

-- What is copied to the user, if anything.
pub data IoctlReply : Type 0 where
  nothing : IoctlReply
  a_layout : KdbLayout → IoctlReply
  some_stats : KdbStats → IoctlReply

unfoldable pub set_layout_checked : KdbDev → KdbLayout → Result IoctlReply × KdbDev
set_layout_checked dev l =
    if l.cp_size == 0 || l.lp_size == 0 || l.n_lpn == 0
    then (err einval, dev)
    else if not (l.lp_size % l.cp_size == 0)
    then (err einval, dev)
    else if ltb lp_cp_max (l.lp_size / l.cp_size)
    then (err einval, dev)
    else (ok nothing, record { layout = l; layout_set = true })

abbrev pub pool_stats : Pool → KdbStats
pool_stats pool = record {
  total_faults = 0;
  total_mkwrite = 0;
  total_cp_alloc = 0;
  total_lp_created = 0;
  dirty_pages = 0;
  allocated_cp = (cp_pool_stats pool).0;
  allocated_lp = 0;
}

unfoldable pub kdb_ioctl : KdbDev → Pool → IoctlCall → Result IoctlReply × KdbDev
unfolding set_layout_checked cp_pool_stats
kdb_ioctl dev pool (set_layout none) = (err efault, dev)
kdb_ioctl dev pool (set_layout (some l)) = set_layout_checked dev l
kdb_ioctl dev pool (get_layout copied) = (
  if not dev.layout_set
      then err enodata
      else if copied
      then ok (a_layout dev.layout)
      else err efault,
  dev,
)
kdb_ioctl dev pool (get_stats copied) =
    (if copied then ok (some_stats (pool_stats pool)) else err efault, dev)
kdb_ioctl dev pool reset_stats = (ok nothing, dev)
kdb_ioctl dev pool unknown = (err enotty, dev)

-- The context becomes the `vm_private_data` of the mapping. `u64` is the wrapping product.
unfoldable pub kdb_mmap : KdbDev → ℕ → ℕ → Bool → Bool → Result VmaCtx
kdb_mmap dev vm_start vm_end ctx_mem table_mem =
    let l = dev.layout in
    if not dev.layout_set
    then err einval
    else if ltb (u64 (l.n_lpn * l.lp_size)) (u64 (vm_end + 2 ^ 64 - vm_start))
    then err einval
    else elim (vma_ctx_create l.cp_size l.lp_size l.n_lpn ctx_mem table_mem) [
      | none ↦ err enomem
      | some ctx ↦ ok ctx
    ]
