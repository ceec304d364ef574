-- ===== src/Kdb/Fault.antt =====
-- The page fault handlers of src/vma.c, each one run from its entry to its return.
pub mod Wf
pub mod Got
pub mod Ways
pub mod Pages
pub mod Refine
pub mod Dirty
pub mod Step
use kvm_db.Prelude.{
  ℕ, ◌/◌, ◌%◌, Bool, true, false, Option, none, some, List, [], ◌∷◌, ◌==◌, leb, if◌then◌else◌,
  get_or, set,
}
use kvm_db.Prelude.Word.{u32, inc64}
use kvm_db.Kdb.Pool.{get_page, Pool, cp_pool_alloc}
use kvm_db.Kdb.Context.{
  LpState, VmaCtx, HashFn, LpAlloc, put_ref, write_lp, lp_get_or_create, lp_lookup, vma_ctx_destroy,
}

-- `vm_fault_t` with the page installed, if any. `oops` is no return: the handler reads through a
-- NULL pointer or divides by zero, and the kernel stops it.
pub data VmFault : Type 0 where
  locked : Option ℕ → VmFault
  sigbus oom oops : VmFault

abbrev pub Outcome : Type 0
Outcome = VmFault × VmaCtx × Pool

-- `pgoff / ctx->cp_per_lp` and `pgoff % ctx->cp_per_lp`, the second in a `u32`.
abbrev pub lpn_of : VmaCtx → ℕ → ℕ
lpn_of ctx pgoff = pgoff / ctx.cp_per_lp

abbrev pub cpi_of : VmaCtx → ℕ → ℕ
cpi_of ctx pgoff = u32 (pgoff % ctx.cp_per_lp)

abbrev pub store_page : ℕ → ℕ → LpState → LpState
store_page cpi pg lp = record lp { cp = set lp.cp cpi (some pg) }

abbrev pub mark_dirty : ℕ → LpState → LpState
mark_dirty cpi lp = record lp { dirty_bitmap = set lp.dirty_bitmap cpi true }

module _ (k : HashFn) where
  -- From `get_page` on.
  unfoldable pub install_page : VmaCtx → Pool → ℕ → ℕ → Outcome
  install_page ctx pool lpn pg = (
    locked (some pg),
    record (write_lp k ctx lpn put_ref) { total_faults = inc64 ctx.total_faults },
    record pool { calls = get_page pg ∷ pool.calls },
  )

  -- With the state `lp` of page `lpn` at hand. `page` is what `alloc_page` would return.
  unfoldable pub fault_in_lp : VmaCtx → Pool → LpState → ℕ → ℕ → Option ℕ → Outcome
  unfolding install_page cp_pool_alloc
  fault_in_lp ctx pool lp lpn cpi page = elim (get_or lp.cp cpi none) [
    | some pg ↦ install_page ctx pool lpn pg
    | none ↦
        let (fresh, pool') = cp_pool_alloc page pool in
        elim fresh [
          | none ↦ (oom, write_lp k ctx lpn put_ref, pool')
          | some pg ↦ install_page (write_lp k ctx lpn (store_page cpi pg)) pool' lpn pg
        ]
  ]

  unfoldable pub fault_at : VmaCtx → Pool → ℕ → ℕ → LpAlloc → Option ℕ → Outcome
  unfolding fault_in_lp
  fault_at ctx pool lpn cpi a page =
      if leb ctx.n_lpn lpn
      then (sigbus, ctx, pool)
      else let (got, ctx') = lp_get_or_create k ctx lpn a in
        elim got [ none ↦ (oom, ctx', pool) | some lp ↦ fault_in_lp ctx' pool lp lpn cpi page ]

  -- The handler on a mapping whose `vm_private_data` is a live context.
  unfoldable pub kdb_fault : VmaCtx → Pool → ℕ → LpAlloc → Option ℕ → Outcome
  unfolding fault_at
  kdb_fault ctx pool pgoff a page =
      if ctx.cp_per_lp == 0
      then (oops, ctx, pool)
      else fault_at ctx pool (lpn_of ctx pgoff) (cpi_of ctx pgoff) a page

  unfoldable pub mkwrite_at : VmaCtx → ℕ → ℕ → VmFault × VmaCtx
  mkwrite_at ctx lpn cpi =
      if leb ctx.n_lpn lpn
      then (sigbus, ctx)
      else let (got, ctx') = lp_lookup k ctx lpn in
        elim got [
          | none ↦ (sigbus, ctx')
          | some lp ↦
              let marked = write_lp k ctx' lpn (mark_dirty cpi) in
              (
                locked none,
                record (write_lp k marked lpn put_ref) { total_mkwrite = inc64 ctx'.total_mkwrite },
              )
        ]

  unfoldable pub kdb_page_mkwrite : VmaCtx → ℕ → VmFault × VmaCtx
  unfolding mkwrite_at
  kdb_page_mkwrite ctx pgoff =
      if ctx.cp_per_lp == 0
      then (oops, ctx)
      else mkwrite_at ctx (lpn_of ctx pgoff) (cpi_of ctx pgoff)
