-- ===== src/Kdb/Vma.antt =====
-- The mappings that share a context: `kdb_vma_open` and `kdb_vma_close` of src/vma.c.
use kvm_db.Prelude.{ℕ, ◌≡◌, ◌≢◌, Option, none, some, ◌==◌, if◌then◌else◌, arith}
use kvm_db.Kdb.Pool.{Pool}
use kvm_db.Kdb.Context.{VmaCtx, HashFn, LpAlloc, vma_ctx_destroy}
use kvm_db.Kdb.Fault.{VmFault, oops, kdb_fault}

-- `vm_private_data` of each mapping, a pointer to a context; and the contexts not yet freed.
pub record Mappings : Type 0 where
  pub private_data : ℕ → Option ℕ
  pub live : ℕ → Option VmaCtx
  pub pool : Pool

abbrev pub update {ℓ} : {A : Type ℓ} → (ℕ → A) → ℕ → A → ℕ → A
update f i a j = if i == j then a else f j

-- `kdb_vma_open` only logs.
unfoldable pub kdb_vma_open : Mappings → ℕ → Mappings
kdb_vma_open s vma = s

-- A duplicated mapping has the private data of its parent when the kernel calls `open` on it.
unfoldable pub duplicate : Mappings → ℕ → ℕ → Mappings
unfolding kdb_vma_open
duplicate s parent child =
    kdb_vma_open (record s { private_data = update s.private_data child (s.private_data parent) })
      child

-- None: it destroys a context that is already freed.
unfoldable pub kdb_vma_close : Mappings → ℕ → Option Mappings
kdb_vma_close s vma = elim (s.private_data vma) [
  | none ↦ some s
  | some c ↦ elim (s.live c) [
    | none ↦ none
    | some ctx ↦ some (record {
      private_data = update s.private_data vma none;
      live = update s.live c none;
      pool = vma_ctx_destroy (some ctx) s.pool;
    })
  ]
]

module _ (k : HashFn) where
  -- The fault handler on a mapping. The page number is computed from `ctx->cp_per_lp` before `ctx`
  -- is compared with NULL.
  unfoldable pub fault_on : Mappings → ℕ → ℕ → LpAlloc → Option ℕ → VmFault × Mappings
  fault_on s vma pgoff a page = elim (s.private_data vma) [
    | none ↦ (oops, s)
    | some c ↦ elim (s.live c) [
      | none ↦ (oops, s)
      | some ctx ↦
          let (r, ctx', pool') = kdb_fault k ctx s.pool pgoff a page in
          (r, record s { live = update s.live c (some ctx'); pool = pool' })
    ]
  ]

-- Closing a mapping frees its context, and leaves a mapping with another context, and that
-- context, as they were.
pub close_alone :
    (s : Mappings) (v w c d : ℕ) {t : Mappings}
    → s.private_data v ≡ some c
    → s.private_data w ≡ some d
    → c ≢ d
    → kdb_vma_close s v ≡ some t
    → (t.private_data v ≡ none)
      × (t.live c ≡ none)
      × (t.private_data w ≡ some d)
      × (t.live d ≡ s.live d)
unfolding kdb_vma_close
close_alone s v w c d pv pw ne e = ground arith

-- After a fork the two mappings share one context and no count is kept: once one of them is
-- closed, every fault through the other reads freed memory, and so does closing it.
pub close_shared :
    (k : HashFn) (s : Mappings) (v w c : ℕ) {ctx : VmaCtx} {t : Mappings}
    → s.private_data v ≡ some c
    → s.live c ≡ some ctx
    → v ≢ w
    → kdb_vma_close (duplicate s v w) v ≡ some t
    → (pgoff : ℕ) (a : LpAlloc) (page : Option ℕ)
    → (fault_on k t w pgoff a page ≡ (oops, t)) × (kdb_vma_close t w ≡ none)
unfolding kdb_vma_close duplicate fault_on
close_shared k s v w c pv live ne e pgoff a page = ground arith
