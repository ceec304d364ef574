-- ===== src/Kdb/Session.antt =====
-- The life of one mapping, src/vma.c and src/lp_state.c: the context is created, its handlers
-- run in any order, and it is destroyed.
mod Mkwrite
pub mod Leak
use native.Mathlib.Nat.{div-add-mod', mod-eq_of_lt}
use kvm_db.Prelude.{
  ℕ, zero, suc, ◌+◌, ◌*◌, ◌/◌, ◌%◌, ◌^◌, ◌<◌, ◌≤◌, ◌≡◌, ◌≢◌, refl, Bool, true, Option, none, some,
  List, [], ◌∷◌, arith, replicate, length-replicate, get_or, get_or-replicate, if◌then◌else◌, ltb,
  ◌==◌,
}
use kvm_db.Prelude.Word.{u32, u64}
use kvm_db.Kdb.Pool.{Pool}
use kvm_db.Kdb.Context.{
  LpState, VmaCtx, HashFn, LpAlloc, lp_cp_max, lp_hash_size, hash_bits, vma_ctx_create,
  vma_ctx_destroy, find_lp, head,
}
use kvm_db.Kdb.Context.View.{view}
use kvm_db.Kdb.Fault.{kdb_fault, kdb_page_mkwrite}
use kvm_db.Kdb.Fault.Wf.{IsWf}
use kvm_db.Kdb.Fault.Pages.{PageStep}
use kvm_db.Kdb.Fault.Refine.{kdb_fault-PageStep}
use kvm_db.Kdb.Fault.Dirty.{mkwrite-DirtyStep}
use kvm_db.Kdb.Accounts.{chain_pages, table_pages, tracked}
use kvm_db.Kdb.Accounts.Handlers.{Balanced, kdb_fault-Balanced}
use kvm_db.Kdb.Accounts.Destroy.{destroy-Untracked}
use Mkwrite.{mkwrite-tracked}

-- A call of a handler, with what the kernel's allocators give it.
pub data Call : Type 0 where
  fault : ℕ → LpAlloc → Option ℕ → Call
  mkwrite : ℕ → Call

factor_pos : (m c : ℕ) {l : ℕ} → m * c ≡ l → l ≢ 0 → 0 < m
factor_pos zero c e h = absurd (h (omega arith))
factor_pos (suc m) c e h = omega arith

table_pages-replicate : (n m : ℕ) → table_pages n (replicate m []) ≡ 0
unfolding replicate
table_pages-replicate n zero = refl
table_pages-replicate n (suc m) = omega (arith, table_pages-replicate n m)

module _ (k : HashFn) where
  unfoldable pub run_call : VmaCtx → Pool → Call → VmaCtx × Pool
  run_call ctx pool (fault pgoff a page) =
      let (_, ctx', pool') = kdb_fault k ctx pool pgoff a page in (ctx', pool')
  run_call ctx pool (mkwrite pgoff) = ((kdb_page_mkwrite k ctx pgoff).1, pool)

  unfoldable pub run_calls : VmaCtx → Pool → List Call → VmaCtx × Pool
  run_calls ctx pool [] = (ctx, pool)
  run_calls ctx pool (c ∷ cs) = let (ctx', pool') = run_call ctx pool c in run_calls ctx' pool' cs

  view-replicate : (ctx : VmaCtx) (n j : ℕ) → ctx.lp_hash ≡ replicate n [] → view k ctx j ≡ none
  unfolding view head find_lp
  view-replicate ctx n j e = rw (e, get_or-replicate)

  -- What an accepted `vma_ctx_create` says of its arguments and of the context.
  record Created (cp_size lp_size n_lpn : ℕ) (ctx : VmaCtx) : Type 0 where
    some_size : cp_size ≢ 0
    some_lp : lp_size ≢ 0
    divides : lp_size % cp_size ≡ 0
    per : ctx.cp_per_lp ≡ u32 (lp_size / cp_size)
    few : ctx.cp_per_lp ≤ lp_cp_max
    pages : ctx.n_lpn ≡ n_lpn
    bits : ctx.lp_hash_bits ≡ hash_bits
    table : ctx.lp_hash ≡ replicate lp_hash_size []

  vma_ctx_create-Created :
      (cp_size lp_size n_lpn : ℕ) (ctx_mem table_mem : Bool) {ctx : VmaCtx}
      → vma_ctx_create cp_size lp_size n_lpn ctx_mem table_mem ≡ some ctx
      → Created cp_size lp_size n_lpn ctx
  unfolding vma_ctx_create
  vma_ctx_create-Created cp_size lp_size n_lpn ctx_mem table_mem e = ground arith

  -- What `vma_ctx_create` gives for sizes whose quotient fits in 32 bits is well formed, has
  -- between 1 and 1024 canonical pages per logical page, which make up its size, and keeps no
  -- page.
  pub vma_ctx_create-IsWf :
      (cp_size lp_size n_lpn : ℕ) (ctx_mem table_mem : Bool) {ctx : VmaCtx}
      → lp_size / cp_size < 2 ^ 32
      → vma_ctx_create cp_size lp_size n_lpn ctx_mem table_mem ≡ some ctx
      → IsWf k ctx × (ctx.cp_per_lp * cp_size ≡ lp_size) × (ctx.n_lpn ≡ n_lpn) × (tracked ctx ≡ 0)
  vma_ctx_create-IsWf cp_size lp_size n_lpn ctx_mem table_mem {ctx} h e =
      let c = vma_ctx_create-Created cp_size lp_size n_lpn ctx_mem table_mem {ctx = ctx} e in
      let whole : ctx.cp_per_lp * cp_size ≡ lp_size =
        rw (c.per, mod-eq_of_lt h) (omega (arith, div-add-mod' lp_size cp_size, c.divides)) in
      let empty = λ (j : ℕ). view-replicate ctx lp_hash_size j c.table in
      (
        record {
          buckets = rw (c.table, c.bits) (length-replicate lp_hash_size []);
          nonempty = factor_pos ctx.cp_per_lp cp_size whole c.some_lp;
          small = c.few;
          states = λ j lp v. absurd (cc (empty j));
          bounded = λ j lp v. absurd (cc (empty j));
        },
        whole,
        c.pages,
        unfold tracked in rw c.table (table_pages-replicate ctx.cp_per_lp lp_hash_size),
      )

  run_call-IsWf :
      {ctx : VmaCtx} (pool : Pool) (c : Call)
      → IsWf k ctx
      → let (after, pool') = run_call ctx pool c in IsWf k after × Balanced ctx pool after pool'
  unfolding run_call
  run_call-IsWf pool (fault pgoff a page) w =
      ((kdb_fault-PageStep k pool pgoff a page w).wf, kdb_fault-Balanced k pool pgoff a page w)
  run_call-IsWf {ctx} pool (mkwrite pgoff) w =
      ((mkwrite-DirtyStep k pgoff w).wf, omega (arith, mkwrite-tracked k {ctx = ctx} pgoff w))

  -- Any sequence of faults and write faults keeps a context well formed, and the pool's count of
  -- allocated pages moves with the number of pages that the context keeps.
  pub run_calls-IsWf :
      {ctx : VmaCtx} (pool : Pool) (cs : List Call)
      → IsWf k ctx
      → let (after, pool') = run_calls ctx pool cs in IsWf k after × Balanced ctx pool after pool'
  unfolding run_calls
  run_calls-IsWf pool [] w = (w, refl)
  run_calls-IsWf {ctx} pool (c ∷ cs) w =
      let (w', b) = run_call-IsWf pool c w in
      let (ctx', pool') = run_call ctx pool c in
      let (w'', b') = run_calls-IsWf {ctx = ctx'} pool' cs w' in (w'', omega arith)

  -- From the creation of a context to its destruction, whatever handlers ran in between and
  -- whatever the allocators gave, the pool's count of allocated pages comes back to where it was.
  pub session_balance :
      (cp_size lp_size n_lpn : ℕ) (ctx_mem table_mem : Bool) {ctx : VmaCtx} (pool : Pool)
      (cs : List Call)
      → lp_size / cp_size < 2 ^ 32
      → vma_ctx_create cp_size lp_size n_lpn ctx_mem table_mem ≡ some ctx
      → let (after, pool') = run_calls ctx pool cs in
        u64 (vma_ctx_destroy (some after) pool').allocated ≡ u64 pool.allocated
  session_balance cp_size lp_size n_lpn ctx_mem table_mem {ctx} pool cs h e =
      let (w, _, _, z) =
        vma_ctx_create-IsWf cp_size lp_size n_lpn ctx_mem table_mem {ctx = ctx} h e in
      let (after, pool') = run_calls ctx pool cs in
      omega (arith, z, (run_calls-IsWf {ctx = ctx} pool cs w).1, destroy-Untracked after pool')
