-- ===== src/Kdb/Session/Leak.antt =====
-- The page calls that a mapping of src/vma.c makes, against the pool's counters.
use kvm_db.Prelude.{ℕ, suc, ◌+◌, ◌^◌, ◌/◌, ◌<◌, ◌≡◌, Bool, Option, some, List, [], ◌∷◌, arith, ap}
use kvm_db.Prelude.Word.{u64}
use kvm_db.Kdb.Pool.{PageCall, alloc_page, get_page, free_page, Pool}
use kvm_db.Kdb.Context.{VmaCtx, HashFn, LpAlloc, vma_ctx_create, vma_ctx_destroy}
use kvm_db.Kdb.Fault.{kdb_fault}
use kvm_db.Kdb.Accounts.{tracked}
use kvm_db.Kdb.Accounts.Destroy.{destroy-Untracked}
use kvm_db.Kdb.Session.{Call, fault, mkwrite, run_call, run_calls, session_balance}

abbrev pub allocs : List PageCall → ℕ
allocs [] = 0
allocs (alloc_page _ ∷ cs) = suc (allocs cs)
allocs (get_page _ ∷ cs) = allocs cs
allocs (free_page _ ∷ cs) = allocs cs

abbrev pub frees : List PageCall → ℕ
frees [] = 0
frees (free_page _ ∷ cs) = suc (frees cs)
frees (alloc_page _ ∷ cs) = frees cs
frees (get_page _ ∷ cs) = frees cs

-- The count moves with the pages taken from the kernel, and none is given back.
record Taken (p q : Pool) : Type 0 where
  count : u64 (q.allocated + allocs p.calls) ≡ u64 (p.allocated + allocs q.calls)
  none_freed : frees q.calls ≡ frees p.calls

module _ (k : HashFn) where
  kdb_fault-Taken :
      (ctx : VmaCtx) (pool : Pool) (pgoff : ℕ) (a : LpAlloc) (page : Option ℕ)
      → Taken pool (kdb_fault k ctx pool pgoff a page).2
  unfolding kdb_fault
  kdb_fault-Taken ctx pool pgoff a page = ground arith

  run_calls-Taken :
      (ctx : VmaCtx) (pool : Pool) (cs : List Call) → Taken pool (run_calls k ctx pool cs).1
  unfolding run_calls run_call
  run_calls-Taken ctx pool [] = ground arith
  run_calls-Taken ctx pool (fault pgoff a page ∷ cs) =
      let (_, ctx', pool') = kdb_fault k ctx pool pgoff a page in
      ground (arith, kdb_fault-Taken ctx pool pgoff a page, run_calls-Taken ctx' pool' cs)
  run_calls-Taken ctx pool (mkwrite pgoff ∷ cs) = run_calls-Taken _ pool cs

  -- The pages that a context keeps when it is destroyed stay allocated: over its whole life it
  -- takes as many pages from the kernel as it keeps at the end (modulo 2 ^ 64) and frees none,
  -- though the pool's count of allocated pages comes back to where it was.
  pub session_leak :
      (cp_size lp_size n_lpn : ℕ) (ctx_mem table_mem : Bool) {ctx : VmaCtx} (pool : Pool)
      (cs : List Call)
      → lp_size / cp_size < 2 ^ 32
      → vma_ctx_create cp_size lp_size n_lpn ctx_mem table_mem ≡ some ctx
      → let (after, pool') = run_calls k ctx pool cs in
        let end = vma_ctx_destroy (some after) pool' in
        (u64 (allocs end.calls) ≡ u64 (allocs pool.calls + tracked after))
        × (frees end.calls ≡ frees pool.calls)
        × (u64 end.allocated ≡ u64 pool.allocated)
  session_leak cp_size lp_size n_lpn ctx_mem table_mem {ctx} pool cs h e =
      let (after, pool') = run_calls k ctx pool cs in
      let d = destroy-Untracked after pool' in
      let t = run_calls-Taken ctx pool cs in
      let back =
        session_balance k cp_size lp_size n_lpn ctx_mem table_mem {ctx = ctx} pool cs h e in
      let same = ap allocs d.calls in
      (omega (arith, d, t, back, same), omega (arith, ap frees d.calls, t), back)
