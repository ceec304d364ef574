-- ===== src/Kdb/Accounts/Destroy.antt =====
-- `vma_ctx_destroy` of src/lp_state.c against the pages that the context kept.
use kvm_db.Prelude.{ℕ, ◌+◌, ◌≡◌, Option, none, some, List, [], ◌∷◌, take, arith}
use kvm_db.Prelude.Word.{u64, inc64, dec64}
use kvm_db.Kdb.Pool.{Pool}
use kvm_db.Kdb.Context.{LpState, VmaCtx, untrack, destroy_chain, destroy_table, vma_ctx_destroy}
use kvm_db.Kdb.Accounts.{count_pages, chain_pages, table_pages, tracked}

-- `n` pages leave the counters of the pool; no page call is made.
pub record Untracked (n : ℕ) (p q : Pool) : Type 0 where
  pub allocated : u64 (q.allocated + n) ≡ u64 p.allocated
  pub frees : u64 q.total_frees ≡ u64 (p.total_frees + n)
  pub allocs : q.total_allocs ≡ p.total_allocs
  pub calls : q.calls ≡ p.calls

Untracked-trans :
    (n m : ℕ) (p q r : Pool) → Untracked n p q → Untracked m q r → Untracked (n + m) p r
Untracked-trans n m p q r a b = ground arith

untrack-Untracked :
    (cps : List (Option ℕ)) (p : Pool) → Untracked (count_pages cps) p (untrack cps p)
unfolding untrack
untrack-Untracked [] p = ground arith
untrack-Untracked (none ∷ cps) p = untrack-Untracked cps p
untrack-Untracked (some x ∷ cps) p = ground (
  arith,
  untrack-Untracked cps
      (record p { allocated = dec64 p.allocated; total_frees = inc64 p.total_frees }),
)

chain-Untracked :
    (n : ℕ) (c : List LpState) (p : Pool) → Untracked (chain_pages n c) p (destroy_chain n c p)
unfolding destroy_chain
chain-Untracked n [] p = ground arith
chain-Untracked n (lp ∷ c) p =
    Untracked-trans _ _ p _ _ (untrack-Untracked (take n lp.cp) p) (chain-Untracked n c _)

table-Untracked :
    (n : ℕ) (t : List (List LpState)) (p : Pool)
    → Untracked (table_pages n t) p (destroy_table n t p)
unfolding destroy_table
table-Untracked n [] p = ground arith
table-Untracked n (c ∷ t) p =
    Untracked-trans _ _ p _ _ (chain-Untracked n c p) (table-Untracked n t _)

-- Destroying a context moves the pages that it keeps from `allocated` to `total_frees` (both are
-- 64-bit counters), and gives no page back to the kernel.
pub destroy-Untracked :
    (ctx : VmaCtx) (p : Pool) → Untracked (tracked ctx) p (vma_ctx_destroy (some ctx) p)
unfolding tracked vma_ctx_destroy
destroy-Untracked ctx p = table-Untracked ctx.cp_per_lp ctx.lp_hash p
