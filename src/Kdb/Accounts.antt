-- ===== src/Kdb/Accounts.antt =====
-- The pages that the contexts of src/lp_state.c keep, counted over the table.
pub mod Table
pub mod Destroy
pub mod Handlers
use kvm_db.Prelude.{ℕ, suc, ◌+◌, Option, none, some, List, [], ◌∷◌, take}
use kvm_db.Kdb.Context.{LpState, VmaCtx}

abbrev pub count_pages : List (Option ℕ) → ℕ
count_pages [] = 0
count_pages (none ∷ cps) = count_pages cps
count_pages (some _ ∷ cps) = suc (count_pages cps)

-- Of the first `n` entries, as `vma_ctx_destroy` goes through them.
abbrev pub lp_pages : ℕ → LpState → ℕ
lp_pages n lp = count_pages (take n lp.cp)

abbrev pub chain_pages : ℕ → List LpState → ℕ
chain_pages n [] = 0
chain_pages n (lp ∷ lps) = lp_pages n lp + chain_pages n lps

abbrev pub table_pages : ℕ → List (List LpState) → ℕ
table_pages n [] = 0
table_pages n (c ∷ cs) = chain_pages n c + table_pages n cs

unfoldable pub tracked : VmaCtx → ℕ
tracked ctx = table_pages ctx.cp_per_lp ctx.lp_hash
