-- ===== src/Kdb/Fault/Ways.antt =====
-- The ways through `kdb_fault` of src/vma.c.
use kvm_db.Prelude.{
  ℕ, ◌<◌, ◌≤◌, ◌≡◌, refl, inl, inr, Option, none, some, get_or, arith, ltb, ltb→lt, ltb→le,
  Bool-cases,
}
use kvm_db.Kdb.Pool.{Pool, cp_pool_alloc}
use kvm_db.Kdb.Context.{
  LpState, VmaCtx, HashFn, LpAlloc, new_lp, lp_get_or_create, put_ref, write_lp,
}
use kvm_db.Kdb.Context.View.{view}
use kvm_db.Kdb.Fault.{
  sigbus, oom, Outcome, lpn_of, cpi_of, store_page, install_page, fault_in_lp, fault_at, kdb_fault,
}
use kvm_db.Kdb.Fault.Wf.{IsWf, Got}
use kvm_db.Kdb.Fault.Got.{get_or_create_lem}

module _ (k : HashFn) where
  module _ (ctx : VmaCtx) (pool : Pool) (lp : LpState) (lpn cpi : ℕ) where
    pub fault_in_lp_kept :
        (page : Option ℕ) {pg : ℕ}
        → get_or lp.cp cpi none ≡ some pg
        → fault_in_lp k ctx pool lp lpn cpi page ≡ install_page k ctx pool lpn pg
    unfolding fault_in_lp
    fault_in_lp_kept page e = ground arith

    pub fault_in_lp_dry :
        get_or lp.cp cpi none ≡ none
        → fault_in_lp k ctx pool lp lpn cpi none ≡ (oom, write_lp k ctx lpn put_ref, pool)
    unfolding fault_in_lp
    fault_in_lp_dry e = ground arith

    pub fault_in_lp_new :
        (pg : ℕ)
        → get_or lp.cp cpi none ≡ none
        → fault_in_lp k ctx pool lp lpn cpi (some pg)
          ≡ install_page k
              (write_lp k ctx lpn (store_page cpi pg))
              (cp_pool_alloc (some pg) pool).1
              lpn
              pg
    unfolding fault_in_lp
    fault_in_lp_new pg e = ground arith

  -- Past the end, no memory for the state, or the locked part run on the state found or made.
  pub data Way (ctx : VmaCtx) (pool : Pool) (pgoff : ℕ) (a : LpAlloc) (page : Option ℕ)
      (out : Outcome) : Type 0 where
    past : ctx.n_lpn ≤ lpn_of ctx pgoff → out ≡ (sigbus, ctx, pool) → Way ctx pool pgoff a page out
    starved :
        lpn_of ctx pgoff < ctx.n_lpn
        → view k ctx (lpn_of ctx pgoff) ≡ none
        → new_lp ctx (lpn_of ctx pgoff) a ≡ none
        → out ≡ (oom, ctx, pool)
        → Way ctx pool pgoff a page out
    ran :
        (lp : LpState) (mid : VmaCtx)
        → lpn_of ctx pgoff < ctx.n_lpn
        → Got k ctx (lpn_of ctx pgoff) lp mid
        → (lp_get_or_create k ctx (lpn_of ctx pgoff) a).1 ≡ mid
        → out ≡ fault_in_lp k mid pool lp (lpn_of ctx pgoff) (cpi_of ctx pgoff) page
        → Way ctx pool pgoff a page out

  pub fault_at_past :
      (ctx : VmaCtx) (pool : Pool) (lpn cpi : ℕ) (a : LpAlloc) (page : Option ℕ)
      → ctx.n_lpn ≤ lpn
      → fault_at k ctx pool lpn cpi a page ≡ (sigbus, ctx, pool)
  unfolding fault_at
  fault_at_past ctx pool lpn cpi a page h = ground arith

  pub fault_at-none :
      (ctx : VmaCtx) (pool : Pool) (lpn cpi : ℕ) (a : LpAlloc) (page : Option ℕ)
      → lpn < ctx.n_lpn
      → (lp_get_or_create k ctx lpn a).0 ≡ none
      → (lp_get_or_create k ctx lpn a).1 ≡ ctx
      → fault_at k ctx pool lpn cpi a page ≡ (oom, ctx, pool)
  unfolding fault_at
  fault_at-none ctx pool lpn cpi a page h e f = ground arith

  pub fault_at-some :
      (ctx : VmaCtx) (pool : Pool) (lpn cpi : ℕ) (a : LpAlloc) (page : Option ℕ) {lp : LpState}
      → lpn < ctx.n_lpn
      → (lp_get_or_create k ctx lpn a).0 ≡ some lp
      → fault_at k ctx pool lpn cpi a page
        ≡ fault_in_lp k (lp_get_or_create k ctx lpn a).1 pool lp lpn cpi page
  unfolding fault_at
  fault_at-some ctx pool lpn cpi a page h e = ground arith

  pub kdb_fault-at :
      {ctx : VmaCtx} (pool : Pool) (pgoff : ℕ) (a : LpAlloc) (page : Option ℕ)
      → IsWf k ctx
      → kdb_fault k ctx pool pgoff a page
        ≡ fault_at k ctx pool (lpn_of ctx pgoff) (cpi_of ctx pgoff) a page
  unfolding kdb_fault
  kdb_fault-at pool pgoff a page w = ground (arith, w.nonempty)

  pub way :
      {ctx : VmaCtx} (pool : Pool) (pgoff : ℕ) (a : LpAlloc) (page : Option ℕ)
      → IsWf k ctx
      → Way ctx pool pgoff a page (kdb_fault k ctx pool pgoff a page)
  way {ctx} pool pgoff a page w =
      let lpn = lpn_of ctx pgoff in
      let cpi = cpi_of ctx pgoff in
      rw (kdb_fault-at pool pgoff a page w) (elim (Bool-cases (ltb lpn ctx.n_lpn)) [
        | inr beyond ↦
            let h : ctx.n_lpn ≤ lpn = ltb→le lpn ctx.n_lpn beyond in
            past h (fault_at_past ctx pool lpn cpi a page h)
        | inl within ↦
            let h : lpn < ctx.n_lpn = ltb→lt lpn ctx.n_lpn within in
            elim (get_or_create_lem k lpn a w h) [
              | inl (e, same, absent, failed) ↦
                  starved h absent failed (fault_at-none ctx pool lpn cpi a page h e same)
              | inr (lp, e, g) ↦ ran lp _ h g refl (fault_at-some ctx pool lpn cpi a page h e)
            ]
      ])
