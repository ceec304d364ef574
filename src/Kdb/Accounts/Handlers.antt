-- ===== src/Kdb/Accounts/Handlers.antt =====
-- The handlers of src/vma.c keep the pool's count of pages in step with what the context keeps.
use kvm_db.Prelude.{
  ℕ, suc, ◌+◌, ◌<◌, ◌≡◌, refl, Option, none, some, inl, inr, arith, Option-cases, ap, get_or,
}
use kvm_db.Prelude.Word.{u64}
use kvm_db.Kdb.Pool.{Pool, cp_pool_alloc}
use kvm_db.Kdb.Context.{
  LpState, VmaCtx, HashFn, LpAlloc, new_lp, write_lp, search_locked, lp_get_or_create, get_ref,
  put_ref,
}
use kvm_db.Kdb.Context.View.{view, InTable, view-write_lp}
use kvm_db.Kdb.Fault.{Outcome, lpn_of, cpi_of, store_page, install_page, fault_in_lp, kdb_fault}
use kvm_db.Kdb.Fault.Wf.{IsWf, Got, wf-InTable, new_lp-Fits, shape-write_lp}
use kvm_db.Kdb.Fault.Got.{get_or_create_hit, get_or_create_fail, get_or_create_new}
use kvm_db.Kdb.Fault.Ways.{
  Way, past, starved, ran, way, fault_in_lp_kept, fault_in_lp_dry, fault_in_lp_new,
}
use kvm_db.Kdb.Fault.Pages.{cpi-lt}
use kvm_db.Kdb.Accounts.{lp_pages, tracked}
use kvm_db.Kdb.Accounts.Table.{
  count_pages-set, count_pages-replicate, tracked-write_lp, tracked-insert_locked,
}

-- The pool's count moves as the number of pages kept does, modulo 2 ^ 64.
abbrev pub Balanced : VmaCtx → Pool → VmaCtx → Pool → Type 0
Balanced c p d q = u64 (q.allocated + tracked c) ≡ u64 (p.allocated + tracked d)

module _ (k : HashFn) where
  -- A write that leaves the pages of the state alone.
  pub tracked-write_same :
      (ctx : VmaCtx) (j : ℕ) (f : LpState → LpState) (lp : LpState)
      → InTable k ctx j
      → view k ctx j ≡ some lp
      → (f lp).cp ≡ lp.cp
      → tracked (write_lp k ctx j f) ≡ tracked ctx
  tracked-write_same ctx j f lp h e same = omega (
    arith,
    tracked-write_lp k ctx j f lp h e,
    ap (λ c. lp_pages ctx.cp_per_lp (record lp { cp = c })) same,
  )

  pub tracked-search_locked :
      (ctx : VmaCtx) (j : ℕ) (lp : LpState)
      → InTable k ctx j
      → view k ctx j ≡ some lp
      → tracked (search_locked k ctx j).1 ≡ tracked ctx
  unfolding search_locked view
  tracked-search_locked ctx j lp h e = ground (arith, tracked-write_same ctx j get_ref lp h e refl)

  tracked-get_or_create :
      {ctx : VmaCtx} (lpn : ℕ) (a : LpAlloc)
      → IsWf k ctx
      → lpn < ctx.n_lpn
      → tracked (lp_get_or_create k ctx lpn a).1 ≡ tracked ctx
  tracked-get_or_create {ctx} lpn a w h = elim (Option-cases (view k ctx lpn)) [
    | inr (old, e) ↦
        rw (get_or_create_hit k ctx lpn a h e)
          (tracked-search_locked ctx lpn old (wf-InTable k lpn w) e)
    | inl e ↦ elim (Option-cases (new_lp ctx lpn a)) [
      | inl n ↦ rw (get_or_create_fail k ctx lpn a h e n)
      | inr (lp, n) ↦
          let (key, _, pages, _) = new_lp-Fits k ctx lpn a {lp = lp} n in
          rw (get_or_create_new k ctx lpn a h e n key) (
            omega (
              arith,
              tracked-insert_locked k ctx lp (rw key (wf-InTable k lpn w)) (rw key e),
              ap (λ c. lp_pages ctx.cp_per_lp (record lp { cp = c })) pages,
              count_pages-replicate ctx.cp_per_lp ctx.cp_per_lp,
            ))
    ]
  ]

  module _ (mid : VmaCtx) (lpn : ℕ) (lp : LpState) (h : InTable k mid lpn)
      (e : view k mid lpn ≡ some lp) (pool : Pool) where
    tracked-put : tracked (write_lp k mid lpn put_ref) ≡ tracked mid
    tracked-put = tracked-write_same mid lpn put_ref lp h e refl

    -- `install_page` neither adds nor drops a page.
    install-Balanced :
        (pg : ℕ)
        → let (_, after, pool') = install_page k mid pool lpn pg in
          (tracked after ≡ tracked mid) × (pool'.allocated ≡ pool.allocated)
    unfolding install_page tracked
    install-Balanced pg = (unfold tracked in tracked-put, refl)

  module _ {ctx : VmaCtx} (w : IsWf k ctx) (pgoff : ℕ) (pool : Pool) {lp : LpState} {mid : VmaCtx}
      (g : Got k ctx (lpn_of ctx pgoff) lp mid) (flat : tracked mid ≡ tracked ctx) where
    abbrev lpn : ℕ
    lpn = lpn_of ctx pgoff

    abbrev cpi : ℕ
    cpi = cpi_of ctx pgoff

    mid-InTable : InTable k mid lpn
    mid-InTable = ground (arith, wf-InTable k lpn w, g.shape)

    mid-view : view k mid lpn ≡ some lp
    mid-view = ground (arith, g.views lpn)

    stored-tracked :
        (pg : ℕ)
        → get_or lp.cp cpi none ≡ none
        → tracked (write_lp k mid lpn (store_page cpi pg)) ≡ suc (tracked ctx)
    stored-tracked pg e = omega (
      arith,
      flat,
      g.shape,
      tracked-write_lp k mid lpn (store_page cpi pg) lp mid-InTable mid-view,
      count_pages-set mid.cp_per_lp lp.cp cpi pg
          (omega (arith, g.shape, cpi-lt k {ctx = ctx} pgoff w))
          (omega (arith, g.fits, cpi-lt k {ctx = ctx} pgoff w)) e,
    )

    stored-view :
        (pg : ℕ) → view k (write_lp k mid lpn (store_page cpi pg)) lpn ≡ some (store_page cpi pg lp)
    stored-view pg =
        ground (arith, mid-view, view-write_lp k mid lpn lpn (store_page cpi pg) (λ x. refl))

    stored-InTable : (pg : ℕ) → InTable k (write_lp k mid lpn (store_page cpi pg)) lpn
    stored-InTable pg = ground (arith, mid-InTable, shape-write_lp k mid lpn (store_page cpi pg))

    fresh-Balanced :
        (pg : ℕ)
        → get_or lp.cp cpi none ≡ none
        → let (_, after, pool') =
            install_page k
              (write_lp k mid lpn (store_page cpi pg))
              (cp_pool_alloc (some pg) pool).1
              lpn
              pg in
          Balanced ctx pool after pool'
    unfolding cp_pool_alloc
    fresh-Balanced pg e =
        let stored = write_lp k mid lpn (store_page cpi pg) in
        omega (
          arith,
          install-Balanced stored lpn (store_page cpi pg lp) (stored-InTable pg) (stored-view pg)
              (cp_pool_alloc (some pg) pool).1 pg,
          stored-tracked pg e,
        )

    ran-Balanced :
        (page : Option ℕ)
        → let (_, after, pool') = fault_in_lp k mid pool lp lpn cpi page in
          Balanced ctx pool after pool'
    ran-Balanced page = elim (Option-cases (get_or lp.cp cpi none)) [
      | inr (pg, e) ↦
          rw (fault_in_lp_kept k mid pool lp lpn cpi page e)
            (omega (arith, flat, install-Balanced mid lpn lp mid-InTable mid-view pool pg))
      | inl e ↦ elim (Option-cases page) [
        | inr (pg, p) ↦ rw (p, fault_in_lp_new k mid pool lp lpn cpi pg e) (fresh-Balanced pg e)
        | inl p ↦
            rw (p, fault_in_lp_dry k mid pool lp lpn cpi e)
              (omega (arith, flat, tracked-put mid lpn lp mid-InTable mid-view pool))
      ]
    ]

  -- Whatever the allocations give, a run of the fault handler on a well-formed context changes the
  -- pool's count of allocated pages by as much as the number of pages that the context keeps.
  pub kdb_fault-Balanced :
      {ctx : VmaCtx} (pool : Pool) (pgoff : ℕ) (a : LpAlloc) (page : Option ℕ)
      → IsWf k ctx
      → let (_, after, pool') = kdb_fault k ctx pool pgoff a page in Balanced ctx pool after pool'
  kdb_fault-Balanced {ctx} pool pgoff a page w = go _ (way k pool pgoff a page w)
    where
      go : (out : Outcome) → Way k ctx pool pgoff a page out → Balanced ctx pool out.1 out.2
      go out (past h e) = rw e
      go out (starved h v n e) = rw e
      go out (ran lp mid h g m e) = rw e (
          ran-Balanced w pgoff pool g (rw m at (tracked-get_or_create (lpn_of ctx pgoff) a w h))
            page)
