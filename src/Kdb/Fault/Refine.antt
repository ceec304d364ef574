-- ===== src/Kdb/Fault/Refine.antt =====
-- `kdb_fault` of src/vma.c against its map of pages: every way out of the handler.
use kvm_db.Prelude.{
  ℕ, ◌<◌, ◌≡◌, refl, sym, ◌∙◌, ◌⊎◌, inl, inr, false, Option, none, some, get_or, length-set, arith,
  Option-cases,
}
use kvm_db.Kdb.Pool.{Pool, cp_pool_alloc}
use kvm_db.Kdb.Context.{LpState, VmaCtx, HashFn, LpAlloc, new_lp, put_ref, write_lp}
use kvm_db.Kdb.Fault.{
  VmFault, locked, sigbus, oom, Outcome, lpn_of, cpi_of, store_page, install_page, fault_in_lp,
  kdb_fault,
}
use kvm_db.Kdb.Fault.Wf.{Fits, IsWf, Got}
use kvm_db.Kdb.Fault.Step.{
  Changed, Changed-IsWf, Got-Changed, write_lp-Changed, put-Changed, stats-Changed,
}
use kvm_db.Kdb.Fault.Ways.{
  Way, past, starved, ran, way, fault_in_lp_kept, fault_in_lp_dry, fault_in_lp_new,
}
use kvm_db.Kdb.Fault.Pages.{
  Answer, again, fresh, no_page, no_state, out_of_range, inserted, page_of, PageStep, here,
  same-pages, same-dirty, new-page,
}

module _ (k : HashFn) where
  install-Changed :
      {ctx mid : VmaCtx} {lpn : ℕ} {lp : LpState} (pool : Pool) (pg : ℕ)
      → Changed k ctx lpn 1 lp mid
      → Changed k ctx lpn 0 (put_ref lp) (install_page k mid pool lpn pg).1
  unfolding install_page
  install-Changed {mid = mid} pool pg c = stats-Changed k _ _ (put-Changed k c)

  installed :
      (mid : VmaCtx) (pool : Pool) (lpn pg : ℕ)
      → (install_page k mid pool lpn pg).0 ≡ locked (some pg)
  unfolding install_page
  installed mid pool lpn pg = refl

  new_lp_fails :
      (ctx : VmaCtx) (lpn : ℕ) (a : LpAlloc)
      → new_lp ctx lpn a ≡ none
      → (a.state ≡ none) ⊎ (a.array ≡ false) ⊎ (a.bitmap ≡ false)
  unfolding new_lp
  new_lp_fails ctx lpn a e = ground arith

  module _ {ctx : VmaCtx} (w : IsWf k ctx) (pgoff : ℕ) (a : LpAlloc) (page : Option ℕ) where
    -- The handler returns without touching the table.
    bail-PageStep :
        (r : VmFault)
        → Answer k ctx pgoff a page r
        → ((q : ℕ) → inserted (page_of k ctx) pgoff r q ≡ page_of k ctx q)
        → PageStep k ctx pgoff a page r ctx
    bail-PageStep r given same = record {
      wf = w;
      pages = λ q. sym (same q);
      dirty = λ q. refl;
      answer = given;
    }

    module _ {lp : LpState} {mid : VmaCtx} (g : Got k ctx (lpn_of ctx pgoff) lp mid)
        (h : lpn_of ctx pgoff < ctx.n_lpn) (pool : Pool) where
      kept-PageStep :
          (pg : ℕ)
          → get_or lp.cp (cpi_of ctx pgoff) none ≡ some pg
          → let (r, after, _) = install_page k mid pool (lpn_of ctx pgoff) pg in
            PageStep k ctx pgoff a page r after
      kept-PageStep pg e =
          let c = install-Changed pool pg (Got-Changed k g) in
          let at = installed mid pool (lpn_of ctx pgoff) pg in
          record {
            wf = Changed-IsWf k w h c;
            pages = λ q. ground (arith, at, same-pages k w pgoff g c refl q, here k w pgoff g);
            dirty = same-dirty k w pgoff g c refl;
            answer = rw at (again h (here k w pgoff g ∙ e));
          }

      dry-PageStep :
          page ≡ none
          → get_or lp.cp (cpi_of ctx pgoff) none ≡ none
          → PageStep k ctx pgoff a page oom (write_lp k mid (lpn_of ctx pgoff) put_ref)
      dry-PageStep p e =
          let c = put-Changed k (Got-Changed k g) in
          record {
            wf = Changed-IsWf k w h c;
            pages = same-pages k w pgoff g c refl;
            dirty = same-dirty k w pgoff g c refl;
            answer = no_page h (here k w pgoff g ∙ e) p;
          }

      fresh-PageStep :
          (pg : ℕ)
          → page ≡ some pg
          → get_or lp.cp (cpi_of ctx pgoff) none ≡ none
          → let (r, after, _) =
              install_page k
                (write_lp k mid (lpn_of ctx pgoff) (store_page (cpi_of ctx pgoff) pg))
                (cp_pool_alloc (some pg) pool).1
                (lpn_of ctx pgoff)
                pg in
            PageStep k ctx pgoff a page r after
      fresh-PageStep pg p e =
          let f = store_page (cpi_of ctx pgoff) pg in
          let pool' = (cp_pool_alloc (some pg) pool).1 in
          let stored : Fits ctx.cp_per_lp 1 (f lp) =
            ground (arith, g.fits, length-set lp.cp (cpi_of ctx pgoff) (some pg)) in
          let c =
            install-Changed pool' pg (write_lp-Changed k f (Got-Changed k g) (λ x. refl) stored) in
          let at = installed (write_lp k mid (lpn_of ctx pgoff) f) pool' (lpn_of ctx pgoff) pg in
          record {
            wf = Changed-IsWf k w h c;
            pages = λ q. ground (arith, at, new-page k w pgoff g pg c refl q);
            dirty = same-dirty k w pgoff g c refl;
            answer = rw at (fresh h (here k w pgoff g ∙ e) p);
          }

      ran-PageStep :
          let (r, after, _) =
            fault_in_lp k mid pool lp (lpn_of ctx pgoff) (cpi_of ctx pgoff) page in
          PageStep k ctx pgoff a page r after
      ran-PageStep = elim (Option-cases (get_or lp.cp (cpi_of ctx pgoff) none)) [
        | inr (pg, e) ↦
            rw (fault_in_lp_kept k mid pool lp (lpn_of ctx pgoff) (cpi_of ctx pgoff) page e)
              (kept-PageStep pg e)
        | inl e ↦ elim (Option-cases page) [
          | inr (pg, p) ↦
              rw (p, fault_in_lp_new k mid pool lp (lpn_of ctx pgoff) (cpi_of ctx pgoff) pg e)
                (rw p at (fresh-PageStep pg p e))
          | inl p ↦
              rw (p, fault_in_lp_dry k mid pool lp (lpn_of ctx pgoff) (cpi_of ctx pgoff) e)
                (rw p at (dry-PageStep p e))
        ]
      ]

  -- One run of the fault handler on a well-formed context, whatever the allocations give: it
  -- returns and keeps the context well formed; the map from page offsets to canonical pages
  -- changes at the faulting offset only, and there to the page that is installed, if one is; the
  -- dirty bits do not change; an offset in range that has a page gets that page again, and one that
  -- has none gets the page just allocated. It answers OOM only for an offset in range without a page,
  -- and only if no page was allocated, or its page number had no state and an allocation for one
  -- failed; and SIGBUS only for an offset out of range.
  pub kdb_fault-PageStep :
      {ctx : VmaCtx} (pool : Pool) (pgoff : ℕ) (a : LpAlloc) (page : Option ℕ)
      → IsWf k ctx
      → let (r, after, _) = kdb_fault k ctx pool pgoff a page in PageStep k ctx pgoff a page r after
  kdb_fault-PageStep {ctx} pool pgoff a page w = go _ (way k pool pgoff a page w)
    where
      go :
          (out : Outcome)
          → Way k ctx pool pgoff a page out
          → PageStep k ctx pgoff a page out.0 out.1
      go out (past h e) = rw e (bail-PageStep w pgoff a page sigbus (out_of_range h) (λ q. refl))
      go out (starved h v n e) = rw e (
          bail-PageStep w pgoff a page oom (no_state h v (new_lp_fails ctx (lpn_of ctx pgoff) a n))
            (λ q. refl))
      go out (ran lp mid h g _ e) = rw e (ran-PageStep w pgoff a page g h pool)
