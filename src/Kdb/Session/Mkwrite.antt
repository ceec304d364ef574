-- ===== src/Kdb/Session/Mkwrite.antt =====
-- `kdb_page_mkwrite` of src/vma.c keeps every page.
use kvm_db.Prelude.{
  ℕ, ◌<◌, ◌≡◌, refl, some, inl, inr, arith, Option-cases, Bool-cases, ltb, ltb→lt, ltb→le,
}
use kvm_db.Prelude.Word.{inc64}
use kvm_db.Kdb.Context.{LpState, VmaCtx, HashFn, write_lp, get_ref, put_ref, search_locked}
use kvm_db.Kdb.Context.View.{view, InTable, view-write_lp, view-search_locked}
use kvm_db.Kdb.Fault.{lpn_of, cpi_of, mark_dirty, kdb_page_mkwrite}
use kvm_db.Kdb.Fault.Wf.{IsWf, wf-InTable, shape-write_lp, shape-search_locked}
use kvm_db.Kdb.Fault.Dirty.{mkwrite-at, mkwrite_at_past, mkwrite_at_miss, mkwrite_at_hit}
use kvm_db.Kdb.Accounts.{tracked}
use kvm_db.Kdb.Accounts.Handlers.{tracked-write_same, tracked-search_locked}

module _ (k : HashFn) where
  -- The two writes after a hit.
  marked-tracked :
      (mid : VmaCtx) (lpn cpi m : ℕ) (lp : LpState)
      → InTable k mid lpn
      → view k mid lpn ≡ some lp
      → tracked (record (write_lp k (write_lp k mid lpn (mark_dirty cpi)) lpn put_ref) {
        total_mkwrite = m;
      })
        ≡ tracked mid
  unfolding tracked
  marked-tracked mid lpn cpi m lp h e =
      let f = mark_dirty cpi in
      let c = write_lp k mid lpn f in
      let e' : view k c lpn ≡ some (f lp) =
        ground (arith, view-write_lp k mid lpn lpn f (λ x. refl)) in
      let h' : InTable k c lpn = ground (arith, shape-write_lp k mid lpn f) in
      omega (
        arith,
        tracked-write_same k c lpn put_ref (f lp) h' e' refl,
        tracked-write_same k mid lpn f lp h e refl,
      )

  pub mkwrite-tracked :
      {ctx : VmaCtx} (pgoff : ℕ)
      → IsWf k ctx
      → tracked (kdb_page_mkwrite k ctx pgoff).1 ≡ tracked ctx
  mkwrite-tracked {ctx} pgoff w =
      let lpn = lpn_of ctx pgoff in
      let cpi = cpi_of ctx pgoff in
      rw (mkwrite-at k pgoff w) (elim (Option-cases (view k ctx lpn)) [
        | inl e ↦ elim (Bool-cases (ltb lpn ctx.n_lpn)) [
          | inl within ↦ rw (mkwrite_at_miss k ctx lpn cpi (ltb→lt lpn ctx.n_lpn within) e)
          | inr past ↦ rw (mkwrite_at_past k ctx lpn cpi (ltb→le lpn ctx.n_lpn past))
        ]
        | inr (old, e) ↦
            let h : lpn < ctx.n_lpn = w.bounded lpn old e in
            let mid = (search_locked k ctx lpn).1 in
            let e' : view k mid lpn ≡ some (get_ref old) =
              ground (arith, view-search_locked k ctx lpn lpn) in
            let h' : InTable k mid lpn =
              ground (arith, wf-InTable k lpn w, shape-search_locked k ctx lpn) in
            rw (mkwrite_at_hit k ctx lpn cpi h e) (
              omega (
                arith,
                marked-tracked mid lpn cpi (inc64 mid.total_mkwrite) (get_ref old) h' e',
                tracked-search_locked k ctx lpn old (wf-InTable k lpn w) e,
              ))
      ])
