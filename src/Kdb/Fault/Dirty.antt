-- ===== src/Kdb/Fault/Dirty.antt =====
-- `kdb_page_mkwrite` of src/vma.c against the map of dirty bits.
use kvm_db.Prelude.{
  ◌⊎◌, ◌≢◌, ℕ, ◌<◌, ◌≤◌, ◌≡◌, ◌≢◌, refl, inl, inr, true, ◌||◌, none, some, ◌==◌, ltb, ltb→lt,
  ltb→le, get_or-set, length, length-set, arith, Option-cases, Bool-cases,
}
use kvm_db.Prelude.Word.{inc64}
use kvm_db.Kdb.Context.{LpState, VmaCtx, HashFn, put_ref, write_lp, lp_lookup, search_locked}
use kvm_db.Kdb.Context.View.{view}
use kvm_db.Kdb.Fault.{
  VmFault, locked, sigbus, lpn_of, cpi_of, mark_dirty, mkwrite_at, kdb_page_mkwrite,
}
use kvm_db.Kdb.Fault.Wf.{Fits, IsWf, Got, search_locked-Got}
use kvm_db.Kdb.Fault.Step.{Changed-IsWf, Got-Changed, write_lp-Changed, put-Changed, stats-Changed}
use kvm_db.Kdb.Fault.Pages.{
  page_of, dirty_of, dirty_of-Changed, same-pages, Got-dirty, cpi-lt, same_slot,
}

module _ (k : HashFn) where
  -- What a run of the handler at `pgoff` makes of the map of dirty bits.
  pub record DirtyStep (ctx : VmaCtx) (pgoff : ℕ) (r : VmFault) (after : VmaCtx) : Type 0 where
    pub wf : IsWf k after
    pub pages : (q : ℕ) → page_of k after q ≡ page_of k ctx q
    pub result :
        ((r ≡ locked none)
          × (view k ctx (lpn_of ctx pgoff) ≢ none)
          × ((q : ℕ) → dirty_of k after q ≡ ((pgoff == q) || dirty_of k ctx q)))
        ⊎ ((r ≡ sigbus) × (after ≡ ctx) × (view k ctx (lpn_of ctx pgoff) ≡ none))

  module _ {ctx : VmaCtx} (w : IsWf k ctx) (pgoff : ℕ) where
    bail-DirtyStep : view k ctx (lpn_of ctx pgoff) ≡ none → DirtyStep ctx pgoff sigbus ctx
    bail-DirtyStep empty = record { wf = w; pages = λ q. refl; result = inr (refl, refl, empty) }

    abbrev marked_ctx : VmaCtx → VmaCtx
    marked_ctx mid =
        write_lp k (write_lp k mid (lpn_of ctx pgoff) (mark_dirty (cpi_of ctx pgoff)))
          (lpn_of ctx pgoff) put_ref

    hit-DirtyStep :
        {lp : LpState} {mid : VmaCtx} (m : ℕ)
        → Got k ctx (lpn_of ctx pgoff) lp mid
        → lpn_of ctx pgoff < ctx.n_lpn
        → view k ctx (lpn_of ctx pgoff) ≢ none
        → DirtyStep ctx pgoff (locked none) (record (marked_ctx mid) { total_mkwrite = m })
    hit-DirtyStep {lp} {mid} m g h present =
        let cpi = cpi_of ctx pgoff in
        let f = mark_dirty cpi in
        let room : Fits ctx.cp_per_lp 1 (f lp) =
          ground (arith, g.fits, length-set lp.dirty_bitmap cpi true) in
        let in_bitmap : cpi < length lp.dirty_bitmap =
          omega (arith, g.fits, cpi-lt k {ctx = ctx} pgoff w) in
        let c =
          stats-Changed k (marked_ctx mid).total_faults m
            (put-Changed k (write_lp-Changed k f (Got-Changed k g) (λ x. refl) room)) in
        record {
          wf = Changed-IsWf k w h c;
          pages = same-pages k w pgoff g c refl;
          result = inl (
            refl,
            present,
            λ q.
                rw (dirty_of-Changed k c q, get_or-set)
                  (unfold dirty_of in
                    ground (
                      arith,
                      Got-dirty k w pgoff g (cpi_of ctx q),
                      in_bitmap,
                      same_slot k {ctx = ctx} pgoff q w,
                    )),
          );
        }

  module _ (ctx : VmaCtx) (lpn cpi : ℕ) where
    pub mkwrite_at_past : ctx.n_lpn ≤ lpn → mkwrite_at k ctx lpn cpi ≡ (sigbus, ctx)
    unfolding mkwrite_at
    mkwrite_at_past h = ground arith

    pub mkwrite_at_miss :
        lpn < ctx.n_lpn → view k ctx lpn ≡ none → mkwrite_at k ctx lpn cpi ≡ (sigbus, ctx)
    unfolding mkwrite_at lp_lookup search_locked view
    mkwrite_at_miss h e = ground arith

    pub mkwrite_at_hit :
        {old : LpState}
        → lpn < ctx.n_lpn
        → view k ctx lpn ≡ some old
        → let mid = (search_locked k ctx lpn).1 in
          mkwrite_at k ctx lpn cpi ≡ (
            locked none,
            record (write_lp k (write_lp k mid lpn (mark_dirty cpi)) lpn put_ref) {
              total_mkwrite = inc64 mid.total_mkwrite;
            },
          )
    unfolding mkwrite_at lp_lookup search_locked view
    mkwrite_at_hit h e = ground arith

  pub mkwrite-at :
      {ctx : VmaCtx} (pgoff : ℕ)
      → IsWf k ctx
      → kdb_page_mkwrite k ctx pgoff ≡ mkwrite_at k ctx (lpn_of ctx pgoff) (cpi_of ctx pgoff)
  unfolding kdb_page_mkwrite
  mkwrite-at pgoff w = ground (arith, w.nonempty)

  -- One run of the write-fault handler on a well-formed context: if a state exists for the page
  -- number it succeeds and sets the dirty bit of that offset and no other; else it returns SIGBUS
  -- and changes nothing. The context stays well formed and no canonical page changes.
  pub mkwrite-DirtyStep :
      {ctx : VmaCtx} (pgoff : ℕ)
      → IsWf k ctx
      → let (r, after) = kdb_page_mkwrite k ctx pgoff in DirtyStep ctx pgoff r after
  mkwrite-DirtyStep {ctx} pgoff w =
      let lpn = lpn_of ctx pgoff in
      let cpi = cpi_of ctx pgoff in
      rw (mkwrite-at pgoff w) (elim (Option-cases (view k ctx lpn)) [
        | inl e ↦ elim (Bool-cases (ltb lpn ctx.n_lpn)) [
          | inl within ↦
              rw (mkwrite_at_miss ctx lpn cpi (ltb→lt lpn ctx.n_lpn within) e)
                (bail-DirtyStep w pgoff e)
          | inr past ↦
              rw (mkwrite_at_past ctx lpn cpi (ltb→le lpn ctx.n_lpn past))
                (bail-DirtyStep w pgoff e)
        ]
        | inr (old, e) ↦
            let h : lpn < ctx.n_lpn = w.bounded lpn old e in
            rw (mkwrite_at_hit ctx lpn cpi h e)
              (hit-DirtyStep w pgoff _ (search_locked-Got k lpn w e) h (λ f. cc))
      ])
