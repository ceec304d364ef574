-- ===== src/Kdb/Fault/Step.antt =====
-- What one run of the locked part of `kdb_fault` (src/vma.c) leaves in the table.
use kvm_db.Prelude.{ℕ, ◌<◌, ◌≡◌, refl, some, ◌==◌, if◌then◌else◌, arith}
use kvm_db.Kdb.Context.{LpState, VmaCtx, HashFn, put_ref, write_lp, head}
use kvm_db.Kdb.Context.View.{view, view-write_lp, KeepsKey}
use kvm_db.Kdb.Fault.Wf.{Fits, IsWf, Got, SameShape, shape-write_lp}

module _ (k : HashFn) where
  -- The table of `after` is that of `ctx` but for the state `lp'` of page `lpn`, which has `r`
  -- references taken.
  pub record Changed (ctx : VmaCtx) (lpn r : ℕ) (lp' : LpState) (after : VmaCtx) : Type 0 where
    pub fits : Fits ctx.cp_per_lp r lp'
    pub shape : SameShape k ctx after
    pub views : (j : ℕ) → view k after j ≡ (if lpn == j then some lp' else view k ctx j)

  pub Changed-IsWf :
      {ctx after : VmaCtx} {lpn : ℕ} {lp' : LpState}
      → IsWf k ctx
      → lpn < ctx.n_lpn
      → Changed ctx lpn 0 lp' after
      → IsWf k after
  Changed-IsWf {ctx} {after} {lpn} {lp'} w h c = record {
    buckets = ground (arith, w.buckets, c.shape);
    nonempty = ground (arith, c.shape);
    small = ground (arith, c.shape);
    states = λ j lp e. ground (arith, c.views j, w.states j lp, c.shape);
    bounded = λ j lp e. ground (arith, c.views j, w.bounded j lp, c.shape);
  }

  pub Got-Changed :
      {ctx mid : VmaCtx} {lpn : ℕ} {lp : LpState} → Got k ctx lpn lp mid → Changed ctx lpn 1 lp mid
  Got-Changed g = record { fits = g.fits; shape = g.shape; views = g.views }

  pub write_lp-Changed :
      {ctx mid : VmaCtx} {lpn r s : ℕ} {lp : LpState} (f : LpState → LpState)
      → Changed ctx lpn r lp mid
      → KeepsKey f
      → Fits ctx.cp_per_lp s (f lp)
      → Changed ctx lpn s (f lp) (write_lp k mid lpn f)
  write_lp-Changed {ctx} {mid} {lpn} f c key fits = record {
    fits = fits;
    shape = ground (arith, c.shape, shape-write_lp k mid lpn f);
    views = λ j. ground (arith, c.views j, view-write_lp k mid lpn j f key);
  }

  pub put-Changed :
      {ctx mid : VmaCtx} {lpn : ℕ} {lp : LpState}
      → Changed ctx lpn 1 lp mid
      → Changed ctx lpn 0 (put_ref lp) (write_lp k mid lpn put_ref)
  put-Changed c = write_lp-Changed put_ref c (λ x. refl) (ground (arith, c.fits))

  -- The statistics of a context are not part of its table.
  pub stats-Changed :
      {ctx c : VmaCtx} {lpn r : ℕ} {lp : LpState} (f m : ℕ)
      → Changed ctx lpn r lp c
      → Changed ctx lpn r lp (record c { total_faults = f; total_mkwrite = m })
  unfolding view head
  stats-Changed f m c = record { fits = c.fits; shape = ground (arith, c.shape); views = c.views }
