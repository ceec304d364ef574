-- ===== src/Kdb/Threads/Keep.antt =====
-- What a step of one thread of src/vma.c must show for the invariant to stay.
use kvm_db.Prelude.{
  ℕ, ◌<◌, ◌≡◌, refl, inl, inr, true, false, none, some, length, ◌==◌, get_or, set, get_or-set,
  arith, Bool-cases, Option-cases,
}
use kvm_db.Prelude.Word.{u32}
use kvm_db.Kdb.Pool.{Pool}
use kvm_db.Kdb.Context.{LpState, VmaCtx, HashFn, write_lp}
use kvm_db.Kdb.Context.View.{view, KeepsKey, view-write_lp}
use kvm_db.Kdb.Fault.Wf.{Fits, SameShape, shape-write_lp}
use kvm_db.Kdb.Fault.Pages.{pages_in, dirty_in}
use kvm_db.Kdb.Fault.Step.{Changed}
use kvm_db.Kdb.Races.Unique.{addr_of}
use kvm_db.Kdb.Threads.{deref, Phase, System, phase_of}
use kvm_db.Kdb.Threads.Count.{holds, holders, holders-set}
use kvm_db.Kdb.Threads.Inv.{Good, Inv, Grows, Good-Grows}

module _ (k : HashFn) where
  -- One state takes the place of another that it grew out of, or of none.
  pub Changed-Grows :
      {c d : VmaCtx} {lpn r : ℕ} {lp : LpState}
      → Changed k c lpn r lp d
      → ((a : ℕ) → addr_of k c lpn ≡ some a → lp.addr ≡ a)
      → ((i pg : ℕ) → pages_in (view k c lpn) i ≡ some pg → get_or lp.cp i none ≡ some pg)
      → ((i : ℕ) → dirty_in (view k c lpn) i ≡ true → get_or lp.dirty_bitmap i false ≡ true)
      → Grows k c d
  Changed-Grows {c} {d} {lpn} {r} {lp} ch addr pages dirty = record {
    n_lpn = ch.shape.n_lpn;
    per = ch.shape.per;
    addrs = λ j a e. ground (arith, ch.views j, addr a, e);
    pages = λ j i pg e. ground (arith, ch.views j, pages i pg, e);
    dirty = λ j i e. ground (arith, ch.views j, dirty i, e);
  }

  -- A write through a pointer to a state.
  pub update-Changed :
      (ctx : VmaCtx) (lpn r : ℕ) (lp : LpState) (f : LpState → LpState)
      → KeepsKey f
      → view k ctx lpn ≡ some lp
      → Fits ctx.cp_per_lp r (f lp)
      → Changed k ctx lpn r (f lp) (write_lp k ctx lpn f)
  update-Changed ctx lpn r lp f key e fits = record {
    fits = fits;
    shape = shape-write_lp k ctx lpn f;
    views = λ j. ground (arith, view-write_lp k ctx lpn j f key, e);
  }

  -- A thread with a reference reads through its pointer.
  pub deref_held :
      (ctx : VmaCtx) (lpn addr : ℕ)
      → addr_of k ctx lpn ≡ some addr
      → (lp : LpState) × (view k ctx lpn ≡ some lp)
        × (lp.addr ≡ addr)
        × (deref k ctx lpn addr ≡ some lp)
  unfolding deref
  deref_held ctx lpn addr h = elim (Option-cases (view k ctx lpn)) [
    | inl e ↦ absurd (ground (arith, e, h))
    | inr (lp, e) ↦ (lp, e, ground (arith, e, h), ground (arith, e, h))
  ]

  module _ {s : System} (v : Inv k s) (i : ℕ) (h : i < length s.threads) (pool : Pool)
      (p : Phase) where
    all-Good :
        {ctx : VmaCtx}
        → Grows k s.ctx ctx
        → Good k ctx p
        → (j : ℕ) → Good k ctx (phase_of (set s.threads i p) j)
    all-Good {ctx} g good j = elim (Bool-cases (i == j)) [
      | inl e ↦ rw (get_or-set) (ground (arith, e, h, good))
      | inr e ↦
          rw (get_or-set) (ground (arith, e, Good-Grows k (phase_of s.threads j) g (v.good j)))
    ]

    abbrev next : VmaCtx → System
    next ctx = record { ctx = ctx; pool = pool; threads = set s.threads i p }

    holders-same :
        (j : ℕ)
        → holds j p ≡ holds j (phase_of s.threads i)
        → holders j (set s.threads i p) ≡ holders j s.threads
    holders-same j e = omega (arith, e, holders-set j s.threads i p h)

    -- The table stays.
    pub quiet-Inv :
        {ctx : VmaCtx}
        → SameShape k s.ctx ctx
        → ((j : ℕ) → view k ctx j ≡ view k s.ctx j)
        → ((j : ℕ) → holds j p ≡ holds j (phase_of s.threads i))
        → Good k ctx p
        → Inv k (next ctx)
    quiet-Inv {ctx} shape same held good = record {
      buckets = ground (arith, v.buckets, shape);
      nonempty = ground (arith, v.nonempty, shape);
      small = ground (arith, v.small, shape);
      states = λ j lp e. ground (arith, v.states j lp, same j, holders-same j (held j), shape);
      bounded = λ j lp e. ground (arith, v.bounded j lp, same j, shape);
      good = all-Good grows good;
    }
      where
        grows : Grows k s.ctx ctx
        grows = record {
          n_lpn = shape.n_lpn;
          per = shape.per;
          addrs = λ j a e. ground (arith, same j, e);
          pages = λ j x pg e. ground (arith, same j, e);
          dirty = λ j x e. ground (arith, same j, e);
        }

    -- Only the thread moves on.
    pub moved-Inv :
        ((j : ℕ) → holds j p ≡ holds j (phase_of s.threads i)) → Good k s.ctx p → Inv k (next s.ctx)
    moved-Inv held good =
        quiet-Inv (record { n_lpn = refl; per = refl; size = refl; hashed = refl }) (λ j. refl) held
          good

    -- One state of the table changes, or is new.
    pub Changed-Inv :
        {ctx : VmaCtx} {lpn r : ℕ} {lp : LpState}
        → Changed k s.ctx lpn r lp ctx
        → lpn < s.ctx.n_lpn
        → r ≡ u32 (holders lpn (set s.threads i p))
        → ((j : ℕ) → (lpn == j) ≡ false → holds j p ≡ holds j (phase_of s.threads i))
        → Grows k s.ctx ctx
        → Good k ctx p
        → Inv k (next ctx)
    Changed-Inv {ctx} {lpn} {r} {lp} ch below refs held grows good = record {
      buckets = ground (arith, v.buckets, ch.shape);
      nonempty = ground (arith, v.nonempty, ch.shape);
      small = ground (arith, v.small, ch.shape);
      states = λ j x e. elim (Bool-cases (lpn == j)) [
        | inl t ↦ ground (arith, ch.views j, ch.fits, ch.shape, refs, t, e)
        | inr t ↦
            ground (arith, ch.views j, v.states j x, ch.shape, holders-same j (held j t), t, e)
      ];
      bounded = λ j x e. ground (arith, ch.views j, v.bounded j x, ch.shape, below);
      good = all-Good grows good;
    }
