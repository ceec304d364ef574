-- ===== src/Kdb/Fault/Pages.antt =====
-- A context of src/vma.c as a map from page offsets to canonical pages, and the fault handler
-- as one insertion into that map.
use native.Mathlib.Nat.{div-add-mod'}
use kvm_db.Prelude.{
  ℕ, ◌*◌, ◌/◌, ◌%◌, ◌<◌, ◌≤◌, ◌≡◌, refl, ◌⊎◌, inl, inr, Bool, false, Option, none, some, ◌==◌,
  if◌then◌else◌, get_or, set, get_or-set, get_or-replicate, arith, Option-cases, ap, sym,
}
use kvm_db.Kdb.Context.{LpState, VmaCtx, HashFn, LpAlloc, bitmap_bits}
use kvm_db.Kdb.Context.View.{view}
use kvm_db.Kdb.Fault.{VmFault, locked, sigbus, oom, lpn_of, cpi_of}
use kvm_db.Kdb.Fault.Wf.{IsWf, Got, cp_before, dirty_before}
use kvm_db.Kdb.Fault.Step.{Changed}

abbrev pub pages_in : Option LpState → ℕ → Option ℕ
pages_in none i = none
pages_in (some lp) i = get_or lp.cp i none

abbrev pub dirty_in : Option LpState → ℕ → Bool
dirty_in none i = false
dirty_in (some lp) i = get_or lp.dirty_bitmap i false

-- The map after a fault that ended in `r`.
abbrev pub inserted : (ℕ → Option ℕ) → ℕ → VmFault → ℕ → Option ℕ
inserted m pgoff (locked pg) q = if pgoff == q then pg else m q
inserted m pgoff _ q = m q

-- Division and remainder by `n` determine a number.
pub split_eq : (n x y : ℕ) → x / n ≡ y / n → x % n ≡ y % n → x ≡ y
split_eq n x y d m = omega (arith, div-add-mod' x n, div-add-mod' y n, ap (λ (t : ℕ). t * n) d)

module _ (k : HashFn) where
  -- The canonical page that a context keeps for a page offset.
  unfoldable pub page_of : VmaCtx → ℕ → Option ℕ
  page_of ctx q = pages_in (view k ctx (lpn_of ctx q)) (cpi_of ctx q)

  unfoldable pub dirty_of : VmaCtx → ℕ → Bool
  dirty_of ctx q = dirty_in (view k ctx (lpn_of ctx q)) (cpi_of ctx q)

  pub cpi-lt : {ctx : VmaCtx} (q : ℕ) → IsWf k ctx → cpi_of ctx q < ctx.cp_per_lp
  cpi-lt {ctx} q w = omega (arith, w.nonempty, w.small)

  pub cpi-mod : {ctx : VmaCtx} (q : ℕ) → IsWf k ctx → cpi_of ctx q ≡ q % ctx.cp_per_lp
  cpi-mod {ctx} q w = omega (arith, w.nonempty, w.small)

  -- Two offsets with the same page number and index are one.
  pub same_slot :
      {ctx : VmaCtx} (p q : ℕ)
      → IsWf k ctx
      → lpn_of ctx p ≡ lpn_of ctx q
      → cpi_of ctx p ≡ cpi_of ctx q
      → p ≡ q
  same_slot {ctx} p q w d m =
      split_eq ctx.cp_per_lp p q d (omega (arith, cpi-mod {ctx = ctx} p w, cpi-mod {ctx = ctx} q w))

  before-pages : (o : Option LpState) (n i : ℕ) → get_or (cp_before o n) i none ≡ pages_in o i
  unfolding cp_before
  before-pages none n i = get_or-replicate {A = Option ℕ} n i none
  before-pages (some lp) n i = refl

  before-dirty : (o : Option LpState) (n i : ℕ) → get_or (dirty_before o n) i false ≡ dirty_in o i
  unfolding dirty_before
  before-dirty none n i = get_or-replicate (bitmap_bits n) i false
  before-dirty (some lp) n i = refl

  pub page_of-Changed :
      {ctx after : VmaCtx} {lpn r : ℕ} {lp : LpState}
      → Changed k ctx lpn r lp after
      → (q : ℕ)
      → page_of after q
        ≡ (if lpn == lpn_of ctx q then get_or lp.cp (cpi_of ctx q) none else page_of ctx q)
  unfolding page_of
  page_of-Changed {ctx} {after} {lpn} c q = ground (arith, c.shape, c.views (lpn_of ctx q))

  pub dirty_of-Changed :
      {ctx after : VmaCtx} {lpn r : ℕ} {lp : LpState}
      → Changed k ctx lpn r lp after
      → (q : ℕ)
      → dirty_of after q ≡ (
          if lpn == lpn_of ctx q
          then get_or lp.dirty_bitmap (cpi_of ctx q) false
          else dirty_of ctx q)
  unfolding dirty_of
  dirty_of-Changed {ctx} {after} {lpn} c q = ground (arith, c.shape, c.views (lpn_of ctx q))

  -- What the handler returns, and when: for an offset in range, the page that it has; the page just
  -- allocated, if it has none; no memory, only if it has none and no page was allocated, or if its page
  -- number has no state and one of the three allocations for a state failed. SIGBUS, only out of range.
  pub data Answer (ctx : VmaCtx) (pgoff : ℕ) (a : LpAlloc) (page : Option ℕ)
      : VmFault → Type 0 where
    again :
        {pg : ℕ}
        → lpn_of ctx pgoff < ctx.n_lpn
        → page_of ctx pgoff ≡ some pg
        → Answer ctx pgoff a page (locked (some pg))
    fresh :
        {pg : ℕ}
        → lpn_of ctx pgoff < ctx.n_lpn
        → page_of ctx pgoff ≡ none
        → page ≡ some pg
        → Answer ctx pgoff a page (locked (some pg))
    no_page :
        lpn_of ctx pgoff < ctx.n_lpn
        → page_of ctx pgoff ≡ none
        → page ≡ none
        → Answer ctx pgoff a page oom
    no_state :
        lpn_of ctx pgoff < ctx.n_lpn
        → view k ctx (lpn_of ctx pgoff) ≡ none
        → (a.state ≡ none) ⊎ (a.array ≡ false) ⊎ (a.bitmap ≡ false)
        → Answer ctx pgoff a page oom
    out_of_range : ctx.n_lpn ≤ lpn_of ctx pgoff → Answer ctx pgoff a page sigbus

  -- What a run of the handler at `pgoff` makes of the map of pages.
  pub record PageStep (ctx : VmaCtx) (pgoff : ℕ) (a : LpAlloc) (page : Option ℕ) (r : VmFault)
      (after : VmaCtx) : Type 0 where
    pub wf : IsWf k after
    pub pages : (q : ℕ) → page_of after q ≡ inserted (page_of ctx) pgoff r q
    pub dirty : (q : ℕ) → dirty_of after q ≡ dirty_of ctx q
    pub answer : Answer ctx pgoff a page r

  module _ {ctx : VmaCtx} (w : IsWf k ctx) (pgoff : ℕ) where
    pub beyond-empty : ctx.n_lpn ≤ lpn_of ctx pgoff → page_of ctx pgoff ≡ none
    unfolding page_of
    beyond-empty h = elim (Option-cases (view k ctx (lpn_of ctx pgoff))) [
      | inl e ↦ rw e
      | inr (lp, e) ↦ absurd (omega (arith, w.bounded (lpn_of ctx pgoff) lp e))
    ]

    module _ {lp : LpState} {mid : VmaCtx} (g : Got k ctx (lpn_of ctx pgoff) lp mid) where
      pub Got-pages : (i : ℕ) → get_or lp.cp i none ≡ pages_in (view k ctx (lpn_of ctx pgoff)) i
      Got-pages i = rw g.pages_kept (before-pages (view k ctx (lpn_of ctx pgoff)) ctx.cp_per_lp i)

      pub Got-dirty :
          (i : ℕ) → get_or lp.dirty_bitmap i false ≡ dirty_in (view k ctx (lpn_of ctx pgoff)) i
      Got-dirty i = rw g.dirty_kept (before-dirty (view k ctx (lpn_of ctx pgoff)) ctx.cp_per_lp i)

      pub here : page_of ctx pgoff ≡ get_or lp.cp (cpi_of ctx pgoff) none
      unfolding page_of
      here = sym (Got-pages (cpi_of ctx pgoff))

      -- A state with the pages it had.
      pub same-pages :
          {lp' : LpState} {after : VmaCtx}
          → Changed k ctx (lpn_of ctx pgoff) 0 lp' after
          → lp'.cp ≡ lp.cp
          → (q : ℕ) → page_of after q ≡ page_of ctx q
      same-pages c e q =
          rw (page_of-Changed c q, e) (unfold page_of in ground (arith, Got-pages (cpi_of ctx q)))

      pub same-dirty :
          {lp' : LpState} {after : VmaCtx}
          → Changed k ctx (lpn_of ctx pgoff) 0 lp' after
          → lp'.dirty_bitmap ≡ lp.dirty_bitmap
          → (q : ℕ) → dirty_of after q ≡ dirty_of ctx q
      same-dirty c e q =
          rw (dirty_of-Changed c q, e) (unfold dirty_of in ground (arith, Got-dirty (cpi_of ctx q)))

      -- A state with one page more.
      pub new-page :
          {lp' : LpState} {after : VmaCtx} (pg : ℕ)
          → Changed k ctx (lpn_of ctx pgoff) 0 lp' after
          → lp'.cp ≡ set lp.cp (cpi_of ctx pgoff) (some pg)
          → (q : ℕ) → page_of after q ≡ (if pgoff == q then some pg else page_of ctx q)
      new-page pg c e q =
          rw (page_of-Changed c q, e, get_or-set)
            (unfold page_of in
              ground (
                arith,
                Got-pages (cpi_of ctx q),
                cpi-lt {ctx = ctx} pgoff w,
                g.fits,
                same_slot {ctx = ctx} pgoff q w,
              ))
