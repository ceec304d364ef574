-- ===== src/Kdb/Fault/Wf.antt =====
-- The invariant of a context between two handlers of src/vma.c, and what a state must satisfy.
use kvm_db.Prelude.{
  ℕ, ◌^◌, ◌≤◌, ◌<◌, ◌≡◌, Bool, false, Option, none, some, List, [], ◌∷◌, ◌==◌, if◌then◌else◌,
  length, length-set, replicate, length-replicate, get_or, arith,
}
use kvm_db.Kdb.Context.{
  LpState, VmaCtx, HashFn, LpAlloc, new_lp, insert_locked, search_locked, bitmap_bits, lp_cp_max,
  get_ref, write_lp, update_lp,
}
use kvm_db.Kdb.Context.View.{view, InTable, view-search_locked, view-lpn}

-- A state with room for `n` canonical pages and `r` references taken.
pub record Fits (n r : ℕ) (lp : LpState) : Type 0 where
  pub pages : length lp.cp ≡ n
  pub bits : length lp.dirty_bitmap ≡ bitmap_bits n
  pub refs : lp.refcount ≡ r

-- The pages and dirty bits that a state has when it is first seen: its own, or none.
unfoldable pub cp_before : Option LpState → ℕ → List (Option ℕ)
cp_before none n = replicate n none
cp_before (some lp) n = lp.cp

unfoldable pub dirty_before : Option LpState → ℕ → List Bool
dirty_before none n = replicate (bitmap_bits n) false
dirty_before (some lp) n = lp.dirty_bitmap

module _ (k : HashFn) where
  pub record IsWf (ctx : VmaCtx) : Type 0 where
    pub buckets : length ctx.lp_hash ≡ 2 ^ ctx.lp_hash_bits
    pub nonempty : 0 < ctx.cp_per_lp
    pub small : ctx.cp_per_lp ≤ lp_cp_max
    pub states : (j : ℕ) (lp : LpState) → view k ctx j ≡ some lp → Fits ctx.cp_per_lp 0 lp
    pub bounded : (j : ℕ) (lp : LpState) → view k ctx j ≡ some lp → j < ctx.n_lpn

  pub wf-InTable : {ctx : VmaCtx} (lpn : ℕ) → IsWf ctx → InTable k ctx lpn
  wf-InTable {ctx} lpn w = rw w.buckets (k.hash_64-lt lpn ctx.lp_hash_bits)

  -- What every function below leaves alone.
  pub record SameShape (c d : VmaCtx) : Type 0 where
    pub n_lpn : c.n_lpn ≡ d.n_lpn
    pub per : c.cp_per_lp ≡ d.cp_per_lp
    pub size : length c.lp_hash ≡ length d.lp_hash
    pub hashed : c.lp_hash_bits ≡ d.lp_hash_bits

  -- `lp_get_or_create` gave `lp`, with one reference taken, and left `after`.
  pub record Got (ctx : VmaCtx) (lpn : ℕ) (lp : LpState) (after : VmaCtx) : Type 0 where
    pub key : lp.lpn ≡ lpn
    pub fits : Fits ctx.cp_per_lp 1 lp
    pub pages_kept : lp.cp ≡ cp_before (view k ctx lpn) ctx.cp_per_lp
    pub dirty_kept : lp.dirty_bitmap ≡ dirty_before (view k ctx lpn) ctx.cp_per_lp
    pub shape : SameShape ctx after
    pub views : (j : ℕ) → view k after j ≡ (if lpn == j then some lp else view k ctx j)

  pub shape-write_lp :
      (ctx : VmaCtx) (i : ℕ) (f : LpState → LpState) → SameShape ctx (write_lp k ctx i f)
  unfolding write_lp
  shape-write_lp ctx i f =
      let h = k.hash_64 i ctx.lp_hash_bits in
      ground (arith, length-set ctx.lp_hash h (update_lp i f (get_or ctx.lp_hash h [])))

  pub shape-insert_locked : (ctx : VmaCtx) (lp : LpState) → SameShape ctx (insert_locked k ctx lp).1
  unfolding insert_locked
  shape-insert_locked ctx lp =
      let h = k.hash_64 lp.lpn ctx.lp_hash_bits in
      ground (
        arith,
        shape-write_lp ctx lp.lpn get_ref,
        length-set ctx.lp_hash h (lp ∷ get_or ctx.lp_hash h []),
      )

  pub shape-search_locked : (ctx : VmaCtx) (i : ℕ) → SameShape ctx (search_locked k ctx i).1
  unfolding search_locked
  shape-search_locked ctx i = ground (arith, shape-write_lp ctx i get_ref)

  pub search_locked-Got :
      {ctx : VmaCtx} (lpn : ℕ) {old : LpState}
      → IsWf ctx
      → view k ctx lpn ≡ some old
      → Got ctx lpn (get_ref old) (search_locked k ctx lpn).1
  search_locked-Got {ctx} lpn {old} w e = record {
    key = view-lpn k ctx lpn e;
    fits = ground (arith, w.states lpn old e);
    pages_kept = unfold cp_before in rw e;
    dirty_kept = unfold dirty_before in rw e;
    shape = shape-search_locked ctx lpn;
    views = λ j. ground (arith, view-search_locked k ctx lpn j);
  }

  pub new_lp-Fits :
      (ctx : VmaCtx) (lpn : ℕ) (a : LpAlloc) {lp : LpState}
      → new_lp ctx lpn a ≡ some lp
      → (lp.lpn ≡ lpn)
        × Fits ctx.cp_per_lp 1 lp
        × (lp.cp ≡ replicate ctx.cp_per_lp none)
        × (lp.dirty_bitmap ≡ replicate (bitmap_bits ctx.cp_per_lp) false)
  unfolding new_lp
  new_lp-Fits ctx lpn a h = ground (
    arith,
    length-replicate {A = Option ℕ} ctx.cp_per_lp none,
    length-replicate (bitmap_bits ctx.cp_per_lp) false,
  )
