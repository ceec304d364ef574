-- ===== src/Kdb/Chrdev/Layout.antt =====
-- What the checks of src/chrdev.c give to the mappings.
use native.Mathlib.Nat.{div-add-mod', div-lt_iff_lt-mul, mul-div_cancel}
use kvm_db.Prelude.{
  ℕ, ◌+◌, ◌-◌, ◌*◌, ◌/◌, ◌%◌, ◌^◌, ◌<◌, ◌≤◌, ◌≡◌, ◌≢◌, Bool, true, false, Option, none, some, ◌⊎◌,
  inl, inr, Option-cases, ap, arith,
}
use kvm_db.Prelude.Word.{u32, u64}
use kvm_db.Prelude.Errno.{err, ok, einval}
use kvm_db.Kdb.Pool.{Pool}
use kvm_db.Kdb.Context.{VmaCtx, HashFn, LpAlloc, lp_cp_max, vma_ctx_create}
use kvm_db.Kdb.Fault.{sigbus, lpn_of, kdb_fault}
use kvm_db.Kdb.Fault.Wf.{IsWf}
use kvm_db.Kdb.Fault.Ways.{fault_at_past, kdb_fault-at}
use kvm_db.Kdb.Accounts.{tracked}
use kvm_db.Kdb.Session.{vma_ctx_create-IsWf}
use kvm_db.Kdb.Chrdev.{KdbLayout, KdbDev, IoctlCall, set_layout, nothing, kdb_ioctl, kdb_mmap}

-- What the checks of KDB_SET_LAYOUT leave true of a layout.
pub record IsLayout (l : KdbLayout) : Type 0 where
  pub some_cp : l.cp_size ≢ 0
  pub some_lp : l.lp_size ≢ 0
  pub some_pages : l.n_lpn ≢ 0
  pub divides : l.lp_size % l.cp_size ≡ 0
  pub few : l.lp_size / l.cp_size ≤ lp_cp_max

abbrev pub DevOk : KdbDev → Type 0
DevOk dev = (dev.layout_set ≡ false) ⊎ IsLayout dev.layout

valid : (dev : KdbDev) → DevOk dev → dev.layout_set ≡ true → IsLayout dev.layout
valid dev (inl off) on = absurd (cc)
valid dev (inr l) on = l

-- Every `ioctl` call keeps the configured layout valid.
pub kdb_ioctl-DevOk :
    (dev : KdbDev) (pool : Pool) (c : IoctlCall) → DevOk dev → DevOk (kdb_ioctl dev pool c).1
unfolding kdb_ioctl
kdb_ioctl-DevOk dev pool (set_layout none) d = d
kdb_ioctl-DevOk dev pool (set_layout (some l)) d = ground arith
kdb_ioctl-DevOk dev pool c d = d

abbrev pub set_to : KdbLayout → KdbDev
set_to l = record { layout = l; layout_set = true }

set_layout_ways :
    (dev : KdbDev) (pool : Pool) (l : KdbLayout)
    → (kdb_ioctl dev pool (set_layout (some l)) ≡ (ok nothing, set_to l))
      ⊎ (kdb_ioctl dev pool (set_layout (some l)) ≡ (err einval, dev))
unfolding kdb_ioctl
set_layout_ways dev pool l = ground arith

set_layout_taken :
    (dev : KdbDev) (pool : Pool) (l : KdbLayout)
    → kdb_ioctl dev pool (set_layout (some l)) ≡ (ok nothing, set_to l)
    → IsLayout l
unfolding kdb_ioctl
set_layout_taken dev pool l e = ground arith

set_layout_left :
    (dev : KdbDev) (pool : Pool) (l : KdbLayout)
    → kdb_ioctl dev pool (set_layout (some l)) ≡ (err einval, dev)
    → ¬ IsLayout l
unfolding kdb_ioctl
set_layout_left dev pool l e v = ground arith

-- Where memory is given, `vma_ctx_create` makes a context of the layout, and the canonical pages that
-- the context counts for a logical page make up the whole of it.
abbrev pub IsWhole : KdbLayout → Type 0
IsWhole l =
    (ctx : VmaCtx) × (vma_ctx_create l.cp_size l.lp_size l.n_lpn true true ≡ some ctx)
    × (ctx.cp_per_lp * l.cp_size ≡ l.lp_size)

created_checks :
    (l : KdbLayout) (ctx : VmaCtx)
    → vma_ctx_create l.cp_size l.lp_size l.n_lpn true true ≡ some ctx
    → (l.cp_size ≢ 0)
      × (l.lp_size ≢ 0)
      × (l.n_lpn ≢ 0)
      × (l.lp_size % l.cp_size ≡ 0)
      × (ctx.cp_per_lp ≤ lp_cp_max)
      × (ctx.cp_per_lp ≡ u32 (l.lp_size / l.cp_size))
unfolding vma_ctx_create
created_checks l ctx e = ground arith

not_refused :
    (l : KdbLayout) → IsLayout l → vma_ctx_create l.cp_size l.lp_size l.n_lpn true true ≢ none
unfolding vma_ctx_create
not_refused l v e =
    let few : u32 (l.lp_size / l.cp_size) ≤ lp_cp_max = omega (arith, v.few) in
    ground (arith, few, v.some_cp, v.some_lp, v.some_pages, v.divides)

layout-IsWhole : (l : KdbLayout) → IsLayout l → IsWhole l
layout-IsWhole l v = elim (Option-cases (vma_ctx_create l.cp_size l.lp_size l.n_lpn true true)) [
  | inl e ↦ absurd (not_refused l v e)
  | inr (ctx, e) ↦
      let (_, _, _, _, _, per) = created_checks l ctx e in
      let all : ctx.cp_per_lp ≡ l.lp_size / l.cp_size = omega (arith, per, v.few) in
      (ctx, e, rw all (omega (arith, div-add-mod' l.lp_size l.cp_size, v.divides)))
]

whole-IsLayout : (l : KdbLayout) → IsWhole l → IsLayout l
whole-IsLayout l (ctx, made, whole) =
    let (some_cp, some_lp, some_pages, divides, few, _) = created_checks l ctx made in
    let quotient : ctx.cp_per_lp * l.cp_size / l.cp_size ≡ ctx.cp_per_lp =
      mul-div_cancel ctx.cp_per_lp (omega (arith, some_cp)) in
    record {
      some_cp = some_cp;
      some_lp = some_lp;
      some_pages = some_pages;
      divides = divides;
      few = rw (← whole, quotient) few;
    }

-- KDB_SET_LAYOUT takes a layout if and only if `vma_ctx_create`, given memory, makes a context of it
-- whose canonical pages make up the whole of a logical page (its own checks also pass a quotient that
-- its 32 bits cut); any other layout gives EINVAL and leaves the device as it was.
pub set_layout_lem :
    (dev : KdbDev) (pool : Pool) (l : KdbLayout)
    → (IsWhole l × (kdb_ioctl dev pool (set_layout (some l)) ≡ (ok nothing, set_to l)))
      ⊎ ((¬ IsWhole l) × (kdb_ioctl dev pool (set_layout (some l)) ≡ (err einval, dev)))
set_layout_lem dev pool l = elim (set_layout_ways dev pool l) [
  | inl e ↦ inl (layout-IsWhole l (set_layout_taken dev pool l e), e)
  | inr e ↦ inr (λ w. set_layout_left dev pool l e (whole-IsLayout l w), e)
]

scale : (m a b : ℕ) → a ≤ b → m * a ≤ m * b
scale m a b h = grind arith

pages_inside : (g per cp n : ℕ) → cp ≤ 4096 → g * 4096 < n * (per * cp) → g < n * per
pages_inside g per cp n small h = omega (arith, scale (n * per) cp 4096 small)

pages_outside : (n per cp : ℕ) → 4096 < cp → 0 < per → n ≢ 0 → n * per * 4096 < n * (per * cp)
pages_outside n per cp large pos ne =
    let room : n ≤ n * per = grind arith in omega (arith, scale (n * per) 4097 cp (omega arith))

page_inside :
    (per cp lp n m start end : ℕ)
    → m ≡ n
    → per * cp ≡ lp
    → start + n * lp ≡ end
    → n * per * 4096 < n * (per * cp)
    → start + m * per * 4096 < end
page_inside per cp lp n m start end e whole all h =
    rw e (let size : n * (per * cp) ≡ n * lp = ap (λ t. n * t) whole in omega (arith, all, h, size))

module _ (dev : KdbDev) (vm_start vm_end : ℕ) (ctx_mem table_mem : Bool) {ctx : VmaCtx}
    (mapped : kdb_mmap dev vm_start vm_end ctx_mem table_mem ≡ ok ctx) where
  open dev.layout use {cp_size, lp_size, n_lpn}

  mmap-created :
      (dev.layout_set ≡ true)
      × (vma_ctx_create cp_size lp_size n_lpn ctx_mem table_mem ≡ some ctx)
      × (u64 (vm_end + 2 ^ 64 - vm_start) ≤ u64 (n_lpn * lp_size))
  unfolding kdb_mmap
  mmap-created = ground arith

  -- On a device whose layout was checked, a successful `mmap` gives a well-formed context of that
  -- layout that keeps no page.
  pub kdb_mmap-IsWf :
      (k : HashFn)
      → DevOk dev
      → IsWf k ctx × (ctx.cp_per_lp * cp_size ≡ lp_size) × (ctx.n_lpn ≡ n_lpn) × (tracked ctx ≡ 0)
  kdb_mmap-IsWf k d =
      let (on, made, _) = mmap-created in
      vma_ctx_create-IsWf k cp_size lp_size n_lpn ctx_mem table_mem {ctx = ctx}
        (omega (arith, (valid dev d on).few)) made

  -- With canonical pages of at most 4096 bytes, every 4096-byte page of the mapping has a page
  -- number in range, so its fault is not refused as out of range.
  mmap_in_range :
      (k : HashFn) (pgoff : ℕ)
      → DevOk dev
      → cp_size ≤ 4096
      → pgoff * 4096 < u64 (vm_end + 2 ^ 64 - vm_start)
      → lpn_of ctx pgoff < ctx.n_lpn
  mmap_in_range k pgoff d small inside =
      let (on, made, fits) = mmap-created in
      let (w, whole, same, _) = kdb_mmap-IsWf k d in
      (div-lt_iff_lt-mul w.nonempty).1 (
        rw same (
          pages_inside pgoff ctx.cp_per_lp cp_size n_lpn small
            (omega (arith, ap (λ (t : ℕ). n_lpn * t) whole))))

  -- With a layout that was checked and canonical pages larger than 4096 bytes, a successful `mmap` of
  -- the whole configured size, addresses being 64-bit numbers, contains the 4096-byte page at offset
  -- `n_lpn * cp_per_lp`, and the fault of that page is refused with SIGBUS.
  pub mmap_sigbus :
      (k : HashFn) (pool : Pool) (a : LpAlloc) (page : Option ℕ)
      → DevOk dev
      → 4096 < cp_size
      → vm_end < 2 ^ 64
      → vm_start + n_lpn * lp_size ≡ vm_end
      → let pgoff = ctx.n_lpn * ctx.cp_per_lp in
        (vm_start + pgoff * 4096 < vm_end)
        × (kdb_fault k ctx pool pgoff a page ≡ (sigbus, ctx, pool))
  mmap_sigbus k pool a page d large below_end all =
      let (on, made, fits) = mmap-created in
      let (w, whole, same, _) = kdb_mmap-IsWf k d in
      (
        page_inside ctx.cp_per_lp cp_size lp_size n_lpn ctx.n_lpn vm_start vm_end same whole all (
            pages_outside n_lpn ctx.cp_per_lp cp_size large w.nonempty (valid dev d on).some_pages),
        rw (kdb_fault-at k {ctx = ctx} pool _ a page w) (
            fault_at_past k ctx pool _ _ a page
              (omega (arith, mul-div_cancel ctx.n_lpn w.nonempty))),
      )
