-- ===== src/Kdb/Threads/Inv.antt =====
-- What holds of a context of src/vma.c between any two steps of its threads.
use kvm_db.Prelude.{ℕ, ◌^◌, ◌≤◌, ◌<◌, ◌≡◌, true, none, some, length, arith}
use kvm_db.Prelude.Word.{u32}
use kvm_db.Kdb.Context.{LpState, VmaCtx, HashFn, lp_cp_max}
use kvm_db.Kdb.Context.View.{view, InTable}
use kvm_db.Kdb.Fault.{VmFault, locked}
use kvm_db.Kdb.Fault.Wf.{Fits}
use kvm_db.Kdb.Fault.Pages.{pages_in, dirty_in}
use kvm_db.Kdb.Races.Unique.{addr_of}
use kvm_db.Kdb.Threads.{
  Call, Phase, entry, missed, holding, decided, counting, returned, System, phase_of,
}
use kvm_db.Kdb.Threads.Count.{holders}

module _ (k : HashFn) where
  -- An answer and the context: a page that was installed is the one kept, an index that was written to
  -- is dirty, and no handler has read through a dead pointer.
  abbrev pub Told : VmaCtx → Call → VmFault → Type 0
  Told ctx c (locked (some pg)) = pages_in (view k ctx c.lpn) c.cpi ≡ some pg
  Told ctx c (locked none) = dirty_in (view k ctx c.lpn) c.cpi ≡ true
  Told ctx c VmFault.sigbus = Unit
  Told ctx c VmFault.oom = Unit
  Told ctx c VmFault.oops = ⊥

  abbrev pub Good : VmaCtx → Phase → Type 0
  Good ctx Phase.idle = Unit
  Good ctx (entry c) = c.cpi < ctx.cp_per_lp
  Good ctx (missed c) = (c.cpi < ctx.cp_per_lp) × (c.lpn < ctx.n_lpn)
  Good ctx (holding c addr) = (c.cpi < ctx.cp_per_lp) × (addr_of k ctx c.lpn ≡ some addr)
  Good ctx (decided c r addr) = (addr_of k ctx c.lpn ≡ some addr) × Told ctx c r
  Good ctx (counting c r) = Told ctx c r
  Good ctx (returned c r) = Told ctx c r

  pub record Inv (s : System) : Type 0 where
    pub buckets : length s.ctx.lp_hash ≡ 2 ^ s.ctx.lp_hash_bits
    pub nonempty : 0 < s.ctx.cp_per_lp
    pub small : s.ctx.cp_per_lp ≤ lp_cp_max
    pub states :
        (j : ℕ) (lp : LpState)
        → view k s.ctx j ≡ some lp
        → Fits s.ctx.cp_per_lp (u32 (holders j s.threads)) lp
    pub bounded : (j : ℕ) (lp : LpState) → view k s.ctx j ≡ some lp → j < s.ctx.n_lpn
    pub good : (i : ℕ) → Good s.ctx (phase_of s.threads i)

  pub Inv-InTable : {s : System} (lpn : ℕ) → Inv s → InTable k s.ctx lpn
  Inv-InTable {s} lpn v = rw v.buckets (k.hash_64-lt lpn s.ctx.lp_hash_bits)

  -- Addresses, pages and dirty bits stay.
  pub record Grows (c d : VmaCtx) : Type 0 where
    pub n_lpn : c.n_lpn ≡ d.n_lpn
    pub per : c.cp_per_lp ≡ d.cp_per_lp
    pub addrs : (j a : ℕ) → addr_of k c j ≡ some a → addr_of k d j ≡ some a
    pub pages : (j i pg : ℕ) → pages_in (view k c j) i ≡ some pg → pages_in (view k d j) i ≡ some pg
    pub dirty : (j i : ℕ) → dirty_in (view k c j) i ≡ true → dirty_in (view k d j) i ≡ true

  pub Told-Grows :
      {c d : VmaCtx} (call : Call) (r : VmFault) → Grows c d → Told c call r → Told d call r
  Told-Grows call (locked (some pg)) g t = g.pages call.lpn call.cpi pg t
  Told-Grows call (locked none) g t = g.dirty call.lpn call.cpi t
  Told-Grows call VmFault.sigbus g t = t
  Told-Grows call VmFault.oom g t = t
  Told-Grows call VmFault.oops g t = t

  -- What a thread knows stays true when another one runs.
  pub Good-Grows : {c d : VmaCtx} (p : Phase) → Grows c d → Good c p → Good d p
  Good-Grows Phase.idle g h = h
  Good-Grows (entry call) g h = omega (arith, g.per)
  Good-Grows (missed call) g h = (omega (arith, g.per), omega (arith, g.n_lpn))
  Good-Grows (holding call addr) g h = (omega (arith, g.per), g.addrs call.lpn addr h.1)
  Good-Grows (decided call r addr) g h = (g.addrs call.lpn addr h.0, Told-Grows call r g h.1)
  Good-Grows (counting call r) g h = Told-Grows call r g h
  Good-Grows (returned call r) g h = Told-Grows call r g h
