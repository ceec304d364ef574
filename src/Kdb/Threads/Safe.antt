-- ===== src/Kdb/Threads/Safe.antt =====
-- What the concurrent handlers of src/vma.c guarantee.
use kvm_db.Prelude.{ℕ, zero, suc, ◌≡◌, refl, true, none, some, List, [], ◌∷◌, length, arith}
use kvm_db.Prelude.Word.{u32}
use kvm_db.Kdb.Pool.{Pool}
use kvm_db.Kdb.Context.{LpState, VmaCtx, HashFn, bitmap_bits}
use kvm_db.Kdb.Context.View.{view}
use kvm_db.Kdb.Fault.{VmFault, locked}
use kvm_db.Kdb.Fault.Wf.{IsWf}
use kvm_db.Kdb.Fault.Pages.{page_of, dirty_of, cpi-lt}
use kvm_db.Kdb.Threads.{
  Handler, Phase, entry, missed, holding, decided, counting, returned, call_of, Memory, System,
  phase_of, entered, starting, run,
}
use kvm_db.Kdb.Threads.Count.{holds, holders, holders-none}
use kvm_db.Kdb.Threads.Inv.{Told, Good, Inv}
use kvm_db.Kdb.Threads.Put.{run-Inv}
use kvm_db.Kdb.Threads.Shape.{per-run}

abbrev pub IsBack : Phase → Type 0
IsBack Phase.idle = Unit
IsBack (returned c r) = Unit
IsBack p = ⊥

back-calm : (j : ℕ) (p : Phase) → IsBack p → holds j p ≡ 0
back-calm j Phase.idle b = refl
back-calm j (entry c) b = refl
back-calm j (missed c) b = refl
back-calm j (holding c addr) b = absurd b
back-calm j (decided c r addr) b = absurd b
back-calm j (counting c r) b = refl
back-calm j (returned c r) b = refl

-- Two answers for one offset.
abbrev pub Agree : VmFault → VmFault → Type 0
Agree (locked (some pg)) (locked (some pg')) = pg ≡ pg'
Agree _ _ = Unit

module _ (k : HashFn) where
  -- What an answer for an offset says of the context.
  abbrev pub Answered : VmaCtx → ℕ → VmFault → Type 0
  Answered ctx q (locked (some pg)) = page_of k ctx q ≡ some pg
  Answered ctx q (locked none) = dirty_of k ctx q ≡ true
  Answered ctx q VmFault.sigbus = Unit
  Answered ctx q VmFault.oom = Unit
  Answered ctx q VmFault.oops = ⊥

  agree :
      (ctx : VmaCtx) (q : ℕ) (r r' : VmFault) → Answered ctx q r → Answered ctx q r' → Agree r r'
  agree ctx q (locked (some pg)) (locked (some pg')) a b = ground (arith, a, b)
  agree ctx q (locked (some pg)) (locked none) a b = tt
  agree ctx q (locked (some pg)) VmFault.sigbus a b = tt
  agree ctx q (locked (some pg)) VmFault.oom a b = tt
  agree ctx q (locked (some pg)) VmFault.oops a b = tt
  agree ctx q (locked none) r' a b = tt
  agree ctx q VmFault.sigbus r' a b = tt
  agree ctx q VmFault.oom r' a b = tt
  agree ctx q VmFault.oops r' a b = tt

  entered-Good :
      {ctx : VmaCtx}
      → IsWf k ctx
      → (calls : List (Handler × ℕ)) (i : ℕ) → Good k ctx (phase_of (entered ctx calls) i)
  entered-Good w [] i = tt
  entered-Good w ((h, q) ∷ calls) zero = cpi-lt k q w
  entered-Good w ((h, q) ∷ calls) (suc i) = entered-Good w calls i

  entered-calm :
      (ctx : VmaCtx) (calls : List (Handler × ℕ)) (j i : ℕ)
      → holds j (phase_of (entered ctx calls) i) ≡ 0
  entered-calm ctx [] j i = refl
  entered-calm ctx ((h, q) ∷ calls) j zero = refl
  entered-calm ctx ((h, q) ∷ calls) j (suc i) = entered-calm ctx calls j i

  starting-Inv :
      {ctx : VmaCtx}
      → IsWf k ctx
      → (pool : Pool) (calls : List (Handler × ℕ)) → Inv k (starting ctx pool calls)
  starting-Inv {ctx} w pool calls = record {
    buckets = w.buckets;
    nonempty = w.nonempty;
    small = w.small;
    states = λ j lp e.
        ground
          (arith, w.states j lp e, holders-none j (entered ctx calls) (entered-calm ctx calls j));
    bounded = w.bounded;
    good = entered-Good w calls;
  }

  module _ {ctx : VmaCtx} (w : IsWf k ctx) (pool : Pool) (calls : List (Handler × ℕ))
      (l : List (ℕ × Memory)) where
    abbrev after : System
    after = run k l (starting ctx pool calls)

    inv : Inv k after
    inv = run-Inv k l (starting-Inv w pool calls)

    told :
        (i : ℕ) (h : Handler) (q : ℕ) (r : VmFault)
        → phase_of after.threads i ≡ returned (call_of ctx h q) r
        → Told k after.ctx (call_of ctx h q) r
    told i h q r e = rw e at (inv.good i)

    pub answered :
        (i q : ℕ) (h : Handler) (r : VmFault)
        → phase_of after.threads i ≡ returned (call_of ctx h q) r
        → Answered after.ctx q r
    answered i q h r e = answered_of r (told i h q r e)
      where
        per : after.ctx.cp_per_lp ≡ ctx.cp_per_lp
        per = per-run k l (starting ctx pool calls)

        answered_of : (r : VmFault) → Told k after.ctx (call_of ctx h q) r → Answered after.ctx q r
        answered_of (locked (some pg)) t = unfold page_of in rw per t
        answered_of (locked none) t = unfold dirty_of in rw per t
        answered_of VmFault.sigbus t = t
        answered_of VmFault.oom t = t
        answered_of VmFault.oops t = t

    -- However the critical sections of any number of faults and write faults on a well-formed context
    -- interleave, and whatever the allocations give: two handlers that are back from one offset have
    -- answers that hold of the context (a page that was installed is the one that the context keeps, a
    -- write fault that succeeded has set the dirty bit, and neither has read through a pointer to no
    -- state), and two pages that they installed are one.
    pub same_page :
        (i j q : ℕ) (h h' : Handler) (r r' : VmFault)
        → phase_of after.threads i ≡ returned (call_of ctx h q) r
        → phase_of after.threads j ≡ returned (call_of ctx h' q) r'
        → Answered after.ctx q r × Answered after.ctx q r' × Agree r r'
    same_page i j q h h' r r' e f =
        let a = answered i q h r e in
        let b = answered j q h' r' f in (a, b, agree after.ctx q r r' a b)

    -- However the critical sections of any number of faults and write faults on a well-formed context
    -- interleave, and whatever the allocations give: at every moment the reference count of a state is
    -- the number of handlers that hold a reference on it (modulo 2 ^ 32), and its arrays have their
    -- sizes.
    pub refcount_lem :
        (j : ℕ) (lp : LpState)
        → view k after.ctx j ≡ some lp
        → (lp.refcount ≡ u32 (holders j after.threads))
          × (length lp.cp ≡ ctx.cp_per_lp)
          × (length lp.dirty_bitmap ≡ bitmap_bits ctx.cp_per_lp)
    refcount_lem j lp e =
        let fits = inv.states j lp e in
        let per = per-run k l (starting ctx pool calls) in
        (fits.refs, ground (arith, fits, per), ground (arith, fits, per))

    -- However the critical sections of any number of faults and write faults on a well-formed context
    -- interleave, and whatever the allocations give: once every handler is back, the context is well
    -- formed again.
    pub quiet-IsWf : ((i : ℕ) → IsBack (phase_of after.threads i)) → IsWf k after.ctx
    quiet-IsWf back = record {
      buckets = inv.buckets;
      nonempty = inv.nonempty;
      small = inv.small;
      states = λ j lp e.
          let none_held = holders-none j after.threads (λ i. back-calm j _ (back i)) in
          ground (arith, inv.states j lp e, none_held);
      bounded = inv.bounded;
    }
