-- ===== src/Kdb/Threads/Locked.antt =====
-- The critical sections under the lock of a state, src/vma.c, keep the invariant.
use kvm_db.Prelude.{
  ℕ, ◌<◌, ◌≡◌, refl, inl, inr, true, false, length-set, ◌∷◌, none, some, length, get_or, set,
  get_or-set, arith, Option-cases,
}
use kvm_db.Prelude.Word.{u32}
use kvm_db.Kdb.Pool.{Pool, get_page, cp_pool_alloc}
use kvm_db.Kdb.Context.{LpState, VmaCtx, HashFn, put_ref, write_lp}
use kvm_db.Kdb.Context.View.{view}
use kvm_db.Kdb.Fault.{store_page, mark_dirty, VmFault, locked, oom}
use kvm_db.Kdb.Threads.{
  page_fault, write_fault, Call, holding, decided, System, phase_of, Memory, put_back, fault_locked,
  mkwrite_locked, deref, advance, after_put,
}
use kvm_db.Kdb.Threads.Count.{holders, holders-set}
use kvm_db.Kdb.Threads.Inv.{Inv}
use kvm_db.Kdb.Threads.Keep.{Changed-Grows, moved-Inv, update-Changed, Changed-Inv}

module _ (k : HashFn) where
  module _ (m : Memory) (ctx : VmaCtx) (pool : Pool) (c : Call) (lp : LpState) where
    pub fault_locked_kept :
        (pg : ℕ)
        → get_or lp.cp c.cpi none ≡ some pg
        → fault_locked k m ctx pool c lp ≡ record {
          ctx = ctx;
          pool = record pool { calls = get_page pg ∷ pool.calls };
          phase = decided c (locked (some pg)) lp.addr;
        }
    unfolding fault_locked
    fault_locked_kept pg e = ground (arith, e)

    pub fault_locked_dry :
        get_or lp.cp c.cpi none ≡ none
        → m.page ≡ none
        → fault_locked k m ctx pool c lp
          ≡ record { ctx = ctx; pool = pool; phase = decided c oom lp.addr }
    unfolding fault_locked
    fault_locked_dry e p = ground (arith, e, p)

    pub fault_locked_new :
        (pg : ℕ)
        → get_or lp.cp c.cpi none ≡ none
        → m.page ≡ some pg
        → let pool' = (cp_pool_alloc (some pg) pool).1 in
          fault_locked k m ctx pool c lp ≡ record {
            ctx = write_lp k ctx c.lpn (store_page c.cpi pg);
            pool = record pool' { calls = get_page pg ∷ pool'.calls };
            phase = decided c (locked (some pg)) lp.addr;
          }
    unfolding fault_locked
    fault_locked_new pg e p = ground (arith, e, p)

  module _ (m : Memory) (ctx : VmaCtx) (pool : Pool) (c : Call) where
    pub advance_fault :
        (addr : ℕ) (lp : LpState)
        → deref k ctx c.lpn addr ≡ some lp
        → c.handler ≡ page_fault
        → advance k m ctx pool (holding c addr) ≡ fault_locked k m ctx pool c lp
    unfolding advance
    advance_fault addr lp d e = ground (arith, d, e)

    pub advance_mkwrite :
        (addr : ℕ) (lp : LpState)
        → deref k ctx c.lpn addr ≡ some lp
        → c.handler ≡ write_fault
        → advance k m ctx pool (holding c addr) ≡ mkwrite_locked k ctx pool c lp
    unfolding advance
    advance_mkwrite addr lp d e = ground (arith, d, e)

    pub advance_put :
        (r : VmFault) (addr : ℕ) (lp : LpState)
        → deref k ctx c.lpn addr ≡ some lp
        → advance k m ctx pool (decided c r addr)
          ≡ record { ctx = write_lp k ctx c.lpn put_ref; pool = pool; phase = after_put c r }
    unfolding advance
    advance_put r addr lp d = ground (arith, d)

  module _ {s : System} (v : Inv k s) (i : ℕ) (c : Call) (addr : ℕ) (h : i < length s.threads)
      (now : phase_of s.threads i ≡ holding c addr) (lp : LpState)
      (e : view k s.ctx c.lpn ≡ some lp) (inside : c.cpi < s.ctx.cp_per_lp) where
    refs_same :
        (r : VmFault)
        → holders c.lpn (set s.threads i (decided c r lp.addr)) ≡ holders c.lpn s.threads
    refs_same r = ground (arith, now, holders-set c.lpn s.threads i (decided c r lp.addr) h)

    stored-Inv :
        (pool : Pool) (pg : ℕ)
        → get_or lp.cp c.cpi none ≡ none
        → Inv k (
            put_back s i (record {
              ctx = write_lp k s.ctx c.lpn (store_page c.cpi pg);
              pool = pool;
              phase = decided c (locked (some pg)) lp.addr;
            }))
    stored-Inv pool pg n =
        let fits = v.states c.lpn lp e in
        let ch =
          update-Changed k s.ctx c.lpn (u32 (holders c.lpn s.threads)) lp (store_page c.cpi pg)
            (λ x. refl) e (ground (arith, fits, length-set lp.cp c.cpi (some pg))) in
        Changed-Inv k v i h pool (decided c (locked (some pg)) lp.addr) ch (v.bounded c.lpn lp e)
          (ground (arith, refs_same (locked (some pg)))) (λ j t. ground (arith, now, t))
          (Changed-Grows k ch (λ a q. ground (arith, e, q))
            (λ x p q. ground (arith, e, q, n, get_or-set lp.cp c.cpi x (some pg) none))
            (λ x q. ground (arith, e, q)))
          (
            ground (arith, ch.views c.lpn),
            ground
                (arith, ch.views c.lpn, inside, fits, get_or-set lp.cp c.cpi c.cpi (some pg) none),
          )

    pub fault_locked-Inv : (m : Memory) → Inv k (put_back s i (fault_locked k m s.ctx s.pool c lp))
    fault_locked-Inv m = elim (Option-cases (get_or lp.cp c.cpi none)) [
      | inr (pg, q) ↦ rw (fault_locked_kept m s.ctx s.pool c lp pg q) (
          moved-Inv k v i h _ (decided c (locked (some pg)) lp.addr) (λ j. rw now refl)
            (ground (arith, e), ground (arith, e, q)))
      | inl q ↦ elim (Option-cases m.page) [
        | inl p ↦ rw (fault_locked_dry m s.ctx s.pool c lp q p) (
            moved-Inv k v i h s.pool (decided c oom lp.addr) (λ j. rw now refl)
              (ground (arith, e), tt))
        | inr (pg, p) ↦ rw (fault_locked_new m s.ctx s.pool c lp pg q p) (stored-Inv _ pg q)
      ]
    ]

    pub mkwrite_locked-Inv : Inv k (put_back s i (mkwrite_locked k s.ctx s.pool c lp))
    unfolding mkwrite_locked
    mkwrite_locked-Inv =
        let fits = v.states c.lpn lp e in
        let ch =
          update-Changed k s.ctx c.lpn (u32 (holders c.lpn s.threads)) lp (mark_dirty c.cpi)
            (λ x. refl) e (ground (arith, fits, length-set lp.dirty_bitmap c.cpi true)) in
        Changed-Inv k v i h s.pool (decided c (locked none) lp.addr) ch (v.bounded c.lpn lp e)
          (ground (arith, refs_same (locked none))) (λ j t. ground (arith, now, t))
          (Changed-Grows k ch (λ a q. ground (arith, e, q)) (λ x p q. ground (arith, e, q))
            (λ x q. ground (arith, e, q, get_or-set lp.dirty_bitmap c.cpi x true false)))
          (
            ground (arith, ch.views c.lpn),
            ground (
              arith,
              ch.views c.lpn,
              inside,
              fits,
              get_or-set lp.dirty_bitmap c.cpi c.cpi true false,
            ),
          )
