-- ===== src/Kdb/Threads/Alone.antt =====
-- A handler that runs with no other thread is the handler of src/vma.c in one piece.
use kvm_db.Prelude.{
  ◌∙◌, ap, zero, suc, ℕ, ◌≡◌, refl, inl, inr, ◌∷◌, Option, none, some, get_or, arith, Option-cases,
  sym,
}
use kvm_db.Prelude.Word.{inc64}
use kvm_db.Kdb.Pool.{Pool, get_page}
use kvm_db.Kdb.Context.{set_head, LpState, VmaCtx, HashFn, put_ref, write_lp}
use kvm_db.Kdb.Context.View.{view, view-write_lp}
use kvm_db.Kdb.Fault.{
  install_page, fault_in_lp, Outcome, store_page, mark_dirty, VmFault, locked, oom,
}
use kvm_db.Kdb.Fault.Ways.{fault_in_lp_kept, fault_in_lp_dry, fault_in_lp_new}
use kvm_db.Kdb.Threads.{
  page_fault, write_fault, Call, holding, decided, counting, returned, Local, Memory, fault_locked,
  mkwrite_locked, deref, advance, run_alone, count_call,
}
use kvm_db.Kdb.Threads.Locked.{
  advance_fault, advance_mkwrite, advance_put, fault_locked_kept, fault_locked_dry,
  fault_locked_new,
}

abbrev pub result_of : Call → Outcome → Local
result_of c (r, ctx, pool) = record { ctx = ctx; pool = pool; phase = returned c r }

module _ (k : HashFn) where
  deref-view :
      (ctx : VmaCtx) (lpn : ℕ) (lp : LpState)
      → view k ctx lpn ≡ some lp
      → deref k ctx lpn lp.addr ≡ some lp
  unfolding deref
  deref-view ctx lpn lp e = ground (arith, e)

  pub alone_back :
      (n : ℕ) (m : Memory) (ctx : VmaCtx) (pool : Pool) (c : Call) (r : VmFault)
      → run_alone k n m (record { ctx = ctx; pool = pool; phase = returned c r })
        ≡ record { ctx = ctx; pool = pool; phase = returned c r }
  unfolding run_alone advance
  alone_back zero m ctx pool c r = refl
  alone_back (suc n) m ctx pool c r = alone_back n m ctx pool c r

  alone_counting :
      (n : ℕ) (m : Memory) (ctx : VmaCtx) (pool : Pool) (c : Call) (r : VmFault)
      → run_alone k (suc n) m (record { ctx = ctx; pool = pool; phase = counting c r })
        ≡ record { ctx = count_call c.handler ctx; pool = pool; phase = returned c r }
  unfolding run_alone advance
  alone_counting n m ctx pool c r = alone_back n m (count_call c.handler ctx) pool c r

  -- From the end of the critical section on.
  alone_decided :
      (n : ℕ) (m : Memory) (ctx : VmaCtx) (pool : Pool) (c : Call) (page : Option ℕ) (lp : LpState)
      → view k ctx c.lpn ≡ some lp
      → run_alone k
          (suc (suc n))
          m
          (record { ctx = ctx; pool = pool; phase = decided c (locked page) lp.addr })
        ≡ record {
          ctx = count_call c.handler (write_lp k ctx c.lpn put_ref);
          pool = pool;
          phase = returned c (locked page);
        }
  unfolding run_alone
  alone_decided n m ctx pool c page lp e =
      rw (advance_put k m ctx pool c (locked page) lp.addr lp (deref-view ctx c.lpn lp e))
        (alone_counting n m (write_lp k ctx c.lpn put_ref) pool c (locked page))

  alone_refused :
      (n : ℕ) (m : Memory) (ctx : VmaCtx) (pool : Pool) (c : Call) (lp : LpState)
      → view k ctx c.lpn ≡ some lp
      → run_alone k (suc n) m (record { ctx = ctx; pool = pool; phase = decided c oom lp.addr })
        ≡ record { ctx = write_lp k ctx c.lpn put_ref; pool = pool; phase = returned c oom }
  unfolding run_alone
  alone_refused n m ctx pool c lp e =
      rw (advance_put k m ctx pool c oom lp.addr lp (deref-view ctx c.lpn lp e))
        (alone_back n m (write_lp k ctx c.lpn put_ref) pool c oom)

  module _ (m : Memory) (ctx : VmaCtx) (pool : Pool) (c : Call) (lp : LpState)
      (e : view k ctx c.lpn ≡ some lp) where
    count_install :
        (ctx : VmaCtx) (pool : Pool) (pg : ℕ)
        → c.handler ≡ page_fault
        → record {
          ctx = count_call c.handler (write_lp k ctx c.lpn put_ref);
          pool = record pool { calls = get_page pg ∷ pool.calls };
          phase = returned c (locked (some pg));
        }
          ≡ result_of c (install_page k ctx pool c.lpn pg)
    unfolding install_page write_lp set_head
    count_install ctx pool pg t = ground (arith, t)

    stored_view :
        (pg : ℕ)
        → view k (write_lp k ctx c.lpn (store_page c.cpi pg)) c.lpn ≡ some (store_page c.cpi pg lp)
    stored_view pg =
        ground (arith, view-write_lp k ctx c.lpn c.lpn (store_page c.cpi pg) (λ x. refl), e)

    fault_alone_locked :
        (n : ℕ)
        → c.handler ≡ page_fault
        → run_alone k (suc (suc n)) m (fault_locked k m ctx pool c lp)
          ≡ result_of c (fault_in_lp k ctx pool lp c.lpn c.cpi m.page)
    fault_alone_locked n t = elim (Option-cases (get_or lp.cp c.cpi none)) [
      | inr (pg, q) ↦
          rw
            (
              fault_locked_kept k m ctx pool c lp pg q,
              fault_in_lp_kept k ctx pool lp c.lpn c.cpi m.page q,
            )
            (alone_decided n m ctx _ c (some pg) lp e ∙ count_install ctx pool pg t)
      | inl q ↦ elim (Option-cases m.page) [
        | inl p ↦ rw (fault_locked_dry k m ctx pool c lp q p) (
            alone_refused (suc n) m ctx pool c lp e
            ∙ ap (result_of c) (sym (rw p (fault_in_lp_dry k ctx pool lp c.lpn c.cpi q))))
        | inr (pg, p) ↦ rw (fault_locked_new k m ctx pool c lp pg q p) (
            alone_decided n m _ _ c (some pg) (store_page c.cpi pg lp) (stored_view pg)
            ∙ count_install _ _ pg t
            ∙ ap (result_of c) (sym (rw p (fault_in_lp_new k ctx pool lp c.lpn c.cpi pg q))))
      ]
    ]

    pub fault_alone_holding :
        (n : ℕ)
        → c.handler ≡ page_fault
        → run_alone k
            (suc (suc (suc n)))
            m
            (record { ctx = ctx; pool = pool; phase = holding c lp.addr })
          ≡ result_of c (fault_in_lp k ctx pool lp c.lpn c.cpi m.page)
    unfolding run_alone
    fault_alone_holding n t =
        rw (advance_fault k m ctx pool c lp.addr lp (deref-view ctx c.lpn lp e) t)
          (fault_alone_locked n t)

    dirty_view : view k (write_lp k ctx c.lpn (mark_dirty c.cpi)) c.lpn ≡ some (mark_dirty c.cpi lp)
    dirty_view = ground (arith, view-write_lp k ctx c.lpn c.lpn (mark_dirty c.cpi) (λ x. refl), e)

    pub mkwrite_alone_holding :
        (n : ℕ)
        → c.handler ≡ write_fault
        → run_alone k
            (suc (suc (suc n)))
            m
            (record { ctx = ctx; pool = pool; phase = holding c lp.addr })
          ≡ record {
            ctx = record (write_lp k (write_lp k ctx c.lpn (mark_dirty c.cpi)) c.lpn put_ref) {
              total_mkwrite = inc64 ctx.total_mkwrite;
            };
            pool = pool;
            phase = returned c (locked none);
          }
    unfolding run_alone mkwrite_locked
    mkwrite_alone_holding n t =
        rw (advance_mkwrite k m ctx pool c lp.addr lp (deref-view ctx c.lpn lp e) t) (
          alone_decided n m (write_lp k ctx c.lpn (mark_dirty c.cpi)) pool c none
            (mark_dirty c.cpi lp) dirty_view
          ∙ (unfold write_lp set_head in ground (arith, t)))
