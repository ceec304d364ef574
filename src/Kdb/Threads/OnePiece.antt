-- ===== src/Kdb/Threads/OnePiece.antt =====
-- The concurrent handlers of src/vma.c, run with no other thread, against the handlers in one piece.
use kvm_db.Prelude.{
  ◌∙◌, ap, ltb, ltb→lt, ltb→le, suc, ℕ, ◌≤◌, ◌<◌, ◌≡◌, refl, inl, inr, Option, none, some, arith,
  Bool-cases, Option-cases, sym,
}
use kvm_db.Kdb.Pool.{Pool}
use kvm_db.Kdb.Context.{
  lp_get_or_create, LpState, VmaCtx, HashFn, get_ref, search_locked, insert_locked, new_lp,
}
use kvm_db.Kdb.Context.View.{view, view-search_locked}
use kvm_db.Kdb.Fault.{lpn_of, cpi_of, fault_in_lp, kdb_fault, sigbus, oom}
use kvm_db.Kdb.Context.View.{view-insert_locked}
use kvm_db.Kdb.Fault.Wf.{new_lp-Fits, IsWf, wf-InTable, new_lp-Fits}
use kvm_db.Kdb.Fault.Got.{
  get_or_create_hit, get_or_create_fail, get_or_create_new, insert_locked_new,
}
use kvm_db.Kdb.Fault.Ways.{kdb_fault-at, fault_at_past, fault_at-none, fault_at-some}
use kvm_db.Kdb.Threads.{
  search_step, insert_step, Handler, page_fault, Call, entry, missed, Local, Memory, search_step,
  advance, run_alone, call_of,
}
use kvm_db.Kdb.Threads.Search.{search_step_past, search_step_miss, search_step_hit}
use kvm_db.Kdb.Threads.Insert.{insert_step-none, insert_step-some}
use kvm_db.Kdb.Threads.Alone.{result_of, alone_back, fault_alone_holding}

module _ (k : HashFn) where
  module _ {ctx : VmaCtx} (w : IsWf k ctx) (pool : Pool) (m : Memory) (q : ℕ) where
    abbrev pub lpn : ℕ
    lpn = lpn_of ctx q

    abbrev pub at_entry : Handler → Local
    at_entry h = record { ctx = ctx; pool = pool; phase = entry (call_of ctx h q) }

    pub hit_view :
        (old : LpState)
        → view k ctx lpn ≡ some old
        → view k (search_locked k ctx lpn).1 lpn ≡ some (get_ref old)
    hit_view old e = ground (arith, view-search_locked k ctx lpn lpn, e)

    made_view :
        (lp : LpState)
        → lp.lpn ≡ lpn
        → view k ctx lpn ≡ none
        → view k (insert_locked k ctx lp).1 lpn ≡ some lp
    made_view lp key e = ground (
      arith,
      key,
      view-insert_locked k ctx lp lpn (rw key (wf-InTable k lpn w)),
      insert_locked_new k ctx lpn lp key e,
    )

    pub alone_entry :
        (n : ℕ) (h : Handler)
        → run_alone k (suc n) m (at_entry h)
          ≡ run_alone k n m (search_step k ctx pool (call_of ctx h q))
    unfolding run_alone advance
    alone_entry n h = refl

    alone_missed :
        (n : ℕ) (c : Call)
        → run_alone k (suc n) m (record { ctx = ctx; pool = pool; phase = missed c })
          ≡ run_alone k n m (insert_step k m ctx pool c)
    unfolding run_alone advance
    alone_missed n c = refl

    -- The handler in one piece, on the state that it finds or makes.
    fault_got :
        (lp : LpState) (mid : VmaCtx)
        → lpn < ctx.n_lpn
        → lp_get_or_create k ctx lpn m.state ≡ (some lp, mid)
        → kdb_fault k ctx pool q m.state m.page
          ≡ fault_in_lp k mid pool lp lpn (cpi_of ctx q) m.page
    fault_got lp mid h g =
        kdb_fault-at k pool q m.state m.page w
        ∙ fault_at-some k ctx pool lpn (cpi_of ctx q) m.state m.page h
            (ap (λ (x : Option LpState × VmaCtx). x.0) g)
        ∙ ap (λ (x : Option LpState × VmaCtx). fault_in_lp k x.1 pool lp lpn (cpi_of ctx q) m.page)
            g

    fault_starved :
        lpn < ctx.n_lpn
        → lp_get_or_create k ctx lpn m.state ≡ (none, ctx)
        → kdb_fault k ctx pool q m.state m.page ≡ (oom, ctx, pool)
    fault_starved h g =
        kdb_fault-at k pool q m.state m.page w
        ∙ fault_at-none k ctx pool lpn (cpi_of ctx q) m.state m.page h
            (ap (λ (x : Option LpState × VmaCtx). x.0) g)
            (ap (λ (x : Option LpState × VmaCtx). x.1) g)

    abbrev fault : Call
    fault = call_of ctx page_fault q

    -- After a miss.
    fault_alone_missed :
        lpn < ctx.n_lpn
        → view k ctx lpn ≡ none
        → run_alone k 4 m (record { ctx = ctx; pool = pool; phase = missed fault })
          ≡ result_of fault (kdb_fault k ctx pool q m.state m.page)
    fault_alone_missed h e = alone_missed 3 fault ∙ elim (Option-cases (new_lp ctx lpn m.state)) [
      | inl n ↦
          ap (run_alone k 3 m) (insert_step-none k m ctx pool fault n)
          ∙ alone_back k 3 m ctx pool fault oom
          ∙ ap (result_of fault)
              (sym (fault_starved h (get_or_create_fail k ctx lpn m.state h e n)))
      | inr (lp, n) ↦
          let key = (new_lp-Fits k ctx lpn m.state {lp = lp} n).0 in
          let mid = (insert_locked k ctx lp).1 in
          ap (run_alone k 3 m) (
            insert_step-some k m ctx pool fault lp n
            ∙ rw (insert_locked_new k ctx lpn lp key e) refl)
          ∙ fault_alone_holding k m mid pool fault lp (made_view lp key e) 0 refl
          ∙ ap (result_of fault)
              (sym (fault_got lp mid h (get_or_create_new k ctx lpn m.state h e n key)))
    ]

    fault_alone_hit :
        (old : LpState)
        → lpn < ctx.n_lpn
        → view k ctx lpn ≡ some old
        → run_alone k 5 m (at_entry page_fault)
          ≡ result_of fault (kdb_fault k ctx pool q m.state m.page)
    fault_alone_hit old h e =
        let mid = (search_locked k ctx lpn).1 in
        alone_entry 4 page_fault
        ∙ ap (run_alone k 4 m) (search_step_hit k ctx pool fault old h e)
        ∙ fault_alone_holding k m mid pool fault (get_ref old) (hit_view old e) 1 refl
        ∙ ap (result_of fault)
            (sym (fault_got (get_ref old) mid h (get_or_create_hit k ctx lpn m.state h e)))

    -- A fault that runs with no other thread.
    pub fault_alone :
        run_alone k 5 m (at_entry page_fault)
        ≡ result_of (call_of ctx page_fault q) (kdb_fault k ctx pool q m.state m.page)
    fault_alone = elim (Bool-cases (ltb lpn ctx.n_lpn)) [
      | inr beyond ↦
          let h : ctx.n_lpn ≤ lpn = ltb→le lpn ctx.n_lpn beyond in
          alone_entry 4 page_fault
          ∙ ap (run_alone k 4 m) (search_step_past k ctx pool fault h)
          ∙ alone_back k 4 m ctx pool fault sigbus
          ∙ ap (result_of fault) (
              sym (
                kdb_fault-at k pool q m.state m.page w
                ∙ fault_at_past k ctx pool lpn (cpi_of ctx q) m.state m.page h))
      | inl within ↦
          let h : lpn < ctx.n_lpn = ltb→lt lpn ctx.n_lpn within in
          elim (Option-cases (view k ctx lpn)) [
            | inr (old, e) ↦ fault_alone_hit old h e
            | inl e ↦
                alone_entry 4 page_fault
                ∙ ap (run_alone k 4 m) (search_step_miss k ctx pool fault h e)
                ∙ fault_alone_missed h e
          ]
    ]
