-- ===== src/Kdb/Threads/OneWrite.antt =====
-- A write fault of src/vma.c that runs with no other thread, and both handlers together.
use kvm_db.Prelude.{
  ◌∙◌, ap, ltb, ltb→lt, ltb→le, ℕ, ◌≤◌, ◌<◌, ◌≡◌, refl, inl, inr, some, Bool-cases, Option-cases,
  sym,
}
use kvm_db.Kdb.Pool.{Pool}
use kvm_db.Kdb.Context.{LpState, VmaCtx, HashFn, get_ref, search_locked}
use kvm_db.Kdb.Context.View.{view}
use kvm_db.Kdb.Fault.{lpn_of, cpi_of, kdb_fault, kdb_page_mkwrite, VmFault, sigbus}
use kvm_db.Kdb.Fault.Wf.{IsWf}
use kvm_db.Kdb.Fault.Dirty.{mkwrite-at, mkwrite_at_past, mkwrite_at_miss, mkwrite_at_hit}
use kvm_db.Kdb.Threads.{
  page_fault, write_fault, Call, entry, returned, Local, Memory, run_alone, call_of,
}
use kvm_db.Kdb.Threads.Search.{search_step_past, search_step_miss, search_step_hit}
use kvm_db.Kdb.Threads.Alone.{alone_back, mkwrite_alone_holding}
use kvm_db.Kdb.Threads.OnePiece.{at_entry, hit_view, alone_entry, fault_alone}

module _ (k : HashFn) where
  module _ {ctx : VmaCtx} (w : IsWf k ctx) (pool : Pool) (m : Memory) (q : ℕ) where
    abbrev write : Call
    write = call_of ctx write_fault q

    abbrev written : VmFault × VmaCtx → Local
    written (r, after) = record { ctx = after; pool = pool; phase = returned write r }

    mkwrite_alone_hit :
        (old : LpState)
        → lpn_of ctx q < ctx.n_lpn
        → view k ctx (lpn_of ctx q) ≡ some old
        → run_alone k 5 m (at_entry k w pool m q write_fault) ≡ written (kdb_page_mkwrite k ctx q)
    mkwrite_alone_hit old h e =
        let mid = (search_locked k ctx (lpn_of ctx q)).1 in
        alone_entry k w pool m q 4 write_fault
        ∙ ap (run_alone k 4 m) (search_step_hit k ctx pool write old h e)
        ∙ mkwrite_alone_holding k m mid pool write (get_ref old) (hit_view k w pool m q old e) 1
            refl
        ∙ ap written
            (sym (mkwrite-at k q w ∙ mkwrite_at_hit k ctx (lpn_of ctx q) (cpi_of ctx q) h e))

    mkwrite_alone :
        run_alone k 5 m (at_entry k w pool m q write_fault) ≡ written (kdb_page_mkwrite k ctx q)
    mkwrite_alone = elim (Bool-cases (ltb (lpn_of ctx q) ctx.n_lpn)) [
      | inr beyond ↦
          let h : ctx.n_lpn ≤ lpn_of ctx q = ltb→le (lpn_of ctx q) ctx.n_lpn beyond in
          alone_entry k w pool m q 4 write_fault
          ∙ ap (run_alone k 4 m) (search_step_past k ctx pool write h)
          ∙ alone_back k 4 m ctx pool write sigbus
          ∙ ap written
              (sym (mkwrite-at k q w ∙ mkwrite_at_past k ctx (lpn_of ctx q) (cpi_of ctx q) h))
      | inl within ↦
          let h : lpn_of ctx q < ctx.n_lpn = ltb→lt (lpn_of ctx q) ctx.n_lpn within in
          elim (Option-cases (view k ctx (lpn_of ctx q))) [
            | inr (old, e) ↦ mkwrite_alone_hit old h e
            | inl e ↦
                alone_entry k w pool m q 4 write_fault
                ∙ ap (run_alone k 4 m) (search_step_miss k ctx pool write h e)
                ∙ alone_back k 4 m ctx pool write sigbus
                ∙ ap written (
                    sym
                      (mkwrite-at k q w ∙ mkwrite_at_miss k ctx (lpn_of ctx q) (cpi_of ctx q) h e))
          ]
    ]

    -- On a well-formed context, a fault and a write fault that run with no other thread do what the
    -- handlers do in one piece: five critical sections and atomic operations are enough, and they
    -- leave the same context, the same pool and the same answer.
    pub alone_lem :
        (run_alone k 5 m
            (record { ctx = ctx; pool = pool; phase = entry (call_of ctx page_fault q) })
          ≡ (let (r, after, pool') = kdb_fault k ctx pool q m.state m.page in
              record { ctx = after; pool = pool'; phase = returned (call_of ctx page_fault q) r }))
        × (run_alone k 5 m
              (record { ctx = ctx; pool = pool; phase = entry (call_of ctx write_fault q) })
            ≡ (let (r, after) = kdb_page_mkwrite k ctx q in
                record {
                  ctx = after;
                  pool = pool;
                  phase = returned (call_of ctx write_fault q) r;
                }))
    alone_lem = (fault_alone k w pool m q, mkwrite_alone)
