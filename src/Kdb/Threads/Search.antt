-- ===== src/Kdb/Threads/Search.antt =====
-- The first critical section of a handler of src/vma.c keeps the invariant.
use kvm_db.Prelude.{
  ℕ, ◌≤◌, ◌<◌, ◌≡◌, refl, inl, inr, none, some, length, leb, arith, Bool-cases, Option-cases,
}
use kvm_db.Prelude.Word.{u32, inc32}
use kvm_db.Kdb.Pool.{Pool}
use kvm_db.Kdb.Context.{LpState, VmaCtx, HashFn, get_ref, search_locked}
use kvm_db.Kdb.Context.View.{view, view-search_locked, search_locked_hit}
use kvm_db.Kdb.Fault.{sigbus}
use kvm_db.Kdb.Fault.Wf.{Fits, shape-search_locked}
use kvm_db.Kdb.Fault.Step.{Changed}
use kvm_db.Kdb.Threads.{
  Call, entry, missed, holding, returned, System, phase_of, put_back, after_miss, search_step,
  handler_cases,
}
use kvm_db.Kdb.Threads.Count.{holds, holders, holders-set}
use kvm_db.Kdb.Threads.Inv.{Inv}
use kvm_db.Kdb.Threads.Keep.{Changed-Grows, moved-Inv, Changed-Inv}

module _ (k : HashFn) where
  search-Changed :
      (ctx : VmaCtx) (lpn r : ℕ) (lp : LpState)
      → view k ctx lpn ≡ some lp
      → Fits ctx.cp_per_lp r lp
      → Changed k ctx lpn (inc32 r) (get_ref lp) (search_locked k ctx lpn).1
  search-Changed ctx lpn r lp e f = record {
    fits = ground (arith, f);
    shape = shape-search_locked k ctx lpn;
    views = λ j. ground (arith, view-search_locked k ctx lpn j, e);
  }

  pub search_step_past :
      (ctx : VmaCtx) (pool : Pool) (c : Call)
      → ctx.n_lpn ≤ c.lpn
      → search_step k ctx pool c ≡ record { ctx = ctx; pool = pool; phase = returned c sigbus }
  unfolding search_step
  search_step_past ctx pool c h = ground arith

  pub search_step_miss :
      (ctx : VmaCtx) (pool : Pool) (c : Call)
      → c.lpn < ctx.n_lpn
      → view k ctx c.lpn ≡ none
      → search_step k ctx pool c ≡ record { ctx = ctx; pool = pool; phase = after_miss c }
  unfolding search_step
  search_step_miss ctx pool c h e = ground (arith, search_locked_hit k ctx c.lpn)

  pub search_step_hit :
      (ctx : VmaCtx) (pool : Pool) (c : Call) (lp : LpState)
      → c.lpn < ctx.n_lpn
      → view k ctx c.lpn ≡ some lp
      → search_step k ctx pool c
        ≡ record { ctx = (search_locked k ctx c.lpn).1; pool = pool; phase = holding c lp.addr }
  unfolding search_step
  search_step_hit ctx pool c lp h e = ground (arith, search_locked_hit k ctx c.lpn)

  module _ {s : System} (v : Inv k s) (i : ℕ) (c : Call) (h : i < length s.threads) where
    missed-Inv :
        phase_of s.threads i ≡ entry c
        → c.cpi < s.ctx.cp_per_lp
        → c.lpn < s.ctx.n_lpn
        → Inv k (put_back s i (record { ctx = s.ctx; pool = s.pool; phase = after_miss c }))
    missed-Inv now inside below = elim (handler_cases c.handler) [
      | inl e ↦
          let q : after_miss c ≡ missed c = ground (arith, e) in
          rw q (moved-Inv k v i h s.pool (missed c) (λ j. rw now refl) (inside, below))
      | inr e ↦
          let q : after_miss c ≡ returned c sigbus = ground (arith, e) in
          rw q (moved-Inv k v i h s.pool (returned c sigbus) (λ j. rw now refl) tt)
    ]

    -- A reference is taken.
    pub hit-Inv :
        (lp : LpState)
        → view k s.ctx c.lpn ≡ some lp
        → c.lpn < s.ctx.n_lpn
        → c.cpi < s.ctx.cp_per_lp
        → ((j : ℕ) → holds j (phase_of s.threads i) ≡ 0)
        → Inv k (
            put_back s i (record {
              ctx = (search_locked k s.ctx c.lpn).1;
              pool = s.pool;
              phase = holding c lp.addr;
            }))
    hit-Inv lp e below inside none_held =
        let ch =
          search-Changed s.ctx c.lpn (u32 (holders c.lpn s.threads)) lp e (v.states c.lpn lp e) in
        let p = holding c lp.addr in
        Changed-Inv k v i h s.pool p ch below
          (ground (arith, none_held c.lpn, holders-set c.lpn s.threads i p h))
          (λ j t. ground (arith, none_held j, t))
          (Changed-Grows k ch (λ a q. ground (arith, e, q)) (λ x pg q. ground (arith, e, q))
            (λ x q. ground (arith, e, q)))
          (ground (arith, ch.shape, inside), ground (arith, ch.views c.lpn))

    pub search_step-Inv :
        phase_of s.threads i ≡ entry c → Inv k (put_back s i (search_step k s.ctx s.pool c))
    search_step-Inv now =
        let inside : c.cpi < s.ctx.cp_per_lp = rw now at (v.good i) in
        elim (Bool-cases (leb s.ctx.n_lpn c.lpn)) [
          | inl past ↦
              rw (search_step_past s.ctx s.pool c (ground (arith, past)))
                (moved-Inv k v i h s.pool (returned c sigbus) (λ j. rw now refl) tt)
          | inr within ↦
              let below : c.lpn < s.ctx.n_lpn = ground (arith, within) in
              elim (Option-cases (view k s.ctx c.lpn)) [
                | inl e ↦ rw (search_step_miss s.ctx s.pool c below e) (missed-Inv now inside below)
                | inr (lp, e) ↦
                    rw (search_step_hit s.ctx s.pool c lp below e)
                      (hit-Inv lp e below inside (λ j. rw now refl))
              ]
        ]
