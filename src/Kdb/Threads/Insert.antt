-- ===== src/Kdb/Threads/Insert.antt =====
-- The second critical section of `lp_get_or_create`, src/lp_state.c, keeps the invariant.
use kvm_db.Prelude.{ℕ, ◌<◌, ◌≡◌, refl, inl, inr, none, some, length, arith, Option-cases}
use kvm_db.Kdb.Pool.{Pool}
use kvm_db.Kdb.Context.{LpState, VmaCtx, HashFn, get_ref, search_locked, insert_locked, new_lp}
use kvm_db.Kdb.Context.View.{view, search_locked_hit}
use kvm_db.Kdb.Fault.{oom}
use kvm_db.Kdb.Context.View.{InTable, view-insert_locked}
use kvm_db.Kdb.Fault.Wf.{new_lp-Fits, shape-insert_locked, Fits}
use kvm_db.Kdb.Fault.Step.{Changed}
use kvm_db.Kdb.Threads.{
  Call, Phase, entry, missed, holding, decided, counting, returned, System, phase_of, Memory,
  put_back, insert_step,
}
use kvm_db.Kdb.Threads.Search.{hit-Inv}
use kvm_db.Kdb.Threads.Count.{holds, holders, holders-set, holders-none}
use kvm_db.Kdb.Threads.Inv.{Good, Inv, Inv-InTable}
use kvm_db.Kdb.Threads.Keep.{Changed-Grows, moved-Inv, Changed-Inv}

module _ (k : HashFn) where
  pub insert_step-none :
      (m : Memory) (ctx : VmaCtx) (pool : Pool) (c : Call)
      → new_lp ctx c.lpn m.state ≡ none
      → insert_step k m ctx pool c ≡ record { ctx = ctx; pool = pool; phase = returned c oom }
  unfolding insert_step
  insert_step-none m ctx pool c e = ground (arith, e)

  pub insert_step-some :
      (m : Memory) (ctx : VmaCtx) (pool : Pool) (c : Call) (lp : LpState)
      → new_lp ctx c.lpn m.state ≡ some lp
      → insert_step k m ctx pool c ≡ record {
        ctx = (insert_locked k ctx lp).1;
        pool = pool;
        phase = holding c (insert_locked k ctx lp).0.addr;
      }
  unfolding insert_step
  insert_step-some m ctx pool c lp e = ground (arith, e)

  module _ (ctx : VmaCtx) (lpn : ℕ) (lp : LpState) (key : lp.lpn ≡ lpn) where
    insert_locked_found :
        (old : LpState)
        → view k ctx lpn ≡ some old
        → insert_locked k ctx lp ≡ (get_ref old, (search_locked k ctx lpn).1)
    unfolding insert_locked
    insert_locked_found old e = ground (arith, e, key, search_locked_hit k ctx lpn)

    insert_locked_made : view k ctx lpn ≡ none → (insert_locked k ctx lp).0 ≡ lp
    unfolding insert_locked
    insert_locked_made e = ground (arith, e, key, search_locked_hit k ctx lpn)

    insert-Changed :
        InTable k ctx lpn
        → view k ctx lpn ≡ none
        → Fits ctx.cp_per_lp 1 lp
        → Changed k ctx lpn 1 lp (insert_locked k ctx lp).1
    insert-Changed t e f = record {
      fits = f;
      shape = shape-insert_locked k ctx lp;
      views =
          λ j. ground (arith, key, view-insert_locked k ctx lp j (rw key t), insert_locked_made e);
    }

  -- A thread that holds a state finds it in the table.
  holds-view :
      {s : System}
      → Inv k s
      → (j i : ℕ) → view k s.ctx j ≡ none
      → holds j (phase_of s.threads i) ≡ 0
  holds-view {s} v j i e = go (phase_of s.threads i) (v.good i)
    where
      go : (p : Phase) → Good k s.ctx p → holds j p ≡ 0
      go Phase.idle g = refl
      go (entry c) g = refl
      go (missed c) g = refl
      go (holding c addr) g = ground (arith, e, g)
      go (decided c r addr) g = ground (arith, e, g.0)
      go (counting c r) g = refl
      go (returned c r) g = refl

  module _ {s : System} (v : Inv k s) (i : ℕ) (c : Call) (h : i < length s.threads) where
    -- The state is put into the table.
    made-Inv :
        (lp : LpState)
        → phase_of s.threads i ≡ missed c
        → lp.lpn ≡ c.lpn
        → view k s.ctx c.lpn ≡ none
        → Fits s.ctx.cp_per_lp 1 lp
        → c.lpn < s.ctx.n_lpn
        → c.cpi < s.ctx.cp_per_lp
        → Inv k (
            put_back s i (record {
              ctx = (insert_locked k s.ctx lp).1;
              pool = s.pool;
              phase = holding c lp.addr;
            }))
    made-Inv lp now key e fits below inside =
        let ch = insert-Changed s.ctx c.lpn lp key (Inv-InTable k c.lpn v) e fits in
        let p = holding c lp.addr in
        let alone : holders c.lpn s.threads ≡ 0 =
          holders-none c.lpn s.threads (λ x. holds-view v c.lpn x e) in
        Changed-Inv k v i h s.pool p ch below
          (ground (arith, alone, now, holders-set c.lpn s.threads i p h))
          (λ j t. ground (arith, now, t))
          (Changed-Grows k ch (λ a q. ground (arith, e, q)) (λ x pg q. ground (arith, e, q))
            (λ x q. ground (arith, e, q)))
          (ground (arith, ch.shape, inside), ground (arith, ch.views c.lpn))

    new-Inv :
        (lp : LpState)
        → phase_of s.threads i ≡ missed c
        → lp.lpn ≡ c.lpn
        → Fits s.ctx.cp_per_lp 1 lp
        → Inv k (
            put_back s i (record {
              ctx = (insert_locked k s.ctx lp).1;
              pool = s.pool;
              phase = holding c (insert_locked k s.ctx lp).0.addr;
            }))
    new-Inv lp now key fits =
        let known : Good k s.ctx (missed c) = rw now at (v.good i) in
        elim (Option-cases (view k s.ctx c.lpn)) [
          | inl e ↦
              rw (insert_locked_made s.ctx c.lpn lp key e)
                (made-Inv lp now key e fits known.1 known.0)
          | inr (old, e) ↦
              rw (insert_locked_found s.ctx c.lpn lp key old e)
                (hit-Inv k v i c h old e known.1 known.0 (λ j. rw now refl))
        ]

    pub insert_step-Inv :
        (m : Memory)
        → phase_of s.threads i ≡ missed c
        → Inv k (put_back s i (insert_step k m s.ctx s.pool c))
    insert_step-Inv m now = elim (Option-cases (new_lp s.ctx c.lpn m.state)) [
      | inl e ↦
          rw (insert_step-none m s.ctx s.pool c e)
            (moved-Inv k v i h s.pool (returned c oom) (λ j. rw now refl) tt)
      | inr (lp, e) ↦
          let (key, fits, _, _) = new_lp-Fits k s.ctx c.lpn m.state {lp = lp} e in
          rw (insert_step-some m s.ctx s.pool c lp e) (new-Inv lp now key fits)
    ]
