-- ===== src/Kdb/Threads.antt =====
-- Both fault handlers of src/vma.c run by several threads at once: a step is one critical section,
-- under `hash_lock` of src/lp_state.c or under the lock of a state, or one atomic operation after them;
-- the allocations and `total_lp_created` go with the second section under `hash_lock`.
pub mod Inv
pub mod Count
pub mod Keep
pub mod Search
pub mod Insert
pub mod Locked
pub mod Put
pub mod Shape
pub mod Safe
pub mod Alone
pub mod OnePiece
pub mod OneWrite
pub mod Finish
use kvm_db.Prelude.{
  ℕ, zero, suc, ◌≡◌, refl, ◌⊎◌, inl, inr, Option, none, some, List, [], ◌∷◌, ◌==◌, leb,
  if◌then◌else◌, get_or, set,
}
use kvm_db.Prelude.Word.{inc64}
use kvm_db.Kdb.Pool.{get_page, Pool, cp_pool_alloc}
use kvm_db.Kdb.Context.{
  LpState, VmaCtx, HashFn, LpAlloc, put_ref, new_lp, write_lp, search_locked, insert_locked,
}
use kvm_db.Kdb.Context.View.{view}
use kvm_db.Kdb.Fault.{VmFault, locked, sigbus, oom, oops, lpn_of, cpi_of, store_page, mark_dirty}

-- `kdb_fault` and `kdb_page_mkwrite`
pub data Handler : Type 0 where
  page_fault write_fault : Handler

pub handler_cases : (x : Handler) → (x ≡ page_fault) ⊎ (x ≡ write_fault)
handler_cases Handler.page_fault = inl refl
handler_cases Handler.write_fault = inr refl

-- A handler's call, with the page number and the index that it computes first.
pub record Call : Type 0 where
  pub handler : Handler
  pub lpn : ℕ
  pub cpi : ℕ

abbrev pub call_of : VmaCtx → Handler → ℕ → Call
call_of ctx h pgoff = record { handler = h; lpn = lpn_of ctx pgoff; cpi = cpi_of ctx pgoff }

-- Where a thread stands: in no handler; at the entry; after a miss; with the address of its state, on
-- which it holds a reference; with its answer, but still holding the reference; before its statistics;
-- back.
pub data Phase : Type 0 where
  idle : Phase
  entry : Call → Phase
  missed : Call → Phase
  holding : Call → ℕ → Phase
  decided : Call → VmFault → ℕ → Phase
  counting : Call → VmFault → Phase
  returned : Call → VmFault → Phase

-- What the allocators give to a step.
pub record Memory : Type 0 where
  pub state : LpAlloc
  pub page : Option ℕ

pub record Local : Type 0 where
  pub ctx : VmaCtx
  pub pool : Pool
  pub phase : Phase

abbrev pub after_miss : Call → Phase
after_miss c = elim c.handler [ page_fault ↦ missed c | write_fault ↦ returned c sigbus ]

-- After `lp_put` only a success is counted.
abbrev pub after_put : Call → VmFault → Phase
after_put c (locked page) = counting c (locked page)
after_put c VmFault.sigbus = returned c sigbus
after_put c VmFault.oom = returned c oom
after_put c VmFault.oops = returned c oops

-- `total_faults` or `total_mkwrite`
abbrev pub count_call : Handler → VmaCtx → VmaCtx
count_call Handler.page_fault ctx = record ctx { total_faults = inc64 ctx.total_faults }
count_call Handler.write_fault ctx = record ctx { total_mkwrite = inc64 ctx.total_mkwrite }

module _ (k : HashFn) where
  -- What is read through a pointer to a state: none where no state of the page number has that
  -- address.
  unfoldable pub deref : VmaCtx → ℕ → ℕ → Option LpState
  deref ctx lpn addr = elim (view k ctx lpn) [
    | none ↦ none
    | some lp ↦ if lp.addr == addr then some lp else none
  ]

  -- `hash_lock`, the first time.
  unfoldable pub search_step : VmaCtx → Pool → Call → Local
  unfolding search_locked
  search_step ctx pool c =
      if leb ctx.n_lpn c.lpn
      then record { ctx = ctx; pool = pool; phase = returned c sigbus }
      else let (hit, found) = search_locked k ctx c.lpn in
        elim hit [
          | none ↦ record { ctx = ctx; pool = pool; phase = after_miss c }
          | some lp ↦ record { ctx = found; pool = pool; phase = holding c lp.addr }
        ]

  -- The allocations, and `hash_lock` the second time.
  unfoldable pub insert_step : Memory → VmaCtx → Pool → Call → Local
  unfolding new_lp insert_locked
  insert_step m ctx pool c = elim (new_lp ctx c.lpn m.state) [
    | none ↦ record { ctx = ctx; pool = pool; phase = returned c oom }
    | some lp ↦
        let (kept, made) = insert_locked k ctx lp in
        record { ctx = made; pool = pool; phase = holding c kept.addr }
  ]

  -- Under the lock of the state `lp`: a fault finds its page or allocates one.
  unfoldable pub fault_locked : Memory → VmaCtx → Pool → Call → LpState → Local
  unfolding cp_pool_alloc
  fault_locked m ctx pool c lp = elim (get_or lp.cp c.cpi none) [
    | some pg ↦ record {
      ctx = ctx;
      pool = record pool { calls = get_page pg ∷ pool.calls };
      phase = decided c (locked (some pg)) lp.addr;
    }
    | none ↦
        let (fresh, pool') = cp_pool_alloc m.page pool in
        elim fresh [
          | none ↦ record { ctx = ctx; pool = pool'; phase = decided c oom lp.addr }
          | some pg ↦ record {
            ctx = write_lp k ctx c.lpn (store_page c.cpi pg);
            pool = record pool' { calls = get_page pg ∷ pool'.calls };
            phase = decided c (locked (some pg)) lp.addr;
          }
        ]
  ]

  -- Under the lock of the state `lp`: a write fault sets the dirty bit.
  unfoldable pub mkwrite_locked : VmaCtx → Pool → Call → LpState → Local
  mkwrite_locked ctx pool c lp = record {
    ctx = write_lp k ctx c.lpn (mark_dirty c.cpi);
    pool = pool;
    phase = decided c (locked none) lp.addr;
  }

  -- One step of one thread; a thread that is idle or back stays so.
  unfoldable pub advance : Memory → VmaCtx → Pool → Phase → Local
  unfolding deref search_step insert_step fault_locked mkwrite_locked
  advance m ctx pool idle = record { ctx = ctx; pool = pool; phase = idle }
  advance m ctx pool (entry c) = search_step ctx pool c
  advance m ctx pool (missed c) = insert_step m ctx pool c
  advance m ctx pool (holding c addr) = elim (deref ctx c.lpn addr) [
    | none ↦ record { ctx = ctx; pool = pool; phase = returned c oops }
    | some lp ↦ elim c.handler [
      | page_fault ↦ fault_locked m ctx pool c lp
      | write_fault ↦ mkwrite_locked ctx pool c lp
    ]
  ]
  advance m ctx pool (decided c r addr) = elim (deref ctx c.lpn addr) [
    | none ↦ record { ctx = ctx; pool = pool; phase = returned c oops }
    | some lp ↦ record { ctx = write_lp k ctx c.lpn put_ref; pool = pool; phase = after_put c r }
  ]
  advance m ctx pool (counting c r) = record {
    ctx = count_call c.handler ctx;
    pool = pool;
    phase = returned c r;
  }
  advance m ctx pool (returned c r) = record { ctx = ctx; pool = pool; phase = returned c r }

-- A context with its pool, and the threads.
pub record System : Type 0 where
  pub ctx : VmaCtx
  pub pool : Pool
  pub threads : List Phase

abbrev pub phase_of : List Phase → ℕ → Phase
phase_of threads i = get_or threads i idle

-- The threads at the entry of their handlers, with the offsets that they are called for.
abbrev pub entered : VmaCtx → List (Handler × ℕ) → List Phase
entered ctx [] = []
entered ctx ((h, pgoff) ∷ calls) = entry (call_of ctx h pgoff) ∷ entered ctx calls

abbrev pub starting : VmaCtx → Pool → List (Handler × ℕ) → System
starting ctx pool calls = record { ctx = ctx; pool = pool; threads = entered ctx calls }

abbrev pub put_back : System → ℕ → Local → System
put_back s i l = record { ctx = l.ctx; pool = l.pool; threads = set s.threads i l.phase }

module _ (k : HashFn) where
  unfoldable pub step : System → ℕ → Memory → System
  step s i m = put_back s i (advance k m s.ctx s.pool (phase_of s.threads i))

  -- An interleaving: which thread runs next, and what its allocations give.
  unfoldable pub run : List (ℕ × Memory) → System → System
  run [] s = s
  run ((i, m) ∷ rest) s = run rest (step s i m)

  -- One handler with no other thread: as many of its steps as `n`.
  unfoldable pub run_alone : ℕ → Memory → Local → Local
  run_alone zero m l = l
  run_alone (suc n) m l = run_alone n m (advance k m l.ctx l.pool l.phase)
