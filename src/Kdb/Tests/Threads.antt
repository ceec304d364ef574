-- ===== src/Kdb/Tests/Threads.antt =====
-- A run of two faults and a write fault at once, for one offset.
use kvm_db.Prelude.{
  ℕ, zero, suc, ◌<◌, ◌≤◌, ◌≡◌, refl, ap, false, none, some, List, [], ◌∷◌, arith, length, replicate,
  get_or, map,
}
use kvm_db.Prelude.Word.{u32}
use kvm_db.Kdb.Pool.{cp_pool_alloc}
use kvm_db.Kdb.Context.{
  LpState, new_lp, search_locked, insert_locked, set_head, write_lp, head, find_lp, update_lp,
  bitmap_bits,
}
use kvm_db.Kdb.Context.View.{view}
use kvm_db.Kdb.Fault.{VmFault, locked, kdb_fault, kdb_page_mkwrite}
use kvm_db.Kdb.Fault.Wf.{IsWf}
use kvm_db.Kdb.Threads.{
  Handler, page_fault, write_fault, Phase, Memory, System, returned, entry, call_of, phase_of,
  starting, run, step, advance, deref, search_step, insert_step, fault_locked, mkwrite_locked,
  run_alone,
}
use kvm_db.Kdb.Threads.Count.{holders}
use kvm_db.Kdb.Threads.Safe.{Answered, Agree, IsBack, same_page, refcount_lem, quiet-IsWf}
use kvm_db.Kdb.Threads.Finish.{turns, calls_end}
use kvm_db.Kdb.Threads.OneWrite.{alone_lem}
use kvm_db.Kdb.Tests.{low_bits, memory, pool, fresh_ctx, fresh-IsWf}

abbrev calls : List (Handler × ℕ)
calls = (page_fault, 5) ∷ (page_fault, 5) ∷ (write_fault, 5) ∷ []

abbrev given : Memory
given = record { state = memory; page = some 77 }

abbrev other : Memory
other = record { state = memory; page = some 78 }

-- Both faults miss; the second finds the state of the first, and its page.
abbrev crossed : List (ℕ × Memory)
crossed =
    (0, given) ∷ (1, other) ∷ (0, given) ∷ (1, other) ∷ (0, given) ∷ (2, other) ∷ (1, other) ∷ []

abbrev schedule : List (ℕ × Memory)
schedule =
    (0, given)
    ∷ (1, other)
    ∷ (0, given)
    ∷ (1, other)
    ∷ (0, given)
    ∷ (2, other)
    ∷ (1, other)
    ∷ (2, other)
    ∷ (0, given)
    ∷ (1, other)
    ∷ (2, other)
    ∷ (0, given)
    ∷ (1, other)
    ∷ (2, other)
    ∷ (2, other)
    ∷ []

abbrev after : System
after = run low_bits schedule (starting fresh_ctx pool calls)

abbrev back : List Phase
back =
    returned (call_of fresh_ctx page_fault 5) (locked (some 77))
    ∷ returned (call_of fresh_ctx page_fault 5) (locked (some 77))
    ∷ returned (call_of fresh_ctx write_fault 5) (locked none)
    ∷ []

all_back : after.threads ≡ back
unfolding run step advance deref search_step insert_step fault_locked mkwrite_locked new_lp
    search_locked insert_locked write_lp set_head head find_lp update_lp view cp_pool_alloc
    replicate
all_back = refl

same_page_example :
    Answered low_bits after.ctx 5 (locked (some 77))
    × Answered low_bits after.ctx 5 (locked (some 77))
    × Agree (locked (some 77)) (locked (some 77))
same_page_example =
    same_page low_bits fresh-IsWf pool calls schedule 0 1 5 page_fault page_fault (locked (some 77))
      (locked (some 77)) (ap (λ (x : List Phase). phase_of x 0) all_back)
      (ap (λ (x : List Phase). phase_of x 1) all_back)

back-IsBack : (i : ℕ) → IsBack (phase_of back i)
back-IsBack zero = tt
back-IsBack (suc zero) = tt
back-IsBack (suc (suc zero)) = tt
back-IsBack (suc (suc (suc i))) = tt

quiet-IsWf_example : IsWf low_bits after.ctx
quiet-IsWf_example =
    quiet-IsWf low_bits fresh-IsWf pool calls schedule (λ i. rw all_back (back-IsBack i))

abbrev shared : LpState
shared = record {
  addr = 100;
  lpn = 1;
  cp_per_lp = 4;
  cp = none ∷ some 77 ∷ none ∷ none ∷ [];
  dirty_bitmap = replicate 64 false;
  refcount = 3;
}

abbrev crossing : System
crossing = run low_bits crossed (starting fresh_ctx pool calls)

three_hold : view low_bits crossing.ctx 1 ≡ some shared
unfolding run step advance deref search_step insert_step fault_locked mkwrite_locked new_lp
    search_locked insert_locked write_lp set_head head find_lp update_lp view cp_pool_alloc
    replicate
three_hold = refl

refcount_lem_example :
    (3 ≡ u32 (holders 1 crossing.threads))
    × (◌≡◌ {A = ℕ} 4 4)
    × (length shared.dirty_bitmap ≡ bitmap_bits 4)
refcount_lem_example = refcount_lem low_bits fresh-IsWf pool calls crossed 1 shared three_hold

alone_lem_example :
    (run_alone low_bits 5 given
        (record { ctx = fresh_ctx; pool = pool; phase = entry (call_of fresh_ctx page_fault 5) })
      ≡ (let (r, after, pool') = kdb_fault low_bits fresh_ctx pool 5 memory (some 77) in
          record {
            ctx = after;
            pool = pool';
            phase = returned (call_of fresh_ctx page_fault 5) r;
          }))
    × (run_alone low_bits 5 given
          (record { ctx = fresh_ctx; pool = pool; phase = entry (call_of fresh_ctx write_fault 5) })
        ≡ (let (r, after) = kdb_page_mkwrite low_bits fresh_ctx 5 in
            record {
              ctx = after;
              pool = pool;
              phase = returned (call_of fresh_ctx write_fault 5) r;
            }))
alone_lem_example = alone_lem low_bits fresh-IsWf pool given 5

enough_turns : (i : ℕ) → i < length calls → 5 ≤ turns low_bits i schedule
enough_turns zero h = omega arith
enough_turns (suc zero) h = omega arith
enough_turns (suc (suc zero)) h = omega arith
enough_turns (suc (suc (suc i))) h = absurd (omega (arith, h))

calls_end_example :
    IsWf low_bits after.ctx
    × ((i q : ℕ) (h : Handler)
        → get_or (map some calls) i none ≡ some (h, q)
        → (r : VmFault) × (phase_of after.threads i ≡ returned (call_of fresh_ctx h q) r)
          × Answered low_bits after.ctx q r)
calls_end_example = calls_end low_bits fresh-IsWf pool calls schedule enough_turns
