-- ===== src/Kdb/Threads/Finish.antt =====
-- The handlers of src/vma.c, run at once, come to their ends.
use kvm_db.Prelude.{
  ℕ, zero, suc, ◌+◌, ◌-◌, ◌<◌, ◌≤◌, ◌≡◌, refl, ◌∙◌, inl, inr, Option, none, some, List, [], ◌∷◌,
  ◌==◌, if◌then◌else◌, get_or, get_or-set, map, length, ltb, Bool-cases, arith,
}
use kvm_db.Kdb.Pool.{Pool}
use kvm_db.Kdb.Context.{VmaCtx, HashFn}
use kvm_db.Kdb.Fault.{VmFault, locked}
use kvm_db.Kdb.Fault.Wf.{IsWf}
use kvm_db.Kdb.Threads.{
  Handler, call_of, entered, starting, Call, Phase, idle, entry, missed, holding, decided, counting,
  returned, Memory, System, phase_of, after_put, search_step, insert_step, fault_locked,
  mkwrite_locked, advance, step, run,
}
use kvm_db.Kdb.Threads.Count.{beyond-set}
use kvm_db.Kdb.Threads.Safe.{IsBack, Answered, answered, quiet-IsWf}

-- The steps that a thread has before it at most.
abbrev rank : Phase → ℕ
rank Phase.idle = 0
rank (entry c) = 5
rank (missed c) = 4
rank (holding c addr) = 3
rank (decided c r addr) = 2
rank (counting c r) = 1
rank (returned c r) = 0

rank-after_put : (c : Call) (r : VmFault) → rank (after_put c r) ≤ 1
rank-after_put c (locked page) = omega arith
rank-after_put c VmFault.sigbus = omega arith
rank-after_put c VmFault.oom = omega arith
rank-after_put c VmFault.oops = omega arith

-- The call that a thread serves.
abbrev carried : Phase → Option Call
carried Phase.idle = none
carried (entry c) = some c
carried (missed c) = some c
carried (holding c addr) = some c
carried (decided c r addr) = some c
carried (counting c r) = some c
carried (returned c r) = some c

carried-after_put : (c : Call) (r : VmFault) → carried (after_put c r) ≡ some c
carried-after_put c (locked page) = refl
carried-after_put c VmFault.sigbus = refl
carried-after_put c VmFault.oom = refl
carried-after_put c VmFault.oops = refl

back_of :
    (p : Phase) (c : Call) → IsBack p → carried p ≡ some c → (r : VmFault) × (p ≡ returned c r)
back_of Phase.idle c b e = absurd (ground (arith, e))
back_of (entry d) c b e = absurd b
back_of (missed d) c b e = absurd b
back_of (holding d addr) c b e = absurd b
back_of (decided d r addr) c b e = absurd b
back_of (counting d r) c b e = absurd b
back_of (returned d r) c b e = (r, ground (arith, e))

carried-entered :
    (ctx : VmaCtx) (calls : List (Handler × ℕ)) (i : ℕ) (h : Handler) (q : ℕ)
    → get_or (map some calls) i none ≡ some (h, q)
    → carried (phase_of (entered ctx calls) i) ≡ some (call_of ctx h q)
carried-entered ctx [] i h q e = absurd (ground (arith, e))
carried-entered ctx ((h', q') ∷ calls) zero h q e = ground (arith, e)
carried-entered ctx ((h', q') ∷ calls) (suc i) h q e = carried-entered ctx calls i h q e

rank-entered :
    (ctx : VmaCtx) (calls : List (Handler × ℕ)) (i : ℕ)
    → length calls ≤ i
    → rank (phase_of (entered ctx calls) i) ≡ 0
rank-entered ctx [] i h = refl
rank-entered ctx ((h', q') ∷ calls) zero h = absurd (omega (arith, h))
rank-entered ctx ((h', q') ∷ calls) (suc i) h = rank-entered ctx calls i (omega (arith, h))

module _ (k : HashFn) where
  rank-advance :
      (m : Memory) (ctx : VmaCtx) (pool : Pool) (p : Phase)
      → rank (advance k m ctx pool p).phase ≤ rank p - 1
  unfolding advance search_step insert_step fault_locked mkwrite_locked
  rank-advance m ctx pool Phase.idle = omega arith
  rank-advance m ctx pool (entry c) = ground arith
  rank-advance m ctx pool (missed c) = ground arith
  rank-advance m ctx pool (holding c addr) = ground arith
  rank-advance m ctx pool (decided c r addr) = ground (arith, rank-after_put c r)
  rank-advance m ctx pool (counting c r) = omega arith
  rank-advance m ctx pool (returned c r) = omega arith

  -- How often a thread runs.
  abbrev pub turns : ℕ → List (ℕ × Memory) → ℕ
  turns i [] = 0
  turns i ((j, m) ∷ rest) = (if j == i then 1 else 0) + turns i rest

  rank-step :
      (s : System) (i j : ℕ) (m : Memory)
      → rank (phase_of (step k s j m).threads i)
        ≤ rank (phase_of s.threads i) - (if j == i then 1 else 0)
  unfolding step
  rank-step s i j m =
      let p = (advance k m s.ctx s.pool (phase_of s.threads j)).phase in
      elim (beyond-set s.threads j p) [
        | inl h ↦ ground (
          arith,
          h,
          get_or-set s.threads j i p idle,
          rank-advance m s.ctx s.pool (phase_of s.threads j),
        )
        | inr (same, e) ↦ rw same (ground (arith, e))
      ]

  rank-run :
      (l : List (ℕ × Memory)) (s : System) (i : ℕ)
      → rank (phase_of (run k l s).threads i) ≤ rank (phase_of s.threads i) - turns i l
  unfolding run
  rank-run [] s i = omega arith
  rank-run ((j, m) ∷ rest) s i = omega (arith, rank-run rest (step k s j m) i, rank-step s i j m)

  rank-le : (p : Phase) → rank p ≤ 5
  rank-le p = ground arith

  rank-IsBack : (p : Phase) → rank p ≡ 0 → IsBack p
  rank-IsBack Phase.idle h = tt
  rank-IsBack (entry c) h = absurd (omega arith)
  rank-IsBack (missed c) h = absurd (omega arith)
  rank-IsBack (holding c addr) h = absurd (omega arith)
  rank-IsBack (decided c r addr) h = absurd (omega arith)
  rank-IsBack (counting c r) h = absurd (omega arith)
  rank-IsBack (returned c r) h = tt

  five_turns :
      (l : List (ℕ × Memory)) (s : System) (i : ℕ)
      → 5 ≤ turns i l
      → IsBack (phase_of (run k l s).threads i)
  five_turns l s i h =
      rank-IsBack (phase_of (run k l s).threads i)
        (omega (arith, rank-run l s i, rank-le (phase_of s.threads i)))

  carried-advance :
      (m : Memory) (ctx : VmaCtx) (pool : Pool) (p : Phase)
      → carried (advance k m ctx pool p).phase ≡ carried p
  unfolding advance search_step insert_step fault_locked mkwrite_locked
  carried-advance m ctx pool Phase.idle = refl
  carried-advance m ctx pool (entry c) = ground arith
  carried-advance m ctx pool (missed c) = ground arith
  carried-advance m ctx pool (holding c addr) = ground arith
  carried-advance m ctx pool (decided c r addr) = ground (arith, carried-after_put c r)
  carried-advance m ctx pool (counting c r) = refl
  carried-advance m ctx pool (returned c r) = refl

  carried-step :
      (s : System) (i j : ℕ) (m : Memory)
      → carried (phase_of (step k s j m).threads i) ≡ carried (phase_of s.threads i)
  unfolding step
  carried-step s i j m =
      let p = (advance k m s.ctx s.pool (phase_of s.threads j)).phase in
      elim (beyond-set s.threads j p) [
        | inl h ↦ ground (
          arith,
          h,
          get_or-set s.threads j i p idle,
          carried-advance m s.ctx s.pool (phase_of s.threads j),
        )
        | inr (same, e) ↦ rw same refl
      ]

  carried-run :
      (l : List (ℕ × Memory)) (s : System) (i : ℕ)
      → carried (phase_of (run k l s).threads i) ≡ carried (phase_of s.threads i)
  unfolding run
  carried-run [] s i = refl
  carried-run ((j, m) ∷ rest) s i = carried-run rest (step k s j m) i ∙ carried-step s i j m

  module _ {ctx : VmaCtx} (w : IsWf k ctx) (pool : Pool) (calls : List (Handler × ℕ))
      (l : List (ℕ × Memory)) (enough : (i : ℕ) → i < length calls → 5 ≤ turns i l) where
    abbrev ended : System
    ended = run k l (starting ctx pool calls)

    ended-IsBack : (i : ℕ) → IsBack (phase_of ended.threads i)
    ended-IsBack i = elim (Bool-cases (ltb i (length calls))) [
      | inl h ↦ five_turns l (starting ctx pool calls) i (enough i (ground (arith, h)))
      | inr h ↦ rank-IsBack (phase_of ended.threads i) (
          omega (
            arith,
            rank-run l (starting ctx pool calls) i,
            rank-entered ctx calls i (ground (arith, h)),
          ))
    ]

    -- Any number of faults and write faults, called at once on a well-formed context, come to their
    -- ends, however their critical sections interleave and whatever the allocations give: where each
    -- thread has run at least five times, each call has returned an answer that holds of the context
    -- (a page that was installed is the one that the context keeps, a write fault that succeeded has
    -- set the dirty bit, and none has read through a pointer to no state), and the context is well
    -- formed, with no reference left on a state. Waiting for a lock is not counted as a step.
    pub calls_end :
        IsWf k ended.ctx
        × ((i q : ℕ) (h : Handler)
            → get_or (map some calls) i none ≡ some (h, q)
            → (r : VmFault) × (phase_of ended.threads i ≡ returned (call_of ctx h q) r)
              × Answered k ended.ctx q r)
    calls_end = (
      quiet-IsWf k w pool calls l ended-IsBack,
      λ i q h e.
          let carries =
            carried-run l (starting ctx pool calls) i ∙ carried-entered ctx calls i h q e in
          let (r, is_back) =
            back_of (phase_of ended.threads i) (call_of ctx h q) (ended-IsBack i) carries in
          (r, is_back, answered k w pool calls l i q h r is_back),
    )
