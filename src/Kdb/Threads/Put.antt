-- ===== src/Kdb/Threads/Put.antt =====
-- `lp_put` and the statistics keep the invariant, and so every step of every thread.
use kvm_db.Prelude.{[], ℕ, ◌<◌, ◌≡◌, refl, inl, inr, ◌∷◌, none, some, List, length, arith}
use kvm_db.Prelude.Word.{u32, dec32}
use kvm_db.Kdb.Context.{LpState, VmaCtx, HashFn, put_ref, write_lp}
use kvm_db.Kdb.Context.{head}
use kvm_db.Kdb.Context.View.{view}
use kvm_db.Kdb.Fault.{VmFault, locked}
use kvm_db.Kdb.Fault.Wf.{SameShape}
use kvm_db.Kdb.Threads.{
  after_put, count_call, step, run, advance, Handler, Call, Phase, idle, entry, missed, holding,
  decided, counting, returned, System, phase_of, Memory, put_back, advance, handler_cases,
}
use kvm_db.Kdb.Threads.Search.{search_step-Inv}
use kvm_db.Kdb.Threads.Insert.{insert_step-Inv}
use kvm_db.Kdb.Threads.Locked.{
  advance_fault, advance_mkwrite, advance_put, fault_locked-Inv, mkwrite_locked-Inv,
}
use kvm_db.Kdb.Threads.Count.{beyond-set, holds, holders, holders-set}
use kvm_db.Kdb.Threads.Inv.{Told, Told-Grows, Good, Inv}
use kvm_db.Kdb.Threads.Keep.{
  Changed-Grows, moved-Inv, quiet-Inv, update-Changed, deref_held, Changed-Inv,
}

abbrev pub IsCalm : Phase → Type 0
IsCalm p = (j : ℕ) → holds j p ≡ 0

put-IsCalm : (c : Call) (r : VmFault) → IsCalm (after_put c r)
put-IsCalm c (locked page) j = refl
put-IsCalm c VmFault.sigbus j = refl
put-IsCalm c VmFault.oom j = refl
put-IsCalm c VmFault.oops j = refl

module _ (k : HashFn) where
  put-Good : (ctx : VmaCtx) (c : Call) (r : VmFault) → Told k ctx c r → Good k ctx (after_put c r)
  put-Good ctx c (locked page) t = t
  put-Good ctx c VmFault.sigbus t = t
  put-Good ctx c VmFault.oom t = t
  put-Good ctx c VmFault.oops t = t

  view-count_call :
      (x : Handler) (ctx : VmaCtx) (j : ℕ) → view k (count_call x ctx) j ≡ view k ctx j
  unfolding view head
  view-count_call Handler.page_fault ctx j = refl
  view-count_call Handler.write_fault ctx j = refl

  shape-count_call : (x : Handler) (ctx : VmaCtx) → SameShape k ctx (count_call x ctx)
  shape-count_call Handler.page_fault ctx = record {
    n_lpn = refl;
    per = refl;
    size = refl;
    hashed = refl;
  }
  shape-count_call Handler.write_fault ctx = record {
    n_lpn = refl;
    per = refl;
    size = refl;
    hashed = refl;
  }

  Told-count_call :
      (x : Handler) (ctx : VmaCtx) (c : Call) (r : VmFault)
      → Told k ctx c r
      → Told k (count_call x ctx) c r
  Told-count_call x ctx c (locked (some pg)) t = rw (view-count_call x ctx c.lpn) t
  Told-count_call x ctx c (locked none) t = rw (view-count_call x ctx c.lpn) t
  Told-count_call x ctx c VmFault.sigbus t = t
  Told-count_call x ctx c VmFault.oom t = t
  Told-count_call x ctx c VmFault.oops t = t

  module _ {s : System} (v : Inv k s) (i : ℕ) (c : Call) (h : i < length s.threads) where
    put-Inv :
        (r : VmFault) (addr : ℕ)
        → phase_of s.threads i ≡ decided c r addr
        → (lp : LpState) → view k s.ctx c.lpn ≡ some lp
        → Inv k (
            put_back s i (record {
              ctx = write_lp k s.ctx c.lpn put_ref;
              pool = s.pool;
              phase = after_put c r;
            }))
    put-Inv r addr now lp e =
        let known : Good k s.ctx (decided c r addr) = rw now at (v.good i) in
        let fits = v.states c.lpn lp e in
        let calm = put-IsCalm c r in
        let ch =
          update-Changed k s.ctx c.lpn (dec32 (u32 (holders c.lpn s.threads))) lp put_ref
            (λ x. refl) e (ground (arith, fits)) in
        let grows =
          Changed-Grows k ch (λ a q. ground (arith, e, q)) (λ x p q. ground (arith, e, q))
            (λ x q. ground (arith, e, q)) in
        Changed-Inv k v i h s.pool (after_put c r) ch (v.bounded c.lpn lp e)
          (ground (arith, now, calm c.lpn, holders-set c.lpn s.threads i (after_put c r) h))
          (λ j t. ground (arith, now, t, calm j)) grows
          (put-Good _ c r (Told-Grows k c r grows known.1))

    count-Inv :
        (r : VmFault)
        → phase_of s.threads i ≡ counting c r
        → Inv k (
            put_back s i
              (record { ctx = count_call c.handler s.ctx; pool = s.pool; phase = returned c r }))
    count-Inv r now =
        quiet-Inv k v i h s.pool (returned c r) (shape-count_call c.handler s.ctx)
          (view-count_call c.handler s.ctx) (λ j. rw now refl)
          (Told-count_call c.handler s.ctx c r (rw now at (v.good i)))

  calm-Inv :
      {s : System}
      → Inv k s
      → (i : ℕ) (p : Phase) → phase_of s.threads i ≡ p
      → i < length s.threads
      → Inv k (put_back s i (record { ctx = s.ctx; pool = s.pool; phase = p }))
  calm-Inv {s} v i p now h = moved-Inv k v i h s.pool p (λ j. rw now refl) (rw now at (v.good i))

  -- One step of a thread that stands at `p`.
  phase-Inv :
      {s : System}
      → Inv k s
      → (i : ℕ) (m : Memory) (p : Phase) → phase_of s.threads i ≡ p
      → i < length s.threads
      → Inv k (put_back s i (advance k m s.ctx s.pool p))
  unfolding advance
  phase-Inv v i m Phase.idle now h = calm-Inv v i idle now h
  phase-Inv v i m (entry c) now h = search_step-Inv k v i c h now
  phase-Inv v i m (missed c) now h = insert_step-Inv k v i c h m now
  phase-Inv {s} v i m (holding c addr) now h =
      let known : Good k s.ctx (holding c addr) = rw now at (v.good i) in
      let (lp, e, _, d) = deref_held k s.ctx c.lpn addr known.1 in
      elim (handler_cases c.handler) [
        | inl t ↦
            rw (advance_fault k m s.ctx s.pool c addr lp d t)
              (fault_locked-Inv k v i c addr h now lp e known.0 m)
        | inr t ↦
            rw (advance_mkwrite k m s.ctx s.pool c addr lp d t)
              (mkwrite_locked-Inv k v i c addr h now lp e known.0)
      ]
  phase-Inv {s} v i m (decided c r addr) now h =
      let known : Good k s.ctx (decided c r addr) = rw now at (v.good i) in
      let (lp, e, _, d) = deref_held k s.ctx c.lpn addr known.0 in
      rw (advance_put k m s.ctx s.pool c r addr lp d) (put-Inv v i c h r addr now lp e)
  phase-Inv v i m (counting c r) now h = count-Inv v i c h r now
  phase-Inv v i m (returned c r) now h = calm-Inv v i (returned c r) now h

  -- Every step of every thread keeps the invariant.
  pub step-Inv : {s : System} → Inv k s → (i : ℕ) (m : Memory) → Inv k (step k s i m)
  unfolding step advance
  step-Inv {s} v i m = elim (beyond-set s.threads i idle) [
    | inl h ↦ phase-Inv v i m (phase_of s.threads i) refl h
    | inr (e, f) ↦ rw (f, e) v
  ]

  pub run-Inv : (l : List (ℕ × Memory)) {s : System} → Inv k s → Inv k (run k l s)
  unfolding run
  run-Inv [] v = v
  run-Inv ((i, m) ∷ rest) {s} v = run-Inv rest (step-Inv v i m)
