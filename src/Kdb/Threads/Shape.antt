-- ===== src/Kdb/Threads/Shape.antt =====
-- No step of a handler of src/vma.c changes the number of pages of a logical page.
use kvm_db.Prelude.{ℕ, ◌≡◌, refl, ◌∙◌, List, [], ◌∷◌, arith}
use kvm_db.Kdb.Pool.{Pool}
use kvm_db.Kdb.Context.{VmaCtx, HashFn, search_locked, insert_locked, write_lp, set_head}
use kvm_db.Kdb.Threads.{
  Handler, Phase, entry, missed, holding, decided, counting, returned, Memory, System, phase_of,
  count_call, advance, step, run,
}

per-count_call : (x : Handler) (ctx : VmaCtx) → (count_call x ctx).cp_per_lp ≡ ctx.cp_per_lp
per-count_call Handler.page_fault ctx = refl
per-count_call Handler.write_fault ctx = refl

module _ (k : HashFn) where
  per-advance :
      (m : Memory) (ctx : VmaCtx) (pool : Pool) (p : Phase)
      → (advance k m ctx pool p).ctx.cp_per_lp ≡ ctx.cp_per_lp
  unfolding advance search_locked insert_locked write_lp set_head
  per-advance m ctx pool Phase.idle = refl
  per-advance m ctx pool (entry c) = ground arith
  per-advance m ctx pool (missed c) = ground arith
  per-advance m ctx pool (holding c addr) = ground arith
  per-advance m ctx pool (decided c r addr) = ground arith
  per-advance m ctx pool (counting c r) = per-count_call c.handler ctx
  per-advance m ctx pool (returned c r) = refl

  pub per-run : (l : List (ℕ × Memory)) (s : System) → (run k l s).ctx.cp_per_lp ≡ s.ctx.cp_per_lp
  unfolding run step
  per-run [] s = refl
  per-run ((i, m) ∷ rest) s =
      per-run rest (step k s i m) ∙ per-advance m s.ctx s.pool (phase_of s.threads i)
