-- ===== src/Kdb/Accounts/Table.antt =====
-- How the writes of src/lp_state.c and src/vma.c change the number of pages kept.
use kvm_db.Prelude.{
  ℕ, zero, suc, ◌+◌, ◌<◌, ◌≡◌, refl, Option, none, some, List, [], ◌∷◌, length, replicate, get_or,
  set, take, arith, ap,
}
use kvm_db.Kdb.Context.{
  LpState, VmaCtx, HashFn, find_lp, update_lp, write_lp, insert_locked, lp_hash_fn,
}
use kvm_db.Kdb.Context.View.{view, InTable}
use kvm_db.Kdb.Accounts.{count_pages, lp_pages, chain_pages, table_pages, tracked}

pub count_pages-set :
    (n : ℕ) (cp : List (Option ℕ)) (i pg : ℕ)
    → i < n
    → i < length cp
    → get_or cp i none ≡ none
    → count_pages (take n (set cp i (some pg))) ≡ suc (count_pages (take n cp))
count_pages-set zero cp i pg h l e = absurd (omega arith)
count_pages-set (suc n) [] i pg h l e = absurd (omega arith)
count_pages-set (suc n) (none ∷ cp) zero pg h l e = refl
count_pages-set (suc n) (some x ∷ cp) zero pg h l e = cc
count_pages-set (suc n) (none ∷ cp) (suc i) pg h l e =
    count_pages-set n cp i pg (omega arith) (omega arith) e
count_pages-set (suc n) (some x ∷ cp) (suc i) pg h l e =
    ap suc (count_pages-set n cp i pg (omega arith) (omega arith) e)

pub count_pages-replicate : (n m : ℕ) → count_pages (take n (replicate m none)) ≡ 0
unfolding replicate
count_pages-replicate zero m = refl
count_pages-replicate (suc n) zero = refl
count_pages-replicate (suc n) (suc m) = count_pages-replicate n m

chain_pages-update_lp :
    (n j : ℕ) (f : LpState → LpState) (c : List LpState) (lp : LpState)
    → find_lp j c ≡ some lp
    → chain_pages n (update_lp j f c) + lp_pages n lp ≡ chain_pages n c + lp_pages n (f lp)
unfolding find_lp update_lp
chain_pages-update_lp n j f [] lp e = cc
chain_pages-update_lp n j f (x ∷ c) lp e = ground (arith, chain_pages-update_lp n j f c lp)

chain_pages-update_none :
    (n j : ℕ) (f : LpState → LpState) (c : List LpState) → find_lp j c ≡ none → update_lp j f c ≡ c
unfolding find_lp update_lp
chain_pages-update_none n j f [] e = refl
chain_pages-update_none n j f (x ∷ c) e = ground (arith, chain_pages-update_none n j f c)

pub table_pages-set :
    (n : ℕ) (t : List (List LpState)) (i : ℕ) (c : List LpState)
    → i < length t
    → table_pages n (set t i c) + chain_pages n (get_or t i []) ≡ table_pages n t + chain_pages n c
table_pages-set n [] i c h = absurd (omega arith)
table_pages-set n (x ∷ t) zero c h = omega arith
table_pages-set n (x ∷ t) (suc i) c h = omega (arith, table_pages-set n t i c (omega arith))

module _ (k : HashFn) where
  pub tracked-write_lp :
      (ctx : VmaCtx) (j : ℕ) (f : LpState → LpState) (lp : LpState)
      → InTable k ctx j
      → view k ctx j ≡ some lp
      → tracked (write_lp k ctx j f) + lp_pages ctx.cp_per_lp lp
        ≡ tracked ctx + lp_pages ctx.cp_per_lp (f lp)
  unfolding tracked write_lp view
  tracked-write_lp ctx j f lp h e =
      let i = lp_hash_fn k ctx j in
      let c = get_or ctx.lp_hash i [] in
      omega (
        arith,
        chain_pages-update_lp ctx.cp_per_lp j f c lp e,
        table_pages-set ctx.cp_per_lp ctx.lp_hash i (update_lp j f c) h,
      )

  pub tracked-insert_locked :
      (ctx : VmaCtx) (lp : LpState)
      → InTable k ctx lp.lpn
      → view k ctx lp.lpn ≡ none
      → tracked (insert_locked k ctx lp).1 ≡ tracked ctx + lp_pages ctx.cp_per_lp lp
  unfolding tracked insert_locked view
  tracked-insert_locked ctx lp h e =
      let i = lp_hash_fn k ctx lp.lpn in
      let c = get_or ctx.lp_hash i [] in
      ground (arith, table_pages-set ctx.cp_per_lp ctx.lp_hash i (lp ∷ c) h)
