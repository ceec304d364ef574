-- ===== src/Kdb/Context/View.antt =====
-- The table of src/lp_state.c as a map from page numbers to states, and what each access does
-- to it.
use mathlib.Core.Option
use kvm_db.Prelude.{
  ℕ, ◌<◌, ◌≡◌, refl, ◌&&◌, Option, none, some, List, [], ◌∷◌, ◌==◌, ltb, if◌then◌else◌, length,
  get_or, get_or-set, get_or_beyond, arith,
}
use kvm_db.Kdb.Context.{
  LpState, VmaCtx, HashFn, find_lp, update_lp, get_ref, lp_hash_fn, head, set_head, write_lp,
  search_locked, insert_locked,
}

-- An update that leaves the key of a state alone.
abbrev pub KeepsKey : (LpState → LpState) → Type 0
KeepsKey f = (lp : LpState) → (f lp).lpn ≡ lp.lpn

pub find_lp-lpn : (j : ℕ) (c : List LpState) {lp : LpState} → find_lp j c ≡ some lp → lp.lpn ≡ j
unfolding find_lp
find_lp-lpn j [] h = cc
find_lp-lpn j (x ∷ c) {lp} h = ground (arith, find_lp-lpn j c {lp = lp})

pub find_lp-update_lp :
    (i j : ℕ) (f : LpState → LpState) (c : List LpState)
    → KeepsKey f
    → find_lp j (update_lp i f c) ≡ (if i == j then Option.map f (find_lp j c) else find_lp j c)
unfolding find_lp update_lp
find_lp-update_lp i j f [] key = ground arith
find_lp-update_lp i j f (x ∷ c) key = ground (arith, key x, find_lp-update_lp i j f c key)

find_lp-nil : (j : ℕ) → find_lp j [] ≡ none
unfolding find_lp
find_lp-nil j = refl

find_lp-cons :
    (j : ℕ) (lp : LpState) (c : List LpState)
    → find_lp j (lp ∷ c) ≡ (if lp.lpn == j then some lp else find_lp j c)
unfolding find_lp
find_lp-cons j lp c = refl

module _ (k : HashFn) where
  -- The state that the table holds for a page number.
  unfoldable pub view : VmaCtx → ℕ → Option LpState
  view ctx lpn = find_lp lpn (head k ctx lpn)

  -- The hash of `lpn` is an index of the table.
  abbrev pub InTable : VmaCtx → ℕ → Type 0
  InTable ctx lpn = lp_hash_fn k ctx lpn < length ctx.lp_hash

  pub view-lpn : (ctx : VmaCtx) (j : ℕ) {lp : LpState} → view ctx j ≡ some lp → lp.lpn ≡ j
  unfolding view
  view-lpn ctx j h = find_lp-lpn j (head k ctx j) h

  pub view-set_head :
      (ctx : VmaCtx) (i j : ℕ) (c : List LpState)
      → find_lp j (head k (set_head k ctx i c) j) ≡ (
          if lp_hash_fn k ctx i == lp_hash_fn k ctx j
            && ltb (lp_hash_fn k ctx i) (length ctx.lp_hash)
          then find_lp j c
          else view ctx j)
  unfolding view head set_head
  view-set_head ctx i j c =
      ground (arith, get_or-set ctx.lp_hash (lp_hash_fn k ctx i) (lp_hash_fn k ctx j) c [])

  pub head-eq :
      (ctx : VmaCtx) (i j : ℕ)
      → lp_hash_fn k ctx i ≡ lp_hash_fn k ctx j
      → head k ctx i ≡ head k ctx j
  unfolding head
  head-eq ctx i j e = rw e

  -- A write through a pointer changes the state of its own page number and no other.
  pub view-write_lp :
      (ctx : VmaCtx) (i j : ℕ) (f : LpState → LpState)
      → KeepsKey f
      → view (write_lp k ctx i f) j ≡ (if i == j then Option.map f (view ctx j) else view ctx j)
  unfolding view write_lp head set_head
  view-write_lp ctx i j f key = ground (
    arith,
    get_or-set ctx.lp_hash (lp_hash_fn k ctx i) (lp_hash_fn k ctx j)
        (update_lp i f (get_or ctx.lp_hash (lp_hash_fn k ctx i) [])) [],
    find_lp-update_lp i j f (get_or ctx.lp_hash (lp_hash_fn k ctx j) []) key,
    get_or_beyond ctx.lp_hash (lp_hash_fn k ctx i) [],
    find_lp-nil j,
  )

  pub view-search_locked :
      (ctx : VmaCtx) (i j : ℕ)
      → view (search_locked k ctx i).1 j
        ≡ (if i == j then Option.map get_ref (view ctx j) else view ctx j)
  unfolding search_locked view
  view-search_locked ctx i j = ground (arith, view-write_lp ctx i j get_ref (λ lp. refl))

  -- A hit gives the state of the table, with the reference taken.
  pub search_locked_hit :
      (ctx : VmaCtx) (i : ℕ) → (search_locked k ctx i).0 ≡ Option.map get_ref (view ctx i)
  unfolding search_locked view
  search_locked_hit ctx i = ground arith

  pub view-insert_locked :
      (ctx : VmaCtx) (lp : LpState) (j : ℕ)
      → InTable ctx lp.lpn
      → view (insert_locked k ctx lp).1 j
        ≡ (if lp.lpn == j then some (insert_locked k ctx lp).0 else view ctx j)
  unfolding insert_locked view
  view-insert_locked ctx lp j h = ground (
    arith,
    view-search_locked ctx lp.lpn j,
    get_or-set ctx.lp_hash (lp_hash_fn k ctx lp.lpn) (lp_hash_fn k ctx j)
        (lp ∷ get_or ctx.lp_hash (lp_hash_fn k ctx lp.lpn) []) [],
    find_lp-cons j lp (get_or ctx.lp_hash (lp_hash_fn k ctx lp.lpn) []),
  )
