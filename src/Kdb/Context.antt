-- ===== src/Kdb/Context.antt =====
-- src/lp_state.h and src/lp_state.c: contexts, their hash tables, and logical page states.
pub mod View
use kvm_db.Prelude.{
  ℕ, ◌+◌, ◌*◌, ◌/◌, ◌%◌, ◌^◌, ◌<◌, ◌≡◌, Bool, true, false, not, ◌||◌, Option, none, some, List, [],
  ◌∷◌, ◌==◌, ltb, leb, if◌then◌else◌, replicate, get_or, set, take,
}
use kvm_db.Prelude.Word.{u32, inc64, dec64, inc32, dec32}
use kvm_db.Kdb.Pool.{Pool}

-- `struct lp_state`. `addr` is where it was allocated: a pointer to it is this address.
pub record LpState : Type 0 where
  pub addr : ℕ
  pub lpn : ℕ
  pub cp_per_lp : ℕ
  pub cp : List (Option ℕ)
  pub dirty_bitmap : List Bool
  pub refcount : ℕ

-- `struct vma_ctx`. The chains of `lp_hash` hold the states themselves: only they own one.
pub record VmaCtx : Type 0 where
  pub cp_size : ℕ
  pub lp_size : ℕ
  pub n_lpn : ℕ
  pub cp_per_lp : ℕ
  pub lp_hash : List (List LpState)
  pub lp_hash_bits : ℕ
  pub total_faults : ℕ
  pub total_mkwrite : ℕ
  pub total_lp_created : ℕ

abbrev pub lp_cp_max : ℕ
lp_cp_max = 1024

abbrev pub hash_bits : ℕ
hash_bits = 10

abbrev pub lp_hash_size : ℕ
lp_hash_size = 1024

-- The kernel's `hash_64(val, bits)`: documented to give a number of `bits` bits.
pub record HashFn : Type 0 where
  pub hash_64 : ℕ → ℕ → ℕ
  pub hash_64-lt : (x bits : ℕ) → hash_64 x bits < 2 ^ bits

-- The Booleans say whether `kmem_cache_zalloc` and `kcalloc` succeed.
unfoldable pub vma_ctx_create : ℕ → ℕ → ℕ → Bool → Bool → Option VmaCtx
vma_ctx_create cp_size lp_size n_lpn ctx_mem table_mem =
    let cp_per_lp = u32 (lp_size / cp_size) in
    if cp_size == 0 || lp_size == 0 || n_lpn == 0
    then none
    else if not (lp_size % cp_size == 0)
    then none
    else if ltb lp_cp_max cp_per_lp
    then none
    else if not ctx_mem
    then none
    else if not table_mem
    then none
    else some (record {
      cp_size = cp_size;
      lp_size = lp_size;
      n_lpn = n_lpn;
      cp_per_lp = cp_per_lp;
      lp_hash = replicate lp_hash_size [];
      lp_hash_bits = hash_bits;
      total_faults = 0;
      total_mkwrite = 0;
      total_lp_created = 0;
    })

-- The loop over the canonical pages of one state: each page kept is counted as freed.
unfoldable pub untrack : List (Option ℕ) → Pool → Pool
untrack [] p = p
untrack (none ∷ cps) p = untrack cps p
untrack (some _ ∷ cps) p =
    untrack cps (record p { allocated = dec64 p.allocated; total_frees = inc64 p.total_frees })

unfoldable pub destroy_chain : ℕ → List LpState → Pool → Pool
destroy_chain n [] p = p
destroy_chain n (lp ∷ lps) p = destroy_chain n lps (untrack (take n lp.cp) p)

unfoldable pub destroy_table : ℕ → List (List LpState) → Pool → Pool
destroy_table n [] p = p
destroy_table n (chain ∷ chains) p = destroy_table n chains (destroy_chain n chain p)

-- The context and all that it owns are gone; what is left is the pool. No page is given back.
unfoldable pub vma_ctx_destroy : Option VmaCtx → Pool → Pool
unfolding untrack destroy_chain destroy_table
vma_ctx_destroy none p = p
vma_ctx_destroy (some ctx) p = destroy_table ctx.cp_per_lp ctx.lp_hash p

-- The `hlist_for_each_entry` search of a chain.
unfoldable pub find_lp : ℕ → List LpState → Option LpState
find_lp lpn [] = none
find_lp lpn (lp ∷ lps) = if lp.lpn == lpn then some lp else find_lp lpn lps

-- A write through the pointer that this search gives.
unfoldable pub update_lp : ℕ → (LpState → LpState) → List LpState → List LpState
update_lp lpn f [] = []
update_lp lpn f (lp ∷ lps) = if lp.lpn == lpn then f lp ∷ lps else lp ∷ update_lp lpn f lps

-- `atomic_inc(&lp->refcount)`
abbrev pub get_ref : LpState → LpState
get_ref lp = record lp { refcount = inc32 lp.refcount }

-- `atomic_dec_and_test` of `lp_put`; at zero it only warns.
abbrev pub put_ref : LpState → LpState
put_ref lp = record lp { refcount = dec32 lp.refcount }

-- The results of the three allocations: the address of the state, and whether the page array and
-- the bitmap were given.
pub record LpAlloc : Type 0 where
  pub state : Option ℕ
  pub array : Bool
  pub bitmap : Bool

-- Bits of `BITS_TO_LONGS(n)` words.
abbrev pub bitmap_bits : ℕ → ℕ
bitmap_bits n = (n + 63) / 64 * 64

-- The allocation and initialisation part of `lp_get_or_create`.
unfoldable pub new_lp : VmaCtx → ℕ → LpAlloc → Option LpState
new_lp ctx lpn a = elim a.state [
  | none ↦ none
  | some addr ↦
      if not a.array
      then none
      else if not a.bitmap
      then none
      else some (record {
        addr = addr;
        lpn = lpn;
        cp_per_lp = ctx.cp_per_lp;
        cp = replicate ctx.cp_per_lp none;
        dirty_bitmap = replicate (bitmap_bits ctx.cp_per_lp) false;
        refcount = 1;
      })
]

module _ (k : HashFn) where
  abbrev pub lp_hash_fn : VmaCtx → ℕ → ℕ
  lp_hash_fn ctx lpn = k.hash_64 lpn ctx.lp_hash_bits

  -- `&ctx->lp_hash[hash]`
  unfoldable pub head : VmaCtx → ℕ → List LpState
  head ctx lpn = get_or ctx.lp_hash (lp_hash_fn ctx lpn) []

  unfoldable pub set_head : VmaCtx → ℕ → List LpState → VmaCtx
  set_head ctx lpn chain = record ctx { lp_hash = set ctx.lp_hash (lp_hash_fn ctx lpn) chain }

  -- A write to the fields of the state of page `lpn`.
  unfoldable pub write_lp : VmaCtx → ℕ → (LpState → LpState) → VmaCtx
  unfolding update_lp head set_head
  write_lp ctx lpn f = set_head ctx lpn (update_lp lpn f (head ctx lpn))

  -- The search under `hash_lock`: on a hit it takes a reference.
  unfoldable pub search_locked : VmaCtx → ℕ → Option LpState × VmaCtx
  unfolding find_lp head
  search_locked ctx lpn = elim (find_lp lpn (head ctx lpn)) [
    | none ↦ (none, ctx)
    | some lp ↦ (some (get_ref lp), write_lp ctx lpn get_ref)
  ]

  -- The second critical section: the search again, then the insertion at the head of the chain.
  unfoldable pub insert_locked : VmaCtx → LpState → LpState × VmaCtx
  unfolding search_locked head set_head
  insert_locked ctx lp =
      let (existing, found) = search_locked ctx lp.lpn in
      elim existing [
        | some old ↦ (old, found)
        | none ↦ (
          lp,
          record (set_head ctx lp.lpn (lp ∷ head ctx lp.lpn)) {
            total_lp_created = inc64 ctx.total_lp_created;
          },
        )
      ]

  -- With no other thread between the two critical sections; `Races` has the interleavings.
  unfoldable pub lp_get_or_create : VmaCtx → ℕ → LpAlloc → Option LpState × VmaCtx
  unfolding search_locked insert_locked new_lp
  lp_get_or_create ctx lpn a =
      if leb ctx.n_lpn lpn
      then (none, ctx)
      else let (hit, found) = search_locked ctx lpn in
        elim hit [
          | some lp ↦ (some lp, found)
          | none ↦ elim (new_lp ctx lpn a) [
            | none ↦ (none, ctx)
            | some lp ↦ let (kept, made) = insert_locked ctx lp in (some kept, made)
          ]
        ]

  unfoldable pub lp_lookup : VmaCtx → ℕ → Option LpState × VmaCtx
  unfolding search_locked
  lp_lookup ctx lpn = if leb ctx.n_lpn lpn then (none, ctx) else search_locked ctx lpn
