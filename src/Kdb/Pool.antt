-- ===== src/Kdb/Pool.antt =====
-- The canonical page pool, src/cp_pool.c: three counters over the kernel's page allocator.
use kvm_db.Prelude.{ℕ, Bool, Option, none, some, List, ◌∷◌, ltb}
use kvm_db.Prelude.Word.{inc64, dec64}

-- The calls that touch a page's reference count: `alloc_page`, `get_page`, `__free_page`.
pub data PageCall : Type 0 where
  alloc_page get_page free_page : ℕ → PageCall

-- The file's globals, with the page calls made to the kernel so far, latest first.
pub record Pool : Type 0 where
  pub allocated : ℕ
  pub total_allocs : ℕ
  pub total_frees : ℕ
  pub calls : List PageCall

unfoldable pub cp_pool_init : Pool → Pool
cp_pool_init s = record s { allocated = 0; total_allocs = 0; total_frees = 0 }

-- Whether `cp_pool_exit` warns of pages that are still allocated.
unfoldable pub cp_pool_exit : Pool → Bool
cp_pool_exit s = ltb 0 s.allocated

-- The first argument is what the kernel's `alloc_page` returns.
unfoldable pub cp_pool_alloc : Option ℕ → Pool → Option ℕ × Pool
cp_pool_alloc none s = (none, s)
cp_pool_alloc (some page) s = (
  some page,
  record s {
    allocated = inc64 s.allocated;
    total_allocs = inc64 s.total_allocs;
    calls = alloc_page page ∷ s.calls;
  },
)

unfoldable pub cp_pool_free : Option ℕ → Pool → Pool
cp_pool_free none s = s
cp_pool_free (some page) s = record s {
  allocated = dec64 s.allocated;
  total_frees = inc64 s.total_frees;
  calls = free_page page ∷ s.calls;
}

-- What goes through the three output pointers.
unfoldable pub cp_pool_stats : Pool → ℕ × ℕ × ℕ
cp_pool_stats s = (s.allocated, s.total_allocs, s.total_frees)
