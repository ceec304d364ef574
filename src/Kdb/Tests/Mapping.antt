-- ===== src/Kdb/Tests/Mapping.antt =====
-- Runs of the character device, of mappings and of loading.
use kvm_db.Prelude.{
  ℕ, ◌+◌, ◌*◌, ◌<◌, ◌≡◌, refl, ◌⊎◌, inr, true, false, none, some, [], ◌==◌, if◌then◌else◌,
  replicate, arith,
}
use kvm_db.Prelude.Errno.{einval, ok, err}
use kvm_db.Kdb.Context.{VmaCtx, vma_ctx_create, vma_ctx_destroy}
use kvm_db.Kdb.Fault.{sigbus, oops, kdb_fault}
use kvm_db.Kdb.Fault.Wf.{IsWf}
use kvm_db.Kdb.Accounts.{tracked}
use kvm_db.Kdb.Chrdev.{KdbLayout, KdbDev, set_layout, nothing, kdb_ioctl, kdb_mmap}
use kvm_db.Kdb.Chrdev.Layout.{
  IsLayout, IsWhole, DevOk, kdb_ioctl-DevOk, set_to, set_layout_lem, kdb_mmap-IsWf, mmap_sigbus,
}
use kvm_db.Kdb.Vma.{Mappings, update, duplicate, kdb_vma_close, fault_on, close_shared}
use kvm_db.Kdb.Load.{Loaded, LoadEnv}
use kvm_db.Kdb.Tests.{low_bits, memory, pool, fresh_ctx}

abbrev layout : KdbLayout
layout = record { cp_size = 4096; lp_size = 16384; n_lpn = 8 }

abbrev large_layout : KdbLayout
large_layout = record { cp_size = 8192; lp_size = 16384; n_lpn = 8 }

abbrev configured : KdbLayout → KdbDev
configured l = record { layout = l; layout_set = true }

layout-IsLayout : IsLayout layout
layout-IsLayout = record {
  some_cp = omega arith;
  some_lp = omega arith;
  some_pages = omega arith;
  divides = omega arith;
  few = omega arith;
}

large-IsLayout : IsLayout large_layout
large-IsLayout = record {
  some_cp = omega arith;
  some_lp = omega arith;
  some_pages = omega arith;
  divides = omega arith;
  few = omega arith;
}

kdb_ioctl-DevOk_example :
    DevOk (kdb_ioctl (configured layout) pool (set_layout (some large_layout))).1
kdb_ioctl-DevOk_example =
    kdb_ioctl-DevOk (configured layout) pool (set_layout (some large_layout)) (inr layout-IsLayout)

set_layout_lem_example :
    (IsWhole large_layout
      × (kdb_ioctl (configured layout) pool (set_layout (some large_layout))
          ≡ (ok nothing, set_to large_layout)))
    ⊎ ((¬ IsWhole large_layout)
        × (kdb_ioctl (configured layout) pool (set_layout (some large_layout))
            ≡ (err einval, configured layout)))
set_layout_lem_example = set_layout_lem (configured layout) pool large_layout

-- A mapping of all 131072 bytes.
mapped : kdb_mmap (configured layout) 0 131072 true true ≡ ok fresh_ctx
unfolding kdb_mmap vma_ctx_create
mapped = refl

abbrev large_ctx : VmaCtx
large_ctx = record {
  cp_size = 8192;
  lp_size = 16384;
  n_lpn = 8;
  cp_per_lp = 2;
  lp_hash = replicate 1024 [];
  lp_hash_bits = 10;
  total_faults = 0;
  total_mkwrite = 0;
  total_lp_created = 0;
}

mapped_large : kdb_mmap (configured large_layout) 0 131072 true true ≡ ok large_ctx
unfolding kdb_mmap vma_ctx_create
mapped_large = refl

kdb_mmap-IsWf_example :
    IsWf low_bits fresh_ctx
    × (◌≡◌ {A = ℕ} 16384 16384)
    × (◌≡◌ {A = ℕ} 8 8)
    × (tracked fresh_ctx ≡ 0)
kdb_mmap-IsWf_example =
    kdb_mmap-IsWf (configured layout) 0 131072 true true {ctx = fresh_ctx} mapped low_bits
      (inr layout-IsLayout)

mmap_sigbus_example :
    (0 + 16 * 4096 < 131072)
    × (kdb_fault low_bits large_ctx pool 16 memory (some 77) ≡ (sigbus, large_ctx, pool))
mmap_sigbus_example =
    mmap_sigbus (configured large_layout) 0 131072 true true {ctx = large_ctx} mapped_large low_bits
      pool memory (some 77) (inr large-IsLayout) (omega arith) (omega arith) (omega arith)

-- Two mappings of one context, and a third of another.
abbrev mappings : Mappings
mappings = record {
  private_data = λ v. if v == 0 then some 10 else if v == 1 then some 11 else none;
  live = λ c. if c == 10 then some fresh_ctx else if c == 11 then some large_ctx else none;
  pool = pool;
}

abbrev closed : Mappings → Mappings
closed s = record {
  private_data = update s.private_data 0 none;
  live = update s.live 10 none;
  pool = vma_ctx_destroy (some fresh_ctx) s.pool;
}

close_forked : kdb_vma_close (duplicate mappings 0 2) 0 ≡ some (closed (duplicate mappings 0 2))
unfolding kdb_vma_close duplicate
close_forked = refl

close_shared_example :
    (fault_on low_bits (closed (duplicate mappings 0 2)) 2 5 memory (some 77)
      ≡ (oops, closed (duplicate mappings 0 2)))
    × (kdb_vma_close (closed (duplicate mappings 0 2)) 2 ≡ none)
close_shared_example =
    close_shared low_bits mappings 0 2 10 {ctx = fresh_ctx} {t = closed (duplicate mappings 0 2)}
      refl refl (omega arith) close_forked 5 memory (some 77)

abbrev down : Loaded
down = record {
  pool = pool;
  pool_up = false;
  lp_state_cache = false;
  vma_ctx_cache = false;
  misc_device = false;
}

abbrev second_fails : LoadEnv
second_fails = record { first_cache = true; second_cache = false; register = none }

abbrev all_well : LoadEnv
all_well = record { first_cache = true; second_cache = true; register = none }
