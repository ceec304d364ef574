-- ===== src/Kdb/Tests.antt =====
-- Concrete runs of the module's code, with a hash function that keeps the low bits.
mod Races
mod Mapping
mod Threads
use native.Mathlib.Nat.{mod-lt, one-le-pow}
use kvm_db.Prelude.{
  ℕ, ◌+◌, ◌*◌, ◌%◌, ◌^◌, ◌<◌, ◌≡◌, ◌≢◌, refl, ◌⊎◌, inr, true, false, none, some, List, [], ◌∷◌,
  ◌==◌, if◌then◌else◌, replicate, length-replicate, arith,
}
use kvm_db.Prelude.Word.{u64}
use kvm_db.Prelude.Errno.{einval, ok, err}
use kvm_db.Kdb.Pool.{Pool}
use kvm_db.Kdb.Context.{
  LpState, VmaCtx, HashFn, LpAlloc, vma_ctx_create, vma_ctx_destroy, lp_get_or_create, new_lp,
  search_locked, insert_locked, set_head,
}
use kvm_db.Kdb.Context.View.{view}
use kvm_db.Kdb.Fault.{sigbus, oops, lpn_of, kdb_fault, kdb_page_mkwrite}
use kvm_db.Kdb.Fault.Wf.{IsWf, Got}
use kvm_db.Kdb.Fault.Got.{get_or_create_lem}
use kvm_db.Kdb.Fault.Pages.{PageStep}
use kvm_db.Kdb.Fault.Refine.{kdb_fault-PageStep}
use kvm_db.Kdb.Fault.Dirty.{DirtyStep, mkwrite-DirtyStep}
use kvm_db.Kdb.Accounts.{tracked}
use kvm_db.Kdb.Accounts.Handlers.{Balanced}
use kvm_db.Kdb.Session.{Call, fault, mkwrite, run_calls, run_calls-IsWf, vma_ctx_create-IsWf}
use kvm_db.Kdb.Session.Leak.{session_leak, allocs, frees}
use kvm_db.Kdb.Races.{
  System, Phase, entry, missed, returned, Reach, start, later, miss, insert, move_to,
}
use kvm_db.Kdb.Races.Unique.{Inv, addr_of}
use kvm_db.Kdb.Chrdev.{KdbLayout, KdbDev, set_layout, nothing, kdb_ioctl, kdb_mmap}
use kvm_db.Kdb.Chrdev.Layout.{
  IsLayout, DevOk, kdb_ioctl-DevOk, set_to, set_layout_lem, kdb_mmap-IsWf, mmap_sigbus,
}
use kvm_db.Kdb.Vma.{Mappings, update, duplicate, kdb_vma_close, fault_on, close_alone, close_shared}
use kvm_db.Kdb.Load.{Loaded, LoadEnv, IsLoaded, IsUnloaded, kdb_init, kdb_exit}

abbrev pub low_bits : HashFn
low_bits = record {
  hash_64 = λ x bits. x % 2 ^ bits;
  hash_64-lt = λ x bits. mod-lt x (one-le-pow bits 2 (omega arith));
}

abbrev pub memory : LpAlloc
memory = record { state = some 100; array = true; bitmap = true }

abbrev pub pool : Pool
pool = record { allocated = 0; total_allocs = 0; total_frees = 0; calls = [] }

-- Eight logical pages of four canonical pages.
abbrev pub fresh_ctx : VmaCtx
fresh_ctx = record {
  cp_size = 4096;
  lp_size = 16384;
  n_lpn = 8;
  cp_per_lp = 4;
  lp_hash = replicate 1024 [];
  lp_hash_bits = 10;
  total_faults = 0;
  total_mkwrite = 0;
  total_lp_created = 0;
}

created : vma_ctx_create 4096 16384 8 true true ≡ some fresh_ctx
unfolding vma_ctx_create
created = refl

pub fresh-IsWf : IsWf low_bits fresh_ctx
fresh-IsWf =
    (vma_ctx_create-IsWf low_bits 4096 16384 8 true true {ctx = fresh_ctx} (omega arith) created).0

abbrev two_calls : List Call
two_calls = fault 5 memory (some 77) ∷ mkwrite 5 ∷ []

kdb_fault-PageStep_example :
    PageStep low_bits fresh_ctx 5 memory
      (some 77)
      (kdb_fault low_bits fresh_ctx pool 5 memory (some 77)).0
      (kdb_fault low_bits fresh_ctx pool 5 memory (some 77)).1
kdb_fault-PageStep_example = kdb_fault-PageStep low_bits pool 5 memory (some 77) fresh-IsWf

run_calls-IsWf_example :
    IsWf low_bits (run_calls low_bits fresh_ctx pool two_calls).0
    × Balanced fresh_ctx pool
        (run_calls low_bits fresh_ctx pool two_calls).0
        (run_calls low_bits fresh_ctx pool two_calls).1
run_calls-IsWf_example = run_calls-IsWf low_bits {ctx = fresh_ctx} pool two_calls fresh-IsWf

-- A context that keeps a page.
abbrev used_ctx : VmaCtx
used_ctx = (run_calls low_bits fresh_ctx pool two_calls).0

used-IsWf : IsWf low_bits used_ctx
used-IsWf = (run_calls-IsWf low_bits {ctx = fresh_ctx} pool two_calls fresh-IsWf).0

mkwrite-DirtyStep_example :
    DirtyStep low_bits used_ctx 5
      (kdb_page_mkwrite low_bits used_ctx 5).0
      (kdb_page_mkwrite low_bits used_ctx 5).1
mkwrite-DirtyStep_example = mkwrite-DirtyStep low_bits {ctx = used_ctx} 5 used-IsWf

session_leak_example :
    let end = vma_ctx_destroy (some used_ctx) (run_calls low_bits fresh_ctx pool two_calls).1 in
    (u64 (allocs end.calls) ≡ u64 (0 + tracked used_ctx))
    × (frees end.calls ≡ 0)
    × (u64 end.allocated ≡ 0)
session_leak_example =
    session_leak low_bits 4096 16384 8 true true {ctx = fresh_ctx} pool two_calls (omega arith)
      created
