-- ===== src/Kdb/Tests/Races.antt =====
-- A run of two concurrent calls.
use kvm_db.Prelude.{ℕ, ◌≡◌, refl, false, none, some, replicate, arith}
use kvm_db.Kdb.Context.{LpState, new_lp, search_locked, insert_locked, set_head}
use kvm_db.Kdb.Races.{
  System, Phase, entry, missed, returned, Reach, start, later, miss, insert, move_to,
}
use kvm_db.Kdb.Tests.{low_bits, memory, fresh_ctx}

-- Two threads that both miss: the second finds what the first inserted.
abbrev idle : ℕ → Phase
idle i = entry 3

abbrev before : System
before = record { ctx = fresh_ctx; at = idle }

abbrev new_state : LpState
new_state = record {
  addr = 100;
  lpn = 3;
  cp_per_lp = 4;
  cp = replicate 4 none;
  dirty_bitmap = replicate 64 false;
  refcount = 1;
}

abbrev mid : System
mid = record { ctx = fresh_ctx; at = move_to (move_to idle 0 (missed 3)) 1 (missed 3) }

abbrev after : System
after = record {
  ctx = (insert_locked low_bits (insert_locked low_bits fresh_ctx new_state).1 new_state).1;
  at = move_to (move_to mid.at 0 (returned 3 (insert_locked low_bits fresh_ctx new_state).0)) 1 (
      returned 3
        (insert_locked low_bits (insert_locked low_bits fresh_ctx new_state).1 new_state).0);
}

allocated : new_lp fresh_ctx 3 memory ≡ some new_state
unfolding new_lp
allocated = refl

nothing_found : (search_locked low_bits fresh_ctx 3).0 ≡ none
unfolding search_locked replicate
nothing_found = refl

allocated_later : new_lp (insert_locked low_bits fresh_ctx new_state).1 3 memory ≡ some new_state
unfolding new_lp insert_locked set_head search_locked replicate
allocated_later = refl

race : Reach low_bits before after
race =
    later
      (later
        (later (later start (miss 0 3 refl (omega arith) nothing_found))
          (miss 1 3 refl (omega arith) nothing_found))
        (insert 0 3 memory new_state refl allocated))
      (insert 1 3 memory new_state refl allocated_later)
