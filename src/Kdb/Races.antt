-- ===== src/Kdb/Races.antt =====
-- Concurrent calls of `lp_get_or_create`, src/lp_state.c: `hash_lock` is dropped between the
-- search and the insertion, so other threads run in between.
pub mod Unique
use kvm_db.Prelude.{ℕ, ◌<◌, ◌≤◌, ◌≡◌, ◌≢◌, Option, none, some, ◌==◌, if◌then◌else◌}
use kvm_db.Kdb.Context.{LpState, VmaCtx, HashFn, LpAlloc, new_lp, search_locked, insert_locked}

-- Where a call stands: at its entry, after a miss, or back with what it returns.
pub data Phase : Type 0 where
  entry : ℕ → Phase
  missed : ℕ → Phase
  returned : ℕ → LpState → Phase
  refused : ℕ → Phase

-- The shared context, and the call of each thread.
pub record System : Type 0 where
  pub ctx : VmaCtx
  pub at : ℕ → Phase

abbrev pub move_to : (ℕ → Phase) → ℕ → Phase → ℕ → Phase
move_to at i p j = if i == j then p else at j

module _ (k : HashFn) where
  -- One critical section, or the allocations, of the call of thread `i`.
  pub data Step (s : System) : System → Type 0 where
    out_of_range :
        (i lpn : ℕ)
        → s.at i ≡ entry lpn
        → s.ctx.n_lpn ≤ lpn
        → Step s (record s { at = move_to s.at i (refused lpn) })
    hit :
        (i lpn : ℕ) (lp : LpState)
        → s.at i ≡ entry lpn
        → lpn < s.ctx.n_lpn
        → (search_locked k s.ctx lpn).0 ≡ some lp
        → Step s
            (record { ctx = (search_locked k s.ctx lpn).1; at = move_to s.at i (returned lpn lp) })
    miss :
        (i lpn : ℕ)
        → s.at i ≡ entry lpn
        → lpn < s.ctx.n_lpn
        → (search_locked k s.ctx lpn).0 ≡ none
        → Step s (record s { at = move_to s.at i (missed lpn) })
    no_memory :
        (i lpn : ℕ) (a : LpAlloc)
        → s.at i ≡ missed lpn
        → new_lp s.ctx lpn a ≡ none
        → Step s (record s { at = move_to s.at i (refused lpn) })
    insert :
        (i lpn : ℕ) (a : LpAlloc) (lp : LpState)
        → s.at i ≡ missed lpn
        → new_lp s.ctx lpn a ≡ some lp
        → Step s (record {
          ctx = (insert_locked k s.ctx lp).1;
          at = move_to s.at i (returned lpn (insert_locked k s.ctx lp).0);
        })

  -- What a run of steps reaches.
  pub data Reach (s : System) : System → Type 0 where
    start : Reach s s
    later : {t u : System} → Reach s t → Step t u → Reach s u
