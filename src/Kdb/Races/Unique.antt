-- ===== src/Kdb/Races/Unique.antt =====
-- Concurrent `lp_get_or_create`, src/lp_state.c: one state for each page number, and every call
-- returns that one.
use mathlib.Core.Option
use kvm_db.Prelude.{ℕ, ◌^◌, ◌≡◌, inl, inr, Option, some, length, arith, Option-cases}
use kvm_db.Kdb.Context.{LpState, VmaCtx, HashFn, search_locked, insert_locked, get_ref}
use kvm_db.Kdb.Context.View.{
  view, InTable, view-search_locked, search_locked_hit, view-insert_locked,
}
use kvm_db.Kdb.Fault.Wf.{shape-insert_locked, shape-search_locked, new_lp-Fits}
use kvm_db.Kdb.Races.{
  returned, System, Step, out_of_range, hit, miss, no_memory, insert, Reach, start, later,
}

module _ (k : HashFn) where
  -- The address of the state that the table holds for a page number.
  abbrev pub addr_of : VmaCtx → ℕ → Option ℕ
  addr_of ctx j = Option.map (λ lp. lp.addr) (view k ctx j)

  addr-search : (ctx : VmaCtx) (i j : ℕ) → addr_of (search_locked k ctx i).1 j ≡ addr_of ctx j
  addr-search ctx i j = ground (arith, view-search_locked k ctx i j)

  addr-hit :
      (ctx : VmaCtx) (i : ℕ) (lp : LpState)
      → (search_locked k ctx i).0 ≡ some lp
      → addr_of ctx i ≡ some lp.addr
  addr-hit ctx i lp e = ground (arith, search_locked_hit k ctx i)

  -- The second search finds what another thread inserted in the meantime.
  insert_locked_old :
      (ctx : VmaCtx) (lp old : LpState)
      → view k ctx lp.lpn ≡ some old
      → (insert_locked k ctx lp).0 ≡ get_ref old
  unfolding insert_locked view
  insert_locked_old ctx lp old e = ground arith

  addr-insert_self :
      (ctx : VmaCtx) (lp : LpState)
      → InTable k ctx lp.lpn
      → addr_of (insert_locked k ctx lp).1 lp.lpn ≡ some (insert_locked k ctx lp).0.addr
  addr-insert_self ctx lp h = ground (arith, view-insert_locked k ctx lp lp.lpn h)

  -- An address once in the table stays.
  addr-insert :
      (ctx : VmaCtx) (lp : LpState) (j a : ℕ)
      → InTable k ctx lp.lpn
      → addr_of ctx j ≡ some a
      → addr_of (insert_locked k ctx lp).1 j ≡ some a
  addr-insert ctx lp j a h e = elim (Option-cases (view k ctx lp.lpn)) [
    | inl n ↦ ground (arith, view-insert_locked k ctx lp j h)
    | inr (old, o) ↦ ground (arith, view-insert_locked k ctx lp j h, insert_locked_old ctx lp old o)
  ]

  pub record Inv (s : System) : Type 0 where
    pub buckets : length s.ctx.lp_hash ≡ 2 ^ s.ctx.lp_hash_bits
    pub agree :
        (i lpn : ℕ) (lp : LpState) → s.at i ≡ returned lpn lp → addr_of s.ctx lpn ≡ some lp.addr

  Inv-InTable : {s : System} (lpn : ℕ) → Inv s → InTable k s.ctx lpn
  Inv-InTable {s} lpn v = rw v.buckets (k.hash_64-lt lpn s.ctx.lp_hash_bits)

  -- Every step of every thread keeps the invariant.
  pub Step-Inv : {s t : System} → Step k s t → Inv s → Inv t
  Step-Inv {s} (out_of_range i lpn e h) v = record {
    buckets = v.buckets;
    agree = λ j n x f. ground (arith, v.agree j n x);
  }
  Step-Inv {s} (miss i lpn e h m) v = record {
    buckets = v.buckets;
    agree = λ j n x f. ground (arith, v.agree j n x);
  }
  Step-Inv {s} (no_memory i lpn a e m) v = record {
    buckets = v.buckets;
    agree = λ j n x f. ground (arith, v.agree j n x);
  }
  Step-Inv {s} (hit i lpn lp e h m) v = record {
    buckets = ground (arith, v.buckets, shape-search_locked k s.ctx lpn);
    agree =
        λ j n x f. ground (arith, v.agree j n x, addr-search s.ctx lpn n, addr-hit s.ctx lpn lp);
  }
  Step-Inv {s} (insert i lpn a lp e m) v = record {
    buckets = ground (arith, v.buckets, shape-insert_locked k s.ctx lp);
    agree = λ j n x f.
        let key = (new_lp-Fits k s.ctx lpn a {lp = lp} m).0 in
        ground (
          arith,
          key,
          v.agree j n x,
          addr-insert_self s.ctx lp (Inv-InTable lp.lpn v),
          addr-insert s.ctx lp n x.addr (Inv-InTable lp.lpn v),
        );
  }

  pub Reach-Inv : {s t : System} → Inv s → Reach k s t → Inv t
  Reach-Inv v start = v
  Reach-Inv v (later r st) = Step-Inv st (Reach-Inv v r)

  -- However the critical sections of concurrent calls of `lp_get_or_create` interleave, two calls
  -- for one page number that return a state return the same object, and it is the one that the
  -- table holds for that number.
  same_state :
      {s t : System}
      → Inv s
      → Reach k s t
      → (i j lpn : ℕ) (x y : LpState) → t.at i ≡ returned lpn x
      → t.at j ≡ returned lpn y
      → (x.addr ≡ y.addr) × (addr_of t.ctx lpn ≡ some x.addr)
  same_state v r i j lpn x y e f =
      let inv = Reach-Inv v r in
      let a = inv.agree i lpn x e in let b = inv.agree j lpn y f in (cc, a)
