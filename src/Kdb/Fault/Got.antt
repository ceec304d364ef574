-- ===== src/Kdb/Fault/Got.antt =====
-- `lp_get_or_create` of src/lp_state.c as a whole: its three ways out.
use kvm_db.Prelude.{ℕ, ◌<◌, ◌≤◌, ◌≡◌, refl, ◌⊎◌, inl, inr, none, some, arith, Option-cases}
use kvm_db.Kdb.Context.{
  LpState, VmaCtx, HashFn, LpAlloc, new_lp, insert_locked, search_locked, lp_get_or_create, get_ref,
}
use kvm_db.Kdb.Context.View.{view, view-insert_locked}
use kvm_db.Kdb.Fault.Wf.{
  IsWf, Got, wf-InTable, cp_before, dirty_before, search_locked-Got, new_lp-Fits,
  shape-insert_locked,
}

module _ (k : HashFn) where
  pub get_or_create_beyond :
      (ctx : VmaCtx) (lpn : ℕ) (a : LpAlloc)
      → ctx.n_lpn ≤ lpn
      → lp_get_or_create k ctx lpn a ≡ (none, ctx)
  unfolding lp_get_or_create
  get_or_create_beyond ctx lpn a h = ground arith

  pub insert_locked_new :
      (ctx : VmaCtx) (lpn : ℕ) (lp : LpState)
      → lp.lpn ≡ lpn
      → view k ctx lpn ≡ none
      → (insert_locked k ctx lp).0 ≡ lp
  unfolding insert_locked view
  insert_locked_new ctx lpn lp i e = ground arith

  module _ (ctx : VmaCtx) (lpn : ℕ) (a : LpAlloc) (within : lpn < ctx.n_lpn) where
    pub get_or_create_hit :
        {old : LpState}
        → view k ctx lpn ≡ some old
        → lp_get_or_create k ctx lpn a ≡ (some (get_ref old), (search_locked k ctx lpn).1)
    unfolding lp_get_or_create view
    get_or_create_hit e = ground arith

    pub get_or_create_fail :
        view k ctx lpn ≡ none → new_lp ctx lpn a ≡ none → lp_get_or_create k ctx lpn a ≡ (none, ctx)
    unfolding lp_get_or_create view
    get_or_create_fail e n = ground arith

    pub get_or_create_new :
        {lp : LpState}
        → view k ctx lpn ≡ none
        → new_lp ctx lpn a ≡ some lp
        → lp.lpn ≡ lpn
        → lp_get_or_create k ctx lpn a ≡ (some lp, (insert_locked k ctx lp).1)
    unfolding lp_get_or_create view
    get_or_create_new {lp} e n i = ground (arith, insert_locked_new ctx lpn lp i e)

  insert_locked-Got :
      {ctx : VmaCtx} (lpn : ℕ) {lp : LpState} (a : LpAlloc)
      → IsWf k ctx
      → view k ctx lpn ≡ none
      → new_lp ctx lpn a ≡ some lp
      → Got k ctx lpn lp (insert_locked k ctx lp).1
  insert_locked-Got {ctx} lpn {lp} a w e n =
      let (key, fits, pages, dirty) = new_lp-Fits k ctx lpn a {lp = lp} n in
      record {
        key = key;
        fits = fits;
        pages_kept = unfold cp_before in rw (e, pages);
        dirty_kept = unfold dirty_before in rw (e, dirty);
        shape = shape-insert_locked k ctx lp;
        views = λ j. ground (
          arith,
          view-insert_locked k ctx lp j (rw key (wf-InTable k lpn w)),
          insert_locked_new ctx lpn lp key e,
        );
      }

  -- Every way out of `lp_get_or_create` for a page number in range.
  pub get_or_create_lem :
      {ctx : VmaCtx} (lpn : ℕ) (a : LpAlloc)
      → IsWf k ctx
      → lpn < ctx.n_lpn
      → let (got, after) = lp_get_or_create k ctx lpn a in
        ((got ≡ none) × (after ≡ ctx) × (view k ctx lpn ≡ none) × (new_lp ctx lpn a ≡ none))
        ⊎ ((lp : LpState) × (got ≡ some lp) × Got k ctx lpn lp after)
  get_or_create_lem {ctx} lpn a w h = elim (Option-cases (view k ctx lpn)) [
    | inr (old, e) ↦
        rw (get_or_create_hit ctx lpn a h e) (inr (get_ref old, refl, search_locked-Got k lpn w e))
    | inl e ↦ elim (Option-cases (new_lp ctx lpn a)) [
      | inl n ↦ rw (get_or_create_fail ctx lpn a h e n) (inl (refl, refl, e, n))
      | inr (lp, n) ↦
          rw (get_or_create_new ctx lpn a h e n (new_lp-Fits k ctx lpn a {lp = lp} n).0)
            (inr (lp, refl, insert_locked-Got lpn a w e n))
    ]
  ]
