-- ===== src/Prelude/Splice.antt =====
-- `memcpy` into an array: the bytes from an index on are replaced.
use Prim.Native.Nat.{ℕ, zero, suc, ◌+◌, ◌-◌, ◌≤◌}
use mathlib.Core.Path.{◌≡◌, refl, ap}
use mathlib.Core.Bool.{true, ◌&&◌}
use mathlib.Core.List.{List, [], ◌∷◌, ◌++◌}
use native.Mathlib.Nat.{zero-add, suc-add, sub-zero, suc-sub-suc}
use native.Mathlib.Omega.{arith}
use kvm_db.Prelude.Tests.{ltb, leb, if◌then◌else◌}
use kvm_db.Prelude.Lists.{length, get_or}

leb-zero : (j : ℕ) → leb 0 j ≡ true
leb-zero j = ground arith

leb-suc : (i j : ℕ) → leb (suc i) (suc j) ≡ leb i j
leb-suc i j = ground arith

ltb-suc : (i j : ℕ) → ltb (suc i) (suc j) ≡ ltb i j
ltb-suc i j = ground arith

module _ {ℓ} {A : Type ℓ} where
  abbrev pub overwrite : List A → List A → List A
  overwrite [] bs = []
  overwrite (x ∷ xs) [] = x ∷ xs
  overwrite (x ∷ xs) (b ∷ bs) = b ∷ overwrite xs bs

  unfoldable pub splice : ℕ → List A → List A → List A
  splice zero bs xs = overwrite xs bs
  splice (suc i) bs [] = []
  splice (suc i) bs (x ∷ xs) = x ∷ splice i bs xs

  length-overwrite : (xs bs : List A) → length (overwrite xs bs) ≡ length xs
  length-overwrite [] bs = refl
  length-overwrite (x ∷ xs) [] = refl
  length-overwrite (x ∷ xs) (b ∷ bs) = ap suc (length-overwrite xs bs)

  pub length-splice : (i : ℕ) (bs xs : List A) → length (splice i bs xs) ≡ length xs
  unfolding splice
  length-splice zero bs xs = length-overwrite xs bs
  length-splice (suc i) bs [] = refl
  length-splice (suc i) bs (x ∷ xs) = ap suc (length-splice i bs xs)

  get_or-overwrite :
      (xs bs : List A) (j : ℕ) (d : A)
      → length bs ≤ length xs
      → get_or (overwrite xs bs) j d ≡ (if ltb j (length bs) then get_or bs j d else get_or xs j d)
  get_or-overwrite [] [] j d h = ground arith
  get_or-overwrite [] (b ∷ bs) j d h = absurd (omega arith)
  get_or-overwrite (x ∷ xs) [] j d h = ground arith
  get_or-overwrite (x ∷ xs) (b ∷ bs) zero d h = ground arith
  get_or-overwrite (x ∷ xs) (b ∷ bs) (suc j) d h = ground (arith, get_or-overwrite xs bs j d)

  -- What stands at an index after the copy.
  pub get_or-splice :
      (i : ℕ) (bs xs : List A) (j : ℕ) (d : A)
      → i + length bs ≤ length xs
      → get_or (splice i bs xs) j d
        ≡ (if leb i j && ltb j (i + length bs) then get_or bs (j - i) d else get_or xs j d)
  unfolding splice
  get_or-splice zero bs xs j d h =
      rw (zero-add, sub-zero) (rw leb-zero (get_or-overwrite xs bs j d (omega arith)))
  get_or-splice (suc i) bs [] j d h = absurd (omega arith)
  get_or-splice (suc i) bs (x ∷ xs) zero d h = ground arith
  get_or-splice (suc i) bs (x ∷ xs) (suc j) d h =
      rw (suc-add, suc-sub-suc, leb-suc, ltb-suc) (get_or-splice i bs xs j d (omega arith))

  overwrite-append :
      (xs cs bs : List A) → splice (length cs) bs (overwrite xs cs) ≡ overwrite xs (cs ++ bs)
  unfolding splice
  overwrite-append [] [] bs = refl
  overwrite-append [] (a ∷ cs) bs = refl
  overwrite-append (x ∷ xs) [] bs = refl
  overwrite-append (x ∷ xs) (a ∷ cs) bs = ap (λ l. a ∷ l) (overwrite-append xs cs bs)

  -- Two copies one after the other are one copy.
  pub splice-append :
      (i : ℕ) (cs bs xs : List A)
      → splice (i + length cs) bs (splice i cs xs) ≡ splice i (cs ++ bs) xs
  unfolding splice
  splice-append zero cs bs xs = rw zero-add (overwrite-append xs cs bs)
  splice-append (suc i) cs bs [] = rw suc-add
  splice-append (suc i) cs bs (x ∷ xs) = rw suc-add (ap (λ l. x ∷ l) (splice-append i cs bs xs))
