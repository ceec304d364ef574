-- ===== src/Prelude/Slice.antt =====
-- Slices of a list, and what a copy leaves in them.
use Prim.Native.Nat.{ℕ, zero, suc, ◌+◌, ◌-◌, ◌≤◌, min}
use native.Mathlib.Nat.{zero-add, suc-add}
use native.Mathlib.Omega.{arith}
use mathlib.Core.Path.{◌≡◌, refl, ap}
use mathlib.Core.List.{List, [], ◌∷◌, ◌++◌}
use kvm_db.Prelude.Lists.{length, take, drop, length-drop}
use kvm_db.Prelude.Splice.{overwrite, splice}

module _ {ℓ} {A : Type ℓ} where
  -- The bytes of all segments of a request.
  abbrev pub bytes : List (List A) → List A
  bytes [] = []
  bytes (b ∷ bs) = b ++ bytes bs

  pub take_nil : (n : ℕ) → take {A = A} n [] ≡ []
  take_nil zero = refl
  take_nil (suc n) = refl

  front :
      (a b : ℕ) (xs : List A)
      → take (min a (length xs)) xs ++ take b (drop (min a (length xs)) xs) ≡ take (a + b) xs
  front zero b xs = let h : min 0 (length xs) ≡ 0 = omega arith in rw (h, zero-add) refl
  front (suc a) b [] = ground (arith, take_nil b, take_nil (suc a + b))
  front (suc a) b (x ∷ xs) =
      let h : min (suc a) (suc (length xs)) ≡ suc (min a (length xs)) = omega arith in
      rw (h, suc-add) (ap (λ l. x ∷ l) (front a b xs))

  pub drop-drop : (p n : ℕ) (xs : List A) → drop n (drop p xs) ≡ drop (p + n) xs
  drop-drop zero n xs = rw zero-add refl
  drop-drop (suc p) zero [] = rw suc-add refl
  drop-drop (suc p) (suc n) [] = rw suc-add refl
  drop-drop (suc p) n (x ∷ xs) = rw suc-add (drop-drop p n xs)

  -- A read of `a` bytes and the rest of the data up to `b` more.
  pub split_take :
      (a b p : ℕ) (xs : List A)
      → take (min a (length xs - p)) (drop p xs) ++ take b (drop (p + min a (length xs - p)) xs)
        ≡ take (a + b) (drop p xs)
  split_take a b p xs =
      rw (← drop-drop p (min a (length xs - p)) xs, ← length-drop p xs) (front a b (drop p xs))

  pub drop_past : (p : ℕ) (xs : List A) → length xs ≤ p → drop p xs ≡ []
  drop_past zero [] h = refl
  drop_past zero (x ∷ xs) h = absurd (omega arith)
  drop_past (suc p) [] h = refl
  drop_past (suc p) (x ∷ xs) h = drop_past p xs (omega arith)

  -- Over a buffer of the same length nothing of the old content is left.
  pub overwrite_all : (xs bs : List A) → length bs ≡ length xs → overwrite xs bs ≡ bs
  overwrite_all [] [] h = refl
  overwrite_all [] (b ∷ bs) h = absurd (omega arith)
  overwrite_all (x ∷ xs) [] h = absurd (omega arith)
  overwrite_all (x ∷ xs) (b ∷ bs) h = ap (λ l. b ∷ l) (overwrite_all xs bs (omega arith))

  take-overwrite :
      (xs bs : List A) → length bs ≤ length xs → take (length bs) (overwrite xs bs) ≡ bs
  take-overwrite xs [] h = refl
  take-overwrite [] (b ∷ bs) h = absurd (omega arith)
  take-overwrite (x ∷ xs) (b ∷ bs) h = ap (λ l. b ∷ l) (take-overwrite xs bs (omega arith))

  -- The slice that was copied.
  pub take-splice :
      (i : ℕ) (bs xs : List A)
      → i + length bs ≤ length xs
      → take (length bs) (drop i (splice i bs xs)) ≡ bs
  unfolding splice
  take-splice zero bs xs h = take-overwrite xs bs (omega arith)
  take-splice (suc i) [] [] h = refl
  take-splice (suc i) (b ∷ bs) [] h = absurd (omega arith)
  take-splice (suc i) bs (x ∷ xs) h = take-splice i bs xs (omega arith)

  -- A copy of nothing.
  pub splice_none : (offset : ℕ) (xs : List A) → splice offset [] xs ≡ xs
  unfolding splice
  splice_none zero [] = refl
  splice_none zero (x ∷ xs) = refl
  splice_none (suc i) [] = refl
  splice_none (suc i) (x ∷ xs) = ap (λ l. x ∷ l) (splice_none i xs)
