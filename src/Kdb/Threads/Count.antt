-- ===== src/Kdb/Threads/Count.antt =====
-- How many of the threads of src/vma.c hold a reference on the state of a page number.
use kvm_db.Prelude.{
  ℕ, zero, suc, ◌+◌, ◌<◌, ◌≡◌, refl, ap, ◌⊎◌, inl, inr, List, [], ◌∷◌, ◌==◌, if◌then◌else◌, length,
  set, arith,
}
use kvm_db.Kdb.Threads.{Phase, idle, entry, missed, holding, decided, counting, returned, phase_of}

-- One reference, or none.
abbrev pub holds : ℕ → Phase → ℕ
holds j idle = 0
holds j (entry c) = 0
holds j (missed c) = 0
holds j (holding c addr) = if c.lpn == j then 1 else 0
holds j (decided c r addr) = if c.lpn == j then 1 else 0
holds j (counting c r) = 0
holds j (returned c r) = 0

unfoldable pub holders : ℕ → List Phase → ℕ
holders j [] = 0
holders j (p ∷ ps) = holds j p + holders j ps

pub holders-set :
    (j : ℕ) (ps : List Phase) (i : ℕ) (p : Phase)
    → i < length ps
    → holders j (set ps i p) + holds j (phase_of ps i) ≡ holders j ps + holds j p
unfolding holders
holders-set j [] i p h = absurd (omega arith)
holders-set j (q ∷ ps) zero p h = omega arith
holders-set j (q ∷ ps) (suc i) p h = omega (arith, holders-set j ps i p (omega arith))

-- Behind the threads nothing is stored.
pub beyond-set :
    (ps : List Phase) (i : ℕ) (p : Phase)
    → (i < length ps) ⊎ ((set ps i p ≡ ps) × (phase_of ps i ≡ idle))
beyond-set [] i p = inr (refl, refl)
beyond-set (q ∷ ps) zero p = inl (omega arith)
beyond-set (q ∷ ps) (suc i) p = elim (beyond-set ps i p) [
  | inl h ↦ inl (omega arith)
  | inr (e, f) ↦ inr (ap (λ (x : List Phase). q ∷ x) e, f)
]

pub holders-none :
    (j : ℕ) (ps : List Phase) → ((i : ℕ) → holds j (phase_of ps i) ≡ 0) → holders j ps ≡ 0
unfolding holders
holders-none j [] h = refl
holders-none j (p ∷ ps) h = omega (arith, h 0, holders-none j ps (λ i. h (suc i)))
