-- ===== src/Tools/Features.antt =====
-- The names of the features, `format_features_bitmap` of src/kvm_uringblk.cc.
use kvm_db.Prelude.{
  ℕ, ◌+◌, ◌-◌, ◌/◌, ◌%◌, ◌^◌, ◌<◌, ◌≡◌, List, [], ◌∷◌, ◌++◌, length, replicate, map, ◌==◌,
  if◌then◌else◌, arith,
}
use kvm_db.Prelude.Text.{codes, print_number}

-- The flags by the numbers of their bits, with the names that are printed for them, in the order in
-- which they are tested.
abbrev pub flags : List (ℕ × List ℕ)
flags =
    (0, codes "WRITE_CACHE")
    ∷ (1, codes "FUA")
    ∷ (2, codes "FLUSH")
    ∷ (3, codes "DISCARD")
    ∷ (4, codes "WRITE_ZEROES")
    ∷ (5, codes "ZONED")
    ∷ (6, codes "POLLING")
    ∷ []

abbrev pub set_flags : ℕ → List (ℕ × List ℕ) → List (ℕ × List ℕ)
set_flags features [] = []
set_flags features (f ∷ fs) =
    let rest = set_flags features fs in if features / 2 ^ f.0 % 2 == 1 then f ∷ rest else rest

abbrev joined : List (List ℕ) → List ℕ
joined [] = []
joined (name ∷ []) = name
joined (name ∷ other ∷ names) = name ++ codes ", " ++ joined (other ∷ names)

-- `{:016x}`: to sixteen digits.
abbrev pub padded : List ℕ → List ℕ
padded digits = replicate (16 - length digits) 48 ++ digits

unfoldable pub format_features_bitmap : ℕ → List ℕ
format_features_bitmap features =
    let names : List (List ℕ) = map (λ (f : ℕ × List ℕ). f.1) (set_flags features flags) in
    codes "0x"
    ++ padded (print_number 16 features)
    ++ codes " ("
    ++ (if length names == 0 then codes "none)" else joined names ++ codes ")")

-- The sum of the flags.
abbrev pub sum_of : List (ℕ × List ℕ) → ℕ
sum_of [] = 0
sum_of (f ∷ fs) = 2 ^ f.0 + sum_of fs

-- The flags that are named for a word of features below 2 ^ 7, which every supported word is, add up to
-- that word: no flag is missing and none is named that is not set.
pub named_flags : (features : ℕ) → features < 2 ^ 7 → sum_of (set_flags features flags) ≡ features
named_flags features h = ground arith
