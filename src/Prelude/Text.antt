-- ===== src/Prelude/Text.antt =====
-- Texts as lists of bytes, and the numbers that `sprintf` prints: %u and %llu to base 10, %llx to base
-- 16.
use Prim.Native.Char.{code}
use Prim.Native.Nat.{ℕ, zero, suc, ◌+◌, ◌-◌, ◌*◌, ◌/◌, ◌%◌, ◌^◌, ◌<◌}
use Prim.Native.String.{String}
use mathlib.Core.Path.{◌≡◌, sym}
use mathlib.Core.Logic.{◌⊎◌, inl, inr}
use mathlib.Core.List.{List, [], ◌∷◌}
use native.Mathlib.Omega.{arith, pow_step}
use kvm_db.Prelude.Tests.{ltb, ◌==◌, if◌then◌else◌}

-- The bytes of an ASCII text.
abbrev pub codes : String → List ℕ
codes String.[] = []
codes (String.◌∷◌ c s) = code c ∷ codes s

abbrev digit_char : ℕ → ℕ
digit_char d = if ltb d 10 then 48 + d else 87 + d

-- The digits of a positive number before a text, on fuel: at most as many as the number of digits.
unfoldable pub digits : ℕ → ℕ → ℕ → List ℕ → List ℕ
digits base zero n out = out
digits base (suc fuel) n out =
    let rest = digits base fuel (n / base) (digit_char (n % base) ∷ out) in
    if n == 0 then out else rest

-- A number of at most 64 bits and a newline; 20 digits are enough to either base.
unfoldable pub print_line : ℕ → ℕ → List ℕ
print_line base n = if n == 0 then 48 ∷ 10 ∷ [] else digits base 20 n (10 ∷ [])

-- A number alone.
unfoldable pub print_number : ℕ → ℕ → List ℕ
print_number base n = if n == 0 then 48 ∷ [] else digits base 20 n []

abbrev digit_value : ℕ → ℕ
digit_value c = if ltb c 58 then c - 48 else c - 87

-- The number that a line of digits stands for.
unfoldable pub read_line : ℕ → ℕ → List ℕ → ℕ
read_line base n [] = n
read_line base n (c ∷ text) =
    let rest = read_line base (n * base + digit_value c) text in if c == 10 then n else rest

abbrev pub IsBase : ℕ → Type 0
IsBase base = (base ≡ 10) ⊎ (base ≡ 16)

last_digit :
    (base n : ℕ) (out : List ℕ)
    → IsBase base
    → read_line base (n / base) (digit_char (n % base) ∷ out) ≡ read_line base n out
unfolding read_line
last_digit base n out (inl ten) = ground (arith, ten)
last_digit base n out (inr sixteen) = ground (arith, sixteen)

shorter : (base fuel n : ℕ) → IsBase base → n < base ^ suc fuel → n / base < base ^ fuel
shorter base fuel n (inl ten) h =
    let less : n < 10 ^ suc fuel = rw (sym ten) h in
    let goal : n / 10 < 10 ^ fuel = omega (arith, less, pow_step 10 fuel) in rw ten goal
shorter base fuel n (inr sixteen) h =
    let less : n < 16 ^ suc fuel = rw (sym sixteen) h in
    let goal : n / 16 < 16 ^ fuel = omega (arith, less, pow_step 16 fuel) in rw sixteen goal

short : (base n : ℕ) → IsBase base → n < 2 ^ 64 → n < base ^ 20
short base n (inl ten) h = rw ten (omega (arith, h))
short base n (inr sixteen) h = rw sixteen (omega (arith, h))

read_line-digits :
    (base fuel n : ℕ) (out : List ℕ)
    → IsBase base
    → n < base ^ fuel
    → read_line base 0 (digits base fuel n out) ≡ read_line base n out
unfolding digits
read_line-digits base zero n out b h = ground arith
read_line-digits base (suc fuel) n out b h = ground (
  arith,
  read_line-digits base fuel (n / base) (digit_char (n % base) ∷ out) b (shorter base fuel n b h),
  last_digit base n out b,
)

-- Reading a printed line gives the number back.
pub read_line-print_line :
    (base n : ℕ) → IsBase base → n < 2 ^ 64 → read_line base 0 (print_line base n) ≡ n
unfolding print_line read_line
read_line-print_line base n b h =
    ground (arith, read_line-digits base 20 n (10 ∷ []) b (short base n b h))
