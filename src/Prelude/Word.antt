-- ===== src/Prelude/Word.antt =====
-- Machine words: a w-bit unsigned integer is a number below 2 ^ w, and arithmetic wraps.
use Prim.Native.Nat.{ℕ, ◌+◌, ◌-◌, ◌%◌, ◌^◌}

abbrev pub u32 : ℕ → ℕ
u32 n = n % 2 ^ 32

abbrev pub u64 : ℕ → ℕ
u64 n = n % 2 ^ 64

-- `atomic64_inc` and `atomic64_dec`
abbrev pub inc64 : ℕ → ℕ
inc64 n = u64 (n + 1)

abbrev pub dec64 : ℕ → ℕ
dec64 n = u64 (n + (2 ^ 64 - 1))

-- `atomic_inc` and `atomic_dec`, on the bit pattern of the `int`
abbrev pub inc32 : ℕ → ℕ
inc32 n = u32 (n + 1)

abbrev pub dec32 : ℕ → ℕ
dec32 n = u32 (n + (2 ^ 32 - 1))
