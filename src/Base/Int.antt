-- ===== src/Base/Int.antt =====
-- C's `int` as an integer over the native numbers, under the library's names, with the tests that
-- the program makes of a return value.
use Prim.Native.Nat.{ℕ, suc, ◌-◌, ◌%◌, ◌^◌}
use mathlib.Core.Path.{◌≡◌, refl}
use mathlib.Core.Logic.{◌⊎◌, inl, inr}
use mathlib.Core.Bool.{Bool, true, false}
use linux_uart.Base.Tests.{ltb, ◌==◌, if◌then◌else◌}

-- `negsuc n` is -(n + 1).
pub data ℤ : Type 0 where
  pos : ℕ → ℤ
  negsuc : ℕ → ℤ

-- ret < 0
abbrev pub is_neg : ℤ → Bool
is_neg (pos n) = false
is_neg (negsuc n) = true

-- ret == n, for a number n
abbrev pub eq_pos : ℤ → ℕ → Bool
eq_pos (pos m) n = m == n
eq_pos (negsuc m) n = false

-- ret > 0
abbrev pub is_positive : ℤ → Bool
is_positive (pos n) = ltb 0 n
is_positive (negsuc n) = false

-- The value of an `int` that is known to be at least 0, as an unsigned number.
abbrev pub to_ℕ : ℤ → ℕ
to_ℕ (pos n) = n
to_ℕ (negsuc n) = 0

-- -n, for a number n
abbrev pub neg : ℕ → ℤ
neg ℕ.zero = pos 0
neg (suc n) = negsuc n

-- The `int` that a 32-bit pattern stands for.
abbrev pub signed32 : ℕ → ℤ
signed32 w = if ltb w (2 ^ 31) then pos w else negsuc (2 ^ 32 - w - 1)

-- The integer n with the pattern's bits, for conversion to `uint32_t`.
abbrev pub unsigned32 : ℤ → ℕ
unsigned32 (pos n) = n % 2 ^ 32
unsigned32 (negsuc n) = 2 ^ 32 - 1 - n % 2 ^ 32

pub neg-cases : (z : ℤ) → ((n : ℕ) × (z ≡ pos n)) ⊎ ((n : ℕ) × (z ≡ negsuc n))
neg-cases (pos n) = inl (n, refl)
neg-cases (negsuc n) = inr (n, refl)
