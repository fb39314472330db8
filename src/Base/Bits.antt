-- ===== src/Base/Bits.antt =====
-- Laws of the bit operations at variables, from their recursion on binary digits.
use Prim.Native.Nat.{
  ℕ, zero, suc, ◌+◌, ◌*◌, ◌/◌, ◌%◌, ◌^◌, ◌≤◌, ◌<◌, min, bit_and, bit_xor, digits, bitwise, differ,
  bit_and-bitwise, bit_xor-bitwise,
}
use mathlib.Core.Path.{◌≡◌, refl, sym, ap, ap₂, ◌∙◌}
use native.Mathlib.Omega.{arith}
use native.Mathlib.Nat.{le_refl, pow-suc}

-- `digits` counts down a number of digits to go; any count that covers the first number will do.
module _ (rest : ℕ → ℕ) (join : ℕ → ℕ → ℕ) where
  none_left : (k y : ℕ) → digits rest join k 0 y ≡ rest y
  none_left zero y = refl
  none_left (suc k) y = refl

  enough_digits : (k l x y : ℕ) → x ≤ k → x ≤ l → digits rest join k x y ≡ digits rest join l x y
  enough_digits zero l x y here there =
      let gone : x ≡ 0 = omega arith in rw gone (sym (none_left l y))
  enough_digits (suc k) l zero y here there = sym (none_left l y)
  enough_digits (suc k) zero (suc x) y here there = absurd (omega arith)
  enough_digits (suc k) (suc l) (suc x) y here there =
      ap (λ (upper : ℕ). upper * 2 + join (suc x % 2) (y % 2))
        (enough_digits k l (suc x / 2) (y / 2) (omega arith) (omega arith))

  lowest_digit :
      (x y : ℕ)
      → bitwise rest join (suc x) y
        ≡ join (suc x % 2) (y % 2) + 2 * bitwise rest join (suc x / 2) (y / 2)
  lowest_digit x y =
      omega (arith, enough_digits x (suc x / 2) (suc x / 2) (y / 2) (omega arith) (omega arith))

differ_digits : (x y : ℕ) → x < 2 → y < 2 → differ x y ≡ (x + y) % 2
differ_digits zero y hx hy = omega arith
differ_digits (suc zero) zero hx hy = refl
differ_digits (suc zero) (suc zero) hx hy = refl
differ_digits (suc zero) (suc (suc y)) hx hy = absurd (omega arith)
differ_digits (suc (suc x)) y hx hy = absurd (omega arith)

pub bit_xor_step : (a b : ℕ) → bit_xor a b ≡ bit_xor (a / 2) (b / 2) * 2 + (a % 2 + b % 2) % 2
bit_xor_step zero b = simp bit_xor-bitwise (omega arith)
bit_xor_step (suc a) b = simp bit_xor-bitwise (
    omega (
      arith,
      lowest_digit (λ y. y) differ a b,
      differ_digits (suc a % 2) (b % 2) (omega arith) (omega arith),
    ))

pub bit_and_step : (x y : ℕ) → bit_and x y ≡ min (x % 2) (y % 2) + 2 * bit_and (x / 2) (y / 2)
bit_and_step zero y = simp bit_and-bitwise (omega arith)
bit_and_step (suc x) y = simp bit_and-bitwise (lowest_digit (λ _. 0) min x y)

-- Shifting right goes through `^`, bit by bit.
pub bit_xor-half : (a b : ℕ) → bit_xor a b / 2 ≡ bit_xor (a / 2) (b / 2)
bit_xor-half a b = omega (arith, bit_xor_step a b)

pub bit_xor-parity : (a b : ℕ) → bit_xor a b % 2 ≡ (a % 2 + b % 2) % 2
bit_xor-parity a b = omega (arith, bit_xor_step a b)

zero-bit_xor : (b : ℕ) → bit_xor 0 b ≡ b
zero-bit_xor b = bit_xor-bitwise 0 b

xor_comm_below : (n a b : ℕ) → a ≤ n → b ≤ n → bit_xor a b ≡ bit_xor b a
xor_comm_below zero a b p q = let e : a ≡ b = omega arith in rw e
xor_comm_below (suc n) a b p q = omega (
  arith,
  bit_xor_step a b,
  bit_xor_step b a,
  xor_comm_below n (a / 2) (b / 2) (omega arith) (omega arith),
)

pub bit_xor_comm : (a b : ℕ) → bit_xor a b ≡ bit_xor b a
bit_xor_comm a b = xor_comm_below (a + b) a b (omega arith) (omega arith)

pub bit_xor-zero : (a : ℕ) → bit_xor a 0 ≡ a
bit_xor-zero a = omega (arith, bit_xor_comm a 0, zero-bit_xor a)

xor_self_below : (n a : ℕ) → a ≤ n → bit_xor a a ≡ 0
xor_self_below zero a p = let e : a ≡ 0 = omega arith in rw e
xor_self_below (suc n) a p = omega (arith, bit_xor_step a a, xor_self_below n (a / 2) (omega arith))

pub bit_xor_self : (a : ℕ) → bit_xor a a ≡ 0
bit_xor_self a = xor_self_below a a (le_refl _)

-- Both sides have the same halves and the same lowest digit.
xor_assoc_below :
    (n a b c : ℕ) → a ≤ n → b ≤ n → c ≤ n → bit_xor (bit_xor a b) c ≡ bit_xor a (bit_xor b c)
xor_assoc_below zero a b c p q r =
    let e : a ≡ 0 = omega arith in
    let f : b ≡ 0 = omega arith in let g : c ≡ 0 = omega arith in rw (e, f, g) refl
xor_assoc_below (suc n) a b c p q r = omega (
  arith,
  bit_xor_step (bit_xor a b) c,
  bit_xor_step a (bit_xor b c),
  ap (λ (t : ℕ). bit_xor t (c / 2)) (bit_xor-half a b),
  ap (bit_xor (a / 2)) (bit_xor-half b c),
  bit_xor-parity a b,
  bit_xor-parity b c,
  xor_assoc_below n (a / 2) (b / 2) (c / 2) (omega arith) (omega arith) (omega arith),
)

pub bit_xor_assoc : (a b c : ℕ) → bit_xor (bit_xor a b) c ≡ bit_xor a (bit_xor b c)
bit_xor_assoc a b c = xor_assoc_below (a + b + c) a b c (omega arith) (omega arith) (omega arith)

-- `^` of two words of `k` bits has `k` bits.
pub bit_xor-lt : (k a b : ℕ) → a < 2 ^ k → b < 2 ^ k → bit_xor a b < 2 ^ k
bit_xor-lt zero a b p q =
    let e : a ≡ 0 = omega arith in let f : b ≡ 0 = omega arith in rw (e, f) (omega arith)
bit_xor-lt (suc k) a b p q = omega (
  arith,
  bit_xor_step a b,
  pow-suc 2 k,
  bit_xor-lt k (a / 2) (b / 2) (omega (arith, pow-suc 2 k)) (omega (arith, pow-suc 2 k)),
)

bit_and-zero : (n a : ℕ) → a ≤ n → bit_and a 0 ≡ 0
bit_and-zero zero a p = let e : a ≡ 0 = omega arith in rw e
bit_and-zero (suc n) a p = omega (arith, bit_and_step a 0, bit_and-zero n (a / 2) (omega arith))

-- A mask of ones is a remainder.
pub bit_and_one : (a : ℕ) → bit_and a 1 ≡ a % 2
bit_and_one a = omega (arith, bit_and_step a 1, bit_and-zero (a / 2) (a / 2) (le_refl _))

pub bit_and_fifteen : (a : ℕ) → bit_and a 15 ≡ a % 16
bit_and_fifteen a = omega (
  arith,
  bit_and_step a 15,
  bit_and_step (a / 2) 7,
  bit_and_step (a / 2 / 2) 3,
  bit_and_one (a / 2 / 2 / 2),
)

-- The three exclusive ors of an exchange in place.
pub bit_xor_undo : (a b : ℕ) → bit_xor (bit_xor a b) b ≡ a
bit_xor_undo a b = bit_xor_assoc a b b ∙ ap (bit_xor a) (bit_xor_self b) ∙ bit_xor-zero a

pub bit_xor_undo_left : (a b : ℕ) → bit_xor (bit_xor a b) a ≡ b
bit_xor_undo_left a b = ap (λ (t : ℕ). bit_xor t a) (bit_xor_comm a b) ∙ bit_xor_undo b a

xor_double : (a b : ℕ) → bit_xor (2 * a) b ≡ 2 * bit_xor a (b / 2) + b % 2
xor_double a b =
    omega (arith, bit_xor_step (2 * a) b, ap (λ (t : ℕ). bit_xor t (b / 2)) (half_double a))
  where
    half_double : (n : ℕ) → 2 * n / 2 ≡ n
    half_double n = omega arith

pub sixteen_nested : (h : ℕ) → 16 * h ≡ 2 * (2 * (2 * (2 * h)))
sixteen_nested h = omega arith

xor_fields_nested : (h l : ℕ) → l < 16 → bit_xor (2 * (2 * (2 * (2 * h)))) l ≡ 16 * h + l
xor_fields_nested h l fits = omega (
  arith,
  xor_double (2 * (2 * (2 * h))) l,
  xor_double (2 * (2 * h)) (l / 2),
  xor_double (2 * h) (l / 2 / 2),
  xor_double h (l / 2 / 2 / 2),
  ap (bit_xor h) small,
  bit_xor-zero h,
)
  where
    small : l / 2 / 2 / 2 / 2 ≡ 0
    small = omega arith

-- `^` of fields that do not overlap is a sum.
pub bit_xor_fields : (h l : ℕ) → l < 16 → bit_xor (16 * h) l ≡ 16 * h + l
bit_xor_fields h l fits =
    ap (λ (t : ℕ). bit_xor t l) (sixteen_nested h) ∙ xor_fields_nested h l fits

mod_field : (q r : ℕ) → r < 16 → (16 * q + r) % 16 ≡ r
mod_field q r h = omega arith

zero_field : (r : ℕ) → 16 * 0 + r ≡ r
zero_field r = omega arith

-- The digits of a sum without carries, written with halves.
abbrev low_digits : ℕ → ℕ → ℕ
low_digits a b =
    (a % 2 + b % 2) % 2
    + 2 * ((a / 2 % 2 + b / 2 % 2) % 2)
    + 4 * ((a / 2 / 2 % 2 + b / 2 / 2 % 2) % 2)
    + 8 * ((a / 2 / 2 / 2 % 2 + b / 2 / 2 / 2 % 2) % 2)

xor_four :
    (a b : ℕ) → bit_xor a b ≡ 16 * bit_xor (a / 2 / 2 / 2 / 2) (b / 2 / 2 / 2 / 2) + low_digits a b
xor_four a b = omega (
  arith,
  bit_xor_step a b,
  bit_xor_step (a / 2) (b / 2),
  bit_xor_step (a / 2 / 2) (b / 2 / 2),
  bit_xor_step (a / 2 / 2 / 2) (b / 2 / 2 / 2),
)

low_digits-lt : (a b : ℕ) → low_digits a b < 16
low_digits-lt a b = omega arith

low_digits-mod : (a b : ℕ) → low_digits a b ≡ low_digits (a % 16) (b % 16)
low_digits-mod a b =
    let d0 : (n : ℕ) → n % 2 ≡ n % 16 % 2 = λ n. omega arith in
    let d1 : (n : ℕ) → n / 2 % 2 ≡ n % 16 / 2 % 2 = λ n. omega arith in
    let d2 : (n : ℕ) → n / 2 / 2 % 2 ≡ n % 16 / 2 / 2 % 2 = λ n. omega arith in
    let d3 : (n : ℕ) → n / 2 / 2 / 2 % 2 ≡ n % 16 / 2 / 2 / 2 % 2 = λ n. omega arith in
    λ i.
      (d0 a i + d0 b i) % 2
      + 2 * ((d1 a i + d1 b i) % 2)
      + 4 * ((d2 a i + d2 b i) % 2)
      + 8 * ((d3 a i + d3 b i) % 2)

-- The remainder by 16 goes through `^`.
pub bit_xor-mod_sixteen : (a b : ℕ) → bit_xor a b % 16 ≡ bit_xor (a % 16) (b % 16)
bit_xor-mod_sixteen a b = ap (λ (t : ℕ). t % 16) (xor_four a b) ∙ low ∙ sym upper
  where
    gone : (n : ℕ) → n % 16 / 2 / 2 / 2 / 2 ≡ 0
    gone n = omega arith

    low :
        (16 * bit_xor (a / 2 / 2 / 2 / 2) (b / 2 / 2 / 2 / 2) + low_digits a b) % 16
        ≡ low_digits a b
    low =
        mod_field (bit_xor (a / 2 / 2 / 2 / 2) (b / 2 / 2 / 2 / 2)) (low_digits a b)
          (low_digits-lt a b)

    upper : bit_xor (a % 16) (b % 16) ≡ low_digits a b
    upper =
        xor_four (a % 16) (b % 16)
        ∙ ap₂ (λ (t u : ℕ). 16 * t + u) (ap₂ bit_xor (gone a) (gone b)) (sym (low_digits-mod a b))
        ∙ zero_field (low_digits a b)
