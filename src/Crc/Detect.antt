-- ===== src/Crc/Detect.antt =====
-- What the CRC of a message tells apart, from the shift register of `Serial`.
use linux_uart.Base.{
  ℕ, zero, suc, ◌+◌, ◌*◌, ◌/◌, ◌%◌, ◌^◌, ◌<◌, ◌≡◌, ◌≢◌, ◌⊎◌, inl, inr, refl, sym, ap, ap₂, ◌∙◌,
  arith, List, [], ◌∷◌, ◌++◌, bit_xor, length, take, ◌≤◌, length-take,
}
use linux_uart.Base.Bits.{
  bit_xor-half, bit_xor-parity, bit_xor_assoc, bit_xor_comm, bit_xor-zero, bit_xor-lt, bit_xor_undo,
  bit_xor_undo_left,
}
use native.Mathlib.Nat.{pow-suc}
use linux_uart.Crc.{crc16, crc_byte}
use linux_uart.Crc.Serial.{feedback, shift_bit, shift_bits, shift_message, crc16-eq-shift_message}

feedback-lt : (f : ℕ) → feedback f < 2 ^ 16
unfolding feedback
feedback-lt zero = omega arith
feedback-lt (suc f) = omega arith

-- The top bit of the register shows whether the feedback went in.
register_parts :
    (x y f g : ℕ)
    → x < 2 ^ 15
    → y < 2 ^ 15
    → f < 2
    → g < 2
    → bit_xor x (feedback f) ≡ bit_xor y (feedback g)
    → (x ≡ y) × (f ≡ g)
unfolding feedback
register_parts x y zero zero hx hy hf hg e = omega (arith, bit_xor-zero x, bit_xor-zero y)
register_parts x y (suc zero) (suc zero) hx hy hf hg e =
    (sym (bit_xor_undo x 0xA001) ∙ ap (λ (t : ℕ). bit_xor t 0xA001) e ∙ bit_xor_undo y 0xA001, refl)
register_parts x y zero (suc zero) hx hy hf hg e = absurd (
    omega (
      arith,
      bit_xor-lt 15 x y hx hy,
      ap (λ (t : ℕ). bit_xor t y) (sym (bit_xor-zero x) ∙ e) ∙ bit_xor_undo_left y 0xA001,
    ))
register_parts x y (suc zero) zero hx hy hf hg e = absurd (
    omega (
      arith,
      bit_xor-lt 15 y x hy hx,
      ap (λ (t : ℕ). bit_xor t x) (sym (bit_xor-zero y) ∙ sym e) ∙ bit_xor_undo_left x 0xA001,
    ))
register_parts x y (suc (suc f)) g hx hy hf hg e = absurd (omega arith)
register_parts x y zero (suc (suc g)) hx hy hf hg e = absurd (omega arith)
register_parts x y (suc zero) (suc (suc g)) hx hy hf hg e = absurd (omega arith)

shift_bit-lt : (c b : ℕ) → c < 2 ^ 16 → shift_bit c b < 2 ^ 16
unfolding shift_bit
shift_bit-lt c b h = bit_xor-lt 16 (c / 2) _ (omega arith) (feedback-lt _)

shift_bit_injective : (c d b : ℕ) → c < 2 ^ 16 → d < 2 ^ 16 → shift_bit c b ≡ shift_bit d b → c ≡ d
unfolding shift_bit
shift_bit_injective c d b hc hd e = omega (
  arith,
  register_parts (c / 2) (d / 2) ((c % 2 + b) % 2) ((d % 2 + b) % 2) (omega arith) (omega arith)
      (omega arith) (omega arith) e,
)

shift_bits-lt : (k c n : ℕ) → c < 2 ^ 16 → shift_bits k c n < 2 ^ 16
unfolding shift_bits
shift_bits-lt zero c n h = h
shift_bits-lt (suc k) c n h = shift_bits-lt k (shift_bit c (n % 2)) (n / 2) (shift_bit-lt c _ h)

shift_bits_injective :
    (k c d n : ℕ) → c < 2 ^ 16 → d < 2 ^ 16 → shift_bits k c n ≡ shift_bits k d n → c ≡ d
unfolding shift_bits
shift_bits_injective zero c d n hc hd e = e
shift_bits_injective (suc k) c d n hc hd e = shift_bit_injective c d (n % 2) hc hd (
    shift_bits_injective k (shift_bit c (n % 2)) (shift_bit d (n % 2)) (n / 2) (shift_bit-lt c _ hc)
      (shift_bit-lt d _ hd) e)

shift_bit-xor : (c n : ℕ) → bit_xor (shift_bit c (n % 2)) (n / 2) ≡ shift_bit (bit_xor c n) 0
unfolding shift_bit
shift_bit-xor c n =
    bit_xor_assoc (c / 2) _ (n / 2)
    ∙ ap (bit_xor (c / 2)) (bit_xor_comm _ (n / 2))
    ∙ sym (bit_xor_assoc (c / 2) (n / 2) _)
    ∙ ap₂ bit_xor (sym (bit_xor-half c n)) (ap feedback parity)
  where
    parity : (c % 2 + n % 2) % 2 ≡ (bit_xor c n % 2 + 0) % 2
    parity = omega (arith, bit_xor-parity c n)

-- The input may as well be put into the register before the clocks.
shift_bits-preload : (k c n : ℕ) → n < 2 ^ k → shift_bits k c n ≡ shift_bits k (bit_xor c n) 0
unfolding shift_bits
shift_bits-preload zero c n h = let e : n ≡ 0 = omega arith in rw e (sym (bit_xor-zero c))
shift_bits-preload (suc k) c n h =
    shift_bits-preload k (shift_bit c (n % 2)) (n / 2) (omega (arith, pow-suc 2 k))
    ∙ ap (λ (t : ℕ). shift_bits k t 0) (shift_bit-xor c n)

-- Clocks for `x` and then for `y` are the clocks for the two put together.
shift_bits_join :
    (j k m c x y : ℕ)
    → j + k ≡ m
    → x < 2 ^ j
    → shift_bits k (shift_bits j c x) y ≡ shift_bits m c (x + 2 ^ j * y)
unfolding shift_bits
shift_bits_join zero k m c x y e h =
    let f : m ≡ k = omega arith in let g : x + 1 * y ≡ y = omega arith in rw (f, g) refl
shift_bits_join (suc j) k zero c x y e h = absurd (omega arith)
shift_bits_join (suc j) k (suc m) c x y e h =
    shift_bits_join j k m (shift_bit c (x % 2)) (x / 2) y (omega arith) (omega (arith, pow-suc 2 j))
    ∙ ap₂ (λ (b n : ℕ). shift_bits m (shift_bit c b) n) first rest
  where
    product : 2 ^ suc j * y ≡ 2 * (2 ^ j * y)
    product = omega (arith, ap (λ (t : ℕ). t * y) (pow-suc 2 j))

    first : x % 2 ≡ (x + 2 ^ suc j * y) % 2
    first = omega (arith, product)

    rest : x / 2 + 2 ^ j * y ≡ (x + 2 ^ suc j * y) / 2
    rest = omega (arith, product)

shift_bits_two :
    (c x y : ℕ) → x < 256 → shift_bits 8 (shift_bits 8 c x) y ≡ shift_bits 16 c (x + 256 * y)
shift_bits_two c x y h = shift_bits_join 8 8 16 c x y refl h

-- Two bytes can be read off from what they do to the register.
two_bytes_injective :
    (c x y x' y' : ℕ)
    → c < 2 ^ 16
    → x < 256
    → y < 256
    → x' < 256
    → y' < 256
    → shift_bits 8 (shift_bits 8 c x) y ≡ shift_bits 8 (shift_bits 8 c x') y'
    → (x ≡ x') × (y ≡ y')
two_bytes_injective c x y x' y' hc hx hy hx' hy' e = omega (arith, same)
  where
    n : ℕ
    n = x + 256 * y

    n' : ℕ
    n' = x' + 256 * y'

    registers : bit_xor c n ≡ bit_xor c n'
    registers =
        shift_bits_injective 16 (bit_xor c n) (bit_xor c n') 0 (bit_xor-lt 16 c n hc (omega arith))
          (bit_xor-lt 16 c n' hc (omega arith))
          (sym (shift_bits-preload 16 c n (omega arith))
            ∙ sym (shift_bits_two c x y hx)
            ∙ e
            ∙ shift_bits_two c x' y' hx'
            ∙ shift_bits-preload 16 c n' (omega arith))

    same : n ≡ n'
    same =
        sym (bit_xor_undo_left c n) ∙ ap (λ (t : ℕ). bit_xor t c) registers ∙ bit_xor_undo_left c n'

shift_message-append :
    (c : ℕ) (xs ys : List ℕ) → shift_message c (xs ++ ys) ≡ shift_message (shift_message c xs) ys
unfolding shift_message
shift_message-append c [] ys = refl
shift_message-append c (x ∷ xs) ys = shift_message-append (shift_bits 8 c x) xs ys

shift_message-lt : (c : ℕ) (msg : List ℕ) → c < 2 ^ 16 → shift_message c msg < 2 ^ 16
unfolding shift_message
shift_message-lt c [] h = h
shift_message-lt c (x ∷ xs) h = shift_message-lt (shift_bits 8 c x) xs (shift_bits-lt 8 c x h)

shift_message_injective :
    (c d : ℕ) (msg : List ℕ)
    → c < 2 ^ 16
    → d < 2 ^ 16
    → shift_message c msg ≡ shift_message d msg
    → c ≡ d
unfolding shift_message
shift_message_injective c d [] hc hd e = e
shift_message_injective c d (x ∷ xs) hc hd e = shift_bits_injective 8 c d x hc hd (
    shift_message_injective (shift_bits 8 c x) (shift_bits 8 d x) xs (shift_bits-lt 8 c x hc)
      (shift_bits-lt 8 d x hd) e)

-- `crc16` of a 16-bit initial value has 16 bits, so the C code's `uint16_t` never cuts it.
crc16-lt :
    (init_val : ℕ) (msg : List ℕ) → init_val < 2 ^ 16 → crc16 init_val msg (length msg) < 2 ^ 16
crc16-lt init_val msg h = rw (crc16-eq-shift_message init_val msg) (shift_message-lt init_val msg h)

-- Only the bytes counted matter.
pub crc16-take :
    (init_val : ℕ) (msg : List ℕ) (n : ℕ) → crc16 init_val (take n msg) n ≡ crc16 init_val msg n
unfolding crc16
crc16-take init_val msg zero = refl
crc16-take init_val [] (suc n) = refl
crc16-take init_val (ch ∷ msg) (suc n) = crc16-take (crc_byte init_val ch) msg n

-- A CRC is a `uint16_t`, however many bytes it runs over.
pub crc16-bounded :
    (c : ℕ) (msg : List ℕ) (n : ℕ) → c < 2 ^ 16 → n ≤ length msg → crc16 c msg n < 2 ^ 16
crc16-bounded c msg n h k =
    let counted : length (take n msg) ≡ n = omega (arith, length-take n msg) in
    omega (arith, crc16-take c msg n, ap (crc16 c (take n msg)) counted, crc16-lt c (take n msg) h)

-- The CRC of a message continues from the CRC of its front: the program runs it over the command
-- first and over the data later.
crc16-append :
    (init_val : ℕ) (xs ys : List ℕ)
    → crc16 init_val (xs ++ ys) (length (xs ++ ys))
      ≡ crc16 (crc16 init_val xs (length xs)) ys (length ys)
crc16-append init_val xs ys =
    crc16-eq-shift_message init_val (xs ++ ys)
    ∙ shift_message-append init_val xs ys
    ∙ sym (
        crc16-eq-shift_message (crc16 init_val xs (length xs)) ys
        ∙ ap (λ (c : ℕ). shift_message c ys) (crc16-eq-shift_message init_val xs))

two_bytes_of_crc16 :
    (init_val x y x' y' : ℕ) (front back : List ℕ)
    → init_val < 2 ^ 16
    → x < 256
    → y < 256
    → x' < 256
    → y' < 256
    → crc16 init_val (front ++ (x ∷ y ∷ back)) (length (front ++ (x ∷ y ∷ back)))
      ≡ crc16 init_val (front ++ (x' ∷ y' ∷ back)) (length (front ++ (x' ∷ y' ∷ back)))
    → (x ≡ x') × (y ≡ y')
two_bytes_of_crc16 init_val x y x' y' front back h hx hy hx' hy' e =
    two_bytes_injective c x y x' y' hc hx hy hx' hy' (
      shift_message_injective _ _ back (shift_bits-lt 8 _ y (shift_bits-lt 8 c x hc))
        (shift_bits-lt 8 _ y' (shift_bits-lt 8 c x' hc)) (sym (split x y) ∙ e ∙ split x' y'))
  where
    c : ℕ
    c = shift_message init_val front

    hc : c < 2 ^ 16
    hc = shift_message-lt init_val front h

    split :
        (u v : ℕ)
        → crc16 init_val (front ++ (u ∷ v ∷ back)) (length (front ++ (u ∷ v ∷ back)))
          ≡ shift_message (shift_bits 8 (shift_bits 8 c u) v) back
    split u v =
        crc16-eq-shift_message init_val (front ++ (u ∷ v ∷ back))
        ∙ shift_message-append init_val front (u ∷ v ∷ back)
        ∙ unfold shift_message in refl

-- Every corruption confined to two adjacent bytes is detected: two messages that agree before and
-- after two adjacent bytes, and differ in one of those, have different CRCs, from every 16-bit
-- initial value.
pub crc16_detects_two_bytes :
    (init_val x y x' y' : ℕ) (front back : List ℕ)
    → init_val < 2 ^ 16
    → x < 256
    → y < 256
    → x' < 256
    → y' < 256
    → (x ≢ x') ⊎ (y ≢ y')
    → crc16 init_val (front ++ (x ∷ y ∷ back)) (length (front ++ (x ∷ y ∷ back)))
      ≢ crc16 init_val (front ++ (x' ∷ y' ∷ back)) (length (front ++ (x' ∷ y' ∷ back)))
crc16_detects_two_bytes init_val x y x' y' front back h hx hy hx' hy' (inl differ) e =
    differ (two_bytes_of_crc16 init_val x y x' y' front back h hx hy hx' hy' e).0
crc16_detects_two_bytes init_val x y x' y' front back h hx hy hx' hy' (inr differ) e =
    differ (two_bytes_of_crc16 init_val x y x' y' front back h hx hy hx' hy' e).1
