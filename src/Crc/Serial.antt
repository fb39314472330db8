-- ===== src/Crc/Serial.antt =====
-- The table against the shift register that defines the CRC: one bit at a time, lowest bit first,
-- with the reflected polynomial 0xA001.
use linux_uart.Base.{
  ℕ, zero, suc, ◌+◌, ◌*◌, ◌/◌, ◌%◌, ◌<◌, ◌≡◌, refl, sym, ap, ap₂, ◌∙◌, arith, true, List, [], ◌∷◌,
  bit_xor, bit_and, get_or, length, ◌==◌, ==_iff, all_below, all_below-holds,
}
use linux_uart.Base.Bits.{
  bit_xor-half, bit_xor-parity, bit_xor_assoc, bit_xor_comm, bit_xor-zero, bit_xor_fields,
  bit_xor-mod_sixteen, sixteen_nested, bit_and_fifteen,
}
use linux_uart.Crc.{crc_table, crc_nibble, crc_byte, crc16}

-- What the register takes in when the bit that leaves it is 1.
unfoldable pub feedback : ℕ → ℕ
feedback zero = 0
feedback (suc _) = 0xA001

-- One clock of the shift register with the input bit `b`.
unfoldable pub shift_bit : ℕ → ℕ → ℕ
unfolding feedback
shift_bit c b = bit_xor (c / 2) (feedback ((c % 2 + b) % 2))

-- `k` clocks, with the bits of `n` from the lowest on.
unfoldable pub shift_bits : ℕ → ℕ → ℕ → ℕ
unfolding shift_bit
shift_bits zero c n = c
shift_bits (suc k) c n = shift_bits k (shift_bit c (n % 2)) (n / 2)

-- The whole message, eight clocks to a byte.
unfoldable pub shift_message : ℕ → List ℕ → ℕ
unfolding shift_bits
shift_message c [] = c
shift_message c (ch ∷ msg) = shift_message (shift_bits 8 c ch) msg

feedback-xor :
    (u v : ℕ) → u < 2 → v < 2 → feedback ((u + v) % 2) ≡ bit_xor (feedback u) (feedback v)
unfolding feedback
feedback-xor zero zero p q = refl
feedback-xor zero (suc zero) p q = refl
feedback-xor (suc zero) zero p q = refl
feedback-xor (suc zero) (suc zero) p q = refl
feedback-xor zero (suc (suc v)) p q = absurd (omega arith)
feedback-xor (suc zero) (suc (suc v)) p q = absurd (omega arith)
feedback-xor (suc (suc u)) v p q = absurd (omega arith)

xor_exchange :
    (a b c d : ℕ) → bit_xor (bit_xor a b) (bit_xor c d) ≡ bit_xor (bit_xor a c) (bit_xor b d)
xor_exchange a b c d =
    bit_xor_assoc a b (bit_xor c d)
    ∙ ap (bit_xor a) (
        sym (bit_xor_assoc b c d)
        ∙ ap (λ (t : ℕ). bit_xor t d) (bit_xor_comm b c)
        ∙ bit_xor_assoc c b d)
    ∙ sym (bit_xor_assoc a c (bit_xor b d))

-- The register is linear: clocks of a sum are the sum of the clocks.
shift_bit_linear :
    (a b i j : ℕ) → shift_bit (bit_xor a b) ((i + j) % 2) ≡ bit_xor (shift_bit a i) (shift_bit b j)
unfolding shift_bit
shift_bit_linear a b i j =
    ap₂ bit_xor (bit_xor-half a b) (
      ap feedback parity
      ∙ feedback-xor ((a % 2 + i) % 2) ((b % 2 + j) % 2) (omega arith) (omega arith))
    ∙ xor_exchange (a / 2) (b / 2) _ _
  where
    parity : (bit_xor a b % 2 + (i + j) % 2) % 2 ≡ ((a % 2 + i) % 2 + (b % 2 + j) % 2) % 2
    parity = omega (arith, bit_xor-parity a b)

shift_bits_linear :
    (k a b n : ℕ) → shift_bits k (bit_xor a b) n ≡ bit_xor (shift_bits k a 0) (shift_bits k b n)
unfolding shift_bits
shift_bits_linear zero a b n = refl
shift_bits_linear (suc k) a b n =
    ap (λ (c : ℕ). shift_bits k c (n / 2))
      (ap (shift_bit (bit_xor a b)) bit ∙ shift_bit_linear a b 0 (n % 2))
    ∙ shift_bits_linear k (shift_bit a 0) (shift_bit b (n % 2)) (n / 2)
  where
    bit : n % 2 ≡ (0 + n % 2) % 2
    bit = omega arith

shift_bit_even : (m : ℕ) → shift_bit (2 * m) 0 ≡ m
unfolding shift_bit feedback
shift_bit_even m = ap₂ bit_xor half (ap feedback even) ∙ bit_xor-zero m
  where
    half : 2 * m / 2 ≡ m
    half = omega arith

    even : (2 * m % 2 + 0) % 2 ≡ 0
    even = omega arith

-- Four clocks with no input move the upper twelve bits down.
shift_bits_upper : (h : ℕ) → shift_bits 4 (16 * h) 0 ≡ h
unfolding shift_bits
shift_bits_upper h =
    ap (λ (t : ℕ). shift_bit (shift_bit (shift_bit (shift_bit t 0) 0) 0) 0) (sixteen_nested h)
    ∙ simp shift_bit_even

nibble_table :
    all_below 16 (λ l. all_below 16 (λ n. shift_bits 4 l n == get_or crc_table (bit_xor n l) 0))
    ≡ true
unfolding all_below shift_bits
nibble_table = refl

shift_bits_lower : (l n : ℕ) → l < 16 → n < 16 → shift_bits 4 l n ≡ get_or crc_table (bit_xor n l) 0
shift_bits_lower l n hl hn =
    (==_iff _ _).0 (all_below-holds 16 _ n hn (all_below-holds 16 _ l hl nibble_table))

-- Only the four low bits go in.
shift_bits_four : (c n : ℕ) → shift_bits 4 c n ≡ shift_bits 4 c (n % 16)
unfolding shift_bits
shift_bits_four c n =
    ap₂ shift_bit
      (ap₂ shift_bit (ap₂ shift_bit (ap (shift_bit c) (omega arith)) (omega arith)) (omega arith))
      (omega arith)

-- One table lookup is four clocks.
crc_nibble-shift_bits : (c n : ℕ) → crc_nibble c n ≡ shift_bits 4 c n
unfolding crc_nibble
crc_nibble-shift_bits c n =
    ap₂ bit_xor index (sym (shift_bits_upper (c / 16)))
    ∙ bit_xor_comm _ _
    ∙ sym (shift_bits_linear 4 (16 * (c / 16)) (c % 16) (n % 16))
    ∙ ap (λ (t : ℕ). shift_bits 4 t (n % 16))
        (bit_xor_fields (c / 16) (c % 16) (omega arith) ∙ whole)
    ∙ sym (shift_bits_four c n)
  where
    whole : 16 * (c / 16) + c % 16 ≡ c
    whole = omega arith

    index : get_or crc_table (bit_and (bit_xor n c) 15) 0 ≡ shift_bits 4 (c % 16) (n % 16)
    index =
        ap (λ (t : ℕ). get_or crc_table t 0) (bit_and_fifteen _ ∙ bit_xor-mod_sixteen n c)
        ∙ sym (shift_bits_lower (c % 16) (n % 16) (omega arith) (omega arith))

shift_bits_eight : (c n : ℕ) → shift_bits 4 (shift_bits 4 c n) (n / 16) ≡ shift_bits 8 c n
unfolding shift_bits
shift_bits_eight c n =
    ap₂ shift_bit
      (ap₂ shift_bit (ap₂ shift_bit (ap (shift_bit _) (omega arith)) (omega arith)) (omega arith))
      (omega arith)

pub crc_byte-shift_bits : (c ch : ℕ) → crc_byte c ch ≡ shift_bits 8 c ch
unfolding crc_byte
crc_byte-shift_bits c ch =
    crc_nibble-shift_bits (crc_nibble c ch) (ch / 16)
    ∙ ap (λ (t : ℕ). shift_bits 4 t (ch / 16)) (crc_nibble-shift_bits c ch)
    ∙ shift_bits_eight c ch

-- The table-driven `crc16` over a whole message computes the shift register, for every initial
-- value and every message.
pub crc16-eq-shift_message :
    (init_val : ℕ) (msg : List ℕ) → crc16 init_val msg (length msg) ≡ shift_message init_val msg
unfolding crc16 shift_message
crc16-eq-shift_message init_val [] = refl
crc16-eq-shift_message init_val (ch ∷ msg) =
    ap (λ (c : ℕ). crc16 c msg (length msg)) (crc_byte-shift_bits init_val ch)
    ∙ crc16-eq-shift_message (shift_bits 8 init_val ch) msg
