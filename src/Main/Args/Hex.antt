-- ===== src/Main/Args/Hex.antt =====
-- main.c: the bytes that are read from a string of hexadecimal digits.
use linux_uart.Base.{
  ℕ, ◌+◌, ◌-◌, ◌*◌, ◌/◌, ◌%◌, ◌^◌, ◌≤◌, ◌<◌, ◌≡◌, refl, ap, arith, List, [], ◌∷◌, length, ltb, ◌==◌,
  if◌then◌else◌, if-cases, not, ◌||◌, false, Option, none, some, IfSome, bind-IfSome, always-IfSome,
}
use linux_uart.Base.Int.{ℤ, pos}
use linux_uart.Main.Args.{hex_bytes, hex_string_to_byte_array}

-- A digit as "%x" prints it, and a string of bytes as "%02x" prints them.
abbrev pub hex_digit : ℕ → ℕ
hex_digit d = if ltb d 10 then b'0' + d else b'a' + (d - 10)

abbrev pub print_hex : List ℕ → List ℕ
print_hex [] = []
print_hex (b ∷ bytes) = hex_digit (b / 16) ∷ hex_digit (b % 16) ∷ print_hex bytes

-- strtol in base 16 reads two digits.
abbrev pub ReadsHex : (List ℕ → ℕ → Option ℤ) → Type 0
ReadsHex strtol =
    (b : ℕ) → b < 256 → strtol (hex_digit (b / 16) ∷ hex_digit (b % 16) ∷ []) 16 ≡ some (pos b)

length-print_hex : (bytes : List ℕ) → length (print_hex bytes) ≡ 2 * length bytes
length-print_hex [] = refl
length-print_hex (b ∷ bytes) = omega (arith, length-print_hex bytes)

-- Numbers below 256.
abbrev pub Below256 : List ℕ → Type 0
Below256 [] = Unit
Below256 (b ∷ bytes) = (b < 256) × Below256 bytes

-- The test on the length of the string.
right_length : (n size : ℕ) → n ≤ size → (not (2 * n % 2 == 0) || ltb size (2 * n / 2)) ≡ false
right_length n size fits =
    let even : 2 * n % 2 ≡ 0 = omega arith in
    let half : 2 * n / 2 ≡ n = omega arith in rw (even, half) (ground arith)

fits_array :
    (n len size : ℕ) → (not (len % 2 == 0) || ltb size (len / 2)) ≡ false → 2 * n ≡ len → n ≤ size
fits_array n len size test double =
    let half : len / 2 ≡ n = omega (arith, double) in
    let room : ltb size (len / 2) ≡ false = ground arith in ground (arith, half, room)

module _ (strtol : List ℕ → ℕ → Option ℤ) where
  hex_bytes-print_hex :
      (bytes : List ℕ)
      → ReadsHex strtol
      → Below256 bytes
      → hex_bytes strtol (print_hex bytes) ≡ some bytes
  unfolding hex_bytes
  hex_bytes-print_hex [] reads below = refl
  hex_bytes-print_hex (b ∷ bytes) reads (small, below) =
      rw (reads b small, hex_bytes-print_hex bytes reads below)
        (ap (λ (n : ℕ). some (n ∷ bytes)) {x = b % 2 ^ 32 % 2 ^ 8} (omega arith))

  -- `hex_string_to_byte_array` reads back the bytes that "%02x" prints, where they fit the array and
  -- strtol reads two hexadecimal digits.
  pub hex_string_to_byte_array-print_hex :
      (bytes : List ℕ) (byte_array_size : ℕ)
      → ReadsHex strtol
      → Below256 bytes
      → length bytes ≤ byte_array_size
      → hex_string_to_byte_array strtol (print_hex bytes) byte_array_size ≡ some bytes
  unfolding hex_string_to_byte_array
  hex_string_to_byte_array-print_hex bytes size reads below fits =
      rw (length-print_hex bytes, right_length (length bytes) size fits)
        (hex_bytes-print_hex bytes reads below)

  hex_bytes-length :
      (hex_string : List ℕ)
      → IfSome (λ bytes. 2 * length bytes ≡ length hex_string) (hex_bytes strtol hex_string)
  unfolding hex_bytes
  hex_bytes-length [] = refl
  hex_bytes-length (x ∷ []) = tt
  hex_bytes-length (x ∷ y ∷ rest) =
      bind-IfSome _ (strtol (x ∷ y ∷ []) 16) _ (always-IfSome _) λ b _.
        bind-IfSome _ (hex_bytes strtol rest) _ (hex_bytes-length rest)
          λ bytes double. omega (arith, double)

  -- `hex_string_to_byte_array` that does not fail writes one byte for two characters, and no more than
  -- the array has room for, whatever strtol reads.
  pub hex_string_to_byte_array-length :
      (hex_string : List ℕ) (byte_array_size : ℕ)
      → IfSome
          (λ bytes. (2 * length bytes ≡ length hex_string) × (length bytes ≤ byte_array_size))
          (hex_string_to_byte_array strtol hex_string byte_array_size)
  unfolding hex_string_to_byte_array
  hex_string_to_byte_array-length hex_string size =
      let len = length hex_string in
      let Right : Option (List ℕ) → Type 0 =
        IfSome (λ bytes. (2 * length bytes ≡ len) × (length bytes ≤ size)) in
      if-cases Right (not (len % 2 == 0) || ltb size (len / 2)) (λ _. tt)
        λ right. both right (hex_bytes strtol hex_string) (hex_bytes-length hex_string)
    where
      both :
          (not (length hex_string % 2 == 0) || ltb size (length hex_string / 2)) ≡ false
          → (o : Option (List ℕ)) → IfSome (λ bytes. 2 * length bytes ≡ length hex_string) o
          → IfSome (λ bytes. (2 * length bytes ≡ length hex_string) × (length bytes ≤ size)) o
      both right none h = tt
      both right (some bytes) h = (h, fits_array (length bytes) (length hex_string) size right h)
