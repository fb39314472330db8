-- ===== src/MemCtrl/Reverse.antt =====
-- The exchange by three exclusive ors reverses the bytes.
use linux_uart.Base.{
  ℕ, zero, suc, ◌+◌, ◌-◌, ◌*◌, ◌/◌, ◌%◌, ◌<◌, ◌^◌, ◌≡◌, refl, sym, ap, ap₂, ◌∙◌, arith, List, [],
  ◌∷◌, ◌++◌, get_or, set, bit_xor, length, length-set, length-append, ◌==◌, ltb, if◌then◌else◌,
  ◌&&◌, leb,
}
use linux_uart.Base.Bits.{bit_xor_comm, bit_xor_undo, bit_xor_undo_left}
use linux_uart.MemCtrl.{
  xor_at, order_loop, byte_order_change, mem_bytes, mem_val, system_to_big, big_to_system,
}
use mathlib.Core.List.{reverse, reverse-append, reverse-reverse}
use native.Mathlib.Nat.{pow-suc}

get_or-set :
    (p : List ℕ) (i j v : ℕ)
    → i < length p
    → get_or (set p i v) j 0 ≡ (if i == j then v else get_or p j 0)
get_or-set [] i j v h = absurd (omega arith)
get_or-set (x ∷ xs) zero zero v h = refl
get_or-set (x ∷ xs) zero (suc j) v h = ground arith
get_or-set (x ∷ xs) (suc i) zero v h = ground arith
get_or-set (x ∷ xs) (suc i) (suc j) v h = ground (arith, get_or-set xs i j v)

-- The three exclusive ors exchange two different places and keep the others.
abbrev exchange : ℕ → ℕ → List ℕ → List ℕ
exchange i j p = xor_at j i (xor_at i j (xor_at j i p))

length-exchange : (i j : ℕ) (p : List ℕ) → length (exchange i j p) ≡ length p
unfolding xor_at
length-exchange i j p = length-set _ j _ ∙ length-set _ i _ ∙ length-set p j _

get_or-xor_at :
    (i j k : ℕ) (p : List ℕ)
    → i < length p
    → get_or (xor_at i j p) k 0
      ≡ (if i == k then bit_xor (get_or p i 0) (get_or p j 0) else get_or p k 0)
unfolding xor_at
get_or-xor_at i j k p h = get_or-set p i k _ h

length-xor_at : (i j : ℕ) (p : List ℕ) → length (xor_at i j p) ≡ length p
unfolding xor_at
length-xor_at i j p = length-set p i _

get_or-exchange :
    (i j k : ℕ) (p : List ℕ)
    → i < j
    → j < length p
    → get_or (exchange i j p) k 0
      ≡ (if i == k then get_or p j 0 else if j == k then get_or p i 0 else get_or p k 0)
get_or-exchange i j k p h hj = ground (
  arith,
  get_or-xor_at j i k p2 (omega (arith, size2)),
  get_or-xor_at i j k p1 (omega (arith, size1)),
  get_or-xor_at j i k p hj,
  at_i2,
  at_j2,
  bit_xor_undo_left b a,
)
  where
    a : ℕ
    a = get_or p i 0

    b : ℕ
    b = get_or p j 0

    p1 : List ℕ
    p1 = xor_at j i p

    p2 : List ℕ
    p2 = xor_at i j p1

    size1 : length p1 ≡ length p
    size1 = length-xor_at j i p

    size2 : length p2 ≡ length p
    size2 = length-xor_at i j p1 ∙ size1

    at_j1 : get_or p1 j 0 ≡ bit_xor b a
    at_j1 = ground (arith, get_or-xor_at j i j p hj)

    at_i1 : get_or p1 i 0 ≡ a
    at_i1 = ground (arith, get_or-xor_at j i i p hj)

    at_i2 : get_or p2 i 0 ≡ b
    at_i2 = ground (
      arith,
      get_or-xor_at i j i p1 (omega (arith, size1)),
      at_i1,
      at_j1,
      bit_xor_comm a (bit_xor b a),
      bit_xor_undo b a,
    )

    at_j2 : get_or p2 j 0 ≡ bit_xor b a
    at_j2 = ground (arith, get_or-xor_at i j j p1 (omega (arith, size1)), at_j1)

-- After the rounds from `i` on, the places from `i` up to `len - i` are turned round.
get_or-order_loop :
    (n i len k : ℕ) (p : List ℕ)
    → i + n ≡ len / 2
    → len ≡ length p
    → get_or (order_loop n i len p) k 0
      ≡ (if leb i k && ltb (k + i) len then get_or p (len - k - 1) 0 else get_or p k 0)
unfolding order_loop
get_or-order_loop zero i len k p e f = ground arith
get_or-order_loop (suc n) i len k p e f = ground (
  arith,
  get_or-order_loop n (i + 1) len k (exchange i (len - i - 1) p) (omega arith)
      (f ∙ sym (length-exchange i (len - i - 1) p)),
  get_or-exchange i (len - i - 1) k p (omega arith) (omega arith),
  get_or-exchange i (len - i - 1) (len - k - 1) p (omega arith) (omega arith),
)

length-order_loop : (n i len : ℕ) (p : List ℕ) → length (order_loop n i len p) ≡ length p
unfolding order_loop
length-order_loop zero i len p = refl
length-order_loop (suc n) i len p =
    length-order_loop n (i + 1) len (exchange i (len - i - 1) p) ∙ length-exchange i (len - i - 1) p

get_or_ext :
    (xs ys : List ℕ)
    → length xs ≡ length ys
    → ((i : ℕ) → i < length xs → get_or xs i 0 ≡ get_or ys i 0)
    → xs ≡ ys
get_or_ext [] [] e h = refl
get_or_ext [] (y ∷ ys) e h = absurd (omega arith)
get_or_ext (x ∷ xs) [] e h = absurd (omega arith)
get_or_ext (x ∷ xs) (y ∷ ys) e h =
    ap₂ ◌∷◌ (h 0 (omega arith)) (get_or_ext xs ys (omega arith) (λ i hi. h (suc i) (omega arith)))

pub length-reverse : (xs : List ℕ) → length (reverse xs) ≡ length xs
length-reverse [] = refl
length-reverse (x ∷ xs) =
    ap length (reverse-append (x ∷ []) xs)
    ∙ omega (arith, length-append (reverse xs) (x ∷ []), length-reverse xs)

get_or-append :
    (xs ys : List ℕ) (i : ℕ)
    → get_or (xs ++ ys) i 0
      ≡ (if ltb i (length xs) then get_or xs i 0 else get_or ys (i - length xs) 0)
get_or-append [] ys i = ground arith
get_or-append (x ∷ xs) ys zero = ground arith
get_or-append (x ∷ xs) ys (suc i) = ground (arith, get_or-append xs ys i)

get_or-cons :
    (x : ℕ) (xs : List ℕ) (k : ℕ)
    → get_or (x ∷ xs) k 0 ≡ (if k == 0 then x else get_or xs (k - 1) 0)
get_or-cons x xs zero = refl
get_or-cons x xs (suc k) = ground arith

pub get_or-reverse :
    (xs : List ℕ) (i : ℕ)
    → i < length xs
    → get_or (reverse xs) i 0 ≡ get_or xs (length xs - i - 1) 0
get_or-reverse [] i h = absurd (omega arith)
get_or-reverse (x ∷ xs) i h =
    ap (λ (l : List ℕ). get_or l i 0) (reverse-append (x ∷ []) xs)
    ∙ get_or-append (reverse xs) (x ∷ []) i
    ∙ ground (
      arith,
      length-reverse xs,
      get_or-reverse xs i,
      get_or-cons x xs (length (x ∷ xs) - i - 1),
      get_or-cons x [] (i - length xs),
    )

-- `_byte_order_change` over a whole object reverses its bytes, whatever its size.
pub byte_order_change-reverse : (p : List ℕ) → byte_order_change p (length p) ≡ reverse p
unfolding byte_order_change
byte_order_change-reverse p =
    get_or_ext _ _ (length-order_loop (length p / 2) 0 (length p) p ∙ sym (length-reverse p))
      λ i hi.
        let small : i < length p = omega (arith, length-order_loop (length p / 2) 0 (length p) p) in
        ground (
          arith,
          get_or-order_loop (length p / 2) 0 (length p) i p (omega arith) refl,
          get_or-reverse p i small,
        )

pub length-mem_bytes : (n v : ℕ) → length (mem_bytes n v) ≡ n
unfolding mem_bytes
length-mem_bytes zero v = refl
length-mem_bytes (suc n) v = ap suc (length-mem_bytes n (v / 256))

pub mem_val-mem_bytes : (n v : ℕ) → v < 256 ^ n → mem_val (mem_bytes n v) ≡ v
unfolding mem_bytes mem_val
mem_val-mem_bytes zero v h = omega arith
mem_val-mem_bytes (suc n) v h =
    omega (arith, mem_val-mem_bytes n (v / 256) (omega (arith, pow-suc 256 n)))

pub byte_order_change_at : (n : ℕ) (p : List ℕ) → length p ≡ n → byte_order_change p n ≡ reverse p
byte_order_change_at n p e = ap (byte_order_change p) (sym e) ∙ byte_order_change-reverse p

-- A value stored big-endian is read back by the conversion the other way: the bytes of a `uint16_t`
-- and of a `uint32_t` that SET_MEM_VAL_TYPE_SYSTEM_TO_BIG writes give its value again.
big_to_system-system_to_big : (n v : ℕ) → v < 256 ^ n → big_to_system (system_to_big n v) n ≡ v
unfolding big_to_system system_to_big
big_to_system-system_to_big n v h =
    ap mem_val (
      ap (λ (l : List ℕ). byte_order_change l n) (byte_order_change_at n bytes size)
      ∙ byte_order_change_at n (reverse bytes) (length-reverse bytes ∙ size)
      ∙ reverse-reverse bytes)
    ∙ mem_val-mem_bytes n v h
  where
    bytes : List ℕ
    bytes = mem_bytes n v

    size : length bytes ≡ n
    size = length-mem_bytes n v

-- The most significant byte of a `uint16_t` comes first.
pub system_to_big_two : (v : ℕ) → v < 2 ^ 16 → system_to_big 2 v ≡ v / 256 ∷ v % 256 ∷ []
unfolding system_to_big
system_to_big_two v h =
    byte_order_change-reverse (v % 256 ∷ v / 256 % 256 ∷ [])
    ∙ ap (λ (t : ℕ). t ∷ v % 256 ∷ []) (omega arith)

pub big_to_system_two : (a b : ℕ) → big_to_system (a ∷ b ∷ []) 2 ≡ a * 256 + b
unfolding big_to_system
big_to_system_two a b = ap mem_val (byte_order_change-reverse (a ∷ b ∷ [])) ∙ omega arith

pub system_to_big_one : (v : ℕ) → v < 256 → system_to_big 1 v ≡ v ∷ []
unfolding system_to_big
system_to_big_one v h =
    byte_order_change-reverse (v % 256 ∷ []) ∙ ap (λ (t : ℕ). t ∷ []) (omega arith)
