-- ===== src/Run/Bits.antt =====
-- general/inc/bits.h: reading and putting single bits of a byte array.
use linux_uart.Base.{
  ℕ, zero, suc, ◌/◌, ◌%◌, ◌^◌, ◌<◌, ◌≡◌, ◌≢◌, refl, sym, ap, ◌∙◌, arith, Bool, true, false, List,
  [], ◌∷◌, get_or, set, length, length-set, ltb, ◌==◌, ==_iff, bit_and, if◌then◌else◌, all_below,
  all_below-holds, inl, inr, Bool-cases, ltb→lt,
}
use linux_uart.Run.{get_bit, set_bit, put_bit}

-- After bit `j` of a byte is put to `v`, that bit is `v` and the others are as they were.
one_byte : (b j k v : ℕ) → Bool
unfolding put_bit
one_byte b j k v =
    bit_and (put_bit b j v / 2 ^ k) 1 == (if k == j then v else bit_and (b / 2 ^ k) 1)

one_byte_table :
    all_below 256 (λ b. all_below 8 (λ j. all_below 8 (λ k. all_below 2 (λ v. one_byte b j k v))))
    ≡ true
unfolding all_below one_byte put_bit
one_byte_table = refl

put_bit-reads :
    (b j k v : ℕ)
    → b < 256
    → j < 8
    → k < 8
    → v < 2
    → bit_and (put_bit b j v / 2 ^ k) 1 ≡ (if k == j then v else bit_and (b / 2 ^ k) 1)
unfolding one_byte
put_bit-reads b j k v hb hj hk hv = (==_iff _ _).0 (
    all_below-holds 2 _ v hv (
      all_below-holds 8 _ k hk
        (all_below-holds 8 _ j hj (all_below-holds 256 _ b hb one_byte_table))))

get_or-set_same : (xs : List ℕ) (i v : ℕ) → i < length xs → get_or (set xs i v) i 0 ≡ v
get_or-set_same [] i v h = absurd (omega arith)
get_or-set_same (x ∷ xs) zero v h = refl
get_or-set_same (x ∷ xs) (suc i) v h = get_or-set_same xs i v (omega arith)

get_or-set_other : (xs : List ℕ) (i j v : ℕ) → i ≢ j → get_or (set xs i v) j 0 ≡ get_or xs j 0
get_or-set_other [] i j v h = refl
get_or-set_other (x ∷ xs) zero zero v h = absurd (h refl)
get_or-set_other (x ∷ xs) zero (suc j) v h = refl
get_or-set_other (x ∷ xs) (suc i) zero v h = refl
get_or-set_other (x ∷ xs) (suc i) (suc j) v h = get_or-set_other xs i j v (λ e. h (ap suc e))

-- Every number in the list is a byte.
abbrev pub Bytes : List ℕ → Type 0
Bytes xs = (i : ℕ) → get_or xs i 0 < 256

-- Two bits of one byte are the same bit if they have the same place in it.
same_place : (x y : ℕ) → x / 8 ≡ y / 8 → (y % 8 == x % 8) ≡ (y == x)
same_place x y q = ground arith

other_place : (x y : ℕ) → x / 8 ≢ y / 8 → (y == x) ≡ false
other_place x y q = ground (arith, ap (λ (n : ℕ). n / 8) {x = x} {y = y})

in_the_byte :
    (start : List ℕ) (x y v : ℕ)
    → Bytes start
    → x / 8 < length start
    → v < 2
    → x / 8 ≡ y / 8
    → get_bit (set_bit start x v) y ≡ (if y == x then v else get_bit start y)
unfolding get_bit set_bit
in_the_byte start x y v bytes inside hv q =
    let byte = get_or start (x / 8) 0 in
    let bit : ℕ → ℕ = λ t. bit_and (t / 2 ^ (y % 8)) 1 in
    ap (λ (i : ℕ). bit (get_or (set start (x / 8) (put_bit byte (x % 8) v)) i 0)) (sym q)
    ∙ ap bit (get_or-set_same start (x / 8) (put_bit byte (x % 8) v) inside)
    ∙ put_bit-reads byte (x % 8) (y % 8) v (bytes (x / 8)) (omega arith) (omega arith) hv
    ∙ ap (λ (t : Bool). if t then v else bit byte) (same_place x y q)
    ∙ ap (λ (i : ℕ). if y == x then v else bit (get_or start i 0)) q

in_another_byte :
    (start : List ℕ) (x y v : ℕ)
    → x / 8 ≢ y / 8
    → get_bit (set_bit start x v) y ≡ (if y == x then v else get_bit start y)
unfolding get_bit set_bit
in_another_byte start x y v q =
    let bit : ℕ → ℕ = λ t. bit_and (t / 2 ^ (y % 8)) 1 in
    ap bit (get_or-set_other start (x / 8) (y / 8) (put_bit (get_or start (x / 8) 0) (x % 8) v) q)
    ∙ ap (λ (t : Bool). if t then v else bit (get_or start (y / 8) 0)) (sym (other_place x y q))

-- `Set_Bit` puts one bit of a byte array to a value, 0 or 1, and leaves all the others as `Get_Bit`
-- reads them. The bit lies in the array.
pub get_bit-set_bit :
    (start : List ℕ) (x y v : ℕ)
    → Bytes start
    → x / 8 < length start
    → v < 2
    → get_bit (set_bit start x v) y ≡ (if y == x then v else get_bit start y)
get_bit-set_bit start x y v bytes inside hv = elim (Bool-cases (x / 8 == y / 8)) [
  | inl same ↦ in_the_byte start x y v bytes inside hv ((==_iff _ _).0 same)
  | inr other ↦ in_another_byte start x y v (λ e. ground arith)
]

put_bit_table :
    all_below 256 (λ b. all_below 8 (λ j. all_below 2 (λ v. ltb (put_bit b j v) 256))) ≡ true
unfolding all_below put_bit
put_bit_table = refl

put_bit-lt : (b j v : ℕ) → b < 256 → j < 8 → v < 2 → put_bit b j v < 256
put_bit-lt b j v hb hj hv =
    ltb→lt _ _ (
      all_below-holds 2 _ v hv
        (all_below-holds 8 _ j hj (all_below-holds 256 _ b hb put_bit_table)))

pub set_bit-Bytes :
    (start : List ℕ) (x v : ℕ)
    → Bytes start
    → x / 8 < length start
    → v < 2
    → Bytes (set_bit start x v)
unfolding set_bit
set_bit-Bytes start x v bytes inside hv i = elim (Bool-cases (x / 8 == i)) [
  | inl same ↦
      let q : x / 8 ≡ i = (==_iff _ _).0 same in
      omega (
        arith,
        ap (λ (k : ℕ). get_or (set start (x / 8) (put_bit (get_or start (x / 8) 0) (x % 8) v)) k 0)
            q,
        get_or-set_same start (x / 8) (put_bit (get_or start (x / 8) 0) (x % 8) v) inside,
        put_bit-lt (get_or start (x / 8) 0) (x % 8) v (bytes (x / 8)) (omega arith) hv,
      )
  | inr other ↦ omega (
    arith,
    get_or-set_other start (x / 8) i (put_bit (get_or start (x / 8) 0) (x % 8) v)
        (λ e. ground arith),
    bytes i,
  )
]

pub length-set_bit : (start : List ℕ) (x v : ℕ) → length (set_bit start x v) ≡ length start
unfolding set_bit
length-set_bit start x v = length-set start (x / 8) _
