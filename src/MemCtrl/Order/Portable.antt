-- ===== src/MemCtrl/Order/Portable.antt =====
-- general/inc/memctrl.h on a machine of either byte order.
use linux_uart.Base.{
  ℕ, zero, suc, ◌-◌, ◌/◌, ◌<◌, ◌^◌, ◌≡◌, refl, sym, ap, ap₂, ◌∙◌, arith, List, [], ◌∷◌, length,
  get_or,
}
use linux_uart.MemCtrl.{byte_order_change, mem_bytes, mem_val, system_to_big}
use linux_uart.MemCtrl.Order.{
  ByteOrder, little, big, set_mem_val, get_mem_val, mem_little_to_system, mem_big_to_system,
  var_big_to_system, var_system_to_big, var_little_to_system, var_system_to_little,
  set_system_to_little, set_system_to_big, set_little_to_system, set_big_to_system,
}
use linux_uart.MemCtrl.Reverse.{
  byte_order_change_at, byte_order_change-reverse, length-mem_bytes, length-reverse,
  mem_val-mem_bytes, get_or-reverse,
}
use mathlib.Core.List.{reverse, reverse-reverse}
use mathlib.Core.Path.{subst}

-- Every place of the memory holds a byte.
abbrev Bytes : List ℕ → Type 0
Bytes bs = (i : ℕ) → i < length bs → get_or bs i 0 < 256

mem_bytes-Bytes : (n v : ℕ) → Bytes (mem_bytes n v)
unfolding mem_bytes
mem_bytes-Bytes zero v i h = absurd (omega arith)
mem_bytes-Bytes (suc n) v zero h = omega arith
mem_bytes-Bytes (suc n) v (suc i) h = mem_bytes-Bytes n (v / 256) i (omega arith)

reverse-Bytes : (bs : List ℕ) → Bytes bs → Bytes (reverse bs)
reverse-Bytes bs b i h = omega (
  arith,
  get_or-reverse bs i (omega (arith, length-reverse bs)),
  b (length bs - i - 1) (omega (arith, length-reverse bs)),
  length-reverse bs,
)

-- A load and a store of the value loaded keep the bytes.
mem_bytes-mem_val : (bs : List ℕ) → Bytes bs → mem_bytes (length bs) (mem_val bs) ≡ bs
unfolding mem_bytes mem_val
mem_bytes-mem_val [] b = refl
mem_bytes-mem_val (x ∷ bs) b = ap₂ ◌∷◌ (omega (arith, b 0 (omega arith))) (
    ap (mem_bytes (length bs)) (omega (arith, b 0 (omega arith)))
    ∙ mem_bytes-mem_val bs λ i h. b (suc i) (omega arith))

mem_bytes-mem_val_at :
    (n : ℕ) (bs : List ℕ) → length bs ≡ n → Bytes bs → mem_bytes n (mem_val bs) ≡ bs
mem_bytes-mem_val_at n bs e b =
    ap (λ (k : ℕ). mem_bytes k (mem_val bs)) (sym e) ∙ mem_bytes-mem_val bs b

-- Two turns of the bytes of an object are none.
turn_twice :
    (n : ℕ) (bs : List ℕ) → length bs ≡ n → byte_order_change (byte_order_change bs n) n ≡ bs
turn_twice n bs e =
    ap (λ (l : List ℕ). byte_order_change l n) (byte_order_change_at n bs e)
    ∙ byte_order_change_at n (reverse bs) (length-reverse bs ∙ e)
    ∙ reverse-reverse bs

set_mem_val-get_mem_val :
    (order : ByteOrder) (n : ℕ) (bs : List ℕ)
    → length bs ≡ n
    → Bytes bs
    → set_mem_val order n (get_mem_val order bs) ≡ bs
unfolding set_mem_val get_mem_val
set_mem_val-get_mem_val little n bs e b = mem_bytes-mem_val_at n bs e b
set_mem_val-get_mem_val big n bs e b =
    ap reverse (mem_bytes-mem_val_at n (reverse bs) (length-reverse bs ∙ e) (reverse-Bytes bs b))
    ∙ reverse-reverse bs

system_to_big-reverse : (n v : ℕ) → system_to_big n v ≡ reverse (mem_bytes n v)
unfolding system_to_big
system_to_big-reverse n v = byte_order_change_at n (mem_bytes n v) (length-mem_bytes n v)

system_to_big-Bytes : (n v : ℕ) → Bytes (system_to_big n v)
system_to_big-Bytes n v =
    subst Bytes (sym (system_to_big-reverse n v))
      (reverse-Bytes (mem_bytes n v) (mem_bytes-Bytes n v))

pub length-system_to_big : (n v : ℕ) → length (system_to_big n v) ≡ n
length-system_to_big n v =
    ap length (system_to_big-reverse n v) ∙ length-reverse (mem_bytes n v) ∙ length-mem_bytes n v

turned_back : (n v : ℕ) → byte_order_change (system_to_big n v) n ≡ mem_bytes n v
unfolding system_to_big
turned_back n v = turn_twice n (mem_bytes n v) (length-mem_bytes n v)

reversed_back : (n v : ℕ) → reverse (system_to_big n v) ≡ mem_bytes n v
reversed_back n v = ap reverse (system_to_big-reverse n v) ∙ reverse-reverse (mem_bytes n v)

stored_big : (order : ByteOrder) (n v : ℕ) → set_system_to_big order n v ≡ system_to_big n v
unfolding set_system_to_big system_to_big
stored_big little n v = refl
stored_big big n v = sym (system_to_big-reverse n v)

stored_little : (order : ByteOrder) (n v : ℕ) → set_system_to_little order n v ≡ mem_bytes n v
unfolding set_system_to_little
stored_little little n v = refl
stored_little big n v =
    ap (λ (l : List ℕ). byte_order_change l n) (sym (system_to_big-reverse n v)) ∙ turned_back n v

-- The bytes of a big-endian value, turned to the system's order, hold the value.
loaded_big :
    (order : ByteOrder) (n v : ℕ)
    → v < 256 ^ n
    → get_mem_val order (mem_big_to_system order (system_to_big n v) n) ≡ v
unfolding get_mem_val mem_big_to_system
loaded_big little n v h = ap mem_val (turned_back n v) ∙ mem_val-mem_bytes n v h
loaded_big big n v h = ap mem_val (reversed_back n v) ∙ mem_val-mem_bytes n v h

loaded_little :
    (order : ByteOrder) (n v : ℕ)
    → v < 256 ^ n
    → get_mem_val order (mem_little_to_system order (mem_bytes n v) n) ≡ v
unfolding get_mem_val mem_little_to_system system_to_big
loaded_little little n v h = mem_val-mem_bytes n v h
loaded_little big n v h = ap mem_val (reversed_back n v) ∙ mem_val-mem_bytes n v h

var_turn :
    (val : List ℕ)
    → byte_order_change
        (byte_order_change val (length val))
        (length (byte_order_change val (length val)))
      ≡ val
var_turn val =
    ap (byte_order_change (byte_order_change val (length val)))
      (ap length (byte_order_change-reverse val) ∙ length-reverse val)
    ∙ turn_twice (length val) val refl

-- Turning a variable to big-endian and back leaves it as it was, as does turning it twice to
-- little-endian.
var_turn_twice :
    (order : ByteOrder) (val : List ℕ)
    → (var_big_to_system order (var_system_to_big order val) ≡ val)
      × (var_little_to_system order (var_system_to_little order val) ≡ val)
unfolding var_big_to_system var_system_to_big var_little_to_system var_system_to_little
var_turn_twice little val = (var_turn val, refl)
var_turn_twice big val = (refl, var_turn val)

-- A value that fits its type of `n` bytes, on a machine of either byte order. Storing it as
-- big-endian leaves the bytes that the little-endian machine leaves, storing it as little-endian its
-- bytes from the least significant one, and the macros that store a big-endian and a little-endian
-- value in the system's order give the value back from those bytes.
pub set_mem_val-portable :
    (order : ByteOrder) (n v : ℕ)
    → v < 256 ^ n
    → (set_system_to_big order n v ≡ system_to_big n v)
      × (set_system_to_little order n v ≡ mem_bytes n v)
      × (get_mem_val order (set_big_to_system order (set_system_to_big order n v) n) ≡ v)
      × (get_mem_val order (set_little_to_system order (set_system_to_little order n v) n) ≡ v)
unfolding set_big_to_system set_little_to_system
set_mem_val-portable order n v h = (
  stored_big order n v,
  stored_little order n v,
  ap (λ (l : List ℕ). get_mem_val order (mem_big_to_system order l n))
        (set_mem_val-get_mem_val order n _
            (ap length (stored_big order n v) ∙ length-system_to_big n v)
            (subst Bytes (sym (stored_big order n v)) (system_to_big-Bytes n v))
          ∙ stored_big order n v)
      ∙ loaded_big order n v h,
  ap (λ (l : List ℕ). get_mem_val order (mem_little_to_system order l n))
        (set_mem_val-get_mem_val order n _
            (ap length (stored_little order n v) ∙ length-mem_bytes n v)
            (subst Bytes (sym (stored_little order n v)) (mem_bytes-Bytes n v))
          ∙ stored_little order n v)
      ∙ loaded_little order n v h,
)
