-- ===== src/MemCtrl.antt =====
-- general/inc/memctrl.h: values in memory and their byte order, on a little-endian machine. Order
-- has the macros for either byte order.
pub mod Order
pub mod Reverse
mod Tests
use linux_uart.Base.{ℕ, zero, suc, ◌+◌, ◌-◌, ◌*◌, ◌/◌, ◌%◌, List, [], ◌∷◌, get_or, set, bit_xor}

-- p[i] ^= p[j]
pub xor_at : ℕ → ℕ → List ℕ → List ℕ
xor_at i j p = set p i (bit_xor (get_or p i 0) (get_or p j 0))

-- The rounds of the loop that are left, from `i` on.
pub order_loop : ℕ → ℕ → ℕ → List ℕ → List ℕ
unfolding xor_at
order_loop zero i len p = p
order_loop (suc n) i len p =
    order_loop n (i + 1) len
      (xor_at (len - i - 1) i (xor_at i (len - i - 1) (xor_at (len - i - 1) i p)))

-- `_byte_order_change`: `len / 2` exchanges in place.
unfoldable pub byte_order_change : List ℕ → ℕ → List ℕ
unfolding order_loop
byte_order_change p len = order_loop (len / 2) 0 len p

-- The bytes that a store of `n` bytes of `v` puts into memory, on a little-endian machine.
unfoldable pub mem_bytes : ℕ → ℕ → List ℕ
mem_bytes zero v = []
mem_bytes (suc n) v = v % 256 ∷ mem_bytes n (v / 256)

-- The value that a load from these bytes gives.
unfoldable pub mem_val : List ℕ → ℕ
mem_val [] = 0
mem_val (b ∷ bs) = b + 256 * mem_val bs

-- The bytes at `pdst` after SET_MEM_VAL_TYPE_SYSTEM_TO_BIG(pdst, v, type), for a type of `n` bytes.
unfoldable pub system_to_big : ℕ → ℕ → List ℕ
unfolding byte_order_change mem_bytes
system_to_big n v = byte_order_change (mem_bytes n v) n

-- What SET_MEM_VAL_TYPE_BIG_TO_SYSTEM leaves in a variable, from the bytes of the value given.
unfoldable pub big_to_system : List ℕ → ℕ → ℕ
unfolding byte_order_change mem_val
big_to_system bs n = mem_val (byte_order_change bs n)
