-- ===== src/MemCtrl/Order.antt =====
-- The macros of general/inc/memctrl.h for a machine of either byte order. The rest of the
-- development stands on a little-endian one.
pub mod Portable
use linux_uart.Base.{ℕ, List, length, Option, none, some, ◌==◌, if◌then◌else◌}
use linux_uart.MemCtrl.{byte_order_change, mem_bytes, mem_val}
use mathlib.Core.List.{reverse}

pub data ByteOrder : Type 0 where
  little : ByteOrder
  big : ByteOrder

-- What the compiler's `__BYTE_ORDER__` and `__ORDER_BIG_ENDIAN__` say, where it defines them.
pub compiler_order : Option (ℕ × ℕ) → ByteOrder
compiler_order none = little
compiler_order (some (byte_order, order_big)) = if byte_order == order_big then big else little

-- `_MEM_BYTE_ORDER`, from the value the user gives and from the compiler's.
unfoldable pub mem_byte_order : Option ℕ → Option (ℕ × ℕ) → ByteOrder
unfolding compiler_order
mem_byte_order none compiler = compiler_order compiler
mem_byte_order (some order) compiler =
    if order == 4321 then big else if order == 1234 then little else compiler_order compiler

-- SET_MEM_VAL_TYPE(pdst, v, type): the bytes of a store of `v` as a type of `n` bytes.
unfoldable pub set_mem_val : ByteOrder → ℕ → ℕ → List ℕ
unfolding mem_bytes
set_mem_val little n v = mem_bytes n v
set_mem_val big n v = reverse (mem_bytes n v)

-- GET_MEM_VAL(psrc, type)
unfoldable pub get_mem_val : ByteOrder → List ℕ → ℕ
unfolding mem_val
get_mem_val little bs = mem_val bs
get_mem_val big bs = mem_val (reverse bs)

-- MEM_BYTE_ORDER_LITTLE_TO_SYSTEM
unfoldable pub mem_little_to_system : ByteOrder → List ℕ → ℕ → List ℕ
unfolding byte_order_change
mem_little_to_system little p len = p
mem_little_to_system big p len = byte_order_change p len

-- MEM_BYTE_ORDER_BIG_TO_SYSTEM
unfoldable pub mem_big_to_system : ByteOrder → List ℕ → ℕ → List ℕ
unfolding byte_order_change
mem_big_to_system little p len = byte_order_change p len
mem_big_to_system big p len = p

-- MEM_BYTE_ORDER_SYSTEM_TO_LITTLE
unfoldable pub mem_system_to_little : ByteOrder → List ℕ → ℕ → List ℕ
unfolding byte_order_change
mem_system_to_little little p len = p
mem_system_to_little big p len = byte_order_change p len

-- MEM_BYTE_ORDER_SYSTEM_TO_BIG
unfoldable pub mem_system_to_big : ByteOrder → List ℕ → ℕ → List ℕ
unfolding byte_order_change
mem_system_to_big little p len = byte_order_change p len
mem_system_to_big big p len = p

-- The macros on a variable, whose size is the length of its bytes. The two that go from the
-- system's order are, in the source, the macros that go to it.
unfoldable pub var_little_to_system : ByteOrder → List ℕ → List ℕ
unfolding mem_little_to_system
var_little_to_system order val = mem_little_to_system order val (length val)

unfoldable pub var_big_to_system : ByteOrder → List ℕ → List ℕ
unfolding mem_big_to_system
var_big_to_system order val = mem_big_to_system order val (length val)

unfoldable pub var_system_to_little : ByteOrder → List ℕ → List ℕ
unfolding mem_little_to_system
var_system_to_little order val = mem_little_to_system order val (length val)

unfoldable pub var_system_to_big : ByteOrder → List ℕ → List ℕ
unfolding mem_big_to_system
var_system_to_big order val = mem_big_to_system order val (length val)

-- SET_MEM_VAL_TYPE_SYSTEM_TO_LITTLE
unfoldable pub set_system_to_little : ByteOrder → ℕ → ℕ → List ℕ
unfolding set_mem_val mem_system_to_little
set_system_to_little order n v = mem_system_to_little order (set_mem_val order n v) n

-- SET_MEM_VAL_TYPE_SYSTEM_TO_BIG
unfoldable pub set_system_to_big : ByteOrder → ℕ → ℕ → List ℕ
unfolding set_mem_val mem_system_to_big
set_system_to_big order n v = mem_system_to_big order (set_mem_val order n v) n

-- SET_MEM_VAL_TYPE_LITTLE_TO_SYSTEM, of the value that the bytes `src` hold.
unfoldable pub set_little_to_system : ByteOrder → List ℕ → ℕ → List ℕ
unfolding set_mem_val get_mem_val mem_little_to_system
set_little_to_system order src n =
    mem_little_to_system order (set_mem_val order n (get_mem_val order src)) n

-- SET_MEM_VAL_TYPE_BIG_TO_SYSTEM, of the value that the bytes `src` hold.
unfoldable pub set_big_to_system : ByteOrder → List ℕ → ℕ → List ℕ
unfolding set_mem_val get_mem_val mem_big_to_system
set_big_to_system order src n =
    mem_big_to_system order (set_mem_val order n (get_mem_val order src)) n
