-- ===== src/MemCtrl/Tests.antt =====
-- Runs of the byte-order functions, and their theorems at concrete inputs.
use linux_uart.Base.{◌≡◌, refl, arith, [], ◌∷◌, none, some}
use linux_uart.MemCtrl.{byte_order_change, system_to_big, mem_bytes}
use linux_uart.MemCtrl.Order.{
  little, big, mem_byte_order, get_mem_val, set_big_to_system, set_little_to_system,
  set_system_to_big, set_system_to_little,
}
use linux_uart.MemCtrl.Order.Portable.{set_mem_val-portable}

odd_length : byte_order_change (1 ∷ 2 ∷ 3 ∷ []) 3 ≡ 3 ∷ 2 ∷ 1 ∷ []
unfolding byte_order_change
odd_length = refl

big_word : system_to_big 4 0x01020304 ≡ 1 ∷ 2 ∷ 3 ∷ 4 ∷ []
unfolding system_to_big
big_word = refl

-- A value that is neither order is dropped for the compiler's.
unknown_order : mem_byte_order (some 3412) (some (1234, 4321)) ≡ little
unfolding mem_byte_order
unknown_order = refl

network_machine : mem_byte_order none (some (4321, 4321)) ≡ big
unfolding mem_byte_order
network_machine = refl

big_machine : set_system_to_little big 4 0x01020304 ≡ 4 ∷ 3 ∷ 2 ∷ 1 ∷ []
unfolding set_system_to_little
big_machine = refl

set_mem_val-portable_example :
    (set_system_to_big big 2 0x1402 ≡ system_to_big 2 0x1402)
    × (set_system_to_little big 2 0x1402 ≡ mem_bytes 2 0x1402)
    × (get_mem_val big (set_big_to_system big (set_system_to_big big 2 0x1402) 2) ≡ 0x1402)
    × (get_mem_val big (set_little_to_system big (set_system_to_little big 2 0x1402) 2) ≡ 0x1402)
set_mem_val-portable_example = set_mem_val-portable big 2 0x1402 (omega arith)
