-- ===== src/SpiReg/Mcu/Tests.antt =====
-- Register accesses over a link that works, at runs with an MCU whose registers are a memory.
use linux_uart.Base.{ℕ, ◌≡◌, refl, arith, [], ◌∷◌, some}
use linux_uart.Base.Int.{pos}
use linux_uart.SpiReg.{SpiRegHandle, read, write}
use linux_uart.SpiReg.Mcu.{waiting, View}
use linux_uart.SpiReg.Mcu.Access.{SameLink, read-fetches, write-stores}
use linux_uart.SpiReg.Mcu.Memory.{memory, store_cells}
use linux_uart.SpiReg.Mcu.Linked.{linked, linked-McuLink}

abbrev handle : SpiRegHandle
handle = record {
  fd = pos 4;
  lock_fd = pos 3;
  uart_fd = pos 5;
  tx_buf = [];
  rx_buf = [];
  speed = 10000000;
}

-- A byte of an access that was given up is still on the line.
abbrev stale : View (ℕ → ℕ)
stale = record { phase = waiting; line = 78 ∷ []; regs = λ a. a }

read-fetches_example :
    let (ret, out_data, after, v) =
      read (linked memory) (some handle) 0x10 3 (0 ∷ 0 ∷ 0 ∷ 9 ∷ []) 20 stale in
    (ret ≡ pos 0)
    × (out_data ≡ 16 ∷ 17 ∷ 18 ∷ 9 ∷ [])
    × (v ≡ record { phase = waiting; line = []; regs = λ a. a })
    × SameLink handle after
read-fetches_example =
    read-fetches (linked memory) memory handle 20 (λ v. v)
      (linked-McuLink memory (pos 4) (pos 5) 20) 0x10 3 (0 ∷ 0 ∷ 0 ∷ 9 ∷ []) stale (omega arith)
      (omega arith) refl

write-stores_example :
    let (ret, after, v) = write (linked memory) (some handle) 0x10 2 (7 ∷ 8 ∷ 9 ∷ []) 20 stale in
    (ret ≡ pos 0)
    × (v ≡ record { phase = waiting; line = []; regs = store_cells 0x10 (7 ∷ 8 ∷ []) (λ a. a) })
    × SameLink handle after
write-stores_example =
    write-stores (linked memory) memory handle 20 (λ v. v)
      (linked-McuLink memory (pos 4) (pos 5) 20) 0x10 2 (7 ∷ 8 ∷ 9 ∷ []) stale (omega arith)
      (omega arith) (omega arith) refl
