-- ===== src/SpiReg/Mcu/Memory.antt =====
-- Registers that are a memory: a read gives the bytes that were written last.
use linux_uart.Base.{ℕ, zero, suc, ◌+◌, ◌≡◌, refl, ap, List, [], ◌∷◌, length, ◌==◌, if◌then◌else◌}
use linux_uart.SpiReg.Mcu.{Registers}

-- `n` bytes from an address on.
abbrev pub cells : ℕ → ℕ → (ℕ → ℕ) → List ℕ
cells addr zero r = []
cells addr (suc n) r = r addr ∷ cells (addr + 1) n r

pub length-cells : (addr n : ℕ) (r : ℕ → ℕ) → length (cells addr n r) ≡ n
length-cells addr zero r = refl
length-cells addr (suc n) r = ap suc (length-cells (addr + 1) n r)

-- The memory with bytes stored from an address on.
abbrev pub store_cells : ℕ → List ℕ → (ℕ → ℕ) → ℕ → ℕ
store_cells addr [] r = r
store_cells addr (b ∷ bs) r = store_cells (addr + 1) bs (λ a. if a == addr then b else r a)

abbrev pub memory : Registers (ℕ → ℕ)
memory = record {
  fetch = cells;
  after_fetch = λ addr n r. r;
  store = store_cells;
  length-fetch = length-cells;
}
