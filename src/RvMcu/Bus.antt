-- ===== src/RvMcu/Bus.antt =====
-- rearview_mcu.c: the registers over SPI keep to what the users of a `RegWrCbHandle` rely on.
pub mod Refine
mod Queue
mod Can
mod Named
mod Tests
use linux_uart.Base.{ℕ, ◌<◌, ◌≤◌, ◌^◌, ◌≡◌, ◌⊎◌, inl, inr, refl, true, List, Option, none, some}
use linux_uart.Base.Int.{pos, is_neg}
use linux_uart.Os.{Os}
use linux_uart.SpiReg.{SpiRegHandle}
use linux_uart.SpiReg.Outcome.{read_outcome, write_outcome}
use linux_uart.RvMcu.{spi_bus}

-- `RVMcu_ReadReg` and `RVMcu_WriteReg` return 0 or a negative value, whatever the machine answers, as
-- the comment on the function pointers of `RegWrCbHandle` promises, and a read that fails leaves the
-- caller's buffer alone. Addresses have 16 bits, and at most 1022 registers are accessed.
spi_bus-returns :
    {W : Type 0} (os : Os W) (addr n timeout : ℕ) (buf : List ℕ) (s : Option SpiRegHandle × W)
    → addr < 2 ^ 16
    → n ≤ 1022
    → let (ret, out_data, _) = (spi_bus os).read_reg addr buf n timeout s in
      ((ret ≡ pos 0) ⊎ ((is_neg ret ≡ true) × (out_data ≡ buf)))
      × (((spi_bus os).write_reg addr buf n timeout s).0 ≡ pos 0
          ⊎ is_neg ((spi_bus os).write_reg addr buf n timeout s).0 ≡ true)
unfolding spi_bus linux_uart.SpiReg.read linux_uart.SpiReg.write
spi_bus-returns os addr n timeout buf (none, w) ha hn = (inr (refl, refl), inr refl)
spi_bus-returns os addr n timeout buf (some h, w) ha hn = (
  elim (read_outcome os h addr n buf timeout w ha hn) [
    | inl (failed, same) ↦ inr (failed, same)
    | inr done ↦ inl done.0
  ],
  elim (write_outcome os h addr n buf timeout w) [ inl failed ↦ inr failed | inr done ↦ inl done ],
)
