-- ===== src/SpiReg/Lifecycle/Opened.antt =====
-- spi_reg.c: `SpiReg_Init` succeeds on the machine for tests, with three different descriptors.
use linux_uart.Base.{ℕ, ◌≡◌, refl, false, List}
use linux_uart.Base.Int.{pos, is_neg}
use linux_uart.Os.Audit.{Audit, audited, eq_ℤ}
use linux_uart.Os.Scripted.{Script, scripted}
use linux_uart.Uart.Opened.{uart_open-scripted}
use linux_uart.SpiReg.{SpiRegHandle}
use linux_uart.SpiReg.Lifecycle.{init, configure_spi}

pub init-scripted :
    (h : SpiRegHandle) (spi_dev uart_dev : List ℕ) (spi_speed : ℕ) (a : Audit Script)
    → let (ret, h1, _) = init (audited scripted) h spi_dev uart_dev spi_speed a in
      (ret ≡ pos 0) × (is_neg h1.uart_fd ≡ false) × (eq_ℤ h1.uart_fd h1.fd ≡ false)
unfolding init configure_spi
init-scripted h spi_dev uart_dev spi_speed a = rw (uart_open-scripted uart_dev _) (refl, refl, refl)
