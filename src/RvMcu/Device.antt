-- ===== src/RvMcu/Device.antt =====
-- rearview_mcu.c: the board that the program runs on, which is the registers over SPI and the calls of
-- the kernel, and how it is opened and closed.
pub mod Audit
use linux_uart.Base.{ℕ, List, [], ◌∷◌, replicate, Option, some}
use linux_uart.Base.Int.{ℤ, pos}
use linux_uart.Os.{Os, rdonly}
use linux_uart.SpiReg.{SpiRegHandle}
use linux_uart.SpiReg.Lifecycle.{init, exit}
use linux_uart.RvMcu.{spi_bus}
use linux_uart.RvMcu.Burn.{Board}

-- The static `spiRegHandle` before it is initialised.
abbrev pub zero_handle : SpiRegHandle
zero_handle = record {
  fd = pos 0;
  lock_fd = pos 0;
  uart_fd = pos 0;
  tx_buf = replicate 1024 0;
  rx_buf = replicate 1024 0;
  speed = 0;
}

-- RVM_SPI_PATH, RVM_UART_PATH and RVM_SPI_SPEED
abbrev pub rvm_spi_path : List ℕ
rvm_spi_path =
    b'/' ∷ b'd' ∷ b'e' ∷ b'v' ∷ b'/' ∷ b's' ∷ b'p' ∷ b'i' ∷ b'd' ∷ b'e' ∷ b'v' ∷ b'3' ∷ b'.' ∷ b'0'
    ∷ []

abbrev pub rvm_uart_path : List ℕ
rvm_uart_path = b'/' ∷ b'd' ∷ b'e' ∷ b'v' ∷ b'/' ∷ b't' ∷ b't' ∷ b'y' ∷ b'S' ∷ b'1' ∷ []

abbrev pub rvm_spi_speed : ℕ
rvm_spi_speed = 10000000

module _ {W : Type 0} (os : Os W) where
  abbrev pub spi_board : Board (Option SpiRegHandle × W)
  spi_board = record {
    bus = spi_bus os;
    open_rdonly = λ path s. let (fd, w) = os.open_file path rdonly s.1 in (fd, (s.0, w));
    read_file = λ fd n s. let (r, bytes, w) = os.read_file fd n s.1 in (r, bytes, (s.0, w));
    close = λ fd s. (s.0, os.close fd s.1);
    usleep = λ us s. (s.0, os.usleep us s.1);
  }

  -- `RVMcu_Init`
  unfoldable pub rvmcu_init : SpiRegHandle → W → ℤ × SpiRegHandle × W
  rvmcu_init h w = init os h rvm_spi_path rvm_uart_path rvm_spi_speed w

  -- `RVMcu_Exit`
  unfoldable pub rvmcu_exit : SpiRegHandle → W → W
  rvmcu_exit h w = exit os h w
