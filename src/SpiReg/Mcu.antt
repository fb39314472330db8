-- ===== src/SpiReg/Mcu.antt =====
-- The MCU at the other end of a register access, as hypotheses: what spi_reg.c relies on when an
-- access is to succeed. The firmware of the MCU is not part of the repository.
pub mod Data
pub mod Access
pub mod Linked
pub mod Memory
mod Tests
use linux_uart.Base.{
  ℕ, ◌+◌, ◌≤◌, ◌<◌, ◌^◌, ◌≡◌, true, false, List, [], ◌∷◌, ◌++◌, length, take, Option, some,
}
use linux_uart.Base.Int.{ℤ, pos, is_neg, signed32}
use linux_uart.Crc.{crc16}
use linux_uart.MemCtrl.{system_to_big}
use linux_uart.Os.{Os, FlockOp}
use linux_uart.SpiReg.{SpiRegHandle, ack, cmd_start, cmd_len, command, trans_length}

-- What the MCU waits for: the start byte, a command, or the data of a command.
pub data Phase : Type 0 where
  waiting started : Phase
  commanded : (code reg_addr reg_cnt : ℕ) → Phase

-- What of the machine's state an access depends on: the MCU's phase, the bytes on the serial line
-- that are still to be read, and the registers.
pub record View (R : Type 0) : Type 0 where
  pub phase : Phase
  pub line : List ℕ
  pub regs : R

-- The registers of the MCU. Reading some of them changes others, as those of a ring buffer do.
pub record Registers (R : Type 0) : Type 0 where
  pub fetch : ℕ → ℕ → R → List ℕ
  pub after_fetch : ℕ → ℕ → R → R
  pub store : ℕ → List ℕ → R → R
  pub length-fetch : (addr n : ℕ) (r : R) → length (fetch addr n r) ≡ n

-- The data of an access as it goes over SPI, with the CRC that runs over the command and the data.
abbrev pub with_crc : ℕ → ℕ → ℕ → List ℕ → List ℕ
with_crc code reg_addr reg_cnt bytes =
    bytes ++ system_to_big 2 (crc16 (crc16 0xffff (command code reg_addr reg_cnt) 5) bytes reg_cnt)

-- The kernel and the MCU answer every call in time and without a fault. `view` is what an access can
-- tell of the machine's state.
pub record McuLink {W R : Type 0} (os : Os W) (regs : Registers R) (spi_fd uart_fd : ℤ)
    (timeout : ℕ) (view : W → View R) : Type 0 where
  pub locks : (fd : ℤ) (op : FlockOp) (w : W) → is_neg (os.flock fd op w).0 ≡ false
  pub flock_keeps : (fd : ℤ) (op : FlockOp) (w : W) → view (os.flock fd op w).1 ≡ view w
  pub mutex_lock_keeps : (w : W) → view (os.mutex_lock w) ≡ view w
  pub mutex_unlock_keeps : (w : W) → view (os.mutex_unlock w) ≡ view w
  pub flushes : (w : W) → view (os.tcflush_in uart_fd w) ≡ record (view w) { line = [] }
  -- the start byte is acknowledged
  pub starts :
      (w : W)
      → (view w).phase ≡ waiting
      → let (ret, w1) = os.write_fd uart_fd (cmd_start ∷ []) w in
        (ret ≡ pos 1)
        × (view w1 ≡ record (view w) { phase = started; line = (view w).line ++ (ack ∷ []) })
  -- a byte on the line is announced and read
  pub polls :
      (w : W) (b : ℕ) (rest : List ℕ)
      → (view w).line ≡ b ∷ rest
      → let (ret, pollin, w1) = os.poll uart_fd (signed32 timeout) w in
        (ret ≡ pos 1) × (pollin ≡ true) × (view w1 ≡ view w)
  pub reads :
      (w : W) (b : ℕ) (rest : List ℕ)
      → (view w).line ≡ b ∷ rest
      → let (ret, bytes, w1) = os.read_fd uart_fd 1 w in
        (ret ≡ pos 1) × (bytes ≡ b ∷ []) × (view w1 ≡ record (view w) { line = rest })
  -- a command for as many registers as the buffers hold is acknowledged
  pub commands :
      (tx : List ℕ) (w : W) (code reg_addr reg_cnt : ℕ)
      → code < 256
      → reg_addr < 2 ^ 16
      → reg_cnt ≤ 1022
      → (view w).phase ≡ started
      → take 5 tx ≡ command code reg_addr reg_cnt
      → let (ret, _, w1) = os.spi_message spi_fd tx cmd_len w in
        (is_neg ret ≡ false)
        × (view w1 ≡ record (view w) {
          phase = commanded code reg_addr reg_cnt;
          line = (view w).line ++ (ack ∷ []);
        })
  -- the data of a read comes with its CRC behind it, and an acknowledgement
  pub sends :
      (tx : List ℕ) (w : W) (reg_addr reg_cnt : ℕ)
      → (view w).phase ≡ commanded 3 reg_addr reg_cnt
      → let (ret, rx, w1) = os.spi_message spi_fd tx (trans_length reg_cnt) w in
        let r = (view w).regs in
        (is_neg ret ≡ false)
        × (take (reg_cnt + 2) rx ≡ with_crc 3 reg_addr reg_cnt (regs.fetch reg_addr reg_cnt r))
        × (view w1 ≡ record (view w) {
          phase = waiting;
          line = (view w).line ++ (ack ∷ []);
          regs = regs.after_fetch reg_addr reg_cnt r;
        })
  -- the data of a write is stored and acknowledged if the CRC behind it is right
  pub receives :
      (tx : List ℕ) (w : W) (reg_addr reg_cnt : ℕ) (bytes : List ℕ)
      → (view w).phase ≡ commanded 6 reg_addr reg_cnt
      → length bytes ≡ reg_cnt
      → take (reg_cnt + 2) tx ≡ with_crc 6 reg_addr reg_cnt bytes
      → let (ret, _, w1) = os.spi_message spi_fd tx (trans_length reg_cnt) w in
        (is_neg ret ≡ false)
        × (view w1 ≡ record (view w) {
          phase = waiting;
          line = (view w).line ++ (ack ∷ []);
          regs = regs.store reg_addr bytes (view w).regs;
        })
