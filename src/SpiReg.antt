-- ===== src/SpiReg.antt =====
-- spi_reg.c: register access over SPI, with a handshake over the serial port.
pub mod Frame
pub mod Outcome
pub mod Detect
pub mod Audit
pub mod Descriptors
pub mod Lifecycle
pub mod Mcu
pub mod Wire
mod Tests
use linux_uart.Base.{
  ℕ, zero, suc, ◌+◌, ◌-◌, ◌*◌, ◌%◌, Bool, true, false, List, [], ◌∷◌, ◌++◌, ltb, ◌==◌, not, ◌||◌,
  if◌then◌else◌, get_or, take, drop, replicate, overwrite, write_at, Option, none, some,
}
use linux_uart.Base.Int.{ℤ, pos, negsuc, is_neg, eq_pos, neg}
use linux_uart.Crc.{crc16}
use linux_uart.MemCtrl.{system_to_big, big_to_system}
use linux_uart.Os.{
  Os, lock_ex, lock_un, rdwr, creat, wr_mode, lsb_first, bits_per_word, max_speed_hz,
}
use linux_uart.Uart.{uart_open, uart_write, uart_read, uart_in_clean}

-- `SPI_RT_MSG_MAX_SIZE`, `SPI_CMD_…`, `SPI_ACK` and the lengths of the command.
abbrev pub msg_max_size : ℕ
msg_max_size = 1024

abbrev pub cmd_read_reg : ℕ
cmd_read_reg = 0x03

abbrev pub cmd_write_reg : ℕ
cmd_write_reg = 0x06

abbrev pub ack : ℕ
ack = b'A'

abbrev pub cmd_start : ℕ
cmd_start = b'S'

abbrev pub cmd_len : ℕ
cmd_len = 8

abbrev pub wr_cmd_len : ℕ
wr_cmd_len = 5

-- `SpiRegHandle`; its mutex is part of the machine.
pub record SpiRegHandle : Type 0 where
  pub fd : ℤ
  pub lock_fd : ℤ
  pub uart_fd : ℤ
  pub tx_buf : List ℕ
  pub rx_buf : List ℕ
  pub speed : ℕ

-- memset(buf, 0xff, SPI_RT_MSG_MAX_SIZE)
pub blank : List ℕ
blank = replicate msg_max_size 0xff

-- The five bytes of a command: its code, the address and the count, both big-endian.
pub command : ℕ → ℕ → ℕ → List ℕ
command code reg_addr reg_cnt =
    system_to_big 1 code ++ (system_to_big 2 reg_addr ++ system_to_big 2 reg_cnt)

-- The handle after the buffers are cleared and the command is put together.
pub prepare : SpiRegHandle → ℕ → ℕ → ℕ → SpiRegHandle
unfolding command blank
prepare h code reg_addr reg_cnt = record h {
  rx_buf = blank;
  tx_buf = write_at 0 (command code reg_addr reg_cnt) blank;
}

-- The length of a data transfer: the data and two bytes of CRC, filled up to eight bytes.
pub fill_len : ℕ → ℕ
fill_len trans_length = (8 - trans_length % 8) % 8

pub trans_length : ℕ → ℕ
unfolding fill_len
trans_length reg_cnt = reg_cnt + 2 + fill_len (reg_cnt + 2)

-- What `SpiReg_Write` puts into the transmit buffer for the data: the data, the CRC big-endian, and
-- 0xff for the fill. The list is what `reg_data` points at.
pub data_frame : List ℕ → List ℕ → ℕ → ℕ → List ℕ
unfolding fill_len
data_frame tx_buf reg_data reg_cnt crc16_val =
    write_at (reg_cnt + 2) (replicate (fill_len (reg_cnt + 2)) 0xff)
      (write_at reg_cnt (system_to_big 2 crc16_val) (write_at 0 (take reg_cnt reg_data) tx_buf))

-- The CRC that stands behind the data in the receive buffer.
pub received_crc : List ℕ → ℕ → ℕ
received_crc rx_buf reg_cnt =
    big_to_system (get_or rx_buf reg_cnt 0 ∷ get_or rx_buf (reg_cnt + 1) 0 ∷ []) 2

-- How a part of an exchange ends: it goes on with a value, or jumps to the label `out` with the
-- value of `ret`.
pub data Step (A : Type 0) : Type 0 where
  go : A → Step A
  out : ℤ → Step A

-- A part of an exchange works on the handle and the machine.
abbrev pub Exchange : Type 0 → Type 0 → Type 0
Exchange W A = SpiRegHandle → W → Step A × SpiRegHandle × W

infixl 5 ◌>>=◌ ◌>>◌
abbrev pub ◌>>=◌ : {W A B : Type 0} → Exchange W A → (A → Exchange W B) → Exchange W B
◌>>=◌ m f h w = let r = m h w in elim r.0 [ go a ↦ f a r.1 r.2 | out ret ↦ (out ret, r.1, r.2) ]

abbrev pub ◌>>◌ : {W B : Type 0} → Exchange W (Unit {0}) → Exchange W B → Exchange W B
m >> k = m >>= λ _. k

abbrev pub pure : {W A : Type 0} → A → Exchange W A
pure a h w = (go a, h, w)

-- if(c) { ret = e; goto out; }
abbrev pub exit_if : {W : Type 0} → Bool → ℤ → Exchange W (Unit {0})
exit_if c e h w = (if c then out e else go tt, h, w)

abbrev pub handle : {W : Type 0} → Exchange W SpiRegHandle
handle h w = (go h, h, w)

abbrev pub update : {W : Type 0} → (SpiRegHandle → SpiRegHandle) → Exchange W (Unit {0})
update f h w = (go tt, f h, w)

-- The caller's buffer and `ret` at the end of a read, and `ret` at the end of a write.
abbrev pub finish_read : List ℕ → Step (List ℕ) → ℤ × List ℕ
finish_read reg_data (go bytes) = (pos 0, write_at 0 bytes reg_data)
finish_read reg_data (out ret) = (ret, reg_data)

abbrev pub finish_write : Step ℤ → ℤ
finish_write (go ret) = ret
finish_write (out ret) = ret

module _ {W : Type 0} (os : Os W) where
  -- `_TransferSpi`: the bytes received go to the front of the receive buffer.
  pub transfer_spi : ℕ → Exchange W ℤ
  transfer_spi length h w =
      let (ret, rx, w1) = os.spi_message h.fd h.tx_buf length w in
      (go ret, record h { rx_buf = write_at 0 rx h.rx_buf }, w1)

  -- `_GotoStartCmd`; `ch` keeps the start byte where nothing is read.
  pub goto_start_cmd : ℕ → Exchange W ℤ
  goto_start_cmd timeout h w =
      let (wr, w1) = uart_write os h.uart_fd (cmd_start ∷ []) (uart_in_clean os h.uart_fd w) in
      let (rd, bytes, w2) = uart_read os h.uart_fd 1 timeout w1 in
      if not (eq_pos wr 1)
      then (go (neg 1), h, w1)
      else if is_neg rd || eq_pos rd 0
      then (go (neg 1), h, w2)
      else if not (get_or bytes 0 cmd_start == ack)
      then (go (neg 1), h, w2)
      else (go (pos 0), h, uart_in_clean os h.uart_fd w2)

  -- `_WaitAck`
  pub wait_ack : ℕ → Exchange W ℤ
  wait_ack timeout h w =
      let (rd, bytes, w1) = uart_read os h.uart_fd 1 timeout w in
      if not (eq_pos rd 1) || not (get_or bytes 0 0 == ack)
      then (go (neg 1), h, w1)
      else (go (pos 0), h, uart_in_clean os h.uart_fd w1)

  -- The handshake and the command, which both directions begin with. The value is the CRC of the
  -- command, with which the CRC of the data goes on.
  pub start : ℕ → ℕ → ℕ → ℕ → Exchange W ℕ
  unfolding prepare
  start code reg_addr reg_cnt timeout = do
    update (λ h. prepare h code reg_addr reg_cnt)
    h ← handle
    let crc16_val = crc16 0xffff h.tx_buf wr_cmd_len
    started ← goto_start_cmd timeout
    exit_if (is_neg started) (neg 2)
    sent ← transfer_spi cmd_len
    exit_if (is_neg sent) sent
    acked ← wait_ack timeout
    exit_if (is_neg acked) (neg 2)
    pure crc16_val

  -- The data transfer and the last acknowledgement, with its value.
  pub transfer_data : ℕ → ℕ → Exchange W ℤ
  transfer_data reg_cnt timeout = do
    moved ← transfer_spi (trans_length reg_cnt)
    exit_if (is_neg moved) moved
    done ← wait_ack timeout
    exit_if (is_neg done) (neg 2)
    pure done

  -- `SpiReg_Read` between the locks, up to the label `out`; the value is what `memcpy` puts into the
  -- caller's buffer.
  pub read_exchange : ℕ → ℕ → ℕ → Exchange W (List ℕ)
  read_exchange reg_addr reg_cnt timeout = do
    command_crc ← start cmd_read_reg reg_addr reg_cnt timeout
    done ← transfer_data reg_cnt timeout
    h ← handle
    exit_if (not (received_crc h.rx_buf reg_cnt == crc16 command_crc h.rx_buf reg_cnt)) (neg 3)
    pure (take reg_cnt h.rx_buf)

  -- `SpiReg_Write` between the locks; the value is the last value of `ret`.
  pub write_exchange : ℕ → ℕ → List ℕ → ℕ → Exchange W ℤ
  unfolding data_frame
  write_exchange reg_addr reg_cnt reg_data timeout = do
    command_crc ← start cmd_write_reg reg_addr reg_cnt timeout
    let crc16_val = crc16 command_crc reg_data reg_cnt
    update (λ h. record h { tx_buf = data_frame h.tx_buf reg_data reg_cnt crc16_val })
    transfer_data reg_cnt timeout

  -- flock(h->lock_fd, LOCK_UN); pthread_mutex_unlock(&h->mutex), as at the label `out`.
  pub release : SpiRegHandle → W → W
  release h w = os.mutex_unlock (os.flock h.lock_fd lock_un w).1

  -- `SpiReg_Read`: the lists are the caller's buffer before and after.
  unfoldable pub read :
      Option SpiRegHandle → ℕ → ℕ → List ℕ → ℕ → W → ℤ × List ℕ × Option SpiRegHandle × W
  read none reg_addr reg_cnt reg_data timeout w = (neg 1, reg_data, none, w)
  read (some h) reg_addr reg_cnt reg_data timeout w =
      let (locked, w1) = os.flock h.lock_fd lock_ex (os.mutex_lock w) in
      let (step, h1, w2) = read_exchange reg_addr reg_cnt timeout h w1 in
      let (ret, out_data) = finish_read reg_data step in
      if is_neg locked
      then (locked, reg_data, some h, os.mutex_unlock w1)
      else (ret, out_data, some h1, release h1 w2)

  -- `SpiReg_Write`
  unfoldable pub write : Option SpiRegHandle → ℕ → ℕ → List ℕ → ℕ → W → ℤ × Option SpiRegHandle × W
  write none reg_addr reg_cnt reg_data timeout w = (neg 1, none, w)
  write (some h) reg_addr reg_cnt reg_data timeout w =
      let (locked, w1) = os.flock h.lock_fd lock_ex (os.mutex_lock w) in
      let (step, h1, w2) = write_exchange reg_addr reg_cnt reg_data timeout h w1 in
      if is_neg locked
      then (locked, some h, os.mutex_unlock w1)
      else (finish_write step, some h1, release h1 w2)
