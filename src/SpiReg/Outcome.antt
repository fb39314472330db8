-- ===== src/SpiReg/Outcome.antt =====
-- What a register access returns, on every path.
use linux_uart.Base.{
  ℕ, ◌≡◌, ◌<◌, ◌≤◌, ◌^◌, ◌⊎◌, inl, inr, refl, arith, true, List, Option, some, take, write_at,
  Bool-cases,
}
use linux_uart.Base.Int.{ℤ, pos, is_neg}
use linux_uart.Crc.{crc16}
use linux_uart.Os.{Os, lock_ex}
use linux_uart.SpiReg.{
  SpiRegHandle, Step, go, out, prepare, command, data_frame, received_crc, transfer_spi,
  goto_start_cmd, wait_ack, start, transfer_data, read_exchange, write_exchange, read, write,
  finish_read, finish_write,
}
use linux_uart.SpiReg.Frame.{command_crc}

-- Where a part of an exchange jumps to `out`, the value of `ret` is negative; where it goes on, `Q`
-- holds of its value and the handle.
abbrev pub Post : {W A : Type 0} → (A → SpiRegHandle → Type 0) → Step A × SpiRegHandle × W → Type 0
Post Q (go x, h, w) = Q x h
Post Q (out e, h, w) = is_neg e ≡ true

-- The data that `SpiReg_Read` accepts is the front of the receive buffer, and the CRC received
-- behind it is that of the command and the data.
abbrev pub Accepted : ℕ → ℕ → List ℕ → SpiRegHandle → Type 0
Accepted reg_addr reg_cnt bytes h =
    (bytes ≡ take reg_cnt h.rx_buf)
    × (received_crc h.rx_buf reg_cnt
        ≡ crc16 (crc16 0xffff (command 3 reg_addr reg_cnt) 5) h.rx_buf reg_cnt)

module _ {W : Type 0} (os : Os W) where
  transfer_data-Post :
      (cnt timeout : ℕ) (h : SpiRegHandle) (w : W)
      → Post (λ x _. x ≡ pos 0) (transfer_data os cnt timeout h w)
  unfolding transfer_data wait_ack transfer_spi
  transfer_data-Post cnt timeout h w = ground arith

  pub start-Post :
      (code addr cnt timeout : ℕ) (h : SpiRegHandle) (w : W)
      → Post
          (λ x _. x ≡ crc16 0xffff (prepare h code addr cnt).tx_buf 5)
          (start os code addr cnt timeout h w)
  unfolding start wait_ack transfer_spi goto_start_cmd
  start-Post code addr cnt timeout h w = ground arith

  read_exchange-Post :
      (addr cnt timeout : ℕ) (h : SpiRegHandle) (w : W)
      → addr < 2 ^ 16
      → cnt < 2 ^ 16
      → Post (Accepted addr cnt) (read_exchange os addr cnt timeout h w)
  unfolding read_exchange
  read_exchange-Post addr cnt timeout h w ha hn = ground (
    arith,
    start-Post 3 addr cnt timeout h w,
    transfer_data-Post cnt timeout (start os 3 addr cnt timeout h w).1
        (start os 3 addr cnt timeout h w).2,
    command_crc h 3 addr cnt (omega arith) ha hn,
  )

  write_exchange-Post :
      (addr cnt : ℕ) (reg_data : List ℕ) (timeout : ℕ) (h : SpiRegHandle) (w : W)
      → Post (λ x _. x ≡ pos 0) (write_exchange os addr cnt reg_data timeout h w)
  unfolding write_exchange
  write_exchange-Post addr cnt reg_data timeout h w = ground (
    arith,
    start-Post 6 addr cnt timeout h w,
    transfer_data-Post cnt timeout (with_frame (start os 6 addr cnt timeout h w).1)
        (start os 6 addr cnt timeout h w).2,
  )
    where
      crc16_val : ℕ
      crc16_val = crc16 (crc16 0xffff (prepare h 6 addr cnt).tx_buf 5) reg_data cnt

      with_frame : SpiRegHandle → SpiRegHandle
      with_frame h1 = record h1 { tx_buf = data_frame h1.tx_buf reg_data cnt crc16_val }

-- How a read ends: with a negative value and the buffer as it was, or with 0 and accepted registers
-- at the front of the buffer.
abbrev pub ReadOutcome : ℕ → ℕ → List ℕ → ℤ → List ℕ → Option SpiRegHandle → Type 0
ReadOutcome reg_addr reg_cnt reg_data ret out_data after =
    ((is_neg ret ≡ true) × (out_data ≡ reg_data))
    ⊎ ((ret ≡ pos 0)
        × (h : SpiRegHandle) × (bytes : List ℕ) × (after ≡ some h)
        × (out_data ≡ write_at 0 bytes reg_data)
        × Accepted reg_addr reg_cnt bytes h)

finish_read-ReadOutcome :
    {W : Type 0} (addr cnt : ℕ) (reg_data : List ℕ) (r : Step (List ℕ) × SpiRegHandle × W)
    → Post (Accepted addr cnt) r
    → ReadOutcome addr cnt reg_data
        (finish_read reg_data r.0).0
        (finish_read reg_data r.0).1
        (some r.1)
finish_read-ReadOutcome addr cnt reg_data (go bytes, h, w) p = inr (refl, h, bytes, refl, refl, p)
finish_read-ReadOutcome addr cnt reg_data (out e, h, w) p = inl (p, refl)

finish_write-cases :
    {W : Type 0} (r : Step ℤ × SpiRegHandle × W)
    → Post (λ x _. x ≡ pos 0) r
    → (is_neg (finish_write r.0) ≡ true) ⊎ (finish_write r.0 ≡ pos 0)
finish_write-cases (go x, h, w) p = inr p
finish_write-cases (out e, h, w) p = inl p

module _ {W : Type 0} (os : Os W) where
  pub read-ReadOutcome :
      (h : SpiRegHandle) (reg_addr reg_cnt : ℕ) (reg_data : List ℕ) (timeout : ℕ) (w : W)
      → reg_addr < 2 ^ 16
      → reg_cnt < 2 ^ 16
      → let (ret, out_data, after, _) = read os (some h) reg_addr reg_cnt reg_data timeout w in
        ReadOutcome reg_addr reg_cnt reg_data ret out_data after
  unfolding read
  read-ReadOutcome h addr cnt reg_data timeout w ha hn =
      elim (Bool-cases (is_neg (os.flock h.lock_fd lock_ex (os.mutex_lock w)).0)) [
        | inl l ↦ rw l (inl (l, refl))
        | inr l ↦ rw l (
            finish_read-ReadOutcome addr cnt reg_data _ (
              read_exchange-Post os addr cnt timeout h
                (os.flock h.lock_fd lock_ex (os.mutex_lock w)).1 ha hn))
      ]

  -- `SpiReg_Read` either returns a negative value and leaves the caller's buffer as it was, or
  -- returns 0 and puts the received registers at its front, and then the CRC received behind them is
  -- the CRC of the command and of those registers. This holds for every answer of the machine and
  -- for at most 1022 registers, which with their CRC fill the receive buffer.
  pub read_outcome :
      (h : SpiRegHandle) (reg_addr reg_cnt : ℕ) (reg_data : List ℕ) (timeout : ℕ) (w : W)
      → reg_addr < 2 ^ 16
      → reg_cnt ≤ 1022
      → let (ret, out_data, after, _) = read os (some h) reg_addr reg_cnt reg_data timeout w in
        ReadOutcome reg_addr reg_cnt reg_data ret out_data after
  read_outcome h addr cnt reg_data timeout w ha hn =
      read-ReadOutcome h addr cnt reg_data timeout w ha (omega arith)

  -- `SpiReg_Write` returns 0 or a negative value, never anything else.
  pub write_outcome :
      (h : SpiRegHandle) (reg_addr reg_cnt : ℕ) (reg_data : List ℕ) (timeout : ℕ) (w : W)
      → let ret = (write os (some h) reg_addr reg_cnt reg_data timeout w).0 in
        (is_neg ret ≡ true) ⊎ (ret ≡ pos 0)
  unfolding write
  write_outcome h addr cnt reg_data timeout w =
      elim (Bool-cases (is_neg (os.flock h.lock_fd lock_ex (os.mutex_lock w)).0)) [
        | inl l ↦ rw l (inl l)
        | inr l ↦ rw l (
            finish_write-cases _ (
              write_exchange-Post os addr cnt reg_data timeout h
                (os.flock h.lock_fd lock_ex (os.mutex_lock w)).1))
      ]
