-- ===== src/SpiReg/Mcu/Access.antt =====
-- spi_reg.c over a link that works: a register access succeeds, and does what the MCU does.
use linux_uart.Base.{
  ℕ, ◌≤◌, ◌<◌, ◌^◌, ◌≡◌, refl, ap, ◌∙◌, arith, false, List, [], ◌∷◌, length, take, Option, some,
  write_at, length-overwrite, length-replicate, length-take,
}
use linux_uart.Base.Int.{pos, is_neg, signed32}
use linux_uart.Crc.{crc16}
use linux_uart.Os.{Os, lock_ex, lock_un}
use linux_uart.Uart.{uart_write, uart_read, uart_in_clean}
use linux_uart.Uart.ReadLoop.{uart_read_byte}
use linux_uart.SpiReg.{
  SpiRegHandle, Step, go, out, ack, cmd_start, cmd_len, command, prepare, trans_length,
  received_crc, data_frame, release, wait_ack, goto_start_cmd, transfer_spi, start, transfer_data,
  read_exchange, write_exchange, read, write,
}
use linux_uart.SpiReg.Frame.{command_bytes, command_crc, length-tx_buf}
use linux_uart.SpiReg.Mcu.Data.{received_data, sent_data}
use linux_uart.SpiReg.Mcu.{waiting, started, commanded, View, Registers, McuLink}

-- The command stands at the front of the transmit buffer.
take-prepare :
    (h : SpiRegHandle) (code addr cnt : ℕ)
    → code < 256
    → addr < 2 ^ 16
    → cnt < 2 ^ 16
    → take 5 (prepare h code addr cnt).tx_buf ≡ command code addr cnt
unfolding prepare linux_uart.SpiReg.blank
take-prepare h code addr cnt hc ha hn = rw (command_bytes code addr cnt hc ha hn) refl

length-prepare :
    (h : SpiRegHandle) (code addr cnt : ℕ) (received : List ℕ)
    → length (write_at 0 received (prepare h code addr cnt).rx_buf) ≡ 1024
unfolding prepare linux_uart.SpiReg.blank
length-prepare h code addr cnt received =
    length-overwrite received _ ∙ length-replicate {A = ℕ} 1024 0xff

module _ {W R : Type 0} (os : Os W) (regs : Registers R) (h : SpiRegHandle) (timeout : ℕ)
    (view : W → View R) (link : McuLink os regs h.fd h.uart_fd timeout view) where
  -- The handle with other buffers.
  abbrev with_bufs : List ℕ → List ℕ → SpiRegHandle
  with_bufs tx rx = record h { tx_buf = tx; rx_buf = rx }

  uart_read-line :
      (w : W) (b : ℕ) (rest : List ℕ)
      → (view w).line ≡ b ∷ rest
      → let (ret, bytes, w1) = uart_read os h.uart_fd 1 timeout w in
        (ret ≡ pos 1) × (bytes ≡ b ∷ []) × (view w1 ≡ record (view w) { line = rest })
  uart_read-line w b rest e =
      let polled = os.poll h.uart_fd (signed32 timeout) w in
      ground (
        arith,
        link.polls w b rest e,
        link.reads polled.2 b rest,
        uart_read_byte os h.uart_fd timeout b w,
      )

  wait_ack-acked :
      (tx rx : List ℕ) (w : W)
      → (view w).line ≡ ack ∷ []
      → let (step, h1, w1) = wait_ack os timeout (with_bufs tx rx) w in
        (step ≡ go (pos 0)) × (h1 ≡ with_bufs tx rx) × (view w1 ≡ record (view w) { line = [] })
  unfolding wait_ack uart_in_clean
  wait_ack-acked tx rx w e =
      ground (arith, uart_read-line w ack [] e, link.flushes (uart_read os h.uart_fd 1 timeout w).2)

  goto_start_cmd-starts :
      (tx rx : List ℕ) (w : W)
      → (view w).phase ≡ waiting
      → let (step, h1, w1) = goto_start_cmd os timeout (with_bufs tx rx) w in
        (step ≡ go (pos 0))
        × (h1 ≡ with_bufs tx rx)
        × (view w1 ≡ record (view w) { phase = started; line = [] })
  unfolding goto_start_cmd uart_write uart_in_clean
  goto_start_cmd-starts tx rx w e =
      let w0 = os.tcflush_in h.uart_fd w in
      let w1 = (os.write_fd h.uart_fd (cmd_start ∷ []) w0).1 in
      ground (
        arith,
        link.flushes w,
        link.starts w0,
        uart_read-line w1 ack [],
        link.flushes (uart_read os h.uart_fd 1 timeout w1).2,
      )

  -- The command is acknowledged: the exchange goes on, with the CRC of the command, and the MCU
  -- waits for the data.
  start-commands :
      (code addr cnt : ℕ) (w : W)
      → code < 256
      → addr < 2 ^ 16
      → cnt ≤ 1022
      → (view w).phase ≡ waiting
      → let (step, h1, w1) = start os code addr cnt timeout h w in
        (step ≡ go (crc16 0xffff (command code addr cnt) 5))
        × (h1 ≡ with_bufs (prepare h code addr cnt).tx_buf h1.rx_buf)
        × (length h1.rx_buf ≡ 1024)
        × (view w1 ≡ record (view w) { phase = commanded code addr cnt; line = [] })
  unfolding start transfer_spi
  start-commands code addr cnt w hc ha hn e =
      let p = prepare h code addr cnt in
      let w1 = (goto_start_cmd os timeout p w).2 in
      let sent = os.spi_message h.fd p.tx_buf cmd_len w1 in
      ground (
        arith,
        command_crc h code addr cnt hc ha (omega arith),
        take-prepare h code addr cnt hc ha (omega arith),
        goto_start_cmd-starts p.tx_buf p.rx_buf w e,
        link.commands p.tx_buf w1 code addr cnt hc ha hn,
        wait_ack-acked p.tx_buf (write_at 0 sent.1 p.rx_buf) sent.2,
        length-prepare h code addr cnt sent.1,
      )

  -- A data transfer that the MCU takes part in: it goes on, and what was received stands in the
  -- receive buffer.
  transfer_data-acked :
      (cnt : ℕ) (tx rx : List ℕ) (w : W)
      → let (ret, received, w1) = os.spi_message h.fd tx (trans_length cnt) w in
        is_neg ret ≡ false
        → (view w1).line ≡ ack ∷ []
        → let (step, h1, w2) = transfer_data os cnt timeout (with_bufs tx rx) w in
          (step ≡ go (pos 0))
          × (h1 ≡ with_bufs tx (write_at 0 received rx))
          × (view w2 ≡ record (view w1) { line = [] })
  unfolding transfer_data transfer_spi
  transfer_data-acked cnt tx rx w ok acked =
      let sent = os.spi_message h.fd tx (trans_length cnt) w in
      ground (arith, wait_ack-acked tx (write_at 0 sent.1 rx) sent.2 acked)

  read_exchange-fetches :
      (addr cnt : ℕ) (w : W)
      → addr < 2 ^ 16
      → cnt ≤ 1022
      → (view w).phase ≡ waiting
      → let (step, h1, w1) = read_exchange os addr cnt timeout h w in
        let r = (view w).regs in
        (step ≡ go (regs.fetch addr cnt r))
        × (h1 ≡ with_bufs h1.tx_buf h1.rx_buf)
        × (view w1 ≡ record { phase = waiting; line = []; regs = regs.after_fetch addr cnt r })
  unfolding read_exchange
  read_exchange-fetches addr cnt w ha hn e =
      let (_, h1, w1) = start os 3 addr cnt timeout h w in
      let sent = os.spi_message h.fd h1.tx_buf (trans_length cnt) w1 in
      let bytes = regs.fetch addr cnt (view w).regs in
      ground (
        arith,
        start-commands 3 addr cnt w (omega arith) ha hn e,
        link.sends h1.tx_buf w1 addr cnt,
        regs.length-fetch addr cnt (view w).regs,
        transfer_data-acked cnt h1.tx_buf h1.rx_buf w1,
        received_data sent.1 h1.rx_buf bytes addr cnt ha hn,
      )

  write_exchange-stores :
      (addr cnt : ℕ) (reg_data : List ℕ) (w : W)
      → addr < 2 ^ 16
      → cnt ≤ 1022
      → cnt ≤ length reg_data
      → (view w).phase ≡ waiting
      → let (step, h1, w1) = write_exchange os addr cnt reg_data timeout h w in
        (step ≡ go (pos 0))
        × (h1 ≡ with_bufs h1.tx_buf h1.rx_buf)
        × (view w1 ≡ record {
          phase = waiting;
          line = [];
          regs = regs.store addr (take cnt reg_data) (view w).regs;
        })
  unfolding write_exchange
  write_exchange-stores addr cnt reg_data w ha hn enough e =
      let (_, h1, w1) = start os 6 addr cnt timeout h w in
      let p = (prepare h 6 addr cnt).tx_buf in
      let crc16_val = crc16 (crc16 0xffff (command 6 addr cnt) 5) reg_data cnt in
      let tx = data_frame p reg_data cnt crc16_val in
      ground (
        arith,
        start-commands 6 addr cnt w (omega arith) ha hn e,
        link.receives tx w1 addr cnt (take cnt reg_data),
        length-take cnt reg_data,
        sent_data p reg_data addr cnt ha hn enough (length-tx_buf h 6 addr cnt),
        transfer_data-acked cnt tx h1.rx_buf w1,
      )

-- The handle after an access that was made: only its buffers have changed.
abbrev pub SameLink : SpiRegHandle → Option SpiRegHandle → Type 0
SameLink h after = (tx rx : List ℕ) × (after ≡ some (record h { tx_buf = tx; rx_buf = rx }))

module _ {W R : Type 0} (os : Os W) (regs : Registers R) (h : SpiRegHandle) (timeout : ℕ)
    (view : W → View R) (link : McuLink os regs h.fd h.uart_fd timeout view) where
  -- Over a link that works, with an MCU that waits for an access, `SpiReg_Read` of at most 1022
  -- registers returns 0. The contents of the registers stand at the front of the caller's buffer, the
  -- registers are as a read leaves them, the MCU waits for the next access, nothing is left on the
  -- serial line, and of the handle only the buffers have changed.
  pub read-fetches :
      (addr cnt : ℕ) (reg_data : List ℕ) (w : W)
      → addr < 2 ^ 16
      → cnt ≤ 1022
      → (view w).phase ≡ waiting
      → let (ret, out_data, after, w1) = read os (some h) addr cnt reg_data timeout w in
        let r = (view w).regs in
        (ret ≡ pos 0)
        × (out_data ≡ write_at 0 (regs.fetch addr cnt r) reg_data)
        × (view w1 ≡ record { phase = waiting; line = []; regs = regs.after_fetch addr cnt r })
        × SameLink h after
  unfolding read release
  read-fetches addr cnt reg_data w ha hn e =
      let w0 = os.mutex_lock w in
      let w1 = (os.flock h.lock_fd lock_ex w0).1 in
      let locked = link.locks h.lock_fd lock_ex w0 in
      let same : view w1 ≡ view w =
        link.flock_keeps h.lock_fd lock_ex w0 ∙ link.mutex_lock_keeps w in
      let (step, h2, w2) = read_exchange os addr cnt timeout h w1 in
      let (went, bufs, seen) =
        read_exchange-fetches os regs h timeout view link addr cnt w1 ha hn
          (ap (λ (v : View R). v.phase) same ∙ e) in
      let unlocked = link.flock_keeps h.lock_fd lock_un w2 in
      let released = link.mutex_unlock_keeps (os.flock h.lock_fd lock_un w2).1 in
      (ground arith, ground arith, ground arith, (h2.tx_buf, h2.rx_buf, ground arith))

  -- Over a link that works, with an MCU that waits for an access, `SpiReg_Write` of at most 1022
  -- registers returns 0, and the MCU has stored the data given. The MCU waits for the next access,
  -- nothing is left on the serial line, and of the handle only the buffers have changed.
  pub write-stores :
      (addr cnt : ℕ) (reg_data : List ℕ) (w : W)
      → addr < 2 ^ 16
      → cnt ≤ 1022
      → cnt ≤ length reg_data
      → (view w).phase ≡ waiting
      → let (ret, after, w1) = write os (some h) addr cnt reg_data timeout w in
        let r = (view w).regs in
        (ret ≡ pos 0)
        × (view w1
            ≡ record { phase = waiting; line = []; regs = regs.store addr (take cnt reg_data) r })
        × SameLink h after
  unfolding write release
  write-stores addr cnt reg_data w ha hn enough e =
      let w0 = os.mutex_lock w in
      let w1 = (os.flock h.lock_fd lock_ex w0).1 in
      let locked = link.locks h.lock_fd lock_ex w0 in
      let same : view w1 ≡ view w =
        link.flock_keeps h.lock_fd lock_ex w0 ∙ link.mutex_lock_keeps w in
      let (step, h2, w2) = write_exchange os addr cnt reg_data timeout h w1 in
      let (went, bufs, seen) =
        write_exchange-stores os regs h timeout view link addr cnt reg_data w1 ha hn enough
          (ap (λ (v : View R). v.phase) same ∙ e) in
      let unlocked = link.flock_keeps h.lock_fd lock_un w2 in
      let released = link.mutex_unlock_keeps (os.flock h.lock_fd lock_un w2).1 in
      (ground arith, ground arith, (h2.tx_buf, h2.rx_buf, ground arith))
