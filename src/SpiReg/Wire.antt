-- ===== src/SpiReg/Wire.antt =====
-- What a register access sends, in which order, watched by `Os.Wire` over any machine.
pub mod InOrder
mod Tests
use linux_uart.Base.{
  ℕ, ◌+◌, ◌/◌, ◌%◌, ◌≤◌, ◌<◌, ◌^◌, ◌≡◌, ◌⊎◌, inl, inr, refl, sym, ap, ◌∙◌, arith, true, false, List,
  [], ◌∷◌, ◌++◌, length, take, drop, some, Bool-cases, append_assoc, ◌-◌, replicate, overwrite-eq,
  take-append_beyond, take-replicate, length-replicate, append-nil,
}
use linux_uart.Base.Int.{ℤ, pos, is_neg}
use linux_uart.Os.{Os, lock_ex}
use linux_uart.Os.Wire.{Sent, serial, spi, front, Wired, wired}
use linux_uart.Uart.{uart_write, uart_read, uart_in_clean}
use linux_uart.Uart.Silent.{uart_read-sent}
use linux_uart.Crc.{crc16}
use linux_uart.Crc.Detect.{crc16-bounded}
use linux_uart.SpiReg.Frame.{
  command_crc, command_crc-bounded, command_bytes, trans_length_bounds, length-tx_buf, data_message,
}
use linux_uart.SpiReg.Outcome.{start-Post}
use linux_uart.SpiReg.{
  SpiRegHandle, Step, go, out, cmd_start, cmd_len, command, prepare, data_frame, fill_len,
  trans_length, transfer_spi, goto_start_cmd, wait_ack, start, transfer_data, read_exchange,
  write_exchange, release, read, write, finish_read, finish_write, blank,
}

-- A part of an exchange ends at 0, or at `out` with a negative value.
abbrev EndsAt : Step ℤ → Type 0
EndsAt (go x) = x ≡ pos 0
EndsAt (out e) = is_neg e ≡ true

-- The first, the first two, or all three of three messages.
abbrev pub Sofar : List Sent → Sent → Sent → Sent → List Sent → Type 0
Sofar before m1 m2 m3 sent =
    (sent ≡ before ++ (m1 ∷ []))
    ⊎ (sent ≡ (before ++ (m1 ∷ [])) ++ (m2 ∷ []))
    ⊎ (sent ≡ ((before ++ (m1 ∷ [])) ++ (m2 ∷ [])) ++ (m3 ∷ []))

-- An exchange that goes through has sent three messages, and any other exchange the first ones.
abbrev pub Ended :
    {W A : Type 0} → List Sent → Sent → Sent → Sent → Step A × SpiRegHandle × Wired W → Type 0
Ended before m1 m2 m3 (go x, h, t) = t.sent ≡ ((before ++ (m1 ∷ [])) ++ (m2 ∷ [])) ++ (m3 ∷ [])
Ended before m1 m2 m3 (out e, h, t) = (is_neg e ≡ true) × Sofar before m1 m2 m3 t.sent

module _ {W : Type 0} (os : Os W) where
  -- One or both of two messages more.
  abbrev Started :
      {A : Type 0} → List Sent → Sent → Sent → ℤ → List ℕ → Step A × SpiRegHandle × Wired W → Type 0
  Started before m1 m2 fd tx (go x, h1, t) =
      (t.sent ≡ (before ++ (m1 ∷ [])) ++ (m2 ∷ [])) × (h1.tx_buf ≡ tx) × (h1.fd ≡ fd)
  Started before m1 m2 fd tx (out e, h1, t) =
      (is_neg e ≡ true)
      × ((t.sent ≡ before ++ (m1 ∷ [])) ⊎ (t.sent ≡ (before ++ (m1 ∷ [])) ++ (m2 ∷ [])))

  start-Started :
      (code addr cnt timeout : ℕ) (h : SpiRegHandle) (t : Wired W)
      → let p = prepare h code addr cnt in
        Started t.sent
          (serial h.uart_fd (cmd_start ∷ []))
          (spi h.fd (front cmd_len p.tx_buf))
          h.fd
          p.tx_buf
          (start (wired os) code addr cnt timeout h t)
  unfolding start transfer_spi goto_start_cmd wait_ack uart_write uart_in_clean
  start-Started code addr cnt timeout h t =
      let p = prepare h code addr cnt in
      let t1 =
        ((wired os).write_fd h.uart_fd (cmd_start ∷ []) ((wired os).tcflush_in h.uart_fd t)).1 in
      let t2 = (goto_start_cmd (wired os) timeout p t).2 in
      let sent = transfer_spi (wired os) cmd_len p t2 in
      ground (
        arith,
        uart_read-sent os h.uart_fd 1 timeout t1,
        uart_read-sent os h.uart_fd 1 timeout sent.2,
      )

  transfer_data-sent :
      (cnt timeout : ℕ) (h : SpiRegHandle) (t : Wired W)
      → let (step, h1, t1) = transfer_data (wired os) cnt timeout h t in
        (t1.sent ≡ t.sent ++ (spi h.fd (front (trans_length cnt) h.tx_buf) ∷ [])) × EndsAt step
  unfolding transfer_data transfer_spi wait_ack uart_in_clean
  transfer_data-sent cnt timeout h t =
      let sent = transfer_spi (wired os) (trans_length cnt) h t in
      ground (arith, uart_read-sent os h.uart_fd 1 timeout sent.2)

  pub read_exchange-Ended :
      (addr cnt timeout : ℕ) (h : SpiRegHandle) (t : Wired W)
      → let tx = (prepare h 3 addr cnt).tx_buf in
        Ended t.sent
          (serial h.uart_fd (cmd_start ∷ []))
          (spi h.fd (front cmd_len tx))
          (spi h.fd (front (trans_length cnt) tx))
          (read_exchange (wired os) addr cnt timeout h t)
  unfolding read_exchange
  read_exchange-Ended addr cnt timeout h t =
      let s = start (wired os) 3 addr cnt timeout h t in
      ground (arith, start-Started 3 addr cnt timeout h t, transfer_data-sent cnt timeout s.1 s.2)

  pub write_exchange-Ended :
      (addr cnt : ℕ) (reg_data : List ℕ) (timeout : ℕ) (h : SpiRegHandle) (t : Wired W)
      → addr < 2 ^ 16
      → cnt < 2 ^ 16
      → let tx = (prepare h 6 addr cnt).tx_buf in
        let crc16_val = crc16 (crc16 0xffff (command 6 addr cnt) 5) reg_data cnt in
        Ended t.sent
          (serial h.uart_fd (cmd_start ∷ []))
          (spi h.fd (front cmd_len tx))
          (spi h.fd (front (trans_length cnt) (data_frame tx reg_data cnt crc16_val)))
          (write_exchange (wired os) addr cnt reg_data timeout h t)
  unfolding write_exchange
  write_exchange-Ended addr cnt reg_data timeout h t ha hn =
      let s = start (wired os) 6 addr cnt timeout h t in
      let c = crc16 0xffff (command 6 addr cnt) 5 in
      let framed = record s.1 {
        tx_buf = data_frame s.1.tx_buf reg_data cnt (crc16 c reg_data cnt);
      } in
      ground (
        arith,
        start-Started 6 addr cnt timeout h t,
        start-Post (wired os) 6 addr cnt timeout h t,
        command_crc h 6 addr cnt (omega arith) ha hn,
        transfer_data-sent cnt timeout framed s.2,
      )
