-- ===== src/RvMcu/Bus/Can.antt =====
-- Blocks of CAN messages through all layers of the program.
use linux_uart.Base.{
  ℕ, ◌-◌, ◌*◌, ◌/◌, ◌%◌, ◌≤◌, ◌^◌, min, ◌≡◌, ap₂, ◌∙◌, arith, List, [], ◌++◌, length, take, drop,
  Option,
}
use linux_uart.Base.Int.{pos}
use linux_uart.Os.{Os}
use linux_uart.SpiReg.{SpiRegHandle}
use linux_uart.SpiReg.Mcu.{View, Registers, McuLink}
use linux_uart.RegWrCb.{gran_read, gran_write, clean}
use linux_uart.RegWrCb.Ring.{RingRegs}
use linux_uart.RegWrCb.Simulated.{gran_read-same, gran_write-same, clean-same}
use linux_uart.RegWrCb.Sure.{gran_read-sure, gran_write-sure, clean-sure}
use linux_uart.RvMcu.{
  spi_bus, cb_receive_can_start, cb_send_can_start, receive_can_msg_block, send_can_msg_block,
  clean_rx_fifo,
}
use linux_uart.RvMcu.Bus.Refine.{file_bus, spi_bus-Simulates}
use linux_uart.RvMcu.Bus.Queue.{HoldsQueue, file_bus-NeverFails}

module _ {W R : Type 0} (os : Os W) (regs : Registers R) (h : SpiRegHandle) (timeout : ℕ)
    (view : W → View R) (link : McuLink os regs h.fd h.uart_fd timeout view) (capacity : ℕ)
    (contents : R → List ℕ) where
  module _ (ring : RingRegs (file_bus regs) cb_receive_can_start timeout capacity contents) where
    abbrev Received : List ℕ → Option SpiRegHandle × W → Type 0
    Received = HoldsQueue os regs h timeout view link cb_receive_can_start capacity contents ring

    -- `RVMcu_ReceiveCanMsgBlock` over SPI, for at most 63 messages that the caller's buffer has room
    -- for, takes whole messages of 16 bytes off the front of the MCU's receive buffer: as many as were
    -- asked for, or as are there complete if that is fewer. It returns their number, and the rest of
    -- the caller's buffer is as it was.
    pub receive_can_msg_block-takes :
        (can_msg : List ℕ) (cnt : ℕ) (q : List ℕ) (s : Option SpiRegHandle × W)
        → cnt ≤ 63
        → cnt * 16 ≤ length can_msg
        → Received q s
        → let (ret, can_msg1, s1) = receive_can_msg_block (spi_bus os) can_msg cnt timeout s in
          let k = min cnt (length q / 16) in
          (ret ≡ pos k)
          × (can_msg1 ≡ take (k * 16) q ++ drop (k * 16) can_msg)
          × Received (drop (k * 16) q) s1
    unfolding receive_can_msg_block
    receive_can_msg_block-takes can_msg cnt q s few fits (r, ready, holds) =
        let sim = spi_bus-Simulates os regs h timeout view link in
        let (same, same_data, after) =
          gran_read-same (spi_bus os) (file_bus regs) timeout 1022 _ sim (omega arith)
            cb_receive_can_start can_msg 16 cnt r s (omega arith) fits ready in
        let (ret, front, left) =
          gran_read-sure (file_bus regs) cb_receive_can_start timeout capacity contents ring
            (file_bus-NeverFails regs) can_msg 16 cnt r (omega arith) (omega arith) in
        let r1 = (gran_read (file_bus regs) cb_receive_can_start can_msg 16 cnt timeout r).2 in
        let whole : cnt % 2 ^ 16 ≡ cnt = omega arith in
        let taken = λ (d : ℕ) (l : List ℕ). min d (length l / 16) in
        (
          same ∙ ret ∙ ap₂ (λ (d : ℕ) (l : List ℕ). pos (taken d l)) whole holds,
          same_data
              ∙ front
              ∙ ap₂
                  (λ (d : ℕ) (l : List ℕ). take (taken d l * 16) l ++ drop (taken d l * 16) can_msg)
                  whole holds,
          (r1, after, left ∙ ap₂ (λ (d : ℕ) (l : List ℕ). drop (taken d l * 16) l) whole holds),
        )

    -- `RVMcu_CleanRxFifo` over SPI returns 0 and empties the MCU's receive buffer.
    pub clean_rx_fifo-empties :
        (q : List ℕ) (s : Option SpiRegHandle × W)
        → Received q s
        → let (ret, s1) = clean_rx_fifo (spi_bus os) timeout s in (ret ≡ pos 0) × Received [] s1
    unfolding clean_rx_fifo
    clean_rx_fifo-empties q s (r, ready, holds) =
        let sim = spi_bus-Simulates os regs h timeout view link in
        let (same, after) =
          clean-same (spi_bus os) (file_bus regs) timeout 1022 _ sim (omega arith)
            cb_receive_can_start r s ready in
        let (ret, emptied) =
          clean-sure (file_bus regs) cb_receive_can_start timeout capacity contents ring
            (file_bus-NeverFails regs) r in
        (same ∙ ret, ((clean (file_bus regs) cb_receive_can_start timeout r).1, after, emptied))

  module _ (ring : RingRegs (file_bus regs) cb_send_can_start timeout capacity contents) where
    abbrev ToSend : List ℕ → Option SpiRegHandle × W → Type 0
    ToSend = HoldsQueue os regs h timeout view link cb_send_can_start capacity contents ring

    -- `RVMcu_SendCanMsgBlock` over SPI, for at most 63 messages that the caller's buffer has, puts
    -- whole messages of 16 bytes behind those in the MCU's send buffer: as many as were given, or as
    -- there is room for if that is fewer. It returns their number.
    pub send_can_msg_block-puts :
        (can_msg : List ℕ) (cnt : ℕ) (q : List ℕ) (s : Option SpiRegHandle × W)
        → cnt ≤ 63
        → cnt * 16 ≤ length can_msg
        → ToSend q s
        → let (ret, s1) = send_can_msg_block (spi_bus os) can_msg cnt timeout s in
          let k = min cnt ((capacity - length q) / 16) in
          (ret ≡ pos k) × ToSend (q ++ take (k * 16) can_msg) s1
    unfolding send_can_msg_block
    send_can_msg_block-puts can_msg cnt q s few fits (r, ready, holds) =
        let sim = spi_bus-Simulates os regs h timeout view link in
        let (same, after) =
          gran_write-same (spi_bus os) (file_bus regs) timeout 1022 _ sim (omega arith)
            cb_send_can_start can_msg 16 cnt r s (omega arith) fits ready in
        let (ret, queued) =
          gran_write-sure (file_bus regs) cb_send_can_start timeout capacity contents ring
            (file_bus-NeverFails regs) can_msg 16 cnt r (omega arith) in
        let r1 = (gran_write (file_bus regs) cb_send_can_start can_msg 16 cnt timeout r).1 in
        let whole : cnt % 2 ^ 16 ≡ cnt = omega arith in
        let put = λ (d : ℕ) (l : List ℕ). min d ((capacity - length l) / 16) in
        (
          same ∙ ret ∙ ap₂ (λ (d : ℕ) (l : List ℕ). pos (put d l)) whole holds,
          (
            r1,
            after,
            queued ∙ ap₂ (λ (d : ℕ) (l : List ℕ). l ++ take (put d l * 16) can_msg) whole holds,
          ),
        )
