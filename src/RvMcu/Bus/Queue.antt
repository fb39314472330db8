-- ===== src/RvMcu/Bus/Queue.antt =====
-- A ring buffer of the MCU through all layers: regwr_cb.c over rearview_mcu.c over spi_reg.c over
-- the serial port.
use linux_uart.Base.{
  ℕ, ◌-◌, ◌%◌, ◌≤◌, ◌^◌, min, ◌≡◌, refl, sym, ap, ap₂, ◌∙◌, arith, List, [], ◌++◌, length, take,
  drop, Option, take_all, take-length, drop-length, append-nil,
}
use mathlib.Core.Path.{subst}
use linux_uart.Base.Int.{pos}
use linux_uart.Os.{Os}
use linux_uart.SpiReg.{SpiRegHandle}
use linux_uart.SpiReg.Mcu.{View, Registers, McuLink}
use linux_uart.RegWrCb.{read, write}
use linux_uart.RegWrCb.Ring.{RingRegs}
use linux_uart.RegWrCb.Simulated.{write-same, read-same}
use linux_uart.RegWrCb.Sure.{NeverFails, write-sure, read-sure}
use linux_uart.RvMcu.{spi_bus}
use linux_uart.RvMcu.Bus.Refine.{file_bus, Ready, spi_bus-Simulates}

pub file_bus-NeverFails : {R : Type 0} (regs : Registers R) → NeverFails (file_bus regs)
unfolding file_bus
file_bus-NeverFails regs = record {
  reads = λ addr buf n timeout r. refl;
  writes = λ addr bytes n timeout r. refl;
}

module _ {W R : Type 0} (os : Os W) (regs : Registers R) (h : SpiRegHandle) (timeout : ℕ)
    (view : W → View R) (link : McuLink os regs h.fd h.uart_fd timeout view) (cb_addr capacity : ℕ)
    (contents : R → List ℕ)
    (ring : RingRegs (file_bus regs) cb_addr timeout capacity contents) where
  -- The MCU waits for an access, and the ring buffer holds these bytes, oldest first.
  abbrev pub HoldsQueue : List ℕ → Option SpiRegHandle × W → Type 0
  HoldsQueue q s = (r : R) × Ready os regs h timeout view link r s × (contents r ≡ q)

  -- `RegWrCb_Write` over SPI of at most 1022 bytes returns the number of bytes for which the ring
  -- buffer of the MCU has room, and those bytes stand behind the bytes that were in it.
  pub write-queues :
      (bytes : List ℕ) (data_size : ℕ) (q : List ℕ) (s : Option SpiRegHandle × W)
      → data_size ≤ 1022
      → data_size ≤ length bytes
      → HoldsQueue q s
      → let (ret, s1) = write (spi_bus os) cb_addr bytes data_size timeout s in
        let n = min data_size (capacity - length q) in
        (ret ≡ pos n) × HoldsQueue (q ++ take n bytes) s1
  write-queues bytes data_size q s small fits (r, ready, holds) =
      let sim = spi_bus-Simulates os regs h timeout view link in
      let (same, after) =
        write-same (spi_bus os) (file_bus regs) timeout 1022 _ sim (omega arith) cb_addr bytes
          data_size r s small fits ready in
      let (ret, queued) =
        write-sure (file_bus regs) cb_addr timeout capacity contents ring (file_bus-NeverFails regs)
          bytes data_size r in
      let r1 = (write (file_bus regs) cb_addr bytes data_size timeout r).1 in
      let whole : data_size % 2 ^ 16 ≡ data_size = omega arith in
      (
        same ∙ ret ∙ ap₂ (λ (d : ℕ) (l : List ℕ). pos (min d (capacity - length l))) whole holds,
        (
          r1,
          after,
          queued
              ∙ ap₂ (λ (d : ℕ) (l : List ℕ). l ++ take (min d (capacity - length l)) bytes) whole
                  holds,
        ),
      )

  -- `RegWrCb_Read` over SPI of at most 1022 bytes takes as many bytes as are there off the front of the
  -- ring buffer of the MCU, and returns their number.
  pub read-dequeues :
      (buf : List ℕ) (buf_size : ℕ) (q : List ℕ) (s : Option SpiRegHandle × W)
      → buf_size ≤ 1022
      → buf_size ≤ length buf
      → HoldsQueue q s
      → let (ret, buf1, s1) = read (spi_bus os) cb_addr buf buf_size timeout s in
        let n = min buf_size (length q) in
        (ret ≡ pos n) × (buf1 ≡ take n q ++ drop n buf) × HoldsQueue (drop n q) s1
  read-dequeues buf buf_size q s small fits (r, ready, holds) =
      let sim = spi_bus-Simulates os regs h timeout view link in
      let (same, same_data, after) =
        read-same (spi_bus os) (file_bus regs) timeout 1022 _ sim (omega arith) cb_addr buf buf_size
          r s small fits ready in
      let (ret, front, left) =
        read-sure (file_bus regs) cb_addr timeout capacity contents ring (file_bus-NeverFails regs)
          buf buf_size r in
      let r1 = (read (file_bus regs) cb_addr buf buf_size timeout r).2 in
      let whole : buf_size % 2 ^ 16 ≡ buf_size = omega arith in
      let taken = λ (d : ℕ) (l : List ℕ). min d (length l) in
      (
        same ∙ ret ∙ ap₂ (λ (d : ℕ) (l : List ℕ). pos (taken d l)) whole holds,
        same_data
            ∙ front
            ∙ ap₂ (λ (d : ℕ) (l : List ℕ). take (taken d l) l ++ drop (taken d l) buf) whole holds,
        (r1, after, left ∙ ap₂ (λ (d : ℕ) (l : List ℕ). drop (taken d l) l) whole holds),
      )

  -- Bytes sent to an empty ring buffer of the MCU come back: with an MCU that waits for an access,
  -- and a ring buffer with room for them, `RegWrCb_Write` of at most 1022 bytes and `RegWrCb_Read` of as
  -- many both return the number of bytes, the caller has the bytes that were written, and the ring
  -- buffer is empty again. All four layers of the program are run, over a link that works.
  pub write-read :
      (bytes buf : List ℕ) (s : Option SpiRegHandle × W)
      → length bytes ≤ 1022
      → length bytes ≤ capacity
      → length buf ≡ length bytes
      → HoldsQueue [] s
      → let n = length bytes in
        let (ret, s1) = write (spi_bus os) cb_addr bytes n timeout s in
        let (ret2, out_data, s2) = read (spi_bus os) cb_addr buf n timeout s1 in
        (ret ≡ pos n) × (ret2 ≡ pos n) × (out_data ≡ bytes) × HoldsQueue [] s2
  write-read bytes buf s small room same_size empty =
      let n = length bytes in
      let (ret, queued) = write-queues bytes n [] s small (omega arith) empty in
      let s1 = (write (spi_bus os) cb_addr bytes n timeout s).1 in
      let k = min n (capacity - 0) in
      let all : k ≡ n = omega arith in
      let whole : take k bytes ≡ bytes = take_all k bytes (omega arith) in
      let (ret2, front, left) = read-dequeues buf n (take k bytes) s1 small (omega arith) queued in
      let count : min n (length (take k bytes)) ≡ n = omega (arith, ap length whole) in
      (
        ret ∙ ap pos all,
        ret2 ∙ ap pos count,
        front
            ∙ ap₂ (λ (d : ℕ) (l : List ℕ). take d l ++ drop d buf) count whole
            ∙ ap₂ ◌++◌ (take-length bytes)
                (ap (λ (d : ℕ). drop d buf) (sym same_size) ∙ drop-length buf)
            ∙ append-nil bytes,
        subst (λ (l : List ℕ). HoldsQueue l (read (spi_bus os) cb_addr buf n timeout s1).2)
            (ap₂ (λ (d : ℕ) (l : List ℕ). drop d l) count whole ∙ drop-length bytes) left,
      )
