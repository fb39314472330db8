-- ===== src/RvMcu/Bus/Refine.antt =====
-- rearview_mcu.c, regwr_cb.c and spi_reg.c together: over a link that works, the registers behind
-- SPI are a register file, and the calls built on them do what they do on a register file.
use linux_uart.Base.{
  ℕ, ◌≤◌, ◌<◌, ◌^◌, ◌≡◌, sym, ap, ◌∙◌, arith, List, ◌++◌, length, take, drop, overwrite-eq, Option,
}
use linux_uart.Base.Int.{pos}
use linux_uart.Os.{Os}
use linux_uart.SpiReg.{SpiRegHandle}
use linux_uart.SpiReg.Mcu.{waiting, View, Registers, McuLink}
use linux_uart.SpiReg.Mcu.Access.{SameLink, read-fetches, write-stores}
use linux_uart.RegWrCb.{RegWrCbHandle}
use linux_uart.RegWrCb.Simulated.{Simulates}
use linux_uart.RvMcu.{spi_bus}

-- A register file without a link: every access succeeds.
unfoldable pub file_bus : {R : Type 0} → Registers R → RegWrCbHandle R
file_bus regs = record {
  read_reg =
      λ addr buf n timeout r. (pos 0, regs.fetch addr n r ++ drop n buf, regs.after_fetch addr n r);
  write_reg = λ addr bytes n timeout r. (pos 0, regs.store addr (take n bytes) r);
}

module _ {W R : Type 0} (os : Os W) (regs : Registers R) (h : SpiRegHandle) (timeout : ℕ)
    (view : W → View R) (link : McuLink os regs h.fd h.uart_fd timeout view) where
  -- The program's handle is open, and the MCU waits for an access with the registers `r`.
  pub record Ready (r : R) (s : Option SpiRegHandle × W) : Type 0 where
    pub open_link : SameLink h s.0
    pub waits : (view s.1).phase ≡ waiting
    pub holds : (view s.1).regs ≡ r

  -- `RVMcu_ReadReg` reads the register file.
  read_reg-Ready :
      (addr n : ℕ) (buf : List ℕ) (r : R) (s : Option SpiRegHandle × W)
      → addr < 2 ^ 16
      → n ≤ 1022
      → n ≤ length buf
      → Ready r s
      → let (ret, out_data, s1) = (spi_bus os).read_reg addr buf n timeout s in
        let (ret', out', r1) = (file_bus regs).read_reg addr buf n timeout r in
        (ret ≡ ret') × (out_data ≡ out') × Ready r1 s1
  unfolding spi_bus file_bus
  read_reg-Ready addr n buf r (opened, w) ha hn fits ready =
      let (tx, rx, e) = ready.open_link in
      let (ret, bytes, seen, after) =
        read-fetches os regs (record h { tx_buf = tx; rx_buf = rx }) timeout view link addr n buf w
          ha hn ready.waits in
      let counted = regs.length-fetch addr n (view w).regs in
      rw (e, sym ready.holds)
        (
          ret,
          bytes
              ∙ overwrite-eq _ buf (omega (arith, counted))
              ∙ ap (λ (k : ℕ). regs.fetch addr n (view w).regs ++ drop k buf) counted,
          record {
            open_link = after;
            waits = ap (λ (v : View R). v.phase) seen;
            holds = ap (λ (v : View R). v.regs) seen;
          },
        )

  -- `RVMcu_WriteReg` writes the register file.
  write_reg-Ready :
      (addr n : ℕ) (bytes : List ℕ) (r : R) (s : Option SpiRegHandle × W)
      → addr < 2 ^ 16
      → n ≤ 1022
      → n ≤ length bytes
      → Ready r s
      → let (ret, s1) = (spi_bus os).write_reg addr bytes n timeout s in
        let (ret', r1) = (file_bus regs).write_reg addr bytes n timeout r in
        (ret ≡ ret') × Ready r1 s1
  unfolding spi_bus file_bus
  write_reg-Ready addr n bytes r (opened, w) ha hn enough ready =
      let (tx, rx, e) = ready.open_link in
      let (ret, seen, after) =
        write-stores os regs (record h { tx_buf = tx; rx_buf = rx }) timeout view link addr n bytes
          w ha hn enough ready.waits in
      rw (e, sym ready.holds)
        (
          ret,
          record {
            open_link = after;
            waits = ap (λ (v : View R). v.phase) seen;
            holds = ap (λ (v : View R). v.regs) seen;
          },
        )

  -- Over a link that works, the registers that the program reaches over SPI behave as a register
  -- file, for accesses of at most 1022 registers.
  pub spi_bus-Simulates : Simulates (spi_bus os) (file_bus regs) timeout 1022 Ready
  spi_bus-Simulates = record {
    reads = λ addr n buf r s ha hn fits ready. read_reg-Ready addr n buf r s ha hn fits ready;
    writes = λ addr n bytes r s ha hn fits ready. write_reg-Ready addr n bytes r s ha hn fits ready;
  }
