-- ===== src/SpiReg/Detect.antt =====
-- Damage to the data of a read on its way is found by the CRC.
use linux_uart.Base.{
  ℕ, ◌+◌, ◌<◌, ◌^◌, ◌≡◌, ◌≢◌, ◌⊎◌, inl, inr, sym, ap, ◌∙◌, arith, true, List, ◌∷◌, ◌++◌, length,
  take, some,
}
use linux_uart.Base.Int.{is_neg}
use linux_uart.Crc.{crc16}
use linux_uart.Crc.Detect.{crc16_detects_two_bytes, crc16-bounded, crc16-take}
use linux_uart.MemCtrl.{system_to_big}
use linux_uart.Os.{Os}
use linux_uart.SpiReg.{SpiRegHandle, command, read}
use linux_uart.SpiReg.Frame.{command_crc-bounded}
use linux_uart.SpiReg.Mcu.Data.{data_and_crc}
use linux_uart.SpiReg.Outcome.{Accepted, read-ReadOutcome}

-- Data that was damaged in two adjacent bytes is not accepted.
damaged_data :
    (addr cnt x y x' y' : ℕ) (front back bytes : List ℕ) (h : SpiRegHandle)
    → addr < 2 ^ 16
    → cnt < 2 ^ 16
    → x < 256
    → y < 256
    → x' < 256
    → y' < 256
    → (x ≢ x') ⊎ (y ≢ y')
    → length (front ++ (x ∷ y ∷ back)) ≡ cnt
    → length (front ++ (x' ∷ y' ∷ back)) ≡ cnt
    → let c = crc16 0xffff (command 3 addr cnt) 5 in
      take (cnt + 2) h.rx_buf
        ≡ (front ++ (x' ∷ y' ∷ back)) ++ system_to_big 2 (crc16 c (front ++ (x ∷ y ∷ back)) cnt)
      → ¬ Accepted addr cnt bytes h
damaged_data addr cnt x y x' y' front back bytes h ha hn hx hy hx' hy' differ e e' framed
      (shown, good) =
    let c = crc16 0xffff (command 3 addr cnt) 5 in
    let hc = command_crc-bounded 3 addr cnt (omega arith) ha hn in
    let sent = front ++ (x ∷ y ∷ back) in
    let got = front ++ (x' ∷ y' ∷ back) in
    let (arrived, crc) =
      data_and_crc h.rx_buf got cnt (crc16 c sent cnt) e'
        (crc16-bounded c sent cnt hc (omega arith)) framed in
    crc16_detects_two_bytes c x y x' y' front back hc hx hy hx' hy' differ (
      ap (crc16 c sent) e
      ∙ sym crc
      ∙ good
      ∙ sym (crc16-take c h.rx_buf cnt)
      ∙ ap (λ (l : List ℕ). crc16 c l cnt) arrived
      ∙ ap (crc16 c got) (sym e'))

module _ {W : Type 0} (os : Os W) where
  -- `SpiReg_Read` never hands out data that was damaged in two adjacent bytes. Where the receive
  -- buffer holds the data that was sent, but for two adjacent bytes one of which at least is another,
  -- and behind it the CRC that the MCU computed over the command and the data it sent, the call
  -- returns a negative value and leaves the caller's buffer as it was.
  pub read-detects :
      (h : SpiRegHandle) (addr cnt : ℕ) (reg_data : List ℕ) (timeout : ℕ) (w : W) (x y x' y' : ℕ)
      (front back : List ℕ)
      → addr < 2 ^ 16
      → cnt < 2 ^ 16
      → x < 256
      → y < 256
      → x' < 256
      → y' < 256
      → (x ≢ x') ⊎ (y ≢ y')
      → length (front ++ (x ∷ y ∷ back)) ≡ cnt
      → length (front ++ (x' ∷ y' ∷ back)) ≡ cnt
      → let c = crc16 0xffff (command 3 addr cnt) 5 in
        let (ret, out_data, after, _) = read os (some h) addr cnt reg_data timeout w in
        ((h1 : SpiRegHandle)
          → after ≡ some h1
          → take (cnt + 2) h1.rx_buf
            ≡ (front ++ (x' ∷ y' ∷ back))
              ++ system_to_big 2 (crc16 c (front ++ (x ∷ y ∷ back)) cnt))
        → (is_neg ret ≡ true) × (out_data ≡ reg_data)
  read-detects h addr cnt reg_data timeout w x y x' y' front back ha hn hx hy hx' hy' differ e e'
        arrived =
      elim (read-ReadOutcome os h addr cnt reg_data timeout w ha hn) [
        | inl failed ↦ failed
        | inr (ok, h1, bytes, left, _, accepted) ↦ absurd (
            damaged_data addr cnt x y x' y' front back bytes h1 ha hn hx hy hx' hy' differ e e'
              (arrived h1 left) accepted)
      ]
