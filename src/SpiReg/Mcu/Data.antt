-- ===== src/SpiReg/Mcu/Data.antt =====
-- The data of an access, with its CRC, as it stands in the buffers of the handle.
use linux_uart.Base.{
  ℕ, ◌+◌, ◌*◌, ◌/◌, ◌%◌, ◌≤◌, ◌<◌, ◌^◌, ◌≡◌, sym, ap, ap₂, ◌∙◌, arith, List, [], ◌∷◌, ◌++◌, length,
  take, get_or, write_at, length-take, length-append, take-append_length, take-take_le, get_or-take,
  get_or-append_behind, take-overwrite,
}
use linux_uart.Crc.{crc16}
use linux_uart.Crc.Detect.{crc16-bounded, crc16-take}
use linux_uart.MemCtrl.{system_to_big}
use linux_uart.MemCtrl.Reverse.{system_to_big_two}
use linux_uart.SpiReg.{command, received_crc, data_frame, trans_length}
use linux_uart.SpiReg.Mcu.{with_crc}
use linux_uart.SpiReg.Frame.{
  command_crc-bounded, received_crc_bytes, data_message, trans_length_bounds,
}

-- Where data and a CRC stand at the front of a buffer, they are read back.
pub data_and_crc :
    (buf bytes : List ℕ) (n crc16_val : ℕ)
    → length bytes ≡ n
    → crc16_val < 2 ^ 16
    → take (n + 2) buf ≡ bytes ++ system_to_big 2 crc16_val
    → (take n buf ≡ bytes) × (received_crc buf n ≡ crc16_val)
data_and_crc buf bytes n crc16_val e hc framed = (
  sym (take-take_le n (n + 2) buf (omega arith))
      ∙ ap (take n) shape
      ∙ take-append_length bytes _ n e,
  received_crc_bytes buf n
      ∙ ap₂ (λ (x y : ℕ). x * 256 + y) (byte_at n 0 (omega arith) (omega arith))
          (byte_at (n + 1) 1 (omega arith) (omega arith))
      ∙ omega arith,
)
  where
    crc : List ℕ
    crc = crc16_val / 256 ∷ crc16_val % 256 ∷ []

    shape : take (n + 2) buf ≡ bytes ++ crc
    shape = framed ∙ ap (λ (l : List ℕ). bytes ++ l) (system_to_big_two crc16_val hc)

    byte_at : (i k : ℕ) → i < n + 2 → i ≡ n + k → get_or buf i 0 ≡ get_or crc k 0
    byte_at i k small at_k =
        sym (get_or-take (n + 2) i buf 0 small)
        ∙ ap (λ (l : List ℕ). get_or l i 0) shape
        ∙ get_or-append_behind bytes crc i k 0 (omega arith)

-- A message that begins with the data of a read and its CRC is accepted, and the data is what
-- stands at the front of the receive buffer.
pub received_data :
    (rx rx_buf bytes : List ℕ) (addr cnt : ℕ)
    → addr < 2 ^ 16
    → cnt ≤ 1022
    → length bytes ≡ cnt
    → length rx_buf ≡ 1024
    → take (cnt + 2) rx ≡ with_crc 3 addr cnt bytes
    → let buf = write_at 0 rx rx_buf in
      (take cnt buf ≡ bytes)
      × (received_crc buf cnt ≡ crc16 (crc16 0xffff (command 3 addr cnt) 5) buf cnt)
received_data rx rx_buf bytes addr cnt ha hn e room framed =
    let c = crc16 0xffff (command 3 addr cnt) 5 in
    let buf = write_at 0 rx rx_buf in
    let bounded =
      crc16-bounded c bytes cnt (command_crc-bounded 3 addr cnt (omega arith) ha (omega arith))
        (omega arith) in
    let enough : cnt + 2 ≤ length rx = omega (
      arith,
      ap length framed,
      length-take (cnt + 2) rx,
      length-append bytes (system_to_big 2 (crc16 c bytes cnt)),
      ap length (system_to_big_two (crc16 c bytes cnt) bounded),
    ) in
    let (front, crc) =
      data_and_crc buf bytes cnt (crc16 c bytes cnt) e bounded
        (take-overwrite (cnt + 2) rx rx_buf enough (omega arith) ∙ framed) in
    (front, crc ∙ ap (λ (l : List ℕ). crc16 c l cnt) (sym front) ∙ crc16-take c buf cnt)

-- The message of a write begins with the data and the CRC of the command and the data.
pub sent_data :
    (tx_buf reg_data : List ℕ) (addr cnt : ℕ)
    → addr < 2 ^ 16
    → cnt ≤ 1022
    → cnt ≤ length reg_data
    → length tx_buf ≡ 1024
    → let crc16_val = crc16 (crc16 0xffff (command 6 addr cnt) 5) reg_data cnt in
      take (cnt + 2) (data_frame tx_buf reg_data cnt crc16_val)
      ≡ with_crc 6 addr cnt (take cnt reg_data)
sent_data tx_buf reg_data addr cnt ha hn enough room =
    let c = crc16 0xffff (command 6 addr cnt) 5 in
    let bytes = take cnt reg_data in
    let counted : length bytes ≡ cnt = omega (arith, length-take cnt reg_data) in
    let crc16_val = crc16 c reg_data cnt in
    let same : crc16 c bytes cnt ≡ crc16_val = crc16-take c reg_data cnt in
    let bounded : crc16_val < 2 ^ 16 =
      crc16-bounded c reg_data cnt (command_crc-bounded 6 addr cnt (omega arith) ha (omega arith))
        enough in
    let crc : List ℕ = crc16_val / 256 ∷ crc16_val % 256 ∷ [] in
    sym (take-take_le (cnt + 2) (trans_length cnt) _ (trans_length_bounds cnt).1)
    ∙ ap (take (cnt + 2)) (data_message tx_buf reg_data cnt crc16_val room enough hn bounded)
    ∙ take-append_length (bytes ++ crc) _ (cnt + 2)
        (omega (arith, counted, length-append bytes crc))
    ∙ ap (λ (l : List ℕ). bytes ++ l) (sym (system_to_big_two crc16_val bounded))
    ∙ ap (λ (v : ℕ). bytes ++ system_to_big 2 v) (sym same)
