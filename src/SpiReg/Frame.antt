-- ===== src/SpiReg/Frame.antt =====
-- What the two messages of a register access hold.
use linux_uart.Base.{
  ℕ, ◌+◌, ◌*◌, get_or, ◌/◌, ◌%◌, ◌≤◌, ◌<◌, ◌^◌, ◌≡◌, ◌↔◌, refl, sym, ap, ap₂, ◌∙◌, arith, List, [],
  ◌∷◌, ◌++◌, take, replicate, write_at, length, length-take, length-replicate, length-overwrite,
  take-write_at_thrice,
}
use linux_uart.Crc.{crc16}
use linux_uart.Crc.Detect.{crc16-bounded}
use linux_uart.MemCtrl.{system_to_big}
use linux_uart.MemCtrl.Reverse.{system_to_big_one, system_to_big_two, big_to_system_two}
use linux_uart.SpiReg.{
  SpiRegHandle, command, blank, prepare, fill_len, trans_length, data_frame, received_crc,
}

-- The length of the second message is a multiple of eight, has room for the data and the CRC, and
-- is at most seven bytes longer. It fits the 1024-byte buffers exactly when at most 1022 registers
-- are asked for.
pub trans_length_bounds :
    (reg_cnt : ℕ)
    → (trans_length reg_cnt % 8 ≡ 0)
      × (reg_cnt + 2 ≤ trans_length reg_cnt)
      × (trans_length reg_cnt < reg_cnt + 10)
      × (trans_length reg_cnt ≤ 1024 ↔ reg_cnt ≤ 1022)
unfolding trans_length
trans_length_bounds reg_cnt =
    (omega arith, omega arith, omega arith, (λ h. omega arith, λ h. omega arith))

pub command_bytes :
    (code reg_addr reg_cnt : ℕ)
    → code < 256
    → reg_addr < 2 ^ 16
    → reg_cnt < 2 ^ 16
    → command code reg_addr reg_cnt
      ≡ code ∷ reg_addr / 256 ∷ reg_addr % 256 ∷ reg_cnt / 256 ∷ reg_cnt % 256 ∷ []
unfolding command
command_bytes code reg_addr reg_cnt hc ha hn =
    ap₂ ◌++◌ (system_to_big_one code hc)
      (ap₂ ◌++◌ (system_to_big_two reg_addr ha) (system_to_big_two reg_cnt hn))

-- The CRC that an access begins with is that of the five command bytes.
pub command_crc :
    (h : SpiRegHandle) (code reg_addr reg_cnt : ℕ)
    → code < 256
    → reg_addr < 2 ^ 16
    → reg_cnt < 2 ^ 16
    → crc16 0xffff (prepare h code reg_addr reg_cnt).tx_buf 5
      ≡ crc16 0xffff (command code reg_addr reg_cnt) 5
unfolding prepare crc16 blank
command_crc h code reg_addr reg_cnt hc ha hn =
    rw (command_bytes code reg_addr reg_cnt hc ha hn) refl

-- The CRC of the command is a 16-bit number.
pub command_crc-bounded :
    (code addr cnt : ℕ)
    → code < 256
    → addr < 2 ^ 16
    → cnt < 2 ^ 16
    → crc16 0xffff (command code addr cnt) 5 < 2 ^ 16
command_crc-bounded code addr cnt hc ha hn =
    crc16-bounded 0xffff (command code addr cnt) 5 (omega arith)
      (omega (arith, ap length (command_bytes code addr cnt hc ha hn)))

-- The transmit buffer keeps its 1024 bytes.
pub length-tx_buf :
    (h : SpiRegHandle) (code addr cnt : ℕ) → length (prepare h code addr cnt).tx_buf ≡ 1024
unfolding prepare blank
length-tx_buf h code addr cnt =
    length-overwrite (command code addr cnt) blank ∙ length-replicate {A = ℕ} 1024 0xff

-- The first message: the command, filled up to eight bytes with 0xff.
command_message :
    (h : SpiRegHandle) (code reg_addr reg_cnt : ℕ)
    → code < 256
    → reg_addr < 2 ^ 16
    → reg_cnt < 2 ^ 16
    → take 8 (prepare h code reg_addr reg_cnt).tx_buf
      ≡ code
        ∷ reg_addr / 256
        ∷ reg_addr % 256
        ∷ reg_cnt / 256
        ∷ reg_cnt % 256
        ∷ 0xff
        ∷ 0xff
        ∷ 0xff
        ∷ []
unfolding prepare blank
command_message h code reg_addr reg_cnt hc ha hn =
    rw (command_bytes code reg_addr reg_cnt hc ha hn) refl

-- The second message of a write, whatever stood in the transmit buffer: the data, its CRC with the
-- high byte first, and 0xff up to the length of the transfer. The buffer holds 1024 bytes, the
-- caller gives at least the data that it names, and that is at most 1022 bytes.
pub data_message :
    (tx_buf reg_data : List ℕ) (reg_cnt crc16_val : ℕ)
    → length tx_buf ≡ 1024
    → reg_cnt ≤ length reg_data
    → reg_cnt ≤ 1022
    → crc16_val < 2 ^ 16
    → take (trans_length reg_cnt) (data_frame tx_buf reg_data reg_cnt crc16_val)
      ≡ (take reg_cnt reg_data ++ (crc16_val / 256 ∷ crc16_val % 256 ∷ []))
        ++ replicate (fill_len (reg_cnt + 2)) 0xff
unfolding data_frame
data_message tx_buf reg_data reg_cnt crc16_val size enough small hc =
    ap (take (trans_length reg_cnt)) pieces
    ∙ ap₂
        (λ (k n : ℕ).
          take k (write_at n fill (write_at (length bytes) crc (write_at 0 bytes tx_buf))))
        (omega (arith, lengths, count, filled)) (omega (arith, count))
    ∙ take-write_at_thrice bytes crc fill tx_buf
        (omega (arith, lengths, count, filled, trans_length_bounds reg_cnt))
  where
    bytes : List ℕ
    bytes = take reg_cnt reg_data

    crc : List ℕ
    crc = crc16_val / 256 ∷ crc16_val % 256 ∷ []

    fill : List ℕ
    fill = replicate (fill_len (reg_cnt + 2)) 0xff

    count : length bytes ≡ reg_cnt
    count = omega (arith, length-take reg_cnt reg_data)

    filled : length fill ≡ fill_len (reg_cnt + 2)
    filled = length-replicate {A = ℕ} (fill_len (reg_cnt + 2)) 0xff

    lengths : trans_length reg_cnt ≡ reg_cnt + 2 + fill_len (reg_cnt + 2)
    lengths = unfold trans_length in refl

    pieces :
        write_at
          (reg_cnt + 2)
          fill
          (write_at reg_cnt (system_to_big 2 crc16_val) (write_at 0 bytes tx_buf))
        ≡ write_at (reg_cnt + 2) fill (write_at (length bytes) crc (write_at 0 bytes tx_buf))
    pieces =
        ap₂
          (λ (k : ℕ) (l : List ℕ).
            write_at (reg_cnt + 2) fill (write_at k l (write_at 0 bytes tx_buf)))
          (sym count) (system_to_big_two crc16_val hc)

-- The CRC bytes behind the data are read high byte first.
pub received_crc_bytes :
    (rx_buf : List ℕ) (n : ℕ)
    → received_crc rx_buf n ≡ get_or rx_buf n 0 * 256 + get_or rx_buf (n + 1) 0
unfolding received_crc
received_crc_bytes rx_buf n = big_to_system_two _ _
