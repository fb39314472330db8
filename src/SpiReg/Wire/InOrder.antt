-- ===== src/SpiReg/Wire/InOrder.antt =====
-- The messages of `SpiReg_Read` and `SpiReg_Write`, byte by byte and in their order.
use linux_uart.Base.{
  ℕ, ◌+◌, ◌/◌, ◌%◌, ◌≤◌, ◌<◌, ◌^◌, ◌≡◌, inl, inr, refl, sym, ap, ◌∙◌, arith, true, List, [], ◌∷◌,
  ◌++◌, length, take, drop, some, Bool-cases, append_assoc, ◌-◌, replicate, overwrite-eq,
  take-append_beyond, take-replicate, length-replicate, append-nil,
}
use linux_uart.Base.Int.{ℤ, pos, is_neg}
use linux_uart.SpiReg.Wire.{Sofar, Ended, read_exchange-Ended, write_exchange-Ended}
use linux_uart.Os.{Os, lock_ex}
use linux_uart.Os.Wire.{Sent, serial, spi, front, Wired, wired}
use linux_uart.Crc.{crc16}
use linux_uart.Crc.Detect.{crc16-bounded}
use linux_uart.SpiReg.Frame.{
  command_crc-bounded, command_bytes, trans_length_bounds, length-tx_buf, data_message,
}
use linux_uart.SpiReg.{
  SpiRegHandle, Step, go, out, command, prepare, data_frame, fill_len, trans_length, release, read,
  write, finish_read, finish_write, blank,
}

-- As many of the messages `all` as were sent, in their order, when a call returns `ret`: all of them
-- if it returns 0.
abbrev pub SentInOrder : List Sent → List Sent → List Sent → ℤ → Type 0
SentInOrder all before sent ret =
    (k : ℕ) × (k ≤ length all) × (sent ≡ before ++ take k all) × (ret ≡ pos 0 → k ≡ length all)

all_three :
    (m1 m2 m3 : Sent) (before : List Sent)
    → ((before ++ (m1 ∷ [])) ++ (m2 ∷ [])) ++ (m3 ∷ []) ≡ before ++ (m1 ∷ m2 ∷ m3 ∷ [])
all_three m1 m2 m3 before =
    append_assoc (before ++ (m1 ∷ [])) (m2 ∷ []) (m3 ∷ [])
    ∙ append_assoc before (m1 ∷ []) (m2 ∷ m3 ∷ [])

in_order :
    (m1 m2 m3 : Sent) (before sent : List Sent) (ret : ℤ)
    → is_neg ret ≡ true
    → Sofar before m1 m2 m3 sent
    → SentInOrder (m1 ∷ m2 ∷ m3 ∷ []) before sent ret
in_order m1 m2 m3 before sent ret failed (inl e) = (1, omega arith, e, λ z. absurd (ground arith))
in_order m1 m2 m3 before sent ret failed (inr (inl e)) =
    (2, omega arith, e ∙ append_assoc before (m1 ∷ []) (m2 ∷ []), λ z. absurd (ground arith))
in_order m1 m2 m3 before sent ret failed (inr (inr e)) =
    (3, omega arith, e ∙ all_three m1 m2 m3 before, λ z. refl)

read_in_order :
    {W : Type 0} (m1 m2 m3 : Sent) (before : List Sent) (reg_data : List ℕ)
    (r : Step (List ℕ) × SpiRegHandle × Wired W)
    → Ended before m1 m2 m3 r
    → SentInOrder (m1 ∷ m2 ∷ m3 ∷ []) before r.2.sent (finish_read reg_data r.0).0
read_in_order m1 m2 m3 before reg_data (go bytes, h, t) e =
    (3, omega arith, e ∙ all_three m1 m2 m3 before, λ z. refl)
read_in_order m1 m2 m3 before reg_data (out ret, h, t) (failed, e) =
    in_order m1 m2 m3 before t.sent ret failed e

write_in_order :
    {W : Type 0} (m1 m2 m3 : Sent) (before : List Sent) (r : Step ℤ × SpiRegHandle × Wired W)
    → Ended before m1 m2 m3 r
    → SentInOrder (m1 ∷ m2 ∷ m3 ∷ []) before r.2.sent (finish_write r.0)
write_in_order m1 m2 m3 before (go ret, h, t) e =
    (3, omega arith, e ∙ all_three m1 m2 m3 before, λ z. refl)
write_in_order m1 m2 m3 before (out ret, h, t) (failed, e) =
    in_order m1 m2 m3 before t.sent ret failed e

-- The bytes of a message that is sent while the command stands in the transmit buffer.
front-prepare :
    (h : SpiRegHandle) (code addr cnt n : ℕ)
    → code < 256
    → addr < 2 ^ 16
    → cnt < 2 ^ 16
    → 5 ≤ n
    → n ≤ 1024
    → front n (prepare h code addr cnt).tx_buf ≡ command code addr cnt ++ replicate (n - 5) 0xff
unfolding front prepare blank
front-prepare h code addr cnt n hc ha hn low high =
    let five : length (command code addr cnt) ≡ 5 =
      ap length (command_bytes code addr cnt hc ha hn) in
    let filled = length-replicate {A = ℕ} 1024 0xff in
    ap (take n) (overwrite-eq (command code addr cnt) blank (omega (arith, five, filled)))
    ∙ take-append_beyond n (command code addr cnt) _ (omega (arith, five))
    ∙ ap (λ (k : ℕ). command code addr cnt ++ take (n - k) (drop k blank)) five
    ∙ ap (λ (l : List ℕ). command code addr cnt ++ l)
        (take-replicate (n - 5) 1019 0xff (omega arith))

-- The bytes of the message of a write.
front-data_frame :
    (h : SpiRegHandle) (addr cnt : ℕ) (reg_data : List ℕ)
    → addr < 2 ^ 16
    → cnt ≤ 1022
    → cnt ≤ length reg_data
    → let crc16_val = crc16 (crc16 0xffff (command 6 addr cnt) 5) reg_data cnt in
      front (trans_length cnt) (data_frame (prepare h 6 addr cnt).tx_buf reg_data cnt crc16_val)
      ≡ (take cnt reg_data ++ (crc16_val / 256 ∷ crc16_val % 256 ∷ []))
        ++ replicate (fill_len (cnt + 2)) 0xff
unfolding front
front-data_frame h addr cnt reg_data ha hn enough =
    data_message (prepare h 6 addr cnt).tx_buf reg_data cnt _ (length-tx_buf h 6 addr cnt) enough hn
      (crc16-bounded _ reg_data cnt (command_crc-bounded 6 addr cnt (omega arith) ha (omega arith))
        enough)

module _ {W : Type 0} (os : Os W) where
  -- `SpiReg_Read` sends, in this order and nothing else: the start byte on the serial line, the
  -- command filled up with 0xff to a message of eight bytes, and a message as long as the data, its
  -- CRC and the fill. It stops sending where a step fails, and has sent all three when it returns 0.
  -- This holds for every answer of the machine, for at most 1022 registers.
  pub read-SentInOrder :
      (h : SpiRegHandle) (addr cnt : ℕ) (reg_data : List ℕ) (timeout : ℕ) (t : Wired W)
      → addr < 2 ^ 16
      → cnt ≤ 1022
      → let (ret, _, _, t1) = read (wired os) (some h) addr cnt reg_data timeout t in
        SentInOrder
          (serial h.uart_fd (b'S' ∷ [])
            ∷ spi h.fd (command 3 addr cnt ++ replicate 3 0xff)
            ∷ spi h.fd (command 3 addr cnt ++ replicate (trans_length cnt - 5) 0xff)
            ∷ [])
          t.sent
          t1.sent
          ret
  unfolding read release
  read-SentInOrder h addr cnt reg_data timeout t ha hn =
      let t1 = ((wired os).flock h.lock_fd lock_ex ((wired os).mutex_lock t)).1 in
      let bounds = trans_length_bounds cnt in
      elim (Bool-cases (is_neg (os.flock h.lock_fd lock_ex (os.mutex_lock t.world)).0)) [
        | inl l ↦ rw l (0, omega arith, sym (append-nil t.sent), λ z. absurd (ground arith))
        | inr l ↦
            rw
              (
                l,
                sym (
                    front-prepare h 3 addr cnt 8 (omega arith) ha (omega arith) (omega arith)
                      (omega arith)),
                sym (
                    front-prepare h 3 addr cnt (trans_length cnt) (omega arith) ha (omega arith)
                      (omega arith) (omega arith)),
              )
              (read_in_order _ _ _ t.sent reg_data _ (read_exchange-Ended os addr cnt timeout h t1))
      ]

  -- `SpiReg_Write` sends, in this order and nothing else: the start byte on the serial line, the
  -- command filled up with 0xff to a message of eight bytes, and a message of the data, the CRC of the
  -- command and the data with its high byte first, and 0xff for the fill. It stops sending where a
  -- step fails, and has sent all three when it returns 0. This holds for every answer of the machine,
  -- for at most 1022 registers that the caller's buffer has.
  pub write-SentInOrder :
      (h : SpiRegHandle) (addr cnt : ℕ) (reg_data : List ℕ) (timeout : ℕ) (t : Wired W)
      → addr < 2 ^ 16
      → cnt ≤ 1022
      → cnt ≤ length reg_data
      → let crc16_val = crc16 (crc16 0xffff (command 6 addr cnt) 5) reg_data cnt in
        let (ret, _, t1) = write (wired os) (some h) addr cnt reg_data timeout t in
        SentInOrder
          (serial h.uart_fd (b'S' ∷ [])
            ∷ spi h.fd (command 6 addr cnt ++ replicate 3 0xff)
            ∷ spi h.fd (
                (take cnt reg_data ++ (crc16_val / 256 ∷ crc16_val % 256 ∷ []))
                ++ replicate (fill_len (cnt + 2)) 0xff)
            ∷ [])
          t.sent
          t1.sent
          ret
  unfolding write release
  write-SentInOrder h addr cnt reg_data timeout t ha hn enough =
      let t1 = ((wired os).flock h.lock_fd lock_ex ((wired os).mutex_lock t)).1 in
      elim (Bool-cases (is_neg (os.flock h.lock_fd lock_ex (os.mutex_lock t.world)).0)) [
        | inl l ↦ rw l (0, omega arith, sym (append-nil t.sent), λ z. absurd (ground arith))
        | inr l ↦
            rw
              (
                l,
                sym (
                    front-prepare h 6 addr cnt 8 (omega arith) ha (omega arith) (omega arith)
                      (omega arith)),
                sym (front-data_frame h addr cnt reg_data ha hn enough),
              )
              (write_in_order _ _ _ t.sent _
                (write_exchange-Ended os addr cnt reg_data timeout h t1 ha (omega arith)))
      ]
