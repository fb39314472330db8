-- ===== src/RegWrCb/Recorded.antt =====
-- Registers that keep a list of the bytes written into one register, for theorems on what a client
-- hands over, and what writing into a ring buffer adds to that list.
use linux_uart.Base.{
  ℕ, ◌%◌, ◌^◌, ◌≡◌, arith, List, ◌++◌, append_assoc, take, drop, length, take-append-drop, ◌==◌,
  if◌then◌else◌,
}
use linux_uart.Base.Int.{is_neg, to_ℕ}
use linux_uart.RegWrCb.{RegWrCbHandle, reg_at, cbreg_cmd_write, clip, free_size, write}

-- Only a write that succeeds counts.
abbrev pub recorded_bus : {S : Type 0} → ℕ → RegWrCbHandle S → RegWrCbHandle (S × List ℕ)
recorded_bus reg bus = record {
  read_reg = λ addr buf n timeout s.
      let (r, bytes, s1) = bus.read_reg addr buf n timeout s.0 in (r, bytes, (s1, s.1));
  write_reg = λ addr bytes n timeout s.
      let (r, s1) = bus.write_reg addr bytes n timeout s.0 in
      let taken = if addr == reg then s.1 ++ take n bytes else s.1 in
      (r, (s1, if is_neg r then s.1 else taken));
}

module _ {S : Type 0} (bus : RegWrCbHandle S) (cb_addr : ℕ) where
  -- The ring buffer at `cb_addr`, watched at the register that takes bytes.
  abbrev pub watched : RegWrCbHandle (S × List ℕ)
  watched = recorded_bus (reg_at cb_addr cbreg_cmd_write) bus

  free_size-log : (timeout : ℕ) (s : S × List ℕ) → (free_size watched cb_addr timeout s).1.1 ≡ s.1
  unfolding free_size
  free_size-log timeout s = ground arith

  -- A write into the ring buffer hands over the front of its bytes, as many as it returns.
  pub write_moves :
      (bytes : List ℕ) (timeout : ℕ) (s : S × List ℕ)
      → let (w, s1) = write watched cb_addr bytes (length bytes) timeout s in
        s1.1 ++ drop (to_ℕ w) bytes ≡ s.1 ++ bytes
  unfolding write
  write_moves bytes timeout s =
      let (ret, s1) = free_size watched cb_addr timeout s in
      let n = clip (length bytes % 2 ^ 16) (to_ℕ ret) in
      ground (
        arith,
        free_size-log timeout s,
        take-append-drop n bytes,
        append_assoc s1.1 (take n bytes) (drop n bytes),
      )
