-- ===== src/Uart/ReadLoop.antt =====
-- The loop of `uart_Read`: its fuel, and what it returns.
use linux_uart.Base.{
  ℕ, zero, suc, ◌+◌, ◌-◌, ◌≤◌, ◌≡◌, refl, arith, true, List, [], ◌∷◌, ◌++◌, length, length-append,
}
use linux_uart.Base.Int.{ℤ, pos, to_ℕ, signed32}
use linux_uart.Os.{Os}
use linux_uart.Uart.{read_loop, uart_read}

module _ {W : Type 0} (os : Os W) where
  -- Any fuel from the number of bytes still wanted on gives the same result: a round that goes on
  -- has read a byte, so the loop ends by its own tests.
  pub read_loop_fuel :
      (f g : ℕ) (fd : ℤ) (remaining : ℕ) (timeout : ℤ) (got : ℕ) (bytes : List ℕ) (w : W)
      → remaining ≤ f
      → remaining ≤ g
      → read_loop os f fd remaining timeout got bytes w
        ≡ read_loop os g fd remaining timeout got bytes w
  unfolding read_loop
  read_loop_fuel zero zero fd r t got bytes w p q = refl
  read_loop_fuel zero (suc g) fd r t got bytes w p q = ground arith
  read_loop_fuel (suc f) zero fd r t got bytes w p q = ground arith
  read_loop_fuel (suc f) (suc g) fd r t got bytes w p q = ground (
    arith,
    read_loop_fuel f g fd (r - to_ℕ (os.read_fd fd r (os.poll fd t w).2).0) t
        (got + to_ℕ (os.read_fd fd r (os.poll fd t w).2).0)
        (bytes ++ (os.read_fd fd r (os.poll fd t w).2).1) (os.read_fd fd r (os.poll fd t w).2).2,
  )

  -- read(2): at most as many bytes as asked for, and as many as it says.
  abbrev pub ReadsWithin : Type 0
  ReadsWithin =
      (fd : ℤ) (n : ℕ) (w : W) (m : ℕ)
      → (os.read_fd fd n w).0 ≡ pos m
      → (m ≤ n) × (length (os.read_fd fd n w).1 ≡ m)

  read_loop_count :
      (reads : ReadsWithin) (f : ℕ) (fd : ℤ) (remaining : ℕ) (timeout : ℤ) (got : ℕ)
      (bytes : List ℕ) (w : W) (n : ℕ)
      → length bytes ≡ got
      → (read_loop os f fd remaining timeout got bytes w).0 ≡ pos n
      → (n ≤ got + remaining) × (length (read_loop os f fd remaining timeout got bytes w).1 ≡ n)
  unfolding read_loop
  read_loop_count reads zero fd r t got bytes w n e h = ground arith
  read_loop_count reads (suc f) fd r t got bytes w n e h =
      let w1 = (os.poll fd t w).2 in
      let rn = (os.read_fd fd r w1).0 in
      let more = (os.read_fd fd r w1).1 in
      let w2 = (os.read_fd fd r w1).2 in
      ground (
        arith,
        reads fd r w1 (to_ℕ rn),
        length-append bytes more,
        read_loop_count reads f fd (r - to_ℕ rn) t (got + to_ℕ rn) (bytes ++ more) w2 n,
      )

  -- Where read(2) keeps its contract, a count that `uart_Read` returns is at most the size of the
  -- buffer, and that many bytes stand in it.
  uart_read_count :
      (reads : ReadsWithin) (fd : ℤ) (buf_size timeout : ℕ) (w : W) (n : ℕ)
      → (uart_read os fd buf_size timeout w).0 ≡ pos n
      → (n ≤ buf_size) × (length (uart_read os fd buf_size timeout w).1 ≡ n)
  unfolding uart_read
  uart_read_count reads fd buf_size timeout w n h =
      omega (arith, read_loop_count reads buf_size fd buf_size (signed32 timeout) 0 [] w n refl h)

  -- A byte that is announced and read ends a read of one byte.
  pub uart_read_byte :
      (fd : ℤ) (timeout b : ℕ) (w : W)
      → let polled = os.poll fd (signed32 timeout) w in
        let got = os.read_fd fd 1 polled.2 in
        polled.0 ≡ pos 1
        → polled.1 ≡ true
        → got.0 ≡ pos 1
        → got.1 ≡ b ∷ []
        → uart_read os fd 1 timeout w ≡ (pos 1, b ∷ [], got.2)
  unfolding uart_read read_loop
  uart_read_byte fd timeout b w p q r s = ground arith
