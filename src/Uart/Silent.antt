-- ===== src/Uart/Silent.antt =====
-- Reading the serial line sends nothing.
use linux_uart.Base.{ℕ, zero, suc, ◌+◌, ◌-◌, ◌≡◌, refl, arith, List, [], ◌++◌}
use linux_uart.Base.Int.{ℤ, to_ℕ}
use linux_uart.Os.{Os}
use linux_uart.Os.Wire.{Wired, wired}
use linux_uart.Uart.{read_loop, uart_read}

module _ {W : Type 0} (os : Os W) where
  read_loop-sent :
      (f : ℕ) (fd : ℤ) (remaining : ℕ) (timeout : ℤ) (got : ℕ) (bytes : List ℕ) (t : Wired W)
      → (read_loop (wired os) f fd remaining timeout got bytes t).2.sent ≡ t.sent
  unfolding read_loop
  read_loop-sent zero fd r limit got bytes t = refl
  read_loop-sent (suc f) fd r limit got bytes t =
      let t1 = ((wired os).poll fd limit t).2 in
      let rd = (wired os).read_fd fd r t1 in
      ground
        (arith, read_loop-sent f fd (r - to_ℕ rd.0) limit (got + to_ℕ rd.0) (bytes ++ rd.1) rd.2)

  pub uart_read-sent :
      (fd : ℤ) (size timeout : ℕ) (t : Wired W)
      → (uart_read (wired os) fd size timeout t).2.sent ≡ t.sent
  unfolding uart_read
  uart_read-sent fd size timeout t = read_loop-sent size fd size _ 0 [] t
