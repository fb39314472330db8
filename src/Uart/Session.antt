-- ===== src/Uart/Session.antt =====
-- Reading and writing the serial line within a session that holds both locks, watched by `Os.Audit`.
use linux_uart.Base.{ℕ, zero, suc, ◌+◌, ◌-◌, arith, List, [], ◌++◌}
use linux_uart.Base.Int.{ℤ, to_ℕ}
use linux_uart.Os.{Os}
use linux_uart.Os.Audit.{Audit, audited, InSession}
use linux_uart.Uart.{read_loop, uart_write, uart_read}

module _ {W : Type 0} (os : Os W) (fds : List ℤ) (n : ℕ) where
  read_loop-InSession :
      (f : ℕ) (fd : ℤ) (remaining : ℕ) (timeout : ℤ) (got : ℕ) (bytes : List ℕ) (a : Audit W)
      → InSession fds n a
      → InSession fds n (read_loop (audited os) f fd remaining timeout got bytes a).2
  unfolding read_loop
  read_loop-InSession zero fd r t got bytes a s = s
  read_loop-InSession (suc f) fd r t got bytes a s =
      let w1 = ((audited os).poll fd t a).2 in
      let rd = (audited os).read_fd fd r w1 in
      ground
        (arith, read_loop-InSession f fd (r - to_ℕ rd.0) t (got + to_ℕ rd.0) (bytes ++ rd.1) rd.2)

  pub uart_read-InSession :
      (fd : ℤ) (size timeout : ℕ) (a : Audit W)
      → InSession fds n a
      → InSession fds n (uart_read (audited os) fd size timeout a).2
  unfolding uart_read
  uart_read-InSession fd size timeout a s = read_loop-InSession size fd size _ 0 [] a s

  pub uart_write-InSession :
      (fd : ℤ) (bytes : List ℕ) (a : Audit W)
      → InSession fds n a
      → InSession fds n (uart_write (audited os) fd bytes a).1
  unfolding uart_write
  uart_write-InSession fd bytes a s = ground arith
