-- ===== src/SpiReg/Audit.antt =====
-- The lock discipline of a register access, watched by `Os.Audit` over any machine.
use linux_uart.Base.{ℕ, arith, Bool, List, [], ◌∷◌, some}
use linux_uart.Base.Int.{ℤ}
use linux_uart.Os.{Os, lock_ex}
use linux_uart.Os.Audit.{Audit, audited, InSession, Idle}
use linux_uart.Uart.{uart_write, uart_in_clean}
use linux_uart.Uart.Session.{uart_write-InSession, uart_read-InSession}
use linux_uart.SpiReg.{
  SpiRegHandle, Step, go, out, Exchange, ◌>>=◌, pure, exit_if, handle, update, transfer_spi,
  goto_start_cmd, wait_ack, start, transfer_data, read_exchange, write_exchange, release, read,
  write,
}

-- What `>>=` does with the end of its first part.
abbrev pub run_on :
    {W A B : Type 0} → Step A × SpiRegHandle × W → (A → Exchange W B) → Step B × SpiRegHandle × W
run_on r f = elim r.0 [ go a ↦ f a r.1 r.2 | out ret ↦ (out ret, r.1, r.2) ]

module _ {W : Type 0} (os : Os W) (fds : List ℤ) (n : ℕ) where
  -- A part of an exchange that leaves the session as it is, whatever the machine answers.
  record Keeps {A : Type 0} (m : Exchange (Audit W) A) : Type 0 where
    after : (h : SpiRegHandle) (a : Audit W) → InSession fds n a → InSession fds n (m h a).2

  after_step :
      {A B : Type 0} (r : Step A × SpiRegHandle × Audit W) (f : A → Exchange (Audit W) B)
      → InSession fds n r.2
      → ((x : A) → Keeps (f x))
      → InSession fds n (run_on r f).2
  after_step (go x, h, a) f s kf = (kf x).after h a s
  after_step (out e, h, a) f s kf = s

  bind-Keeps :
      {A B : Type 0} (m : Exchange (Audit W) A) (f : A → Exchange (Audit W) B)
      → Keeps m
      → ((x : A) → Keeps (f x))
      → Keeps (m >>= f)
  bind-Keeps m f km kf = record { after = λ h a s. after_step (m h a) f (km.after h a s) kf }

  pure-Keeps : {A : Type 0} (x : A) → Keeps (pure x)
  pure-Keeps x = record { after = λ h a s. s }

  handle-Keeps : Keeps handle
  handle-Keeps = record { after = λ h a s. s }

  update-Keeps : (f : SpiRegHandle → SpiRegHandle) → Keeps (update f)
  update-Keeps f = record { after = λ h a s. s }

  exit_if-Keeps : (c : Bool) (e : ℤ) → Keeps (exit_if c e)
  exit_if-Keeps c e = record { after = λ h a s. s }

  transfer_spi-Keeps : (len : ℕ) → Keeps (transfer_spi (audited os) len)
  unfolding transfer_spi
  transfer_spi-Keeps len = record { after = λ h a s. ground arith }

  wait_ack-Keeps : (timeout : ℕ) → Keeps (wait_ack (audited os) timeout)
  unfolding wait_ack uart_in_clean
  wait_ack-Keeps timeout = record {
    after = λ h a s. ground (arith, uart_read-InSession os fds n h.uart_fd 1 timeout a s);
  }

  goto_start_cmd-Keeps : (timeout : ℕ) → Keeps (goto_start_cmd (audited os) timeout)
  unfolding goto_start_cmd uart_in_clean
  goto_start_cmd-Keeps timeout = record {
    after = λ h a s.
        let a1 = (audited os).tcflush_in h.uart_fd a in
        let flushed : InSession fds n a1 = ground arith in
        let written = uart_write-InSession os fds n h.uart_fd (b'S' ∷ []) a1 flushed in
        ground (
          arith,
          written,
          uart_read-InSession os fds n h.uart_fd 1 timeout
              (uart_write (audited os) h.uart_fd (b'S' ∷ []) a1).1 written,
        );
  }

  ruleset keeping = (
    bind-Keeps, pure-Keeps, handle-Keeps, update-Keeps, exit_if-Keeps, transfer_spi-Keeps,
    wait_ack-Keeps, goto_start_cmd-Keeps,
  )

  start-Keeps :
      (code reg_addr reg_cnt timeout : ℕ) → Keeps (start (audited os) code reg_addr reg_cnt timeout)
  unfolding start
  start-Keeps code reg_addr reg_cnt timeout = search keeping depth 20

  transfer_data-Keeps : (reg_cnt timeout : ℕ) → Keeps (transfer_data (audited os) reg_cnt timeout)
  unfolding transfer_data
  transfer_data-Keeps reg_cnt timeout = search keeping depth 12

  read_exchange-Keeps :
      (reg_addr reg_cnt timeout : ℕ) → Keeps (read_exchange (audited os) reg_addr reg_cnt timeout)
  unfolding read_exchange
  read_exchange-Keeps reg_addr reg_cnt timeout =
      search (keeping, start-Keeps, transfer_data-Keeps) depth 12

  write_exchange-Keeps :
      (reg_addr reg_cnt : ℕ) (reg_data : List ℕ) (timeout : ℕ)
      → Keeps (write_exchange (audited os) reg_addr reg_cnt reg_data timeout)
  unfolding write_exchange
  write_exchange-Keeps reg_addr reg_cnt reg_data timeout =
      search (keeping, start-Keeps, transfer_data-Keeps) depth 12

  release-Idle :
      (h : SpiRegHandle) (a : Audit W) → InSession fds n a → Idle fds n (release (audited os) h a)
  unfolding release
  release-Idle h a s = ground arith

  pub read-Idle :
      (h : SpiRegHandle) (reg_addr reg_cnt : ℕ) (reg_data : List ℕ) (timeout : ℕ) (a : Audit W)
      → Idle fds n a
      → Idle fds n (read (audited os) (some h) reg_addr reg_cnt reg_data timeout a).3
  unfolding read
  read-Idle h addr cnt data0 timeout a s =
      let a1 = ((audited os).flock h.lock_fd lock_ex ((audited os).mutex_lock a)).1 in
      let (_, h1, a2) = read_exchange (audited os) addr cnt timeout h a1 in
      ground (arith, (read_exchange-Keeps addr cnt timeout).after h a1, release-Idle h1 a2)

  -- `SpiReg_Write` keeps to the same discipline on every path: it uses the bus only while it holds
  -- the mutex and the file lock, takes neither twice, gives both back, and opens and closes nothing.
  pub write-Idle :
      (h : SpiRegHandle) (reg_addr reg_cnt : ℕ) (reg_data : List ℕ) (timeout : ℕ) (a : Audit W)
      → Idle fds n a
      → Idle fds n (write (audited os) (some h) reg_addr reg_cnt reg_data timeout a).2
  unfolding write
  write-Idle h addr cnt data0 timeout a s =
      let a1 = ((audited os).flock h.lock_fd lock_ex ((audited os).mutex_lock a)).1 in
      let (_, h1, a2) = write_exchange (audited os) addr cnt data0 timeout h a1 in
      ground (arith, (write_exchange-Keeps addr cnt data0 timeout).after h a1, release-Idle h1 a2)
