-- ===== src/SpiReg/Descriptors.antt =====
-- A register access keeps the three descriptors of the handle, on every path.
use linux_uart.Base.{ℕ, ◌≡◌, refl, ◌∙◌, arith, Bool, List, Option, none, some}
use linux_uart.Base.Int.{ℤ}
use linux_uart.Os.{Os, lock_ex}
use linux_uart.SpiReg.{
  SpiRegHandle, Step, go, out, Exchange, ◌>>=◌, pure, exit_if, handle, update, transfer_spi,
  goto_start_cmd, wait_ack, start, transfer_data, read_exchange, write_exchange, prepare, read,
  write,
}
use linux_uart.SpiReg.Audit.{run_on}

-- The SPI device, the lock file and the serial port.
abbrev pub descriptors : SpiRegHandle → ℤ × ℤ × ℤ
descriptors h = (h.fd, h.lock_fd, h.uart_fd)

module _ {W : Type 0} (os : Os W) where
  record Same {A : Type 0} (m : Exchange W A) : Type 0 where
    same : (h : SpiRegHandle) (w : W) → descriptors (m h w).1 ≡ descriptors h

  after_step :
      {A B : Type 0} (r : Step A × SpiRegHandle × W) (f : A → Exchange W B)
      → ((x : A) → Same (f x))
      → descriptors (run_on r f).1 ≡ descriptors r.1
  after_step (go x, h, w) f kf = (kf x).same h w
  after_step (out e, h, w) f kf = refl

  bind-Same :
      {A B : Type 0} (m : Exchange W A) (f : A → Exchange W B)
      → Same m
      → ((x : A) → Same (f x))
      → Same (m >>= f)
  bind-Same m f km kf = record { same = λ h w. after_step (m h w) f kf ∙ km.same h w }

  pure-Same : {A : Type 0} (x : A) → Same (pure x)
  pure-Same x = record { same = λ h w. refl }

  handle-Same : Same handle
  handle-Same = record { same = λ h w. refl }

  exit_if-Same : (c : Bool) (e : ℤ) → Same (exit_if c e)
  exit_if-Same c e = record { same = λ h w. refl }

  prepare-Same : (code reg_addr reg_cnt : ℕ) → Same (update (λ h. prepare h code reg_addr reg_cnt))
  unfolding prepare
  prepare-Same code reg_addr reg_cnt = record { same = λ h w. refl }

  fill_tx-Same : (tx : SpiRegHandle → List ℕ) → Same (update (λ h. record h { tx_buf = tx h }))
  fill_tx-Same tx = record { same = λ h w. refl }

  transfer_spi-Same : (len : ℕ) → Same (transfer_spi os len)
  unfolding transfer_spi
  transfer_spi-Same len = record { same = λ h w. refl }

  wait_ack-Same : (timeout : ℕ) → Same (wait_ack os timeout)
  unfolding wait_ack
  wait_ack-Same timeout = record { same = λ h w. ground arith }

  goto_start_cmd-Same : (timeout : ℕ) → Same (goto_start_cmd os timeout)
  unfolding goto_start_cmd
  goto_start_cmd-Same timeout = record { same = λ h w. ground arith }

  ruleset keeping = (
    bind-Same, pure-Same, handle-Same, prepare-Same, fill_tx-Same, exit_if-Same, transfer_spi-Same,
    wait_ack-Same, goto_start_cmd-Same,
  )

  start-Same : (code reg_addr reg_cnt timeout : ℕ) → Same (start os code reg_addr reg_cnt timeout)
  unfolding start
  start-Same code reg_addr reg_cnt timeout = search keeping depth 20

  transfer_data-Same : (reg_cnt timeout : ℕ) → Same (transfer_data os reg_cnt timeout)
  unfolding transfer_data
  transfer_data-Same reg_cnt timeout = search keeping depth 12

  read_exchange-Same :
      (reg_addr reg_cnt timeout : ℕ) → Same (read_exchange os reg_addr reg_cnt timeout)
  unfolding read_exchange
  read_exchange-Same reg_addr reg_cnt timeout =
      search (keeping, start-Same, transfer_data-Same) depth 12

  write_exchange-Same :
      (reg_addr reg_cnt : ℕ) (reg_data : List ℕ) (timeout : ℕ)
      → Same (write_exchange os reg_addr reg_cnt reg_data timeout)
  unfolding write_exchange
  write_exchange-Same reg_addr reg_cnt reg_data timeout =
      search (keeping, start-Same, transfer_data-Same) depth 12

  -- The descriptors of a handle that may be a null pointer.
  abbrev pub descriptors? : Option SpiRegHandle → Option (ℤ × ℤ × ℤ)
  descriptors? none = none
  descriptors? (some h) = some (descriptors h)

  pub read-descriptors :
      (h : SpiRegHandle) (reg_addr reg_cnt : ℕ) (reg_data : List ℕ) (timeout : ℕ) (w : W)
      → descriptors? (read os (some h) reg_addr reg_cnt reg_data timeout w).2 ≡ some (descriptors h)
  unfolding read
  read-descriptors h reg_addr reg_cnt reg_data timeout w =
      let w1 = (os.flock h.lock_fd lock_ex (os.mutex_lock w)).1 in
      ground (arith, (read_exchange-Same reg_addr reg_cnt timeout).same h w1)

  pub write-descriptors :
      (h : SpiRegHandle) (reg_addr reg_cnt : ℕ) (reg_data : List ℕ) (timeout : ℕ) (w : W)
      → descriptors? (write os (some h) reg_addr reg_cnt reg_data timeout w).1
        ≡ some (descriptors h)
  unfolding write
  write-descriptors h reg_addr reg_cnt reg_data timeout w =
      let w1 = (os.flock h.lock_fd lock_ex (os.mutex_lock w)).1 in
      ground (arith, (write_exchange-Same reg_addr reg_cnt reg_data timeout).same h w1)
