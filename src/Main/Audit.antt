-- ===== src/Main/Audit.antt =====
-- main.c: the whole program keeps to the lock discipline and closes what it opens.
use linux_uart.Base.{ℕ, ◌≡◌, false, List, ◌∷◌}
use linux_uart.Base.Int.{ℤ, is_neg}
use linux_uart.Os.{Os, lock_ex}
use linux_uart.Os.Audit.{Audit, Idle}
use linux_uart.SpiReg.{SpiRegHandle}
use linux_uart.Run.Dispatch.{Progress, returned, running, cut_short}
use linux_uart.Run.Dispatch.Keeps.{Keeps}

-- `flock` waits until it has the lock.
abbrev pub LocksGranted : {W : Type 0} → Os W → Type 0
LocksGranted os = (fd : ℤ) (w : _) → is_neg (os.flock fd lock_ex w).0 ≡ false

-- The three descriptors beside those that were open before.
abbrev pub with_device : SpiRegHandle → List ℤ → List ℤ
with_device h fds = h.uart_fd ∷ h.fd ∷ h.lock_fd ∷ fds

-- A program that has ended holds no lock, and has the descriptors `fds` open; while it runs an endless
-- command, those of the handle are open beside them, and no lock is held between two rounds. There
-- have been `n` faults.
pub data Ends {W : Type 0} (fds : List ℤ) (n : ℕ) (h : SpiRegHandle)
    : Progress (Audit W) → Type 0 where
  ended : (ret : ℤ) (a : Audit W) → Idle fds n a → Ends fds n h (returned ret a)
  going_on : (a : Audit W) → Idle (with_device h fds) n a → Ends fds n h (running a)
  unfinished : Ends fds n h cut_short
