-- ===== src/RvMcu/Device/Audit.antt =====
-- rearview_mcu.c: the board of the program keeps to the lock discipline, whichever command uses it.
use linux_uart.Base.{ℕ, ◌≡◌, refl, ap, arith, Bool, false, List, ◌∷◌, Option, none, some}
use linux_uart.Base.Int.{ℤ}
use linux_uart.Os.{Os, rdonly}
use linux_uart.Os.Audit.{Audit, audited, Idle, eq_ℤ_refl}
use linux_uart.SpiReg.{SpiRegHandle}
use linux_uart.SpiReg.Audit.{read-Idle, write-Idle}
use linux_uart.SpiReg.Descriptors.{descriptors?, read-descriptors, write-descriptors}
use linux_uart.RvMcu.{spi_bus}
use linux_uart.RvMcu.Burn.Keeps.{BoardKeeps}
use linux_uart.RvMcu.Device.{spi_board}

-- The locks, the open descriptors and the faults, and the descriptors of the handle.
abbrev pub Watched : Type 0
Watched = Option (ℤ × ℤ × ℤ) × Bool × Bool × List ℤ × ℕ

module _ {W : Type 0} (os : Os W) (fds3 : ℤ × ℤ × ℤ) (n : ℕ) where
  abbrev pub watch : Option SpiRegHandle × Audit W → Watched
  watch (h, a) = (descriptors? (audited os) h, a.mutex_held, a.file_held, a.open_fds, a.faults)

  -- No lock is held, and `fds` are open.
  abbrev pub idle_with : List ℤ → Watched
  idle_with fds = (some fds3, false, false, fds, n)

  pub watch-Idle :
      (fds : List ℤ) (h : Option SpiRegHandle) (a : Audit W)
      → watch (h, a) ≡ idle_with fds
      → (descriptors? (audited os) h ≡ some fds3) × Idle fds n a
  watch-Idle fds h a e = (
    ap (λ (x : Watched). x.0) e,
    (
      ap (λ (x : Watched). x.1) e,
      ap (λ (x : Watched). x.2) e,
      ap (λ (x : Watched). x.3) e,
      ap (λ (x : Watched). x.4) e,
    ),
  )

  pub Idle-watch :
      (fds : List ℤ) (h : Option SpiRegHandle) (a : Audit W)
      → descriptors? (audited os) h ≡ some fds3
      → Idle fds n a
      → watch (h, a) ≡ idle_with fds
  Idle-watch fds h a d (e1, e2, e3, e4) = rw (d, e1, e2, e3, e4) refl

  reads-watched :
      (fds : List ℤ) (addr : ℕ) (buf : List ℕ) (cnt timeout : ℕ) (h : Option SpiRegHandle)
      (a : Audit W)
      → watch (h, a) ≡ idle_with fds
      → watch ((spi_bus (audited os)).read_reg addr buf cnt timeout (h, a)).2 ≡ idle_with fds
  unfolding spi_bus
  reads-watched fds addr buf cnt timeout none a e = ground (arith, ap (λ (x : Watched). x.0) e)
  reads-watched fds addr buf cnt timeout (some h) a e =
      let (d, idle) = watch-Idle fds (some h) a e in
      let (_, _, h1, a1) = linux_uart.SpiReg.read (audited os) (some h) addr cnt buf timeout a in
      Idle-watch fds h1 a1 (rw (read-descriptors (audited os) h addr cnt buf timeout a) d)
        (read-Idle os fds n h addr cnt buf timeout a idle)

  writes-watched :
      (fds : List ℤ) (addr : ℕ) (bytes : List ℕ) (cnt timeout : ℕ) (h : Option SpiRegHandle)
      (a : Audit W)
      → watch (h, a) ≡ idle_with fds
      → watch ((spi_bus (audited os)).write_reg addr bytes cnt timeout (h, a)).1 ≡ idle_with fds
  unfolding spi_bus
  writes-watched fds addr bytes cnt timeout none a e = ground (arith, ap (λ (x : Watched). x.0) e)
  writes-watched fds addr bytes cnt timeout (some h) a e =
      let (d, idle) = watch-Idle fds (some h) a e in
      let (_, h1, a1) = linux_uart.SpiReg.write (audited os) (some h) addr cnt bytes timeout a in
      Idle-watch fds h1 a1 (rw (write-descriptors (audited os) h addr cnt bytes timeout a) d)
        (write-Idle os fds n h addr cnt bytes timeout a idle)

  -- The board keeps what is watched.
  pub spi_board-BoardKeeps : BoardKeeps (spi_board (audited os)) watch idle_with
  spi_board-BoardKeeps = record {
    on_bus = λ fds. record {
      reads = λ addr buf cnt timeout (h, a) e. reads-watched fds addr buf cnt timeout h a e;
      writes = λ addr bytes cnt timeout (h, a) e. writes-watched fds addr bytes cnt timeout h a e;
    };
    sleeps = λ fds us s e. e;
    file_reads = λ fds fd cnt s e. e;
    open_fails = λ fds path (h, a) e negative.
        let (d, idle) = watch-Idle fds h a e in
        let (fd, a1) = (audited os).open_file path rdonly a in Idle-watch fds h a1 d (ground arith);
    opens = λ fds path (h, a) e opened.
        let (d, idle) = watch-Idle fds h a e in
        let (fd, a1) = (audited os).open_file path rdonly a in
        Idle-watch (fd ∷ fds) h a1 d (ground arith);
    closes = λ fds fd (h, a) e.
        let (d, idle) = watch-Idle (fd ∷ fds) h a e in
        Idle-watch fds h ((audited os).close fd a) d (ground (arith, eq_ℤ_refl fd));
  }
