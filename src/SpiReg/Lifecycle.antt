-- ===== src/SpiReg/Lifecycle.antt =====
-- spi_reg.c: `SpiReg_Init` and `SpiReg_Exit`, and which descriptors and locks they leave.
pub mod Opened
use linux_uart.Base.{
  ℕ, ◌+◌, ◌≤◌, ◌≡◌, ◌⊎◌, refl, arith, true, false, List, [], ◌∷◌, ◌++◌, take, replicate, length,
  length-append, length-take, if◌then◌else◌, if-cases,
}
use linux_uart.Base.Int.{ℤ, pos, is_neg, neg}
use linux_uart.Os.{
  Os, OpenMode, lock_ex, lock_un, rdwr, creat, wr_mode, lsb_first, bits_per_word, max_speed_hz,
}
use linux_uart.Os.Audit.{Audit, audited, FileLocked, Idle, eq_ℤ, eq_ℤ_refl}
use linux_uart.Uart.{uart_open}
use linux_uart.Uart.Setup.{uart_open_outcome}
use linux_uart.SpiReg.{SpiRegHandle}

-- The path of the lock file: strcpy, and four times strncat with 40 characters at most.
pub lock_path : (List ℕ → List ℕ) → List ℕ → List ℕ → List ℕ
lock_path basename spi_dev uart_dev =
    b'/' ∷ b'r' ∷ b'u' ∷ b'n' ∷ b'/' ∷ b'l' ∷ b'o' ∷ b'c' ∷ b'k' ∷ b'/' ∷ []
    ++ (take 40 (basename spi_dev)
        ++ (take 40 (b'_' ∷ b'_' ∷ [])
            ++ (take 40 (basename uart_dev) ++ take 40 (b'.' ∷ b'l' ∷ b'o' ∷ b'c' ∷ b'k' ∷ []))))

module _ {W : Type 0} (os : Os W) where
  -- The four settings in their order, up to the first that fails, with the value of `ret`.
  pub configure_spi : ℤ → ℕ → W → ℤ × W
  configure_spi fd spi_speed w =
      let (r1, w1) = os.spi_config fd (wr_mode 3) w in
      let (r2, w2) = os.spi_config fd (lsb_first 0) w1 in
      let (r3, w3) = os.spi_config fd (bits_per_word 8) w2 in
      let (r4, w4) = os.spi_config fd (max_speed_hz spi_speed) w3 in
      if is_neg r1
      then (r1, w1)
      else if is_neg r2
      then (r2, w2)
      else if is_neg r3
      then (r3, w3)
      else (r4, w4)

  -- The label `open_spi_error`, and the one above it.
  pub close_lock : ℤ → W → W
  close_lock lock_fd w = os.close lock_fd (os.flock lock_fd lock_un w).1

  -- `SpiReg_Init`
  unfoldable pub init : SpiRegHandle → List ℕ → List ℕ → ℕ → W → ℤ × SpiRegHandle × W
  unfolding close_lock
  init h spi_dev uart_dev spi_speed w =
      let (lock_fd, w1) = os.open_file (lock_path os.basename spi_dev uart_dev) creat w in
      let (locked, w2) = os.flock lock_fd lock_ex w1 in
      let (fd, w3) = os.open_file spi_dev rdwr w2 in
      let (ret, w4) = configure_spi fd spi_speed w3 in
      let (uart_fd, w5) = uart_open os uart_dev 115200 8 1 b'N' w4 in
      let h1 = record h { lock_fd = lock_fd } in
      let h2 : SpiRegHandle = record {
        fd = fd;
        lock_fd = lock_fd;
        uart_fd = uart_fd;
        tx_buf = replicate 1024 0;
        rx_buf = replicate 1024 0;
        speed = spi_speed;
      } in
      if is_neg lock_fd
      then (lock_fd, h, w1)
      else if is_neg locked
      then (locked, h1, os.close lock_fd w2)
      else if is_neg fd
      then (fd, h1, close_lock lock_fd w3)
      else if is_neg ret
      then (ret, h1, close_lock lock_fd (os.close fd w4))
      else if is_neg uart_fd
      then (ret, h2, close_lock lock_fd (os.close fd w5))
      else (pos 0, h2, (os.flock lock_fd lock_un (os.mutex_init w5)).1)

  -- `SpiReg_Exit`
  unfoldable pub exit : SpiRegHandle → W → W
  exit h w =
      let w1 = os.mutex_destroy (os.flock h.lock_fd lock_ex w).1 in
      let w2 = os.close h.uart_fd (os.close h.fd w1) in
      os.close h.lock_fd (os.flock h.lock_fd lock_un w2).1

-- The path fits its 512 characters with the terminating zero, whatever the device names are.
length-lock_path :
    (basename : List ℕ → List ℕ) (spi_dev uart_dev : List ℕ)
    → length (lock_path basename spi_dev uart_dev) + 1 ≤ 512
unfolding lock_path
length-lock_path basename spi_dev uart_dev =
    let spi = take 40 (basename spi_dev) in
    let uart = take 40 (basename uart_dev) in
    let ends : List ℕ = b'.' ∷ b'l' ∷ b'o' ∷ b'c' ∷ b'k' ∷ [] in
    omega (
      arith,
      length-append spi (b'_' ∷ b'_' ∷ (uart ++ ends)),
      length-append uart ends,
      length-take 40 (basename spi_dev),
      length-take 40 (basename uart_dev),
    )

-- What `SpiReg_Init` can end with.
pub data InitOutcome {W : Type 0} (fds : List ℤ) (n : ℕ) (ret : ℤ) (h : SpiRegHandle) (a : Audit W)
    : Type 0 where
  failed : is_neg ret ≡ true → Idle fds n a → InitOutcome fds n ret h a
  ready :
      ret ≡ pos 0
      → is_neg h.uart_fd ≡ false
      → Idle (h.uart_fd ∷ h.fd ∷ h.lock_fd ∷ fds) n a
      → InitOutcome fds n ret h a
  no_uart : is_neg ret ≡ false → h.uart_fd ≡ neg 1 → Idle fds n a → InitOutcome fds n ret h a

module _ {W : Type 0} (os : Os W) (fds : List ℤ) (n : ℕ) where
  configure_spi-FileLocked :
      (fd : ℤ) (spi_speed : ℕ) (a : Audit W)
      → FileLocked fds n a
      → FileLocked fds n (configure_spi (audited os) fd spi_speed a).1
  unfolding configure_spi
  configure_spi-FileLocked fd spi_speed a s = ground arith

  -- Giving up with the lock file open.
  close_lock-Idle :
      (fd : ℤ) (a : Audit W) → FileLocked (fd ∷ fds) n a → Idle fds n (close_lock (audited os) fd a)
  unfolding close_lock
  close_lock-Idle fd a s = ground (arith, eq_ℤ_refl fd)

  close-FileLocked :
      (fd : ℤ) (a : Audit W)
      → FileLocked (fd ∷ fds) n a
      → FileLocked fds n ((audited os).close fd a)
  close-FileLocked fd a s = ground (arith, eq_ℤ_refl fd)

  close-Idle : (fd : ℤ) (a : Audit W) → Idle (fd ∷ fds) n a → Idle fds n ((audited os).close fd a)
  close-Idle fd a s = ground (arith, eq_ℤ_refl fd)

  open_file-Idle :
      (path : List ℕ) (mode : OpenMode) (a : Audit W)
      → Idle fds n a
      → let (fd, after) = (audited os).open_file path mode a in
        is_neg fd ≡ false → Idle (fd ∷ fds) n after
  open_file-Idle path mode a s ok = ground arith

  open_file_failed-Idle :
      (path : List ℕ) (mode : OpenMode) (a : Audit W)
      → Idle fds n a
      → let (fd, after) = (audited os).open_file path mode a in is_neg fd ≡ true → Idle fds n after
  open_file_failed-Idle path mode a s failure = ground arith

  open_file-FileLocked :
      (path : List ℕ) (mode : OpenMode) (a : Audit W)
      → FileLocked fds n a
      → let (fd, after) = (audited os).open_file path mode a in
        is_neg fd ≡ false → FileLocked (fd ∷ fds) n after
  open_file-FileLocked path mode a s ok = ground arith

  open_file_failed-FileLocked :
      (path : List ℕ) (mode : OpenMode) (a : Audit W)
      → FileLocked fds n a
      → let (fd, after) = (audited os).open_file path mode a in
        is_neg fd ≡ true → FileLocked fds n after
  open_file_failed-FileLocked path mode a s failure = ground arith

  flock-FileLocked :
      (fd : ℤ) (a : Audit W)
      → Idle fds n a
      → let (r, after) = (audited os).flock fd lock_ex a in
        is_neg r ≡ false → FileLocked fds n after
  flock-FileLocked fd a s ok = ground arith

  flock_failed-Idle :
      (fd : ℤ) (a : Audit W)
      → Idle fds n a
      → let (r, after) = (audited os).flock fd lock_ex a in is_neg r ≡ true → Idle fds n after
  flock_failed-Idle fd a s failure = ground arith

  unlock-Idle :
      (fd : ℤ) (a : Audit W)
      → FileLocked fds n a
      → Idle fds n ((audited os).flock fd lock_un ((audited os).mutex_init a)).1
  unlock-Idle fd a s = ground arith

  -- Neither failing nor opening the port is left to treat.
  no_port :
      (uart_fd : ℤ) (after : Audit W)
      → ((uart_fd ≡ neg 1) × FileLocked fds n after)
        ⊎ ((is_neg uart_fd ≡ false) × FileLocked (uart_fd ∷ fds) n after)
      → is_neg uart_fd ≡ true
      → (uart_fd ≡ neg 1) × FileLocked fds n after
  no_port uart_fd after outcome failure = ground arith

  some_port :
      (uart_fd : ℤ) (after : Audit W)
      → ((uart_fd ≡ neg 1) × FileLocked fds n after)
        ⊎ ((is_neg uart_fd ≡ false) × FileLocked (uart_fd ∷ fds) n after)
      → is_neg uart_fd ≡ false
      → FileLocked (uart_fd ∷ fds) n after
  some_port uart_fd after outcome ok = ground arith

module _ {W : Type 0} (os : Os W) (fds : List ℤ) (n : ℕ) where
  -- `SpiReg_Init`, started with no lock held, ends in one of three ways, whatever the machine
  -- answers. It returns a negative value, with every descriptor that it opened closed again and the
  -- file lock given back; or it returns 0 with the SPI device, the serial port and the lock file
  -- open and no lock held; or the serial port could not be opened, and then it has closed everything
  -- again but returns a value that is not negative, which its caller takes for success.
  pub init_outcome :
      (h : SpiRegHandle) (spi_dev uart_dev : List ℕ) (spi_speed : ℕ) (a : Audit W)
      → Idle fds n a
      → let (ret, h1, after) = init (audited os) h spi_dev uart_dev spi_speed a in
        InitOutcome fds n ret h1 after
  unfolding init
  init_outcome h spi_dev uart_dev spi_speed a s =
      let ends : ℤ × SpiRegHandle × Audit W → Type 0 = λ r. InitOutcome fds n r.0 r.1 r.2 in
      let path = lock_path os.basename spi_dev uart_dev in
      let (lock_fd, a1) = (audited os).open_file path creat a in
      let (_, a2) = (audited os).flock lock_fd lock_ex a1 in
      let (fd, a3) = (audited os).open_file spi_dev rdwr a2 in
      let (ret, a4) = configure_spi (audited os) fd spi_speed a3 in
      let (uart_fd, a5) = uart_open (audited os) uart_dev 115200 8 1 b'N' a4 in
      let h1 = record h { lock_fd = lock_fd } in
      let h2 : SpiRegHandle = record {
        fd = fd;
        lock_fd = lock_fd;
        uart_fd = uart_fd;
        tx_buf = replicate 1024 0;
        rx_buf = replicate 1024 0;
        speed = spi_speed;
      } in
      let locked_fds = lock_fd ∷ fds in
      let spi_fds = fd ∷ lock_fd ∷ fds in
      if-cases ends _ (λ e. failed e (open_file_failed-Idle os fds n path creat a s e))
        λ lock_ok.
          let s1 = open_file-Idle os fds n path creat a s lock_ok in
          if-cases ends _
            (λ e.
              failed e (
                close-Idle os fds n lock_fd a2 (flock_failed-Idle os locked_fds n lock_fd a1 s1 e)))
            λ locked_ok.
              let s2 = flock-FileLocked os locked_fds n lock_fd a1 s1 locked_ok in
              if-cases ends _
                (λ e. failed e (
                  close_lock-Idle os fds n lock_fd a3
                    (open_file_failed-FileLocked os locked_fds n spi_dev rdwr a2 s2 e)))
                λ spi_ok.
                  let s3 = open_file-FileLocked os locked_fds n spi_dev rdwr a2 s2 spi_ok in
                  let s4 = configure_spi-FileLocked os spi_fds n fd spi_speed a3 s3 in
                  let outcome = uart_open_outcome os spi_fds n uart_dev 115200 8 1 b'N' a4 s4 in
                  if-cases ends (is_neg ret)
                    {x = (ret, h1, close_lock (audited os) lock_fd ((audited os).close fd a4))}
                    (λ e. failed e (
                      close_lock-Idle os fds n lock_fd ((audited os).close fd a4)
                        (close-FileLocked os locked_fds n fd a4 s4)))
                    λ configured.
                      if-cases ends (is_neg uart_fd)
                        {x = (ret, h2, close_lock (audited os) lock_fd ((audited os).close fd a5))}
                        (λ e.
                          let (none_open, s5) = no_port os spi_fds n uart_fd a5 outcome e in
                          no_uart configured none_open (
                            close_lock-Idle os fds n lock_fd ((audited os).close fd a5)
                              (close-FileLocked os locked_fds n fd a5 s5)))
                        λ uart_ok. ready refl uart_ok (
                          unlock-Idle os (uart_fd ∷ spi_fds) n lock_fd a5
                            (some_port os spi_fds n uart_fd a5 outcome uart_ok))

  -- `SpiReg_Exit` undoes `SpiReg_Init`: on a handle whose SPI device and serial port are two different
  -- descriptors, both open beside the lock file, it closes these three and nothing else, and holds no
  -- lock at the end, provided that it gets the file lock.
  pub exit-Idle :
      (h : SpiRegHandle) (a : Audit W)
      → Idle (h.uart_fd ∷ h.fd ∷ h.lock_fd ∷ fds) n a
      → eq_ℤ h.uart_fd h.fd ≡ false
      → is_neg ((audited os).flock h.lock_fd lock_ex a).0 ≡ false
      → Idle fds n (exit (audited os) h a)
  unfolding exit
  exit-Idle h a s different locked =
      ground (arith, eq_ℤ_refl h.fd, eq_ℤ_refl h.uart_fd, eq_ℤ_refl h.lock_fd)
