-- ===== src/Uart/Setup.antt =====
-- Opening the serial port: what is open afterwards, and which settings are refused.
use linux_uart.Base.{
  ℕ, ◌≡◌, ◌⊎◌, refl, arith, Bool, true, false, not, if◌then◌else◌, ◌&&◌, if-cases, List, [], ◌∷◌,
  if-elim,
}
use linux_uart.Base.Int.{ℤ, is_neg, eq_pos, neg}
use linux_uart.Os.{Os, Termios, tty}
use linux_uart.Os.Audit.{Audit, audited, FileLocked, eq_ℤ_refl}
use linux_uart.Uart.{speed_loop, set_speed, set_parity, set_up, uart_open, baud_rate_tab}

module _ {W : Type 0} (os : Os W) (fds : List ℤ) (n : ℕ) where
  speed_loop-FileLocked :
      (rates : List ℕ) (fd : ℤ) (speed : ℕ) (opt : Termios) (a : Audit W)
      → FileLocked fds n a
      → FileLocked fds n (speed_loop (audited os) rates fd speed opt a).1
  unfolding speed_loop
  speed_loop-FileLocked [] fd speed opt a s = s
  speed_loop-FileLocked (rate ∷ rates) fd speed opt a s =
      let a1 = (audited os).tcflush_io fd a in
      let flushed : FileLocked fds n a1 = ground arith in
      ground (arith, speed_loop-FileLocked rates fd speed opt a1 flushed)

  set_speed-FileLocked :
      (fd : ℤ) (speed : ℕ) (a : Audit W)
      → FileLocked fds n a
      → FileLocked fds n (set_speed (audited os) fd speed a).1
  unfolding set_speed
  set_speed-FileLocked fd speed a s =
      let (_, opt, a1) = (audited os).tcgetattr fd a in
      let got : FileLocked fds n a1 = ground arith in
      speed_loop-FileLocked baud_rate_tab fd speed opt a1 got

  set_parity-FileLocked :
      (fd : ℤ) (databits stopbits parity : ℕ) (a : Audit W)
      → FileLocked fds n a
      → FileLocked fds n (set_parity (audited os) fd databits stopbits parity a).1
  unfolding set_parity
  set_parity-FileLocked fd databits stopbits parity a s = ground arith

  set_up-FileLocked :
      (fd : ℤ) (speed databits stopbits parity : ℕ) (a : Audit W)
      → FileLocked fds n a
      → FileLocked fds n (set_up (audited os) fd speed databits stopbits parity a).1
  unfolding set_up
  set_up-FileLocked fd speed databits stopbits parity a s =
      let spd = set_speed-FileLocked fd speed a s in
      if-elim (λ (r : Bool × Audit W). FileLocked fds n r.1) _ spd
        (set_parity-FileLocked fd databits stopbits parity _ spd)

  closed-FileLocked :
      (fd : ℤ) (a : Audit W)
      → FileLocked (fd ∷ fds) n a
      → FileLocked fds n ((audited os).close fd a)
  closed-FileLocked fd a s = ground (arith, eq_ℤ_refl fd)

-- How `uart_Open` ends, by the descriptor `fd` that the kernel gave, and whether the speed and the
-- frame format could be set.
pub data UartOpen {W : Type 0} (fds : List ℤ) (n : ℕ) (fd : ℤ) (speed_set format_set : Bool)
    (uart_fd : ℤ) (after : Audit W) : Type 0 where
  not_open :
      is_neg fd ≡ true
      → uart_fd ≡ neg 1
      → FileLocked fds n after
      → UartOpen fds n fd speed_set format_set uart_fd after
  not_set_up :
      is_neg fd ≡ false
      → (speed_set && format_set) ≡ false
      → uart_fd ≡ neg 1
      → FileLocked fds n after
      → UartOpen fds n fd speed_set format_set uart_fd after
  set_up_open :
      is_neg fd ≡ false
      → (speed_set && format_set) ≡ true
      → uart_fd ≡ fd
      → FileLocked (fd ∷ fds) n after
      → UartOpen fds n fd speed_set format_set uart_fd after

module _ {W : Type 0} (os : Os W) (fds : List ℤ) (n : ℕ) where
  -- A port that could not be opened or set up gives -1, with no descriptor more; one that could is the
  -- only descriptor more.
  pub uart_open_outcome :
      (name : List ℕ) (speed databits stopbits parity : ℕ) (a : Audit W)
      → FileLocked fds n a
      → let (uart_fd, after) = uart_open (audited os) name speed databits stopbits parity a in
        ((uart_fd ≡ neg 1) × FileLocked fds n after)
        ⊎ ((is_neg uart_fd ≡ false) × FileLocked (uart_fd ∷ fds) n after)
  unfolding uart_open
  uart_open_outcome name speed databits stopbits parity a s =
      let (fd, a1) = (audited os).open_file name tty a in
      let a2 = (set_up (audited os) fd speed databits stopbits parity a1).1 in
      ground (
        arith,
        set_up-FileLocked os (fd ∷ fds) n fd speed databits stopbits parity a1,
        closed-FileLocked os fds n fd a2,
      )

  port-UartOpen :
      (fd : ℤ) (speed_set format_set : Bool) (a2 a3 : Audit W)
      → is_neg fd ≡ false
      → FileLocked (fd ∷ fds) n a2
      → FileLocked (fd ∷ fds) n a3
      → let (done, a4) : Bool × Audit W = if not speed_set then (false, a2) else (format_set, a3) in
        let (uart_fd, after) : ℤ × Audit W =
          if done then (fd, a4) else (neg 1, (audited os).close fd a4) in
        UartOpen fds n fd speed_set format_set uart_fd after
  port-UartOpen fd true true a2 a3 ok s2 s3 = set_up_open ok refl refl s3
  port-UartOpen fd true false a2 a3 ok s2 s3 =
      not_set_up ok refl refl (closed-FileLocked os fds n fd a3 s3)
  port-UartOpen fd false p a2 a3 ok s2 s3 =
      not_set_up ok refl refl (closed-FileLocked os fds n fd a2 s2)

  -- `uart_Open` returns the port exactly where it could be opened and both the speed and the frame
  -- format could be set. A port that could not be opened gives -1; one that was opened and could not be
  -- set up is closed again and gives -1; one that could is the only descriptor more, and its number is
  -- returned. The file lock is held throughout.
  pub uart_open-UartOpen :
      (name : List ℕ) (speed databits stopbits parity : ℕ) (a : Audit W)
      → FileLocked fds n a
      → let (fd, a1) = (audited os).open_file name tty a in
        let (s, a2) = set_speed (audited os) fd speed a1 in
        let (p, _) = set_parity (audited os) fd databits stopbits parity a2 in
        let (uart_fd, after) = uart_open (audited os) name speed databits stopbits parity a in
        UartOpen fds n fd (eq_pos s 0) (eq_pos p 0) uart_fd after
  unfolding uart_open set_up
  uart_open-UartOpen name speed databits stopbits parity a s =
      let (fd, a1) = (audited os).open_file name tty a in
      let (spd, a2) = set_speed (audited os) fd speed a1 in
      let (par, a3) = set_parity (audited os) fd databits stopbits parity a2 in
      let opened : is_neg fd ≡ false → FileLocked (fd ∷ fds) n a1 = λ ok. ground arith in
      let not_opened : is_neg fd ≡ true → FileLocked fds n a1 = λ e. ground arith in
      let speeded : is_neg fd ≡ false → FileLocked (fd ∷ fds) n a2 =
        λ ok. set_speed-FileLocked os (fd ∷ fds) n fd speed a1 (opened ok) in
      let set : is_neg fd ≡ false → FileLocked (fd ∷ fds) n a3 =
        λ ok. set_parity-FileLocked os (fd ∷ fds) n fd databits stopbits parity a2 (speeded ok) in
      let Out : ℤ × Audit W → Type 0 =
        λ r. UartOpen fds n fd (eq_pos spd 0) (eq_pos par 0) r.0 r.1 in
      if-cases Out (is_neg fd) {x = (neg 1, a1)} (λ e. not_open e refl (not_opened e))
        (λ ok. port-UartOpen fd (eq_pos spd 0) (eq_pos par 0) a2 a3 ok (speeded ok) (set ok))
