-- ===== src/Os/Scripted.antt =====
-- A machine for tests, which answers by a script and keeps what is sent.
use linux_uart.Base.{
  ℕ, zero, suc, ◌≤◌, ◌≡◌, arith, Bool, true, false, List, [], ◌∷◌, length, take, if◌then◌else◌,
}
use linux_uart.Base.Int.{ℤ, pos, negsuc}
use linux_uart.Os.{Os, OpenMode, rdonly, rdwr, creat, tty, Termios, TermBits}

-- The bytes still to come on the serial line, what the next SPI messages receive, and the SPI
-- messages sent, the last one first.
pub record Script : Type 0 where
  pub line : List ℕ
  pub spi : List (List ℕ)
  pub sent : List (List ℕ)

abbrev pub next_bytes : List ℕ → ℕ → ℤ × List ℕ × List ℕ
next_bytes line zero = (pos 0, [], line)
next_bytes [] (suc n) = (negsuc 0, [], [])
next_bytes (b ∷ line) (suc n) = (pos 1, b ∷ [], line)

abbrev pub has_bytes : List ℕ → Bool
has_bytes [] = false
has_bytes (b ∷ line) = true

abbrev pub next_message : List (List ℕ) → ℤ × List ℕ × List (List ℕ)
next_message [] = (negsuc 4, [], [])
next_message (m ∷ ms) = (pos 8, m, ms)

abbrev pub fd_of : OpenMode → ℤ
fd_of rdonly = pos 6
fd_of rdwr = pos 4
fd_of creat = pos 3
fd_of tty = pos 5

abbrev pub no_termios : Termios
no_termios = record {
  c_iflag = 0;
  c_oflag = 0;
  c_cflag = 0;
  c_lflag = 0;
  c_ispeed = 0;
  c_ospeed = 0;
}

-- The values of <termios.h> on Linux.
abbrev pub linux_bits : TermBits
linux_bits = record {
  csize = 0x30;
  cs5 = 0x00;
  cs6 = 0x10;
  cs7 = 0x20;
  cs8 = 0x30;
  cstopb = 0x40;
  parenb = 0x100;
  parodd = 0x200;
  inpck = 0x10;
  icanon = 0x2;
  echo = 0x8;
  echoe = 0x10;
  isig = 0x1;
  opost = 0x1;
  onlcr = 0x4;
  ocrnl = 0x8;
  onocr = 0x10;
  onlret = 0x20;
  ignbrk = 0x1;
  brkint = 0x2;
  parmrk = 0x8;
  istrip = 0x20;
  inlcr = 0x40;
  ixon = 0x400;
  ixoff = 0x1000;
  ixany = 0x800;
  icrnl = 0x100;
  igncr = 0x80;
  baud_code = λ rate. rate;
}

abbrev pub scripted : Os Script
scripted = record {
  open_file = λ path mode w. (fd_of mode, w);
  close = λ fd w. w;
  read_file = λ fd n w. (pos 0, [], w);
  read_fd =
      λ fd n w. let (r, bytes, line) = next_bytes w.line n in (r, bytes, record w { line = line });
  write_fd = λ fd bytes w. (pos (length bytes), w);
  poll = λ fd timeout w. (if has_bytes w.line then pos 1 else pos 0, has_bytes w.line, w);
  tcflush_in = λ fd w. w;
  tcflush_io = λ fd w. w;
  tcflush_out = λ fd w. w;
  tcgetattr = λ fd w. (pos 0, no_termios, w);
  tcsetattr = λ fd t w. (pos 0, w);
  term_bits = linux_bits;
  flock = λ fd op w. (pos 0, w);
  mutex_init = λ w. w;
  mutex_lock = λ w. w;
  mutex_unlock = λ w. w;
  mutex_destroy = λ w. w;
  spi_config = λ fd setting w. (pos 0, w);
  spi_message = λ fd tx n w.
      let (r, rx, rest) = next_message w.spi in
      (r, rx, record w { spi = rest; sent = take n tx ∷ w.sent });
  basename = λ path. path;
  usleep = λ us w. w;
}

-- The scripted read(2) keeps to its contract.
pub next_bytes_within :
    (line : List ℕ) (n m : ℕ)
    → (next_bytes line n).0 ≡ pos m
    → (m ≤ n) × (length (next_bytes line n).1 ≡ m)
next_bytes_within line zero m e = ground arith
next_bytes_within [] (suc n) m e = ground arith
next_bytes_within (b ∷ line) (suc n) m e = ground arith
