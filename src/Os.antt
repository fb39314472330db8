-- ===== src/Os.antt =====
-- What the program uses of the kernel and of the C library, as an interface over a state `W` of
-- the machine. Nothing here is code of the repository: every call is a parameter, and a program
-- state is passed through the calls in the order in which the C code makes them.
pub mod Audit
pub mod Scripted
pub mod Wire
use linux_uart.Base.{ℕ, Bool, List}
use linux_uart.Base.Int.{ℤ}

-- `flock` with LOCK_EX and LOCK_UN.
pub data FlockOp : Type 0 where
  lock_ex lock_un : FlockOp

-- The modes of `open` that the program uses.
pub data OpenMode : Type 0 where
  rdonly rdwr creat tty : OpenMode

-- The `ioctl` settings of the SPI device.
pub data SpiSetting : Type 0 where
  wr_mode lsb_first bits_per_word max_speed_hz : ℕ → SpiSetting

-- `struct termios`, as far as the program touches it.
pub record Termios : Type 0 where
  pub c_iflag : ℕ
  pub c_oflag : ℕ
  pub c_cflag : ℕ
  pub c_lflag : ℕ
  pub c_ispeed : ℕ
  pub c_ospeed : ℕ

-- The bit masks of <termios.h>, each an unsigned number below 2 ^ 32, and the `B…` code of a rate.
pub record TermBits : Type 0 where
  pub csize : ℕ
  pub cs5 : ℕ
  pub cs6 : ℕ
  pub cs7 : ℕ
  pub cs8 : ℕ
  pub cstopb : ℕ
  pub parenb : ℕ
  pub parodd : ℕ
  pub inpck : ℕ
  pub icanon : ℕ
  pub echo : ℕ
  pub echoe : ℕ
  pub isig : ℕ
  pub opost : ℕ
  pub onlcr : ℕ
  pub ocrnl : ℕ
  pub onocr : ℕ
  pub onlret : ℕ
  pub ignbrk : ℕ
  pub brkint : ℕ
  pub parmrk : ℕ
  pub istrip : ℕ
  pub inlcr : ℕ
  pub ixon : ℕ
  pub ixoff : ℕ
  pub ixany : ℕ
  pub icrnl : ℕ
  pub igncr : ℕ
  pub baud_code : ℕ → ℕ

-- The calls. A descriptor and a status are an `int`; a call that fills a buffer returns the bytes
-- that it puts there.
pub record Os (W : Type 0) : Type 0 where
  pub open_file : List ℕ → OpenMode → W → ℤ × W
  pub close : ℤ → W → W
  -- read(2), on the serial line and on a file
  pub read_fd : ℤ → ℕ → W → ℤ × List ℕ × W
  pub read_file : ℤ → ℕ → W → ℤ × List ℕ × W
  pub write_fd : ℤ → List ℕ → W → ℤ × W
  -- the result of `poll` on one descriptor, and whether POLLIN is among the returned events
  pub poll : ℤ → ℤ → W → ℤ × Bool × W
  pub tcflush_in : ℤ → W → W
  pub tcflush_io : ℤ → W → W
  pub tcflush_out : ℤ → W → W
  pub tcgetattr : ℤ → W → ℤ × Termios × W
  pub tcsetattr : ℤ → Termios → W → ℤ × W
  pub term_bits : TermBits
  pub flock : ℤ → FlockOp → W → ℤ × W
  pub mutex_init : W → W
  pub mutex_lock : W → W
  pub mutex_unlock : W → W
  pub mutex_destroy : W → W
  pub spi_config : ℤ → SpiSetting → W → ℤ × W
  -- SPI_IOC_MESSAGE(1): descriptor, transmit buffer and length; the bytes received
  pub spi_message : ℤ → List ℕ → ℕ → W → ℤ × List ℕ × W
  pub basename : List ℕ → List ℕ
  pub usleep : ℕ → W → W
