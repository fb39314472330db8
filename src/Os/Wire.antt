-- ===== src/Os/Wire.antt =====
-- An interface to the machine that keeps what is sent through another one.
use linux_uart.Base.{ℕ, List, [], ◌∷◌, ◌++◌, take}
use linux_uart.Base.Int.{ℤ}
use linux_uart.Os.{Os}

-- A write to a descriptor, and the bytes of an SPI message.
pub data Sent : Type 0 where
  serial spi : ℤ → List ℕ → Sent

pub record Wired (W : Type 0) : Type 0 where
  pub world : W
  pub sent : List Sent

-- The bytes of a message of length `n`.
unfoldable pub front : ℕ → List ℕ → List ℕ
front n tx = take n tx

abbrev pub wired : {W : Type 0} → Os W → Os (Wired W)
wired os = record {
  open_file =
      λ path mode t. let (fd, w) = os.open_file path mode t.world in (fd, record t { world = w });
  close = λ fd t. record t { world = os.close fd t.world };
  read_fd =
      λ fd n t. let (r, bytes, w) = os.read_fd fd n t.world in (r, bytes, record t { world = w });
  read_file =
      λ fd n t. let (r, bytes, w) = os.read_file fd n t.world in (r, bytes, record t { world = w });
  write_fd = λ fd bytes t.
      let (r, w) = os.write_fd fd bytes t.world in
      (r, record { world = w; sent = t.sent ++ (serial fd bytes ∷ []) });
  poll = λ fd timeout t.
      let (r, pollin, w) = os.poll fd timeout t.world in (r, pollin, record t { world = w });
  tcflush_in = λ fd t. record t { world = os.tcflush_in fd t.world };
  tcflush_io = λ fd t. record t { world = os.tcflush_io fd t.world };
  tcflush_out = λ fd t. record t { world = os.tcflush_out fd t.world };
  tcgetattr = λ fd t. let (r, o, w) = os.tcgetattr fd t.world in (r, o, record t { world = w });
  tcsetattr = λ fd o t. let (r, w) = os.tcsetattr fd o t.world in (r, record t { world = w });
  term_bits = os.term_bits;
  flock = λ fd op t. let (r, w) = os.flock fd op t.world in (r, record t { world = w });
  mutex_init = λ t. record t { world = os.mutex_init t.world };
  mutex_lock = λ t. record t { world = os.mutex_lock t.world };
  mutex_unlock = λ t. record t { world = os.mutex_unlock t.world };
  mutex_destroy = λ t. record t { world = os.mutex_destroy t.world };
  spi_config = λ fd s t. let (r, w) = os.spi_config fd s t.world in (r, record t { world = w });
  spi_message = λ fd tx n t.
      let (r, rx, w) = os.spi_message fd tx n t.world in
      (r, rx, record { world = w; sent = t.sent ++ (spi fd (front n tx) ∷ []) });
  basename = os.basename;
  usleep = λ us t. record t { world = os.usleep us t.world };
}
