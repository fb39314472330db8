-- ===== src/Os/Audit.antt =====
-- An interface to the machine that watches the calls made through another one: who holds the two
-- locks, which descriptors are open, and how many calls broke the rules.
use linux_uart.Base.{
  ℕ, ◌+◌, ◌≡◌, arith, Bool, true, false, ◌&&◌, not, List, [], ◌∷◌, ◌==◌, if◌then◌else◌,
}
use linux_uart.Base.Int.{ℤ, pos, negsuc, is_neg}
use linux_uart.Os.{Os, lock_ex, lock_un}

pub record Audit (W : Type 0) : Type 0 where
  pub world : W
  pub mutex_held : Bool
  pub file_held : Bool
  pub open_fds : List ℤ
  pub faults : ℕ

abbrev pub eq_ℤ : ℤ → ℤ → Bool
eq_ℤ (pos m) (pos n) = m == n
eq_ℤ (pos m) (negsuc n) = false
eq_ℤ (negsuc m) (pos n) = false
eq_ℤ (negsuc m) (negsuc n) = m == n

abbrev pub is_open : ℤ → List ℤ → Bool
is_open fd [] = false
is_open fd (x ∷ xs) = if eq_ℤ x fd then true else is_open fd xs

-- The open descriptors after one of them is closed.
abbrev pub drop_fd : ℤ → List ℤ → List ℤ
drop_fd fd [] = []
drop_fd fd (x ∷ xs) = if eq_ℤ x fd then xs else x ∷ drop_fd fd xs

-- One fault more unless the rule holds.
abbrev pub count : Bool → ℕ → ℕ
count rule n = if rule then n else n + 1

-- The rules: both locks are held whenever an SPI message is exchanged and whenever the serial line is
-- written, polled or read; the file lock at least is held whenever one of them is configured and
-- whenever the serial line is flushed; no lock is taken twice or given back twice, and only open
-- descriptors are closed.
abbrev pub audited : {W : Type 0} → Os W → Os (Audit W)
audited os = record {
  open_file = λ path mode a.
      let (fd, w) = os.open_file path mode a.world in
      (fd, record a { world = w; open_fds = if is_neg fd then a.open_fds else fd ∷ a.open_fds });
  close = λ fd a. record a {
    world = os.close fd a.world;
    open_fds = drop_fd fd a.open_fds;
    faults = count (is_open fd a.open_fds) a.faults;
  };
  read_fd = λ fd n a.
      let (r, bytes, w) = os.read_fd fd n a.world in
      (r, bytes, record a { world = w; faults = count (a.mutex_held && a.file_held) a.faults });
  read_file =
      λ fd n a. let (r, bytes, w) = os.read_file fd n a.world in (r, bytes, record a { world = w });
  write_fd = λ fd bytes a.
      let (r, w) = os.write_fd fd bytes a.world in
      (r, record a { world = w; faults = count (a.mutex_held && a.file_held) a.faults });
  poll = λ fd timeout a.
      let (r, pollin, w) = os.poll fd timeout a.world in
      (r, pollin, record a { world = w; faults = count (a.mutex_held && a.file_held) a.faults });
  tcflush_in =
      λ fd a. record a { world = os.tcflush_in fd a.world; faults = count a.file_held a.faults };
  tcflush_io =
      λ fd a. record a { world = os.tcflush_io fd a.world; faults = count a.file_held a.faults };
  tcflush_out =
      λ fd a. record a { world = os.tcflush_out fd a.world; faults = count a.file_held a.faults };
  tcgetattr = λ fd a.
      let (r, t, w) = os.tcgetattr fd a.world in
      (r, t, record a { world = w; faults = count a.file_held a.faults });
  tcsetattr = λ fd t a.
      let (r, w) = os.tcsetattr fd t a.world in
      (r, record a { world = w; faults = count a.file_held a.faults });
  term_bits = os.term_bits;
  flock = λ fd op a.
      let (r, w) = os.flock fd op a.world in
      (
        r,
        elim op [
          | lock_ex ↦ record a {
            world = w;
            file_held = if is_neg r then a.file_held else true;
            faults = count (not a.file_held) a.faults;
          }
          | lock_un ↦ record a { world = w; file_held = false; faults = count a.file_held a.faults }
        ],
      );
  mutex_init = λ a. record a { world = os.mutex_init a.world };
  mutex_lock = λ a. record a {
    world = os.mutex_lock a.world;
    mutex_held = true;
    faults = count (not a.mutex_held) a.faults;
  };
  mutex_unlock = λ a. record a {
    world = os.mutex_unlock a.world;
    mutex_held = false;
    faults = count a.mutex_held a.faults;
  };
  mutex_destroy = λ a. record a { world = os.mutex_destroy a.world };
  spi_config = λ fd s a.
      let (r, w) = os.spi_config fd s a.world in
      (r, record a { world = w; faults = count a.file_held a.faults });
  spi_message = λ fd tx n a.
      let (r, rx, w) = os.spi_message fd tx n a.world in
      (r, rx, record a { world = w; faults = count (a.mutex_held && a.file_held) a.faults });
  basename = os.basename;
  usleep = λ us a. record a { world = os.usleep us a.world };
}

-- Both locks are held, `fds` are open, and there have been `n` faults.
abbrev pub InSession : {W : Type 0} → List ℤ → ℕ → Audit W → Type 0
InSession fds n a =
    (a.mutex_held ≡ true) × (a.file_held ≡ true) × (a.open_fds ≡ fds) × (a.faults ≡ n)

-- No lock is held, `fds` are open, and there have been `n` faults.
abbrev pub Idle : {W : Type 0} → List ℤ → ℕ → Audit W → Type 0
Idle fds n a = (a.mutex_held ≡ false) × (a.file_held ≡ false) × (a.open_fds ≡ fds) × (a.faults ≡ n)

-- The file lock alone is held, `fds` are open, and there have been `n` faults.
abbrev pub FileLocked : {W : Type 0} → List ℤ → ℕ → Audit W → Type 0
FileLocked fds n a =
    (a.mutex_held ≡ false) × (a.file_held ≡ true) × (a.open_fds ≡ fds) × (a.faults ≡ n)

pub eq_ℤ_refl : (z : ℤ) → eq_ℤ z z ≡ true
eq_ℤ_refl (pos n) = ground arith
eq_ℤ_refl (negsuc n) = ground arith
