-- ===== src/Uart.antt =====
-- general/pp_uart.c: the serial port that carries the handshake of the register protocol.
pub mod ReadLoop
pub mod Session
pub mod Silent
pub mod Setup
pub mod Opened
mod Tests
use linux_uart.Base.{
  ℕ, zero, suc, ◌+◌, ◌-◌, ◌^◌, Bool, true, false, ◌||◌, List, [], ◌∷◌, ◌++◌, ltb, ◌==◌, not,
  if◌then◌else◌, bit_and, bit_or, Option, none, some,
}
use linux_uart.Base.Int.{ℤ, pos, negsuc, is_neg, eq_pos, to_ℕ, neg, signed32}
use linux_uart.Os.{Os, Termios, TermBits, tty}

-- `baudRate_tab`; `speed_arr` holds the `B…` code of each entry.
abbrev pub baud_rate_tab : List ℕ
baud_rate_tab =
    1200 ∷ 2400 ∷ 4800 ∷ 9600 ∷ 19200 ∷ 38400 ∷ 57600 ∷ 115200 ∷ 230400 ∷ 460800 ∷ 576000 ∷ 921600
    ∷ 1000000 ∷ []

-- x &= ~m and x |= m on a `tcflag_t`.
abbrev pub clear_bits : ℕ → ℕ → ℕ
clear_bits x m = bit_and x (2 ^ 32 - 1 - m)

abbrev pub set_bits : ℕ → ℕ → ℕ
set_bits x m = bit_or x m

module _ (b : TermBits) where
  -- The switch over `databits`; `none` is its default branch, which gives up.
  pub set_data_bits : ℕ → Termios → Option Termios
  set_data_bits n o =
      let flags = clear_bits o.c_cflag b.csize in
      if n == 5
      then some (record o { c_cflag = set_bits flags b.cs5 })
      else if n == 6
      then some (record o { c_cflag = set_bits flags b.cs6 })
      else if n == 7
      then some (record o { c_cflag = set_bits flags b.cs7 })
      else if n == 8
      then some (record o { c_cflag = set_bits flags b.cs8 })
      else none

  -- The switch over `parity`.
  pub set_parity_bits : ℕ → Termios → Option Termios
  set_parity_bits p o =
      if p == b'n' || p == b'N'
      then some (record o {
        c_cflag = clear_bits o.c_cflag b.parenb;
        c_iflag = clear_bits o.c_iflag b.inpck;
      })
      else if p == b'o' || p == b'O'
      then some (record o {
        c_cflag = set_bits o.c_cflag (bit_or b.parodd b.parenb);
        c_iflag = set_bits o.c_iflag b.inpck;
      })
      else if p == b'e' || p == b'E'
      then some (record o {
        c_cflag = clear_bits (set_bits o.c_cflag b.parenb) b.parodd;
        c_iflag = set_bits o.c_iflag b.inpck;
      })
      else none

  -- The switch over `stopbits`.
  pub set_stop_bits : ℕ → Termios → Option Termios
  set_stop_bits n o =
      if n == 1
      then some (record o { c_cflag = clear_bits o.c_cflag b.cstopb })
      else if n == 2
      then some (record o { c_cflag = set_bits o.c_cflag b.cstopb })
      else none

  -- The three masks that switch the terminal to raw mode.
  pub raw_mode : Termios → Termios
  raw_mode o = record o {
    c_lflag = clear_bits o.c_lflag (bit_or b.icanon (bit_or b.echo (bit_or b.echoe b.isig)));
    c_oflag =
        clear_bits o.c_oflag
          (bit_or b.opost (bit_or b.onlcr (bit_or b.ocrnl (bit_or b.onocr b.onlret))));
    c_iflag = clear_bits o.c_iflag (
        bit_or b.ignbrk (
          bit_or b.brkint (
            bit_or b.parmrk (
              bit_or b.istrip (
                bit_or b.inlcr
                  (bit_or b.ixon (bit_or b.ixoff (bit_or b.ixany (bit_or b.icrnl b.igncr)))))))));
  }

  -- The options that `_set_parity` arrives at; a default branch gives up at once.
  pub configure : ℕ → ℕ → ℕ → Termios → Option Termios
  unfolding set_data_bits set_parity_bits set_stop_bits raw_mode
  configure databits stopbits parity o = elim (set_data_bits databits o) [
    | none ↦ none
    | some o1 ↦ elim (set_parity_bits parity o1) [
      | none ↦ none
      | some o2 ↦ elim (set_stop_bits stopbits o2) [ none ↦ none | some o3 ↦ some o3 ]
    ]
  ]

module _ {W : Type 0} (os : Os W) where
  -- The loop of `_set_speed` over the entries that are left: an entry that does not fit flushes too.
  pub speed_loop : List ℕ → ℤ → ℕ → Termios → W → ℤ × W
  speed_loop [] fd speed opt w = (neg 1, w)
  speed_loop (rate ∷ rates) fd speed opt w =
      let w1 = os.tcflush_io fd w in
      let code = os.term_bits.baud_code rate in
      let (status, w2) = os.tcsetattr fd (record opt { c_ispeed = code; c_ospeed = code }) w1 in
      let rest = speed_loop rates fd speed opt w1 in
      if speed == rate then (if eq_pos status 0 then pos 0 else neg 1, w2) else rest

  -- `_set_speed`; the status of `tcgetattr` is not looked at.
  pub set_speed : ℤ → ℕ → W → ℤ × W
  unfolding speed_loop
  set_speed fd speed w =
      let (_, opt, w1) = os.tcgetattr fd w in speed_loop baud_rate_tab fd speed opt w1

  -- `_set_parity`
  pub set_parity : ℤ → ℕ → ℕ → ℕ → W → ℤ × W
  unfolding configure
  set_parity fd databits stopbits parity w =
      let (status, o, w1) = os.tcgetattr fd w in
      if not (eq_pos status 0)
      then (neg 1, w1)
      else elim (configure os.term_bits databits stopbits parity o) [
        | none ↦ (neg 1, w1)
        | some o1 ↦
            let (done, w3) = os.tcsetattr fd (raw_mode os.term_bits o1) (os.tcflush_in fd w1) in
            (if eq_pos done 0 then pos 0 else neg 1, w3)
      ]

  -- The condition of `uart_Open`, negated: the parity is set only where the speed could be.
  pub set_up : ℤ → ℕ → ℕ → ℕ → ℕ → W → Bool × W
  unfolding set_speed set_parity
  set_up fd speed databits stopbits parity w =
      let (s, w1) = set_speed fd speed w in
      let (p, w2) = set_parity fd databits stopbits parity w1 in
      if not (eq_pos s 0) then (false, w1) else (eq_pos p 0, w2)

  -- `uart_Open`
  unfoldable pub uart_open : List ℕ → ℕ → ℕ → ℕ → ℕ → W → ℤ × W
  uart_open uart_name speed databits stopbits parity w =
      let (uart_fd, w1) = os.open_file uart_name tty w in
      let (done, w2) = set_up uart_fd speed databits stopbits parity w1 in
      if is_neg uart_fd
      then (neg 1, w1)
      else if done
      then (uart_fd, w2)
      else (neg 1, os.close uart_fd w2)

  -- `uart_Close`
  pub uart_close : ℤ → W → W
  uart_close fd w = os.close fd w

  -- `uart_Write`
  unfoldable pub uart_write : ℤ → List ℕ → W → ℤ × W
  uart_write fd bytes w = os.write_fd fd bytes w

  -- The loop of `uart_Read`: `remaining` is end_p - read_p, `got` is read_p - data_buf, and the list
  -- is what stands in the buffer up to `read_p`. A round that does not return takes a byte at least.
  pub read_loop : ℕ → ℤ → ℕ → ℤ → ℕ → List ℕ → W → ℤ × List ℕ × W
  read_loop zero fd remaining timeout got bytes w = (pos got, bytes, w)
  read_loop (suc fuel) fd remaining timeout got bytes w =
      let (ret, pollin, w1) = os.poll fd timeout w in
      let (rn, more, w2) = os.read_fd fd remaining w1 in
      let rest =
        read_loop fuel fd (remaining - to_ℕ rn) timeout (got + to_ℕ rn) (bytes ++ more) w2 in
      if not (ltb 0 remaining)
      then (pos got, bytes, w)
      else if is_neg ret
      then (ret, bytes, w1)
      else if eq_pos ret 0
      then (pos got, bytes, w1)
      else if not pollin
      then (pos got, bytes, w1)
      else if is_neg rn
      then (rn, bytes, w2)
      else if eq_pos rn 0
      then (pos got, bytes, w2)
      else rest

  -- `uart_Read`: `buf_size` rounds are enough (`ReadLoop`).
  unfoldable pub uart_read : ℤ → ℕ → ℕ → W → ℤ × List ℕ × W
  unfolding read_loop
  uart_read fd buf_size timeout w = read_loop buf_size fd buf_size (signed32 timeout) 0 [] w

  -- `uart_InClean`
  unfoldable pub uart_in_clean : ℤ → W → W
  uart_in_clean fd w = os.tcflush_in fd w

  -- `uart_OutClean`
  pub uart_out_clean : ℤ → W → W
  uart_out_clean fd w = os.tcflush_out fd w
