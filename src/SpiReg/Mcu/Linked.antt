-- ===== src/SpiReg/Mcu/Linked.antt =====
-- A machine for tests: an MCU with given registers at the other end of the link.
use linux_uart.Base.{
  ℕ, ◌+◌, ◌*◌, ◌≤◌, ◌<◌, ◌^◌, ◌≡◌, refl, sym, ap, ◌∙◌, arith, List, [], ◌∷◌, ◌++◌, length, take,
  get_or, get_or-take, take_all, take-take_le, take-append_length, length-append, ◌==◌,
  if◌then◌else◌,
}
use linux_uart.Base.Int.{ℤ, pos, negsuc}
use linux_uart.Crc.{crc16}
use linux_uart.MemCtrl.{system_to_big}
use linux_uart.MemCtrl.Order.Portable.{length-system_to_big}
use linux_uart.Os.{Os}
use linux_uart.Os.Scripted.{no_termios, linux_bits, next_bytes, has_bytes}
use linux_uart.SpiReg.{ack, command}
use linux_uart.SpiReg.Frame.{command_bytes}
use linux_uart.SpiReg.Mcu.{Phase, waiting, started, commanded, View, Registers, McuLink, with_crc}

-- The command that five bytes stand for.
abbrev decode : List ℕ → Phase
decode tx =
    commanded (get_or tx 0 0) (get_or tx 1 0 * 256 + get_or tx 2 0)
      (get_or tx 3 0 * 256 + get_or tx 4 0)

decode-command :
    (tx : List ℕ) (code addr cnt : ℕ)
    → code < 256
    → addr < 2 ^ 16
    → cnt ≤ 1022
    → take 5 tx ≡ command code addr cnt
    → decode tx ≡ commanded code addr cnt
decode-command tx code addr cnt hc ha hn e =
    let shape = e ∙ command_bytes code addr cnt hc ha (omega arith) in
    let byte_at = λ (i : ℕ). ap (λ (l : List ℕ). get_or l i 0) shape in
    let at0 = sym (get_or-take 5 0 tx 0 (omega arith)) ∙ byte_at 0 in
    let at1 = sym (get_or-take 5 1 tx 0 (omega arith)) ∙ byte_at 1 in
    let at2 = sym (get_or-take 5 2 tx 0 (omega arith)) ∙ byte_at 2 in
    let at3 = sym (get_or-take 5 3 tx 0 (omega arith)) ∙ byte_at 3 in
    let at4 = sym (get_or-take 5 4 tx 0 (omega arith)) ∙ byte_at 4 in
    rw (at0, at1, at2, at3, at4) (ground arith)

take-with_crc :
    (code addr cnt : ℕ) (bytes : List ℕ)
    → length bytes ≡ cnt
    → take (cnt + 2) (with_crc code addr cnt bytes) ≡ with_crc code addr cnt bytes
take-with_crc code addr cnt bytes e =
    let crc = crc16 (crc16 0xffff (command code addr cnt) 5) bytes cnt in
    take_all (cnt + 2) _
      (omega (arith, length-append bytes (system_to_big 2 crc), length-system_to_big 2 crc))

front_of_data :
    (tx : List ℕ) (addr cnt : ℕ) (bytes : List ℕ)
    → length bytes ≡ cnt
    → take (cnt + 2) tx ≡ with_crc 6 addr cnt bytes
    → take cnt tx ≡ bytes
front_of_data tx addr cnt bytes e framed =
    sym (take-take_le cnt (cnt + 2) tx (omega arith))
    ∙ ap (take cnt) framed
    ∙ take-append_length bytes _ cnt e

module _ {R : Type 0} (regs : Registers R) where
  abbrev acked : View R → Phase → R → ℤ × List ℕ × View R
  acked v phase r = (pos 8, [], record { phase = phase; line = v.line ++ (ack ∷ []); regs = r })

  -- What the MCU does with a message. It does not check the CRC of a write.
  abbrev message : List ℕ → View R → Phase → ℤ × List ℕ × View R
  message tx v waiting = (negsuc 0, [], v)
  message tx v started = acked v (decode tx) v.regs
  message tx v (commanded code addr cnt) =
      if code == 3
      then (
        pos 8,
        with_crc 3 addr cnt (regs.fetch addr cnt v.regs),
        record {
          phase = waiting;
          line = v.line ++ (ack ∷ []);
          regs = regs.after_fetch addr cnt v.regs;
        },
      )
      else acked v waiting (regs.store addr (take cnt tx) v.regs)

  abbrev pub linked : Os (View R)
  linked = record {
    open_file = λ path mode v. (pos 3, v);
    close = λ fd v. v;
    read_file = λ fd n w. (pos 0, [], w);
    read_fd = λ fd n v.
        let (r, bytes, line) = next_bytes v.line n in (r, bytes, record v { line = line });
    write_fd = λ fd bytes v.
        (pos (length bytes), record v { phase = started; line = v.line ++ (ack ∷ []) });
    poll = λ fd timeout v. (pos 1, has_bytes v.line, v);
    tcflush_in = λ fd v. record v { line = [] };
    tcflush_io = λ fd v. v;
    tcflush_out = λ fd v. v;
    tcgetattr = λ fd v. (pos 0, no_termios, v);
    tcsetattr = λ fd t v. (pos 0, v);
    term_bits = linux_bits;
    flock = λ fd op v. (pos 0, v);
    mutex_init = λ v. v;
    mutex_lock = λ v. v;
    mutex_unlock = λ v. v;
    mutex_destroy = λ v. v;
    spi_config = λ fd setting v. (pos 0, v);
    spi_message = λ fd tx n v. message tx v v.phase;
    basename = λ path. path;
    usleep = λ us v. v;
  }

  pub linked-McuLink :
      (spi_fd uart_fd : ℤ) (timeout : ℕ) → McuLink linked regs spi_fd uart_fd timeout (λ v. v)
  linked-McuLink spi_fd uart_fd timeout = record {
    locks = λ fd op v. refl;
    flock_keeps = λ fd op v. refl;
    mutex_lock_keeps = λ v. refl;
    mutex_unlock_keeps = λ v. refl;
    flushes = λ v. refl;
    starts = λ v e. (refl, refl);
    polls = λ v b rest e. ground arith;
    reads = λ v b rest e. ground arith;
    commands = λ tx v code addr cnt hc ha hn e framed.
        ground (arith, decode-command tx code addr cnt hc ha hn framed);
    sends = λ tx v addr cnt e.
        let whole =
          take-with_crc 3 addr cnt (regs.fetch addr cnt v.regs)
            (regs.length-fetch addr cnt v.regs) in
        rw e (refl, whole, refl);
    receives = λ tx v addr cnt bytes e size framed. rw e (
      refl,
      ap
          (λ (l : List ℕ). record {
            phase = waiting;
            line = v.line ++ (ack ∷ []);
            regs = regs.store addr l v.regs;
          })
          (front_of_data tx addr cnt bytes size framed),
    );
  }
