-- ===== src/Uart/Opened.antt =====
-- pp_uart.c: opening the port succeeds on the machine for tests.
use linux_uart.Base.{ℕ, ◌≡◌, refl, List}
use linux_uart.Base.Int.{pos}
use linux_uart.Os.Audit.{Audit, audited}
use linux_uart.Os.Scripted.{Script, scripted}
use linux_uart.Uart.{
  uart_open, set_up, set_speed, set_parity, speed_loop, configure, set_data_bits, set_parity_bits,
  set_stop_bits, raw_mode,
}

pub uart_open-scripted :
    (path : List ℕ) (a : Audit Script)
    → (uart_open (audited scripted) path 115200 8 1 b'N' a).0 ≡ pos 5
unfolding uart_open set_up set_speed set_parity speed_loop configure set_data_bits set_parity_bits
    set_stop_bits raw_mode
uart_open-scripted path a = refl
