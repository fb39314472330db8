-- ===== src/Uart/Tests.antt =====
-- The theorems on the serial port, at runs of a scripted machine.
use linux_uart.Base.{◌≡◌, refl, arith, [], ◌∷◌, true, false}
use linux_uart.Base.Int.{pos, eq_pos}
use linux_uart.Os.Audit.{Audit, audited}
use linux_uart.Os.Scripted.{Script, scripted}
use linux_uart.Uart.{read_loop, set_speed, set_parity, uart_open}
use linux_uart.Uart.ReadLoop.{read_loop_fuel}
use linux_uart.Uart.Setup.{UartOpen, uart_open-UartOpen}
use linux_uart.Os.{tty}

-- Three bytes are on the line.
abbrev three_bytes : Script
three_bytes = record { line = 7 ∷ 8 ∷ 9 ∷ []; spi = []; sent = [] }

read_loop_fuel_example :
    read_loop scripted 2 (pos 5) 2 (pos 20) 0 [] three_bytes
    ≡ read_loop scripted 9 (pos 5) 2 (pos 20) 0 [] three_bytes
read_loop_fuel_example =
    read_loop_fuel scripted 2 9 (pos 5) 2 (pos 20) 0 [] three_bytes (omega arith) (omega arith)

abbrev locked : Audit Script
locked = record {
  world = three_bytes;
  mutex_held = false;
  file_held = true;
  open_fds = pos 3 ∷ [];
  faults = 0;
}

uart_open-UartOpen_example :
    let (fd, a1) = (audited scripted).open_file [] tty locked in
    let (s, a2) = set_speed (audited scripted) fd 115200 a1 in
    let (p, _) = set_parity (audited scripted) fd 8 1 b'N' a2 in
    let (uart_fd, after) = uart_open (audited scripted) [] 115200 8 1 b'N' locked in
    UartOpen (pos 3 ∷ []) 0 fd (eq_pos s 0) (eq_pos p 0) uart_fd after
uart_open-UartOpen_example =
    uart_open-UartOpen scripted (pos 3 ∷ []) 0 [] 115200 8 1 b'N' locked (refl, refl, refl, refl)
