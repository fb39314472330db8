-- ===== src/SpiReg/Tests.antt =====
-- The theorems on spi_reg.c, at runs of a scripted machine.
use linux_uart.Base.{
  ℕ, ◌%◌, ◌≤◌, ◌<◌, ◌≡◌, ◌↔◌, refl, sym, ap, ◌∙◌, inr, arith, true, false, List, [], ◌∷◌, take,
  replicate, Option, none, some,
}
use linux_uart.Base.Int.{pos, is_neg}
use linux_uart.Crc.{crc16}
use linux_uart.Os.Audit.{Audit, audited}
use linux_uart.Os.Scripted.{Script, scripted}
use linux_uart.SpiReg.{
  SpiRegHandle, prepare, trans_length, read, read_exchange, start, transfer_data, goto_start_cmd,
  transfer_spi, wait_ack, received_crc, blank, command,
}
use linux_uart.MemCtrl.{big_to_system, system_to_big}
use linux_uart.Uart.{uart_write, uart_read, uart_in_clean}
use linux_uart.SpiReg.Frame.{trans_length_bounds}
use linux_uart.SpiReg.Detect.{read-detects}
use linux_uart.SpiReg.Outcome.{ReadOutcome, read_outcome}
use linux_uart.SpiReg.Lifecycle.{init, InitOutcome, init_outcome}

abbrev handle : SpiRegHandle
handle = record {
  fd = pos 4;
  lock_fd = pos 3;
  uart_fd = pos 5;
  tx_buf = replicate 1024 0;
  rx_buf = replicate 1024 0;
  speed = 10000000;
}

-- The MCU acknowledges three times, and sends the registers 17 and 34 with their CRC.
abbrev mcu : Script
mcu = record {
  line = b'A' ∷ b'A' ∷ b'A' ∷ [];
  spi = [] ∷ (17 ∷ 34 ∷ 26 ∷ 191 ∷ 255 ∷ 255 ∷ 255 ∷ 255 ∷ []) ∷ [];
  sent = [];
}

abbrev idle : Audit Script
idle = record { world = mcu; mutex_held = false; file_held = false; open_fds = []; faults = 0 }

abbrev buffer : List ℕ
buffer = 0 ∷ 0 ∷ 0 ∷ 0 ∷ []

-- The read succeeds and delivers the registers.
read_result : (read scripted (some handle) 0x1012 2 buffer 20 mcu).0 ≡ pos 0
unfolding read read_exchange start transfer_data goto_start_cmd transfer_spi wait_ack uart_write
    uart_read uart_in_clean prepare received_crc crc16 blank trans_length command big_to_system
    system_to_big
read_result = refl

read_outcome_example :
    let (ret, out_data, after, _) = read scripted (some handle) 0x1012 2 buffer 20 mcu in
    ReadOutcome 0x1012 2 buffer ret out_data after
read_outcome_example =
    read_outcome scripted handle 0x1012 2 buffer 20 mcu (omega arith) (omega arith)

init_outcome_example :
    let (ret, h1, after) = init (audited scripted) handle [] [] 10000000 idle in
    InitOutcome [] 0 ret h1 after
init_outcome_example =
    init_outcome scripted [] 0 handle [] [] 10000000 idle (refl, refl, refl, refl)

abbrev started : Audit Script
started = record idle { open_fds = pos 5 ∷ pos 4 ∷ pos 3 ∷ [] }

trans_length_bounds_example :
    (trans_length 7 % 8 ≡ 0)
    × (9 ≤ trans_length 7)
    × (trans_length 7 < 17)
    × (trans_length 7 ≤ 1024 ↔ 7 ≤ 1022)
trans_length_bounds_example = trans_length_bounds 7

-- The second register arrives as 35 and not as 34.
abbrev noisy : Script
noisy = record {
  line = b'A' ∷ b'A' ∷ b'A' ∷ [];
  spi = [] ∷ (17 ∷ 35 ∷ 26 ∷ 191 ∷ 255 ∷ 255 ∷ 255 ∷ 255 ∷ []) ∷ [];
  sent = [];
}

abbrev rx_of : Option SpiRegHandle → List ℕ
rx_of none = []
rx_of (some h) = h.rx_buf

noisy_data :
    take 4 (rx_of (read scripted (some handle) 0x1012 2 buffer 20 noisy).2)
    ≡ 17 ∷ 35 ∷ system_to_big 2 (crc16 (crc16 0xffff (command 3 0x1012 2) 5) (17 ∷ 34 ∷ []) 2)
unfolding read read_exchange start transfer_data goto_start_cmd transfer_spi wait_ack uart_write
    uart_read uart_in_clean prepare received_crc crc16 blank trans_length command big_to_system
    system_to_big
noisy_data = refl

read-detects_example :
    let (ret, out_data, _, _) = read scripted (some handle) 0x1012 2 buffer 20 noisy in
    (is_neg ret ≡ true) × (out_data ≡ buffer)
read-detects_example =
    read-detects scripted handle 0x1012 2 buffer 20 noisy 17 34 17 35 [] [] (omega arith)
      (omega arith) (omega arith) (omega arith) (omega arith) (omega arith)
      (inr λ e. omega (arith, e)) refl refl
      (λ h1 left. ap (take 4) (sym (ap rx_of left)) ∙ noisy_data)
