-- ===== src/SpiReg/Wire/Tests.antt =====
-- What register accesses send, at runs of a small machine.
use linux_uart.Base.{◌-◌, ◌+◌, ◌/◌, ◌%◌, arith, [], ◌∷◌, ◌++◌, some, take, replicate}
use linux_uart.Base.Int.{pos}
use linux_uart.Crc.{crc16}
use linux_uart.Os.Scripted.{Script, scripted}
use linux_uart.Os.Wire.{serial, spi, Wired, wired}
use linux_uart.SpiReg.{SpiRegHandle, command, fill_len, trans_length, read, write}
use linux_uart.SpiReg.Wire.InOrder.{SentInOrder, read-SentInOrder, write-SentInOrder}

abbrev handle : SpiRegHandle
handle = record {
  fd = pos 4;
  lock_fd = pos 3;
  uart_fd = pos 5;
  tx_buf = [];
  rx_buf = [];
  speed = 10000000;
}

-- The command is acknowledged, and the line stays silent after it.
abbrev gives_up : Wired Script
gives_up = record { world = record { line = b'A' ∷ []; spi = [] ∷ []; sent = [] }; sent = [] }

read-SentInOrder_example :
    let (ret, _, _, t) = read (wired scripted) (some handle) 0x1012 2 (0 ∷ 0 ∷ []) 20 gives_up in
    SentInOrder
      (serial (pos 5) (b'S' ∷ [])
        ∷ spi (pos 4) (command 3 0x1012 2 ++ replicate 3 0xff)
        ∷ spi (pos 4) (command 3 0x1012 2 ++ replicate (trans_length 2 - 5) 0xff)
        ∷ [])
      []
      t.sent
      ret
read-SentInOrder_example =
    read-SentInOrder scripted handle 0x1012 2 (0 ∷ 0 ∷ []) 20 gives_up (omega arith) (omega arith)

write-SentInOrder_example :
    let crc16_val = crc16 (crc16 0xffff (command 6 0x1012 2) 5) (7 ∷ 8 ∷ []) 2 in
    let (ret, _, t) = write (wired scripted) (some handle) 0x1012 2 (7 ∷ 8 ∷ []) 20 gives_up in
    SentInOrder
      (serial (pos 5) (b'S' ∷ [])
        ∷ spi (pos 4) (command 6 0x1012 2 ++ replicate 3 0xff)
        ∷ spi (pos 4) (
            (take 2 (7 ∷ 8 ∷ []) ++ (crc16_val / 256 ∷ crc16_val % 256 ∷ []))
            ++ replicate (fill_len (2 + 2)) 0xff)
        ∷ [])
      []
      t.sent
      ret
write-SentInOrder_example =
    write-SentInOrder scripted handle 0x1012 2 (7 ∷ 8 ∷ []) 20 gives_up (omega arith) (omega arith)
      (omega arith)
