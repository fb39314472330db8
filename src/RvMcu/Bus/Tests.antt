-- ===== src/RvMcu/Bus/Tests.antt =====
-- A ring buffer of 64 bytes behind SPI, and the theorems on the layers above each other.
use linux_uart.Base.{
  ℕ, ◌-◌, ◌%◌, ◌≤◌, ◌≡◌, refl, ap, arith, ◌==◌, List, [], ◌∷◌, ◌++◌, take, drop, length, replicate,
  length-take, length-append, length-replicate, take-drop-take, take-append-take, take-append_left,
  Option, some, if◌then◌else◌,
}
use linux_uart.Base.Int.{pos}
use linux_uart.MemCtrl.{mem_bytes, mem_val}
use linux_uart.MemCtrl.Reverse.{mem_val-mem_bytes}
use linux_uart.SpiReg.{SpiRegHandle}
use linux_uart.SpiReg.Mcu.{waiting, View, Registers}
use linux_uart.SpiReg.Mcu.Linked.{linked, linked-McuLink}
use linux_uart.RegWrCb.{read, write}
use linux_uart.RegWrCb.Ring.{RingRegs}
use linux_uart.RegWrCb.Simulated.{Simulates}
use linux_uart.SpiReg.Mcu.Memory.{memory}
use linux_uart.RvMcu.{
  spi_bus, send_can_msg_block, receive_can_msg_block, write_mpu_dtc, read_mpu_dtc,
  set_rearview_type, get_rearview_type, wdog_config, wdog_get_sta,
}
use linux_uart.RvMcu.Bus.Named.{settings-read_back}
use linux_uart.RvMcu.Bus.Can.{receive_can_msg_block-takes, send_can_msg_block-puts}
use linux_uart.RvMcu.Bus.Refine.{file_bus, Ready, spi_bus-Simulates}
use linux_uart.RvMcu.Bus.Queue.{HoldsQueue, write-read}

-- The first 64 bytes of the state are in the buffer, whose registers are seen at 0x1000 and 0x1008.
abbrev queue : List ℕ → List ℕ
queue s = take 64 s

-- `n` bytes, whatever there is.
abbrev fit : ℕ → List ℕ → List ℕ
fit n l = take n (l ++ replicate n 0)

length-fit : (n : ℕ) (l : List ℕ) → length (fit n l) ≡ n
length-fit n l = omega (
  arith,
  length-take n (l ++ replicate n 0),
  length-append l (replicate n 0),
  length-replicate {A = ℕ} n 0,
)

fit_front :
    (n : ℕ) (s buf : List ℕ)
    → n ≤ length (queue s)
    → fit n (queue s) ++ drop n buf ≡ take n (queue s) ++ drop n buf
fit_front n s buf h =
    ap (λ (l : List ℕ). l ++ drop n buf) (take-append_left n (queue s) (replicate n 0) h)

abbrev ring_bytes : ℕ → ℕ → List ℕ → List ℕ
ring_bytes addr n s =
    if addr % 8 == 0
    then mem_bytes 4 (length (queue s))
    else if addr % 8 == 1
    then mem_bytes 4 (64 - length (queue s))
    else queue s

abbrev ring_registers : Registers (List ℕ)
ring_registers = record {
  fetch = λ addr n s. fit n (ring_bytes addr n s);
  after_fetch = λ addr n s. if addr % 8 == 2 then drop n (queue s) else s;
  store = λ addr bytes s.
      if addr % 8 == 3
      then queue s ++ bytes
      else if addr % 8 == 4
      then []
      else if addr % 8 == 5
      then drop (mem_val (take 4 bytes)) (queue s)
      else s;
  length-fetch = λ addr n s. length-fit n (ring_bytes addr n s);
}

ring_laws : RingRegs (file_bus ring_registers) 0x1000 20 64 queue
unfolding file_bus mem_bytes
ring_laws = record {
  bounded = λ s. omega (arith, length-take 64 s);
  addressable = omega arith;
  get_size = λ buf s. (refl, λ ok. refl);
  get_freesize = λ buf s. (refl, λ ok. refl);
  take_out = λ n buf s h ok. (fit_front n s buf h, take-drop-take 64 n s);
  look = λ n buf s h. (refl, λ ok. fit_front n s buf h);
  put_in = λ n bytes s h ok. take-append-take 64 n s bytes h;
  empty_out = λ bytes s ok. refl;
  skip = λ n s h ok.
      rw (mem_val-mem_bytes 4 n (omega (arith, h, length-take 64 s))) (take-drop-take 64 n s);
}

ring_laws_1008 : RingRegs (file_bus ring_registers) 0x1008 20 64 queue
unfolding file_bus mem_bytes
ring_laws_1008 = record {
  bounded = ring_laws.bounded;
  addressable = ring_laws.addressable;
  get_size = ring_laws.get_size;
  get_freesize = ring_laws.get_freesize;
  take_out = ring_laws.take_out;
  look = ring_laws.look;
  put_in = ring_laws.put_in;
  empty_out = ring_laws.empty_out;
  skip = ring_laws.skip;
}

abbrev handle : SpiRegHandle
handle = record {
  fd = pos 4;
  lock_fd = pos 3;
  uart_fd = pos 5;
  tx_buf = [];
  rx_buf = [];
  speed = 10000000;
}

spi_bus-Simulates_example :
    Simulates (spi_bus (linked ring_registers)) (file_bus ring_registers) 20 1022 (
      Ready
        (linked ring_registers)
        ring_registers
        handle
        20
        (λ v. v)
        (linked-McuLink ring_registers (pos 4) (pos 5) 20))
spi_bus-Simulates_example =
    spi_bus-Simulates (linked ring_registers) ring_registers handle 20 (λ v. v)
      (linked-McuLink ring_registers (pos 4) (pos 5) 20)

abbrev empty : Option SpiRegHandle × View (List ℕ)
empty = (some handle, record { phase = waiting; line = []; regs = [] })

abbrev RingHolds : List ℕ → Option SpiRegHandle × View (List ℕ) → Type 0
RingHolds q s =
    HoldsQueue (linked ring_registers) ring_registers handle 20 (λ v. v)
      (linked-McuLink ring_registers (pos 4) (pos 5) 20) 0x1000 64 queue ring_laws q s

write-read_example :
    let (ret, s1) = write (spi_bus (linked ring_registers)) 0x1000 (5 ∷ 6 ∷ []) 2 20 empty in
    let (ret2, out_data, s2) = read (spi_bus (linked ring_registers)) 0x1000 (0 ∷ 0 ∷ []) 2 20 s1 in
    (ret ≡ pos 2) × (ret2 ≡ pos 2) × (out_data ≡ 5 ∷ 6 ∷ []) × RingHolds [] s2
write-read_example =
    write-read (linked ring_registers) ring_registers handle 20 (λ v. v)
      (linked-McuLink ring_registers (pos 4) (pos 5) 20) 0x1000 64 queue ring_laws (5 ∷ 6 ∷ [])
      (0 ∷ 0 ∷ []) empty (omega arith) (omega arith) refl
      ([], record { open_link = ([], [], refl); waits = refl; holds = refl }, refl)

-- One message of sixteen bytes, and four bytes of the next.
abbrev one_message : List ℕ
one_message = replicate 16 7

abbrev message_and_more : List ℕ
message_and_more = one_message ++ replicate 4 9

abbrev holding : List ℕ → Option SpiRegHandle × View (List ℕ)
holding q = (some handle, record { phase = waiting; line = []; regs = q })

send_can_msg_block-puts_example :
    let (ret, s1) =
      send_can_msg_block (spi_bus (linked ring_registers)) one_message 1 20 (holding one_message) in
    (ret ≡ pos 1) × RingHolds (one_message ++ one_message) s1
send_can_msg_block-puts_example =
    send_can_msg_block-puts (linked ring_registers) ring_registers handle 20 (λ v. v)
      (linked-McuLink ring_registers (pos 4) (pos 5) 20) 64 queue ring_laws one_message 1
      one_message (holding one_message) (omega arith) (omega arith)
      (one_message, record { open_link = ([], [], refl); waits = refl; holds = refl }, refl)

receive_can_msg_block-takes_example :
    let (ret, can_msg, s1) =
      receive_can_msg_block
        (spi_bus (linked ring_registers))
        (replicate 32 0)
        2
        20
        (holding message_and_more) in
    (ret ≡ pos 1)
    × (can_msg ≡ one_message ++ replicate 16 0)
    × HoldsQueue
        (linked ring_registers)
        ring_registers
        handle
        20
        (λ v. v)
        (linked-McuLink ring_registers (pos 4) (pos 5) 20)
        0x1008
        64
        queue
        ring_laws_1008
        (replicate 4 9)
        s1
receive_can_msg_block-takes_example =
    receive_can_msg_block-takes (linked ring_registers) ring_registers handle 20 (λ v. v)
      (linked-McuLink ring_registers (pos 4) (pos 5) 20) 64 queue ring_laws_1008 (replicate 32 0) 2
      message_and_more (holding message_and_more) (omega arith) (omega arith)
      (message_and_more, record { open_link = ([], [], refl); waits = refl; holds = refl }, refl)

abbrev settings : Option SpiRegHandle × View (ℕ → ℕ)
settings = (some handle, record { phase = waiting; line = 1 ∷ []; regs = λ a. 255 })

settings-read_back_example :
    let bus = spi_bus (linked memory) in
    let (ret1, s1) = write_mpu_dtc bus 0x789 settings in
    let (ret2, s2) = set_rearview_type bus (pos 1) s1 in
    let (ret3, s3) = wdog_config bus (pos 1) s2 in
    let (ret4, map1, s4) = read_mpu_dtc bus 0 s3 in
    let (ret5, side1, s5) = get_rearview_type bus (pos 7) s4 in
    let (ret6, sta1, _) = wdog_get_sta bus (pos 7) s5 in
    (ret1 ≡ pos 0)
    × (ret2 ≡ pos 0)
    × (ret3 ≡ pos 0)
    × ((ret4 ≡ pos 0) × (map1 ≡ 0x789))
    × ((ret5 ≡ pos 0) × (side1 ≡ pos 1))
    × ((ret6 ≡ pos 0) × (sta1 ≡ pos 1))
settings-read_back_example =
    settings-read_back (linked memory) handle (λ v. v) (linked-McuLink memory (pos 4) (pos 5) 200)
      0x789 1 0 (pos 1) (pos 7) (pos 7) (λ a. 255) settings (omega arith) (omega arith)
      (record { open_link = ([], [], refl); waits = refl; holds = refl })
