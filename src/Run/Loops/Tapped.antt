-- ===== src/Run/Loops/Tapped.antt =====
-- run.c: the board watched at the registers of the CAN messages.
use linux_uart.Base.{
  ℕ, ◌*◌, ◌/◌, ◌%◌, ◌^◌, ◌≤◌, ◌≡◌, arith, List, ◌++◌, append-nil, take, ◌==◌, if◌then◌else◌,
}
use linux_uart.Base.Int.{is_neg, to_ℕ}
use linux_uart.RegWrCb.{clip, size, free_size, gran_read, gran_write}
use linux_uart.RvMcu.{send_can_msg_block, receive_can_msg_block}
use linux_uart.RvMcu.Burn.{Board}

-- A board, and the bytes that went over the two registers of the CAN messages so far.
pub record Tapped (S : Type 0) : Type 0 where
  pub world : S
  pub sent : List ℕ
  pub received : List ℕ

-- The board watched: what is written into the register that sends messages, and what is read from
-- the one that takes messages out, by calls that succeed.
abbrev pub tapped : {S : Type 0} → Board S → Board (Tapped S)
tapped b = record {
  bus = record {
    read_reg = λ addr buf n timeout t.
        let (r, bytes, s) = b.bus.read_reg addr buf n timeout t.world in
        let taken = if addr == 0x100A then t.received ++ take n bytes else t.received in
        (r, bytes, record t { world = s; received = if is_neg r then t.received else taken });
    write_reg = λ addr bytes n timeout t.
        let (r, s) = b.bus.write_reg addr bytes n timeout t.world in
        let given = if addr == 0x1003 then t.sent ++ take n bytes else t.sent in
        (r, record t { world = s; sent = if is_neg r then t.sent else given });
  };
  open_rdonly = λ path t. let (r, s) = b.open_rdonly path t.world in (r, record t { world = s });
  read_file =
      λ fd n t. let (r, bytes, s) = b.read_file fd n t.world in (r, bytes, record t { world = s });
  close = λ fd t. record t { world = b.close fd t.world };
  usleep = λ us t. record t { world = b.usleep us t.world };
}

-- The bytes of `k` elements of sixteen bytes, for as many as a call moves.
few_bytes : (n k : ℕ) → k ≤ n % 2 ^ 16 → n ≤ 60 → k * 16 % 2 ^ 32 % 2 ^ 16 ≡ 16 * k
few_bytes n k h small = omega arith

module _ {S : Type 0} (b : Board S) where
  size-logs :
      (timeout : ℕ) (t : Tapped S)
      → let t1 = (size (tapped b).bus 0x1008 timeout t).1 in
        (t1.sent ≡ t.sent) × (t1.received ≡ t.received)
  unfolding size
  size-logs timeout t = ground arith

  free_size-logs :
      (timeout : ℕ) (t : Tapped S)
      → let t1 = (free_size (tapped b).bus 0x1000 timeout t).1 in
        (t1.sent ≡ t.sent) × (t1.received ≡ t.received)
  unfolding free_size
  free_size-logs timeout t = ground arith

  -- The messages that a call returns are the bytes that it took out of the register.
  pub receive-logs :
      (can_msg : List ℕ) (timeout : ℕ) (t : Tapped S)
      → let (ret, out, t1) = receive_can_msg_block (tapped b).bus can_msg 60 timeout t in
        (t1.sent ≡ t.sent)
        × (t1.received ≡ t.received ++ take (16 * to_ℕ ret) out)
        × (to_ℕ ret ≤ 60)
  unfolding receive_can_msg_block gran_read
  receive-logs can_msg timeout t =
      let (ret, t1) = size (tapped b).bus 0x1008 timeout t in
      let k = clip (to_ℕ ret / 16) (60 % 2 ^ 16) in
      let fewer : k ≤ 60 % 2 ^ 16 = ground arith in
      ground (arith, size-logs timeout t, few_bytes 60 k fewer (omega arith), append-nil t.received)

  pub send-logs :
      (can_msg : List ℕ) (cnt timeout : ℕ) (t : Tapped S)
      → cnt ≤ 60
      → let (ret, t1) = send_can_msg_block (tapped b).bus can_msg cnt timeout t in
        (t1.sent ≡ t.sent ++ take (16 * to_ℕ ret) can_msg)
        × (t1.received ≡ t.received)
        × (to_ℕ ret ≤ cnt)
  unfolding send_can_msg_block gran_write
  send-logs can_msg cnt timeout t small =
      let (ret, t1) = free_size (tapped b).bus 0x1000 timeout t in
      let k = clip (to_ℕ ret / 16) (cnt % 2 ^ 16) in
      let fewer : k ≤ cnt % 2 ^ 16 = ground arith in
      ground (arith, free_size-logs timeout t, few_bytes cnt k fewer small, append-nil t.sent)
