-- ===== src/Run/Loops.antt =====
-- run.c: the commands that never end, by the state that they are in after a number of rounds.
pub mod Keeps
pub mod Tapped
pub mod Receive
pub mod Echo
mod Tests
use linux_uart.Base.{
  ℕ, zero, suc, ◌+◌, ◌-◌, ◌*◌, List, [], ◌∷◌, ◌++◌, get_or, take, drop, replicate, ltb,
  if◌then◌else◌,
}
use linux_uart.Base.Int.{ℤ, pos, is_neg, eq_pos, to_ℕ}
use linux_uart.MemCtrl.{mem_val}
use linux_uart.RvMcu.{
  wdog_feed, send_can_msg_block, receive_can_msg_block, clean_rx_fifo, can_msg_size,
}
use linux_uart.RvMcu.Burn.{Board}

-- TEST_CAN_BUF_SIZE
abbrev pub test_can_buf_size : ℕ
test_can_buf_size = 60

-- What is printed of a `PCanMsg`, with its bytes from the lowest address on; the time column is left
-- out.
pub record ShownMessage : Type 0 where
  pub can_id : ℕ
  pub can_len : ℕ
  pub can_data : List ℕ

-- The message that `p` points at: the identifier, the length at 14, and the eight bytes at 4.
pub message_at : List ℕ → ShownMessage
unfolding mem_val
message_at p = record {
  can_id = mem_val (take 4 p);
  can_len = get_or p 14 0;
  can_data = take 8 (drop 4 p);
}

-- The loop that prints the messages `can_msg + i`, of which `n` are left.
pub print_messages : ℕ → ℕ → List ℕ → List ShownMessage
unfolding message_at
print_messages zero i can_msg = []
print_messages (suc n) i can_msg =
    message_at (drop (can_msg_size * i) can_msg) ∷ print_messages n (i + 1) can_msg

-- The variables of `fun_loop_receive_can_msg`: the buffer, and what was printed so far.
pub record Receiving (S : Type 0) : Type 0 where
  pub can_msg : List ℕ
  pub shown : List ShownMessage
  pub state : S

-- The variables of `fun_loop_can_echo_test`: the buffer, and the two pointers into it, counted in
-- messages. Before the first message is received both are 0.
pub record Echoing (S : Type 0) : Type 0 where
  pub can_msg : List ℕ
  pub can_msg_pos : ℕ
  pub can_msg_end : ℕ
  pub state : S

module _ {S : Type 0} (b : Board S) where
  -- The rounds of `fun_mpu_online`, with the static counter of the watchdog.
  unfoldable pub fun_mpu_online : ℕ → ℕ → S → ℕ × S
  fun_mpu_online zero last_cnt s = (last_cnt, s)
  fun_mpu_online (suc n) last_cnt s =
      let (_, last_cnt1, s1) = wdog_feed b.bus last_cnt (b.usleep 100000 s) in
      fun_mpu_online n last_cnt1 s1

  -- One round of the loop of `fun_loop_receive_can_msg`.
  pub receive_round : Receiving S → Receiving S
  unfolding print_messages
  receive_round r =
      let (ret, can_msg, s1) =
        receive_can_msg_block b.bus r.can_msg test_can_buf_size 200 r.state in
      let failed = record r { can_msg = can_msg; state = s1 } in
      if is_neg ret
      then failed
      else if eq_pos ret 0
      then record failed { state = b.usleep 500 s1 }
      else record failed { shown = r.shown ++ print_messages (to_ℕ ret) 0 can_msg }

  pub receive_rounds : ℕ → Receiving S → Receiving S
  receive_rounds zero r = r
  receive_rounds (suc n) r = receive_rounds n (receive_round r)

  -- `fun_loop_receive_can_msg`
  unfoldable pub fun_loop_receive_can_msg : ℕ → S → Receiving S
  fun_loop_receive_can_msg n s =
      let (_, s1) = clean_rx_fifo b.bus 200 s in
      receive_rounds n (record {
        can_msg = replicate (test_can_buf_size * can_msg_size) 0;
        shown = [];
        state = s1;
      })

  -- One call of the loops of `fun_loop_can_echo_test`: of the inner one while messages are left to
  -- send, else of the outer one.
  pub echo_round : Echoing S → Echoing S
  echo_round e =
      let left = e.can_msg_end - e.can_msg_pos in
      let (sent, s1) =
        send_can_msg_block b.bus (drop (can_msg_size * e.can_msg_pos) e.can_msg) left 100 e.state in
      let (ret, can_msg, s2) =
        receive_can_msg_block b.bus e.can_msg test_can_buf_size 100 e.state in
      let received = record e { can_msg = can_msg; state = s2 } in
      if ltb e.can_msg_pos e.can_msg_end
      then if is_neg sent
        then record e { state = b.usleep 500 s1 }
        else record e { can_msg_pos = e.can_msg_pos + to_ℕ sent; state = s1 }
      else if is_neg ret
      then received
      else if eq_pos ret 0
      then record received { state = b.usleep 500 s2 }
      else record received { can_msg_pos = 0; can_msg_end = to_ℕ ret }

  pub echo_rounds : ℕ → Echoing S → Echoing S
  echo_rounds zero e = e
  echo_rounds (suc n) e = echo_rounds n (echo_round e)

  -- `fun_loop_can_echo_test`
  unfoldable pub fun_loop_can_echo_test : ℕ → S → Echoing S
  fun_loop_can_echo_test n s = echo_rounds n (record {
    can_msg = replicate (test_can_buf_size * can_msg_size) 0;
    can_msg_pos = 0;
    can_msg_end = 0;
    state = s;
  })
