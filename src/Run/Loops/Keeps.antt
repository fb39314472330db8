-- ===== src/Run/Loops/Keeps.antt =====
-- run.c: what every access of a register leaves as it is, the endless commands leave as it is at
-- every moment.
use linux_uart.Base.{ℕ, zero, suc, ◌-◌, ◌*◌, ◌≡◌, arith, drop}
use linux_uart.RvMcu.{
  wdog_feed, send_can_msg_block, receive_can_msg_block, clean_rx_fifo, can_msg_size,
  cb_send_can_start, cb_receive_can_start,
}
use linux_uart.RvMcu.Keeps.{BusKeeps, gran_read-kept, gran_write-kept, clean-kept, wdog_feed-kept}
use linux_uart.RvMcu.Burn.{Board}
use linux_uart.Run.Loops.{
  Receiving, Echoing, fun_mpu_online, receive_round, receive_rounds, fun_loop_receive_can_msg,
  echo_round, echo_rounds, fun_loop_can_echo_test, test_can_buf_size,
}

module _ {S V : Type 0} (b : Board S) (view : S → V) (v : V) (k : BusKeeps b.bus view v)
    (sleeps : (us : ℕ) (s : S) → view s ≡ v → view (b.usleep us s) ≡ v) where
  pub mpu_online-kept :
      (n last_cnt : ℕ) (s : S) → view s ≡ v → view (fun_mpu_online b n last_cnt s).1 ≡ v
  unfolding fun_mpu_online
  mpu_online-kept zero last_cnt s h = h
  mpu_online-kept (suc n) last_cnt s h =
      let s0 = b.usleep 100000 s in
      let (_, last_cnt1, s1) = wdog_feed b.bus last_cnt s0 in
      mpu_online-kept n last_cnt1 s1 (wdog_feed-kept b.bus view v k last_cnt s0 (sleeps 100000 s h))

  receive_round-kept : (r : Receiving S) → view r.state ≡ v → view (receive_round b r).state ≡ v
  unfolding receive_round receive_can_msg_block
  receive_round-kept r h =
      let (ret, can_msg, s1) =
        receive_can_msg_block b.bus r.can_msg test_can_buf_size 200 r.state in
      let kept =
        gran_read-kept b.bus view v k cb_receive_can_start r.can_msg can_msg_size test_can_buf_size
          200 r.state h in
      ground (arith, kept, sleeps 500 s1 kept)

  receive_rounds-kept :
      (n : ℕ) (r : Receiving S) → view r.state ≡ v → view (receive_rounds b n r).state ≡ v
  unfolding receive_rounds
  receive_rounds-kept zero r h = h
  receive_rounds-kept (suc n) r h =
      receive_rounds-kept n (receive_round b r) (receive_round-kept r h)

  pub loop_receive-kept :
      (n : ℕ) (s : S) → view s ≡ v → view (fun_loop_receive_can_msg b n s).state ≡ v
  unfolding fun_loop_receive_can_msg clean_rx_fifo
  loop_receive-kept n s h =
      receive_rounds-kept n _ (clean-kept b.bus view v k cb_receive_can_start 200 s h)

  echo_round-kept : (e : Echoing S) → view e.state ≡ v → view (echo_round b e).state ≡ v
  unfolding echo_round send_can_msg_block receive_can_msg_block
  echo_round-kept e h =
      let left = e.can_msg_end - e.can_msg_pos in
      let msgs = drop (can_msg_size * e.can_msg_pos) e.can_msg in
      let (_, s1) = send_can_msg_block b.bus msgs left 100 e.state in
      let (_, _, s2) = receive_can_msg_block b.bus e.can_msg test_can_buf_size 100 e.state in
      let sent =
        gran_write-kept b.bus view v k cb_send_can_start msgs can_msg_size left 100 e.state h in
      let received =
        gran_read-kept b.bus view v k cb_receive_can_start e.can_msg can_msg_size test_can_buf_size
          100 e.state h in
      ground (arith, sent, received, sleeps 500 s1 sent, sleeps 500 s2 received)

  echo_rounds-kept : (n : ℕ) (e : Echoing S) → view e.state ≡ v → view (echo_rounds b n e).state ≡ v
  unfolding echo_rounds
  echo_rounds-kept zero e h = h
  echo_rounds-kept (suc n) e h = echo_rounds-kept n (echo_round b e) (echo_round-kept e h)

  pub echo_test-kept : (n : ℕ) (s : S) → view s ≡ v → view (fun_loop_can_echo_test b n s).state ≡ v
  unfolding fun_loop_can_echo_test
  echo_test-kept n s h = echo_rounds-kept n _ h
