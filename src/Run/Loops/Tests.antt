-- ===== src/Run/Loops/Tests.antt =====
-- The theorems on the endless commands, at a small board.
use linux_uart.Base.{
  ℕ, map, length, length-write_at, write_at, ◌+◌, ◌*◌, ◌≤◌, ◌≡◌, refl, [], ◌∷◌, ◌++◌, ◌==◌,
  if◌then◌else◌,
}
use linux_uart.Base.Int.{pos}
use linux_uart.MemCtrl.{mem_val}
use linux_uart.RegWrCb.{size, clean, free_size, gran_read, gran_write}
use linux_uart.RvMcu.{send_can_msg_block, receive_can_msg_block, clean_rx_fifo}
use linux_uart.RvMcu.Burn.{Board}
use linux_uart.Run.Loops.{
  Receiving, receive_rounds, receive_round, print_messages, message_at, Echoing,
  fun_loop_receive_can_msg, fun_loop_can_echo_test, echo_rounds, echo_round,
}
use linux_uart.Run.Loops.Tapped.{Tapped, tapped}
use linux_uart.Run.Loops.Echo.{
  pending, SentOrStuck, fun_loop_can_echo_test-Echoes, fun_loop_can_echo_test-SentOrStuck,
}
use linux_uart.Run.Loops.Receive.{messages, KeepsLength, fun_loop_receive_can_msg-shown}

-- Both ring buffers hold and take two messages; the messages are counted.
abbrev board : Board ℕ
board = record {
  bus = record {
    read_reg = λ addr buf n timeout s. (
      pos 0,
      write_at 0 (if addr == 0x100A then 0xC1 ∷ s ∷ [] else 32 ∷ 0 ∷ 0 ∷ 0 ∷ []) buf,
      if addr == 0x100A then s + 1 else s,
    );
    write_reg = λ addr bytes n timeout s. (pos 0, s);
  };
  open_rdonly = λ path s. (pos 6, s);
  read_file = λ fd n s. (pos 0, [], s);
  close = λ fd s. s;
  usleep = λ us s. s;
}

abbrev echo_after : ℕ → Echoing (Tapped ℕ)
echo_after n =
    fun_loop_can_echo_test (tapped board) n (record { world = 0; sent = []; received = [] })

-- Three rounds receive, send, and receive again.
echo_after_three : (echo_after 3).state.world ≡ 2
unfolding fun_loop_can_echo_test echo_rounds receive_can_msg_block gran_read size send_can_msg_block
    gran_write free_size mem_val echo_round
echo_after_three = refl

fun_loop_can_echo_test-Echoes_example :
    (echo_after 3).state.received ≡ (echo_after 3).state.sent ++ pending (echo_after 3)
fun_loop_can_echo_test-Echoes_example = fun_loop_can_echo_test-Echoes board 3 0

fun_loop_can_echo_test-SentOrStuck_example :
    (k : ℕ) × (k ≤ 60) × SentOrStuck board (echo_rounds (tapped board) k (echo_after 3))
fun_loop_can_echo_test-SentOrStuck_example = fun_loop_can_echo_test-SentOrStuck board 3 0

abbrev received_after : ℕ → Receiving (Tapped ℕ)
received_after n =
    fun_loop_receive_can_msg (tapped board) n (record { world = 0; sent = []; received = [] })

board-KeepsLength : KeepsLength board
board-KeepsLength addr buf n timeout s =
    length-write_at 0 (if addr == 0x100A then 0xC1 ∷ s ∷ [] else 32 ∷ 0 ∷ 0 ∷ 0 ∷ []) buf

-- Two rounds print four messages; the third has the identifier of the second read.
shown_run : map (λ m. m.can_id) (received_after 2).shown ≡ 0xC1 ∷ 0 ∷ 0x1C1 ∷ 0 ∷ []
unfolding fun_loop_receive_can_msg receive_rounds receive_round print_messages message_at
    receive_can_msg_block gran_read size mem_val clean_rx_fifo clean
shown_run = refl

fun_loop_receive_can_msg-shown_example :
    (length (received_after 2).state.received ≡ 16 * length (received_after 2).shown)
    × ((received_after 2).shown
        ≡ messages (length (received_after 2).shown) (received_after 2).state.received)
fun_loop_receive_can_msg-shown_example = fun_loop_receive_can_msg-shown board board-KeepsLength 2 0
