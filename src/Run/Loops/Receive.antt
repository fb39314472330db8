-- ===== src/Run/Loops/Receive.antt =====
-- run.c: `fun_loop_receive_can_msg` prints what it receives.
use linux_uart.Base.{
  ℕ, zero, suc, ◌+◌, ◌*◌, ◌/◌, ◌%◌, ◌^◌, ◌≤◌, ◌≡◌, refl, sym, ap, ap₂, ◌∙◌, arith, List, [], ◌∷◌,
  ◌++◌, append-nil, take, drop, length, replicate, length-append, length-take, length-drop,
  length-replicate, get_or-take, take-take_le, take-append_left, take-append-drop, if-cases,
}
use linux_uart.Base.Int.{is_neg, eq_pos, to_ℕ}
use linux_uart.RegWrCb.{clean, size, gran_read, clip}
use linux_uart.RvMcu.{clean_rx_fifo, receive_can_msg_block}
use linux_uart.RvMcu.Burn.{Board}
use linux_uart.Run.Loops.{
  ShownMessage, message_at, print_messages, Receiving, receive_round, receive_rounds,
  fun_loop_receive_can_msg,
}
use linux_uart.Run.Loops.Tapped.{Tapped, tapped, receive-logs}
use linux_uart.Run.Loops.Echo.{drop_twice}

-- The messages that stand one after the other in a string of bytes, 16 bytes each.
abbrev pub messages : ℕ → List ℕ → List ShownMessage
messages zero bytes = []
messages (suc n) bytes = message_at bytes ∷ messages n (drop 16 bytes)

take-drop-take_le :
    (m n k : ℕ) (p : List ℕ) → m + n ≤ k → take m (drop n (take k p)) ≡ take m (drop n p)
take-drop-take_le m zero k p h = take-take_le m k p (omega arith)
take-drop-take_le m (suc n) zero p h = absurd (omega arith)
take-drop-take_le m (suc n) (suc k) [] h = refl
take-drop-take_le m (suc n) (suc k) (x ∷ p) h = take-drop-take_le m n k p (omega arith)

-- A message is in its 16 bytes.
message_at-take : (p : List ℕ) → message_at (take 16 p) ≡ message_at p
unfolding message_at
message_at-take p =
    rw
      (
        take-take_le 4 16 p (omega arith),
        get_or-take 16 14 p 0 (omega arith),
        take-drop-take_le 8 4 16 p (omega arith),
      )
      refl

message_at-append : (a b : List ℕ) → 16 ≤ length a → message_at (a ++ b) ≡ message_at a
message_at-append a b h =
    sym (message_at-take (a ++ b)) ∙ ap message_at (take-append_left 16 a b h) ∙ message_at-take a

drop-append_left : (n : ℕ) (xs ys : List ℕ) → n ≤ length xs → drop n (xs ++ ys) ≡ drop n xs ++ ys
drop-append_left zero xs ys h = refl
drop-append_left (suc n) [] ys h = absurd (omega arith)
drop-append_left (suc n) (x ∷ xs) ys h = drop-append_left n xs ys (omega arith)

messages-append :
    (m n : ℕ) (a b : List ℕ)
    → length a ≡ 16 * m
    → messages (m + n) (a ++ b) ≡ messages m a ++ messages n b
messages-append zero n [] b e = ap (λ (k : ℕ). messages k b) (omega arith)
messages-append zero n (x ∷ a) b e = absurd (omega arith)
messages-append (suc m) n a b e =
    ap (λ (k : ℕ). messages k (a ++ b)) {x = suc m + n} {y = suc (m + n)} (omega arith)
    ∙ ap₂ (λ (x : ShownMessage) (l : List ShownMessage). x ∷ l)
        (message_at-append a b (omega (arith, e)))
        (ap (messages (m + n)) (drop-append_left 16 a b (omega (arith, e)))
          ∙ messages-append m n (drop 16 a) b (omega (arith, e, length-drop 16 a)))

-- The loop over the index goes through the messages that stand one after the other.
print_messages-messages :
    (n i : ℕ) (buf : List ℕ) → print_messages n i buf ≡ messages n (drop (16 * i) buf)
unfolding print_messages
print_messages-messages zero i buf = refl
print_messages-messages (suc n) i buf =
    ap (λ (l : List ShownMessage). message_at (drop (16 * i) buf) ∷ l)
      (print_messages-messages n (i + 1) buf
        ∙ ap (messages n) (
            ap (λ (k : ℕ). drop k buf) {x = 16 * (i + 1)} {y = 16 * i + 16} (omega arith)
            ∙ sym (drop_twice (16 * i) 16 buf)))

length-messages : (n : ℕ) (bytes : List ℕ) → length (messages n bytes) ≡ n
length-messages zero bytes = refl
length-messages (suc n) bytes = ap suc (length-messages n (drop 16 bytes))

print_messages-front :
    (n : ℕ) (buf : List ℕ)
    → 16 * n ≤ length buf
    → (print_messages n 0 buf ≡ messages n (take (16 * n) buf))
      × (length (take (16 * n) buf) ≡ 16 * n)
print_messages-front n buf h =
    let front = take (16 * n) buf in
    let counted : length front ≡ 16 * n = omega (arith, length-take (16 * n) buf, h) in
    (
      print_messages-messages n 0 buf
          ∙ ap (messages n) (sym (take-append-drop (16 * n) buf))
          ∙ ap (λ (k : ℕ). messages k (front ++ drop (16 * n) buf)) {y = n + 0} (omega arith)
          ∙ messages-append n 0 front (drop (16 * n) buf) counted
          ∙ append-nil (messages n front),
      counted,
    )

-- A read leaves the buffer at its length.
abbrev pub KeepsLength : {S : Type 0} → Board S → Type 0
KeepsLength b =
    (addr : ℕ) (buf : List ℕ) (n timeout : ℕ) (s : _)
    → length (b.bus.read_reg addr buf n timeout s).1 ≡ length buf

module _ {S : Type 0} (b : Board S) (keeps : KeepsLength b) where
  -- What was printed are the messages that were received.
  record Shown (r : Receiving (Tapped S)) : Type 0 where
    room : length r.can_msg ≡ 960
    whole : length r.state.received ≡ 16 * length r.shown
    printed : r.shown ≡ messages (length r.shown) r.state.received

  receive-room :
      (can_msg : List ℕ) (t : Tapped S)
      → length (receive_can_msg_block (tapped b).bus can_msg 60 200 t).1 ≡ length can_msg
  unfolding receive_can_msg_block gran_read
  receive-room can_msg t =
      let (ret, t1) = size (tapped b).bus 0x1008 200 t in
      let len = clip (to_ℕ ret / 16) (60 % 2 ^ 16) * 16 % 2 ^ 32 % 2 ^ 16 in
      ground (arith, keeps 0x100A can_msg len 200 t1.world)

  waited-Shown :
      (r : Receiving (Tapped S)) (can_msg : List ℕ) (t : Tapped S)
      → Shown r
      → length can_msg ≡ 960
      → t.received ≡ r.state.received
      → Shown (record r { can_msg = can_msg; state = t })
  waited-Shown r can_msg t i size same = record {
    room = size;
    whole = ap length same ∙ i.whole;
    printed = i.printed ∙ ap (messages (length r.shown)) (sym same);
  }

  taken-Shown :
      (r : Receiving (Tapped S)) (n : ℕ) (can_msg : List ℕ) (t : Tapped S)
      → Shown r
      → length can_msg ≡ 960
      → n ≤ 60
      → t.received ≡ r.state.received ++ take (16 * n) can_msg
      → Shown
          (record { can_msg = can_msg; shown = r.shown ++ print_messages n 0 can_msg; state = t })
  taken-Shown r n can_msg t i size few more =
      let front = take (16 * n) can_msg in
      let (new, counted) = print_messages-front n can_msg (omega (arith, size, few)) in
      let many : length (r.shown ++ print_messages n 0 can_msg) ≡ length r.shown + n =
        length-append r.shown (print_messages n 0 can_msg)
        ∙ ap (λ (k : ℕ). length r.shown + k) (ap length new ∙ length-messages n front) in
      record {
        room = size;
        whole =
            ap length more
            ∙ length-append r.state.received front
            ∙ omega (arith, counted, i.whole, many);
        printed =
            ap₂ (λ (k l : List ShownMessage). k ++ l) i.printed new
            ∙ sym (messages-append (length r.shown) n r.state.received front i.whole)
            ∙ ap₂ messages (sym many) (sym more);
      }

  receive_round-Shown : (r : Receiving (Tapped S)) → Shown r → Shown (receive_round (tapped b) r)
  unfolding receive_round
  receive_round-Shown r i =
      let (ret, can_msg, t) = receive_can_msg_block (tapped b).bus r.can_msg 60 200 r.state in
      let (_, taken, most) = receive-logs b r.can_msg 200 r.state in
      let size = receive-room r.can_msg r.state ∙ i.room in
      if-cases Shown (is_neg ret)
        (λ failed.
          waited-Shown r can_msg t i size (ground (arith, taken, append-nil r.state.received)))
        λ ok.
          if-cases Shown (eq_pos ret 0)
            (λ none.
              waited-Shown r can_msg (record t { world = b.usleep 500 t.world }) i size
                (ground (arith, taken, append-nil r.state.received)))
            λ some. taken-Shown r (to_ℕ ret) can_msg t i size most taken

  receive_rounds-Shown :
      (n : ℕ) (r : Receiving (Tapped S)) → Shown r → Shown (receive_rounds (tapped b) n r)
  unfolding receive_rounds
  receive_rounds-Shown zero r i = i
  receive_rounds-Shown (suc n) r i =
      receive_rounds-Shown n (receive_round (tapped b) r) (receive_round-Shown r i)

  clean-received :
      (timeout : ℕ) (t : Tapped S)
      → (clean_rx_fifo (tapped b).bus timeout t).1.received ≡ t.received
  unfolding clean_rx_fifo clean
  clean-received timeout t = ground arith

  -- `fun_loop_receive_can_msg` prints every message that it takes from the MCU by an access that
  -- succeeds, once and in order, and nothing else, whatever the registers answer. At every moment the
  -- bytes received are 16 for each message printed, and the identifiers, lengths and data that were
  -- printed are those of the messages that stand one after the other in them. A read leaves the
  -- caller's buffer at its length.
  pub fun_loop_receive_can_msg-shown :
      (n : ℕ) (s : S)
      → let r =
          fun_loop_receive_can_msg (tapped b) n (record { world = s; sent = []; received = [] }) in
        (length r.state.received ≡ 16 * length r.shown)
        × (r.shown ≡ messages (length r.shown) r.state.received)
  unfolding fun_loop_receive_can_msg
  fun_loop_receive_can_msg-shown n s =
      let start : Tapped S = record { world = s; sent = []; received = [] } in
      let (_, t) = clean_rx_fifo (tapped b).bus 200 start in
      let clear : t.received ≡ [] = clean-received 200 start in
      let i =
        receive_rounds-Shown n (record { can_msg = replicate 960 0; shown = []; state = t })
          (record {
            room = length-replicate {A = ℕ} 960 0;
            whole = ap length clear;
            printed = refl;
          }) in
      (i.whole, i.printed)
