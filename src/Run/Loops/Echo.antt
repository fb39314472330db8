-- ===== src/Run/Loops/Echo.antt =====
-- run.c: what `fun_loop_can_echo_test` receives from the MCU, it sends back.
use linux_uart.Base.{
  ℕ, zero, suc, ◌+◌, ◌-◌, ◌*◌, ◌≤◌, ◌<◌, ◌≡◌, refl, sym, ap, ◌∙◌, arith, true, false, List, [], ◌∷◌,
  ◌++◌, append_assoc, append-nil, take, drop, replicate, ltb, if-cases, Bool-cases, ◌⊎◌, inl, inr,
}
use linux_uart.Base.Int.{ℤ, is_neg, is_positive, eq_pos, to_ℕ}
use linux_uart.RvMcu.{send_can_msg_block, receive_can_msg_block}
use linux_uart.RvMcu.Burn.{Board}
use linux_uart.Run.Loops.{Echoing, echo_round, echo_rounds, fun_loop_can_echo_test}
use linux_uart.Run.Loops.Tapped.{Tapped, tapped, receive-logs, send-logs}

take-nil : {A : Type 0} (n : ℕ) → take {A = A} n [] ≡ []
take-nil zero = refl
take-nil (suc n) = refl

drop-nil : {A : Type 0} (n : ℕ) → drop {A = A} n [] ≡ []
drop-nil zero = refl
drop-nil (suc n) = refl

take_twice :
    {A : Type 0} (m n : ℕ) (xs : List A) → take m xs ++ take n (drop m xs) ≡ take (m + n) xs
take_twice zero n xs = ap (λ (k : ℕ). take k xs) (omega arith)
take_twice (suc m) n [] = take-nil n ∙ sym (take-nil (suc m + n))
take_twice {A} (suc m) n (x ∷ xs) =
    ap (λ (l : List A). x ∷ l) (take_twice m n xs)
    ∙ ap (λ (k : ℕ). take k (x ∷ xs)) {x = suc (m + n)} {y = suc m + n} (omega arith)

pub drop_twice : {A : Type 0} (m n : ℕ) (xs : List A) → drop n (drop m xs) ≡ drop (m + n) xs
drop_twice zero n xs = ap (λ (k : ℕ). drop k xs) (omega arith)
drop_twice (suc m) n [] = drop-nil n ∙ sym (drop-nil (suc m + n))
drop_twice (suc m) n (x ∷ xs) =
    drop_twice m n xs
    ∙ ap (λ (k : ℕ). drop k (x ∷ xs)) {x = suc (m + n)} {y = suc m + n} (omega arith)

-- The bytes of the messages that are still to be sent back.
pub pending : {S : Type 0} → Echoing S → List ℕ
pending e = take (16 * (e.can_msg_end - e.can_msg_pos)) (drop (16 * e.can_msg_pos) e.can_msg)

-- Everything received is sent or pending, and the pointers are in order.
pub record Echoes {S : Type 0} (e : Echoing (Tapped S)) : Type 0 where
  pub accounted : e.state.received ≡ e.state.sent ++ pending e
  pub in_order : e.can_msg_pos ≤ e.can_msg_end
  pub few : e.can_msg_end ≤ 60

-- Sending the front of what is pending.
pending_front :
    (can_msg : List ℕ) (from to moved : ℕ)
    → moved ≤ to - from
    → from ≤ to
    → take (16 * (to - from)) (drop (16 * from) can_msg)
      ≡ take (16 * moved) (drop (16 * from) can_msg)
        ++ take (16 * (to - (from + moved))) (drop (16 * (from + moved)) can_msg)
pending_front can_msg from to moved h k =
    let left = 16 * (to - (from + moved)) in
    ap (λ (n : ℕ). take n (drop (16 * from) can_msg)) {y = 16 * moved + left} (omega arith)
    ∙ sym (take_twice (16 * moved) left (drop (16 * from) can_msg))
    ∙ ap (λ (l : List ℕ). take (16 * moved) (drop (16 * from) can_msg) ++ take left l)
        (drop_twice (16 * from) (16 * moved) can_msg
          ∙ ap (λ (n : ℕ). drop n can_msg) {y = 16 * (from + moved)} (omega arith))

-- What a round can do: leave the logs alone, send the front of what is pending, or take in messages
-- while nothing is pending.
module _ {S : Type 0} (e : Echoing (Tapped S)) (t : Tapped S) (i : Echoes e) where
  waited-Echoes :
      t.sent ≡ e.state.sent → t.received ≡ e.state.received → Echoes (record e { state = t })
  unfolding pending
  waited-Echoes same_sent same_received = record {
    accounted = same_received ∙ i.accounted ∙ ap (λ (l : List ℕ). l ++ pending e) (sym same_sent);
    in_order = i.in_order;
    few = i.few;
  }

  sent-Echoes :
      (ret : ℤ)
      → t.sent ≡ e.state.sent ++ take (16 * to_ℕ ret) (drop (16 * e.can_msg_pos) e.can_msg)
      → t.received ≡ e.state.received
      → to_ℕ ret ≤ e.can_msg_end - e.can_msg_pos
      → Echoes (record e { can_msg_pos = e.can_msg_pos + to_ℕ ret; state = t })
  unfolding pending
  sent-Echoes ret more_sent same_received few =
      let front = take (16 * to_ℕ ret) (drop (16 * e.can_msg_pos) e.can_msg) in
      let after = record e { can_msg_pos = e.can_msg_pos + to_ℕ ret; state = t } in
      record {
        accounted =
            same_received
            ∙ i.accounted
            ∙ ap (λ (l : List ℕ). e.state.sent ++ l)
                (pending_front e.can_msg e.can_msg_pos e.can_msg_end (to_ℕ ret) few i.in_order)
            ∙ sym (append_assoc e.state.sent front (pending after))
            ∙ ap (λ (l : List ℕ). l ++ pending after) (sym more_sent);
        in_order = omega (arith, i.in_order, few);
        few = i.few;
      }

  nothing_pending : ltb e.can_msg_pos e.can_msg_end ≡ false → e.state.received ≡ e.state.sent
  unfolding pending
  nothing_pending h =
      i.accounted
      ∙ ap (λ (n : ℕ). e.state.sent ++ take n (drop (16 * e.can_msg_pos) e.can_msg)) {y = 0}
          (ground (arith, i.in_order))
      ∙ append-nil e.state.sent

  idle-Echoes :
      (can_msg : List ℕ)
      → ltb e.can_msg_pos e.can_msg_end ≡ false
      → t.sent ≡ e.state.sent
      → t.received ≡ e.state.received
      → Echoes (record e { can_msg = can_msg; state = t })
  unfolding pending
  idle-Echoes can_msg h same_sent same_received = record {
    accounted =
        same_received
        ∙ nothing_pending h
        ∙ sym same_sent
        ∙ sym (append-nil t.sent)
        ∙ ap (λ (n : ℕ). t.sent ++ take n (drop (16 * e.can_msg_pos) can_msg)) {x = 0}
            (ground (arith, i.in_order));
    in_order = i.in_order;
    few = i.few;
  }

  received-Echoes :
      (can_msg : List ℕ) (ret : ℤ)
      → ltb e.can_msg_pos e.can_msg_end ≡ false
      → t.sent ≡ e.state.sent
      → t.received ≡ e.state.received ++ take (16 * to_ℕ ret) can_msg
      → to_ℕ ret ≤ 60
      → Echoes (record { can_msg = can_msg; can_msg_pos = 0; can_msg_end = to_ℕ ret; state = t })
  unfolding pending
  received-Echoes can_msg ret h same_sent more_received few = record {
    accounted =
        more_received
        ∙ ap (λ (l : List ℕ). l ++ take (16 * to_ℕ ret) can_msg) (nothing_pending h ∙ sym same_sent)
        ∙ ap (λ (k : ℕ). t.sent ++ take (16 * k) can_msg) {y = to_ℕ ret - 0} (omega arith);
    in_order = omega arith;
    few = few;
  }

module _ {S : Type 0} (b : Board S) where
  echo_round-Echoes : (e : Echoing (Tapped S)) → Echoes e → Echoes (echo_round (tapped b) e)
  unfolding echo_round pending
  echo_round-Echoes e i =
      let from = e.can_msg_pos in
      let to = e.can_msg_end in
      let msgs = drop (16 * from) e.can_msg in
      let (sent, t1) = send_can_msg_block (tapped b).bus msgs (to - from) 100 e.state in
      let (out, same_received, counted) =
        send-logs b msgs (to - from) 100 e.state (omega (arith, i.in_order, i.few)) in
      let (ret, can_msg, t2) = receive_can_msg_block (tapped b).bus e.can_msg 60 100 e.state in
      let (none_out, taken, most) = receive-logs b e.can_msg 100 e.state in
      if-cases Echoes (ltb from to)
        (λ more.
          if-cases Echoes (is_neg sent)
            (λ failed.
              waited-Echoes e (record t1 { world = b.usleep 500 t1.world }) i
                (ground (arith, out, append-nil e.state.sent)) same_received)
            (λ moved. sent-Echoes e t1 i sent out same_received counted))
        (λ all_sent.
          if-cases Echoes (is_neg ret)
            (λ failed.
              idle-Echoes e t2 i can_msg all_sent none_out
                (ground (arith, taken, append-nil e.state.received)))
            (λ read_ok.
              if-cases Echoes (eq_pos ret 0)
                (λ none.
                  idle-Echoes e (record t2 { world = b.usleep 500 t2.world }) i can_msg all_sent
                    none_out (ground (arith, taken, append-nil e.state.received)))
                (λ some. received-Echoes e t2 i can_msg ret all_sent none_out taken most)))

  echo_rounds-Echoes :
      (n : ℕ) (e : Echoing (Tapped S)) → Echoes e → Echoes (echo_rounds (tapped b) n e)
  unfolding echo_rounds
  echo_rounds-Echoes zero e i = i
  echo_rounds-Echoes (suc n) e i =
      echo_rounds-Echoes n (echo_round (tapped b) e) (echo_round-Echoes e i)

  start-Echoes :
      (s : S)
      → Echoes (record {
        can_msg = replicate 960 0;
        can_msg_pos = 0;
        can_msg_end = 0;
        state = record { world = s; sent = []; received = [] };
      })
  unfolding pending
  start-Echoes s = record { accounted = refl; in_order = omega arith; few = omega arith }

  -- `fun_loop_can_echo_test` loses no CAN message that it was given and makes up none: at every moment,
  -- whatever the registers answered, the bytes that it received from the MCU by accesses that succeeded
  -- are those that it sent back by accesses that succeeded, in their order, followed by those that are
  -- still between the two pointers of its buffer. What an access that fails loses on its way is not
  -- seen here.
  pub fun_loop_can_echo_test-Echoes :
      (n : ℕ) (s : S)
      → let e =
          fun_loop_can_echo_test (tapped b) n (record { world = s; sent = []; received = [] }) in
        e.state.received ≡ e.state.sent ++ pending e
  unfolding fun_loop_can_echo_test pending
  fun_loop_can_echo_test-Echoes n s = (echo_rounds-Echoes n _ (start-Echoes s)).accounted

-- What `fun_loop_can_echo_test` hands to `RVMcu_SendCanMsgBlock` when messages are left to send, with
-- the number that is sent.
abbrev pub sent_next : {S : Type 0} → Board S → Echoing (Tapped S) → ℤ
sent_next b e =
    (send_can_msg_block (tapped b).bus (drop (16 * e.can_msg_pos) e.can_msg)
      (e.can_msg_end - e.can_msg_pos) 100 e.state).0

module _ {S : Type 0} (b : Board S) where
  -- A round that sends brings the pointers nearer to each other.
  echo_round-sends :
      (e : Echoing (Tapped S))
      → Echoes e
      → ltb e.can_msg_pos e.can_msg_end ≡ true
      → is_positive (sent_next b e) ≡ true
      → let e1 = echo_round (tapped b) e in
        e1.can_msg_end - e1.can_msg_pos < e.can_msg_end - e.can_msg_pos
  unfolding echo_round
  echo_round-sends e i more moved = ground (arith, i.in_order, i.few)

  -- All is sent back, or nothing was sent although messages are left.
  abbrev pub SentOrStuck : Echoing (Tapped S) → Type 0
  SentOrStuck e =
      (e.state.received ≡ e.state.sent)
      ⊎ ((e.can_msg_pos < e.can_msg_end) × (is_positive (sent_next b e) ≡ false))

  all_sent_back :
      (m : ℕ) (e : Echoing (Tapped S))
      → Echoes e
      → e.can_msg_end - e.can_msg_pos ≤ m
      → (k : ℕ) × (k ≤ m) × SentOrStuck (echo_rounds (tapped b) k e)
  unfolding echo_rounds
  all_sent_back zero e i h = (0, omega arith, inl (nothing_pending e e.state i (ground (arith, h))))
  all_sent_back (suc m) e i h = elim (Bool-cases (ltb e.can_msg_pos e.can_msg_end)) [
    | inr none ↦ (0, omega arith, inl (nothing_pending e e.state i none))
    | inl more ↦ elim (Bool-cases (is_positive (sent_next b e))) [
      | inr stuck ↦ (0, omega arith, inr (ground arith, stuck))
      | inl moved ↦
          let nearer : (let e1 = echo_round (tapped b) e in e1.can_msg_end - e1.can_msg_pos) ≤ m =
            omega (arith, h, echo_round-sends e i more moved) in
          let (k, few, done) =
            all_sent_back m (echo_round (tapped b) e) (echo_round-Echoes b e i) nearer in
          (suc k, omega (arith, few), done)
    ]
  ]

  -- From whatever point, `fun_loop_can_echo_test` sends back all that it has received within 60 calls,
  -- unless one of them moves no message: at most 60 more calls reach a moment at which the bytes
  -- received and the bytes sent back are the same, or at which messages are left to send and the call
  -- that sends them returns 0 or fails. Received and sent is what went over by accesses that succeeded.
  pub fun_loop_can_echo_test-SentOrStuck :
      (n : ℕ) (s : S)
      → let e =
          fun_loop_can_echo_test (tapped b) n (record { world = s; sent = []; received = [] }) in
        (k : ℕ) × (k ≤ 60) × SentOrStuck (echo_rounds (tapped b) k e)
  unfolding fun_loop_can_echo_test
  fun_loop_can_echo_test-SentOrStuck n s =
      let i = echo_rounds-Echoes b n _ (start-Echoes b s) in
      all_sent_back 60 _ i (omega (arith, i.few))
