-- ===== src/RvMcu/Burn/Transfer.antt =====
-- The loops of `_BurnMcu` over the firmware file: the MCU gets the whole file, in order.
use mathlib.Core.Path.{subst}
use linux_uart.Base.{
  ℕ, zero, suc, ◌+◌, ◌%◌, ◌^◌, ◌≤◌, ◌≡◌, refl, sym, ap, ◌∙◌, arith, Bool, true, false, List, [],
  ◌∷◌, ◌++◌, append-nil, append_assoc, take, length, length-append, ◌==◌, ltb, if-cases, some, ◌-◌,
  ◌⊎◌,
}
use linux_uart.Base.Int.{ℤ, is_neg, is_positive, to_ℕ, eq_pos}
use linux_uart.RegWrCb.{write, free_size, clip}
use linux_uart.RegWrCb.Recorded.{recorded_bus, write_moves}
use linux_uart.RvMcu.Burn.Push.{
  finish, push_block-nil, push_block-cons, ReadsReturnZero, push_block_fuel, push_block_result,
}
use linux_uart.RvMcu.Burn.{
  Board, Pushing, Round, again, over, retry_or_give_up, check_burn, push_round, push_block,
  send_file, read_burn, cb_burn_start, burn_mode, burnmode_burn_error, burn_particle_size,
}

-- The board, with a list of the bytes that were written into the ring buffer of the update.
abbrev pub recorded : {S : Type 0} → Board S → Board (S × List ℕ)
recorded b = record {
  bus = recorded_bus 0x1405 b.bus;
  open_rdonly = λ path s. let (r, s1) = b.open_rdonly path s.0 in (r, (s1, s.1));
  read_file = λ fd n s. let (r, bytes, s1) = b.read_file fd n s.0 in (r, bytes, (s1, s.1));
  close = λ fd s. (b.close fd s.0, s.1);
  usleep = λ us s. (b.usleep us s.0, s.1);
}

-- `left` is what is still to be read of the file: read(2) gives its front, and nothing only at its
-- end, and the registers leave the file alone.
pub record FileReads {S : Type 0} (b : Board S) (fd : ℤ) (left : S → List ℕ) : Type 0 where
  pub front :
      (n : ℕ) (s : S)
      → let (r, block, s1) = b.read_file fd n s in
        is_positive r ≡ true
        → (left s ≡ take (to_ℕ r) block ++ left s1) × (length (take (to_ℕ r) block) ≡ to_ℕ r)
  pub at_end : (n : ℕ) (s : S) → is_positive (b.read_file fd n s).0 ≡ false → left s ≡ []
  pub bus_read :
      (addr : ℕ) (buf : List ℕ) (n timeout : ℕ) (s : S)
      → left (b.bus.read_reg addr buf n timeout s).2 ≡ left s
  pub bus_write :
      (addr : ℕ) (bytes : List ℕ) (n timeout : ℕ) (s : S)
      → left (b.bus.write_reg addr bytes n timeout s).1 ≡ left s

-- A block that was read leaves less of the file.
shorter :
    (all block rest rest1 : List ℕ) (r : ℤ) (fuel : ℕ)
    → all ≡ block ++ rest
    → length block ≡ to_ℕ r
    → rest1 ≡ rest
    → is_positive r ≡ true
    → length all + 1 ≤ suc fuel
    → length rest1 + 1 ≤ fuel
shorter all block rest rest1 r fuel e size same more h =
    rw same (omega (arith, ap length e, length-append block rest, at_least_one r more))
  where
    at_least_one : (z : ℤ) → is_positive z ≡ true → 1 ≤ to_ℕ z
    at_least_one z p = ground arith

length_zero : (xs : List ℕ) → ltb 0 (length xs) ≡ false → xs ≡ []
length_zero [] h = refl
length_zero (x ∷ xs) h = ground arith

module _ {S : Type 0} (b : Board S) (left : S → List ℕ)
    (bus_read : (addr : ℕ) (buf : List ℕ) (n timeout : ℕ) (s : S)
      → left (b.bus.read_reg addr buf n timeout s).2 ≡ left s)
    (bus_write : (addr : ℕ) (bytes : List ℕ) (n timeout : ℕ) (s : S)
      → left (b.bus.write_reg addr bytes n timeout s).1 ≡ left s) where
  free_size-left :
      (timeout : ℕ) (s : S × List ℕ)
      → left (free_size (recorded_bus 0x1405 b.bus) cb_burn_start timeout s).1.0 ≡ left s.0
  unfolding free_size
  free_size-left timeout s = ground (arith, bus_read 0x1403 (0 ∷ 0 ∷ 0 ∷ 0 ∷ []) 4 timeout s.0)

  write-left :
      (bytes : List ℕ) (n timeout : ℕ) (s : S × List ℕ)
      → left (write (recorded_bus 0x1405 b.bus) cb_burn_start bytes n timeout s).1.0 ≡ left s.0
  unfolding write
  write-left bytes n timeout s =
      let (ret, s1) = free_size (recorded_bus 0x1405 b.bus) cb_burn_start timeout s in
      ground (
        arith,
        free_size-left timeout s,
        bus_write 0x1405 bytes (clip (n % 2 ^ 16) (to_ℕ ret)) timeout s1.0,
      )

  -- The bytes handed over and those left of the block make up `total`, and `rest` is left of the file.
  abbrev Holds : List ℕ → List ℕ → Pushing (S × List ℕ) → Type 0
  Holds total rest p = (p.state.1 ++ p.bytes ≡ total) × (left p.state.0 ≡ rest)

  abbrev HoldsAfter : List ℕ → List ℕ → Round (Pushing (S × List ℕ)) → Type 0
  HoldsAfter total rest (again p) = Holds total rest p
  HoldsAfter total rest (over p) = Holds total rest p

  give_up-Holds :
      (total rest : List ℕ) (p : Pushing (S × List ℕ))
      → Holds total rest p
      → HoldsAfter total rest (retry_or_give_up p)
  give_up-Holds total rest p h = if-cases (HoldsAfter total rest) (ltb 5 p.retry) (λ _. h) (λ _. h)

  check_burn-Holds :
      (total rest : List ℕ) (p : Pushing (S × List ℕ))
      → Holds total rest p
      → HoldsAfter total rest (check_burn (recorded b) p)
  unfolding check_burn read_burn
  check_burn-Holds total rest p h =
      let (r, reg, s) = read_burn (recorded b) p.reg 500 p.state in
      let p1 = record p { ret = r; reg = reg; state = s } in
      let h1 : Holds total rest p1 = (h.0, bus_read 0x1400 p.reg 2 500 p.state.0 ∙ h.1) in
      if-cases (HoldsAfter total rest) (is_neg r) (λ _. h1)
        λ _.
          if-cases (HoldsAfter total rest) (burn_mode reg == burnmode_burn_error) (λ _. h1)
            λ _. give_up-Holds total rest p1 h1

  push_round-Holds :
      (total rest : List ℕ) (p : Pushing (S × List ℕ))
      → Holds total rest p
      → HoldsAfter total rest (push_round (recorded b) p)
  unfolding push_round
  push_round-Holds total rest p h =
      let (w, s) =
        write (recorded_bus 0x1405 b.bus) cb_burn_start p.bytes (length p.bytes) 200 p.state in
      let p1 = record p { ret = w; state = s } in
      let moved = write_moves b.bus cb_burn_start p.bytes 200 p.state in
      let kept = write-left p.bytes (length p.bytes) 200 p.state in
      let h1 : is_positive w ≡ false → Holds total rest p1 = λ none_sent. ground arith in
      if-cases (HoldsAfter total rest) (is_positive w) (λ _. (moved ∙ h.0, kept ∙ h.1))
        λ none_sent.
          if-cases (HoldsAfter total rest) (eq_pos w 0)
            (λ _. check_burn-Holds total rest p1 (h1 none_sent))
            (λ _. give_up-Holds total rest p1 (h1 none_sent))

  after_round :
      (total rest : List ℕ) (f : ℕ) (r : Round (Pushing (S × List ℕ)))
      → HoldsAfter total rest r
      → ((q : Pushing (S × List ℕ))
          → Holds total rest q
          → Holds total rest (push_block (recorded b) f q))
      → Holds total rest (finish (recorded b) f r)
  after_round total rest f (again q) h holds = holds q h
  after_round total rest f (over q) h holds = h

  push_block-Holds :
      (total rest : List ℕ) (f : ℕ) (p : Pushing (S × List ℕ)) (bytes : List ℕ)
      → p.bytes ≡ bytes
      → Holds total rest p
      → Holds total rest (push_block (recorded b) f p)
  push_block-Holds total rest f p [] e h =
      subst (Holds total rest) (sym (push_block-nil (recorded b) f p e)) h
  push_block-Holds total rest zero p (x ∷ xs) e h = unfold push_block in h
  push_block-Holds total rest (suc f) p (x ∷ xs) e h =
      subst (Holds total rest) (sym (push_block-cons (recorded b) f p x xs e)) (
        after_round total rest f (push_round (recorded b) p) (push_round-Holds total rest p h)
          (λ q h'. push_block-Holds total rest f q q.bytes refl h'))

module _ {S : Type 0} (b : Board S) where
  -- What the loop of `_BurnMcu` over a block does with it: the bytes that writes which succeeded put
  -- into the ring buffer of the MCU, followed by those it leaves, are those that were put there before
  -- and the block, in order; and either it leaves none, or it stops with a value of `ret` that is not
  -- positive. Fuel is given for one round for each byte and one for each of the seven tries. Reads of
  -- the burn register return 0 or fail.
  pub push_block_outcome :
      (zero_reads : ReadsReturnZero (recorded b)) (f : ℕ) (p : Pushing (S × List ℕ))
      → length p.bytes + (7 - p.retry) ≤ f
      → let q = push_block (recorded b) f p in
        (q.state.1 ++ q.bytes ≡ p.state.1 ++ p.bytes)
        × ((q.bytes ≡ []) ⊎ (is_positive q.ret ≡ false))
  push_block_outcome zero_reads f p h = (
    (push_block-Holds b (λ _. []) (λ addr buf n timeout s. refl) (λ addr bytes n timeout s. refl)
        (p.state.1 ++ p.bytes) [] f p p.bytes refl (refl, refl)).0,
    push_block_result (recorded b) zero_reads f p h,
  )

module _ {S : Type 0} (b : Board S) (fd : ℤ) (left : S → List ℕ) (file : FileReads b fd left) where
  -- A transfer that ends by itself, and not through an error, has written the whole rest of the file
  -- into the ring buffer of the MCU by the writes that succeeded, every byte once and in order, with
  -- whatever errors in between: the bytes of a write that fails are taken as not written, and sent
  -- again. Read(2) gives the file piece by piece and fails nowhere.
  pub send_file-transfers :
      (fuel : ℕ) (ret : ℤ) (reg : List ℕ) (s : S) (log : List ℕ) (ret1 : ℤ) (reg1 : List ℕ) (s1 : S)
      (log1 : List ℕ)
      → send_file (recorded b) fuel fd ret reg (s, log) ≡ some (true, ret1, reg1, (s1, log1))
      → log1 ≡ log ++ left s
  unfolding send_file
  send_file-transfers zero ret reg s log ret1 reg1 s1 log1 e = ground arith
  send_file-transfers (suc fuel) ret reg s log ret1 reg1 s1 log1 e =
      let (r_len, block, t) = (recorded b).read_file fd burn_particle_size (s, log) in
      let start : Pushing (S × List ℕ) = record {
        bytes = take (to_ℕ r_len) block;
        retry = 0;
        ret = ret;
        reg = reg;
        state = t;
      } in
      let p = push_block (recorded b) (length start.bytes + 7) start in
      let moved =
        push_block-Holds b left file.bus_read file.bus_write (log ++ start.bytes) (left t.0)
          (length start.bytes + 7) start start.bytes refl (refl, refl) in
      ground (
        arith,
        file.front burn_particle_size s,
        file.at_end burn_particle_size s,
        append-nil log,
        append-nil p.state.1,
        append_assoc log start.bytes (left t.0),
        length_zero p.bytes,
        moved,
        send_file-transfers fuel p.ret p.reg p.state.0 p.state.1 ret1 reg1 s1 log1,
      )

  send_file-returns :
      (fuel : ℕ) (ret : ℤ) (reg : List ℕ) (s : S) (log : List ℕ)
      → length (left s) + 1 ≤ fuel
      → (r : Bool × ℤ × List ℕ × (S × List ℕ)) × (send_file (recorded b) fuel fd ret reg (s, log)
          ≡ some r)
  unfolding send_file
  send_file-returns zero ret reg s log h = absurd (omega arith)
  send_file-returns (suc fuel) ret reg s log h =
      let (r_len, block, t) = (recorded b).read_file fd burn_particle_size (s, log) in
      let start : Pushing (S × List ℕ) = record {
        bytes = take (to_ℕ r_len) block;
        retry = 0;
        ret = ret;
        reg = reg;
        state = t;
      } in
      let p = push_block (recorded b) (length start.bytes + 7) start in
      let moved =
        push_block-Holds b left file.bus_read file.bus_write (log ++ start.bytes) (left t.0)
          (length start.bytes + 7) start start.bytes refl (refl, refl) in
      if-cases (λ r. (x : Bool × ℤ × List ℕ × (S × List ℕ)) × (r ≡ some x)) (is_positive r_len)
        (λ more.
          if-cases (λ r. (x : Bool × ℤ × List ℕ × (S × List ℕ)) × (r ≡ some x))
            (ltb 0 (length p.bytes)) (λ _. ((false, p.ret, p.reg, p.state), refl))
            (λ _. send_file-returns fuel p.ret p.reg p.state.0 p.state.1 (
              shorter (left s) start.bytes (left t.0) (left p.state.0) r_len fuel
                (file.front burn_particle_size s more).0 (file.front burn_particle_size s more).1
                moved.1 more h)))
        (λ _. ((true, ret, reg, t), refl))

  -- The transfer ends. The loop over the blocks returns within as many rounds as the rest of the file
  -- has bytes, and one more. The loop over a block ends by itself within a round for each of its bytes
  -- and seven more: whatever block `p` it is started with, more fuel than this changes nothing. Reads
  -- of the burn register return 0 or fail.
  pub send_file-ends :
      (zero_reads : ReadsReturnZero (recorded b)) (fuel more : ℕ) (ret : ℤ) (reg : List ℕ) (s : S)
      (log : List ℕ) (p : Pushing (S × List ℕ))
      → length (left s) + 1 ≤ fuel
      → ((r : Bool × ℤ × List ℕ × (S × List ℕ)) × (send_file (recorded b) fuel fd ret reg (s, log)
            ≡ some r))
        × (push_block (recorded b) (length p.bytes + 7) p
            ≡ push_block (recorded b) (length p.bytes + 7 + more) p)
  send_file-ends zero_reads fuel more ret reg s log p h = (
    send_file-returns fuel ret reg s log h,
    push_block_fuel (recorded b) zero_reads (length p.bytes + 7) (length p.bytes + 7 + more) p
        (omega arith) (omega arith),
  )
