-- ===== src/RvMcu/Burn/Push.antt =====
-- The loop of `_BurnMcu` over one block of the firmware: it ends, and it transfers in order.
use linux_uart.Base.{
  ℕ, zero, suc, ◌+◌, ◌-◌, ◌≤◌, ◌≡◌, ◌⊎◌, inl, inr, refl, sym, ap, ◌∙◌, arith, true, false, List, [],
  ◌∷◌, length, length-drop, ◌==◌, ltb, if-cases,
}
use linux_uart.Base.Int.{ℤ, is_neg, is_positive, to_ℕ, eq_pos, neg}
use linux_uart.RegWrCb.{write}
use linux_uart.RvMcu.Burn.{
  Board, Pushing, Round, again, over, retry_or_give_up, check_burn, push_round, push_block,
  read_burn, cb_burn_start, burn_mode, burnmode_burn_error, parameter,
}

-- The rounds that are left at most: one for each byte, and one for each try.
abbrev rounds_left : {S : Type 0} → Pushing S → ℕ
rounds_left p = length p.bytes + (7 - p.retry)

-- What one round does: it comes nearer to the end, or ends the loop with a value that is not positive.
abbrev Progress : {S : Type 0} → Pushing S → Round (Pushing S) → Type 0
Progress p (again q) = rounds_left q + 1 ≤ rounds_left p
Progress p (over q) = is_positive q.ret ≡ false

retry_or_give_up-Progress :
    {S : Type 0} (p q : Pushing S)
    → q.bytes ≡ p.bytes
    → q.retry ≡ p.retry
    → is_positive q.ret ≡ false
    → Progress p (retry_or_give_up q)
retry_or_give_up-Progress p q e f g =
    if-cases (Progress p) (ltb 5 q.retry) (λ _. g)
      (λ few. omega (arith, ap length e, f, test-false few))
  where
    test-false : ltb 5 q.retry ≡ false → q.retry ≤ 5
    test-false h = ground arith

is_positive-neg : (n : ℕ) → is_positive (neg n) ≡ false
is_positive-neg zero = refl
is_positive-neg (suc n) = refl

not_positive : (z : ℤ) → is_neg z ≡ true → is_positive z ≡ false
not_positive z h = ground arith

zero_not_positive : (z : ℤ) → eq_pos z 0 ≡ true → is_positive z ≡ false
zero_not_positive z h = ground arith

module _ {S : Type 0} (b : Board S) where
  -- What is left of the loop, when a round is known.
  abbrev pub finish : ℕ → Round (Pushing S) → Pushing S
  finish fuel (again q) = push_block b fuel q
  finish fuel (over q) = q

  pub push_block-nil : (f : ℕ) (p : Pushing S) → p.bytes ≡ [] → push_block b f p ≡ p
  unfolding push_block
  push_block-nil zero p e = refl
  push_block-nil (suc f) p e = rw e refl

  pub push_block-cons :
      (f : ℕ) (p : Pushing S) (x : ℕ) (xs : List ℕ)
      → p.bytes ≡ x ∷ xs
      → push_block b (suc f) p ≡ finish f (push_round b p)
  unfolding push_block
  push_block-cons f p x xs e = rw e refl

-- A read of the burn register returns 0 or fails, as `read_reg` is documented.
abbrev pub ReadsReturnZero : {S : Type 0} → Board S → Type 0
ReadsReturnZero b =
    (reg : List ℕ) (timeout : ℕ) (s : _) → is_positive (read_burn b reg timeout s).0 ≡ false

module _ {S : Type 0} (b : Board S) (zero_reads : ReadsReturnZero b) where
  check_burn-Progress :
      (p q : Pushing S) → q.bytes ≡ p.bytes → q.retry ≡ p.retry → Progress p (check_burn b q)
  unfolding check_burn
  check_burn-Progress p q e f =
      let (r, reg, s) = read_burn b q.reg 500 q.state in
      let q1 = record q { ret = r; reg = reg; state = s } in
      if-cases (Progress p) (is_neg r) (not_positive r) λ read_ok.
        if-cases (Progress p) (burn_mode reg == burnmode_burn_error)
          (λ _. is_positive-neg (parameter reg))
          λ _. retry_or_give_up-Progress p q1 e f (zero_reads q.reg 500 q.state)

  push_round-Progress :
      (p : Pushing S) (x : ℕ) (xs : List ℕ) → p.bytes ≡ x ∷ xs → Progress p (push_round b p)
  unfolding push_round
  push_round-Progress p x xs e =
      let (w, s) = write b.bus cb_burn_start p.bytes (length p.bytes) 200 p.state in
      let p1 = record p { ret = w; state = s } in
      if-cases (Progress p) (is_positive w)
        (λ some_sent. ground (arith, length-drop (to_ℕ w) p.bytes, ap length e))
        λ none_sent.
          if-cases (Progress p) (eq_pos w 0) (λ _. check_burn-Progress p p1 refl refl)
            (λ _. retry_or_give_up-Progress p p1 refl refl none_sent)

  finish_fuel :
      (f g : ℕ) (p : Pushing S) (r : Round (Pushing S))
      → Progress p r
      → rounds_left p ≤ suc f
      → rounds_left p ≤ suc g
      → ((q : Pushing S)
          → rounds_left q ≤ f
          → rounds_left q ≤ g
          → push_block b f q ≡ push_block b g q)
      → finish b f r ≡ finish b g r
  finish_fuel f g p (again q) nearer h k same = same q (omega arith) (omega arith)
  finish_fuel f g p (over q) ended h k same = refl

  enough_rounds :
      (f g : ℕ) (p : Pushing S) (bytes : List ℕ)
      → p.bytes ≡ bytes
      → rounds_left p ≤ f
      → rounds_left p ≤ g
      → push_block b f p ≡ push_block b g p
  enough_rounds f g p [] e h k = push_block-nil b f p e ∙ sym (push_block-nil b g p e)
  enough_rounds zero g p (x ∷ xs) e h k = absurd (omega (arith, ap length e))
  enough_rounds (suc f) zero p (x ∷ xs) e h k = absurd (omega (arith, ap length e))
  enough_rounds (suc f) (suc g) p (x ∷ xs) e h k =
      push_block-cons b f p x xs e
      ∙ finish_fuel f g p (push_round b p) (push_round-Progress p x xs e) h k
          (λ q h' k'. enough_rounds f g q q.bytes refl h' k')
      ∙ sym (push_block-cons b g p x xs e)

  -- The loop over a block ends: with fuel for one round for each byte and one for each of the seven
  -- tries, more fuel changes nothing. Reads of the burn register return 0 or fail.
  pub push_block_fuel :
      (f g : ℕ) (p : Pushing S)
      → length p.bytes + (7 - p.retry) ≤ f
      → length p.bytes + (7 - p.retry) ≤ g
      → push_block b f p ≡ push_block b g p
  push_block_fuel f g p h k = enough_rounds f g p p.bytes refl h k

  finish_result :
      (f : ℕ) (p : Pushing S) (r : Round (Pushing S))
      → Progress p r
      → rounds_left p ≤ suc f
      → ((q : Pushing S)
          → rounds_left q ≤ f
          → ((push_block b f q).bytes ≡ []) ⊎ (is_positive (push_block b f q).ret ≡ false))
      → ((finish b f r).bytes ≡ []) ⊎ (is_positive (finish b f r).ret ≡ false)
  finish_result f p (again q) nearer h holds = holds q (omega arith)
  finish_result f p (over q) ended h holds = inr ended

  block_result :
      (f : ℕ) (p : Pushing S) (bytes : List ℕ)
      → p.bytes ≡ bytes
      → rounds_left p ≤ f
      → ((push_block b f p).bytes ≡ []) ⊎ (is_positive (push_block b f p).ret ≡ false)
  block_result f p [] e h = rw (push_block-nil b f p e) (inl e)
  block_result zero p (x ∷ xs) e h = absurd (omega (arith, ap length e))
  block_result (suc f) p (x ∷ xs) e h = rw (push_block-cons b f p x xs e) (
      finish_result f p (push_round b p) (push_round-Progress p x xs e) h
        (λ q h'. block_result f q q.bytes refl h'))

  -- With that fuel, the loop either leaves no byte of the block, or stops with a value of `ret` that is
  -- not positive. Reads of the burn register return 0 or fail.
  pub push_block_result :
      (f : ℕ) (p : Pushing S)
      → length p.bytes + (7 - p.retry) ≤ f
      → let q = push_block b f p in (q.bytes ≡ []) ⊎ (is_positive q.ret ≡ false)
  push_block_result f p h = block_result f p p.bytes refl h
