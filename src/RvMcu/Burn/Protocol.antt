-- ===== src/RvMcu/Burn/Protocol.antt =====
-- rearview_mcu.c: the modes that an update sends to the MCU, in their order.
use linux_uart.Base.{
  ℕ, ◌≤◌, ◌≡◌, refl, ap, ap₂, ◌∙◌, arith, Bool, false, ◌&&◌, ◌||◌, not, List, [], ◌∷◌, ◌++◌,
  append_assoc, take, ◌==◌, if◌then◌else◌, if-cases, if-elim, IfSome, Option, none, some,
}
use linux_uart.Base.Int.{ℤ, is_neg, eq_pos}
use linux_uart.RegWrCb.{write, clean, free_size}
use linux_uart.RvMcu.Burn.{
  Board, burn_firmware, burn_file, check_and_burn, finish_burn, send_file, await_verdict,
  get_burn_firmware_part, read_burn, write_burn, burn_mode, parameter, with_mode,
  burnmode_start_erase, burnmode_erase_ok, burnmode_start_burn, burnmode_finish_transfer,
  burnmode_exit_burn, burnmode_wait_burn, bfp_app_a, bfp_app_b, burn_start, cb_burn_start,
}
use linux_uart.RvMcu.Burn.Loops.{LoopsKeep, firmware_part-cases, send_file-kept, await_verdict-kept}

-- A mode sent to the MCU, with the mode that the MCU had last said it is in.
abbrev pub Sent : Type 0
Sent = ℕ × ℕ

-- The board, with a list of the modes that were sent to the MCU, also by a call that failed, and with
-- what the MCU said last: the mode in the burn register, from a read that succeeded.
abbrev pub sent_modes : {S : Type 0} → Board S → Board (S × List Sent × ℕ)
sent_modes b = record {
  bus = record {
    read_reg = λ addr buf n timeout s.
        let (r, bytes, s1) = b.bus.read_reg addr buf n timeout s.0 in
        (
          r,
          bytes,
          (s1, s.1, if addr == burn_start && not (is_neg r) then burn_mode bytes else s.2),
        );
    write_reg = λ addr bytes n timeout s.
        let (r, s1) = b.bus.write_reg addr bytes n timeout s.0 in
        (r, (s1, if addr == burn_start then s.1 ++ ((burn_mode bytes, s.2) ∷ []) else s.1, s.2));
  };
  open_rdonly = λ path s. let (r, s1) = b.open_rdonly path s.0 in (r, (s1, s.1, s.2));
  read_file = λ fd n s. let (r, bytes, s1) = b.read_file fd n s.0 in (r, bytes, (s1, s.1, s.2));
  close = λ fd s. (b.close fd s.0, s.1, s.2);
  usleep = λ us s. (b.usleep us s.0, s.1, s.2);
}

-- The modes of a whole update: erase, when the MCU said that it waits for an update, burn, when it said
-- that it has erased, finish, and exit.
abbrev pub update_modes : ℕ → ℕ → List Sent
update_modes x y =
    (burnmode_start_erase, burnmode_wait_burn)
    ∷ (burnmode_start_burn, burnmode_erase_ok)
    ∷ (burnmode_finish_transfer, x)
    ∷ (burnmode_exit_burn, y)
    ∷ []

module _ {S : Type 0} (b : Board S) where
  write-modes :
      (bytes : List ℕ) (n timeout : ℕ) (s : S × List Sent × ℕ)
      → (write (sent_modes b).bus cb_burn_start bytes n timeout s).1.1 ≡ s.1
  unfolding write free_size
  write-modes bytes n timeout s = ground arith

  clean-modes :
      (timeout : ℕ) (s : S × List Sent × ℕ)
      → (clean (sent_modes b).bus cb_burn_start timeout s).1.1 ≡ s.1
  unfolding clean
  clean-modes timeout s = ground arith

  modes_keep : (modes : List Sent) → LoopsKeep (sent_modes b) (λ s. s.1) modes
  modes_keep modes = record {
    reads = λ addr buf n timeout s e. e;
    pushes = λ bytes n timeout s e. write-modes bytes n timeout s ∙ e;
    sleeps = λ us s e. e;
    file_reads = λ fd n s e. e;
  }

  part-modes :
      (path : List ℕ) (s : S × List Sent × ℕ)
      → let s1 = (get_burn_firmware_part (sent_modes b) path s).1 in (s1.1 ≡ s.1) × (s1.2 ≡ s.2)
  part-modes path s =
      firmware_part-cases (sent_modes b) (λ s1. (s1.1 ≡ s.1) × (s1.2 ≡ s.2)) path s
        (λ _. (refl, refl)) (λ _. (refl, refl))

  -- The front of the modes of an update, after those sent before.
  abbrev Sends : List Sent → Option (ℤ × (S × List Sent × ℕ)) → Type 0
  Sends modes o =
      IfSome
        (λ r. (m : ℕ) × (x : ℕ) × (y : ℕ) × (m ≤ 4) × (r.1.1 ≡ modes ++ take m (update_modes x y)))
        o

  after_verdict-modes :
      (modes : List Sent) (x : ℕ) (fd : ℤ) (o : Option (Bool × ℤ × List ℕ × (S × List Sent × ℕ)))
      → IfSome (λ r. r.3.1 ≡ modes ++ take 3 (update_modes x 0)) o
      → Sends modes (elim o [
        | none ↦ none
        | some (answered, ret, reg1, s2) ↦
            let (_, s3) = write_burn (sent_modes b) (with_mode burnmode_exit_burn reg1) 200 s2 in
            if is_neg ret
            then some (ret, (sent_modes b).close fd s2)
            else some (ret, (sent_modes b).close fd s3)
      ])
  unfolding write_burn
  after_verdict-modes modes x fd none h = tt
  after_verdict-modes modes x fd (some (answered, ret, reg1, s2)) h =
      if-elim (Sends modes) (is_neg ret) (3, x, 0, omega arith, h)
        (
          4,
          x,
          s2.2,
          omega arith,
          ap (λ (l : List Sent). l ++ ((burnmode_exit_burn, s2.2) ∷ [])) h
              ∙ append_assoc modes (take 3 (update_modes x 0)) ((burnmode_exit_burn, s2.2) ∷ []),
        )

  finish_burn-modes :
      (fuel : ℕ) (modes : List Sent) (fd : ℤ) (reg : List ℕ) (s : S × List Sent × ℕ)
      → s.1 ≡ modes ++ take 2 (update_modes 0 0)
      → Sends modes (finish_burn (sent_modes b) fuel fd reg s)
  unfolding finish_burn write_burn
  finish_burn-modes fuel modes fd reg s h =
      let told = burnmode_finish_transfer ∷ 0 ∷ [] in
      let (_, s1) = write_burn (sent_modes b) told 500 s in
      let sent : s1.1 ≡ modes ++ take 3 (update_modes s.2 0) =
        ap (λ (l : List Sent). l ++ ((burnmode_finish_transfer, s.2) ∷ [])) h
        ∙ append_assoc modes (take 2 (update_modes 0 0)) ((burnmode_finish_transfer, s.2) ∷ []) in
      after_verdict-modes modes s.2 fd (await_verdict (sent_modes b) fuel told s1) (
        await_verdict-kept (sent_modes b) (λ s. s.1) (modes ++ take 3 (update_modes s.2 0))
          (modes_keep (modes ++ take 3 (update_modes s.2 0))) fuel told s1 sent)

  after_file-modes :
      (fuel : ℕ) (modes : List Sent) (fd : ℤ) (o : Option (Bool × ℤ × List ℕ × (S × List Sent × ℕ)))
      → IfSome (λ r. r.3.1 ≡ modes ++ take 2 (update_modes 0 0)) o
      → Sends modes (elim o [
        | none ↦ none
        | some (sent, ret1, reg1, s1) ↦
            if sent
            then finish_burn (sent_modes b) fuel fd reg1 s1
            else some (ret1, (sent_modes b).close fd s1)
      ])
  after_file-modes fuel modes fd none h = tt
  after_file-modes fuel modes fd (some (sent, ret1, reg1, s1)) h =
      if-elim (Sends modes) sent (finish_burn-modes fuel modes fd reg1 s1 h)
        (2, 0, 0, omega arith, h)

  burn_firmware-modes :
      (fuel : ℕ) (path : List ℕ) (s : S × List Sent × ℕ)
      → s.2 ≡ burnmode_wait_burn
      → Sends s.1 (burn_firmware (sent_modes b) fuel path s)
  unfolding burn_firmware burn_file read_burn write_burn
  burn_firmware-modes fuel path s waiting =
      let erase = burnmode_start_erase ∷ 0 ∷ [] in
      let (r1, s1) = write_burn (sent_modes b) erase 500 s in
      let (r2, reg, s2) = read_burn (sent_modes b) erase 5000 s1 in
      let burning = with_mode burnmode_start_burn reg in
      let (r3, s3) = write_burn (sent_modes b) burning 500 s2 in
      let (_, s4) = clean (sent_modes b).bus cb_burn_start 200 s3 in
      let (fd, s5) = (sent_modes b).open_rdonly path s4 in
      let told : s1.1 ≡ s.1 ++ take 1 (update_modes 0 0) =
        ap (λ (k : ℕ). s.1 ++ ((burnmode_start_erase, k) ∷ [])) waiting in
      let Out = Sends s.1 in
      if-elim Out (is_neg r1) (1, 0, 0, omega arith, told)
        (if-cases Out (is_neg r2) (λ _. (1, 0, 0, omega arith, told))
          λ read.
            if-cases Out (not (burn_mode reg == burnmode_erase_ok))
              (λ _. (1, 0, 0, omega arith, told))
              λ erased.
                let said : s2.2 ≡ burnmode_erase_ok = ground arith in
                let burned : s3.1 ≡ s.1 ++ take 2 (update_modes 0 0) =
                  ap₂ (λ (l : List Sent) (k : ℕ). l ++ ((burnmode_start_burn, k) ∷ [])) told said
                  ∙ append_assoc s.1 (take 1 (update_modes 0 0))
                      ((burnmode_start_burn, burnmode_erase_ok) ∷ []) in
                let cleaned : s4.1 ≡ s.1 ++ take 2 (update_modes 0 0) =
                  clean-modes 200 s3 ∙ burned in
                let modes = s.1 ++ take 2 (update_modes 0 0) in
                if-elim Out (is_neg r3) (2, 0, 0, omega arith, burned)
                  (if-elim Out (is_neg fd) (2, 0, 0, omega arith, cleaned)
                    (after_file-modes fuel s.1 fd (send_file (sent_modes b) fuel fd r3 burning s5) (
                      send_file-kept (sent_modes b) (λ s. s.1) modes (modes_keep modes) fuel fd r3
                        burning s5 cleaned))))

-- What an update sends, by what the MCU said of itself: the burn register `reg`, with the result of
-- reading it, and the partition `part` of the firmware file. `before` and `after` are the modes sent.
pub data UpdateModes (ret : ℤ) (reg : List ℕ) (part : ℤ) (before after : List Sent) : Type 0 where
  untouched : after ≡ before → UpdateModes ret reg part before after
  called_off :
      eq_pos part (parameter reg) ≡ false
      → after ≡ before ++ ((burnmode_exit_burn, burnmode_wait_burn) ∷ [])
      → UpdateModes ret reg part before after
  updated :
      (m x y : ℕ)
      → is_neg ret ≡ false
      → burn_mode reg ≡ burnmode_wait_burn
      → ((parameter reg == bfp_app_a || parameter reg == bfp_app_b)
          && not (eq_pos part (parameter reg)))
        ≡ false
      → m ≤ 4
      → after ≡ before ++ take m (update_modes x y)
      → UpdateModes ret reg part before after

module _ {S : Type 0} (b : Board S) where
  after_update :
      (ret : ℤ) (reg : List ℕ) (part : ℤ) (before modes : List Sent)
      (o : Option (ℤ × (S × List Sent × ℕ)))
      → is_neg ret ≡ false
      → burn_mode reg ≡ burnmode_wait_burn
      → ((parameter reg == bfp_app_a || parameter reg == bfp_app_b)
          && not (eq_pos part (parameter reg)))
        ≡ false
      → modes ≡ before
      → Sends b modes o
      → IfSome (λ r. UpdateModes ret reg part before r.1.1) o
  after_update ret reg part before modes none read waiting fits same h = tt
  after_update ret reg part before modes (some r) read waiting fits same (m, x, y, most, e) =
      updated m x y read waiting fits most
        (e ∙ ap (λ (l : List Sent). l ++ take m (update_modes x y)) same)

  -- An update that ends has touched the firmware of the MCU only where it may. It tells the MCU to
  -- erase only when the MCU last said that it waits for an update, and not where the MCU names one of
  -- the partitions A and B and the file is for another one; there it sends nothing but the mode that
  -- calls the update off. It tells the MCU to burn only when the MCU last said that it has erased. The
  -- modes that it sends are the front of erase, burn, finish and exit, each once and in this order. What
  -- the MCU said is what it gave by reads that succeeded.
  pub check_and_burn-UpdateModes :
      (fuel : ℕ) (path reg0 : List ℕ) (s : S × List Sent × ℕ)
      → let (ret, reg, s1) = read_burn (sent_modes b) reg0 500 s in
        let part = (get_burn_firmware_part (sent_modes b) path s1).0 in
        IfSome
          (λ r. UpdateModes ret reg part s.1 r.1.1)
          (check_and_burn (sent_modes b) fuel path reg0 s)
  unfolding check_and_burn read_burn write_burn
  check_and_burn-UpdateModes fuel path reg0 s =
      let (ret, reg, s1) = read_burn (sent_modes b) reg0 500 s in
      let (part, s2) = get_burn_firmware_part (sent_modes b) path s1 in
      let of_app = parameter reg == bfp_app_a || parameter reg == bfp_app_b in
      let fits = eq_pos part (parameter reg) in
      let (same, kept) : (s2.1 ≡ s.1) × (s2.2 ≡ s1.2) = part-modes b path s1 in
      let Ends : Option (ℤ × (S × List Sent × ℕ)) → Type 0 =
        IfSome (λ r. UpdateModes ret reg part s.1 r.1.1) in
      if-cases Ends (is_neg ret) (λ _. untouched refl)
        λ read.
          if-cases Ends (not (burn_mode reg == burnmode_wait_burn)) (λ _. untouched refl)
            λ waiting.
              let waits : burn_mode reg ≡ burnmode_wait_burn = ground arith in
              let said : s1.2 ≡ burnmode_wait_burn = ground arith in
              if-cases Ends of_app
                (λ app.
                  if-cases Ends fits
                    (λ right.
                      after_update ret reg part s.1 s2.1 _ read waits (ground arith) same
                        (burn_firmware-modes b fuel path s2 (kept ∙ said)))
                    (λ wrong. called_off wrong (
                      ap₂ (λ (l : List Sent) (k : ℕ). l ++ ((burnmode_exit_burn, k) ∷ [])) same
                        (kept ∙ said))))
                (λ boot.
                  after_update ret reg part s.1 s1.1 _ read waits (ground arith) refl
                    (burn_firmware-modes b fuel path s1 said))
