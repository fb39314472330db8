-- ===== src/RvMcu/Burn/Keeps.antt =====
-- rearview_mcu.c: an update closes the files that it opens, and leaves the rest of the machine as
-- every access of a register leaves it.
use linux_uart.Base.{
  ℕ, ◌≡◌, Bool, true, false, ◌||◌, not, List, [], ◌∷◌, take, drop, replicate, ◌==◌, if◌then◌else◌,
  if-cases, if-elim, IfSome, Option, none, some,
}
use linux_uart.Base.Int.{ℤ, is_neg, eq_pos}
use linux_uart.MemCtrl.{mem_val}
use linux_uart.RegWrCb.{clean}
use linux_uart.RvMcu.Keeps.{BusKeeps, write-kept, clean-kept}
use linux_uart.RvMcu.Burn.{
  Board, send_file, await_verdict, finish_burn, burn_file, burn_firmware, check_and_burn, burn_mcu,
  await_boot, force_burn_mcu, get_burn_firmware_part, read_burn, write_burn, burn_start,
  cb_burn_start, burn_mode, parameter, with_mode, burnmode_finish_transfer, burnmode_exit_burn,
  burnmode_start_erase, burnmode_start_burn, burnmode_erase_ok, burnmode_wait_burn, bfp_app_a,
  bfp_app_b, burnmode_app_goto_bootloader,
}
use linux_uart.RvMcu.Burn.Loops.{
  LoopsKeep, firmware_part-cases, send_file-kept, await_verdict-kept, await_boot-kept,
}

-- The part of a state that `view` shows is `at fds` while the descriptors `fds` are open: accesses of
-- registers, reads of a file and pauses leave it, and opening and closing a file change the
-- descriptors.
pub record BoardKeeps {S V : Type 0} (b : Board S) (view : S → V) (at : List ℤ → V) : Type 0 where
  pub on_bus : (fds : List ℤ) → BusKeeps b.bus view (at fds)
  pub sleeps : (fds : List ℤ) (us : ℕ) (s : S) → view s ≡ at fds → view (b.usleep us s) ≡ at fds
  pub file_reads :
      (fds : List ℤ) (fd : ℤ) (n : ℕ) (s : S)
      → view s ≡ at fds
      → view (b.read_file fd n s).2 ≡ at fds
  pub open_fails :
      (fds : List ℤ) (path : List ℕ) (s : S)
      → view s ≡ at fds
      → is_neg (b.open_rdonly path s).0 ≡ true
      → view (b.open_rdonly path s).1 ≡ at fds
  pub opens :
      (fds : List ℤ) (path : List ℕ) (s : S)
      → view s ≡ at fds
      → is_neg (b.open_rdonly path s).0 ≡ false
      → view (b.open_rdonly path s).1 ≡ at ((b.open_rdonly path s).0 ∷ fds)
  pub closes :
      (fds : List ℤ) (fd : ℤ) (s : S) → view s ≡ at (fd ∷ fds) → view (b.close fd s) ≡ at fds

module _ {S V : Type 0} (b : Board S) (view : S → V) (at : List ℤ → V) (k : BoardKeeps b view at)
    (fds : List ℤ) where
  loops_keep : LoopsKeep b view (at fds)
  loops_keep = record {
    reads = (k.on_bus fds).reads;
    pushes = write-kept b.bus view (at fds) (k.on_bus fds) cb_burn_start;
    sleeps = k.sleeps fds;
    file_reads = k.file_reads fds;
  }

module _ {S V : Type 0} (b : Board S) (view : S → V) (at : List ℤ → V) (k : BoardKeeps b view at)
    (fds : List ℤ) where
  -- From here on the file is open and is closed.
  abbrev Closed : Option (ℤ × S) → Type 0
  Closed r = IfSome (λ x. view x.1 ≡ at fds) r

  after_verdict-kept :
      (fd : ℤ) (o : Option (Bool × ℤ × List ℕ × S))
      → IfSome (λ r. view r.3 ≡ at (fd ∷ fds)) o
      → Closed (elim o [
        | none ↦ none
        | some (answered, ret, reg1, s2) ↦
            let (_, s3) = write_burn b (with_mode burnmode_exit_burn reg1) 200 s2 in
            if is_neg ret then some (ret, b.close fd s2) else some (ret, b.close fd s3)
      ])
  unfolding write_burn
  after_verdict-kept fd none h = tt
  after_verdict-kept fd (some (answered, ret, reg1, s2)) h =
      let exit_reg = with_mode burnmode_exit_burn reg1 in
      if-elim Closed (is_neg ret) (k.closes fds fd s2 h)
        (k.closes fds fd _ ((k.on_bus (fd ∷ fds)).writes burn_start exit_reg 1 200 s2 h))

  finish_burn-kept :
      (fuel : ℕ) (fd : ℤ) (reg : List ℕ) (s : S)
      → view s ≡ at (fd ∷ fds)
      → Closed (finish_burn b fuel fd reg s)
  unfolding finish_burn write_burn
  finish_burn-kept fuel fd reg s h =
      let told = burnmode_finish_transfer ∷ 0 ∷ [] in
      let on_bus = k.on_bus (fd ∷ fds) in
      let (_, s1) = write_burn b told 500 s in
      after_verdict-kept fd (await_verdict b fuel told s1) (
        await_verdict-kept b view (at (fd ∷ fds)) (loops_keep b view at k (fd ∷ fds)) fuel told s1
          (on_bus.writes burn_start told 1 500 s h))

  after_file-kept :
      (fuel : ℕ) (fd : ℤ) (o : Option (Bool × ℤ × List ℕ × S))
      → IfSome (λ r. view r.3 ≡ at (fd ∷ fds)) o
      → Closed (elim o [
        | none ↦ none
        | some (sent, ret1, reg1, s1) ↦
            if sent then finish_burn b fuel fd reg1 s1 else some (ret1, b.close fd s1)
      ])
  after_file-kept fuel fd none h = tt
  after_file-kept fuel fd (some (sent, ret1, reg1, s1)) h =
      if-elim Closed sent (finish_burn-kept fuel fd reg1 s1 h) (k.closes fds fd s1 h)

module _ {S V : Type 0} (b : Board S) (view : S → V) (at : List ℤ → V) (k : BoardKeeps b view at)
    (fds : List ℤ) where
  abbrev Ends : Option (ℤ × S) → Type 0
  Ends r = IfSome (λ x. view x.1 ≡ at fds) r

  burn_firmware-kept :
      (fuel : ℕ) (path : List ℕ) (s : S) → view s ≡ at fds → Ends (burn_firmware b fuel path s)
  unfolding burn_firmware burn_file read_burn write_burn
  burn_firmware-kept fuel path s h =
      let on_bus = k.on_bus fds in
      let (r1, s1) = write_burn b (burnmode_start_erase ∷ 0 ∷ []) 500 s in
      let h1 = on_bus.writes burn_start (burnmode_start_erase ∷ 0 ∷ []) 1 500 s h in
      let (r2, reg, s2) = read_burn b (burnmode_start_erase ∷ 0 ∷ []) 5000 s1 in
      let h2 = on_bus.reads burn_start (burnmode_start_erase ∷ 0 ∷ []) 2 5000 s1 h1 in
      let burning = with_mode burnmode_start_burn reg in
      let (r3, s3) = write_burn b burning 500 s2 in
      let h3 = on_bus.writes burn_start burning 1 500 s2 h2 in
      let (_, s4) = clean b.bus cb_burn_start 200 s3 in
      let h4 = clean-kept b.bus view (at fds) on_bus cb_burn_start 200 s3 h3 in
      let (fd, s5) = b.open_rdonly path s4 in
      if-elim Ends (is_neg r1) h1 (
        if-elim Ends (is_neg r2) h2 (
          if-elim Ends (not (burn_mode reg == burnmode_erase_ok)) h2 (
            if-elim Ends (is_neg r3) h3 (
              if-cases Ends (is_neg fd) (k.open_fails fds path s4 h4) λ opened.
                after_file-kept b view at k fds fuel fd (send_file b fuel fd r3 burning s5) (
                  send_file-kept b view (at (fd ∷ fds)) (loops_keep b view at k (fd ∷ fds)) fuel fd
                    r3 burning s5 (k.opens fds path s4 h4 opened))))))

  firmware_part-kept :
      (path : List ℕ) (s : S) → view s ≡ at fds → view (get_burn_firmware_part b path s).1 ≡ at fds
  firmware_part-kept path s h =
      let (fd, s1) = b.open_rdonly path s in
      let (_, _, s2) = b.read_file fd 0x1000 s1 in
      firmware_part-cases b (λ s1. view s1 ≡ at fds) path s (k.open_fails fds path s h)
        λ opened.
          k.closes fds fd s2 (k.file_reads (fd ∷ fds) fd 0x1000 s1 (k.opens fds path s h opened))

  check_and_burn-kept :
      (fuel : ℕ) (path reg0 : List ℕ) (s : S)
      → view s ≡ at fds
      → Ends (check_and_burn b fuel path reg0 s)
  unfolding check_and_burn read_burn write_burn
  check_and_burn-kept fuel path reg0 s h =
      let on_bus = k.on_bus fds in
      let (ret, reg, s1) = read_burn b reg0 500 s in
      let h1 = on_bus.reads burn_start reg0 2 500 s h in
      let (part, s2) = get_burn_firmware_part b path s1 in
      let h2 = firmware_part-kept path s1 h1 in
      let of_app = parameter reg == bfp_app_a || parameter reg == bfp_app_b in
      let h3 = on_bus.writes burn_start (with_mode burnmode_exit_burn reg) 1 500 s2 h2 in
      if-elim Ends (is_neg ret) h1 (
        if-elim Ends (not (burn_mode reg == burnmode_wait_burn)) h1 (
          if-elim Ends of_app
            (if-elim Ends (eq_pos part (parameter reg)) (burn_firmware-kept fuel path s2 h2) h3)
            (burn_firmware-kept fuel path s1 h1)))

  -- The update ends with the descriptors that were open before.
  pub burn_mcu-kept :
      (fuel : ℕ) (path : List ℕ) (s : S) → view s ≡ at fds → Ends (burn_mcu b fuel path s)
  unfolding burn_mcu write_burn
  burn_mcu-kept fuel path s h =
      let on_bus = k.on_bus fds in
      let (r1, info, s1) = b.bus.read_reg 0 (replicate 88 0) 88 200 s in
      let h1 = on_bus.reads 0 (replicate 88 0) 88 200 s h in
      let told = burnmode_app_goto_bootloader ∷ 0 ∷ [] in
      let (r2, s2) = write_burn b told 200 s1 in
      let h2 = on_bus.writes burn_start told 1 200 s1 h1 in
      if-elim Ends (is_neg r1) h1 (
        if-elim Ends (mem_val (take 4 (drop 36 info)) == 0)
          (check_and_burn-kept fuel path (0 ∷ 0 ∷ []) s1 h1)
          (if-elim Ends (is_neg r2) h2
            (check_and_burn-kept fuel path told (b.usleep 400000 s2) (k.sleeps fds 400000 s2 h2))))

  after_boot-kept :
      (fuel : ℕ) (path : List ℕ) (o : Option S)
      → IfSome (λ s1. view s1 ≡ at fds) o
      → Ends (elim o [ none ↦ none | some s1 ↦ check_and_burn b fuel path (0 ∷ 0 ∷ []) s1 ])
  after_boot-kept fuel path none h = tt
  after_boot-kept fuel path (some s1) h = check_and_burn-kept fuel path (0 ∷ 0 ∷ []) s1 h

  pub force_burn_mcu-kept :
      (fuel : ℕ) (path : List ℕ) (s : S) → view s ≡ at fds → Ends (force_burn_mcu b fuel path s)
  unfolding force_burn_mcu
  force_burn_mcu-kept fuel path s h =
      after_boot-kept fuel path (await_boot b fuel (replicate 88 0) s)
        (await_boot-kept b view (at fds) (loops_keep b view at k fds) fuel (replicate 88 0) s h)
