-- ===== src/Run/Dispatch/Keeps.antt =====
-- run.c: every command leaves as it is what every access of a register leaves as it is, and closes
-- the files that it opens.
use linux_uart.Base.{
  ℕ, zero, suc, ◌+◌, ◌%◌, ◌^◌, ◌≡◌, arith, Bool, List, [], ◌∷◌, replicate, if◌then◌else◌, if-elim,
  IfSome, Option, none, some,
}
use linux_uart.Base.Int.{ℤ, pos, signed32}
use linux_uart.MemCtrl.{mem_bytes, mem_val}
use linux_uart.RegWrCb.{RegWrCbHandle}
use linux_uart.RvMcu.{
  wdog_feed, read_mpu_dtc, write_mpu_dtc, send_can_msg, cb_send_can_start, can_msg_size, mcu_reset,
  set_mcu_dbg_level, shanqi_production_date, get_rearview_type,
}
use linux_uart.RvMcu.Keeps.{
  BusKeeps, gran_write-kept, wdog_feed-kept, wdog_config-kept, clean_nvm-kept,
  get_rearview_type-kept,
}
use linux_uart.RvMcu.Burn.{Board}
use linux_uart.RvMcu.Burn.Keeps.{BoardKeeps, burn_mcu-kept, force_burn_mcu-kept}
use linux_uart.Run.{
  make_data, run_test_loop, fun_wr, fun_set_or_clean_mpu_dtc, fun_send_can_msg, fun_setting_wdog,
  fun_goto_bootloader, fun_exit_bootloader, can_msg, change_dtc,
}
use linux_uart.Run.Config.{
  RunFun, RunConfig, mpu_online, run_rw, show_mcu_info, update, force_update, read_can_event,
  look_mpu_dtc, set_or_clean_mpu_dtc, run_send_can_msg, loop_receive_can_msg, setting_wdog,
  reset_mcu, set_rearview_type, set_mcu_debug_level, exit_bootloader, goto_bootloader, clean_nvm,
  can_echo_test, write_shanqi_production_date,
}
use linux_uart.Run.Events.{fun_show_mcu_can_event, valid_max_event}
use linux_uart.Run.Show.{fun_show_mcu_info, fun_show_mpu_dtc}
use linux_uart.Run.Loops.Keeps.{mpu_online-kept, loop_receive-kept, echo_test-kept}
use linux_uart.Run.Dispatch.{
  Progress, returned, running, cut_short, update_progress, firmware_path, run_mode, run,
}

module _ {S V : Type 0} (bus : RegWrCbHandle S) (view : S → V) (v : V)
    (k : BusKeeps bus view v) where
  test_loop-kept :
      (rand : ℕ → ℕ → ℕ) (n err_cnt : ℕ) (is_write : Bool) (reg_addr reg_cnt : ℕ) (wr_buf : List ℕ)
      (s : S)
      → view s ≡ v
      → view (run_test_loop bus rand n err_cnt is_write reg_addr reg_cnt wr_buf s).2 ≡ v
  unfolding run_test_loop
  test_loop-kept rand zero err_cnt is_write reg_addr reg_cnt wr_buf s h = h
  test_loop-kept rand (suc n) err_cnt is_write reg_addr reg_cnt wr_buf s h =
      let sent = make_data (rand n) reg_cnt wr_buf in
      let (rw, sw) = bus.write_reg (reg_addr % 2 ^ 16) sent reg_cnt 400 s in
      let (rr, got, sr) = bus.read_reg (reg_addr % 2 ^ 16) wr_buf reg_cnt 400 s in
      let r : ℤ × List ℕ × S = if is_write then (rw, sent, sw) else (rr, got, sr) in
      test_loop-kept rand n _ is_write reg_addr reg_cnt r.1 r.2 (
        if-elim (λ (x : ℤ × List ℕ × S). view x.2 ≡ v) is_write
          (k.writes (reg_addr % 2 ^ 16) sent reg_cnt 400 s h)
          (k.reads (reg_addr % 2 ^ 16) wr_buf reg_cnt 400 s h))

  wr-kept :
      (rand : ℕ → ℕ → ℕ) (test_cnt : ℕ) (is_write : Bool) (reg_addr reg_cnt : ℕ) (wr_buf : List ℕ)
      (s : S)
      → view s ≡ v
      → view (fun_wr bus rand test_cnt is_write reg_addr reg_cnt wr_buf s).2 ≡ v
  unfolding fun_wr
  wr-kept rand test_cnt is_write reg_addr reg_cnt wr_buf s h = ground (
    arith,
    test_loop-kept rand test_cnt 0 is_write reg_addr reg_cnt wr_buf s h,
    k.writes (reg_addr % 2 ^ 16) wr_buf reg_cnt 400 s h,
    k.reads (reg_addr % 2 ^ 16) wr_buf reg_cnt 400 s h,
  )

  show_mcu_info-kept :
      (wr_buf : List ℕ) (s : S) → view s ≡ v → view (fun_show_mcu_info bus wr_buf s).2 ≡ v
  unfolding fun_show_mcu_info
  show_mcu_info-kept wr_buf s h =
      let kept = k.reads 0 wr_buf 88 200 s h in
      let (_, _, s1) = bus.read_reg 0 wr_buf 88 200 s in
      ground (arith, kept, get_rearview_type-kept bus view v k (pos 0) s1 kept)

  show_can_event-kept : (s : S) → view s ≡ v → view (fun_show_mcu_can_event bus s).2 ≡ v
  unfolding fun_show_mcu_can_event
  show_can_event-kept s h =
      let (_, valid, s1) = bus.read_reg 0x0400 (replicate 64 0) 64 200 s in
      let kept = k.reads 0x0400 (replicate 64 0) 64 200 s h in
      let last = valid_max_event 48 valid in
      ground (arith, kept, k.reads 0x0440 (replicate 48 0) (last + 1) 200 s1 kept)

  show_mpu_dtc-kept : (s : S) → view s ≡ v → view (fun_show_mpu_dtc bus s).2 ≡ v
  unfolding fun_show_mpu_dtc read_mpu_dtc
  show_mpu_dtc-kept s h = ground (arith, k.reads 0x1014 (mem_bytes 4 0) 4 200 s h)

  change_dtc-kept :
      (set_dtc clean_dtc last_cnt : ℕ) (s : S)
      → view s ≡ v
      → view (fun_set_or_clean_mpu_dtc bus set_dtc clean_dtc last_cnt s).2 ≡ v
  unfolding fun_set_or_clean_mpu_dtc read_mpu_dtc write_mpu_dtc
  change_dtc-kept set_dtc clean_dtc last_cnt s h =
      let (_, dtc_map, s1) = read_mpu_dtc bus 0 s in
      let h1 = k.reads 0x1014 (mem_bytes 4 0) 4 200 s h in
      let (_, _, s2) = wdog_feed bus last_cnt s1 in
      let h2 = wdog_feed-kept bus view v k last_cnt s1 h1 in
      let changed = mem_val (change_dtc set_dtc clean_dtc (mem_bytes 4 dtc_map)) in
      let h3 = k.writes 0x1014 (mem_bytes 4 changed) 4 200 s2 h2 in ground (arith, h1, h3)

  goto_bootloader-kept :
      (wr_buf : List ℕ) (s : S) → view s ≡ v → view (fun_goto_bootloader bus wr_buf s).1 ≡ v
  unfolding fun_goto_bootloader
  goto_bootloader-kept wr_buf s h =
      let (_, _, s1) = bus.read_reg 0 wr_buf 88 200 s in
      let kept = k.reads 0 wr_buf 88 200 s h in
      ground (arith, kept, k.writes 0x1400 (0xFF ∷ 0 ∷ []) 1 200 s1 kept)

  exit_bootloader-kept :
      (wr_buf : List ℕ) (s : S) → view s ≡ v → view (fun_exit_bootloader bus wr_buf s).1 ≡ v
  unfolding fun_exit_bootloader
  exit_bootloader-kept wr_buf s h =
      let (_, _, s1) = bus.read_reg 0 wr_buf 88 200 s in
      let kept = k.reads 0 wr_buf 88 200 s h in
      ground (arith, kept, k.writes 0x1400 (8 ∷ 0 ∷ []) 1 200 s1 kept)

module _ {S V : Type 0} (b : Board S) (view : S → V) (at : List ℤ → V) (k : BoardKeeps b view at)
    (fds : List ℤ) where
  -- What there is of a state at the end of a command, or while it runs, has the view `at fds`.
  abbrev pub Keeps : Progress S → Type 0
  Keeps (returned ret s) = view s ≡ at fds
  Keeps (running s) = view s ≡ at fds
  Keeps cut_short = Unit

  update-Keeps :
      (o : Option (ℤ × S)) → IfSome (λ x. view x.1 ≡ at fds) o → Keeps (update_progress o)
  update-Keeps none h = tt
  update-Keeps (some (ret, s)) h = h

  run_mode-Keeps :
      (rand : ℕ → ℕ → ℕ) (rounds : ℕ) (mode : RunFun) (config : RunConfig) (s : S)
      → view s ≡ at fds
      → Keeps (run_mode b rand rounds mode config s)
  unfolding run_mode mcu_reset set_mcu_dbg_level shanqi_production_date
      linux_uart.RvMcu.set_rearview_type fun_setting_wdog fun_send_can_msg send_can_msg
  run_mode-Keeps rand rounds run_rw c s h =
      wr-kept b.bus view (at fds) (k.on_bus fds) rand c.test_cnt c.is_write c.reg_addr c.reg_cnt
        c.wr_buf s h
  run_mode-Keeps rand rounds show_mcu_info c s h =
      show_mcu_info-kept b.bus view (at fds) (k.on_bus fds) c.wr_buf s h
  run_mode-Keeps rand rounds update c s h =
      update-Keeps _ (burn_mcu-kept b view at k fds rounds (firmware_path c.mcu_firmware) s h)
  run_mode-Keeps rand rounds force_update c s h =
      update-Keeps _
        (force_burn_mcu-kept b view at k fds rounds (firmware_path c.mcu_force_firmware) s h)
  run_mode-Keeps rand rounds read_can_event c s h =
      show_can_event-kept b.bus view (at fds) (k.on_bus fds) s h
  run_mode-Keeps rand rounds look_mpu_dtc c s h =
      show_mpu_dtc-kept b.bus view (at fds) (k.on_bus fds) s h
  run_mode-Keeps rand rounds set_or_clean_mpu_dtc c s h =
      change_dtc-kept b.bus view (at fds) (k.on_bus fds) c.set_dtc c.clean_dtc 0xff s h
  run_mode-Keeps rand rounds mpu_online c s h =
      mpu_online-kept b view (at fds) (k.on_bus fds) (k.sleeps fds) rounds 0xff s h
  run_mode-Keeps rand rounds run_send_can_msg c s h =
      gran_write-kept b.bus view (at fds) (k.on_bus fds) cb_send_can_start
        (can_msg b.bus c.reg_addr c.reg_cnt c.wr_buf) can_msg_size 1 200 s h
  run_mode-Keeps rand rounds loop_receive_can_msg c s h =
      loop_receive-kept b view (at fds) (k.on_bus fds) (k.sleeps fds) rounds s h
  run_mode-Keeps rand rounds setting_wdog c s h =
      wdog_config-kept b.bus view (at fds) (k.on_bus fds) _ s h
  run_mode-Keeps rand rounds reset_mcu c s h = (k.on_bus fds).writes _ _ 1 200 s h
  run_mode-Keeps rand rounds set_rearview_type c s h = (k.on_bus fds).writes _ _ 1 200 s h
  run_mode-Keeps rand rounds set_mcu_debug_level c s h = (k.on_bus fds).writes _ _ 4 200 s h
  run_mode-Keeps rand rounds goto_bootloader c s h =
      goto_bootloader-kept b.bus view (at fds) (k.on_bus fds) c.wr_buf s h
  run_mode-Keeps rand rounds exit_bootloader c s h =
      exit_bootloader-kept b.bus view (at fds) (k.on_bus fds) c.wr_buf s h
  run_mode-Keeps rand rounds clean_nvm c s h =
      clean_nvm-kept b.bus view (at fds) (k.on_bus fds) (signed32 c.clean_nvm_arg) s h
  run_mode-Keeps rand rounds can_echo_test c s h =
      echo_test-kept b view (at fds) (k.on_bus fds) (k.sleeps fds) rounds s h
  run_mode-Keeps rand rounds write_shanqi_production_date c s h =
      (k.on_bus fds).writes _ _ 4 200 s h

  -- Whatever every access of a register leaves as it is, every command leaves as it is, with the
  -- descriptors that were open before.
  pub run-Keeps :
      (rand : ℕ → ℕ → ℕ) (rounds : ℕ) (config : RunConfig) (s : S)
      → view s ≡ at fds
      → Keeps (run b rand rounds config s)
  unfolding run
  run-Keeps rand rounds config s h = run_mode-Keeps rand rounds config.mode config s h
