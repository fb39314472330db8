-- ===== src/Run/Dispatch.antt =====
-- run.c: `run`, which calls the command that was chosen.
pub mod Keeps
use linux_uart.Base.{ℕ, Bool, List, [], ◌==◌, not, if◌then◌else◌, Option, none, some}
use linux_uart.Base.Int.{ℤ, pos, signed32}
use linux_uart.RvMcu.{mcu_reset, set_mcu_dbg_level, shanqi_production_date}
use linux_uart.RvMcu.Burn.{Board, burn_mcu, force_burn_mcu}
use linux_uart.Run.{
  fun_wr, fun_set_or_clean_mpu_dtc, fun_send_can_msg, fun_setting_wdog, fun_goto_bootloader,
  fun_exit_bootloader,
}
use linux_uart.Run.Config.{
  RunFun, RunConfig, mpu_online, run_rw, show_mcu_info, update, force_update, read_can_event,
  look_mpu_dtc, set_or_clean_mpu_dtc, run_send_can_msg, loop_receive_can_msg, setting_wdog,
  reset_mcu, set_rearview_type, set_mcu_debug_level, exit_bootloader, goto_bootloader, clean_nvm,
  can_echo_test, write_shanqi_production_date,
}
use linux_uart.Run.Events.{fun_show_mcu_can_event}
use linux_uart.Run.Show.{fun_show_mcu_info, fun_show_mpu_dtc}
use linux_uart.Run.Loops.{fun_mpu_online, fun_loop_receive_can_msg, fun_loop_can_echo_test}

-- How far a command has come: it has returned, it is one of the endless ones, here after a number of
-- rounds, or an update whose loops would take more rounds.
pub data Progress (S : Type 0) : Type 0 where
  returned : ℤ → S → Progress S
  running : S → Progress S
  cut_short : Progress S

-- An update that has ended, or not.
abbrev pub update_progress : {S : Type 0} → Option (ℤ × S) → Progress S
update_progress none = cut_short
update_progress (some (ret, s)) = returned ret s

-- The path of the firmware, which is given where this is called.
abbrev pub firmware_path : Option (List ℕ) → List ℕ
firmware_path none = []
firmware_path (some path) = path

module _ {S : Type 0} (b : Board S) (rand : ℕ → ℕ → ℕ) (rounds : ℕ) where
  -- `run` by the mode, less what is printed. The static counter of the watchdog starts as 0xff.
  pub run_mode : RunFun → RunConfig → S → Progress S
  run_mode run_rw config s =
      let (ret, _, s1) =
        fun_wr b.bus rand config.test_cnt config.is_write config.reg_addr config.reg_cnt
          config.wr_buf s in
      returned ret s1
  run_mode show_mcu_info config s =
      let (ret, _, s1) = fun_show_mcu_info b.bus config.wr_buf s in returned ret s1
  run_mode update config s =
      update_progress (burn_mcu b rounds (firmware_path config.mcu_firmware) s)
  run_mode force_update config s =
      update_progress (force_burn_mcu b rounds (firmware_path config.mcu_force_firmware) s)
  run_mode read_can_event config s =
      let (ret, _, s1) = fun_show_mcu_can_event b.bus s in returned ret s1
  run_mode look_mpu_dtc config s = let (ret, _, s1) = fun_show_mpu_dtc b.bus s in returned ret s1
  run_mode set_or_clean_mpu_dtc config s =
      let (ret, _, s1) = fun_set_or_clean_mpu_dtc b.bus config.set_dtc config.clean_dtc 0xff s in
      returned ret s1
  run_mode mpu_online config s = running (fun_mpu_online b rounds 0xff s).1
  run_mode run_send_can_msg config s =
      let (ret, s1) = fun_send_can_msg b.bus config.reg_addr config.reg_cnt config.wr_buf s in
      returned ret s1
  run_mode loop_receive_can_msg config s = running (fun_loop_receive_can_msg b rounds s).state
  run_mode setting_wdog config s =
      let (ret, s1) = fun_setting_wdog b.bus config.is_close_wdog config.is_opne_wdog s in
      returned ret s1
  run_mode reset_mcu config s = let (ret, s1) = mcu_reset b.bus s in returned ret s1
  run_mode set_rearview_type config s =
      let (ret, s1) = linux_uart.RvMcu.set_rearview_type b.bus (signed32 config.rearview_type) s in
      returned ret s1
  run_mode set_mcu_debug_level config s =
      let (ret, s1) = set_mcu_dbg_level b.bus config.mcu_debug_level_arg s in returned ret s1
  run_mode goto_bootloader config s =
      let (ret, s1) = fun_goto_bootloader b.bus config.wr_buf s in returned ret s1
  run_mode exit_bootloader config s =
      let (ret, s1) = fun_exit_bootloader b.bus config.wr_buf s in returned ret s1
  run_mode clean_nvm config s =
      let (ret, s1) = linux_uart.RvMcu.clean_nvm b.bus (signed32 config.clean_nvm_arg) s in
      returned ret s1
  run_mode can_echo_test config s = running (fun_loop_can_echo_test b rounds s).state
  run_mode write_shanqi_production_date config s =
      let (ret, s1) = shanqi_production_date b.bus config.wr_buf s in returned ret s1

  -- `run`
  pub run : RunConfig → S → Progress S
  unfolding run_mode
  run config s = run_mode config.mode config s
