-- ===== src/Run/Config.antt =====
-- run.h: the commands, and what the command line says about them. A flag is a test whether it was
-- given, except where its number is used.
use linux_uart.Base.{ℕ, Bool, List, Option}
use linux_uart.Base.Int.{ℤ}

-- `enum RUN_FUN`
pub data RunFun : Type 0 where
  mpu_online run_rw show_mcu_info update force_update read_can_event look_mpu_dtc : RunFun
  set_or_clean_mpu_dtc run_send_can_msg loop_receive_can_msg setting_wdog reset_mcu : RunFun
  set_rearview_type set_mcu_debug_level exit_bootloader goto_bootloader clean_nvm : RunFun
  can_echo_test write_shanqi_production_date : RunFun

-- `RunConfig`; a string is `none` where it is a null pointer.
pub record RunConfig : Type 0 where
  pub wr_buf : List ℕ
  pub reg_addr : ℕ
  pub reg_cnt : ℕ
  pub test_cnt : ℕ
  pub set_dtc : ℕ
  pub rearview_type : ℕ
  pub clean_dtc : ℕ
  pub clean_nvm_arg : ℕ
  pub mcu_debug_level_arg : ℤ
  pub is_write : Bool
  pub is_show_mcu_info : Bool
  pub is_look_dtc : Bool
  pub is_loop_reveive : Bool
  pub is_can_print_asc : Bool
  pub is_read : Bool
  pub is_send_can : Bool
  pub is_read_can_event : Bool
  pub is_opne_wdog : ℤ
  pub is_close_wdog : Bool
  pub is_reset_mcu : Bool
  pub is_exit_bootloader : Bool
  pub is_goto_bootloader : Bool
  pub is_can_echo_test : Bool
  pub is_write_shanqi_production_date : Bool
  pub mcu_firmware : Option (List ℕ)
  pub mcu_force_firmware : Option (List ℕ)
  pub mode : RunFun
