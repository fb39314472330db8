-- ===== src/Main.antt =====
-- main.c: the program. What argparse makes of the command line is a parameter, as are the values of
-- strtol and strtoul.
pub mod Args
pub mod Audit
pub mod Options
mod Tests
use linux_uart.Base.{ℕ, false, List, [], replicate, Option, none, some, if◌then◌else◌}
use linux_uart.Base.Int.{ℤ, pos, is_neg, neg}
use linux_uart.Os.{Os}
use linux_uart.SpiReg.{SpiRegHandle}
use linux_uart.RvMcu.Device.{spi_board, zero_handle, rvmcu_init, rvmcu_exit}
use linux_uart.Run.Config.{RunConfig, mpu_online}
use linux_uart.Run.Dispatch.{Progress, returned, running, cut_short, run}
use linux_uart.Main.Args.{other_argparse_parse}

-- `run_config` before the options are read.
abbrev pub run_config : RunConfig
run_config = record {
  wr_buf = replicate 1024 0;
  reg_addr = 0;
  reg_cnt = 0;
  test_cnt = 0;
  set_dtc = 0;
  rearview_type = 0xFFFFFFFF;
  clean_dtc = 0;
  clean_nvm_arg = 0;
  mcu_debug_level_arg = neg 1;
  is_write = false;
  is_show_mcu_info = false;
  is_look_dtc = false;
  is_loop_reveive = false;
  is_can_print_asc = false;
  is_read = false;
  is_send_can = false;
  is_read_can_event = false;
  is_opne_wdog = pos 0;
  is_close_wdog = false;
  is_reset_mcu = false;
  is_exit_bootloader = false;
  is_goto_bootloader = false;
  is_can_echo_test = false;
  is_write_shanqi_production_date = false;
  mcu_firmware = none;
  mcu_force_firmware = none;
  mode = mpu_online;
}

module _ {W : Type 0} (os : Os W) where
  -- The end of `main`, where the command has returned.
  pub leave : Progress (Option SpiRegHandle × W) → Progress W
  leave (returned ret (none, w)) = returned ret w
  leave (returned ret (some h, w)) = returned ret (rvmcu_exit os h w)
  leave (running s) = running s.1
  leave cut_short = cut_short

module _ {W : Type 0} (os : Os W) (rand : ℕ → ℕ → ℕ) (rounds : ℕ) where
  -- `main` once the arguments are read.
  pub serve : RunConfig → W → Progress W
  unfolding leave
  serve config w =
      let (ret, h, w1) = rvmcu_init os zero_handle w in
      if is_neg ret
      then returned ret w1
      else leave os (run (spi_board os) rand rounds config (some h, w1))

  -- The same, where the arguments are right, and the help, which ends the program with 1.
  pub serve_or_help : Option RunConfig → W → Progress W
  unfolding serve
  serve_or_help none w = returned (pos 1) w
  serve_or_help (some config) w = serve config w

module _ (strtol : List ℕ → ℕ → Option ℤ) (strtoul : List ℕ → ℕ → Option ℕ) where
  -- What argparse leaves, checked: it gives the configuration and the arguments that are left over,
  -- `none` where it fails.
  pub read_arguments : Option (RunConfig × List (List ℕ)) → Option RunConfig
  read_arguments none = none
  read_arguments (some (config, argv)) = other_argparse_parse strtol strtoul config argv

module _ {W : Type 0} (os : Os W) (rand : ℕ → ℕ → ℕ) (rounds : ℕ) (strtol : List ℕ → ℕ → Option ℤ)
    (strtoul : List ℕ → ℕ → Option ℕ)
    (argparse : RunConfig → Option (RunConfig × List (List ℕ))) where
  -- `main`
  unfoldable pub main : W → Progress W
  unfolding serve_or_help read_arguments
  main w = serve_or_help os rand rounds (read_arguments strtol strtoul (argparse run_config)) w
