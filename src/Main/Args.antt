-- ===== src/Main/Args.antt =====
-- main.c: `other_argparse_parse`, which checks the arguments and chooses the command. What strtol and
-- strtoul make of a string in a base is a parameter, `none` where they read nothing of it.
pub mod Hex
pub mod Checked
use linux_uart.Base.{
  ℕ, ◌-◌, ◌/◌, ◌%◌, ◌^◌, Bool, true, false, ◌&&◌, ◌||◌, not, List, [], ◌∷◌, length, write_at,
  Option, none, some, ltb, ◌==◌, if◌then◌else◌,
}
use linux_uart.Base.Options.{◌>>=◌}
use linux_uart.Base.Int.{ℤ, pos, negsuc, eq_pos, unsigned32}
use linux_uart.Run.Config.{
  RunFun, RunConfig, run_rw, show_mcu_info, update, force_update, read_can_event, look_mpu_dtc,
  set_or_clean_mpu_dtc, run_send_can_msg, loop_receive_can_msg, setting_wdog, reset_mcu,
  set_rearview_type, set_mcu_debug_level, exit_bootloader, goto_bootloader, clean_nvm,
  can_echo_test, write_shanqi_production_date,
}

-- WR_BUF_MAX
abbrev pub wr_buf_max : ℕ
wr_buf_max = 1024

-- An `if(c) config->mode = m;`
abbrev pub mode_if : Bool → RunFun → RunFun → RunFun
mode_if c m mode = if c then m else mode

-- Whether a string is there.
abbrev is_given : Option (List ℕ) → Bool
is_given none = false
is_given (some path) = true

-- n == -1
abbrev pub is_minus_one : ℤ → Bool
is_minus_one (pos n) = false
is_minus_one (negsuc n) = n == 0

-- The mode that `other_argparse_parse` chooses, once the other arguments are right: the last `if` that
-- holds decides, except that showing the info comes first.
unfoldable pub choose_mode : RunConfig → RunFun
choose_mode c =
    if c.is_show_mcu_info
    then show_mcu_info
    else mode_if c.is_write_shanqi_production_date write_shanqi_production_date (
        mode_if c.is_can_echo_test can_echo_test (
          mode_if (not (c.clean_nvm_arg == 0)) clean_nvm (
            mode_if (not (is_minus_one c.mcu_debug_level_arg)) set_mcu_debug_level (
              mode_if c.is_exit_bootloader exit_bootloader (
                mode_if c.is_goto_bootloader goto_bootloader (
                  mode_if (not (c.rearview_type == 0xFFFFFFFF)) set_rearview_type (
                    mode_if c.is_reset_mcu reset_mcu (
                      mode_if (not (eq_pos c.is_opne_wdog 0) || c.is_close_wdog) setting_wdog (
                        mode_if c.is_loop_reveive loop_receive_can_msg (
                          mode_if c.is_send_can run_send_can_msg (
                            mode_if (not (c.set_dtc == 0) || not (c.clean_dtc == 0))
                              set_or_clean_mpu_dtc
                              (mode_if c.is_look_dtc look_mpu_dtc (
                                mode_if c.is_read_can_event read_can_event (
                                  mode_if (is_given c.mcu_force_firmware) force_update (
                                    mode_if (is_given c.mcu_firmware) update (
                                      mode_if (c.is_write || c.is_read) run_rw
                                        c.mode))))))))))))))))

module _ (strtol : List ℕ → ℕ → Option ℤ) where
  -- The loop of `hex_string_to_byte_array`.
  pub hex_bytes : List ℕ → Option (List ℕ)
  hex_bytes [] = some []
  hex_bytes (x ∷ []) = none
  hex_bytes (x ∷ y ∷ rest) = do
    b ← strtol (x ∷ y ∷ []) 16
    bytes ← hex_bytes rest
    some (unsigned32 b % 2 ^ 8 ∷ bytes)

  -- `hex_string_to_byte_array`: `none` is -1, else the list is what is written, and its length is
  -- returned.
  pub hex_string_to_byte_array : List ℕ → ℕ → Option (List ℕ)
  unfolding hex_bytes
  hex_string_to_byte_array hex_string byte_array_size =
      let len = length hex_string in
      if not (len % 2 == 0) || ltb byte_array_size (len / 2) then none else hex_bytes hex_string

  -- The second argument as a number of bytes.
  pub parse_count : RunConfig → List ℕ → Option RunConfig
  parse_count config arg = do
    cnt ← strtol arg 0
    let reg_cnt = unsigned32 cnt % 2 ^ 16
    (if ltb (wr_buf_max - 2) reg_cnt || (reg_cnt == 0)
        then none
        else some (record config { reg_cnt = reg_cnt }))

  -- The second argument as the bytes.
  pub parse_data : RunConfig → List ℕ → Option RunConfig
  unfolding hex_string_to_byte_array
  parse_data config arg = do
    bytes ← hex_string_to_byte_array arg wr_buf_max
    let wr_buf = write_at 0 bytes config.wr_buf
    some (record config { wr_buf = wr_buf; reg_cnt = length bytes % 2 ^ 16 })

  -- The production date: four bytes.
  pub parse_date : RunConfig → List (List ℕ) → Option RunConfig
  unfolding hex_string_to_byte_array
  parse_date config (date ∷ []) = do
    bytes ← hex_string_to_byte_array date 4
    (if length bytes == 4
        then some (record config { wr_buf = write_at 0 bytes config.wr_buf })
        else none)
  parse_date config argv = none

module _ (strtol : List ℕ → ℕ → Option ℤ) (strtoul : List ℕ → ℕ → Option ℕ) where
  -- The two arguments: an address, and a number of bytes or the bytes.
  pub parse_access : RunConfig → List (List ℕ) → Option RunConfig
  unfolding parse_count parse_data
  parse_access config (reg ∷ arg ∷ []) = do
    reg_addr ← strtoul reg 0
    let config1 = record config { reg_addr = reg_addr % 2 ^ 32 }
    (if not (config.test_cnt == 0) || config.is_read
        then parse_count strtol config1 arg
        else parse_data strtol config1 arg)
  parse_access config argv = none

  -- `other_argparse_parse`: `none` is -1, else the configuration with its mode.
  unfoldable pub other_argparse_parse : RunConfig → List (List ℕ) → Option RunConfig
  unfolding parse_access choose_mode
  other_argparse_parse config argv = do
    either ← if config.is_write && config.is_read then none else some config
    accessed ←
        if either.is_write || either.is_read || either.is_send_can
        then parse_access either argv
        else some either
    dated ←
        if accessed.is_write_shanqi_production_date
        then parse_date strtol accessed argv
        else some accessed
    some (record dated { mode = choose_mode dated })
