-- ===== src/Main/Options.antt =====
-- main.c: the table of options that `main` gives to argparse, and what it does to the configuration
-- when argparse stores a value where an option points.
pub mod Alone
use Prim.Native.String.{String}
use linux_uart.Base.{ℕ, true, List, [], ◌∷◌, some}
use linux_uart.Base.Int.{ℤ, pos, unsigned32, signed32}
use linux_uart.Run.Config.{RunConfig}

-- The entries of `options`, less the help, the heading and the end.
pub data CommandOption : Type 0 where
  write read send_can_msg reveive_can_msg can_print_asc read_can_event : CommandOption
  show_mcu_info look_mpu_dtc open_wdog close_wdog mcu_reset exit_bootloader : CommandOption
  goto_bootloader can_echo_test write_shanqi_production_date : CommandOption
  update update_by_force : CommandOption
  test set_mpu_dtc set_rearview_type clean_mpu_dtc clean_nvm set_mcu_debug_level : CommandOption

-- The letter of an option.
unfoldable pub short_name : CommandOption → ℕ
short_name write = b'w'
short_name read = b'r'
short_name send_can_msg = b'm'
short_name reveive_can_msg = b'd'
short_name can_print_asc = b'a'
short_name read_can_event = b'c'
short_name show_mcu_info = b'i'
short_name look_mpu_dtc = b'l'
short_name open_wdog = b'o'
short_name close_wdog = b'z'
short_name mcu_reset = b'b'
short_name exit_bootloader = b'y'
short_name goto_bootloader = b'f'
short_name can_echo_test = b'T'
short_name write_shanqi_production_date = b' '
short_name update = b'u'
short_name update_by_force = b'U'
short_name test = b't'
short_name set_mpu_dtc = b's'
short_name set_rearview_type = b'x'
short_name clean_mpu_dtc = b'e'
short_name clean_nvm = b'E'
short_name set_mcu_debug_level = b'g'

-- The name of an option.
unfoldable pub long_name : CommandOption → String
long_name write = "write"
long_name read = "read"
long_name send_can_msg = "send-can-msg"
long_name reveive_can_msg = "reveive-can-msg"
long_name can_print_asc = "can-print-asc"
long_name read_can_event = "read-can-event"
long_name show_mcu_info = "show-mcu-info"
long_name look_mpu_dtc = "look-mpu-dtc"
long_name open_wdog = "open-wdog"
long_name close_wdog = "close-wdog"
long_name mcu_reset = "mcu-reset"
long_name exit_bootloader = "exit-bootloader"
long_name goto_bootloader = "goto-bootloader"
long_name can_echo_test = "can-echo-test"
long_name write_shanqi_production_date = "write-shanqi-production-date"
long_name update = "update"
long_name update_by_force = "Update"
long_name test = "test"
long_name set_mpu_dtc = "set-mpu-dtc"
long_name set_rearview_type = "set-rearview-type"
long_name clean_mpu_dtc = "clean-mpu-dtc"
long_name clean_nvm = "clean-nvm"
long_name set_mcu_debug_level = "set-mcu-debug-level"

-- Where a boolean option points, once it was given; the texts and the numbers point where their
-- value is kept. A number goes into an `int` or a `uint32_t` of 32 bits.
unfoldable pub store_option : CommandOption → List ℕ → ℤ → RunConfig → RunConfig
store_option write text number c = record c { is_write = true }
store_option read text number c = record c { is_read = true }
store_option send_can_msg text number c = record c { is_send_can = true }
store_option reveive_can_msg text number c = record c { is_loop_reveive = true }
store_option can_print_asc text number c = record c { is_can_print_asc = true }
store_option read_can_event text number c = record c { is_read_can_event = true }
store_option show_mcu_info text number c = record c { is_show_mcu_info = true }
store_option look_mpu_dtc text number c = record c { is_look_dtc = true }
store_option open_wdog text number c = record c { is_opne_wdog = pos 1 }
store_option close_wdog text number c = record c { is_close_wdog = true }
store_option mcu_reset text number c = record c { is_reset_mcu = true }
store_option exit_bootloader text number c = record c { is_exit_bootloader = true }
store_option goto_bootloader text number c = record c { is_goto_bootloader = true }
store_option can_echo_test text number c = record c { is_can_echo_test = true }
store_option write_shanqi_production_date text number c = record c {
  is_write_shanqi_production_date = true;
}
store_option update text number c = record c { mcu_firmware = some text }
store_option update_by_force text number c = record c { mcu_force_firmware = some text }
store_option test text number c = record c { test_cnt = unsigned32 number }
store_option set_mpu_dtc text number c = record c { set_dtc = unsigned32 number }
store_option set_rearview_type text number c = record c { rearview_type = unsigned32 number }
store_option clean_mpu_dtc text number c = record c { clean_dtc = unsigned32 number }
store_option clean_nvm text number c = record c { clean_nvm_arg = unsigned32 number }
store_option set_mcu_debug_level text number c = record c {
  mcu_debug_level_arg = signed32 (unsigned32 number);
}

-- `options`
abbrev pub options : List CommandOption
options =
    write ∷ read ∷ send_can_msg ∷ reveive_can_msg ∷ can_print_asc ∷ read_can_event ∷ show_mcu_info
    ∷ look_mpu_dtc ∷ open_wdog ∷ close_wdog ∷ mcu_reset ∷ exit_bootloader ∷ goto_bootloader
    ∷ can_echo_test ∷ write_shanqi_production_date ∷ update ∷ update_by_force ∷ test ∷ set_mpu_dtc
    ∷ set_rearview_type ∷ clean_mpu_dtc ∷ clean_nvm ∷ set_mcu_debug_level ∷ []
