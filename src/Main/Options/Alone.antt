-- ===== src/Main/Options/Alone.antt =====
-- main.c: the command that an option alone leads to, and the names of the options.
use Prim.Native.String.{String}
use text.Mathlib.Text.{◌==◌ as str_eq}
use linux_uart.Base.{
  ℕ, ◌≡◌, refl, arith, Bool, true, false, List, [], ◌∷◌, Option, none, some, ◌==◌, if◌then◌else◌,
}
use linux_uart.Base.Int.{ℤ, unsigned32}
use linux_uart.Run.Config.{RunFun}
use linux_uart.Main.{run_config}
use linux_uart.Main.Args.{other_argparse_parse, choose_mode}
use linux_uart.Main.Options.{CommandOption, store_option, short_name, long_name, options}

-- The command, unless the number is the one that stands for no number.
abbrev pub if_other : ℕ → ℤ → RunFun → RunFun
if_other none_given number mode =
    if unsigned32 number == none_given then RunFun.mpu_online else mode

-- The command that an option is for, with its number. Two of them, and a number that stands for no
-- number, leave the program at its first command.
abbrev pub command_of : CommandOption → ℤ → RunFun
command_of CommandOption.write number = RunFun.run_rw
command_of CommandOption.read number = RunFun.run_rw
command_of CommandOption.send_can_msg number = RunFun.run_send_can_msg
command_of CommandOption.reveive_can_msg number = RunFun.loop_receive_can_msg
command_of CommandOption.can_print_asc number = RunFun.mpu_online
command_of CommandOption.read_can_event number = RunFun.read_can_event
command_of CommandOption.show_mcu_info number = RunFun.show_mcu_info
command_of CommandOption.look_mpu_dtc number = RunFun.look_mpu_dtc
command_of CommandOption.open_wdog number = RunFun.setting_wdog
command_of CommandOption.close_wdog number = RunFun.setting_wdog
command_of CommandOption.mcu_reset number = RunFun.reset_mcu
command_of CommandOption.exit_bootloader number = RunFun.exit_bootloader
command_of CommandOption.goto_bootloader number = RunFun.goto_bootloader
command_of CommandOption.can_echo_test number = RunFun.can_echo_test
command_of CommandOption.write_shanqi_production_date number = RunFun.write_shanqi_production_date
command_of CommandOption.update number = RunFun.update
command_of CommandOption.update_by_force number = RunFun.force_update
command_of CommandOption.test number = RunFun.mpu_online
command_of CommandOption.set_mpu_dtc number = if_other 0 number RunFun.set_or_clean_mpu_dtc
command_of CommandOption.set_rearview_type number =
    if_other 0xFFFFFFFF number RunFun.set_rearview_type
command_of CommandOption.clean_mpu_dtc number = if_other 0 number RunFun.set_or_clean_mpu_dtc
command_of CommandOption.clean_nvm number = if_other 0 number RunFun.clean_nvm
command_of CommandOption.set_mcu_debug_level number =
    if_other 0xFFFFFFFF number RunFun.set_mcu_debug_level

-- The options with which the program takes further arguments.
abbrev pub takes_arguments : CommandOption → Bool
takes_arguments CommandOption.write = true
takes_arguments CommandOption.read = true
takes_arguments CommandOption.send_can_msg = true
takes_arguments CommandOption.write_shanqi_production_date = true
takes_arguments o = false

alone_mode :
    (o : CommandOption) (text : List ℕ) (number : ℤ)
    → choose_mode (store_option o text number run_config) ≡ command_of o number
unfolding choose_mode store_option
alone_mode o text number = ground arith

-- An option that takes no further arguments, given alone: the configuration is the one that the
-- option stores, with the command that the option is for. Numbers are cut to 32 bits. A number that stands for
-- no number, such as 0 for a fault, and the options `-a` and `-t` leave the program at feeding the watchdog. What
-- arguments are left over does not matter.
pub other_argparse_parse-alone :
    (strtol : List ℕ → ℕ → Option ℤ) (strtoul : List ℕ → ℕ → Option ℕ) (o : CommandOption)
    (text : List ℕ) (number : ℤ) (argv : List (List ℕ))
    → takes_arguments o ≡ false
    → let config = store_option o text number run_config in
      other_argparse_parse strtol strtoul config argv
      ≡ some (record config { mode = command_of o number })
unfolding other_argparse_parse store_option
other_argparse_parse-alone strtol strtoul o text number argv alone =
    ground (arith, alone_mode o text number)

-- The first option with a name, as a table is searched.
abbrev pub with_name : String → List CommandOption → Option CommandOption
with_name name [] = none
with_name name (o ∷ os) = if str_eq (long_name o) name then some o else with_name name os

-- The first option with a letter.
abbrev pub with_letter : ℕ → List CommandOption → Option CommandOption
with_letter letter [] = none
with_letter letter (o ∷ os) = if short_name o == letter then some o else with_letter letter os

-- No option hides another: searched by the name or by the letter of an option, the table gives that
-- option.
pub options-named :
    (o : CommandOption)
    → (with_name (long_name o) options ≡ some o) × (with_letter (short_name o) options ≡ some o)
unfolding long_name short_name
options-named CommandOption.write = (refl, refl)
options-named CommandOption.read = (refl, refl)
options-named CommandOption.send_can_msg = (refl, refl)
options-named CommandOption.reveive_can_msg = (refl, refl)
options-named CommandOption.can_print_asc = (refl, refl)
options-named CommandOption.read_can_event = (refl, refl)
options-named CommandOption.show_mcu_info = (refl, refl)
options-named CommandOption.look_mpu_dtc = (refl, refl)
options-named CommandOption.open_wdog = (refl, refl)
options-named CommandOption.close_wdog = (refl, refl)
options-named CommandOption.mcu_reset = (refl, refl)
options-named CommandOption.exit_bootloader = (refl, refl)
options-named CommandOption.goto_bootloader = (refl, refl)
options-named CommandOption.can_echo_test = (refl, refl)
options-named CommandOption.write_shanqi_production_date = (refl, refl)
options-named CommandOption.update = (refl, refl)
options-named CommandOption.update_by_force = (refl, refl)
options-named CommandOption.test = (refl, refl)
options-named CommandOption.set_mpu_dtc = (refl, refl)
options-named CommandOption.set_rearview_type = (refl, refl)
options-named CommandOption.clean_mpu_dtc = (refl, refl)
options-named CommandOption.clean_nvm = (refl, refl)
options-named CommandOption.set_mcu_debug_level = (refl, refl)
