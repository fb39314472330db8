-- ===== src/Main/Tests.antt =====
-- The theorems on main.c, at concrete command lines.
use linux_uart.Base.{
  ℕ, ◌+◌, ◌-◌, ◌*◌, ◌/◌, ◌%◌, ◌<◌, ◌≡◌, refl, ap, arith, true, false, List, [], ◌∷◌, ltb,
  if◌then◌else◌, Option, none, some, IfSome,
}
use linux_uart.Base.Int.{ℤ, pos}
use linux_uart.Os.Audit.{Audit}
use linux_uart.Os.Scripted.{Script}
use linux_uart.Run.Config.{RunConfig, RunFun}
use linux_uart.Main.{run_config}
use linux_uart.Main.Args.{hex_string_to_byte_array, other_argparse_parse}
use linux_uart.Main.Options.{CommandOption, store_option}
use linux_uart.Main.Options.Alone.{other_argparse_parse-alone}
use linux_uart.Main.Args.Hex.{ReadsHex, print_hex, hex_digit, hex_string_to_byte_array-print_hex}
use linux_uart.Main.Args.Checked.{Checked, other_argparse_parse-Checked}

-- Two hexadecimal digits, as strtol reads them.
abbrev digit : ℕ → ℕ
digit c = if ltb c 58 then c - 48 else c - 87

abbrev strtol : List ℕ → ℕ → Option ℤ
strtol (x ∷ y ∷ []) base = some (pos (base * digit x + digit y))
strtol arg base = none

digit-hex_digit : (d : ℕ) → d < 16 → digit (hex_digit d) ≡ d
digit-hex_digit d small = ground arith

strtol-ReadsHex : ReadsHex strtol
strtol-ReadsHex b small =
    let upper : b / 16 < 16 = omega arith in
    let lower : b % 16 < 16 = omega arith in
    rw (digit-hex_digit (b / 16) upper, digit-hex_digit (b % 16) lower)
      (ap (λ (n : ℕ). some (pos n)) {x = 16 * (b / 16) + b % 16} (omega arith))

abbrev strtoul : List ℕ → ℕ → Option ℕ
strtoul arg base = some 0x1000

abbrev date : List ℕ
date = 0x20 ∷ 0xAF ∷ []

hex_string_to_byte_array-print_hex_example :
    hex_string_to_byte_array strtol (print_hex date) 4 ≡ some date
hex_string_to_byte_array-print_hex_example =
    hex_string_to_byte_array-print_hex strtol date 4 strtol-ReadsHex
      (omega arith, (omega arith, tt)) (omega arith)

-- A write of the two bytes to the register 0x1000.
abbrev writing : RunConfig
writing = record run_config { is_write = true }

abbrev argv : List (List ℕ)
argv = (b'0' ∷ []) ∷ print_hex date ∷ []

other_argparse_parse-Checked_example :
    IfSome Checked (other_argparse_parse strtol strtoul writing argv)
other_argparse_parse-Checked_example =
    other_argparse_parse-Checked strtol strtoul writing argv refl refl

abbrev idle : Audit Script
idle = record {
  world = record { line = []; spi = []; sent = [] };
  mutex_held = false;
  file_held = false;
  open_fds = [];
  faults = 0;
}

other_argparse_parse-alone_example :
    other_argparse_parse strtol strtoul
      (store_option CommandOption.clean_nvm [] (pos 2) run_config)
      []
    ≡ some (record run_config { clean_nvm_arg = 2; mode = RunFun.clean_nvm })
unfolding store_option
other_argparse_parse-alone_example =
    other_argparse_parse-alone strtol strtoul CommandOption.clean_nvm [] (pos 2) [] refl
