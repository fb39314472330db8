-- ===== src/Main/Args/Checked.antt =====
-- main.c: what `other_argparse_parse` guarantees of a configuration that it lets through.
use linux_uart.Base.{
  ℕ, ◌%◌, ◌^◌, ◌≤◌, ◌≡◌, ◌∙◌, arith, true, false, ◌&&◌, ◌||◌, not, List, [], ◌∷◌, length,
  length-write_at, Option, ltb, ◌==◌, if-cases, IfSome, bind-IfSome, always-IfSome,
}
use linux_uart.Base.Int.{ℤ, unsigned32}
use linux_uart.Run.Config.{RunConfig}
use linux_uart.Main.Args.{
  hex_string_to_byte_array, parse_count, parse_data, parse_date, parse_access, other_argparse_parse,
}
use linux_uart.Main.Args.Hex.{hex_string_to_byte_array-length}

-- The buffer has its 1024 bytes, the count is at most that, and between 1 and 1022 for a read.
abbrev pub Checked : RunConfig → Type 0
Checked c =
    (length c.wr_buf ≡ 1024)
    × (c.reg_cnt ≤ 1024)
    × (c.is_read ≡ true → (1 ≤ c.reg_cnt) × (c.reg_cnt ≤ 1022))

count_in_bounds : (n : ℕ) → (ltb 1022 n || (n == 0)) ≡ false → (n ≤ 1024) × (1 ≤ n) × (n ≤ 1022)
count_in_bounds n h = ground arith

module _ (strtol : List ℕ → ℕ → Option ℤ) (strtoul : List ℕ → ℕ → Option ℕ) where
  count-Checked :
      (config : RunConfig) (arg : List ℕ)
      → length config.wr_buf ≡ 1024
      → IfSome Checked (parse_count strtol config arg)
  unfolding parse_count
  count-Checked config arg size = bind-IfSome Checked (strtol arg 0) _ (always-IfSome _) λ cnt _.
      let reg_cnt = unsigned32 cnt % 2 ^ 16 in
      if-cases (IfSome Checked) (ltb 1022 reg_cnt || (reg_cnt == 0)) (λ _. tt)
        λ right.
          let bounds = count_in_bounds reg_cnt right in (size, bounds.0, λ _. (bounds.1, bounds.2))

  data-Checked :
      (config : RunConfig) (arg : List ℕ)
      → length config.wr_buf ≡ 1024
      → config.is_read ≡ false
      → IfSome Checked (parse_data strtol config arg)
  unfolding parse_data
  data-Checked config arg size writing =
      bind-IfSome Checked (hex_string_to_byte_array strtol arg 1024) _
        (hex_string_to_byte_array-length strtol arg 1024)
        λ bytes (double, room). (
          length-write_at 0 bytes config.wr_buf ∙ size,
          omega (arith, room),
          λ reading. ground arith,
        )

  access-Checked :
      (config : RunConfig) (argv : List (List ℕ))
      → length config.wr_buf ≡ 1024
      → IfSome Checked (parse_access strtol strtoul config argv)
  unfolding parse_access
  access-Checked config (reg ∷ arg ∷ []) size =
      bind-IfSome Checked (strtoul reg 0) _ (always-IfSome _) λ reg_addr _.
        let config1 = record config { reg_addr = reg_addr % 2 ^ 32 } in
        if-cases (IfSome Checked) (not (config.test_cnt == 0) || config.is_read)
          (λ _. count-Checked config1 arg size)
          λ other. data-Checked config1 arg size (ground arith)
  access-Checked config [] size = tt
  access-Checked config (reg ∷ []) size = tt
  access-Checked config (reg ∷ arg ∷ more ∷ rest) size = tt

  date-Checked :
      (config : RunConfig) (argv : List (List ℕ))
      → Checked config
      → IfSome Checked (parse_date strtol config argv)
  unfolding parse_date
  date-Checked config (date ∷ []) (size, most, bounds) =
      bind-IfSome Checked (hex_string_to_byte_array strtol date 4) _ (always-IfSome _) λ bytes _.
        if-cases (IfSome Checked) (length bytes == 4)
          (λ _. (length-write_at 0 bytes config.wr_buf ∙ size, most, bounds)) (λ _. tt)
  date-Checked config [] h = tt
  date-Checked config (date ∷ more ∷ rest) h = tt

  -- A configuration that `other_argparse_parse` lets through, of a command that reads or writes
  -- registers or sends a CAN message, has a buffer of 1024 bytes still, a count of at most 1024, and
  -- for a read a count from 1 to 1022, whatever strtol and strtoul make of the arguments.
  pub other_argparse_parse-Checked :
      (config : RunConfig) (argv : List (List ℕ))
      → length config.wr_buf ≡ 1024
      → (config.is_write || config.is_read || config.is_send_can) ≡ true
      → IfSome Checked (other_argparse_parse strtol strtoul config argv)
  unfolding other_argparse_parse
  other_argparse_parse-Checked config argv size wanted =
      let Asked : RunConfig → Type 0 =
        λ c. (length c.wr_buf ≡ 1024) × ((c.is_write || c.is_read || c.is_send_can) ≡ true) in
      bind-IfSome {P = Asked} Checked _ _
        (if-cases (IfSome Asked) (config.is_write && config.is_read) (λ _. tt)
          (λ _. (size, wanted)))
        λ either (size1, wanted1).
          bind-IfSome {P = Checked} Checked _ _
            (if-cases (IfSome Checked) (either.is_write || either.is_read || either.is_send_can)
              (λ _. access-Checked either argv size1) (λ other. ground arith))
            λ accessed checked.
              bind-IfSome {P = Checked} Checked _ _
                (if-cases (IfSome Checked) accessed.is_write_shanqi_production_date
                  (λ _. date-Checked accessed argv checked) (λ _. checked))
                λ dated checked1. checked1
