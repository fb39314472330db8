-- ===== src/Run/Tests.antt =====
-- The theorems on the fault map, at concrete maps.
use linux_uart.Base.{
  length, map as map_list, ◌++◌, ◌%◌, ◌+◌, true, ℕ, ◌≡◌, ◌-◌, ◌&&◌, refl, arith, zero, suc, List,
  [], ◌∷◌, ◌==◌, if◌then◌else◌,
}
use linux_uart.Run.{get_bit, change_dtc}
use linux_uart.Run.Events.{valid_max_event, LastValid, valid_max_event-LastValid}
use linux_uart.Run.Bits.{Bytes}
use linux_uart.Run.Dtc.{of_mpu, change_dtc-bits}
use linux_uart.Base.Int.{ℤ, pos, neg}
use linux_uart.Run.{run_test_loop}
use linux_uart.Run.Stress.{wrote, logged, failures, run_test_loop-counts}
use linux_uart.RegWrCb.{RegWrCbHandle}

abbrev map : List ℕ
map = 0x05 ∷ 0x80 ∷ 0 ∷ 0 ∷ []

map-Bytes : Bytes map
map-Bytes zero = omega arith
map-Bytes (suc zero) = omega arith
map-Bytes (suc (suc zero)) = omega arith
map-Bytes (suc (suc (suc zero))) = omega arith
map-Bytes (suc (suc (suc (suc i)))) = omega arith

-- Fault 9 may be changed, fault 5 may not.
change_dtc_run : change_dtc 9 5 map ≡ 0x05 ∷ 0x81 ∷ 0 ∷ 0 ∷ []
unfolding change_dtc
change_dtc_run = refl

change_dtc-bits_example :
    get_bit (change_dtc 9 5 map) 8
    ≡ (if of_mpu 5 && 8 == 5 - 1 then 0 else if of_mpu 9 && 8 == 9 - 1 then 1 else get_bit map 8)
change_dtc-bits_example = change_dtc-bits 9 5 8 map map-Bytes refl

-- Events 0, 2 and 15 are valid.
valid_max_event-LastValid_example : LastValid 48 map (valid_max_event 48 map)
valid_max_event-LastValid_example = valid_max_event-LastValid 48 map

-- Registers that fail at every other access.
abbrev flaky : RegWrCbHandle ℕ
flaky = record {
  read_reg = λ addr buf n timeout s. (if s % 2 == 0 then pos 0 else neg 2, buf, s + 1);
  write_reg = λ addr bytes n timeout s. (if s % 2 == 0 then pos 0 else neg 2, s + 1);
}

abbrev rounds_left : ℕ → ℕ → ℕ
rounds_left n i = 263 - n

-- Two of five writes fail.
test_run : (run_test_loop flaky rounds_left 5 0 true 0x40 2 (0 ∷ 0 ∷ []) 0).0 ≡ 2
unfolding run_test_loop
test_run = refl

run_test_loop-counts_example :
    let (err_cnt, _, (_, log1)) =
      run_test_loop (logged flaky) rounds_left 5 0 true 0x40 2 (0 ∷ 0 ∷ []) (0, []) in
    (rets : List ℤ) × (length rets ≡ 5)
    × (log1 ≡ [] ++ map_list (wrote 0x40 2 400) rets)
    × (err_cnt ≡ failures rets)
run_test_loop-counts_example =
    run_test_loop-counts flaky rounds_left 0x40 2 5 true (0 ∷ 0 ∷ []) 0 []
