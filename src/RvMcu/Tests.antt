-- ===== src/RvMcu/Tests.antt =====
-- The theorems on the registers of the MCU, at runs of small machines.
use linux_uart.Base.{ℕ, get_or, ◌%◌, ◌≡◌, ◌≢◌, inl, refl, arith, [], ◌∷◌}
use linux_uart.Base.Int.{pos}
use linux_uart.RegWrCb.{RegWrCbHandle}
use linux_uart.RvMcu.{wdog_feed, write_business}
use linux_uart.RvMcu.Watchdog.{CounterReg, wdog_feed-advances}

-- A register that holds a counter.
abbrev counter_bus : RegWrCbHandle ℕ
counter_bus = record {
  read_reg = λ addr buf n timeout s. (pos 0, s % 256 ∷ [], s);
  write_reg = λ addr bytes n timeout s. (pos 0, get_or bytes 0 0);
}

abbrev counter_reg : CounterReg counter_bus (λ s. s % 256)
counter_reg = record {
  byte = λ s. omega arith;
  read_counter = λ v s. (refl, λ ok. refl);
  write_counter = λ v s small ok. omega arith;
}

wdog_feed-advances_example :
    ((wdog_feed counter_bus 8 7).2 % 256 ≡ 8)
    × ((wdog_feed counter_bus 8 7).2 % 256 ≢ 7)
    × ((wdog_feed counter_bus 8 7).1 ≡ 9)
unfolding wdog_feed write_business
wdog_feed-advances_example =
    wdog_feed-advances counter_bus (λ s. s % 256) counter_reg 8 7
      (inl (λ e. omega (arith, e), refl)) refl
