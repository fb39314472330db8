-- ===== src/RvMcu/Watchdog.antt =====
-- rearview_mcu.c: feeding the watchdog, which wants to see a counter change.
use linux_uart.Base.{
  ℕ, ◌+◌, ◌%◌, ◌^◌, ◌<◌, ◌≡◌, ◌≢◌, ◌⊎◌, inl, inr, refl, arith, false, [], ◌∷◌, get_or, ◌==◌,
}
use linux_uart.Base.Int.{is_neg}
use linux_uart.RegWrCb.{RegWrCbHandle}
use linux_uart.RvMcu.{business_reg_start, mpu_online_cnt, wdog_feed, read_business, write_business}

-- `counter` is the register `mpu_online_cnt` of the MCU: an access that succeeds reads or writes it,
-- a read changes nothing, and a failed read leaves the caller's byte alone.
pub record CounterReg {S : Type 0} (bus : RegWrCbHandle S) (counter : S → ℕ) : Type 0 where
  pub byte : (s : S) → counter s < 2 ^ 8
  pub read_counter :
      (v : ℕ) (s : S)
      → let (ret, buf, s1) = bus.read_reg (business_reg_start + mpu_online_cnt) (v ∷ []) 1 200 s in
        (counter s1 ≡ counter s) × (is_neg ret ≡ false → buf ≡ counter s ∷ [])
  pub write_counter :
      (v : ℕ) (s : S)
      → v < 2 ^ 8
      → let (ret, s1) = bus.write_reg (business_reg_start + mpu_online_cnt) (v ∷ []) 1 200 s in
        is_neg ret ≡ false → counter s1 ≡ v

module _ {S : Type 0} (bus : RegWrCbHandle S) (counter : S → ℕ) (reg : CounterReg bus counter) where
  -- The static counter is one ahead of the MCU; or it is 0xff, and then the register can be read.
  abbrev pub InStep : ℕ → S → Type 0
  InStep last_cnt s =
      ((last_cnt ≢ 0xff) × (last_cnt ≡ (counter s + 1) % 2 ^ 8))
      ⊎ ((last_cnt ≡ 0xff)
          × (is_neg (bus.read_reg (business_reg_start + mpu_online_cnt) (0xff ∷ []) 1 200 s).0
              ≡ false))

  -- What follows from writing the number after the counter.
  written :
      (v : ℕ) (s : S) (c : ℕ)
      → c < 2 ^ 8
      → v ≡ (c + 1) % 2 ^ 8
      → let (ret, s1) = write_business bus mpu_online_cnt (v ∷ []) 1 s in
        is_neg ret ≡ false
        → (counter s1 ≡ (c + 1) % 2 ^ 8)
          × (counter s1 ≢ c)
          × ((v + 1) % 2 ^ 8 ≡ (counter s1 + 1) % 2 ^ 8)
  unfolding write_business
  written v s c small e ok = rw (reg.write_counter v s (omega arith) ok) (e, next_differs, refl)
    where
      next_differs : v ≢ c
      next_differs same = omega arith

  -- Feeding the watchdog changes the counter of the MCU, and goes on to do so: a feed that does not
  -- fail, with the static counter one ahead of the MCU, or at 0xff and the register readable, puts
  -- the counter one further, modulo 256, and leaves the static one again one ahead of it.
  pub wdog_feed-advances :
      (last_cnt : ℕ) (s : S)
      → InStep last_cnt s
      → let (ret, last_cnt1, s1) = wdog_feed bus last_cnt s in
        is_neg ret ≡ false
        → (counter s1 ≡ (counter s + 1) % 2 ^ 8)
          × (counter s1 ≢ counter s)
          × (last_cnt1 ≡ (counter s1 + 1) % 2 ^ 8)
  unfolding wdog_feed read_business write_business
  wdog_feed-advances last_cnt s (inl (other, ahead)) ok =
      let other_value : last_cnt == 0xff ≡ false = ground arith in
      rw other_value (written last_cnt s (counter s) (reg.byte s) ahead (rw other_value at ok))
  wdog_feed-advances last_cnt s (inr (sync, readable)) ok =
      let (_, buf, s1) = bus.read_reg (business_reg_start + mpu_online_cnt) (0xff ∷ []) 1 200 s in
      let (kept, value) = reg.read_counter 0xff s in
      rw sync (
        written ((get_or buf 0 0xff + 1) % 2 ^ 8) s1 (counter s) (reg.byte s)
          (rw (value readable) refl) (rw sync at ok))
