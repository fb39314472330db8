-- ===== src/Run.antt =====
-- run.c: the commands of the program, and general/inc/bits.h. What is printed is left out. The
-- registers are those of a `RegWrCbHandle`, and the static counter of the watchdog is passed through.
pub mod Config
pub mod Show
pub mod Loops
pub mod Dispatch
pub mod Bits
pub mod Dtc
pub mod Events
pub mod Stress
mod Tests
use linux_uart.Base.{
  ℕ, zero, suc, ◌+◌, ◌-◌, ◌*◌, ◌/◌, ◌%◌, ◌^◌, ◌≤◌, Bool, true, false, ◌&&◌, ◌||◌, not, List, [],
  ◌∷◌, ◌++◌, get_or, set, take, drop, length, replicate, ltb, leb, ◌==◌, bit_and, bit_or,
  if◌then◌else◌, Option, none, some,
}
use linux_uart.Base.Int.{ℤ, pos, is_neg, is_positive, eq_pos, to_ℕ, neg}
use linux_uart.MemCtrl.{mem_bytes, mem_val}
use linux_uart.RegWrCb.{RegWrCbHandle}
use linux_uart.RvMcu.{
  read_mpu_dtc, write_mpu_dtc, wdog_feed, wdog_config, send_can_msg, send_can_msg_block,
  receive_can_msg_block,
}

-- `Get_Bit` and `Set_Bit` on the bytes at `Start`; `val` is 0 or 1.
pub get_bit : List ℕ → ℕ → ℕ
get_bit start bit_x = bit_and (get_or start (bit_x / 8) 0 / 2 ^ (bit_x % 8)) 1

pub put_bit : ℕ → ℕ → ℕ → ℕ
put_bit byte k val = bit_or (bit_and byte (255 - 2 ^ k)) (val * 2 ^ k)

pub set_bit : List ℕ → ℕ → ℕ → List ℕ
unfolding put_bit
set_bit start bit_x val =
    set start (bit_x / 8) (put_bit (get_or start (bit_x / 8) 0) (bit_x % 8) val)

-- MPU_DTC_MAP_MASK
abbrev pub mpu_dtc_map_mask : ℕ
mpu_dtc_map_mask = 0x0000078F

-- Whether a fault number from the command line, counted from 1, is one that the MPU may change.
pub changeable : ℕ → Bool
unfolding get_bit mem_bytes
changeable dtc = ltb 0 dtc && leb dtc 32 && (get_bit (mem_bytes 4 mpu_dtc_map_mask) (dtc - 1) == 1)

-- The two `if`s of `fun_set_or_clean_mpu_dtc`, on the bytes of `dtc_map`.
pub change_dtc : ℕ → ℕ → List ℕ → List ℕ
unfolding changeable set_bit
change_dtc set_dtc clean_dtc map =
    let map1 = if changeable set_dtc then set_bit map (set_dtc - 1) 1 else map in
    if changeable clean_dtc then set_bit map1 (clean_dtc - 1) 0 else map1

-- The loop of `make_data`: `n` bytes from byte `i` on.
pub make_data_loop : (ℕ → ℕ) → ℕ → ℕ → List ℕ → List ℕ
make_data_loop rand zero i wr_buf = wr_buf
make_data_loop rand (suc n) i wr_buf = make_data_loop rand n (i + 1) (set wr_buf i (rand i % 2 ^ 8))

-- `make_data`, of a count of 16 bits. `rand` is what rand returns for each byte.
pub make_data : (ℕ → ℕ) → ℕ → List ℕ → List ℕ
unfolding make_data_loop
make_data rand cnt wr_buf = make_data_loop rand (cnt % 2 ^ 16) 0 wr_buf

module _ {S : Type 0} (bus : RegWrCbHandle S) where
  -- `fun_set_or_clean_mpu_dtc`: the static counter is the second result. An uninitialised `dtc_map` is
  -- 0 here; the read sets it unless it fails.
  unfoldable pub fun_set_or_clean_mpu_dtc : ℕ → ℕ → ℕ → S → ℤ × ℕ × S
  unfolding change_dtc mem_bytes mem_val
  fun_set_or_clean_mpu_dtc set_dtc clean_dtc last_cnt s =
      let (r1, dtc_map, s1) = read_mpu_dtc bus 0 s in
      let (_, last_cnt2, s2) = wdog_feed bus last_cnt s1 in
      let changed = mem_val (change_dtc set_dtc clean_dtc (mem_bytes 4 dtc_map)) in
      let (r3, s3) = write_mpu_dtc bus changed s2 in
      if set_dtc == clean_dtc
      then (pos 0, last_cnt, s)
      else if is_neg r1
      then (neg 1, last_cnt, s1)
      else if is_neg r3
      then (neg 1, last_cnt2, s3)
      else (pos 0, last_cnt2, s3)

  -- `_run_test`: the rounds that are left, with the errors so far. `rand n i` is what rand returns
  -- for byte `i` when `n` rounds come after this one.
  pub run_test_loop : (ℕ → ℕ → ℕ) → ℕ → ℕ → Bool → ℕ → ℕ → List ℕ → S → ℕ × List ℕ × S
  unfolding make_data
  run_test_loop rand zero err_cnt is_write reg_addr reg_cnt wr_buf s = (err_cnt, wr_buf, s)
  run_test_loop rand (suc n) err_cnt is_write reg_addr reg_cnt wr_buf s =
      let sent = make_data (rand n) reg_cnt wr_buf in
      let (rw, sw) = bus.write_reg (reg_addr % 2 ^ 16) sent reg_cnt 400 s in
      let (rr, got, sr) = bus.read_reg (reg_addr % 2 ^ 16) wr_buf reg_cnt 400 s in
      let (ret, buf, s1) : ℤ × List ℕ × S = if is_write then (rw, sent, sw) else (rr, got, sr) in
      run_test_loop rand n (if is_neg ret then err_cnt + 1 else err_cnt) is_write reg_addr reg_cnt
        buf s1

  -- `fun_wr`
  unfoldable pub fun_wr : (ℕ → ℕ → ℕ) → ℕ → Bool → ℕ → ℕ → List ℕ → S → ℤ × List ℕ × S
  unfolding run_test_loop
  fun_wr rand test_cnt is_write reg_addr reg_cnt wr_buf s =
      let (_, buf, st) = run_test_loop rand test_cnt 0 is_write reg_addr reg_cnt wr_buf s in
      let (rw, sw) = bus.write_reg (reg_addr % 2 ^ 16) wr_buf reg_cnt 400 s in
      let (rr, got, sr) = bus.read_reg (reg_addr % 2 ^ 16) wr_buf reg_cnt 400 s in
      if ltb 0 test_cnt
      then (pos 0, buf, st)
      else if is_write
      then (if is_neg rw then neg 1 else pos 0, wr_buf, sw)
      else (if is_neg rr then neg 1 else pos 0, got, sr)

  -- The 16 bytes of the `PCanMsg` that `fun_send_can_msg` makes, and the call.
  pub can_msg : ℕ → ℕ → List ℕ → List ℕ
  unfolding mem_bytes
  can_msg can_id reg_cnt wr_buf =
      let can_len = if ltb 8 reg_cnt then 8 else reg_cnt in
      mem_bytes 4 can_id
      ++ (take 8 (take can_len wr_buf ++ replicate 8 0) ++ (0 ∷ 0 ∷ can_len ∷ 0 ∷ []))

  unfoldable pub fun_send_can_msg : ℕ → ℕ → List ℕ → S → ℤ × S
  unfolding can_msg
  fun_send_can_msg can_id reg_cnt wr_buf s = send_can_msg bus (can_msg can_id reg_cnt wr_buf) 200 s

  -- `fun_setting_wdog`
  unfoldable pub fun_setting_wdog : Bool → ℤ → S → ℤ × S
  fun_setting_wdog is_close_wdog is_opne_wdog s =
      wdog_config bus (if is_close_wdog then pos 0 else is_opne_wdog) s

  -- `fun_goto_bootloader` and `fun_exit_bootloader`: `wr_buf` is where the info goes.
  unfoldable pub fun_goto_bootloader : List ℕ → S → ℤ × S
  unfolding mem_val
  fun_goto_bootloader wr_buf s =
      let (ret, info, s1) = bus.read_reg 0 wr_buf 88 200 s in
      if is_neg ret
      then (neg 1, s1)
      else if mem_val (take 4 (drop 36 info)) == 0
      then (pos 0, s1)
      else bus.write_reg 0x1400 (0xFF ∷ 0 ∷ []) 1 200 s1

  unfoldable pub fun_exit_bootloader : List ℕ → S → ℤ × S
  unfolding mem_val
  fun_exit_bootloader wr_buf s =
      let (ret, info, s1) = bus.read_reg 0 wr_buf 88 200 s in
      if is_neg ret
      then (neg 1, s1)
      else if mem_val (take 4 (drop 36 info)) == 0
      then bus.write_reg 0x1400 (8 ∷ 0 ∷ []) 1 200 s1
      else (pos 0, s1)
