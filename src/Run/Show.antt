-- ===== src/Run/Show.antt =====
-- run.c: the commands that show what they read from the MCU. What they print is returned, less the
-- words around it.
use linux_uart.Base.{
  ℕ, zero, suc, ◌+◌, List, [], ◌∷◌, take, drop, ◌==◌, if◌then◌else◌, Option, none, some,
}
use linux_uart.Base.Int.{ℤ, pos, is_neg, eq_pos, neg}
use linux_uart.MemCtrl.{mem_bytes, mem_val}
use linux_uart.RegWrCb.{RegWrCbHandle}
use linux_uart.RvMcu.{read_mpu_dtc, get_rearview_type}
use linux_uart.Run.{get_bit, mpu_dtc_map_mask}

-- `McuInfo`, which is packed, and the type of the mirror where it could be read.
pub record ShownInfo : Type 0 where
  pub partition : ℕ
  pub sn : List ℕ
  pub software_model : List ℕ
  pub software_version : List ℕ
  pub rearview : Option ℤ

-- The faults of the MPU among the next ones from fault `i + 1` on, with their bits.
pub show_faults : ℕ → ℕ → ℕ → List (ℕ × ℕ)
unfolding get_bit mem_bytes
show_faults zero i dtc_map = []
show_faults (suc n) i dtc_map =
    let rest = show_faults n (i + 1) dtc_map in
    if get_bit (mem_bytes 4 mpu_dtc_map_mask) i == 0
    then rest
    else (i + 1, get_bit (mem_bytes 4 dtc_map) i) ∷ rest

module _ {S : Type 0} (bus : RegWrCbHandle S) where
  -- `fun_show_mcu_info`: `info` is `wr_buf`, into which the 88 bytes are read. The variable that the
  -- type is read into counts only after it was read.
  unfoldable pub fun_show_mcu_info : List ℕ → S → ℤ × Option ShownInfo × S
  unfolding mem_val
  fun_show_mcu_info wr_buf s =
      let (ret, info, s1) = bus.read_reg 0 wr_buf 88 200 s in
      let (typed, is_left_rearview, s2) = get_rearview_type bus (pos 0) s1 in
      if is_neg ret then (neg 1, none, s1) else (
        pos 0,
        some (record {
          partition = mem_val (take 4 (drop 36 info));
          sn = take 32 (drop 4 info);
          software_model = take 48 (drop 40 info);
          software_version = take 3 info;
          rearview = if eq_pos typed 0 then some is_left_rearview else none;
        }),
        s2,
      )

  -- `fun_show_mpu_dtc`, with its loop over the first twelve faults.
  unfoldable pub fun_show_mpu_dtc : S → ℤ × List (ℕ × ℕ) × S
  unfolding show_faults
  fun_show_mpu_dtc s =
      let (ret, dtc_map, s1) = read_mpu_dtc bus 0 s in
      if is_neg ret then (neg 1, [], s1) else (pos 0, show_faults 12 0 dtc_map, s1)
