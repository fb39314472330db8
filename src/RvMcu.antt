-- ===== src/RvMcu.antt =====
-- rearview_mcu.c: the registers of the rearview MCU by name, CAN messages and the watchdog. The
-- registers are those of a `RegWrCbHandle`; `spi_bus` is the one that the program uses.
pub mod Burn
pub mod Watchdog
pub mod Bus
pub mod Keeps
pub mod Simulated
pub mod Device
mod Tests
use linux_uart.Base.{
  ℕ, ◌+◌, ◌%◌, ◌^◌, List, [], ◌∷◌, get_or, take, replicate, ◌==◌, if◌then◌else◌, Option,
}
use linux_uart.Base.Int.{ℤ, pos, is_neg, eq_pos, neg, unsigned32}
use linux_uart.MemCtrl.{mem_bytes, mem_val}
use linux_uart.Os.{Os}
use linux_uart.SpiReg.{SpiRegHandle}
use linux_uart.RegWrCb.{RegWrCbHandle, gran_read, gran_write, clean}

-- `RVMcu_ReadReg` and `RVMcu_WriteReg`, and `regWrCbHandle`, which holds the two.
pub spi_bus : {W : Type 0} → Os W → RegWrCbHandle (Option SpiRegHandle × W)
spi_bus os = record {
  read_reg = λ addr buf n timeout s.
      let (ret, bytes, h, w) = linux_uart.SpiReg.read os s.0 addr n buf timeout s.1 in
      (ret, bytes, (h, w));
  write_reg = λ addr bytes n timeout s.
      let (ret, h, w) = linux_uart.SpiReg.write os s.0 addr n bytes timeout s.1 in (ret, (h, w));
}

-- `sizeof(PCanMsg)`
abbrev pub can_msg_size : ℕ
can_msg_size = 16

-- The addresses of the two CAN ring buffers and of the business registers.
abbrev pub cb_send_can_start : ℕ
cb_send_can_start = 0x1000

abbrev pub cb_receive_can_start : ℕ
cb_receive_can_start = 0x1008

abbrev pub business_reg_start : ℕ
business_reg_start = 0x1010

-- The offsets in `MpuBusinessReg`, which is packed.
abbrev pub mpu_online_cnt : ℕ
mpu_online_cnt = 1

abbrev pub offline_timeout_reset : ℕ
offline_timeout_reset = 2

abbrev pub dtc_map : ℕ
dtc_map = 4

abbrev pub mpu_config_byte : ℕ
mpu_config_byte = 8

abbrev pub reset_mcu : ℕ
reset_mcu = 88

abbrev pub is_left_rearview : ℕ
is_left_rearview = 89

abbrev pub mpu_supply_voltage : ℕ
mpu_supply_voltage = 90

abbrev pub mcu_debug_level : ℕ
mcu_debug_level = 94

abbrev pub nvm_erase : ℕ
nvm_erase = 98

abbrev pub production_date : ℕ
production_date = 102

abbrev pub shanqi_app_msg_cmd_sta : ℕ
shanqi_app_msg_cmd_sta = 166

module _ {S : Type 0} (bus : RegWrCbHandle S) where
  -- A read or a write of `n` bytes at an offset of the business registers, with the usual timeout.
  pub read_business : ℕ → List ℕ → ℕ → S → ℤ × List ℕ × S
  read_business offset buf n s = bus.read_reg (business_reg_start + offset) buf n 200 s

  pub write_business : ℕ → List ℕ → ℕ → S → ℤ × S
  write_business offset bytes n s = bus.write_reg (business_reg_start + offset) bytes n 200 s

  -- `RVMcu_SendCanMsgBlock`, and `RVMcu_SendCanMsg` for one message.
  unfoldable pub send_can_msg_block : List ℕ → ℕ → ℕ → S → ℤ × S
  send_can_msg_block can_msg cnt timeout s =
      gran_write bus cb_send_can_start can_msg can_msg_size cnt timeout s

  unfoldable pub send_can_msg : List ℕ → ℕ → S → ℤ × S
  send_can_msg can_msg timeout s = gran_write bus cb_send_can_start can_msg can_msg_size 1 timeout s

  -- `RVMcu_ReceiveCanMsgBlock`, and `RVMcu_ReceiveCanMsg` for one message.
  unfoldable pub receive_can_msg_block : List ℕ → ℕ → ℕ → S → ℤ × List ℕ × S
  receive_can_msg_block can_msg cnt timeout s =
      gran_read bus cb_receive_can_start can_msg can_msg_size cnt timeout s

  unfoldable pub receive_can_msg : List ℕ → ℕ → S → ℤ × List ℕ × S
  receive_can_msg can_msg timeout s =
      gran_read bus cb_receive_can_start can_msg can_msg_size 1 timeout s

  -- `RVMcu_CleanRxFifo`
  unfoldable pub clean_rx_fifo : ℕ → S → ℤ × S
  clean_rx_fifo timeout s = clean bus cb_receive_can_start timeout s

  -- `RVMcu_WdogGetSta`: the second result is what `is_on_wdog` points at.
  unfoldable pub wdog_get_sta : ℤ → S → ℤ × ℤ × S
  unfolding read_business
  wdog_get_sta is_on_wdog s =
      let (ret, sta, s1) = read_business offline_timeout_reset (0 ∷ []) 1 s in
      if is_neg ret then (ret, is_on_wdog, s1) else (pos 0, pos (get_or sta 0 0), s1)

  -- `RVMcu_WdogConfig`: the counter goes up by one, whether it could be read or not.
  unfoldable pub wdog_config : ℤ → S → ℤ × S
  unfolding read_business write_business
  wdog_config is_on_wdog s =
      let sta : ℕ = if eq_pos is_on_wdog 0 then 0 else 1 in
      let (_, cnt, s1) = read_business mpu_online_cnt (0 ∷ []) 1 s in
      let (_, s2) = write_business mpu_online_cnt ((get_or cnt 0 0 + 1) % 2 ^ 8 ∷ []) 1 s1 in
      write_business offline_timeout_reset (sta ∷ []) 1 s2

  -- `RVMcu_WdogFeed`: the first argument and the second result are the static `last_cnt`.
  unfoldable pub wdog_feed : ℕ → S → ℤ × ℕ × S
  unfolding read_business write_business
  wdog_feed last_cnt s =
      let (_, cnt, read_s) = read_business mpu_online_cnt (last_cnt ∷ []) 1 s in
      let (now, s1) : ℕ × S =
        if last_cnt == 0xff then ((get_or cnt 0 last_cnt + 1) % 2 ^ 8, read_s) else (last_cnt, s) in
      let (ret, s2) = write_business mpu_online_cnt (now ∷ []) 1 s1 in (ret, (now + 1) % 2 ^ 8, s2)

  -- `RVMcu_SetMcuDbgLevel`
  unfoldable pub set_mcu_dbg_level : ℤ → S → ℤ × S
  unfolding write_business mem_bytes
  set_mcu_dbg_level level s = write_business mcu_debug_level (mem_bytes 4 (unsigned32 level)) 4 s

  -- `RVMcu_CleanNvm`
  unfoldable pub clean_nvm : ℤ → S → ℤ × S
  unfolding read_business write_business mem_bytes mem_val
  clean_nvm nvm_index s =
      let (ret, busy, s1) = read_business nvm_erase (replicate 4 0) 4 s in
      if is_neg ret
      then (ret, s1)
      else if mem_val (take 4 busy) == 0
      then write_business nvm_erase (mem_bytes 4 (unsigned32 nvm_index)) 4 s1
      else (neg 4, s1)

  -- `RVMcu_ShanQiProductionDate`
  unfoldable pub shanqi_production_date : List ℕ → S → ℤ × S
  unfolding write_business
  shanqi_production_date date s = write_business production_date date 4 s

  -- `RVMcu_ShanQiCmsMsgSet`
  unfoldable pub shanqi_cms_msg_set : List ℕ → S → ℤ × S
  unfolding write_business
  shanqi_cms_msg_set msg_data s = write_business shanqi_app_msg_cmd_sta msg_data 8 s

  -- `RVMcu_WriteMpuDtc`
  unfoldable pub write_mpu_dtc : ℕ → S → ℤ × S
  unfolding write_business mem_bytes
  write_mpu_dtc map s = write_business dtc_map (mem_bytes 4 map) 4 s

  -- `RVMcu_ReadMpuDtc`: the first argument and the second result are what `dtc_map` points at.
  unfoldable pub read_mpu_dtc : ℕ → S → ℤ × ℕ × S
  unfolding read_business mem_bytes mem_val
  read_mpu_dtc map s =
      let (ret, bytes, s1) = read_business dtc_map (mem_bytes 4 map) 4 s in
      (ret, mem_val (take 4 bytes), s1)

  -- `RVMcu_McuReset`
  unfoldable pub mcu_reset : S → ℤ × S
  unfolding write_business
  mcu_reset s = write_business reset_mcu (1 ∷ []) 1 s

  -- `RVMcu_SetRearviewType`
  unfoldable pub set_rearview_type : ℤ → S → ℤ × S
  unfolding write_business
  set_rearview_type is_left s =
      write_business is_left_rearview (unsigned32 is_left % 2 ^ 8 ∷ []) 1 s

  -- `RVMcu_GetRearviewType`: the first argument and the second result are what the pointer points at.
  unfoldable pub get_rearview_type : ℤ → S → ℤ × ℤ × S
  unfolding read_business
  get_rearview_type is_left s =
      let (ret, sta, s1) = read_business is_left_rearview (0 ∷ []) 1 s in
      if is_neg ret then (ret, is_left, s1) else (ret, pos (get_or sta 0 0), s1)

  -- `RVMcu_GetConfig80Byte`
  unfoldable pub get_config_80byte : List ℕ → S → ℤ × List ℕ × S
  unfolding read_business
  get_config_80byte config s = read_business mpu_config_byte config 80 s

  -- `RVMcu_SetSupplyVoltage`
  unfoldable pub set_supply_voltage : ℕ → S → ℤ × S
  unfolding write_business mem_bytes
  set_supply_voltage mv s = write_business mpu_supply_voltage (mem_bytes 4 mv) 4 s
