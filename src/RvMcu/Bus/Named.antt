-- ===== src/RvMcu/Bus/Named.antt =====
-- The named registers through all layers of the program.
use linux_uart.Base.{ℕ, ◌<◌, ◌^◌, ◌≡◌, ap, ◌∙◌, arith, Option, if◌then◌else◌}
use linux_uart.Base.Int.{ℤ, pos, eq_pos}
use linux_uart.MemCtrl.{mem_bytes}
use linux_uart.Os.{Os}
use linux_uart.SpiReg.{SpiRegHandle}
use linux_uart.SpiReg.Mcu.{View, McuLink}
use linux_uart.SpiReg.Mcu.Memory.{memory}
use linux_uart.RvMcu.{
  spi_bus, write_mpu_dtc, read_mpu_dtc, set_rearview_type, get_rearview_type, wdog_config,
  wdog_get_sta,
}
use linux_uart.RvMcu.Simulated.{
  write_mpu_dtc-same, read_mpu_dtc-same, set_rearview_type-same, get_rearview_type-same,
  wdog_config-same, wdog_get_sta-same,
}
use linux_uart.RvMcu.Bus.Refine.{file_bus, Ready, spi_bus-Simulates}

-- The fault map after the three settings are made.
memory_dtc :
    (map is_left old : ℕ) (on : ℤ) (r : ℕ → ℕ)
    → map < 2 ^ 32
    → let r1 = (write_mpu_dtc (file_bus memory) map r).1 in
      let r2 = (set_rearview_type (file_bus memory) (pos is_left) r1).1 in
      let r3 = (wdog_config (file_bus memory) on r2).1 in
      (read_mpu_dtc (file_bus memory) old r3).1 ≡ map
unfolding write_mpu_dtc set_rearview_type wdog_config read_mpu_dtc file_bus mem_bytes
memory_dtc map is_left old on r h = omega arith

memory_rearview :
    (map is_left : ℕ) (old on : ℤ) (r : ℕ → ℕ)
    → is_left < 256
    → let r1 = (write_mpu_dtc (file_bus memory) map r).1 in
      let r2 = (set_rearview_type (file_bus memory) (pos is_left) r1).1 in
      let r3 = (wdog_config (file_bus memory) on r2).1 in
      (get_rearview_type (file_bus memory) old r3).1 ≡ pos is_left
unfolding write_mpu_dtc set_rearview_type wdog_config get_rearview_type file_bus mem_bytes
memory_rearview map is_left old on r h = ap pos (omega arith)

module _ {W : Type 0} (os : Os W) (h : SpiRegHandle) (view : W → View (ℕ → ℕ))
    (link : McuLink os memory h.fd h.uart_fd 200 view) where
  -- With an MCU that keeps what is written to a register until it is written again, over a link that
  -- works: a fault map, the side of the mirror and the switch of the watchdog that are set one after
  -- the other are all there afterwards. Each of the three settings and of the three queries returns 0,
  -- and each query gives the value that was set, so no setting disturbs another.
  pub settings-read_back :
      (map is_left old : ℕ) (on side sta : ℤ) (r : ℕ → ℕ) (s : Option SpiRegHandle × W)
      → map < 2 ^ 32
      → is_left < 256
      → Ready os memory h 200 view link r s
      → let (ret1, s1) = write_mpu_dtc (spi_bus os) map s in
        let (ret2, s2) = set_rearview_type (spi_bus os) (pos is_left) s1 in
        let (ret3, s3) = wdog_config (spi_bus os) on s2 in
        let (ret4, map1, s4) = read_mpu_dtc (spi_bus os) old s3 in
        let (ret5, side1, s5) = get_rearview_type (spi_bus os) side s4 in
        let (ret6, sta1, _) = wdog_get_sta (spi_bus os) sta s5 in
        (ret1 ≡ pos 0)
        × (ret2 ≡ pos 0)
        × (ret3 ≡ pos 0)
        × ((ret4 ≡ pos 0) × (map1 ≡ map))
        × ((ret5 ≡ pos 0) × (side1 ≡ pos is_left))
        × ((ret6 ≡ pos 0) × (sta1 ≡ pos (if eq_pos on 0 then 0 else 1)))
  unfolding file_bus write_mpu_dtc set_rearview_type wdog_config read_mpu_dtc get_rearview_type
      wdog_get_sta
  settings-read_back map is_left old on side sta r s hm hl ready =
      let bus = spi_bus os in
      let file = file_bus memory in
      let sim = spi_bus-Simulates os memory h 200 view link in
      let r1 = (write_mpu_dtc file map r).1 in
      let s1 = (write_mpu_dtc bus map s).1 in
      let (w1, ready1) = write_mpu_dtc-same bus file 1022 _ sim (omega arith) map r s ready in
      let r2 = (set_rearview_type file (pos is_left) r1).1 in
      let s2 = (set_rearview_type bus (pos is_left) s1).1 in
      let (w2, ready2) =
        set_rearview_type-same bus file 1022 _ sim (omega arith) (pos is_left) r1 s1 ready1 in
      let r3 = (wdog_config file on r2).1 in
      let s3 = (wdog_config bus on s2).1 in
      let (w3, ready3) = wdog_config-same bus file 1022 _ sim (omega arith) on r2 s2 ready2 in
      let s4 = (read_mpu_dtc bus old s3).2 in
      let (w4, got4, ready4) =
        read_mpu_dtc-same bus file 1022 _ sim (omega arith) old r3 s3 ready3 in
      let s5 = (get_rearview_type bus side s4).2 in
      let (w5, got5, ready5) =
        get_rearview_type-same bus file 1022 _ sim (omega arith) side r3 s4 ready4 in
      let (w6, got6, _) = wdog_get_sta-same bus file 1022 _ sim (omega arith) sta r3 s5 ready5 in
      (
        w1,
        w2,
        w3,
        (w4, got4 ∙ memory_dtc map is_left old on r hm),
        (w5, got5 ∙ memory_rearview map is_left side on r hl),
        (w6, got6),
      )
