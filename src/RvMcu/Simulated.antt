-- ===== src/RvMcu/Simulated.antt =====
-- rearview_mcu.c over two register buses that behave alike: the calls on named registers do the same
-- on both.
use linux_uart.Base.{ℕ, ◌+◌, ◌%◌, ◌^◌, ◌≤◌, ◌≡◌, arith, List, [], ◌∷◌, get_or, if◌then◌else◌}
use linux_uart.Base.Int.{ℤ, eq_pos}
use linux_uart.RegWrCb.{RegWrCbHandle}
use linux_uart.RegWrCb.Simulated.{Simulates}
use linux_uart.MemCtrl.{mem_bytes}
use linux_uart.MemCtrl.Reverse.{length-mem_bytes}
use linux_uart.RvMcu.{
  read_business, write_business, write_mpu_dtc, read_mpu_dtc, set_rearview_type, get_rearview_type,
  wdog_config, wdog_get_sta,
}

module _ {S T : Type 0} (h : RegWrCbHandle S) (g : RegWrCbHandle T) (limit : ℕ)
    (Stands : T → S → Type 0) (sim : Simulates h g 200 limit Stands) (enough : 4 ≤ limit) where
  pub write_mpu_dtc-same :
      (map : ℕ) (t : T) (s : S)
      → Stands t s
      → let (ret, s1) = write_mpu_dtc h map s in
        let (ret', t1) = write_mpu_dtc g map t in (ret ≡ ret') × Stands t1 s1
  unfolding write_mpu_dtc write_business
  write_mpu_dtc-same map t s rel =
      sim.writes 0x1014 4 (mem_bytes 4 map) t s (omega arith) enough
        (omega (arith, length-mem_bytes 4 map)) rel

  pub read_mpu_dtc-same :
      (map : ℕ) (t : T) (s : S)
      → Stands t s
      → let (ret, map1, s1) = read_mpu_dtc h map s in
        let (ret', map', t1) = read_mpu_dtc g map t in (ret ≡ ret') × (map1 ≡ map') × Stands t1 s1
  unfolding read_mpu_dtc read_business
  read_mpu_dtc-same map t s rel = ground (
    arith,
    sim.reads 0x1014 4 (mem_bytes 4 map) t s (omega arith) enough
        (omega (arith, length-mem_bytes 4 map)) rel,
  )

  pub set_rearview_type-same :
      (is_left : ℤ) (t : T) (s : S)
      → Stands t s
      → let (ret, s1) = set_rearview_type h is_left s in
        let (ret', t1) = set_rearview_type g is_left t in (ret ≡ ret') × Stands t1 s1
  unfolding set_rearview_type write_business
  set_rearview_type-same is_left t s rel =
      sim.writes 0x1069 1 _ t s (omega arith) (omega arith) (omega arith) rel

  pub get_rearview_type-same :
      (is_left : ℤ) (t : T) (s : S)
      → Stands t s
      → let (ret, got, s1) = get_rearview_type h is_left s in
        let (ret', got', t1) = get_rearview_type g is_left t in
        (ret ≡ ret') × (got ≡ got') × Stands t1 s1
  unfolding get_rearview_type read_business
  get_rearview_type-same is_left t s rel =
      ground (arith, sim.reads 0x1069 1 (0 ∷ []) t s (omega arith) (omega arith) (omega arith) rel)

  pub wdog_config-same :
      (is_on_wdog : ℤ) (t : T) (s : S)
      → Stands t s
      → let (ret, s1) = wdog_config h is_on_wdog s in
        let (ret', t1) = wdog_config g is_on_wdog t in (ret ≡ ret') × Stands t1 s1
  unfolding wdog_config read_business write_business
  wdog_config-same is_on_wdog t s rel =
      let (_, cnt, t1) = g.read_reg 0x1011 (0 ∷ []) 1 200 t in
      let s1 = (h.read_reg 0x1011 (0 ∷ []) 1 200 s).2 in
      let now : List ℕ = (get_or cnt 0 0 + 1) % 2 ^ 8 ∷ [] in
      let sta : List ℕ = (if eq_pos is_on_wdog 0 then 0 else 1) ∷ [] in
      let t2 = (g.write_reg 0x1011 now 1 200 t1).1 in
      let s2 = (h.write_reg 0x1011 now 1 200 s1).1 in
      ground (
        arith,
        sim.reads 0x1011 1 (0 ∷ []) t s (omega arith) (omega arith) (omega arith) rel,
        sim.writes 0x1011 1 now t1 s1 (omega arith) (omega arith) (omega arith),
        sim.writes 0x1012 1 sta t2 s2 (omega arith) (omega arith) (omega arith),
      )

  pub wdog_get_sta-same :
      (is_on_wdog : ℤ) (t : T) (s : S)
      → Stands t s
      → let (ret, sta, s1) = wdog_get_sta h is_on_wdog s in
        let (ret', sta', t1) = wdog_get_sta g is_on_wdog t in
        (ret ≡ ret') × (sta ≡ sta') × Stands t1 s1
  unfolding wdog_get_sta read_business
  wdog_get_sta-same is_on_wdog t s rel =
      ground (arith, sim.reads 0x1012 1 (0 ∷ []) t s (omega arith) (omega arith) (omega arith) rel)
