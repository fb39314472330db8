-- ===== src/RvMcu/Keeps.antt =====
-- rearview_mcu.c and regwr_cb.c: what every access of a register leaves as it is, the calls built on
-- them leave as it is.
use linux_uart.Base.{ℕ, ◌+◌, ◌%◌, ◌/◌, ◌*◌, ◌^◌, ◌≡◌, arith, List, [], ◌∷◌, get_or, replicate}
use linux_uart.Base.Int.{ℤ, to_ℕ, unsigned32}
use linux_uart.MemCtrl.{mem_bytes}
use linux_uart.RegWrCb.{RegWrCbHandle, clip, size, free_size, write, gran_read, gran_write, clean}
use linux_uart.RvMcu.{wdog_feed, wdog_config, clean_nvm, get_rearview_type}

-- The part of a state that `view` shows stays `v` through every access.
pub record BusKeeps {S V : Type 0} (bus : RegWrCbHandle S) (view : S → V) (v : V) : Type 0 where
  pub reads :
      (addr : ℕ) (buf : List ℕ) (n timeout : ℕ) (s : S)
      → view s ≡ v
      → view (bus.read_reg addr buf n timeout s).2 ≡ v
  pub writes :
      (addr : ℕ) (bytes : List ℕ) (n timeout : ℕ) (s : S)
      → view s ≡ v
      → view (bus.write_reg addr bytes n timeout s).1 ≡ v

module _ {S V : Type 0} (bus : RegWrCbHandle S) (view : S → V) (v : V)
    (k : BusKeeps bus view v) where
  size-kept : (cb_addr timeout : ℕ) (s : S) → view s ≡ v → view (size bus cb_addr timeout s).1 ≡ v
  unfolding size
  size-kept cb_addr timeout s h =
      ground (arith, k.reads ((cb_addr + 0) % 2 ^ 16) (replicate 4 0) 4 timeout s h)

  free_size-kept :
      (cb_addr timeout : ℕ) (s : S) → view s ≡ v → view (free_size bus cb_addr timeout s).1 ≡ v
  unfolding free_size
  free_size-kept cb_addr timeout s h =
      ground (arith, k.reads ((cb_addr + 1) % 2 ^ 16) (replicate 4 0) 4 timeout s h)

  pub write-kept :
      (cb_addr : ℕ) (bytes : List ℕ) (n timeout : ℕ) (s : S)
      → view s ≡ v
      → view (write bus cb_addr bytes n timeout s).1 ≡ v
  unfolding write
  write-kept cb_addr bytes n timeout s h =
      let (ret, s1) = free_size bus cb_addr timeout s in
      let kept = free_size-kept cb_addr timeout s h in
      ground (
        arith,
        kept,
        k.writes ((cb_addr + 3) % 2 ^ 16) bytes (clip (n % 2 ^ 16) (to_ℕ ret)) timeout s1 kept,
      )

  pub gran_write-kept :
      (cb_addr : ℕ) (bytes : List ℕ) (gran_size nmemb timeout : ℕ) (s : S)
      → view s ≡ v
      → view (gran_write bus cb_addr bytes gran_size nmemb timeout s).1 ≡ v
  unfolding gran_write
  gran_write-kept cb_addr bytes gran_size nmemb timeout s h =
      let (ret, s1) = free_size bus cb_addr timeout s in
      let w_num = clip (to_ℕ ret / gran_size) (nmemb % 2 ^ 16) in
      let kept = free_size-kept cb_addr timeout s h in
      ground (
        arith,
        kept,
        k.writes ((cb_addr + 3) % 2 ^ 16) bytes (w_num * gran_size % 2 ^ 32 % 2 ^ 16) timeout s1
            kept,
      )

  pub gran_read-kept :
      (cb_addr : ℕ) (buf : List ℕ) (gran_size nmemb timeout : ℕ) (s : S)
      → view s ≡ v
      → view (gran_read bus cb_addr buf gran_size nmemb timeout s).2 ≡ v
  unfolding gran_read
  gran_read-kept cb_addr buf gran_size nmemb timeout s h =
      let (ret, s1) = size bus cb_addr timeout s in
      let r_num = clip (to_ℕ ret / gran_size) (nmemb % 2 ^ 16) in
      let kept = size-kept cb_addr timeout s h in
      ground (
        arith,
        kept,
        k.reads ((cb_addr + 2) % 2 ^ 16) buf (r_num * gran_size % 2 ^ 32 % 2 ^ 16) timeout s1 kept,
      )

  pub clean-kept :
      (cb_addr timeout : ℕ) (s : S) → view s ≡ v → view (clean bus cb_addr timeout s).1 ≡ v
  unfolding clean
  clean-kept cb_addr timeout s h =
      ground (arith, k.writes ((cb_addr + 4) % 2 ^ 16) (0 ∷ []) 1 timeout s h)

  pub wdog_feed-kept : (last_cnt : ℕ) (s : S) → view s ≡ v → view (wdog_feed bus last_cnt s).2 ≡ v
  unfolding wdog_feed
  wdog_feed-kept last_cnt s h =
      let (_, cnt, s1) = bus.read_reg 0x1011 (last_cnt ∷ []) 1 200 s in
      let next = (get_or cnt 0 last_cnt + 1) % 2 ^ 8 in
      ground (
        arith,
        k.writes 0x1011 (next ∷ []) 1 200 s1 (k.reads 0x1011 (last_cnt ∷ []) 1 200 s h),
        k.writes 0x1011 (last_cnt ∷ []) 1 200 s h,
      )

  pub wdog_config-kept :
      (is_on_wdog : ℤ) (s : S) → view s ≡ v → view (wdog_config bus is_on_wdog s).1 ≡ v
  unfolding wdog_config
  wdog_config-kept is_on_wdog s h =
      k.writes _ _ 1 200 _ (k.writes _ _ 1 200 _ (k.reads 0x1011 (0 ∷ []) 1 200 s h))

  pub clean_nvm-kept : (nvm_index : ℤ) (s : S) → view s ≡ v → view (clean_nvm bus nvm_index s).1 ≡ v
  unfolding clean_nvm
  clean_nvm-kept nvm_index s h =
      let kept = k.reads 0x1072 (0 ∷ 0 ∷ 0 ∷ 0 ∷ []) 4 200 s h in
      ground (arith, kept, k.writes 0x1072 (mem_bytes 4 (unsigned32 nvm_index)) 4 200 _ kept)

  pub get_rearview_type-kept :
      (is_left : ℤ) (s : S) → view s ≡ v → view (get_rearview_type bus is_left s).2 ≡ v
  unfolding get_rearview_type
  get_rearview_type-kept is_left s h = ground (arith, k.reads 0x1069 (0 ∷ []) 1 200 s h)
