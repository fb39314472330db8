-- ===== src/RegWrCb/Sure.antt =====
-- regwr_cb.c over a register bus on which no access fails: the calls on a ring buffer do not fail.
use linux_uart.Base.{
  ℕ, ◌-◌, ◌*◌, ◌/◌, ◌%◌, ◌^◌, ◌<◌, min, ◌≡◌, arith, List, [], ◌∷◌, ◌++◌, take, drop, length,
  replicate,
}
use linux_uart.Base.Int.{pos, to_ℕ}
use linux_uart.RegWrCb.{
  RegWrCbHandle, reg_at, clip, cbreg_cmd_get_size, cbreg_cmd_get_freesize, cbreg_cmd_read,
  cbreg_cmd_write, cbreg_cmd_clean, read_int, size, free_size, fetch, read, write, gran_read,
  gran_write, clean,
}
use linux_uart.RegWrCb.Ring.{
  RingRegs, signed32-mem_bytes, read-takes_front, write-appends, clean-empties,
}
use linux_uart.RegWrCb.Granular.{gran_read-takes_elements, gran_write-appends_elements}

-- No access fails.
pub record NeverFails {S : Type 0} (h : RegWrCbHandle S) : Type 0 where
  pub reads :
      (addr : ℕ) (buf : List ℕ) (n timeout : ℕ) (s : S)
      → (h.read_reg addr buf n timeout s).0 ≡ pos 0
  pub writes :
      (addr : ℕ) (bytes : List ℕ) (n timeout : ℕ) (s : S)
      → (h.write_reg addr bytes n timeout s).0 ≡ pos 0

module _ {S : Type 0} (h : RegWrCbHandle S) (cb_addr timeout capacity : ℕ) (contents : S → List ℕ)
    (ring : RingRegs h cb_addr timeout capacity contents) (sure : NeverFails h) where
  size-sure : (s : S) → (size h cb_addr timeout s).0 ≡ pos (length (contents s))
  unfolding size read_int
  size-sure s =
      let read_back =
        signed32-mem_bytes (length (contents s))
          (omega (arith, ring.bounded s, ring.addressable)) in
      ground (
        arith,
        ring.get_size (replicate 4 0) s,
        read_back,
        sure.reads (reg_at cb_addr cbreg_cmd_get_size) (replicate 4 0) 4 timeout s,
      )

  free_size-sure :
      (s : S) → (free_size h cb_addr timeout s).0 ≡ pos (capacity - length (contents s))
  unfolding free_size read_int
  free_size-sure s =
      let read_back =
        signed32-mem_bytes (capacity - length (contents s)) (omega (arith, ring.addressable)) in
      ground (
        arith,
        ring.get_freesize (replicate 4 0) s,
        read_back,
        sure.reads (reg_at cb_addr cbreg_cmd_get_freesize) (replicate 4 0) 4 timeout s,
      )

  pub read-sure :
      (buf : List ℕ) (buf_size : ℕ) (s : S)
      → let (ret, buf1, s1) = read h cb_addr buf buf_size timeout s in
        let n = min (buf_size % 2 ^ 16) (length (contents s)) in
        (ret ≡ pos n)
        × (buf1 ≡ take n (contents s) ++ drop n buf)
        × (contents s1 ≡ drop n (contents s))
  unfolding read fetch
  read-sure buf buf_size s =
      let (used, s1) = size h cb_addr timeout s in
      let n = clip (buf_size % 2 ^ 16) (to_ℕ used) in
      read-takes_front h cb_addr timeout capacity contents ring buf buf_size s
        (ground (arith, size-sure s, sure.reads (reg_at cb_addr cbreg_cmd_read) buf n timeout s1))

  pub write-sure :
      (bytes : List ℕ) (data_size : ℕ) (s : S)
      → let (ret, s1) = write h cb_addr bytes data_size timeout s in
        let n = min (data_size % 2 ^ 16) (capacity - length (contents s)) in
        (ret ≡ pos n) × (contents s1 ≡ contents s ++ take n bytes)
  unfolding write
  write-sure bytes data_size s =
      let (free, s1) = free_size h cb_addr timeout s in
      let n = clip (data_size % 2 ^ 16) (to_ℕ free) in
      write-appends h cb_addr timeout capacity contents ring bytes data_size s (
        ground (
          arith,
          free_size-sure s,
          sure.writes (reg_at cb_addr cbreg_cmd_write) bytes n timeout s1,
        ))

  pub gran_read-sure :
      (bytes : List ℕ) (gran_size nmemb : ℕ) (s : S)
      → 0 < gran_size
      → let (ret, bytes1, s1) = gran_read h cb_addr bytes gran_size nmemb timeout s in
        let k = min (nmemb % 2 ^ 16) (length (contents s) / gran_size) in
        k * gran_size < 2 ^ 16
        → (ret ≡ pos k)
          × (bytes1 ≡ take (k * gran_size) (contents s) ++ drop (k * gran_size) bytes)
          × (contents s1 ≡ drop (k * gran_size) (contents s))
  unfolding gran_read
  gran_read-sure bytes gran_size nmemb s positive fits =
      let (used, s1) = size h cb_addr timeout s in
      let n = clip (to_ℕ used / gran_size) (nmemb % 2 ^ 16) in
      gran_read-takes_elements h cb_addr timeout capacity contents ring bytes gran_size nmemb s
        positive fits
        (ground (
          arith,
          size-sure s,
          sure.reads (reg_at cb_addr cbreg_cmd_read) bytes (n * gran_size % 2 ^ 32 % 2 ^ 16) timeout
              s1,
        ))

  pub gran_write-sure :
      (bytes : List ℕ) (gran_size nmemb : ℕ) (s : S)
      → let (ret, s1) = gran_write h cb_addr bytes gran_size nmemb timeout s in
        let k = min (nmemb % 2 ^ 16) ((capacity - length (contents s)) / gran_size) in
        k * gran_size < 2 ^ 16
        → (ret ≡ pos k) × (contents s1 ≡ contents s ++ take (k * gran_size) bytes)
  unfolding gran_write
  gran_write-sure bytes gran_size nmemb s fits =
      let (free, s1) = free_size h cb_addr timeout s in
      let n = clip (to_ℕ free / gran_size) (nmemb % 2 ^ 16) in
      gran_write-appends_elements h cb_addr timeout capacity contents ring bytes gran_size nmemb s
        fits
        (ground (
          arith,
          free_size-sure s,
          sure.writes (reg_at cb_addr cbreg_cmd_write) bytes (n * gran_size % 2 ^ 32 % 2 ^ 16)
              timeout s1,
        ))

  pub clean-sure :
      (s : S) → let (ret, s1) = clean h cb_addr timeout s in (ret ≡ pos 0) × (contents s1 ≡ [])
  unfolding clean
  clean-sure s =
      clean-empties h cb_addr timeout capacity contents ring s
        (ground (arith, sure.writes (reg_at cb_addr cbreg_cmd_clean) (0x00 ∷ []) 1 timeout s))
